-- ===== src/Align.antt =====
-- include/kernel/align.h: rounding to a multiple, on uintptr_t.
pub mod Rounding
use caprese.Common.{ℕ, ◌+◌, ◌-◌, ◌*◌, ◌/◌, ◌==◌, if◌then◌else◌}
use caprese.Config.{u64, sub64}

unfoldable pub round_up : ℕ → ℕ → ℕ
round_up value align =
    if align == 0 then value else u64 (sub64 (u64 (value + align)) 1 / align * align)

unfoldable pub round_down : ℕ → ℕ → ℕ
round_down value align = if align == 0 then value else u64 (value / align * align)
