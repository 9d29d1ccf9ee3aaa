-- ===== src/Align/Rounding.antt =====
-- Rounding yields the nearest multiple, as long as the sum does not wrap.
use caprese.Common.{ℕ, ◌+◌, ◌-◌, ◌*◌, ◌/◌, ◌%◌, ◌≤◌, ◌<◌, ◌≡◌, arith}
use caprese.Config.{word}
use caprese.Align.{round_up, round_down}

-- `n / a * a` is the greatest multiple of `a` that `n` reaches.
floor_bounds : (n a : ℕ) → 0 < a → (n / a * a ≤ n) × (n < n / a * a + a) × (n / a * a % a ≡ 0)
floor_bounds n a pos = grind arith

-- `round_up` yields a multiple of the alignment, not below the value and less than one alignment
-- above it, whenever the alignment is positive and value + alignment does not pass the end of
-- the address space.
pub round_up_least :
    (v a : ℕ)
    → 0 < a
    → v + a ≤ word
    → (v ≤ round_up v a) × (round_up v a < v + a) × (round_up v a % a ≡ 0)
unfolding round_up
round_up_least v a pos fits = ground (arith, floor_bounds (v + a - 1) a)

pub round_down_greatest :
    (v a : ℕ)
    → 0 < a
    → v < word
    → (round_down v a ≤ v) × (v < round_down v a + a) × (round_down v a % a ≡ 0)
unfolding round_down
round_down_greatest v a pos fits = ground (arith, floor_bounds v a)
