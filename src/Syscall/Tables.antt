-- ===== src/Syscall/Tables.antt =====
-- src/kernel/syscall/ns_page_table_cap.cpp.
use caprese.Common.{ℕ, ◌==◌, Bool, not, if◌then◌else◌}
use caprese.Cap.{PageTableCap}
use caprese.Kernel.{Error, Cmd, ◌>>=◌, get_slot, page_table_member}
use caprese.Mapping.{
  map_page_table_cap, unmap_page_table_cap, map_virt_page_cap, unmap_virt_page_cap,
  remap_virt_page_cap,
}
use caprese.Syscall.Lookup.{
  Answer, succeed, fail, bit, or_errno, lookup_own, lookup_page_table_cap, found_or_errno,
}

unfoldable pub with_table_cap : (ℕ → ℕ) → (PageTableCap → Cmd Answer) → Cmd Answer
with_table_cap arg go =
    found_or_errno (lookup_page_table_cap arg)
      λ slot. do s ← get_slot slot; c ← page_table_member s.cap; go c

-- `args[i]` as a bool
abbrev flag : (ℕ → ℕ) → ℕ → Bool
flag arg i = not (arg i == 0)

unfoldable pub sys_page_table_cap_mapped : (ℕ → ℕ) → Cmd Answer
sys_page_table_cap_mapped arg = with_table_cap arg λ c. succeed (bit c.mapped)

-- Level and address are there only for a table that is mapped.
unfoldable pub sys_page_table_cap_level : (ℕ → ℕ) → Cmd Answer
sys_page_table_cap_level arg =
    with_table_cap arg λ c. if not c.mapped then fail Error.cap_state else succeed c.level

unfoldable pub sys_page_table_cap_virt_addr_base : (ℕ → ℕ) → Cmd Answer
sys_page_table_cap_virt_addr_base arg =
    with_table_cap arg λ c. if not c.mapped then fail Error.cap_state else succeed c.virt_addr_base

unfoldable pub sys_page_table_cap_map_table : (ℕ → ℕ) → Cmd Answer
sys_page_table_cap_map_table arg =
    found_or_errno (lookup_page_table_cap arg)
      λ slot. do child ← lookup_own (arg 2); b ← map_page_table_cap slot (arg 1) child; or_errno b

unfoldable pub sys_page_table_cap_unmap_table : (ℕ → ℕ) → Cmd Answer
sys_page_table_cap_unmap_table arg =
    found_or_errno (lookup_page_table_cap arg)
      λ slot. do child ← lookup_own (arg 2); b ← unmap_page_table_cap slot (arg 1) child; or_errno b

unfoldable pub sys_page_table_cap_map_page : (ℕ → ℕ) → Cmd Answer
sys_page_table_cap_map_page arg = found_or_errno (lookup_page_table_cap arg) λ slot. do
  page ← lookup_own (arg 5)
  b ← map_virt_page_cap slot (arg 1) page (flag arg 2) (flag arg 3) (flag arg 4)
  or_errno b

unfoldable pub sys_page_table_cap_unmap_page : (ℕ → ℕ) → Cmd Answer
sys_page_table_cap_unmap_page arg =
    found_or_errno (lookup_page_table_cap arg)
      λ slot. do page ← lookup_own (arg 2); b ← unmap_virt_page_cap slot (arg 1) page; or_errno b

unfoldable pub sys_page_table_cap_remap_page : (ℕ → ℕ) → Cmd Answer
sys_page_table_cap_remap_page arg = found_or_errno (lookup_page_table_cap arg) λ slot. do
  page ← lookup_own (arg 5)
  old ← lookup_own (arg 6)
  b ← remap_virt_page_cap slot (arg 1) page (flag arg 2) (flag arg 3) (flag arg 4) old
  or_errno b
