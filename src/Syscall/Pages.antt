-- ===== src/Syscall/Pages.antt =====
-- src/kernel/syscall/ns_virt_page_cap.cpp.
use caprese.Common.{ℕ, not, if◌then◌else◌}
use caprese.Cap.{VirtPageCap}
use caprese.Kernel.{Error, Cmd, ◌>>=◌, get_slot, virt_page_member}
use caprese.Syscall.Lookup.{Answer, succeed, fail, bit, lookup_virt_page_cap, found_or_errno}

unfoldable pub with_page_cap : (ℕ → ℕ) → (VirtPageCap → Cmd Answer) → Cmd Answer
with_page_cap arg go =
    found_or_errno (lookup_virt_page_cap arg)
      λ slot. do s ← get_slot slot; c ← virt_page_member s.cap; go c

unfoldable pub sys_virt_page_cap_mapped : (ℕ → ℕ) → Cmd Answer
sys_virt_page_cap_mapped arg = with_page_cap arg λ c. succeed (bit c.mapped)

unfoldable pub sys_virt_page_cap_readable : (ℕ → ℕ) → Cmd Answer
sys_virt_page_cap_readable arg = with_page_cap arg λ c. succeed (bit c.readable)

unfoldable pub sys_virt_page_cap_writable : (ℕ → ℕ) → Cmd Answer
sys_virt_page_cap_writable arg = with_page_cap arg λ c. succeed (bit c.writable)

unfoldable pub sys_virt_page_cap_executable : (ℕ → ℕ) → Cmd Answer
sys_virt_page_cap_executable arg = with_page_cap arg λ c. succeed (bit c.executable)

unfoldable pub sys_virt_page_cap_level : (ℕ → ℕ) → Cmd Answer
sys_virt_page_cap_level arg = with_page_cap arg λ c. succeed c.level

unfoldable pub sys_virt_page_cap_phys_addr : (ℕ → ℕ) → Cmd Answer
sys_virt_page_cap_phys_addr arg = with_page_cap arg λ c. succeed c.phys_addr

-- The address is there only for a page that is mapped.
unfoldable pub sys_virt_page_cap_virt_addr : (ℕ → ℕ) → Cmd Answer
sys_virt_page_cap_virt_addr arg =
    with_page_cap arg λ c. if not c.mapped then fail Error.cap_state else succeed c.address
