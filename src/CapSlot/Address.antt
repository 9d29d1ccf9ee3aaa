-- ===== src/CapSlot/Address.antt =====
-- Where slots lie in their pages.
use caprese.Common.{ℕ, ◌+◌, ◌%◌, ◌<◌, ◌≡◌, arith}
use caprese.Config.{word, page_size}
use caprese.CapSlot.{get_cap_space, slot_address, slots_per_space}

-- The page of each of the slots of a page-aligned capability space, which ends below the end of
-- the address space, is found from the slot's address alone.
pub get_cap_space-slot_address :
    (space i : ℕ)
    → space % page_size ≡ 0
    → space + page_size < word
    → i < slots_per_space
    → get_cap_space (slot_address space i) ≡ space
unfolding get_cap_space
get_cap_space-slot_address space i aligned small lt = ground arith
