-- ===== src/Examples/Starting.antt =====
-- The start of a task, and what is taken back from one.
use caprese.Common.{
  ℕ, ◌+◌, ◌%◌, ◌^◌, ◌≡◌, refl, true, false, some, [], ◌∷◌, ◌==◌, if◌then◌else◌, arith,
}
use caprese.Cap.{Capability}
use caprese.Kernel.{Kernel, Ensures}
use caprese.Page.{as_map, get_page_table_index, get_next_page, is_enabled, is_table, is_user}
use caprese.CapSlot.{get_cap_space}
use caprese.Task.Slots.{IsFreeList}
use caprese.Creation.{map_memory, mapped_pages}
use caprese.Creation.PhysicalMap.{map_memory-covers}
use caprese.Revocation.{revoke_cap}
use caprese.Revocation.TakeBack.{revoke_cap-takes_back}
use caprese.Examples.Kernels.{quiet, slot_of, empty_slot, page_of_memory}
use caprese.Examples.Endpoints.{layout}

map_memory_example :
    Ensures
      (λ _ k'.
        let e = k'.tables 4096 (get_page_table_index (as_map 80000) 2) in
        (is_enabled e ≡ true)
        × (is_table e ≡ false)
        × (is_user e ≡ false)
        × (get_next_page e + 80000 % 2 ^ 30 ≡ as_map 80000))
      (map_memory 4096 0 mapped_pages quiet)
map_memory_example =
    map_memory-covers 4096 quiet 80000 (ground arith) (λ a low high. refl) (ground arith)

-- The slot 4120 was delegated to 4160, and the task has no free slot.
abbrev delegated : Kernel
delegated = record quiet {
  slots = λ p.
      if p == 4120
      then slot_of Capability.zombie 0 4160
      else if p == 4160
      then slot_of (Capability.memory page_of_memory) 4120 0
      else empty_slot;
}

space_4120 : get_cap_space 4120 ≡ 4096
unfolding get_cap_space
space_4120 = refl

space_4160 : get_cap_space 4160 ≡ 4096
unfolding get_cap_space
space_4160 = refl

revoke_example :
    Ensures
      (λ r k'.
        (r ≡ some true)
        × IsFreeList k' 8192 (4160 ∷ [])
        × ((p : ℕ)
            → (k'.slots p).cap ≡ (
                if p == 4120
                then Capability.memory page_of_memory
                else if p == 4160
                then Capability.null
                else (delegated.slots p).cap)))
      (revoke_cap layout 2 4120 delegated)
revoke_example = revoke_cap-takes_back layout 0 4120 4160 8192 delegated [] (record {
  src_set = ground arith;
  dst_set = ground arith;
  apart = ground arith;
  given = refl;
  kept = refl;
  next_is = refl;
  prev_is = refl;
  src_owner = record {
    space_set = ground (arith, space_4120);
    task_set = ground arith;
    in_use = refl;
  };
  dst_owner = record {
    space_set = ground (arith, space_4160);
    task_set = ground arith;
    in_use = refl;
  };
  task_set = ground arith;
  of_task = refl;
  free = record {
    chain = record { linked = tt; distinct = tt };
    top = refl;
    counted = refl;
    in_range = ground arith;
    empty_slots = λ p h. absurd (ground arith);
    owned = λ p h. absurd (ground arith);
  };
  room = ground arith;
  src_used = refl;
  dst_used = refl;
  next_used = refl;
})
