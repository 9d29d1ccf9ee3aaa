-- ===== src/Examples/Slots.antt =====
-- Slots, memory objects and descriptors.
use caprese.Common.{ℕ, ◌+◌, ◌^◌, ◌<◌, ◌≡◌, refl, true, [], ◌∷◌, ◌==◌, if◌then◌else◌, arith}
use caprese.Align.{round_up}
use caprese.Cap.{EndpointCap, Capability, MemoryCap}
use caprese.Kernel.{stop, Stop, Kernel, Pte, Ensures, and_then, ok}
use caprese.Page.{get_next_page}
use caprese.CapSlot.{get_cap_space, erase_this}
use caprese.CapSlot.Links.{HasOwner}
use caprese.CapSlot.Chains.{IsSlotChain, erase_this-IsSlotChain}
use caprese.Object.{object_base, create_memory_object}
use caprese.Object.Carve.{
  CanCreate, IsRegion, IsCarved, create_memory_object-IsCarved, create_memory_object_outside,
}
use caprese.Task.{pop_free_slots, push_free_slots}
use caprese.Task.FreeStack.{push_free_slots-IsFreeList}
use caprese.Task.Slots.{IsFreeList, pop_free_slots-IsFreeList}
use caprese.CapSpace.{copy_cap, delegate_cap, lookup_cap, get_cap_slot_index}
use caprese.CapSpace.Copy.{copy_cap_full}
use caprese.CapSpace.Delegate.{delegate_cap-moved}
use caprese.CapSpace.Lookup.{IsDescriptor, descriptor_address, lookup_cap-get_cap_slot_index}
use caprese.Examples.Kernels.{quiet, slot_of, no_entry, page_of_memory, holding, two_free}

module _ (p : ℕ) (c : Capability) (in_space : get_cap_space p ≡ 4096) where
  owner-holding : HasOwner (holding c) p
  owner-holding = record {
    space_set = ground (arith, in_space);
    task_set = ground arith;
    in_use = refl;
  }

  owner-two_free : HasOwner (two_free c) p
  owner-two_free = record {
    space_set = ground (arith, in_space);
    task_set = ground arith;
    in_use = refl;
  }

abbrev memory_kernel : Kernel
memory_kernel = holding (Capability.memory page_of_memory)

can_create : CanCreate memory_kernel 4160 4120 page_of_memory
unfolding get_cap_space
can_create = record {
  src_set = ground arith;
  dst_set = ground arith;
  apart = ground arith;
  src_cap = refl;
  dst_cap = refl;
  no_prev = refl;
  no_next = refl;
  owner = owner-holding 4160 (Capability.memory page_of_memory) refl;
}

page-IsRegion : IsRegion page_of_memory
page-IsRegion = record { in_memory = omega arith; used_inside = omega arith }

-- An object of 100 bytes at a multiple of 64.
create_example :
    Ensures
      (λ r k'.
        (m' : MemoryCap) × (o : MemoryCap) × (r ≡ 4160)
        × ((k'.slots 4120).cap ≡ Capability.memory m')
        × ((k'.slots 4160).cap ≡ Capability.memory o)
        × IsCarved page_of_memory m' o 100 64)
      (create_memory_object 2 4160 4120 100 64 memory_kernel)
unfolding object_base round_up
create_example =
    create_memory_object-IsCarved 1 4160 4120 100 64 memory_kernel page_of_memory can_create
      page-IsRegion (omega arith) (omega arith) (omega arith) (omega arith)

-- An object of 100 bytes at a multiple of 2^20, which lies behind the page.
outside_example :
    Ensures
      (λ r k'.
        (o : MemoryCap) × (r ≡ 4160)
        × ((k'.slots 4160).cap ≡ Capability.memory o)
        × (page_of_memory.phys_addr + page_of_memory.size < o.phys_addr)
        × (o.size ≡ 100))
      (create_memory_object 2 4160 4120 100 1048576 memory_kernel)
unfolding object_base round_up
outside_example =
    create_memory_object_outside 1 4160 4120 100 1048576 memory_kernel page_of_memory can_create
      page-IsRegion (omega arith) (omega arith) (omega arith) (omega arith)

abbrev free_kernel : Kernel
free_kernel = two_free (Capability.memory page_of_memory)

free_list : IsFreeList free_kernel 8192 (4160 ∷ 4200 ∷ [])
unfolding get_cap_space
free_list = record {
  chain = record { linked = ground arith; distinct = ground arith };
  top = refl;
  counted = refl;
  in_range = omega arith;
  empty_slots = λ p h. ground arith;
  owned = λ p h. owner-two_free p (Capability.memory page_of_memory) (ground arith);
}

pop_example :
    Ensures
      (λ r k'.
        (r ≡ 4160)
        × IsFreeList k' 8192 (4200 ∷ [])
        × ((k'.slots 4160).prev ≡ 0)
        × ((k'.slots 4160).next ≡ 0)
        × ((k'.slots 4160).cap ≡ Capability.null))
      (pop_free_slots 8192 free_kernel)
pop_example = pop_free_slots-IsFreeList 8192 free_kernel 4160 (4200 ∷ []) (ground arith) free_list

erase_example :
    Ensures
      (λ r k'.
        (r ≡ 4160)
        × IsSlotChain k'.slots (4160 ∷ [])
        × ((k'.slots 4200).prev ≡ 0)
        × ((k'.slots 4200).next ≡ 0)
        × ((p : ℕ) → (k'.slots p).cap ≡ (free_kernel.slots p).cap))
      (erase_this 4200 free_kernel)
unfolding get_cap_space
erase_example =
    erase_this-IsSlotChain 4200 free_kernel (4160 ∷ []) [] free_list.chain
      (owner-two_free 4200 (Capability.memory page_of_memory) refl)

delegate_example :
    Ensures
      (λ r k'.
        (r ≡ 4160)
        × ((k'.slots 4120).next ≡ 4160)
        × ((k'.slots 4160).prev ≡ 4120)
        × ((p : ℕ)
            → (k'.slots p).cap ≡ (
                if p == 4120
                then Capability.zombie
                else if p == 4160
                then Capability.memory page_of_memory
                else (free_kernel.slots p).cap)))
      (delegate_cap 2 8192 4120 free_kernel)
unfolding get_cap_space
delegate_example =
    delegate_cap-moved 1 8192 4120 free_kernel 4160 (4200 ∷ []) (ground arith)
      (owner-two_free 4120 (Capability.memory page_of_memory) refl) refl refl (ground arith) refl
      free_list

abbrev entry_to : ℕ → Pte
entry_to n = record no_entry { v = true; next_page_number = n }

-- The page of the capability space is mapped at its place.
abbrev mapped_kernel : Kernel
mapped_kernel = record quiet {
  slots = λ _. slot_of Capability.zombie 0 0;
  tables = λ t _.
      if t == 4096 then entry_to 2 else if t == 2 ^ 37 + 8192 then entry_to 3 else entry_to 4;
}

mapped_kernel-IsDescriptor : IsDescriptor mapped_kernel 8192 5 (2 ^ 37 + 16384)
unfolding descriptor_address get_next_page
mapped_kernel-IsDescriptor = record {
  task_set = ground arith;
  alive = refl;
  in_range = omega arith;
  spaces_small = omega arith;
  mapped = record {
    mega_table = 2 ^ 37 + 8192;
    kilo_table = 2 ^ 37 + 12288;
    root_set = ground arith;
    mega_set = ground arith;
    kilo_set = ground arith;
    giga_entry = refl;
    giga_next = refl;
    mega_entry = refl;
    mega_next = refl;
    kilo_entry = refl;
    kilo_next = refl;
  };
  aligned = omega arith;
  page_set = ground arith;
  page_small = omega arith;
  filled = refl;
}

lookup_example : and_then (lookup_cap 8192 5 mapped_kernel) get_cap_slot_index ≡ ok 5 mapped_kernel
lookup_example =
    lookup_cap-get_cap_slot_index 8192 5 (2 ^ 37 + 16384) mapped_kernel mapped_kernel-IsDescriptor
      refl

abbrev some_endpoint : EndpointCap
some_endpoint = record { sendable = true; receivable = true; endpoint = 65536 }

abbrev endpoint_kernel : Kernel
endpoint_kernel = holding (Capability.endpoint some_endpoint)

none_free : IsFreeList endpoint_kernel 8192 []
none_free = record {
  chain = record { linked = tt; distinct = tt };
  top = refl;
  counted = refl;
  in_range = omega arith;
  empty_slots = λ p h. ground arith;
  owned = λ p h. ground arith;
}

slot_space : get_cap_space 4120 ≡ 4096
unfolding get_cap_space
slot_space = refl

copy_example : copy_cap 2 4120 endpoint_kernel ≡ stop Stop.assertion
copy_example =
    copy_cap_full 2 4120 endpoint_kernel some_endpoint (ground arith)
      (owner-holding 4120 (Capability.endpoint some_endpoint) slot_space) refl none_free refl

push_free_slots_example :
    Ensures
      (λ _ k'.
        IsFreeList k' 8192 (4120 ∷ 4160 ∷ 4200 ∷ [])
        × ((p : ℕ)
            → (k'.slots p).cap
              ≡ (if p == 4120 then Capability.null else (free_kernel.slots p).cap)))
      (push_free_slots 8192 4120 free_kernel)
unfolding get_cap_space
push_free_slots_example =
    push_free_slots-IsFreeList 8192 4120 free_kernel (4160 ∷ 4200 ∷ []) (ground arith) free_list
      (record {
        slot_set = ground arith;
        no_prev = refl;
        no_next = refl;
        owner = owner-two_free 4120 (Capability.memory page_of_memory) refl;
        of_task = refl;
        new = refl;
        room = omega arith;
      })
