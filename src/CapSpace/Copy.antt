-- ===== src/CapSpace/Copy.antt =====
-- Copying a capability when no slot is free.
use caprese.Common.{ℕ, ◌≡◌, ◌≢◌, [], arith, false}
use caprese.Cap.{Capability, EndpointCap}
use caprese.Kernel.{Kernel, Error, Stop, ok, stop, get_task, get_slot, get_meta_info}
use caprese.CapSlot.{get_cap_space, insert_after}
use caprese.CapSlot.Links.{HasOwner}
use caprese.Task.{is_dead, insert_cap}
use caprese.Task.Slots.{IsFreeList, pop_free_slots_empty}
use caprese.CapSpace.Move.{copy_cap, copy_slot, owning_task}

insert_cap_empty :
    (task : ℕ) (k : Kernel) (c : Capability)
    → task ≢ 0
    → is_dead (k.tasks task) ≡ false
    → IsFreeList k task []
    → insert_cap task c k ≡ ok 0 (record k { errno = Error.out_of_cap_space })
unfolding insert_cap get_task
insert_cap_empty task k c ne alive v = ground (arith, pop_free_slots_empty task k ne v)

copy_slot_empty :
    (fuel task src : ℕ) (k : Kernel) (c : EndpointCap)
    → task ≢ 0
    → is_dead (k.tasks task) ≡ false
    → IsFreeList k task []
    → copy_slot fuel task src (Capability.endpoint c) k ≡ stop Stop.assertion
unfolding copy_slot insert_after
copy_slot_empty fuel task src k c ne alive v =
    rw (insert_cap_empty task k (Capability.endpoint c) ne alive v) (ground arith)

copy_run :
    (fuel src : ℕ) (k : Kernel)
    → src ≢ 0
    → HasOwner k src
    → copy_slot fuel (k.spaces (get_cap_space src)).task src (k.slots src).cap k
      ≡ stop Stop.assertion
    → copy_cap fuel src k ≡ stop Stop.assertion
unfolding copy_cap owning_task get_meta_info get_task get_slot
copy_run fuel src k ne o e = ground (arith, o.space_set, o.task_set, e)

-- `copy_cap` of an endpoint's capability stops the kernel at a failed assert when the task that
-- owns it, alive, has no free slot left: the null pointer that `insert_cap` returns is handed to
-- `insert_after`.
pub copy_cap_full :
    (fuel src : ℕ) (k : Kernel) (c : EndpointCap)
    → src ≢ 0
    → HasOwner k src
    → is_dead (k.tasks (k.spaces (get_cap_space src)).task) ≡ false
    → IsFreeList k (k.spaces (get_cap_space src)).task []
    → (k.slots src).cap ≡ Capability.endpoint c
    → copy_cap fuel src k ≡ stop Stop.assertion
copy_cap_full fuel src k c ne o alive v e =
    copy_run fuel src k ne o
      (rw e (copy_slot_empty fuel (k.spaces (get_cap_space src)).task src k c o.task_set alive v))
