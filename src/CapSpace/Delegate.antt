-- ===== src/CapSpace/Delegate.antt =====
-- A capability that is handed to another task.
use caprese.Common.{
  ℕ, suc, ◌≡◌, ◌≢◌, refl, ◌∙◌, ap, false, List, [], ◌∷◌, ◌==◌, if◌then◌else◌, arith, ==-refl,
}
use caprese.Cap.{Capability}
use caprese.Chain.{first}
use caprese.Kernel.{
  Kernel, CapSlot, Ensures, ok, get_task, get_slot, get_meta_info, set_cap, with_cap,
}
use caprese.CapSlot.{get_cap_space, insert_after}
use caprese.CapSlot.Links.{
  HasOwner, inserted_after, cap-inserted_after, prev-inserted_after, next-inserted_after,
  insert_after_ok, erased_slots,
}
use caprese.CapSlot.Fields.{slot_fields}
use caprese.CapSlot.Chains.{erased_isolated}
use caprese.Task.{is_dead, insert_cap}
use caprese.Task.Slots.{IsFreeList, popped, pop_ok, popped-HasOwner}
use caprese.Task.{pop_free_slots}
use caprese.CapSpace.Move.{owning_task, is_void, delegate_cap}

insert_run :
    (task : ℕ) (k k' : Kernel) (x : ℕ) (c : Capability)
    → task ≢ 0
    → is_dead (k.tasks task) ≡ false
    → x ≢ 0
    → pop_free_slots task k ≡ ok x k'
    → insert_cap task c k ≡ ok x (record k' { slots = with_cap x c k'.slots })
unfolding insert_cap get_task set_cap
insert_run task k k' x c ne alive nx e = ground arith

delegate_run :
    (fuel task src : ℕ) (k k' k'' : Kernel) (x : ℕ)
    → HasOwner k src
    → src ≢ 0
    → task ≢ 0
    → is_void (k.slots src) ≡ false
    → is_dead (k.tasks task) ≡ false
    → is_dead (k.tasks (k.spaces (get_cap_space src)).task) ≡ false
    → x ≢ 0
    → insert_cap task (k.slots src).cap k ≡ ok x k'
    → insert_after (suc fuel) src x (record k' { slots = with_cap src Capability.zombie k'.slots })
      ≡ ok tt k''
    → delegate_cap (suc fuel) task src k ≡ ok x k''
unfolding delegate_cap owning_task get_meta_info get_task get_slot set_cap
delegate_run fuel task src k k' k'' x o ns nt nv a b nx e f =
    ground (arith, o.space_set, o.task_set, e, f)

-- The slots when `x` has received `c` and `src` has become a zombie.
handed : ℕ → ℕ → Capability → (ℕ → CapSlot) → ℕ → CapSlot
handed src x c f = with_cap src Capability.zombie (with_cap x c f)

module _ (src x : ℕ) (c : Capability) (f : ℕ → CapSlot) where
  prev-handed : (handed src x c f x).prev ≡ (f x).prev
  unfolding handed
  prev-handed = simp slot_fields

  next-handed : (handed src x c f x).next ≡ (f x).next
  unfolding handed
  next-handed = simp slot_fields

  cap-linked_after :
      (p : ℕ)
      → (inserted_after src x (handed src x c f) p).cap
        ≡ (if p == src then Capability.zombie else if p == x then c else (f p).cap)
  unfolding handed
  cap-linked_after p = cap-inserted_after src x _ p ∙ simp slot_fields

-- A capability in `src` that is neither null nor a zombie, handed by `delegate_cap` to a task
-- with a free slot `x` while both tasks are alive: the call returns `x`, which holds the
-- capability and stands directly behind `src` in its chain; `src` is a zombie; every other slot
-- keeps its capability.
pub delegate_cap-moved :
    (fuel task src : ℕ) (k : Kernel) (x : ℕ) (ys : List ℕ)
    → src ≢ 0
    → HasOwner k src
    → is_dead (k.tasks (k.spaces (get_cap_space src)).task) ≡ false
    → is_void (k.slots src) ≡ false
    → task ≢ 0
    → is_dead (k.tasks task) ≡ false
    → IsFreeList k task (x ∷ ys)
    → Ensures
        (λ r k'.
          (r ≡ x)
          × ((k'.slots src).next ≡ x)
          × ((k'.slots x).prev ≡ src)
          × ((p : ℕ)
              → (k'.slots p).cap ≡ (
                  if p == src
                  then Capability.zombie
                  else if p == x
                  then (k.slots src).cap
                  else (k.slots p).cap)))
        (delegate_cap (suc fuel) task src k)
unfolding popped handed
delegate_cap-moved fuel task src k x ys ns o live nv nt alive v =
    let c = (k.slots src).cap in
    let e = erased_isolated x k [] ys v.chain in
    let g = erased_slots x k in
    let own = popped-HasOwner task k x ys nt v x (v.owned x (ground (arith, ==-refl x))) in
    let nx = v.chain.linked.0 in
    let k₀ = popped task x (first ys 0) k in
    let k' = record k₀ { slots = with_cap x c g } in
    let inserted =
      insert_run task k k₀ x c nt alive nx (pop_ok task k x ys nt v ∙ ap (λ r. ok r k₀) v.top) in
    let linked =
      insert_after_ok fuel src x (record k' { slots = handed src x c g }) ns nx
        (prev-handed src x c g ∙ e.0) (next-handed src x c g ∙ e.1)
        (record { space_set = own.space_set; task_set = own.task_set; in_use = own.in_use }) in
    rw
      (delegate_run fuel task src k k'
        (record k' { slots = inserted_after src x (handed src x c g) }) x o ns nt nv alive live nx
        inserted linked)
      (
        refl,
        next-inserted_after src x (handed src x c g),
        prev-inserted_after src x (handed src x c g),
        λ p.
            cap-linked_after src x c g p
            ∙ ap (λ d. if p == src then Capability.zombie else if p == x then c else d) (e.2 p),
      )
