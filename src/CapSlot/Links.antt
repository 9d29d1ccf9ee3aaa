-- ===== src/CapSlot/Links.antt =====
-- How the calls on slots change the links.
use caprese.Common.{
  ℕ, suc, ◌≡◌, ◌≢◌, inl, inr, Bool-cases, Bool, true, false, ◌==◌, if◌then◌else◌, arith, ==-refl,
}
use caprese.Kernel.{
  Kernel, CapSlot, TaskState, in_state, ok, get_slot, get_task, get_meta_info, set_prev, set_next,
  with_prev, with_next,
}
use caprese.CapSlot.{get_cap_space, live_owner, insert_after, find_tail, erase_this}
use caprese.CapSlot.Fields.{slot_fields, prev-with_next, next-with_next}

-- The slot lies in a capability space whose task is in use.
pub record HasOwner (k : Kernel) (slot : ℕ) : Type 0 where
  pub space_set : get_cap_space slot ≢ 0
  pub task_set : (k.spaces (get_cap_space slot)).task ≢ 0
  pub in_use : in_state TaskState.unused (k.tasks (k.spaces (get_cap_space slot)).task) ≡ false

pub live_owner_ok : (slot : ℕ) (k : Kernel) → HasOwner k slot → live_owner slot k ≡ ok tt k
unfolding live_owner get_meta_info get_task
live_owner_ok slot k h = ground (arith, h.in_use)

-- The links after `this->insert_after(slot)` for a single slot.
pub inserted_after : ℕ → ℕ → (ℕ → CapSlot) → ℕ → CapSlot
inserted_after this slot f =
    let n = (f this).next in
    let g = if n == 0 then f else with_next slot n (with_prev n slot f) in
    with_prev slot this (with_next this slot g)

pub cap-inserted_after :
    (this slot : ℕ) (f : ℕ → CapSlot) (a : ℕ) → (inserted_after this slot f a).cap ≡ (f a).cap
unfolding inserted_after
cap-inserted_after this slot f a = elim (Bool-cases ((f this).next == 0)) [
  | inl e ↦ rw e (simp slot_fields)
  | inr e ↦ rw e (simp slot_fields)
]

pub prev-inserted_after :
    (this slot : ℕ) (f : ℕ → CapSlot) → (inserted_after this slot f slot).prev ≡ this
unfolding inserted_after
prev-inserted_after this slot f = simp (slot_fields, ==-refl slot)

pub next-inserted_after :
    (this slot : ℕ) (f : ℕ → CapSlot) → (inserted_after this slot f this).next ≡ slot
unfolding inserted_after
next-inserted_after this slot f = simp (slot_fields, ==-refl this)

pub insert_after_ok :
    (fuel this slot : ℕ) (k : Kernel)
    → this ≢ 0
    → slot ≢ 0
    → (k.slots slot).prev ≡ 0
    → (k.slots slot).next ≡ 0
    → HasOwner k slot
    → insert_after (suc fuel) this slot k
      ≡ ok tt (record k { slots = inserted_after this slot k.slots })
unfolding insert_after find_tail inserted_after get_slot set_prev set_next
insert_after_ok fuel this slot k a b p n o = ground (arith, live_owner_ok slot k o)

-- The links after `slot->erase_this()`; `alone` says whether nothing precedes, or follows, it.
pub erased : Bool → Bool → ℕ → ℕ → ℕ → (ℕ → CapSlot) → ℕ → CapSlot
erased no_prev no_next slot p n f =
    let g = if no_prev then f else with_next p n f in
    with_next slot 0 (with_prev slot 0 (if no_next then g else with_prev n p g))

module _ (slot p n : ℕ) (f : ℕ → CapSlot) (a : ℕ) where
  pub cap-erased : (b c : Bool) → (erased b c slot p n f a).cap ≡ (f a).cap
  unfolding erased
  cap-erased true true = simp slot_fields
  cap-erased true false = simp slot_fields
  cap-erased false true = simp slot_fields
  cap-erased false false = simp slot_fields

  pub prev-erased :
      (b c : Bool)
      → (erased b c slot p n f a).prev
        ≡ (if a == slot then 0 else if c then (f a).prev else if a == n then p else (f a).prev)
  unfolding erased
  prev-erased true true = simp slot_fields
  prev-erased true false = simp slot_fields
  prev-erased false true = simp slot_fields
  prev-erased false false = simp slot_fields

  pub next-erased :
      (b c : Bool)
      → (erased b c slot p n f a).next
        ≡ (if a == slot then 0 else if b then (f a).next else if a == p then n else (f a).next)
  unfolding erased
  next-erased true true = simp slot_fields
  next-erased true false = simp slot_fields
  next-erased false true = simp slot_fields
  next-erased false false = simp slot_fields

abbrev pub erased_slots : ℕ → Kernel → ℕ → CapSlot
erased_slots slot k =
    let p = (k.slots slot).prev in
    let n = (k.slots slot).next in erased (p == 0) (n == 0) slot p n k.slots

pub erase_this_ok :
    (slot : ℕ) (k : Kernel)
    → slot ≢ 0
    → ((k.slots slot).prev == slot) ≡ false
    → HasOwner k slot
    → erase_this slot k
      ≡ ok
          (if (k.slots slot).next == 0 then (k.slots slot).prev else (k.slots slot).next)
          (record k { slots = erased_slots slot k })
unfolding erase_this erased get_slot set_prev set_next
erase_this_ok slot k ne self o =
    let p = (k.slots slot).prev in
    let n = (k.slots slot).next in
    ground (
      arith,
      live_owner_ok slot k o,
      prev-with_next p n k.slots slot,
      next-with_next p n k.slots slot,
    )
