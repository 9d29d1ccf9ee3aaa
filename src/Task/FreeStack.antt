-- ===== src/Task/FreeStack.antt =====
-- A slot that is given back becomes the top of the task's free slots.
use caprese.Common.{
  ℕ, suc, ◌+◌, ◌<◌, ◌≡◌, ◌≢◌, ◌⊎◌, refl, sym, ◌∙◌, ap, true, false, List, [], ◌∷◌, ◌==◌,
  if◌then◌else◌, arith, length, update, update_self, ==-false, ==-refl, Bool-cases, inl, inr,
}
use caprese.Config.{u64, word}
use caprese.Cap.{Capability}
use caprese.Chain.{first, has, Linked, push_front-Linked, ne_of_has, null_end, Linked-ne_null}
use caprese.Kernel.{
  Kernel, CapSlot, Ensures, ok, get_task, put_task, get_slot, set_cap, set_prev, set_next, with_cap,
  with_prev, with_next, get_meta_info,
}
use caprese.CapSlot.{get_cap_space, erase_this, insert_before, live_owner}
use caprese.CapSlot.Fields.{slot_fields, prev-with_cap, next-with_cap, cap-with_cap}
use caprese.CapSlot.Links.{
  HasOwner, erased_slots, erase_this_ok, live_owner_ok, cap-erased, prev-erased, next-erased,
}
use caprese.CapSlot.Chains.{prev_slot, next_slot}
use caprese.Task.FreeSlots.{push_free_slots}
use caprese.Task.Slots.{IsFreeList}

-- The slots after `x` has been put before `top`.
stacked : ℕ → ℕ → (ℕ → CapSlot) → ℕ → CapSlot
stacked top x g = if top == 0 then g else with_prev top x (with_next x top g)

module _ (top x : ℕ) (g : ℕ → CapSlot) (a : ℕ) where
  cap-stacked : (stacked top x g a).cap ≡ (g a).cap
  unfolding stacked
  cap-stacked = elim (Bool-cases (top == 0)) [ inl e ↦ rw e | inr e ↦ rw e (simp slot_fields) ]

  prev-stacked :
      (stacked top x g a).prev
      ≡ (if top == 0 then (g a).prev else if a == top then x else (g a).prev)
  unfolding stacked
  prev-stacked = elim (Bool-cases (top == 0)) [ inl e ↦ rw e | inr e ↦ rw e (simp slot_fields) ]

  next-stacked :
      (stacked top x g a).next
      ≡ (if top == 0 then (g a).next else if a == x then top else (g a).next)
  unfolding stacked
  next-stacked = elim (Bool-cases (top == 0)) [ inl e ↦ rw e | inr e ↦ rw e (simp slot_fields) ]

-- The kernel after the push, where `g` are the slots with `x` empty and alone.
pushed_free : ℕ → ℕ → (ℕ → CapSlot) → Kernel → Kernel
unfolding stacked
pushed_free task x g k = record k {
  slots = stacked (k.tasks task).free_slots x g;
  tasks = update k.tasks task (record (k.tasks task) {
    free_slots = x;
    free_slots_count = u64 ((k.tasks task).free_slots_count + 1);
  });
}

push_run :
    (task x r : ℕ) (k : Kernel) (f : ℕ → CapSlot)
    → task ≢ 0
    → x ≢ 0
    → get_cap_space x ≢ 0
    → (k.spaces (get_cap_space x)).task ≡ task
    → erase_this x k ≡ ok r (record k { slots = f })
    → live_owner x (record k { slots = with_cap x Capability.null f })
      ≡ ok tt (record k { slots = with_cap x Capability.null f })
    → (with_cap x Capability.null f x).prev ≡ 0
    → (with_cap x Capability.null f x).next ≡ 0
    → ((k.tasks task).free_slots ≢ 0
        → (with_cap x Capability.null f (k.tasks task).free_slots).prev ≡ 0)
    → push_free_slots task x k ≡ ok tt (pushed_free task x (with_cap x Capability.null f) k)
unfolding push_free_slots pushed_free insert_before get_slot set_prev set_next set_cap get_task
    put_task get_meta_info
push_run task x r k f nt nx ns st er lo px nxt h = ground arith

same_both : (n m : ℕ) → (if n == 0 then m else m) ≡ m
same_both n m = ground arith

same_or_null : (n : ℕ) → (if n == 0 then 0 else n) ≡ n
same_or_null n = ground arith

ne_top : (x : ℕ) (xs : List ℕ) → x ≢ 0 → has x xs ≡ false → (x == first xs 0) ≡ false
ne_top x [] ne out = ==-false x 0 ne
ne_top x (y ∷ ys) ne out = ground arith

null_or_old :
    (p x : ℕ) (c : Capability)
    → ((p == x) ≡ false → c ≡ Capability.null)
    → (if p == x then Capability.null else c) ≡ Capability.null
null_or_old p x c h = ground arith

own_or_old : (a x m n : ℕ) → (a ≡ x → m ≡ n) → (if a == x then n else m) ≡ m
own_or_old a x m n h = ground arith

-- A slot of the task that is linked to nothing and not free, with room for it in the count.
pub record CanPush (k : Kernel) (task x : ℕ) (xs : List ℕ) : Type 0 where
  pub slot_set : x ≢ 0
  pub no_prev : (k.slots x).prev ≡ 0
  pub no_next : (k.slots x).next ≡ 0
  pub owner : HasOwner k x
  pub of_task : (k.spaces (get_cap_space x)).task ≡ task
  pub new : has x xs ≡ false
  pub room : suc (length xs) < word

counted_up : (c n : ℕ) → c ≡ n → suc n < word → u64 (c + 1) ≡ suc n
counted_up c n e h = rw e (omega arith)

module _ (task x : ℕ) (k : Kernel) (xs : List ℕ) (ne : task ≢ 0) (v : IsFreeList k task xs)
    (c : CanPush k task x xs) where
  g : ℕ → CapSlot
  g = with_cap x Capability.null (erased_slots x k)

  g_prev : (a : ℕ) → (g a).prev ≡ (k.slots a).prev
  unfolding g
  g_prev a =
      prev-with_cap x Capability.null (erased_slots x k) a
      ∙ prev-erased x _ _ k.slots a _ _
      ∙ rw c.no_next (own_or_old a x _ 0 (λ e. rw e c.no_prev))

  g_next : (a : ℕ) → (g a).next ≡ (k.slots a).next
  unfolding g
  g_next a =
      next-with_cap x Capability.null (erased_slots x k) a
      ∙ next-erased x _ _ k.slots a _ _
      ∙ rw c.no_prev (own_or_old a x _ 0 (λ e. rw e c.no_next))

  g_cap : (a : ℕ) → (g a).cap ≡ (if a == x then Capability.null else (k.slots a).cap)
  unfolding g
  g_cap a =
      cap-with_cap x Capability.null (erased_slots x k) a
      ∙ ap (λ d. if a == x then Capability.null else d) (cap-erased x _ _ k.slots a _ _)

  result : Kernel
  unfolding g
  result = pushed_free task x g k

  top_alone : (k.tasks task).free_slots ≢ 0 → (k.slots (k.tasks task).free_slots).prev ≡ 0
  top_alone h = rw v.top (first_alone xs v.chain.linked (λ e. h (v.top ∙ e)))
    where
      first_alone :
          (ys : List ℕ)
          → Linked (prev_slot k.slots) (next_slot k.slots) 0 ys 0
          → first ys 0 ≢ 0
          → (k.slots (first ys 0)).prev ≡ 0
      first_alone [] l h = absurd (h refl)
      first_alone (y ∷ ys) l h = l.1

  push_ok : push_free_slots task x k ≡ ok tt result
  unfolding result g
  push_ok =
      push_run task x _ k (erased_slots x k) ne c.slot_set c.owner.space_set c.of_task
        (erase_this_ok x k c.slot_set (rw c.no_prev (==-false 0 x (λ e. c.slot_set (sym e))))
          c.owner)
        (live_owner_ok x (record k { slots = g })
          (record {
            space_set = c.owner.space_set;
            task_set = c.owner.task_set;
            in_use = c.owner.in_use;
          }))
        (g_prev x ∙ c.no_prev) (g_next x ∙ c.no_next)
        (λ h. g_prev (k.tasks task).free_slots ∙ top_alone h)

  result_prev :
      (p : ℕ)
      → has p xs ≡ true
      → (result.slots p).prev ≡ (if p == first xs 0 then x else (k.slots p).prev)
  unfolding result pushed_free
  result_prev p h =
      prev-stacked (k.tasks task).free_slots x g p
      ∙ rw (g_prev p, v.top)
          (null_end p (first xs 0) x _ (
            ==-false p 0
              (Linked-ne_null (prev_slot k.slots) (next_slot k.slots) p 0 0 xs v.chain.linked h)))

  result_next : (p : ℕ) → has p xs ≡ true → (result.slots p).next ≡ (k.slots p).next
  unfolding result pushed_free
  result_next p h =
      next-stacked (k.tasks task).free_slots x g p
      ∙ rw (g_next p, ne_of_has p x xs h c.new) (same_both (k.tasks task).free_slots _)

  result_x :
      ((result.slots x).prev ≡ 0)
      × ((result.slots x).next ≡ first xs 0)
      × ((p : ℕ) → (result.slots p).cap ≡ (if p == x then Capability.null else (k.slots p).cap))
  unfolding result pushed_free
  result_x = (
    prev-stacked (k.tasks task).free_slots x g x
        ∙ rw (g_prev x, v.top, c.no_prev, ne_top x xs c.slot_set c.new) (same_both (first xs 0) 0),
    next-stacked (k.tasks task).free_slots x g x
        ∙ rw (g_next x, v.top, c.no_next, ==-refl x) (same_or_null (first xs 0)),
    λ p. cap-stacked (k.tasks task).free_slots x g p ∙ g_cap p,
  )

  result-HasOwner : (p : ℕ) → HasOwner k p → HasOwner result p
  unfolding result pushed_free update
  result-HasOwner p o = record {
    space_set = o.space_set;
    task_set = o.task_set;
    in_use = ground (arith, o.in_use);
  }

  result_task :
      ((result.tasks task).free_slots ≡ x)
      × ((result.tasks task).free_slots_count ≡ u64 ((k.tasks task).free_slots_count + 1))
  unfolding result pushed_free
  result_task = (
    ap (λ t. t.free_slots) (update_self k.tasks task _),
    ap (λ t. t.free_slots_count) (update_self k.tasks task _),
  )

  result-IsFreeList : IsFreeList result task (x ∷ xs)
  result-IsFreeList = record {
    chain = record {
      linked =
          push_front-Linked (prev_slot k.slots) (next_slot k.slots) (prev_slot result.slots)
            (next_slot result.slots) x xs v.chain.linked v.chain.distinct c.slot_set result_x.0
            result_x.1 result_prev result_next;
      distinct = (c.new, v.chain.distinct);
    };
    top = result_task.0;
    counted = result_task.1 ∙ counted_up _ (length xs) v.counted c.room;
    in_range = c.room;
    empty_slots = λ p h. result_x.2 p ∙ null_or_old p x _ (λ e. v.empty_slots p (ground arith));
    owned = λ p h. result-HasOwner p (owned_by p (has_either p h));
  }
    where
      owned_by : (p : ℕ) → (p ≡ x) ⊎ (has p xs ≡ true) → HasOwner k p
      owned_by p (inl e) = rw e c.owner
      owned_by p (inr h) = v.owned p h

      has_either : (p : ℕ) → has p (x ∷ xs) ≡ true → (p ≡ x) ⊎ (has p xs ≡ true)
      has_either p h = elim (Bool-cases (has p xs)) [ inl e ↦ inr e | inr e ↦ inl (ground arith) ]

-- `push_free_slots` of a slot of the task that is linked to nothing and not yet free, with room
-- for it in the count, makes it the top of the task's free list, above the others in their
-- order, with the right count; the slot is empty, and every other slot keeps its capability.
pub push_free_slots-IsFreeList :
    (task x : ℕ) (k : Kernel) (xs : List ℕ)
    → task ≢ 0
    → IsFreeList k task xs
    → CanPush k task x xs
    → Ensures
        (λ _ k'.
          IsFreeList k' task (x ∷ xs)
          × ((p : ℕ) → (k'.slots p).cap ≡ (if p == x then Capability.null else (k.slots p).cap)))
        (push_free_slots task x k)
push_free_slots-IsFreeList task x k xs ne v c =
    rw (push_ok task x k xs ne v c)
      (result-IsFreeList task x k xs ne v c, (result_x task x k xs ne v c).2)
