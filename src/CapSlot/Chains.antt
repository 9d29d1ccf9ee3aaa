-- ===== src/CapSlot/Chains.antt =====
-- A chain of slots, and erasing one of it.
use caprese.Common.{
  ℕ, ◌≡◌, ◌≢◌, ◌∙◌, true, false, List, ◌∷◌, ◌++◌, ◌==◌, if◌then◌else◌, ==-false, ==-refl,
}
use caprese.Chain.{
  first, last, has, Distinct, Linked, Linked-right, Linked-ne_null, unlink-Linked, Distinct-remove,
  has-remove, ne_removed, null_end, last-ne_self,
}
use caprese.Kernel.{Kernel, CapSlot, Ensures}
use caprese.CapSlot.{erase_this}
use caprese.CapSlot.Links.{
  HasOwner, erased_slots, erase_this_ok, cap-erased, prev-erased, next-erased,
}

abbrev pub prev_slot : (ℕ → CapSlot) → ℕ → ℕ
prev_slot f p = (f p).prev

abbrev pub next_slot : (ℕ → CapSlot) → ℕ → ℕ
next_slot f p = (f p).next

-- The slots `xs` are linked in this order.
pub record IsSlotChain (f : ℕ → CapSlot) (xs : List ℕ) : Type 0 where
  pub linked : Linked (prev_slot f) (next_slot f) 0 xs 0
  pub distinct : Distinct xs

module _ (s : ℕ) (k : Kernel) (xs ys : List ℕ) (v : IsSlotChain k.slots (xs ++ s ∷ ys)) where
  pub s_links :
      (s ≢ 0)
      × ((k.slots s).prev ≡ last 0 xs)
      × ((k.slots s).next ≡ first ys 0)
      × Linked (prev_slot k.slots) (next_slot k.slots) s ys 0
  s_links = Linked-right (prev_slot k.slots) (next_slot k.slots) 0 0 xs (s ∷ ys) v.linked

  pub not_own_prev : ((k.slots s).prev == s) ≡ false
  not_own_prev =
      rw (s_links.1)
        (last-ne_self (prev_slot k.slots) (next_slot k.slots) s xs ys v.linked v.distinct)

  not_null : (p : ℕ) → has p (xs ++ ys) ≡ true → (p == 0) ≡ false
  not_null p h = ==-false p 0 (
      Linked-ne_null (prev_slot k.slots) (next_slot k.slots) p 0 0 (xs ++ s ∷ ys) v.linked
        (has-remove p s xs ys h))

  prev_rest :
      (p : ℕ)
      → has p (xs ++ ys) ≡ true
      → prev_slot (erased_slots s k) p
        ≡ (if p == (k.slots s).next then (k.slots s).prev else (k.slots p).prev)
  prev_rest p h =
      prev-erased s _ _ k.slots p ((k.slots s).prev == 0) ((k.slots s).next == 0)
      ∙ rw (ne_removed p s xs ys v.distinct h) (null_end p (k.slots s).next _ _ (not_null p h))

  next_rest :
      (p : ℕ)
      → has p (xs ++ ys) ≡ true
      → next_slot (erased_slots s k) p
        ≡ (if p == (k.slots s).prev then (k.slots s).next else (k.slots p).next)
  next_rest p h =
      next-erased s _ _ k.slots p ((k.slots s).prev == 0) ((k.slots s).next == 0)
      ∙ rw (ne_removed p s xs ys v.distinct h) (null_end p (k.slots s).prev _ _ (not_null p h))

  pub erased-IsSlotChain : IsSlotChain (erased_slots s k) (xs ++ ys)
  erased-IsSlotChain = record {
    linked =
        unlink-Linked (prev_slot k.slots) (next_slot k.slots) (prev_slot (erased_slots s k))
          (next_slot (erased_slots s k)) s xs ys v.linked v.distinct prev_rest next_rest;
    distinct = Distinct-remove s xs ys v.distinct;
  }

  pub erased_isolated :
      ((erased_slots s k s).prev ≡ 0)
      × ((erased_slots s k s).next ≡ 0)
      × ((p : ℕ) → (erased_slots s k p).cap ≡ (k.slots p).cap)
  erased_isolated = (
    prev-erased s _ _ k.slots s _ _ ∙ rw (==-refl s),
    next-erased s _ _ k.slots s _ _ ∙ rw (==-refl s),
    λ p. cap-erased s _ _ k.slots p _ _,
  )

-- `erase_this` takes a slot, whose task is in use, out of its chain wherever it stands: the
-- others stay linked in their order, the slot is linked to nothing, and no capability changes.
-- It returns the next slot, or the one before where there is none.
pub erase_this-IsSlotChain :
    (s : ℕ) (k : Kernel) (xs ys : List ℕ)
    → IsSlotChain k.slots (xs ++ s ∷ ys)
    → HasOwner k s
    → Ensures
        (λ r k'.
          (r ≡ (if first ys 0 == 0 then last 0 xs else first ys 0))
          × IsSlotChain k'.slots (xs ++ ys)
          × ((k'.slots s).prev ≡ 0)
          × ((k'.slots s).next ≡ 0)
          × ((p : ℕ) → (k'.slots p).cap ≡ (k.slots p).cap))
        (erase_this s k)
erase_this-IsSlotChain s k xs ys v o =
    let l = s_links s k xs ys v in
    let e = erased_isolated s k xs ys v in
    rw (erase_this_ok s k l.0 (not_own_prev s k xs ys v) o)
      ((λ i. if l.2 i == 0 then l.1 i else l.2 i), erased-IsSlotChain s k xs ys v, e.0, e.1, e.2)
