-- ===== src/Chain/Defs.antt =====
-- What it means that `prev` and `next` link the objects of a list in its order.
use caprese.Common.{
  ℕ, ◌≡◌, ◌≢◌, refl, Bool, true, false, ◌||◌, List, [], ◌∷◌, ◌++◌, arith, ◌==◌, ◌∙◌,
}

-- The first of the list, or what follows it; the last, or what precedes it.
abbrev pub first : List ℕ → ℕ → ℕ
first [] a = a
first (x ∷ xs) a = x

abbrev pub last : ℕ → List ℕ → ℕ
last b [] = b
last b (x ∷ xs) = last x xs

abbrev pub has : ℕ → List ℕ → Bool
has p [] = false
has p (x ∷ xs) = (p == x) || has p xs

abbrev pub Distinct : List ℕ → Type 0
Distinct [] = Unit
Distinct (x ∷ xs) = (has x xs ≡ false) × Distinct xs

-- From `b` to `a` the links lead through the non-null objects `xs`, both ways.
abbrev pub Linked : (ℕ → ℕ) → (ℕ → ℕ) → ℕ → List ℕ → ℕ → Type 0
Linked prev next b [] a = Unit
Linked prev next b (x ∷ xs) a =
    (x ≢ 0) × (prev x ≡ b) × (next x ≡ first xs a) × Linked prev next x xs a

pub has-append : (p : ℕ) (xs ys : List ℕ) → has p (xs ++ ys) ≡ (has p xs || has p ys)
has-append p [] ys = refl
has-append p (x ∷ xs) ys = ground (arith, has-append p xs ys)

pub first-append : (xs ys : List ℕ) (a : ℕ) → first (xs ++ ys) a ≡ first xs (first ys a)
first-append [] ys a = refl
first-append (x ∷ xs) ys a = refl

pub last-append : (b : ℕ) (xs ys : List ℕ) → last b (xs ++ ys) ≡ last (last b xs) ys
last-append b [] ys = refl
last-append b (x ∷ xs) ys = last-append x xs ys

pub has-last : (x : ℕ) (xs : List ℕ) → has (last x xs) (x ∷ xs) ≡ true
has-last x [] = ground arith
has-last x (y ∷ ys) = ground (arith, has-last y ys)

pub ne_last : (p x : ℕ) (xs : List ℕ) → has p (x ∷ xs) ≡ false → (p == last x xs) ≡ false
ne_last p x [] h = ground arith
ne_last p x (y ∷ ys) h = ne_last p y ys (ground arith)

pub Distinct-append_one :
    (t : ℕ) (xs : List ℕ) → Distinct xs → has t xs ≡ false → Distinct (xs ++ t ∷ [])
Distinct-append_one t [] d h = (refl, tt)
Distinct-append_one t (x ∷ xs) d h =
    (ground (arith, has-append x xs (t ∷ [])), Distinct-append_one t xs d.1 (ground arith))

pub Distinct-append_left : (xs ys : List ℕ) → Distinct (xs ++ ys) → Distinct xs
Distinct-append_left [] ys d = tt
Distinct-append_left (x ∷ xs) ys d =
    (ground (arith, has-append x xs ys), Distinct-append_left xs ys d.1)

pub Distinct-append_right : (xs ys : List ℕ) → Distinct (xs ++ ys) → Distinct ys
Distinct-append_right [] ys d = d
Distinct-append_right (x ∷ xs) ys d = Distinct-append_right xs ys d.1

-- An object of the second part is none of the first.
pub Distinct-apart :
    (p : ℕ) (xs ys : List ℕ) → Distinct (xs ++ ys) → has p ys ≡ true → has p xs ≡ false
Distinct-apart p [] ys d h = refl
Distinct-apart p (x ∷ xs) ys d h = ground (arith, has-append x xs ys, Distinct-apart p xs ys d.1)

-- Members of a chain are not null.
pub Linked-ne_null :
    (prev next : ℕ → ℕ) (p b a : ℕ) (xs : List ℕ)
    → Linked prev next b xs a
    → has p xs ≡ true
    → p ≢ 0
Linked-ne_null prev next p b a [] l h = absurd (ground arith)
Linked-ne_null prev next p b a (x ∷ xs) l h = ground (arith, Linked-ne_null prev next p x a xs l.3)

module _ (prev next : ℕ → ℕ) where
  pub Linked-append :
      (b a : ℕ) (xs ys : List ℕ)
      → Linked prev next b xs (first ys a)
      → Linked prev next (last b xs) ys a
      → Linked prev next b (xs ++ ys) a
  Linked-append b a [] ys l m = m
  Linked-append b a (x ∷ xs) ys (ne, p, n, l) m = (ne, p, n ∙ ap_first, Linked-append x a xs ys l m)
    where
      ap_first : first xs (first ys a) ≡ first (xs ++ ys) a
      ap_first = ground (arith, first-append xs ys a)

  pub Linked-left :
      (b a : ℕ) (xs ys : List ℕ)
      → Linked prev next b (xs ++ ys) a
      → Linked prev next b xs (first ys a)
  Linked-left b a [] ys l = tt
  Linked-left b a (x ∷ xs) ys (ne, p, n, l) =
      (ne, p, n ∙ first-append xs ys a, Linked-left x a xs ys l)

  pub Linked-right :
      (b a : ℕ) (xs ys : List ℕ)
      → Linked prev next b (xs ++ ys) a
      → Linked prev next (last b xs) ys a
  Linked-right b a [] ys l = l
  Linked-right b a (x ∷ xs) ys (ne, p, n, l) = Linked-right x a xs ys l
