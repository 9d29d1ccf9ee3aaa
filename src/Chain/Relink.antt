-- ===== src/Chain/Relink.antt =====
-- A chain whose outermost links have been redirected.
use caprese.Common.{ℕ, ◌≡◌, inl, inr, true, Bool-cases, List, [], ◌∷◌, arith, ◌==◌, if◌then◌else◌}
use caprese.Chain.Defs.{first, last, has, Distinct, Linked, ne_last}

module _ (prev next : ℕ → ℕ) where
  -- The outermost links of a chain.
  pub prev-first :
      (p b a : ℕ) (xs : List ℕ)
      → Linked prev next b xs a
      → has p xs ≡ true
      → prev p ≡ (if p == first xs a then b else prev p)
  prev-first p b a [] l h = absurd (ground arith)
  prev-first p b a (x ∷ xs) l h = ground arith

  pub next-last :
      (p b a : ℕ) (xs : List ℕ)
      → Linked prev next b xs a
      → Distinct xs
      → has p xs ≡ true
      → next p ≡ (if p == last b xs then a else next p)
  next-last p b a [] l d h = absurd (ground arith)
  next-last p b a (x ∷ []) l d h = ground arith
  next-last p b a (x ∷ y ∷ ys) l d h = elim (Bool-cases (has p (y ∷ ys))) [
    | inl behind ↦ next-last p x a (y ∷ ys) l.3 d.1 behind
    | inr here ↦ rw (ne_last p y ys here)
  ]

module _ (prev next prev' next' : ℕ → ℕ) where
  -- The first object now points back to `b'` and the last on to `a'`; all other links are kept.
  pub relink :
      (b a b' a' : ℕ) (xs : List ℕ)
      → Linked prev next b xs a
      → Distinct xs
      → ((p : ℕ) → has p xs ≡ true → prev' p ≡ (if p == first xs a then b' else prev p))
      → ((p : ℕ) → has p xs ≡ true → next' p ≡ (if p == last b xs then a' else next p))
      → Linked prev' next' b' xs a'
  relink b a b' a' [] l d hp hn = tt
  relink b a b' a' (x ∷ []) l d hp hn = (l.0, ground (arith, hp x), ground (arith, hn x), tt)
  relink b a b' a' (x ∷ y ∷ ys) l d hp hn = (
    l.0,
    ground (arith, hp x),
    ground (arith, hn x, ne_last x y ys d.0),
    relink x a x a' (y ∷ ys) l.3 d.1 (λ p h. ground (arith, hp p)) (λ p h. ground (arith, hn p)),
  )

  -- A chain none of whose own links is touched.
  pub frame :
      (b a : ℕ) (xs : List ℕ)
      → Linked prev next b xs a
      → ((p : ℕ) → has p xs ≡ true → prev' p ≡ prev p)
      → ((p : ℕ) → has p xs ≡ true → next' p ≡ next p)
      → Linked prev' next' b xs a
  frame b a [] l hp hn = tt
  frame b a (x ∷ xs) l hp hn = (
    l.0,
    ground (arith, hp x),
    ground (arith, hn x),
    frame x a xs l.3 (λ p h. ground (arith, hp p)) (λ p h. ground (arith, hn p)),
  )
