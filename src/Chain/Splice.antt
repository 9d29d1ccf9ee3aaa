-- ===== src/Chain/Splice.antt =====
-- Putting an object into a chain and taking it out, in terms of the links afterwards.
use caprese.Common.{
  ℕ, ◌≡◌, ◌≢◌, true, false, List, [], ◌∷◌, ◌++◌, arith, ◌==◌, subst, if◌then◌else◌, ◌∙◌, ==-false,
  ==-refl, sym, Bool-cases, inl, inr, false,
}
use caprese.Chain.Defs.{
  has-last, first, last, has, Distinct, Linked, has-append, Linked-append, Linked-left,
  Linked-right, Linked-ne_null, Distinct-append_left, Distinct-append_right, Distinct-apart,
  ne_last, last-append,
}
use caprese.Chain.Relink.{relink, prev-first, next-last}

-- In a chain through `t`, what precedes `t` is not what follows it, and the other way round.
ne_first :
    (prev next : ℕ → ℕ) (p t : ℕ) (xs ys : List ℕ)
    → Linked prev next 0 (xs ++ t ∷ ys) 0
    → Distinct (xs ++ t ∷ ys)
    → has p xs ≡ true
    → (p == first ys 0) ≡ false
ne_first prev next p t xs [] l d h =
    ==-false p 0 (Linked-ne_null prev next p 0 t xs (Linked-left prev next 0 0 xs (t ∷ []) l) h)
ne_first prev next p t xs (y ∷ ys) l d h =
    ==-false p y (λ e. ground (arith, Distinct-apart p xs (t ∷ y ∷ ys) d))

ne_last_left :
    (prev next : ℕ → ℕ) (p t : ℕ) (xs ys : List ℕ)
    → Linked prev next 0 (xs ++ t ∷ ys) 0
    → Distinct (xs ++ t ∷ ys)
    → has p ys ≡ true
    → (p == last 0 xs) ≡ false
ne_last_left prev next p t [] ys l d h = ==-false p 0 (Linked-ne_null prev next p t 0 ys l.3 h)
ne_last_left prev next p t (x ∷ xs) ys l d h =
    ne_last p x xs (Distinct-apart p (x ∷ xs) (t ∷ ys) d (ground arith))

module _ (prev next prev' next' : ℕ → ℕ) where
  pub push_front-Linked :
      (t : ℕ) (xs : List ℕ)
      → Linked prev next 0 xs 0
      → Distinct xs
      → t ≢ 0
      → prev' t ≡ 0
      → next' t ≡ first xs 0
      → ((p : ℕ) → has p xs ≡ true → prev' p ≡ (if p == first xs 0 then t else prev p))
      → ((p : ℕ) → has p xs ≡ true → next' p ≡ next p)
      → Linked prev' next' 0 (t ∷ xs) 0
  push_front-Linked t xs l d ne pt nt hp hn = (
    ne,
    pt,
    nt,
    relink prev next prev' next' 0 0 t 0 xs l d hp
        (λ p h. hn p h ∙ next-last prev next p 0 0 xs l d h),
  )

  pub push_back-Linked :
      (t : ℕ) (xs : List ℕ)
      → Linked prev next 0 xs 0
      → Distinct xs
      → t ≢ 0
      → prev' t ≡ last 0 xs
      → next' t ≡ 0
      → ((p : ℕ) → has p xs ≡ true → prev' p ≡ prev p)
      → ((p : ℕ) → has p xs ≡ true → next' p ≡ (if p == last 0 xs then t else next p))
      → Linked prev' next' 0 (xs ++ t ∷ []) 0
  push_back-Linked t xs l d ne pt nt hp hn =
      Linked-append prev' next' 0 0 xs (t ∷ [])
        (relink prev next prev' next' 0 0 0 t xs l d
          (λ p h. hp p h ∙ prev-first prev next p 0 0 xs l h) hn)
        (ne, pt, nt, tt)

  pub unlink-Linked :
      (t : ℕ) (xs ys : List ℕ)
      → Linked prev next 0 (xs ++ t ∷ ys) 0
      → Distinct (xs ++ t ∷ ys)
      → ((p : ℕ) → has p (xs ++ ys) ≡ true → prev' p ≡ (if p == next t then prev t else prev p))
      → ((p : ℕ) → has p (xs ++ ys) ≡ true → next' p ≡ (if p == prev t then next t else next p))
      → Linked prev' next' 0 (xs ++ ys) 0
  unlink-Linked t xs ys l d hp hn =
      Linked-append prev' next' 0 0 xs ys
        (relink prev next prev' next' 0 t 0 (first ys 0) xs left
          (Distinct-append_left xs (t ∷ ys) d)
          (λ p h. ground (
            arith,
            right,
            hp p,
            has-append p xs ys,
            ne_first prev next p t xs ys l d,
            prev-first prev next p 0 t xs left,
          ))
          (λ p h. ground (arith, right, hn p, has-append p xs ys)))
        (relink prev next prev' next' t 0 (last 0 xs) 0 ys right.3 behind
          (λ p h. ground (arith, right, hp p, has-append p xs ys))
          (λ p h. ground (
            arith,
            right,
            hn p,
            has-append p xs ys,
            ne_last_left prev next p t xs ys l d,
            next-last prev next p t 0 ys right.3 behind,
          )))
    where
      left : Linked prev next 0 xs t
      left = Linked-left prev next 0 0 xs (t ∷ ys) l

      right : Linked prev next (last 0 xs) (t ∷ ys) 0
      right = Linked-right prev next 0 0 xs (t ∷ ys) l

      behind : Distinct ys
      behind = (Distinct-append_right xs (t ∷ ys) d).1

-- The ends of a chain `xs ++ t ∷ ys`, and where `t` stands at one.
module _ (prev next : ℕ → ℕ) where
  pub last-ne_null :
      (x b a : ℕ) (xs : List ℕ) → Linked prev next b (x ∷ xs) a → (last x xs == 0) ≡ false
  last-ne_null x b a xs l =
      ==-false _ 0 (Linked-ne_null prev next (last x xs) b a (x ∷ xs) l (has-last x xs))

  pub first-eq_iff :
      (t : ℕ) (xs ys : List ℕ)
      → Linked prev next 0 (xs ++ t ∷ ys) 0
      → Distinct (xs ++ t ∷ ys)
      → (first (xs ++ t ∷ ys) 0 == t) ≡ (last 0 xs == 0)
  first-eq_iff t [] ys l d = ==-refl t
  first-eq_iff t (x ∷ xs) ys l d =
      ==-false x t (λ e. ground (arith, has-append x xs (t ∷ ys)))
      ∙ sym (last-ne_null x 0 t xs (Linked-left prev next 0 0 (x ∷ xs) (t ∷ ys) l))

  pub last-eq_iff :
      (t : ℕ) (xs ys : List ℕ)
      → Linked prev next 0 (xs ++ t ∷ ys) 0
      → Distinct (xs ++ t ∷ ys)
      → (last 0 (xs ++ t ∷ ys) == t) ≡ (first ys 0 == 0)
  last-eq_iff t xs [] l d = rw (last-append 0 xs (t ∷ [])) (==-refl t)
  last-eq_iff t xs (y ∷ ys) l d =
      let right = Linked-right prev next 0 0 xs (t ∷ y ∷ ys) l in
      let behind = Distinct-append_right xs (t ∷ y ∷ ys) d in
      rw (last-append 0 xs (t ∷ y ∷ ys)) (
        ==-false _ t (λ e. ground (arith, ne_last t y ys behind.0, ==-refl t))
        ∙ sym (==-false y 0 right.3.0))

  pub last-ne_self :
      (t : ℕ) (xs ys : List ℕ)
      → Linked prev next 0 (xs ++ t ∷ ys) 0
      → Distinct (xs ++ t ∷ ys)
      → (last 0 xs == t) ≡ false
  last-ne_self t [] ys l d = ==-false 0 t (λ e. l.0 (sym e))
  last-ne_self t (x ∷ xs) ys l d = ==-false _ t λ e. absurd (
      ground (
        arith,
        has-last x xs,
        e,
        Distinct-apart t (x ∷ xs) (t ∷ ys) d,
        ==-refl t,
        subst (λ p. has p (x ∷ xs) ≡ true) e (has-last x xs),
      ))

  -- The ends of the chain without `t`.
  pub first-remove :
      (t n h : ℕ) (xs ys : List ℕ)
      → Linked prev next 0 (xs ++ t ∷ ys) 0
      → n ≡ first ys 0
      → h ≡ first (xs ++ t ∷ ys) 0
      → (if last 0 xs == 0 then n else h) ≡ first (xs ++ ys) 0
  first-remove t n h [] ys l e e' = e
  first-remove t n h (x ∷ xs) ys l e e' =
      rw (last-ne_null x 0 t xs (Linked-left prev next 0 0 (x ∷ xs) (t ∷ ys) l)) e'

  pub last-remove :
      (t p h : ℕ) (xs ys : List ℕ)
      → Linked prev next 0 (xs ++ t ∷ ys) 0
      → p ≡ last 0 xs
      → h ≡ last 0 (xs ++ t ∷ ys)
      → (if first ys 0 == 0 then p else h) ≡ last 0 (xs ++ ys)
  last-remove t p h xs [] l e e' = e ∙ sym (last-append 0 xs [])
  last-remove t p h xs (y ∷ ys) l e e' =
      let right = Linked-right prev next 0 0 xs (t ∷ y ∷ ys) l in
      rw (==-false y 0 right.3.0)
        (e' ∙ last-append 0 xs (t ∷ y ∷ ys) ∙ sym (last-append 0 xs (y ∷ ys)))

-- A link that is looked up only where there is something behind it.
pub null_end {ℓ} :
    {A : Type ℓ} (p n : ℕ) (x y : A)
    → (p == 0) ≡ false
    → (if n == 0 then y else if p == n then x else y) ≡ (if p == n then x else y)
null_end p n x y h = elim (Bool-cases (n == 0)) [
  | inl e ↦ rw (e, ==-false p n (λ e'. ground arith))
  | inr e ↦ rw e
]

-- The part left of an object, with what follows it put behind.
pub Distinct-remove : (t : ℕ) (xs ys : List ℕ) → Distinct (xs ++ t ∷ ys) → Distinct (xs ++ ys)
Distinct-remove t [] ys d = d.1
Distinct-remove t (x ∷ xs) ys d =
    (ground (arith, has-append x xs ys, has-append x xs (t ∷ ys)), Distinct-remove t xs ys d.1)

pub has-remove : (p t : ℕ) (xs ys : List ℕ) → has p (xs ++ ys) ≡ true → has p (xs ++ t ∷ ys) ≡ true
has-remove p t xs ys h = ground (arith, has-append p xs ys, has-append p xs (t ∷ ys))

-- An object that is left is another one than the object taken out.
pub ne_removed :
    (p t : ℕ) (xs ys : List ℕ)
    → Distinct (xs ++ t ∷ ys)
    → has p (xs ++ ys) ≡ true
    → (p == t) ≡ false
ne_removed p t [] ys d h = ==-false p t (λ e. ground arith)
ne_removed p t (x ∷ xs) ys d h = elim (Bool-cases (p == x)) [
  | inl e ↦ ==-false p t (λ e'. ground (arith, has-append x xs (t ∷ ys)))
  | inr e ↦ ne_removed p t xs ys d.1 (ground arith)
]

pub has_self : (t : ℕ) (xs ys : List ℕ) → has t (xs ++ t ∷ ys) ≡ true
has_self t xs ys = ground (arith, has-append t xs (t ∷ ys), ==-refl t)

pub not_has_removed : (t : ℕ) (xs ys : List ℕ) → Distinct (xs ++ t ∷ ys) → has t (xs ++ ys) ≡ false
not_has_removed t [] ys d = d.0
not_has_removed t (x ∷ xs) ys d =
    ground
      (arith, has-append x xs (t ∷ ys), ==-refl t, not_has_removed t xs ys d.1, has_self t xs ys)

-- A member is another object than one that is no member.
pub ne_of_has : (p t : ℕ) (xs : List ℕ) → has p xs ≡ true → has t xs ≡ false → (p == t) ≡ false
ne_of_has p t xs h out = ==-false p t (λ e. ground (arith, subst (λ q. has q xs ≡ true) e h))
