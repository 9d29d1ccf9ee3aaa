-- ===== src/UserMemory/Transfer.antt =====
-- What is copied from and to the memory of a task.
use caprese.Common.{
  ℕ, zero, suc, ◌+◌, ◌-◌, ◌%◌, ◌^◌, ◌≤◌, ◌<◌, ◌≡◌, ◌≢◌, refl, sym, subst, ap, Bool, true, false,
  ltb, if◌then◌else◌, Option, none, some, List, [], ◌∷◌, arith, inl, inr, Bool-cases,
}
use caprese.Config.{u64, max_virtual_address}
use caprese.Kernel.{Kernel, Cmd, pure, ◌>>=◌, Ensures, Ensures-bind, and_then}
use caprese.Page.{get_page_size}
use caprese.UserMemory.{Found, walk_user, Copy, next_copy, copy_user, read_user_memory}
use caprese.UserMemory.Walk.{IsSmall, LeadsTo, IsUserPage, IsFound, walk_user-IsFound}

-- The copies `cs` continue at `position` in a buffer of `size` bytes, without a gap or an overlap. Each
-- one stays in the user page to which the tables from `root` on lead for its address, at the place of that
-- address. Together they are all the bytes if the call succeeded; if it failed, they end before an
-- address for which the tables lead to no such page.
abbrev pub IsTransfer : Kernel → ℕ → ℕ → ℕ → ℕ → List Copy → Bool → Type 0
IsTransfer k root va size position [] true = position ≡ size
IsTransfer k root va size position [] false =
    (position < size) × ((f : Found) → LeadsTo k (va + position) 3 root f → ⊥)
IsTransfer k root va size position (c ∷ cs) b =
    LeadsTo k (va + position) 3 root c.page
    × IsUserPage c.page
    × (c.position ≡ position)
    × (c.offset ≡ (va + position) % get_page_size c.page.level)
    × (0 < c.length)
    × (c.offset + c.length ≤ get_page_size c.page.level)
    × (position + c.length ≤ size)
    × IsTransfer k root va size (position + c.length) cs b

page_size_positive : (level : ℕ) → level < 3 → 0 < get_page_size level
unfolding get_page_size
page_size_positive zero l = omega arith
page_size_positive (suc zero) l = omega arith
page_size_positive (suc (suc zero)) l = omega arith
page_size_positive (suc (suc (suc n))) l = absurd (omega arith)

mod_below : (n m : ℕ) → 0 < m → n % m < m
mod_below n m pos = grind arith

fitting :
    (offset size left : ℕ)
    → offset < size
    → 0 < left
    → let length = if ltb left (size - offset) then left else size - offset in
      (0 < length) × (offset + length ≤ size) × (length ≤ left)
fitting offset size left small more = ground arith

next_copy_bounds :
    (f : Found) (va left position : ℕ)
    → 0 < get_page_size f.level
    → 0 < left
    → let c = next_copy f va left position in
      (0 < c.length) × (c.offset + c.length ≤ get_page_size f.level) × (c.length ≤ left)
unfolding next_copy
next_copy_bounds f va left position pos more =
    fitting (va % get_page_size f.level) (get_page_size f.level) left
      (mod_below va (get_page_size f.level) pos) more

fits :
    (va size position : ℕ)
    → va + size ≤ 2 ^ 38
    → position < size
    → u64 (va + position) ≡ va + position
fits va size position user lt = omega arith

-- The round of the loop behind the walk, when `go` copies from a later position on.
module _ (va size position table : ℕ) (k : Kernel) (go : ℕ → Cmd (Bool × List Copy))
    (more : position < size) (user : va + size ≤ 2 ^ 38)
    (rest : (p : ℕ)
      → position < p
      → p ≤ size
      → Ensures (λ r k'. (k' ≡ k) × IsTransfer k table va size p r.1 r.0) (go p k)) where
  offset_here :
      (f : Found)
      → (next_copy f (u64 (va + position)) (size - position) position).offset
        ≡ (va + position) % get_page_size f.level
  unfolding next_copy
  offset_here f = ap (λ n. n % get_page_size f.level) (fits va size position user more)

  copies_on :
      (found : Option Found) (k' : Kernel)
      → k' ≡ k
      → IsFound k (u64 (va + position)) 3 table found
      → Ensures
          (λ r k''. (k'' ≡ k) × IsTransfer k table va size position r.1 r.0)
          ((elim found as (λ _. Cmd (Bool × List Copy)) [
            | none ↦ pure (false, [])
            | some f ↦ do
              let c = next_copy f (u64 (va + position)) (size - position) position
              rest ← go (position + c.length)
              pure (rest.0, c ∷ rest.1)
          ])
            k')
  unfolding next_copy
  copies_on none k' e u = (
    e,
    (
      more,
      λ f l. u f (subst (λ a. LeadsTo k a 3 table f) (sym (fits va size position user more)) l),
    ),
  )
  copies_on (some f) k' e (leads, u) =
      let c = next_copy f (u64 (va + position)) (size - position) position in
      let b =
        next_copy_bounds f (u64 (va + position)) (size - position) position
          (page_size_positive f.level u.three_levels) (omega arith) in
      subst
        (λ k₀.
          Ensures {A = Bool × List Copy}
            (λ r k''. (k'' ≡ k) × IsTransfer k table va size position r.1 r.0)
            (and_then (go (position + c.length) k₀) (λ rest. pure (rest.0, c ∷ rest.1))))
        (sym e)
        (Ensures-bind _ _ (go (position + c.length) k) _
          (rest (position + c.length) (omega (arith, b)) (omega (arith, b)))
          λ r k'' q. (
            q.0,
            (
              subst (λ a. LeadsTo k a 3 table f) (fits va size position user more) leads,
              u,
              refl,
              offset_here f,
              b.0,
              b.1,
              omega (arith, b),
              q.1,
            ),
          ))

below : (a b : ℕ) → ltb a b ≡ true → a < b
below a b e = ground arith

copy_user-IsTransfer :
    (fuel task va size position : ℕ) (k : Kernel)
    → task ≢ 0
    → (k.tasks task).root_page_table ≢ 0
    → IsSmall k
    → va + size ≤ 2 ^ 38
    → position ≤ size
    → size - position < fuel
    → Ensures
        (λ r k'. (k' ≡ k) × IsTransfer k (k.tasks task).root_page_table va size position r.1 r.0)
        (copy_user fuel task va size position k)
unfolding copy_user
copy_user-IsTransfer zero task va size position k ne root s user le enough = absurd (omega arith)
copy_user-IsTransfer (suc fuel) task va size position k ne root s user le enough =
    elim (Bool-cases (ltb position size)) [
      | inr e ↦ rw e (refl, ground arith)
      | inl e ↦
          let lt = below position size e in
          rw e (
            Ensures-bind _ _ (walk_user task (u64 (va + position)) k) _
              (walk_user-IsFound task (u64 (va + position)) k (omega (arith, lt)) ne root s)
              λ r k' q.
                copies_on va size position (k.tasks task).root_page_table k
                  (λ p. copy_user fuel task va size p) lt user
                  (λ p lt' le'.
                    copy_user-IsTransfer fuel task va size p k ne root s user le'
                      (omega (arith, lt', enough)))
                  r k' q.0 q.1)
    ]

-- Of a task with a root table, in a kernel whose entries keep their page numbers in 44 bits, and
-- an address range below 2^38: `read_user_memory` ends within one round for each byte and one
-- more and changes no table. Every memcpy it does stays inside the page that the task's tables
-- give for its address, one that user code may use, and begins at the place of that address in
-- the page and at its place in the buffer. They follow each other without gap or overlap, and
-- are all the bytes if the call succeeds; if it fails, they end before an address of the range
-- for which the tables give no page that user code may use.
pub read_user_memory-IsTransfer :
    (task src size : ℕ) (k : Kernel)
    → task ≢ 0
    → (k.tasks task).root_page_table ≢ 0
    → IsSmall k
    → src + size ≤ max_virtual_address
    → Ensures
        (λ r k'. (k' ≡ k) × IsTransfer k (k.tasks task).root_page_table src size 0 r.1 r.0)
        (read_user_memory (suc size) task src size k)
unfolding read_user_memory
read_user_memory-IsTransfer task src size k ne root s user =
    copy_user-IsTransfer (suc size) task src size 0 k ne root s user (omega arith) (omega arith)
