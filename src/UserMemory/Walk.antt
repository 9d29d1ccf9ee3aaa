-- ===== src/UserMemory/Walk.antt =====
-- The walk of src/kernel/user_memory.cpp finds the page that a task's tables give for an address.
use caprese.Common.{
  ℕ, zero, suc, ◌+◌, ◌*◌, ◌/◌, ◌%◌, ◌⊎◌, ◌^◌, ◌≤◌, ◌<◌, ◌≡◌, ◌≢◌, refl, sym, Bool, true, false, not,
  if◌then◌else◌, Option, none, some, arith, inl, inr, ==-false,
}
use caprese.Kernel.{Kernel, Run, Pte, Ensures, Ensures-mono, ok, get_task, get_entry}
use caprese.Page.{get_page_size_bit, get_next_page, get_page_table_index, is_table, is_user, walk}
use caprese.UserMemory.{Found, find_entry, walk_user}

-- The page numbers of all entries fit in the 44 bits that they have.
abbrev pub IsSmall : Kernel → Type 0
IsSmall k = (t i : ℕ) → (k.tables t i).next_page_number < 2 ^ 44

-- A page that user code may use, at one of the three levels.
pub record IsUserPage (f : Found) : Type 0 where
  pub user : is_user f.pte ≡ true
  pub no_table : is_table f.pte ≡ false
  pub three_levels : f.level < 3

-- The entries that the tables have for an address, from level `n - 1` down: the bits of the address from
-- 12 + 9 * (n - 1) on choose the entry, an entry of a table leads to the next level, and the last one is
-- that of a page which user code may use.
abbrev pub entry_for : Kernel → ℕ → ℕ → ℕ → Pte
entry_for k va n table = k.tables table (va / 2 ^ (12 + 9 * n) % 512)

abbrev pub LeadsTo : Kernel → ℕ → ℕ → ℕ → Found → Type 0
LeadsTo k va zero table f = ⊥
LeadsTo k va (suc n) table f =
    let e = entry_for k va n table in
    (e.v ≡ true)
    × (((is_table e ≡ true) × LeadsTo k va n (get_next_page e) f)
        ⊎ ((is_table e ≡ false) × (is_user e ≡ true) × (f ≡ record { pte = e; level = n })))

abbrev pub IsFound : Kernel → ℕ → ℕ → ℕ → Option Found → Type 0
IsFound k va n table none = (f : Found) → LeadsTo k va n table f → ⊥
IsFound k va n table (some f) = LeadsTo k va n table f × IsUserPage f

true≢false : {b : Bool} → b ≡ true → b ≡ false → ⊥
true≢false e f = absurd (cc)

next_set : (e : Pte) → e.next_page_number < 2 ^ 44 → get_next_page e ≢ 0
unfolding get_next_page
next_set e small h = omega (arith, h)

find_step :
    (va n table : ℕ) (k : Kernel)
    → va < 2 ^ 38
    → n < 3
    → table ≢ 0
    → let e = entry_for k va n table in
      find_entry va (suc n) table k ≡ (
        if not e.v
        then ok none k
        else if is_table e
        then find_entry va n (get_next_page e) k
        else ok (if is_user e then some (record { pte = e; level = n }) else none) k)
unfolding find_entry walk get_entry get_page_table_index get_page_size_bit
find_step va n table k small le ne = ground arith

behind_table :
    (k : Kernel) (va n table : ℕ) (r : Option Found)
    → let e = entry_for k va n table in
      e.v ≡ true
      → is_table e ≡ true
      → IsFound k va n (get_next_page e) r
      → IsFound k va (suc n) table r
behind_table k va n table none a b h =
    λ f l. elim l.1 [ inl y ↦ h f y.1 | inr y ↦ absurd (true≢false b y.0) ]
behind_table k va n table (some f) a b (l, u) = ((a, inl (b, l)), u)

-- What is found when it is right behind a table, and for the page of the entry.
module _ (k : Kernel) (va n table : ℕ) (below : n < 3) (rest : Run (Option Found)) where
  entry_step :
      (enabled leads user : Bool)
      → let e = entry_for k va n table in
        enabled ≡ e.v
        → leads ≡ is_table e
        → user ≡ is_user e
        → Ensures (λ r k'. (k' ≡ k) × IsFound k va n (get_next_page e) r) rest
        → Ensures
            (λ r k'. (k' ≡ k) × IsFound k va (suc n) table r)
            (if not enabled
              then ok none k
              else if leads
              then rest
              else ok (if user then some (record { pte = e; level = n }) else none) k)
  entry_step false leads user a b c h = (refl, λ f l. absurd (true≢false l.0 (sym a)))
  entry_step true true user a b c h =
      Ensures-mono _ _ rest h (λ r k' q. (q.0, behind_table k va n table r (sym a) (sym b) q.1))
  entry_step true false false a b c h = (
    refl,
    λ f l. elim l.1 [
      | inl y ↦ absurd (true≢false y.0 (sym b))
      | inr y ↦ absurd (true≢false y.1 (sym c))
    ],
  )
  entry_step true false true a b c h = (
    refl,
    (
      (sym a, inr (sym b, sym c, refl)),
      record { user = sym c; no_table = sym b; three_levels = below },
    ),
  )

find_entry-IsFound :
    (va n table : ℕ) (k : Kernel)
    → va < 2 ^ 38
    → n ≤ 3
    → table ≢ 0
    → IsSmall k
    → Ensures (λ r k'. (k' ≡ k) × IsFound k va n table r) (find_entry va n table k)
unfolding find_entry
find_entry-IsFound va zero table k small le ne s = (refl, λ f l. l)
find_entry-IsFound va (suc n) table k small le ne s =
    let e = entry_for k va n table in
    rw (find_step va n table k small (omega arith) ne) (
      entry_step k va n table (omega arith) (find_entry va n (get_next_page e) k) e.v (is_table e)
        (is_user e) refl refl refl
        (find_entry-IsFound va n (get_next_page e) k small (omega arith)
          (next_set e (s table (va / 2 ^ (12 + 9 * n) % 512))) s))

pub walk_user-IsFound :
    (task va : ℕ) (k : Kernel)
    → va < 2 ^ 38
    → task ≢ 0
    → (k.tasks task).root_page_table ≢ 0
    → IsSmall k
    → Ensures
        (λ r k'. (k' ≡ k) × IsFound k va 3 (k.tasks task).root_page_table r)
        (walk_user task va k)
unfolding walk_user get_task
walk_user-IsFound task va k small ne root s =
    rw (==-false task 0 ne)
      (find_entry-IsFound va 3 (k.tasks task).root_page_table k small (omega arith) root s)
