-- ===== src/Syscall/Numbers.antt =====
-- The functions that the numbers of the system calls lead to.
use caprese.Common.{
  ℕ, ◌/◌, ◌%◌, ◌^◌, ◌<◌, ◌≡◌, ◌↔◌, refl, ap, ◌∙◌, sym, ◌⊎◌, inl, inr, if◌then◌else◌, Bool, false,
  List, [], ◌∷◌, map, true, false, ◌==◌, arith,
}
use mathlib.Core.List.{Memᴰ}
use caprese.Chain.{has, Distinct}
use caprese.Syscall.Dispatch.{
  Namespace, Syscall, SyscallNumbers, ns_table, sysns_table, namespace_index, call_index,
  table_size, at_place, Target, find_handler, find_in_namespace, read_table, TableEntry,
}

-- No two namespaces and no two calls of a namespace share a place.
pub record IsNumbering (n : SyscallNumbers) : Type 0 where
  pub namespaces : Distinct (map (namespace_index n) ns_table)
  pub calls : (s : Namespace) → Distinct (map (call_index n) (sysns_table s))

module _ {ℓ} {A : Type ℓ} (place : A → ℕ) where
  has-member : (x : A) (xs : List A) → Memᴰ x xs → has (place x) (map place xs) ≡ true
  has-member x [] m = elim m [ ]
  has-member x (y ∷ ys) (Memᴰ.head e) = ground (arith, ap place e)
  has-member x (y ∷ ys) (Memᴰ.tail m) = ground (arith, has-member x ys m)

  table_size-member : (x : A) (xs : List A) → Memᴰ x xs → place x < table_size place xs
  table_size-member x [] m = elim m [ ]
  table_size-member x (y ∷ ys) (Memᴰ.head e) = ground (arith, ap place e)
  table_size-member x (y ∷ ys) (Memᴰ.tail m) = ground (arith, table_size-member x ys m)

  at_place-unset :
      (i : ℕ) (xs : List A) → has i (map place xs) ≡ false → at_place place xs i ≡ TableEntry.unset
  at_place-unset i [] h = refl
  at_place-unset i (y ∷ ys) h = ground (arith, at_place-unset i ys)

  at_place-member :
      (x : A) (xs : List A)
      → Distinct (map place xs)
      → Memᴰ x xs
      → at_place place xs (place x) ≡ TableEntry.entry x
  at_place-member x [] d m = elim m [ ]
  at_place-member x (y ∷ ys) d (Memᴰ.head e) =
      grind (arith, ap place e, e, at_place-unset (place y) ys d.0)
  at_place-member x (y ∷ ys) d (Memᴰ.tail m) = ground (arith, at_place-member x ys d.1 m)

  written_entry :
      (x y : A) (b : Bool)
      → (if b then TableEntry.entry y else TableEntry.unset) ≡ TableEntry.entry x
      → (y ≡ x) × (b ≡ true)
  written_entry x y true h = (ap (λ r. elim r [ TableEntry.entry z ↦ z | _ ↦ y ]) h, refl)
  written_entry x y false h = ground arith

  last_entry :
      (x y : A) (i : ℕ) (r : TableEntry A)
      → elim r [
        | TableEntry.entry z ↦ TableEntry.entry z
        | _ ↦ if place y == i then TableEntry.entry y else TableEntry.unset
      ]
        ≡ TableEntry.entry x
      → (r ≡ TableEntry.entry x) ⊎ ((y ≡ x) × (place y ≡ i))
  last_entry x y i TableEntry.outside h =
      let (e, b) = written_entry x y (place y == i) h in inr (e, ground arith)
  last_entry x y i TableEntry.unset h =
      let (e, b) = written_entry x y (place y == i) h in inr (e, ground arith)
  last_entry x y i (TableEntry.entry z) h = inl h

  at_place-Memᴰ :
      (x : A) (xs : List A) (i : ℕ)
      → at_place place xs i ≡ TableEntry.entry x
      → Memᴰ x xs × (place x ≡ i)
  at_place-Memᴰ x [] i h = ground arith
  at_place-Memᴰ x (y ∷ ys) i h = elim (last_entry x y i (at_place place ys i) h) [
    | inl e ↦ (let (m, p) = at_place-Memᴰ x ys i e in (Memᴰ.tail m, p))
    | inr (e, p) ↦ (Memᴰ.head (sym e), ap place (sym e) ∙ p)
  ]

  read_table_iff :
      (x : A) (xs : List A) (i : ℕ)
      → Distinct (map place xs)
      → (read_table place xs i ≡ TableEntry.entry x) ↔ (Memᴰ x xs × (place x ≡ i))
  unfolding read_table
  read_table_iff x xs i d = (
    (λ h. at_place-Memᴰ x xs i (ground arith)),
    (λ (m, p).
        ground
          (arith, ap (at_place place xs) p, at_place-member x xs d m, table_size-member x xs m)),
  )

ns_table-Memᴰ : (s : Namespace) → Memᴰ s ns_table
unfolding ns_table
ns_table-Memᴰ Namespace.system = Memᴰ.head refl
ns_table-Memᴰ Namespace.arch = search (Memᴰ.head, Memᴰ.tail) depth 12
ns_table-Memᴰ Namespace.cap = search (Memᴰ.head, Memᴰ.tail) depth 12
ns_table-Memᴰ Namespace.mem_cap = search (Memᴰ.head, Memᴰ.tail) depth 12
ns_table-Memᴰ Namespace.task_cap = search (Memᴰ.head, Memᴰ.tail) depth 12
ns_table-Memᴰ Namespace.endpoint_cap = search (Memᴰ.head, Memᴰ.tail) depth 12
ns_table-Memᴰ Namespace.page_table_cap = search (Memᴰ.head, Memᴰ.tail) depth 12
ns_table-Memᴰ Namespace.virt_page_cap = search (Memᴰ.head, Memᴰ.tail) depth 12
ns_table-Memᴰ Namespace.id_cap = search (Memᴰ.head, Memᴰ.tail) depth 12

found_of :
    (c : Syscall) (r : TableEntry Syscall)
    → elim r [
      | TableEntry.outside ↦ Target.ill_code
      | TableEntry.unset ↦ Target.null_pointer
      | TableEntry.entry c ↦ Target.handler c
    ]
      ≡ Target.handler c
    → r ≡ TableEntry.entry c
found_of c TableEntry.outside h = ground arith
found_of c TableEntry.unset h = ground arith
found_of c (TableEntry.entry d) h =
    ap (λ r. elim r [ Target.handler e ↦ TableEntry.entry e | _ ↦ TableEntry.entry d ]) h

entry_of :
    (c : Syscall) (f : Namespace → Target) (r : TableEntry Namespace)
    → elim r [
      | TableEntry.outside ↦ Target.ill_code
      | TableEntry.unset ↦ Target.null_pointer
      | TableEntry.entry s ↦ f s
    ]
      ≡ Target.handler c
    → (s : Namespace) × (r ≡ TableEntry.entry s) × (f s ≡ Target.handler c)
entry_of c f TableEntry.outside h = ground arith
entry_of c f TableEntry.unset h = ground arith
entry_of c f (TableEntry.entry s) h = (s, refl, h)

-- With numbers that give no two namespaces, and no two calls of a namespace, the same place, the
-- function `c` answers a code exactly if it is in the table of the namespace whose number is in
-- the bits 16 to 31 of the code, and the lowest 16 bits of the code are those of the number of
-- `c`.
pub find_handler_iff :
    (n : SyscallNumbers) (code : ℕ) (c : Syscall)
    → IsNumbering n
    → (find_handler n code ≡ Target.handler c) ↔ (
        (s : Namespace) × Memᴰ c (sysns_table s)
        × (namespace_index n s ≡ code / 2 ^ 16 % 2 ^ 16)
        × (call_index n c ≡ code % 2 ^ 16))
unfolding find_handler find_in_namespace
find_handler_iff n code c w = (
  (λ h.
      let (s, e, f) =
        entry_of c (λ s. find_in_namespace n s (code % 2 ^ 16))
          (read_table (namespace_index n) ns_table (code / 2 ^ 16 % 2 ^ 16)) h in
      let (m, p) =
        (read_table_iff (namespace_index n) s ns_table (code / 2 ^ 16 % 2 ^ 16) w.namespaces).0 e in
      let r = found_of c (read_table (call_index n) (sysns_table s) (code % 2 ^ 16)) f in
      let (l, q) =
        (read_table_iff (call_index n) c (sysns_table s) (code % 2 ^ 16) (w.calls s)).0 r in
      (s, l, p, q)),
  (λ (s, l, p, q).
      let e =
        (read_table_iff (namespace_index n) s ns_table (code / 2 ^ 16 % 2 ^ 16) w.namespaces).1
          (ns_table-Memᴰ s, p) in
      let r =
        (read_table_iff (call_index n) c (sysns_table s) (code % 2 ^ 16) (w.calls s)).1 (l, q) in
      ground (arith, e, r)),
)
