-- ===== src/Dtb/Names.antt =====
-- The types that find_prop_type gives to the names in its tables.
use Prim.Native.String.{String}
use caprese.Common.{
  ℕ, zero, suc, ◌+◌, ◌-◌, ◌/◌, ◌<◌, ◌≡◌, ◌∙◌, refl, sym, subst, Bool, true, false, not, ◌&&◌, ◌||◌,
  ltb, if◌then◌else◌, Bool-cases, inl, inr, List, [], ◌∷◌, map, length, arith,
}
use caprese.Dtb.Text.{codes, same_text, text_less}
use caprese.Dtb.PropType.{
  name_at, lower_bound, binary_search, find_prop_type, DtbPropType, fdt_u32_types, fdt_u64_types,
  fdt_str_types, fdt_array_types, fdt_phandle_types, fdt_str_list_types,
}

abbrev pub contains : List ℕ → List (List ℕ) → Bool
contains name [] = false
contains name (x ∷ xs) = same_text x name || contains name xs

abbrev all : (List ℕ → Bool) → List (List ℕ) → Bool
all p [] = true
all p (x ∷ xs) = p x && all p xs

pub same_text_eq : (a b : List ℕ) → same_text a b ≡ true → a ≡ b
unfolding same_text
same_text_eq [] [] h = refl
same_text_eq [] (y ∷ ys) h = cc
same_text_eq (x ∷ xs) [] h = cc
same_text_eq (x ∷ xs) (y ∷ ys) h = ground (arith, same_text_eq xs ys)

-- Neither before the other: the same.
same_of_not_less :
    (a b : List ℕ) → text_less a b ≡ false → text_less b a ≡ false → same_text a b ≡ true
unfolding text_less same_text
same_of_not_less [] [] h g = refl
same_of_not_less [] (y ∷ ys) h g = cc
same_of_not_less (x ∷ xs) [] h g = cc
same_of_not_less (x ∷ xs) (y ∷ ys) h g = ground (arith, same_of_not_less xs ys)

all-contains :
    (p : List ℕ → Bool) (name : List ℕ) (xs : List (List ℕ))
    → all p xs ≡ true
    → contains name xs ≡ true
    → p name ≡ true
all-contains p name [] h g = cc
all-contains p name (x ∷ xs) h g = elim (Bool-cases (same_text x name)) [
  | inl e ↦ subst (λ y. p y ≡ true) (same_text_eq x name e) (ground arith)
  | inr e ↦ all-contains p name xs (ground arith) (ground arith)
]

contains-name_at :
    (name : List ℕ) (xs : List (List ℕ)) (i : ℕ)
    → i < length xs
    → same_text (name_at xs i) name ≡ true
    → contains name xs ≡ true
contains-name_at name [] i lt h = elim lt [ ]
contains-name_at name (x ∷ xs) zero lt h = ground arith
contains-name_at name (x ∷ xs) (suc i) lt h =
    ground (arith, contains-name_at name xs i (omega arith) h)

module _ (table : List (List ℕ)) (name : List ℕ) where
  -- The name at `i`, if there is one, does not come before the name that is looked for.
  abbrev IsBound : ℕ → Type 0
  IsBound i = i < length table → text_less (name_at table i) name ≡ false

  lower_bound-IsBound :
      (rounds first len : ℕ)
      → len < rounds
      → IsBound (first + len)
      → IsBound (lower_bound rounds table name first len)
  unfolding lower_bound
  lower_bound-IsBound zero first len enough b = elim enough [ ]
  lower_bound-IsBound (suc rounds) first len enough b = elim (Bool-cases (ltb 0 len)) [
    | inl more ↦ elim (Bool-cases (text_less (name_at table (first + len / 2)) name)) [
      | inl less ↦
          rw (more, less)
            (lower_bound-IsBound rounds (first + len / 2 + 1) (len - len / 2 - 1) (ground arith)
              (subst IsBound (ground arith) b))
      | inr not_less ↦
          rw (more, not_less)
            (lower_bound-IsBound rounds first (len / 2) (ground arith) (λ h. not_less))
    ]
    | inr done ↦ rw done (subst IsBound (ground arith) b)
  ]

  -- A name that is found is in the table, whatever its order.
  contains_of_found : binary_search table name ≡ true → contains name table ≡ true
  unfolding binary_search
  contains_of_found h =
      let i = lower_bound (suc (length table)) table name 0 (length table) in
      let bound =
        lower_bound-IsBound (suc (length table)) 0 (length table) (omega arith)
          (λ h. absurd (omega arith)) in
      contains-name_at name table i (ground arith)
        (same_of_not_less (name_at table i) name (bound (ground arith)) (ground arith))

  -- The names that are found are those of `good`.
  binary_search-contains :
      (good : List (List ℕ))
      → all (λ x. not (binary_search table x) || contains x good) table ≡ true
      → all (binary_search table) good ≡ true
      → binary_search table name ≡ contains name good
  binary_search-contains good sound complete =
      let found = all-contains _ name table sound in
      let back = all-contains (binary_search table) name good complete in
      elim (Bool-cases (contains name good)) [
        | inl e ↦ back e ∙ sym e
        | inr e ↦ elim (Bool-cases (binary_search table name)) [
          | inl f ↦ let g = found (contains_of_found f) in ground arith
          | inr f ↦ f ∙ sym e
        ]
      ]

-- The names in the table of arrays that are found.
abbrev pub found_array_types : List String
found_array_types =
    "clock-frequency" ∷ "dma-ranges" ∷ "initial-mapped-area" ∷ "interrupts-extended" ∷ "ranges"
    ∷ "reg" ∷ "timebase-frequency" ∷ []

-- The type of the table that has the name, but for three names of arrays.
abbrev pub listed_type : List ℕ → DtbPropType
listed_type name =
    if contains name (map codes fdt_u32_types)
    then DtbPropType.u32
    else if contains name (map codes fdt_u64_types)
    then DtbPropType.u64
    else if contains name (map codes fdt_str_types)
    then DtbPropType.str
    else if contains name (map codes found_array_types)
    then DtbPropType.array
    else if contains name (map codes fdt_phandle_types)
    then DtbPropType.phandle
    else if contains name (map codes fdt_str_list_types)
    then DtbPropType.str_list
    else DtbPropType.unknown

-- A table all of whose names are found, and whose names are all there are.
abbrev Finds : List (List ℕ) → List (List ℕ) → Type 0
Finds table good =
    (all (λ x. not (binary_search table x) || contains x good) table ≡ true)
    × (all (binary_search table) good ≡ true)

search_as :
    (table : List (List ℕ)) (name : List ℕ) (good : List (List ℕ))
    → Finds table good
    → binary_search table name ≡ contains name good
search_as table name good f = binary_search-contains table name good f.0 f.1

u32_Finds : Finds (map codes fdt_u32_types) (map codes fdt_u32_types)
unfolding binary_search lower_bound text_less same_text
u32_Finds = (refl, refl)

u64_Finds : Finds (map codes fdt_u64_types) (map codes fdt_u64_types)
unfolding binary_search lower_bound text_less same_text
u64_Finds = (refl, refl)

str_Finds : Finds (map codes fdt_str_types) (map codes fdt_str_types)
unfolding binary_search lower_bound text_less same_text
str_Finds = (refl, refl)

array_Finds : Finds (map codes fdt_array_types) (map codes found_array_types)
unfolding binary_search lower_bound text_less same_text
array_Finds = (refl, refl)

phandle_Finds : Finds (map codes fdt_phandle_types) (map codes fdt_phandle_types)
unfolding binary_search lower_bound text_less same_text
phandle_Finds = (refl, refl)

str_list_Finds : Finds (map codes fdt_str_list_types) (map codes fdt_str_list_types)
unfolding binary_search lower_bound text_less same_text
str_list_Finds = (refl, refl)

-- `find_prop_type` gives every name the type of the table that lists it, and the unknown type to
-- a name that none lists, except that interrupt-map, interrupt-map-mask and interrupts, which
-- the table of arrays lists, have the unknown type, too.
pub find_prop_type-listed_type : (name : List ℕ) → find_prop_type name ≡ listed_type name
unfolding find_prop_type
find_prop_type-listed_type name = rw (
  search_as (map codes fdt_u32_types) name (map codes fdt_u32_types) u32_Finds,
  search_as (map codes fdt_u64_types) name (map codes fdt_u64_types) u64_Finds,
  search_as (map codes fdt_str_types) name (map codes fdt_str_types) str_Finds,
  search_as (map codes fdt_array_types) name (map codes found_array_types) array_Finds,
  search_as (map codes fdt_phandle_types) name (map codes fdt_phandle_types) phandle_Finds,
  search_as (map codes fdt_str_list_types) name (map codes fdt_str_list_types) str_list_Finds,
)
