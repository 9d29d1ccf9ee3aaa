-- ===== src/Dtb/Text.antt =====
-- The functions on C strings that src/arch/rv64/kernel/arch/dtb.cpp and setup.cpp call, on lists of bytes.
use Prim.Native.Char.{code}
use Prim.Native.String.{String}
use caprese.Common.{
  ℕ, zero, suc, Bool, true, false, ◌&&◌, ◌==◌, ltb, if◌then◌else◌, List, [], ◌∷◌, Option, none,
  some,
}

abbrev pub codes : String → List ℕ
codes String.[] = []
codes (String.◌∷◌ c s) = code c ∷ codes s

-- The bytes from `p` up to the first 0; the fuel is one more than their number.
unfoldable pub c_string : ℕ → (ℕ → ℕ) → ℕ → Option (List ℕ)
c_string zero m p = none
c_string (suc fuel) m p =
    let rest : Option (List ℕ) = elim (c_string fuel m (suc p)) [
      | none ↦ none
      | some cs ↦ some (m p ∷ cs)
    ] in
    if m p == 0 then some [] else rest

-- `strcmp(a, b) == 0` and `strcmp(a, b) < 0`
unfoldable pub same_text : List ℕ → List ℕ → Bool
same_text [] [] = true
same_text [] (y ∷ ys) = false
same_text (x ∷ xs) [] = false
same_text (x ∷ xs) (y ∷ ys) = x == y && same_text xs ys

unfoldable pub text_less : List ℕ → List ℕ → Bool
text_less [] [] = false
text_less [] (y ∷ ys) = true
text_less (x ∷ xs) [] = false
text_less (x ∷ xs) (y ∷ ys) = if ltb x y then true else x == y && text_less xs ys

-- What precedes the first `c`, and what follows it; `none` if there is no `c`.
unfoldable pub before : ℕ → List ℕ → List ℕ
before c [] = []
before c (x ∷ xs) = if x == c then [] else x ∷ before c xs

unfoldable pub after : ℕ → List ℕ → Option (List ℕ)
after c [] = none
after c (x ∷ xs) = if x == c then some xs else after c xs

abbrev pub take : ℕ → List ℕ → List ℕ
take n [] = []
take zero (x ∷ xs) = []
take (suc n) (x ∷ xs) = x ∷ take n xs
