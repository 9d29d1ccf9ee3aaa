-- ===== src/Setup/Powers.antt =====
-- Multiples of powers of two.
use caprese.Common.{
  ℕ, zero, suc, ◌+◌, ◌*◌, ◌/◌, ◌%◌, ◌^◌, ◌<◌, ◌≤◌, ◌≡◌, ap, ◌∙◌, true, false, ◌==◌, arith,
}

pub pow_pos : (n : ℕ) → 0 < 2 ^ n
pow_pos zero = omega arith
pow_pos (suc n) = omega (arith, pow_pos n)

pub even_part : (q r p : ℕ) → q ≡ 2 * r → q * p ≡ r * (2 * p)
even_part q r p h = grind arith

div_multiple : (q p : ℕ) → 0 < p → (q * p) / p ≡ q
div_multiple q p h = grind arith

pub mod_multiple : (q p : ℕ) → 0 < p → (q * p) % p ≡ 0
mod_multiple q p h = grind arith

pub odd_part : (q r p : ℕ) → q ≡ 2 * r + 1 → q * p + p ≡ (r + 1) * (2 * p)
odd_part q r p h = rw h (omega arith)

pub le_multiple : (q p : ℕ) → 0 < q → p ≤ q * p
le_multiple q p h = grind arith

pub pow_suc : (n : ℕ) → 2 ^ suc n ≡ 2 * 2 ^ n
pow_suc n = omega arith

pub move_factor : (p m : ℕ) → p * (2 * m) ≡ 2 * p * m
move_factor p m = grind arith

pub aligned_start : (q start b : ℕ) → start ≡ q * 2 ^ b → start % 2 ^ b ≡ 0
aligned_start q start b e = rw e (mod_multiple q (2 ^ b) (pow_pos b))

quotient_of : (q start b : ℕ) → start ≡ q * 2 ^ b → start / 2 ^ b ≡ q
quotient_of q start b e = rw e (div_multiple q (2 ^ b) (pow_pos b))

pub half_even :
    (q start b : ℕ) → start ≡ q * 2 ^ b → (start / 2 ^ b % 2 == 1) ≡ false → q ≡ 2 * (q / 2)
half_even q start b e h = ground (arith, quotient_of q start b e)

pub half_odd :
    (q start b : ℕ) → start ≡ q * 2 ^ b → (start / 2 ^ b % 2 == 1) ≡ true → q ≡ 2 * (q / 2) + 1
half_odd q start b e h = ground (arith, quotient_of q start b e)

pub next_even :
    (q start b : ℕ)
    → start ≡ q * 2 ^ b
    → (start / 2 ^ b % 2 == 1) ≡ false
    → start ≡ q / 2 * 2 ^ suc b
next_even q start b e h = rw (pow_suc b) (e ∙ even_part q (q / 2) (2 ^ b) (half_even q start b e h))

pub next_odd :
    (q start b : ℕ)
    → start ≡ q * 2 ^ b
    → (start / 2 ^ b % 2 == 1) ≡ true
    → start + 2 ^ b ≡ (q / 2 + 1) * 2 ^ suc b
next_odd q start b e h =
    rw (pow_suc b) (ap (λ s. s + 2 ^ b) e ∙ odd_part q (q / 2) (2 ^ b) (half_odd q start b e h))

one_more : (q p : ℕ) → q * p + p ≡ (q + 1) * p
one_more q p = grind arith

pub next_multiple : (q start b : ℕ) → start ≡ q * 2 ^ b → start + 2 ^ b ≡ (q + 1) * 2 ^ b
next_multiple q start b e = rw e (one_more q (2 ^ b))

pub smaller_multiple : (q start b : ℕ) → start ≡ q * 2 ^ suc b → start ≡ 2 * q * 2 ^ b
smaller_multiple q start b e = e ∙ rw (pow_suc b) (move_factor q (2 ^ b))

divided : (a p : ℕ) → 0 < p → a % p ≡ 0 → a ≡ a / p * p
divided a p pos h = grind arith

pub of_mod : (a b : ℕ) → a % 2 ^ b ≡ 0 → a ≡ a / 2 ^ b * 2 ^ b
of_mod a b h = divided a (2 ^ b) (pow_pos b) h
