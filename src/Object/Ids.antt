-- ===== src/Object/Ids.antt =====
-- Identifiers are never given out twice, and are ordered by age.
use caprese.Common.{ℕ, zero, suc, ◌+◌, ◌*◌, ◌^◌, ◌<◌, ◌≡◌, ◌≢◌, ◌↔◌, refl, subst, arith}
use caprese.Config.{word}
use caprese.Cap.{Capability, IdCap}
use caprese.Cap.Make.{advance, make_unique_id_cap}
use caprese.Kernel.{Kernel, Cmd, Ensures, Ensures-mono, ok, ◌>>=◌}
use caprese.Object.Compare.{Comparison, compare_ids}

-- The 192 bits of `next_id` as one number, and the width of its digits.
abbrev pub id_value : IdCap → ℕ
id_value n = n.val1 * (word * word) + n.val2 * word + n.val3

pub record IsId (n : IdCap) : Type 0 where
  pub small1 : n.val1 < 2 ^ 59
  pub small2 : n.val2 < word
  pub small3 : n.val3 < word

-- The comparison of two identifiers, each within the widths of its fields, is that of their
-- 187-bit values, and they are equal only if they are the same.
pub compare_ids-value :
    (a b : IdCap)
    → IsId a
    → IsId b
    → ((compare_ids a b ≡ Comparison.less) ↔ (id_value a < id_value b))
      × ((compare_ids a b ≡ Comparison.equal) ↔ (a ≡ b))
      × ((compare_ids a b ≡ Comparison.greater) ↔ (id_value b < id_value a))
unfolding compare_ids
compare_ids-value a b ha hb = (
  (λ h. ground arith, λ h. ground arith),
  (λ h. ground arith, λ h. ground arith),
  (λ h. ground arith, λ h. ground arith),
)

advance-value : (n : IdCap) → IsId n → id_value (advance n) ≡ id_value n + 1
unfolding advance
advance-value n h = ground arith

abbrev pub id_capacity : ℕ
id_capacity = 2 ^ 59 * (word * word)

advance-IsId : (n : IdCap) → IsId n → id_value n + 1 < id_capacity → IsId (advance n)
unfolding advance
advance-IsId n h room = ground arith

make_unique_id_cap_ok :
    (k : Kernel)
    → IsId k.next_id
    → make_unique_id_cap k ≡ ok (Capability.id k.next_id) (record k { next_id = advance k.next_id })
unfolding make_unique_id_cap
make_unique_id_cap_ok k h = ground arith

-- The result of call `m` of `make_unique_id_cap`, counted from 0, from a state of the kernel on.
pub nth_id : ℕ → Cmd Capability
nth_id zero = make_unique_id_cap
nth_id (suc m) = make_unique_id_cap >>= λ _. nth_id m

abbrev pub IdOfValue : ℕ → Capability → Type 0
IdOfValue v c = (n : IdCap) × (c ≡ Capability.id n) × (id_value n ≡ v) × IsId n

-- Until the 187 bits are used up, call `m` succeeds, and the identifier that it returns has the value
-- of `next_id` plus `m`.
pub nth_id-value :
    (m : ℕ) (k : Kernel)
    → IsId k.next_id
    → id_value k.next_id + m < id_capacity
    → Ensures (λ c _. IdOfValue (id_value k.next_id + m) c) (nth_id m k)
unfolding nth_id
nth_id-value zero k h room = rw (make_unique_id_cap_ok k h) (k.next_id, refl, omega arith, h)
nth_id-value (suc m) k h room =
    let n' = advance k.next_id in
    let e = advance-value k.next_id h in
    rw (make_unique_id_cap_ok k h) (
      subst (λ v. Ensures (λ c _. IdOfValue v c) (nth_id m (record k { next_id = n' })))
        (omega (arith, e))
        (nth_id-value m (record k { next_id = n' }) (advance-IsId k.next_id h (omega arith))
          (omega (arith, e))))

-- Two calls of `make_unique_id_cap`, of which the later still comes before the 187 bits are used
-- up, return different identifiers.
pub nth_id-distinct :
    (i j : ℕ) (k : Kernel)
    → i < j
    → IsId k.next_id
    → id_value k.next_id + j < id_capacity
    → Ensures (λ c _. Ensures (λ d _. c ≢ d) (nth_id j k)) (nth_id i k)
nth_id-distinct i j k lt h room =
    Ensures-mono _ _ (nth_id i k) (nth_id-value i k h (omega arith)) λ c _ a.
      Ensures-mono _ _ (nth_id j k) (nth_id-value j k h room)
        λ d _ b. λ e. ground (arith, a.1, a.2, b.1, b.2)
