-- ===== src/Examples/Numbers.antt =====
-- Addresses, page-table entries and identifiers.
use caprese.Common.{◌<◌, ◌≡◌, ◌≢◌, ◌↔◌, arith}
use caprese.Cap.{IdCap}
use caprese.Kernel.{Ensures}
use caprese.Object.{Comparison, compare_ids}
use caprese.Object.Ids.{id_value, compare_ids-value, nth_id, nth_id-distinct}
use caprese.Examples.Kernels.{quiet}

abbrev old_id : IdCap
old_id = record { val1 = 0; val2 = 1; val3 = 5 }

abbrev new_id : IdCap
new_id = record { val1 = 0; val2 = 2; val3 = 0 }

compare_ids_example :
    ((compare_ids old_id new_id ≡ Comparison.less) ↔ (id_value old_id < id_value new_id))
    × ((compare_ids old_id new_id ≡ Comparison.equal) ↔ (old_id ≡ new_id))
    × ((compare_ids old_id new_id ≡ Comparison.greater) ↔ (id_value new_id < id_value old_id))
compare_ids_example =
    compare_ids-value old_id new_id
      (record { small1 = omega arith; small2 = omega arith; small3 = omega arith })
      (record { small1 = omega arith; small2 = omega arith; small3 = omega arith })

nth_id_example : Ensures (λ c _. Ensures (λ d _. c ≢ d) (nth_id 5 quiet)) (nth_id 2 quiet)
nth_id_example =
    nth_id-distinct 2 5 quiet (omega arith)
      (record { small1 = omega arith; small2 = omega arith; small3 = omega arith }) (omega arith)
