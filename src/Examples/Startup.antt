-- ===== src/Examples/Startup.antt =====
-- A region with a reserved part.
use caprese.Common.{[], ◌∷◌, false, if◌then◌else◌, arith}
use caprese.Setup.{Region, insert_memory_region_caps, inside}
use caprese.Setup.Carving.{Makes, is_reserved, insert_memory_region_caps-Makes}

abbrev ram : Region
ram = record { start = 12288; finish = 40960 }

abbrev kernel_image : Region
kernel_image = record { start = 16384; finish = 20480 }

carving_example :
    Makes 8192 false
      (insert_memory_region_caps 8192 false (kernel_image ∷ []) ram)
      (λ x. if is_reserved x (kernel_image ∷ []) then 0 else inside x ram)
carving_example =
    insert_memory_region_caps-Makes 8192 false (kernel_image ∷ []) ram (omega arith, tt)
      (omega arith) (omega arith) (omega arith)
