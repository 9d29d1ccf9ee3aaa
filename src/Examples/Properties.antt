-- ===== src/Examples/Properties.antt =====
-- A name that the search finds, and one that it does not.
use caprese.Common.{◌≡◌, refl}
use caprese.Dtb.{codes, DtbPropType, find_prop_type, binary_search, lower_bound, text_less}
use caprese.Dtb.Names.{listed_type, find_prop_type-listed_type}

reg_type : find_prop_type (codes "reg") ≡ DtbPropType.array
unfolding find_prop_type binary_search lower_bound text_less
reg_type = refl

lost_type : find_prop_type (codes "interrupts") ≡ DtbPropType.unknown
unfolding find_prop_type binary_search lower_bound text_less
lost_type = refl

lost_name_example : find_prop_type (codes "interrupts") ≡ listed_type (codes "interrupts")
lost_name_example = find_prop_type-listed_type (codes "interrupts")
