-- ===== src/Dtb/PropVisit.antt =====
-- for_each_dtb_prop of src/arch/rv64/kernel/arch/dtb.cpp on a node of a tree that memory holds.
use caprese.Common.{ℕ, ◌+◌, if◌then◌else◌, List, [], ◌∷◌}
use caprese.Dtb.Reader.{Result, ◌>>=◌, dtb_align, DtbSource, DtbNode, DtbProp}
use caprese.Dtb.Parser.{PropCallback, prop_value}
use caprese.Dtb.Tree.{FdtProperty, token}

module _ (S : Type 0) (d : DtbSource) (node : DtbNode) (callback : PropCallback S) where
  -- The callback at the properties from `p` on, up to the one for which it returns false. The value is
  -- that of the bytes behind the property's head, by the type that the name gives it.
  unfoldable pub visit_props : ℕ → List FdtProperty → S → Result S
  visit_props p [] s = Result.done s
  visit_props p (x ∷ xs) s =
      let prop : DtbProp = record {
        name = x.name;
        value = prop_value d.memory x.name (p + 12) (token d (p + 4));
      } in
      callback node prop s >>= λ (s', go_on).
      let rest = visit_props (dtb_align (p + 12 + token d (p + 4))) xs s' in
      if go_on then rest else Result.done s'
