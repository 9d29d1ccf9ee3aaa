-- ===== src/Dtb/Parser.antt =====
-- src/arch/rv64/kernel/arch/dtb.cpp: for_each_dtb_node, for_each_dtb_prop and get_dtb_region. A callback
-- carries a state of its caller along, and its Boolean is the source's.
use caprese.Common.{
  ℕ, zero, suc, ◌+◌, ◌%◌, Bool, false, not, ◌==◌, leb, ltb, if◌then◌else◌, List, length, none, some,
}
use caprese.Config.{mapped_space_base, sub64}
use caprese.Kernel.{Stop}
use caprese.Dtb.Text.{before, after, take}
use caprese.Dtb.PropType.{DtbPropType, find_prop_type}
use caprese.Dtb.Reader.{
  Result, ◌>>=◌, assert, dtb_to_u32, dtb_to_u64, header_at, fdt_header_magic, fdt_begin_node,
  fdt_end_node, fdt_prop, DtbNode, PropValue, DtbProp, string_at, dtb_skip_nop, dtb_align,
  DtbSource, str_start, str_end, props_loop,
}

abbrev pub NodeCallback : Type 0 → Type 0
NodeCallback S = DtbNode → S → Result (S × Bool)

abbrev pub PropCallback : Type 0 → Type 0
PropCallback S = DtbNode → DtbProp → S → Result (S × Bool)

-- What the name of a node says: the name up to the `@`, of 31 characters at most, and the address.
abbrev pub node_of : DtbSource → List ℕ → ℕ → ℕ → ℕ → DtbNode
node_of d name next address_cells size_cells = record {
  next = next;
  unit_address = elim (after b'@' name) [ none ↦ 0 | some digits ↦ d.hex_value digits ];
  header = d.header;
  address_cells = address_cells;
  size_cells = size_cells;
  name = take 31 (before b'@' name);
}

-- The last test of a node: the token for its end is passed over, anything else is left where it is.
abbrev pub node_end : DtbSource → ℕ → ℕ
node_end d src =
    if leb d.finish src
    then src
    else if not (dtb_to_u32 d.memory src == fdt_end_node)
    then src
    else src + 4

-- The value of a property that has a value, by the type that its name gives it.
abbrev pub value_of : (ℕ → ℕ) → DtbPropType → ℕ → ℕ → PropValue
value_of m DtbPropType.empty p len = PropValue.empty
value_of m DtbPropType.u32 p len = PropValue.u32 (dtb_to_u32 m p)
value_of m DtbPropType.u64 p len = PropValue.u64 (dtb_to_u64 m p)
value_of m DtbPropType.str p len = PropValue.str p
value_of m DtbPropType.array p len = PropValue.array len p
value_of m DtbPropType.phandle p len = PropValue.phandle (dtb_to_u32 m p)
value_of m DtbPropType.str_list p len = PropValue.str_list len p
value_of m DtbPropType.unknown p len = PropValue.unknown

abbrev pub prop_value : (ℕ → ℕ) → List ℕ → ℕ → ℕ → PropValue
prop_value m name p len =
    if len == 0 then PropValue.empty else value_of m (find_prop_type name) p len

module _ {S : Type 0} (d : DtbSource) where
  abbrev pub silent : NodeCallback S
  silent node s = Result.done (s, false)

  unfoldable mutual
    pub parse_dtb_node : ℕ → ℕ → ℕ → ℕ → NodeCallback S → S → Result (ℕ × S)
    parse_dtb_node zero src address_cells size_cells callback s = Result.stopped Stop.out_of_fuel
    parse_dtb_node (suc fuel) src address_cells size_cells callback s =
        let m = d.memory in
        let body = string_at fuel m (src + 4) >>= λ name.
        dtb_skip_nop fuel m (dtb_align (src + 4 + length name + 1)) >>= λ next.
        callback (node_of d name next address_cells size_cells) s >>= λ (s', should_continue).
        props_loop fuel d (record { place = next; address_cells = 2; size_cells = 1 }) >>= λ c.
        parse_children fuel c.place c.address_cells c.size_cells
          (if should_continue then callback else silent) s'
        >>= λ (src', s''). Result.done (node_end d src', s'') in
        assert (ltb 0 address_cells) (
          assert (src % 4 == 0)
            (if not (dtb_to_u32 m src == fdt_begin_node) then Result.done (src + 4, s) else body))

    pub parse_children : ℕ → ℕ → ℕ → ℕ → NodeCallback S → S → Result (ℕ × S)
    parse_children zero src address_cells size_cells callback s = Result.stopped Stop.out_of_fuel
    parse_children (suc fuel) src address_cells size_cells callback s =
        let body = dtb_skip_nop fuel d.memory src >>= λ src'.
        let child = parse_dtb_node fuel src' address_cells size_cells callback s >>= λ (src'', s').
        parse_children fuel src'' address_cells size_cells callback s' in
        if not (dtb_to_u32 d.memory src' == fdt_begin_node) then Result.done (src', s) else child in
        if not (ltb src d.finish) then Result.done (src, s) else body

  -- The callback and the `break` where it says so.
  unfoldable pub dtb_props : ℕ → DtbNode → ℕ → PropCallback S → S → Result S
  dtb_props zero node src callback s = Result.stopped Stop.out_of_fuel
  dtb_props (suc fuel) node src callback s =
      let m = d.memory in
      let body = dtb_skip_nop fuel m src >>= λ token.
      let len = dtb_to_u32 m (token + 4) in
      let name = str_start m d.header + dtb_to_u32 m (token + 8) in
      let value = token + 12 in
      let next = dtb_align (value + len) in
      let outside = dtb_props fuel node next callback s in
      let inside = string_at fuel m name >>= λ cs.
      callback node (record { name = cs; value = prop_value m cs value len }) s >>= λ (s', go_on).
      let rest = dtb_props fuel node next callback s' in
      if not go_on then Result.done s' else rest in
      if not (dtb_to_u32 m token == fdt_prop)
      then Result.done s
      else if leb (str_end m d.header) name
      then outside
      else inside in
      if not (ltb src d.finish) then Result.done s else body

-- A tree, by where its header lies.
abbrev pub source_at : (List ℕ → ℕ) → (ℕ → ℕ) → ℕ → DtbSource
source_at hex_value m dtb = record {
  memory = m;
  header = dtb;
  finish = dtb + (header_at m dtb).off_dt_struct + (header_at m dtb).size_dt_struct;
  hex_value = hex_value;
}

unfoldable pub for_each_dtb_node :
    {S : Type 0} → ℕ → (List ℕ → ℕ) → (ℕ → ℕ) → ℕ → NodeCallback S → S → Result S
for_each_dtb_node fuel hex_value m dtb callback s = assert (not (dtb == 0)) (
    if not ((header_at m dtb).magic == fdt_header_magic)
    then Result.done s
    else dtb_skip_nop fuel m (dtb + (header_at m dtb).off_dt_struct) >>= λ src.
        parse_dtb_node (source_at hex_value m dtb) fuel src 2 1 callback s >>= λ (src', s').
        Result.done s')

unfoldable pub for_each_dtb_prop :
    {S : Type 0} → ℕ → (List ℕ → ℕ) → (ℕ → ℕ) → DtbNode → PropCallback S → S → Result S
for_each_dtb_prop fuel hex_value m node callback s =
    dtb_props (source_at hex_value m node.header) fuel node node.next callback s

-- The physical addresses of a tree at an address of the kernel's mapping; both 0 if it is no tree.
unfoldable pub get_dtb_region : (ℕ → ℕ) → ℕ → ℕ × ℕ
get_dtb_region m dtb =
    if not ((header_at m dtb).magic == fdt_header_magic)
    then (0, 0)
    else (sub64 dtb mapped_space_base, sub64 (dtb + (header_at m dtb).totalsize) mapped_space_base)
