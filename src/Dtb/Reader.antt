-- ===== src/Dtb/Reader.antt =====
-- src/arch/rv64/kernel/arch/dtb.cpp: the nodes and the properties of a device tree. The memory is the
-- function of its bytes; a call returns or stops as a command does. The fuel counts the nodes, the
-- properties, the NOP tokens and the characters of the names.
use caprese.Common.{
  ℕ, zero, suc, ◌+◌, ◌*◌, ◌^◌, Bool, not, ◌==◌, leb, ltb, if◌then◌else◌, List, none, some,
}
use caprese.Align.{round_up}
use caprese.Kernel.{Stop}
use caprese.Dtb.Text.{codes, c_string, same_text}

pub data Result (A : Type 0) : Type 0 where
  done : A → Result A
  stopped : Stop → Result A

module _ {A B : Type 0} where
  infixl 5 ◌>>=◌
  abbrev pub ◌>>=◌ : Result A → (A → Result B) → Result B
  Result.done a >>= f = f a
  Result.stopped s >>= f = Result.stopped s

abbrev pub assert : Bool → {A : Type 0} → Result A → Result A
assert b r = if b then r else Result.stopped Stop.assertion

-- std::byteswap of the four bytes at `p`
unfoldable pub dtb_to_u32 : (ℕ → ℕ) → ℕ → ℕ
dtb_to_u32 m p =
    ((m p * 2 ^ 8 + m (suc p)) * 2 ^ 8 + m (suc (suc p))) * 2 ^ 8 + m (suc (suc (suc p)))

-- It reads four bytes, too.
unfoldable pub dtb_to_u64 : (ℕ → ℕ) → ℕ → ℕ
unfolding dtb_to_u32
dtb_to_u64 m p = dtb_to_u32 m p

abbrev pub fdt_header_magic : ℕ
fdt_header_magic = 0xd00dfeed

abbrev pub fdt_begin_node : ℕ
fdt_begin_node = 1

abbrev pub fdt_end_node : ℕ
fdt_end_node = 2

abbrev pub fdt_prop : ℕ
fdt_prop = 3

abbrev pub fdt_nop : ℕ
fdt_nop = 4

-- The fields that the functions read, by their places in the header.
pub record FdtHeader : Type 0 where
  pub magic : ℕ
  pub totalsize : ℕ
  pub off_dt_struct : ℕ
  pub off_dt_strings : ℕ
  pub size_dt_strings : ℕ
  pub size_dt_struct : ℕ

unfoldable pub header_at : (ℕ → ℕ) → ℕ → FdtHeader
unfolding dtb_to_u32
header_at m p = record {
  magic = dtb_to_u32 m p;
  totalsize = dtb_to_u32 m (p + 4);
  off_dt_struct = dtb_to_u32 m (p + 8);
  off_dt_strings = dtb_to_u32 m (p + 12);
  size_dt_strings = dtb_to_u32 m (p + 32);
  size_dt_struct = dtb_to_u32 m (p + 36);
}

-- `_next` is `next`; the name is what the array holds up to its first 0.
pub record DtbNode : Type 0 where
  pub next : ℕ
  pub unit_address : ℕ
  pub header : ℕ
  pub address_cells : ℕ
  pub size_cells : ℕ
  pub name : List ℕ

pub data PropValue : Type 0 where
  empty unknown : PropValue
  u32 u64 str phandle : ℕ → PropValue
  array str_list : ℕ → ℕ → PropValue

pub record DtbProp : Type 0 where
  pub name : List ℕ
  pub value : PropValue

-- Where a name is longer than the fuel, the walk to its 0 has run out of it.
abbrev pub string_at : ℕ → (ℕ → ℕ) → ℕ → Result (List ℕ)
string_at fuel m p = elim (c_string fuel m p) [
  | none ↦ Result.stopped Stop.out_of_fuel
  | some cs ↦ Result.done cs
]

unfoldable pub dtb_skip_nop : ℕ → (ℕ → ℕ) → ℕ → Result ℕ
dtb_skip_nop zero m p = Result.stopped Stop.out_of_fuel
dtb_skip_nop (suc fuel) m p =
    let rest = dtb_skip_nop fuel m (p + 4) in
    if dtb_to_u32 m p == fdt_nop then rest else Result.done p

abbrev pub dtb_align : ℕ → ℕ
dtb_align p = round_up p 4

-- What the parser is called with throughout: the memory, the header, the end of the structure, and
-- strtoull with base 16, of the C library.
pub record DtbSource : Type 0 where
  pub memory : ℕ → ℕ
  pub header : ℕ
  pub finish : ℕ
  pub hex_value : List ℕ → ℕ

abbrev pub str_start : (ℕ → ℕ) → ℕ → ℕ
str_start m header = header + (header_at m header).off_dt_strings

abbrev pub str_end : (ℕ → ℕ) → ℕ → ℕ
str_end m header = str_start m header + (header_at m header).size_dt_strings

-- Where the loop over the properties stops, and the cells that it found for the children.
pub record Cells : Type 0 where
  pub place : ℕ
  pub address_cells : ℕ
  pub size_cells : ℕ

-- The cells after a property with this name.
abbrev pub note_cells : List ℕ → ℕ → Cells → Cells
note_cells name value c =
    if same_text name (codes "#address-cells")
    then record c { address_cells = value }
    else if same_text name (codes "#size-cells")
    then record c { size_cells = value }
    else c

unfoldable pub props_loop : ℕ → DtbSource → Cells → Result Cells
props_loop zero d c = Result.stopped Stop.out_of_fuel
props_loop (suc fuel) d c =
    let m = d.memory in
    let body = dtb_skip_nop fuel m c.place >>= λ src.
    let len = dtb_to_u32 m (src + 4) in
    let name = str_start m d.header + dtb_to_u32 m (src + 8) in
    let value = src + 12 in
    let c' : Cells = record c { place = dtb_align (value + len) } in
    let inside : Result Cells =
      string_at fuel m name >>= λ cs. props_loop fuel d (note_cells cs (dtb_to_u32 m value) c') in
    let outside = props_loop fuel d c' in
    if not (dtb_to_u32 m src == fdt_prop)
    then Result.done (record c { place = src })
    else if leb (str_end m d.header) name
    then outside
    else inside in
    if not (ltb c.place d.finish) then Result.done c else body
