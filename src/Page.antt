-- ===== src/Page.antt =====
-- include/arch/rv64/kernel/page.h: page sizes, table indices and page-table entries.
use caprese.Common.{ℕ, ◌+◌, ◌*◌, ◌/◌, ◌%◌, ◌^◌, Bool, true, false, ◌&&◌, not, ltb, leb}
use caprese.Config.{
  u64, sub64, page_size, mapped_space_base, max_virtual_address, max_page_table_level,
}
use caprese.Kernel.{Pte, PteFlags, Cmd, pure, assert, ◌>>◌, ◌>>=◌}
pub mod Index
pub mod Entry

unfoldable pub get_page_size : ℕ → ℕ
get_page_size level = u64 (page_size * 2 ^ (9 * level))

unfoldable pub get_page_size_bit : ℕ → ℕ
get_page_size_bit level = 12 + 9 * level

unfoldable pub get_page_table_index : ℕ → ℕ → ℕ
unfolding get_page_size_bit
get_page_table_index va level = va / 2 ^ get_page_size_bit level % 512

-- `map_ptr::as_phys` and `phys_ptr::as_map` of include/kernel/address.h
unfoldable pub as_phys : ℕ → ℕ
as_phys p = sub64 p mapped_space_base

unfoldable pub as_map : ℕ → ℕ
as_map p = u64 (p + mapped_space_base)

abbrev pub no_flags : PteFlags
no_flags = record {
  readable = false;
  writable = false;
  executable = false;
  user = false;
  global = false;
}

unfoldable pub enable : Pte → Pte
enable e = record e { v = true }

unfoldable pub disable : Pte → Pte
disable e = record e { v = false }

abbrev pub is_enabled : Pte → Bool
is_enabled e = e.v

abbrev pub is_disabled : Pte → Bool
is_disabled e = not e.v

unfoldable pub is_table : Pte → Bool
is_table e = e.v && (not e.r && (not e.w && (not e.x && (not e.u && not e.g))))

unfoldable pub is_user : Pte → Bool
is_user e = e.v && e.u

unfoldable pub set_flags : PteFlags → Pte → Pte
set_flags f e = record e {
  r = f.readable;
  w = f.writable;
  x = f.executable;
  u = f.user;
  g = f.global;
}

unfoldable pub set_next_page : ℕ → Pte → Pte
unfolding as_phys
set_next_page p e = record e { next_page_number = as_phys p / 2 ^ 12 % 2 ^ 44; a = true; d = true }

unfoldable pub get_next_page : Pte → ℕ
unfolding as_map
get_next_page e = as_map (u64 (e.next_page_number * 2 ^ 12))

-- `page_table_t::walk`: the index of the entry in the table.
unfoldable pub walk : ℕ → ℕ → Cmd ℕ
unfolding get_page_table_index
walk va level = do
  assert (ltb va max_virtual_address)
  assert (leb level max_page_table_level)
  pure (get_page_table_index va level)
