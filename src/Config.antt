-- ===== src/Config.antt =====
-- configs/helpers/declare_arch.cmake: the constants of the rv64 build with the sv39 MMU, which both
-- platforms select, and the machine word of that build.
use caprese.Common.{ℕ, ◌+◌, ◌-◌, ◌%◌, ◌^◌}

-- uintptr_t, size_t and uint64_t
abbrev pub word : ℕ
word = 2 ^ 64

abbrev pub u64 : ℕ → ℕ
u64 n = n % word

abbrev pub u32 : ℕ → ℕ
u32 n = n % 2 ^ 32

-- `a - b` on uintptr_t, with its wrap-around
abbrev pub sub64 : ℕ → ℕ → ℕ
sub64 a b = (a + word - b) % word

abbrev pub max_virtual_address : ℕ
max_virtual_address = 2 ^ 38

-- The width of a physical address in a capability's bit field is 36.
abbrev pub max_physical_address : ℕ
max_physical_address = 2 ^ 36

abbrev pub kernel_space_base : ℕ
kernel_space_base = 2 ^ 37

abbrev pub mapped_space_base : ℕ
mapped_space_base = 2 ^ 37

abbrev pub capability_space_base : ℕ
capability_space_base = 2 ^ 37 + 2 ^ 36

abbrev pub page_size : ℕ
page_size = 4096

abbrev pub num_page_table_entry : ℕ
num_page_table_entry = 512

abbrev pub kilo_page_table_level : ℕ
kilo_page_table_level = 0

abbrev pub mega_page_table_level : ℕ
mega_page_table_level = 1

abbrev pub giga_page_table_level : ℕ
giga_page_table_level = 2

abbrev pub max_page_table_level : ℕ
max_page_table_level = 2
