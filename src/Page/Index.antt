-- ===== src/Page/Index.antt =====
-- A virtual address is its three table indices and its offset in the page.
use caprese.Common.{ℕ, ◌+◌, ◌*◌, ◌%◌, ◌<◌, ◌≡◌, arith}
use caprese.Config.{max_virtual_address, num_page_table_entry, page_size}
use caprese.Page.{get_page_table_index, get_page_size}

-- At every level the index that the kernel computes is one of the 512 entries of a table.
pub get_page_table_index_bound :
    (va level : ℕ) → get_page_table_index va level < num_page_table_entry
unfolding get_page_table_index
get_page_table_index_bound va level = omega arith

-- Below 2^38 an address is determined by its indices at levels 2, 1 and 0 and the offset in its
-- page: the indices, weighed by the page sizes of their levels, and the offset add up to it.
pub get_page_table_index-decompose :
    (va : ℕ)
    → va < max_virtual_address
    → get_page_table_index va 2 * get_page_size 2
        + get_page_table_index va 1 * get_page_size 1
        + get_page_table_index va 0 * get_page_size 0
        + va % page_size
      ≡ va
unfolding get_page_table_index get_page_size
get_page_table_index-decompose va small = omega arith
