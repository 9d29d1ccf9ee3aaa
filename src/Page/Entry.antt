-- ===== src/Page/Entry.antt =====
-- What a page-table entry holds after it has been written.
use caprese.Common.{ℕ, ◌+◌, ◌%◌, ◌^◌, ◌≤◌, ◌<◌, ◌≡◌, not, ◌||◌, arith}
use caprese.Config.{mapped_space_base, page_size}
use caprese.Kernel.{Pte, PteFlags}
use caprese.Page.{set_next_page, get_next_page, set_flags, enable, is_table, is_user}

-- Reading the next page of an entry gives the page that was stored, for every page-aligned
-- address in the 56 bits of physical memory that the entry can name, seen through the kernel's
-- mapping.
pub get_next_page-set_next_page :
    (p : ℕ) (e : Pte)
    → mapped_space_base ≤ p
    → p < mapped_space_base + 2 ^ 56
    → p % page_size ≡ 0
    → get_next_page (set_next_page p e) ≡ p
unfolding get_next_page set_next_page
get_next_page-set_next_page p e low high aligned = omega arith

-- An entry written with the flags `f` and enabled is taken for a table exactly if `f` has none
-- of the flags, and for a user page exactly if it has the user flag.
pub is_table-enable :
    (p : ℕ) (f : PteFlags) (e : Pte)
    → (is_table (enable (set_next_page p (set_flags f e)))
        ≡ not (f.readable || (f.writable || (f.executable || (f.user || f.global)))))
      × (is_user (enable (set_next_page p (set_flags f e))) ≡ f.user)
unfolding is_table is_user enable set_next_page set_flags
is_table-enable p f e = (ground arith, ground arith)
