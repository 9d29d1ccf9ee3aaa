-- ===== src/Mapping/Undo.antt =====
-- A mapped table that is destroyed.
use caprese.Common.{
  ℕ, zero, suc, ◌+◌, ◌%◌, ◌^◌, ◌≤◌, ◌<◌, ◌≡◌, ◌≢◌, refl, true, false, arith, update, ==-refl,
}
use caprese.Config.{num_page_table_entry, sub64, kernel_space_base, mapped_space_base, page_size}
use caprese.Cap.{Capability, PageTableCap}
use caprese.Kernel.{Kernel, Ensures, and_then, ok, get_slot, get_entry, put_entry}
use caprese.Page.{get_page_size, get_page_table_index, walk, disable, get_next_page}
use caprese.Object.{destroy_page_table_object}
use caprese.Mapping.Tables.{entry_address, table_entry, map_page_table_cap}
use caprese.Mapping.Tree.{
  CanMap, mapped_cap, with_mapping, map_page_table_cap_ok, get_next_page-table_entry,
}

-- The table begins at a multiple of what it covers.
pub record IsPlaced (t : PageTableCap) : Type 0 where
  pub small : t.virt_addr_base < 2 ^ 38
  pub three_levels : t.level < 3
  pub aligned : t.virt_addr_base % get_page_size (t.level + 1) ≡ 0

-- The address that entry `i` of a table covers leads back to the entry, at the level of the table.
index_of_entry :
    (base level i : ℕ)
    → base < 2 ^ 38
    → level < 3
    → base % get_page_size (level + 1) ≡ 0
    → i < num_page_table_entry
    → get_page_table_index (entry_address base level i) level ≡ i
unfolding get_page_table_index entry_address get_page_size
index_of_entry base zero i small l al lt = omega arith
index_of_entry base (suc zero) i small l al lt = omega arith
index_of_entry base (suc (suc zero)) i small l al lt = omega arith
index_of_entry base (suc (suc (suc n))) i small l al lt = absurd (omega arith)

-- Any address that an entry of a well-placed table covers has, at the table's level, the index of
-- the entry.
pub get_page_table_index-entry_address :
    (t : PageTableCap) (i : ℕ)
    → IsPlaced t
    → i < num_page_table_entry
    → get_page_table_index (entry_address t.virt_addr_base t.level i) t.level ≡ i
get_page_table_index-entry_address t i v lt =
    index_of_entry t.virt_addr_base t.level i v.small v.three_levels v.aligned lt

walk_ok :
    (va level i : ℕ) (k : Kernel)
    → va < 2 ^ 38
    → level < 3
    → get_page_table_index va level ≡ i
    → walk va level k ≡ ok i k
unfolding walk
walk_ok va level i k a b e = ground arith

walk_same :
    (va va' level level' i : ℕ) (k : Kernel)
    → va' ≡ va
    → level' ≡ level
    → walk va level k ≡ ok i k
    → walk va' level' k ≡ ok i k
walk_same va va' level level' i k e f w = rw (e, f) w

destroy_run :
    (fuel c t i : ℕ) (k : Kernel) (cap : PageTableCap)
    → c ≢ 0
    → (k.slots c).cap ≡ Capability.page_table cap
    → (k.slots c).next ≡ 0
    → cap.parent_table ≡ t
    → t ≢ 0
    → walk cap.virt_addr_base (cap.level + 1) k ≡ ok i k
    → (k.tables t i).v ≡ true
    → get_next_page (k.tables t i) ≡ cap.table
    → destroy_page_table_object fuel c k
      ≡ ok tt
          (record k { tables = update k.tables t (update (k.tables t) i (disable (k.tables t i))) })
unfolding destroy_page_table_object get_slot get_entry put_entry
destroy_run fuel c t i k cap ne hc tail ht nt w v nx = ground arith

level_back : (l : ℕ) → l ≢ 0 → l < 3 → sub64 l 1 % 2 ^ 2 + 1 ≡ l
level_back l ne small = omega arith

small_enough : (va : ℕ) → va < kernel_space_base → (va % 2 ^ 38 ≡ va) × (va < 2 ^ 38)
small_enough va h = omega arith

-- A table that `map_page_table_cap` has mapped into a well-placed table, its capability the last
-- of its chain and its table on a page in the kernel's mapping, is found by
-- `destroy_page_table_object` at the entry where it was put, and that entry is free afterwards.
pub destroy-map_page_table_cap :
    (fuel p i c : ℕ) (k : Kernel) (parent child : PageTableCap)
    → CanMap p i c k parent child
    → IsPlaced parent
    → (k.slots c).next ≡ 0
    → mapped_space_base ≤ child.table
    → child.table < mapped_space_base + 2 ^ 56
    → child.table % page_size ≡ 0
    → Ensures
        (λ _ k'. (k'.tables parent.table i).v ≡ false)
        (and_then (map_page_table_cap p i c k) (λ _. destroy_page_table_object fuel c))
unfolding update table_entry disable
destroy-map_page_table_cap fuel p i c k parent child h v tail lo hi al =
    let va = entry_address parent.virt_addr_base parent.level i in
    let sm = small_enough va h.user_space in
    let k' =
      with_mapping parent.table i (table_entry child.table (k.tables parent.table i)) c
        (Capability.page_table (mapped_cap i parent child)) k in
    let found : walk (va % 2 ^ 38) (sub64 parent.level 1 % 2 ^ 2 + 1) k' ≡ ok i k' =
      walk_same va (va % 2 ^ 38) parent.level (sub64 parent.level 1 % 2 ^ 2 + 1) i k' sm.0
        (level_back parent.level h.above_pages v.three_levels)
        (walk_ok va parent.level i k' sm.1 v.three_levels
          (get_page_table_index-entry_address parent i v h.in_table)) in
    rw
      (
        map_page_table_cap_ok p i c k parent child h,
        destroy_run fuel c parent.table i k' (mapped_cap i parent child) h.child_set
            (rw (==-refl c)) (rw (==-refl c) tail) refl h.table_set found
            (rw (==-refl parent.table, ==-refl i))
            (rw (==-refl parent.table, ==-refl i)
              (get_next_page-table_entry child.table (k.tables parent.table i) lo hi al)),
      )
      (rw (==-refl parent.table, ==-refl i))
