-- ===== src/Mapping/Tree.antt =====
-- Mapping a page table into another and taking it out again.
use caprese.Common.{
  ℕ, ◌+◌, ◌%◌, ◌^◌, ◌≤◌, ◌<◌, ◌≡◌, ◌≢◌, refl, sym, ◌∙◌, ap, ◌↔◌, Bool, true, false, arith, update,
  ==-false, ==-refl,
}
use caprese.Config.{sub64, num_page_table_entry, kernel_space_base, mapped_space_base, page_size}
use caprese.Cap.{Capability, PageTableCap}
use caprese.Kernel.{
  Kernel, Run, stop, Pte, Ensures, and_then, ok, get_slot, set_cap, with_cap, get_entry, put_entry,
}
use caprese.Page.{disable, get_next_page, no_flags, set_flags}
use caprese.Page.Entry.{get_next_page-set_next_page}
use caprese.Mapping.Tables.{entry_address, table_entry, map_page_table_cap, unmap_page_table_cap}

-- When the table of `child` can be put at entry `i` of the table of `parent`.
pub record CanMap (p i c : ℕ) (k : Kernel) (parent child : PageTableCap) : Type 0 where
  pub parent_slot : (k.slots p).cap ≡ Capability.page_table parent
  pub child_slot : (k.slots c).cap ≡ Capability.page_table child
  pub parent_set : p ≢ 0
  pub child_set : c ≢ 0
  pub table_set : parent.table ≢ 0
  pub in_table : i < num_page_table_entry
  pub user_space : entry_address parent.virt_addr_base parent.level i < kernel_space_base
  pub above_pages : parent.level ≢ 0
  pub free_entry : (k.tables parent.table i).v ≡ false
  pub unmapped : child.mapped ≡ false

-- The kernel with entry `i` of table `t` and the capability at `c` replaced.
abbrev pub with_mapping : ℕ → ℕ → Pte → ℕ → Capability → Kernel → Kernel
with_mapping t i e c cap k = record k {
  tables = update k.tables t (update (k.tables t) i e);
  slots = update k.slots c (record (k.slots c) { cap = cap });
}

abbrev pub mapped_cap : ℕ → PageTableCap → PageTableCap → PageTableCap
mapped_cap i parent child = record child {
  mapped = true;
  level = sub64 parent.level 1 % 2 ^ 2;
  virt_addr_base = entry_address parent.virt_addr_base parent.level i % 2 ^ 38;
  parent_table = parent.table;
}

pub same_state : {b : Bool} {k k' : Kernel} → ok b k ≡ ok b k' → k ≡ k'
same_state {b} {k} {k'} e = ap state_of e
  where
    state_of : Run Bool → Kernel
    state_of (ok b' k'') = k''
    state_of (stop s) = k

pub map_page_table_cap_ok :
    (p i c : ℕ) (k : Kernel) (parent child : PageTableCap)
    → CanMap p i c k parent child
    → map_page_table_cap p i c k
      ≡ ok true (
          with_mapping parent.table i
            (table_entry child.table (k.tables parent.table i))
            c
            (Capability.page_table (mapped_cap i parent child))
            k)
unfolding map_page_table_cap get_slot set_cap with_cap get_entry put_entry
map_page_table_cap_ok p i c k parent child h = ground arith

map_page_table_cap_only :
    (p i c : ℕ) (k k' : Kernel) (parent child : PageTableCap)
    → (k.slots p).cap ≡ Capability.page_table parent
    → (k.slots c).cap ≡ Capability.page_table child
    → map_page_table_cap p i c k ≡ ok true k'
    → CanMap p i c k parent child
unfolding map_page_table_cap get_slot set_cap with_cap get_entry put_entry
map_page_table_cap_only p i c k k' parent child hp hc h = ground arith

-- With two page-table capabilities in the slots, `map_page_table_cap` returns true in the state
-- `k'` exactly if the index is in the table, the entry's address is in user space, the parent is
-- not of the lowest level, the entry is free and the child is unmapped, and `k'` is `k` with
-- that entry of the parent's table and the child's capability written, and nothing else.
pub map_page_table_cap_iff :
    (p i c : ℕ) (k k' : Kernel) (parent child : PageTableCap)
    → (k.slots p).cap ≡ Capability.page_table parent
    → (k.slots c).cap ≡ Capability.page_table child
    → (map_page_table_cap p i c k ≡ ok true k') ↔ (
        CanMap p i c k parent child
        × (k'
            ≡ with_mapping parent.table i
                (table_entry child.table (k.tables parent.table i))
                c
                (Capability.page_table (mapped_cap i parent child))
                k))
map_page_table_cap_iff p i c k k' parent child hp hc = (
  λ h.
      let can = map_page_table_cap_only p i c k k' parent child hp hc h in
      (can, same_state (sym h ∙ map_page_table_cap_ok p i c k parent child can)),
  λ h. map_page_table_cap_ok p i c k parent child h.0 ∙ ap (ok true) (sym h.1),
)

pub get_next_page-table_entry :
    (t : ℕ) (e : Pte)
    → mapped_space_base ≤ t
    → t < mapped_space_base + 2 ^ 56
    → t % page_size ≡ 0
    → get_next_page (table_entry t e) ≡ t
unfolding table_entry get_next_page
get_next_page-table_entry t e lo hi al =
    get_next_page-set_next_page t (set_flags no_flags e) lo hi al

-- When `unmap_page_table_cap` finds the child at entry `i`.
record CanUnmap (p i c : ℕ) (k : Kernel) (parent child : PageTableCap) : Type 0 where
  parent_slot : (k.slots p).cap ≡ Capability.page_table parent
  child_slot : (k.slots c).cap ≡ Capability.page_table child
  parent_set : p ≢ 0
  child_set : c ≢ 0
  table_set : parent.table ≢ 0
  in_table : i < num_page_table_entry
  user_space : entry_address parent.virt_addr_base parent.level i < kernel_space_base
  used_entry : (k.tables parent.table i).v ≡ true
  is_mapped : child.mapped ≡ true
  leads_there : get_next_page (k.tables parent.table i) ≡ child.table

unmap_page_table_cap_ok :
    (p i c : ℕ) (k : Kernel) (parent child : PageTableCap)
    → CanUnmap p i c k parent child
    → unmap_page_table_cap p i c k
      ≡ ok true (
          with_mapping parent.table i
            (disable (k.tables parent.table i))
            c
            (Capability.page_table (record child { mapped = false; parent_table = 0 }))
            k)
unfolding unmap_page_table_cap get_slot set_cap with_cap get_entry put_entry
unmap_page_table_cap_ok p i c k parent child h = ground arith

mapped-CanUnmap :
    (p i c : ℕ) (k : Kernel) (parent child : PageTableCap)
    → CanMap p i c k parent child
    → p ≢ c
    → get_next_page (table_entry child.table (k.tables parent.table i)) ≡ child.table
    → CanUnmap p i c
        (with_mapping parent.table i
          (table_entry child.table (k.tables parent.table i))
          c
          (Capability.page_table (mapped_cap i parent child))
          k)
        parent
        (mapped_cap i parent child)
unfolding update table_entry
mapped-CanUnmap p i c k parent child h ne back = record {
  parent_slot = rw (==-false p c ne) h.parent_slot;
  child_slot = rw (==-refl c);
  parent_set = h.parent_set;
  child_set = h.child_set;
  table_set = h.table_set;
  in_table = h.in_table;
  user_space = h.user_space;
  used_entry = rw (==-refl parent.table, ==-refl i);
  is_mapped = refl;
  leads_there = rw (==-refl parent.table, ==-refl i) back;
}

-- After `map_page_table_cap` has mapped a child that can be mapped, whose table lies on a page
-- in the kernel's mapping, `unmap_page_table_cap` with the same arguments returns true: the
-- entry is free, the child is unmapped and has no parent, and the capability of the parent is as
-- it was.
pub unmap-map_page_table_cap :
    (p i c : ℕ) (k : Kernel) (parent child : PageTableCap)
    → CanMap p i c k parent child
    → p ≢ c
    → mapped_space_base ≤ child.table
    → child.table < mapped_space_base + 2 ^ 56
    → child.table % page_size ≡ 0
    → Ensures
        (λ r k'.
          (r ≡ true)
          × ((k'.tables parent.table i).v ≡ false)
          × ((k'.slots c).cap
              ≡ Capability.page_table
                  (record (mapped_cap i parent child) { mapped = false; parent_table = 0 }))
          × ((k'.slots p).cap ≡ Capability.page_table parent))
        (and_then (map_page_table_cap p i c k) (λ _. unmap_page_table_cap p i c))
unfolding update disable
unmap-map_page_table_cap p i c k parent child h ne lo hi al =
    rw
      (
        map_page_table_cap_ok p i c k parent child h,
        unmap_page_table_cap_ok p i c _ parent (mapped_cap i parent child) (
            mapped-CanUnmap p i c k parent child h ne
              (get_next_page-table_entry child.table _ lo hi al)),
      )
      (
        refl,
        rw (==-refl parent.table, ==-refl i),
        rw (==-refl c),
        rw (==-false p c ne) h.parent_slot,
      )
