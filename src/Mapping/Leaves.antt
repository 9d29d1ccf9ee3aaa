-- ===== src/Mapping/Leaves.antt =====
-- Mapping, moving and unmapping pages of the user's memory.
use caprese.Common.{
  ℕ, ◌/◌, ◌%◌, ◌^◌, ◌<◌, ◌≡◌, ◌≢◌, sym, ap, ◌∙◌, ◌↔◌, Bool, true, false, arith, if◌then◌else◌,
}
use caprese.Config.{num_page_table_entry, kernel_space_base, u64}
use caprese.Cap.{Capability, PageTableCap, VirtPageCap}
use caprese.Kernel.{
  Kernel, Pte, Cmd, ok, get_slot, set_cap, with_cap, get_entry, put_entry, clear_bytes,
}
use caprese.Page.{as_map, as_phys, get_page_size, enable, set_flags, set_next_page}
use caprese.Mapping.Tables.{entry_address, map_page_table_cap, unmap_page_table_cap}
use caprese.Mapping.Pages.{page_entry, map_virt_page_cap, unmap_virt_page_cap, remap_virt_page_cap}
use caprese.Mapping.Tree.{with_mapping, same_state}

-- The five calls on page tables, with their arguments.
pub data MapCall : Type 0 where
  map_table unmap_table unmap_page : ℕ → ℕ → ℕ → MapCall
  map_page : ℕ → ℕ → ℕ → Bool → Bool → Bool → MapCall
  remap_page : ℕ → ℕ → ℕ → Bool → Bool → Bool → ℕ → MapCall

abbrev pub run_call : MapCall → Cmd Bool
run_call (MapCall.map_table s i c) = map_page_table_cap s i c
run_call (MapCall.unmap_table s i c) = unmap_page_table_cap s i c
run_call (MapCall.unmap_page s i c) = unmap_virt_page_cap s i c
run_call (MapCall.map_page s i c r w x) = map_virt_page_cap s i c r w x
run_call (MapCall.remap_page s i c r w x old) = remap_virt_page_cap s i c r w x old

-- When any of the five calls on page tables returns false, nothing has changed but errno: none
-- leaves a half-made mapping behind.
pub mapping_refused :
    (call : MapCall) (k k' : Kernel)
    → run_call call k ≡ ok false k'
    → k' ≡ record k { errno = k'.errno }
unfolding map_page_table_cap unmap_page_table_cap map_virt_page_cap unmap_virt_page_cap
    remap_virt_page_cap get_slot set_cap with_cap get_entry put_entry
mapping_refused (MapCall.map_table s i c) k k' h = ground arith
mapping_refused (MapCall.unmap_table s i c) k k' h = ground arith
mapping_refused (MapCall.unmap_page s i c) k k' h = ground arith
mapping_refused (MapCall.map_page s i c r w x) k k' h = ground arith
mapping_refused (MapCall.remap_page s i c r w x old) k k' h = ground arith

-- When the page of `page` can be put at entry `i` of the table of `table`.
pub record CanMapPage (s i c : ℕ) (k : Kernel) (table : PageTableCap) (page : VirtPageCap)
    : Type 0 where
  pub table_slot : (k.slots s).cap ≡ Capability.page_table table
  pub page_slot : (k.slots c).cap ≡ Capability.virt_page page
  pub slot_set : s ≢ 0
  pub page_set : c ≢ 0
  pub table_set : table.table ≢ 0
  pub in_table : i < num_page_table_entry
  pub user_space : entry_address table.virt_addr_base page.level i < kernel_space_base
  pub free_entry : (k.tables table.table i).v ≡ false
  pub unmapped : page.mapped ≡ false
  pub same_level : page.level ≡ table.level

-- The entry of a page of user code with the rights `r`, `w` and `x`, at a physical address.
abbrev pub user_page : Bool → Bool → Bool → ℕ → Pte
user_page r w x phys = record {
  v = true;
  r = r;
  w = w;
  x = x;
  u = true;
  g = false;
  a = true;
  d = true;
  next_page_number = u64 phys / 2 ^ 12 % 2 ^ 44;
}

page_entry-user_page :
    (r w x : Bool) (phys : ℕ) (e : Pte) → page_entry r w x (as_map phys) e ≡ user_page r w x phys
unfolding page_entry set_flags set_next_page enable as_map as_phys
page_entry-user_page r w x phys e =
    ap (λ n. record (user_page r w x phys) { next_page_number = n / 2 ^ 12 % 2 ^ 44 }) (omega arith)

-- The kernel after the page has been mapped with the rights `r`, `w` and `x` by the entry `e`.
abbrev with_page_entry :
    Pte → ℕ → ℕ → Bool → Bool → Bool → PageTableCap → VirtPageCap → Kernel → Kernel
with_page_entry e i c r w x table page k =
    with_mapping table.table i e c
      (Capability.virt_page (record page {
        mapped = true;
        readable = r;
        writable = w;
        executable = x;
        index = i % 2 ^ 9;
        address = entry_address table.virt_addr_base page.level i;
        parent_table = table.table;
      }))
      (record k {
        memory =
            if page.device
            then k.memory
            else clear_bytes (as_map page.phys_addr) (get_page_size page.level) k.memory;
      })

abbrev pub with_page : ℕ → ℕ → Bool → Bool → Bool → PageTableCap → VirtPageCap → Kernel → Kernel
with_page i c r w x table page k =
    with_page_entry (user_page r w x page.phys_addr) i c r w x table page k

map_virt_page_cap_run :
    (s i c : ℕ) (r w x : Bool) (k : Kernel) (table : PageTableCap) (page : VirtPageCap)
    → CanMapPage s i c k table page
    → map_virt_page_cap s i c r w x k
      ≡ ok true (
          with_page_entry
            (page_entry r w x (as_map page.phys_addr) (k.tables table.table i))
            i
            c
            r
            w
            x
            table
            page
            k)
unfolding map_virt_page_cap get_slot set_cap with_cap get_entry put_entry
map_virt_page_cap_run s i c r w x k table page h = ground arith

map_virt_page_cap_ok :
    (s i c : ℕ) (r w x : Bool) (k : Kernel) (table : PageTableCap) (page : VirtPageCap)
    → CanMapPage s i c k table page
    → map_virt_page_cap s i c r w x k ≡ ok true (with_page i c r w x table page k)
map_virt_page_cap_ok s i c r w x k table page h =
    map_virt_page_cap_run s i c r w x k table page h
    ∙ ap (λ e. ok true (with_page_entry e i c r w x table page k))
        (page_entry-user_page r w x page.phys_addr (k.tables table.table i))

map_virt_page_cap_only :
    (s i c : ℕ) (r w x : Bool) (k k' : Kernel) (table : PageTableCap) (page : VirtPageCap)
    → (k.slots s).cap ≡ Capability.page_table table
    → (k.slots c).cap ≡ Capability.virt_page page
    → map_virt_page_cap s i c r w x k ≡ ok true k'
    → CanMapPage s i c k table page
unfolding map_virt_page_cap get_slot set_cap with_cap get_entry put_entry
map_virt_page_cap_only s i c r w x k k' table page hs hc h = ground arith

-- With a page-table and a page capability in the slots, `map_virt_page_cap` returns true in the
-- state `k'` exactly if the index is in the table, the entry's address is in user space, the
-- entry is free, the page is unmapped and its level is the table's, and `k'` is `k` with that
-- entry written, as the entry of a user page with the given rights at the page's physical
-- address, the page's capability, and the bytes of the page cleared unless it is a device's, and
-- nothing else.
pub map_virt_page_cap_iff :
    (s i c : ℕ) (r w x : Bool) (k k' : Kernel) (table : PageTableCap) (page : VirtPageCap)
    → (k.slots s).cap ≡ Capability.page_table table
    → (k.slots c).cap ≡ Capability.virt_page page
    → (map_virt_page_cap s i c r w x k ≡ ok true k')
      ↔ (CanMapPage s i c k table page × (k' ≡ with_page i c r w x table page k))
map_virt_page_cap_iff s i c r w x k k' table page hs hc = (
  λ h.
      let can = map_virt_page_cap_only s i c r w x k k' table page hs hc h in
      (can, same_state (sym h ∙ map_virt_page_cap_ok s i c r w x k table page can)),
  λ h. map_virt_page_cap_ok s i c r w x k table page h.0 ∙ ap (ok true) (sym h.1),
)
