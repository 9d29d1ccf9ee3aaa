-- ===== src/CapSpace/Lookup.antt =====
-- Descriptors and slots: lookup_cap and get_cap_slot_index.
use caprese.Common.{
  ℕ, suc, ◌+◌, ◌-◌, ◌*◌, ◌/◌, ◌%◌, ◌^◌, ◌<◌, ◌≡◌, ◌≢◌, ◌∙◌, ap, true, false, some, leb, ltb, arith,
}
use caprese.Config.{word, u64, page_size, capability_space_base, max_virtual_address}
use caprese.Cap.{CapType, is_cap}
use caprese.Kernel.{Kernel, ok, and_then, get_task, get_slot, get_entry, get_meta_info}
use caprese.Page.{get_page_table_index, get_next_page, walk}
use caprese.CapSlot.{slot_address, slots_per_space, cap_slot_size, meta_info_size}
use caprese.CapSlot.Address.{get_cap_space-slot_address}
use caprese.Task.{is_dead}
use caprese.CapSpace.Space.{find_page, lookup_cap, get_cap_slot_index}

-- The address at which the page of a descriptor's slot is mapped.
unfoldable pub descriptor_address : ℕ → ℕ
descriptor_address d = u64 (capability_space_base + page_size * (d / slots_per_space))

-- The tables from `root` down lead `va` to `page`.
pub record IsMapped (k : Kernel) (va root page : ℕ) : Type 0 where
  pub mega_table : ℕ
  pub kilo_table : ℕ
  pub root_set : root ≢ 0
  pub mega_set : mega_table ≢ 0
  pub kilo_set : kilo_table ≢ 0
  pub giga_entry : (k.tables root (get_page_table_index va 2)).v ≡ true
  pub giga_next : get_next_page (k.tables root (get_page_table_index va 2)) ≡ mega_table
  pub mega_entry : (k.tables mega_table (get_page_table_index va 1)).v ≡ true
  pub mega_next : get_next_page (k.tables mega_table (get_page_table_index va 1)) ≡ kilo_table
  pub kilo_entry : (k.tables kilo_table (get_page_table_index va 0)).v ≡ true
  pub kilo_next : get_next_page (k.tables kilo_table (get_page_table_index va 0)) ≡ page

walk_ok :
    (va level : ℕ) (k : Kernel)
    → ltb va max_virtual_address ≡ true
    → leb level 2 ≡ true
    → walk va level k ≡ ok (get_page_table_index va level) k
unfolding walk
walk_ok va level k a b = ground arith

find_page_step :
    (va n table next : ℕ) (k : Kernel)
    → ltb va max_virtual_address ≡ true
    → leb n 2 ≡ true
    → table ≢ 0
    → (k.tables table (get_page_table_index va n)).v ≡ true
    → get_next_page (k.tables table (get_page_table_index va n)) ≡ next
    → find_page va (suc n) table k ≡ find_page va n next k
unfolding find_page get_entry
find_page_step va n table next k small le ne e f = ground (arith, walk_ok va n k small le)

find_page_ok :
    (va root page : ℕ) (k : Kernel)
    → ltb va max_virtual_address ≡ true
    → IsMapped k va root page
    → find_page va 3 root k ≡ ok (some page) k
unfolding find_page
find_page_ok va root page k small m =
    find_page_step va 2 root m.mega_table k small (ground arith) m.root_set m.giga_entry m.giga_next
    ∙ find_page_step va 1 m.mega_table m.kilo_table k small (ground arith) m.mega_set m.mega_entry
        m.mega_next
    ∙ find_page_step va 0 m.kilo_table page k small (ground arith) m.kilo_set m.kilo_entry
        m.kilo_next

ltb_of : (a b : ℕ) → a < b → ltb a b ≡ true
ltb_of a b h = ground arith

descriptor_small :
    (d n : ℕ)
    → d < n * slots_per_space
    → n < 2 ^ 18
    → ltb (descriptor_address d) max_virtual_address ≡ true
unfolding descriptor_address
descriptor_small d n lt small = ltb_of _ _ (omega arith)

descriptor_parts :
    (d n : ℕ)
    → d < n * slots_per_space
    → n < 2 ^ 18
    → u64 (slots_per_space * (d / slots_per_space) + d % slots_per_space) ≡ d
descriptor_parts d n lt small = omega arith

-- The descriptor `d` of a task in use names slot `d % slots_per_space` of `page`, which is not empty.
pub record IsDescriptor (k : Kernel) (task d page : ℕ) : Type 0 where
  pub task_set : task ≢ 0
  pub alive : is_dead (k.tasks task) ≡ false
  pub in_range : d < (k.tasks task).num_cap_space * slots_per_space
  pub spaces_small : (k.tasks task).num_cap_space < 2 ^ 18
  pub mapped : IsMapped k (descriptor_address d) (k.tasks task).root_page_table page
  pub aligned : page % page_size ≡ 0
  pub page_set : page ≢ 0
  pub page_small : page + page_size < word
  pub filled : is_cap CapType.null (k.slots (slot_address page (d % slots_per_space))).cap ≡ false

pub lookup_cap_ok :
    (task d page : ℕ) (k : Kernel)
    → IsDescriptor k task d page
    → lookup_cap task d k ≡ ok (slot_address page (d % slots_per_space)) k
unfolding lookup_cap get_task get_slot descriptor_address
lookup_cap_ok task d page k v =
    let f =
      find_page_ok (descriptor_address d) (k.tasks task).root_page_table page k
        (descriptor_small d (k.tasks task).num_cap_space v.in_range v.spaces_small) v.mapped in
    ground (arith, f, v.task_set, v.alive, v.in_range, v.spaces_small, v.filled)

slot_offset : (page i : ℕ) → (slot_address page i - page - meta_info_size) / cap_slot_size ≡ i
slot_offset page i = omega arith

-- The index of slot `i` of a page is counted from the page's own index, with all its slots in between.
pub get_cap_slot_index-slot_address :
    (page i : ℕ) (k : Kernel)
    → page % page_size ≡ 0
    → page ≢ 0
    → page + page_size < word
    → i < slots_per_space
    → get_cap_slot_index (slot_address page i) k
      ≡ ok (u64 (slots_per_space * (k.spaces page).space_index + i)) k
unfolding get_cap_slot_index get_meta_info
get_cap_slot_index-slot_address page i k al ne small lt =
    rw (get_cap_space-slot_address page i al small lt)
      (rw (slot_offset page i) (ground (arith, ne)))

-- For a descriptor of a live task that is in range, whose page is mapped by the task's tables
-- and whose slot is filled, and whose page carries the index of its descriptors:
-- `get_cap_slot_index` of the slot that `lookup_cap` finds is the descriptor again, and nothing
-- changes.
pub lookup_cap-get_cap_slot_index :
    (task d page : ℕ) (k : Kernel)
    → IsDescriptor k task d page
    → (k.spaces page).space_index ≡ d / slots_per_space
    → and_then (lookup_cap task d k) get_cap_slot_index ≡ ok d k
lookup_cap-get_cap_slot_index task d page k v e = rw (lookup_cap_ok task d page k v) (
    get_cap_slot_index-slot_address page (d % slots_per_space) k v.aligned v.page_set v.page_small
      (omega arith)
    ∙ rw e (
        ap (λ n. ok n k)
          (descriptor_parts d (k.tasks task).num_cap_space v.in_range v.spaces_small)))
