-- ===== src/Cap/Make.antt =====
-- include/kernel/cap.h: the functions that build a capability, with their asserts and the widths of
-- the bit fields; src/kernel/cap.cpp: `make_unique_id_cap`.
use caprese.Common.{ℕ, ◌+◌, ◌-◌, ◌%◌, ◌^◌, Bool, true, ◌||◌, not, ◌==◌, ltb, leb, if◌then◌else◌}
use caprese.Config.{max_physical_address, max_page_table_level, word, u64}
use caprese.Cap.{Capability, IdCap}
use caprese.Kernel.{Cmd, pure, assert, ◌>>◌}
use caprese.Page.{get_page_size, get_page_table_index}

-- A bit field of 36 bits.
abbrev pub phys_field : ℕ → ℕ
phys_field n = n % max_physical_address

unfoldable pub make_memory_cap : Bool → ℕ → ℕ → Cmd Capability
make_memory_cap device size base_addr = do
  assert (ltb base_addr max_physical_address)
  assert (ltb size max_physical_address)
  pure (
      Capability.memory (record {
        device = device;
        size = phys_field size;
        phys_addr = phys_field base_addr;
        used_size = 0;
      }))

-- Both callers pass all the flags.
unfoldable pub make_task_cap : ℕ → Cmd Capability
make_task_cap task = do
  assert (not (task == 0))
  pure (
      Capability.task (record {
        killable = true;
        switchable = true;
        suspendable = true;
        resumable = true;
        register_gettable = true;
        register_settable = true;
        kill_notifiable = true;
        task = task;
      }))

unfoldable pub make_endpoint_cap : ℕ → Cmd Capability
make_endpoint_cap endpoint = do
  assert (not (endpoint == 0))
  pure (Capability.endpoint (record { sendable = true; receivable = true; endpoint = endpoint }))

unfoldable pub make_page_table_cap : ℕ → Bool → ℕ → ℕ → ℕ → Cmd Capability
make_page_table_cap page_table mapped level virt_addr_base parent_table = do
  assert (not (page_table == 0))
  assert (not mapped || virt_addr_base % get_page_size (level + 1) == 0)
  assert (not mapped || (level == max_page_table_level || not (parent_table == 0)))
  pure (
      Capability.page_table (record {
        mapped = mapped;
        level = level % 2 ^ 2;
        virt_addr_base = virt_addr_base % 2 ^ 38;
        table = page_table;
        parent_table = parent_table;
      }))

unfoldable pub make_virt_page_cap :
    (device readable writable executable mapped : Bool) (level phys_addr virt_addr parent_table : ℕ)
    → Cmd Capability
make_virt_page_cap device readable writable executable mapped level phys_addr virt_addr parent = do
  assert (ltb phys_addr max_physical_address)
  assert (leb level max_page_table_level)
  pure (
      Capability.virt_page (record {
        mapped = mapped;
        device = device;
        readable = readable;
        writable = writable;
        executable = executable;
        level = level % 2 ^ 2;
        index = get_page_table_index virt_addr level % 2 ^ 9;
        phys_addr = phys_field phys_addr;
        address = virt_addr;
        parent_table = parent;
      }))

unfoldable pub make_cap_space_cap : ℕ → Bool → Cmd Capability
make_cap_space_cap cap_space used = do
  assert (not (cap_space == 0))
  pure (Capability.cap_space (record { used = used; space = cap_space }))

unfoldable pub make_id_cap : ℕ → ℕ → ℕ → Cmd Capability
make_id_cap val1 val2 val3 = do
  assert (ltb val1 (2 ^ 59))
  pure (Capability.id (record { val1 = val1 % 2 ^ 59; val2 = val2; val3 = val3 }))

-- The value of `next_id` after `make_unique_id_cap`.
unfoldable pub advance : IdCap → IdCap
advance n =
    if n.val3 == word - 1
    then (if n.val2 == word - 1
        then record { val1 = u64 (n.val1 + 1); val2 = 0; val3 = 0 }
        else record n { val2 = n.val2 + 1; val3 = 0 })
    else record n { val3 = n.val3 + 1 }

unfoldable pub make_unique_id_cap : Cmd Capability
unfolding advance make_id_cap
make_unique_id_cap k =
    let n = k.next_id in make_id_cap n.val1 n.val2 n.val3 (record k { next_id = advance n })
