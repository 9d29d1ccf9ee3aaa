-- ===== src/Setup/Payload.antt =====
-- src/kernel/start.cpp: the mapping of the root task's program and stack, and the idle task;
-- setup_arch_root_boot_info and bake_stack of src/arch/rv64/kernel/setup.cpp.
use caprese.Common.{ℕ, zero, suc, ◌+◌, ◌-◌, ◌*◌, ◌/◌, true, false, not, ◌==◌, ltb, List, update}
use caprese.Config.{u64, sub64, page_size, kilo_page_table_level, max_page_table_level}
use caprese.Align.{round_up, round_down}
use caprese.Cap.Make.{make_page_table_cap, make_virt_page_cap}
use caprese.Kernel.{PteFlags, Cmd, ok, pure, assert, ◌>>◌, ◌>>=◌, get_entry, put_entry}
use caprese.Page.{
  get_page_size, as_phys, as_map, walk, is_disabled, set_flags, set_next_page, enable, no_flags,
}
use caprese.Object.{clear_table}
use caprese.UserMemory.Bytes.{memcpy}
use caprese.Creation.{init_idle_task}
use caprese.Syscall.{user_space_base, user_space_size, set_register}
use caprese.Dtb.{get_dtb_region}
use caprese.Setup.BootInfo.{BootInfo, RootBootInfo, insert_or_panic}
use caprese.Setup.Memory.{Image}
use caprese.Setup.Start.{memory_of, setup_root_task, setup_cap_space}

abbrev pub root_task_payload_base_address : ℕ
root_task_payload_base_address = 0xa0000000

-- The tables below the root table for `va`, from the level on down; the last one, and `dst` with their
-- descriptors.
unfoldable pub map_tables : ℕ → (ℕ → ℕ) → ℕ → ℕ → ℕ → (ℕ → ℕ) → Cmd (ℕ × (ℕ → ℕ))
map_tables task page_tables va zero page_table dst = pure (page_table, dst)
map_tables task page_tables va (suc level) page_table dst = do
  let next_page_table = page_tables level
  i ← walk va (suc level)
  pte ← get_entry page_table i
  assert (is_disabled pte)
  put_entry page_table i (enable (set_next_page next_page_table pte))
  cap ←
      make_page_table_cap next_page_table true level (round_down va (get_page_size (suc level)))
        page_table
  index ← insert_or_panic task cap
  map_tables task page_tables va level next_page_table (update dst level index)

abbrev set_memory : (ℕ → ℕ) → Cmd (Unit {0})
set_memory m k = ok tt (record k { memory = m })

abbrev set_idle_task : ℕ → Cmd (Unit {0})
set_idle_task p k = ok tt (record k { idle_task = p })

-- One page at `va`, and the descriptor of its capability.
unfoldable pub map_page : ℕ → ℕ → ℕ → ℕ → PteFlags → Cmd ℕ
map_page task page_table va page flags = do
  i ← walk va kilo_page_table_level
  pte ← get_entry page_table i
  assert (is_disabled pte)
  put_entry page_table i (enable (set_next_page page (set_flags flags pte)))
  cap ←
      make_virt_page_cap false flags.readable flags.writable flags.executable true
        kilo_page_table_level (as_phys page) va page_table
  insert_or_panic task cap

-- The rounds of a loop from 0 to `size` in steps of a page.
abbrev pub pages_in : ℕ → ℕ
pages_in size = (size + (page_size - 1)) / page_size

unfoldable pub map_pages : ℕ → ℕ → ℕ → ℕ → PteFlags → ℕ → RootBootInfo → Cmd RootBootInfo
map_pages task page_table va page flags zero info = pure info
map_pages task page_table va page flags (suc n) info = do
  index ← map_page task page_table va page flags
  map_pages task page_table (u64 (va + page_size)) (page + page_size) flags n (record info {
    caps = update info.caps (info.virt_page_caps_offset + info.num_virt_page_caps) index;
    num_virt_page_caps = info.num_virt_page_caps + 1;
  })

-- `dst` with the descriptors of the tables, too.
unfoldable pub map_root_task :
    BootInfo
    → ℕ
    → ℕ
    → ℕ
    → (ℕ → ℕ)
    → (ℕ → ℕ)
    → PteFlags
    → RootBootInfo
    → Cmd (RootBootInfo × (ℕ → ℕ))
map_root_task boot_info va_base begin finish page_tables dst flags info = do
  clear_table (page_tables 0)
  clear_table (page_tables 1)
  r ←
      map_tables boot_info.root_task page_tables va_base max_page_table_level
        boot_info.root_page_table dst
  info' ← map_pages boot_info.root_task r.0 va_base begin flags (pages_in (sub64 finish begin)) info
  pure (info', r.1)

unfoldable pub load_root_task_payload : Image → BootInfo → RootBootInfo → Cmd RootBootInfo
load_root_task_payload image boot_info info = do
  r ←
      map_root_task boot_info root_task_payload_base_address image.payload_start image.payload_end
        boot_info.payload_page_tables info.page_table_caps
        (record no_flags { readable = true; writable = true; executable = true; user = true }) info
  pure (record r.0 { page_table_caps = r.1 })

abbrev pub stack_size : Image → ℕ
stack_size image = sub64 image.root_task_stack_end image.root_task_stack_start

unfoldable pub setup_root_task_stack : Image → BootInfo → RootBootInfo → Cmd RootBootInfo
setup_root_task_stack image boot_info info = do
  r ←
      map_root_task boot_info (sub64 (user_space_base + user_space_size) (stack_size image))
        image.root_task_stack_start image.root_task_stack_end boot_info.stack_page_tables
        info.stack_page_table_caps
        (record no_flags { readable = true; writable = true; user = true }) info
  pure (record r.0 { stack_page_table_caps = r.1 })

-- The loop over the pages of the device tree.
unfoldable pub map_dtb_pages : ℕ → ℕ → ℕ → ℕ → ℕ → RootBootInfo → Cmd RootBootInfo
map_dtb_pages task page_table va phys zero info = pure info
map_dtb_pages task page_table va phys (suc n) info = do
  index ←
      map_page task page_table va (as_map phys) (record no_flags { readable = true; user = true })
  map_dtb_pages task page_table (u64 (va + page_size)) (phys + page_size) n (record info {
    caps = update info.caps (info.dtb_vp_caps_offset + info.num_dtb_vp_caps) index;
    num_dtb_vp_caps = info.num_dtb_vp_caps + 1;
  })

unfoldable pub setup_arch_root_boot_info : Image → BootInfo → RootBootInfo → Cmd RootBootInfo
setup_arch_root_boot_info image boot_info info = do
  m ← memory_of
  let dtb = get_dtb_region m boot_info.dtb
  let dtb_size = sub64 dtb.1 dtb.0
  let va_base = root_task_payload_base_address + sub64 image.payload_end image.payload_start
  info' ←
      map_dtb_pages boot_info.root_task (boot_info.payload_page_tables kilo_page_table_level)
        va_base dtb.0 (pages_in dtb_size)
        (record info {
          dtb_start = dtb.0;
          dtb_end = dtb.1;
          num_dtb_vp_caps = 0;
          dtb_vp_caps_offset = info.virt_page_caps_offset + info.num_virt_page_caps;
        })
  pure (record info' { root_task_end_address = round_up (va_base + dtb_size) page_size })

-- What libcaprese declares of its structures and of the registers, and the idle task's objects.
pub record RootLayout : Type 0 where
  pub boot_info_size : ℕ
  pub cap_size : ℕ
  pub bytes : RootBootInfo → ℕ → ℕ
  pub last_register : ℕ
  pub reg_program_counter : ℕ
  pub reg_stack_pointer : ℕ
  pub reg_arg_0 : ℕ
  pub idle_task : ℕ
  pub idle_task_root_page_table : ℕ

unfoldable pub get_root_boot_info_size : RootLayout → RootBootInfo → ℕ
get_root_boot_info_size l info =
    l.boot_info_size
    + l.cap_size * (info.num_mem_caps + info.num_virt_page_caps + info.num_dtb_vp_caps)

-- The top of the stack, with the bytes below `stack`.
unfoldable pub bake_stack : ℕ → (ℕ → ℕ) → ℕ → Cmd ℕ
bake_stack stack bytes size = do
  assert (not (stack == 0))
  assert (ltb 0 size)
  let top = round_down (sub64 stack size) 16
  m ← memory_of
  set_memory (memcpy size bytes 0 top m)
  pure top

unfoldable pub setup_root_task_payload :
    RootLayout → Image → BootInfo → RootBootInfo → Cmd RootBootInfo
setup_root_task_payload l image boot_info info = do
  info0 ← load_root_task_payload image boot_info info
  info1 ← setup_root_task_stack image boot_info info0
  info2 ← setup_arch_root_boot_info image boot_info info1
  stack ← bake_stack image.root_task_stack_end (l.bytes info2) (get_root_boot_info_size l info2)
  let sp = sub64 (user_space_base + user_space_size) (sub64 image.root_task_stack_end stack)
  _ ←
      set_register l.last_register boot_info.root_task l.reg_program_counter
        root_task_payload_base_address
  _ ← set_register l.last_register boot_info.root_task l.reg_stack_pointer sp
  _ ← set_register l.last_register boot_info.root_task l.reg_arg_0 sp
  pure info2

unfoldable pub setup_idle_task : RootLayout → Cmd (Unit {0})
setup_idle_task l = do
  set_idle_task l.idle_task
  init_idle_task l.idle_task l.idle_task_root_page_table

-- The number of the core and the early trap handler are the machine's.
unfoldable pub setup :
    ℕ → (List ℕ → ℕ) → RootLayout → Image → BootInfo → ℕ → List ℕ → RootBootInfo → Cmd RootBootInfo
setup fuel hex_value l image boot_info first_space spaces info = do
  info0 ← setup_root_task boot_info first_space spaces info
  info1 ← setup_cap_space fuel hex_value image boot_info info0
  info2 ← setup_root_task_payload l image boot_info info1
  setup_idle_task l
  pure info2
