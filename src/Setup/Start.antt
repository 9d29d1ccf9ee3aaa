-- ===== src/Setup/Start.antt =====
-- setup_memory_capabilities of src/arch/rv64/kernel/setup.cpp; setup_root_task and setup_cap_space of
-- src/kernel/start.cpp.
use caprese.Common.{ℕ, ◌+◌, true, false, not, ◌==◌, ltb, if◌then◌else◌, List, [], ◌∷◌, update}
use caprese.Config.{u64, sub64, page_size, capability_space_base, max_page_table_level}
use caprese.Align.{round_up}
use caprese.Cap.Make.{make_task_cap, make_cap_space_cap, make_page_table_cap}
use caprese.Kernel.{Stop, Cmd, ok, halt, pure, ◌>>◌, ◌>>=◌}
use caprese.Task.{set_current}
use caprese.CapSpace.{insert_space}
use caprese.Creation.{init_task}
use caprese.Dtb.{Result, get_dtb_region}
use caprese.Setup.Regions.{Region, subtract_region}
use caprese.Setup.BootInfo.{BootInfo, RootBootInfo, insert_checked, insert_or_panic}
use caprese.Setup.Blocks.{insert_memory_region_caps}
use caprese.Setup.Memory.{Image, find_regions}

-- A result of the device tree's reader, in a command.
abbrev pub lift : {A : Type 0} → Result A → Cmd A
lift (Result.done a) = pure a
lift (Result.stopped s) = halt s

abbrev pub memory_of : Cmd (ℕ → ℕ)
memory_of k = ok k.memory k

-- The loops over the regions that were found.
unfoldable pub insert_memory_regions :
    ℕ → List Region → Region → List Region → RootBootInfo → Cmd RootBootInfo
insert_memory_regions task reserved dtb [] info = pure info
insert_memory_regions task reserved dtb (r ∷ rs) info = do
  let parts = subtract_region r dtb
  info0 ←
      (if ltb parts.0.start parts.0.finish
        then insert_memory_region_caps task false reserved parts.0 info
        else pure info)
  info1 ←
      (if ltb parts.1.start parts.1.finish
        then insert_memory_region_caps task false reserved parts.1 info0
        else pure info0)
  insert_memory_regions task reserved dtb rs info1

unfoldable pub insert_device_regions :
    ℕ → List Region → List Region → RootBootInfo → Cmd RootBootInfo
insert_device_regions task reserved [] info = pure info
insert_device_regions task reserved (r ∷ rs) info = do
  info' ← insert_memory_region_caps task true reserved r info
  insert_device_regions task reserved rs info'

unfoldable pub setup_memory_capabilities :
    ℕ → (List ℕ → ℕ) → Image → BootInfo → RootBootInfo → Cmd RootBootInfo
setup_memory_capabilities fuel hex_value image boot_info info = do
  m ← memory_of
  let dtb = get_dtb_region m boot_info.dtb
  let dtb_size = round_up (sub64 dtb.1 dtb.0) page_size
  found ← lift (find_regions fuel hex_value m image boot_info.dtb)
  info' ←
      insert_memory_regions boot_info.root_task found.reserved_region
        (record { start = dtb.0; finish = u64 (dtb.0 + dtb_size) }) found.memory_region info
  insert_device_regions boot_info.root_task found.reserved_region found.device_region info'

unfoldable pub setup_cap_space :
    ℕ → (List ℕ → ℕ) → Image → BootInfo → RootBootInfo → Cmd RootBootInfo
setup_cap_space fuel hex_value image boot_info info = do
  info' ←
      setup_memory_capabilities fuel hex_value image boot_info
        (record info { num_mem_caps = 0; mem_caps_offset = 0 })
  pure (record info' {
    num_virt_page_caps = 0;
    virt_page_caps_offset = info'.mem_caps_offset + info'.num_mem_caps;
  })

-- `insert_cap_space` of each space on the task, with the panic where it fails.
unfoldable pub insert_spaces : ℕ → List ℕ → Cmd (Unit {0})
insert_spaces task [] = pure tt
insert_spaces task (space ∷ spaces) = do
  inserted ← insert_space task space
  if not inserted then halt Stop.panic else insert_spaces task spaces

unfoldable pub insert_space_caps : ℕ → List ℕ → Cmd (Unit {0})
insert_space_caps task [] = pure tt
insert_space_caps task (space ∷ spaces) = do
  cap ← make_cap_space_cap space true
  _ ← insert_checked task cap
  insert_space_caps task spaces

-- The capability for the table of the level; level 1 hangs in the root table.
unfoldable pub insert_cap_space_page_table : BootInfo → ℕ → RootBootInfo → Cmd RootBootInfo
insert_cap_space_page_table boot_info level info = do
  cap ←
      make_page_table_cap (boot_info.cap_space_page_tables level) true level capability_space_base (
        if level + 1 == max_page_table_level
        then boot_info.root_page_table
        else boot_info.cap_space_page_tables (level + 1))
  index ← insert_or_panic boot_info.root_task cap
  pure (record info {
    cap_space_page_table_caps = update info.cap_space_page_table_caps level index;
  })

-- Two levels, as NUM_INTER_PAGE_TABLE is 1.
unfoldable pub setup_root_task : BootInfo → ℕ → List ℕ → RootBootInfo → Cmd RootBootInfo
setup_root_task boot_info first_space spaces info = do
  let task = boot_info.root_task
  set_current task
  init_task task first_space boot_info.root_page_table (boot_info.cap_space_page_tables 0)
      (boot_info.cap_space_page_tables 1)
  insert_spaces task spaces
  task_cap ← make_task_cap task
  task_index ← insert_or_panic task task_cap
  insert_space_caps task (first_space ∷ spaces)
  table_cap ← make_page_table_cap boot_info.root_page_table true max_page_table_level 0 0
  table_index ← insert_or_panic task table_cap
  info0 ←
      insert_cap_space_page_table boot_info 0
        (record info { root_task_cap = task_index; root_page_table_cap = table_index })
  insert_cap_space_page_table boot_info 1 info0
