-- ===== src/Setup/BootInfo.antt =====
-- include/arch/rv64/kernel/boot_info.h, and libcaprese's root_boot_info_t, of which the source shows the
-- fields.
use caprese.Common.{ℕ, List, ◌==◌, if◌then◌else◌}
use caprese.Cap.{Capability}
use caprese.Kernel.{Stop, Cmd, halt, pure, ◌>>=◌}
use caprese.Task.{insert_cap}
use caprese.CapSpace.{get_cap_slot_index}

-- The objects that `init_boot_info` finds in the kernel's image; the page tables by their levels.
pub record BootInfo : Type 0 where
  pub root_task : ℕ
  pub root_page_table : ℕ
  pub cap_spaces : List ℕ
  pub payload_page_tables : ℕ → ℕ
  pub stack_page_tables : ℕ → ℕ
  pub cap_space_page_tables : ℕ → ℕ
  pub dtb : ℕ

pub record RootBootInfo : Type 0 where
  pub root_task_cap : ℕ
  pub root_page_table_cap : ℕ
  pub cap_space_page_table_caps : ℕ → ℕ
  pub page_table_caps : ℕ → ℕ
  pub stack_page_table_caps : ℕ → ℕ
  pub mem_caps_offset : ℕ
  pub num_mem_caps : ℕ
  pub virt_page_caps_offset : ℕ
  pub num_virt_page_caps : ℕ
  pub dtb_start : ℕ
  pub dtb_end : ℕ
  pub dtb_vp_caps_offset : ℕ
  pub num_dtb_vp_caps : ℕ
  pub root_task_end_address : ℕ
  pub caps : ℕ → ℕ

-- `insert_cap`, with the panic where there is no slot.
unfoldable pub insert_checked : ℕ → Capability → Cmd ℕ
insert_checked task cap = do
  slot ← insert_cap task cap
  if slot == 0 then halt Stop.panic else pure slot

-- The descriptor of the slot where the capability is then.
unfoldable pub insert_or_panic : ℕ → Capability → Cmd ℕ
unfolding insert_checked
insert_or_panic task cap = do slot ← insert_checked task cap; get_cap_slot_index slot
