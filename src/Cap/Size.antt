-- ===== src/Cap/Size.antt =====
-- include/kernel/cap.h: `get_cap_size` and `get_cap_align`. -1 is converted to size_t.
use caprese.Common.{ℕ, ◌-◌}
use caprese.Config.{word, page_size}
use caprese.Cap.{CapType}

abbrev pub get_cap_size : CapType → ℕ
get_cap_size CapType.null = 0
get_cap_size CapType.mem = 0
get_cap_size CapType.task = page_size
get_cap_size CapType.endpoint = 64
get_cap_size CapType.page_table = page_size
get_cap_size CapType.virt_page = page_size
get_cap_size CapType.cap_space = page_size
get_cap_size CapType.id = 0
get_cap_size CapType.zombie = 0
get_cap_size CapType.unknown = word - 1

abbrev pub get_cap_align : CapType → ℕ
get_cap_align CapType.null = 0
get_cap_align CapType.mem = 1
get_cap_align CapType.task = page_size
get_cap_align CapType.endpoint = 8
get_cap_align CapType.page_table = page_size
get_cap_align CapType.virt_page = page_size
get_cap_align CapType.cap_space = page_size
get_cap_align CapType.id = 0
get_cap_align CapType.zombie = 0
get_cap_align CapType.unknown = word - 1
