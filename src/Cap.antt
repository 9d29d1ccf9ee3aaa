-- ===== src/Cap.antt =====
-- include/kernel/cap.h: the kinds of capability and the union `capability_t`, one constructor for
-- each member of the union. A bit field of one bit is a Bool. The members named unused are left
-- out. `CapType` has the names that the switches of that header list; `cap_type_t` itself is
-- declared by libcaprese, so the numbers below serve only to compare.
pub mod Size
pub mod Make
use caprese.Common.{ℕ, Bool, ◌==◌}

pub data CapType : Type 0 where
  null mem task endpoint page_table virt_page cap_space id zombie unknown : CapType

abbrev pub type_code : CapType → ℕ
type_code CapType.null = 0
type_code CapType.mem = 1
type_code CapType.task = 2
type_code CapType.endpoint = 3
type_code CapType.page_table = 4
type_code CapType.virt_page = 5
type_code CapType.cap_space = 6
type_code CapType.id = 7
type_code CapType.zombie = 8
type_code CapType.unknown = 9

abbrev pub same_type : CapType → CapType → Bool
same_type a b = type_code a == type_code b

pub record MemoryCap : Type 0 where
  pub device : Bool
  pub size : ℕ
  pub phys_addr : ℕ
  pub used_size : ℕ

pub record TaskCap : Type 0 where
  pub killable : Bool
  pub switchable : Bool
  pub suspendable : Bool
  pub resumable : Bool
  pub register_gettable : Bool
  pub register_settable : Bool
  pub kill_notifiable : Bool
  pub task : ℕ

pub record EndpointCap : Type 0 where
  pub sendable : Bool
  pub receivable : Bool
  pub endpoint : ℕ

pub record PageTableCap : Type 0 where
  pub mapped : Bool
  pub level : ℕ
  pub virt_addr_base : ℕ
  pub table : ℕ
  pub parent_table : ℕ

pub record VirtPageCap : Type 0 where
  pub mapped : Bool
  pub device : Bool
  pub readable : Bool
  pub writable : Bool
  pub executable : Bool
  pub level : ℕ
  pub index : ℕ
  pub phys_addr : ℕ
  pub address : ℕ
  pub parent_table : ℕ

pub record CapSpaceCap : Type 0 where
  pub used : Bool
  pub space : ℕ

pub record IdCap : Type 0 where
  pub val1 : ℕ
  pub val2 : ℕ
  pub val3 : ℕ

pub data Capability : Type 0 where
  null : Capability
  memory : MemoryCap → Capability
  task : TaskCap → Capability
  endpoint : EndpointCap → Capability
  page_table : PageTableCap → Capability
  virt_page : VirtPageCap → Capability
  cap_space : CapSpaceCap → Capability
  id : IdCap → Capability
  zombie : Capability

abbrev pub get_cap_type : Capability → CapType
get_cap_type Capability.null = CapType.null
get_cap_type (Capability.memory _) = CapType.mem
get_cap_type (Capability.task _) = CapType.task
get_cap_type (Capability.endpoint _) = CapType.endpoint
get_cap_type (Capability.page_table _) = CapType.page_table
get_cap_type (Capability.virt_page _) = CapType.virt_page
get_cap_type (Capability.cap_space _) = CapType.cap_space
get_cap_type (Capability.id _) = CapType.id
get_cap_type Capability.zombie = CapType.zombie

abbrev pub is_cap : CapType → Capability → Bool
is_cap t c = same_type (get_cap_type c) t
