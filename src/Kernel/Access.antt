-- ===== src/Kernel/Access.antt =====
-- Reads and writes through pointers: at the null pointer they stop.
use caprese.Common.{ℕ, ◌+◌, update, ◌==◌, leb, ltb, ◌&&◌, if◌then◌else◌}
use caprese.Cap.{
  Capability, MemoryCap, TaskCap, EndpointCap, PageTableCap, VirtPageCap, CapSpaceCap, IdCap,
}
use caprese.Kernel.State.{CapSlot, Task, MetaInfo, Endpoint, Pte}
use caprese.Kernel.Command.{ok, stop, Stop, Cmd, halt, pure}

unfoldable pub get_slot : ℕ → Cmd CapSlot
get_slot p k = if p == 0 then stop Stop.null_access else ok (k.slots p) k

-- The slots after `p->cap = c`, `p->prev = q` and `p->next = q`.
unfoldable pub with_cap : ℕ → Capability → (ℕ → CapSlot) → ℕ → CapSlot
with_cap p c f = update f p (record (f p) { cap = c })

unfoldable pub with_prev : ℕ → ℕ → (ℕ → CapSlot) → ℕ → CapSlot
with_prev p q f = update f p (record (f p) { prev = q })

unfoldable pub with_next : ℕ → ℕ → (ℕ → CapSlot) → ℕ → CapSlot
with_next p q f = update f p (record (f p) { next = q })

unfoldable pub set_cap : ℕ → Capability → Cmd (Unit {0})
set_cap p c k =
    if p == 0 then stop Stop.null_access else ok tt (record k { slots = with_cap p c k.slots })

unfoldable pub set_prev : ℕ → ℕ → Cmd (Unit {0})
set_prev p q k =
    if p == 0 then stop Stop.null_access else ok tt (record k { slots = with_prev p q k.slots })

unfoldable pub set_next : ℕ → ℕ → Cmd (Unit {0})
set_next p q k =
    if p == 0 then stop Stop.null_access else ok tt (record k { slots = with_next p q k.slots })

unfoldable pub get_task : ℕ → Cmd Task
get_task p k = if p == 0 then stop Stop.null_access else ok (k.tasks p) k

unfoldable pub put_task : ℕ → Task → Cmd (Unit {0})
put_task p t k =
    if p == 0 then stop Stop.null_access else ok tt (record k { tasks = update k.tasks p t })

unfoldable pub get_meta_info : ℕ → Cmd MetaInfo
get_meta_info p k = if p == 0 then stop Stop.null_access else ok (k.spaces p) k

unfoldable pub put_meta_info : ℕ → MetaInfo → Cmd (Unit {0})
put_meta_info p m k =
    if p == 0 then stop Stop.null_access else ok tt (record k { spaces = update k.spaces p m })

unfoldable pub get_endpoint : ℕ → Cmd Endpoint
get_endpoint p k = if p == 0 then stop Stop.null_access else ok (k.endpoints p) k

unfoldable pub put_endpoint : ℕ → Endpoint → Cmd (Unit {0})
put_endpoint p e k =
    if p == 0
    then stop Stop.null_access
    else ok tt (record k { endpoints = update k.endpoints p e })

-- `table->entries[index]`
unfoldable pub get_entry : ℕ → ℕ → Cmd Pte
get_entry t i k = if t == 0 then stop Stop.null_access else ok (k.tables t i) k

unfoldable pub put_entry : ℕ → ℕ → Pte → Cmd (Unit {0})
put_entry t i e k =
    if t == 0
    then stop Stop.null_access
    else ok tt (record k { tables = update k.tables t (update (k.tables t) i e) })

-- memset of `n` bytes to 0
unfoldable pub clear_bytes : ℕ → ℕ → (ℕ → ℕ) → ℕ → ℕ
clear_bytes p n bytes a = if leb p a && ltb a (p + n) then 0 else bytes a

abbrev pub clear_memory : ℕ → ℕ → Cmd (Unit {0})
clear_memory p n k = ok tt (record k { memory = clear_bytes p n k.memory })

-- The members of the union.
abbrev pub memory_member : Capability → Cmd MemoryCap
memory_member (Capability.memory m) = pure m
memory_member _ = halt Stop.bad_member

abbrev pub task_member : Capability → Cmd TaskCap
task_member (Capability.task m) = pure m
task_member _ = halt Stop.bad_member

abbrev pub endpoint_member : Capability → Cmd EndpointCap
endpoint_member (Capability.endpoint m) = pure m
endpoint_member _ = halt Stop.bad_member

abbrev pub page_table_member : Capability → Cmd PageTableCap
page_table_member (Capability.page_table m) = pure m
page_table_member _ = halt Stop.bad_member

abbrev pub virt_page_member : Capability → Cmd VirtPageCap
virt_page_member (Capability.virt_page m) = pure m
virt_page_member _ = halt Stop.bad_member

abbrev pub cap_space_member : Capability → Cmd CapSpaceCap
cap_space_member (Capability.cap_space m) = pure m
cap_space_member _ = halt Stop.bad_member

abbrev pub id_member : Capability → Cmd IdCap
id_member (Capability.id m) = pure m
id_member _ = halt Stop.bad_member
