-- ===== src/Lib.antt =====
-- The Caprese microkernel: capabilities, page tables, tasks, messages, system calls and locks.
--
-- The kernel keeps its objects in pages that are mapped at fixed addresses. A capability
-- (include/kernel/cap.h) lies in a slot of a capability space; a space belongs to a task, which finds
-- it through its own page tables. Slots are linked into chains: objects made from the same memory, and
-- copies of a capability, stand behind each other (src/kernel/cap_space.cpp, src/kernel/cap.cpp).
-- The empty slots of a task form such a chain too. Tasks are linked into the ready queue and into
-- the queues of endpoints (src/kernel/task.cpp, src/kernel/ipc.cpp).
--
-- Files and code:
-- - Common, Chain: Boolean tests, lists, and doubly linked chains given by the list that they stand for.
-- - Config: the constants of configs/helpers/declare_arch.cmake for rv64 with the sv39 MMU, and the
--   arithmetic of 64-bit words, with its wrap-around written out.
-- - Align: include/kernel/align.h.
-- - Cap: include/kernel/cap.h, the union `capability_t` as a data type and the functions make_*_cap.
-- - Kernel: State has the kernel's objects and variables as records (include/kernel/task.h, ipc.h,
--   cap_space.h, cls.h); Command has the commands: a call runs on a state and returns a value and the
--   next state, or stops the kernel by a panic, a failed assert, an access through the null pointer or
--   a wrong member of the union; Access has the reads and writes.
-- - Page: include/arch/rv64/kernel/page.h.
-- - Lock: src/kernel/lock.cpp. Holder has the abstract lock that it implements.
-- - CapSlot: `cap_slot_t` of src/kernel/cap_space.cpp.
-- - Task: src/kernel/task.cpp and the two functions on queues of src/kernel/ipc.cpp. FreeSlots has
--   insert_cap, push_free_slots and pop_free_slots; ReadyQueue the queues; Life the changes of state.
--   Turns has tasks that yield to each other, through the loop of the idle task.
-- - Object: the objects of src/kernel/cap.cpp. Memory creates them, Destroy takes them back, Compare
--   compares them.
-- - Mapping: the five functions of src/kernel/cap.cpp that map, move and unmap page tables and pages.
-- - CapSpace: the spaces of a task and the moving of capabilities, from src/kernel/cap_space.cpp and
--   src/kernel/cap.cpp; `insert_space` and `extend_space` are the overloads on a task.
-- - UserMemory: src/kernel/user_memory.cpp, with the calls of memcpy as a list; Bytes has the bytes that
--   they move; Walk has the page that the tables give for an address.
-- - Ipc: src/kernel/ipc.cpp. Message hands a message over, Calls has the sending calls, Receive the
--   others, Cancel ipc_cancel, and Kill ipc_send_kill_notify with kill_task of src/kernel/task.cpp.
-- - Creation: Start has init_task and init_idle_task of src/kernel/task.cpp, Objects has
--   create_task_object and create_object of src/kernel/cap.cpp.
-- - Revocation: revoke_cap and destroy_cap of src/kernel/cap_space.cpp, with what they destroy.
-- - Syscall: the calls of src/kernel/syscall, a child module for each group of namespaces. Dispatch has the
--   choice of a call by its number, of src/kernel/syscall.cpp, with the tables of include/kernel/syscall;
--   Registers has the registers of a task, of src/arch/rv64/kernel/frame.cpp, and the two calls on them;
--   Invoke puts them together.
-- - Dtb: src/arch/rv64/kernel/arch/dtb.cpp. Text has the functions on C strings, PropType the types of
--   properties, Reader and Parser the walk over the nodes and properties. Tree says that memory holds a
--   tree and in which order its nodes are visited; Walk, Visit and PropVisit are the parser on such memory.
-- - Setup: src/kernel/start.cpp and src/arch/rv64/kernel/setup.cpp. Regions and Blocks make the
--   capabilities for memory, Memory reads the regions from the device tree, Start has the root task and
--   Payload its program, its stack and the idle task. Powers, Tiling, Rising and Falling are the steps to
--   Carving.
-- - Boot: the table of src/arch/rv64/boot/start.cpp.
-- - Trap: src/arch/rv64/kernel/trap.cpp. Handler has a trap out of user code, with scause as an argument;
--   Calls follows a system call through it.
-- - Examples: small kernels on which the theorems are applied.
--
-- A pointer is its number, and 0 is the null pointer. Objects of different types are kept apart: two
-- of them never overlap. errno is a field of the state. Each call runs to its end on one core; the
-- locks of the objects are left out and modelled on their own in Lock. `switch_context` is assembly:
-- a command that calls it ends there, with the value `switched`.
--
-- Loops: those over the levels of a page table and over the slots of a page count their rounds.
-- The walk to the tail of a chain, the search behind zombies, the emptying of a queue and the
-- copying of user memory take fuel; a walk needs one unit more than the slots that it passes,
-- which is one for a new slot, emptying one more than the tasks, and copying one more than the
-- bytes that are left, and running out is a stop of its own, so that a theorem that a call
-- returns says that the fuel was enough.
--
-- Parameters: `message_header`, the types of messages and the numbers of the types of capability and of
-- the system calls belong to libcaprese, a submodule; they are the records MessageLayout, CapNumbers and
-- SyscallNumbers, and fields of Platform and RootLayout; the numbers of the errors are an argument.
-- strtoull and the linker's symbols (Image) are parameters, too.
--
-- A call that waits ends with `sleeps` (the result of an ipc call) or `asleep` (the answer of a system
-- call) where the core leaves it; what ipc_send_* and ipc_receive do when the task runs again is
-- `ipc_send_woken` and `ipc_receive_woken`. Where another task runs first and the result is known, it is
-- `returns_later` and `answered_later`.
--
-- The loops of insert_memory_region_caps have 65 and 130 rounds, which any region of 64-bit addresses
-- allows; the fuel of the device tree's reader counts the nodes, the properties, the NOP tokens and the
-- characters of the names.
--
-- Not modelled: lookup_tid, arch_init_task, the trap handler of the start, the timer and firmware calls,
-- logging, the dump of the registers and of the devices.
pub mod Common
pub mod Config
pub mod Align
pub mod Cap
pub mod Kernel
pub mod Lock
pub mod Page
pub mod CapSlot
pub mod Task
pub mod Chain
pub mod Object
pub mod Mapping
pub mod CapSpace
pub mod Ipc
pub mod UserMemory
pub mod Creation
pub mod Revocation
pub mod Setup
pub mod Boot
pub mod Syscall
pub mod Trap
pub mod Dtb
pub mod Examples
