-- ===== src/Examples.antt =====
-- Small kernels, and the theorems at work on them.
mod Kernels
mod Endpoints
mod Starting
mod Calls
mod Numbers
mod Locks
mod Memory
mod Queue
mod Slots
mod Tables
mod SyscallNumbers
mod Startup
mod Properties
mod DeviceTree
mod Traps
