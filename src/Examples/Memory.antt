-- ===== src/Examples/Memory.antt =====
-- A user's memory.
use caprese.Common.{◌^◌, ◌≡◌, true, arith}
use caprese.Kernel.{Kernel, Ensures}
use caprese.UserMemory.{read_user_memory}
use caprese.UserMemory.Walk.{IsSmall}
use caprese.UserMemory.Transfer.{IsTransfer, read_user_memory-IsTransfer}
use caprese.Examples.Kernels.{quiet, no_entry}

-- All the addresses lie in one page of one gigabyte.
abbrev user_kernel : Kernel
user_kernel = record quiet {
  tables = λ _ _. record no_entry { v = true; r = true; u = true; next_page_number = 2 ^ 18 };
}

user_kernel-IsSmall : IsSmall user_kernel
user_kernel-IsSmall t i = omega arith

read_example :
    Ensures
      (λ r k'.
        (k' ≡ user_kernel)
        × IsTransfer user_kernel (user_kernel.tasks 8192).root_page_table 10 100 0 r.1 r.0)
      (read_user_memory 101 8192 10 100 user_kernel)
read_example =
    read_user_memory-IsTransfer 8192 10 100 user_kernel (ground arith) (ground arith)
      user_kernel-IsSmall (omega arith)
