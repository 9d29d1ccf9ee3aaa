-- ===== src/Syscall/Caps.antt =====
-- src/kernel/syscall: ns_system.cpp, ns_cap.cpp, ns_id_cap.cpp and ns_mem_cap.cpp.
use caprese.Common.{ℕ, ◌+◌, ◌-◌, ◌^◌, ◌==◌, Bool, not, ltb, if◌then◌else◌, Option, none, some}
use caprese.Config.{word, page_size}
use caprese.Cap.{CapType, MemoryCap, get_cap_type, is_cap}
use caprese.Cap.Size.{get_cap_size, get_cap_align}
use caprese.Kernel.{Error, Cmd, ok, pure, ◌>>◌, ◌>>=◌, get_slot, memory_member}
use caprese.CapSlot.{slots_per_space}
use caprese.CapSpace.{copy_cap}
use caprese.Object.{is_same_cap, Comparison, compare_id_cap, create_id_object}
use caprese.Task.{current, yield, pop_free_slots, push_free_slots}
use caprese.Creation.{create_object}
use caprese.Revocation.{revoke_cap, destroy_cap}
use caprese.Ipc.{MessageLayout}
use caprese.Syscall.Lookup.{
  Answer, succeed, fail, errno_to_sysret, bit, after_switch, or_errno, lookup_own, lookup_mem_cap,
  found_or_errno, answer_index,
}

-- The numbers of `cap_type_t`, and the conversion of a word to it.
pub record CapNumbers : Type 0 where
  pub number : CapType → ℕ
  pub cap_type : ℕ → CapType

unfoldable pub sys_system_null : Cmd Answer
sys_system_null = succeed 0

unfoldable pub sys_system_page_size : Cmd Answer
sys_system_page_size = succeed page_size

abbrev pub user_space_base : ℕ
user_space_base = 4096

abbrev pub user_space_size : ℕ
user_space_size = 2 ^ 37 - user_space_base

unfoldable pub sys_system_user_space_start : Cmd Answer
sys_system_user_space_start = succeed user_space_base

unfoldable pub sys_system_user_space_end : Cmd Answer
sys_system_user_space_end = succeed (user_space_base + user_space_size)

unfoldable pub sys_system_caps_per_cap_space : Cmd Answer
sys_system_caps_per_cap_space = succeed slots_per_space

unfoldable pub sys_system_yield : Cmd Answer
sys_system_yield = do s ← yield; after_switch s

unfoldable pub sys_system_cap_size : CapNumbers → (ℕ → ℕ) → Cmd Answer
sys_system_cap_size n arg =
    if ltb (n.number CapType.zombie) (arg 0)
    then fail Error.ill_args
    else succeed (get_cap_size (n.cap_type (arg 0)))

unfoldable pub sys_system_cap_align : CapNumbers → (ℕ → ℕ) → Cmd Answer
sys_system_cap_align n arg =
    if ltb (n.number CapType.zombie) (arg 0)
    then fail Error.ill_args
    else succeed (get_cap_align (n.cap_type (arg 0)))

-- The type of a descriptor that has no capability is CAP_NULL.
abbrev null_or_errno : CapNumbers → Error → Cmd Answer
null_or_errno n Error.s_ok = succeed (n.number CapType.null)
null_or_errno n _ = errno_to_sysret

abbrev errno_of : Cmd Error
errno_of k = ok k.errno k

unfoldable pub sys_cap_type : CapNumbers → (ℕ → ℕ) → Cmd Answer
sys_cap_type n arg = do
  slot ← lookup_own (arg 0)
  if slot == 0
      then (do e ← errno_of; null_or_errno n e)
      else do s ← get_slot slot; succeed (n.number (get_cap_type s.cap))

unfoldable pub sys_cap_copy : ℕ → (ℕ → ℕ) → Cmd Answer
sys_cap_copy fuel arg =
    found_or_errno (lookup_own (arg 0)) λ slot. found_or_errno (copy_cap fuel slot) answer_index

abbrev after_revoke : Option Bool → Cmd Answer
after_revoke (some b) = or_errno b
after_revoke none = pure Answer.asleep

unfoldable pub sys_cap_revoke : MessageLayout → ℕ → (ℕ → ℕ) → Cmd Answer
sys_cap_revoke layout fuel arg =
    found_or_errno (lookup_own (arg 0)) λ slot. do r ← revoke_cap layout fuel slot; after_revoke r

unfoldable pub sys_cap_destroy : MessageLayout → ℕ → (ℕ → ℕ) → Cmd Answer
sys_cap_destroy layout fuel arg =
    found_or_errno (lookup_own (arg 0)) λ slot. do r ← destroy_cap layout fuel slot; after_revoke r

unfoldable pub sys_cap_same : (ℕ → ℕ) → Cmd Answer
sys_cap_same arg =
    found_or_errno (lookup_own (arg 0))
      λ lhs. found_or_errno (lookup_own (arg 1)) λ rhs. do b ← is_same_cap lhs rhs; succeed (bit b)

unfoldable pub sys_id_cap_create : Cmd Answer
sys_id_cap_create = do
  task ← current
  slot ← pop_free_slots task
  if slot == 0 then fail Error.out_of_cap_space else do
    result ← create_id_object slot
    if result == 0 then (do push_free_slots task slot; errno_to_sysret) else answer_index result

-- The results -1, 0 and 1 as words.
abbrev comparison_word : Comparison → ℕ
comparison_word Comparison.less = word - 1
comparison_word Comparison.equal = 0
comparison_word Comparison.greater = 1

-- The slot of an identifier, or an error.
abbrev with_id : ℕ → (ℕ → Cmd Answer) → Cmd Answer
with_id desc go = found_or_errno (lookup_own desc) λ slot. do
  s ← get_slot slot
  if not (is_cap CapType.id s.cap) then fail Error.cap_type else go slot

unfoldable pub sys_id_cap_compare : (ℕ → ℕ) → Cmd Answer
sys_id_cap_compare arg =
    with_id (arg 0)
      λ lhs. with_id (arg 1) λ rhs. do r ← compare_id_cap lhs rhs; succeed (comparison_word r)

-- A field of the memory capability that `args[0]` names.
abbrev memory_field : (MemoryCap → ℕ) → (ℕ → ℕ) → Cmd Answer
memory_field field arg =
    found_or_errno (lookup_mem_cap arg)
      λ slot. do s ← get_slot slot; m ← memory_member s.cap; succeed (field m)

unfoldable pub sys_mem_cap_device : (ℕ → ℕ) → Cmd Answer
sys_mem_cap_device = memory_field (λ m. bit m.device)

unfoldable pub sys_mem_cap_phys_addr : (ℕ → ℕ) → Cmd Answer
sys_mem_cap_phys_addr = memory_field (λ m. m.phys_addr)

unfoldable pub sys_mem_cap_size : (ℕ → ℕ) → Cmd Answer
sys_mem_cap_size = memory_field (λ m. m.size)

unfoldable pub sys_mem_cap_used_size : (ℕ → ℕ) → Cmd Answer
sys_mem_cap_used_size = memory_field (λ m. m.used_size)

unfoldable pub sys_mem_cap_create_object : CapNumbers → ℕ → (ℕ → ℕ) → Cmd Answer
sys_mem_cap_create_object n fuel arg = found_or_errno (lookup_mem_cap arg) λ slot. do
  task ← current
  found_or_errno (create_object fuel task slot (n.cap_type (arg 1)) (λ i. arg (i + 2))) answer_index
