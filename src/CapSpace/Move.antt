-- ===== src/CapSpace/Move.antt =====
-- src/kernel/cap_space.cpp: transfer_cap, delegate_cap and copy_cap.
use caprese.Common.{ℕ, ◌==◌, Bool, ◌||◌, not, if◌then◌else◌}
use caprese.Cap.{CapType, Capability, is_cap}
use caprese.Kernel.{
  Error, CapSlot, Cmd, pure, assert, refuse, ◌>>◌, ◌>>=◌, get_slot, set_cap, get_task,
  get_meta_info,
}
use caprese.CapSlot.{get_cap_space, insert_after, replace}
use caprese.Task.{is_dead, insert_cap, push_free_slots}

-- `slot->get_cap_space()->meta_info.task`
unfoldable pub owning_task : ℕ → Cmd ℕ
owning_task slot = do m ← get_meta_info (get_cap_space slot); pure m.task

-- The type is CAP_NULL or CAP_ZOMBIE.
abbrev pub is_void : CapSlot → Bool
is_void s = is_cap CapType.null s.cap || is_cap CapType.zombie s.cap

unfoldable pub transfer_cap : ℕ → ℕ → Cmd ℕ
transfer_cap dst_task src_slot = do
  assert (not (dst_task == 0))
  assert (not (src_slot == 0))
  src_task ← owning_task src_slot
  src ← get_task src_task
  dst ← get_task dst_task
  s ← get_slot src_slot
  if is_void s
      then refuse Error.cap_type 0
      else if is_dead dst
      then refuse Error.ill_state 0
      else if is_dead src
      then refuse Error.ill_state 0
      else do
        dst_slot ← insert_cap dst_task s.cap
        if dst_slot == 0
            then pure 0
            else do replace dst_slot src_slot; push_free_slots src_task src_slot; pure dst_slot

unfoldable pub delegate_cap : ℕ → ℕ → ℕ → Cmd ℕ
delegate_cap fuel task src_slot = do
  src_task ← owning_task src_slot
  src ← get_task src_task
  dst ← get_task task
  s ← get_slot src_slot
  if is_void s
      then refuse Error.cap_type 0
      else if is_dead dst
      then refuse Error.ill_state 0
      else if is_dead src
      then refuse Error.ill_state 0
      else do
        dst_slot ← insert_cap task s.cap
        if dst_slot == 0 then pure 0 else do
          set_cap src_slot Capability.zombie
          insert_after fuel src_slot dst_slot
          pure dst_slot

-- The `switch` of `copy_cap`.
unfoldable pub copy_slot : ℕ → ℕ → ℕ → Capability → Cmd ℕ
copy_slot fuel src_task src_slot (Capability.task c) = do
  dst_slot ← insert_cap src_task (Capability.task c)
  insert_after fuel src_slot dst_slot
  pure dst_slot
copy_slot fuel src_task src_slot (Capability.endpoint c) = do
  dst_slot ← insert_cap src_task (Capability.endpoint c)
  insert_after fuel src_slot dst_slot
  pure dst_slot
copy_slot fuel src_task src_slot (Capability.id c) = insert_cap src_task (Capability.id c)
copy_slot fuel src_task src_slot _ = pure 0

unfoldable pub copy_cap : ℕ → ℕ → Cmd ℕ
copy_cap fuel src_slot = do
  assert (not (src_slot == 0))
  src_task ← owning_task src_slot
  _ ← get_task src_task
  s ← get_slot src_slot
  dst_slot ← copy_slot fuel src_task src_slot s.cap
  if dst_slot == 0 then refuse Error.cap_type 0 else pure dst_slot
