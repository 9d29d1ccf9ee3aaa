-- ===== src/Task/FreeSlots.antt =====
-- src/kernel/task.cpp: insert_cap, push_free_slots and pop_free_slots.
use caprese.Common.{ℕ, ◌+◌, ◌==◌, Bool, ◌||◌, not, if◌then◌else◌}
use caprese.Config.{u64, sub64}
use caprese.Cap.{Capability}
use caprese.Kernel.{
  TaskState, in_state, Task, Error, Cmd, pure, assert, refuse, when, ◌>>◌, ◌>>=◌, get_task,
  put_task, get_meta_info, set_cap,
}
use caprese.CapSlot.{get_cap_space, erase_this, insert_before}

-- `task->state == unused || task->state == killed`
abbrev pub is_dead : Task → Bool
is_dead t = in_state TaskState.unused t || in_state TaskState.killed t

unfoldable pub push_free_slots : ℕ → ℕ → Cmd (Unit {0})
push_free_slots task slot = do
  assert (not (task == 0))
  assert (not (slot == 0))
  m ← get_meta_info (get_cap_space slot)
  assert (m.task == task)
  _ ← erase_this slot
  set_cap slot Capability.null
  t ← get_task task
  when (not (t.free_slots == 0)) (insert_before t.free_slots slot)
  t' ← get_task task
  put_task task (record t' { free_slots = slot; free_slots_count = u64 (t'.free_slots_count + 1) })

unfoldable pub pop_free_slots : ℕ → Cmd ℕ
pop_free_slots task = do
  assert (not (task == 0))
  t ← get_task task
  if t.free_slots == 0 then refuse Error.out_of_cap_space 0 else do
    rest ← erase_this t.free_slots
    t' ← get_task task
    put_task task (record t' { free_slots = rest; free_slots_count = sub64 t'.free_slots_count 1 })
    pure t.free_slots

unfoldable pub insert_cap : ℕ → Capability → Cmd ℕ
insert_cap task cap = do
  assert (not (task == 0))
  t ← get_task task
  if is_dead t then refuse Error.ill_state 0 else do
    slot ← pop_free_slots task
    if slot == 0 then refuse Error.out_of_cap_space 0 else do set_cap slot cap; pure slot
