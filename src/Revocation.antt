-- ===== src/Revocation.antt =====
-- src/kernel/cap_space.cpp: destroy_object, destroy_cap_slot, revoke_cap and destroy_cap;
-- src/kernel/cap.cpp: destroy_task_object and destroy_endpoint_object. `none` as the result of a call
-- says that the core has left for another context in its midst, with the rest of it to be done when
-- the core comes back.
pub mod TakeBack
use caprese.Common.{
  ℕ, zero, suc, ◌==◌, Bool, true, false, ◌||◌, not, if◌then◌else◌, Option, none, some,
}
use caprese.Cap.{CapType, Capability, is_cap}
use caprese.Kernel.{
  Error, CapSlot, Cmd, Stop, pure, halt, assert, refuse, ◌>>◌, ◌>>=◌, get_slot, set_cap,
  task_member, endpoint_member,
}
use caprese.CapSlot.{is_head, is_tail, live_owner, find_tail, erase_this}
use caprese.Object.{
  is_last_one, is_same_object, skip_zombies, destroy_memory_object, destroy_page_table_object,
  destroy_virt_page_object, destroy_cap_space_object, destroy_id_object,
}
use caprese.Task.{Switch, push_free_slots}
use caprese.CapSpace.{owning_task}
use caprese.Ipc.{MessageLayout, kill_task, ipc_cancel}

unfoldable pub destroy_task_object : MessageLayout → ℕ → ℕ → Cmd Switch
destroy_task_object layout fuel slot = do
  last_one ← is_last_one fuel slot
  assert last_one
  s ← get_slot slot
  assert (is_cap CapType.task s.cap)
  c ← task_member s.cap
  kill_task layout c.task 0

unfoldable pub destroy_endpoint_object : ℕ → ℕ → Cmd (Unit {0})
destroy_endpoint_object fuel slot = do
  last_one ← is_last_one fuel slot
  assert last_one
  s ← get_slot slot
  assert (is_cap CapType.endpoint s.cap)
  c ← endpoint_member s.cap
  ipc_cancel fuel c.endpoint

-- The `switch` of `destroy_object`.
unfoldable pub destroy_by_cap : MessageLayout → ℕ → ℕ → Capability → Cmd Switch
unfolding destroy_task_object destroy_endpoint_object
destroy_by_cap layout fuel slot (Capability.memory _) = do
  destroy_memory_object slot
  pure Switch.returned
destroy_by_cap layout fuel slot (Capability.task _) = destroy_task_object layout fuel slot
destroy_by_cap layout fuel slot (Capability.endpoint _) = do
  destroy_endpoint_object fuel slot
  pure Switch.returned
destroy_by_cap layout fuel slot (Capability.page_table _) = do
  destroy_page_table_object fuel slot
  pure Switch.returned
destroy_by_cap layout fuel slot (Capability.virt_page _) = do
  destroy_virt_page_object fuel slot
  pure Switch.returned
destroy_by_cap layout fuel slot (Capability.cap_space _) = do
  destroy_cap_space_object fuel slot
  pure Switch.returned
destroy_by_cap layout fuel slot (Capability.id _) = do
  destroy_id_object fuel slot
  pure Switch.returned
destroy_by_cap layout fuel slot _ = halt Stop.panic

unfoldable pub destroy_object : MessageLayout → ℕ → ℕ → Cmd Switch
unfolding destroy_by_cap
destroy_object layout fuel slot = do
  assert (not (slot == 0))
  s ← get_slot slot
  destroy_by_cap layout fuel slot s.cap

-- The object goes only with its last capability; a delegated one goes back to where it came from.
unfoldable pub destroy_unless_shared : MessageLayout → ℕ → ℕ → CapSlot → Cmd Switch
destroy_unless_shared layout fuel slot s = if is_head s then destroy_object layout fuel slot else do
  p ← get_slot s.prev
  if is_cap CapType.zombie p.cap then (do set_cap s.prev s.cap; pure Switch.returned) else do
    same ← is_same_object fuel s.prev slot
    if not same then destroy_object layout fuel slot else pure Switch.returned

unfoldable pub destroy_cap_slot : MessageLayout → ℕ → ℕ → Cmd Switch
unfolding destroy_unless_shared
destroy_cap_slot layout fuel slot = do
  assert (not (slot == 0))
  s ← get_slot slot
  assert (is_tail s)
  live_owner slot
  r ← destroy_unless_shared layout fuel slot s
  elim r [
    | Switch.switched ↦ pure Switch.switched
    | Switch.returned ↦ do
      _ ← erase_this slot
      task ← owning_task slot
      push_free_slots task slot
      pure Switch.returned
  ]

-- `while (cap_slot != slot)` for a memory capability: the chain is destroyed from its tail on.
unfoldable pub destroy_down : MessageLayout → ℕ → ℕ → ℕ → Cmd Switch
destroy_down layout zero slot cap_slot = halt Stop.out_of_fuel
destroy_down layout (suc fuel) slot cap_slot = if cap_slot == slot then pure Switch.returned else do
  s ← get_slot cap_slot
  r ← destroy_cap_slot layout (suc fuel) cap_slot
  elim r [
    | Switch.switched ↦ pure Switch.switched
    | Switch.returned ↦ destroy_down layout fuel slot s.prev
  ]

-- `while (cap_slot != slot)` for a zombie: the slots it was handed on to are freed.
unfoldable pub free_down : ℕ → ℕ → ℕ → Cmd (Unit {0})
free_down zero slot cap_slot = halt Stop.out_of_fuel
free_down (suc fuel) slot cap_slot = if cap_slot == slot then pure tt else do
  s ← get_slot cap_slot
  _ ← erase_this cap_slot
  task ← owning_task cap_slot
  push_free_slots task cap_slot
  free_down fuel slot s.prev

unfoldable pub revoke_cap : MessageLayout → ℕ → ℕ → Cmd (Option Bool)
unfolding destroy_down free_down
revoke_cap layout fuel slot = do
  assert (not (slot == 0))
  s ← get_slot slot
  if not (is_cap CapType.mem s.cap || is_cap CapType.zombie s.cap)
      then refuse Error.cap_type (some false)
      else do
        live_owner slot
        if is_cap CapType.mem s.cap
            then (do
              tail ← find_tail fuel slot
              r ← destroy_down layout fuel slot tail
              elim r [ Switch.switched ↦ pure none | Switch.returned ↦ pure (some true) ])
            else do
              last ← skip_zombies fuel s.next
              l ← get_slot last
              free_down fuel slot last
              set_cap slot l.cap
              pure (some true)

-- `p == nullptr || !is_same_object(p, slot)`
abbrev is_other : ℕ → ℕ → ℕ → Cmd Bool
is_other fuel p slot =
    if p == 0 then pure true else do same ← is_same_object fuel p slot; pure (not same)

-- `slot->prev != nullptr && get_cap_type(slot->prev->cap) == CAP_ZOMBIE`
abbrev is_zombie_at : ℕ → Cmd Bool
is_zombie_at p =
    if p == 0 then pure false else do s ← get_slot p; pure (is_cap CapType.zombie s.cap)

-- The last `if` of `destroy_cap`.
unfoldable pub release_slot : MessageLayout → ℕ → ℕ → Cmd (Option Bool)
release_slot layout fuel slot = do
  s ← get_slot slot
  first ← is_other fuel s.prev slot
  alone ← if first then is_other fuel s.next slot else pure false
  if alone
      then (do
        r ← destroy_object layout fuel slot
        elim r [
          | Switch.switched ↦ pure none
          | Switch.returned ↦ do
            task ← owning_task slot
            push_free_slots task slot
            pure (some true)
        ])
      else do
        handed ← is_zombie_at s.prev
        if handed
            then (do
              same ← is_same_object fuel s.prev slot
              assert same
              revoke_cap layout fuel s.prev)
            else do
              _ ← erase_this slot
              task ← owning_task slot
              push_free_slots task slot
              pure (some true)

unfoldable pub destroy_cap : MessageLayout → ℕ → ℕ → Cmd (Option Bool)
unfolding release_slot
destroy_cap layout fuel slot = do
  assert (not (slot == 0))
  s ← get_slot slot
  if is_cap CapType.null s.cap then refuse Error.cap_type (some false) else do
    revoked ←
        if is_cap CapType.mem s.cap || is_cap CapType.zombie s.cap
        then revoke_cap layout fuel slot
        else pure (some true)
    elim revoked [
      | none ↦ pure none
      | some false ↦ pure (some false)
      | some true ↦ release_slot layout fuel slot
    ]
