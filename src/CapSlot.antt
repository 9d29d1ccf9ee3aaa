-- ===== src/CapSlot.antt =====
-- src/kernel/cap_space.cpp, `cap_slot_t`: the links between the slots of a capability and of a task's
-- list of free slots. A slot lies in its page at 24 + 40 * index, behind `meta_info`.
pub mod Address
pub mod Fields
pub mod Links
pub mod Chains
use caprese.Common.{ℕ, ◌+◌, ◌-◌, ◌*◌, ◌/◌, Bool, ◌&&◌, not, ◌==◌, if◌then◌else◌, zero, suc}
use caprese.Config.{page_size}
use caprese.Align.{round_down}
use caprese.Cap.{CapType, get_cap_type, is_cap}
use caprese.Kernel.{
  CapSlot, TaskState, in_state, Cmd, Stop, pure, halt, assert, when, ◌>>◌, ◌>>=◌, get_slot,
  set_prev, set_next, get_meta_info, get_task,
}

abbrev pub cap_slot_size : ℕ
cap_slot_size = 40

abbrev pub meta_info_size : ℕ
meta_info_size = 24

-- `std::size(slots)`
abbrev pub slots_per_space : ℕ
slots_per_space = page_size / cap_slot_size - 1

-- `&cap_space->slots[i]`
abbrev pub slot_address : ℕ → ℕ → ℕ
slot_address space i = space + meta_info_size + cap_slot_size * i

unfoldable pub get_cap_space : ℕ → ℕ
unfolding round_down
get_cap_space slot = round_down slot page_size

abbrev pub is_isolated : CapSlot → Bool
is_isolated s = s.prev == 0 && s.next == 0

abbrev pub is_unused : CapSlot → Bool
is_unused s = is_cap CapType.null s.cap && (s.prev == 0 && s.next == 0)

abbrev pub is_head : CapSlot → Bool
is_head s = s.prev == 0

abbrev pub is_tail : CapSlot → Bool
is_tail s = s.next == 0

-- The owner of the slot's page, which must not be unused.
unfoldable pub live_owner : ℕ → Cmd (Unit {0})
unfolding get_meta_info get_task
live_owner slot = do
  m ← get_meta_info (get_cap_space slot)
  t ← get_task m.task
  when (in_state TaskState.unused t) (halt Stop.panic)

unfoldable pub insert_before : ℕ → ℕ → Cmd (Unit {0})
unfolding get_slot set_prev set_next live_owner
insert_before this slot = do
  assert (not (slot == 0))
  s ← get_slot slot
  assert (is_isolated s)
  live_owner slot
  t ← get_slot this
  when (not (t.prev == 0)) (set_next t.prev slot >> set_prev slot t.prev)
  set_next slot this
  set_prev this slot

-- `while (!tail->is_tail()) tail = tail->next;`
unfoldable pub find_tail : ℕ → ℕ → Cmd ℕ
find_tail zero slot = halt Stop.out_of_fuel
find_tail (suc fuel) slot = do
  s ← get_slot slot
  let rest = find_tail fuel s.next
  if is_tail s then pure slot else rest

unfoldable pub insert_after : ℕ → ℕ → ℕ → Cmd (Unit {0})
unfolding get_slot set_prev set_next live_owner
insert_after fuel this slot = do
  assert (not (slot == 0))
  s ← get_slot slot
  assert (is_head s)
  live_owner slot
  tail ← find_tail fuel slot
  t ← get_slot this
  when (not (t.next == 0)) (set_prev t.next tail >> set_next tail t.next)
  set_next this slot
  set_prev slot this

unfoldable pub erase_this : ℕ → Cmd ℕ
unfolding get_slot set_prev set_next live_owner
erase_this this = do
  live_owner this
  s ← get_slot this
  when (not (s.prev == 0)) (set_next s.prev s.next)
  s' ← get_slot this
  when (not (s'.next == 0)) (set_prev s'.next s'.prev)
  set_prev this 0
  set_next this 0
  pure (if not (s'.next == 0) then s'.next else s.prev)

-- `this` takes the place of `slot`.
unfoldable pub replace : ℕ → ℕ → Cmd (Unit {0})
unfolding get_slot set_prev set_next live_owner
replace this slot = do
  assert (not (slot == 0))
  t ← get_slot this
  assert (is_isolated t)
  live_owner slot
  s ← get_slot slot
  when (not (s.prev == 0)) (set_next s.prev this >> set_prev this s.prev >> set_prev slot 0)
  s' ← get_slot slot
  when (not (s'.next == 0)) (set_prev s'.next this >> set_next this s'.next >> set_next slot 0)
