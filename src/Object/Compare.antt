-- ===== src/Object/Compare.antt =====
-- src/kernel/cap.cpp: is_same_object and compare_id_cap; src/kernel/cap_space.cpp: is_same_cap.
use caprese.Common.{ℕ, zero, suc, ◌==◌, Bool, true, false, ◌&&◌, not, ltb, if◌then◌else◌}
use caprese.Cap.{CapType, Capability, IdCap, is_cap}
use caprese.Kernel.{Cmd, Stop, pure, halt, assert, ◌>>◌, ◌>>=◌, get_slot, id_member}

abbrev pub same_id : IdCap → IdCap → Bool
same_id a b = (a.val1 == b.val1) && ((a.val2 == b.val2) && (a.val3 == b.val3))

-- The object of the first slot of a chain that is not a zombie.
unfoldable pub skip_zombies : ℕ → ℕ → Cmd ℕ
skip_zombies zero slot = halt Stop.out_of_fuel
skip_zombies (suc fuel) slot = do
  s ← get_slot slot
  let rest = skip_zombies fuel s.next
  if is_cap CapType.zombie s.cap then rest else pure slot

abbrev pub same_object_cap : Capability → Capability → Bool
same_object_cap (Capability.task a) (Capability.task b) = a.task == b.task
same_object_cap (Capability.endpoint a) (Capability.endpoint b) = a.endpoint == b.endpoint
same_object_cap (Capability.id a) (Capability.id b) = same_id a b
same_object_cap _ _ = false

unfoldable pub is_same_object : ℕ → ℕ → ℕ → Cmd Bool
is_same_object fuel lhs rhs = do
  assert (not (lhs == 0))
  assert (not (rhs == 0))
  l ← skip_zombies fuel lhs
  r ← skip_zombies fuel rhs
  if l == r
      then pure true
      else do a ← get_slot l; b ← get_slot r; pure (same_object_cap a.cap b.cap)

unfoldable pub is_same_cap : ℕ → ℕ → Cmd Bool
is_same_cap lhs rhs = do
  assert (not (lhs == 0))
  assert (not (rhs == 0))
  a ← get_slot lhs
  b ← get_slot rhs
  pure (same_object_cap a.cap b.cap)

-- The results -1, 0 and 1.
pub data Comparison : Type 0 where
  less equal greater : Comparison

unfoldable pub compare_ids : IdCap → IdCap → Comparison
compare_ids a b =
    if ltb a.val1 b.val1
    then Comparison.less
    else if ltb b.val1 a.val1
    then Comparison.greater
    else if ltb a.val2 b.val2
    then Comparison.less
    else if ltb b.val2 a.val2
    then Comparison.greater
    else if ltb a.val3 b.val3
    then Comparison.less
    else if ltb b.val3 a.val3
    then Comparison.greater
    else Comparison.equal

unfoldable pub compare_id_cap : ℕ → ℕ → Cmd Comparison
unfolding compare_ids
compare_id_cap slot1 slot2 = do
  assert (not (slot1 == 0))
  s ← get_slot slot1
  assert (is_cap CapType.id s.cap)
  assert (not (slot2 == 0))
  t ← get_slot slot2
  assert (is_cap CapType.id t.cap)
  a ← id_member s.cap
  b ← id_member t.cap
  pure (compare_ids a b)
