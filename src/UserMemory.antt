-- ===== src/UserMemory.antt =====
-- src/kernel/user_memory.cpp. The bytes are left out: a call returns whether it succeeds and the list
-- of its calls of memcpy, in their order.
pub mod Walk
pub mod Transfer
pub mod Bytes
use caprese.Common.{
  ℕ, zero, suc, ◌+◌, ◌-◌, ◌%◌, Bool, true, false, not, ltb, if◌then◌else◌, Option, none, some, List,
  [], ◌∷◌,
}
use caprese.Config.{u64, max_page_table_level}
use caprese.Kernel.{Pte, Cmd, Stop, pure, halt, ◌>>=◌, get_task, get_entry}
use caprese.Page.{get_page_size, get_next_page, is_disabled, is_table, is_user, walk}

pub record Found : Type 0 where
  pub pte : Pte
  pub level : ℕ

-- The loop of `walk` from level `n - 1` down, and the test behind it. When the loop runs out, its last
-- entry is a table, and the test fails.
unfoldable pub find_entry : ℕ → ℕ → ℕ → Cmd (Option Found)
find_entry va zero table = pure none
find_entry va (suc n) table = do
  i ← walk va n
  pte ← get_entry table i
  if is_disabled pte
      then pure none
      else if is_table pte
      then find_entry va n (get_next_page pte)
      else pure (if is_user pte then some (record { pte = pte; level = n }) else none)

unfoldable pub walk_user : ℕ → ℕ → Cmd (Option Found)
walk_user task va = do t ← get_task task; find_entry va (suc max_page_table_level) t.root_page_table

-- One memcpy between `length` bytes of a user's page, from `offset` on, and the buffer at `position`.
pub record Copy : Type 0 where
  pub page : Found
  pub offset : ℕ
  pub length : ℕ
  pub position : ℕ

-- The copy at the address `va` while `left` bytes are left.
unfoldable pub next_copy : Found → ℕ → ℕ → ℕ → Copy
next_copy f va left position =
    let offset = va % get_page_size f.level in
    let room = get_page_size f.level - offset in
    record {
      page = f;
      offset = offset;
      length = if ltb left room then left else room;
      position = position;
    }

-- The loop that `read_user_memory` and `write_user_memory` share; they differ in the direction.
unfoldable pub copy_user : ℕ → ℕ → ℕ → ℕ → ℕ → Cmd (Bool × List Copy)
copy_user zero task va size done = halt Stop.out_of_fuel
copy_user (suc fuel) task va size done =
    if ltb done size
    then (do
      found ← walk_user task (u64 (va + done))
      elim found [
        | none ↦ pure (false, [])
        | some f ↦ do
          let c = next_copy f (u64 (va + done)) (size - done) done
          rest ← copy_user fuel task va size (done + c.length)
          pure (rest.0, c ∷ rest.1)
      ])
    else pure (true, [])

unfoldable pub read_user_memory : ℕ → ℕ → ℕ → ℕ → Cmd (Bool × List Copy)
read_user_memory fuel task src size = copy_user fuel task src size 0

unfoldable pub write_user_memory : ℕ → ℕ → ℕ → ℕ → Cmd (Bool × List Copy)
write_user_memory fuel task dst size = copy_user fuel task dst size 0

-- One memcpy from page to page: both ends take the length that fits in the source page.
unfoldable pub forward_user : ℕ → ℕ → ℕ → ℕ → ℕ → ℕ → ℕ → Cmd (Bool × List (Copy × Copy))
forward_user zero src_task dst_task src dst size done = halt Stop.out_of_fuel
forward_user (suc fuel) src_task dst_task src dst size done =
    if ltb done size
    then (do
      src_found ← walk_user src_task (u64 (src + done))
      elim src_found [
        | none ↦ pure (false, [])
        | some s ↦ do
          dst_found ← walk_user dst_task (u64 (dst + done))
          elim dst_found [
            | none ↦ pure (false, [])
            | some d ↦ do
              let c = next_copy s (u64 (src + done)) (size - done) done
              let offset = u64 (dst + done) % get_page_size d.level
              let e : Copy = record {
                page = d;
                offset = offset;
                length = c.length;
                position = done;
              }
              rest ← forward_user fuel src_task dst_task src dst size (done + c.length)
              pure (rest.0, (c, e) ∷ rest.1)
          ]
      ])
    else pure (true, [])

unfoldable pub forward_user_memory : ℕ → ℕ → ℕ → ℕ → ℕ → ℕ → Cmd (Bool × List (Copy × Copy))
forward_user_memory fuel src_task dst_task src dst size =
    forward_user fuel src_task dst_task src dst size 0
