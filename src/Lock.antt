-- ===== src/Lock.antt =====
-- src/kernel/lock.cpp. A call to `lock` that finds the lock taken spins: `attempt` is one pass through
-- its loop, and answers false where it goes round again. `test_and_set` is one step, and only the
-- thread that has set `state` writes `owner` and `count`, so the passes of several threads are
-- interleaved as wholes.
use caprese.Common.{
  ℕ, ◌+◌, ◌-◌, ◌%◌, ◌^◌, ◌==◌, Bool, true, false, if◌then◌else◌, Option, none, some, List, [], ◌∷◌,
}
use mathlib.Core.Option
use caprese.Config.{u32}
pub mod Holder

pub record Spinlock : Type 0 where
  pub state : Bool

-- The answer, and the lock afterwards.
unfoldable pub try_spinlock : Spinlock → Bool × Spinlock
try_spinlock l = (if l.state then (false, l) else (true, record { state = true }))

unfoldable pub unlock_spinlock : Spinlock → Spinlock
unlock_spinlock l = record { state = false }

pub record RecursiveSpinlock : Type 0 where
  pub state : Bool
  pub owner : ℕ
  pub count : ℕ

abbrev pub unlocked : RecursiveSpinlock
unlocked = record { state = false; owner = 0; count = 0 }

abbrev pub entered : RecursiveSpinlock → RecursiveSpinlock
entered l = record l { count = u32 (l.count + 1) }

-- One pass of `lock`: the last case has taken the flag, and goes round again.
unfoldable pub attempt : ℕ → RecursiveSpinlock → Bool × RecursiveSpinlock
attempt tid l =
    if l.owner == tid
    then (true, entered l)
    else if l.state
    then (false, l)
    else if l.owner == 0
    then (true, record { state = true; owner = tid; count = 1 })
    else (false, record l { state = true })

unfoldable pub try_lock : ℕ → RecursiveSpinlock → Bool × RecursiveSpinlock
try_lock tid l =
    if l.owner == tid
    then (true, entered l)
    else if l.state
    then (false, l)
    else if l.owner == 0
    then (true, record { state = true; owner = tid; count = 1 })
    else (true, record l { state = true })

-- `none` is the panic.
unfoldable pub unlock : ℕ → RecursiveSpinlock → Option RecursiveSpinlock
unlock tid l =
    if l.owner == tid
    then (if u32 (l.count + 2 ^ 32 - 1) == 0
        then some (record { state = false; owner = 0; count = 0 })
        else some (record l { count = u32 (l.count + 2 ^ 32 - 1) }))
    else none

pub data LockCall : Type 0 where
  locks tries unlocks : ℕ → LockCall

-- The answer of a call, and the lock afterwards.
abbrev pub perform : LockCall → RecursiveSpinlock → Option (Bool × RecursiveSpinlock)
perform (LockCall.locks t) l = some (attempt t l)
perform (LockCall.tries t) l = some (try_lock t l)
perform (LockCall.unlocks t) l = Option.map (λ l'. (true, l')) (unlock t l)

-- A first answer, followed by those of `rest`.
abbrev pub followed {ℓ} :
    {A : Type ℓ} → (A → Option (List Bool)) → Option (Bool × A) → Option (List Bool)
followed rest none = none
followed rest (some r) = Option.map (λ bs. r.0 ∷ bs) (rest r.1)

-- The answers of the calls, in the order in which they happen.
unfoldable pub answers : List LockCall → RecursiveSpinlock → Option (List Bool)
answers [] l = some []
answers (c ∷ cs) l = followed (λ l'. answers cs l') (perform c l)
