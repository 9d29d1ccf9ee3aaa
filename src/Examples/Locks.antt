-- ===== src/Examples/Locks.antt =====
-- The recursive lock.
use caprese.Common.{◌≡◌, true, some, [], ◌∷◌, List, arith}
use caprese.Lock.{LockCall, answers, unlocked}
use caprese.Lock.Holder.{Holder, NoneIdle, promised_answers, answers-unlocked, answers-idle}

-- Thread 1 enters twice, 2 has to wait, and gets the lock when 1 has left twice.
abbrev history : List LockCall
history =
    LockCall.locks 1
    ∷ LockCall.locks 2
    ∷ LockCall.tries 1
    ∷ LockCall.unlocks 1
    ∷ LockCall.tries 2
    ∷ LockCall.unlocks 1
    ∷ LockCall.locks 2
    ∷ []

none-idle : NoneIdle history
none-idle = ground arith

answers_example : answers history unlocked ≡ promised_answers history Holder.nobody
answers_example = answers-unlocked history none-idle (omega arith)

idle_example : answers (LockCall.locks 0 ∷ LockCall.locks 5 ∷ []) unlocked ≡ some (true ∷ true ∷ [])
idle_example = answers-idle 5 (ground arith)
