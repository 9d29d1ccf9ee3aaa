-- ===== src/Lock/Holder.antt =====
-- What a recursive lock promises: one thread holds it, to some depth, or none does.
use caprese.Common.{
  ℕ, zero, suc, ◌+◌, ◌^◌, ◌<◌, ◌≡◌, ◌≢◌, refl, ap, ◌==◌, Bool, true, false, if◌then◌else◌, Option,
  none, some, List, [], ◌∷◌, arith, length,
}
use mathlib.Core.Option
use caprese.Lock.{
  RecursiveSpinlock, unlocked, attempt, try_lock, unlock, LockCall, perform, followed, answers,
}

-- The thread that holds the lock, and one less than the number of its calls that are not undone.
pub data Holder : Type 0 where
  nobody : Holder
  held_by : ℕ → ℕ → Holder

-- The abstract lock.
abbrev pub acquire : ℕ → Holder → Bool × Holder
acquire t Holder.nobody = (true, Holder.held_by t 0)
acquire t (Holder.held_by o d) =
    if o == t then (true, Holder.held_by o (suc d)) else (false, Holder.held_by o d)

abbrev pub release : ℕ → Holder → Option Holder
release t Holder.nobody = none
release t (Holder.held_by o zero) = if o == t then some Holder.nobody else none
release t (Holder.held_by o (suc d)) = if o == t then some (Holder.held_by o d) else none

abbrev pub promised : LockCall → Holder → Option (Bool × Holder)
promised (LockCall.locks t) h = some (acquire t h)
promised (LockCall.tries t) h = some (acquire t h)
promised (LockCall.unlocks t) h = Option.map (λ h'. (true, h')) (release t h)

unfoldable pub promised_answers : List LockCall → Holder → Option (List Bool)
promised_answers [] h = some []
promised_answers (c ∷ cs) h = followed (λ h'. promised_answers cs h') (promised c h)

-- The lock that stands for a holder.
abbrev pub lock_of : Holder → RecursiveSpinlock
lock_of Holder.nobody = unlocked
lock_of (Holder.held_by o d) = record { state = true; owner = o; count = suc d }

-- The holder is not the thread 0, and its count fits in 32 bits after `n` further calls.
abbrev pub HasRoom : ℕ → Holder → Type 0
HasRoom n Holder.nobody = n < 2 ^ 32
HasRoom n (Holder.held_by o d) = (o ≢ 0) × (suc d + n < 2 ^ 32)

abbrev pub caller : LockCall → ℕ
caller (LockCall.locks t) = t
caller (LockCall.tries t) = t
caller (LockCall.unlocks t) = t

abbrev pub NoneIdle : List LockCall → Type 0
NoneIdle [] = Unit
NoneIdle (c ∷ cs) = (caller c ≢ 0) × NoneIdle cs

-- The answer, with the lock that stands for the holder.
abbrev with_lock : Bool × Holder → Bool × RecursiveSpinlock
with_lock r = (r.0, lock_of r.1)

perform_ok :
    (c : LockCall) (n : ℕ) (h : Holder)
    → caller c ≢ 0
    → HasRoom (suc n) h
    → perform c (lock_of h) ≡ Option.map with_lock (promised c h)
unfolding attempt try_lock unlock
perform_ok (LockCall.locks t) n Holder.nobody ne r = ground arith
perform_ok (LockCall.locks t) n (Holder.held_by o d) ne r = ground arith
perform_ok (LockCall.tries t) n Holder.nobody ne r = ground arith
perform_ok (LockCall.tries t) n (Holder.held_by o d) ne r = ground arith
perform_ok (LockCall.unlocks t) n Holder.nobody ne r = ground arith
perform_ok (LockCall.unlocks t) n (Holder.held_by o zero) ne r = ground arith
perform_ok (LockCall.unlocks t) n (Holder.held_by o (suc d)) ne r = ground arith

room_left :
    (c : LockCall) (n : ℕ) (h : Holder) (r : Bool × Holder)
    → caller c ≢ 0
    → HasRoom (suc n) h
    → promised c h ≡ some r
    → HasRoom n r.1
room_left (LockCall.locks t) n Holder.nobody r ne room e = ground arith
room_left (LockCall.locks t) n (Holder.held_by o d) r ne room e = ground arith
room_left (LockCall.tries t) n Holder.nobody r ne room e = ground arith
room_left (LockCall.tries t) n (Holder.held_by o d) r ne room e = ground arith
room_left (LockCall.unlocks t) n Holder.nobody r ne room e = ground arith
room_left (LockCall.unlocks t) n (Holder.held_by o zero) r ne room e = ground arith
room_left (LockCall.unlocks t) n (Holder.held_by o (suc d)) r ne room e = ground arith

followed_alike :
    (cs : List LockCall) (q : Option (Bool × Holder))
    → ((r : Bool × Holder) → q ≡ some r → answers cs (lock_of r.1) ≡ promised_answers cs r.1)
    → followed (answers cs) (Option.map with_lock q) ≡ followed (promised_answers cs) q
followed_alike cs none f = refl
followed_alike cs (some r) f = ap (Option.map (λ bs. r.0 ∷ bs)) (f r refl)

answers_from :
    (cs : List LockCall) (h : Holder)
    → NoneIdle cs
    → HasRoom (length cs) h
    → answers cs (lock_of h) ≡ promised_answers cs h
unfolding answers promised_answers
answers_from [] h a r = refl
answers_from (c ∷ cs) h a room = rw (perform_ok c (length cs) h a.0 room) (
    followed_alike cs (promised c h)
      λ r e. answers_from cs r.1 a.1 (room_left c (length cs) h r a.0 room e))

-- Fewer than 2^32 calls by threads other than 0, in whatever order they happen, are answered by
-- the recursive lock as by an abstract lock that one thread holds to some depth: a thread gets
-- it when nobody else holds it, the holder again at any time, and the panic comes exactly where
-- a thread unlocks what it does not hold.
pub answers-unlocked :
    (cs : List LockCall)
    → NoneIdle cs
    → length cs < 2 ^ 32
    → answers cs unlocked ≡ promised_answers cs Holder.nobody
answers-unlocked cs a small = answers_from cs Holder.nobody a small

-- The recursive lock, unlocked, lets thread 0 in without being taken: whichever other thread
-- calls `lock` next is let in as well.
pub answers-idle :
    (t : ℕ)
    → t ≢ 0
    → answers (LockCall.locks 0 ∷ LockCall.locks t ∷ []) unlocked ≡ some (true ∷ true ∷ [])
unfolding answers attempt
answers-idle t ne = ground arith
