-- ===== src/Kernel/Command.antt =====
-- Commands: a call returns a value and the new state, or stops the kernel. `stop` is a panic, a
-- failed assert, an access through a null pointer, a member of the union that is not the one its
-- tag names, or a walk along a chain that used up its fuel.
use caprese.Common.{Bool, if◌then◌else◌}
use caprese.Kernel.State.{Kernel, Error}

pub data Stop : Type 0 where
  panic assertion null_access bad_member out_of_fuel : Stop

pub data Run (A : Type 0) : Type 0 where
  ok : A → Kernel → Run A
  stop : Stop → Run A

abbrev pub Cmd : Type 0 → Type 0
Cmd A = Kernel → Run A

abbrev pub pure : {A : Type 0} → A → Cmd A
pure a k = ok a k

module _ {A B : Type 0} where
  abbrev pub and_then : Run A → (A → Cmd B) → Run B
  and_then (ok a k) f = f a k
  and_then (stop s) f = stop s

  infixl 5 ◌>>=◌
  abbrev pub ◌>>=◌ : Cmd A → (A → Cmd B) → Cmd B
  (m >>= f) k = and_then (m k) f

infixl 5 ◌>>◌
abbrev pub ◌>>◌ : {B : Type 0} → Cmd (Unit {0}) → Cmd B → Cmd B
m >> n = m >>= λ _. n

abbrev pub halt : {A : Type 0} → Stop → Cmd A
halt s k = stop s

abbrev pub assert : Bool → Cmd (Unit {0})
assert b k = if b then ok tt k else stop Stop.assertion

abbrev pub set_errno : Error → Cmd (Unit {0})
set_errno e k = ok tt (record k { errno = e })

-- Sets errno and returns what the function returns on failure.
abbrev pub refuse : {A : Type 0} → Error → A → Cmd A
refuse e a k = ok a (record k { errno = e })

-- A statement under `if` with no `else`.
abbrev pub when : Bool → Cmd (Unit {0}) → Cmd (Unit {0})
when b m k = if b then m k else ok tt k

-- The call returns, and `P` holds of its value and of the new state.
abbrev pub Ensures : {A : Type 0} → (A → Kernel → Type 0) → Run A → Type 0
Ensures P (ok a k) = P a k
Ensures P (stop s) = ⊥

pub Ensures-mono :
    {A : Type 0} (P Q : A → Kernel → Type 0) (r : Run A)
    → Ensures P r
    → ((a : A) (k : Kernel) → P a k → Q a k)
    → Ensures Q r
Ensures-mono P Q (ok a k) h f = f a k h
Ensures-mono P Q (stop s) h f = h

pub Ensures-bind :
    {A B : Type 0} (P : A → Kernel → Type 0) (Q : B → Kernel → Type 0) (r : Run A) (f : A → Cmd B)
    → Ensures P r
    → ((a : A) (k : Kernel) → P a k → Ensures Q (f a k))
    → Ensures Q (and_then r f)
Ensures-bind P Q (ok a k) f h g = g a k h
Ensures-bind P Q (stop s) f h g = absurd h
