-- ===== src/CapSlot/Fields.antt =====
-- The fields of the slots after a link or a capability has been written.
use caprese.Common.{ℕ, ◌≡◌, arith, ◌==◌, if◌then◌else◌, update}
use caprese.Cap.{Capability}
use caprese.Kernel.{CapSlot, with_cap, with_prev, with_next}

module _ (p q : ℕ) (f : ℕ → CapSlot) (a : ℕ) where
  pub cap-with_prev : (with_prev p q f a).cap ≡ (f a).cap
  unfolding with_prev update
  cap-with_prev = ground arith

  pub prev-with_prev : (with_prev p q f a).prev ≡ (if a == p then q else (f a).prev)
  unfolding with_prev update
  prev-with_prev = ground arith

  pub next-with_prev : (with_prev p q f a).next ≡ (f a).next
  unfolding with_prev update
  next-with_prev = ground arith

  pub cap-with_next : (with_next p q f a).cap ≡ (f a).cap
  unfolding with_next update
  cap-with_next = ground arith

  pub prev-with_next : (with_next p q f a).prev ≡ (f a).prev
  unfolding with_next update
  prev-with_next = ground arith

  pub next-with_next : (with_next p q f a).next ≡ (if a == p then q else (f a).next)
  unfolding with_next update
  next-with_next = ground arith

module _ (p : ℕ) (c : Capability) (f : ℕ → CapSlot) (a : ℕ) where
  pub cap-with_cap : (with_cap p c f a).cap ≡ (if a == p then c else (f a).cap)
  unfolding with_cap update
  cap-with_cap = ground arith

  pub prev-with_cap : (with_cap p c f a).prev ≡ (f a).prev
  unfolding with_cap update
  prev-with_cap = ground arith

  pub next-with_cap : (with_cap p c f a).next ≡ (f a).next
  unfolding with_cap update
  next-with_cap = ground arith

pub ruleset slot_fields = (
  cap-with_prev, prev-with_prev, next-with_prev, cap-with_next, prev-with_next, next-with_next,
  cap-with_cap, prev-with_cap, next-with_cap,
)
