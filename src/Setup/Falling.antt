-- ===== src/Setup/Falling.antt =====
-- The second loop of insert_memory_region_caps: smaller and smaller blocks.
use caprese.Common.{
  ℕ, zero, suc, ◌+◌, ◌-◌, ◌*◌, ◌%◌, ◌^◌, ◌<◌, ◌≤◌, ◌≡◌, inl, inr, refl, Bool, true, false, leb, ltb,
  if◌then◌else◌, Bool-cases, List, [], ◌∷◌, arith,
}
use caprese.Kernel.{Kernel}
use caprese.Setup.BootInfo.{RootBootInfo}
use caprese.Setup.Blocks.{insert_block, falling_loop}
use caprese.Setup.Powers.{pow_suc, aligned_start, next_multiple, smaller_multiple}
use caprese.Setup.Tiling.{Block, Tiles, insert_all, past_insert}

module _ (root_task : ℕ) (device : Bool) where
  -- The second loop covers all that is left.
  abbrev pub Falls : ℕ → ℕ → ℕ → ℕ → Type 0
  Falls fuel finish start size_bit =
      (bs : List Block) × Tiles start bs finish
      × ((info : RootBootInfo) (k : Kernel)
          → falling_loop root_task device fuel finish
              (record { start = start; size_bit = size_bit; info = info }) k
            ≡ insert_all root_task device bs info k)

  falling_stop :
      (n finish start size_bit : ℕ) → start ≡ finish → Falls (suc n) finish start size_bit
  unfolding falling_loop insert_all
  falling_stop n finish start size_bit e =
      let done : ltb start finish ≡ false = ground arith in ([], e, λ info k. rw done)

  falling_take :
      (n finish start size_bit : ℕ)
      → start % 2 ^ size_bit ≡ 0
      → ltb start finish ≡ true
      → leb (2 ^ size_bit) (finish - start) ≡ true
      → Falls n finish (start + 2 ^ size_bit) size_bit
      → Falls (suc n) finish start size_bit
  unfolding falling_loop insert_all
  falling_take n finish start size_bit m more fits (bs, t, run) = (
    record { base = start; size_bit = size_bit } ∷ bs,
    (refl, m, t),
    λ info k.
        rw (more, fits)
          (past_insert root_task device _ _ run
            (insert_block root_task device start size_bit info k)),
  )

  falling_lower :
      (n finish start size_bit : ℕ)
      → ltb start finish ≡ true
      → leb (2 ^ size_bit) (finish - start) ≡ false
      → Falls n finish start ((size_bit + 65535) % 2 ^ 16)
      → Falls (suc n) finish start size_bit
  unfolding falling_loop insert_all
  falling_lower n finish start size_bit more large (bs, t, run) =
      (bs, t, λ info k. rw (more, large) (run info k))

  -- The rounds that are left are enough.
  abbrev Enough : ℕ → ℕ → ℕ → Type 0
  Enough n left size_bit = 2 * size_bit + (if ltb left (2 ^ size_bit) then 1 else 2) ≤ n

  abbrev Covers : ℕ → ℕ → ℕ → Type 0
  Covers n finish start =
      (q size_bit : ℕ)
      → start ≡ q * 2 ^ size_bit
      → size_bit < 2 ^ 16
      → finish - start < 2 ^ suc size_bit
      → Enough n (finish - start) size_bit
      → Falls n finish start size_bit

  next_lower :
      (n finish q start size_bit : ℕ)
      → Covers n finish start
      → start ≡ q * 2 ^ size_bit
      → size_bit < 2 ^ 16
      → start < finish
      → finish - start < 2 ^ size_bit
      → Enough (suc n) (finish - start) size_bit
      → Falls n finish start ((size_bit + 65535) % 2 ^ 16)
  next_lower n finish q start zero covers e small more left enough = absurd (omega arith)
  next_lower n finish q start (suc b) covers e small more left enough =
      let same : (suc b + 65535) % 2 ^ 16 ≡ b = omega arith in
      rw same (covers (2 * q) b (smaller_multiple q start b e) (omega arith) left (ground arith))

  pub falling_loop-Falls : (n finish start : ℕ) → start ≤ finish → Covers n finish start
  falling_loop-Falls zero finish start le q size_bit e small left enough = absurd (ground arith)
  falling_loop-Falls (suc n) finish start le q size_bit e small left enough =
      elim (Bool-cases (ltb start finish)) [
        | inl more ↦ elim (Bool-cases (leb (2 ^ size_bit) (finish - start))) [
          | inl fits ↦
              falling_take n finish start size_bit (aligned_start q start size_bit e) more fits (
                falling_loop-Falls n finish (start + 2 ^ size_bit) (ground arith) (q + 1) size_bit
                  (next_multiple q start size_bit e) small (omega arith)
                  (ground (arith, pow_suc size_bit)))
          | inr large ↦ falling_lower n finish start size_bit more large (
              next_lower n finish q start size_bit (falling_loop-Falls n finish start le) e small
                (ground arith) (ground arith) enough)
        ]
        | inr done ↦ falling_stop n finish start size_bit (ground arith)
      ]
