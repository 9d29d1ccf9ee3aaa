-- ===== src/Setup/Rising.antt =====
-- The first loop of insert_memory_region_caps: larger and larger blocks.
use caprese.Common.{
  ℕ, zero, suc, ◌+◌, ◌-◌, ◌*◌, ◌/◌, ◌%◌, ◌^◌, ◌<◌, ◌≤◌, ◌≡◌, ◌⊎◌, inl, inr, refl, subst, Bool, true,
  false, leb, ltb, ◌==◌, Bool-cases, List, [], ◌∷◌, arith,
}
use caprese.Kernel.{Kernel, pure, and_then}
use caprese.Setup.BootInfo.{RootBootInfo}
use caprese.Setup.Blocks.{insert_block, rising_loop}
use caprese.Setup.Powers.{
  pow_pos, pow_suc, le_multiple, move_factor, aligned_start, half_even, next_even, next_odd,
}
use caprese.Setup.Tiling.{Block, Tiles, insert_all, past_take}

module _ (root_task : ℕ) (device : Bool) where
  -- What the first loop does: blocks up to `a`, which is a multiple of 2^b, with less than 2^b bytes left.
  abbrev pub Rises : ℕ → ℕ → ℕ → ℕ → Type 0
  Rises fuel finish start size_bit =
      (bs : List Block) × (a : ℕ) × (b : ℕ) × Tiles start bs a
      × (a % 2 ^ b ≡ 0)
      × (a ≤ finish)
      × (finish - a < 2 ^ b)
      × (b < size_bit + fuel)
      × ((info : RootBootInfo) (k : Kernel)
          → rising_loop root_task device fuel finish
              (record { start = start; size_bit = size_bit; info = info }) k
            ≡ and_then (insert_all root_task device bs info k)
                (λ i. pure (record { start = a; size_bit = b; info = i })))

  rising_stop :
      (n finish start size_bit : ℕ)
      → start % 2 ^ size_bit ≡ 0
      → start ≤ finish
      → finish - start < 2 ^ size_bit
      → (ltb start finish ≡ false)
        ⊎ ((ltb start finish ≡ true)
            × (start / 2 ^ size_bit % 2 == 1 ≡ true)
            × (leb (2 ^ size_bit) (finish - start) ≡ false))
      → Rises (suc n) finish start size_bit
  unfolding rising_loop insert_all
  rising_stop n finish start size_bit m le lt (inl done) =
      ([], start, size_bit, refl, m, le, lt, omega arith, λ info k. rw done)
  rising_stop n finish start size_bit m le lt (inr (more, odd, large)) =
      ([], start, size_bit, refl, m, le, lt, omega arith, λ info k. rw (more, odd, large))

  rising_skip :
      (n finish start size_bit : ℕ)
      → ltb start finish ≡ true
      → (start / 2 ^ size_bit % 2 == 1) ≡ false
      → Rises n finish start (suc size_bit)
      → Rises (suc n) finish start size_bit
  unfolding rising_loop insert_all
  rising_skip n finish start size_bit more even (bs, a, b, t, m, le, lt, few, run) =
      (bs, a, b, t, m, le, lt, omega arith, λ info k. rw (more, even) (run info k))

  rising_take :
      (n finish start size_bit : ℕ)
      → start % 2 ^ size_bit ≡ 0
      → ltb start finish ≡ true
      → (start / 2 ^ size_bit % 2 == 1) ≡ true
      → leb (2 ^ size_bit) (finish - start) ≡ true
      → Rises n finish (start + 2 ^ size_bit) (suc size_bit)
      → Rises (suc n) finish start size_bit
  unfolding rising_loop insert_all
  rising_take n finish start size_bit m0 more odd fits (bs, a, b, t, m, le, lt, few, run) = (
    record { base = start; size_bit = size_bit } ∷ bs,
    a,
    b,
    (refl, m0, t),
    m,
    le,
    lt,
    omega arith,
    λ info k.
        rw (more, odd, fits)
          (past_take root_task device bs (λ i. pure (record { start = a; size_bit = b; info = i }))
            _ run (insert_block root_task device start size_bit info k)),
  )

  pub rising_loop-Rises :
      (n finish q start size_bit : ℕ)
      → start ≡ q * 2 ^ size_bit
      → 0 < q
      → start ≤ finish
      → finish ≤ 2 ^ size_bit * 2 ^ n
      → Rises (suc n) finish start size_bit
  rising_loop-Rises zero finish q start size_bit e pos le bound =
      let least : 2 ^ size_bit ≤ start = rw e (le_multiple q (2 ^ size_bit) pos) in
      rising_stop 0 finish start size_bit (aligned_start q start size_bit e) le
        (ground (arith, pow_pos size_bit)) (inl (ground arith))
  rising_loop-Rises (suc n) finish q start size_bit e pos le bound =
      elim (Bool-cases (ltb start finish)) [
        | inl more ↦ elim (Bool-cases (start / 2 ^ size_bit % 2 == 1)) [
          | inl odd ↦ elim (Bool-cases (leb (2 ^ size_bit) (finish - start))) [
            | inl fits ↦ rising_take (suc n) finish start size_bit aligned more odd fits (
                rising_loop-Rises n finish (q / 2 + 1) (start + 2 ^ size_bit) (suc size_bit)
                  (next_odd q start size_bit e odd) (omega arith) (ground arith) bound')
            | inr large ↦
                rising_stop (suc n) finish start size_bit aligned le (ground arith)
                  (inr (more, odd, large))
          ]
          | inr even ↦ rising_skip (suc n) finish start size_bit more even (
              rising_loop-Rises n finish (q / 2) start (suc size_bit)
                (next_even q start size_bit e even)
                (omega (arith, half_even q start size_bit e even)) le bound')
        ]
        | inr done ↦
            rising_stop (suc n) finish start size_bit aligned le (ground (arith, pow_pos size_bit))
              (inl done)
      ]
    where
      aligned : start % 2 ^ size_bit ≡ 0
      aligned = aligned_start q start size_bit e

      bound' : finish ≤ 2 ^ suc size_bit * 2 ^ n
      bound' =
          subst (λ t. finish ≤ t)
            (rw (pow_suc size_bit, pow_suc n) (move_factor (2 ^ size_bit) (2 ^ n))) bound
