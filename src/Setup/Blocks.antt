-- ===== src/Setup/Blocks.antt =====
-- src/arch/rv64/kernel/setup.cpp: insert_memory_region_caps. The recursion on the index of the reserved
-- region is one on the reserved regions from that index on; the rounds of the two loops are counted.
use caprese.Common.{
  ℕ, zero, suc, ◌+◌, ◌-◌, ◌/◌, ◌%◌, ◌^◌, Bool, not, leb, ltb, ◌==◌, if◌then◌else◌, List, [], ◌∷◌,
  update,
}
use caprese.Cap.Make.{make_memory_cap}
use caprese.Kernel.{Stop, Cmd, halt, pure, ◌>>=◌}
use caprese.Setup.Regions.{Region, subtract_region}
use caprese.Setup.BootInfo.{RootBootInfo, insert_or_panic}

-- The state of the loops.
pub record Rest : Type 0 where
  pub start : ℕ
  pub size_bit : ℕ
  pub info : RootBootInfo

module _ (root_task : ℕ) (device : Bool) where
  -- The capability for the 2^size_bit bytes from `base` on, and its descriptor in the boot info.
  unfoldable pub insert_block : ℕ → ℕ → RootBootInfo → Cmd RootBootInfo
  insert_block base size_bit info = do
    cap ← make_memory_cap device (2 ^ size_bit) base
    index ← insert_or_panic root_task cap
    pure (record info {
      caps = update info.caps (info.mem_caps_offset + info.num_mem_caps) index;
      num_mem_caps = info.num_mem_caps + 1;
    })

  -- The loop that takes larger and larger blocks, until one does not fit.
  unfoldable pub rising_loop : ℕ → ℕ → Rest → Cmd Rest
  rising_loop zero finish r = halt Stop.out_of_fuel
  rising_loop (suc fuel) finish r =
      let skip = rising_loop fuel finish (record r { size_bit = suc r.size_bit }) in
      let take : Cmd Rest = insert_block r.start r.size_bit r.info >>= λ info.
      rising_loop fuel finish
        (record { start = r.start + 2 ^ r.size_bit; size_bit = suc r.size_bit; info = info }) in
      if not (ltb r.start finish)
      then pure r
      else if not (r.start / 2 ^ r.size_bit % 2 == 1)
      then skip
      else if leb (2 ^ r.size_bit) (finish - r.start)
      then take
      else pure r

  -- The loop that takes smaller and smaller blocks; `--size_bit` is one on uint16_t.
  unfoldable pub falling_loop : ℕ → ℕ → Rest → Cmd RootBootInfo
  falling_loop zero finish r = halt Stop.out_of_fuel
  falling_loop (suc fuel) finish r =
      let lower =
        falling_loop fuel finish (record r { size_bit = (r.size_bit + 65535) % 2 ^ 16 }) in
      let take : Cmd RootBootInfo = insert_block r.start r.size_bit r.info >>= λ info.
      falling_loop fuel finish (record r { start = r.start + 2 ^ r.size_bit; info = info }) in
      if not (ltb r.start finish)
      then pure r.info
      else if leb (2 ^ r.size_bit) (finish - r.start)
      then take
      else lower

  -- 65 and 130 rounds are enough for a region of 64-bit addresses.
  unfoldable pub insert_blocks_of : Region → RootBootInfo → Cmd RootBootInfo
  insert_blocks_of r info = do
    rest ← rising_loop 65 r.finish (record { start = r.start; size_bit = 0; info = info })
    falling_loop 130 r.finish rest

  unfoldable pub insert_memory_region_caps : List Region → Region → RootBootInfo → Cmd RootBootInfo
  insert_memory_region_caps [] r info =
      if leb r.finish r.start
      then pure info
      else if r.start == 0
      then pure info
      else insert_blocks_of r info
  insert_memory_region_caps (reserved ∷ rs) r info =
      let parts = subtract_region r reserved in
      let first = insert_memory_region_caps rs parts.0 in
      let second = insert_memory_region_caps rs parts.1 in
      if leb r.finish r.start then pure info else if r.start == 0 then pure info else do
        info' ← (if ltb parts.0.start parts.0.finish then first info else pure info)
        if ltb parts.1.start parts.1.finish then second info' else pure info'
