-- ===== src/Setup/Carving.antt =====
-- The capabilities that insert_memory_region_caps makes.
use caprese.Common.{
  ℕ, ◌+◌, ◌^◌, ◌<◌, ◌≤◌, ◌≡◌, ◌∙◌, refl, sym, ap, ◌/◌, ◌%◌, Bool, false, ◌||◌, ==-false, leb, ltb,
  ◌==◌, Bool-cases, inl, inr, if◌then◌else◌, List, [], ◌∷◌, ◌++◌, arith,
}
use caprese.Kernel.{Kernel, Cmd, and_then, pure, ◌>>=◌}
use caprese.Setup.Regions.{Region, subtract_region, inside, subtract_region-inside}
use caprese.Setup.BootInfo.{RootBootInfo}
use caprese.Setup.Blocks.{falling_loop, insert_blocks_of, insert_memory_region_caps}
use caprese.Setup.Powers.{pow_suc, of_mod}
use caprese.Setup.Tiling.{Block, Tiles, insert_all, past_insert, past_pure, insert_all-append}
use caprese.Setup.Rising.{Rises, rising_loop-Rises}
use caprese.Setup.Falling.{falling_loop-Falls}

-- In how many of the blocks an address lies.
abbrev pub covered : ℕ → List Block → ℕ
covered x [] = 0
covered x (b ∷ bs) =
    inside x (record { start = b.base; finish = b.base + 2 ^ b.size_bit }) + covered x bs

-- Each block lies at a multiple of its size.
abbrev pub Aligned : List Block → Type 0
Aligned [] = Unit
Aligned (b ∷ bs) = (b.base % 2 ^ b.size_bit ≡ 0) × Aligned bs

covered-append : (x : ℕ) (bs cs : List Block) → covered x (bs ++ cs) ≡ covered x bs + covered x cs
covered-append x [] cs = omega arith
covered-append x (b ∷ bs) cs = omega (arith, covered-append x bs cs)

Tiles-le : (a : ℕ) (bs : List Block) (b : ℕ) → Tiles a bs b → a ≤ b
Tiles-le a [] b t = ground arith
Tiles-le a (c ∷ cs) b t = omega (arith, Tiles-le (a + 2 ^ c.size_bit) cs b t.2)

covered-Tiles :
    (x a : ℕ) (bs : List Block) (b : ℕ)
    → Tiles a bs b
    → covered x bs ≡ inside x (record { start = a; finish = b })
covered-Tiles x a [] b t = ground arith
covered-Tiles x a (c ∷ cs) b t = rw t.0 (
    ground (
      arith,
      covered-Tiles x (a + 2 ^ c.size_bit) cs b t.2,
      Tiles-le (a + 2 ^ c.size_bit) cs b t.2,
    ))

Aligned-Tiles : (a : ℕ) (bs : List Block) (b : ℕ) → Tiles a bs b → Aligned bs
Aligned-Tiles a [] b t = tt
Aligned-Tiles a (c ∷ cs) b t = (t.1, Aligned-Tiles (a + 2 ^ c.size_bit) cs b t.2)

Aligned-append : (bs cs : List Block) → Aligned bs → Aligned cs → Aligned (bs ++ cs)
Aligned-append [] cs u v = v
Aligned-append (b ∷ bs) cs u v = (u.0, Aligned-append bs cs u.1 v)

Tiles-append :
    (a : ℕ) (bs : List Block) (b : ℕ) (cs : List Block) (c : ℕ)
    → Tiles a bs b
    → Tiles b cs c
    → Tiles a (bs ++ cs) c
Tiles-append a [] b cs c t u = rw t u
Tiles-append a (d ∷ ds) b cs c t u = (t.0, t.1, Tiles-append (a + 2 ^ d.size_bit) ds b cs c t.2 u)

-- A part of a difference that is not empty lies in the region.
part-inside :
    (a b : Region)
    → 0 < a.start
    → b.start ≤ b.finish
    → (((subtract_region a b).0.start < (subtract_region a b).0.finish)
        → (0 < (subtract_region a b).0.start) × ((subtract_region a b).0.finish ≤ a.finish))
      × (((subtract_region a b).1.start < (subtract_region a b).1.finish)
          → (0 < (subtract_region a b).1.start) × ((subtract_region a b).1.finish ≤ a.finish))
unfolding subtract_region
part-inside a b h w = ground arith

abbrev pub is_reserved : ℕ → List Region → Bool
is_reserved x [] = false
is_reserved x (r ∷ rs) = (inside x r == 1) || is_reserved x rs

abbrev pub AreRegions : List Region → Type 0
AreRegions [] = Unit
AreRegions (r ∷ rs) = (r.start ≤ r.finish) × AreRegions rs

both_parts :
    (x : ℕ) (r reserved : Region) (rs : List Region)
    → reserved.start ≤ reserved.finish
    → (if is_reserved x rs then 0 else inside x (subtract_region r reserved).0)
        + (if is_reserved x rs then 0 else inside x (subtract_region r reserved).1)
      ≡ (if is_reserved x (reserved ∷ rs) then 0 else inside x r)
both_parts x r reserved rs h = ground (arith, subtract_region-inside r reserved x h)

module _ (root_task : ℕ) (device : Bool) where
  -- `m` inserts the capabilities for a list of blocks, each at a multiple of its size, and `f` says in
  -- how many of them an address lies.
  abbrev pub Makes : (RootBootInfo → Cmd RootBootInfo) → (ℕ → ℕ) → Type 0
  Makes m f =
      (bs : List Block) × Aligned bs
      × ((x : ℕ) → covered x bs ≡ f x)
      × ((info : RootBootInfo) (k : Kernel) → m info k ≡ insert_all root_task device bs info k)

  Makes-pure : (f : ℕ → ℕ) → ((x : ℕ) → f x ≡ 0) → Makes pure f
  unfolding insert_all
  Makes-pure f h = ([], tt, λ x. sym (h x), λ info k. refl)

  Makes-bind :
      (m n : RootBootInfo → Cmd RootBootInfo) (f g : ℕ → ℕ)
      → Makes m f
      → Makes n g
      → Makes (λ info. m info >>= n) (λ x. f x + g x)
  Makes-bind m n f g (bs, u, c, run) (cs, v, d, run') = (
    bs ++ cs,
    Aligned-append bs cs u v,
    λ x. covered-append x bs cs ∙ omega (arith, c x, d x),
    λ info k.
        ap (λ r. and_then r n) (run info k)
        ∙ past_insert root_task device n (insert_all root_task device cs) run'
            (insert_all root_task device bs info k)
        ∙ sym (insert_all-append root_task device bs cs info k),
  )

  after_rise :
      (r : Region)
      → Rises root_task device 65 r.finish r.start 0
      → Makes (insert_blocks_of root_task device r) (λ x. inside x r)
  unfolding insert_blocks_of
  after_rise r (bs, a, b, t, m, below, left, few, run) =
      let (cs, u, run') =
        falling_loop-Falls root_task device 130 r.finish a below (a / 2 ^ b) b (of_mod a b m)
          (omega arith) (omega (arith, pow_suc b)) (ground arith) in
      let whole = Tiles-append r.start bs a cs r.finish t u in
      (
        bs ++ cs,
        Aligned-Tiles r.start (bs ++ cs) r.finish whole,
        λ x. covered-Tiles x r.start (bs ++ cs) r.finish whole,
        λ info k.
            ap (λ q. and_then q (falling_loop root_task device 130 r.finish)) (run info k)
            ∙ past_pure _ _ (insert_all root_task device cs) run'
                (insert_all root_task device bs info k)
            ∙ sym (insert_all-append root_task device bs cs info k),
      )

  insert_blocks_of-Makes :
      (r : Region)
      → 0 < r.start
      → r.start ≤ r.finish
      → r.finish ≤ 2 ^ 64
      → Makes (insert_blocks_of root_task device r) (λ x. inside x r)
  insert_blocks_of-Makes r pos le small = after_rise r (
      rising_loop-Rises root_task device 64 r.finish r.start r.start 0 (omega arith) pos le
        (omega arith))

  insert_part :
      (p : Region) (rs : List Region) (f : ℕ → ℕ)
      → ((x : ℕ) → f x ≡ (if is_reserved x rs then 0 else inside x p))
      → (p.start < p.finish
          → Makes
              (insert_memory_region_caps root_task device rs p)
              (λ x. if is_reserved x rs then 0 else inside x p))
      → Makes
          (λ info.
            if ltb p.start p.finish
            then insert_memory_region_caps root_task device rs p info
            else pure info)
          f
  insert_part p rs f e made = elim (Bool-cases (ltb p.start p.finish)) [
    | inl some ↦
        let (bs, u, c, run) = made (ground arith) in
        (bs, u, λ x. c x ∙ sym (e x), λ info k. rw some (run info k))
    | inr none ↦
        let (bs, u, c, run) = Makes-pure f (λ x. e x ∙ ground arith) in
        (bs, u, c, λ info k. rw none (run info k))
  ]

  -- For a region below 2^64 that starts above 0 and reserved regions that do not end before they
  -- start, `insert_memory_region_caps` ends, and does just what inserting the capabilities for a
  -- list of blocks does: the size of each block is a power of two and its address a multiple of
  -- its size, an address of the region that lies in no reserved region is in exactly one of the
  -- blocks, and any other address is in none.
  pub insert_memory_region_caps-Makes :
      (rs : List Region) (r : Region)
      → AreRegions rs
      → 0 < r.start
      → r.start ≤ r.finish
      → r.finish ≤ 2 ^ 64
      → Makes
          (insert_memory_region_caps root_task device rs r)
          (λ x. if is_reserved x rs then 0 else inside x r)
  unfolding insert_memory_region_caps
  insert_memory_region_caps-Makes [] r w pos le small = elim (Bool-cases (leb r.finish r.start)) [
    | inl empty ↦
        let (bs, u, c, run) = Makes-pure _ (λ x. ground arith) in
        (bs, u, c, λ info k. rw empty (run info k))
    | inr more ↦
        let (bs, u, c, run) = insert_blocks_of-Makes r pos le small in
        (bs, u, c, λ info k. rw (more, ==-false r.start 0 (omega arith)) (run info k))
  ]
  insert_memory_region_caps-Makes (reserved ∷ rs) r w pos le small =
      elim (Bool-cases (leb r.finish r.start)) [
        | inl empty ↦
            let (bs, u, c, run) = Makes-pure _ (λ x. ground arith) in
            (bs, u, c, λ info k. rw empty (run info k))
        | inr more ↦
            let parts = subtract_region r reserved in
            let (ok0, ok1) = part-inside r reserved pos w.0 in
            let (bs, u, c, run) =
              Makes-bind _ _ _ _
                (insert_part parts.0 rs (λ x. if is_reserved x rs then 0 else inside x parts.0)
                  (λ x. refl)
                  (λ h.
                    insert_memory_region_caps-Makes rs parts.0 w.1 (ok0 h).0 (ground arith)
                      (ground (arith, (ok0 h).1))))
                (insert_part parts.1 rs (λ x. if is_reserved x rs then 0 else inside x parts.1)
                  (λ x. refl)
                  (λ h.
                    insert_memory_region_caps-Makes rs parts.1 w.1 (ok1 h).0 (ground arith)
                      (ground (arith, (ok1 h).1)))) in
            (
              bs,
              u,
              λ x. c x ∙ both_parts x r reserved rs w.0,
              λ info k. rw (more, ==-false r.start 0 (omega arith)) (run info k),
            )
      ]
