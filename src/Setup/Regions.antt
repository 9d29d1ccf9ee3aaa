-- ===== src/Setup/Regions.antt =====
-- src/arch/rv64/kernel/setup.cpp: regions of physical addresses and their difference.
use caprese.Common.{ℕ, ◌+◌, ◌≤◌, ◌≡◌, ◌&&◌, leb, ltb, ◌==◌, if◌then◌else◌, arith}

-- From `start` up to but not including `finish`, the source's `end`.
pub record Region : Type 0 where
  pub start : ℕ
  pub finish : ℕ

abbrev pub no_region : Region
no_region = record { start = 0; finish = 0 }

-- a - b
unfoldable pub subtract_region : Region → Region → Region × Region
subtract_region a b =
    if ltb a.start b.start
    then if leb a.finish b.start
      then (a, no_region)
      else if leb a.finish b.finish
      then (record { start = a.start; finish = b.start }, no_region)
      else (
        record { start = a.start; finish = b.start },
        record { start = b.finish; finish = a.finish },
      )
    else if ltb b.finish a.finish
    then if leb b.finish a.start
      then (a, no_region)
      else (record { start = b.finish; finish = a.finish }, no_region)
    else (no_region, no_region)

-- How often an address lies in a region: 0 or 1.
abbrev pub inside : ℕ → Region → ℕ
inside x r = if leb r.start x && ltb x r.finish then 1 else 0

pub subtract_region-inside :
    (a b : Region) (x : ℕ)
    → b.start ≤ b.finish
    → inside x (subtract_region a b).0 + inside x (subtract_region a b).1
      ≡ (if inside x b == 1 then 0 else inside x a)
unfolding subtract_region
subtract_region-inside a b x h = ground arith
