-- ===== src/Boot.antt =====
-- src/arch/rv64/boot/start.cpp: the table that the boot loader makes before it jumps to the kernel. The
-- registers that it sets and its output are left out.
use caprese.Common.{
  ℕ, zero, suc, ◌+◌, ◌-◌, ◌*◌, ◌/◌, ◌%◌, ◌^◌, ◌<◌, ◌≤◌, ◌≡◌, true, false, ◌&&◌, leb, ltb,
  if◌then◌else◌, arith, update, Bool-cases, inl, inr, ap, refl, ◌⊎◌, ◌∙◌,
}
use caprese.Config.{mapped_space_base, max_physical_address, u64}
use caprese.Kernel.{Pte}

-- `PAGE_SIZE_BIT` and `PAGE_SIZE` of the boot loader
abbrev pub boot_page_size_bit : ℕ
boot_page_size_bit = 9 + 9 + 12

abbrev pub boot_page_size : ℕ
boot_page_size = 2 ^ boot_page_size_bit

abbrev pub boot_index : ℕ → ℕ
boot_index virt = virt / 2 ^ boot_page_size_bit % 512

abbrev pub boot_entry : ℕ → Pte
boot_entry phys = record {
  v = true;
  r = true;
  w = true;
  x = true;
  u = false;
  g = true;
  a = true;
  d = true;
  next_page_number = phys / 2 ^ 12 % 2 ^ 44;
}

-- The loop from `phys` on; the fuel is one more than the pages that are left.
unfoldable pub map_mapped_space : ℕ → ℕ → (ℕ → Pte) → ℕ → Pte
map_mapped_space zero phys table = table
map_mapped_space (suc fuel) phys table =
    let table' = update table (boot_index (u64 (mapped_space_base + phys))) (boot_entry phys) in
    let rest = map_mapped_space fuel (phys + boot_page_size) table' in
    if ltb phys max_physical_address then rest else table

next_page : (j : ℕ) → j * 2 ^ 30 + boot_page_size ≡ suc j * 2 ^ 30
next_page j = omega arith

space_index : (j : ℕ) → j < 64 → boot_index (u64 (mapped_space_base + j * 2 ^ 30)) ≡ 128 + j
space_index j h = omega arith

loop_step :
    (n j : ℕ) (table : ℕ → Pte)
    → j < 64
    → map_mapped_space (suc n) (j * 2 ^ 30) table
      ≡ map_mapped_space n (suc j * 2 ^ 30) (update table (128 + j) (boot_entry (j * 2 ^ 30)))
unfolding map_mapped_space
loop_step n j table h =
    let more : ltb (j * 2 ^ 30) max_physical_address ≡ true = ground arith in
    rw (more, space_index j h, next_page j) refl

loop_stop :
    (n j : ℕ) (table : ℕ → Pte) → 64 ≤ j → map_mapped_space (suc n) (j * 2 ^ 30) table ≡ table
unfolding map_mapped_space
loop_stop n j table h =
    let done : ltb (j * 2 ^ 30) max_physical_address ≡ false = ground arith in rw done refl

loop_entry :
    (n j : ℕ) (table : ℕ → Pte) (a : ℕ)
    → j + n ≡ 65
    → map_mapped_space n (j * 2 ^ 30) table a
      ≡ (if leb (128 + j) a && ltb a 192 then boot_entry ((a - 128) * 2 ^ 30) else table a)
unfolding map_mapped_space update
loop_entry zero j table a e = ground arith
loop_entry (suc n) j table a e = elim (Bool-cases (ltb j 64)) [
  | inl more ↦
      ap (λ t. t a) (loop_step n j table (ground arith))
      ∙ loop_entry n (suc j) (update table (128 + j) (boot_entry (j * 2 ^ 30))) a (omega arith)
      ∙ ground arith
  | inr done ↦ ap (λ t. t a) (loop_stop n j table (ground arith)) ∙ ground arith
]

entry_at :
    (table : ℕ → Pte) (p : ℕ)
    → p < max_physical_address
    → map_mapped_space 65 0 table (boot_index (u64 (mapped_space_base + p)))
      ≡ boot_entry (p / 2 ^ 30 * 2 ^ 30)
entry_at table p h =
    let q : boot_index (u64 (mapped_space_base + p)) ≡ 128 + p / 2 ^ 30 = omega arith in
    rw q (loop_entry 65 0 table (128 + p / 2 ^ 30) refl ∙ ground arith)

-- The loop of the boot loader ends, whatever the table held, and maps each physical address
-- below 2^36 at its place in the kernel's space: the entry there is enabled, leads to a page
-- that the kernel and no user code may read, write and execute, and the page's address and the
-- offset make up the physical address. The entries outside that space are as they were.
pub map_mapped_space-covers :
    (table : ℕ → Pte)
    → ((p : ℕ)
        → p < max_physical_address
        → let e = map_mapped_space 65 0 table (boot_index (u64 (mapped_space_base + p))) in
          (e.v ≡ true)
          × (e.r ≡ true)
          × (e.w ≡ true)
          × (e.x ≡ true)
          × (e.u ≡ false)
          × (e.next_page_number * 2 ^ 12 + p % 2 ^ 30 ≡ p))
      × ((a : ℕ) → a < 128 ⊎ 192 ≤ a → map_mapped_space 65 0 table a ≡ table a)
map_mapped_space-covers table = (
  λ p h. rw (entry_at table p h) (refl, refl, refl, refl, refl, omega arith),
  λ a h. loop_entry 65 0 table a refl ∙ ground arith,
)
