-- ===== src/Creation/PhysicalMap.antt =====
-- The kernel's mapping of the physical memory in the root table of a new task.
use caprese.Common.{
  ℕ, zero, suc, ◌+◌, ◌-◌, ◌*◌, ◌/◌, ◌%◌, ◌^◌, ◌≤◌, ◌<◌, ◌≡◌, ◌≢◌, refl, ap, ◌∙◌, true, false, ◌&&◌,
  leb, ltb, ◌==◌, if◌then◌else◌, arith, update, ==-false,
}
use caprese.Config.{max_physical_address, max_page_table_level, mapped_space_base, u64}
use caprese.Kernel.{Kernel, Pte, Ensures, ok, get_entry, put_entry}
use caprese.Page.{
  as_map, get_page_size, get_page_table_index, get_next_page, enable, set_flags, set_next_page,
  is_enabled, is_user, is_table, walk,
}
use caprese.Creation.Start.{kernel_flags, map_memory, mapped_pages}

-- The entry for the gigabyte `j`, written over `e`.
giga_entry : ℕ → Pte → Pte
unfolding enable set_next_page set_flags as_map
giga_entry j e = enable (set_next_page (as_map (j * 2 ^ 30)) (set_flags kernel_flags e))

with_giga : ℕ → ℕ → Kernel → Kernel
unfolding giga_entry
with_giga root j k = record k {
  tables =
      update k.tables root
        (update (k.tables root) (128 + j) (giga_entry j (k.tables root (128 + j))));
}

giga_index :
    (j : ℕ)
    → j < 64
    → (u64 (mapped_space_base + j * 2 ^ 30) < 2 ^ 38)
      × (get_page_table_index (u64 (mapped_space_base + j * 2 ^ 30)) 2 ≡ 128 + j)
unfolding get_page_table_index
giga_index j h = (omega arith, omega arith)

giga_walk :
    (j : ℕ) (k : Kernel)
    → j < 64
    → walk (u64 (mapped_space_base + j * 2 ^ 30)) max_page_table_level k ≡ ok (128 + j) k
unfolding walk
giga_walk j k h = ground (arith, giga_index j h)

map_step :
    (root j n : ℕ) (k : Kernel)
    → root ≢ 0
    → walk (u64 (mapped_space_base + j * 2 ^ 30)) max_page_table_level k ≡ ok (128 + j) k
    → (k.tables root (128 + j)).v ≡ false
    → map_memory root (j * 2 ^ 30) (suc n) k
      ≡ map_memory root (j * 2 ^ 30 + get_page_size max_page_table_level) n (with_giga root j k)
unfolding map_memory get_entry put_entry with_giga giga_entry
map_step root j n k ne w off = rw (w, ==-false root 0 ne, off) (rw (==-false root 0 ne))

map_done : (root phys : ℕ) (k : Kernel) → map_memory root phys zero k ≡ ok tt k
unfolding map_memory
map_done root phys k = refl

next_giga : (j : ℕ) → j * 2 ^ 30 + get_page_size max_page_table_level ≡ suc j * 2 ^ 30
unfolding get_page_size
next_giga j = omega arith

mapped : ℕ → ℕ → ℕ → Kernel → Kernel
mapped zero j root k = k
mapped (suc n) j root k = mapped n (suc j) root (with_giga root j k)

with_giga_entry :
    (root j : ℕ) (k : Kernel) (a : ℕ)
    → (with_giga root j k).tables root a
      ≡ (if a == 128 + j then giga_entry (a - 128) (k.tables root a) else k.tables root a)
unfolding with_giga update
with_giga_entry root j k a = ground arith

map_memory_run :
    (n j root : ℕ) (k : Kernel)
    → root ≢ 0
    → j + n ≤ 64
    → ((a : ℕ) → 128 + j ≤ a → a < 128 + j + n → (k.tables root a).v ≡ false)
    → map_memory root (j * 2 ^ 30) n k ≡ ok tt (mapped n j root k)
unfolding mapped
map_memory_run zero j root k ne le off = map_done root (j * 2 ^ 30) k
map_memory_run (suc n) j root k ne le off =
    map_step root j n k ne (giga_walk j k (omega (arith, le)))
      (off (128 + j) (omega arith) (omega arith))
    ∙ rw (next_giga j) (
        map_memory_run n (suc j) root (with_giga root j k) ne (omega (arith, le)) (λ a low high.
          ap (λ e. e.v) (with_giga_entry root j k a)
          ∙ rw (==-false a (128 + j) (λ e. omega (arith, low, e)))
              (off a (omega (arith, low)) (omega (arith, high)))))

mapped_entry :
    (n j root : ℕ) (k : Kernel) (a : ℕ)
    → (mapped n j root k).tables root a ≡ (
        if leb (128 + j) a && ltb a (128 + j + n)
        then giga_entry (a - 128) (k.tables root a)
        else k.tables root a)
unfolding mapped
mapped_entry zero j root k a = ground arith
mapped_entry (suc n) j root k a = step (mapped_entry n (suc j) root (with_giga root j k) a)
  where
    step :
        (mapped n (suc j) root (with_giga root j k)).tables root a ≡ (
          if leb (128 + suc j) a && ltb a (128 + suc j + n)
          then giga_entry (a - 128) ((with_giga root j k).tables root a)
          else (with_giga root j k).tables root a)
        → (mapped n (suc j) root (with_giga root j k)).tables root a ≡ (
            if leb (128 + j) a && ltb a (128 + j + suc n)
            then giga_entry (a - 128) (k.tables root a)
            else k.tables root a)
    step ih = ground (arith, ih, with_giga_entry root j k a)

-- What the entry for a gigabyte says.
giga_entry_says :
    (j p : ℕ) (e : Pte)
    → p < max_physical_address
    → j ≡ p / 2 ^ 30
    → (is_enabled (giga_entry j e) ≡ true)
      × (is_table (giga_entry j e) ≡ false)
      × (is_user (giga_entry j e) ≡ false)
      × (get_next_page (giga_entry j e) + p % 2 ^ 30 ≡ as_map p)
unfolding giga_entry enable set_flags set_next_page is_table is_user get_next_page as_map
giga_entry_says j p e small at = (refl, refl, refl, rw at (omega (arith, small)))

map_index :
    (p : ℕ)
    → p < max_physical_address
    → get_page_table_index (as_map p) max_page_table_level ≡ 128 + p / 2 ^ 30
unfolding get_page_table_index as_map
map_index p small = omega (arith, small)

covered_entry :
    (j root : ℕ) (k : Kernel)
    → j < 64
    → (mapped 64 0 root k).tables root (128 + j) ≡ giga_entry j (k.tables root (128 + j))
covered_entry j root k h = mapped_entry 64 0 root k (128 + j) ∙ inside
  where
    inside :
        (if leb 128 (128 + j) && ltb (128 + j) 192
          then giga_entry (128 + j - 128) (k.tables root (128 + j))
          else k.tables root (128 + j))
        ≡ giga_entry j (k.tables root (128 + j))
    inside = ground (arith, h)

-- Of a root table whose entries 128 to 191 are disabled, the loop that `init_task` and
-- `init_idle_task` run ends and maps each physical address below 2^36 at its place in the
-- kernel's mapping: the entry there is enabled, leads to a page and not to a table, is not for
-- user code, and its page and the offset make up the mapped address.
pub map_memory-covers :
    (root : ℕ) (k : Kernel) (p : ℕ)
    → root ≢ 0
    → ((a : ℕ) → 128 ≤ a → a < 192 → (k.tables root a).v ≡ false)
    → p < max_physical_address
    → Ensures
        (λ _ k'.
          let e = k'.tables root (get_page_table_index (as_map p) max_page_table_level) in
          (is_enabled e ≡ true)
          × (is_table e ≡ false)
          × (is_user e ≡ false)
          × (get_next_page e + p % 2 ^ 30 ≡ as_map p))
        (map_memory root 0 mapped_pages k)
unfolding get_page_size
map_memory-covers root k p ne off small =
    rw
      (
        map_memory_run 64 0 root k ne (omega arith) off,
        map_index p small,
        covered_entry (p / 2 ^ 30) root k (omega (arith, small)),
      )
      (giga_entry_says (p / 2 ^ 30) p (k.tables root (128 + p / 2 ^ 30)) small refl)
