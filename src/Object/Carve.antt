-- ===== src/Object/Carve.antt =====
-- Where a new memory object lies.
use caprese.Common.{
  ℕ, suc, ◌+◌, ◌-◌, ◌%◌, ◌≤◌, ◌<◌, ◌≡◌, ◌≢◌, refl, ◌==◌, arith, ◌∙◌, ==-false, ==-refl, sym,
  if◌then◌else◌,
}
use native.Mathlib.Nat.{le_trans, mod-eq_of_lt}
use caprese.Config.{u64, sub64, max_physical_address}
use caprese.Align.Rounding.{round_up_least}
use caprese.Cap.{Capability, MemoryCap}
use caprese.Cap.Make.{make_memory_cap, phys_field}
use caprese.Kernel.{Kernel, CapSlot, Ensures, ok, and_then, pure, get_slot, set_cap, with_cap}
use caprese.CapSlot.Links.{HasOwner, inserted_after, cap-inserted_after, insert_after_ok}
use caprese.CapSlot.Fields.{slot_fields}
use caprese.CapSlot.{insert_after}
use caprese.Object.Memory.{object_base, remaining, create_memory_object}

-- A memory capability whose region lies in physical memory, with its used part inside.
pub record IsRegion (m : MemoryCap) : Type 0 where
  pub in_memory : m.phys_addr + m.size < max_physical_address
  pub used_inside : m.used_size ≤ m.size

-- The slots that `create_memory_object` is called with.
pub record CanCreate (k : Kernel) (dst src : ℕ) (m : MemoryCap) : Type 0 where
  pub src_set : src ≢ 0
  pub dst_set : dst ≢ 0
  pub apart : src ≢ dst
  pub src_cap : (k.slots src).cap ≡ Capability.memory m
  pub dst_cap : (k.slots dst).cap ≡ Capability.null
  pub no_prev : (k.slots dst).prev ≡ 0
  pub no_next : (k.slots dst).next ≡ 0
  pub owner : HasOwner k dst

-- The new object, and the memory that it is taken from afterwards.
abbrev pub new_region : MemoryCap → ℕ → ℕ → MemoryCap
new_region m size base = record {
  device = m.device;
  size = phys_field size;
  phys_addr = phys_field base;
  used_size = 0;
}

abbrev pub rest_region : MemoryCap → ℕ → ℕ → MemoryCap
rest_region m size base = record m {
  used_size = phys_field (sub64 (u64 (base + size)) m.phys_addr);
}

-- Where the next object begins, as long as no sum wraps: behind the used part, at a multiple of the
-- alignment, and at most one alignment further.
pub object_base_bounds :
    (m : MemoryCap) (a : ℕ)
    → IsRegion m
    → 0 < a
    → a ≤ max_physical_address
    → (m.phys_addr + m.used_size ≤ object_base m a)
      × (object_base m a % a ≡ 0)
      × (object_base m a < m.phys_addr + m.used_size + a)
unfolding object_base
object_base_bounds m a r pos small =
    ground (arith, round_up_least (m.phys_addr + m.used_size) a pos)

remaining_inside :
    (m : MemoryCap) (b : ℕ)
    → IsRegion m
    → b ≤ m.phys_addr + m.size
    → remaining m b ≡ m.phys_addr + m.size - b
unfolding remaining
remaining_inside m b r h = ground arith

remaining_outside :
    (m : MemoryCap) (b : ℕ)
    → IsRegion m
    → m.phys_addr + m.size < b
    → b < max_physical_address
    → max_physical_address ≤ remaining m b
unfolding remaining
remaining_outside m b r h small = ground arith

with_caps : ℕ → ℕ → MemoryCap → ℕ → ℕ → (ℕ → CapSlot) → ℕ → CapSlot
with_caps dst src m size base f =
    with_cap src (Capability.memory (rest_region m size base))
      (with_cap dst (Capability.memory (new_region m size base)) f)

module _ (dst src : ℕ) (m : MemoryCap) (size base : ℕ) (f : ℕ → CapSlot) (a : ℕ) where
  cap-with_caps : (with_caps dst src m size base f a).cap ≡ (
      if a == src
      then Capability.memory (rest_region m size base)
      else if a == dst
      then Capability.memory (new_region m size base)
      else (f a).cap)
  unfolding with_caps
  cap-with_caps = simp slot_fields

  prev-with_caps : (with_caps dst src m size base f a).prev ≡ (f a).prev
  unfolding with_caps
  prev-with_caps = simp slot_fields

  next-with_caps : (with_caps dst src m size base f a).next ≡ (f a).next
  unfolding with_caps
  next-with_caps = simp slot_fields

-- The kernel after a memory object has been created.
created : ℕ → ℕ → MemoryCap → ℕ → ℕ → Kernel → Kernel
created dst src m size base k = record k {
  slots = inserted_after src dst (with_caps dst src m size base k.slots);
}

create_memory_object_run :
    (fuel dst src size a : ℕ) (k : Kernel) (m : MemoryCap)
    → CanCreate k dst src m
    → 0 < size
    → size < max_physical_address
    → object_base m a < max_physical_address
    → size ≤ remaining m (object_base m a)
    → create_memory_object (suc fuel) dst src size a k
      ≡ and_then
          (insert_after
            (suc fuel)
            src
            dst
            (record k { slots = with_caps dst src m size (object_base m a) k.slots }))
          (λ _. pure dst)
unfolding create_memory_object get_slot set_cap make_memory_cap with_caps
create_memory_object_run fuel dst src size a k m c pos small base_small room = ground arith

create_memory_object_ok :
    (fuel dst src size a : ℕ) (k : Kernel) (m : MemoryCap)
    → CanCreate k dst src m
    → 0 < size
    → size < max_physical_address
    → object_base m a < max_physical_address
    → size ≤ remaining m (object_base m a)
    → create_memory_object (suc fuel) dst src size a k
      ≡ ok dst (created dst src m size (object_base m a) k)
unfolding created
create_memory_object_ok fuel dst src size a k m c pos small base_small room =
    let f = with_caps dst src m size (object_base m a) k.slots in
    rw (
      create_memory_object_run fuel dst src size a k m c pos small base_small room,
      insert_after_ok fuel src dst (record k { slots = f }) c.src_set c.dst_set
          (prev-with_caps dst src m size _ k.slots dst ∙ c.no_prev)
          (next-with_caps dst src m size _ k.slots dst ∙ c.no_next)
          (record {
            space_set = c.owner.space_set;
            task_set = c.owner.task_set;
            in_use = c.owner.in_use;
          }),
    )

created_caps :
    (dst src : ℕ) (m : MemoryCap) (size base : ℕ) (k : Kernel)
    → src ≢ dst
    → (((created dst src m size base k).slots dst).cap ≡ Capability.memory (new_region m size base))
      × (((created dst src m size base k).slots src).cap
          ≡ Capability.memory (rest_region m size base))
unfolding created
created_caps dst src m size base k apart =
    let f = with_caps dst src m size base k.slots in
    (
      cap-inserted_after src dst f dst
          ∙ cap-with_caps dst src m size base k.slots dst
          ∙ rw (==-false dst src (λ e. apart (sym e)), ==-refl dst),
      cap-inserted_after src dst f src
          ∙ cap-with_caps dst src m size base k.slots src
          ∙ rw (==-refl src),
    )

-- The new object `o` lies in `m`, behind the part that was used, and the part of `m` that is used
-- afterwards, in `m'`, ends where `o` ends.
pub record IsCarved (m m' o : MemoryCap) (size a : ℕ) : Type 0 where
  pub same_place : (m'.phys_addr ≡ m.phys_addr) × (m'.size ≡ m.size) × (m'.device ≡ m.device)
  pub same_device : o.device ≡ m.device
  pub fresh : (o.size ≡ size) × (o.used_size ≡ 0)
  pub aligned : o.phys_addr % a ≡ 0
  pub behind : m.phys_addr + m.used_size ≤ o.phys_addr
  pub inside : o.phys_addr + o.size ≤ m.phys_addr + m.size
  pub used_up : m.phys_addr + m'.used_size ≡ o.phys_addr + o.size
  pub still_region : IsRegion m'

new_region-IsCarved :
    (m : MemoryCap) (size a : ℕ)
    → IsRegion m
    → 0 < a
    → a ≤ max_physical_address
    → object_base m a + size ≤ m.phys_addr + m.size
    → IsCarved m (rest_region m size (object_base m a)) (new_region m size (object_base m a)) size a
new_region-IsCarved m size a r pos small fits =
    let b = object_base_bounds m a r pos small in
    record {
      same_place = (refl, refl, refl);
      same_device = refl;
      fresh = (omega arith, refl);
      aligned =
          rw (mod-eq_of_lt {n = object_base m a} {m = max_physical_address} (omega arith)) b.1;
      behind = omega (arith, b);
      inside = omega arith;
      used_up = omega (arith, b);
      still_region = omega (arith, b);
    }

-- From a memory capability in physical memory with room for it behind the used part,
-- `create_memory_object` called with an empty slot returns that slot with a capability for
-- exactly the size asked for, at a multiple of the alignment, inside the memory and behind all
-- that was used before; the memory capability stays well-formed and counts everything up to the
-- object's end as used.
pub create_memory_object-IsCarved :
    (fuel dst src size a : ℕ) (k : Kernel) (m : MemoryCap)
    → CanCreate k dst src m
    → IsRegion m
    → 0 < size
    → 0 < a
    → a ≤ max_physical_address
    → object_base m a + size ≤ m.phys_addr + m.size
    → Ensures
        (λ r k'.
          (m' : MemoryCap) × (o : MemoryCap) × (r ≡ dst)
          × ((k'.slots src).cap ≡ Capability.memory m')
          × ((k'.slots dst).cap ≡ Capability.memory o)
          × IsCarved m m' o size a)
        (create_memory_object (suc fuel) dst src size a k)
create_memory_object-IsCarved fuel dst src size a k m c r pos apos small fits =
    let base = object_base m a in
    let caps = created_caps dst src m size base k c.apart in
    rw
      (create_memory_object_ok fuel dst src size a k m c pos (omega arith) (omega arith)
        (rw (remaining_inside m base r (omega arith)) (omega arith)))
      (
        rest_region m size base,
        new_region m size base,
        refl,
        caps.1,
        caps.0,
        new_region-IsCarved m size a r apos small fits,
      )

-- Where rounding up passes the end of the memory, but stays in physical memory, the remaining
-- size wraps around to a huge number and the check lets the size pass: the new object lies
-- outside the memory.
pub create_memory_object_outside :
    (fuel dst src size a : ℕ) (k : Kernel) (m : MemoryCap)
    → CanCreate k dst src m
    → IsRegion m
    → 0 < size
    → size < max_physical_address
    → m.phys_addr + m.size < object_base m a
    → object_base m a < max_physical_address
    → Ensures
        (λ r k'.
          (o : MemoryCap) × (r ≡ dst)
          × ((k'.slots dst).cap ≡ Capability.memory o)
          × (m.phys_addr + m.size < o.phys_addr)
          × (o.size ≡ size))
        (create_memory_object (suc fuel) dst src size a k)
create_memory_object_outside fuel dst src size a k m c r pos small past base_small =
    let base = object_base m a in
    rw
      (create_memory_object_ok fuel dst src size a k m c pos small base_small
        (le_trans (omega arith) (remaining_outside m base r past base_small)))
      (
        new_region m size base,
        refl,
        (created_caps dst src m size base k c.apart).0,
        omega arith,
        omega arith,
      )
