-- ===== src/Object/Memory.antt =====
-- src/kernel/cap.cpp: create_memory_object and the objects built on it that need no task.
use caprese.Common.{ℕ, ◌+◌, ◌==◌, Bool, false, not, ltb, if◌then◌else◌, update}
use caprese.Config.{u64, sub64, page_size, max_page_table_level}
use caprese.Align.{round_up}
use caprese.Cap.{CapType, Capability, MemoryCap, is_cap}
use caprese.Cap.Size.{get_cap_size}
use caprese.Cap.Make.{
  phys_field, make_memory_cap, make_endpoint_cap, make_page_table_cap, make_virt_page_cap,
  make_cap_space_cap, make_unique_id_cap,
}
use caprese.Kernel.{
  Error, Pte, Cmd, ok, pure, assert, refuse, ◌>>◌, ◌>>=◌, get_slot, set_cap, memory_member,
  put_endpoint, put_meta_info,
}
use caprese.Page.{as_map, get_page_size}
use caprese.CapSlot.{is_unused, insert_after, get_cap_space}

-- Where the next object of the memory capability would begin, and how much would be left there.
unfoldable pub object_base : MemoryCap → ℕ → ℕ
object_base m alignment = round_up (u64 (m.phys_addr + m.used_size)) alignment

unfoldable pub remaining : MemoryCap → ℕ → ℕ
remaining m base_addr = sub64 (u64 (m.phys_addr + m.size)) base_addr

unfoldable pub create_memory_object : ℕ → ℕ → ℕ → ℕ → ℕ → Cmd ℕ
create_memory_object fuel dst src size alignment = do
  assert (not (src == 0))
  s ← get_slot src
  assert (is_cap CapType.mem s.cap)
  assert (not (dst == 0))
  d ← get_slot dst
  assert (is_unused d)
  m ← memory_member s.cap
  if size == 0
      then refuse Error.ill_args 0
      else if ltb (remaining m (object_base m alignment)) size
      then refuse Error.cap_state 0
      else do
        cap ← make_memory_cap m.device size (object_base m alignment)
        set_cap dst cap
        set_cap src (
            Capability.memory (record m {
              used_size = phys_field (sub64 (u64 (object_base m alignment + size)) m.phys_addr);
            }))
        insert_after fuel src dst
        pure dst

-- The checks that the functions below share, up to the member of the union.
abbrev create_from : ℕ → ℕ → Cmd MemoryCap
create_from dst src = do
  assert (not (src == 0))
  s ← get_slot src
  assert (is_cap CapType.mem s.cap)
  assert (not (dst == 0))
  d ← get_slot dst
  assert (is_unused d)
  memory_member s.cap

-- memset of an endpoint, a page table and a capability space
abbrev clear_endpoint : ℕ → Cmd (Unit {0})
clear_endpoint p = put_endpoint p (record {
  sender_queue = record { head = 0; tail = 0 };
  receiver_queue = record { head = 0; tail = 0 };
})

abbrev zero_pte : Pte
zero_pte = record {
  v = false;
  r = false;
  w = false;
  x = false;
  u = false;
  g = false;
  a = false;
  d = false;
  next_page_number = 0;
}

abbrev pub clear_table : ℕ → Cmd (Unit {0})
clear_table p k = ok tt (record k { tables = update k.tables p (λ _. zero_pte) })

abbrev clear_slots : ℕ → Cmd (Unit {0})
clear_slots p k = ok tt (record k {
  slots = λ q.
      if get_cap_space q == p
      then record { cap = Capability.null; prev = 0; next = 0 }
      else k.slots q;
})

-- All the slots of the page become empty.
abbrev pub clear_space : ℕ → Cmd (Unit {0})
clear_space p = do put_meta_info p (record { map = 0; task = 0; space_index = 0 }); clear_slots p

unfoldable pub create_endpoint_object : ℕ → ℕ → ℕ → Cmd ℕ
create_endpoint_object fuel dst src = do
  m ← create_from dst src
  if m.device then refuse Error.cap_state 0 else do
    r ←
        create_memory_object fuel dst src (get_cap_size CapType.endpoint)
          (get_cap_size CapType.endpoint)
    if r == 0 then pure 0 else do
      s ← get_slot r
      o ← memory_member s.cap
      clear_endpoint (as_map o.phys_addr)
      cap ← make_endpoint_cap (as_map o.phys_addr)
      set_cap r cap
      pure r

unfoldable pub create_page_table_object : ℕ → ℕ → ℕ → Cmd ℕ
create_page_table_object fuel dst src = do
  m ← create_from dst src
  if m.device then refuse Error.cap_state 0 else do
    r ← create_memory_object fuel dst src page_size page_size
    if r == 0 then pure 0 else do
      s ← get_slot r
      o ← memory_member s.cap
      clear_table (as_map o.phys_addr)
      cap ← make_page_table_cap (as_map o.phys_addr) false 0 0 0
      set_cap r cap
      pure r

unfoldable pub create_virt_page_object : ℕ → ℕ → ℕ → Bool → Bool → Bool → ℕ → Cmd ℕ
create_virt_page_object fuel dst src readable writable executable level = do
  _ ← create_from dst src
  if ltb max_page_table_level level then refuse Error.ill_args 0 else do
    r ← create_memory_object fuel dst src (get_page_size level) (get_page_size level)
    if r == 0 then pure 0 else do
      s ← get_slot r
      o ← memory_member s.cap
      cap ← make_virt_page_cap o.device readable writable executable false level o.phys_addr 0 0
      set_cap r cap
      pure r

unfoldable pub create_cap_space_object : ℕ → ℕ → ℕ → Cmd ℕ
create_cap_space_object fuel dst src = do
  m ← create_from dst src
  if m.device then refuse Error.cap_state 0 else do
    r ← create_memory_object fuel dst src page_size page_size
    if r == 0 then pure 0 else do
      s ← get_slot r
      o ← memory_member s.cap
      clear_space (as_map o.phys_addr)
      cap ← make_cap_space_cap (as_map o.phys_addr) false
      set_cap r cap
      pure r

unfoldable pub create_id_object : ℕ → Cmd ℕ
create_id_object dst = do
  assert (not (dst == 0))
  d ← get_slot dst
  assert (is_unused d)
  cap ← make_unique_id_cap
  set_cap dst cap
  pure dst
