-- ===== src/UserMemory/Bytes.antt =====
-- src/kernel/user_memory.cpp: the bytes that its calls of memcpy move. Page tables and the users' pages
-- are apart in the model, so that the bytes may be moved once the last page has been found. The fuel is
-- one round for each byte and one more.
use caprese.Common.{
  ℕ, zero, suc, ◌+◌, ◌-◌, ◌*◌, ◌/◌, ◌%◌, ◌^◌, Bool, ◌&&◌, leb, ltb, if◌then◌else◌, List, [], ◌∷◌,
}
use caprese.Kernel.{Cmd, ok, pure, ◌>>◌, ◌>>=◌}
use caprese.Page.{get_next_page}
use caprese.UserMemory.{Copy, read_user_memory, write_user_memory, forward_user_memory}

-- Where the copy lies in the kernel's mapping.
abbrev pub copy_address : Copy → ℕ
copy_address c = get_next_page c.page.pte + c.offset

-- memcpy of `n` bytes from `from` of `source` to `to` of `target`
unfoldable pub memcpy : ℕ → (ℕ → ℕ) → ℕ → ℕ → (ℕ → ℕ) → ℕ → ℕ
memcpy n source from to target i =
    if leb to i && ltb i (to + n) then source (from + (i - to)) else target i

unfoldable pub load : (ℕ → ℕ) → List Copy → (ℕ → ℕ) → ℕ → ℕ
unfolding memcpy
load memory [] buffer = buffer
load memory (c ∷ cs) buffer =
    load memory cs (memcpy c.length memory (copy_address c) c.position buffer)

unfoldable pub store : (ℕ → ℕ) → List Copy → (ℕ → ℕ) → ℕ → ℕ
unfolding memcpy
store buffer [] memory = memory
store buffer (c ∷ cs) memory =
    store buffer cs (memcpy c.length buffer c.position (copy_address c) memory)

unfoldable pub move : List (Copy × Copy) → (ℕ → ℕ) → ℕ → ℕ
unfolding memcpy
move [] memory = memory
move ((s, d) ∷ cs) memory =
    move cs (memcpy s.length memory (copy_address s) (copy_address d) memory)

abbrev memory_of : Cmd (ℕ → ℕ)
memory_of k = ok k.memory k

abbrev set_memory : (ℕ → ℕ) → Cmd (Unit {0})
set_memory m k = ok tt (record k { memory = m })

-- The calls, with the kernel's buffer as the function of its bytes.
unfoldable pub read_bytes : ℕ → ℕ → (ℕ → ℕ) → ℕ → Cmd (Bool × (ℕ → ℕ))
unfolding load
read_bytes task src buffer size = do
  r ← read_user_memory (suc size) task src size
  m ← memory_of
  pure (r.0, load m r.1 buffer)

unfoldable pub write_bytes : ℕ → (ℕ → ℕ) → ℕ → ℕ → Cmd Bool
unfolding store
write_bytes task buffer dst size = do
  r ← write_user_memory (suc size) task dst size
  m ← memory_of
  set_memory (store buffer r.1 m)
  pure r.0

unfoldable pub forward_bytes : ℕ → ℕ → ℕ → ℕ → ℕ → Cmd Bool
unfolding move
forward_bytes src_task dst_task src dst size = do
  r ← forward_user_memory (suc size) src_task dst_task src dst size
  m ← memory_of
  set_memory (move r.1 m)
  pure r.0

-- The bytes of a word, from the lowest on, and the word of eight bytes.
unfoldable pub byte_of : ℕ → ℕ → ℕ
byte_of value i = value / 2 ^ (8 * i) % 2 ^ 8

unfoldable pub word_of : ℕ → (ℕ → ℕ) → ℕ
word_of zero bytes = 0
word_of (suc n) bytes = word_of n bytes + bytes n * 2 ^ (8 * n)
