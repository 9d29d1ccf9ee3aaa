-- ===== src/Ipc/Message.antt =====
-- src/kernel/ipc.cpp: how a message is handed from task to task. `message_header` and the two message
-- types are libcaprese's: `MessageLayout` has what the code relies on.
use caprese.Common.{
  ℕ, zero, suc, ◌+◌, ◌-◌, ◌*◌, ◌/◌, ◌%◌, ◌^◌, ◌==◌, Bool, true, false, ◌&&◌, not, ltb, update,
  if◌then◌else◌, Option, none, some,
}
use caprese.Config.{u64}
use caprese.Kernel.{
  Task, IpcMsgState, in_ipc_msg_state, ipc_long_msg, Cmd, Stop, pure, halt, assert, ◌>>◌, ◌>>=◌,
  get_task, put_task,
}
use caprese.CapSpace.{lookup_cap, transfer_cap, delegate_cap, get_cap_slot_index}
use caprese.UserMemory.Bytes.{read_bytes, write_bytes, forward_bytes, byte_of, word_of}

-- The fields of `message_header` that the kernel uses.
pub record MessageHeader : Type 0 where
  pub msg_type : ℕ
  pub sender_id : ℕ
  pub receiver_id : ℕ
  pub payload_length : ℕ
  pub payload_capacity : ℕ
  pub data_type_map : ℕ → ℕ

-- `decode` reads the fields from the bytes of a header, and `encode` writes them and leaves the other
-- bytes. `data_type_map` has `map_length` words of `map_bits` bits.
pub record MessageLayout : Type 0 where
  pub header_size : ℕ
  pub map_length : ℕ
  pub map_bits : ℕ
  pub msg_type_ipc : ℕ
  pub msg_type_kill : ℕ
  pub decode : (ℕ → ℕ) → MessageHeader
  pub encode : MessageHeader → (ℕ → ℕ) → ℕ → ℕ

-- A header on the stack: the fields read, and the bytes as they were.
pub record HeaderBuffer : Type 0 where
  pub header : MessageHeader
  pub bytes : ℕ → ℕ

-- sizeof(uintptr_t) and sizeof(ipc_short_msg)
abbrev pub word_size : ℕ
word_size = 8

abbrev pub short_msg_size : ℕ
short_msg_size = 48

-- The bytes of `ipc_short_msg`.
unfoldable pub short_msg_bytes : Task → ℕ → ℕ
unfolding byte_of
short_msg_bytes t i = byte_of (t.ipc_msg (i / word_size)) (i % word_size)

-- Bit `i` of a map, and the map without it.
unfoldable pub has_bit : ℕ → (ℕ → ℕ) → ℕ → Bool
has_bit bits map i = map (i / bits) / 2 ^ (i % bits) % 2 == 1

unfoldable pub drop_bit : ℕ → (ℕ → ℕ) → ℕ → ℕ → ℕ
drop_bit bits map i = update map (i / bits) (map (i / bits) - 2 ^ (i % bits))

-- memcmp of two maps
unfoldable pub same_map : ℕ → (ℕ → ℕ) → (ℕ → ℕ) → Bool
same_map zero a b = true
same_map (suc n) a b = same_map n a b && (a n == b n)

unfoldable pub min : ℕ → ℕ → ℕ
min a b = if ltb b a then b else a

-- The header of a message without capabilities; the other fields are not read.
abbrev plain_header : ℕ → MessageHeader
plain_header length = record {
  msg_type = 0;
  sender_id = 0;
  receiver_id = 0;
  payload_length = length;
  payload_capacity = 0;
  data_type_map = λ _. 0;
}

-- A header in the memory of a task.
unfoldable pub read_header : MessageLayout → ℕ → ℕ → Cmd (Option HeaderBuffer)
read_header layout task address = do
  r ← read_bytes task address (λ _. 0) layout.header_size
  pure (if r.0 then some (record { header = layout.decode r.1; bytes = r.1 }) else none)

-- The first `switch`: the header of the message that `src` sends.
unfoldable pub source_header : MessageLayout → ℕ → Task → Cmd (Option HeaderBuffer)
unfolding read_header
source_header layout src s = elim s.ipc_msg_state [
  | IpcMsgState.empty ↦ pure (some (record { header = plain_header 0; bytes = λ _. 0 }))
  | IpcMsgState.short_size ↦
      pure (some (record { header = plain_header short_msg_size; bytes = λ _. 0 }))
  | IpcMsgState.long_size ↦ read_header layout src (ipc_long_msg s)
]

-- One round of the loop, for the word `i` that the map marks.
unfoldable pub transfer_word : MessageLayout → ℕ → ℕ → ℕ → ℕ → ℕ → ℕ → Cmd Bool
transfer_word layout fuel dst dst_msg src src_msg i = do
  r ← read_bytes src (u64 (src_msg + layout.header_size + word_size * i)) (λ _. 0) word_size
  if not r.0 then pure false else do
    let value = word_of word_size r.1
    let cap_desc = value % 2 ^ 63
    src_slot ← lookup_cap src cap_desc
    dst_slot ←
        if not (cap_desc == value)
        then delegate_cap fuel dst src_slot
        else transfer_cap dst src_slot
    if dst_slot == 0 then pure false else do
      dst_cap_desc ← get_cap_slot_index dst_slot
      write_bytes dst (byte_of dst_cap_desc) (u64 (dst_msg + layout.header_size + word_size * i))
          word_size

-- The loop over the words, with `n` of them left: the map that remains, or none when it has failed.
unfoldable pub transfer_words :
    MessageLayout → ℕ → ℕ → ℕ → ℕ → ℕ → ℕ → ℕ → (ℕ → ℕ) → Cmd (Option (ℕ → ℕ))
unfolding transfer_word has_bit drop_bit
transfer_words layout fuel dst dst_msg src src_msg i zero map = pure (some map)
transfer_words layout fuel dst dst_msg src src_msg i (suc n) map =
    let rest = transfer_words layout fuel dst dst_msg src src_msg (suc i) n in
    if not (has_bit layout.map_bits map i) then rest map else do
      done ← transfer_word layout fuel dst dst_msg src src_msg i
      if done then rest (drop_bit layout.map_bits map i) else pure none

-- The case `long_size` of the second `switch`.
unfoldable pub transfer_payload : MessageLayout → ℕ → ℕ → ℕ → ℕ → ℕ → HeaderBuffer → Cmd Bool
unfolding transfer_words same_map min
transfer_payload layout fuel dst dst_msg src src_msg h = do
  forwarded ←
      forward_bytes src dst (u64 (src_msg + layout.header_size))
        (u64 (dst_msg + layout.header_size)) h.header.payload_length
  if not forwarded then pure false else do
    let words = min (h.header.payload_length / word_size) (layout.map_bits * layout.map_length)
    rest ← transfer_words layout fuel dst dst_msg src src_msg 0 words h.header.data_type_map
    elim rest [
      | none ↦ pure false
      | some map ↦
          if same_map layout.map_length map h.header.data_type_map
          then pure true
          else write_bytes src (layout.encode (record h.header { data_type_map = map }) h.bytes)
              src_msg layout.header_size
    ]

-- What follows when both headers have been read.
unfoldable pub transfer_message :
    MessageLayout → ℕ → ℕ → Task → ℕ → Task → HeaderBuffer → HeaderBuffer → Cmd Bool
unfolding transfer_payload short_msg_bytes
transfer_message layout fuel dst d src s h dst_h =
    if ltb dst_h.header.payload_capacity h.header.payload_length then pure false else do
      written ←
          write_bytes dst
            (layout.encode
              (record dst_h.header {
                msg_type = layout.msg_type_ipc;
                sender_id = s.tid;
                receiver_id = d.tid;
                payload_length = h.header.payload_length;
                data_type_map = h.header.data_type_map;
              })
              dst_h.bytes)
            (ipc_long_msg d) layout.header_size
      if not written then pure false else elim s.ipc_msg_state [
        | IpcMsgState.empty ↦ pure true
        | IpcMsgState.short_size ↦
            write_bytes dst (short_msg_bytes s) (u64 (ipc_long_msg d + layout.header_size))
              short_msg_size
        | IpcMsgState.long_size ↦
            transfer_payload layout fuel dst (ipc_long_msg d) src (ipc_long_msg s) h
      ]

unfoldable pub ipc_transfer_ipc_msg : MessageLayout → ℕ → ℕ → ℕ → Cmd Bool
unfolding source_header read_header transfer_message
ipc_transfer_ipc_msg layout fuel dst src = do
  assert (not (dst == 0))
  assert (not (src == 0))
  d ← get_task dst
  if not (in_ipc_msg_state IpcMsgState.long_size d) then halt Stop.panic else do
    s ← get_task src
    source ← source_header layout src s
    elim source [
      | none ↦ pure false
      | some h ↦ do
        target ← read_header layout dst (ipc_long_msg d)
        elim target [
          | none ↦ pure false
          | some dst_h ↦ transfer_message layout fuel dst d src s h dst_h
        ]
    ]

unfoldable pub ipc_transfer_kill_msg : MessageLayout → ℕ → ℕ → Cmd Bool
unfolding read_header
ipc_transfer_kill_msg layout dst src = do
  assert (not (dst == 0))
  assert (not (src == 0))
  d ← get_task dst
  if not (in_ipc_msg_state IpcMsgState.long_size d) then halt Stop.panic else do
    target ← read_header layout dst (ipc_long_msg d)
    elim target [
      | none ↦ pure false
      | some h ↦ do
        s ← get_task src
        written ←
            write_bytes dst
              (layout.encode
                (record h.header {
                  msg_type = layout.msg_type_kill;
                  sender_id = s.tid;
                  receiver_id = d.tid;
                  payload_length = 0;
                  data_type_map = update (update h.header.data_type_map 0 0) 1 0;
                })
                h.bytes)
              (ipc_long_msg d) layout.header_size
        if not written then pure false else do
          t ← get_task dst
          put_task dst (record t { ipc_msg_state = IpcMsgState.empty })
          pure true
    ]
