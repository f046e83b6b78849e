-- ===== src/Net/Decoder.antt =====
-- net/decoder.h, net/decoder.cpp. The decoder works on the client's receive buffer, and its
-- callback may do as it likes with the buffer and with the rest of the program, `S`.
pub mod Header
pub mod Frames
pub mod Errors
pub mod Progress
pub mod Safety
use libra_core.Base.Buffer.Interface.{buffer_interface}
use libra_core.Common.{
  ℕ, zero, suc, ◌+◌, ◌%◌, ◌^◌, Bool, true, false, not, ◌||◌, Option, none, some, Outcome, Exec,
  ◌>>=◌, ◌>>◌, pure, raise, lift, bad_magic, ltb, ◌==◌, if◌then◌else◌, done, fault,
}
use libra_core.Base.Buffer.{Buffer, load_bytes, remove}
use libra_core.Base.Bytes.{Endian, int8, uint16}
use libra_core.Base.Reader.{read}
use libra_core.Net.Packet.{ReaderPacket, reader_packet, copy_into, new_packet, header_size}

check_magic : ℕ → ℕ → Exec ℕ (Unit {0})
check_magic a b = if not (a == b'L') || not (b == b'I') then raise bad_magic else pure tt

-- The reads of one round, on a reader that starts at the front of the buffer.
pub read_header : Endian → Buffer → Exec ℕ (ℕ × ℕ)
unfolding check_magic
read_header e buf = do
  a ← read e int8 buf
  b ← read e int8 buf
  check_magic a b
  body_len ← read e uint16 buf
  code ← read e uint16 buf
  pure (body_len, code)

-- `packet.copy(buffer->data(), total_len)` on a new `ReaderPacket`.
pub copy_packet : ℕ → Buffer → Outcome (Unit {0}) × Buffer
copy_packet total buf = (do bytes ← lift (load_bytes 0 total buf).0; copy_into bytes) new_packet

-- A call on the buffer, in a program with more state.
unfoldable pub on_buffer : {S A : Type 0} → Exec Buffer A → Exec (Buffer × S) A
on_buffer m (buf, s) = let (r, buf') = m buf in (r, (buf', s))

abbrev pub Callback : Type 0 → Type 0
Callback S = ReaderPacket → Exec (Buffer × S) (Unit {0})

-- `live` tells whether the buffer's owner is still there when a round comes back to the buffer.
module _ {S : Type 0} (live : S → Bool) (e : Endian) (cb : Option (Callback S)) where
  -- `if (cb) cb(&packet)`
  pub call : ReaderPacket → Exec (Buffer × S) (Unit {0})
  call p = elim cb [ none ↦ pure tt | some f ↦ f p ]

  pub deliver : ℕ → Exec (Buffer × S) Bool
  unfolding call on_buffer
  deliver total (buf, s) =
      (do
        lift (copy_packet total buf).0
        on_buffer (remove 0 total)
        call (reader_packet (copy_packet total buf).1)
        pure true)
        (buf, s)

  -- `total_len` is a `uint32_t`.
  pub whole_packet : ℕ → Exec (Buffer × S) Bool
  whole_packet total (buf, s) =
      if ltb buf.ptr total then (done false, (buf, s)) else deliver total (buf, s)

  pub front_packet : Exec (Buffer × S) Bool
  unfolding whole_packet
  front_packet (buf, s) =
      if ltb buf.ptr header_size
      then (done false, (buf, s))
      else (do
        (body_len, code) ← lift (read_header e buf 0).0
        whole_packet ((header_size + body_len) % 2 ^ 32))
          (buf, s)

  -- One round of the loop: `false` is its `break`.
  pub round : Exec (Buffer × S) Bool
  unfolding front_packet
  round (buf, s) = if live s then front_packet (buf, s) else (fault, (buf, s))

  -- `do … while (++cnt < 5)`, by the rounds that are left.
  pub rounds : ℕ → Exec (Buffer × S) (Unit {0})
  rounds zero = pure tt
  rounds (suc n) = let rest = rounds n in do more ← round; if more then rest else pure tt

  pub handle : Exec (Buffer × S) ℕ
  handle = do rounds 5; pure 0
