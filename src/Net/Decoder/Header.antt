-- ===== src/Net/Decoder/Header.antt =====
-- net/decoder.cpp: the reads at the front of the buffer, and the copy of a packet.
use libra_core.Base.Buffer.Interface.{buffer_interface, buffer_honours}
use libra_core.Common.{
  ℕ, ◌+◌, ◌^◌, ◌<◌, ◌≤◌, ◌≡◌, refl, ap, ◌∙◌, ◌⊎◌, ◌≢◌, true, List, [], ◌∷◌, ◌++◌, arith, done,
  throw, bad_magic, length, take, length-take, le→leb, overwrite-eq-append, take-append_self,
}
use libra_core.Base.Buffer.{Buffer, IsValid, content, copy, load_bytes}
use libra_core.Base.Buffer.Content.{copy-room, written-IsValid}
use libra_core.Base.Buffer.Parts.{slice-content, static_buffer-IsValid, static_buffer-capacity}
use libra_core.Base.Bytes.{Endian, int8, uint16, be_bytes}
use libra_core.Base.Codec.{read-part}
use libra_core.Net.Packet.{packet_capacity, new_packet, copy_into, ReaderPacket, reader_packet}
use libra_core.Net.Packet.Frame.{header}
use libra_core.Net.Decoder.{read_header, copy_packet}

module _ (e : Endian) (b : Buffer) (v : IsValid b) where
  pub read_header-header :
      (len code : ℕ) (more : List ℕ)
      → content b ≡ header len code ++ more
      → len < 2 ^ 16
      → code < 2 ^ 16
      → read_header e b 0 ≡ (done (len, code), 6)
  unfolding read_header
  read_header-header len code more c fl fc = rw (
    read-part e int8 b'L' b [] (b'I' ∷ (be_bytes 2 len ++ be_bytes 2 code) ++ more) v (omega arith)
        c (omega arith),
    read-part e int8 b'I' b (b'L' ∷ []) ((be_bytes 2 len ++ be_bytes 2 code) ++ more) v
        (omega arith) c (omega arith),
    read-part e uint16 len b (b'L' ∷ b'I' ∷ []) (be_bytes 2 code ++ more) v (omega arith) c
        (omega arith),
    read-part e uint16 code b (b'L' ∷ b'I' ∷ be_bytes 2 len) more v (omega arith) c (omega arith),
  )

  pub read_header-bad :
      (x y : ℕ) (more : List ℕ)
      → content b ≡ x ∷ y ∷ more
      → x < 256
      → y < 256
      → (x ≢ b'L') ⊎ (y ≢ b'I')
      → read_header e b 0 ≡ (throw bad_magic, 2)
  unfolding read_header
  read_header-bad x y more c fx fy bad =
      rw
        (
          read-part e int8 x b [] (y ∷ more) v fx (c ∙ one_byte x (y ∷ more) fx) (omega arith),
          read-part e int8 y b (x ∷ []) more v fy (c ∙ ap (λ l. x ∷ l) (one_byte y more fy))
              (omega arith),
        )
        (ground arith)
    where
      one_byte : (z : ℕ) (l : List ℕ) → z < 256 → z ∷ l ≡ be_bytes 1 z ++ l
      one_byte z l f = ap (λ k. k ∷ l) (omega arith)

new_packet-IsValid : IsValid new_packet
unfolding new_packet
new_packet-IsValid = static_buffer-IsValid packet_capacity (omega arith)

new_packet-capacity : new_packet.capacity ≡ packet_capacity
unfolding new_packet
new_packet-capacity = static_buffer-capacity packet_capacity

-- The packet that holds these bytes.
pub received : List ℕ → ReaderPacket
received bytes = reader_packet (copy bytes new_packet).1

pub reader_packet-received :
    (bytes : List ℕ) → reader_packet (received bytes).buffer ≡ received bytes
unfolding received reader_packet
reader_packet-received bytes = refl

-- A new packet takes the bytes, and a reader on it starts behind the header.
pub received_lem :
    (bytes : List ℕ)
    → length bytes ≤ packet_capacity
    → (copy bytes new_packet ≡ (done true, (received bytes).buffer))
      × (content (received bytes).buffer ≡ bytes)
      × IsValid (received bytes).buffer
      × ((received bytes).index ≡ 6)
unfolding received reader_packet
received_lem bytes h = rw (copy-room new_packet-IsValid bytes fits) (
  refl,
  rw
      (overwrite-eq-append 0 bytes new_packet.memory
        (omega (arith, new_packet-IsValid.whole, new_packet-capacity)))
      (take-append_self bytes _),
  written-IsValid new_packet-IsValid 0 (length bytes) bytes fits,
  refl,
)
  where
    fits : length bytes ≤ new_packet.capacity
    fits = omega (arith, new_packet-capacity)

module _ (b : Buffer) (v : IsValid b) where
  pub copy_packet-room :
      (total : ℕ)
      → total ≤ b.ptr
      → total ≤ packet_capacity
      → copy_packet total b ≡ (done tt, (received (take total (content b))).buffer)
  unfolding copy_packet copy_into load_bytes
  copy_packet-room total h small = rw (
    le→leb (0 + total) (length b.memory) (omega (arith, v.whole, v.within)),
    slice-content v total 0 (omega arith),
    (received_lem (take total (content b)) (omega (arith, length-take total (content b)))).0,
  )
