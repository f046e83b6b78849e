-- ===== src/Net/Packet/Frame.antt =====
-- net/packet.h: what a finished `WriterPacket` sends.
use libra_core.Base.Buffer.Interface.{buffer_interface, buffer_honours}
use libra_core.Common.{
  ℕ, ◌+◌, ◌-◌, ◌%◌, ◌^◌, ◌<◌, ◌≤◌, ◌≡◌, ap, sym, ◌∙◌, Bool, true, List, [], ◌∷◌, ◌++◌, arith, Exec,
  ◌>>◌, done, length, All, overwrite,
}
use libra_core.Base.Buffer.{Buffer, IsValid, content, set_size}
use libra_core.Base.Buffer.Content.{length-content}
use libra_core.Base.Buffer.Parts.{Overwrites, set-Overwrites, set_size-static_buffer}
use libra_core.Base.Bytes.{
  Endian, Scalar, int8, uint16, size_of, be_bytes, length-be_bytes, wire-swap_h2n,
}
use libra_core.Base.Writer.{write_at}
use libra_core.Base.Codec.{Field, InRange, encode_all, write_fields, read-part}
use libra_core.Base.Codec.Roundtrip.{write_fields-Writes}
use libra_core.Net.Packet.{
  header_size, packet_capacity, new_packet, body_size, set_body_size, cmd, fill_header,
}

-- A message of the protocol: a command and a body.
pub record Frame : Type 0 where
  pub code : ℕ
  pub body : List ℕ

-- |LI|body_len|cmd|, and the body.
abbrev pub header : ℕ → ℕ → List ℕ
header len code = b'L' ∷ b'I' ∷ (be_bytes 2 len ++ be_bytes 2 code)

abbrev pub encode_frame : Frame → List ℕ
encode_frame g = header (length g.body) g.code ++ g.body

write_at-Overwrites :
    (e : Endian) (s : Scalar) (x index : ℕ) (b : Buffer)
    → IsValid b
    → x < 256 ^ size_of s
    → index + size_of s ≤ b.ptr
    → (b' : Buffer) × (write_at e s x index b ≡ (done true, b'))
      × Overwrites b index (be_bytes (size_of s) x) b'
unfolding write_at
write_at-Overwrites e s x index b v f h = rw (wire-swap_h2n e s x f) (
    set-Overwrites b index (be_bytes (size_of s) x) v
      (omega (arith, length-be_bytes (size_of s) x)))

-- A packet whose data are these.
abbrev Holds : Buffer → List ℕ → Type 0
Holds b bytes = (content b ≡ bytes) × IsValid b × (b.capacity ≡ packet_capacity)

Holds-ptr : (b : Buffer) (bytes : List ℕ) → Holds b bytes → b.ptr ≡ length bytes
Holds-ptr b bytes h = sym (length-content h.1) ∙ ap length h.0

write_at-Holds :
    (e : Endian) (s : Scalar) (x index : ℕ) (b : Buffer) (bytes : List ℕ)
    → Holds b bytes
    → x < 256 ^ size_of s
    → index + size_of s ≤ length bytes
    → (b' : Buffer) × (write_at e s x index b ≡ (done true, b'))
      × Holds b' (overwrite index (be_bytes (size_of s) x) bytes)
write_at-Holds e s x index b bytes h f fits =
    let (b', run, o) =
      write_at-Overwrites e s x index b h.1 f (omega (arith, Holds-ptr b bytes h)) in
    (b', run, (o.0 ∙ ap (overwrite index (be_bytes (size_of s) x)) h.0, o.1, o.3 ∙ h.2))

fresh-Holds :
    (b : Buffer) × (set_size header_size new_packet ≡ (done tt, b))
    × Holds b (0 ∷ 0 ∷ 0 ∷ 0 ∷ 0 ∷ 0 ∷ [])
unfolding new_packet
fresh-Holds =
    let (b, run, c, v, p, k) = set_size-static_buffer 6 65530 (omega arith) in (b, run, (c, v, k))

fill_header-Holds :
    (e : Endian) (code : ℕ)
    → code < 2 ^ 16
    → (b : Buffer) × (fill_header e code new_packet ≡ (done tt, b)) × Holds b (header 0 code)
unfolding fill_header
fill_header-Holds e code f =
    let (b0, run0, h0) = fresh-Holds in
    let (b1, run1, h1) = write_at-Holds e int8 b'L' 0 b0 _ h0 (omega arith) (omega arith) in
    let (b2, run2, h2) = write_at-Holds e int8 b'I' 1 b1 _ h1 (omega arith) (omega arith) in
    let (b3, run3, h3) = write_at-Holds e uint16 code 4 b2 _ h2 (omega arith) (omega arith) in
    (b3, rw (run0, run1, run2, run3), h3)

-- The calls that build a packet with these fields.
abbrev pub build : Endian → ℕ → List Field → Exec Buffer Bool
build e code fs = do fill_header e code; write_fields e fs; set_body_size e

set_body_size-Holds :
    (e : Endian) (code : ℕ) (body : List ℕ) (b : Buffer)
    → Holds b (header 0 code ++ body)
    → length body ≤ 65530
    → (b' : Buffer) × (set_body_size e b ≡ (done true, b'))
      × Holds b' (header (length body) code ++ body)
unfolding set_body_size
set_body_size-Holds e code body b h small =
    let (b', run, h') =
      write_at-Holds e uint16 (length body) 2 b (header 0 code ++ body) h (omega arith)
        (omega arith) in
    (b', ap (λ n. write_at e uint16 n 2 b) size ∙ run, h')
  where
    size : (b.ptr + 2 ^ 64 - 6) % 2 ^ 64 % 2 ^ 16 ≡ length body
    size = omega (arith, Holds-ptr b (header 0 code ++ body) h)

-- The header's fields, as a host of any byte order reads them.
pub header-read :
    (e : Endian) (len code : ℕ) (body : List ℕ) (b : Buffer)
    → IsValid b
    → content b ≡ header len code ++ body
    → len < 2 ^ 16
    → code < 2 ^ 16
    → (body_size e b ≡ done len) × (cmd e b ≡ done code)
unfolding body_size cmd
header-read e len code body b v c fl fc = (
  ap (λ r. r.0)
      (read-part e uint16 len b (b'L' ∷ b'I' ∷ []) (be_bytes 2 code ++ body) v (omega arith) c
        (omega arith)),
  ap (λ r. r.0)
      (read-part e uint16 code b (b'L' ∷ b'I' ∷ be_bytes 2 len) body v (omega arith) c
        (omega arith)),
)

-- A `WriterPacket` to which fields are appended and whose body size is then set holds the frame of
-- its command and of the fields' encodings, if these fit in 65530 bytes; and `body_size` and `cmd`
-- read the two numbers back, on a host of either byte order.
pub build-frame :
    (here there : Endian) (code : ℕ) (fs : List Field)
    → code < 2 ^ 16
    → All InRange fs
    → length (encode_all fs) ≤ 65530
    → (p : Buffer) × (build here code fs new_packet ≡ (done true, p))
      × (content p ≡ encode_frame (record { code = code; body = encode_all fs }))
      × (body_size there p ≡ done (length (encode_all fs)))
      × (cmd there p ≡ done code)
build-frame here there code fs f r small =
    let (b0, run0, h0) = fill_header-Holds here code f in
    let (b1, run1, x) =
      write_fields-Writes here fs r b0 h0.1 (omega (arith, Holds-ptr b0 _ h0, h0.2)) in
    let (b2, run2, h2) =
      set_body_size-Holds here code (encode_all fs) b1
        (x.0 ∙ ap (λ l. l ++ encode_all fs) h0.0, x.1, x.2 ∙ h0.2) small in
    let (size, code_read) =
      header-read there (length (encode_all fs)) code (encode_all fs) b2 h2.1 h2.0 (omega arith)
        f in
    (b2, rw (run0, run1, run2), h2.0, size, code_read)
