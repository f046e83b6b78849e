-- ===== src/Net/Server/Reads.antt =====
-- net/tcp_server.cpp with net/decoder.cpp: a stream of frames in reads of at most five frames.
use libra_core.Base.Buffer.Interface.{buffer_interface, buffer_honours}
use libra_core.Common.{
  ℕ, ◌+◌, ◌≤◌, ◌≡◌, refl, ap, sym, ◌∙◌, inr, true, some, List, [], ◌∷◌, ◌++◌, arith, Exec, ◌>>◌,
  pure, done, length, All,
}
use libra_core.Common.{take_all, drop_all}
use libra_core.Base.Buffer.{Buffer, IsValid, content}
use libra_core.Base.Buffer.Content.{length-content}
use libra_core.Base.Bytes.{Endian}
use libra_core.Base.Codec.{append-Extends}
use libra_core.Net.Packet.{ReaderPacket}
use libra_core.Net.Packet.Frame.{Frame, encode_frame}
use libra_core.Net.Decoder.{on_buffer}
use libra_core.Net.Decoder.Header.{received}
use libra_core.Net.Decoder.Frames.{
  Behaves, IsSmall, IsPartial, encode_frames, hand_over, hand_over-append, handle-frames,
}
use libra_core.Net.Server.{Client, World, recv_capacity, process, on_read}
use libra_core.Net.Server.Lifetime.{Users, served, with_this-here, process-acts}

-- What one read brings: its bytes, the frames that it completes, and what is then left over.
pub record Arrival : Type 0 where
  pub bytes : List ℕ
  pub frames : List Frame
  pub rest : List ℕ

-- Reads that cut a stream of frames in pieces, from what is left over at the start: no read
-- completes more than five frames or overfills the buffer.
abbrev pub IsCut : List ℕ → List Arrival → Type 0
IsCut left [] = Unit
IsCut left (a ∷ as') =
    (left ++ a.bytes ≡ encode_frames a.frames ++ a.rest)
    × All IsSmall a.frames
    × (length a.frames ≤ 5)
    × IsPartial a.rest
    × (length left + length a.bytes ≤ recv_capacity)
    × IsCut a.rest as'

abbrev pub frames_of : List Arrival → List Frame
frames_of [] = []
frames_of (a ∷ as') = a.frames ++ frames_of as'

abbrev pub left_after : List ℕ → List Arrival → List ℕ
left_after left [] = left
left_after left (a ∷ as') = left_after a.rest as'

module _ {U : Type 0} (e : Endian) (on_packet : ReaderPacket → Exec (World U) (Unit {0}))
    (on_over : Exec (World U) (Unit {0})) where
  unfoldable pub reads : List Arrival → Exec (World U) (Unit {0})
  reads [] = pure tt
  reads (a ∷ as') = do on_read e on_packet on_over (some a.bytes); reads as'

-- There, and its packet callback is set.
abbrev pub IsReady : {U : Type 0} → Client U → Type 0
IsReady c = (c.alive ≡ true) × (c.packet_processor ≡ true)

served-IsReady :
    {U : Type 0} (f : ReaderPacket → U → U) (p : ReaderPacket) (c : Client U)
    → IsReady c
    → IsReady (served f p c) × ((served f p c).user ≡ f p c.user)
served-IsReady f p c h = ground arith

pub hand_over-IsReady :
    {U : Type 0} (f : ReaderPacket → U → U) (c : Client U) (gs : List Frame)
    → IsReady c
    → IsReady (hand_over (served f) c gs)
      × ((hand_over (served f) c gs).user ≡ hand_over f c.user gs)
hand_over-IsReady f c [] h = (h, refl)
hand_over-IsReady f c (g ∷ gs) h =
    let (h', u) = served-IsReady f (received (encode_frame g)) c h in
    let (r, v) = hand_over-IsReady f (served f (received (encode_frame g)) c) gs h' in
    (r, v ∙ ap (λ x. hand_over f x gs) u)

module _ {U : Type 0} (e : Endian) (on_packet : ReaderPacket → Exec (World U) (Unit {0}))
    (on_over : Exec (World U) (Unit {0})) (f : ReaderPacket → U → U) (g : U → U)
    (users : Users on_packet on_over f g) where
  IsReady-Behaves : Behaves (λ c. c.alive) (process e on_packet on_over) (served f) IsReady
  IsReady-Behaves = record {
    sees = λ c h. h.0;
    stays = λ p c h. (served-IsReady f p c h).0;
    acts = λ p buf c h. process-acts e on_packet on_over f g users p buf c h.0;
  }

  pub on_read-frames :
      (a : Arrival) (left : List ℕ) (buf : Buffer) (c : Client U)
      → IsValid buf
      → buf.capacity ≡ recv_capacity
      → IsReady c
      → content buf ≡ left
      → IsCut left (a ∷ [])
      → (buf' : Buffer) × (on_read e on_packet on_over (some a.bytes) (buf, c)
          ≡ (done tt, (buf', hand_over (served f) c a.frames)))
        × (content buf' ≡ a.rest)
        × IsValid buf'
        × (buf'.capacity ≡ recv_capacity)
  unfolding on_read on_buffer
  on_read-frames a left buf c v size ready at_start (cut, small, few, part, room, _) =
      let (buf1, run1, x) = append-Extends buf a.bytes v fits in
      let (buf2, run2, left2, v2, same2) =
        handle-frames (λ c'. c'.alive) e (process e on_packet on_over) (served f) IsReady
          IsReady-Behaves a.frames a.rest buf1 c x.1 ready small
          (x.0 ∙ ap (λ l. l ++ a.bytes) at_start ∙ cut) (inr part) in
      (
        buf2,
        rw (with_this-here buf c ready.0, run1, run2, take_all 5 a.frames few),
        left2 ∙ ap (λ l. encode_frames l ++ a.rest) (drop_all 5 a.frames few),
        v2,
        same2 ∙ x.2 ∙ size,
      )
    where
      fits : buf.ptr + length a.bytes ≤ buf.capacity
      fits = omega (arith, length-content v, ap length at_start)

  pub reads-frames :
      (arrivals : List Arrival) (left : List ℕ) (buf : Buffer) (c : Client U)
      → IsValid buf
      → buf.capacity ≡ recv_capacity
      → IsReady c
      → content buf ≡ left
      → IsCut left arrivals
      → (buf' : Buffer) × (c' : Client U) × (reads e on_packet on_over arrivals (buf, c)
          ≡ (done tt, (buf', c')))
        × (c'.user ≡ hand_over f c.user (frames_of arrivals))
        × (content buf' ≡ left_after left arrivals)
        × IsReady c'
  unfolding reads
  reads-frames [] left buf c v size ready at_start cut = (buf, c, refl, refl, at_start, ready)
  reads-frames (a ∷ as') left buf c v size ready at_start cut =
      let (buf1, run1, left1, v1, size1) =
        on_read-frames a left buf c v size ready at_start (cut.0, cut.1, cut.2, cut.3, cut.4, tt) in
      let (ready1, user1) = hand_over-IsReady f c a.frames ready in
      let (buf2, c2, run2, user2, left2, ready2) =
        reads-frames as' a.rest buf1 (hand_over (served f) c a.frames) v1 size1 ready1 left1
          cut.5 in
      (
        buf2,
        c2,
        rw (run1, run2),
        user2
            ∙ ap (λ u. hand_over f u (frames_of as')) user1
            ∙ sym (hand_over-append f c.user a.frames (frames_of as')),
        left2,
        ready2,
      )
