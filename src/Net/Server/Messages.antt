-- ===== src/Net/Server/Messages.antt =====
-- net/packet.cpp, net/decoder.cpp, net/tcp_server.cpp together: messages from the packets that a peer
-- builds to the program that reads them.
use libra_core.Base.Buffer.Interface.{buffer_interface, buffer_honours}
use libra_core.Common.{
  ℕ, ◌^◌, ◌<◌, ◌≤◌, ◌≡◌, refl, ap, ap₂, sym, ◌∙◌, List, [], ◌∷◌, ◌++◌, map, append-nil,
  append_assoc, arith, Outcome, Exec, ◌>>=◌, pure, lift, done, length, All, proceed, ◌+◌,
}
use libra_core.Base.Buffer.{Buffer, IsValid, content}
use libra_core.Base.Bytes.{Endian}
use libra_core.Base.Codec.{Field, Kind, kind_of, InRange, encode_all, read_fields}
use libra_core.Base.Codec.Roundtrip.{read_fields-encode_all}
use libra_core.Net.Packet.{ReaderPacket, new_packet, cmd}
use libra_core.Net.Packet.Frame.{Frame, header, encode_frame, build, build-frame, header-read}
use libra_core.Net.Decoder.Frames.{encode_frames, hand_over}
use libra_core.Net.Decoder.Header.{received, received_lem}
use libra_core.Net.Server.{Client, World, recv_capacity}
use libra_core.Net.Server.Lifetime.{Users}
use libra_core.Net.Server.Reads.{
  Arrival, IsCut, frames_of, left_after, reads, IsReady, reads-frames,
}

-- A command and its fields, and the kinds of fields that each command has.
pub record Message : Type 0 where
  pub code : ℕ
  pub fields : List Field

abbrev pub Schema : Type 0
Schema = ℕ → List Kind

abbrev pub frame_of : Message → Frame
frame_of m = record { code = m.code; body = encode_all m.fields }

abbrev pub IsMessage : Schema → Message → Type 0
IsMessage schema m =
    (m.code < 2 ^ 16)
    × All InRange m.fields
    × (length (encode_all m.fields) ≤ 65530)
    × (schema m.code ≡ map kind_of m.fields)

-- The bytes of the packets that a host builds of messages.
abbrev pub packets_of : Endian → List Message → List ℕ
packets_of there [] = []
packets_of there (m ∷ ms) =
    content (build there m.code m.fields new_packet).1 ++ packets_of there ms

-- A program's packet callback: it reads the command and then the command's fields, and keeps them.
abbrev pub read_rest : Endian → Schema → ReaderPacket → ℕ → Exec (Unit {0}) Message
read_rest here schema p code = do
  fields ← lift (read_fields here p.buffer (schema code) p.index).0
  pure (record { code = code; fields = fields })

abbrev pub read_message : Endian → Schema → ReaderPacket → Outcome Message
read_message here schema p =
    ((do code ← lift (cmd here p.buffer); read_rest here schema p code) (tt {0})).0

-- What the program keeps for a client: how often it was told of its end, and what it has read.
pub record Inbox : Type 0 where
  pub ends : ℕ
  pub messages : List (Outcome Message)

abbrev pub holding : ℕ → List (Outcome Message) → Inbox
holding n ms = record { ends = n; messages = ms }

abbrev pub collect : Endian → Schema → ReaderPacket → Inbox → Inbox
collect here schema p u = holding u.ends (u.messages ++ (read_message here schema p ∷ []))

abbrev pub count_end : Inbox → Inbox
count_end u = holding (u.ends + 1) u.messages

abbrev pub on_message : Endian → Schema → ReaderPacket → Exec (World Inbox) (Unit {0})
on_message here schema p w =
    (done tt, (w.0, record (w.1) { user = collect here schema p (w.1).user }))

abbrev pub on_end : Exec (World Inbox) (Unit {0})
on_end w = (done tt, (w.0, record (w.1) { user = count_end (w.1).user }))

pub on_message-Users :
    (here : Endian) (schema : Schema)
    → Users (on_message here schema) on_end (collect here schema) count_end
on_message-Users here schema = record {
  packet_acts = λ p buf c h. refl;
  over_acts = λ buf c h. refl;
}

packets_of-encode_frames :
    (there : Endian) (schema : Schema) (ms : List Message)
    → All (IsMessage schema) ms
    → packets_of there ms ≡ encode_frames (map frame_of ms)
packets_of-encode_frames there schema [] h = refl
packets_of-encode_frames there schema (m ∷ ms) h =
    let (p, run, holds, _, _) = build-frame there there m.code m.fields h.0.0 h.0.1 h.0.2 in
    ap₂ ◌++◌ (ap (λ r. content r.1) run ∙ holds) (packets_of-encode_frames there schema ms h.1)

read_message_by :
    (here : Endian) (schema : Schema) (p : ReaderPacket) (m : Message)
    → cmd here p.buffer ≡ done m.code
    → (read_fields here p.buffer (schema m.code) p.index).0 ≡ done m.fields
    → read_message here schema p ≡ done m
read_message_by here schema p m code fields =
    ap (λ r. (proceed (read_rest here schema p) (r, tt {0})).0) code
    ∙ ap (λ r. (proceed (λ fs. pure (record { code = m.code; fields = fs })) (r, tt {0})).0) fields

-- A received packet is read as the message that it was built of.
read_message-received :
    (here : Endian) (schema : Schema) (m : Message)
    → IsMessage schema m
    → read_message here schema (received (encode_frame (frame_of m))) ≡ done m
read_message-received here schema m h =
    let (_, holds, v, starts) = received_lem (encode_frame (frame_of m)) (omega (arith, h.2)) in
    let (_, code) =
      header-read here (length (encode_all m.fields)) m.code (encode_all m.fields)
        (received (encode_frame (frame_of m))).buffer v holds (omega (arith, h.2)) h.0 in
    let fields =
      read_fields-encode_all here m.fields (received (encode_frame (frame_of m))).buffer
        (header (length (encode_all m.fields)) m.code) [] v h.1
        (holds
          ∙ ap (λ l. header (length (encode_all m.fields)) m.code ++ l)
              (sym (append-nil (encode_all m.fields))))
        (omega (arith, h.2)) in
    read_message_by here schema (received (encode_frame (frame_of m))) m code (
      ap₂ (λ ks i. (read_fields here (received (encode_frame (frame_of m))).buffer ks i).0) h.3
        starts
      ∙ ap (λ r. r.0) fields)

hand_over-messages :
    (here : Endian) (schema : Schema) (ms : List Message) (u : Inbox)
    → All (IsMessage schema) ms
    → hand_over (collect here schema) u (map frame_of ms)
      ≡ holding u.ends (u.messages ++ map done ms)
hand_over-messages here schema [] u h = ap (holding u.ends) (sym (append-nil u.messages))
hand_over-messages here schema (m ∷ ms) u h =
    hand_over-messages here schema ms _ h.1
    ∙ ap (λ r. holding u.ends (u.messages ++ (r ∷ []) ++ map done ms))
        (read_message-received here schema m h.0)
    ∙ ap (holding u.ends) (append_assoc u.messages (done m ∷ []) (map done ms))

-- All the bytes that the reads bring.
abbrev pub bytes_of : List Arrival → List ℕ
bytes_of [] = []
bytes_of (a ∷ as') = a.bytes ++ bytes_of as'

encode_frames-append :
    (gs hs : List Frame) → encode_frames (gs ++ hs) ≡ encode_frames gs ++ encode_frames hs
encode_frames-append [] hs = refl
encode_frames-append (g ∷ gs) hs =
    ap (λ l. encode_frame g ++ l) (encode_frames-append gs hs)
    ∙ sym (append_assoc (encode_frame g) (encode_frames gs) (encode_frames hs))

bytes_of-IsCut :
    (arrivals : List Arrival) (left : List ℕ)
    → IsCut left arrivals
    → left ++ bytes_of arrivals ≡ encode_frames (frames_of arrivals) ++ left_after left arrivals
bytes_of-IsCut [] left cut = append-nil left
bytes_of-IsCut (a ∷ as') left cut =
    sym (append_assoc left a.bytes (bytes_of as'))
    ∙ ap (λ l. l ++ bytes_of as') cut.0
    ∙ append_assoc (encode_frames a.frames) a.rest (bytes_of as')
    ∙ ap (λ l. encode_frames a.frames ++ l) (bytes_of-IsCut as' a.rest cut.5)
    ∙ sym (append_assoc (encode_frames a.frames) (encode_frames (frames_of as')) _)
    ∙ ap (λ l. l ++ left_after a.rest as') (sym (encode_frames-append a.frames (frames_of as')))

-- A peer of either byte order builds packets of messages whose numbers fit and whose fields take no
-- more than 65530 bytes. The network cuts their frames into reads, none of which completes more than
-- five or overfills the buffer. The client is there with its packet callback, which reads by the kinds
-- of fields of each command, and an empty buffer. Then the reads have brought exactly the bytes of the
-- peer's packets, the program has read exactly the peer's messages, in order and unchanged, and the
-- buffer is empty again.
pub reads-messages :
    (here there : Endian) (schema : Schema) (ms : List Message) (arrivals : List Arrival)
    (buf : Buffer) (c : Client Inbox)
    → IsValid buf
    → buf.capacity ≡ recv_capacity
    → IsReady c
    → content buf ≡ []
    → All (IsMessage schema) ms
    → IsCut [] arrivals
    → frames_of arrivals ≡ map frame_of ms
    → left_after [] arrivals ≡ []
    → (bytes_of arrivals ≡ packets_of there ms)
      × ((buf' : Buffer) × (c' : Client Inbox) × (reads here
              (on_message here schema)
              on_end
              arrivals
              (buf, c)
            ≡ (done tt, (buf', c')))
          × (c'.user ≡ holding c.user.ends (c.user.messages ++ map done ms))
          × (content buf' ≡ [])
          × IsReady c')
reads-messages here there schema ms arrivals buf c v size ready at_start h cut whole over =
    let (buf', c', run, user, left, ready') =
      reads-frames here (on_message here schema) on_end (collect here schema) count_end
        (on_message-Users here schema) arrivals [] buf c v size ready at_start cut in
    (
      bytes_of-IsCut arrivals [] cut
          ∙ ap₂ (λ gs l. encode_frames gs ++ l) whole over
          ∙ append-nil (encode_frames (map frame_of ms))
          ∙ sym (packets_of-encode_frames there schema ms h),
      (
        buf',
        c',
        run,
        user
            ∙ ap (hand_over (collect here schema) c.user) whole
            ∙ hand_over-messages here schema ms c.user h,
        left ∙ over,
        ready',
      ),
    )
