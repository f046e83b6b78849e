-- ===== src/Net/Tests.antt =====
-- net/: runs of the model on small inputs, and the theorems at such inputs.
use libra_core.Net.Decoder.Progress.{handles, handles-frames}
use libra_core.Common.{
  ℕ, Bool, ◌≡◌, refl, true, inl, inr, some, List, [], ◌∷◌, ◌++◌, arith, done, throw, bad_magic,
  codes, length, replicate, length-replicate, take, ◌≤◌, ◌+◌, not_enough_space, ◌-◌,
}
use libra_core.Base.Buffer.{Buffer, IsValid, content, dynamic_buffer, append}
use libra_core.Common.{none, Option, Text, not_implemented, invalid_address}
use libra_core.Net.Address.{
  Ipv4, from_host, from_sockaddr, family_of, length_of, addr_of, host_of, port_number,
  from_host-port_number,
}
use libra_core.Base.Bytes.{little, big, Endian, object_bytes}
use libra_core.Net.Packet.{ReaderPacket, packet_capacity}
use libra_core.Net.Packet.Frame.{Frame, encode_frame}
use libra_core.Net.Decoder.{Callback, handle}
use libra_core.Net.Decoder.Frames.{Behaves, hand_over, handle-frames, encode_frames}
use libra_core.Net.Decoder.Errors.{handle-alien, handle-oversize}
use libra_core.Net.Decoder.Safety.{IsSafe, handle-IsSafe}
use libra_core.Base.Buffer.Parts.{dynamic_buffer-IsValid, dynamic_buffer-capacity}

abbrev ping : Frame
ping = record { code = 1; body = 65 ∷ 66 ∷ [] }

-- Two frames and the first three bytes of another.
abbrev received_bytes : List ℕ
received_bytes = encode_frames (ping ∷ ping ∷ []) ++ (b'L' ∷ b'I' ∷ 0 ∷ [])

abbrev inbox : List ℕ → Buffer
inbox bytes = record { memory = bytes; capacity = length bytes; ptr = length bytes }

abbrev always : {S : Type 0} → S → Bool
always s = true

abbrev log : ReaderPacket → List (List ℕ) → List (List ℕ)
log p seen = content p.buffer ∷ seen

abbrev quiet : {S : Type 0} → (ReaderPacket → S → S) → Callback S
quiet f p (buf, s) = (done tt, (buf, f p s))

abbrev Anything : List (List ℕ) → Type 0
Anything s = Unit

log-Behaves : Behaves always (quiet log) log Anything
log-Behaves = record { sees = λ s g. refl; stays = λ p s g. tt; acts = λ p buf s g. refl }

handle-frames_example :
    (b' : Buffer) × (handle always little (some (quiet log)) (inbox received_bytes, [])
      ≡ (done 0, (b', hand_over log [] (ping ∷ ping ∷ []))))
    × (content b' ≡ b'L' ∷ b'I' ∷ 0 ∷ [])
    × IsValid b'
    × (b'.capacity ≡ 19)
handle-frames_example =
    handle-frames always little (quiet log) log Anything log-Behaves (ping ∷ ping ∷ [])
      (b'L' ∷ b'I' ∷ 0 ∷ []) (inbox received_bytes) [] (omega arith) tt (omega arith) refl
      (inr (ping, (2 ∷ 0 ∷ 1 ∷ 65 ∷ 66 ∷ []), omega arith, refl, omega arith))

abbrev alien_bytes : List ℕ
alien_bytes = b'G' ∷ b'E' ∷ b'T' ∷ 32 ∷ 47 ∷ 32 ∷ []

handle-alien_example :
    (b' : Buffer) × (handle always little
        (some (quiet log))
        (inbox (encode_frames (ping ∷ []) ++ alien_bytes), [])
      ≡ (throw bad_magic, (b', hand_over log [] (ping ∷ []))))
    × (content b' ≡ alien_bytes)
    × IsValid b'
handle-alien_example =
    handle-alien always little (quiet log) log Anything log-Behaves (ping ∷ []) alien_bytes
      (inbox (encode_frames (ping ∷ []) ++ alien_bytes)) [] (omega arith) tt (omega arith) refl
      (omega arith, omega arith, inl (omega arith), omega arith) (omega arith)

-- A frame of 65531 bytes of body, of which nothing has come.
abbrev long_frame : Frame
long_frame = record { code = 1; body = replicate 65531 0 }

length-long : length {A = ℕ} (replicate 65531 0) ≡ 65531
length-long = length-replicate {A = ℕ} 65531 0

fresh-content : content (dynamic_buffer packet_capacity) ≡ take 0 (encode_frame long_frame)
fresh-content = unfold dynamic_buffer in refl

handle-oversize_example :
    (handle always little (some (quiet log)) (dynamic_buffer packet_capacity, [])
      ≡ (done 0, (dynamic_buffer packet_capacity, [])))
    × ((more : List ℕ)
        → length (encode_frame long_frame) ≤ (dynamic_buffer packet_capacity).ptr + length more
        → append more (dynamic_buffer packet_capacity) ≡ (
          throw (
              not_enough_space
                ((dynamic_buffer packet_capacity).capacity - (dynamic_buffer packet_capacity).ptr)
                (length more)),
          dynamic_buffer packet_capacity,
        ))
handle-oversize_example =
    handle-oversize always little (some (quiet log)) long_frame 0 (dynamic_buffer packet_capacity)
      [] (dynamic_buffer-IsValid packet_capacity (omega arith)) refl
      (dynamic_buffer-capacity packet_capacity) (omega arith, omega (arith, length-long))
      (omega (arith, length-long)) fresh-content

handle-IsSafe_example :
    IsSafe Anything 6 (handle always little (some (quiet log)) (inbox alien_bytes, []))
handle-IsSafe_example =
    handle-IsSafe always little (quiet log) log Anything log-Behaves (inbox alien_bytes) []
      (omega arith) (omega arith) tt

-- An address of one host.
abbrev loopback : Text → Option (List ℕ)
loopback s = some (127 ∷ 0 ∷ 0 ∷ 1 ∷ [])

abbrev no_address : Text → Option (List ℕ)
no_address s = none

abbrev loopback_name : List ℕ → Option Text
loopback_name ia = some (codes "127.0.0.1")

from_host-port_number_example :
    ((ia : List ℕ)
      → loopback (codes "127.0.0.1") ≡ some ia
      → loopback_name ia ≡ some (codes "127.0.0.1")
      → (e : Endian)
      → (a : Ipv4) × (from_host loopback no_address e (codes "127.0.0.1") 80 ≡ done a)
        × (host_of loopback_name a ≡ done (codes "127.0.0.1"))
        × (family_of a ≡ 2)
        × (from_sockaddr (addr_of a) (length_of a) ≡ done a)
        × (object_bytes e 2 a.sin_port ≡ 0 ∷ 80 ∷ [])
        × (port_number a ≡ elim e [ big ↦ 80 | little ↦ 20480 ]))
    × ((ia : List ℕ) (e : Endian)
        → loopback (codes "127.0.0.1") ≡ none
        → no_address (codes "127.0.0.1") ≡ some ia
        → from_host loopback no_address e (codes "127.0.0.1") 80 ≡ throw not_implemented)
    × ((e : Endian)
        → loopback (codes "127.0.0.1") ≡ none
        → no_address (codes "127.0.0.1") ≡ none
        → from_host loopback no_address e (codes "127.0.0.1") 80 ≡ throw invalid_address)
from_host-port_number_example =
    from_host-port_number loopback no_address loopback_name (codes "127.0.0.1") 80 (omega arith)

-- Seven frames, which take two calls.
abbrev seven : List Frame
seven = replicate 7 ping

handles-frames_example :
    (b' : Buffer) × (handles always little (some (quiet log)) 2 (inbox (encode_frames seven), [])
      ≡ (done tt, (b', hand_over log [] seven)))
    × (content b' ≡ [])
    × (length seven ≤ 10
        → (handles always little (some (quiet log)) 2 (inbox (encode_frames seven), [])
            ≡ (done tt, (b', hand_over log [] seven)))
          × (content b' ≡ []))
    × IsValid b'
    × (b'.capacity ≡ 56)
handles-frames_example =
    handles-frames always little (quiet log) log Anything log-Behaves 2 seven []
      (inbox (encode_frames seven)) [] (omega arith) tt (omega arith)
      (ping, encode_frame ping, omega arith, refl, omega arith) refl
