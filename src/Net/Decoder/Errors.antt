-- ===== src/Net/Decoder/Errors.antt =====
-- net/decoder.cpp on what is no frame, or on a frame that has no room.
use libra_core.Common.{
  ℕ, zero, suc, ◌+◌, ◌-◌, ◌<◌, ◌≤◌, ◌≡◌, ap, ◌∙◌, ◌⊎◌, ◌≢◌, Option, some, List, [], ◌∷◌, ◌++◌,
  arith, done, throw, bad_magic, not_enough_space, length, length-append, take, drop,
  take-append-drop, append_assoc, le→ltb, All, Bool, true,
}
use libra_core.Base.Buffer.{Buffer, IsValid, content, append}
use libra_core.Base.Buffer.Content.{length-content, append-full}
use libra_core.Base.Bytes.{Endian}
use libra_core.Net.Packet.{ReaderPacket, packet_capacity}
use libra_core.Net.Packet.Frame.{Frame, encode_frame}
use libra_core.Net.Decoder.{Callback, round, rounds, handle}
use libra_core.Net.Decoder.Header.{read_header-bad, received}
use libra_core.Net.Decoder.Frames.{
  IsFrame, IsSmall, IsPartial, encode_frames, Behaves, hand_over, round-frame, round-partial,
}

-- Six bytes or more that do not begin with the magic letters.
abbrev pub IsAlien : List ℕ → Type 0
IsAlien [] = ⊥
IsAlien (x ∷ []) = ⊥
IsAlien (x ∷ y ∷ more) = (x < 256) × (y < 256) × ((x ≢ b'L') ⊎ (y ≢ b'I')) × (4 ≤ length more)

round-alien :
    {S : Type 0} (live : S → Bool) (e : Endian) (cb : Option (Callback S)) (bytes : List ℕ)
    (b : Buffer) (s : S)
    → IsValid b
    → live s ≡ true
    → content b ≡ bytes
    → IsAlien bytes
    → round live e cb (b, s) ≡ (throw bad_magic, (b, s))
unfolding round
round-alien live e cb [] b s v l c a = absurd a
round-alien live e cb (x ∷ []) b s v l c a = absurd a
round-alien live e cb (x ∷ y ∷ more) b s v l c (fx, fy, bad, long) = rw (
  l,
  le→ltb b.ptr 6 (omega (arith, length-content v, ap length c)),
  read_header-bad e b v x y more c fx fy bad,
)

module _ {S : Type 0} (live : S → Bool) (e : Endian) (cb : Callback S) (f : ReaderPacket → S → S)
    (Good : S → Type 0) (behaves : Behaves live cb f Good) where
  open behaves use {sees, stays}

  rounds-alien :
      (n : ℕ) (gs : List Frame) (bytes : List ℕ) (b : Buffer) (s : S)
      → IsValid b
      → Good s
      → All IsSmall gs
      → content b ≡ encode_frames gs ++ bytes
      → IsAlien bytes
      → length gs < n
      → (b' : Buffer) × (rounds live e (some cb) n (b, s)
          ≡ (throw bad_magic, (b', hand_over f s gs)))
        × (content b' ≡ bytes)
        × IsValid b'
  unfolding rounds
  rounds-alien zero gs bytes b s v l small c a few = absurd (omega arith)
  rounds-alien (suc n) [] bytes b s v l small c a few =
      (b, rw (round-alien live e (some cb) bytes b s v (sees s l) c a), c, v)
  rounds-alien (suc n) (g ∷ gs) bytes b s v l small c a few =
      let (b1, run, left, v1, same) =
        round-frame live e cb f Good behaves g (encode_frames gs ++ bytes) b s v l small.0
          (c ∙ append_assoc (encode_frame g) (encode_frames gs) bytes) in
      let (b2, run2, left2, v2) =
        rounds-alien n gs bytes b1 (f (received (encode_frame g)) s) v1
          (stays (received (encode_frame g)) s l) small.1 left a (omega arith) in
      (b2, rw (run, run2), left2, v2)

  -- Fewer than five frames and then six bytes or more without the magic letters: `handle` hands the
  -- frames over and throws, and the bytes from the wrong ones on stay in the buffer.
  pub handle-alien :
      (gs : List Frame) (bytes : List ℕ) (b : Buffer) (s : S)
      → IsValid b
      → Good s
      → All IsSmall gs
      → content b ≡ encode_frames gs ++ bytes
      → IsAlien bytes
      → length gs < 5
      → (b' : Buffer) × (handle live e (some cb) (b, s) ≡ (throw bad_magic, (b', hand_over f s gs)))
        × (content b' ≡ bytes)
        × IsValid b'
  unfolding handle
  handle-alien gs bytes b s v l small c a few =
      let (b', run, left, v') = rounds-alien 5 gs bytes b s v l small c a few in
      (b', rw run, left, v')

-- A frame whose body is longer than 65530 bytes can never be taken from a buffer of 64 KiB: however
-- much of it has come, `handle` returns and changes nothing, and as soon as what has come and the
-- next bytes make the whole frame, `append` throws and keeps the buffer as it was.
pub handle-oversize :
    {S : Type 0} (live : S → Bool) (e : Endian) (cb : Option (Callback S)) (g : Frame) (n : ℕ)
    (b : Buffer) (s : S)
    → IsValid b
    → live s ≡ true
    → b.capacity ≡ packet_capacity
    → IsFrame g
    → 65530 < length g.body
    → content b ≡ take n (encode_frame g)
    → (handle live e cb (b, s) ≡ (done 0, (b, s)))
      × ((more : List ℕ)
          → length (encode_frame g) ≤ b.ptr + length more
          → append more b ≡ (throw (not_enough_space (b.capacity - b.ptr) (length more)), b))
unfolding handle rounds
handle-oversize live e cb g n b s v l cap f large c = (
  rw (round-partial live e cb b s v part l),
  λ more whole. append-full v more (omega (arith, total)),
)
  where
    total : length (encode_frame g) ≡ 6 + length g.body
    total = omega arith

    part : IsPartial (content b)
    part = (
      g,
      drop n (encode_frame g),
      f,
      ap (λ l. l ++ drop n (encode_frame g)) c ∙ take-append-drop n (encode_frame g),
      omega (
        arith,
        length-content v,
        v.within,
        ap length c,
        length-append (take n (encode_frame g)) (drop n (encode_frame g)),
        ap length (take-append-drop n (encode_frame g)),
      ),
    )
