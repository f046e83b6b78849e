-- ===== src/Net/Decoder/Frames.antt =====
-- net/decoder.cpp against the protocol: whole frames leave the buffer and reach the callback.
use libra_core.Common.{
  ℕ, zero, suc, ◌+◌, ◌%◌, ◌^◌, ◌<◌, ◌≤◌, ◌≡◌, refl, ap, subst, sym, ◌∙◌, ◌⊎◌, inl, inr, true, false,
  Option, some, List, [], ◌∷◌, ◌++◌, arith, done, length, length-append, take, drop, append_assoc,
  ltb, lt→ltb, le→ltb, Bool-cases, All, take-append-drop, take-append_of_le, take-append_at,
  drop-append_at, Bool, tests,
}
use libra_core.Base.Buffer.{Buffer, IsValid, content}
use libra_core.Base.Buffer.Content.{length-content}
use libra_core.Base.Buffer.Refinement.{remove-front}
use libra_core.Base.Bytes.{Endian}
use libra_core.Net.Packet.{ReaderPacket}
use libra_core.Net.Packet.Frame.{Frame, header, encode_frame}
use libra_core.Net.Decoder.{Callback, on_buffer, call, deliver, whole_packet, round, rounds, handle}
use libra_core.Net.Decoder.Header.{
  read_header-header, received, reader_packet-received, copy_packet-room,
}

-- What the protocol can say, and what a packet has room for.
abbrev pub IsFrame : Frame → Type 0
IsFrame g = (g.code < 2 ^ 16) × (length g.body < 2 ^ 16)

abbrev pub IsSmall : Frame → Type 0
IsSmall g = (g.code < 2 ^ 16) × (length g.body ≤ 65530)

-- The front of a frame, short of its end.
abbrev pub IsPartial : List ℕ → Type 0
IsPartial rest =
    (g : Frame) × (tail : List ℕ) × IsFrame g × (rest ++ tail ≡ encode_frame g) × (0 < length tail)

abbrev pub encode_frames : List Frame → List ℕ
encode_frames [] = []
encode_frames (g ∷ gs) = encode_frame g ++ encode_frames gs

-- A callback that returns and leaves the buffer alone, as long as the rest of the program is in
-- good order: then it acts on the rest as `f`, keeps it so, and the buffer's owner is there.
pub record Behaves {S : Type 0} (live : S → Bool) (cb : Callback S) (f : ReaderPacket → S → S)
    (Good : S → Type 0) : Type 0 where
  pub sees : (s : S) → Good s → live s ≡ true
  pub stays : (p : ReaderPacket) (s : S) → Good s → Good (f p s)
  pub acts :
      (p : ReaderPacket) (buf : Buffer) (s : S) → Good s → cb p (buf, s) ≡ (done tt, (buf, f p s))

-- The packets that a list of frames makes, handed over in order.
abbrev pub hand_over : {S : Type 0} → (ReaderPacket → S → S) → S → List Frame → S
hand_over f s [] = s
hand_over f s (g ∷ gs) = hand_over f (f (received (encode_frame g)) s) gs

pub hand_over-append :
    {S : Type 0} (f : ReaderPacket → S → S) (s : S) (gs hs : List Frame)
    → hand_over f s (gs ++ hs) ≡ hand_over f (hand_over f s gs) hs
hand_over-append f s [] hs = refl
hand_over-append f s (g ∷ gs) hs = hand_over-append f (f (received (encode_frame g)) s) gs hs

fewer : (n m : ℕ) (rest : List ℕ) → (suc n ≤ suc m) ⊎ IsPartial rest → (n ≤ m) ⊎ IsPartial rest
fewer n m rest (inl h) = inl (omega arith)
fewer n m rest (inr p) = inr p

module _ {S : Type 0} (live : S → Bool) (e : Endian) where
  -- With less than a frame in the buffer a round ends the loop and changes nothing.
  pub round-partial :
      (cb : Option (Callback S)) (b : Buffer) (s : S)
      → IsValid b
      → IsPartial (content b)
      → live s ≡ true
      → round live e cb (b, s) ≡ (done false, (b, s))
  unfolding round whole_packet
  round-partial cb b s v (g, tail, f, eq, more) l = elim (Bool-cases (ltb b.ptr 6)) [
    | inl short ↦ rw (l, short)
    | inr long ↦ rw (
      l,
      long,
      read_header-header e b v (length g.body) g.code (drop 6 (content b)) (front long) f.1 f.0,
      lt→ltb b.ptr ((6 + length g.body) % 2 ^ 32) (omega (arith, total, length-content v, f.1)),
    )
  ]
    where
      total : length (content b) + length tail ≡ 6 + length g.body
      total = omega (arith, length-append (content b) tail, ap length eq)

      front : ltb b.ptr 6 ≡ false → content b ≡ header (length g.body) g.code ++ drop 6 (content b)
      front long =
          sym (take-append-drop 6 (content b))
          ∙ ap (λ l. l ++ drop 6 (content b))
              (sym (take-append_of_le 6 (content b) tail (omega (tests, length-content v)))
                ∙ ap (take 6) eq)

  module _ (cb : Callback S) (f : ReaderPacket → S → S) (Good : S → Type 0)
      (behaves : Behaves live cb f Good) where
    open behaves use {sees, stays, acts}

    -- A whole frame at the front is taken out and handed over.
    pub round-frame :
        (g : Frame) (more : List ℕ) (b : Buffer) (s : S)
        → IsValid b
        → Good s
        → IsSmall g
        → content b ≡ encode_frame g ++ more
        → (b' : Buffer) × (round live e (some cb) (b, s)
            ≡ (done true, (b', f (received (encode_frame g)) s)))
          × (content b' ≡ more)
          × IsValid b'
          × (b'.capacity ≡ b.capacity)
    unfolding round whole_packet deliver call on_buffer
    round-frame g more b s v l small c =
        let (b', run, left, v', same) = remove-front b (6 + length g.body) v fits in
        (
          b',
          rw (
            sees s l,
            le→ltb b.ptr 6 (omega (arith, fits)),
            read_header-header e b v (length g.body) g.code (g.body ++ more)
                (c ∙ append_assoc (header (length g.body) g.code) g.body more)
                (omega (arith, small.1)) small.0,
            wraps,
            le→ltb b.ptr (6 + length g.body) fits,
            copy_packet-room b v (6 + length g.body) fits (omega (arith, small.1)),
            run,
            taken,
            reader_packet-received (encode_frame g),
            acts (received (encode_frame g)) b' s l,
          ),
          left
              ∙ ap (drop (6 + length g.body)) c
              ∙ drop-append_at (6 + length g.body) (encode_frame g) more (omega arith),
          v',
          same,
        )
      where
        fits : 6 + length g.body ≤ b.ptr
        fits = omega (arith, length-content v, ap length c, length-append (encode_frame g) more)

        wraps : (6 + length g.body) % 2 ^ 32 ≡ 6 + length g.body
        wraps = omega (arith, small.1)

        taken : take (6 + length g.body) (content b) ≡ encode_frame g
        taken =
            ap (take (6 + length g.body)) c
            ∙ take-append_at (6 + length g.body) (encode_frame g) more (omega arith)

    -- `n` rounds hand over the first `n` frames, or all that are there.
    pub rounds-frames :
        (n : ℕ) (gs : List Frame) (rest : List ℕ) (b : Buffer) (s : S)
        → IsValid b
        → Good s
        → All IsSmall gs
        → content b ≡ encode_frames gs ++ rest
        → (n ≤ length gs) ⊎ IsPartial rest
        → (b' : Buffer) × (rounds live e (some cb) n (b, s)
            ≡ (done tt, (b', hand_over f s (take n gs))))
          × (content b' ≡ encode_frames (drop n gs) ++ rest)
          × IsValid b'
          × (b'.capacity ≡ b.capacity)
    unfolding rounds
    rounds-frames zero gs rest b s v l small c ends = (b, refl, c, v, refl)
    rounds-frames (suc n) [] rest b s v l small c (inl h) = absurd (omega arith)
    rounds-frames (suc n) [] rest b s v l small c (inr part) = (
      b,
      rw (round-partial (some cb) b s v (subst IsPartial (sym c) part) (sees s l)),
      c,
      v,
      refl,
    )
    rounds-frames (suc n) (g ∷ gs) rest b s v l small c ends =
        let (b1, run, left, v1, same) =
          round-frame g (encode_frames gs ++ rest) b s v l small.0
            (c ∙ append_assoc (encode_frame g) (encode_frames gs) rest) in
        let (b2, run2, left2, v2, same2) =
          rounds-frames n gs rest b1 (f (received (encode_frame g)) s) v1
            (stays (received (encode_frame g)) s l) small.1 left (fewer n (length gs) rest ends) in
        (b2, rw (run, run2), left2, v2, same2 ∙ same)

    -- One call of `handle` on a buffer of whole frames and the front of another, or of five frames
    -- and anything else: it returns 0, hands over the first five frames in order, each in a packet
    -- of its own with the reader behind the header, and leaves all else in the buffer.
    pub handle-frames :
        (gs : List Frame) (rest : List ℕ) (b : Buffer) (s : S)
        → IsValid b
        → Good s
        → All IsSmall gs
        → content b ≡ encode_frames gs ++ rest
        → (5 ≤ length gs) ⊎ IsPartial rest
        → (b' : Buffer) × (handle live e (some cb) (b, s)
            ≡ (done 0, (b', hand_over f s (take 5 gs))))
          × (content b' ≡ encode_frames (drop 5 gs) ++ rest)
          × IsValid b'
          × (b'.capacity ≡ b.capacity)
    unfolding handle
    handle-frames gs rest b s v l small c ends =
        let (b', run, left, v', same) = rounds-frames 5 gs rest b s v l small c ends in
        (b', rw run, left, v', same)
