-- ===== src/Net/Decoder/Progress.antt =====
-- net/decoder.cpp: how many calls of `handle` it takes to empty a buffer.
use libra_core.Common.{
  ℕ, zero, suc, ◌+◌, ◌*◌, ◌≤◌, ◌≡◌, refl, ap, sym, ◌∙◌, inr, Option, some, List, [], ◌∷◌, ◌++◌,
  Exec, ◌>>◌, pure, done, arith, length, take, drop, take_all, drop_all, drop-drop, All, Bool,
  take-nil,
}
use native.Mathlib.Nat.{suc-add}
use libra_core.Base.Buffer.{Buffer, IsValid, content}
use libra_core.Base.Bytes.{Endian}
use libra_core.Net.Packet.{ReaderPacket}
use libra_core.Net.Packet.Frame.{Frame, encode_frame}
use libra_core.Net.Decoder.{Callback, handle}
use libra_core.Net.Decoder.Header.{received}
use libra_core.Net.Decoder.Frames.{
  Behaves, IsSmall, IsPartial, encode_frames, hand_over, hand_over-append, handle-frames,
}

module _ {ℓ} {A : Type ℓ} where
  take-add : (m n : ℕ) (xs : List A) → take (m + n) xs ≡ take m xs ++ take n (drop m xs)
  take-add zero n xs = ap (λ k. take k xs) (omega arith)
  take-add (suc m) n [] = take-nil (suc m + n) ∙ sym (take-nil n)
  take-add (suc m) n (x ∷ xs) = rw suc-add (ap (λ l. x ∷ l) (take-add m n xs))

  All-drop : (P : A → Type 0) (n : ℕ) (xs : List A) → All P xs → All P (drop n xs)
  All-drop P zero xs h = h
  All-drop P (suc n) [] h = tt
  All-drop P (suc n) (x ∷ xs) h = All-drop P n xs h.1

module _ {S : Type 0} (live : S → Bool) (e : Endian) where
  -- `n` calls, one after another.
  abbrev pub handles : Option (Callback S) → ℕ → Exec (Buffer × S) (Unit {0})
  handles cb zero = pure tt
  handles cb (suc n) = do handle live e cb; handles cb n

  module _ (cb : Callback S) (f : ReaderPacket → S → S) (Good : S → Type 0)
      (behaves : Behaves live cb f Good) where
    open behaves use {stays}

    hand_over-Good : (gs : List Frame) (s : S) → Good s → Good (hand_over f s gs)
    hand_over-Good [] s h = h
    hand_over-Good (g ∷ gs) s h =
        hand_over-Good gs (f (received (encode_frame g)) s) (stays (received (encode_frame g)) s h)

    handles-next :
        (rest : List ℕ) (m : ℕ) (hs : List Frame) (a : Buffer) (t : S)
        → IsValid a
        → Good t
        → All IsSmall hs
        → IsPartial rest
        → content a ≡ encode_frames hs ++ rest
        → (b' : Buffer) × (handles (some cb) m (a, t)
            ≡ (done tt, (b', hand_over f t (take (5 * m) hs))))
          × (content b' ≡ encode_frames (drop (5 * m) hs) ++ rest)
          × IsValid b'
          × (b'.capacity ≡ a.capacity)
    handles-next rest zero hs a t w k small' part c' = (a, refl, c', w, refl)
    handles-next rest (suc m) hs a t w k small' part c' =
        let (a1, run1, left1, w1, same1) =
          handle-frames live e cb f Good behaves hs rest a t w k small' c' (inr part) in
        let (b', run2, left2, w2, same2) =
          handles-next rest m (drop 5 hs) a1 (hand_over f t (take 5 hs)) w1
            (hand_over-Good (take 5 hs) t k) (All-drop IsSmall 5 hs small') part left1 in
        (
          b',
          rw (run1, run2)
              (ap (λ u. (done tt, (b', u)))
                (sym (hand_over-append f t (take 5 hs) (take (5 * m) (drop 5 hs)))
                  ∙ ap (hand_over f t)
                      (sym (take-add 5 (5 * m) hs) ∙ ap (λ k. take k hs) (omega arith)))),
          left2
              ∙ ap (λ l. encode_frames l ++ rest)
                  (drop-drop (5 * m) 5 hs ∙ ap (λ k. drop k hs) (omega arith)),
          w2,
          same2 ∙ same1,
        )

    -- The buffer is valid and holds frames that a packet has room for, then the front of another
    -- frame; the callback leaves the buffer alone and keeps the program in order. Every call of
    -- `handle` hands over the next five frames, in order, or all that are left: after `n` calls the
    -- first `5 * n` have reached the callback and the others are in the buffer. So with a fifth as
    -- many calls as there are frames, rounded up, all have reached it, and only the front of the last
    -- is left.
    pub handles-frames :
        (n : ℕ) (gs : List Frame) (rest : List ℕ) (b : Buffer) (s : S)
        → IsValid b
        → Good s
        → All IsSmall gs
        → IsPartial rest
        → content b ≡ encode_frames gs ++ rest
        → (b' : Buffer) × (handles (some cb) n (b, s)
            ≡ (done tt, (b', hand_over f s (take (5 * n) gs))))
          × (content b' ≡ encode_frames (drop (5 * n) gs) ++ rest)
          × (length gs ≤ 5 * n
              → (handles (some cb) n (b, s) ≡ (done tt, (b', hand_over f s gs)))
                × (content b' ≡ rest))
          × IsValid b'
          × (b'.capacity ≡ b.capacity)
    handles-frames n gs rest b s v g small part c =
        let (b', run, left, v', same) = handles-next rest n gs b s v g small part c in
        (
          b',
          run,
          left,
          λ enough. (
            run ∙ ap (λ l. (done tt, (b', hand_over f s l))) (take_all (5 * n) gs enough),
            left ∙ ap (λ l. encode_frames l ++ rest) (drop_all (5 * n) gs enough),
          ),
          v',
          same,
        )
