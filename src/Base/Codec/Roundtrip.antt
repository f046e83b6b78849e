-- ===== src/Base/Codec/Roundtrip.antt =====
-- base/buffer_reader.h with base/buffer_writer.h: fields that are written and then read back.

use libra_core.Common.{
  ℕ, ◌+◌, ◌%◌, ◌^◌, ◌<◌, ◌≤◌, ◌≡◌, refl, ap, subst, sym, ◌∙◌, Bool, true, List, [], ◌∷◌, ◌++◌, map,
  arith, Exec, ◌>>◌, done, Text, length, length-append, append-nil, append_assoc, take_all,
}
use libra_core.Base.Buffer.Interface.{IBuffer, Honours, view}
use libra_core.Base.Bytes.{
  Endian, Scalar, uint32, size_of, be_bytes, length-be_bytes, wire-swap_h2n,
}
use libra_core.Base.Writer.{write, write_string}
use libra_core.Base.Codec.{
  Field, number, text, kind_of, InRange, encode, encode_all, write_field, write_fields, read_field,
  read_fields, Extends, append-Extends, read-part, read_string-part,
}
use libra_core.Common.{All}

module _ {B : Type 0} ⦃i : IBuffer B⦄ ⦃honours : Honours B⦄ where
  open honours use {Holds, length-view}

  -- A run that appends these bytes.
  abbrev pub Writes : Exec B Bool → List ℕ → Type 0
  Writes m bytes =
      (b : B)
      → Holds b
      → i.size b + length bytes ≤ i.capacity b
      → (b' : B) × (m b ≡ (done true, b')) × Extends b bytes b'

  pub ptr-Extends :
      (b b' : B) (bytes : List ℕ)
      → Holds b
      → Extends b bytes b'
      → i.size b' ≡ i.size b + length bytes
  ptr-Extends b b' bytes v x =
      omega
        (arith, length-view b v, length-view b' x.1, ap length x.0, length-append (view b) bytes)

  Extends-trans :
      (a b c : B) (xs ys : List ℕ) → Extends a xs b → Extends b ys c → Extends a (xs ++ ys) c
  Extends-trans a b c xs ys x y =
      (y.0 ∙ ap (λ l. l ++ ys) x.0 ∙ append_assoc (view a) xs ys, y.1, y.2 ∙ x.2)

  -- Two runs, one behind the other.
  then-Writes :
      (m n : Exec B Bool) (xs ys : List ℕ) → Writes m xs → Writes n ys → Writes (do m; n) (xs ++ ys)
  then-Writes m n xs ys wm wn b v h =
      let (b', run, x) = wm b v (omega (arith, length-append xs ys)) in
      let (b'', run', y) =
        wn b' x.1 (omega (arith, length-append xs ys, ptr-Extends b b' xs v x, x.2)) in
      (b'', rw run run', Extends-trans b b' b'' xs ys x y)

  pub write-Writes :
      (e : Endian) (s : Scalar) (v : ℕ)
      → v < 256 ^ size_of s
      → Writes (write e s v) (be_bytes (size_of s) v)
  unfolding write
  write-Writes e s x f b v h = rw (write, wire-swap_h2n e s x f) (append-Extends b _ v h)

  append-Writes : (buf : List ℕ) → Writes (i.append buf) buf
  append-Writes buf b v h = append-Extends b buf v h

  write_string-steps :
      (e : Endian) (t : Text) (b b' b'' : B)
      → length t < 2 ^ 31
      → write e uint32 (length t) b ≡ (done true, b')
      → i.append t b' ≡ (done true, b'')
      → write_string e t b ≡ (done true, b'')
  unfolding write_string
  write_string-steps e t b b' b'' small run run' =
      rw (mod_small, run, mod_small, take_all (length t) t (omega arith), run')
    where
      mod_small : length t % 2 ^ 32 ≡ length t
      mod_small = omega arith

  pub write_string-Writes :
      (e : Endian) (t : Text)
      → length t < 2 ^ 31
      → Writes (write_string e t) (be_bytes 4 (length t) ++ t)
  write_string-Writes e t small b v h =
      let (b', run, x) =
        write-Writes e uint32 (length t) (omega arith) b v (omega (arith, parts)) in
      let (b'', run', y) =
        append-Writes t b' x.1
          (omega (arith, parts, ptr-Extends b b' (be_bytes 4 (length t)) v x, x.2)) in
      (
        b'',
        write_string-steps e t b b' b'' small run run',
        Extends-trans b b' b'' (be_bytes 4 (length t)) t x y,
      )
    where
      parts : length (be_bytes 4 (length t) ++ t) ≡ length (be_bytes 4 (length t)) + length t
      parts = length-append (be_bytes 4 (length t)) t

  pub write_field-Writes :
      (e : Endian) (f : Field) → InRange f → Writes (write_field e f) (encode f)
  unfolding write_field
  write_field-Writes e (number s v) r = write-Writes e s v r
  write_field-Writes e (text t) r = write_string-Writes e t r

  -- Fields that fit are written as their encodings, one behind the other.
  pub write_fields-Writes :
      (e : Endian) (fs : List Field) → All InRange fs → Writes (write_fields e fs) (encode_all fs)
  unfolding write_fields
  write_fields-Writes e [] r b v h = (b, refl, (sym (append-nil (view b)), v, refl))
  write_fields-Writes e (f ∷ fs) r b v h =
      then-Writes (write_field e f) (write_fields e fs) (encode f) (encode_all fs)
        (write_field-Writes e f r.0) (write_fields-Writes e fs r.1) b v h

  read_field-part :
      (e : Endian) (f : Field) (b : B) (before after : List ℕ)
      → Holds b
      → InRange f
      → view b ≡ before ++ (encode f ++ after)
      → length before + length (encode f) < 2 ^ 31
      → read_field e b (kind_of f) (length before) ≡ (done f, length (before ++ encode f))
  unfolding read_field
  read_field-part e (number s x) b before after v r c h = rw (
    read-part e s x b before after v r c (omega (arith, length-be_bytes (size_of s) x)),
    length-append before (be_bytes (size_of s) x),
    length-be_bytes (size_of s) x,
  )
  read_field-part e (text t) b before after v r c h =
      rw
        (
          read_string-part e t b before after v r c (omega (arith, size)),
          length-append before (be_bytes 4 (length t) ++ t),
          size,
        )
        (ap (λ n. (done (text t), n)) (omega arith))
    where
      size : length (be_bytes 4 (length t) ++ t) ≡ 4 + length t
      size = omega (arith, length-append (be_bytes 4 (length t)) t, length-be_bytes 4 (length t))

  -- Fields that stand at the index are read as they were encoded, and the index ends behind them.
  pub read_fields-encode_all :
      (e : Endian) (fs : List Field) (b : B) (before after : List ℕ)
      → Holds b
      → All InRange fs
      → view b ≡ before ++ (encode_all fs ++ after)
      → length before + length (encode_all fs) < 2 ^ 31
      → read_fields e b (map kind_of fs) (length before)
        ≡ (done fs, length (before ++ encode_all fs))
  unfolding read_fields
  read_fields-encode_all e [] b before after v r c h = rw append-nil
  read_fields-encode_all e (f ∷ fs) b before after v r c h = rw (
    read_field-part e f b before (encode_all fs ++ after) v r.0
        (c ∙ ap (λ l. before ++ l) (append_assoc (encode f) (encode_all fs) after))
        (omega (arith, parts)),
    read_fields-encode_all e fs b (before ++ encode f) after v r.1
        (c
          ∙ ap (λ l. before ++ l) (append_assoc (encode f) (encode_all fs) after)
          ∙ sym (append_assoc before (encode f) (encode_all fs ++ after)))
        (omega (arith, parts, length-append before (encode f))),
    append_assoc before (encode f) (encode_all fs),
  )
    where
      parts : length (encode f ++ encode_all fs) ≡ length (encode f) + length (encode_all fs)
      parts = length-append (encode f) (encode_all fs)

  -- Fields that are written at the end of a buffer with room for them, by a host of either byte
  -- order, are read back by a host of either order from where the writing began, in order and
  -- unchanged, and the reader ends where the writing ended. The buffer is any `IBuffer` that honours
  -- the specification, as `Buffer` does.
  pub read_fields-write_fields :
      (here there : Endian) (fs : List Field) (b : B)
      → Holds b
      → i.capacity b < 2 ^ 31
      → All InRange fs
      → i.size b + length (encode_all fs) ≤ i.capacity b
      → (b' : B) × (write_fields here fs b ≡ (done true, b'))
        × (read_fields there b' (map kind_of fs) (i.size b) ≡ (done fs, i.size b'))
  read_fields-write_fields here there fs b v small r h =
      let (b', run, x) = write_fields-Writes here fs r b v h in (b', run, back b' x)
    where
      back :
          (b' : B)
          → Extends b (encode_all fs) b'
          → read_fields there b' (map kind_of fs) (i.size b) ≡ (done fs, i.size b')
      back b' x =
          subst (λ n. read_fields there b' (map kind_of fs) n ≡ (done fs, i.size b'))
            (length-view b v)
            (read_fields-encode_all there fs b' (view b) [] x.1 r
                (x.0 ∙ ap (λ l. view b ++ l) (sym (append-nil (encode_all fs))))
                (omega (arith, length-view b v))
              ∙ ap (λ n. (done fs, n)) (ap length (sym x.0) ∙ length-view b' x.1))
