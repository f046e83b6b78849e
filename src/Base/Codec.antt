-- ===== src/Base/Codec.antt =====
-- base/buffer_reader.h with base/buffer_writer.h: what is written is what is read back.
pub mod Roundtrip
pub mod Errors
use libra_core.Common.{
  ℕ, ◌+◌, ◌^◌, ◌<◌, ◌≤◌, ◌≡◌, refl, ap, ap₂, subst, sym, ◌∙◌, Bool, true, List, [], ◌∷◌, ◌++◌, some,
  arith, Exec, ◌>>=◌, ◌>>◌, pure, done, Text, length, length-append, append_assoc, take, drop,
  drop-append_self, take-append_self,
}
use libra_core.Base.Buffer.Interface.{IBuffer, Honours, view, append-honoured, get-honoured}
use libra_core.Base.Bytes.{
  Endian, Scalar, uint32, size_of, Fits, be_bytes, length-be_bytes, wire-swap_n2h,
}
use libra_core.Base.Reader.{as_size, advance, fetch, read, read_string}
use libra_core.Base.Writer.{write, write_string}

-- A value that a protocol sends, its type, and the type's values.
pub data Field : Type 0 where
  number : Scalar → ℕ → Field
  text : Text → Field

pub data Kind : Type 0 where
  numbers : Scalar → Kind
  texts : Kind

abbrev pub kind_of : Field → Kind
kind_of (number s v) = numbers s
kind_of (text t) = texts

abbrev pub InRange : Field → Type 0
InRange (number s v) = Fits s v
InRange (text t) = length t < 2 ^ 31

-- The bytes on the wire: numbers in network order, a text behind its length.
abbrev pub encode : Field → List ℕ
encode (number s v) = be_bytes (size_of s) v
encode (text t) = be_bytes 4 (length t) ++ t

abbrev pub encode_all : List Field → List ℕ
encode_all [] = []
encode_all (f ∷ fs) = encode f ++ encode_all fs

module _ {B : Type 0} ⦃i : IBuffer B⦄ where
  pub write_field : Endian → Field → Exec B Bool
  write_field e (number s v) = write e s v
  write_field e (text t) = write_string e t

  pub write_fields : Endian → List Field → Exec B Bool
  unfolding write_field
  write_fields e [] = pure true
  write_fields e (f ∷ fs) = do write_field e f; write_fields e fs

  pub read_field : Endian → B → Kind → Exec ℕ Field
  read_field e buf (numbers s) = do v ← read e s buf; pure (number s v)
  read_field e buf texts = do t ← read_string e buf; pure (text t)

  pub read_fields : Endian → B → List Kind → Exec ℕ (List Field)
  read_fields e buf [] = pure []
  read_fields e buf (k ∷ ks) = do f ← read_field e buf k; fs ← read_fields e buf ks; pure (f ∷ fs)

pub advance_lem : (n i : ℕ) → i + n < 2 ^ 31 → advance n i ≡ (done tt, i + n)
unfolding advance
advance_lem n i h = ground arith

module _ {B : Type 0} ⦃i : IBuffer B⦄ ⦃h : Honours B⦄ where
  open h use {Holds, length-view}

  -- The state after bytes have been added at the end.
  abbrev pub Extends : B → List ℕ → B → Type 0
  Extends b bytes b' = (view b' ≡ view b ++ bytes) × Holds b' × (i.capacity b' ≡ i.capacity b)

  pub append-Extends :
      (b : B) (buf : List ℕ)
      → Holds b
      → i.size b + length buf ≤ i.capacity b
      → (b' : B) × (i.append buf b ≡ (done true, b')) × Extends b buf b'
  append-Extends b buf v fits =
      let (b', run, holds, v', same) = append-honoured b buf v fits in (b', run, (holds, v', same))

  pub fetch-part :
      (b : B) (before part after : List ℕ) (n : ℕ)
      → Holds b
      → view b ≡ before ++ (part ++ after)
      → n ≡ length part
      → length before < 2 ^ 31
      → fetch b n (length before) ≡ (done (some part), length before)
  unfolding fetch
  fetch-part b before part after n v c e small =
      ap (λ r. (r, length before))
        (ap₂ (λ k j. (i.get k j b).0) e as_is
          ∙ get-honoured b (length part) (length before) v within
          ∙ ap (λ l. done (some l))
              (ap (λ l. take (length part) (drop (length before) l)) c ∙ taken))
    where
      as_is : as_size (length before) ≡ length before
      as_is = ground arith

      within : length before + length part ≤ i.size b
      within = omega (
        arith,
        length-view b v,
        ap length c,
        length-append before (part ++ after),
        length-append part after,
      )

      taken : take (length part) (drop (length before) (before ++ (part ++ after))) ≡ part
      taken =
          ap (take (length part)) (drop-append_self before (part ++ after))
          ∙ take-append_self part after

  -- Reading a number that stands at the index.
  pub read-part :
      (e : Endian) (s : Scalar) (x : ℕ) (b : B) (before after : List ℕ)
      → Holds b
      → Fits s x
      → view b ≡ before ++ (be_bytes (size_of s) x ++ after)
      → length before + size_of s < 2 ^ 31
      → read e s b (length before) ≡ (done x, length before + size_of s)
  unfolding read
  read-part e s x b before after v f c small = rw (
    fetch-part b before (be_bytes (size_of s) x) after (size_of s) v c
        (sym (length-be_bytes (size_of s) x)) (omega arith),
    advance_lem (size_of s) (length before) small,
    wire-swap_n2h e s x f,
  )

  -- And a text.
  pub read_string-part :
      (e : Endian) (t : Text) (b : B) (before after : List ℕ)
      → Holds b
      → length t < 2 ^ 31
      → view b ≡ before ++ ((be_bytes 4 (length t) ++ t) ++ after)
      → length before + 4 + length t < 2 ^ 31
      → read_string e b (length before) ≡ (done t, length before + 4 + length t)
  unfolding read_string
  read_string-part e t b before after v f c small = rw (
    read-part e uint32 (length t) b before (t ++ after) v (omega arith)
        (c ∙ ap (λ l. before ++ l) (append_assoc (be_bytes 4 (length t)) t after)) (omega arith),
    past_length,
    advance_lem (length t) (length before + 4) small,
  )
    where
      head_length : length (before ++ be_bytes 4 (length t)) ≡ length before + 4
      head_length =
          omega (arith, length-append before (be_bytes 4 (length t)), length-be_bytes 4 (length t))

      past_length : fetch b (length t) (length before + 4) ≡ (done (some t), length before + 4)
      past_length =
          subst (λ n. fetch b (length t) n ≡ (done (some t), n)) head_length
            (fetch-part b (before ++ be_bytes 4 (length t)) t after (length t) v
              (c
                ∙ ap (λ l. before ++ l) (append_assoc (be_bytes 4 (length t)) t after)
                ∙ sym (append_assoc before (be_bytes 4 (length t)) (t ++ after)))
              refl (omega (arith, head_length)))
