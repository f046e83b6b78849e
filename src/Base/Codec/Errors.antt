-- ===== src/Base/Codec/Errors.antt =====
-- base/buffer_reader.h and base/buffer_writer.h where the data or the room ends too early.
use libra_core.Base.Buffer.Interface.{buffer_interface, buffer_honours}
use libra_core.Common.{
  ℕ, ◌+◌, ◌-◌, ◌%◌, ◌^◌, ◌<◌, ◌≤◌, ◌≡◌, ap, ◌∙◌, true, List, ◌++◌, none, arith, done, throw,
  reader_stop, not_enough_space, Text, length, take_all, length-append,
}
use libra_core.Base.Buffer.{Buffer, IsValid, content, get}
use libra_core.Base.Buffer.Content.{length-content, get-beyond, append-full}
use libra_core.Base.Bytes.{Endian, Scalar, uint32, size_of, be_bytes, length-be_bytes}
use libra_core.Base.Reader.{as_size, retreat, fetch, read, read_string, read_bytes}
use libra_core.Base.Writer.{write, write_string}
use libra_core.Base.Codec.{read-part, Extends}
use libra_core.Base.Codec.Roundtrip.{write-Writes, ptr-Extends}

fetch-beyond :
    (b : Buffer) (len i : ℕ)
    → IsValid b
    → i < 2 ^ 31
    → len < 2 ^ 32
    → b.ptr < i + len
    → fetch b len i ≡ (done none, i)
unfolding fetch
fetch-beyond b len i v small fits h =
    ap (λ r. (r, i))
      (ap (λ k. (get len k b).0) as_is ∙ ap (λ r. r.0) (get-beyond v len i h (omega arith)))
  where
    as_is : as_size i ≡ i
    as_is = ground arith

size_of-lt : (s : Scalar) → size_of s < 2 ^ 32
size_of-lt s = ground arith

-- A read of a number or of bytes past the end of the data throws, and the index stays.
pub read-beyond :
    (e : Endian) (s : Scalar) (len i : ℕ) (b : Buffer)
    → IsValid b
    → i < 2 ^ 31
    → len < 2 ^ 32
    → (b.ptr < i + size_of s → read e s b i ≡ (throw reader_stop, i))
      × (b.ptr < i + len → read_bytes b len i ≡ (throw reader_stop, i))
unfolding read read_bytes
read-beyond e s len i b v small fits = (
  λ h. rw (fetch-beyond b (size_of s) i v small (size_of-lt s) h),
  λ h. rw (fetch-beyond b len i v small fits h),
)

retreat_lem : (i : ℕ) → i + 4 < 2 ^ 31 → retreat 4 (i + 4) ≡ (done tt, i)
unfolding retreat
retreat_lem i h = ground arith

-- A text whose length is there and whose bytes are not: `read_string` throws, and puts the index
-- back before the length.
pub read_string-cut :
    (e : Endian) (n : ℕ) (b : Buffer) (before after : List ℕ)
    → IsValid b
    → n < 2 ^ 32
    → content b ≡ before ++ (be_bytes 4 n ++ after)
    → length after < n
    → length before + 4 < 2 ^ 31
    → read_string e b (length before) ≡ (throw reader_stop, length before)
unfolding read_string
read_string-cut e n b before after v fits c short small = rw (
  read-part e uint32 n b before after v (omega arith) c small,
  fetch-beyond b n (length before + 4) v small fits (
      omega (
        arith,
        length-content v,
        ap length c,
        length-append before (be_bytes 4 n ++ after),
        length-append (be_bytes 4 n) after,
        length-be_bytes 4 n,
      )),
  retreat_lem (length before) small,
)

-- A text for whose length there is room and for whose bytes there is not: `write_string` throws
-- from the second `append`, and the four bytes of the length stay in the buffer.
write_string-cut :
    (e : Endian) (t : Text) (b : Buffer)
    → IsValid b
    → length t < 2 ^ 32
    → b.ptr + 4 ≤ b.capacity
    → b.capacity < b.ptr + 4 + length t
    → (b' : Buffer) × (write_string e t b
        ≡ (throw (not_enough_space (b.capacity - (b.ptr + 4)) (length t)), b'))
      × Extends b (be_bytes 4 (length t)) b'
unfolding write_string
write_string-cut e t b v fits room full =
    let (b', run, x) =
      write-Writes e uint32 (length t) (omega arith) b v
        (omega (arith, length-be_bytes 4 (length t))) in
    (b', stopped b' run x, x)
  where
    mod_small : length t % 2 ^ 32 ≡ length t
    mod_small = omega arith

    stopped :
        (b' : Buffer)
        → write e uint32 (length t) b ≡ (done true, b')
        → Extends b (be_bytes 4 (length t)) b'
        → write_string e t b ≡ (throw (not_enough_space (b.capacity - (b.ptr + 4)) (length t)), b')
    stopped b' run x = rw (
      mod_small,
      run,
      mod_small,
      take_all (length t) t (omega arith),
      append-full x.1 t (omega (arith, end, x.2)),
      x.2,
      end,
    )
      where
        end : b'.ptr ≡ b.ptr + 4
        end =
            omega
              (arith, ptr-Extends b b' (be_bytes 4 (length t)) v x, length-be_bytes 4 (length t))
