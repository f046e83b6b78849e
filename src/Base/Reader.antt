-- ===== src/Base/Reader.antt =====
-- base/buffer_reader.h. A reader holds a pointer to a buffer, which others may write, and an `int`
-- of its own: each method takes the buffer as it stands and acts on `index`, kept as the 32-bit
-- pattern that the `int` has.
use libra_core.Common.{
  ℕ, ◌+◌, ◌-◌, ◌%◌, ◌^◌, Option, some, none, List, Exec, ◌>>=◌, ◌>>◌, pure, raise, done,
  reader_stop, ltb, if◌then◌else◌, Text,
}
use libra_core.Base.Buffer.Interface.{IBuffer}
use libra_core.Base.Bytes.{Endian, Scalar, uint32, size_of, object_value, swap_n2h}

-- An `int` as a `size_t`: a negative one comes out near 2 ^ 64.
abbrev pub as_size : ℕ → ℕ
as_size i = if ltb i (2 ^ 31) then i else 2 ^ 64 - 2 ^ 32 + i

-- `index_ += n` and `index_ -= n`, with `n` a `size_t`.
unfoldable pub advance : ℕ → Exec ℕ (Unit {0})
advance n i = (done tt, (as_size i + n) % 2 ^ 32)

unfoldable pub retreat : ℕ → Exec ℕ (Unit {0})
retreat n i = (done tt, (as_size i + 2 ^ 64 - n) % 2 ^ 32)

-- `buf_->get(…, len, index_)`.
unfoldable pub fetch : {B : Type 0} ⦃b : IBuffer B⦄ → B → ℕ → Exec ℕ (Option (List ℕ))
fetch ⦃b⦄ buf len i = ((b.get len (as_size i) buf).0, i)

unfoldable pub or_stop : Option (List ℕ) → Exec ℕ (List ℕ)
or_stop none = raise reader_stop
or_stop (some bytes) = pure bytes

unfoldable pub read : {B : Type 0} ⦃b : IBuffer B⦄ → Endian → Scalar → B → Exec ℕ ℕ
unfolding or_stop
read e s buf = do
  got ← fetch buf (size_of s)
  bytes ← or_stop got
  advance (size_of s)
  pure (swap_n2h e s (object_value e bytes))

string_or_stop : ℕ → Option (List ℕ) → Exec ℕ Text
string_or_stop size none = do retreat 4; raise reader_stop
string_or_stop size (some bytes) = do advance size; pure bytes

unfoldable pub read_string : {B : Type 0} ⦃b : IBuffer B⦄ → Endian → B → Exec ℕ Text
unfolding string_or_stop
read_string e buf = do size ← read e uint32 buf; got ← fetch buf size; string_or_stop size got

unfoldable pub read_bytes : {B : Type 0} ⦃b : IBuffer B⦄ → B → ℕ → Exec ℕ (List ℕ)
unfolding or_stop
read_bytes buf len = do got ← fetch buf len; bytes ← or_stop got; advance len; pure bytes
