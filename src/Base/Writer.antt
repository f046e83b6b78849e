-- ===== src/Base/Writer.antt =====
-- base/buffer_writer.h. A writer is a pointer to a buffer: its methods act on the buffer.
use libra_core.Common.{
  ℕ, ◌%◌, ◌^◌, Bool, true, false, List, Exec, ◌>>=◌, ◌>>◌, pure, Text, length, take,
}
use libra_core.Base.Buffer.{sub_size}
use libra_core.Base.Buffer.Interface.{IBuffer}
use libra_core.Base.Bytes.{Endian, Scalar, uint32, size_of, object_bytes, swap_h2n}

module _ {B : Type 0} ⦃b : IBuffer B⦄ where
  unfoldable pub write : Endian → Scalar → ℕ → Exec B Bool
  write e s v = b.append (object_bytes e (size_of s) (swap_h2n e s v))

  unfoldable pub write_at : Endian → Scalar → ℕ → ℕ → Exec B Bool
  write_at e s v index = b.set (object_bytes e (size_of s) (swap_h2n e s v)) index

  -- Takes the four bytes of a string's length off again.
  unfoldable pub drop_length : Exec B Bool
  drop_length buf = (do b.remove (sub_size (b.size buf) 4) 4; pure false) buf

  written : Bool → Exec B Bool
  written true = pure true
  written false = drop_length

  body_of : Text → Bool → Exec B Bool
  body_of s false = pure false
  body_of s true = do ok ← b.append (take (length s % 2 ^ 32) s); written ok

  -- `size` is a `uint32_t`.
  unfoldable pub write_string : Endian → Text → Exec B Bool
  unfolding written body_of
  write_string e s = do ok ← write e uint32 (length s % 2 ^ 32); body_of s ok

  unfoldable pub write_bytes : List ℕ → Exec B Bool
  write_bytes buf = b.append buf
