-- ===== src/Base/Bytes.antt =====
-- base/bytes.h: the values that readers and writers swap between the host's byte order and that of
-- the network. A value of a fixed-size type is its bit pattern, below 256 to its size.
use native.Mathlib.Nat.{pow-suc}
use libra_core.Common.{
  ℕ, zero, suc, ◌+◌, ◌*◌, ◌/◌, ◌%◌, ◌^◌, ◌<◌, ◌≡◌, refl, ap, ap₂, sym, ◌∙◌, List, [], ◌∷◌, reverse,
  arith, length, length-reverse, All, All-reverse,
}
use mathlib.Core.List.{reverse-reverse}

-- The byte order of the machine that runs the program.
pub data Endian : Type 0 where
  little big : Endian

pub data Scalar : Type 0 where
  int8 uint8 int16 uint16 int32 uint32 : Scalar

-- sizeof
abbrev pub size_of : Scalar → ℕ
size_of int8 = 1
size_of uint8 = 1
size_of int16 = 2
size_of uint16 = 2
size_of int32 = 4
size_of uint32 = 4

-- The bytes of a value, the lowest first, and the value of such bytes.
abbrev pub le_bytes : ℕ → ℕ → List ℕ
le_bytes zero v = []
le_bytes (suc n) v = (v % 256) ∷ le_bytes n (v / 256)

abbrev pub of_le_bytes : List ℕ → ℕ
of_le_bytes [] = 0
of_le_bytes (b ∷ bs) = b + 256 * of_le_bytes bs

-- Network byte order: the highest byte first.
abbrev pub be_bytes : ℕ → ℕ → List ℕ
be_bytes n v = reverse (le_bytes n v)

-- The bytes at `(char*)&v`, and the value of an object with such bytes.
pub object_bytes : Endian → ℕ → ℕ → List ℕ
object_bytes little n v = le_bytes n v
object_bytes big n v = be_bytes n v

pub object_value : Endian → List ℕ → ℕ
object_value little bs = of_le_bytes bs
object_value big bs = of_le_bytes (reverse bs)

-- htons, htonl, ntohs and ntohl, by the size in bytes.
unfoldable pub net_order : Endian → ℕ → ℕ → ℕ
net_order little n v = of_le_bytes (be_bytes n v)
net_order big n v = v

-- `SwapH2N<T>` and `SwapN2H<T>`.
unfoldable pub swap_h2n : Endian → Scalar → ℕ → ℕ
swap_h2n e int8 v = v
swap_h2n e uint8 v = v
swap_h2n e int32 v = net_order e 4 v
swap_h2n e uint32 v = net_order e 4 v
swap_h2n e int16 v = net_order e 2 v
swap_h2n e uint16 v = net_order e 2 v

unfoldable pub swap_n2h : Endian → Scalar → ℕ → ℕ
swap_n2h e int8 v = v
swap_n2h e uint8 v = v
swap_n2h e int32 v = net_order e 4 v
swap_n2h e uint32 v = net_order e 4 v
swap_n2h e int16 v = net_order e 2 v
swap_n2h e uint16 v = net_order e 2 v

abbrev pub Fits : Scalar → ℕ → Type 0
Fits s v = v < 256 ^ size_of s

pub length-le_bytes : (n v : ℕ) → length (le_bytes n v) ≡ n
length-le_bytes zero v = refl
length-le_bytes (suc n) v = ap suc (length-le_bytes n (v / 256))

pub length-be_bytes : (n v : ℕ) → length (be_bytes n v) ≡ n
length-be_bytes n v = length-reverse (le_bytes n v) ∙ length-le_bytes n v

pub of_le_bytes-le_bytes : (n v : ℕ) → v < 256 ^ n → of_le_bytes (le_bytes n v) ≡ v
of_le_bytes-le_bytes zero v h = omega arith
of_le_bytes-le_bytes (suc n) v h =
    omega (arith, of_le_bytes-le_bytes n (v / 256) (omega (arith, pow-suc 256 n)))

le_bytes-bytes : (n v : ℕ) → All (λ x. x < 256) (le_bytes n v)
le_bytes-bytes zero v = tt
le_bytes-bytes (suc n) v = (omega arith, le_bytes-bytes n (v / 256))

le_bytes-of_le_bytes :
    (bs : List ℕ) → All (λ x. x < 256) bs → le_bytes (length bs) (of_le_bytes bs) ≡ bs
le_bytes-of_le_bytes [] h = refl
le_bytes-of_le_bytes (b ∷ bs) h =
    ap₂ ◌∷◌ (omega (arith, h.0))
      (ap (le_bytes (length bs)) (omega (arith, h.0)) ∙ le_bytes-of_le_bytes bs h.1)

-- A written object and its reading, whatever the host's byte order.
wire-bytes :
    (e : Endian) (n v : ℕ) → v < 256 ^ n → object_bytes e n (net_order e n v) ≡ be_bytes n v
unfolding object_bytes net_order
wire-bytes little n v h =
    ap (λ m. le_bytes m (of_le_bytes (be_bytes n v))) (sym (length-be_bytes n v))
    ∙ le_bytes-of_le_bytes (be_bytes n v)
        (All-reverse (λ x. x < 256) (le_bytes n v) (le_bytes-bytes n v))
wire-bytes big n v h = refl

wire-value :
    (e : Endian) (n v : ℕ) → v < 256 ^ n → net_order e n (object_value e (be_bytes n v)) ≡ v
unfolding object_bytes object_value net_order
wire-value little n v h =
    ap (λ bs. of_le_bytes (reverse bs)) (wire-bytes little n v h)
    ∙ ap of_le_bytes (reverse-reverse (le_bytes n v))
    ∙ of_le_bytes-le_bytes n v h
wire-value big n v h = ap of_le_bytes (reverse-reverse (le_bytes n v)) ∙ of_le_bytes-le_bytes n v h

-- One byte has no order.
object_bytes-one : (e : Endian) (v : ℕ) → object_bytes e 1 v ≡ be_bytes 1 v
unfolding object_bytes
object_bytes-one little v = refl
object_bytes-one big v = refl

object_value-one : (e : Endian) (v : ℕ) → v < 256 → object_value e (be_bytes 1 v) ≡ v
unfolding object_value
object_value-one little v h = omega arith
object_value-one big v h = omega arith

-- What a value of each type becomes in a buffer: its bytes in network order.
pub wire-swap_h2n :
    (e : Endian) (s : Scalar) (v : ℕ)
    → Fits s v
    → object_bytes e (size_of s) (swap_h2n e s v) ≡ be_bytes (size_of s) v
unfolding swap_h2n
wire-swap_h2n e int8 v h = object_bytes-one e v
wire-swap_h2n e uint8 v h = object_bytes-one e v
wire-swap_h2n e int16 v h = wire-bytes e 2 v h
wire-swap_h2n e uint16 v h = wire-bytes e 2 v h
wire-swap_h2n e int32 v h = wire-bytes e 4 v h
wire-swap_h2n e uint32 v h = wire-bytes e 4 v h

pub wire-swap_n2h :
    (e : Endian) (s : Scalar) (v : ℕ)
    → Fits s v
    → swap_n2h e s (object_value e (be_bytes (size_of s) v)) ≡ v
unfolding swap_n2h
wire-swap_n2h e int8 v h = object_value-one e v h
wire-swap_n2h e uint8 v h = object_value-one e v h
wire-swap_n2h e int16 v h = wire-value e 2 v h
wire-swap_n2h e uint16 v h = wire-value e 2 v h
wire-swap_n2h e int32 v h = wire-value e 4 v h
wire-swap_n2h e uint32 v h = wire-value e 4 v h
