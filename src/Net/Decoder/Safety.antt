-- ===== src/Net/Decoder/Safety.antt =====
-- net/decoder.cpp on any bytes at all: it stays within its buffers.
use libra_core.Base.Buffer.Interface.{buffer_interface}
use libra_core.Common.{
  ℕ, zero, suc, ◌+◌, ◌%◌, ◌^◌, ◌<◌, ◌≤◌, ◌≡◌, refl, subst, inl, inr, Bool, true, false, not, ◌||◌,
  some, arith, Outcome, Exec, ◌>>=◌, proceed, lift, pure, done, throw, fault, take, drop, ltb, ◌==◌,
  ltb-false→le, Bool-cases, if◌then◌else◌,
}
use libra_core.Base.Buffer.{Buffer, IsValid, content}
use libra_core.Net.Decoder.Frames.{Behaves}
use libra_core.Base.Buffer.Content.{get-within}
use libra_core.Base.Bytes.{Endian, Scalar, int8, uint16, size_of, object_value, swap_n2h}
use libra_core.Base.Reader.{as_size, fetch, or_stop, read}
use libra_core.Base.Codec.{advance_lem}
use libra_core.Net.Packet.{ReaderPacket, packet_capacity, header_size}
use libra_core.Net.Decoder.{
  Callback, read_header, whole_packet, deliver, call, on_buffer, round, rounds, handle,
}
use libra_core.Net.Decoder.Header.{received, copy_packet-room, reader_packet-received}
use libra_core.Base.Buffer.Refinement.{remove-front}

-- A call that returned or threw.
abbrev pub Ended : {A : Type 0} → Outcome A → Type 0
Ended (done a) = Unit
Ended (throw x) = Unit
Ended fault = ⊥

-- Whatever the bytes are, a read within the data ends behind them.
read-within :
    (e : Endian) (s : Scalar) (b : Buffer) (i : ℕ)
    → IsValid b
    → i + size_of s ≤ b.ptr
    → i + size_of s < 2 ^ 31
    → (x : ℕ) × (read e s b i ≡ (done x, i + size_of s))
unfolding read fetch or_stop
read-within e s b i v h small = (
  swap_n2h e s (object_value e (take (size_of s) (drop i b.memory))),
  rw (as_is, get-within v (size_of s) i h, advance_lem (size_of s) i small),
)
  where
    as_is : as_size i ≡ i
    as_is = ground arith

-- The header of any six bytes: two numbers, or a throw.
read_header-Ended : (e : Endian) (b : Buffer) → IsValid b → 6 ≤ b.ptr → Ended (read_header e b 0).0
unfolding read_header
read_header-Ended e b v h =
    let (a, ra) = read-within e int8 b 0 v (omega arith) (omega arith) in
    let (c, rc) = read-within e int8 b 1 v (omega arith) (omega arith) in
    let (n, rn) = read-within e uint16 b 2 v (omega arith) (omega arith) in
    let (k, rk) = read-within e uint16 b 4 v (omega arith) (omega arith) in
    rw (ra, rc)
      (elim (Bool-cases (not (a == b'L') || not (c == b'I'))) [
        | inl bad ↦ rw bad tt
        | inr good ↦ rw (good, rn, rk) tt
      ])

-- What holds after any round: nothing undefined was done, the buffer is whole, the program in order.
abbrev pub IsSafe : {S A : Type 0} → (S → Type 0) → ℕ → Outcome A × (Buffer × S) → Type 0
IsSafe Good room (r, (b, s)) = Ended r × IsValid b × (b.capacity ≡ room) × Good s

module _ {S : Type 0} (live : S → Bool) (e : Endian) (cb : Callback S) (f : ReaderPacket → S → S)
    (Good : S → Type 0) (behaves : Behaves live cb f Good) where
  open behaves use {sees, stays, acts}

  deliver-IsSafe :
      (total : ℕ) (b : Buffer) (s : S)
      → IsValid b
      → Good s
      → total ≤ b.ptr
      → b.capacity ≤ packet_capacity
      → IsSafe Good b.capacity (deliver live e (some cb) total (b, s))
  unfolding deliver on_buffer call
  deliver-IsSafe total b s v good h small =
      let (b', run, left, v', same) = remove-front b total v h in
      rw
        (
          copy_packet-room b v total h (omega (arith, v.within)),
          run,
          reader_packet-received (take total (content b)),
          acts (received (take total (content b))) b' s good,
        )
        (tt, v', same, stays (received (take total (content b))) s good)

  whole_packet-IsSafe :
      (total : ℕ) (b : Buffer) (s : S)
      → IsValid b
      → Good s
      → b.capacity ≤ packet_capacity
      → IsSafe Good b.capacity (whole_packet live e (some cb) total (b, s))
  unfolding whole_packet
  whole_packet-IsSafe total b s v good small = elim (Bool-cases (ltb b.ptr total)) [
    | inl short ↦ rw short (tt, v, refl, good)
    | inr long ↦ rw long (deliver-IsSafe total b s v good (ltb-false→le _ _ long) small)
  ]

  after_header :
      (b : Buffer) (s : S) (r : Outcome (ℕ × ℕ))
      → IsValid b
      → Good s
      → b.capacity ≤ packet_capacity
      → Ended r
      → IsSafe Good b.capacity (
          (do
            (body_len, code) ← lift r
            whole_packet live e (some cb) ((header_size + body_len) % 2 ^ 32))
            (b, s))
  after_header b s (done (n, k)) v good small ok =
      whole_packet-IsSafe ((header_size + n) % 2 ^ 32) b s v good small
  after_header b s (throw x) v good small ok = (tt, v, refl, good)
  after_header b s fault v good small ok = absurd ok

  round-IsSafe :
      (b : Buffer) (s : S)
      → IsValid b
      → Good s
      → b.capacity ≤ packet_capacity
      → IsSafe Good b.capacity (round live e (some cb) (b, s))
  unfolding round
  round-IsSafe b s v good small = elim (Bool-cases (ltb b.ptr 6)) [
    | inl short ↦ rw (sees s good, short) (tt, v, refl, good)
    | inr long ↦
        rw (sees s good, long)
          (after_header b s (read_header e b 0).0 v good small
            (read_header-Ended e b v (ltb-false→le _ _ long)))
  ]

  go_on :
      (room : ℕ) (rest : Exec (Buffer × S) (Unit {0})) (r : Outcome Bool × (Buffer × S))
      → ((b : Buffer) (s : S)
          → IsValid b
          → b.capacity ≡ room
          → Good s
          → IsSafe Good room (rest (b, s)))
      → IsSafe Good room r
      → IsSafe Good room (proceed (λ more. if more then rest else pure tt) r)
  go_on room rest (done true, (b, s)) next safe = next b s safe.1 safe.2 safe.3
  go_on room rest (done false, (b, s)) next safe = safe
  go_on room rest (throw x, (b, s)) next safe = safe
  go_on room rest (fault, (b, s)) next safe = absurd safe.0

  rounds-IsSafe :
      (n room : ℕ) (b : Buffer) (s : S)
      → IsValid b
      → b.capacity ≡ room
      → Good s
      → room ≤ packet_capacity
      → IsSafe Good room (rounds live e (some cb) n (b, s))
  unfolding rounds
  rounds-IsSafe zero room b s v same good small = (tt, v, same, good)
  rounds-IsSafe (suc n) room b s v same good small =
      go_on room (rounds live e (some cb) n) (round live e (some cb) (b, s))
        (λ b' s' v' same' good'. rounds-IsSafe n room b' s' v' same' good' small)
        (subst (λ k. IsSafe Good k (round live e (some cb) (b, s))) same
          (round-IsSafe b s v good (omega arith)))

  finish :
      (room : ℕ) (r : Outcome (Unit {0}) × (Buffer × S))
      → IsSafe Good room r
      → IsSafe Good room (proceed (λ _. pure {A = ℕ} 0) r)
  finish room (done a, (b, s)) safe = safe
  finish room (throw x, (b, s)) safe = safe
  finish room (fault, (b, s)) safe = absurd safe.0

  -- Whatever bytes a buffer of at most 64 KiB holds, `handle` returns or throws, and does nothing
  -- undefined; the buffer stays whole and keeps its capacity, and the program stays in order.
  pub handle-IsSafe :
      (b : Buffer) (s : S)
      → IsValid b
      → b.capacity ≤ packet_capacity
      → Good s
      → IsSafe Good b.capacity (handle live e (some cb) (b, s))
  unfolding handle
  handle-IsSafe b s v small good =
      finish b.capacity (rounds live e (some cb) 5 (b, s))
        (rounds-IsSafe 5 b.capacity b s v refl good small)
