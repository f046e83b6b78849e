-- ===== src/Base/Buffer/Content.antt =====
-- base/buffer.h: what each operation of a whole buffer returns, and what it leaves there.
use libra_core.Common.{
  ℕ, ◌+◌, ◌-◌, ◌^◌, ◌<◌, ◌≤◌, ◌≡◌, sym, ◌∙◌, true, false, List, ◌++◌, some, none, arith, done,
  throw, not_enough_capacity, not_enough_space, length, take, drop, overwrite, length-append,
  length-take, length-drop, length-overwrite, overwrite-eq-append, take-append_at, take-append_past,
  take-append_of_le, drop-take, take-take, length-take_of_le,
}
use libra_core.Base.Buffer.{Buffer, IsValid, content, get, set, append, remove, copy}

module _ {b : Buffer} (v : IsValid b) where
  pub length-content : length (content b) ≡ b.ptr
  length-content = length-take_of_le b.ptr b.memory (omega (arith, v.whole))

  -- The whole run of `append` where there is room.
  pub append-room :
      (buf : List ℕ)
      → b.ptr + length buf ≤ b.capacity
      → append buf b
        ≡ (done true, record b { memory = overwrite b.ptr buf b.memory; ptr = b.ptr + length buf })
  unfolding append
  append-room buf h = ground arith

  pub append-full :
      (buf : List ℕ)
      → b.capacity < b.ptr + length buf
      → append buf b ≡ (throw (not_enough_space (b.capacity - b.ptr) (length buf)), b)
  unfolding append
  append-full buf h = ground arith

  -- The content after a write at the end of the data.
  pub take-overwrite_end :
      (buf : List ℕ)
      → b.ptr + length buf ≤ b.capacity
      → take (b.ptr + length buf) (overwrite b.ptr buf b.memory) ≡ content b ++ buf
  take-overwrite_end buf h = rw (overwrite-eq-append b.ptr buf b.memory (omega (arith, v.whole))) (
      take-append_at _ (content b ++ buf) _
        (omega (arith, length-append (content b) buf, length-content)))

  pub copy-room :
      (buf : List ℕ)
      → length buf ≤ b.capacity
      → copy buf b ≡ (done true, record b { memory = overwrite 0 buf b.memory; ptr = length buf })
  unfolding copy
  copy-room buf h = ground arith

  pub copy-full :
      (buf : List ℕ)
      → b.capacity < length buf
      → copy buf b ≡ (throw (not_enough_capacity b.capacity (length buf)), b)
  unfolding copy
  copy-full buf h = ground arith

  pub written-IsValid :
      (index n : ℕ) (buf : List ℕ)
      → n ≤ b.capacity
      → IsValid (record b { memory = overwrite index buf b.memory; ptr = n })
  written-IsValid index n buf h = record {
    whole = length-overwrite index buf b.memory ∙ v.whole;
    within = h;
    small = v.small;
  }

  pub get-within :
      (len index : ℕ)
      → index + len ≤ b.ptr
      → get len index b ≡ (done (some (take len (drop index b.memory))), b)
  unfolding get
  get-within len index h = ground arith

  pub get-beyond :
      (len index : ℕ)
      → b.ptr < index + len
      → index + len < 2 ^ 64
      → get len index b ≡ (done none, b)
  unfolding get
  get-beyond len index h small = ground arith

  pub set-within :
      (buf : List ℕ) (index : ℕ)
      → index + length buf ≤ b.ptr
      → set buf index b ≡ (done true, record b { memory = overwrite index buf b.memory })
  unfolding set
  set-within buf index h = ground arith

  pub set-beyond :
      (buf : List ℕ) (index : ℕ)
      → b.ptr < index + length buf
      → index + length buf < 2 ^ 64
      → set buf index b ≡ (done false, b)
  unfolding set
  set-beyond buf index h small = ground arith

  pub remove-none : (start len : ℕ) → b.ptr ≤ start → remove start len b ≡ (done 0, b)
  unfolding remove
  remove-none start len h = ground arith

  pub remove-tail :
      (start len : ℕ)
      → start < b.ptr
      → b.ptr ≤ start + len
      → start + len < 2 ^ 64
      → remove start len b ≡ (done (b.ptr - start), record b { ptr = start })
  unfolding remove
  remove-tail start len h past small = ground arith

  -- The move reads as far as `start + ptr`, which must lie within the array.
  pub remove-middle :
      (start len : ℕ)
      → start + len < b.ptr
      → start + b.ptr ≤ b.capacity
      → remove start len b ≡ (
        done len,
        record b {
          memory = overwrite start (take (b.ptr - len) (drop (start + len) b.memory)) b.memory;
          ptr = b.ptr - len;
        },
      )
  unfolding remove
  remove-middle start len h room = ground (
    arith,
    length-take (b.ptr - len) (drop (start + len) b.memory),
    length-drop (start + len) b.memory,
  )

-- What `remove` leaves of the data, where the move stays within the array.
pub take-overwrite_down :
    (start len k : ℕ) (memory : List ℕ)
    → start + len + (start + k) ≤ length memory
    → take (start + k) (overwrite start (take (start + k) (drop (start + len) memory)) memory)
      ≡ take start (take (start + len + k) memory)
        ++ drop (start + len) (take (start + len + k) memory)
take-overwrite_down start len k memory h = rw (
  overwrite-eq-append start moved memory (omega (arith, long)),
  take-append_of_le (start + k) (take start memory ++ moved) _
      (omega (arith, length-append (take start memory) moved, first, long)),
  take-append_past start k (take start memory) moved (sym first),
  take-take k (start + k) (drop (start + len) memory) (omega arith),
  take-take start (start + len + k) memory (omega arith),
  drop-take (start + len) k memory,
)
  where
    moved : List ℕ
    moved = take (start + k) (drop (start + len) memory)

    long : length moved ≡ start + k
    long = omega (
      arith,
      length-take (start + k) (drop (start + len) memory),
      length-drop (start + len) memory,
    )

    first : length (take start memory) ≡ start
    first = omega (arith, length-take start memory)
