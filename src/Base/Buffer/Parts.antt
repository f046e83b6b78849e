-- ===== src/Base/Buffer/Parts.antt =====
-- base/buffer.h: what is read from and written to a part of a whole buffer, and
-- the buffers that the constructors make.
use libra_core.Common.{
  ℕ, ◌+◌, ◌-◌, ◌^◌, ◌<◌, ◌≤◌, ◌≡◌, refl, sym, ap, ◌∙◌, true, List, arith, done, length, take, drop,
  overwrite, length-replicate, take-replicate, take-overwrite, replicate, drop-take, take-take,
}
use libra_core.Base.Buffer.{Buffer, IsValid, content, set_size, static_buffer, dynamic_buffer, set}
use libra_core.Base.Buffer.Content.{written-IsValid, set-within}

module _ {b : Buffer} (v : IsValid b) where
  pub slice-content :
      (len index : ℕ)
      → index + len ≤ b.ptr
      → take len (drop index b.memory) ≡ take len (drop index (content b))
  slice-content len index w =
      sym (take-take len (b.ptr - index) (drop index b.memory) (omega arith))
      ∙ ap (take len) (sym (drop-take index (b.ptr - index) b.memory))
      ∙ ap (λ n. take len (drop index (take n b.memory))) (omega arith)

-- The state after bytes have been written over a part of the data.
abbrev pub Overwrites : Buffer → ℕ → List ℕ → Buffer → Type 0
Overwrites b index bytes b' =
    (content b' ≡ overwrite index bytes (content b))
    × IsValid b'
    × (b'.ptr ≡ b.ptr)
    × (b'.capacity ≡ b.capacity)

pub set-Overwrites :
    (b : Buffer) (index : ℕ) (bytes : List ℕ)
    → IsValid b
    → index + length bytes ≤ b.ptr
    → (b' : Buffer) × (set bytes index b ≡ (done true, b')) × Overwrites b index bytes b'
set-Overwrites b index bytes v h = (
  record b { memory = overwrite index bytes b.memory },
  set-within v bytes index h,
  (
    take-overwrite b.ptr index bytes b.memory,
    written-IsValid v index b.ptr bytes v.within,
    refl,
    refl,
  ),
)

pub static_buffer-IsValid : (n : ℕ) → n < 2 ^ 63 → IsValid (static_buffer n)
unfolding static_buffer
static_buffer-IsValid n h = record { whole = length-replicate n 0; within = omega arith; small = h }

pub static_buffer-capacity : (n : ℕ) → (static_buffer n).capacity ≡ n
unfolding static_buffer
static_buffer-capacity n = refl

pub dynamic_buffer-capacity : (n : ℕ) → (dynamic_buffer n).capacity ≡ n
unfolding dynamic_buffer
dynamic_buffer-capacity n = refl

pub dynamic_buffer-IsValid : (n : ℕ) → n < 2 ^ 63 → IsValid (dynamic_buffer n)
unfolding dynamic_buffer
dynamic_buffer-IsValid n h = record {
  whole = length-replicate n 0;
  within = omega arith;
  small = h;
}

-- A fresh buffer, with its first `m` zero bytes taken as data.
pub set_size-static_buffer :
    (m k : ℕ)
    → m + k < 2 ^ 63
    → (b : Buffer) × (set_size m (static_buffer (m + k)) ≡ (done tt, b))
      × (content b ≡ replicate m 0)
      × IsValid b
      × (b.ptr ≡ m)
      × (b.capacity ≡ m + k)
unfolding set_size static_buffer
set_size-static_buffer m k h = (
  record (static_buffer (m + k)) { ptr = m },
  ground arith,
  take-replicate m k 0,
  record { whole = length-replicate (m + k) 0; within = omega arith; small = h },
  refl,
  refl,
)
