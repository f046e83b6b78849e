-- ===== src/Base/Buffer.antt =====
-- base/buffer.h: `Buffer` and the three classes below it, which differ in where the capacity
-- stands. `memory` is the array behind `data_`, one number below 256 to a byte. Reads and writes
-- beyond the array are faults; `size_t` is 64 bits wide.
pub mod Content
pub mod Parts
pub mod Indexing
pub mod Specification
pub mod Refinement
pub mod Faults
pub mod Interface
use libra_core.Common.{
  ℕ, ◌+◌, ◌-◌, ◌%◌, ◌^◌, ◌<◌, ◌≤◌, ◌≡◌, Bool, true, false, List, [], ◌∷◌, Option, some, none,
  Outcome, Exec, ◌>>=◌, ◌>>◌, pure, raise, done, fault, ℤ, pos, negsuc, over_capacity,
  not_enough_capacity, not_enough_space, out_of_index, ltb, leb, if◌then◌else◌, length, take, drop,
  replicate, overwrite, get_elem?,
}

-- `a + b` and `a - b` on `size_t`.
abbrev pub add_size : ℕ → ℕ → ℕ
add_size a b = (a + b) % 2 ^ 64

abbrev pub sub_size : ℕ → ℕ → ℕ
sub_size a b = (a + 2 ^ 64 - b) % 2 ^ 64

pub record Buffer : Type 0 where
  pub memory : List ℕ
  pub capacity : ℕ
  pub ptr : ℕ

-- memcpy out of the array, into it, and memmove within it.
unfoldable pub load_bytes : ℕ → ℕ → Exec Buffer (List ℕ)
load_bytes index len b =
    if leb (index + len) (length b.memory)
    then (done (take len (drop index b.memory)), b)
    else (fault, b)

unfoldable pub store_bytes : ℕ → List ℕ → Exec Buffer (Unit {0})
store_bytes index buf b =
    if leb (index + length buf) (length b.memory)
    then (done tt, record b { memory = overwrite index buf b.memory })
    else (fault, b)

pub set_ptr : ℕ → Exec Buffer (Unit {0})
set_ptr n b = (done tt, record b { ptr = n })

pub free_size : Buffer → ℕ
free_size b = sub_size b.capacity b.ptr

unfoldable pub set_size : ℕ → Exec Buffer (Unit {0})
unfolding set_ptr
set_size n b = if ltb b.capacity n then raise (over_capacity b.capacity n) b else set_ptr n b

-- `operator[]`, as a value and as the target of an assignment.
in_range : ℤ → Buffer → Bool
in_range (negsuc n) b = false
in_range (pos n) b = ltb n b.ptr

byte_at : ℤ → Buffer → Option ℕ
byte_at (negsuc n) b = none
byte_at (pos n) b = get_elem? b.memory n

or_fault : Option ℕ → Exec Buffer ℕ
or_fault none b = (fault, b)
or_fault (some v) b = (done v, b)

pub at : ℤ → Exec Buffer ℕ
unfolding in_range byte_at or_fault
at i b = if in_range i b then or_fault (byte_at i b) b else raise (out_of_index i b.ptr) b

write_at : ℤ → ℕ → Exec Buffer (Unit {0})
unfolding store_bytes
write_at (negsuc n) v b = (fault, b)
write_at (pos n) v b = store_bytes n (v ∷ []) b

pub assign_at : ℤ → ℕ → Exec Buffer (Unit {0})
unfolding in_range write_at
assign_at i v b = if in_range i b then write_at i v b else raise (out_of_index i b.ptr) b

-- `false` is `none`: the caller's array keeps what it holds.
unfoldable pub get : ℕ → ℕ → Exec Buffer (Option (List ℕ))
unfolding load_bytes
get len index b =
    if ltb b.ptr (add_size index len)
    then (done none, b)
    else (do bytes ← load_bytes index len; pure (some bytes)) b

unfoldable pub set : List ℕ → ℕ → Exec Buffer Bool
unfolding store_bytes
set buf index b =
    if ltb b.ptr (add_size index (length buf))
    then (done false, b)
    else (do store_bytes index buf; pure true) b

unfoldable pub append : List ℕ → Exec Buffer Bool
unfolding free_size store_bytes set_ptr
append buf b =
    if ltb (free_size b) (length buf)
    then raise (not_enough_space (free_size b) (length buf)) b
    else (do store_bytes b.ptr buf; set_ptr (add_size b.ptr (length buf)); pure true) b

unfoldable pub remove : ℕ → ℕ → Exec Buffer ℕ
unfolding load_bytes store_bytes set_ptr
remove start len b =
    if leb b.ptr start
    then (done 0, b)
    else if leb b.ptr (add_size start len)
    then (do set_ptr start; pure (b.ptr - start)) b
    else (do
      bytes ← load_bytes (start + len) (sub_size b.ptr len)
      store_bytes start bytes
      set_ptr (sub_size b.ptr len)
      pure len)
        b

unfoldable pub copy : List ℕ → Exec Buffer Bool
unfolding store_bytes set_ptr
copy buf b =
    if ltb b.capacity (length buf)
    then raise (not_enough_capacity b.capacity (length buf)) b
    else (do store_bytes 0 buf; set_ptr (length buf); pure true) b

-- `operator=`, where the two buffers are not one object.
unfoldable pub assign : Buffer → Exec Buffer (Unit {0})
unfolding copy
assign other = do copy (take other.ptr other.memory); pure tt

-- The constructors of `DynamicBuffer` and `StaticBuffer`, and of `WrapBuffer` over `buff`.
unfoldable pub dynamic_buffer : ℕ → Buffer
dynamic_buffer n = record { memory = replicate n 0; capacity = n; ptr = 0 }

unfoldable pub static_buffer : ℕ → Buffer
static_buffer n = record { memory = replicate n 0; capacity = n; ptr = 0 }

unfoldable pub wrap_buffer : List ℕ → ℕ → ℕ → Outcome (Unit {0}) × Buffer
unfolding set_size
wrap_buffer buff n size_of = set_size n (record { memory = buff; capacity = size_of; ptr = 0 })

-- The object is whole: the array has the capacity, and the size lies within it.
pub record IsValid (b : Buffer) : Type 0 where
  pub whole : length b.memory ≡ b.capacity
  pub within : b.ptr ≤ b.capacity
  pub small : b.capacity < 2 ^ 63

-- The bytes that a client of the buffer sees.
abbrev pub content : Buffer → List ℕ
content b = take b.ptr b.memory
