-- ===== src/Base/Buffer/Specification.antt =====
-- base/buffer.h: what the class promises: the operations on a bounded list of bytes.
use Prim.Native.Nat.{min}
use libra_core.Common.{
  ℕ, ◌+◌, ◌-◌, ◌^◌, ◌<◌, ◌≤◌, ◌≡◌, Bool, true, false, List, ◌++◌, Option, some, none, Outcome, Exec,
  ◌>>=◌, ◌>>◌, pure, raise, done, over_capacity, not_enough_capacity, not_enough_space, ltb, leb,
  if◌then◌else◌, length, take, drop, overwrite,
}
use libra_core.Base.Buffer.{Buffer, IsValid, content, set_size, get, set, append, remove, copy}

pub data Op : Type 0 where
  resizes : ℕ → Op
  appends copies : List ℕ → Op
  removes gets : ℕ → ℕ → Op
  sets : List ℕ → ℕ → Op

pub data Reply : Type 0 where
  nothing : Reply
  flag : Bool → Reply
  count : ℕ → Reply
  bytes : Option (List ℕ) → Reply

unfoldable pub step : Op → Exec Buffer Reply
step (resizes n) = do set_size n; pure nothing
step (appends buf) = do r ← append buf; pure (flag r)
step (copies buf) = do r ← copy buf; pure (flag r)
step (removes start len) = do r ← remove start len; pure (count r)
step (gets len index) = do r ← get len index; pure (bytes r)
step (sets buf index) = do r ← set buf index; pure (flag r)

-- The same operations on the data alone, for a buffer with room for `room` bytes.
unfoldable pub spec : ℕ → Op → Exec (List ℕ) Reply
spec room (resizes n) c =
    if ltb room n then raise (over_capacity room n) c else (done nothing, take n c)
spec room (appends buf) c =
    if ltb room (length c + length buf)
    then raise (not_enough_space (room - length c) (length buf)) c
    else (done (flag true), c ++ buf)
spec room (copies buf) c =
    if ltb room (length buf)
    then raise (not_enough_capacity room (length buf)) c
    else (done (flag true), buf)
spec room (removes start len) c =
    (done (count (min len (length c - start))), take start c ++ drop (start + len) c)
spec room (gets len index) c = (
  done (bytes (if leb (index + len) (length c) then some (take len (drop index c)) else none)),
  c,
)
spec room (sets buf index) c =
    if leb (index + length buf) (length c)
    then (done (flag true), overwrite index buf c)
    else (done (flag false), c)

-- The calls that stay inside of the array: no growth over bytes that were never written, no sum
-- beyond `size_t`, and a `remove` from the front or one whose move cannot pass the array's end.
abbrev pub IsSafe : Op → Buffer → Type 0
IsSafe (resizes n) b = n ≤ b.ptr
IsSafe (removes start len) b = (start + len < 2 ^ 64) × (start + b.ptr ≤ b.capacity)
IsSafe (gets len index) b = index + len < 2 ^ 64
IsSafe (sets buf index) b = index + length buf < 2 ^ 64
IsSafe _ b = Unit

abbrev pub Agrees : ℕ → Outcome Reply × Buffer → Outcome Reply × List ℕ → Type 0
Agrees room r t = (r.0 ≡ t.0) × (content r.1 ≡ t.1) × IsValid r.1 × (r.1.capacity ≡ room)
