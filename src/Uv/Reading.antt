-- ===== src/Uv/Reading.antt =====
-- uv/stream.h: the memory of a read, from libuv's request for it to the report of what has come.
pub mod Freed
use libra_core.Common.{
  ℕ, ◌+◌, ◌^◌, List, [], ◌∷◌, ◌++◌, Option, none, some, Outcome, Exec, ◌>>◌, ◌>>=◌, raise, done,
  throw, fault, ltb, if◌then◌else◌, length, ◌%◌, bad_array_new_length,
}
use libra_core.Common.{ℤ, pos, negsuc}

-- `buf->base`: null, an array of so many bytes, or one that was deleted.
pub data Array : Type 0 where
  null gone : Array
  array : ℕ → Array

-- The buffer, how many were made and deleted, and what the callback was given, bytes or null.
pub record Reading : Type 0 where
  pub base : Array
  pub made : ℕ
  pub deleted : ℕ
  pub given : List (Option (List ℕ) × ℤ)

-- What libuv reports: bytes, or the error `-(n + 1)`.
pub data Report : Type 0 where
  arrived : List ℕ → Report
  failed : ℕ → Report

-- `int size = suggested_size > max_alloc_size ? suggested_size : max_alloc_size`, where `none` is a
-- negative int.
unfoldable pub alloc_size : ℕ → ℕ → Option ℕ
alloc_size max_alloc_size suggested_size =
    let size : ℕ = if ltb max_alloc_size suggested_size then suggested_size else max_alloc_size in
    if ltb (size % 2 ^ 32) (2 ^ 31) then some (size % 2 ^ 32) else none

-- `new char[size]`, which throws for a negative size. An exception of the callbacks here leaves them
-- into libuv's C code.
unfoldable pub new_array : Option ℕ → Exec Reading (Unit {0})
new_array none r = raise bad_array_new_length r
new_array (some n) r = (done tt, record r { base = array n; made = r.made + 1 })

-- The first callback of `uv_read_start`.
unfoldable pub alloc : ℕ → ℕ → Exec Reading (Unit {0})
unfolding alloc_size new_array
alloc max_alloc_size suggested_size = new_array (alloc_size max_alloc_size suggested_size)

-- `delete buf->base`, which does nothing to a null pointer. An array wants `delete[]`; it is taken for
-- deleted here, as with the allocators that treat the two alike.
unfoldable pub delete_by : Array → Exec Reading (Unit {0})
delete_by null r = (done tt, r)
delete_by gone r = (fault, r)
delete_by (array n) r = (done tt, record r { base = gone; deleted = r.deleted + 1 })

unfoldable pub delete_base : Exec Reading (Unit {0})
unfolding delete_by
delete_base r = delete_by r.base r

-- The stored callback is called.
unfoldable pub give :
    (Option (List ℕ) → ℤ → Outcome (Unit {0})) → Option (List ℕ) → ℤ → Exec Reading (Unit {0})
give callback buf len r = (callback buf len, record r { given = r.given ++ ((buf, len) ∷ []) })

unfoldable pub give_report :
    (Option (List ℕ) → ℤ → Outcome (Unit {0})) → Report → Exec Reading (Unit {0})
unfolding give
give_report callback (arrived bytes) = give callback (some bytes) (pos (length bytes))
give_report callback (failed n) = give callback none (negsuc n)

-- The rest of the `try`, and its handler, which throws again.
unfoldable pub then_delete : Outcome (Unit {0}) × Reading → Outcome (Unit {0}) × Reading
unfolding delete_base
then_delete (done a, r) = delete_base r
then_delete (throw e, r) = (do delete_base; raise e) r
then_delete (fault, r) = (fault, r)

-- The second callback of `uv_read_start`.
unfoldable pub report :
    (Option (List ℕ) → ℤ → Outcome (Unit {0})) → Report → Exec Reading (Unit {0})
unfolding give_report then_delete
report callback nread r = then_delete (give_report callback nread r)
