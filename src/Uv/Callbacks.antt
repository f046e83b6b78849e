-- ===== src/Uv/Callbacks.antt =====
-- uv/callback.h: the table of a handle's callbacks. A callback is a number that names it, and its
-- type another number.
pub mod Slots
use libra_core.Common.{
  throw, ℕ, Option, some, none, List, Outcome, Exec, ◌>>=◌, ◌>>◌, lift, pure, done, throw, fault,
  length, ltb, ◌==◌, if◌then◌else◌, replicate,
}
use libra_core.Common.{throw, set, get_elem?}

-- `callback_object<callback_t>`
pub record Slot : Type 0 where
  pub callback_t : ℕ
  pub callback : ℕ
  pub user_data : Option ℕ

-- `lut_`
abbrev pub Lut : Type 0
Lut = List (Option Slot)

unfoldable pub new_lut : ℕ → Lut
new_lut max_callbacks = replicate max_callbacks none

-- An index past the end of the vector is a fault.
unfoldable pub store : ℕ → ℕ → ℕ → Option ℕ → Exec Lut (Unit {0})
store t cid callback user lut =
    if ltb cid (length lut)
    then (
      done tt,
      set lut cid (some (record { callback_t = t; callback = callback; user_data = user })),
    )
    else (fault, lut)

-- The object of a slot, where there is one.
unfoldable pub slot_of : Option (Option Slot) → Outcome Slot
slot_of none = fault
slot_of (some none) = fault
slot_of (some (some s)) = done s

unfoldable pub get_data : ℕ → Exec Lut (Option ℕ)
unfolding slot_of
get_data cid lut = (do s ← lift (slot_of (get_elem? lut cid)); pure s.user_data) lut

unfoldable pub set_data : ℕ → Option ℕ → Exec Lut (Unit {0})
unfolding slot_of
set_data cid user lut =
    (do
      s ← lift (slot_of (get_elem? lut cid))
      λ l. (done tt, set l cid (some (record s { user_data = user }))))
      lut

-- The callback of a slot, by its type. The cast to another type gives a null pointer, which the
-- assertion stops.
unfoldable pub callback_of : ℕ → Outcome Slot → Outcome ℕ
callback_of t (done s) = if s.callback_t == t then done s.callback else fault
callback_of t (throw x) = throw x
callback_of t fault = fault

-- `invoke`: which callback is called.
unfoldable pub invoke : ℕ → ℕ → Exec Lut ℕ
unfolding callback_of slot_of
invoke t cid lut = (callback_of t (slot_of (get_elem? lut cid)), lut)
