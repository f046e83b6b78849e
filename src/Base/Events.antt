-- ===== src/Base/Events.antt =====
-- base/events.h: the class `EventEmitter`. An event is its index; a listener is the address that
-- `new` has given its callback, and the callback.
pub mod Emitting
use libra_core.Common.{
  ℕ, Bool, true, false, List, [], ◌∷◌, ◌++◌, Exec, ◌>>◌, try_catch, pure, done, ◌==◌, if◌then◌else◌,
}

-- `set_`: the list of each event.
pub record Emitter (C : Type 0) : Type 0 where
  pub set_ : ℕ → List (ℕ × C)

module _ {C : Type 0} where
  -- The list of one event is replaced.
  unfoldable pub with_entry : ℕ → List (ℕ × C) → Emitter C → Emitter C
  with_entry e entry m = record { set_ = λ f. if f == e then entry else m.set_ f }

  -- `addListener`, by the address that `new` answers.
  unfoldable pub add_listener : ℕ → ℕ → C → Exec (Emitter C) ℕ
  unfolding with_entry
  add_listener e ptr callback m = (done ptr, with_entry e (m.set_ e ++ ((ptr, callback) ∷ [])) m)

  -- The loop of `removeListener`: whether the address was found, and what is left.
  unfoldable pub erase_first : ℕ → List (ℕ × C) → Bool × List (ℕ × C)
  erase_first ptr [] = (false, [])
  erase_first ptr ((p, c) ∷ entry) =
      let (found, rest) = erase_first ptr entry in
      if p == ptr then (true, entry) else (found, (p, c) ∷ rest)

  unfoldable pub remove_listener : ℕ → ℕ → Exec (Emitter C) Bool
  unfolding erase_first with_entry
  remove_listener e ptr m =
      (done (erase_first ptr (m.set_ e)).0, with_entry e (erase_first ptr (m.set_ e)).1 m)

  unfoldable pub remove_all_listeners : ℕ → Exec (Emitter C) (Unit {0})
  unfolding with_entry
  remove_all_listeners e m = (done tt, with_entry e [] m)

  -- The loop of `emit`, on the state `S` of the callbacks, which do not change the list.
  unfoldable pub call_each :
      {S : Type 0} → (C → Exec S (Unit {0})) → List (ℕ × C) → Exec S (Unit {0})
  call_each call [] = pure tt
  call_each call ((p, c) ∷ entry) =
      let rest = call_each call entry in try_catch (call c) (pure tt) >> rest

  unfoldable pub emit : {S : Type 0} → (C → Exec S (Unit {0})) → ℕ → Emitter C → Exec S (Unit {0})
  unfolding call_each
  emit call e m = call_each call (m.set_ e)
