-- ===== src/Uv/Callbacks/Slots.antt =====
-- uv/callback.h: what is stored is called.
use libra_core.Common.{
  ℕ, zero, suc, ◌<◌, ◌≤◌, ◌≡◌, ◌≢◌, refl, ap, Option, some, List, [], ◌∷◌, done, fault, length,
  ◌==◌, lt→ltb, le→ltb, if◌then◌else◌,
}
use libra_core.Common.{get_elem?, set, get_elem?-set_self}
use libra_core.Uv.Callbacks.{Lut, Slot, store, invoke, slot_of, get_data, callback_of}

pub get_elem?-set_other :
    {A : Type 0} (xs : List A) (i j : ℕ) (v : A) → i ≢ j → get_elem? (set xs i v) j ≡ get_elem? xs j
get_elem?-set_other [] i j v h = refl
get_elem?-set_other (x ∷ xs) zero zero v h = absurd (h refl)
get_elem?-set_other (x ∷ xs) zero (suc j) v h = refl
get_elem?-set_other (x ∷ xs) (suc i) zero v h = refl
get_elem?-set_other (x ∷ xs) (suc i) (suc j) v h = get_elem?-set_other xs i j v (λ e. h (ap suc e))

-- A callback stored in a slot of the table is what a call of that slot by its type calls, and its
-- data what `get_data` gives; by another type the call is a fault; no other slot changes. A slot
-- past the table is a fault, and the table stays.
pub store-invoke :
    (t u cid other callback : ℕ) (user : Option ℕ) (lut : Lut)
    → (cid < length lut
        → (lut' : Lut) × (store t cid callback user lut ≡ (done tt, lut'))
          × (invoke u cid lut' ≡ (if t == u then done callback else fault, lut'))
          × (get_data cid lut' ≡ (done user, lut'))
          × (cid ≢ other → (invoke u other lut').0 ≡ (invoke u other lut).0))
      × (length lut ≤ cid → store t cid callback user lut ≡ (fault, lut))
unfolding store invoke callback_of get_data slot_of
store-invoke t u cid other callback user lut =
    let v : Option Slot = some (record { callback_t = t; callback = callback; user_data = user }) in
    (
      λ inside. (
        set lut cid v,
        rw (lt→ltb cid (length lut) inside) refl,
        rw (get_elem?-set_self lut cid v inside) refl,
        rw (get_elem?-set_self lut cid v inside) refl,
        λ apart. rw (get_elem?-set_other lut cid other v apart) refl,
      ),
      λ past. rw (le→ltb cid (length lut) past) refl,
    )
