-- ===== src/Uv/Apply/Unpacked.antt =====
-- uv/apply.h: the arguments that the function gets.
use libra_core.Uv.Apply.{with_argument, apply_from, apply, invoke_by_tuple, invoke}
use libra_core.Common.{
  ◌>>=◌, ℕ, zero, suc, some, List, [], ◌∷◌, ◌++◌, ◌≡◌, ◌∙◌, ap, refl, length, take, arith, ◌≤◌, ◌<◌,
  take_all, append-nil, Outcome, proceed, pure, done, throw,
}
use libra_core.Common.{get_elem?, fault}
use libra_core.Uv.Callbacks.{Lut}

module _ {V : Type 0} where
  get_elem?-take :
      (n : ℕ) (t a : List V)
      → n < length t
      → (v : V) × (get_elem? t n ≡ some v) × (take (suc n) t ++ a ≡ take n t ++ (v ∷ a))
  get_elem?-take n [] a h = absurd (omega arith)
  get_elem?-take zero (x ∷ t) a h = (x, refl, refl)
  get_elem?-take (suc n) (x ∷ t) a h =
      let (v, at, split) = get_elem?-take n t a (omega arith) in (v, at, ap (λ l. x ∷ l) split)

proceed-pointwise :
    {S A B : Type 0} (f g : A → S → Outcome B × S)
    → ((a : A) (s : S) → f a s ≡ g a s)
    → (r : Outcome A × S) → proceed f r ≡ proceed g r
proceed-pointwise f g h (done a, s) = h a s
proceed-pointwise f g h (throw e, s) = refl
proceed-pointwise f g h (fault, s) = refl

module _ {V R : Type 0} where
  apply_from-take :
      (n : ℕ) (f : List V → R) (t a : List V)
      → n ≤ length t
      → apply_from n f t a ≡ some (f (take n t ++ a))
  unfolding apply_from with_argument
  apply_from-take zero f t a h = refl
  apply_from-take (suc n) f t a h =
      let (v, at, split) = get_elem?-take n t a h in
      rw (at, split) (apply_from-take n f t (v ∷ a) (omega arith))

  apply_lem : (f : List V → R) (t : List V) → apply f t ≡ some (f t)
  unfolding apply
  apply_lem f t =
      apply_from-take (length t) f t [] (omega arith)
      ∙ ap (λ l. some (f l)) (append-nil (take (length t) t) ∙ take_all (length t) t (omega arith))

  -- The recursion of `Apply` compiles for every tuple, and calls the function with the elements of the
  -- tuple in their order. So a callback that is invoked by a tuple is the callback that `invoke` calls,
  -- on the unpacked tuple, and faults where `invoke` does: where the slot is empty, or holds a callback
  -- of another type.
  pub invoke_by_tuple-unpacked :
      (run : ℕ → List V → R) (t cid : ℕ) (params : List V) (lut : Lut)
      → ((f : List V → R) → apply f params ≡ some (f params))
        × (invoke_by_tuple run t cid params lut
            ≡ (do c ← invoke t cid; pure (some (run c params))) lut)
  unfolding invoke_by_tuple
  invoke_by_tuple-unpacked run t cid params lut = (
    λ f. apply_lem f params,
    proceed-pointwise _ _ (λ c s. ap (λ o. (done o, s)) (apply_lem (run c) params))
        (invoke t cid lut),
  )
