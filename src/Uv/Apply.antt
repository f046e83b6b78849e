-- ===== src/Uv/Apply.antt =====
-- uv/apply.h, and the calls of uv/callback.h that use it. A pack of arguments is a list of values `V`;
-- a function takes a pack, and answers in `R`.
pub mod Unpacked
use libra_core.Common.{◌>>=◌, ℕ, zero, suc, Option, none, some, List, [], ◌∷◌, length, Exec, pure}
use libra_core.Common.{get_elem?}
use libra_core.Uv.Callbacks.{Lut, invoke}

module _ {V : Type 0} {R : Type 0} where
  -- `std::get<N - 1>(t)` goes before the arguments; an index beyond the tuple does not compile.
  unfoldable pub with_argument : Option V → (V → Option R) → Option R
  with_argument none next = none
  with_argument (some v) next = next v

  -- `Apply<N>::apply(f, t, a...)`
  unfoldable pub apply_from : ℕ → (List V → R) → List V → List V → Option R
  unfolding with_argument
  apply_from zero f t a = some (f a)
  apply_from (suc n) f t a = with_argument (get_elem? t n) (λ v. apply_from n f t (v ∷ a))

  -- `apply(f, t)`
  unfoldable pub apply : (List V → R) → List V → Option R
  unfolding apply_from
  apply f t = apply_from (length t) f t []

  -- `callbacks::invoke_by_tuple`, where `run` is what each callback answers to a pack.
  unfoldable pub invoke_by_tuple : (ℕ → List V → R) → ℕ → ℕ → List V → Exec Lut (Option R)
  unfolding apply
  invoke_by_tuple run t cid params = do c ← invoke t cid; pure (apply (run c) params)
