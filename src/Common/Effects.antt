-- ===== src/Common/Effects.antt =====
-- What a call can do: return, throw, or leave what the language defines. And calls on an object.
use Prim.Native.Nat.{ℕ}
use libra_core.Common.Int.{ℤ}

-- What a `throw` carries, by the text of its site; the numbers are those that the text shows.
pub data Exception : Type 0 where
  over_capacity not_enough_capacity not_enough_space : ℕ → ℕ → Exception
  out_of_index : ℤ → ℕ → Exception
  uv_error : ℤ → Exception
  reader_stop writer_stop bad_magic accept_failed : Exception
  url_parse unsupported_status out_of_range params_error queue_failed not_implemented
        invalid_address bad_array_new_length :
      Exception

-- `fault` is an access outside of an object, or another undefined behaviour.
pub data Outcome {ℓ} (A : Type ℓ) : Type ℓ where
  done : A → Outcome A
  throw : Exception → Outcome A
  fault : Outcome A

-- A method of an object with state `S`: a throw keeps what was written before it.
abbrev pub Exec {ℓ} : Type ℓ → Type ℓ → Type ℓ
Exec S A = S → Outcome A × S

abbrev pub proceed {ℓ} : {S A B : Type ℓ} → (A → S → Outcome B × S) → Outcome A × S → Outcome B × S
proceed f (done a, s) = f a s
proceed f (throw e, s) = (throw e, s)
proceed f (fault, s) = (fault, s)

infixl 5 ◌>>=◌ ◌>>◌
abbrev pub ◌>>=◌ {ℓ} : {S A B : Type ℓ} → Exec S A → (A → Exec S B) → Exec S B
◌>>=◌ m f s = proceed f (m s)

abbrev pub ◌>>◌ {ℓ} : {S A B : Type ℓ} → Exec S A → Exec S B → Exec S B
m >> k = m >>= λ _. k

abbrev pub pure {ℓ} : {S A : Type ℓ} → A → Exec S A
pure a s = (done a, s)

abbrev pub raise {ℓ} : {S A : Type ℓ} → Exception → Exec S A
raise e s = (throw e, s)

-- A call on another object, whose state the caller holds apart.
abbrev pub lift {ℓ} : {S A : Type ℓ} → Outcome A → Exec S A
lift r s = (r, s)

-- try { … } catch (const Exception& e) { … }
abbrev pub caught {ℓ} : {S A : Type ℓ} → Exec S (Unit {ℓ}) → Outcome A × S → Outcome (Unit {ℓ}) × S
caught handler (done a, s) = (done tt, s)
caught handler (throw e, s) = handler s
caught handler (fault, s) = (fault, s)

abbrev pub try_catch {ℓ} : {S A : Type ℓ} → Exec S A → Exec S (Unit {ℓ}) → Exec S (Unit {ℓ})
try_catch m handler s = caught handler (m s)
