-- ===== src/Base/Format/Printed.antt =====
-- base/utility.h: what is read back of what was printed into an array.
use libra_core.Common.{
  ◌>>◌, if◌then◌else◌, ◌==◌, ℕ, suc, ◌+◌, ◌≤◌, ◌<◌, ◌≡◌, refl, ap, ◌∙◌, [], ◌∷◌, ◌++◌, done, fault,
  length, take, drop, replicate, arith, Text, append_assoc, Bool-cases, inl, inr, le→leb,
  length-append, overwrite-eq-append, length-replicate, length-take, proceed, lt→leb,
}
use libra_core.Base.Format.{print_at, after_byte, until_zero, c_string, format}

-- A text that ends at a zero, as C sees it.
abbrev pub before_zero : Text → Text
before_zero [] = []
before_zero (c ∷ s) = let rest = before_zero s in if c == 0 then [] else c ∷ rest

pub until_zero-before_zero : (s rest : Text) → until_zero (s ++ (0 ∷ rest)) ≡ done (before_zero s)
unfolding until_zero after_byte
until_zero-before_zero [] rest = refl
until_zero-before_zero (c ∷ s) rest = elim (Bool-cases (c == 0)) [
  | inl ends ↦ rw ends refl
  | inr goes ↦ rw (goes, until_zero-before_zero s rest) refl
]

-- Printing within the array.
pub print_at-room :
    (p n : ℕ) (text memory : Text)
    → p + suc n ≤ length memory
    → print_at p (suc n) text memory ≡ (
      done tt,
      take p memory ++ (take n text ++ (0 ∷ drop (p + length (take n text ++ (0 ∷ []))) memory)),
    )
unfolding print_at
print_at-room p n text memory h =
    let fits : p + length (take n text ++ (0 ∷ [])) ≤ length memory =
      omega (arith, length-append (take n text) (0 ∷ []), length-take n text) in
    rw (le→leb _ _ fits) (
      ap (λ l. (done tt, l))
        (overwrite-eq-append p (take n text ++ (0 ∷ [])) memory fits
          ∙ append_assoc (take p memory) (take n text ++ (0 ∷ [])) _
          ∙ ap (λ l. take p memory ++ l) (append_assoc (take n text) (0 ∷ []) _)))

-- What is printed at the front of an array of zeros.
pub print_at-c_string :
    (n size : ℕ) (printed : Text)
    → n < size
    → ((print_at 0 (suc n) printed >> c_string) (replicate size 0)).0
      ≡ done (before_zero (take n printed))
unfolding c_string
print_at-c_string n size printed h =
    ap (λ r. (proceed (λ _. c_string) r).0)
      (print_at-room 0 n printed (replicate size 0)
        (omega (arith, length-replicate {A = ℕ} size 0)))
    ∙ until_zero-before_zero (take n printed) _

-- `format` gives what was printed, up to 2046 bytes and a zero, and never faults.
pub format-before_zero : (printed : Text) → format printed ≡ done (before_zero (take 2046 printed))
unfolding format
format-before_zero printed = print_at-c_string 2046 2048 printed (omega arith)

-- Printing at an index beyond the array.
pub print_at-beyond :
    (p n : ℕ) (text memory : Text)
    → length memory < p
    → print_at p (suc n) text memory ≡ (fault, memory)
unfolding print_at
print_at-beyond p n text memory h = rw (lt→leb _ _ beyond) refl
  where
    beyond : length memory < p + length (take n text ++ (0 ∷ []))
    beyond = omega arith
