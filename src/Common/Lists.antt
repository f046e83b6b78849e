-- ===== src/Common/Lists.antt =====
-- Lists measured, sliced and overwritten by native numbers, under the library's names.
use Prim.Native.Nat.{ℕ, zero, suc, ◌+◌, ◌-◌, ◌≤◌, ◌<◌, min}
use mathlib.Core.Path.{◌≡◌, refl, ap, sym, subst, ◌∙◌}
use mathlib.Core.List.{List, [], ◌∷◌, ◌++◌, reverse, reverse-cons}
use mathlib.Core.Option.{Option, none, some}
use native.Mathlib.Omega.{arith}
use native.Mathlib.Nat.{zero-add, suc-add}

module _ {ℓ} {A : Type ℓ} where
  abbrev pub length : List A → ℕ
  length [] = 0
  length (x ∷ xs) = suc (length xs)

  abbrev pub get_elem? : List A → ℕ → Option A
  get_elem? [] i = none
  get_elem? (x ∷ xs) zero = some x
  get_elem? (x ∷ xs) (suc i) = get_elem? xs i

  -- A write out of bounds changes nothing.
  abbrev pub set : List A → ℕ → A → List A
  set [] i v = []
  set (x ∷ xs) zero v = v ∷ xs
  set (x ∷ xs) (suc i) v = x ∷ set xs i v

  abbrev pub take : ℕ → List A → List A
  take zero xs = []
  take (suc n) [] = []
  take (suc n) (x ∷ xs) = x ∷ take n xs

  abbrev pub drop : ℕ → List A → List A
  drop zero xs = xs
  drop (suc n) [] = []
  drop (suc n) (x ∷ xs) = drop n xs

  abbrev pub replicate : ℕ → A → List A
  replicate zero a = []
  replicate (suc n) a = a ∷ replicate n a

  -- A predicate at every element.
  abbrev pub All {κ} : (A → Type κ) → List A → Type κ
  All P [] = Unit
  All P (x ∷ xs) = P x × All P xs

module _ {ℓ} {A : Type ℓ} where
  pub length-append : (xs ys : List A) → length (xs ++ ys) ≡ length xs + length ys
  length-append [] ys = omega arith
  length-append (x ∷ xs) ys = omega (arith, length-append xs ys)

  pub length-set : (xs : List A) (i : ℕ) (v : A) → length (set xs i v) ≡ length xs
  length-set [] i v = refl
  length-set (x ∷ xs) zero v = refl
  length-set (x ∷ xs) (suc i) v = ap suc (length-set xs i v)

  pub get_elem?-set_self :
      (xs : List A) (i : ℕ) (v : A) → i < length xs → get_elem? (set xs i v) i ≡ some v
  get_elem?-set_self [] i v h = elim h [ ]
  get_elem?-set_self (x ∷ xs) zero v h = refl
  get_elem?-set_self (x ∷ xs) (suc i) v h = get_elem?-set_self xs i v (omega arith)

  pub take-append-drop : (n : ℕ) (xs : List A) → take n xs ++ drop n xs ≡ xs
  take-append-drop zero xs = refl
  take-append-drop (suc n) [] = refl
  take-append-drop (suc n) (x ∷ xs) = rw (take-append-drop n xs)

  pub length-take : (n : ℕ) (xs : List A) → length (take n xs) ≡ min n (length xs)
  length-take zero xs = omega arith
  length-take (suc n) [] = omega arith
  length-take (suc n) (x ∷ xs) = omega (arith, length-take n xs)

  pub length-take_of_le : (n : ℕ) (xs : List A) → n ≤ length xs → length (take n xs) ≡ n
  length-take_of_le n xs h = omega (arith, length-take n xs)

  pub length-drop : (n : ℕ) (xs : List A) → length (drop n xs) ≡ length xs - n
  length-drop zero xs = omega arith
  length-drop (suc n) [] = omega arith
  length-drop (suc n) (x ∷ xs) = omega (arith, length-drop n xs)

  pub length-replicate : (n : ℕ) (a : A) → length (replicate n a) ≡ n
  length-replicate zero a = refl
  length-replicate (suc n) a = ap suc (length-replicate n a)

  pub length-reverse : (xs : List A) → length (reverse xs) ≡ length xs
  length-reverse [] = refl
  length-reverse (x ∷ xs) =
      omega (
        arith,
        ap length (reverse-cons x xs),
        length-append (reverse xs) (x ∷ []),
        length-reverse xs,
      )

  -- `n` falls at the end of `xs`, or beyond it by `k`.
  pub take-append_self : (xs ys : List A) → take (length xs) (xs ++ ys) ≡ xs
  take-append_self [] ys = refl
  take-append_self (x ∷ xs) ys = ap (λ l. x ∷ l) (take-append_self xs ys)

  pub drop-append_self : (xs ys : List A) → drop (length xs) (xs ++ ys) ≡ ys
  drop-append_self [] ys = refl
  drop-append_self (x ∷ xs) ys = drop-append_self xs ys

  pub take-append_of_le : (n : ℕ) (xs ys : List A) → n ≤ length xs → take n (xs ++ ys) ≡ take n xs
  take-append_of_le zero xs ys h = refl
  take-append_of_le (suc n) [] ys h = absurd (omega arith)
  take-append_of_le (suc n) (x ∷ xs) ys h =
      ap (λ l. x ∷ l) (take-append_of_le n xs ys (omega arith))

  pub drop-append_of_le :
      (n : ℕ) (xs ys : List A) → n ≤ length xs → drop n (xs ++ ys) ≡ drop n xs ++ ys
  drop-append_of_le zero xs ys h = refl
  drop-append_of_le (suc n) [] ys h = absurd (omega arith)
  drop-append_of_le (suc n) (x ∷ xs) ys h = drop-append_of_le n xs ys (omega arith)

  pub take_all : (n : ℕ) (xs : List A) → length xs ≤ n → take n xs ≡ xs
  take_all zero [] h = refl
  take_all zero (x ∷ xs) h = absurd (omega arith)
  take_all (suc n) [] h = refl
  take_all (suc n) (x ∷ xs) h = ap (λ l. x ∷ l) (take_all n xs (omega arith))

  pub drop_all : (n : ℕ) (xs : List A) → length xs ≤ n → drop n xs ≡ []
  drop_all zero [] h = refl
  drop_all zero (x ∷ xs) h = absurd (omega arith)
  drop_all (suc n) [] h = refl
  drop_all (suc n) (x ∷ xs) h = drop_all n xs (omega arith)

  pub take-take : (m n : ℕ) (xs : List A) → m ≤ n → take m (take n xs) ≡ take m xs
  take-take zero n xs h = refl
  take-take (suc m) zero xs h = absurd (omega arith)
  take-take (suc m) (suc n) [] h = refl
  take-take (suc m) (suc n) (x ∷ xs) h = ap (λ l. x ∷ l) (take-take m n xs (omega arith))

  pub drop-drop : (m n : ℕ) (xs : List A) → drop m (drop n xs) ≡ drop (n + m) xs
  drop-drop m zero xs = rw zero-add
  drop-drop zero (suc n) [] = rw suc-add
  drop-drop (suc m) (suc n) [] = rw suc-add
  drop-drop m (suc n) (x ∷ xs) = rw suc-add (drop-drop m n xs)

module _ {ℓ} {A : Type ℓ} where
  pub take-append_add : (k : ℕ) (xs ys : List A) → take (length xs + k) (xs ++ ys) ≡ xs ++ take k ys
  take-append_add k [] ys = rw zero-add
  take-append_add k (x ∷ xs) ys = rw suc-add (ap (λ l. x ∷ l) (take-append_add k xs ys))

  pub take-nil : (k : ℕ) → ◌≡◌ {A = List A} (take k []) []
  take-nil zero = refl
  take-nil (suc k) = refl

  pub drop-take : (m k : ℕ) (xs : List A) → drop m (take (m + k) xs) ≡ take k (drop m xs)
  drop-take zero k xs = rw zero-add
  drop-take (suc m) k [] = rw (suc-add, take-nil k)
  drop-take (suc m) k (x ∷ xs) = rw suc-add (drop-take m k xs)

  -- Writing `ys` over a list from index `i`; what would fall beyond its end is not written.
  abbrev pub overwrite : ℕ → List A → List A → List A
  overwrite i ys [] = []
  overwrite zero [] (x ∷ xs) = x ∷ xs
  overwrite zero (y ∷ ys) (x ∷ xs) = y ∷ overwrite zero ys xs
  overwrite (suc i) ys (x ∷ xs) = x ∷ overwrite i ys xs

  pub length-overwrite : (i : ℕ) (ys xs : List A) → length (overwrite i ys xs) ≡ length xs
  length-overwrite i ys [] = refl
  length-overwrite zero [] (x ∷ xs) = refl
  length-overwrite zero (y ∷ ys) (x ∷ xs) = ap suc (length-overwrite zero ys xs)
  length-overwrite (suc i) ys (x ∷ xs) = ap suc (length-overwrite i ys xs)

  pub take-overwrite :
      (n i : ℕ) (ys xs : List A) → take n (overwrite i ys xs) ≡ overwrite i ys (take n xs)
  take-overwrite zero i ys xs = refl
  take-overwrite (suc n) i ys [] = refl
  take-overwrite (suc n) zero [] (x ∷ xs) = refl
  take-overwrite (suc n) zero (y ∷ ys) (x ∷ xs) = ap (λ l. y ∷ l) (take-overwrite n zero ys xs)
  take-overwrite (suc n) (suc i) ys (x ∷ xs) = ap (λ l. x ∷ l) (take-overwrite n i ys xs)

  pub overwrite-eq-append :
      (i : ℕ) (ys xs : List A)
      → i + length ys ≤ length xs
      → overwrite i ys xs ≡ take i xs ++ ys ++ drop (i + length ys) xs
  overwrite-eq-append zero [] [] h = refl
  overwrite-eq-append zero (y ∷ ys) [] h = absurd (omega arith)
  overwrite-eq-append (suc i) ys [] h = absurd (omega arith)
  overwrite-eq-append zero [] (x ∷ xs) h = refl
  overwrite-eq-append zero (y ∷ ys) (x ∷ xs) h =
      rw zero-add (ap (λ l. y ∷ l) (overwrite-eq-append zero ys xs (omega arith) ∙ rw zero-add))
  overwrite-eq-append (suc i) ys (x ∷ xs) h =
      rw suc-add (ap (λ l. x ∷ l) (overwrite-eq-append i ys xs (omega arith)))

module _ {ℓ} {A : Type ℓ} where
  pub take-append_at : (n : ℕ) (xs ys : List A) → n ≡ length xs → take n (xs ++ ys) ≡ xs
  take-append_at n xs ys e = ap (λ k. take k (xs ++ ys)) e ∙ take-append_self xs ys

  pub drop-append_at : (n : ℕ) (xs ys : List A) → n ≡ length xs → drop n (xs ++ ys) ≡ ys
  drop-append_at n xs ys e = ap (λ k. drop k (xs ++ ys)) e ∙ drop-append_self xs ys

  -- `take` of a sum, with the first part's length given by an equation.
  pub take-append_past :
      (n k : ℕ) (xs ys : List A) → n ≡ length xs → take (n + k) (xs ++ ys) ≡ xs ++ take k ys
  take-append_past n k xs ys e = ap (λ m. take (m + k) (xs ++ ys)) e ∙ take-append_add k xs ys

module _ {ℓ κ} {A : Type ℓ} (P : A → Type κ) where
  pub All-append : (xs ys : List A) → All P xs → All P ys → All P (xs ++ ys)
  All-append [] ys p q = q
  All-append (x ∷ xs) ys p q = (p.0, All-append xs ys p.1 q)

  pub All-reverse : (xs : List A) → All P xs → All P (reverse xs)
  All-reverse [] p = tt
  All-reverse (x ∷ xs) p =
      subst (All P) (sym (reverse-cons x xs))
        (All-append (reverse xs) (x ∷ []) (All-reverse xs p.1) (p.0, tt))

pub take-replicate {ℓ} :
    {A : Type ℓ} (m k : ℕ) (a : A) → take m (replicate (m + k) a) ≡ replicate m a
take-replicate zero k a = refl
take-replicate (suc m) k a = rw suc-add (ap (λ l. a ∷ l) (take-replicate m k a))
