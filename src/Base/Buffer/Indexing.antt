-- ===== src/Base/Buffer/Indexing.antt =====
-- base/buffer.h: the two `operator[]`.
use libra_core.Common.{
  ℕ, zero, suc, ℤ, pos, negsuc, ◌⊎◌, inl, inr, [], ◌∷◌, Option, out_of_index, get_elem?, Bool-cases,
  ltb, ltb→lt, le→leb, ◌+◌, ◌<◌, ◌≤◌, ◌≡◌, refl, ◌∙◌, List, some, none, arith, done, throw, length,
  take, overwrite, length-take, take-overwrite, tests,
}
use libra_core.Base.Buffer.{Buffer, IsValid, content, at, assign_at}

-- The byte that an index names in the data.
abbrev pub byte_of : ℤ → List ℕ → Option ℕ
byte_of (pos n) c = get_elem? c n
byte_of (negsuc n) c = none

abbrev pub with_byte : ℤ → ℕ → List ℕ → List ℕ
with_byte (pos n) x c = overwrite n (x ∷ []) c
with_byte (negsuc n) x c = c

get_elem?-take : (i n : ℕ) (xs : List ℕ) → i < n → get_elem? (take n xs) i ≡ get_elem? xs i
get_elem?-take i zero xs h = absurd (omega arith)
get_elem?-take i (suc n) [] h = refl
get_elem?-take zero (suc n) (x ∷ xs) h = refl
get_elem?-take (suc i) (suc n) (x ∷ xs) h = get_elem?-take i n xs (omega arith)

get_elem?-beyond : (i : ℕ) (xs : List ℕ) → length xs ≤ i → get_elem? xs i ≡ none
get_elem?-beyond i [] h = refl
get_elem?-beyond zero (x ∷ xs) h = absurd (omega arith)
get_elem?-beyond (suc i) (x ∷ xs) h = get_elem?-beyond i xs (omega arith)

get_elem?-within : (i : ℕ) (xs : List ℕ) → i < length xs → (x : ℕ) × (get_elem? xs i ≡ some x)
get_elem?-within i [] h = absurd (omega arith)
get_elem?-within zero (x ∷ xs) h = (x, refl)
get_elem?-within (suc i) (x ∷ xs) h = get_elem?-within i xs (omega arith)

abbrev Indexes : Buffer → ℤ → ℕ → Type 0
Indexes b i x =
    ((y : ℕ) × (byte_of i (content b) ≡ some y)
      × (at i b ≡ (done y, b))
      × ((b' : Buffer) × (assign_at i x b ≡ (done tt, b'))
          × (content b' ≡ with_byte i x (content b))
          × (b'.ptr ≡ b.ptr)))
    ⊎ ((byte_of i (content b) ≡ none)
        × (at i b ≡ (throw (out_of_index i b.ptr), b))
        × (assign_at i x b ≡ (throw (out_of_index i b.ptr), b)))

-- `operator[]`: at an index of the data it gives that byte, or sets that byte alone; at any other,
-- a negative one included, it throws and the buffer stays as it was.
at-Indexes : (b : Buffer) (i : ℤ) (x : ℕ) → IsValid b → Indexes b i x
unfolding at assign_at
at-Indexes b (negsuc n) x v = inr (refl, refl, refl)
at-Indexes b (pos n) x v = elim (Bool-cases (ltb n b.ptr)) [
  | inl inside ↦
      let h : n < b.ptr = ltb→lt _ _ inside in
      let (y, found) = get_elem?-within n b.memory (omega (arith, v.whole, v.within)) in
      inl (
        y,
        get_elem?-take n b.ptr b.memory h ∙ found,
        rw (inside, found),
        (
          record b { memory = overwrite n (x ∷ []) b.memory },
          rw (inside, le→leb (n + 1) (length b.memory) (omega (arith, v.whole, v.within))),
          take-overwrite b.ptr n (x ∷ []) b.memory,
          refl,
        ),
      )
  | inr outside ↦ inr (
    get_elem?-beyond n (content b) (omega (tests, length-take b.ptr b.memory)),
    rw outside,
    rw outside,
  )
]
