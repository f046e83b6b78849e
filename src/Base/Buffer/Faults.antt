-- ===== src/Base/Buffer/Faults.antt =====
-- base/buffer.h: which calls on a whole buffer read or write outside of its array.
use mathlib.Core.Bool.{true}
use libra_core.Common.{
  if◌then◌else◌, tests, ℕ, ◌+◌, ◌^◌, ◌<◌, ◌≤◌, ◌≡◌, ◌≢◌, refl, ◌⊎◌, inl, inr, List, arith, Outcome,
  done, fault, length, Bool-cases, sym, ltb-false→le, ◌∙◌, leb-false→lt, leb→le, tests,
}
use libra_core.Base.Buffer.{
  Buffer, IsValid, set_size, remove, get, set, none, false, Bool, ltb, content, leb,
}
use libra_core.Base.Buffer.Content.{remove-tail}
use libra_core.Base.Buffer.Refinement.{step-Agrees}
use libra_core.Base.Buffer.Specification.{
  Op, resizes, appends, copies, removes, gets, sets, Reply, step, spec, IsSafe, bytes, flag, count,
}

-- Lengths and indices are of `size_t`.
abbrev pub IsSized : Op → Type 0
IsSized (resizes n) = n < 2 ^ 64
IsSized (appends buf) = length buf < 2 ^ 64
IsSized (copies buf) = length buf < 2 ^ 64
IsSized (removes start len) = (start < 2 ^ 64) × (len < 2 ^ 64)
IsSized (gets len index) = (len < 2 ^ 64) × (index < 2 ^ 64)
IsSized (sets buf index) = (length buf < 2 ^ 64) × (index < 2 ^ 64)

-- A sum that wraps to at most the size; a removal from inside of the data whose move starts past
-- `size_t`, or ends past the array.
abbrev pub Overruns : Op → Buffer → Type 0
Overruns (removes start len) b =
    (start < b.ptr)
    × ((2 ^ 64 ≤ start + len) ⊎ ((start + len < b.ptr) × (b.capacity < start + b.ptr)))
Overruns (gets len index) b = (2 ^ 64 ≤ index + len) × (index + len ≤ 2 ^ 64 + b.ptr)
Overruns (sets buf index) b = (2 ^ 64 ≤ index + length buf) × (index + length buf ≤ 2 ^ 64 + b.ptr)
Overruns _ b = ⊥

abbrev pub IsWhole : ℕ → Outcome Reply × Buffer → Type 0
IsWhole room r = (r.0 ≢ fault) × IsValid r.1 × (r.1.capacity ≡ room)

module _ {b : Buffer} (v : IsValid b) where
  remove-faults :
      (start len : ℕ)
      → (start < 2 ^ 64) × (len < 2 ^ 64)
      → Overruns (removes start len) b
      → step (removes start len) b ≡ (fault, b)
  unfolding step remove
  remove-faults start len sized (inside, inl wraps) = ground (arith, v.whole, v.within, v.small)
  remove-faults start len sized (inside, inr past) = ground (arith, v.whole, v.within, v.small)

  get-faults :
      (len index : ℕ)
      → (len < 2 ^ 64) × (index < 2 ^ 64)
      → Overruns (gets len index) b
      → step (gets len index) b ≡ (fault, b)
  unfolding step get
  get-faults len index sized past = ground (arith, v.whole, v.within, v.small)

  set-faults :
      (buf : List ℕ) (index : ℕ)
      → (length buf < 2 ^ 64) × (index < 2 ^ 64)
      → Overruns (sets buf index) b
      → step (sets buf index) b ≡ (fault, b)
  unfolding step set
  set-faults buf index sized past = ground (arith, v.whole, v.within, v.small)

either-quiet :
    {S : Type 0} (t : Bool) (x y : Outcome Reply × S)
    → x.0 ≢ fault
    → y.0 ≢ fault
    → (if t then x else y).0 ≢ fault
either-quiet true x y p q = p
either-quiet false x y p q = q

-- The calls that stay within, beside those that agree with the specification.
spec-quiet : (room : ℕ) (op : Op) (c : List ℕ) → (spec room op c).0 ≢ fault
unfolding spec
spec-quiet room (resizes n) c h = either-quiet (ltb room n) _ _ (λ e. absurd cc) (λ e. absurd cc) h
spec-quiet room (appends buf) c h =
    either-quiet (ltb room (length c + length buf)) _ _ (λ e. absurd cc) (λ e. absurd cc) h
spec-quiet room (copies buf) c h =
    either-quiet (ltb room (length buf)) _ _ (λ e. absurd cc) (λ e. absurd cc) h
spec-quiet room (removes start len) c h = absurd cc
spec-quiet room (gets len index) c h = absurd cc
spec-quiet room (sets buf index) c h =
    either-quiet (leb (index + length buf) (length c)) _ _ (λ e. absurd cc) (λ e. absurd cc) h

module _ {b : Buffer} (v : IsValid b) where
  safe-IsWhole : (op : Op) → IsSafe op b → IsWhole b.capacity (step op b)
  safe-IsWhole op s =
      let (same, there, valid, size) = step-Agrees b op v s in
      ((λ e. spec-quiet b.capacity op (content b) (sym same ∙ e)), valid, size)

  resize-IsWhole : (n : ℕ) → IsWhole b.capacity (step (resizes n) b)
  unfolding step set_size
  resize-IsWhole n = elim (Bool-cases (ltb b.capacity n)) [
    | inl over ↦ rw over ((λ e. absurd cc), v, refl)
    | inr room ↦ rw room (
      (λ e. absurd cc),
      record { whole = v.whole; within = ltb-false→le _ _ room; small = v.small },
      refl,
    )
  ]

  get-wraps_past :
      (len index : ℕ)
      → (len < 2 ^ 64) × (index < 2 ^ 64)
      → 2 ^ 64 + b.ptr < index + len
      → step (gets len index) b ≡ (done (bytes none), b)
  unfolding step get
  get-wraps_past len index sized past = ground arith

  set-wraps_past :
      (buf : List ℕ) (index : ℕ)
      → (length buf < 2 ^ 64) × (index < 2 ^ 64)
      → 2 ^ 64 + b.ptr < index + length buf
      → step (sets buf index) b ≡ (done (flag false), b)
  unfolding step set
  set-wraps_past buf index sized past = ground arith

  unchanged : (op : Op) (r : Reply) → step op b ≡ (done r, b) → IsWhole b.capacity (step op b)
  unchanged op r e = rw e ((λ h. absurd cc), v, refl)

  abbrev Faults : Op → Type 0
  Faults op =
      (Overruns op b × (step op b ≡ (fault, b)))
      ⊎ ((¬ Overruns op b) × IsWhole b.capacity (step op b))

  removes-Faults : (start len : ℕ) → IsSized (removes start len) → Faults (removes start len)
  unfolding step
  removes-Faults start len sized = elim (Bool-cases (leb b.ptr start)) [
    | inl none_there ↦ inr (
      (λ (inside, rest). absurd (omega tests)),
      unchanged (removes start len) (count 0) (unfold remove in rw none_there refl),
    )
    | inr there ↦ elim (Bool-cases (leb (2 ^ 64) (start + len))) [
      | inl wraps ↦
          let past : Overruns (removes start len) b =
            (leb-false→lt _ _ there, inl (leb→le _ _ wraps)) in
          inl (past, remove-faults v start len sized past)
      | inr small ↦ elim (Bool-cases (leb (start + b.ptr) b.capacity)) [
        | inl room ↦ inr (
          (λ o. absurd (within o (leb-false→lt _ _ small) (leb→le _ _ room))),
          safe-IsWhole (removes start len) (leb-false→lt _ _ small, leb→le _ _ room),
        )
        | inr full ↦ elim (Bool-cases (leb b.ptr (start + len))) [
          | inl to_end ↦ inr (
            (λ o. absurd (not_inner o (leb-false→lt _ _ small) (leb→le _ _ to_end))),
            rw
                (remove-tail v start len (leb-false→lt _ _ there) (leb→le _ _ to_end)
                  (leb-false→lt _ _ small))
                (
                  (λ e. absurd cc),
                  record { whole = v.whole; within = omega (tests, v.within); small = v.small },
                  refl,
                ),
          )
          | inr inner ↦
              let past : Overruns (removes start len) b =
                (leb-false→lt _ _ there, inr (leb-false→lt _ _ inner, leb-false→lt _ _ full)) in
              inl (past, remove-faults v start len sized past)
        ]
      ]
    ]
  ]
    where
      within :
          Overruns (removes start len) b → start + len < 2 ^ 64 → start + b.ptr ≤ b.capacity → ⊥
      within (inside, inl wraps) small room = omega arith
      within (inside, inr (inner, past)) small room = omega arith

      not_inner : Overruns (removes start len) b → start + len < 2 ^ 64 → b.ptr ≤ start + len → ⊥
      not_inner (inside, inl wraps) small to_end = omega arith
      not_inner (inside, inr (inner, past)) small to_end = omega arith

  -- `get` and `set`, by the end of what they take.
  taken-Faults :
      (op : Op) (end : ℕ) (r : Reply)
      → (end < 2 ^ 64 → IsSafe op b)
      → (Overruns op b → (2 ^ 64 ≤ end) × (end ≤ 2 ^ 64 + b.ptr))
      → (2 ^ 64 ≤ end → end ≤ 2 ^ 64 + b.ptr → Overruns op b)
      → (Overruns op b → step op b ≡ (fault, b))
      → (2 ^ 64 + b.ptr < end → step op b ≡ (done r, b))
      → Faults op
  taken-Faults op end r safe overruns past faults beyond = elim (Bool-cases (leb (2 ^ 64) end)) [
    | inr small ↦ inr (
      (λ o. absurd (omega (tests, (overruns o).0))),
      safe-IsWhole op (safe (leb-false→lt _ _ small)),
    )
    | inl wraps ↦ elim (Bool-cases (leb end (2 ^ 64 + b.ptr))) [
      | inl passes ↦
          let o : Overruns op b = past (leb→le _ _ wraps) (leb→le _ _ passes) in inl (o, faults o)
      | inr far ↦ inr (
        (λ o. absurd (omega (tests, (overruns o).1))),
        unchanged op r (beyond (leb-false→lt _ _ far)),
      )
    ]
  ]

-- A call on a valid buffer, with lengths and indices of `size_t`, reads or writes outside of the
-- array in three cases only: `get` or `set` where the sum of index and length wraps to at most the
-- size, and `remove` from inside of the data, where start and length wrap, or where it ends within
-- the data and start and size together pass the capacity. It then changes nothing else. Every other
-- call answers or throws, and leaves the buffer valid with its capacity.
pub step-Faults :
    (b : Buffer) (op : Op)
    → IsValid b
    → IsSized op
    → (Overruns op b × (step op b ≡ (fault, b)))
      ⊎ ((¬ Overruns op b) × IsWhole b.capacity (step op b))
step-Faults b (resizes n) v sized = inr ((λ o. o), resize-IsWhole v n)
step-Faults b (appends buf) v sized = inr ((λ o. o), safe-IsWhole v (appends buf) tt)
step-Faults b (copies buf) v sized = inr ((λ o. o), safe-IsWhole v (copies buf) tt)
step-Faults b (removes start len) v sized = removes-Faults v start len sized
step-Faults b (gets len index) v sized =
    taken-Faults v (gets len index) (index + len) (bytes none) (λ h. h) (λ o. o) (λ w p. (w, p))
      (get-faults v len index sized) (get-wraps_past v len index sized)
step-Faults b (sets buf index) v sized =
    taken-Faults v (sets buf index) (index + length buf) (flag false) (λ h. h) (λ o. o)
      (λ w p. (w, p)) (set-faults v buf index sized) (set-wraps_past v buf index sized)
