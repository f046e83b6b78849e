-- ===== src/Uv/Signal/Binds.antt =====
-- uv/signal_.cpp: a signal handle after any calls of `bind` and `cancel`.
use mathlib.Core.List.{Forall₂}
use libra_core.Common.{
  ℕ, ◌+◌, ◌≤◌, ◌≡◌, ◌≢◌, refl, ap, ◌∙◌, subst, ◌⊎◌, inl, inr, Bool, true, false, Option, some, none,
  arith, Outcome, done, throw, List, [], ◌∷◌, length, ltb, leb, lt→ltb, ◌==◌, ltb→lt, leb→le,
  leb-false→lt, ltb-false→le, Bool-cases, Exec, ◌<◌, ==_alike, sym,
}
use libra_core.Common.{set, length-set, get_elem?-set_self, ℤ, pos, negsuc, params_error}
use libra_core.Uv.Callbacks.{Lut, Slot, store, invoke, slot_of, callback_of}
use libra_core.Uv.Signal.{
  UvSignal, Signal, max_signs, is_signal, is_watching, int_function, bind, cancel, raised,
  start_signal,
}

pub data Call : Type 0 where
  binds : ℤ → ℕ → Call
  cancels : Call

-- A signal has a number from 1 to 64.
abbrev pub IsSignal : ℤ → Type 0
IsSignal n = (m : ℕ) × (n ≡ pos m) × (1 ≤ m) × (m ≤ 64)

-- A bind throws exactly where its number is of no signal.
abbrev pub Answers : Outcome Bool → Call → Type 0
Answers o (binds n c) =
    (IsSignal n × ((b : Bool) × (o ≡ done b))) ⊎ ((¬ IsSignal n) × (o ≡ throw params_error))
Answers o cancels = (b : Bool) × (o ≡ done b)

differs : (m k : ℕ) → m ≢ k → m == k ≡ false
differs m k other = ground arith

the_number : {m k : ℕ} → pos m ≡ pos k → m ≡ k
the_number = cc

IsSignal-cases :
    (n : ℤ)
    → ((m : ℕ) × (n ≡ pos m) × (1 ≤ m) × (m ≤ 64) × (is_signal n ≡ true))
      ⊎ ((¬ IsSignal n) × (is_signal n ≡ false))
unfolding is_signal
IsSignal-cases (negsuc k) = inr ((λ h. absurd cc), refl)
IsSignal-cases (pos m) = elim (Bool-cases (ltb m 1)) [
  | inl low ↦
      inr
        ((λ (k, same, l, h). absurd (grind (arith, ltb→lt m 1 low, the_number same))), rw low refl)
  | inr some_number ↦ elim (Bool-cases (leb m 64)) [
    | inr high ↦ inr (
      (λ (k, same, l, h). absurd (grind (arith, leb-false→lt m 64 high, the_number same))),
      rw (some_number, high) refl,
    )
    | inl known ↦
        inl (m, refl, ltb-false→le m 1 some_number, leb→le m 64 known, rw (some_number, known) refl)
  ]
]

abbrev slot_for : ℕ → Option Slot
slot_for c = some (record { callback_t = int_function; callback = c; user_data = none })

module _ (uv : UvSignal) where
  -- `bind` of a signal, and of another number.
  bind-known :
      (m c : ℕ) (w : Signal uv)
      → is_signal (pos m) ≡ true
      → m ≤ 64
      → length w.1 ≡ max_signs + 1
      → bind uv (pos m) c w
        ≡ (done (uv.start m w.0).0, ((uv.start m w.0).1, set w.1 m (slot_for c)))
  unfolding bind store start_signal
  bind-known m c w known high size =
      rw (known, lt→ltb m (length w.1) (omega (arith, high, size))) refl

  bind-unknown :
      (n : ℤ) (c : ℕ) (w : Signal uv)
      → is_signal n ≡ false
      → bind uv n c w ≡ (throw params_error, w)
  unfolding bind
  bind-unknown n c w unknown = rw unknown refl

  abbrev pub call_of : Call → Exec (Signal uv) Bool
  call_of (binds n c) = bind uv n c
  call_of cancels = cancel uv

  -- What a caller gets who catches what `bind` throws.
  unfoldable pub calls : List Call → Signal uv → List (Outcome Bool) × Signal uv
  calls [] w = ([], w)
  calls (x ∷ xs) w = let (o, w') = call_of x w in let (os, after) = calls xs w' in (o ∷ os, after)

  call_of-Answers :
      (x : Call) (w : Signal uv)
      → length w.1 ≡ max_signs + 1
      → Answers (call_of x w).0 x × (length (call_of x w).1.1 ≡ max_signs + 1)
  unfolding cancel
  call_of-Answers cancels w size = (((uv.stop w.0).0, refl), size)
  call_of-Answers (binds n c) w size = elim (IsSignal-cases n) [
    | inl (m, same, low, high, known) ↦
        subst
          (λ n.
            Answers (bind uv n c w).0 (binds n c) × (length (bind uv n c w).1.1 ≡ max_signs + 1))
          (sym same)
          (rw (bind-known m c w (subst (λ n. is_signal n ≡ true) same known) high size) (
            inl ((m, refl, low, high), ((uv.start m w.0).0, refl)),
            length-set w.1 m (slot_for c) ∙ size,
          ))
    | inr (outside, unknown) ↦ rw (bind-unknown n c w unknown) (inr (outside, refl), size)
  ]

  calls-Answers :
      (xs : List Call) (w : Signal uv)
      → length w.1 ≡ max_signs + 1
      → Forall₂ Answers (calls xs w).0 xs × (length (calls xs w).1.1 ≡ max_signs + 1)
  unfolding calls
  calls-Answers [] w size = (Forall₂.nil, size)
  calls-Answers (x ∷ xs) w size =
      let (answer, size') = call_of-Answers x w size in
      let (rest, size'') = calls-Answers xs (call_of x w).1 size' in
      (Forall₂.cons answer rest, size'')

  raised-watched :
      (m c : ℕ) (s : uv.State) (lut : Lut)
      → m < length lut
      → uv.watches s ≡ some m
      → raised uv m (s, set lut m (slot_for c)) ≡ (done (some c), (s, set lut m (slot_for c)))
  unfolding raised invoke callback_of slot_of
  raised-watched m c s lut inside w =
      rw (w, ==_alike m, get_elem?-set_self lut m (slot_for c) inside) refl

  raised-not_watched :
      (k : ℕ) (s : uv.State) (lut : Lut)
      → is_watching (uv.watches s) k ≡ false
      → raised uv k (s, lut) ≡ (done none, (s, lut))
  unfolding raised
  raised-not_watched k s lut w = rw w refl

  -- Any calls of `bind` and `cancel` on a table of the constructor's length, each of which may throw:
  -- a bind throws exactly where its number is not from 1 to 64, and nothing is a fault. After them, a
  -- bind of a signal that libuv starts answers true; that signal, when it comes, calls the callback of
  -- this bind, and no other signal calls anything any more, as the handle watches for one at a time;
  -- a bind of a number outside of 1 to 64 then throws and changes nothing; and after a `cancel` that
  -- libuv takes no signal calls anything.
  pub calls-raised :
      (xs : List Call) (m callback : ℕ) (w : Signal uv)
      → length w.1 ≡ max_signs + 1
      → 1 ≤ m
      → m ≤ 64
      → (uv.start m (calls xs w).1.0).0 ≡ true
      → Forall₂ Answers (calls xs w).0 xs
        × ((w' : Signal uv) × (bind uv (pos m) callback (calls xs w).1 ≡ (done true, w'))
            × (raised uv m w' ≡ (done (some callback), w'))
            × ((k : ℕ) → m ≢ k → raised uv k w' ≡ (done none, w'))
            × ((n : ℤ) (c : ℕ) → ¬ IsSignal n → bind uv n c w' ≡ (throw params_error, w'))
            × ((uv.stop w'.0).0 ≡ true → (k : ℕ) → (raised uv k (cancel uv w').1).0 ≡ done none))
  unfolding cancel
  calls-raised xs m callback w size low high started =
      let (answers, size') = calls-Answers xs w size in
      let there : Signal uv = (calls xs w).1 in
      let watched : uv.watches (uv.start m there.0).1 ≡ some m =
        uv.start-watches m there.0 started in
      (
        answers,
        (
          ((uv.start m there.0).1, set there.1 m (slot_for callback)),
          bind-known m callback there (is_known m low high) high size'
              ∙ ap (λ b. (done b, ((uv.start m there.0).1, set there.1 m (slot_for callback))))
                  started,
          raised-watched m callback (uv.start m there.0).1 there.1 (omega (arith, high, size'))
              watched,
          λ k other.
              raised-not_watched k _ _ (ap (λ o. is_watching o k) watched ∙ differs m k other),
          λ n c outside. bind-unknown n c _ (unknown n outside),
          λ stopped k.
              ap (λ o. o.0)
                (raised-not_watched k _ _
                  (ap (λ o. is_watching o k) (uv.stop-watches (uv.start m there.0).1 stopped))),
        ),
      )
    where
      is_known : (m : ℕ) → 1 ≤ m → m ≤ 64 → is_signal (pos m) ≡ true
      is_known m low high = elim (IsSignal-cases (pos m)) [
        | inl (k, same, l, h, known) ↦ known
        | inr (outside, unknown) ↦ absurd (outside (m, refl, low, high))
      ]

      unknown : (n : ℤ) → ¬ IsSignal n → is_signal n ≡ false
      unknown n outside = elim (IsSignal-cases n) [
        | inl (k, same, l, h, known) ↦ absurd (outside (k, same, l, h))
        | inr (_, outside_of) ↦ outside_of
      ]
