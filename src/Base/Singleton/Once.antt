-- ===== src/Base/Singleton/Once.antt =====
-- base/singleton.h: one object, whatever the schedule.
use mathlib.Core.Option.{some-injective, none-ne-some}
use libra_core.Common.{
  ℕ, ◌+◌, ◌≤◌, ◌≡◌, ◌≢◌, refl, ap, subst, sym, ◌∙◌, ◌⊎◌, inl, inr, Option, some, none, List, [],
  ◌∷◌, arith, ◌==◌, Bool-cases, ==_equal, ==_differ,
}
use libra_core.Base.Singleton.{
  Point, Shared, outside, at_lock, at_test, at_create, at_unlock, at_return, returned, is_null,
  go_to, move, advance, run, at_first,
}

-- What holds of a thread where it is.
abbrev pub Knows : Option ℕ → Option ℕ → ℕ → Point → Type 0
Knows ptr holder t outside = Unit
Knows ptr holder t at_lock = Unit
Knows ptr holder t at_test = holder ≡ some t
Knows ptr holder t at_create = (holder ≡ some t) × (ptr ≡ none)
Knows ptr holder t at_unlock = (holder ≡ some t) × (ptr ≡ some 0)
Knows ptr holder t at_return = ptr ≡ some 0
Knows ptr holder t (returned p) = p ≡ some 0

abbrev pub HasOne : Option ℕ → ℕ → Type 0
HasOne ptr created = ((ptr ≡ none) × (created ≡ 0)) ⊎ ((ptr ≡ some 0) × (created ≡ 1))

pub record IsSound (s : Shared) : Type 0 where
  pub one : HasOne s.ptr s.created
  pub knows : (t : ℕ) → Knows s.ptr s.holder t (s.threads t)

-- What another thread knows is kept by a change of the mutex that it does not hold, and by the
-- creation of the object.
taken : (ptr : Option ℕ) (t u : ℕ) (p : Point) → Knows ptr none u p → Knows ptr (some t) u p
taken ptr t u outside k = tt
taken ptr t u at_lock k = tt
taken ptr t u at_test k = cc
taken ptr t u at_create k = absurd (none-ne-some _ k.0)
taken ptr t u at_unlock k = absurd (none-ne-some _ k.0)
taken ptr t u at_return k = k
taken ptr t u (returned p) k = k

released :
    (ptr : Option ℕ) (t u : ℕ) (p : Point) → u ≢ t → Knows ptr (some t) u p → Knows ptr none u p
released ptr t u outside n k = tt
released ptr t u at_lock n k = tt
released ptr t u at_test n k = absurd (n (sym (some-injective t u k)))
released ptr t u at_create n k = absurd (n (sym (some-injective t u k.0)))
released ptr t u at_unlock n k = absurd (n (sym (some-injective t u k.0)))
released ptr t u at_return n k = k
released ptr t u (returned p) n k = k

made : (t u : ℕ) (p : Point) → u ≢ t → Knows none (some t) u p → Knows (some 0) (some t) u p
made t u outside n k = tt
made t u at_lock n k = tt
made t u at_test n k = k
made t u at_create n k = absurd (n (sym (some-injective t u k.0)))
made t u at_unlock n k = (k.0, refl)
made t u at_return n k = refl
made t u (returned p) n k = k

pub only_zero : {q created : ℕ} → HasOne (some q) created → some q ≡ some 0
only_zero (inl (e, c)) = absurd (none-ne-some _ (sym e))
only_zero (inr (e, c)) = e

-- A thread moves, and the others keep what they know.
moved :
    (t : ℕ) (p : Point) (ptr holder : Option ℕ) (created : ℕ) (threads : ℕ → Point)
    → HasOne ptr created
    → Knows ptr holder t p
    → ((u : ℕ) → u ≢ t → Knows ptr holder u (threads u))
    → IsSound
        (go_to t p (record { ptr = ptr; holder = holder; created = created; threads = threads }))
unfolding go_to
moved t p ptr holder created threads o k others = record {
  one = o;
  knows = λ u. elim (Bool-cases (u == t)) [
    | inl same ↦ rw same (subst (λ x. Knows ptr holder x p) (sym (==_equal u t same)) k)
    | inr other ↦ rw other (others u (==_differ u t other))
  ];
}

move-IsSound :
    (t : ℕ) (ptr holder : Option ℕ) (created : ℕ) (threads : ℕ → Point) (p : Point)
    → HasOne ptr created
    → Knows ptr holder t p
    → ((u : ℕ) → Knows ptr holder u (threads u))
    → IsSound
        (move t p (record { ptr = ptr; holder = holder; created = created; threads = threads }))
unfolding move is_null
move-IsSound t none holder created threads outside o k all =
    moved t at_lock none holder created threads o tt (λ u n. all u)
move-IsSound t (some q) holder created threads outside o k all =
    moved t at_return (some q) holder created threads o (only_zero o) (λ u n. all u)
move-IsSound t ptr none created threads at_lock o k all =
    moved t at_test ptr (some t) created threads o refl (λ u n. taken ptr t u (threads u) (all u))
move-IsSound t ptr (some h) created threads at_lock o k all = record { one = o; knows = all }
move-IsSound t none holder created threads at_test o k all =
    moved t at_create none holder created threads o (k, refl) (λ u n. all u)
move-IsSound t (some q) holder created threads at_test o k all =
    moved t at_unlock (some q) holder created threads o (k, only_zero o) (λ u n. all u)
move-IsSound t ptr holder created threads at_create (inr (full, c1)) k all =
    absurd (none-ne-some _ (sym k.1 ∙ full))
move-IsSound t ptr holder created threads at_create (inl (empty, c0)) k all =
    moved t at_unlock (some created) holder (created + 1) threads (inr (ap some c0, omega arith))
      (k.0, ap some c0) others
  where
    others : (u : ℕ) → u ≢ t → Knows (some created) holder u (threads u)
    others u n =
        let before = subst (λ q. Knows q holder u (threads u)) k.1 (all u) in
        let held = subst (λ h. Knows none h u (threads u)) k.0 before in
        subst (λ h. Knows (some created) h u (threads u)) (sym k.0)
          (subst (λ c. Knows (some c) (some t) u (threads u)) (sym c0)
            (made t u (threads u) n held))
move-IsSound t ptr holder created threads at_unlock o k all =
    moved t at_return ptr none created threads o k.1
      (λ u n. released ptr t u (threads u) n (subst (λ h. Knows ptr h u (threads u)) k.0 (all u)))
move-IsSound t ptr holder created threads at_return o k all =
    moved t (returned ptr) ptr holder created threads o k (λ u n. all u)
move-IsSound t ptr holder created threads (returned q) o k all = record { one = o; knows = all }

advance-IsSound : (t : ℕ) (s : Shared) → IsSound s → IsSound (advance t s)
unfolding advance
advance-IsSound t s h =
    move-IsSound t s.ptr s.holder s.created s.threads (s.threads t) h.one (h.knows t) h.knows

pub run-IsSound : (ts : List ℕ) (s : Shared) → IsSound s → IsSound (run ts s)
unfolding run
run-IsSound [] s h = h
run-IsSound (t ∷ ts) s h = run-IsSound ts (advance t s) (advance-IsSound t s h)

pub at_first-IsSound : IsSound at_first
unfolding at_first
at_first-IsSound = record { one = inl (refl, refl); knows = λ t. tt }

-- Whatever the threads do and in whatever order, at most one object is created, and every thread
-- that returns from `instance` has it.
pub run-one :
    (ts : List ℕ) (t : ℕ) (p : Option ℕ)
    → (run ts at_first).created ≤ 1 × ((run ts at_first).threads t ≡ returned p → p ≡ some 0)
run-one ts t p =
    let sound = run-IsSound ts at_first at_first-IsSound in
    (
      few sound.one,
      λ back. subst (Knows (run ts at_first).ptr (run ts at_first).holder t) back (sound.knows t),
    )
  where
    few : {q : Option ℕ} {c : ℕ} → HasOne q c → c ≤ 1
    few (inl (e, c0)) = omega arith
    few (inr (e, c1)) = omega arith
