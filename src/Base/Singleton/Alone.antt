-- ===== src/Base/Singleton/Alone.antt =====
-- base/singleton.h: a thread that nothing disturbs.
use mathlib.Core.Option.{none-ne-some}
use libra_core.Common.{
  ℕ, zero, suc, ◌+◌, ◌≡◌, refl, ap, sym, ◌∙◌, inl, inr, Option, some, none, List, [], ◌∷◌, ◌==◌,
  replicate, if-true, ==_alike,
}
use libra_core.Base.Singleton.{
  Point, Shared, outside, at_lock, at_test, at_create, at_unlock, at_return, returned, is_null,
  go_to, move, advance, run, at_first,
}
use libra_core.Base.Singleton.Once.{HasOne, only_zero, run-IsSound, at_first-IsSound}

here : (t : ℕ) (p : Point) (s : Shared) → (go_to t p s).threads t ≡ p
unfolding go_to
here t p s = if-true (t == t) p (s.threads t) (==_alike t)

step :
    (ts : List ℕ) (t : ℕ) (p : Point) (s : Shared)
    → s.threads t ≡ p
    → run (t ∷ ts) s ≡ run ts (move t p s)
unfolding run advance
step ts t p s h = ap (λ q. run ts (move t q s)) h

run-nil : (s : Shared) → run [] s ≡ s
unfolding run
run-nil s = refl

-- With a further step where it has returned.
stay : (n t : ℕ) (p : Option ℕ) (s : Shared) → s.threads t ≡ returned p → run (replicate n t) s ≡ s
unfolding run move
stay zero t p s h = refl
stay (suc n) t p s h = step (replicate n t) t (returned p) s h ∙ stay n t p s h

-- The first to come creates the object.
alone_first :
    (t c : ℕ) (threads : ℕ → Point)
    → threads t ≡ outside
    → (run
          (replicate 6 t)
          (record { ptr = none; holder = none; created = c; threads = threads })).threads
        t
      ≡ returned (some c)
unfolding move is_null go_to
alone_first t c threads out =
    let s0 : Shared = record { ptr = none; holder = none; created = c; threads = threads } in
    let s1 : Shared = go_to t at_lock s0 in
    let s2 : Shared = go_to t at_test (record s1 { holder = some t }) in
    let s3 : Shared = go_to t at_create s2 in
    let s4 : Shared = go_to t at_unlock (record s3 { ptr = some c; created = c + 1 }) in
    let s5 : Shared = go_to t at_return (record s4 { holder = none }) in
    let s6 : Shared = go_to t (returned (some c)) s5 in
    ap (λ (s : Shared). s.threads t)
      (step (replicate 5 t) t outside s0 out
        ∙ step (replicate 4 t) t at_lock s1 (here t at_lock s0)
        ∙ step (replicate 3 t) t at_test s2 (here t at_test (record s1 { holder = some t }))
        ∙ step (replicate 2 t) t at_create s3 (here t at_create s2)
        ∙ step (replicate 1 t) t at_unlock s4
            (here t at_unlock (record s3 { ptr = some c; created = c + 1 }))
        ∙ step [] t at_return s5 (here t at_return (record s4 { holder = none }))
        ∙ run-nil s6)
    ∙ here t (returned (some c)) s5

-- And the others find it.
alone_later :
    (t q c : ℕ) (threads : ℕ → Point)
    → threads t ≡ outside
    → (run
          (replicate 6 t)
          (record { ptr = some q; holder = none; created = c; threads = threads })).threads
        t
      ≡ returned (some q)
unfolding move is_null go_to
alone_later t q c threads out =
    let s0 : Shared = record { ptr = some q; holder = none; created = c; threads = threads } in
    let s1 : Shared = go_to t at_return s0 in
    let s2 : Shared = go_to t (returned (some q)) s1 in
    ap (λ (s : Shared). s.threads t)
      (step (replicate 5 t) t outside s0 out
        ∙ step (replicate 4 t) t at_return s1 (here t at_return s0)
        ∙ stay 4 t (some q) s2 (here t (returned (some q)) s1))
    ∙ here t (returned (some q)) s1

alone :
    (t : ℕ) (ptr holder : Option ℕ) (c : ℕ) (threads : ℕ → Point)
    → holder ≡ none
    → threads t ≡ outside
    → HasOne ptr c
    → (run
          (replicate 6 t)
          (record { ptr = ptr; holder = holder; created = c; threads = threads })).threads
        t
      ≡ returned (some 0)
alone t ptr (some h) c threads free out o = absurd (none-ne-some _ (sym free))
alone t none none c threads free out (inr (e, c1)) = absurd (none-ne-some _ e)
alone t none none c threads free out (inl (e, c0)) =
    alone_first t c threads out ∙ ap (λ n. returned (some n)) c0
alone t (some q) none c threads free out o =
    alone_later t q c threads out ∙ ap returned (only_zero o)

-- A thread outside that runs alone while the mutex is free returns in six steps.
pub run-alone :
    (ts : List ℕ) (t : ℕ)
    → (run ts at_first).threads t ≡ outside
    → (run ts at_first).holder ≡ none
    → (run (replicate 6 t) (run ts at_first)).threads t ≡ returned (some 0)
run-alone ts t out free =
    let s = run ts at_first in
    alone t s.ptr s.holder s.created s.threads free out
      (run-IsSound ts at_first at_first-IsSound).one
