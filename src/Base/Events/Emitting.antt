-- ===== src/Base/Events/Emitting.antt =====
-- base/events.h: whom an event reaches.
use libra_core.Common.{
  ℕ, ◌≡◌, ◌≢◌, refl, ap, ◌∙◌, true, List, [], ◌∷◌, ◌++◌, Exec, try_catch, pure, done, ◌==◌, All,
  if-true, if-false, ==_alike, ==_apart,
}
use libra_core.Base.Events.{
  Emitter, with_entry, add_listener, erase_first, remove_listener, call_each, emit,
}

module _ {C S : Type 0} (call : C → Exec S (Unit {0})) (act : C → S → S)
    (acts : (c : C) (s : S) → try_catch (call c) (pure tt) s ≡ (done tt, act c s)) where
  -- The callbacks in turn.
  abbrev pub act_all : List (ℕ × C) → S → S
  act_all [] s = s
  act_all ((p, c) ∷ entry) s = act_all entry (act c s)

  act_all-append : (xs ys : List (ℕ × C)) (s : S) → act_all (xs ++ ys) s ≡ act_all ys (act_all xs s)
  act_all-append [] ys s = refl
  act_all-append ((p, c) ∷ xs) ys s = act_all-append xs ys (act c s)

  call_each-act_all :
      (entry : List (ℕ × C)) (s : S) → call_each call entry s ≡ (done tt, act_all entry s)
  unfolding call_each
  call_each-act_all [] s = refl
  call_each-act_all ((p, c) ∷ entry) s = rw (acts c s) (call_each-act_all entry (act c s))

  erase_first-split :
      (ptr : ℕ) (c : C) (before after : List (ℕ × C))
      → All (λ l. l.0 ≢ ptr) before
      → erase_first ptr (before ++ ((ptr, c) ∷ after)) ≡ (true, before ++ after)
  unfolding erase_first
  erase_first-split ptr c [] after h = rw (==_alike ptr) refl
  erase_first-split ptr c ((p, d) ∷ before) after h =
      rw (==_apart p ptr h.0, erase_first-split ptr c before after h.1) refl

  with_entry-here :
      (e : ℕ) (entry : List (ℕ × C)) (m : Emitter C) → (with_entry e entry m).set_ e ≡ entry
  unfolding with_entry
  with_entry-here e entry m = if-true (e == e) entry (m.set_ e) (==_alike e)

  with_entry-there :
      (e f : ℕ) (entry : List (ℕ × C)) (m : Emitter C)
      → f ≢ e
      → (with_entry e entry m).set_ f ≡ m.set_ f
  unfolding with_entry
  with_entry-there e f entry m k = if-false (f == e) entry (m.set_ f) (==_apart f e k)

  emit-with_entry :
      (e : ℕ) (entry : List (ℕ × C)) (m : Emitter C) (s : S)
      → (emit call e (with_entry e entry m) s ≡ (done tt, act_all entry s))
        × ((f : ℕ) → f ≢ e → emit call f (with_entry e entry m) s ≡ emit call f m s)
  unfolding emit
  emit-with_entry e entry m s = (
    ap (λ l. call_each call l s) (with_entry-here e entry m) ∙ call_each-act_all entry s,
    λ f k. ap (λ l. call_each call l s) (with_entry-there e f entry m k),
  )

  -- Callbacks that return or throw, and act on their state `S` alone. `emit` calls the listeners of
  -- its event in the order in which they were added, a throw of one does not keep the event from
  -- those after it, and nothing is thrown. A listener that is added is called after those that were
  -- there; one that is removed by its address is not called, and the others are as before. A listener
  -- of another event is not touched.
  pub emit-listeners :
      (e ptr : ℕ) (c : C) (before after : List (ℕ × C)) (m : Emitter C) (s : S)
      → m.set_ e ≡ before ++ ((ptr, c) ∷ after)
      → All (λ l. l.0 ≢ ptr) before
      → (emit call e m s ≡ (done tt, act_all after (act c (act_all before s))))
        × ((m' : Emitter C) × (remove_listener e ptr m ≡ (done true, m'))
            × (emit call e m' s ≡ (done tt, act_all after (act_all before s)))
            × ((f : ℕ) → f ≢ e → emit call f m' s ≡ emit call f m s))
        × ((q : ℕ) (d : C)
            → (m' : Emitter C) × (add_listener e q d m ≡ (done q, m'))
              × (emit call e m' s ≡ (done tt, act d (act_all after (act c (act_all before s)))))
              × ((f : ℕ) → f ≢ e → emit call f m' s ≡ emit call f m s))
  unfolding emit remove_listener add_listener
  emit-listeners e ptr c before after m s h unique =
      let erased = ap (erase_first ptr) h ∙ erase_first-split ptr c before after unique in
      (
        call_each-act_all (m.set_ e) s
            ∙ ap (λ l. (done tt, act_all l s)) h
            ∙ ap (λ x. (done tt, x)) (act_all-append before ((ptr, c) ∷ after) s),
        (
          with_entry e (before ++ after) m,
          ap (λ r. (done r.0, with_entry e r.1 m)) erased,
          (emit-with_entry e (before ++ after) m s).0
              ∙ ap (λ x. (done tt, x)) (act_all-append before after s),
          (emit-with_entry e (before ++ after) m s).1,
        ),
        λ q d. (
          with_entry e (m.set_ e ++ ((q, d) ∷ [])) m,
          refl,
          (emit-with_entry e (m.set_ e ++ ((q, d) ∷ [])) m s).0
              ∙ ap (λ x. (done tt, x))
                  (act_all-append (m.set_ e) ((q, d) ∷ []) s
                    ∙ ap (λ l. act d (act_all l s)) h
                    ∙ ap (act d) (act_all-append before ((ptr, c) ∷ after) s)),
          (emit-with_entry e (m.set_ e ++ ((q, d) ∷ [])) m s).1,
        ),
      )
