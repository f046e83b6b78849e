-- ===== src/Uv/Stream/Closing.antt =====
-- uv/handle.h: the end of a handle, whatever happens before it.
use libra_core.Common.{
  ℕ, ◌≡◌, refl, ap, sym, ◌∙◌, ◌⊎◌, inl, inr, Bool, true, false, Option, none, some, List, [], ◌∷◌,
  ◌++◌, arith, done, fault, length, lt→ltb, subst,
}
use libra_core.Common.{get_elem?, length-set, get_elem?-set_self}
use libra_core.Uv.Callbacks.{Lut, Slot, new_lut, store, invoke, slot_of, callback_of}
use libra_core.Uv.Stream.{
  Handle, Kind, new_handle, request, happens, write, write_done, close, closed, on_lut, call_slot,
  start_close, void_function, uv_cid_close, uv_cid_max,
}
use libra_core.Uv.Stream.Slots.{handle_of}
use libra_core.Uv.Stream.Lifecycle.{
  Step, asks, writes, tells, tells_write, closes, ends, Reach, here, later, step-Follows,
}

-- Every call of a handle that does not exist is a fault.
gone-faults :
    (e c : Bool) (l : Lut) (p : ℕ) (fs : List ℕ)
    → e ≡ false
    → let h : Handle = handle_of e c l p fs in
      ((k : Kind) (f : ℕ) (accepted : Bool) → (request k f accepted h).0 ≡ fault)
      × ((f : ℕ) (accepted : Bool) → (write f accepted h).0 ≡ fault)
      × ((k : Kind) → (happens k h).0 ≡ fault)
      × ((write_done h).0 ≡ fault)
      × ((f : ℕ) → (close f h).0 ≡ fault)
      × ((closed h).0 ≡ fault)
unfolding request write happens write_done close closed on_lut call_slot
gone-faults true c l p fs gone = absurd cc
gone-faults false c l p fs gone =
    (λ k f accepted. refl, λ f accepted. refl, λ k. refl, refl, λ f. refl, refl)

no_step : {h h' : Handle} → h.exists ≡ false → Step h h' → ⊥
no_step {h} gone st =
    let (request_faults, write_faults, happens_faults, report_faults, close_faults, closed_faults) =
      gone-faults h.exists h.closing h.lut h.pending h.called gone in
    elim st [
      | asks k f accepted eq ↦ returned (sym (request_faults k f accepted) ∙ ap (λ r. r.0) eq)
      | writes f accepted eq ↦ returned (sym (write_faults f accepted) ∙ ap (λ r. r.0) eq)
      | tells k eq ↦ returned (sym (happens_faults k) ∙ ap (λ r. r.0) eq)
      | tells_write eq ↦ returned (sym report_faults ∙ ap (λ r. r.0) eq)
      | closes f eq ↦ returned (sym (close_faults f) ∙ ap (λ r. r.0) eq)
      | ends c eq ↦ returned (sym closed_faults ∙ ap (λ r. r.0) eq)
    ]
  where
    returned : {A : Type 0} {a : A} → fault ≡ done a → ⊥
    returned e = cc

-- Gone, or with its table.
abbrev IsWhole : Handle → Type 0
IsWhole h = (h.exists ≡ false) ⊎ ((h.exists ≡ true) × (length h.lut ≡ uv_cid_max))

reach-IsWhole : {h : Handle} → Reach new_handle h → IsWhole h
unfolding new_handle new_lut
reach-IsWhole here = inr (refl, refl)
reach-IsWhole (later r st) = elim (reach-IsWhole r) [
  | inl gone ↦ absurd (no_step gone st)
  | inr whole ↦ elim (step-Follows st whole.0 whole.1) [
    | inl gone ↦ inl gone
    | inr next ↦ inr (next.0, next.1)
  ]
]

abbrev close_slot : ℕ → Option Slot
close_slot f = some (record { callback_t = void_function; callback = f; user_data = none })

-- Gone, or closing with this callback.
abbrev IsClosing : ℕ → Handle → Type 0
IsClosing f h =
    (h.exists ≡ false)
    ⊎ ((h.exists ≡ true)
        × (length h.lut ≡ uv_cid_max)
        × (h.closing ≡ true)
        × (get_elem? h.lut uv_cid_close ≡ some (close_slot f)))

close-IsClosing :
    (f : ℕ) (e c : Bool) (l : Lut) (p : ℕ) (fs : List ℕ)
    → e ≡ true
    → c ≡ false
    → length l ≡ uv_cid_max
    → IsClosing f (close f (handle_of e c l p fs)).1
unfolding close start_close on_lut store
close-IsClosing f true false l p fs there not_yet size =
    rw (lt→ltb uv_cid_close (length l) (omega (arith, size))) (
      inr (
        refl,
        length-set l uv_cid_close (close_slot f) ∙ size,
        refl,
        get_elem?-set_self l uv_cid_close (close_slot f) (omega (arith, size)),
      ))
close-IsClosing f true true l p fs there not_yet size = absurd cc
close-IsClosing f false c l p fs there not_yet size = absurd cc

reach-IsClosing : {f : ℕ} {h h' : Handle} → IsClosing f h → Reach h h' → IsClosing f h'
reach-IsClosing k here = k
reach-IsClosing k (later r st) = elim (reach-IsClosing k r) [
  | inl gone ↦ absurd (no_step gone st)
  | inr (there, size, closing, slot) ↦ elim (step-Follows st there size) [
    | inl gone ↦ inl gone
    | inr (there', size', same) ↦ inr (there', size', (same closing).0, (same closing).1 ∙ slot)
  ]
]

closed_by :
    (f g : ℕ) (e c : Bool) (l : Lut) (p : ℕ) (fs : List ℕ)
    → e ≡ true
    → c ≡ true
    → get_elem? l uv_cid_close ≡ some (close_slot f)
    → (closed (handle_of e c l p fs) ≡ (done tt, handle_of false true [] p (fs ++ (f ∷ []))))
      × (close g (handle_of e c l p fs) ≡ (done tt, handle_of e c l p fs))
unfolding closed close call_slot on_lut invoke callback_of slot_of
closed_by f g true true l p fs there closing slot = (rw slot refl, refl)
closed_by f g true false l p fs there closing slot = absurd cc
closed_by f g false c l p fs there closing slot = absurd cc

-- A handle that was made, after any calls of the program and of libuv that return, and its first
-- `close`; then any calls again. As long as the handle exists, another `close` changes nothing, and
-- libuv's report of the closing calls the callback of the first `close`, and that alone, and deletes
-- the handle. Once it is deleted, no call of it returns.
pub close-ends :
    (f : ℕ) (h0 h1 h : Handle)
    → Reach new_handle h0
    → h0.exists ≡ true
    → h0.closing ≡ false
    → close f h0 ≡ (done tt, h1)
    → Reach h1 h
    → (h.exists ≡ true
        → (closed h ≡ (
          done tt,
          record h { exists = false; closing = true; lut = []; called = h.called ++ (f ∷ []) },
        ))
          × ((g : ℕ) → close g h ≡ (done tt, h)))
      × (h.exists ≡ false → (h' : Handle) → ¬ Step h h')
close-ends f h0 h1 h before there not_yet eq after = elim (reach-IsClosing first after) [
  | inl gone ↦ (λ e. absurd cc, λ e h' st. no_step gone st)
  | inr (e, size, closing, slot) ↦ (
    λ e'. (
      (closed_by f 0 h.exists h.closing h.lut h.pending h.called e closing slot).0,
      λ g. (closed_by f g h.exists h.closing h.lut h.pending h.called e closing slot).1,
    ),
    λ gone. absurd cc,
  )
]
  where
    first : IsClosing f h1
    first = elim (reach-IsWhole before) [
      | inl gone ↦ absurd cc
      | inr whole ↦
          subst (IsClosing f) (ap (λ r. r.1) eq) (
            close-IsClosing f h0.exists h0.closing h0.lut h0.pending h0.called there not_yet
              whole.1)
    ]
