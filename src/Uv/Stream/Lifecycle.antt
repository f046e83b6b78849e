-- ===== src/Uv/Stream/Lifecycle.antt =====
-- uv/handle.h, uv/stream.h: what can become of a handle, by the calls of the program and of libuv.
use libra_core.Common.{
  if◌then◌else◌, ◌+◌, ℕ, ◌-◌, ◌≡◌, ◌≢◌, refl, ap, subst, sym, ◌∙◌, ◌⊎◌, inl, inr, Bool, true, false,
  Option, List, [], ◌∷◌, ◌++◌, arith, Outcome, done, throw, fault, length, proceed, lt→ltb,
}
use libra_core.Common.{get_elem?, set, length-set}
use libra_core.Uv.Callbacks.{Lut, Slot, store, invoke}
use libra_core.Uv.Callbacks.Slots.{get_elem?-set_other}
use libra_core.Uv.Stream.{
  Handle, Kind, cid_of, request, happens, write, write_done, close, closed, on_lut, call_slot,
  end_write, start_close, uv_cid_close, uv_cid_write, uv_cid_max, listening, reading, writing,
  shutting, connecting, timing,
}
use libra_core.Uv.Stream.Slots.{handle_of, write_by, write_slot}
use libra_core.Uv.Stream.Kinds.{request_by, slot}

-- A call that returns: a request, a write, libuv's report of an event or of a write, a close, and
-- libuv's report of a closing, which comes only after `uv_close`.
pub data Step (h : Handle) : Handle → Type 0 where
  asks :
      (k : Kind) (f : ℕ) (accepted : Bool) {h' : Handle}
      → request k f accepted h ≡ (done accepted, h')
      → Step h h'
  writes :
      (f : ℕ) (accepted : Bool) {h' : Handle} → write f accepted h ≡ (done accepted, h') → Step h h'
  tells : (k : Kind) {h' : Handle} → happens k h ≡ (done tt, h') → Step h h'
  tells_write : {h' : Handle} → write_done h ≡ (done tt, h') → Step h h'
  closes : (f : ℕ) {h' : Handle} → close f h ≡ (done tt, h') → Step h h'
  ends : {h' : Handle} → h.closing ≡ true → closed h ≡ (done tt, h') → Step h h'

-- What any number of steps lead to.
pub data Reach (h : Handle) : Handle → Type 0 where
  here : Reach h h
  later : {s t : Handle} → Reach h s → Step s t → Reach h t

-- With its table, and where it is closing, with the same slot for the closing.
abbrev pub Follows : Handle → Handle → Type 0
Follows h h' =
    (h'.exists ≡ false)
    ⊎ ((h'.exists ≡ true)
        × (length h'.lut ≡ uv_cid_max)
        × (h.closing ≡ true
            → (h'.closing ≡ true) × (get_elem? h'.lut uv_cid_close ≡ get_elem? h.lut uv_cid_close)))

cid_of-ne-close : (k : Kind) → cid_of k ≢ uv_cid_close
cid_of-ne-close listening = omega arith
cid_of-ne-close reading = omega arith
cid_of-ne-close writing = omega arith
cid_of-ne-close shutting = omega arith
cid_of-ne-close connecting = omega arith
cid_of-ne-close timing = omega arith

-- A slot other than that of the closing is filled.
filled :
    (h : Handle) (cid p : ℕ) (v : Option Slot) (fs : List ℕ)
    → h.exists ≡ true
    → length h.lut ≡ uv_cid_max
    → cid ≢ uv_cid_close
    → Follows h (handle_of h.exists h.closing (set h.lut cid v) p fs)
filled h cid p v fs there size other = inr (
  there,
  length-set h.lut cid v ∙ size,
  λ c. (c, get_elem?-set_other h.lut cid uv_cid_close v other),
)

-- Only what was called and what is under way changes.
kept :
    (h : Handle) (p : ℕ) (fs : List ℕ)
    → h.exists ≡ true
    → length h.lut ≡ uv_cid_max
    → Follows h (handle_of h.exists h.closing h.lut p fs)
kept h p fs there size = inr (there, size, λ c. (c, refl))

-- The call of a slot, by what it calls.
called_by :
    (r : Outcome ℕ) (c : Bool) (l : Lut) (p : ℕ) (fs : List ℕ)
    → (fs' : List ℕ) × ((proceed
          (λ f (h : Handle). (done tt, record h { called = h.called ++ (f ∷ []) }))
          (r, handle_of true c l p fs)).1
        ≡ handle_of true c l p fs')
called_by (done f) c l p fs = (fs ++ (f ∷ []), refl)
called_by (throw e) c l p fs = (fs, refl)
called_by fault c l p fs = (fs, refl)

happens-kept :
    (k : Kind) (e c : Bool) (l : Lut) (p : ℕ) (fs : List ℕ)
    → e ≡ true
    → (fs' : List ℕ) × ((happens k (handle_of e c l p fs)).1 ≡ handle_of e c l p fs')
unfolding happens call_slot on_lut invoke
happens-kept k true c l p fs h = called_by _ c l p fs
happens-kept k false c l p fs h = absurd cc

reported_by :
    (r : Outcome ℕ) (c : Bool) (l : Lut) (p : ℕ) (fs : List ℕ)
    → (fs' : List ℕ) × (p' : ℕ) × ((proceed
          (λ _. end_write)
          (proceed
            (λ f (h : Handle). (done tt, record h { called = h.called ++ (f ∷ []) }))
            (r, handle_of true c l p fs))).1
        ≡ handle_of true c l p' fs')
unfolding end_write
reported_by (done f) c l p fs = (fs ++ (f ∷ []), p - 1, refl)
reported_by (throw e) c l p fs = (fs, p, refl)
reported_by fault c l p fs = (fs, p, refl)

write_done-kept :
    (e c : Bool) (l : Lut) (p : ℕ) (fs : List ℕ)
    → e ≡ true
    → (fs' : List ℕ) × (p' : ℕ) × ((write_done (handle_of e c l p fs)).1 ≡ handle_of e c l p' fs')
unfolding write_done call_slot on_lut invoke
write_done-kept true c l p fs h = reported_by _ c l p fs
write_done-kept false c l p fs h = absurd cc

close-Follows :
    (f : ℕ) (e c : Bool) (l : Lut) (p : ℕ) (fs : List ℕ)
    → e ≡ true
    → length l ≡ uv_cid_max
    → Follows (handle_of e c l p fs) (close f (handle_of e c l p fs)).1
unfolding close start_close on_lut store
close-Follows f true true l p fs there size = inr (refl, size, λ c. (refl, refl))
close-Follows f true false l p fs there size =
    rw (lt→ltb uv_cid_close (length l) (omega (arith, size)))
      (inr (refl, length-set l uv_cid_close _ ∙ size, λ c. absurd cc))
close-Follows f false c l p fs there size = absurd cc

ended_by :
    (r : Outcome ℕ) (h : Handle)
    → (proceed
        (λ _ (h : Handle). (done (tt {0}), record h { exists = false; lut = [] }))
        (proceed
          (λ f (h : Handle). (done (tt {0}), record h { called = h.called ++ (f ∷ []) }))
          (r, h))).0
      ≡ done tt
    → (proceed
        (λ _ (h : Handle). (done (tt {0}), record h { exists = false; lut = [] }))
        (proceed
          (λ f (h : Handle). (done (tt {0}), record h { called = h.called ++ (f ∷ []) }))
          (r, h))).1.exists
      ≡ false
ended_by (done f) h e = refl
ended_by (throw x) h e = absurd cc
ended_by fault h e = absurd cc

closed-ended :
    (e c : Bool) (l : Lut) (p : ℕ) (fs : List ℕ)
    → e ≡ true
    → (closed (handle_of e c l p fs)).0 ≡ done tt
    → (closed (handle_of e c l p fs)).1.exists ≡ false
unfolding closed call_slot on_lut invoke
closed-ended true c l p fs there over = ended_by _ _ over
closed-ended false c l p fs there over = absurd cc

-- A step of a handle that exists.
pub step-Follows :
    {h h' : Handle} → Step h h' → h.exists ≡ true → length h.lut ≡ uv_cid_max → Follows h h'
step-Follows {h} (asks k f accepted eq) there size =
    subst (Follows h)
      (ap (λ r. r.1)
        (sym (
            request_by k f accepted h.exists h.closing h.lut h.pending h.called there
              (omega (arith, size)))
          ∙ eq))
      (filled h (cid_of k) h.pending (slot k f) h.called there size (cid_of-ne-close k))
step-Follows {h} (writes f accepted eq) there size =
    subst (Follows h)
      (ap (λ r. r.1)
        (sym (
            write_by f accepted h.exists h.closing h.lut h.pending h.called there
              (omega (arith, size)))
          ∙ eq))
      (filled h uv_cid_write (if accepted then h.pending + 1 else h.pending) (write_slot f) h.called
        there size (omega arith))
step-Follows {h} (tells k eq) there size =
    let (fs', same) = happens-kept k h.exists h.closing h.lut h.pending h.called there in
    subst (Follows h) (sym same ∙ ap (λ r. r.1) eq) (kept h h.pending fs' there size)
step-Follows {h} (tells_write eq) there size =
    let (fs', p', same) = write_done-kept h.exists h.closing h.lut h.pending h.called there in
    subst (Follows h) (sym same ∙ ap (λ r. r.1) eq) (kept h p' fs' there size)
step-Follows {h} (closes f eq) there size =
    subst (Follows h) (ap (λ r. r.1) eq)
      (close-Follows f h.exists h.closing h.lut h.pending h.called there size)
step-Follows {h} (ends c eq) there size = inl (
    ap (λ r. r.1.exists) (sym eq)
    ∙ closed-ended h.exists h.closing h.lut h.pending h.called there (ap (λ r. r.0) eq))
