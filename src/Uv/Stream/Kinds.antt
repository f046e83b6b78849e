-- ===== src/Uv/Stream/Kinds.antt =====
-- uv/stream.h, uv/tcp.cpp, uv/timer.cpp: requests of several kinds on one handle.
use mathlib.Core.Option.{some-injective, none-ne-some}
use libra_core.Common.{
  ℕ, ◌<◌, ◌≤◌, ◌≡◌, refl, ap, subst, sym, ◌∙◌, inl, inr, Bool, true, false, Option, some, none,
  List, [], ◌∷◌, ◌++◌, arith, Exec, ◌>>◌, pure, done, length, ◌==◌, lt→ltb, Bool-cases,
  if◌then◌else◌, if-true, if-false, ==_alike, ==_equal, ==_differ,
}
use libra_core.Common.{get_elem?, set, length-set, get_elem?-set_self}
use libra_core.Uv.Callbacks.{Lut, Slot, store, invoke, slot_of, callback_of}
use libra_core.Uv.Callbacks.Slots.{get_elem?-set_other}
use libra_core.Uv.Stream.{
  listening, reading, writing, shutting, connecting, timing, Handle, Kind, cid_of, type_by, request,
  happens, uv_cid_max, on_lut, call_slot,
}
use libra_core.Uv.Stream.Slots.{handle_of}

abbrev slot_by : ℕ → ℕ → Option Slot
slot_by cid f = some (record { callback_t = type_by cid; callback = f; user_data = none })

abbrev pub slot : Kind → ℕ → Option Slot
slot k f = slot_by (cid_of k) f

-- Open, and if a callback is known for the kind, it is in the slot.
abbrev pub Keeps : Kind → Option ℕ → Handle → Type 0
Keeps k o h =
    (h.exists ≡ true)
    × (uv_cid_max ≤ length h.lut)
    × ((f : ℕ) → o ≡ some f → get_elem? h.lut (cid_of k) ≡ some (slot k f))

abbrev pub requests : List (Kind × (ℕ × Bool)) → Exec Handle (Unit {0})
requests [] = pure tt
requests ((k, (f, accepted)) ∷ rs) = do request k f accepted; requests rs

-- The callback of the last request of a kind.
abbrev pub last_for : Kind → Option ℕ → List (Kind × (ℕ × Bool)) → Option ℕ
last_for j o [] = o
last_for j o ((k, (f, accepted)) ∷ rs) = last_for j (if cid_of k == cid_of j then some f else o) rs

pub cid_of-lt : (k : Kind) → cid_of k < uv_cid_max
cid_of-lt listening = omega arith
cid_of-lt reading = omega arith
cid_of-lt writing = omega arith
cid_of-lt shutting = omega arith
cid_of-lt connecting = omega arith
cid_of-lt timing = omega arith

pub request_by :
    (k : Kind) (f : ℕ) (accepted e c : Bool) (l : Lut) (p : ℕ) (fs : List ℕ)
    → e ≡ true
    → uv_cid_max ≤ length l
    → request k f accepted (handle_of e c l p fs)
      ≡ (done accepted, handle_of e c (set l (cid_of k) (slot k f)) p fs)
unfolding request on_lut store
request_by k f accepted true c l p fs h m =
    rw (lt→ltb (cid_of k) (length l) (omega (arith, cid_of-lt k))) refl
request_by k f accepted false c l p fs h m = cc

pub happens_by :
    (k : Kind) (f : ℕ) (e c : Bool) (l : Lut) (p : ℕ) (fs : List ℕ)
    → e ≡ true
    → get_elem? l (cid_of k) ≡ some (slot k f)
    → happens k (handle_of e c l p fs) ≡ (done tt, handle_of e c l p (fs ++ (f ∷ [])))
unfolding happens call_slot on_lut invoke callback_of slot_of
happens_by k f true c l p fs h s = rw s (rw (==_alike (type_by (cid_of k))) refl)
happens_by k f false c l p fs h s = cc

request-Keeps :
    (j k : Kind) (f : ℕ) (o : Option ℕ) (l : Lut)
    → uv_cid_max ≤ length l
    → ((g : ℕ) → o ≡ some g → get_elem? l (cid_of j) ≡ some (slot j g))
    → (g : ℕ) → (if cid_of k == cid_of j then some f else o) ≡ some g
    → get_elem? (set l (cid_of k) (slot k f)) (cid_of j) ≡ some (slot j g)
request-Keeps j k f o l m before g h = elim (Bool-cases (cid_of k == cid_of j)) [
  | inl same ↦
      let e : cid_of k ≡ cid_of j = ==_equal (cid_of k) (cid_of j) same in
      let found = get_elem?-set_self l (cid_of k) (slot k f) (omega (arith, cid_of-lt k)) in
      let newest = some-injective _ _ (sym (if-true (cid_of k == cid_of j) (some f) o same) ∙ h) in
      subst (λ c. get_elem? (set l (cid_of k) (slot k f)) c ≡ some (slot_by c g)) e
        (found ∙ ap (λ x. some (slot k x)) newest)
  | inr other ↦
      get_elem?-set_other l (cid_of k) (cid_of j) (slot k f) (==_differ (cid_of k) (cid_of j) other)
      ∙ before g (sym (if-false (cid_of k == cid_of j) (some f) o other) ∙ h)
]

requests-Keeps :
    (rs : List (Kind × (ℕ × Bool))) (j : Kind) (o : Option ℕ) (h : Handle)
    → Keeps j o h
    → (h' : Handle) × (requests rs h ≡ (done tt, h'))
      × Keeps j (last_for j o rs) h'
      × (h'.called ≡ h.called)
requests-Keeps [] j o h keep = (h, refl, keep, refl)
requests-Keeps ((k, (f, accepted)) ∷ rs) j o h keep =
    let h1 = handle_of h.exists h.closing (set h.lut (cid_of k) (slot k f)) h.pending h.called in
    let o1 = if cid_of k == cid_of j then some f else o in
    let keep1 : Keeps j o1 h1 = (
      keep.0,
      omega (arith, keep.1, length-set h.lut (cid_of k) (slot k f)),
      request-Keeps j k f o h.lut keep.1 keep.2,
    ) in
    let (h2, run2, keep2, c2) = requests-Keeps rs j o1 h1 keep1 in
    (
      h2,
      rw (request_by k f accepted h.exists h.closing h.lut h.pending h.called keep.0 keep.1) run2,
      keep2,
      c2,
    )

-- After any requests of any kinds on a handle that exists, taken by libuv or refused, an event of a
-- kind calls the callback of the last request of that kind: kinds do not disturb one another.
pub requests-happens :
    (rs : List (Kind × (ℕ × Bool))) (j : Kind) (f : ℕ) (h : Handle)
    → h.exists ≡ true
    → uv_cid_max ≤ length h.lut
    → last_for j none rs ≡ some f
    → (h' : Handle) × (requests rs h ≡ (done tt, h'))
      × (happens j h' ≡ (done tt, record h' { called = h.called ++ (f ∷ []) }))
requests-happens rs j f h e m last =
    let (h', run, keep, c) = requests-Keeps rs j none h (e, m, λ g k. absurd (none-ne-some g k)) in
    (
      h',
      run,
      happens_by j f h'.exists h'.closing h'.lut h'.pending h'.called keep.0 (keep.2 f last)
          ∙ ap (λ fs. (done tt, record h' { called = fs ++ (f ∷ []) })) c,
    )
