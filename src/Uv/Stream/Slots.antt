-- ===== src/Uv/Stream/Slots.antt =====
-- uv/handle.h, uv/stream.h: which callback is called.
use libra_core.Common.{
  ℕ, zero, suc, ◌+◌, ◌-◌, ◌≤◌, ◌≡◌, refl, ap, sym, ◌∙◌, Bool, true, false, Option, some, none, List,
  [], ◌∷◌, ◌++◌, append-nil, append_assoc, arith, Exec, ◌>>◌, pure, done, length, lt→ltb,
  if◌then◌else◌, replicate,
}
use libra_core.Common.{get_elem?, set, length-set, get_elem?-set_self}
use libra_core.Uv.Callbacks.{Lut, Slot, store, invoke, slot_of, callback_of}
use libra_core.Uv.Stream.{
  Handle, uv_cid_max, uv_cid_write, error_function, write, write_done, on_lut, call_slot,
  begin_write, end_write,
}

-- The table of a handle: as long as it was made, its slot for writes holding a callback.
abbrev pub HoldsWrite : ℕ → Handle → Type 0
HoldsWrite f h =
    (h.exists ≡ true)
    × (uv_cid_max ≤ length h.lut)
    × (get_elem? h.lut uv_cid_write
        ≡ some (some (record { callback_t = error_function; callback = f; user_data = none })))

-- Writes, each a callback and whether libuv takes it, then as many reports of libuv.
abbrev pub writes : List (ℕ × Bool) → Exec Handle (Unit {0})
writes [] = pure tt
writes ((f, accepted) ∷ ws) = do write f accepted; writes ws

abbrev pub reports : ℕ → Exec Handle (Unit {0})
reports zero = pure tt
reports (suc n) = do write_done; reports n

abbrev pub last_callback : ℕ → List (ℕ × Bool) → ℕ
last_callback f [] = f
last_callback f (w ∷ ws) = last_callback w.0 ws

abbrev pub count_accepted : List (ℕ × Bool) → ℕ
count_accepted [] = 0
count_accepted ((f, accepted) ∷ ws) =
    let rest = count_accepted ws in if accepted then suc rest else rest

-- A handle by its members.
abbrev pub handle_of : Bool → Bool → Lut → ℕ → List ℕ → Handle
handle_of e c l p fs = record { exists = e; closing = c; lut = l; pending = p; called = fs }

abbrev pub write_slot : ℕ → Option Slot
write_slot f = some (record { callback_t = error_function; callback = f; user_data = none })

pub write_by :
    (f : ℕ) (accepted e c : Bool) (l : Lut) (p : ℕ) (fs : List ℕ)
    → e ≡ true
    → uv_cid_max ≤ length l
    → write f accepted (handle_of e c l p fs) ≡ (
      done accepted,
      handle_of e c (set l uv_cid_write (write_slot f)) (if accepted then p + 1 else p) fs,
    )
unfolding write on_lut store begin_write
write_by f accepted true c l p fs h m = rw (lt→ltb uv_cid_write (length l) (omega arith)) refl
write_by f accepted false c l p fs h m = cc

write-HoldsWrite :
    (f : ℕ) (accepted : Bool) (h : Handle)
    → h.exists ≡ true
    → uv_cid_max ≤ length h.lut
    → (h' : Handle) × (write f accepted h ≡ (done accepted, h'))
      × HoldsWrite f h'
      × (h'.called ≡ h.called)
      × (h'.pending ≡ (if accepted then h.pending + 1 else h.pending))
write-HoldsWrite f accepted h e m = (
  handle_of h.exists h.closing (set h.lut uv_cid_write (write_slot f))
      (if accepted then h.pending + 1 else h.pending) h.called,
  write_by f accepted h.exists h.closing h.lut h.pending h.called e m,
  (
    e,
    omega (arith, length-set h.lut uv_cid_write (write_slot f)),
    get_elem?-set_self h.lut uv_cid_write (write_slot f) (omega arith),
  ),
  refl,
  refl,
)

write_done_by :
    (f : ℕ) (e c : Bool) (l : Lut) (p : ℕ) (fs : List ℕ)
    → e ≡ true
    → get_elem? l uv_cid_write ≡ some (write_slot f)
    → write_done (handle_of e c l p fs) ≡ (done tt, handle_of e c l (p - 1) (fs ++ (f ∷ [])))
unfolding write_done call_slot on_lut invoke callback_of end_write slot_of
write_done_by f true c l p fs h k = rw k refl
write_done_by f false c l p fs h k = cc

write_all :
    (ws : List (ℕ × Bool)) (f : ℕ) (h : Handle)
    → HoldsWrite f h
    → (h' : Handle) × (writes ws h ≡ (done tt, h'))
      × HoldsWrite (last_callback f ws) h'
      × (h'.called ≡ h.called)
      × (h'.pending ≡ h.pending + count_accepted ws)
write_all [] f h k = (h, refl, k, refl, omega arith)
write_all ((g, accepted) ∷ ws) f h k =
    let (h1, run1, k1, c1, p1) = write-HoldsWrite g accepted h k.0 k.1 in
    let (h2, run2, k2, c2, p2) = write_all ws g h1 k1 in
    (h2, rw run1 run2, k2, c2 ∙ c1, ground (arith, p1, p2))

report_all :
    (n f : ℕ) (h : Handle)
    → HoldsWrite f h
    → (h' : Handle) × (reports n h ≡ (done tt, h'))
      × (h'.called ≡ h.called ++ replicate n f)
      × (h'.pending ≡ h.pending - n)
report_all zero f h k = (h, refl, sym (append-nil h.called), omega arith)
report_all (suc n) f h k =
    let h1 = handle_of h.exists h.closing h.lut (h.pending - 1) (h.called ++ (f ∷ [])) in
    let (h2, run2, c2, p2) = report_all n f h1 k in
    (
      h2,
      rw (write_done_by f h.exists h.closing h.lut h.pending h.called k.0 k.2) run2,
      c2 ∙ append_assoc h.called (f ∷ []) (replicate n f),
      omega (arith, p2),
    )

-- Writes on a handle that exists, the first with the callback `f`, each taken by libuv or refused,
-- and after all of them a report of libuv for each that it took: every report calls the callback of
-- the last write, refused or not, and no other callback is called.
pub writes-reports :
    (f : ℕ) (accepted : Bool) (ws : List (ℕ × Bool)) (h : Handle)
    → h.exists ≡ true
    → uv_cid_max ≤ length h.lut
    → h.pending ≡ 0
    → (h' : Handle) × ((do
      writes ((f, accepted) ∷ ws)
      reports (count_accepted ((f, accepted) ∷ ws)))
          h
        ≡ (done tt, h'))
      × (h'.called
          ≡ h.called ++ replicate (count_accepted ((f, accepted) ∷ ws)) (last_callback f ws))
      × (h'.pending ≡ 0)
writes-reports f accepted ws h e m idle =
    let (h1, run1, k1, c1, p1) = write-HoldsWrite f accepted h e m in
    let (h2, run2, k2, c2, p2) = write_all ws f h1 k1 in
    let (h3, run3, c3, p3) =
      report_all (count_accepted ((f, accepted) ∷ ws)) (last_callback f ws) h2 k2 in
    (
      h3,
      rw (run1, run2) run3,
      c3
          ∙ ap (λ l. l ++ replicate (count_accepted ((f, accepted) ∷ ws)) (last_callback f ws))
              (c2 ∙ c1),
      ground (arith, p1, p2, p3, idle),
    )
