-- ===== src/Base/Buffer/Interface.antt =====
-- base/buffer.h: the class `IBuffer`, by which readers and writers see a buffer, and what they may
-- expect of it. `Buffer` is one.
use libra_core.Common.{
  ℕ, ◌+◌, ◌^◌, ◌<◌, ◌≤◌, ◌≡◌, refl, if◌then◌else◌, Bool, List, Option, Exec, ◌>>=◌, ◌>>◌, pure,
  length, take, ℤ, ◌++◌, le→ltb, arith, proceed, ◌∙◌, throw, fault, done, true, some, none, drop,
  Outcome, ap, le→leb,
}
use libra_core.Base.Buffer
use libra_core.Base.Buffer.{Buffer, IsValid, content}
use libra_core.Base.Buffer.Content.{length-content}
use libra_core.Base.Buffer.Specification.{
  Op, resizes, appends, copies, removes, gets, sets, Reply, nothing, flag, count, bytes, spec, step,
}
use libra_core.Base.Buffer.Refinement.{step-Agrees}

-- The methods; `bytes_at` is the bytes from where `data()` points.
pub record IBuffer (B : Type 0) : Type 0 where
  pub size : B → ℕ
  pub set_size : ℕ → Exec B (Unit {0})
  pub capacity : B → ℕ
  pub free_size : B → ℕ
  pub at : ℤ → Exec B ℕ
  pub assign_at : ℤ → ℕ → Exec B (Unit {0})
  pub set : List ℕ → ℕ → Exec B Bool
  pub get : ℕ → ℕ → Exec B (Option (List ℕ))
  pub append : List ℕ → Exec B Bool
  pub remove : ℕ → ℕ → Exec B ℕ
  pub copy : List ℕ → Exec B Bool
  pub bytes_at : B → List ℕ

instance abbrev pub buffer_interface : IBuffer Buffer
buffer_interface = record {
  size = λ b. b.ptr;
  set_size = Buffer.set_size;
  capacity = λ b. b.capacity;
  free_size = Buffer.free_size;
  at = Buffer.at;
  assign_at = Buffer.assign_at;
  set = Buffer.set;
  get = Buffer.get;
  append = Buffer.append;
  remove = Buffer.remove;
  copy = Buffer.copy;
  bytes_at = λ b. b.memory;
}

module _ {B : Type 0} ⦃i : IBuffer B⦄ where
  -- The data.
  abbrev pub view : B → List ℕ
  view b = take (i.size b) (i.bytes_at b)

  -- A call by the interface.
  abbrev pub call_by : Op → Exec B Reply
  call_by (resizes n) = do i.set_size n; pure nothing
  call_by (appends buf) = do r ← i.append buf; pure (flag r)
  call_by (copies buf) = do r ← i.copy buf; pure (flag r)
  call_by (removes start len) = do r ← i.remove start len; pure (count r)
  call_by (gets len index) = do r ← i.get len index; pure (bytes r)
  call_by (sets buf index) = do r ← i.set buf index; pure (flag r)

  abbrev pub IsSafeCall : Op → B → Type 0
  IsSafeCall (resizes n) b = n ≤ i.size b
  IsSafeCall (removes start len) b = (start + len < 2 ^ 64) × (start + i.size b ≤ i.capacity b)
  IsSafeCall (gets len index) b = index + len < 2 ^ 64
  IsSafeCall (sets buf index) b = index + length buf < 2 ^ 64
  IsSafeCall _ b = Unit

-- A buffer that keeps a list of bytes, bounded by its capacity, by the operations of the
-- specification.
pub record Honours (B : Type 0) ⦃i : IBuffer B⦄ : Type 1 where
  pub Holds : B → Type 0
  pub length-view : (b : B) → Holds b → length (view b) ≡ i.size b
  pub size-le : (b : B) → Holds b → i.size b ≤ i.capacity b
  pub small : (b : B) → Holds b → i.capacity b < 2 ^ 63
  pub agrees :
      (b : B) (op : Op)
      → Holds b
      → IsSafeCall op b
      → ((call_by op b).0 ≡ (spec (i.capacity b) op (view b)).0)
        × (view (call_by op b).1 ≡ (spec (i.capacity b) op (view b)).1)
        × Holds (call_by op b).1
        × (i.capacity (call_by op b).1 ≡ i.capacity b)

pub agrees-Buffer :
    (b : Buffer) (op : Op)
    → IsValid b
    → IsSafeCall op b
    → ((call_by op b).0 ≡ (spec b.capacity op (content b)).0)
      × (content (call_by op b).1 ≡ (spec b.capacity op (content b)).1)
      × IsValid (call_by op b).1
      × ((call_by op b).1.capacity ≡ b.capacity)
unfolding step
agrees-Buffer b (resizes n) v safe = step-Agrees b (resizes n) v safe
agrees-Buffer b (appends buf) v safe = step-Agrees b (appends buf) v safe
agrees-Buffer b (copies buf) v safe = step-Agrees b (copies buf) v safe
agrees-Buffer b (removes start len) v safe = step-Agrees b (removes start len) v safe
agrees-Buffer b (gets len index) v safe = step-Agrees b (gets len index) v safe
agrees-Buffer b (sets buf index) v safe = step-Agrees b (sets buf index) v safe

instance abbrev pub buffer_honours : Honours Buffer
buffer_honours = record {
  Holds = IsValid;
  length-view = λ b v. length-content v;
  size-le = λ b v. v.within;
  small = λ b v. v.small;
  agrees = agrees-Buffer;
}

flag-inv :
    {B : Type 0} (r : Outcome Bool × B) (x : Bool)
    → (proceed (λ k. pure (flag k)) r).0 ≡ done (flag x)
    → r ≡ (done x, (proceed (λ k. pure (flag k)) r).1)
flag-inv (done y, b) x e = cc
flag-inv (throw z, b) x e = cc
flag-inv (fault, b) x e = cc

bytes-inv :
    {B : Type 0} (r : Outcome (Option (List ℕ)) × B) (x : Option (List ℕ))
    → (proceed (λ k. pure (bytes k)) r).0 ≡ done (bytes x)
    → r.0 ≡ done x
bytes-inv (done y, b) x e = cc
bytes-inv (throw z, b) x e = cc
bytes-inv (fault, b) x e = cc

-- What the client of a buffer needs of the operations that it uses.
module _ {B : Type 0} ⦃i : IBuffer B⦄ ⦃h : Honours B⦄ where
  open h use {Holds, length-view, size-le, small, agrees}

  pub append-honoured :
      (b : B) (buf : List ℕ)
      → Holds b
      → i.size b + length buf ≤ i.capacity b
      → (b' : B) × (i.append buf b ≡ (done true, b'))
        × (view b' ≡ view b ++ buf)
        × Holds b'
        × (i.capacity b' ≡ i.capacity b)
  unfolding spec
  append-honoured b buf v fits =
      let (answer, holds, v', same) = agrees b (appends buf) v tt in
      let room : spec (i.capacity b) (appends buf) (view b) ≡ (done (flag true), view b ++ buf) =
        rw
          (le→ltb (i.capacity b) (length (view b) + length buf)
            (omega (arith, length-view b v, fits)))
          refl in
      (
        (call_by (appends buf) b).1,
        flag-inv (i.append buf b) true (answer ∙ ap (λ r. r.0) room),
        holds ∙ ap (λ r. r.1) room,
        v',
        same,
      )

  pub get-honoured :
      (b : B) (len index : ℕ)
      → Holds b
      → index + len ≤ i.size b
      → (i.get len index b).0 ≡ done (some (take len (drop index (view b))))
  unfolding spec
  get-honoured b len index v within =
      let (answer, _, _, _) = agrees b (gets len index) v (omega (arith, size-le b v, small b v)) in
      bytes-inv (i.get len index b) (some (take len (drop index (view b)))) (
        answer
        ∙ ap (λ t. done (bytes (if t then some (take len (drop index (view b))) else none)))
            (le→leb (index + len) (length (view b)) (omega (arith, length-view b v))))
