-- ===== src/Base/Buffer/Refinement.antt =====
-- base/buffer.h: the class as a bounded list of bytes, which is what its clients rely on.
use libra_core.Common.{
  ℕ, ◌+◌, ◌-◌, ◌^◌, ◌<◌, ◌≤◌, ◌≡◌, refl, ap, ap₂, sym, ◌∙◌, inl, inr, List, ◌++◌, some, arith,
  Outcome, pure, done, throw, fault, proceed, ltb, leb, length, take, drop, overwrite, Bool-cases,
  ltb→lt, ltb-false→le, leb→le, leb-false→lt, take-overwrite, overwrite-eq-append, take-append_self,
  append-nil, take-take, take_all, drop_all, tests,
}
use libra_core.Base.Buffer.{Buffer, IsValid, content, set_size, remove}
use libra_core.Base.Buffer.Content.{
  length-content, append-room, append-full, take-overwrite_end, copy-room, copy-full, get-within,
  get-beyond, set-within, set-beyond, remove-none, remove-tail, remove-middle, take-overwrite_down,
  written-IsValid,
}
use libra_core.Base.Buffer.Specification.{
  Op, resizes, appends, copies, removes, gets, sets, count, bytes, step, spec, IsSafe, Agrees,
}
use libra_core.Base.Buffer.Parts.{slice-content}

module _ {b : Buffer} (v : IsValid b) where
  resizes-Agrees :
      (n : ℕ)
      → n ≤ b.ptr
      → Agrees b.capacity (step (resizes n) b) (spec b.capacity (resizes n) (content b))
  unfolding step spec set_size
  resizes-Agrees n h = ground (arith, take-take n b.ptr b.memory)

  appends-Agrees :
      (buf : List ℕ)
      → Agrees b.capacity (step (appends buf) b) (spec b.capacity (appends buf) (content b))
  unfolding spec step
  appends-Agrees buf = elim (Bool-cases (ltb b.capacity (length (content b) + length buf))) [
    | inl full ↦
        rw (full, append-full v buf (omega (tests, length-content v)), length-content v)
          (refl, refl, v, refl)
    | inr room ↦
        let h : b.ptr + length buf ≤ b.capacity = omega (tests, length-content v) in
        rw (room, append-room v buf h)
          (refl, take-overwrite_end v buf h, written-IsValid v b.ptr _ buf h, refl)
  ]

  copies-Agrees :
      (buf : List ℕ)
      → Agrees b.capacity (step (copies buf) b) (spec b.capacity (copies buf) (content b))
  unfolding spec step
  copies-Agrees buf = elim (Bool-cases (ltb b.capacity (length buf))) [
    | inl full ↦ rw (full, copy-full v buf (ltb→lt _ _ full)) (refl, refl, v, refl)
    | inr room ↦
        let h : length buf ≤ b.capacity = ltb-false→le _ _ room in
        rw (room, copy-room v buf h)
          (
            refl,
            rw (overwrite-eq-append 0 buf b.memory (omega (arith, v.whole)))
                (take-append_self buf (drop (0 + length buf) b.memory)),
            written-IsValid v 0 _ buf h,
            refl,
          )
  ]

  gets-Agrees :
      (len index : ℕ)
      → index + len < 2 ^ 64
      → Agrees b.capacity (step (gets len index) b) (spec b.capacity (gets len index) (content b))
  unfolding spec step
  gets-Agrees len index h = elim (Bool-cases (leb (index + len) (length (content b)))) [
    | inl inside ↦
        let w : index + len ≤ b.ptr = omega (tests, length-content v) in
        rw (inside, get-within v len index w)
          (ap (λ l. done (bytes (some l))) (slice-content v len index w), refl, v, refl)
    | inr beyond ↦
        rw (beyond, get-beyond v len index (omega (tests, length-content v)) h)
          (refl, refl, v, refl)
  ]

  sets-Agrees :
      (buf : List ℕ) (index : ℕ)
      → index + length buf < 2 ^ 64
      → Agrees b.capacity (step (sets buf index) b) (spec b.capacity (sets buf index) (content b))
  unfolding spec step
  sets-Agrees buf index h = elim (Bool-cases (leb (index + length buf) (length (content b)))) [
    | inl inside ↦
        rw (inside, set-within v buf index (omega (tests, length-content v)))
          (
            refl,
            take-overwrite b.ptr index buf b.memory,
            written-IsValid v index b.ptr buf v.within,
            refl,
          )
    | inr beyond ↦
        rw (beyond, set-beyond v buf index (omega (tests, length-content v)) h)
          (refl, refl, v, refl)
  ]

  -- What is moved to `start` follows what is before it.
  take-overwrite_middle :
      (start len : ℕ)
      → start + len < b.ptr
      → start + b.ptr ≤ b.capacity
      → take
          (b.ptr - len)
          (overwrite start (take (b.ptr - len) (drop (start + len) b.memory)) b.memory)
        ≡ take start (content b) ++ drop (start + len) (content b)
  take-overwrite_middle start len h room =
      ap (λ n. take n (overwrite start (take n (drop (start + len) b.memory)) b.memory)) kept
      ∙ take-overwrite_down start len rest b.memory (omega (arith, kept, v.whole, v.within))
      ∙ ap (λ n. take start (take n b.memory) ++ drop (start + len) (take n b.memory)) (sym whole)
    where
      rest : ℕ
      rest = b.ptr - len - start

      kept : b.ptr - len ≡ start + rest
      kept = omega arith

      whole : b.ptr ≡ start + len + rest
      whole = omega arith

  removes-Agrees :
      (start len : ℕ)
      → start + len < 2 ^ 64
      → start + b.ptr ≤ b.capacity
      → Agrees b.capacity
          (step (removes start len) b)
          (spec b.capacity (removes start len) (content b))
  unfolding spec step
  removes-Agrees start len small room = elim (Bool-cases (leb b.ptr start)) [
    | inl none_there ↦
        let h : b.ptr ≤ start = leb→le _ _ none_there in
        rw (remove-none v start len h) (
          ap (λ n. done (count n)) (omega (arith, length-content v)),
          sym (
              ap₂ ◌++◌ (take_all start (content b) (omega (arith, length-content v)))
                (drop_all (start + len) (content b) (omega (arith, length-content v)))
              ∙ append-nil (content b)),
          v,
          refl,
        )
    | inr some_there ↦ elim (Bool-cases (leb b.ptr (start + len))) [
      | inl to_end ↦
          let h : b.ptr ≤ start + len = leb→le _ _ to_end in
          rw (remove-tail v start len (leb-false→lt _ _ some_there) h small) (
            ap (λ n. done (count n)) (omega (tests, length-content v)),
            sym (
                ap₂ ◌++◌ (take-take start b.ptr b.memory (omega tests))
                  (drop_all (start + len) (content b) (omega (arith, length-content v)))
                ∙ append-nil (take start b.memory)),
            record { whole = v.whole; within = omega (tests, v.within); small = v.small },
            refl,
          )
      | inr inner ↦
          let h : start + len < b.ptr = leb-false→lt _ _ inner in
          rw (remove-middle v start len h room) (
            ap (λ n. done (count n)) (omega (arith, length-content v)),
            take-overwrite_middle start len h room,
            written-IsValid v start (b.ptr - len) _ (omega (arith, v.within)),
            refl,
          )
    ]
  ]

-- Each call on a valid buffer, whose sums do not wrap, whose moves stay in the array and whose
-- `set_size` does not lengthen the data, answers and acts as on the bare data, throws included, and
-- keeps the buffer valid and its capacity.
pub step-Agrees :
    (b : Buffer) (op : Op)
    → IsValid b
    → IsSafe op b
    → Agrees b.capacity (step op b) (spec b.capacity op (content b))
step-Agrees b (resizes n) v s = resizes-Agrees v n s
step-Agrees b (appends buf) v s = appends-Agrees v buf
step-Agrees b (copies buf) v s = copies-Agrees v buf
step-Agrees b (removes start len) v s = removes-Agrees v start len s.0 s.1
step-Agrees b (gets len index) v s = gets-Agrees v len index s
step-Agrees b (sets buf index) v s = sets-Agrees v buf index s

count-inv :
    (r : Outcome ℕ × Buffer) (n : ℕ)
    → (proceed (λ k. pure (count k)) r).0 ≡ done (count n)
    → r ≡ (done n, (proceed (λ k. pure (count k)) r).1)
count-inv (done m, b) n e = cc
count-inv (throw x, b) n e = cc
count-inv (fault, b) n e = cc

-- Taking bytes off the front.
pub remove-front :
    (b : Buffer) (total : ℕ)
    → IsValid b
    → total ≤ b.ptr
    → (b' : Buffer) × (remove 0 total b ≡ (done total, b'))
      × (content b' ≡ drop total (content b))
      × IsValid b'
      × (b'.capacity ≡ b.capacity)
unfolding step spec
remove-front b total v h = (
  (step (removes 0 total) b).1,
  count-inv (remove 0 total b) total
      (agreed.0 ∙ ap (λ n. done (count n)) (omega (arith, length-content v))),
  agreed.1 ∙ ap (λ n. drop n (content b)) (omega arith),
  agreed.2,
  agreed.3,
)
  where
    agreed :
        Agrees b.capacity (step (removes 0 total) b) (spec b.capacity (removes 0 total) (content b))
    agreed = removes-Agrees v 0 total (omega (arith, v.within, v.small)) (omega (arith, v.within))
