-- ===== src/Base/Tests.antt =====
-- base/: runs of the model on small inputs, and the theorems at such inputs.
use libra_core.Base.Buffer.Interface.{buffer_interface, buffer_honours}
use libra_core.Base.Tuples.{event_idx, callback_type}
use libra_core.Base.Tuples.Paired.{listed, callback_type-pair}
use libra_core.Base.Format.{print_at, c_string, until_zero, after_byte, print_int, decimal, digits}
use libra_core.Base.Format.Printed.{before_zero}
use libra_core.Base.Log.{
  Logger, int_less, prefix_of, record_text, put_record, write_record, Macro, error_log, level_of,
  l_debug_s, l_error_s,
}
use libra_core.Base.Log.Records.{write_record-bounds}
use libra_core.Base.Events.{Emitter, add_listener, remove_listener, emit}
use libra_core.Base.Events.Emitting.{emit-listeners}
use libra_core.Base.Singleton.{returned, run, at_first}
use libra_core.Base.Singleton.Once.{run-one}
use libra_core.Base.Singleton.Alone.{run-alone}
use libra_core.Common.{
  inl, inr, Bool-cases, Option, some, none, false, ◌≡◌, refl, true, List, [], ◌∷◌, map, arith, done,
  throw, fault, pos, reader_stop, codes, ◌^◌, ◌<◌, ℕ, ◌≤◌, replicate, some, Exec, if◌then◌else◌,
  try_catch, ◌≢◌, ◌==◌, pure, ◌++◌, Bool-cases, All, length, take, ◌⊎◌,
}
use libra_core.Base.Buffer.{Buffer, IsValid, content, remove, static_buffer}
use libra_core.Base.Buffer.Faults.{Overruns, IsWhole, step-Faults}
use libra_core.Base.Buffer.Parts.{static_buffer-IsValid}
use libra_core.Base.CaseMap.{CaseMap, insert}
use libra_core.Base.CaseMap.Keys.{Implements, insert-Implements, update, view}
use libra_core.Base.Buffer.Refinement.{step-Agrees}
use libra_core.Base.Buffer.Specification.{removes, step, spec, Agrees}
use libra_core.Base.Bytes.{little, big, int16}
use libra_core.Base.Codec.{Field, number, text, kind_of, write_fields, read_fields}
use libra_core.Base.Codec.Roundtrip.{read_fields-write_fields}

-- Five bytes of data in an array of eight.
abbrev sample : Buffer
sample = record { memory = 1 ∷ 2 ∷ 3 ∷ 4 ∷ 5 ∷ 0 ∷ 0 ∷ 0 ∷ []; capacity = 8; ptr = 5 }

sample-IsValid : IsValid sample
sample-IsValid = omega arith

remove_run :
    remove 1 2 sample
    ≡ (done 2, record { memory = 1 ∷ 4 ∷ 5 ∷ 0 ∷ 5 ∷ 0 ∷ 0 ∷ 0 ∷ []; capacity = 8; ptr = 3 })
unfolding remove
remove_run = refl

step-Agrees_example : Agrees 8 (step (removes 1 2) sample) (spec 8 (removes 1 2) (content sample))
step-Agrees_example = step-Agrees sample (removes 1 2) sample-IsValid (omega arith)

-- A header set again in other letters.
abbrev one_header : CaseMap
one_header = (codes "Host", codes "a") ∷ []

insert-Implements_example :
    Implements
      (insert (codes "HOST") (codes "b") one_header)
      (update (codes "HOST") (codes "b") (view one_header))
insert-Implements_example =
    insert-Implements (codes "HOST") (codes "b") one_header (view one_header) (tt, refl)

step-Faults_example :
    (Overruns (removes 4 0) sample × (step (removes 4 0) sample ≡ (fault, sample)))
    ⊎ ((¬ Overruns (removes 4 0) sample) × IsWhole sample.capacity (step (removes 4 0) sample))
step-Faults_example = step-Faults sample (removes 4 0) sample-IsValid (omega arith, omega arith)

-- An empty packet buffer, and what a client sends in it.
abbrev fields : List Field
fields = number int16 500 ∷ text (codes "hi") ∷ []

read_fields-write_fields_example :
    (b' : Buffer) × (write_fields little fields (static_buffer 64) ≡ (done true, b'))
    × (read_fields big b' (map kind_of fields) (static_buffer 64).ptr ≡ (done fields, b'.ptr))
read_fields-write_fields_example =
    read_fields-write_fields little big fields (static_buffer 64)
      (static_buffer-IsValid 64 (omega arith)) (unfold static_buffer in omega arith) (omega arith)
      (unfold static_buffer in omega arith)

-- Two threads in `instance` at the same time.
abbrev two_threads : List ℕ
two_threads = 0 ∷ 1 ∷ 0 ∷ 1 ∷ 0 ∷ 0 ∷ 1 ∷ 0 ∷ 1 ∷ 1 ∷ 1 ∷ 0 ∷ 1 ∷ 1 ∷ []

run-one_example :
    ((run two_threads at_first).created ≤ 1)
    × ((run two_threads at_first).threads 1 ≡ returned (some 0)
        → ◌≡◌ {A = Option ℕ} (some 0) (some 0))
run-one_example = run-one two_threads 1 (some 0)

run-alone_example : (run (replicate 6 7) (run [] at_first)).threads 7 ≡ returned (some 0)
run-alone_example = run-alone [] 7 (unfold run at_first in refl) (unfold run at_first in refl)

-- A callback that is to write its number, or throws where this is 0.
abbrev note : ℕ → Exec (List ℕ) (Unit {0})
note c s = if c == 0 then (throw reader_stop, s) else (done tt, s ++ (c ∷ []))

abbrev noted : ℕ → List ℕ → List ℕ
noted c s = if c == 0 then s else s ++ (c ∷ [])

note-noted : (c : ℕ) (s : List ℕ) → try_catch (note c) (pure tt) s ≡ (done tt, noted c s)
note-noted c s = elim (Bool-cases (c == 0)) [ inl bad ↦ rw bad refl | inr good ↦ rw good refl ]

-- Three listeners of the event 2, of which the second throws.
abbrev three : Emitter ℕ
three = record { set_ = λ e. if e == 2 then (100, 7) ∷ (101, 0) ∷ (102, 9) ∷ [] else [] }

emit-listeners_example :
    (emit note 2 three [] ≡ (done tt, 7 ∷ 9 ∷ []))
    × ((m' : Emitter ℕ) × (remove_listener 2 101 three ≡ (done true, m'))
        × (emit note 2 m' [] ≡ (done tt, 7 ∷ 9 ∷ []))
        × ((f : ℕ) → f ≢ 2 → emit note f m' [] ≡ emit note f three []))
    × ((q d : ℕ)
        → (m' : Emitter ℕ) × (add_listener 2 q d three ≡ (done q, m'))
          × (emit note 2 m' [] ≡ (done tt, noted d (7 ∷ 9 ∷ [])))
          × ((f : ℕ) → f ≢ 2 → emit note f m' [] ≡ emit note f three []))
emit-listeners_example =
    emit-listeners note noted note-noted 2 101 0 ((100, 7) ∷ []) ((102, 9) ∷ []) three [] refl
      (omega arith)

-- Two maps of events to callbacks, by the numbers of their types.
abbrev first_map : List (ℕ × ℕ)
first_map = (1, 10) ∷ (2, 20) ∷ []

abbrev second_map : List (ℕ × ℕ)
second_map = (3, 30) ∷ []

callback_type-pair_example :
    (event_idx ◌==◌ (listed first_map ∷ listed second_map ∷ []) 2 ≡ some 1)
    × (callback_type ◌==◌ (listed first_map ∷ listed second_map ∷ []) 2 ≡ some 20)
    × ((f : ℕ)
        → All (λ p. f == p.0 ≡ false) (first_map ++ second_map)
        → event_idx ◌==◌ (listed first_map ∷ listed second_map ∷ []) f ≡ none)
    × ((zs : List ℕ) → event_idx ◌==◌ (listed first_map ∷ listed second_map ∷ zs ∷ []) 2 ≡ none)
callback_type-pair_example =
    callback_type-pair ◌==◌ first_map second_map ((1, 10) ∷ []) second_map 2 20 refl (refl, tt) refl

-- A logger that drops what is below the level of errors, and has a core.
abbrev strict : Logger
strict = record { core = true; level = l_error_s; logged = []; printed = [] }

write_record-bounds_example :
    (int_less (pos 5) l_error_s ≡ true
      → write_record (pos 5) (codes "f") (pos 7) (codes "!") strict ≡ (done tt, strict))
    × (int_less (pos 5) l_error_s ≡ false
        → length (prefix_of (codes "f") (pos 7)) ≤ 4800
        → write_record (pos 5) (codes "f") (pos 7) (codes "!") strict
          ≡ put_record
              (pos 5)
              (before_zero (take 4799 (prefix_of (codes "f") (pos 7) ++ codes "!")))
              strict)
    × (int_less (pos 5) l_error_s ≡ false
        → 4800 < length (prefix_of (codes "f") (pos 7))
        → length (prefix_of (codes "f") (pos 7)) < 2 ^ 31
        → write_record (pos 5) (codes "f") (pos 7) (codes "!") strict ≡ (fault, strict))
    × ((m : Macro)
        → int_less l_debug_s l_error_s ≡ true
        → write_record (level_of m) (codes "f") (pos 7) (codes "!") strict ≡ (done tt, strict))
write_record-bounds_example = write_record-bounds (pos 5) (pos 7) (codes "f") (codes "!") strict

-- The record of a short message, and an error's macro that is silent.
logged_run :
    (write_record (pos 5) (codes "f") (pos 7) (codes "!") strict
      ≡ (done tt, record strict { logged = (pos 5, codes "[f:7]!") ∷ [] }))
    × (write_record (level_of error_log) (codes "f") (pos 7) (codes "!") strict ≡ (done tt, strict))
unfolding write_record record_text put_record print_at c_string until_zero after_byte prefix_of
    print_int decimal digits int_less level_of
logged_run = (refl, refl)
