-- ===== src/Base/Log/Records.antt =====
-- base/log.h: what reaches the core or the output, and where the record's array ends.
use libra_core.Common.{
  ℕ, suc, ◌+◌, ◌-◌, ◌^◌, ◌≤◌, ◌<◌, ◌≡◌, refl, ap, sym, ◌∙◌, true, false, List, [], ◌∷◌, ◌++◌, done,
  fault, length, take, drop, replicate, arith, Text, append_assoc, Bool-cases, inl, inr,
  length-append, length-replicate, ltb, proceed, ◌>>◌, Exec, take_all, take-append_self,
  take-append_of_le, length-take, length-drop, take-append_add, tests,
}
use libra_core.Common.{ℤ}
use libra_core.Base.Buffer.{sub_size}
use libra_core.Base.Format.{print_at, c_string, until_zero}
use libra_core.Base.Format.Printed.{
  before_zero, until_zero-before_zero, print_at-room, print_at-beyond,
}
use libra_core.Base.Log.{
  Logger, int_less, prefix_of, record_text, put_record, write_record, Macro, debug_log, info_log,
  warn_log, error_log, level_of, l_debug_s,
}

-- What the first print leaves in the array.
abbrev rest_behind : Text → List ℕ
rest_behind cut = drop (0 + length (cut ++ (0 ∷ []))) (replicate 4800 0)

abbrev after_first : Text → List ℕ
after_first cut = cut ++ (0 ∷ rest_behind cut)

-- The second print and the reading back, on what the first has left.
second : Text → Text → Exec (List ℕ) Text
second before printed = print_at (length before) (sub_size 4800 (length before)) printed >> c_string

record_text-first :
    (before printed : Text)
    → record_text before printed ≡ (second before printed (after_first (take 4799 before))).0
unfolding record_text second
record_text-first before printed =
    ap (λ r. (proceed (λ _. second before printed) r).0)
      (print_at-room 0 4799 before (replicate 4800 0)
        (omega (arith, length-replicate {A = ℕ} 4800 0)))

left_over-length : (before : Text) → length (after_first (take 4799 before)) ≡ 4800
left_over-length before = omega (
  arith,
  length-append (take 4799 before) (0 ∷ rest_behind (take 4799 before)),
  length-append (take 4799 before) (0 ∷ []),
  length-take 4799 before,
  length-drop (0 + length (take 4799 before ++ (0 ∷ []))) (replicate {A = ℕ} 4800 0),
  length-replicate {A = ℕ} 4800 0,
)

second-room :
    (before printed rest : Text)
    → length before ≤ 4799
    → length (before ++ (0 ∷ rest)) ≡ 4800
    → (second before printed (before ++ (0 ∷ rest))).0
      ≡ done (before_zero (take 4799 (before ++ printed)))
unfolding second c_string
second-room before printed rest h whole =
    ap
      (λ k. (proceed (λ _. c_string) (print_at (length before) k printed (before ++ (0 ∷ rest)))).0)
      size
    ∙ ap (λ r. (proceed (λ _. c_string) r).0)
        (print_at-room (length before) (4799 - length before) printed (before ++ (0 ∷ rest))
          (omega (arith, whole)))
    ∙ ap (λ l. until_zero (l ++ (cut ++ (0 ∷ tail)))) (take-append_self before (0 ∷ rest))
    ∙ ap until_zero (sym (append_assoc before cut (0 ∷ tail)))
    ∙ until_zero-before_zero (before ++ cut) tail
    ∙ ap (λ l. done (before_zero l)) (sym taken)
  where
    cut : Text
    cut = take (4799 - length before) printed

    tail : Text
    tail = drop (length before + length (cut ++ (0 ∷ []))) (before ++ (0 ∷ rest))

    at_end : 4799 ≡ length before + (4799 - length before)
    at_end = omega arith

    taken : take 4799 (before ++ printed) ≡ before ++ cut
    taken =
        ap (λ k. take k (before ++ printed)) at_end
        ∙ take-append_add (4799 - length before) before printed

    size : sub_size 4800 (length before) ≡ suc (4799 - length before)
    size = omega arith

record_text-room :
    (before printed : Text)
    → length before ≤ 4800
    → record_text before printed ≡ done (before_zero (take 4799 (before ++ printed)))
unfolding second c_string print_at
record_text-room before printed h = elim (Bool-cases (ltb (length before) 4800)) [
  | inl below ↦
      let short : length before ≤ 4799 = omega tests in
      let all_of : take 4799 before ≡ before = take_all 4799 before short in
      record_text-first before printed
      ∙ ap (λ l. (second before printed l).0) (ap after_first all_of)
      ∙ second-room before printed _ short
          (ap (λ b. length (after_first b)) (sym all_of) ∙ left_over-length before)
  | inr full ↦
      let exact : length before ≡ 4800 = omega tests in
      record_text-first before printed
      ∙ ap
          (λ k.
            (proceed (λ _. c_string)
              (print_at (length before) (sub_size 4800 k) printed
                (after_first (take 4799 before)))).0)
          exact
      ∙ until_zero-before_zero (take 4799 before) (rest_behind (take 4799 before))
      ∙ ap (λ l. done (before_zero l))
          (sym (take-append_of_le 4799 before printed (omega (arith, exact))))
]

record_text-beyond :
    (before printed : Text)
    → 4800 < length before
    → length before < 2 ^ 31
    → record_text before printed ≡ fault
unfolding second c_string
record_text-beyond before printed h small =
    record_text-first before printed
    ∙ ap
        (λ k.
          (proceed (λ _. c_string)
            (print_at (length before) k printed (after_first (take 4799 before)))).0)
        size
    ∙ ap (λ r. (proceed (λ _. c_string) r).0)
        (print_at-beyond (length before) (2 ^ 64 + 4799 - length before) printed
          (after_first (take 4799 before)) (omega (arith, left_over-length before)))
  where
    size : sub_size 4800 (length before) ≡ suc (2 ^ 64 + 4799 - length before)
    size = omega arith

-- A record below the level of the logger is dropped. Any other goes to the core, or where none was
-- set to the output, as the function's name, the line and the message, cut after 4799 bytes and at a
-- zero: as long as the name with its line takes no more than 4800 bytes. With a longer one (and
-- shorter than an int can say) the size of the second print wraps, and it writes outside of the
-- array. All four macros write at the level of debugging: where the logger's level is higher, not
-- even errors are logged.
pub write_record-bounds :
    (level line : ℤ) (function printed : Text) (l : Logger)
    → (int_less level l.level ≡ true → write_record level function line printed l ≡ (done tt, l))
      × (int_less level l.level ≡ false
          → length (prefix_of function line) ≤ 4800
          → write_record level function line printed l
            ≡ put_record level (before_zero (take 4799 (prefix_of function line ++ printed))) l)
      × (int_less level l.level ≡ false
          → 4800 < length (prefix_of function line)
          → length (prefix_of function line) < 2 ^ 31
          → write_record level function line printed l ≡ (fault, l))
      × ((m : Macro)
          → int_less l_debug_s l.level ≡ true
          → write_record (level_of m) function line printed l ≡ (done tt, l))
unfolding write_record level_of
write_record-bounds level line function printed l = (
  λ low. rw low refl,
  λ high fits. rw (high, record_text-room (prefix_of function line) printed fits) refl,
  λ high long small.
      rw (high, record_text-beyond (prefix_of function line) printed long small) refl,
  silent,
)
  where
    silent :
        (m : Macro)
        → int_less l_debug_s l.level ≡ true
        → write_record (level_of m) function line printed l ≡ (done tt, l)
    silent debug_log low = rw low refl
    silent info_log low = rw low refl
    silent warn_log low = rw low refl
    silent error_log low = rw low refl
