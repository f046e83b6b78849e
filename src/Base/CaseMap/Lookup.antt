-- ===== src/Base/CaseMap/Lookup.antt =====
-- `std::map` by `ci_less`: what is found after an insertion, and the order of the entries.
use libra_core.Common.{◌≡◌, ◌≢◌, refl, sym, ◌∙◌, inl, inr, true, some, [], ◌∷◌, Bool-cases, Text}
use libra_core.Base.CaseMap.{CaseMap, ci_less, find, insert}
use libra_core.Base.CaseMap.Order.{fold, ci_less_irrefl, ci_less_total, ci_less_trans, ci_less-fold}

-- The entries in strict order, the first key above `low`.
abbrev pub Above : Text → CaseMap → Type 0
Above low [] = Unit
Above low ((k, v) ∷ m) = (ci_less low k ≡ true) × Above k m

abbrev pub IsOrdered : CaseMap → Type 0
IsOrdered [] = Unit
IsOrdered ((k, v) ∷ m) = Above k m

insert-Above :
    (low key value : Text) (m : CaseMap)
    → ci_less low key ≡ true
    → Above low m
    → Above low (insert key value m)
unfolding insert
insert-Above low key value [] h a = (h, tt)
insert-Above low key value ((k, v) ∷ m) h a = elim (Bool-cases (ci_less key k)) [
  | inl below ↦ rw below (h, (below, a.1))
  | inr past ↦ elim (Bool-cases (ci_less k key)) [
    | inl above ↦ rw (past, above) (a.0, insert-Above k key value m above a.1)
    | inr same ↦ rw (past, same) a
  ]
]

pub insert-IsOrdered :
    (key value : Text) (m : CaseMap) → IsOrdered m → IsOrdered (insert key value m)
unfolding insert
insert-IsOrdered key value [] a = tt
insert-IsOrdered key value ((k, v) ∷ m) a = elim (Bool-cases (ci_less key k)) [
  | inl below ↦ rw below (below, a)
  | inr past ↦ elim (Bool-cases (ci_less k key)) [
    | inl above ↦ rw (past, above) (insert-Above k key value m above a)
    | inr same ↦ rw (past, same) a
  ]
]

-- A key is found in either case, with what was inserted last.
pub find-insert_same :
    (j key value : Text) (m : CaseMap)
    → fold j ≡ fold key
    → find j (insert key value m) ≡ some value
unfolding find insert
find-insert_same j key value [] h = rw (ci_less_irrefl j key h, ci_less_irrefl key j (sym h)) refl
find-insert_same j key value ((k, v) ∷ m) h = elim (Bool-cases (ci_less key k)) [
  | inl below ↦ rw (below, ci_less_irrefl j key h, ci_less_irrefl key j (sym h)) refl
  | inr past ↦ elim (Bool-cases (ci_less k key)) [
    | inl above ↦
        rw (past, above, ci_less-fold j key k k h refl, ci_less-fold k k j key refl h, past, above)
          (find-insert_same j key value m h)
    | inr same ↦
        rw (past, same, ci_less-fold j key k k h refl, ci_less-fold k k j key refl h, past, same)
          refl
  ]
]

-- And no other key changes.
pub find-insert_other :
    (j key value : Text) (m : CaseMap) → fold j ≢ fold key → find j (insert key value m) ≡ find j m
unfolding find insert
find-insert_other j key value [] h = elim (Bool-cases (ci_less j key)) [
  | inl below ↦ rw below refl
  | inr past ↦ elim (Bool-cases (ci_less key j)) [
    | inl above ↦ rw (past, above) refl
    | inr same ↦ absurd (h (ci_less_total j key past same))
  ]
]
find-insert_other j key value ((k, v) ∷ m) h = elim (Bool-cases (ci_less key k)) [
  | inl below ↦ rw below (before below)
  | inr past ↦ elim (Bool-cases (ci_less k key)) [
    | inl above ↦ rw (past, above, find-insert_other j key value m h) refl
    | inr same ↦ rw (past, same) (at_key (ci_less_total key k past same))
  ]
]
  where
    before : ci_less key k ≡ true → find j ((key, value) ∷ (k, v) ∷ m) ≡ find j ((k, v) ∷ m)
    before below = elim (Bool-cases (ci_less j key)) [
      | inl less ↦ rw (less, ci_less_trans j key k less below) refl
      | inr past ↦ elim (Bool-cases (ci_less key j)) [
        | inl above ↦ rw (past, above) refl
        | inr same ↦ absurd (h (ci_less_total j key past same))
      ]
    ]

    at_key : fold key ≡ fold k → find j ((k, value) ∷ m) ≡ find j ((k, v) ∷ m)
    at_key e = elim (Bool-cases (ci_less j k)) [
      | inl less ↦ rw less refl
      | inr past ↦ elim (Bool-cases (ci_less k j)) [
        | inl above ↦ rw (past, above) refl
        | inr same ↦ absurd (h (ci_less_total j k past same ∙ sym e))
      ]
    ]
