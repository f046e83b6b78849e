-- ===== src/Base/CaseMap.antt =====
-- base/utility.h: the order `ci_less` of texts, and `std::map` by it, as the headers of http.h are:
-- the entries in the order of the keys.
pub mod Order
pub mod Lookup
pub mod Keys
use libra_core.Common.{
  ℕ, ◌+◌, Bool, true, false, ◌&&◌, if◌then◌else◌, ltb, leb, List, [], ◌∷◌, Option, none, some, Text,
}

-- `tolower` of the C locale.
unfoldable pub tolower : ℕ → ℕ
tolower c = if leb 65 c && leb c 90 then c + 32 else c

unfoldable pub nocase_compare : ℕ → ℕ → Bool
nocase_compare c1 c2 = ltb (tolower c1) (tolower c2)

-- `std::lexicographical_compare` with it.
unfoldable pub ci_less : Text → Text → Bool
ci_less s1 [] = false
ci_less [] (y ∷ s2) = true
ci_less (x ∷ s1) (y ∷ s2) =
    let rest = ci_less s1 s2 in
    if nocase_compare x y then true else if nocase_compare y x then false else rest

abbrev pub CaseMap : Type 0
CaseMap = List (Text × Text)

-- `find`.
unfoldable pub find : Text → CaseMap → Option Text
find key [] = none
find key ((k, v) ∷ m) =
    let rest = find key m in if ci_less key k then none else if ci_less k key then rest else some v

-- `m[key] = value`: a key that is there keeps its spelling.
unfoldable pub insert : Text → Text → CaseMap → CaseMap
insert key value [] = (key, value) ∷ []
insert key value ((k, v) ∷ m) =
    let rest = insert key value m in
    if ci_less key k
    then (key, value) ∷ (k, v) ∷ m
    else if ci_less k key
    then (k, v) ∷ rest
    else (k, value) ∷ m
