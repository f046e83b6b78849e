-- ===== src/Base/CaseMap/Order.antt =====
-- base/utility.h: `ci_less` is the strict order of texts in small letters.
use libra_core.Common.{◌≡◌, refl, true, false, [], ◌∷◌, arith, Text}
use libra_core.Base.CaseMap.{tolower, nocase_compare, ci_less}

-- In small letters.
unfoldable pub fold : Text → Text
fold [] = []
fold (c ∷ s) = tolower c ∷ fold s

-- Equal letters first, or else the first difference decides.
pub ci_less_irrefl : (s t : Text) → fold s ≡ fold t → ci_less s t ≡ false
unfolding ci_less nocase_compare fold
ci_less_irrefl s [] h = refl
ci_less_irrefl [] (y ∷ t) h = ground arith
ci_less_irrefl (x ∷ s) (y ∷ t) h = ground (arith, ci_less_irrefl s t)

pub ci_less_total : (s t : Text) → ci_less s t ≡ false → ci_less t s ≡ false → fold s ≡ fold t
unfolding ci_less nocase_compare fold
ci_less_total [] [] h k = refl
ci_less_total [] (y ∷ t) h k = cc
ci_less_total (x ∷ s) [] h k = cc
ci_less_total (x ∷ s) (y ∷ t) h k = ground (arith, ci_less_total s t)

pub ci_less_trans : (s t u : Text) → ci_less s t ≡ true → ci_less t u ≡ true → ci_less s u ≡ true
unfolding ci_less nocase_compare
ci_less_trans s [] u h k = cc
ci_less_trans s (y ∷ t) [] h k = cc
ci_less_trans [] (y ∷ t) (z ∷ u) h k = refl
ci_less_trans (x ∷ s) (y ∷ t) (z ∷ u) h k = ground (arith, ci_less_trans s t u)

-- The order sees folded texts alone.
pub ci_less-fold :
    (s s' t t' : Text) → fold s ≡ fold s' → fold t ≡ fold t' → ci_less s t ≡ ci_less s' t'
unfolding ci_less nocase_compare fold
ci_less-fold s s' [] [] h k = refl
ci_less-fold s s' [] (y ∷ t') h k = ground arith
ci_less-fold s s' (x ∷ t) [] h k = ground arith
ci_less-fold [] [] (x ∷ t) (y ∷ t') h k = refl
ci_less-fold [] (c ∷ s') (x ∷ t) (y ∷ t') h k = ground arith
ci_less-fold (c ∷ s) [] (x ∷ t) (y ∷ t') h k = ground arith
ci_less-fold (c ∷ s) (d ∷ s') (x ∷ t) (y ∷ t') h k = ground (arith, ci_less-fold s s' t t')
