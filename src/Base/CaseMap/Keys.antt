-- ===== src/Base/CaseMap/Keys.antt =====
-- `std::map` by `ci_less`, as its client sees it: a function of the keys, where texts that the
-- order does not tell apart are one key.
use mathlib.Core.Bool.{true≢false}
use mathlib.Core.Quot
use mathlib.Core.Quot.{Quot}
use libra_core.Common.{
  ◌≡◌, refl, sym, Bool, true, false, not, ◌&&◌, if◌then◌else◌, Option, some, [], ◌∷◌, Bool-cases,
  Text, ◌≢◌, inl, inr, arith, ◌∙◌, ap,
}
use libra_core.Base.CaseMap.{CaseMap, ci_less, find, insert}
use libra_core.Base.CaseMap.Order.{fold, ci_less_irrefl, ci_less_total, ci_less-fold}
use libra_core.Base.CaseMap.Lookup.{
  find-insert_same, find-insert_other, IsOrdered, insert-IsOrdered,
}

-- Neither is less.
abbrev pub Alike : Text → Text → Type 0
Alike s t = (ci_less s t ≡ false) × (ci_less t s ≡ false)

abbrev pub Key : Type 0
Key = Quot Alike

fold-Alike : (s t : Text) → Alike s t → fold s ≡ fold t
fold-Alike s t h = ci_less_total s t h.0 h.1

abbrev alike : Text → Text → Bool
alike s t = not (ci_less s t) && not (ci_less t s)

alike-congruent : (s s' t t' : Text) → Alike s s' → Alike t t' → alike s t ≡ alike s' t'
alike-congruent s s' t t' h k =
    rw
      (
        ci_less-fold s s' t t' (fold-Alike s s' h) (fold-Alike t t' k),
        ci_less-fold t t' s s' (fold-Alike t t' k) (fold-Alike s s' h),
      )
      refl

Alike-refl : (s : Text) → Alike s s
Alike-refl s = (ci_less_irrefl s s refl, ci_less_irrefl s s refl)

find-Alike : (m : CaseMap) (s t : Text) → Alike s t → find s m ≡ find t m
unfolding find
find-Alike [] s t h = refl
find-Alike ((k, v) ∷ m) s t h =
    rw
      (
        ci_less-fold s t k k (fold-Alike s t h) refl,
        ci_less-fold k k s t refl (fold-Alike s t h),
        find-Alike m s t h,
      )
      refl

-- What a map holds at a key.
pub view : CaseMap → Key → Option Text
view m = Quot.lift (hlevel) (λ s. find s m) (find-Alike m)

pub is_key : Text → Key → Bool
is_key s = Quot.lift (hlevel) (alike s) λ t t' k. alike-congruent s s t t' (Alike-refl s) k

-- The function changed at the key of one text.
pub update : Text → Text → (Key → Option Text) → Key → Option Text
update key value f x = if is_key key x then some value else f x

alike-true : (s t : Text) → alike s t ≡ true → Alike s t
alike-true s t h = ground arith

alike-false : (s t : Text) → alike s t ≡ false → fold s ≢ fold t
alike-false s t h e =
    true≢false (sym (rw (ci_less_irrefl s t e, ci_less_irrefl t s (sym e)) refl) ∙ h)

find-insert :
    (t key value : Text) (m : CaseMap)
    → find t (insert key value m) ≡ (if alike key t then some value else find t m)
find-insert t key value m = elim (Bool-cases (alike key t)) [
  | inl same ↦
      rw same (find-insert_same t key value m (sym (fold-Alike key t (alike-true key t same))))
  | inr other ↦ rw other (find-insert_other t key value m λ e. alike-false key t other (sym e))
]

insert-updates :
    (key value : Text) (m : CaseMap) → view (insert key value m) ≡ update key value (view m)
unfolding view update is_key
insert-updates key value m i x =
    Quot.ind {β = λ y. view (insert key value m) y ≡ update key value (view m) y} (λ y. hlevel)
      (λ t. find-insert t key value m) x i

-- A map of strict order that holds what the function says.
abbrev pub Implements : CaseMap → (Key → Option Text) → Type 0
Implements m f = IsOrdered m × (view m ≡ f)

-- A map that implements a function of the keys implements, after an insertion, the function changed
-- at that key alone, however the key is spelled.
pub insert-Implements :
    (key value : Text) (m : CaseMap) (f : Key → Option Text)
    → Implements m f
    → Implements (insert key value m) (update key value f)
insert-Implements key value m f h =
    (insert-IsOrdered key value m h.0, insert-updates key value m ∙ ap (update key value) h.1)
