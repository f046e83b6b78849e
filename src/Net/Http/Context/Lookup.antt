-- ===== src/Net/Http/Context/Lookup.antt =====
-- net/http.cpp, base/utility.h: what `get_header` finds in a request.
use libra_core.Common.{
  ◌≡◌, refl, ap, sym, ◌∙◌, Bool, true, false, Option, some, none, List, [], ◌∷◌, arith,
  if◌then◌else◌, Text,
}
use libra_core.Base.CaseMap.{CaseMap, find, insert}
use libra_core.Base.CaseMap.Order.{fold}
use libra_core.Base.CaseMap.Lookup.{find-insert_same, find-insert_other}
use libra_core.Net.Http.Request.{
  UrlHandle, text_eq, get_header, get_header_into, value_or, found_value,
}
use libra_core.Net.Http.Context.Headers.{Header, gathered, key_of, value_of}
use libra_core.Net.Http.Context.Message.{request_of}

text_eq-true : (s t : Text) → text_eq s t ≡ true → s ≡ t
unfolding text_eq
text_eq-true [] [] h = refl
text_eq-true [] (d ∷ t) h = cc
text_eq-true (c ∷ s) [] h = cc
text_eq-true (c ∷ s) (d ∷ t) h = ground (arith, text_eq-true s t)

differs : true ≡ false → ⊥
differs e = cc

text_eq_self : (s : Text) → text_eq s s ≡ true
unfolding text_eq
text_eq_self [] = refl
text_eq_self (c ∷ s) = ground (arith, text_eq_self s)

-- The value of the last header whose field is the key but for the case of its letters.
abbrev pub last_value : Text → Option Text → List Header → Option Text
last_value key v [] = v
last_value key v (h ∷ hs) =
    last_value key (if text_eq (fold key) (fold (key_of h)) then some (value_of h) else v) hs

find-gathered :
    (key : Text) (m : CaseMap) (hs : List Header)
    → find key (gathered m hs) ≡ last_value key (find key m) hs
find-gathered key m [] = refl
find-gathered key m (h ∷ hs) =
    find-gathered key (insert (key_of h) (value_of h) m) hs
    ∙ ap (λ o. last_value key o hs) (inserted (text_eq (fold key) (fold (key_of h))) refl)
  where
    inserted :
        (b : Bool)
        → text_eq (fold key) (fold (key_of h)) ≡ b
        → find key (insert (key_of h) (value_of h) m)
          ≡ (if b then some (value_of h) else find key m)
    inserted true e =
        find-insert_same key (key_of h) (value_of h) m (text_eq-true (fold key) (fold (key_of h)) e)
    inserted false e = find-insert_other key (key_of h) (value_of h) m (λ same.
        absurd (differs (sym (text_eq_self (fold key)) ∙ ap (text_eq (fold key)) same ∙ e)))

-- Both overloads of `get_header` give the value of the last header with the key, whatever the case
-- of its letters; where there is none, one gives an empty text, and the other leaves the caller's.
pub get_header-request_of :
    (key value url : Text) (u : UrlHandle) (hs : List Header) (pieces : List Text)
    → (get_header key (request_of url u hs pieces) ≡ value_or [] (last_value key none hs))
      × (get_header_into key value (request_of url u hs pieces)
          ≡ found_value value (last_value key none hs))
unfolding get_header get_header_into
get_header-request_of key value url u hs pieces = (
  ap (value_or []) (find-gathered key [] hs ∙ ap (λ o. last_value key o hs) (unfold find in refl)),
  ap (found_value value)
      (find-gathered key [] hs ∙ ap (λ o. last_value key o hs) (unfold find in refl)),
)
