-- ===== src/Base/Tuples/Paired.antt =====
-- base/utility.h, base/events.h: which index and which callback the templates find for an event.
use libra_core.Base.Tuples.{
  tuple_merge, tuple_append, tuple_even_elements, tuple_odd_elements, tuple_index_r, tuple_index_of,
  merged_map, events, callbacks, event_idx, callback_type,
}
use libra_core.Common.{
  ℕ, ◌+◌, ◌≡◌, refl, ap, sym, ◌∙◌, Bool, true, false, none, some, List, [], ◌∷◌, ◌++◌, map, length,
  arith, All, if-true, if-false,
}
use libra_core.Common.{get_elem?}
use mathlib.Core.Option

module _ {T : Type 0} where
  -- The tuple that lists events and their callbacks in turn.
  abbrev pub listed : List (T × T) → List T
  listed [] = []
  listed ((e, c) ∷ ps) = e ∷ c ∷ listed ps

  listed-append : (xs ys : List (T × T)) → listed (xs ++ ys) ≡ listed xs ++ listed ys
  listed-append [] ys = refl
  listed-append ((e, c) ∷ xs) ys = ap (λ l. e ∷ c ∷ l) (listed-append xs ys)

  tuple_even_elements-listed :
      (ps : List (T × T)) → tuple_even_elements (listed ps) ≡ some (map (λ p. p.0) ps)
  unfolding tuple_even_elements tuple_append
  tuple_even_elements-listed [] = refl
  tuple_even_elements-listed ((e, c) ∷ []) = refl
  tuple_even_elements-listed ((e, c) ∷ p ∷ ps) = rw (tuple_even_elements-listed (p ∷ ps)) refl

  tuple_odd_elements-listed :
      (ps : List (T × T)) → tuple_odd_elements (listed ps) ≡ some (map (λ p. p.1) ps)
  unfolding tuple_odd_elements tuple_append
  tuple_odd_elements-listed [] = refl
  tuple_odd_elements-listed ((e, c) ∷ []) = refl
  tuple_odd_elements-listed ((e, c) ∷ p ∷ ps) = rw (tuple_odd_elements-listed (p ∷ ps)) refl

  get_elem?-callback :
      (before after : List (T × T)) (e c : T)
      → get_elem? (map (λ p. p.1) (before ++ ((e, c) ∷ after))) (length before) ≡ some c
  get_elem?-callback [] after e c = refl
  get_elem?-callback (p ∷ before) after e c = get_elem?-callback before after e c

module _ {T : Type 0} (is_same : T → T → Bool) where
  tuple_index_r-first :
      (before after : List (T × T)) (e c : T) (i : ℕ)
      → All (λ p. is_same e p.0 ≡ false) before
      → is_same e e ≡ true
      → tuple_index_r is_same (map (λ p. p.0) (before ++ ((e, c) ∷ after))) e i
        ≡ some (i + length before)
  unfolding tuple_index_r
  tuple_index_r-first [] after e c i h same = if-true (is_same e e) _ _ same ∙ ap some (omega arith)
  tuple_index_r-first (p ∷ before) after e c i h same =
      if-false (is_same e p.0) _ _ h.0
      ∙ tuple_index_r-first before after e c (i + 1) h.1 same
      ∙ ap some (omega arith)

  tuple_index_r-absent :
      (ps : List (T × T)) (f : T) (i : ℕ)
      → All (λ p. is_same f p.0 ≡ false) ps
      → tuple_index_r is_same (map (λ p. p.0) ps) f i ≡ none
  unfolding tuple_index_r
  tuple_index_r-absent [] f i h = refl
  tuple_index_r-absent (p ∷ ps) f i h =
      if-false (is_same f p.0) _ _ h.0 ∙ tuple_index_r-absent ps f (i + 1) h.1

  merged_map-two :
      (xs ys : List (T × T))
      → merged_map is_same (listed xs ∷ listed ys ∷ []) ≡ some (listed (xs ++ ys))
  unfolding merged_map tuple_merge
  merged_map-two xs ys = ap some (sym (listed-append xs ys))

  events-two :
      (xs ys : List (T × T))
      → events is_same (listed xs ∷ listed ys ∷ []) ≡ some (map (λ p. p.0) (xs ++ ys))
  unfolding events Option.bind
  events-two xs ys =
      ap (λ o. Option.bind o tuple_even_elements) (merged_map-two xs ys)
      ∙ tuple_even_elements-listed (xs ++ ys)

  callbacks-two :
      (xs ys : List (T × T))
      → callbacks is_same (listed xs ∷ listed ys ∷ []) ≡ some (map (λ p. p.1) (xs ++ ys))
  unfolding callbacks Option.bind
  callbacks-two xs ys =
      ap (λ o. Option.bind o tuple_odd_elements) (merged_map-two xs ys)
      ∙ tuple_odd_elements-listed (xs ++ ys)

  event_idx-two :
      (xs ys : List (T × T)) (e : T)
      → event_idx is_same (listed xs ∷ listed ys ∷ []) e
        ≡ tuple_index_r is_same (map (λ p. p.0) (xs ++ ys)) e 0
  unfolding event_idx Option.bind tuple_index_of
  event_idx-two xs ys e = rw (events-two xs ys) refl

  -- The maps of an emitter are two tuples that list events and their callbacks in turn. An event that
  -- is the same type as itself and as none of the events before it gets the number of the pairs before
  -- it as its index, and the callback of its own pair as its callback type. An event that is in
  -- neither map gets no index, and neither does any event when there is a third map.
  pub callback_type-pair :
      (xs ys before after : List (T × T)) (e c : T)
      → xs ++ ys ≡ before ++ ((e, c) ∷ after)
      → All (λ p. is_same e p.0 ≡ false) before
      → is_same e e ≡ true
      → (event_idx is_same (listed xs ∷ listed ys ∷ []) e ≡ some (length before))
        × (callback_type is_same (listed xs ∷ listed ys ∷ []) e ≡ some c)
        × ((f : T)
            → All (λ p. is_same f p.0 ≡ false) (xs ++ ys)
            → event_idx is_same (listed xs ∷ listed ys ∷ []) f ≡ none)
        × ((zs : List T) → event_idx is_same (listed xs ∷ listed ys ∷ zs ∷ []) e ≡ none)
  unfolding callback_type Option.bind event_idx events merged_map tuple_merge
  callback_type-pair xs ys before after e c split h same = (
    here,
    rw (callbacks-two xs ys, here, split) (get_elem?-callback before after e c),
    λ f absent. event_idx-two xs ys f ∙ tuple_index_r-absent (xs ++ ys) f 0 absent,
    λ zs. refl,
  )
    where
      here : event_idx is_same (listed xs ∷ listed ys ∷ []) e ≡ some (length before)
      here =
          event_idx-two xs ys e
          ∙ ap (λ l. tuple_index_r is_same (map (λ p. p.0) l) e 0) split
          ∙ tuple_index_r-first before after e c 0 h same
          ∙ ap some (omega arith)
