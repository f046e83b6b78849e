-- ===== src/Base/Tuples.antt =====
-- base/utility.h: the templates on tuples, and the types of base/events.h that they compute. A C++
-- type is an element of `T`, a tuple is the list of its types, and `none` is a program that does not
-- compile.
pub mod Paired
use libra_core.Common.{ℕ, ◌+◌, Bool, Option, none, some, List, [], ◌∷◌, ◌++◌, if◌then◌else◌}
use libra_core.Common.{get_elem?}
use mathlib.Core.Option

module _ {T : Type 0} where
  -- One tuple is kept, two are joined; more have no definition.
  unfoldable pub tuple_merge : List (List T) → Option (List T)
  tuple_merge [] = some []
  tuple_merge (ta ∷ []) = some ta
  tuple_merge (ta ∷ tb ∷ []) = some (ta ++ tb)
  tuple_merge (ta ∷ tb ∷ tc ∷ ts) = none

  -- The element goes to the front in `tuple_append`, to the end in `tuple_prepend`.
  unfoldable pub tuple_append : T → List T → List T
  tuple_append a ts = a ∷ ts

  unfoldable pub tuple_prepend : List T → T → List T
  tuple_prepend ts a = ts ++ (a ∷ [])

  unfoldable pub tuple_even_elements : List T → Option (List T)
  unfolding tuple_append
  tuple_even_elements [] = some []
  tuple_even_elements (a ∷ []) = none
  tuple_even_elements (a ∷ b ∷ []) = some (a ∷ [])
  tuple_even_elements (a ∷ b ∷ c ∷ ts) = Option.map (tuple_append a) (tuple_even_elements (c ∷ ts))

  unfoldable pub tuple_odd_elements : List T → Option (List T)
  unfolding tuple_append
  tuple_odd_elements [] = some []
  tuple_odd_elements (a ∷ []) = none
  tuple_odd_elements (a ∷ b ∷ []) = some (b ∷ [])
  tuple_odd_elements (a ∷ b ∷ c ∷ ts) = Option.map (tuple_append b) (tuple_odd_elements (c ∷ ts))

module _ {T : Type 0} (is_same : T → T → Bool) where
  unfoldable pub tuple_index_r : List T → T → ℕ → Option ℕ
  tuple_index_r [] c i = none
  tuple_index_r (h ∷ r) c i =
      let rest = tuple_index_r r c (i + 1) in if is_same c h then some i else rest

  unfoldable pub tuple_index_of : List T → T → Option ℕ
  unfolding tuple_index_r
  tuple_index_of ts c = tuple_index_r ts c 0

  -- The types of `EventEmitter<M...>`.
  unfoldable pub merged_map : List (List T) → Option (List T)
  unfolding tuple_merge
  merged_map m = tuple_merge m

  unfoldable pub events : List (List T) → Option (List T)
  unfolding merged_map tuple_even_elements Option.bind
  events m = Option.bind (merged_map m) tuple_even_elements

  unfoldable pub callbacks : List (List T) → Option (List T)
  unfolding merged_map tuple_odd_elements Option.bind
  callbacks m = Option.bind (merged_map m) tuple_odd_elements

  unfoldable pub event_idx : List (List T) → T → Option ℕ
  unfolding events tuple_index_of Option.bind
  event_idx m e = Option.bind (events m) (λ es. tuple_index_of es e)

  unfoldable pub callback_type : List (List T) → T → Option T
  unfolding callbacks event_idx Option.bind
  callback_type m e = Option.bind (callbacks m) (λ cs. Option.bind (event_idx m e) (get_elem? cs))
