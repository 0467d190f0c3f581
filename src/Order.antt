-- ===== src/Order.antt =====
-- core/stable-id-order.hpp: reorderValuesByStableIds, which puts values into the order of their
-- ids. The values stand with the flags that tell which of them were taken.
pub mod Laws
use obs_dsk_multistream.Base.{
  String, Bool, true, false, not, ◌==◌, ◌&&◌, Option, none, some, List, [], ◌∷◌, map, eqb,
  if◌then◌else◌, length,
}
use mathlib.Core.Option

module _ {T : Type 0} (id_of : T → String) where
  -- The first value with the id that is not taken yet, and the flags after it is taken.
  take_match : String → List (T × Bool) → Option (T × List (T × Bool))
  take_match id [] = none
  take_match id ((v, used) ∷ ps) =
      let rest = Option.map (λ r. (r.0, (v, used) ∷ r.1)) (take_match id ps) in
      if not used && id_of v == id then some (v, (v, true) ∷ ps) else rest

  take_all : List String → List (T × Bool) → Option (List T)
  take_all [] ps = some []
  take_all (id ∷ ids) ps = elim (take_match id ps) [
    | none ↦ none
    | some r ↦ Option.map (λ vs. r.0 ∷ vs) (take_all ids r.1)
  ]

  -- `none` is the answer false, which leaves the result alone.
  unfoldable pub reorder_values_by_stable_ids : List T → List String → Option (List T)
  unfolding take_all take_match
  reorder_values_by_stable_ids values ordered_ids =
      let taken = take_all ordered_ids (map (λ v. (v, false)) values) in
      if eqb (length values) (length ordered_ids) then taken else none
