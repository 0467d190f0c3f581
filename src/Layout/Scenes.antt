-- ===== src/Layout/Scenes.antt =====
-- Which ids a list of scenes has, and where a scene stands in it.
use obs_dsk_multistream.Base.{
  ℕ, zero, suc, ◌<◌, String, ◌≡◌, refl, subst, ap, ◌∙◌, Bool, true, false, ◌==◌, ◌||◌, Option, some,
  List, [], ◌∷◌, ◌++◌, set, arith, if_under, length, get_elem?, remove_at, insert_at, eq_iff,
  eq_refl, Option-cases, inl, inr,
}
use mathlib.Core.Option
use mathlib.Core.Logic.{∥∥₁_elim}
use mathlib.Core.Bool.{Bool-set}
use mathlib.Core.List.{Perm, Permᴰ}
use obs_dsk_multistream.Layout.{VerticalLayoutScene, scene_index}

unfoldable pub has_scene : String → List VerticalLayoutScene → Bool
has_scene a [] = false
has_scene a (s ∷ ss) = s.id == a || has_scene a ss

pub has-get_elem? :
    (ss : List VerticalLayoutScene) (i : ℕ) (s : VerticalLayoutScene)
    → get_elem? ss i ≡ some s
    → has_scene s.id ss ≡ true
unfolding has_scene
has-get_elem? [] i s h = cc
has-get_elem? (t ∷ ss) zero s h = ground (arith, h, eq_refl s.id)
has-get_elem? (t ∷ ss) (suc i) s h = ground (arith, has-get_elem? ss i s h)

pub has-insert_at :
    (a : String) (ss : List VerticalLayoutScene) (i : ℕ) (s : VerticalLayoutScene)
    → has_scene a (insert_at i s ss) ≡ (s.id == a || has_scene a ss)
unfolding has_scene
has-insert_at a ss zero s = refl
has-insert_at a [] (suc i) s = refl
has-insert_at a (t ∷ ss) (suc i) s = ground (arith, has-insert_at a ss i s)

pub has-remove_at :
    (a : String) (ss : List VerticalLayoutScene) (i : ℕ) (s : VerticalLayoutScene)
    → get_elem? ss i ≡ some s
    → has_scene a ss ≡ (s.id == a || has_scene a (remove_at i ss))
unfolding has_scene
has-remove_at a [] i s h = cc
has-remove_at a (t ∷ ss) zero s h = ground (arith, h)
has-remove_at a (t ∷ ss) (suc i) s h = ground (arith, has-remove_at a ss i s h)

-- A scene with the id stands at the position.
abbrev pub IsAt : String → List VerticalLayoutScene → ℕ → Type 0
IsAt id ss i = (s : VerticalLayoutScene) × (get_elem? ss i ≡ some s) × ((s.id == id) ≡ true)

abbrev pub FoundIf : String → List VerticalLayoutScene → Option ℕ → Type 0
FoundIf id ss o = (i : ℕ) → o ≡ some i → IsAt id ss i

same_position : (i j : ℕ) → some i ≡ some j → i ≡ j
same_position i j e = ground (arith, e)

pub scene_index-FoundIf :
    (id : String) (ss : List VerticalLayoutScene) → FoundIf id ss (scene_index id ss)
unfolding scene_index
scene_index-FoundIf id [] = λ i h. absurd (ground (arith, h))
scene_index-FoundIf id (t ∷ ss) =
    let later : FoundIf id (t ∷ ss) (Option.map suc (scene_index id ss)) =
      elim (Option-cases (scene_index id ss)) [
        | inl missing ↦ rw missing (λ i h. absurd (ground (arith, h)))
        | inr (j, found) ↦ rw found (λ i h.
            subst (IsAt id (t ∷ ss)) (same_position (suc j) i h)
              (scene_index-FoundIf id ss j found))
      ] in
    if_under (FoundIf id (t ∷ ss)) (t.id == id)
      (λ here i h. subst (IsAt id (t ∷ ss)) (same_position 0 i h) (t, refl, here))
      (λ elsewhere. later)

pub length-remove_at :
    (ss : List VerticalLayoutScene) (i : ℕ) (s : VerticalLayoutScene)
    → get_elem? ss i ≡ some s
    → length ss ≡ suc (length (remove_at i ss))
length-remove_at [] i s h = cc
length-remove_at (t ∷ ss) zero s h = refl
length-remove_at (t ∷ ss) (suc i) s h = omega (arith, length-remove_at ss i s h)

pub get_elem?-in :
    (ss : List VerticalLayoutScene) (i : ℕ)
    → i < length ss
    → (s : VerticalLayoutScene) × (get_elem? ss i ≡ some s)
get_elem?-in [] i h = absurd (omega (arith, h))
get_elem?-in (s ∷ ss) zero h = (s, refl)
get_elem?-in (s ∷ ss) (suc i) h = get_elem?-in ss i (omega (arith, h))

has-Permᴰ :
    (a : String) {ss ts : List VerticalLayoutScene} → Permᴰ ss ts → has_scene a ss ≡ has_scene a ts
unfolding has_scene
has-Permᴰ a Permᴰ.nil = refl
has-Permᴰ a (Permᴰ.cons {a = s} {b = t} e p) = ground (arith, ap (λ x. x.id) e, has-Permᴰ a p)
has-Permᴰ a (Permᴰ.swap {a = s} {b = t} {a' = s'} {b' = t'} e f) =
    ground (arith, ap (λ x. x.id) e, ap (λ x. x.id) f)
has-Permᴰ a (Permᴰ.trans p q) = has-Permᴰ a p ∙ has-Permᴰ a q

pub has-Perm :
    (a : String) {ss ts : List VerticalLayoutScene} → Perm ss ts → has_scene a ss ≡ has_scene a ts
has-Perm a {ss} {ts} p = ∥∥₁_elim p (Bool-set (has_scene a ss) (has_scene a ts)) (has-Permᴰ a)

pub has-append :
    (a : String) (ss : List VerticalLayoutScene) (s : VerticalLayoutScene)
    → s.id ≡ a
    → has_scene a (ss ++ (s ∷ [])) ≡ true
unfolding has_scene
has-append a [] s e = ground (arith, eq_iff s.id a, e)
has-append a (t ∷ ss) s e = ground (arith, has-append a ss s e)

pub has-set :
    (a : String) (ss : List VerticalLayoutScene) (i : ℕ) (s t : VerticalLayoutScene)
    → get_elem? ss i ≡ some s
    → t.id ≡ s.id
    → has_scene a (set ss i t) ≡ has_scene a ss
unfolding has_scene
has-set a [] i s t h e = refl
has-set a (x ∷ ss) zero s t h e = ground (arith, h, e)
has-set a (x ∷ ss) (suc i) s t h e = ground (arith, has-set a ss i s t h e)
