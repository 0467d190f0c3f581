-- ===== src/Layout/Active.antt =====
-- The active scene of the layout manager (core/layout-manager.cpp).
use obs_dsk_multistream.Base.{
  ℕ, suc, ◌-◌, ◌<◌, String, ◌≡◌, refl, sym, ◌∙◌, Bool, true, ◌==◌, some, List, [], ◌∷◌, Qt,
  is_empty, ℤ, arith, eqb, leb, if_cases, if_under, length, get_elem?, remove_at, eq_iff,
  Option-cases, inl, inr,
}
use obs_dsk_multistream.Order.{reorder_values_by_stable_ids}
use obs_dsk_multistream.Order.Laws.{reorder_values_by_stable_ids-Perm}
use obs_dsk_multistream.Layout.{
  VerticalLayoutScene, LayoutManager, scene_index, min, clamped, is_zero, after_removal,
  remove_vertical_scene, move_found, move_vertical_scene, select_vertical_scene, same_order,
  reorder_vertical_scenes, create_vertical_scene, rename_vertical_scene,
}
use obs_dsk_multistream.Layout.Scenes.{
  has_scene, scene_index-FoundIf, has-get_elem?, has-insert_at, has-remove_at, get_elem?-in,
  length-remove_at, has-Perm, has-append, has-set,
}

abbrev pub IsActive : LayoutManager → Type 0
IsActive m = has_scene m.active_vertical_scene_id m.vertical_scenes ≡ true

abbrev ActiveAnswer : LayoutManager × Bool → Type 0
ActiveAnswer p = IsActive p.0

after_removal-IsActive :
    (id : String) (i : ℕ) (s : VerticalLayoutScene) (m : LayoutManager)
    → get_elem? m.vertical_scenes i ≡ some s
    → (s.id == id) ≡ true
    → 1 < length m.vertical_scenes
    → IsActive m
    → IsActive (after_removal id i (remove_at i m.vertical_scenes) m)
unfolding after_removal
after_removal-IsActive id i s m at named many v =
    let rest : List VerticalLayoutScene = remove_at i m.vertical_scenes in
    let last : ℕ = length rest - 1 in
    let size : length m.vertical_scenes ≡ suc (length rest) =
      length-remove_at m.vertical_scenes i s at in
    let (t, near) = get_elem?-in rest (min i last) (ground (arith, size, many)) in
    if_under IsActive (m.active_vertical_scene_id == id)
      (λ active. rw near (has-get_elem? rest (min i last) t near))
      (λ other. ground (
        arith,
        v,
        other,
        named,
        has-remove_at m.active_vertical_scene_id m.vertical_scenes i s at,
        eq_iff s.id id,
        eq_iff s.id m.active_vertical_scene_id,
        eq_iff m.active_vertical_scene_id id,
      ))

-- Removing a scene leaves one of the scenes active.
pub remove_vertical_scene-IsActive :
    (id : String) (m : LayoutManager) → IsActive m → IsActive (remove_vertical_scene id m).0
unfolding remove_vertical_scene
remove_vertical_scene-IsActive id m v =
    if_under ActiveAnswer (leb (length m.vertical_scenes) 1) (λ only. v)
      (λ many. elim (Option-cases (scene_index id m.vertical_scenes)) [
        | inl missing ↦ rw (missing, remove_vertical_scene) v
        | inr (i, found) ↦
            let (s, at, named) = scene_index-FoundIf id m.vertical_scenes i found in
            rw (found, remove_vertical_scene)
              (after_removal-IsActive id i s m at named (ground (arith, many)) v)
      ])

pub move_vertical_scene-IsActive :
    (id : String) (offset : ℤ) (m : LayoutManager)
    → IsActive m
    → IsActive (move_vertical_scene id offset m).0
unfolding move_vertical_scene move_found
move_vertical_scene-IsActive id offset m v =
    if_cases ActiveAnswer (is_zero offset) v
      (elim (Option-cases (scene_index id m.vertical_scenes)) [
        | inl missing ↦ rw (missing, move_vertical_scene) v
        | inr (i, found) ↦
            rw (found, move_vertical_scene)
              (elim (Option-cases (get_elem? m.vertical_scenes i)) [
                | inl gone ↦ rw (gone, move_vertical_scene) v
                | inr (s, at) ↦
                    rw (at, move_vertical_scene)
                      (if_cases ActiveAnswer
                        (eqb (clamped i offset (length m.vertical_scenes - 1)) i) v
                        (has-insert_at m.active_vertical_scene_id (remove_at i m.vertical_scenes)
                            (clamped i offset (length m.vertical_scenes - 1)) s
                          ∙ (sym (has-remove_at m.active_vertical_scene_id m.vertical_scenes i s at)
                              ∙ v)))
              ])
      ])

pub select_vertical_scene-IsActive :
    (id : String) (m : LayoutManager) → IsActive m → IsActive (select_vertical_scene id m).0
unfolding select_vertical_scene
select_vertical_scene-IsActive id m v = elim (Option-cases (scene_index id m.vertical_scenes)) [
  | inl missing ↦ rw (missing, select_vertical_scene) v
  | inr (i, found) ↦
      rw (found, select_vertical_scene)
        (elim (Option-cases (get_elem? m.vertical_scenes i)) [
          | inl gone ↦ rw (gone, select_vertical_scene) v
          | inr (s, at) ↦ rw (at, select_vertical_scene) (has-get_elem? m.vertical_scenes i s at)
        ])
]

pub reorder_vertical_scenes-IsActive :
    (ids : List String) (m : LayoutManager)
    → IsActive m
    → IsActive (reorder_vertical_scenes ids m).0
unfolding reorder_vertical_scenes
reorder_vertical_scenes-IsActive ids m v =
    elim (Option-cases
      (reorder_values_by_stable_ids (λ (s : VerticalLayoutScene). s.id) m.vertical_scenes ids)) [
        | inl refused ↦ rw (refused, reorder_vertical_scenes) v
        | inr (reordered, done) ↦
            rw (done, reorder_vertical_scenes)
              (if_cases ActiveAnswer (same_order reordered m.vertical_scenes) v (
                sym (
                  has-Perm m.active_vertical_scene_id
                    (reorder_values_by_stable_ids-Perm (λ (s : VerticalLayoutScene). s.id)
                      m.vertical_scenes ids reordered done).0)
                ∙ v))
      ]

module _ (qt : Qt) (short_id : String) where
  create_vertical_scene-IsActive :
      (new_id name : String) (m : LayoutManager)
      → IsActive (create_vertical_scene qt new_id short_id name m)
  unfolding create_vertical_scene
  create_vertical_scene-IsActive new_id name m = has-append new_id m.vertical_scenes _ refl

  rename_vertical_scene-IsActive :
      (id name : String) (m : LayoutManager)
      → IsActive m
      → IsActive (rename_vertical_scene qt short_id id name m).0
  unfolding rename_vertical_scene
  rename_vertical_scene-IsActive id name m v =
      if_cases ActiveAnswer (is_empty (qt.trimmed name)) v
        (elim (Option-cases (scene_index id m.vertical_scenes)) [
          | inl missing ↦ rw (missing, rename_vertical_scene) v
          | inr (i, found) ↦
              rw (found, rename_vertical_scene)
                (elim (Option-cases (get_elem? m.vertical_scenes i)) [
                  | inl gone ↦ rw (gone, rename_vertical_scene) v
                  | inr (s, at) ↦
                      rw (at, rename_vertical_scene)
                        (has-set m.active_vertical_scene_id m.vertical_scenes i s _ at refl ∙ v)
                ])
        ])

-- What the user does with the scenes.
pub data SceneEdit : Type 0 where
  remove_scene select_scene : String → SceneEdit
  move_scene : String → ℤ → SceneEdit
  reorder_scenes : List String → SceneEdit
  -- with the new ids that newTargetId gives, the last one for the fallback of a name
  create_scene : String → String → String → SceneEdit
  rename_scene : String → String → String → SceneEdit

module _ (qt : Qt) where
  unfoldable pub edit_scenes : List SceneEdit → LayoutManager → LayoutManager
  edit_scenes [] m = m
  edit_scenes (remove_scene id ∷ es) m = edit_scenes es (remove_vertical_scene id m).0
  edit_scenes (select_scene id ∷ es) m = edit_scenes es (select_vertical_scene id m).0
  edit_scenes (move_scene id offset ∷ es) m = edit_scenes es (move_vertical_scene id offset m).0
  edit_scenes (reorder_scenes ids ∷ es) m = edit_scenes es (reorder_vertical_scenes ids m).0
  edit_scenes (create_scene new_id name short_id ∷ es) m =
      edit_scenes es (create_vertical_scene qt new_id short_id name m)
  edit_scenes (rename_scene id name short_id ∷ es) m =
      edit_scenes es (rename_vertical_scene qt short_id id name m).0

  -- From a state whose active scene is one of the scenes, every sequence of creations, renamings,
  -- removals, moves, reorderings and selections of scenes, refused ones included, leads to such a
  -- state.
  pub edit_scenes-IsActive :
      (es : List SceneEdit) (m : LayoutManager) → IsActive m → IsActive (edit_scenes es m)
  unfolding edit_scenes
  edit_scenes-IsActive [] m v = v
  edit_scenes-IsActive (remove_scene id ∷ es) m v =
      edit_scenes-IsActive es _ (remove_vertical_scene-IsActive id m v)
  edit_scenes-IsActive (select_scene id ∷ es) m v =
      edit_scenes-IsActive es _ (select_vertical_scene-IsActive id m v)
  edit_scenes-IsActive (move_scene id offset ∷ es) m v =
      edit_scenes-IsActive es _ (move_vertical_scene-IsActive id offset m v)
  edit_scenes-IsActive (reorder_scenes ids ∷ es) m v =
      edit_scenes-IsActive es _ (reorder_vertical_scenes-IsActive ids m v)
  edit_scenes-IsActive (create_scene new_id name short_id ∷ es) m v =
      edit_scenes-IsActive es _ (create_vertical_scene-IsActive qt short_id new_id name m)
  edit_scenes-IsActive (rename_scene id name short_id ∷ es) m v =
      edit_scenes-IsActive es _ (rename_vertical_scene-IsActive qt short_id id name m v)
