-- ===== src/Layout.antt =====
-- core/layout-manager.hpp, core/layout-manager.cpp: the vertical scenes and which of them is active.
-- The coordinates of a layout are bit patterns, which these operations only pass on.
pub mod Scenes
pub mod Active
pub mod Geometry
pub mod Sync
use obs_dsk_multistream.Base.{
  ℕ, zero, suc, ◌+◌, ◌-◌, String, ◌<>◌, Bool, true, false, not, ◌==◌, ◌&&◌, ◌||◌, Option, none,
  some, List, [], ◌∷◌, ◌++◌, ℤ, pos, negsuc, eqb, ltb, leb, if◌then◌else◌, is_empty, length,
  get_elem?, remove_at, insert_at, set, Qt,
}
use mathlib.Core.Option
use obs_dsk_multistream.Order.{reorder_values_by_stable_ids}

pub data FitMode : Type 0 where
  fit fill stretch : FitMode

pub record Rect : Type 0 where
  pub x : ℕ
  pub y : ℕ
  pub width : ℕ
  pub height : ℕ

pub record VerticalLayoutItem : Type 0 where
  pub id : String
  pub source_name : String
  pub rect : Rect
  pub crop : Rect
  pub fit_mode : FitMode
  pub visible : Bool

pub record VerticalLayout : Type 0 where
  pub width : ℤ
  pub height : ℤ
  pub template_id : String
  pub items : List VerticalLayoutItem

pub record VerticalLayoutScene : Type 0 where
  pub id : String
  pub name : String
  pub layout : VerticalLayout

pub record LayoutManager : Type 0 where
  pub vertical : VerticalLayout
  pub vertical_scenes : List VerticalLayoutScene
  pub active_vertical_scene_id : String

abbrev pub default_layout : VerticalLayout
default_layout = record {
  width = pos 1080;
  height = pos 1920;
  template_id = "full-screen";
  items = [];
}

unfoldable pub scene_index : String → List VerticalLayoutScene → Option ℕ
scene_index id [] = none
scene_index id (s ∷ ss) =
    let rest = Option.map suc (scene_index id ss) in if s.id == id then some 0 else rest

abbrev min : ℕ → ℕ → ℕ
min a b = if ltb b a then b else a

-- std::clamp(i + offset, 0, last)
clamped : ℕ → ℤ → ℕ → ℕ
clamped i (pos k) last = min (i + k) last
clamped i (negsuc k) last = min (i - (k + 1)) last

abbrev is_zero : ℤ → Bool
is_zero (pos k) = eqb k 0
is_zero (negsuc k) = false

abbrev activate : VerticalLayoutScene → LayoutManager → LayoutManager
activate s m = record m { active_vertical_scene_id = s.id; vertical = s.layout }

-- The scene at the position was taken out; an active one is replaced by its neighbour.
after_removal : String → ℕ → List VerticalLayoutScene → LayoutManager → LayoutManager
after_removal id i rest m =
    let without = record m { vertical_scenes = rest } in
    if m.active_vertical_scene_id == id
    then elim (get_elem? rest (min i (length rest - 1))) [
      | none ↦ without
      | some s ↦ activate s without
    ]
    else without

pub remove_vertical_scene : String → LayoutManager → LayoutManager × Bool
remove_vertical_scene id m =
    if leb (length m.vertical_scenes) 1
    then (m, false)
    else elim (scene_index id m.vertical_scenes) [
      | none ↦ (m, false)
      | some i ↦ (after_removal id i (remove_at i m.vertical_scenes) m, true)
    ]

move_found : ℕ → ℤ → VerticalLayoutScene → LayoutManager → LayoutManager × Bool
move_found i offset s m =
    let target = clamped i offset (length m.vertical_scenes - 1) in
    if eqb target i
    then (m, false)
    else (record m { vertical_scenes = insert_at target s (remove_at i m.vertical_scenes) }, true)

pub move_vertical_scene : String → ℤ → LayoutManager → LayoutManager × Bool
move_vertical_scene id offset m =
    if is_zero offset then (m, false) else elim (scene_index id m.vertical_scenes) [
      | none ↦ (m, false)
      | some i ↦ elim (get_elem? m.vertical_scenes i) [
        | none ↦ (m, false)
        | some s ↦ move_found i offset s m
      ]
    ]

same_order : List VerticalLayoutScene → List VerticalLayoutScene → Bool
same_order [] ts = true
same_order (s ∷ ss) [] = true
same_order (s ∷ ss) (t ∷ ts) = s.id == t.id && same_order ss ts

pub reorder_vertical_scenes : List String → LayoutManager → LayoutManager × Bool
reorder_vertical_scenes ordered_ids m =
    elim (reorder_values_by_stable_ids (λ (s : VerticalLayoutScene). s.id) m.vertical_scenes
      ordered_ids) [
        | none ↦ (m, false)
        | some reordered ↦
            if same_order reordered m.vertical_scenes
            then (m, false)
            else (record m { vertical_scenes = reordered }, true)
      ]

unfoldable pub select_vertical_scene : String → LayoutManager → LayoutManager × Bool
select_vertical_scene id m = elim (scene_index id m.vertical_scenes) [
  | none ↦ (m, false)
  | some i ↦ elim (get_elem? m.vertical_scenes i) [
    | none ↦ (m, false)
    | some s ↦ (activate s m, true)
  ]
]

name_taken : Qt → String → String → List VerticalLayoutScene → Bool
name_taken qt excluded name [] = false
name_taken qt excluded name (s ∷ ss) =
    (not (not (is_empty excluded) && s.id == excluded) && qt.equal_ci s.name name)
    || name_taken qt excluded name ss

-- The numbers from `i` on, as many as `count`; the fallback has the start of a new id.
next_name : Qt → String → String → String → List VerticalLayoutScene → ℕ → ℕ → String
next_name qt excluded base fallback scenes i zero = fallback
next_name qt excluded base fallback scenes i (suc count) =
    let candidate = base <> (" " <> qt.number i) in
    let later = next_name qt excluded base fallback scenes (suc i) count in
    if not (name_taken qt excluded candidate scenes) then candidate else later

pub unique_scene_name : Qt → String → List VerticalLayoutScene → String → String → String
unique_scene_name qt short_id scenes requested excluded =
    let base = if is_empty (qt.trimmed requested) then "Vertical Scene" else qt.trimmed requested in
    let numbered = next_name qt excluded base (base <> (" " <> short_id)) scenes 2 998 in
    if not (name_taken qt excluded base scenes) then base else numbered

pub create_vertical_scene : Qt → String → String → String → LayoutManager → LayoutManager
create_vertical_scene qt new_id short_id name m =
    let scene : VerticalLayoutScene = record {
      id = new_id;
      name = unique_scene_name qt short_id m.vertical_scenes name "";
      layout = default_layout;
    } in
    activate scene (record m { vertical_scenes = m.vertical_scenes ++ (scene ∷ []) })

pub rename_vertical_scene : Qt → String → String → String → LayoutManager → LayoutManager × Bool
rename_vertical_scene qt short_id id name m =
    if is_empty (qt.trimmed name) then (m, false) else elim (scene_index id m.vertical_scenes) [
      | none ↦ (m, false)
      | some i ↦ elim (get_elem? m.vertical_scenes i) [
        | none ↦ (m, false)
        | some s ↦
            let renamed : VerticalLayoutScene = record s {
              name = unique_scene_name qt short_id m.vertical_scenes (qt.trimmed name) id;
            } in
            (record m { vertical_scenes = set m.vertical_scenes i renamed }, true)
      ]
    ]
