-- ===== src/Layout/Sync.antt =====
-- core/layout-manager.cpp: initializeVerticalScenes, setVerticalLayout, applyTemplate and the
-- writing of the visible layout into the active scene.
pub mod Laws
use obs_dsk_multistream.Base.{
  ℕ, zero, suc, String, Bool, true, false, ◌==◌, ◌||◌, ◌≡◌, refl, Option, none, some, List, [], ◌∷◌,
  map, pos, if◌then◌else◌, is_empty, get_elem?, set, Qt,
}
use obs_dsk_multistream.Base.Doubles.{Doubles}
use obs_dsk_multistream.Layout.{
  FitMode, fit, fill, Rect, VerticalLayoutItem, VerticalLayout, VerticalLayoutScene, LayoutManager,
  activate, scene_index, select_vertical_scene,
}
use obs_dsk_multistream.Layout.Geometry.{normalize_vertical_layout_geometry}

-- The program's own sources do not belong to a layout.
abbrev pub is_own_source : String → Bool
is_own_source name =
    name == "DSK Vertical Scene"
    || name == "DSK Vertical Layout"
    || name == "DSK Vertical Program"
    || name == "DSK Vertical Preview"

unfoldable pub foreign_items : Qt → List VerticalLayoutItem → List VerticalLayoutItem
foreign_items qt [] = []
foreign_items qt (item ∷ items) =
    let rest = foreign_items qt items in
    if is_own_source (qt.trimmed item.source_name) then rest else item ∷ rest

module _ (qt : Qt) (dbl : Doubles) where
  open dbl use {from_int}

  unfoldable pub sanitized_vertical_layout : VerticalLayout → VerticalLayout
  sanitized_vertical_layout layout =
      let bounded = normalize_vertical_layout_geometry dbl layout in
      record bounded { items = foreign_items qt bounded.items }

  sanitized_scene : VerticalLayoutScene → VerticalLayoutScene
  sanitized_scene scene = record scene { layout = sanitized_vertical_layout scene.layout }

  -- The scenes to start with; there is always one.
  starting_scenes : List VerticalLayoutScene → VerticalLayout → List VerticalLayoutScene
  starting_scenes [] fallback =
      record { id = "default"; name = "Default"; layout = sanitized_vertical_layout fallback } ∷ []
  starting_scenes (s ∷ ss) fallback = map sanitized_scene (s ∷ ss)

  abbrev head_id : List VerticalLayoutScene → String
  head_id [] = ""
  head_id (s ∷ ss) = s.id

  activate_first : List VerticalLayoutScene → LayoutManager → LayoutManager
  activate_first [] m = m
  activate_first (s ∷ ss) m = activate s m

  unfoldable pub initialize_vertical_scenes :
      List VerticalLayoutScene → String → VerticalLayout → LayoutManager → LayoutManager
  unfolding starting_scenes sanitized_scene activate_first
  initialize_vertical_scenes scenes active_id fallback m =
      let started = starting_scenes scenes fallback in
      let active = if is_empty active_id then head_id started else active_id in
      let marked = record m { vertical_scenes = started; active_vertical_scene_id = active } in
      let (selected, ok) = select_vertical_scene active marked in
      if ok then selected else activate_first started marked

  -- ensureDefaultScene, over the scenes there are.
  pub ensure_default_scene : List VerticalLayoutScene → LayoutManager → LayoutManager
  ensure_default_scene [] m = record m {
    vertical_scenes = record { id = "default"; name = "Default"; layout = m.vertical } ∷ [];
    active_vertical_scene_id = "default";
  }
  ensure_default_scene (s ∷ ss) m = m

  with_layout : VerticalLayout → VerticalLayoutScene → VerticalLayoutScene
  with_layout layout scene = record scene { layout = layout }

  sync_first : List VerticalLayoutScene → LayoutManager → LayoutManager
  sync_first [] m = m
  sync_first (s ∷ ss) m = record m {
    vertical_scenes = with_layout m.vertical s ∷ ss;
    active_vertical_scene_id = s.id;
  }

  sync_scene : ℕ → Option VerticalLayoutScene → LayoutManager → LayoutManager
  sync_scene i none m = m
  sync_scene i (some s) m = record m {
    vertical_scenes = set m.vertical_scenes i (with_layout m.vertical s);
  }

  -- The visible layout goes to the scene at the position, or to the first one.
  sync_at : Option ℕ → LayoutManager → LayoutManager
  sync_at (some i) m = sync_scene i (get_elem? m.vertical_scenes i) m
  sync_at none m = sync_first m.vertical_scenes m

  pub sync_active_scene_layout : LayoutManager → LayoutManager
  sync_active_scene_layout m =
      let some_scene = ensure_default_scene m.vertical_scenes m in
      sync_at (scene_index some_scene.active_vertical_scene_id some_scene.vertical_scenes)
        some_scene

  pub set_vertical_layout : VerticalLayout → LayoutManager → LayoutManager
  set_vertical_layout layout m =
      sync_active_scene_layout (record m { vertical = sanitized_vertical_layout layout })

  abbrev slot : ℕ → Rect → FitMode → List VerticalLayoutItem → List VerticalLayoutItem
  slot index rect mode items = elim (get_elem? items index) [
    | none ↦ items
    | some item ↦ set items index (record item { rect = rect; fit_mode = mode; visible = true })
  ]

  abbrev rect_of : ℕ → ℕ → ℕ → ℕ → Rect
  rect_of x y w h = record {
    x = from_int (pos x);
    y = from_int (pos y);
    width = from_int (pos w);
    height = from_int (pos h);
  }

  -- The template's name and the items at their slots.
  templated : String → VerticalLayout → VerticalLayout
  templated id layout =
      if id == "game-camera"
      then record layout {
        template_id = id;
        items =
            slot 1 (rect_of 670 1240 360 360) fill
              (slot 0 (rect_of 0 0 1080 1920) fill layout.items);
      }
      else if id == "camera-first"
      then record layout {
        template_id = id;
        items =
            slot 1 (rect_of 80 1480 920 360) fit (slot 0 (rect_of 0 0 1080 1420) fill layout.items);
      }
      else if id == "center-crop"
      then record layout {
        template_id = id;
        items = slot 0 (rect_of 0 0 1080 1920) fill layout.items;
      }
      else record layout {
        template_id = "full-screen";
        items = slot 0 (rect_of 0 0 1080 1920) fit layout.items;
      }

  apply_to : List VerticalLayoutItem → String → LayoutManager → LayoutManager
  apply_to [] id m = record m { vertical = record (m.vertical) { template_id = id } }
  apply_to (item ∷ items) id m =
      sync_active_scene_layout (record m { vertical = templated id m.vertical })

  -- A layout without items only takes the name, and is not written into the active scene.
  pub apply_template : String → LayoutManager → LayoutManager
  apply_template id m = apply_to m.vertical.items id m
