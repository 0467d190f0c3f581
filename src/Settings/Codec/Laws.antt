-- ===== src/Settings/Codec/Laws.antt =====
-- core/settings-codec.cpp: reading back what was written, for routes, links, layout items, layouts
-- and vertical scenes.
use obs_dsk_multistream.Base.{
  ℕ, suc, String, ◌≡◌, refl, some, List, [], ◌∷◌, map, ◌||◌, is_empty, Qt, if_under,
}
use obs_dsk_multistream.Base.Doubles.{Doubles, IsInt}
use obs_dsk_multistream.Target.{TargetSceneRoute}
use obs_dsk_multistream.Layout.{
  FitMode, fit, fill, stretch, VerticalLayout, VerticalLayoutItem, VerticalLayoutScene,
}
use obs_dsk_multistream.Layout.Geometry.{
  fit_mode_to_string, fit_mode_from_string, normalize_loaded_vertical_layout,
}
use obs_dsk_multistream.Settings.{SceneLayoutLink}
use obs_dsk_multistream.Settings.Json.{value, objects-array_of}
use obs_dsk_multistream.Settings.Codec.{
  trimmed_route, clean_routes, route_from_json, route_to_json, routes_to_json, routes_from_json,
  item_to_json, item_from_json, items_from_json, layout_items, vertical_layout_to_json,
  vertical_layout_from_json, vertical_layout_scene_to_json, vertical_layout_scene_from_json,
  scene_link_to_json, scene_link_from_json,
}

pub scene_link_from_json-to_json :
    (link : SceneLayoutLink)
    → scene_link_from_json (scene_link_to_json link) ≡ record link { legacy_template_id = "" }
unfolding scene_link_from_json scene_link_to_json value
scene_link_from_json-to_json link = refl

pub fit_mode_from_string-to_string : (m : FitMode) → fit_mode_from_string (fit_mode_to_string m) ≡ m
unfolding fit_mode_from_string fit_mode_to_string
fit_mode_from_string-to_string fit = refl
fit_mode_from_string-to_string fill = refl
fit_mode_from_string-to_string stretch = refl

module _ (qt : Qt) where
  open qt use {trimmed, trimmed_idem}

  route_from_json-to_json : (r : TargetSceneRoute) → route_from_json qt (route_to_json qt r) ≡ r
  unfolding route_from_json route_to_json value
  route_from_json-to_json r = refl

  routes_from_json-map :
      (rs : List TargetSceneRoute) → map (route_from_json qt) (map (route_to_json qt) rs) ≡ rs
  routes_from_json-map [] = refl
  routes_from_json-map (r ∷ rs) = rw (route_from_json-to_json r, routes_from_json-map rs)

  -- A cleaned list of routes is clean.
  pub clean_routes_idem :
      (rs : List TargetSceneRoute) → clean_routes qt (clean_routes qt rs) ≡ clean_routes qt rs
  unfolding clean_routes trimmed_route
  clean_routes_idem [] = refl
  clean_routes_idem (r ∷ rs) =
      if_under (λ v. clean_routes qt v ≡ v)
        (is_empty (trimmed r.obs_scene_name) || is_empty (trimmed r.output_scene_name))
        (λ e. clean_routes_idem rs)
        λ e. rw (
          trimmed_idem r.obs_scene_name,
          trimmed_idem r.obs_scene_uuid,
          trimmed_idem r.output_scene_name,
          trimmed_idem r.output_scene_uuid,
          e,
          clean_routes_idem rs,
        )

  pub routes_from_json-to_json :
      (rs : List TargetSceneRoute)
      → routes_from_json qt (some (routes_to_json qt rs)) ≡ clean_routes qt rs
  unfolding routes_from_json routes_to_json
  routes_from_json-to_json rs =
      rw (objects-array_of, routes_from_json-map (clean_routes qt rs)) (clean_routes_idem rs)

  module _ (dbl : Doubles) (uuid : ℕ → String) where
    open dbl use {from_int, to_int-from_int}

    item_from_json-to_json :
        (n : ℕ) (item : VerticalLayoutItem)
        → item_from_json qt dbl uuid n (item_to_json dbl item) ≡ item
    unfolding item_from_json item_to_json value
    item_from_json-to_json n item = rw (fit_mode_from_string-to_string item.fit_mode)

    items_from_json-to_json :
        (n : ℕ) (items : List VerticalLayoutItem)
        → items_from_json qt dbl uuid n (map (item_to_json dbl) items) ≡ items
    unfolding items_from_json
    items_from_json-to_json n [] = refl
    items_from_json-to_json n (item ∷ items) =
        rw (item_from_json-to_json n item, items_from_json-to_json (suc n) items)

    pub vertical_layout_from_json-to_json :
        (n : ℕ) (layout : VerticalLayout)
        → IsInt layout.width
        → IsInt layout.height
        → vertical_layout_from_json qt dbl uuid n (vertical_layout_to_json dbl layout) ≡ layout
    unfolding vertical_layout_from_json vertical_layout_to_json layout_items value
    vertical_layout_from_json-to_json n layout w h = rw (
      to_int-from_int layout.width w,
      to_int-from_int layout.height h,
      objects-array_of,
      items_from_json-to_json n layout.items,
    )

    pub vertical_layout_scene_from_json-to_json :
        (n : ℕ) (scene : VerticalLayoutScene)
        → IsInt scene.layout.width
        → IsInt scene.layout.height
        → vertical_layout_scene_from_json qt dbl uuid n (vertical_layout_scene_to_json dbl scene)
          ≡ record scene { layout = normalize_loaded_vertical_layout dbl qt scene.layout }
    unfolding vertical_layout_scene_from_json vertical_layout_scene_to_json value
    vertical_layout_scene_from_json-to_json n scene w h =
        rw (vertical_layout_from_json-to_json (suc n) scene.layout w h)
