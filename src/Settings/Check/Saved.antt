-- ===== src/Settings/Check/Saved.antt =====
-- core/settings-store.cpp: the checks of a document that SettingsStore::save wrote.
use obs_dsk_multistream.Base.{
  String, ◌≡◌, refl, false, Option, none, some, List, [], ◌∷◌, map, All, pos, if◌then◌else◌,
  is_empty, Qt, arith,
}
use obs_dsk_multistream.Base.Doubles.{Doubles, IsInt}
use obs_dsk_multistream.Target.{OutputTarget, TargetSceneRoute}
use obs_dsk_multistream.Layout.{VerticalLayout, VerticalLayoutItem, VerticalLayoutScene}
use obs_dsk_multistream.Manager.Save.{ensure_credential_refs}
use obs_dsk_multistream.Settings.{PluginSettings, SceneLayoutLink}
use obs_dsk_multistream.Settings.Json.{
  value, value-insert_nonempty, objects-array_of, array_of, Fields, string, string_kind,
}
use obs_dsk_multistream.Settings.Codec.{
  clean_routes, route_to_json, routes_to_json, item_to_json, vertical_layout_to_json,
  vertical_layout_scene_to_json, scene_link_to_json,
}
use obs_dsk_multistream.Settings.Saved.{saved_target, saved_root, without_secrets}
use obs_dsk_multistream.Settings.Saved.RoundTrip.{HasInts, HasIntSize, IsStorable}
use obs_dsk_multistream.Settings.Check.{
  is_not, has_wrong_type, has_non_object, first_error, has_non_integer_number, item_error,
  items_error, validate_layout_object, route_error, target_error, scene_error, link_error,
  schema_error, read_root, accepted, checked, numbered,
}

has_non_object-array_of : (os : List Fields) → has_non_object (array_of os) ≡ false
unfolding has_non_object array_of
has_non_object-array_of [] = refl
has_non_object-array_of (o ∷ os) = has_non_object-array_of os

pub first_error-map {ℓ κ} :
    {A : Type ℓ} {P : A → Type κ} (f : Fields → Option String) (write : A → Fields)
    → ((a : A) → P a → f (write a) ≡ none)
    → (xs : List A) → All P xs
    → first_error f (map write xs) ≡ none
first_error-map f write h [] p = refl
first_error-map f write h (a ∷ xs) p = rw (h a p.0) (first_error-map f write h xs p.1)

-- An optional text is no value of another kind.
is_not-if : (s : String) → is_not string_kind (if is_empty s then none else some (string s)) ≡ false
is_not-if s = ground arith

pub first_error-each {ℓ} :
    {A : Type ℓ} (f : Fields → Option String) (write : A → Fields)
    → ((a : A) → f (write a) ≡ none)
    → (xs : List A) → first_error f (map write xs) ≡ none
first_error-each f write h [] = refl
first_error-each f write h (a ∷ xs) = rw (h a) (first_error-each f write h xs)

items_error-to_json :
    (dbl : Doubles) (items : List VerticalLayoutItem)
    → items_error (array_of (map (item_to_json dbl) items)) ≡ none
unfolding items_error array_of item_to_json item_error value has_wrong_type
items_error-to_json dbl [] = refl
items_error-to_json dbl (item ∷ items) = items_error-to_json dbl items

link_error-to_json : (link : SceneLayoutLink) → link_error (scene_link_to_json link) ≡ none
unfolding link_error scene_link_to_json value has_wrong_type
link_error-to_json link = refl

route_error-to_json : (qt : Qt) (r : TargetSceneRoute) → route_error (route_to_json qt r) ≡ none
unfolding route_error route_to_json value has_wrong_type
route_error-to_json qt r = refl

one_IsInt : IsInt (pos 1)
one_IsInt = (omega arith, omega arith)

module _ (dbl : Doubles) where
  open dbl use {from_int, is_integer-from_int, less-from_int}

  pub validate_layout_object-to_json :
      (layout : VerticalLayout)
      → HasIntSize layout
      → validate_layout_object dbl (vertical_layout_to_json dbl layout) ≡ none
  unfolding validate_layout_object vertical_layout_to_json value has_wrong_type
      has_non_integer_number
  validate_layout_object-to_json layout h = rw (
    is_integer-from_int layout.width h.0,
    is_integer-from_int layout.height h.1,
    items_error-to_json dbl layout.items,
  )

  scene_error-to_json :
      (scene : VerticalLayoutScene)
      → HasIntSize scene.layout
      → scene_error dbl (vertical_layout_scene_to_json dbl scene) ≡ none
  unfolding scene_error vertical_layout_scene_to_json value has_wrong_type
  scene_error-to_json scene i = validate_layout_object-to_json scene.layout i

  module _ (qt : Qt) where
    target_error-saved_target :
        (t : OutputTarget) → HasInts t → target_error dbl (saved_target qt dbl t) ≡ none
    unfolding target_error saved_target value has_wrong_type has_non_integer_number routes_to_json
        without_secrets ensure_credential_refs
    target_error-saved_target t h =
        simp
          (
            value-insert_nonempty,
            is_not-if,
            is_integer-from_int t.reconnect_max_retries h.retries,
            is_integer-from_int t.reconnect_delay_seconds h.delay,
            is_integer-from_int t.video_bitrate_kbps h.video,
            is_integer-from_int t.audio_bitrate_kbps h.audio,
            is_integer-from_int t.keyframe_seconds h.keyframe,
            has_non_object-array_of,
            objects-array_of,
          )
          (first_error-each route_error (route_to_json qt) (route_error-to_json qt)
            (clean_routes qt t.scene_routes))

    schema_error-saved_root :
        (s : PluginSettings) → IsStorable s → schema_error dbl (saved_root qt dbl s) ≡ none
    unfolding saved_root value schema_error has_wrong_type
    schema_error-saved_root s h = simp (
      has_non_object-array_of,
      objects-array_of,
      validate_layout_object-to_json s.vertical_layout h.layout,
      first_error-map (target_error dbl) (saved_target qt dbl) target_error-saved_target s.targets
          h.targets,
      first_error-map (scene_error dbl) (vertical_layout_scene_to_json dbl) scene_error-to_json
          s.vertical_scenes h.scenes,
      first_error-each link_error scene_link_to_json link_error-to_json s.scene_links,
    )

    numbered-saved :
        (root : Fields)
        → schema_error dbl root ≡ none
        → numbered dbl (from_int (pos 1)) root ≡ accepted
    unfolding numbered checked
    numbered-saved root h =
        rw
          (
            less-from_int (pos 1) (pos 1) one_IsInt one_IsInt,
            is_integer-from_int (pos 1) one_IsInt,
            checked,
            h,
          )
          refl

    -- A document that was saved passes every check.
    pub read_root-saved_root :
        (s : PluginSettings) → IsStorable s → read_root dbl (saved_root qt dbl s) ≡ accepted
    unfolding read_root saved_root value
    read_root-saved_root s h = numbered-saved (saved_root qt dbl s) (schema_error-saved_root s h)
