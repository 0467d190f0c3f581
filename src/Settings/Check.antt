-- ===== src/Settings/Check.antt =====
-- core/settings-store.cpp: the checks that SettingsStore::load makes on a document before it takes
-- settings from it.
pub mod Saved
use obs_dsk_multistream.Base.{
  ℕ, String, Bool, true, false, not, ◌||◌, Option, none, some, List, [], ◌∷◌, pos, if◌then◌else◌,
}
use obs_dsk_multistream.Base.Doubles.{Doubles}
use obs_dsk_multistream.Settings.Json.{
  Json, number, object, Values, no_values, push, Fields, value, Kind, bool_kind, double_kind,
  string_kind, array_kind, object_kind, kind, is_kind, to_array, to_object, objects,
}

abbrev is_not : Kind → Option Json → Bool
is_not k none = false
is_not k (some v) = not (is_kind (kind v) k)

unfoldable pub has_wrong_type : Fields → Kind → List String → Bool
has_wrong_type o k [] = false
has_wrong_type o k (key ∷ keys) = is_not k (value key o) || has_wrong_type o k keys

unfoldable pub has_non_object : Values → Bool
has_non_object no_values = false
has_non_object (push (object o) vs) = has_non_object vs
has_non_object (push _ vs) = true

-- The first of two errors.
abbrev pub or_error : Option String → Option String → Option String
or_error none e = e
or_error (some error) e = some error

abbrev pub error_if : Bool → String → Option String
error_if test error = if test then some error else none

-- The first error of a list's elements.
abbrev pub first_error {ℓ} : {A : Type ℓ} → (A → Option String) → List A → Option String
first_error f [] = none
first_error f (x ∷ xs) = or_error (f x) (first_error f xs)

-- What load makes of a document's root.
pub data Reading : Type 0 where
  invalid : String → Reading
  newer : Reading
  accepted : Reading

geometry_error : List String → Fields → Option String
geometry_error keys o =
    error_if (has_wrong_type o double_kind keys) "vertical layout geometry has invalid types"

unfoldable pub item_error : Fields → Option String
unfolding geometry_error
item_error item =
    or_error
      (error_if
        (has_wrong_type item string_kind ("id" ∷ "sourceName" ∷ "fitMode" ∷ [])
          || has_wrong_type item bool_kind ("visible" ∷ [])
          || has_wrong_type item object_kind ("rect" ∷ "crop" ∷ []))
        "vertical layout item fields have invalid types")
      (or_error (geometry_error ("x" ∷ "y" ∷ "w" ∷ "h" ∷ []) (to_object (value "rect" item)))
        (geometry_error ("left" ∷ "top" ∷ "right" ∷ "bottom" ∷ []) (to_object (value "crop" item))))

unfoldable pub items_error : Values → Option String
items_error no_values = none
items_error (push (object item) vs) = or_error (item_error item) (items_error vs)
items_error (push _ vs) = some "vertical layout items contain a non-object value"

route_error : Fields → Option String
route_error route =
    error_if
      (has_wrong_type route string_kind
        ("obsSceneName" ∷ "obsSceneUuid" ∷ "outputSceneName" ∷ "outputSceneUuid" ∷ []))
      "target scene route fields have invalid types"

unfoldable pub link_error : Fields → Option String
link_error link =
    error_if
      (has_wrong_type link string_kind
        ("sceneName" ∷ "sceneUuid" ∷ "verticalSceneId" ∷ "templateId" ∷ []))
      "scene link fields have invalid types"

module _ (dbl : Doubles) where
  open dbl use {from_int, is_integer, less}

  abbrev is_no_integer : Option Json → Bool
  is_no_integer none = false
  is_no_integer (some (number d)) = not (is_integer d)
  is_no_integer (some _) = true

  unfoldable pub has_non_integer_number : Fields → List String → Bool
  has_non_integer_number o [] = false
  has_non_integer_number o (key ∷ keys) =
      is_no_integer (value key o) || has_non_integer_number o keys

  unfoldable pub validate_layout_object : Fields → Option String
  validate_layout_object layout =
      or_error
        (error_if
          (has_non_integer_number layout ("width" ∷ "height" ∷ [])
            || has_wrong_type layout string_kind ("templateId" ∷ []))
          "vertical layout fields have invalid types")
        (or_error
          (error_if (has_wrong_type layout array_kind ("items" ∷ []))
            "vertical layout items are not an array")
          (items_error (to_array (value "items" layout))))

  unfoldable pub target_error : Fields → Option String
  unfolding route_error
  target_error target =
      or_error
        (error_if
          (has_wrong_type target string_kind (
              "id" ∷ "name" ∷ "platformId" ∷ "authMode" ∷ "authAccountName" ∷ "authCredentialRef"
              ∷ "oauthClientId" ∷ "oauthClientSecret" ∷ "oauthClientSecretRef" ∷ "oauthRefreshToken"
              ∷ "oauthRefreshTokenRef" ∷ "serverUrl" ∷ "streamKey" ∷ "encoderGroup"
              ∷ "videoEncoderId" ∷ "audioEncoderId" ∷ "sceneMode" ∷ "sceneName" ∷ "sceneUuid" ∷ [])
            || has_wrong_type target bool_kind (
                "useSharedEncoder" ∷ "autoStartWithObs" ∷ "autoStopWithObs" ∷ "reconnectEnabled"
                ∷ "enabled" ∷ "startWithAll" ∷ [])
            || has_non_integer_number target (
                "reconnectMaxRetries" ∷ "reconnectDelaySeconds" ∷ "videoBitrateKbps"
                ∷ "audioBitrateKbps" ∷ "keyframeSeconds" ∷ []))
          "target fields have invalid types")
        (or_error
          (error_if
            (has_wrong_type target array_kind ("sceneRoutes" ∷ [])
              || has_non_object (to_array (value "sceneRoutes" target)))
            "target scene routes are invalid")
          (first_error route_error (objects (to_array (value "sceneRoutes" target)))))

  unfoldable pub scene_error : Fields → Option String
  scene_error scene =
      or_error
        (error_if (has_wrong_type scene string_kind ("id" ∷ "name" ∷ []))
          "vertical scene fields have invalid types")
        (elim (value "layout" scene) [
          | some (object layout) ↦ validate_layout_object layout
          | _ ↦ some "vertical scene layout is invalid"
        ])

  -- The errors of a document of schema 1, the first of them.
  unfoldable pub schema_error : Fields → Option String
  schema_error root =
      let targets = to_array (value "targets" root) in
      let scenes = to_array (value "verticalScenes" root) in
      let links = to_array (value "sceneLinks" root) in
      or_error
        (error_if
          (has_wrong_type root array_kind ("targets" ∷ "verticalScenes" ∷ "sceneLinks" ∷ [])
            || has_wrong_type root object_kind ("verticalLayout" ∷ [])
            || has_wrong_type root string_kind ("activeVerticalSceneId" ∷ [])
            || has_wrong_type root bool_kind ("followObsScene" ∷ []))
          "schema 1 field types are invalid")
        (or_error
          (error_if (has_non_object targets || has_non_object scenes || has_non_object links)
            "schema 1 arrays contain non-object values")
          (or_error (validate_layout_object (to_object (value "verticalLayout" root))) (
            or_error (first_error target_error (objects targets)) (
              or_error (first_error scene_error (objects scenes))
                (first_error link_error (objects links))))))

  checked : Fields → Reading
  checked root = elim (schema_error root) [ none ↦ accepted | some error ↦ invalid error ]

  numbered : ℕ → Fields → Reading
  numbered schema root =
      if less schema (from_int (pos 1)) || not (is_integer schema)
      then invalid "schemaVersion is not a positive integer"
      else if less (from_int (pos 1)) schema
      then newer
      else checked root

  unfoldable pub read_root : Fields → Reading
  unfolding numbered checked
  read_root root = elim (value "schemaVersion" root) [
    | none ↦ numbered (from_int (pos 1)) root
    | some (number schema) ↦ numbered schema root
    | some _ ↦ invalid "schemaVersion is not a number"
  ]
