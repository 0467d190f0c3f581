-- ===== src/Settings/Codec.antt =====
-- core/settings-codec.cpp: targets, layouts, vertical scenes and scene links to and from JSON.
-- `uuid n` is the n-th identifier that newTargetId gives out; the functions that read JSON take the
-- number of identifiers given out before.
pub mod Laws
use obs_dsk_multistream.Base.{
  ℕ, zero, suc, ◌+◌, String, Bool, true, false, ◌||◌, Option, none, some, List, [], ◌∷◌, map, ℤ,
  pos, if◌then◌else◌, is_empty, length, Qt,
}
use obs_dsk_multistream.Base.Doubles.{Doubles}
use obs_dsk_multistream.Target.{OutputTarget, TargetSceneRoute, default_target, stopped}
use obs_dsk_multistream.Target.Names.{
  encoder_group_to_string, encoder_group_from_string, target_auth_mode_to_string,
  target_auth_mode_from_string, target_scene_mode_to_string, target_scene_mode_from_string,
}
use obs_dsk_multistream.Layout.{Rect, VerticalLayout, VerticalLayoutItem, VerticalLayoutScene}
use obs_dsk_multistream.Layout.Geometry.{
  fit_mode_to_string, fit_mode_from_string, normalize_loaded_vertical_layout,
}
use obs_dsk_multistream.Settings.{SceneLayoutLink}
use obs_dsk_multistream.Settings.Json.{
  Json, bool, number, string, array, object, Values, Fields, no_fields, insert, value, to_string,
  to_bool, to_array, to_object, to_double, to_integer, objects, array_of,
}

abbrev pub text : String → Fields → String
text key o = to_string "" (value key o)

unfoldable pub layout_items : Fields → List Fields
layout_items o = objects (to_array (value "items" o))

unfoldable pub scene_link_from_json : Fields → SceneLayoutLink
unfolding value
scene_link_from_json o = record {
  scene_name = text "sceneName" o;
  scene_uuid = text "sceneUuid" o;
  vertical_scene_id = text "verticalSceneId" o;
  legacy_template_id = text "templateId" o;
}

unfoldable pub scene_link_to_json : SceneLayoutLink → Fields
scene_link_to_json link = insert "verticalSceneId" (string link.vertical_scene_id) (
    insert "sceneUuid" (string link.scene_uuid)
      (insert "sceneName" (string link.scene_name) no_fields))

module _ (qt : Qt) where
  open qt use {trimmed}

  trimmed_route : TargetSceneRoute → TargetSceneRoute
  trimmed_route route = record {
    obs_scene_name = trimmed route.obs_scene_name;
    obs_scene_uuid = trimmed route.obs_scene_uuid;
    output_scene_name = trimmed route.output_scene_name;
    output_scene_uuid = trimmed route.output_scene_uuid;
  }

  -- The routes whose trimmed names are not empty, trimmed.
  unfoldable pub clean_routes : List TargetSceneRoute → List TargetSceneRoute
  unfolding trimmed_route
  clean_routes [] = []
  clean_routes (route ∷ routes) =
      let rest = clean_routes routes in
      if is_empty (trimmed route.obs_scene_name) || is_empty (trimmed route.output_scene_name)
      then rest
      else trimmed_route route ∷ rest

  unfoldable pub route_from_json : Fields → TargetSceneRoute
  route_from_json o = record {
    obs_scene_name = text "obsSceneName" o;
    obs_scene_uuid = text "obsSceneUuid" o;
    output_scene_name = text "outputSceneName" o;
    output_scene_uuid = text "outputSceneUuid" o;
  }

  unfoldable pub route_to_json : TargetSceneRoute → Fields
  route_to_json route = insert "outputSceneUuid" (string route.output_scene_uuid) (
      insert "outputSceneName" (string route.output_scene_name) (
        insert "obsSceneUuid" (string route.obs_scene_uuid)
          (insert "obsSceneName" (string route.obs_scene_name) no_fields)))

  unfoldable pub routes_to_json : List TargetSceneRoute → Json
  routes_to_json routes = array (array_of (map route_to_json (clean_routes routes)))

  unfoldable pub routes_from_json : Option Json → List TargetSceneRoute
  routes_from_json v = clean_routes (map route_from_json (objects (to_array v)))

  module _ (dbl : Doubles) (uuid : ℕ → String) where
    open dbl use {from_int}

    int_at : ℤ → String → Fields → ℤ
    int_at default key o = to_integer dbl default (value key o)

    -- outputTargetFromJsonInto on a new target
    unfoldable pub output_target_from_json : ℕ → Fields → OutputTarget
    unfolding int_at
    output_target_from_json n o = record {
      id = to_string (uuid n) (value "id" o);
      name = to_string "Untitled" (value "name" o);
      platform_id = to_string "custom" (value "platformId" o);
      auth_mode = target_auth_mode_from_string (to_string "manual-rtmp" (value "authMode" o));
      auth_account_name = text "authAccountName" o;
      auth_credential_ref = text "authCredentialRef" o;
      oauth_client_id = text "oauthClientId" o;
      oauth_client_secret = text "oauthClientSecret" o;
      oauth_client_secret_ref = text "oauthClientSecretRef" o;
      oauth_refresh_token = text "oauthRefreshToken" o;
      oauth_refresh_token_ref = text "oauthRefreshTokenRef" o;
      server_url = text "serverUrl" o;
      stream_key = text "streamKey" o;
      encoder_group =
          encoder_group_from_string (to_string "dsk-horizontal" (value "encoderGroup" o));
      use_shared_encoder = to_bool true (value "useSharedEncoder" o);
      auto_start_with_obs = to_bool false (value "autoStartWithObs" o);
      auto_stop_with_obs = to_bool true (value "autoStopWithObs" o);
      reconnect_enabled = to_bool true (value "reconnectEnabled" o);
      reconnect_max_retries = int_at (pos 20) "reconnectMaxRetries" o;
      reconnect_delay_seconds = int_at (pos 2) "reconnectDelaySeconds" o;
      video_bitrate_kbps = int_at (pos 0) "videoBitrateKbps" o;
      audio_bitrate_kbps = int_at (pos 0) "audioBitrateKbps" o;
      keyframe_seconds = int_at (pos 2) "keyframeSeconds" o;
      video_encoder_id = text "videoEncoderId" o;
      audio_encoder_id = text "audioEncoderId" o;
      scene_mode = target_scene_mode_from_string (to_string "follow-obs" (value "sceneMode" o));
      scene_name = text "sceneName" o;
      scene_uuid = text "sceneUuid" o;
      scene_routes = routes_from_json (value "sceneRoutes" o);
      enabled = to_bool true (value "enabled" o);
      start_with_all = to_bool true (value "startWithAll" o);
      state = stopped;
      last_error = "";
    }

    double_at : ℕ → String → Fields → ℕ
    double_at default key o = to_double default (value key o)

    unfoldable pub item_from_json : ℕ → Fields → VerticalLayoutItem
    unfolding double_at
    item_from_json n o =
        let rect = to_object (value "rect" o) in
        let crop = to_object (value "crop" o) in
        record {
          id = to_string (uuid n) (value "id" o);
          source_name = text "sourceName" o;
          rect = record {
            x = double_at (from_int (pos 0)) "x" rect;
            y = double_at (from_int (pos 0)) "y" rect;
            width = double_at (from_int (pos 1080)) "w" rect;
            height = double_at (from_int (pos 1920)) "h" rect;
          };
          crop = record {
            x = double_at (from_int (pos 0)) "left" crop;
            y = double_at (from_int (pos 0)) "top" crop;
            width = double_at (from_int (pos 0)) "right" crop;
            height = double_at (from_int (pos 0)) "bottom" crop;
          };
          fit_mode = fit_mode_from_string (to_string "fill" (value "fitMode" o));
          visible = to_bool true (value "visible" o);
        }

    unfoldable pub items_from_json : ℕ → List Fields → List VerticalLayoutItem
    items_from_json n [] = []
    items_from_json n (o ∷ os) = item_from_json n o ∷ items_from_json (suc n) os

    unfoldable pub vertical_layout_from_json : ℕ → Fields → VerticalLayout
    unfolding int_at
    vertical_layout_from_json n o = record {
      width = int_at (pos 1080) "width" o;
      height = int_at (pos 1920) "height" o;
      template_id = to_string "full-screen" (value "templateId" o);
      items = items_from_json n (layout_items o);
    }

    unfoldable pub vertical_layout_scene_from_json : ℕ → Fields → VerticalLayoutScene
    vertical_layout_scene_from_json n o = record {
      id = to_string (uuid n) (value "id" o);
      name = to_string "Vertical Scene" (value "name" o);
      layout =
          normalize_loaded_vertical_layout dbl qt
            (vertical_layout_from_json (suc n) (to_object (value "layout" o)));
    }

module _ (dbl : Doubles) where
  open dbl use {from_int}

  unfoldable pub item_to_json : VerticalLayoutItem → Fields
  item_to_json item =
      let rect = insert "h" (number item.rect.height) (
        insert "w" (number item.rect.width)
          (insert "y" (number item.rect.y) (insert "x" (number item.rect.x) no_fields))) in
      let crop = insert "bottom" (number item.crop.height) (
        insert "right" (number item.crop.width)
          (insert "top" (number item.crop.y) (insert "left" (number item.crop.x) no_fields))) in
      insert "visible" (bool item.visible) (
        insert "fitMode" (string (fit_mode_to_string item.fit_mode)) (
          insert "crop" (object crop) (
            insert "rect" (object rect) (
              insert "sourceName" (string item.source_name)
                (insert "id" (string item.id) no_fields)))))

  unfoldable pub vertical_layout_to_json : VerticalLayout → Fields
  vertical_layout_to_json layout =
      insert "items" (array (array_of (map item_to_json layout.items))) (
        insert "templateId" (string layout.template_id) (
          insert "height" (number (from_int layout.height))
            (insert "width" (number (from_int layout.width)) no_fields)))

  unfoldable pub vertical_layout_scene_to_json : VerticalLayoutScene → Fields
  vertical_layout_scene_to_json scene =
      insert "layout" (object (vertical_layout_to_json scene.layout))
        (insert "name" (string scene.name) (insert "id" (string scene.id) no_fields))
