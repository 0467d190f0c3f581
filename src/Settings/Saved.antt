-- ===== src/Settings/Saved.antt =====
-- core/settings-store.cpp: what SettingsStore::save writes for a target, for the settings as a
-- whole, and which secrets it takes out of the targets for the credential store.
pub mod RoundTrip
use obs_dsk_multistream.Base.{
  ℕ, String, Bool, true, false, not, ◌&&◌, List, [], ◌∷◌, ◌++◌, map, ℤ, pos, if◌then◌else◌,
  is_empty, Qt,
}
use obs_dsk_multistream.Base.Doubles.{Doubles}
use obs_dsk_multistream.Target.{OutputTarget, stopped}
use obs_dsk_multistream.Target.Names.{
  encoder_group_to_string, target_auth_mode_to_string, target_scene_mode_to_string,
}
use obs_dsk_multistream.Manager.Save.{ensure_credential_refs}
use obs_dsk_multistream.Settings.{PluginSettings}
use obs_dsk_multistream.Settings.Json.{
  bool, number, string, array, object, Fields, no_fields, insert, insert_nonempty, array_of,
}
use obs_dsk_multistream.Settings.Codec.{
  clean_routes, routes_to_json, scene_link_to_json, vertical_layout_to_json,
  vertical_layout_scene_to_json,
}

-- A secret for the credential store, and the reference it is kept under.
pub record SecretWrite : Type 0 where
  pub credential_ref : String
  pub secret : String

abbrev pub secret_write : String → String → List SecretWrite
secret_write ref secret =
    if is_empty secret then [] else record { credential_ref = ref; secret = secret } ∷ []

-- The references are those that `ensure_credential_refs` also gives.
unfoldable pub secret_writes : List OutputTarget → List SecretWrite
secret_writes [] = []
secret_writes (target ∷ targets) =
    let t = ensure_credential_refs target in
    secret_write t.auth_credential_ref t.stream_key
    ++ (secret_write t.oauth_client_secret_ref t.oauth_client_secret
        ++ (secret_write t.oauth_refresh_token_ref t.oauth_refresh_token ++ secret_writes targets))

-- The target without its secrets, and with references to them.
unfoldable pub without_secrets : OutputTarget → OutputTarget
without_secrets target = record (ensure_credential_refs target) {
  stream_key = "";
  oauth_client_secret = "";
  oauth_refresh_token = "";
}

module _ (qt : Qt) (dbl : Doubles) where
  open dbl use {from_int}

  text_fields : OutputTarget → Fields
  text_fields t = insert "encoderGroup" (string (encoder_group_to_string t.encoder_group)) (
      insert "streamKey" (string t.stream_key) (
        insert "serverUrl" (string t.server_url) (
          insert "oauthRefreshToken" (string t.oauth_refresh_token) (
            insert "oauthClientSecret" (string t.oauth_client_secret) (
              insert_nonempty "oauthRefreshTokenRef" t.oauth_refresh_token_ref (
                insert_nonempty "oauthClientSecretRef" t.oauth_client_secret_ref (
                  insert_nonempty "oauthClientId" t.oauth_client_id (
                    insert_nonempty "authCredentialRef" t.auth_credential_ref (
                      insert_nonempty "authAccountName" t.auth_account_name (
                        insert "authMode" (string (target_auth_mode_to_string t.auth_mode)) (
                          insert "platformId" (string t.platform_id) (
                            insert "name" (string t.name)
                              (insert "id" (string t.id) no_fields)))))))))))))

  option_fields : OutputTarget → Fields → Fields
  option_fields t o = insert "keyframeSeconds" (number (from_int t.keyframe_seconds)) (
      insert "audioBitrateKbps" (number (from_int t.audio_bitrate_kbps)) (
        insert "videoBitrateKbps" (number (from_int t.video_bitrate_kbps)) (
          insert "reconnectDelaySeconds" (number (from_int t.reconnect_delay_seconds)) (
            insert "reconnectMaxRetries" (number (from_int t.reconnect_max_retries)) (
              insert "reconnectEnabled" (bool t.reconnect_enabled) (
                insert "autoStopWithObs" (bool t.auto_stop_with_obs) (
                  insert "autoStartWithObs" (bool t.auto_start_with_obs)
                    (insert "useSharedEncoder" (bool t.use_shared_encoder) o))))))))

  scene_fields : OutputTarget → Fields → Fields
  scene_fields t o = insert "startWithAll" (bool t.start_with_all) (
      insert "enabled" (bool t.enabled) (
        insert "sceneRoutes" (routes_to_json qt t.scene_routes) (
          insert "sceneUuid" (string t.scene_uuid) (
            insert "sceneName" (string t.scene_name) (
              insert "sceneMode" (string (target_scene_mode_to_string t.scene_mode)) (
                insert_nonempty "audioEncoderId" t.audio_encoder_id
                  (insert_nonempty "videoEncoderId" t.video_encoder_id o)))))))

  unfoldable pub saved_target : OutputTarget → Fields
  unfolding text_fields option_fields scene_fields
  saved_target target =
      let t = without_secrets target in scene_fields t (option_fields t (text_fields t))

  unfoldable pub saved_root : PluginSettings → Fields
  saved_root s = insert "sceneLinks" (array (array_of (map scene_link_to_json s.scene_links))) (
      insert "followObsScene" (bool s.follow_obs_scene) (
        insert "activeVerticalSceneId" (string s.active_vertical_scene_id) (
          insert "verticalScenes"
            (array (array_of (map (vertical_layout_scene_to_json dbl) s.vertical_scenes)))
            (insert "verticalLayout" (object (vertical_layout_to_json dbl s.vertical_layout)) (
              insert "targets" (array (array_of (map saved_target s.targets)))
                (insert "schemaVersion" (number (from_int (pos 1))) no_fields))))))

-- What a written target reads back as: without secrets but with references to them, with clean
-- routes, stopped, and without a last error.
unfoldable pub persisted_target : Qt → OutputTarget → OutputTarget
persisted_target qt target = record (without_secrets target) {
  scene_routes = clean_routes qt target.scene_routes;
  state = stopped;
  last_error = "";
}
