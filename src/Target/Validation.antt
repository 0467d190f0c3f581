-- ===== src/Target/Validation.antt =====
-- core/output-target.cpp: the check of a target's settings before it may start, the clearing of
-- OAuth data that the publisher manages, and the choice of targets for "Start All".
pub mod Accepted
use obs_dsk_multistream.Base.{
  String, Bool, true, false, not, ◌==◌, ◌&&◌, ◌||◌, Option, none, some, List, [], ◌∷◌, pos, leb_ℤ,
  ltb_ℤ, if◌then◌else◌, is_empty, Qt,
}
use obs_dsk_multistream.Target.{
  OutputTarget, TargetAuthMode, twitch_oauth, kick_oauth, is_horizontal, is_fixed_scene,
}
use obs_dsk_multistream.Target.Names.{platform_supports_auth_mode}

-- `validateOutputTargetConfig` returns false with a message, here `some message`; `none` is true.
module _ (qt : Qt) where
  open qt use {trimmed, to_lower, equal_ci, parse_url}

  url_scheme_ok : String → Bool
  url_scheme_ok server_url =
      let url = parse_url server_url in
      let scheme = to_lower url.scheme in url.valid && (scheme == "rtmp" || scheme == "rtmps")

  is_tiktok_placeholder : OutputTarget → String → Bool
  is_tiktok_placeholder target server_url =
      let url = parse_url server_url in
      target.platform_id == "tiktok"
      && equal_ci url.host "push.tiktokcdn.com"
      && equal_ci url.path "/live"

  reconnect_invalid : OutputTarget → Bool
  reconnect_invalid target =
      target.reconnect_enabled
      && (ltb_ℤ target.reconnect_max_retries (pos 0)
          || ltb_ℤ (pos 1000) target.reconnect_max_retries
          || leb_ℤ target.reconnect_delay_seconds (pos 0)
          || ltb_ℤ (pos 3600) target.reconnect_delay_seconds)

  encoder_invalid : OutputTarget → Bool
  encoder_invalid target =
      ltb_ℤ target.video_bitrate_kbps (pos 0)
      || ltb_ℤ (pos 200000) target.video_bitrate_kbps
      || ltb_ℤ target.audio_bitrate_kbps (pos 0)
      || ltb_ℤ (pos 2048) target.audio_bitrate_kbps
      || ltb_ℤ target.keyframe_seconds (pos 0)
      || ltb_ℤ (pos 20) target.keyframe_seconds

  scene_missing : OutputTarget → Bool
  scene_missing target =
      is_horizontal target.encoder_group
      && is_fixed_scene target.scene_mode
      && is_empty (trimmed target.scene_name)

  -- The checks that follow the URL's, in the source's order.
  validate_settings : OutputTarget → Option String
  validate_settings target =
      if is_empty (trimmed target.stream_key) && is_empty (trimmed target.auth_credential_ref)
      then some "Stream key is empty."
      else if reconnect_invalid target
      then some "Reconnect settings are invalid."
      else if encoder_invalid target
      then some "Encoder settings are outside the supported range."
      else if scene_missing target
      then some "Fixed scene mode needs an OBS scene."
      else none

  validate_url : OutputTarget → String → Option String
  validate_url target server_url =
      if is_empty server_url
      then some "Server URL is empty."
      else if not (url_scheme_ok server_url)
      then some "Server URL must start with rtmp:// or rtmps://."
      else if is_empty (trimmed (parse_url server_url).host)
      then some "Server URL must include a host name."
      else if is_tiktok_placeholder target server_url
      then some "TikTok needs the server URL shown in TikTok LIVE setup."
      else validate_settings target

  pub validate_output_target_config : OutputTarget → Bool → Option String
  validate_output_target_config target require_enabled =
      if require_enabled && not target.enabled
      then some "Target is disabled."
      else if not (platform_supports_auth_mode target.platform_id target.auth_mode)
      then some "Login mode does not match the selected platform."
      else validate_url target (trimmed target.server_url)

abbrev is_publisher_managed : TargetAuthMode → Bool
is_publisher_managed twitch_oauth = true
is_publisher_managed kick_oauth = true
is_publisher_managed _ = false

-- The target after the call, and whether it changed.
unfoldable pub migrate_publisher_managed_oauth_credentials : OutputTarget → OutputTarget × Bool
migrate_publisher_managed_oauth_credentials target =
    if is_publisher_managed target.auth_mode
    then (
      record target {
        oauth_client_id = "";
        oauth_client_secret = "";
        oauth_client_secret_ref = "";
        oauth_refresh_token = "";
        oauth_refresh_token_ref = "";
      },
      not (is_empty target.oauth_client_id)
          || not (is_empty target.oauth_client_secret)
          || not (is_empty target.oauth_client_secret_ref)
          || not (is_empty target.oauth_refresh_token)
          || not (is_empty target.oauth_refresh_token_ref),
    )
    else (target, false)

unfoldable pub start_all_target_ids : List OutputTarget → List String
start_all_target_ids [] = []
start_all_target_ids (target ∷ targets) =
    let rest = start_all_target_ids targets in
    if target.enabled && target.start_with_all then target.id ∷ rest else rest
