-- ===== src/Target/Validation/Accepted.antt =====
-- What an accepted target satisfies (core/output-target.cpp, validateOutputTargetConfig).
use obs_dsk_multistream.Base.{
  String, Bool, true, false, ◌≡◌, ◌&&◌, ◌⊎◌, ◌↔◌, none, pos, ◌≤ℤ◌, Qt, arith, eq_iff, is_empty, ◌≢◌,
  not,
}
use obs_dsk_multistream.Target.{OutputTarget, dsk_vertical, fixed_scene}
use obs_dsk_multistream.Target.Names.{platform_supports_auth_mode}
use obs_dsk_multistream.Target.Validation.{
  validate_output_target_config, validate_url, validate_settings, url_scheme_ok,
  is_tiktok_placeholder, reconnect_invalid, encoder_invalid, scene_missing,
}

-- An `rtmp` or `rtmps` URL with a host, which is not the placeholder of the TikTok preset.
pub record IsIngestUrl (qt : Qt) (platform_id url : String) : Type 0 where
  pub given : url ≢ ""
  pub valid : (qt.parse_url url).valid ≡ true
  pub scheme :
      (qt.to_lower (qt.parse_url url).scheme ≡ "rtmp")
      ⊎ (qt.to_lower (qt.parse_url url).scheme ≡ "rtmps")
  pub host_given : qt.trimmed (qt.parse_url url).host ≢ ""
  pub not_placeholder :
      (platform_id ≢ "tiktok")
      ⊎ (qt.equal_ci (qt.parse_url url).host "push.tiktokcdn.com" ≡ false)
      ⊎ (qt.equal_ci (qt.parse_url url).path "/live" ≡ false)

-- Settings within the supported ranges.
pub record IsInRange (target : OutputTarget) : Type 0 where
  pub reconnect :
      (target.reconnect_enabled ≡ false)
      ⊎ ((◌≤ℤ◌ (pos 0) target.reconnect_max_retries)
          × (◌≤ℤ◌ target.reconnect_max_retries (pos 1000))
          × (◌≤ℤ◌ (pos 1) target.reconnect_delay_seconds)
          × (◌≤ℤ◌ target.reconnect_delay_seconds (pos 3600)))
  pub video :
      (◌≤ℤ◌ (pos 0) target.video_bitrate_kbps) × (◌≤ℤ◌ target.video_bitrate_kbps (pos 200000))
  pub audio : (◌≤ℤ◌ (pos 0) target.audio_bitrate_kbps) × (◌≤ℤ◌ target.audio_bitrate_kbps (pos 2048))
  pub keyframe : (◌≤ℤ◌ (pos 0) target.keyframe_seconds) × (◌≤ℤ◌ target.keyframe_seconds (pos 20))

-- The settings that a streaming output needs, said without the order of the checks.
pub record IsStartable (qt : Qt) (target : OutputTarget) (require_enabled : Bool) : Type 0 where
  pub switched_on : (require_enabled ≡ false) ⊎ (target.enabled ≡ true)
  pub mode_fits : platform_supports_auth_mode target.platform_id target.auth_mode ≡ true
  pub ingest : IsIngestUrl qt target.platform_id (qt.trimmed target.server_url)
  pub key_given : (qt.trimmed target.stream_key ≢ "") ⊎ (qt.trimmed target.auth_credential_ref ≢ "")
  pub in_range : IsInRange target
  pub scene_given :
      (target.encoder_group ≡ dsk_vertical)
      ⊎ (target.scene_mode ≢ fixed_scene)
      ⊎ (qt.trimmed target.scene_name ≢ "")

module _ (qt : Qt) (target : OutputTarget) where
  ranges_iff :
      ((reconnect_invalid qt target ≡ false) × (encoder_invalid qt target ≡ false))
      ↔ IsInRange target
  unfolding reconnect_invalid encoder_invalid
  ranges_iff = (
    λ h. record {
      reconnect = ground arith;
      video = ground arith;
      audio = ground arith;
      keyframe = ground arith;
    },
    λ r. (ground arith, ground arith),
  )

  url_iff :
      (url : String)
      → ((is_empty url ≡ false)
          × (url_scheme_ok qt url ≡ true)
          × (is_empty (qt.trimmed (qt.parse_url url).host) ≡ false)
          × (is_tiktok_placeholder qt target url ≡ false))
        ↔ IsIngestUrl qt target.platform_id url
  unfolding url_scheme_ok is_tiktok_placeholder
  url_iff url =
      let scheme = qt.to_lower (qt.parse_url url).scheme in
      let host = qt.trimmed (qt.parse_url url).host in
      (
        λ h. record {
          given = ground (arith, eq_iff url "");
          valid = ground arith;
          scheme = ground (arith, eq_iff scheme "rtmp", eq_iff scheme "rtmps");
          host_given = ground (arith, eq_iff host "");
          not_placeholder = ground (arith, eq_iff target.platform_id "tiktok");
        },
        λ r. (
          ground (arith, eq_iff url ""),
          ground (arith, eq_iff scheme "rtmp", eq_iff scheme "rtmps"),
          ground (arith, eq_iff host ""),
          ground (arith, eq_iff target.platform_id "tiktok"),
        ),
      )

  checks_iff :
      (r : Bool)
      → let url = qt.trimmed target.server_url in
        (validate_output_target_config qt target r ≡ none) ↔ (
          ((r && not target.enabled) ≡ false)
          × (platform_supports_auth_mode target.platform_id target.auth_mode ≡ true)
          × ((is_empty url ≡ false)
              × (url_scheme_ok qt url ≡ true)
              × (is_empty (qt.trimmed (qt.parse_url url).host) ≡ false)
              × (is_tiktok_placeholder qt target url ≡ false))
          × ((is_empty (qt.trimmed target.stream_key)
                && is_empty (qt.trimmed target.auth_credential_ref))
              ≡ false)
          × ((reconnect_invalid qt target ≡ false) × (encoder_invalid qt target ≡ false))
          × (scene_missing qt target ≡ false))
  unfolding validate_output_target_config validate_url validate_settings
  checks_iff r = (
    λ h. (ground arith, ground arith, ground arith, ground arith, ground arith, ground arith),
    λ h. ground arith,
  )

  scene_iff : (scene_missing qt target ≡ false) ↔ (
      (target.encoder_group ≡ dsk_vertical)
      ⊎ (target.scene_mode ≢ fixed_scene)
      ⊎ (qt.trimmed target.scene_name ≢ ""))
  unfolding scene_missing
  scene_iff = (
    λ h. ground (arith, eq_iff (qt.trimmed target.scene_name) ""),
    λ h. ground (arith, eq_iff (qt.trimmed target.scene_name) ""),
  )

  -- `validateOutputTargetConfig` accepts a target exactly when it is startable: switched on if that
  -- is required, with a login mode of its platform, an rtmp or rtmps URL with a host that is not the
  -- TikTok placeholder, a stream key or a reference to one, numbers in range, and a scene name where
  -- the scene is fixed.
  pub validate_output_target_config_iff :
      (r : Bool) → (validate_output_target_config qt target r ≡ none) ↔ IsStartable qt target r
  validate_output_target_config_iff r = (
    λ h.
        let c = (checks_iff r).0 h in
        record {
          switched_on = ground arith;
          mode_fits = c.1;
          ingest = (url_iff (qt.trimmed target.server_url)).0 c.2;
          key_given = ground (
            arith,
            eq_iff (qt.trimmed target.stream_key) "",
            eq_iff (qt.trimmed target.auth_credential_ref) "",
          );
          in_range = ranges_iff.0 c.4;
          scene_given = scene_iff.0 c.5;
        },
    λ s. (checks_iff r).1 (
      (ground arith),
      s.mode_fits,
      (url_iff (qt.trimmed target.server_url)).1 s.ingest,
      (ground (
        arith,
        eq_iff (qt.trimmed target.stream_key) "",
        eq_iff (qt.trimmed target.auth_credential_ref) "",
      )),
      ranges_iff.1 s.in_range,
      scene_iff.1 s.scene_given,
    ),
  )
