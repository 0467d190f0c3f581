-- ===== src/YouTube/Warning.antt =====
-- core/youtube-api-warning.hpp, and the platform state that a warning stands for
-- (platformStateForYouTubeApiWarningText of core/output-runtime-status.hpp).
use obs_dsk_multistream.Base.{String, Bool, ◌&&◌, ◌||◌, starts_with, if◌then◌else◌, Qt}
use obs_dsk_multistream.Target.{OutputTarget, live, is_state}
use obs_dsk_multistream.Runtime.{
  PlatformLiveState, auth_expired, quota_blocked, multiple_broadcasts, broadcast_mismatch,
  needs_manual_start,
}

unfoldable pub is_youtube_api_warning_text : String → Bool
is_youtube_api_warning_text message =
    starts_with message "YouTube API start "
    || starts_with message "YouTube token refresh "
    || starts_with message "YouTube broadcast lookup "
    || starts_with message "YouTube stream status lookup "
    || starts_with message "YouTube broadcast start "
    || starts_with message "YouTube broadcast testing "
    || starts_with message "YouTube broadcast live "

module _ (qt : Qt) where
  open qt use {trimmed, equal_ci, contains_ci}

  unfoldable pub is_youtube_target : OutputTarget → Bool
  is_youtube_target target = equal_ci target.platform_id "youtube"

  unfoldable pub target_has_youtube_api_warning : OutputTarget → Bool
  unfolding is_youtube_target is_youtube_api_warning_text
  target_has_youtube_api_warning target =
      is_youtube_target target && is_youtube_api_warning_text (trimmed target.last_error)

  unfoldable pub target_has_live_youtube_api_warning : OutputTarget → Bool
  unfolding target_has_youtube_api_warning
  target_has_live_youtube_api_warning target =
      is_state target.state live && target_has_youtube_api_warning target

  unfoldable pub target_has_expired_youtube_login_warning : OutputTarget → Bool
  unfolding target_has_youtube_api_warning
  target_has_expired_youtube_login_warning target =
      let error = trimmed target.last_error in
      target_has_youtube_api_warning target
      && starts_with error "YouTube token refresh failed"
      && contains_ci error "invalid_grant"

  unfoldable pub user_facing_youtube_api_warning_text : String → String
  user_facing_youtube_api_warning_text message =
      if starts_with message "YouTube token refresh failed"
      then if contains_ci message "invalid_grant"
        then "YouTube is receiving RTMP but remains in preparation. Reconnect YouTube login or press Go Live in YouTube Studio."
        else "YouTube RTMP is connected. YouTube login could not be refreshed."
      else if contains_ci message "quota"
      then "YouTube RTMP is connected. YouTube API quota is exhausted, so use YouTube Studio auto-start/manual start."
      else if starts_with message "YouTube API start failed"
      then "YouTube RTMP is connected. DSK could not confirm the YouTube broadcast became live."
      else if starts_with message "YouTube broadcast lookup blocked"
      then "YouTube RTMP is connected. Too many scheduled broadcasts were returned; remove old scheduled broadcasts and retry."
      else if starts_with message "YouTube broadcast lookup found no broadcasts"
      then "YouTube RTMP is connected. No active YouTube broadcast was found for API start."
      else if starts_with message "YouTube broadcast lookup found no bound stream"
      then "YouTube RTMP is connected. No bound YouTube stream was found for API start."
      else if starts_with message "YouTube broadcast start blocked: no active broadcast matched"
      then "YouTube RTMP is connected. The active YouTube broadcast did not match this stream key."
      else if starts_with message "YouTube broadcast start blocked: selected broadcast"
      then "YouTube RTMP is connected. The selected broadcast is no longer available; choose another in DSK Streaming."
      else if starts_with message "YouTube broadcast start blocked: multiple active broadcasts"
      then "YouTube RTMP is connected. Multiple YouTube broadcasts are active; choose one in DSK Streaming."
      else "YouTube RTMP is connected. YouTube API start needs attention."

  unfoldable pub live_youtube_api_warning_row_text : String → String
  live_youtube_api_warning_row_text message =
      if starts_with message "YouTube token refresh failed"
      then if contains_ci message "invalid_grant"
        then "RTMP only - login expired"
        else "Live - YouTube login warning"
      else if contains_ci message "quota"
      then "Live - YouTube API quota warning"
      else if starts_with message "YouTube API start failed"
      then "Live signal - API did not confirm live"
      else if starts_with message "YouTube broadcast lookup blocked"
      then "Live signal - broadcast list too large"
      else if starts_with message "YouTube broadcast lookup found no broadcasts"
      then "Live signal - no broadcast found"
      else if starts_with message "YouTube broadcast lookup found no bound stream"
      then "Live signal - no bound stream"
      else if starts_with message "YouTube broadcast start blocked: no active broadcast matched"
      then "Live signal - stream key mismatch"
      else if starts_with message "YouTube broadcast start blocked: selected broadcast"
      then "Live signal - selected broadcast unavailable"
      else if starts_with message "YouTube broadcast start blocked: multiple active broadcasts"
      then "Live signal - multiple broadcasts"
      else "Live - YouTube API warning"

  unfoldable pub platform_state_for_youtube_api_warning_text : String → PlatformLiveState
  platform_state_for_youtube_api_warning_text message =
      let clean = trimmed message in
      if starts_with clean "YouTube token refresh failed" || contains_ci clean "invalid_grant"
      then auth_expired
      else if contains_ci clean "quota"
      then quota_blocked
      else if starts_with clean "YouTube broadcast start blocked: multiple active broadcasts"
      then multiple_broadcasts
      else if starts_with clean "YouTube broadcast start blocked: no active broadcast matched"
      then broadcast_mismatch
      else if starts_with clean "YouTube broadcast lookup found no broadcasts"
          || starts_with clean "YouTube broadcast lookup found no bound stream"
          || starts_with clean "YouTube API start unavailable"
      then needs_manual_start
      else if starts_with clean "YouTube API start failed"
      then needs_manual_start
      else PlatformLiveState.failed
