-- ===== src/Runtime/Labels.antt =====
-- core/output-runtime-status.hpp: the status label and the detail line of a target's row.
pub mod Laws
use obs_dsk_multistream.Base.{
  String, Bool, not, ◌<>◌, ◌&&◌, ◌||◌, pos, pos_part, ltb_ℤ, if◌then◌else◌, is_empty, Qt,
}
use obs_dsk_multistream.Target.{OutputTarget, TargetState, is_state}
use obs_dsk_multistream.Target.Names.{target_state_to_string}
use obs_dsk_multistream.Runtime.{
  TargetRuntimeStatus, TransportState, PlatformLiveState, transport_state_to_string,
  runtime_transport_is_running, runtime_platform_is_warning,
}
use obs_dsk_multistream.YouTube.Warning.{
  is_youtube_target, target_has_youtube_api_warning, target_has_live_youtube_api_warning,
  target_has_expired_youtube_login_warning, user_facing_youtube_api_warning_text,
  live_youtube_api_warning_row_text,
}

-- The switch over the platform state in the detail line; `fallback` is what follows it.
platform_detail : PlatformLiveState → String → String
platform_detail PlatformLiveState.live fallback = "YouTube broadcast is live"
platform_detail PlatformLiveState.testing fallback = "YouTube monitor is testing"
platform_detail PlatformLiveState.live_starting fallback = "YouTube is switching to live"
platform_detail PlatformLiveState.waiting_for_signal fallback =
    "RTMP connected - waiting for YouTube signal"
platform_detail PlatformLiveState.needs_manual_start fallback =
    "YouTube preparing - start in YouTube Studio"
platform_detail PlatformLiveState.rtmp_signal_only fallback =
    "RTMP connected - checking YouTube Live"
platform_detail PlatformLiveState.unknown fallback = "RTMP connected - checking YouTube Live"
platform_detail PlatformLiveState.auth_expired fallback = "YouTube preparing - reconnect login"
platform_detail PlatformLiveState.quota_blocked fallback = "YouTube preparing - API quota blocked"
platform_detail PlatformLiveState.broadcast_mismatch fallback =
    "YouTube preparing - stream key mismatch"
platform_detail PlatformLiveState.multiple_broadcasts fallback =
    "YouTube preparing - multiple broadcasts"
platform_detail PlatformLiveState.preparing fallback = "RTMP connected - YouTube preparing"
platform_detail PlatformLiveState.failed fallback = "RTMP connected - YouTube API needs attention"
platform_detail PlatformLiveState.not_applicable fallback = fallback

-- The label of a connected YouTube output; `fallback` is the transport's name.
platform_label : PlatformLiveState → String → String
platform_label PlatformLiveState.live fallback = "YouTube Live"
platform_label PlatformLiveState.testing fallback = "YouTube testing"
platform_label PlatformLiveState.live_starting fallback = "YouTube starting"
platform_label platform fallback =
    if runtime_platform_is_warning platform then "RTMP only" else fallback

module _ (qt : Qt) where
  open qt use {trimmed, number}

  running_label : OutputTarget → TransportState → PlatformLiveState → String
  running_label target TransportState.starting platform = "Starting"
  running_label target TransportState.reconnecting platform = "Reconnecting"
  running_label target transport platform =
      if is_youtube_target qt target
      then platform_label platform (transport_state_to_string transport)
      else transport_state_to_string transport

  stopped_label : OutputTarget → String
  stopped_label target =
      if not target.enabled
      then "Auto start off"
      else if target_has_expired_youtube_login_warning qt target
      then "Needs login"
      else if target_has_youtube_api_warning qt target
      then "API warning"
      else if not (is_empty (trimmed target.last_error)) || is_state target.state TargetState.error
      then "Failed"
      else target_state_to_string target.state

  pub runtime_status_label : OutputTarget → TargetRuntimeStatus → String
  runtime_status_label target status =
      if runtime_transport_is_running status
      then running_label target status.transport status.platform
      else stopped_label target

  -- A message if there is one, and the given text if there is none.
  message_or : String → String → String
  message_or message text = if is_empty (trimmed message) then text else trimmed message

  error_detail : OutputTarget → String → String
  error_detail target error =
      if target_has_live_youtube_api_warning qt target
      then live_youtube_api_warning_row_text qt error
      else if target_has_expired_youtube_login_warning qt target
      then "RTMP connected - YouTube login expired"
      else if target_has_youtube_api_warning qt target
      then user_facing_youtube_api_warning_text qt error
      else error

  transport_detail : TargetRuntimeStatus → String
  transport_detail status =
      if not (is_empty (trimmed status.transport_message))
      then trimmed status.transport_message
      else if not (is_empty (trimmed status.last_user_message))
      then trimmed status.last_user_message
      else transport_state_to_string status.transport

  running_detail : OutputTarget → TargetRuntimeStatus → String
  running_detail target status =
      if is_youtube_target qt target
      then message_or status.platform_message
          (platform_detail status.platform (transport_detail status))
      else transport_detail status

  -- The detail once the transport is neither starting, nor stopping, nor reconnecting.
  steady_detail : OutputTarget → TargetRuntimeStatus → String
  steady_detail target status =
      let error = trimmed target.last_error in
      if runtime_transport_is_running status
        && is_youtube_target qt target
        && not (is_empty (trimmed status.platform_message))
      then trimmed status.platform_message
      else if not (is_empty error)
      then error_detail target error
      else if runtime_transport_is_running status
      then running_detail target status
      else runtime_status_label target status

  transport_case : OutputTarget → TargetRuntimeStatus → TransportState → String
  transport_case target status TransportState.starting =
      message_or status.transport_message "Connecting"
  transport_case target status TransportState.stopping =
      message_or status.transport_message "Stopping"
  transport_case target status TransportState.reconnecting =
      if ltb_ℤ (pos 0) status.reconnect_delay_seconds
      then ("Reconnecting in " <> number (pos_part status.reconnect_delay_seconds)) <> " sec"
      else message_or status.transport_message "Reconnecting"
  transport_case target status transport = steady_detail target status

  pub runtime_status_detail : OutputTarget → TargetRuntimeStatus → String
  runtime_status_detail target status = transport_case target status status.transport
