-- ===== src/Runtime.antt =====
-- core/output-runtime-status.hpp: what the plugin knows of a running output.
pub mod Labels
use obs_dsk_multistream.Base.{ℕ, String, Bool, true, false, not, ◌&&◌, ◌||◌, ℤ, pos, eqb}

pub data TransportState : Type 0 where
  idle starting connected active reconnecting stopping failed : TransportState

pub data PlatformLiveState : Type 0 where
  not_applicable unknown rtmp_signal_only waiting_for_signal preparing : PlatformLiveState
  testing live_starting live needs_manual_start auth_expired : PlatformLiveState
  quota_blocked broadcast_mismatch multiple_broadcasts failed : PlatformLiveState

-- `congestion` is the bit pattern of a float, which the program only passes on.
pub record TargetRuntimeStatus : Type 0 where
  pub target_id : String
  pub session_serial : ℕ
  pub transport : TransportState
  pub platform : PlatformLiveState
  pub started_at_ms : ℕ
  pub last_changed_at_ms : ℕ
  pub total_bytes : ℕ
  pub total_frames : ℕ
  pub dropped_frames : ℕ
  pub congestion : ℕ
  pub reconnect_delay_seconds : ℤ
  pub stream_status : String
  pub life_cycle_status : String
  pub broadcast_id : String
  pub transport_message : String
  pub platform_message : String
  pub last_user_message : String
  pub last_technical_error : String

abbrev pub default_status : TargetRuntimeStatus
default_status = record {
  target_id = "";
  session_serial = 0;
  transport = TransportState.idle;
  platform = unknown;
  started_at_ms = 0;
  last_changed_at_ms = 0;
  total_bytes = 0;
  total_frames = 0;
  dropped_frames = 0;
  congestion = 0;
  reconnect_delay_seconds = pos 0;
  stream_status = "";
  life_cycle_status = "";
  broadcast_id = "";
  transport_message = "";
  platform_message = "";
  last_user_message = "";
  last_technical_error = "";
}

abbrev pub is_transport : TransportState → TransportState → Bool
is_transport idle idle = true
is_transport starting starting = true
is_transport connected connected = true
is_transport active active = true
is_transport reconnecting reconnecting = true
is_transport stopping stopping = true
is_transport failed failed = true
is_transport _ _ = false

abbrev pub is_live : PlatformLiveState → Bool
is_live live = true
is_live _ = false

unfoldable pub transport_state_to_string : TransportState → String
transport_state_to_string idle = "Idle"
transport_state_to_string starting = "Starting"
transport_state_to_string connected = "RTMP sending"
transport_state_to_string active = "RTMP sending"
transport_state_to_string reconnecting = "Reconnecting"
transport_state_to_string stopping = "Stopping"
transport_state_to_string failed = "Failed"

unfoldable pub platform_live_state_to_string : PlatformLiveState → String
platform_live_state_to_string not_applicable = "Not applicable"
platform_live_state_to_string unknown = "Platform unknown"
platform_live_state_to_string rtmp_signal_only = "RTMP signal only"
platform_live_state_to_string waiting_for_signal = "Waiting for YouTube signal"
platform_live_state_to_string preparing = "YouTube preparing"
platform_live_state_to_string testing = "YouTube testing"
platform_live_state_to_string live_starting = "YouTube going live"
platform_live_state_to_string live = "YouTube Live"
platform_live_state_to_string needs_manual_start = "Manual start needed"
platform_live_state_to_string auth_expired = "Login expired"
platform_live_state_to_string quota_blocked = "API quota blocked"
platform_live_state_to_string broadcast_mismatch = "Broadcast mismatch"
platform_live_state_to_string multiple_broadcasts = "Multiple broadcasts"
platform_live_state_to_string failed = "Platform start failed"

unfoldable pub runtime_transport_is_running : TargetRuntimeStatus → Bool
runtime_transport_is_running s =
    is_transport s.transport starting
    || is_transport s.transport connected
    || is_transport s.transport active
    || is_transport s.transport reconnecting

unfoldable pub runtime_transport_is_busy : TargetRuntimeStatus → Bool
runtime_transport_is_busy s = is_transport s.transport starting || is_transport s.transport stopping

unfoldable pub runtime_has_session : TargetRuntimeStatus → Bool
runtime_has_session s =
    not (eqb s.session_serial 0)
    && not (is_transport s.transport TransportState.idle)
    && not (is_transport s.transport TransportState.failed)

unfoldable pub runtime_platform_is_warning : PlatformLiveState → Bool
runtime_platform_is_warning rtmp_signal_only = true
runtime_platform_is_warning waiting_for_signal = true
runtime_platform_is_warning preparing = true
runtime_platform_is_warning needs_manual_start = true
runtime_platform_is_warning auth_expired = true
runtime_platform_is_warning quota_blocked = true
runtime_platform_is_warning broadcast_mismatch = true
runtime_platform_is_warning multiple_broadcasts = true
runtime_platform_is_warning failed = true
runtime_platform_is_warning _ = false
