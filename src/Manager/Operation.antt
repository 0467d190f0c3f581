-- ===== src/Manager/Operation.antt =====
-- core/output-manager.cpp: the YouTube operation of a session (youtubeOperationMatches,
-- completeYouTubeOperation, scheduleYouTubePoll, stopYouTubeAutoStartIfTimedOut), and
-- oauthEffectiveClientCredentials of core/oauth-provider.cpp.
pub mod Kept
pub mod Invariant
use obs_dsk_multistream.Base.{
  ℕ, ◌+◌, ◌-◌, String, ◌<>◌, Bool, true, false, not, ◌&&◌, ◌||◌, none, some, eqb, ltb,
  if◌then◌else◌, is_empty,
}
use obs_dsk_multistream.Target.{
  OutputTarget, TargetState, TargetAuthMode, is_state, is_youtube_oauth,
}
use obs_dsk_multistream.Runtime.{
  TargetRuntimeStatus, PlatformLiveState, runtime_transport_is_running,
}
use obs_dsk_multistream.YouTube.Request.{OauthClientCredentials}
use obs_dsk_multistream.Manager.State.{
  Session, Env, Manager, u64, emit, find_target, session_for_target, update_session,
  set_runtime_platform, status_message, schedule_youtube_poll,
}

unfoldable pub can_continue_platform_start : OutputTarget → TargetRuntimeStatus → Bool
can_continue_platform_start target runtime =
    is_state target.state TargetState.starting
    || is_state target.state TargetState.live
    || runtime_transport_is_running runtime

-- A session with the serial, or none.
abbrev pub serial_is : Session → ℕ → Bool
serial_is session serial = eqb session.serial serial

unfoldable pub youtube_operation_matches : Manager → String → ℕ → ℕ → Bool
youtube_operation_matches m id serial generation = elim (session_for_target m id) [
  | none ↦ false
  | some s ↦
      serial_is s serial
      && s.youtube_operation_in_flight
      && eqb s.youtube_operation_generation generation
]

unfoldable pub complete_youtube_operation : String → ℕ → ℕ → Manager → Manager
complete_youtube_operation id serial generation m = elim (session_for_target m id) [
  | none ↦ m
  | some s ↦
      if not (serial_is s serial) || not (eqb s.youtube_operation_generation generation)
      then m
      else update_session id (λ t. record t { youtube_operation_in_flight = false }) m
]

-- A poll may run for the operation: the session is the same one, idle, and on that operation.
abbrev pub poll_allowed : Session → ℕ → ℕ → Bool
poll_allowed s serial generation =
    serial_is s serial
    && not s.youtube_operation_in_flight
    && eqb s.youtube_operation_generation generation

unfoldable pub schedule_poll : String → ℕ → ℕ → ℕ → ℕ → Manager → Manager
schedule_poll id serial generation attempt delay m = elim (session_for_target m id) [
  | none ↦ m
  | some s ↦
      let poll = u64 (s.youtube_poll_generation + 1) in
      if poll_allowed s serial generation
      then emit (schedule_youtube_poll delay id serial generation poll attempt)
          (update_session id (λ t. record t { youtube_poll_generation = poll }) m)
      else m
]

module _ (env : Env) where
  open env use {now, trimmed}

  unfoldable pub is_complete : OauthClientCredentials → Bool
  is_complete c = not (is_empty (trimmed c.client_id)) && not (is_empty (trimmed c.client_secret))

  unfoldable pub has_any : OauthClientCredentials → Bool
  has_any c = not (is_empty (trimmed c.client_id)) || not (is_empty (trimmed c.client_secret))

  unfoldable pub bundled_client_credentials : TargetAuthMode → OauthClientCredentials
  bundled_client_credentials mode =
      if is_youtube_oauth mode
      then record {
        client_id = trimmed env.bundled_client_id;
        client_secret = trimmed env.bundled_client_secret;
      }
      else record { client_id = ""; client_secret = "" }

  unfoldable pub oauth_effective_client_credentials :
      TargetAuthMode → String → String → OauthClientCredentials
  oauth_effective_client_credentials mode custom_id custom_secret =
      let custom : OauthClientCredentials = record {
        client_id = trimmed custom_id;
        client_secret = trimmed custom_secret;
      } in
      if has_any custom then custom else bundled_client_credentials mode

  abbrev pub pending_text : String → String
  pending_text name =
      name <> ": YouTube Auto-start is still pending. Check the broadcast in YouTube Studio."

  unfoldable pub auto_start_pending : String → OutputTarget → ℕ → Manager → Manager
  auto_start_pending id target serial m = emit (status_message (pending_text target.name)) (
      set_runtime_platform env id serial PlatformLiveState.needs_manual_start
        "YouTube Auto-start is still pending - check YouTube Studio" "" m)

  -- The clock may stand before the marks: a difference below 0 is below the limits as well.
  unfoldable pub signal_timed_out : Session → Bool
  signal_timed_out s =
      ltb 0 s.youtube_signal_active_at_ms && ltb 120000 (now - s.youtube_signal_active_at_ms)

  unfoldable pub auto_start_waiting : Session → Bool
  auto_start_waiting s = ltb 0 s.youtube_auto_start_waiting_since_ms

  unfoldable pub auto_start_timed_out : Session → Bool
  auto_start_timed_out s = ltb 300000 (now - s.youtube_auto_start_waiting_since_ms)

  unfoldable pub stop_youtube_auto_start_if_timed_out : String → ℕ → ℕ → Manager → Manager × Bool
  stop_youtube_auto_start_if_timed_out id serial generation m = elim (session_for_target m id) [
    | none ↦ (m, false)
    | some s ↦ elim (find_target m id) [
      | none ↦ (m, false)
      | some target ↦
          if not (youtube_operation_matches m id serial generation)
            || not (auto_start_waiting s)
            || not (auto_start_timed_out s)
          then (m, false)
          else (
            auto_start_pending id target serial (complete_youtube_operation id serial generation m),
            true,
          )
    ]
  ]
