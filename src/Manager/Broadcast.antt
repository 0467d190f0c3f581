-- ===== src/Manager/Broadcast.antt =====
-- core/output-manager.cpp: the YouTube operation of a session, its polls and its retries
-- (maybeStartYouTubeBroadcast, scheduleYouTubeRequestRetry, applyYouTubeBroadcastSelection).
pub mod Generations
pub mod Retry
pub mod Invariant
use obs_dsk_multistream.Manager.Operation.{
  can_continue_platform_start, serial_is, poll_allowed, schedule_poll, is_complete,
  oauth_effective_client_credentials, auto_start_pending, signal_timed_out, auto_start_waiting,
  auto_start_timed_out,
}
use obs_dsk_multistream.Base.{
  ℕ, ◌+◌, ◌-◌, ◌*◌, ◌^◌, String, ◌<>◌, Bool, true, false, not, ◌&&◌, ◌||◌, none, some, List, [],
  eqb, ltb, leb, if◌then◌else◌, is_empty,
}
use obs_dsk_multistream.Target.{
  OutputTarget, TargetState, TargetAuthMode, is_state, is_youtube_oauth,
}
use obs_dsk_multistream.Runtime.{
  TargetRuntimeStatus, PlatformLiveState, is_live, runtime_transport_is_running,
}
use obs_dsk_multistream.YouTube.Warning.{is_youtube_target}
use obs_dsk_multistream.YouTube.Response.{
  HttpResponse, platform_http_error, is_retryable_youtube_response,
}
use obs_dsk_multistream.YouTube.Request.{Ticket}
use obs_dsk_multistream.Manager.Requests.{list_youtube_broadcasts, refresh_youtube_access_token}
use obs_dsk_multistream.Manager.State.{
  Session, Env, Manager, u64, emit, find_target, session_for_target, update_session,
  session_matches, runtime_status_for_target, with_runtime_status, set_runtime_platform,
  set_target_api_warning, clear_target_api_warning, status_message,
}

module _ (env : Env) where
  open env use {qt, now, trimmed}

  -- The checks that end an attempt with a message, and the operation that starts otherwise.
  begin_operation : String → OutputTarget → Session → ℕ → ℕ → Manager → Manager
  begin_operation id target session serial attempt m =
      let generation = u64 (session.youtube_operation_generation + 1) in
      let started =
        update_session id
          (λ s. record s {
            youtube_poll_generation = u64 (session.youtube_poll_generation + 1);
            youtube_operation_in_flight = true;
            youtube_operation_generation = generation;
          })
          m in
      let shown =
        set_runtime_platform env id serial PlatformLiveState.rtmp_signal_only
          "Checking YouTube Live start" "" started in
      let ticket : Ticket = record {
        target_id = id;
        serial = serial;
        attempt = attempt;
        generation = generation;
      } in
      if not (is_empty session.youtube_access_token)
        && ltb (now + 30000) session.youtube_access_token_expires_at_ms
      then list_youtube_broadcasts env ticket session.youtube_access_token shown
      else refresh_youtube_access_token env ticket shown

  start_with_session : String → OutputTarget → Session → ℕ → ℕ → Manager → Manager
  start_with_session id target session serial attempt m =
      let credentials =
        oauth_effective_client_credentials env target.auth_mode target.oauth_client_id
          target.oauth_client_secret in
      if session.youtube_operation_in_flight
      then m
      else if not (auto_start_waiting env session)
          && (ltb 20 attempt || signal_timed_out env session)
      then set_target_api_warning env id
          "YouTube API start failed: YouTube stream did not become active." serial m
      else if auto_start_waiting env session && auto_start_timed_out env session
      then auto_start_pending env id target serial m
      else if not (is_complete env credentials)
      then set_target_api_warning env id
          "YouTube API start unavailable: Google OAuth application credentials are missing." serial
          m
      else if is_empty (trimmed target.oauth_refresh_token)
      then set_target_api_warning env id
          "YouTube API start unavailable: reconnect YouTube login to save an OAuth refresh token."
          serial m
      else begin_operation id target session serial attempt m

  manual_start : String → OutputTarget → ℕ → Manager → Manager
  manual_start id target serial m =
      emit
        (status_message (
          target.name
          <> ": YouTube signal is active. Connect YouTube login to auto-start the broadcast."))
        (set_runtime_platform env id serial PlatformLiveState.needs_manual_start
          "Start in YouTube Studio after RTMP signal is active" "" m)

  -- `start_with_session` for the target's session, if that has the serial.
  with_own_session : String → OutputTarget → ℕ → ℕ → Manager → Manager
  with_own_session id target serial attempt m = elim (session_for_target m id) [
    | none ↦ m
    | some s ↦ if serial_is s serial then start_with_session id target s serial attempt m else m
  ]

  start_for_target : String → OutputTarget → ℕ → ℕ → Manager → Manager
  start_for_target id target serial attempt m =
      let runtime = runtime_status_for_target m id in
      if not (can_continue_platform_start target runtime) || not (session_matches m id serial)
      then m
      else if not (is_youtube_target qt target)
      then m
      else if is_live runtime.platform
      then m
      else if is_youtube_oauth target.auth_mode
      then with_own_session id target serial attempt m
      else manual_start id target serial m

  pub maybe_start_youtube_broadcast : String → ℕ → ℕ → Manager → Manager
  maybe_start_youtube_broadcast id serial attempt m = elim (find_target m id) [
    | none ↦ m
    | some target ↦ start_for_target id target serial attempt m
  ]

  -- The timer of `schedule_poll` fires.
  pub poll_due : String → ℕ → ℕ → ℕ → ℕ → Manager → Manager
  poll_due id serial generation poll attempt m = elim (session_for_target m id) [
    | none ↦ m
    | some s ↦
        if poll_allowed s serial generation && eqb s.youtube_poll_generation poll
        then maybe_start_youtube_broadcast id serial attempt m
        else m
  ]
