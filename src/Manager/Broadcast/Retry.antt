-- ===== src/Manager/Broadcast/Retry.antt =====
-- core/output-manager.cpp: the end of a YouTube operation that waits too long, the retry of a
-- failed request, and the user's choice of a broadcast (stopYouTubeAutoStartIfTimedOut,
-- scheduleYouTubeRequestRetry, applyYouTubeBroadcastSelection).
pub mod Bounds
pub mod Kept
pub mod Invariant
use obs_dsk_multistream.Manager.Operation.{
  youtube_operation_matches, complete_youtube_operation, schedule_poll, can_continue_platform_start,
  auto_start_waiting, auto_start_timed_out, auto_start_pending,
}
use obs_dsk_multistream.Base.{
  ℕ, ◌+◌, ◌-◌, ◌*◌, ◌^◌, String, ◌<>◌, Bool, true, false, not, ◌&&◌, ◌||◌, none, some, eqb, ltb,
  leb, if◌then◌else◌, is_empty,
}
use obs_dsk_multistream.Target.{OutputTarget}
use obs_dsk_multistream.Runtime.{PlatformLiveState}
use obs_dsk_multistream.YouTube.Response.{
  HttpResponse, platform_http_error, is_retryable_youtube_response,
}
use obs_dsk_multistream.Manager.State.{
  Session, Env, Manager, u64, emit, find_target, session_for_target, update_session,
  session_matches, runtime_status_for_target, with_runtime_status, set_runtime_platform,
  clear_target_api_warning, status_message,
}
use obs_dsk_multistream.Manager.Broadcast.{maybe_start_youtube_broadcast}

-- qMin(10000, 1000 << shift)
delay_ms : ℕ → ℕ
delay_ms shift = let delay = 1000 * 2 ^ shift in if ltb delay 10000 then delay else 10000

pub retry_delay_ms : ℕ → ℕ
retry_delay_ms retry_number = delay_ms (if ltb (retry_number - 1) 3 then retry_number - 1 else 3)

-- A 401 is retried once with a new access token.
abbrev pub refresh_again : HttpResponse → Session → Bool
refresh_again response s = eqb response.status_code 401 && not s.youtube_auth_refresh_retried

abbrev pub forget_token : Session → Session
forget_token s = record s {
  youtube_auth_refresh_retried = true;
  youtube_access_token = "";
  youtube_access_token_expires_at_ms = 0;
}

module _ (env : Env) where
  open env use {qt, now, trimmed}

  unfoldable pub retry_later : String → ℕ → ℕ → ℕ → String → ℕ → Manager → Manager
  retry_later id serial generation attempt stage retry_number m =
      let counted =
        update_session id (λ s. record s { youtube_transient_retry_count = retry_number }) m in
      schedule_poll id serial generation attempt (retry_delay_ms retry_number) (
        set_runtime_platform env id serial PlatformLiveState.rtmp_signal_only
          (("YouTube " <> stage) <> " temporarily unavailable - retrying") ""
          (complete_youtube_operation id serial generation counted))

  unfoldable pub retry_for_session :
      String → Session → ℕ → ℕ → ℕ → HttpResponse → String → Manager → Manager × Bool
  retry_for_session id s serial generation attempt response stage m =
      let again = refresh_again response s in
      let forgotten = if again then update_session id forget_token m else m in
      let retry =
        again || is_retryable_youtube_response qt response (platform_http_error qt response) in
      if not retry || leb 5 s.youtube_transient_retry_count then (forgotten, false) else (
        retry_later id serial generation attempt stage (s.youtube_transient_retry_count + 1)
            forgotten,
        true,
      )

  unfoldable pub schedule_youtube_request_retry :
      String → ℕ → ℕ → ℕ → HttpResponse → String → Manager → Manager × Bool
  schedule_youtube_request_retry id serial generation attempt response stage m =
      elim (session_for_target m id) [
        | none ↦ (m, false)
        | some s ↦ elim (find_target m id) [
          | none ↦ (m, false)
          | some target ↦
              if youtube_operation_matches m id serial generation
              then retry_for_session id s serial generation attempt response stage m
              else (m, false)
        ]
      ]

  choose_broadcast : String → OutputTarget → Session → ℕ → String → Manager → Manager
  choose_broadcast id target s serial broadcast_id m =
      let chosen = with_runtime_status id (λ r. record r { broadcast_id = broadcast_id }) m in
      let renewed =
        update_session id
          (λ t. record t {
            youtube_operation_generation = u64 (s.youtube_operation_generation + 1);
            youtube_auto_start_waiting_since_ms = 0;
            youtube_signal_active_at_ms = now;
          })
          chosen in
      let shown =
        set_runtime_platform env id serial PlatformLiveState.rtmp_signal_only
          "Checking selected YouTube broadcast" "" (clear_target_api_warning env id renewed) in
      maybe_start_youtube_broadcast env id serial 0
        (emit (status_message (target.name <> ": Checking the selected YouTube broadcast.")) shown)

  pub apply_youtube_broadcast_selection : String → ℕ → ℕ → String → Manager → Manager
  apply_youtube_broadcast_selection id serial generation broadcast_id m = elim (find_target m id) [
    | none ↦ m
    | some target ↦
        if is_empty (trimmed broadcast_id)
          || not (session_matches m id serial)
          || not (can_continue_platform_start target (runtime_status_for_target m id))
        then m
        else elim (session_for_target m id) [
          | none ↦ m
          | some s ↦
              if not (eqb s.serial serial)
                || s.youtube_operation_in_flight
                || not (eqb s.youtube_operation_generation generation)
              then m
              else choose_broadcast id target s serial (trimmed broadcast_id) m
        ]
  ]
