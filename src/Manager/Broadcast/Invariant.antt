-- ===== src/Manager/Broadcast/Invariant.antt =====
-- The YouTube operations against the invariant of the sessions (core/output-manager.cpp).
use obs_dsk_multistream.YouTube.Request.{Ticket}
use obs_dsk_multistream.Manager.Operation.Invariant.{AnyRequest, sound}
use obs_dsk_multistream.Manager.Requests.Kept.{
  list_youtube_broadcasts-kept, refresh_youtube_access_token-kept,
}
use obs_dsk_multistream.Manager.Operation.{
  poll_allowed, auto_start_pending, auto_start_waiting, auto_start_timed_out, signal_timed_out,
  is_complete, oauth_effective_client_credentials, can_continue_platform_start, serial_is,
}
use obs_dsk_multistream.Manager.Operation.Invariant.{SoundState}
use obs_dsk_multistream.Base.{
  ℕ, ◌+◌, String, refl, true, not, ◌&&◌, ◌||◌, eqb, ltb, is_empty, if_cases, Option-cases, inl, inr,
}
use obs_dsk_multistream.Target.{OutputTarget, is_youtube_oauth}
use obs_dsk_multistream.Runtime.{PlatformLiveState, is_live}
use obs_dsk_multistream.YouTube.Warning.{is_youtube_target}
use obs_dsk_multistream.Manager.State.{
  Session, Env, Manager, u64, find_target, session_for_target, update_session, session_matches,
  runtime_status_for_target, set_runtime_platform,
}
use obs_dsk_multistream.Manager.Frame.{set_runtime_platform-core, set_target_api_warning-core}
use obs_dsk_multistream.Manager.Sessions.Invariant.{IsSound, same-IsSound}
use obs_dsk_multistream.Manager.Sessions.Writes.{update_session-IsSound}
use obs_dsk_multistream.Manager.Broadcast.{
  begin_operation, start_with_session, manual_start, with_own_session, start_for_target,
  maybe_start_youtube_broadcast, poll_due,
}

module _ (env : Env) where
  begin_operation-IsSound :
      (id : String) (target : OutputTarget) (s : Session) (serial attempt : ℕ) (m : Manager)
      → IsSound m.core
      → IsSound (begin_operation env id target s serial attempt m).core
  unfolding begin_operation
  begin_operation-IsSound id target s serial attempt m v =
      let started : Manager =
        update_session id
          (λ t. record t {
            youtube_poll_generation = u64 (s.youtube_poll_generation + 1);
            youtube_operation_in_flight = true;
            youtube_operation_generation = u64 (s.youtube_operation_generation + 1);
          })
          m in
      let shown : IsSound
          (set_runtime_platform env id serial PlatformLiveState.rtmp_signal_only
            "Checking YouTube Live start" "" started).core =
        same-IsSound _ _ (set_runtime_platform-core env id serial _ _ _ started) (
          update_session-IsSound id _
            (λ t. record { target_kept = refl; key_kept = refl; output_kept = refl }) m v) in
      let ticket : Ticket = record {
        target_id = id;
        serial = serial;
        attempt = attempt;
        generation = u64 (s.youtube_operation_generation + 1);
      } in
      if_cases SoundState
        (not (is_empty s.youtube_access_token)
          && ltb (env.now + 30000) s.youtube_access_token_expires_at_ms)
        (list_youtube_broadcasts-kept env SoundState AnyRequest (sound env) ticket
          s.youtube_access_token tt _ shown)
        (refresh_youtube_access_token-kept env SoundState AnyRequest (sound env) ticket (λ c t. tt)
          _ shown)

  start_with_session-IsSound :
      (id : String) (target : OutputTarget) (s : Session) (serial attempt : ℕ) (m : Manager)
      → IsSound m.core
      → IsSound (start_with_session env id target s serial attempt m).core
  unfolding start_with_session auto_start_pending
  start_with_session-IsSound id target s serial attempt m v =
      if_cases SoundState s.youtube_operation_in_flight v (
        if_cases SoundState
          (not (auto_start_waiting env s) && (ltb 20 attempt || signal_timed_out env s))
          (same-IsSound _ _ (set_target_api_warning-core env id _ serial m) v)
          (if_cases SoundState (auto_start_waiting env s && auto_start_timed_out env s)
            (same-IsSound _ _ (set_runtime_platform-core env id serial _ _ _ m) v)
            (if_cases SoundState
              (not (
                is_complete env (
                  oauth_effective_client_credentials env target.auth_mode target.oauth_client_id
                    target.oauth_client_secret)))
              (same-IsSound _ _ (set_target_api_warning-core env id _ serial m) v)
              (if_cases SoundState (is_empty (env.trimmed target.oauth_refresh_token))
                (same-IsSound _ _ (set_target_api_warning-core env id _ serial m) v)
                (begin_operation-IsSound id target s serial attempt m v)))))

  start_for_target-IsSound :
      (id : String) (target : OutputTarget) (serial attempt : ℕ) (m : Manager)
      → IsSound m.core
      → IsSound (start_for_target env id target serial attempt m).core
  unfolding start_for_target with_own_session manual_start
  start_for_target-IsSound id target serial attempt m v =
      if_cases SoundState
        (not (can_continue_platform_start target (runtime_status_for_target m id))
          || not (session_matches m id serial))
        v
        (if_cases SoundState (not (is_youtube_target env.qt target)) v (
          if_cases SoundState (is_live (runtime_status_for_target m id).platform) v (
            if_cases SoundState (is_youtube_oauth target.auth_mode)
              (elim (Option-cases (session_for_target m id)) [
                | inl missing ↦ rw (missing, with_own_session) v
                | inr (s, found) ↦
                    rw (found, with_own_session)
                      (if_cases SoundState (serial_is s serial)
                        (start_with_session-IsSound id target s serial attempt m v) v)
              ])
              (same-IsSound _ _ (set_runtime_platform-core env id serial _ _ _ m) v))))

  pub maybe_start-IsSound :
      (id : String) (serial attempt : ℕ) (m : Manager)
      → IsSound m.core
      → IsSound (maybe_start_youtube_broadcast env id serial attempt m).core
  unfolding maybe_start_youtube_broadcast
  maybe_start-IsSound id serial attempt m v = elim (Option-cases (find_target m id)) [
    | inl missing ↦ rw (missing, maybe_start_youtube_broadcast) v
    | inr (target, found) ↦
        rw (found, maybe_start_youtube_broadcast)
          (start_for_target-IsSound id target serial attempt m v)
  ]

  pub poll_due-IsSound :
      (id : String) (serial generation poll attempt : ℕ) (m : Manager)
      → IsSound m.core
      → IsSound (poll_due env id serial generation poll attempt m).core
  unfolding poll_due
  poll_due-IsSound id serial generation poll attempt m v =
      elim (Option-cases (session_for_target m id)) [
        | inl missing ↦ rw (missing, poll_due) v
        | inr (s, found) ↦
            rw (found, poll_due)
              (if_cases SoundState
                (poll_allowed s serial generation && eqb s.youtube_poll_generation poll)
                (maybe_start-IsSound id serial attempt m v) v)
      ]
