-- ===== src/Manager/Broadcast/Retry/Bounds.antt =====
-- The number and the delay of the retries of scheduleYouTubeRequestRetry (core/output-manager.cpp).
use obs_dsk_multistream.Manager.Operation.{
  complete_youtube_operation, youtube_operation_matches, serial_is, poll_allowed, schedule_poll,
}
use obs_dsk_multistream.Base.{
  ℕ, zero, suc, ◌+◌, ◌-◌, ◌≤◌, ◌<◌, String, ◌<>◌, ◌≡◌, refl, ◌∙◌, Bool, true, false, not, ◌&&◌,
  ◌||◌, some, List, ◌∷◌, arith, eqb, ltb, leb, if◌then◌else◌, if_cases, if_under, Option-cases, inl,
  inr,
}
use obs_dsk_multistream.Target.{OutputTarget}
use obs_dsk_multistream.Runtime.{PlatformLiveState}
use obs_dsk_multistream.YouTube.Response.{
  HttpResponse, platform_http_error, is_retryable_youtube_response,
}
use obs_dsk_multistream.Manager.State.{
  Session, Env, Manager, find_target, lookup_session, session_for_target, update_session,
  set_runtime_platform, schedule_youtube_poll, Effect,
}
use obs_dsk_multistream.Manager.Frame.{set_runtime_platform-core}
use obs_dsk_multistream.Manager.Broadcast.Generations.{polled, lookup-modify, schedule_poll-session}
use obs_dsk_multistream.Manager.Broadcast.Retry.{
  delay_ms, retry_delay_ms, refresh_again, forget_token, retry_later, retry_for_session,
  schedule_youtube_request_retry,
}

delay_ms-bounds : (k : ℕ) → k ≤ 3 → (1000 ≤ delay_ms k) × (delay_ms k ≤ 8000)
unfolding delay_ms
delay_ms-bounds zero h = (omega arith, omega arith)
delay_ms-bounds (suc zero) h = (omega arith, omega arith)
delay_ms-bounds (suc (suc zero)) h = (omega arith, omega arith)
delay_ms-bounds (suc (suc (suc zero))) h = (omega arith, omega arith)
delay_ms-bounds (suc (suc (suc (suc k)))) h = absurd (omega (arith, h))

-- The wait before a retry is between one and eight seconds.
retry_delay_ms-bounds : (n : ℕ) → (1000 ≤ retry_delay_ms n) × (retry_delay_ms n ≤ 8000)
unfolding retry_delay_ms
retry_delay_ms-bounds n = delay_ms-bounds (if ltb (n - 1) 3 then n - 1 else 3) (ground arith)

-- The target's session after a retry: one more is counted, at most five, and no operation is in
-- flight; and the poll that is to follow after one to eight seconds is the session's latest.
pub record IsRetried (id : String) (serial generation attempt : ℕ) (s : Session) (m : Manager)
    : Type 0 where
  pub session : Session
  pub listed : session_for_target m id ≡ some session
  pub counted : session.youtube_transient_retry_count ≡ s.youtube_transient_retry_count + 1
  pub bounded : session.youtube_transient_retry_count ≤ 5
  pub idle : session.youtube_operation_in_flight ≡ false
  pub delay : ℕ
  pub before : List Effect
  pub scheduled :
      m.log
      ≡ schedule_youtube_poll delay id serial generation session.youtube_poll_generation attempt
        ∷ before
  pub waits : (1000 ≤ delay) × (delay ≤ 8000)

-- A poll that is allowed is scheduled.
schedule_poll-log :
    (id : String) (serial generation attempt delay : ℕ) (m : Manager) (s : Session)
    → session_for_target m id ≡ some s
    → poll_allowed s serial generation ≡ true
    → (schedule_poll id serial generation attempt delay m).log
      ≡ schedule_youtube_poll delay id serial generation (polled s).youtube_poll_generation attempt
        ∷ m.log
unfolding schedule_poll update_session
schedule_poll-log id serial generation attempt delay m s h ok = rw (h, schedule_poll) (rw ok refl)

complete-session :
    (id : String) (serial generation : ℕ) (m : Manager) (s : Session)
    → session_for_target m id ≡ some s
    → (serial_is s serial
        && s.youtube_operation_in_flight
        && eqb s.youtube_operation_generation generation)
      ≡ true
    → session_for_target (complete_youtube_operation id serial generation m) id
      ≡ some (record s { youtube_operation_in_flight = false })
unfolding session_for_target complete_youtube_operation update_session
complete-session id serial generation m s h ok =
    rw (h, complete_youtube_operation)
      (if_under
        (λ (m' : Manager).
          lookup_session id m'.sessions ≡ some (record s { youtube_operation_in_flight = false }))
        (not (serial_is s serial) || not (eqb s.youtube_operation_generation generation))
        (λ other. absurd (ground (arith, other, ok)))
        (λ own.
          lookup-modify id (λ t. record t { youtube_operation_in_flight = false }) m.sessions s
            (λ t. refl) h))

module _ (env : Env) where
  abbrev RetriedIf : String → ℕ → ℕ → ℕ → Session → Manager × Bool → Type 0
  RetriedIf id serial generation attempt s p =
      p.1 ≡ true → IsRetried id serial generation attempt s p.0

  as_counted :
      (id : String) (serial generation attempt : ℕ) (s : Session) (m : Manager)
      → IsRetried id serial generation attempt (forget_token s) m
      → IsRetried id serial generation attempt s m
  as_counted id serial generation attempt s m r = record {
    session = r.session;
    listed = r.listed;
    counted = r.counted;
    bounded = r.bounded;
    idle = r.idle;
    delay = r.delay;
    before = r.before;
    scheduled = r.scheduled;
    waits = r.waits;
  }

  same-session :
      (id : String) (m m' : Manager)
      → m'.core ≡ m.core
      → session_for_target m' id ≡ session_for_target m id
  unfolding session_for_target
  same-session id m m' e = rw e refl

  retry_later-IsRetried :
      (id : String) (serial generation attempt : ℕ) (stage : String) (m : Manager) (s : Session)
      → session_for_target m id ≡ some s
      → (serial_is s serial
          && s.youtube_operation_in_flight
          && eqb s.youtube_operation_generation generation)
        ≡ true
      → s.youtube_transient_retry_count < 5
      → IsRetried id serial generation attempt s (
          retry_later env id serial generation attempt stage
            (s.youtube_transient_retry_count + 1)
            m)
  unfolding retry_later update_session session_for_target
  retry_later-IsRetried id serial generation attempt stage m s h ok few =
      let n : ℕ = s.youtube_transient_retry_count + 1 in
      let counted : Manager =
        update_session id (λ t. record t { youtube_transient_retry_count = n }) m in
      let t : Session = record s { youtube_transient_retry_count = n } in
      let completed : Manager = complete_youtube_operation id serial generation counted in
      let free : Session = record t { youtube_operation_in_flight = false } in
      let shown : Manager =
        set_runtime_platform env id serial PlatformLiveState.rtmp_signal_only
          (("YouTube " <> stage) <> " temporarily unavailable - retrying") "" completed in
      let held : session_for_target shown id ≡ some free =
        same-session id completed shown (set_runtime_platform-core env id serial _ _ _ completed)
        ∙ complete-session id serial generation counted t (counted-session id n m s h) ok in
      let allowed : poll_allowed free serial generation ≡ true = ground (arith, ok) in
      let delay : ℕ = retry_delay_ms n in
      record {
        session = polled free;
        listed = schedule_poll-session id serial generation attempt delay shown free held allowed;
        delay = delay;
        before = shown.log;
        scheduled = schedule_poll-log id serial generation attempt delay shown free held allowed;
        waits = retry_delay_ms-bounds n;
        counted = refl;
        bounded = omega (arith, few);
        idle = refl;
      }
    where
      counted-session :
          (id : String) (n : ℕ) (m : Manager) (s : Session)
          → session_for_target m id ≡ some s
          → session_for_target
              (update_session id (λ t. record t { youtube_transient_retry_count = n }) m)
              id
            ≡ some (record s { youtube_transient_retry_count = n })
      counted-session id n m s h =
          lookup-modify id (λ t. record t { youtube_transient_retry_count = n }) m.sessions s
            (λ t. refl) h

  retry_for_session-IsRetried :
      (id : String) (s : Session) (serial generation attempt : ℕ) (response : HttpResponse)
      (stage : String) (m : Manager)
      → session_for_target m id ≡ some s
      → (serial_is s serial
          && s.youtube_operation_in_flight
          && eqb s.youtube_operation_generation generation)
        ≡ true
      → RetriedIf id serial generation attempt s
          (retry_for_session env id s serial generation attempt response stage m)
  unfolding retry_for_session update_session session_for_target
  retry_for_session-IsRetried id s serial generation attempt response stage m h ok =
      let forgotten : Manager = update_session id forget_token m in
      if_under (RetriedIf id serial generation attempt s)
        (not (
            refresh_again response s
            || is_retryable_youtube_response env.qt response (platform_http_error env.qt response))
          || leb 5 s.youtube_transient_retry_count)
        (λ no h'. absurd (ground (arith, h')))
        (λ yes h'.
          let few : s.youtube_transient_retry_count < 5 = ground (arith, yes) in
          if_cases
            (λ (m' : Manager). IsRetried id serial generation attempt s (
              retry_later env id serial generation attempt stage
                (s.youtube_transient_retry_count + 1) m'))
            (refresh_again response s)
            (as_counted id serial generation attempt s _ (
              retry_later-IsRetried id serial generation attempt stage forgotten (forget_token s)
                (lookup-modify id forget_token m.sessions s (λ t. refl) h) ok few))
            (retry_later-IsRetried id serial generation attempt stage m s h ok few))

  retried :
      (id : String) (serial generation attempt : ℕ) (response : HttpResponse) (stage : String)
      (m : Manager) (s : Session)
      → session_for_target m id ≡ some s
      → RetriedIf id serial generation attempt s
          (schedule_youtube_request_retry env id serial generation attempt response stage m)
  unfolding schedule_youtube_request_retry youtube_operation_matches
  retried id serial generation attempt response stage m s h =
      rw (h, schedule_youtube_request_retry)
        (elim (Option-cases (find_target m id)) [
          | inl missing ↦
              rw (missing, schedule_youtube_request_retry) (λ h'. absurd (ground (arith, h')))
          | inr (target, found) ↦
              rw (found, schedule_youtube_request_retry)
                (if_under (RetriedIf id serial generation attempt s)
                  (youtube_operation_matches m id serial generation)
                  (λ own.
                    retry_for_session-IsRetried id s serial generation attempt response stage m h
                      (own_operation m id serial generation s h own))
                  (λ other h'. absurd (ground (arith, h'))))
        ])
    where
      own_operation :
          (m : Manager) (id : String) (serial generation : ℕ) (s : Session)
          → session_for_target m id ≡ some s
          → youtube_operation_matches m id serial generation ≡ true
          → (serial_is s serial
              && s.youtube_operation_in_flight
              && eqb s.youtube_operation_generation generation)
            ≡ true
      own_operation m id serial generation s h own = ground (arith, h, own)

  -- When a YouTube request is scheduled again (`scheduleYouTubeRequestRetry` returns true), the
  -- target's session counts one retry more, at most five, and has no operation in flight, and a poll
  -- is set for one to eight seconds later, which is the session's latest.
  pub schedule_youtube_request_retry-IsRetried :
      (id : String) (serial generation attempt : ℕ) (response : HttpResponse) (stage : String)
      (m : Manager) (s : Session)
      → session_for_target m id ≡ some s
      → (schedule_youtube_request_retry env id serial generation attempt response stage m).1 ≡ true
      → IsRetried id serial generation attempt s
          (schedule_youtube_request_retry env id serial generation attempt response stage m).0
  schedule_youtube_request_retry-IsRetried id serial generation attempt response stage m s h =
      retried id serial generation attempt response stage m s h

  -- A request is asked again while its operation is the current one, fewer than five retries were
  -- made, and the answer asks for a new token for the first time or is retryable.
  pub schedule_youtube_request_retry-accepts :
      (id : String) (serial generation attempt : ℕ) (response : HttpResponse) (stage : String)
      (m : Manager) (target : OutputTarget) (s : Session)
      → session_for_target m id ≡ some s
      → find_target m id ≡ some target
      → (serial_is s serial
          && s.youtube_operation_in_flight
          && eqb s.youtube_operation_generation generation)
        ≡ true
      → s.youtube_transient_retry_count < 5
      → (refresh_again response s
          || is_retryable_youtube_response env.qt response (platform_http_error env.qt response))
        ≡ true
      → (schedule_youtube_request_retry env id serial generation attempt response stage m).1 ≡ true
  unfolding schedule_youtube_request_retry youtube_operation_matches retry_for_session
  schedule_youtube_request_retry-accepts id serial generation attempt response stage m target s h
        found own few again =
      rw (h, schedule_youtube_request_retry)
        (rw (found, schedule_youtube_request_retry)
          (rw (h, youtube_operation_matches)
            (rw own (
              if_under (λ (p : Manager × Bool). p.1 ≡ true)
                (not (
                    refresh_again response s
                    || is_retryable_youtube_response env.qt response
                        (platform_http_error env.qt response))
                  || leb 5 s.youtube_transient_retry_count)
                (λ no. absurd (ground (arith, no, again, few))) (λ yes. refl)))))
