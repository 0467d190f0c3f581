-- ===== src/Manager/Broadcast/Retry/Kept.antt =====
-- What a retry of a YouTube request keeps (core/output-manager.cpp).
use obs_dsk_multistream.Base.{
  ℕ, ◌+◌, String, refl, Bool, not, ◌||◌, leb, if_cases, if◌then◌else◌, Option-cases, inl, inr,
}
use obs_dsk_multistream.YouTube.Response.{
  HttpResponse, is_retryable_youtube_response, platform_http_error,
}
use obs_dsk_multistream.YouTube.Request.{Ticket, Request}
use obs_dsk_multistream.Manager.State.{
  Session, Env, Manager, find_target, session_for_target, update_session,
}
use obs_dsk_multistream.Manager.Operation.{youtube_operation_matches}
use obs_dsk_multistream.Manager.Operation.Kept.{
  IsKept, KeptAnswer, complete-kept, schedule_poll-kept,
}
use obs_dsk_multistream.Manager.Broadcast.Retry.{
  retry_delay_ms, refresh_again, forget_token, retry_later, retry_for_session,
  schedule_youtube_request_retry,
}

module _ (env : Env) (Q : Manager → Type 0) (Allowed : Ticket → Request → Type 0)
    (kept : IsKept env Q Allowed) where
  open kept use {platform, session_written}

  abbrev Answered : Manager × Bool → Type 0
  Answered = KeptAnswer env Q Allowed kept

  retry_later-kept :
      (id : String) (serial generation attempt : ℕ) (stage : String) (n : ℕ) (m : Manager)
      → Q m
      → Q (retry_later env id serial generation attempt stage n m)
  unfolding retry_later
  retry_later-kept id serial generation attempt stage n m v =
      schedule_poll-kept env Q Allowed kept id serial generation attempt (retry_delay_ms n) _ (
        platform id serial _ _ _ _ (
          complete-kept env Q Allowed kept id serial generation _ (
            session_written id (λ s. record s { youtube_transient_retry_count = n })
              (λ t. record { target_kept = refl; key_kept = refl; output_kept = refl }) m v)))

  retry_for_session-kept :
      (id : String) (s : Session) (serial generation attempt : ℕ) (response : HttpResponse)
      (stage : String) (m : Manager)
      → Q m
      → Answered (retry_for_session env id s serial generation attempt response stage m)
  unfolding retry_for_session
  retry_for_session-kept id s serial generation attempt response stage m v =
      let forgotten : Q (if refresh_again response s then update_session id forget_token m else m) =
        if_cases Q (refresh_again response s)
          (session_written id forget_token
            (λ t. record { target_kept = refl; key_kept = refl; output_kept = refl }) m v)
          v in
      if_cases Answered
        (not (
            refresh_again response s
            || is_retryable_youtube_response env.qt response (platform_http_error env.qt response))
          || leb 5 s.youtube_transient_retry_count)
        forgotten
        (retry_later-kept id serial generation attempt stage (s.youtube_transient_retry_count + 1) _
          forgotten)

  pub request_retry-kept :
      (id : String) (serial generation attempt : ℕ) (response : HttpResponse) (stage : String)
      (m : Manager)
      → Q m
      → Answered (schedule_youtube_request_retry env id serial generation attempt response stage m)
  unfolding schedule_youtube_request_retry
  request_retry-kept id serial generation attempt response stage m v =
      elim (Option-cases (session_for_target m id)) [
        | inl missing ↦ rw (missing, schedule_youtube_request_retry) v
        | inr (s, held) ↦
            rw (held, schedule_youtube_request_retry)
              (elim (Option-cases (find_target m id)) [
                | inl gone ↦ rw (gone, schedule_youtube_request_retry) v
                | inr (target, found) ↦
                    rw (found, schedule_youtube_request_retry)
                      (if_cases Answered (youtube_operation_matches m id serial generation)
                        (retry_for_session-kept id s serial generation attempt response stage m v)
                        v)
              ])
      ]
