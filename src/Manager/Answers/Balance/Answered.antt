-- ===== src/Manager/Answers/Balance/Answered.antt =====
-- The answers of YouTube against the balance of operations and requests (core/output-manager.cpp).
use obs_dsk_multistream.Base.{
  ℕ, ◌+◌, String, ◌≡◌, ◌⊎◌, refl, ◌∙◌, Bool, true, false, not, ◌||◌, ◌==◌, some, List, [], ◌∷◌,
  ◌++◌, arith, ltb, leb, if◌then◌else◌, if_cases, length, is_empty, Option-cases, inl, inr,
}
use obs_dsk_multistream.Target.{OutputTarget}
use obs_dsk_multistream.Runtime.{PlatformLiveState}
use obs_dsk_multistream.YouTube.Response.{
  HttpResponse, is_retryable_youtube_response, platform_http_error,
  youtube_api_error_has_any_reason,
}
use obs_dsk_multistream.YouTube.Selection.{Broadcast, Stream}
use obs_dsk_multistream.YouTube.Request.{
  Ticket, Request, YoutubeAnswer, token_request, broadcast_page, stream_batch, transition,
}
use obs_dsk_multistream.Manager.State.{
  Session, Env, Manager, find_target, session_for_target, update_session, runtime_status_for_target,
}
use obs_dsk_multistream.Manager.Operation.{serial_is, youtube_operation_matches}
use obs_dsk_multistream.Manager.Requests.{complete, goes_on, warn}
use obs_dsk_multistream.Manager.Broadcast.Retry.{
  retry_later, retry_for_session, schedule_youtube_request_retry, refresh_again, forget_token,
}
use obs_dsk_multistream.Manager.Answers.{
  max_broadcast_pages, bound_streams, request_failed, with_token, token_granted, token_answered,
  list_youtube_stream_batch, list_for_streams, list_youtube_streams, pages_read, page_answered,
  next_offset, batch_answered, look_again, transition_refused, transition_accepted,
  transition_answered, answered,
}
use obs_dsk_multistream.Manager.Answers.Follows.Sent.{
  requests, asked_of, platform-asked_of, unlogged,
}
use obs_dsk_multistream.Manager.Answers.Balance.{
  in_flight, IsBalanced, IsOver, IsGoing, over-IsBalanced, sent-IsBalanced, written-asked_of,
  complete-IsOver, platform-IsOver, warn-IsOver, schedule_poll-IsOver, while_going_on-IsBalanced,
}
use obs_dsk_multistream.Manager.Answers.Balance.Going.{session-IsGoing, unless_timed_out-IsBalanced}
use obs_dsk_multistream.Manager.Answers.Balance.Sending.{
  list_page-IsBalanced, list_broadcasts-IsBalanced, process-IsBalanced,
}

module _ (env : Env) (k : Ticket) where
  -- What scheduling a request again answers with: an operation that is over, or nothing asked.
  abbrev EndsOrRefuses : Manager × Bool → Type 0
  EndsOrRefuses p = ((p.1 ≡ true) × IsOver k p.0) ⊎ ((p.1 ≡ false) × (asked_of p.0 ≡ []))

  retry_later-IsOver :
      (stage : String) (number : ℕ) (m : Manager)
      → asked_of m ≡ []
      → IsOver k (retry_later env k.target_id k.serial k.generation k.attempt stage number m)
  unfolding retry_later complete
  retry_later-IsOver stage number m e =
      schedule_poll-IsOver k k.attempt _ _
        (platform-IsOver k env _ _ _ _ (complete-IsOver k _ (written-asked_of k _ m ∙ e)))

  retry_for_session-Ends :
      (s : Session) (response : HttpResponse) (stage : String) (m : Manager)
      → asked_of m ≡ []
      → EndsOrRefuses
          (retry_for_session env k.target_id s k.serial k.generation k.attempt response stage m)
  unfolding retry_for_session
  retry_for_session-Ends s response stage m e =
      let again = refresh_again response s in
      let forgotten = if again then update_session k.target_id forget_token m else m in
      let none_asked : asked_of forgotten ≡ [] =
        if_cases (λ m'. asked_of m' ≡ []) again (written-asked_of k forget_token m ∙ e) e in
      if_cases EndsOrRefuses
        (not (
            again
            || is_retryable_youtube_response env.qt response (platform_http_error env.qt response))
          || leb 5 s.youtube_transient_retry_count)
        (inr (refl, none_asked)) (inl (refl, retry_later-IsOver stage _ forgotten none_asked))

  retry-Ends :
      (response : HttpResponse) (stage : String) (m : Manager)
      → asked_of m ≡ []
      → EndsOrRefuses (
          schedule_youtube_request_retry env k.target_id k.serial k.generation k.attempt response
            stage m)
  unfolding schedule_youtube_request_retry
  retry-Ends response stage m e = elim (Option-cases (session_for_target m k.target_id)) [
    | inl missing ↦ rw (missing, schedule_youtube_request_retry) (inr (refl, e))
    | inr (s, held) ↦ elim (Option-cases (find_target m k.target_id)) [
      | inl missing ↦ rw (held, missing, schedule_youtube_request_retry) (inr (refl, e))
      | inr (target, found) ↦
          rw (held, found, schedule_youtube_request_retry)
            (if_cases EndsOrRefuses (in_flight k m) (retry_for_session-Ends s response stage m e)
              (inr (refl, e)))
    ]
  ]

  -- A request that failed is the end of the operation: another one asks again, after a while.
  request_failed-IsBalanced :
      (a : YoutubeAnswer) (stage message : String) (m : Manager)
      → IsGoing k m
      → IsBalanced k (request_failed env k a stage message m)
  unfolding request_failed
  request_failed-IsBalanced a stage message m v =
      by_answer
        (schedule_youtube_request_retry env k.target_id k.serial k.generation k.attempt a.response
          stage m)
        (retry-Ends a.response stage m v.none_asked)
    where
      by_answer :
          (p : Manager × Bool)
          → EndsOrRefuses p
          → IsBalanced k (if p.1 then p.0 else warn env k message p.0)
      by_answer p (inl (e, over)) = rw e (over-IsBalanced k p.0 over)
      by_answer p (inr (e, none_asked)) =
          rw e
            (over-IsBalanced k (warn env k message p.0) (warn-IsOver k env message p.0 none_asked))

  warn-IsBalanced :
      (message : String) (m : Manager) → IsGoing k m → IsBalanced k (warn env k message m)
  warn-IsBalanced message m v = over-IsBalanced k _ (warn-IsOver k env message m v.none_asked)

  token_granted-IsBalanced :
      (a : YoutubeAnswer) (m : Manager) → IsGoing k m → IsBalanced k (token_granted env k a m)
  unfolding token_granted with_token goes_on youtube_operation_matches
  token_granted-IsBalanced a m v = elim (Option-cases (session_for_target m k.target_id)) [
    | inl missing ↦ absurd (ground (arith, missing, v.goes))
    | inr (s, held) ↦
        let own : serial_is s k.serial ≡ true = ground (arith, held, v.goes) in
        rw (held, token_granted)
          (rw own (
            list_broadcasts-IsBalanced env k a.access_token _ (
              session-IsGoing k (with_token env a) m (λ t. refl) (λ t. refl) (λ t. refl) (λ t. refl)
                v)))
  ]

  token_answered-IsBalanced :
      (a : YoutubeAnswer) (m : Manager) → IsGoing k m → IsBalanced k (token_answered env k a m)
  unfolding token_answered
  token_answered-IsBalanced a m v = while_going_on-IsBalanced k _ m v (
      if_cases (IsBalanced k) (not (is_empty (platform_http_error env.qt a.response)))
        (request_failed-IsBalanced a _ _ m v)
        (if_cases (IsBalanced k) (is_empty a.access_token) (warn-IsBalanced _ m v)
          (token_granted-IsBalanced a m v)))

  stream_batch-IsBalanced :
      (token : String) (bs : List Broadcast) (ids : List String) (offset : ℕ)
      (streams : List (String × Stream)) (m : Manager)
      → IsGoing k m
      → IsBalanced k (list_youtube_stream_batch env k token bs ids offset streams m)
  unfolding list_youtube_stream_batch
  stream_batch-IsBalanced token bs ids offset streams m v = while_going_on-IsBalanced k _ m v (
      unless_timed_out-IsBalanced k env _ m v (
        if_cases (IsBalanced k) (ltb offset (length ids)) (sent-IsBalanced k _ m v)
          (process-IsBalanced env k token bs streams m v)))

  list_for_streams-IsBalanced :
      (token : String) (bs : List Broadcast) (m : Manager)
      → IsGoing k m
      → IsBalanced k (list_for_streams env k token bs m)
  unfolding list_for_streams
  list_for_streams-IsBalanced token bs m v = by_ids (bound_streams [] bs)
    where
      by_ids :
          (ids : List String)
          → IsBalanced k (elim ids [
            | [] ↦ warn env k "YouTube broadcast lookup found no bound stream." m
            | i ∷ is ↦ list_youtube_stream_batch env k token bs (i ∷ is) 0 [] m
          ])
      by_ids [] = warn-IsBalanced _ m v
      by_ids (i ∷ is) = stream_batch-IsBalanced token bs (i ∷ is) 0 [] m v

  list_streams-IsBalanced :
      (token : String) (bs : List Broadcast) (m : Manager)
      → IsGoing k m
      → IsBalanced k (list_youtube_streams env k token bs m)
  unfolding list_youtube_streams
  list_streams-IsBalanced token bs m v =
      while_going_on-IsBalanced k _ m v
        (unless_timed_out-IsBalanced k env _ m v (list_for_streams-IsBalanced token bs m v))

  pages_read-IsBalanced :
      (token status : String) (bs : List Broadcast) (m : Manager)
      → IsGoing k m
      → IsBalanced k (pages_read env k token status bs m)
  unfolding pages_read
  pages_read-IsBalanced token status [] m v =
      if_cases (IsBalanced k) (status == "upcoming")
        (list_page-IsBalanced env k token "active" "" 0 [] m v) (warn-IsBalanced _ m v)
  pages_read-IsBalanced token status (b ∷ bs) m v =
      if_cases (IsBalanced k) (status == "upcoming")
        (list_page-IsBalanced env k token "active" "" 0 (b ∷ bs) m v)
        (list_streams-IsBalanced token (b ∷ bs) m v)

  page_answered-IsBalanced :
      (token status : String) (number : ℕ) (bs : List Broadcast) (a : YoutubeAnswer) (m : Manager)
      → IsGoing k m
      → IsBalanced k (page_answered env k token status number bs a m)
  unfolding page_answered
  page_answered-IsBalanced token status number bs a m v = while_going_on-IsBalanced k _ m v (
      if_cases (IsBalanced k) (not (is_empty (platform_http_error env.qt a.response)))
        (request_failed-IsBalanced a _ _ m v)
        (if_cases (IsBalanced k) (is_empty a.next_page_token)
          (pages_read-IsBalanced token status (bs ++ a.broadcasts) m v)
          (if_cases (IsBalanced k) (ltb (number + 1) max_broadcast_pages)
            (list_page-IsBalanced env k token status a.next_page_token (number + 1) _ m v)
            (warn-IsBalanced _ m v))))

  batch_answered-IsBalanced :
      (token : String) (bs : List Broadcast) (ids : List String) (offset : ℕ)
      (streams : List (String × Stream)) (a : YoutubeAnswer) (m : Manager)
      → IsGoing k m
      → IsBalanced k (batch_answered env k token bs ids offset streams a m)
  unfolding batch_answered
  batch_answered-IsBalanced token bs ids offset streams a m v = while_going_on-IsBalanced k _ m v (
      if_cases (IsBalanced k) (not (is_empty (platform_http_error env.qt a.response)))
        (request_failed-IsBalanced a _ _ m v)
        (if_cases (IsBalanced k) (ltb (next_offset ids offset) (length ids))
          (stream_batch-IsBalanced token bs ids _ _ m v) (process-IsBalanced env k token bs _ m v)))

  look_again-IsBalanced :
      (state : PlatformLiveState) (message : String) (delay : ℕ) (m : Manager)
      → IsGoing k m
      → IsBalanced k (look_again env k state message delay m)
  unfolding look_again
  look_again-IsBalanced state message delay m v = over-IsBalanced k _ (
      schedule_poll-IsOver k _ delay _
        (platform-IsOver k env _ _ _ _ (complete-IsOver k m v.none_asked)))

  transition_accepted-IsBalanced :
      (status : String) (target : OutputTarget) (m : Manager)
      → IsGoing k m
      → IsBalanced k (transition_accepted env k status target m)
  unfolding transition_accepted asked_of
  transition_accepted-IsBalanced status target m v = over-IsBalanced k _ (
      schedule_poll-IsOver k _ 3000 _ (
        complete-IsOver k _ (
          platform-asked_of env k.target_id k.serial _ _ _ _
          ∙ (written-asked_of k _ m ∙ v.none_asked))))

  transition_answered-IsBalanced :
      (status : String) (a : YoutubeAnswer) (m : Manager)
      → IsGoing k m
      → IsBalanced k (transition_answered env k status a m)
  unfolding transition_answered transition_refused
  transition_answered-IsBalanced status a m v =
      let has = youtube_api_error_has_any_reason env.qt a.response in
      while_going_on-IsBalanced k _ m v (
        if_cases (IsBalanced k) (not (is_empty (platform_http_error env.qt a.response)))
          (if_cases (IsBalanced k) (has ("errorStreamInactive" ∷ []))
            (look_again-IsBalanced _ _ 3000 m v)
            (if_cases (IsBalanced k) (has ("redundantTransition" ∷ []))
              (look_again-IsBalanced _ _ 2000 m v) (request_failed-IsBalanced a _ _ m v)))
          (transition_accepted-IsBalanced status v.target m v))

  going-IsBalanced :
      (r : Request) (a : YoutubeAnswer) (m : Manager)
      → IsGoing k m
      → IsBalanced k (answered env k r a m)
  unfolding answered
  going-IsBalanced (token_request credentials refresh_token) a m v = token_answered-IsBalanced a m v
  going-IsBalanced (broadcast_page token status page number bs) a m v =
      page_answered-IsBalanced token status number bs a m v
  going-IsBalanced (stream_batch token bs ids offset streams) a m v =
      batch_answered-IsBalanced token bs ids offset streams a m v
  going-IsBalanced (transition token broadcast_id status) a m v =
      transition_answered-IsBalanced status a m v

  -- An answer to a request of an operation that goes on for a target, whatever it is: the call
  -- sends exactly one further request and the operation stays in flight, or it sends none and the
  -- operation is no longer in flight.
  pub answered-IsBalanced :
      (r : Request) (a : YoutubeAnswer) (target : OutputTarget) (m : Manager)
      → find_target m k.target_id ≡ some target
      → goes_on k m target ≡ true
      → length (requests (answered env k r a (unlogged m)).log)
        ≡ (if in_flight k (answered env k r a (unlogged m)) then 1 else 0)
  unfolding IsBalanced asked_of goes_on find_target youtube_operation_matches session_for_target
      runtime_status_for_target
  answered-IsBalanced r a target m found goes =
      going-IsBalanced r a (unlogged m)
        (record { target = target; none_asked = refl; found = found; goes = goes })
