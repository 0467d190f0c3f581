-- ===== src/Manager/Answers/Follows/Kept.antt =====
-- What the answers of YouTube keep, and that no other request follows than may
-- (core/output-manager.cpp).
use obs_dsk_multistream.Base.{
  eq_iff, ℕ, ◌+◌, String, ◌≡◌, refl, true, not, ◌==◌, List, [], ◌∷◌, ◌++◌, arith, ltb, ltb→lt,
  if_cases, if_under, is_empty, length, Option-cases, inl, inr,
}
use obs_dsk_multistream.YouTube.Response.{platform_http_error, youtube_api_error_has_any_reason}
use obs_dsk_multistream.YouTube.Selection.{Broadcast, Stream}
use obs_dsk_multistream.YouTube.Request.{
  Ticket, Request, YoutubeAnswer, token_request, broadcast_page, stream_batch, transition,
}
use obs_dsk_multistream.Manager.State.{Env, Manager, session_for_target}
use obs_dsk_multistream.Manager.Operation.{serial_is}
use obs_dsk_multistream.Manager.Operation.Kept.{IsKept, complete-kept, schedule_poll-kept}
use obs_dsk_multistream.Manager.Requests.{complete, warn}
use obs_dsk_multistream.Manager.Requests.Kept.{
  while_going_on-kept, warn-kept, unless_timed_out-kept, list_youtube_broadcasts-kept,
  list_youtube_broadcast_page-kept,
}
use obs_dsk_multistream.Manager.Broadcast.Retry.{schedule_youtube_request_retry}
use obs_dsk_multistream.Manager.Broadcast.Retry.Kept.{request_retry-kept}
use obs_dsk_multistream.Manager.Answers.Selected.Kept.{process-kept}
use obs_dsk_multistream.Manager.Answers.{
  max_broadcast_pages, bound_streams, request_failed, with_token, token_granted, token_answered,
  list_youtube_stream_batch, list_for_streams, list_youtube_streams, pages_read, page_answered,
  next_offset, batch_answered, look_again, transition_refused, transition_accepted,
  transition_answered, answered,
}
use obs_dsk_multistream.Manager.Answers.Follows.{
  AfterPage, next_page, active_pages, first_batch, AfterBatch, next_batch, switched_on, Follows,
}

module _ (env : Env) (Q : Manager → Type 0) (Allowed : Ticket → Request → Type 0)
    (kept : IsKept env Q Allowed) where
  open kept use {platform, session_written, told}

  request_failed-kept :
      (k : Ticket) (a : YoutubeAnswer) (stage message : String) (m : Manager)
      → Q m
      → Q (request_failed env k a stage message m)
  unfolding request_failed
  request_failed-kept k a stage message m v =
      let p =
        schedule_youtube_request_retry env k.target_id k.serial k.generation k.attempt a.response
          stage m in
      let retried : Q p.0 =
        request_retry-kept env Q Allowed kept k.target_id k.serial k.generation k.attempt a.response
          stage m v in
      if_cases Q p.1 retried (warn-kept env Q Allowed kept k message p.0 retried)

  token_granted-kept :
      (k : Ticket) (a : YoutubeAnswer)
      → Allowed k (broadcast_page a.access_token "upcoming" "" 0 [])
      → (m : Manager) → Q m
      → Q (token_granted env k a m)
  unfolding token_granted with_token
  token_granted-kept k a allowed m v = elim (Option-cases (session_for_target m k.target_id)) [
    | inl missing ↦ rw (missing, token_granted) v
    | inr (s, held) ↦
        rw (held, token_granted)
          (if_cases Q (serial_is s k.serial)
            (list_youtube_broadcasts-kept env Q Allowed kept k a.access_token allowed _ (
              session_written k.target_id (with_token env a)
                (λ t. record { target_kept = refl; key_kept = refl; output_kept = refl }) m v))
            v)
  ]

  token_answered-kept :
      (k : Ticket) (a : YoutubeAnswer)
      → Allowed k (broadcast_page a.access_token "upcoming" "" 0 [])
      → (m : Manager) → Q m
      → Q (token_answered env k a m)
  unfolding token_answered
  token_answered-kept k a allowed m v =
      while_going_on-kept env Q Allowed kept k _ m v (λ target found.
        if_cases Q (not (is_empty (platform_http_error env.qt a.response)))
          (request_failed-kept k a _ _ m v)
          (if_cases Q (is_empty a.access_token) (warn-kept env Q Allowed kept k _ m v)
            (token_granted-kept k a allowed m v)))

  -- A batch that is not past the end is asked for.
  list_batch-kept :
      (k : Ticket) (token : String) (bs : List Broadcast) (ids : List String) (offset : ℕ)
      (streams : List (String × Stream))
      → ltb offset (length ids) ≡ true
      → Allowed k (stream_batch token bs ids offset streams)
      → (m : Manager) → Q m
      → Q (list_youtube_stream_batch env k token bs ids offset streams m)
  unfolding list_youtube_stream_batch
  list_batch-kept k token bs ids offset streams more allowed m v =
      while_going_on-kept env Q Allowed kept k _ m v (λ target found.
        unless_timed_out-kept env Q Allowed kept k _ m v
          (λ m' v'. rw more (kept.sent k _ m' allowed v')))

  list_streams-kept :
      (k : Ticket) (token : String) (bs : List Broadcast)
      → ((ids : List String) → Allowed k (stream_batch token bs ids 0 []))
      → (m : Manager) → Q m
      → Q (list_youtube_streams env k token bs m)
  unfolding list_youtube_streams list_for_streams
  list_streams-kept k token bs allowed m v =
      while_going_on-kept env Q Allowed kept k _ m v (λ target found.
        unless_timed_out-kept env Q Allowed kept k (list_for_streams env k token bs) m v
          (λ m' v'. by_ids (bound_streams [] bs) refl m' v'))
    where
      by_ids :
          (ids : List String)
          → bound_streams [] bs ≡ ids
          → (m : Manager) → Q m
          → Q (list_for_streams env k token bs m)
      by_ids [] e m v = rw (e, list_for_streams) (warn-kept env Q Allowed kept k _ m v)
      by_ids (id ∷ ids) e m v =
          rw (e, list_for_streams)
            (list_batch-kept k token bs (id ∷ ids) 0 [] (ground arith) (allowed (id ∷ ids)) m v)

  pages_read-kept :
      (k : Ticket) (token status : String) (all : List Broadcast)
      → (status ≡ "upcoming" → Allowed k (broadcast_page token "active" "" 0 all))
      → ((ids : List String) → Allowed k (stream_batch token all ids 0 []))
      → (m : Manager) → Q m
      → Q (pages_read env k token status all m)
  unfolding pages_read
  pages_read-kept k token status all active streams m v =
      if_under Q (status == "upcoming")
        (λ e.
          list_youtube_broadcast_page-kept env Q Allowed kept k token "active" "" 0 all
            (active ((eq_iff status "upcoming").0 e)) m v)
        (λ e. by_all all streams)
    where
      by_all :
          (bs : List Broadcast)
          → ((ids : List String) → Allowed k (stream_batch token bs ids 0 []))
          → Q (elim bs [
            | [] ↦ warn env k "YouTube broadcast lookup found no broadcasts." m
            | b ∷ cs ↦ list_youtube_streams env k token (b ∷ cs) m
          ])
      by_all [] streams = warn-kept env Q Allowed kept k _ m v
      by_all (b ∷ cs) streams = list_streams-kept k token (b ∷ cs) streams m v

  page_answered-kept :
      (k : Ticket) (token status : String) (number : ℕ) (bs : List Broadcast) (a : YoutubeAnswer)
      → ((r : Request) → AfterPage token status number (bs ++ a.broadcasts) a r → Allowed k r)
      → (m : Manager) → Q m
      → Q (page_answered env k token status number bs a m)
  unfolding page_answered
  page_answered-kept k token status number bs a allowed m v =
      let all = bs ++ a.broadcasts in
      while_going_on-kept env Q Allowed kept k _ m v (λ target found.
        if_cases Q (not (is_empty (platform_http_error env.qt a.response)))
          (request_failed-kept k a _ _ m v)
          (if_cases Q (is_empty a.next_page_token)
            (pages_read-kept k token status all (λ e. allowed _ (active_pages e))
              (λ ids. allowed _ (first_batch ids)) m v)
            (if_under Q (ltb (number + 1) max_broadcast_pages)
              (λ e.
                list_youtube_broadcast_page-kept env Q Allowed kept k token status a.next_page_token
                  (number + 1) all
                  (allowed _ (next_page (ltb→lt (number + 1) max_broadcast_pages e))) m v)
              (λ e. warn-kept env Q Allowed kept k _ m v))))

  batch_answered-kept :
      (k : Ticket) (token : String) (bs : List Broadcast) (ids : List String) (offset : ℕ)
      (streams : List (String × Stream)) (a : YoutubeAnswer) (m : Manager)
      → ((k' : Ticket) (r : Request)
          → AfterBatch env m k token bs ids offset (streams ++ a.streams) k' r
          → Allowed k' r)
      → Q m
      → Q (batch_answered env k token bs ids offset streams a m)
  unfolding batch_answered
  batch_answered-kept k token bs ids offset streams a m allowed v =
      let all = streams ++ a.streams in
      while_going_on-kept env Q Allowed kept k _ m v (λ target found.
        if_cases Q (not (is_empty (platform_http_error env.qt a.response)))
          (request_failed-kept k a _ _ m v)
          (if_under Q (ltb (next_offset ids offset) (length ids))
            (λ e.
              list_batch-kept k token bs ids (next_offset ids offset) all e
                (allowed k _ (next_batch (ltb→lt (next_offset ids offset) (length ids) e))) m v)
            (λ e.
              process-kept env Q Allowed kept k token bs all m
                (λ target b found s n. allowed _ _ (switched_on target b n found s)) v)))

  look_again-kept :
      (k : Ticket) (state : _) (message : String) (delay : ℕ) (m : Manager)
      → Q m
      → Q (look_again env k state message delay m)
  unfolding look_again complete
  look_again-kept k state message delay m v =
      schedule_poll-kept env Q Allowed kept k.target_id k.serial k.generation _ delay _ (
        platform k.target_id k.serial _ _ _ _
          (complete-kept env Q Allowed kept k.target_id k.serial k.generation m v))

  transition_answered-kept :
      (k : Ticket) (status : String) (a : YoutubeAnswer) (m : Manager)
      → Q m
      → Q (transition_answered env k status a m)
  unfolding transition_answered transition_refused transition_accepted complete
  transition_answered-kept k status a m v =
      while_going_on-kept env Q Allowed kept k _ m v (λ target found.
        if_cases Q (not (is_empty (platform_http_error env.qt a.response)))
          (if_cases Q
            (youtube_api_error_has_any_reason env.qt a.response ("errorStreamInactive" ∷ []))
            (look_again-kept k _ _ 3000 m v)
            (if_cases Q
              (youtube_api_error_has_any_reason env.qt a.response ("redundantTransition" ∷ []))
              (look_again-kept k _ _ 2000 m v) (request_failed-kept k a _ _ m v)))
          (schedule_poll-kept env Q Allowed kept k.target_id k.serial k.generation _ 3000 _ (
            complete-kept env Q Allowed kept k.target_id k.serial k.generation _ (
              told _ _ (
                platform k.target_id k.serial _ _ _ _ (
                  session_written k.target_id _
                    (λ s. record { target_kept = refl; key_kept = refl; output_kept = refl }) m
                    v))))))

  -- An answer keeps what the writes of the operation and the requests that may follow keep.
  pub answered-kept :
      (k : Ticket) (r : Request) (a : YoutubeAnswer) (m : Manager)
      → ((k' : Ticket) (r' : Request) → Follows env m k r a k' r' → Allowed k' r')
      → Q m
      → Q (answered env k r a m)
  unfolding answered
  answered-kept k (token_request credentials refresh_token) a m allowed v =
      token_answered-kept k a (allowed k _ (refl, refl)) m v
  answered-kept k (broadcast_page token status page number bs) a m allowed v =
      page_answered-kept k token status number bs a (λ r f. allowed k r (refl, f)) m v
  answered-kept k (stream_batch token bs ids offset streams) a m allowed v =
      batch_answered-kept k token bs ids offset streams a m allowed v
  answered-kept k (transition token broadcast_id status) a m allowed v =
      transition_answered-kept k status a m v
