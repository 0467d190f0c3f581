-- ===== src/Manager/Answers/Follows.antt =====
-- The requests that may follow on an answer of YouTube (core/output-manager.cpp).
pub mod Kept
pub mod Sent
pub mod Ending
use obs_dsk_multistream.Base.{
  eq_iff, ℕ, zero, suc, ◌+◌, ◌<◌, String, ◌<>◌, ◌≡◌, ◌⊎◌, refl, Bool, true, false, not, ◌==◌, none,
  some, List, [], ◌∷◌, ◌++◌, arith, ltb, ltb→lt, if◌then◌else◌, if_cases, if_under, is_empty,
  length, Option-cases, inl, inr,
}
use obs_dsk_multistream.Target.{OutputTarget}
use obs_dsk_multistream.YouTube.Response.{platform_http_error, youtube_api_error_has_any_reason}
use obs_dsk_multistream.YouTube.Selection.{Broadcast, Stream}
use obs_dsk_multistream.YouTube.Request.{
  Ticket, Request, YoutubeAnswer, token_request, broadcast_page, stream_batch, transition,
}
use obs_dsk_multistream.Manager.State.{
  Session, Env, Manager, find_target, session_for_target, update_session,
}
use obs_dsk_multistream.Manager.Operation.{serial_is}
use obs_dsk_multistream.Manager.Operation.Kept.{
  IsKept, KeptAnswer, complete-kept, schedule_poll-kept,
}
use obs_dsk_multistream.Manager.Requests.{complete, warn}
use obs_dsk_multistream.Manager.Requests.Kept.{
  while_going_on-kept, warn-kept, unless_timed_out-kept, list_youtube_broadcasts-kept,
  list_youtube_broadcast_page-kept,
}
use obs_dsk_multistream.Manager.Broadcast.Retry.{schedule_youtube_request_retry}
use obs_dsk_multistream.Manager.Broadcast.Retry.Kept.{request_retry-kept}
use obs_dsk_multistream.Manager.Answers.Selected.{streams_by_id, next_status}
use obs_dsk_multistream.Manager.Answers.Selected.Kept.{IsSwitched, process-kept}
use obs_dsk_multistream.Manager.Answers.{
  max_broadcast_pages, bound_streams, request_failed, with_token, token_granted, token_answered,
  list_youtube_stream_batch, list_for_streams, list_youtube_streams, pages_read, page_answered,
  next_offset, batch_answered, look_again, transition_refused, transition_accepted,
  transition_answered, answered,
}

-- A page of broadcasts is followed by the next page, up to the tenth, by the first page of the
-- active broadcasts, or by the streams.
pub data AfterPage (token status : String) (number : ℕ) (all : List Broadcast) (a : YoutubeAnswer)
    : Request → Type 0 where
  next_page :
      number + 1 < max_broadcast_pages
      → AfterPage token status number all a
          (broadcast_page token status a.next_page_token (number + 1) all)
  active_pages :
      status ≡ "upcoming"
      → AfterPage token status number all a (broadcast_page token "active" "" 0 all)
  first_batch :
      (ids : List String) → AfterPage token status number all a (stream_batch token all ids 0 [])

module _ (env : Env) (m : Manager) where
  -- A batch of streams is followed by the next one, or by the transition of a broadcast that is
  -- switched on for the target.
  pub data AfterBatch (k : Ticket) (token : String) (broadcasts : List Broadcast)
      (ids : List String) (offset : ℕ) (all : List (String × Stream))
      : Ticket → Request → Type 0 where
    next_batch :
        next_offset ids offset < length ids
        → AfterBatch k token broadcasts ids offset all k
            (stream_batch token broadcasts ids (next_offset ids offset) all)
    switched_on :
        (target : OutputTarget) (b : Broadcast) (n : ℕ)
        → find_target m k.target_id ≡ some target
        → IsSwitched env target.stream_key (streams_by_id all) b
        → AfterBatch k token broadcasts ids offset all
            (record k { attempt = n })
            (transition token (env.trimmed b.id) (next_status b))

  -- What may follow on the answer to a request. A transition is followed by nothing.
  abbrev pub Follows : Ticket → Request → YoutubeAnswer → Ticket → Request → Type 0
  Follows k (token_request credentials refresh_token) a k' r =
      (k' ≡ k) × (r ≡ broadcast_page a.access_token "upcoming" "" 0 [])
  Follows k (broadcast_page token status page number broadcasts) a k' r =
      (k' ≡ k) × AfterPage token status number (broadcasts ++ a.broadcasts) a r
  Follows k (stream_batch token broadcasts ids offset streams) a k' r =
      AfterBatch k token broadcasts ids offset (streams ++ a.streams) k' r
  Follows k (transition token broadcast_id status) a k' r = ⊥
