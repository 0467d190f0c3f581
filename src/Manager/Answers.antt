-- ===== src/Manager/Answers.antt =====
-- core/output-manager.cpp: the completions of YouTube's requests, from the access token to the
-- transition of the broadcast (refreshYouTubeAccessToken, listYouTubeBroadcastPage,
-- listYouTubeStreams, listYouTubeStreamBatch, processYouTubeBroadcastSelection,
-- transitionYouTubeBroadcast).
pub mod Selected
pub mod Follows
pub mod Balance
use obs_dsk_multistream.Base.{
  ℕ, zero, suc, ◌+◌, ◌*◌, String, ◌<>◌, Bool, true, not, ◌&&◌, ◌==◌, none, some, List, [], ◌∷◌,
  ◌++◌, ℤ, pos_part, eqb, ltb, if◌then◌else◌, is_empty, length,
}
use obs_dsk_multistream.Target.{OutputTarget}
use obs_dsk_multistream.Runtime.{PlatformLiveState}
use obs_dsk_multistream.YouTube.Response.{
  contains, platform_http_error, youtube_api_error_has_any_reason,
}
use obs_dsk_multistream.YouTube.Selection.{Broadcast, Stream}
use obs_dsk_multistream.YouTube.Request.{
  Ticket, Request, YoutubeAnswer, token_request, broadcast_page, stream_batch, transition,
}
use obs_dsk_multistream.Manager.State.{
  Session, Env, Manager, emit, session_for_target, update_session, set_runtime_platform,
  status_message, send_youtube_request,
}
use obs_dsk_multistream.Manager.Operation.{serial_is, schedule_poll}
use obs_dsk_multistream.Manager.Requests.{
  while_going_on, complete, warn, unless_timed_out, list_youtube_broadcasts,
  list_youtube_broadcast_page,
}
use obs_dsk_multistream.Manager.Broadcast.Retry.{schedule_youtube_request_retry}
use obs_dsk_multistream.Manager.Answers.Selected.{process_youtube_broadcast_selection}

-- YouTubeApiPageSize and YouTubeMaxBroadcastPagesPerStatus
abbrev pub page_size : ℕ
page_size = 50

abbrev pub max_broadcast_pages : ℕ
max_broadcast_pages = 10

-- The ids of the streams that the broadcasts are bound to, each once.
unfoldable pub bound_streams : List String → List Broadcast → List String
bound_streams known [] = known
bound_streams known (b ∷ bs) =
    let id = b.bound_stream_id in
    bound_streams
      (if not (is_empty id) && not (contains id known) then known ++ (id ∷ []) else known) bs

-- qMax(60, expiresIn) seconds
unfoldable pub lifetime_ms : ℤ → ℕ
lifetime_ms seconds = (if ltb 60 (pos_part seconds) then pos_part seconds else 60) * 1000

-- The batch of a request: streamIds.mid(offset, YouTubeApiPageSize).
unfoldable pub next_offset : List String → ℕ → ℕ
next_offset ids offset =
    if ltb (offset + page_size) (length ids) then offset + page_size else length ids

module _ (env : Env) where
  open env use {qt, now}

  -- A request that failed is asked again or ends the operation.
  unfoldable pub request_failed : Ticket → YoutubeAnswer → String → String → Manager → Manager
  request_failed k a stage message m =
      let (m', again) =
        schedule_youtube_request_retry env k.target_id k.serial k.generation k.attempt a.response
          stage m in
      if again then m' else warn env k message m'

  unfoldable pub with_token : YoutubeAnswer → Session → Session
  with_token a s = record s {
    youtube_transient_retry_count = 0;
    youtube_access_token = a.access_token;
    youtube_access_token_expires_at_ms = now + lifetime_ms a.expires_in;
  }

  unfoldable pub token_granted : Ticket → YoutubeAnswer → Manager → Manager
  token_granted k a m = elim (session_for_target m k.target_id) [
    | none ↦ m
    | some s ↦
        if serial_is s k.serial
        then list_youtube_broadcasts env k a.access_token
            (update_session k.target_id (with_token a) m)
        else m
  ]

  unfoldable pub token_answered : Ticket → YoutubeAnswer → Manager → Manager
  token_answered k a m =
      let error = platform_http_error qt a.response in
      while_going_on k
        (λ target m.
          if not (is_empty error)
          then request_failed k a "token refresh" ("YouTube token refresh failed: " <> error) m
          else if is_empty a.access_token
          then warn env k "YouTube token refresh failed: access token missing." m
          else token_granted k a m)
        m

  unfoldable pub list_youtube_stream_batch :
      Ticket
      → String
      → List Broadcast
      → List String
      → ℕ
      → List (String × Stream)
      → Manager
      → Manager
  list_youtube_stream_batch k token broadcasts ids offset streams m =
      while_going_on k
        (λ target m.
          unless_timed_out env k
            (λ m.
              if ltb offset (length ids)
              then emit (send_youtube_request k (stream_batch token broadcasts ids offset streams))
                  m
              else process_youtube_broadcast_selection env k token broadcasts streams m)
            m)
        m

  unfoldable pub list_for_streams : Ticket → String → List Broadcast → Manager → Manager
  list_for_streams k token broadcasts m = elim (bound_streams [] broadcasts) [
    | [] ↦ warn env k "YouTube broadcast lookup found no bound stream." m
    | id ∷ ids ↦ list_youtube_stream_batch k token broadcasts (id ∷ ids) 0 [] m
  ]

  unfoldable pub list_youtube_streams : Ticket → String → List Broadcast → Manager → Manager
  list_youtube_streams k token broadcasts m =
      while_going_on k (λ target m. unless_timed_out env k (list_for_streams k token broadcasts) m)
        m

  -- The last page of a list: the other list follows, or the streams.
  unfoldable pub pages_read : Ticket → String → String → List Broadcast → Manager → Manager
  pages_read k token status broadcasts m =
      if status == "upcoming"
      then list_youtube_broadcast_page env k token "active" "" 0 broadcasts m
      else elim broadcasts [
        | [] ↦ warn env k "YouTube broadcast lookup found no broadcasts." m
        | b ∷ bs ↦ list_youtube_streams k token (b ∷ bs) m
      ]

  unfoldable pub page_answered :
      Ticket → String → String → ℕ → List Broadcast → YoutubeAnswer → Manager → Manager
  page_answered k token status number broadcasts a m =
      let error = platform_http_error qt a.response in
      let all = broadcasts ++ a.broadcasts in
      while_going_on k
        (λ target m.
          if not (is_empty error)
          then request_failed k a "broadcast lookup" ("YouTube broadcast lookup failed: " <> error)
              m
          else if is_empty a.next_page_token
          then pages_read k token status all m
          else if ltb (number + 1) max_broadcast_pages
          then list_youtube_broadcast_page env k token status a.next_page_token (number + 1) all m
          else warn env k
              (("YouTube broadcast lookup blocked: the " <> status)
                <> " broadcast list exceeded 10 pages. Narrow or remove old scheduled broadcasts, then retry.")
              m)
        m

  unfoldable pub batch_answered :
      Ticket
      → String
      → List Broadcast
      → List String
      → ℕ
      → List (String × Stream)
      → YoutubeAnswer
      → Manager
      → Manager
  batch_answered k token broadcasts ids offset streams a m =
      let error = platform_http_error qt a.response in
      let all = streams ++ a.streams in
      while_going_on k
        (λ target m.
          if not (is_empty error)
          then request_failed k a "stream status" ("YouTube stream status lookup failed: " <> error)
              m
          else if ltb (next_offset ids offset) (length ids)
          then list_youtube_stream_batch k token broadcasts ids (next_offset ids offset) all m
          else process_youtube_broadcast_selection env k token broadcasts all m)
        m

  -- The operation ends, and the broadcast is looked at again later.
  unfoldable pub look_again : Ticket → PlatformLiveState → String → ℕ → Manager → Manager
  look_again k state message delay m =
      schedule_poll k.target_id k.serial k.generation (k.attempt + 1) delay
        (set_runtime_platform env k.target_id k.serial state message "" (complete k m))

  unfoldable pub transition_refused : Ticket → String → YoutubeAnswer → String → Manager → Manager
  transition_refused k status a error m =
      if youtube_api_error_has_any_reason qt a.response ("errorStreamInactive" ∷ [])
      then look_again k PlatformLiveState.waiting_for_signal
          "YouTube stream signal changed - checking again" 3000 m
      else if youtube_api_error_has_any_reason qt a.response ("redundantTransition" ∷ [])
      then look_again k PlatformLiveState.live_starting
          "YouTube transition is already processing - confirming status" 2000 m
      else request_failed k a "broadcast transition"
          (((("YouTube broadcast " <> status) <> " failed: ")) <> error) m

  unfoldable pub transition_accepted : Ticket → String → OutputTarget → Manager → Manager
  transition_accepted k status target m =
      let testing = status == "testing" in
      let shown =
        set_runtime_platform env k.target_id k.serial
          (if testing then PlatformLiveState.testing else PlatformLiveState.live_starting)
          (if testing
            then "YouTube monitor is testing"
            else "YouTube accepted the live transition - confirming status")
          "" (update_session k.target_id (λ s. record s { youtube_transient_retry_count = 0 }) m) in
      let told =
        emit
          (status_message (
            target.name
            <> (if testing
                then ": YouTube monitor is testing. Switching to live..."
                else ": YouTube accepted the live transition. Confirming...")))
          shown in
      schedule_poll k.target_id k.serial k.generation (k.attempt + 1) 3000 (complete k told)

  unfoldable pub transition_answered : Ticket → String → YoutubeAnswer → Manager → Manager
  transition_answered k status a m =
      let error = platform_http_error qt a.response in
      while_going_on k
        (λ target m.
          if not (is_empty error)
          then transition_refused k status a error m
          else transition_accepted k status target m)
        m

  -- HttpClient calls the completion of the request.
  pub answered : Ticket → Request → YoutubeAnswer → Manager → Manager
  answered k (token_request credentials refresh_token) a m = token_answered k a m
  answered k (broadcast_page token status page number broadcasts) a m =
      page_answered k token status number broadcasts a m
  answered k (stream_batch token broadcasts ids offset streams) a m =
      batch_answered k token broadcasts ids offset streams a m
  answered k (transition token broadcast_id status) a m = transition_answered k status a m
