-- ===== src/Manager/Answers/Selected.antt =====
-- core/output-manager.cpp: what follows from the broadcast that YouTube's answers select
-- (processYouTubeBroadcastSelection, transitionYouTubeBroadcast up to the answer).
pub mod Kept
use obs_dsk_multistream.Base.{
  ℕ, ◌+◌, String, ◌<>◌, Bool, true, false, not, ◌&&◌, ◌||◌, ◌==◌, Option, none, some, List, [], ◌∷◌,
  eqb, ltb, if◌then◌else◌, is_empty, get_or_else,
}
use obs_dsk_multistream.Target.{OutputTarget}
use obs_dsk_multistream.Runtime.{PlatformLiveState}
use obs_dsk_multistream.YouTube.Selection.{
  Broadcast, Stream, YoutubeBroadcastSelection, no_active_broadcast, selected,
  multiple_active_broadcasts, no_stream_key_match, multiple_stream_key_matches,
  preferred_broadcast_unavailable, select_youtube_broadcast,
}
use obs_dsk_multistream.YouTube.Request.{Ticket, Request, transition}
use obs_dsk_multistream.Manager.State.{
  Session, Env, Manager, emit, session_for_target, update_session, runtime_status_for_target,
  with_runtime_status, set_runtime_platform, clear_target_api_warning, status_message,
  send_youtube_request, youtube_broadcast_selection_required,
}
use obs_dsk_multistream.Manager.Operation.{schedule_poll}
use obs_dsk_multistream.Manager.Requests.{while_going_on, complete, warn, unless_timed_out}

-- streamsById: a later stream with the same id replaces an earlier one.
unfoldable pub streams_by_id : List (String × Stream) → String → Option Stream
streams_by_id [] id = none
streams_by_id ((i, s) ∷ rest) id = elim (streams_by_id rest id) [
  | some t ↦ some t
  | none ↦ if i == id then some s else none
]

unfoldable pub reset_transient_retries : Ticket → Manager → Manager
reset_transient_retries k m =
    update_session k.target_id (λ s. record s { youtube_transient_retry_count = 0 }) m

-- The choices are offered to the user.
unfoldable pub offer : Ticket → List Broadcast → Manager → Manager
offer k choices m =
    emit (youtube_broadcast_selection_required k.target_id k.serial k.generation choices) m

unfoldable pub write_waiting : ℕ → Session → Session
write_waiting since s = record s { youtube_auto_start_waiting_since_ms = since }

-- The monitor stream is tested first, unless it is off or was tested already.
unfoldable pub next_status : Broadcast → String
next_status b =
    if get_or_else b.enable_monitor_stream true && not (b.life_cycle_status == "testing")
    then "testing"
    else "live"

module _ (env : Env) where
  open env use {qt, now, trimmed}

  unfoldable pub blocked : Ticket → String → Manager → Manager
  unfolding reset_transient_retries
  blocked k message m = warn env k message (reset_transient_retries k m)

  unfoldable pub transition_youtube_broadcast :
      Ticket → String → String → String → Manager → Manager
  transition_youtube_broadcast k token broadcast_id status m =
      while_going_on k
        (λ target m.
          if is_empty broadcast_id || is_empty status
          then m
          else emit (send_youtube_request k (transition token broadcast_id status)) m)
        m

  unfoldable pub already_live : Ticket → OutputTarget → Manager → Manager
  already_live k target m =
      let ended =
        complete k (update_session k.target_id (write_waiting 0) (reset_transient_retries k m)) in
      emit (status_message (target.name <> ": YouTube broadcast is already live.")) (
        set_runtime_platform env k.target_id k.serial PlatformLiveState.live
          "YouTube broadcast is live" "" (clear_target_api_warning env k.target_id ended))

  -- The operation ends with a poll that is to follow.
  unfoldable pub wait_for_live : Ticket → String → String → Manager → Manager
  wait_for_live k shown message m =
      schedule_poll k.target_id k.serial k.generation (k.attempt + 1) 3000 (
        complete k (
          emit (status_message message) (
            set_runtime_platform env k.target_id k.serial PlatformLiveState.live_starting shown ""
              m)))

  unfoldable pub auto_starting : Ticket → OutputTarget → Manager → Manager
  auto_starting k target m =
      wait_for_live k "YouTube Auto-start is enabled - waiting for live"
        (target.name <> ": YouTube Auto-start is enabled. Waiting for live...")
        (update_session k.target_id
          (λ s. if eqb s.youtube_auto_start_waiting_since_ms 0 then write_waiting now s else s)
          (reset_transient_retries k m))

  -- A broadcast that was waited for gets a new time limit and attempts.
  unfoldable pub no_longer_waiting : Session → Session
  no_longer_waiting s = write_waiting 0 (
      if ltb 0 s.youtube_auto_start_waiting_since_ms
      then record s { youtube_signal_active_at_ms = now }
      else s)

  unfoldable pub transition_attempt : Ticket → Manager → ℕ
  transition_attempt k m = elim (session_for_target m k.target_id) [
    | none ↦ k.attempt
    | some s ↦ if ltb 0 s.youtube_auto_start_waiting_since_ms then 0 else k.attempt
  ]

  unfoldable pub start_transition : Ticket → String → Broadcast → String → Manager → Manager
  start_transition k token b broadcast_id m =
      let testing = next_status b == "testing" in
      let shown =
        set_runtime_platform env k.target_id k.serial
          (if testing then PlatformLiveState.testing else PlatformLiveState.live_starting)
          (if testing then "YouTube monitor is testing" else "YouTube is switching to live") ""
          (update_session k.target_id no_longer_waiting m) in
      transition_youtube_broadcast (record k { attempt = transition_attempt k m }) token
        broadcast_id (next_status b) shown

  unfoldable pub continue_with : Ticket → String → OutputTarget → Broadcast → Manager → Manager
  continue_with k token target b m =
      let id = trimmed b.id in
      let named = with_runtime_status k.target_id (λ r. record r { broadcast_id = id }) m in
      if is_empty id
      then blocked k
          "YouTube broadcast start blocked: selected broadcast unavailable because its ID was missing."
          m
      else if b.life_cycle_status == "live"
      then already_live k target named
      else if b.life_cycle_status == "testStarting" || b.life_cycle_status == "liveStarting"
      then wait_for_live k "YouTube is switching to live"
          (((target.name <> ": YouTube broadcast is ") <> b.life_cycle_status) <> ". Waiting...")
          (reset_transient_retries k named)
      else if b.enable_auto_start
      then auto_starting k target named
      else start_transition k token b id named

  unfoldable pub wait_for_signal : Ticket → OutputTarget → Manager → Manager
  wait_for_signal k target m =
      let shown =
        set_runtime_platform env k.target_id k.serial PlatformLiveState.waiting_for_signal
          "RTMP connected - waiting for YouTube signal" "" m in
      schedule_poll k.target_id k.serial k.generation (k.attempt + 1) 5000 (
        complete k (
          emit (status_message (target.name <> ": Waiting for YouTube stream signal..."))
            (reset_transient_retries k shown)))

  unfoldable pub act_on :
      YoutubeBroadcastSelection → Ticket → String → OutputTarget → Manager → Manager
  act_on selection k token target m = elim selection.state [
    | multiple_active_broadcasts ↦ offer k selection.candidates (
        blocked k
          "YouTube broadcast start blocked: multiple active broadcasts were found. Choose the broadcast in DSK Streaming."
          m)
    | multiple_stream_key_matches ↦ offer k selection.candidates (
        blocked k
          "YouTube broadcast start blocked: multiple active broadcasts matched this target's stream key. Choose the broadcast in DSK Streaming."
          m)
    | no_stream_key_match ↦
        blocked k
          "YouTube broadcast start blocked: no active broadcast matched this target's stream key." m
    | preferred_broadcast_unavailable ↦
        let told =
          blocked k
            "YouTube broadcast start blocked: selected broadcast unavailable. Choose another broadcast in DSK Streaming."
            m in
        elim selection.candidates [ [] ↦ told | b ∷ bs ↦ offer k (b ∷ bs) told ]
    | selected ↦ elim selection.broadcast [
      | none ↦ wait_for_signal k target m
      | some b ↦ continue_with k token target b m
    ]
    | no_active_broadcast ↦ wait_for_signal k target m
  ]

  unfoldable pub process_youtube_broadcast_selection :
      Ticket → String → List Broadcast → List (String × Stream) → Manager → Manager
  process_youtube_broadcast_selection k token broadcasts streams m =
      while_going_on k
        (λ target m.
          unless_timed_out env k
            (λ m.
              act_on
                (select_youtube_broadcast qt broadcasts (streams_by_id streams) target.stream_key
                  (runtime_status_for_target m k.target_id).broadcast_id)
                k token target m)
            m)
        m
