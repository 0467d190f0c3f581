-- ===== src/Manager/Answers/Selected/Kept.antt =====
-- What the choice of a broadcast keeps, and which transition it may ask for
-- (core/output-manager.cpp).
use obs_dsk_multistream.Base.{
  ℕ, String, ◌≡◌, refl, true, false, ◌||◌, ◌==◌, Option, none, some, List, [], ◌∷◌, ltb, eqb,
  if_cases, if_under, is_empty,
}
use obs_dsk_multistream.Target.{OutputTarget}
use obs_dsk_multistream.YouTube.Selection.{
  Broadcast, Stream, YoutubeBroadcastSelectionState, no_active_broadcast, selected,
  multiple_active_broadcasts, no_stream_key_match, multiple_stream_key_matches,
  preferred_broadcast_unavailable, select_youtube_broadcast,
}
use obs_dsk_multistream.YouTube.Selection.Laws.{fits, select_youtube_broadcast-fits}
use obs_dsk_multistream.YouTube.Request.{Ticket, Request, transition}
use obs_dsk_multistream.Manager.State.{Env, Manager, find_target, runtime_status_for_target}
use obs_dsk_multistream.Manager.Sessions.Counting.{SameHold}
use obs_dsk_multistream.Manager.Operation.Kept.{IsKept, complete-kept, schedule_poll-kept}
use obs_dsk_multistream.Manager.Requests.{complete}
use obs_dsk_multistream.Manager.Requests.Kept.{
  while_going_on-kept, warn-kept, unless_timed_out-kept,
}
use obs_dsk_multistream.Manager.Answers.Selected.{
  streams_by_id, reset_transient_retries, offer, write_waiting, next_status, blocked,
  transition_youtube_broadcast, already_live, wait_for_live, auto_starting, no_longer_waiting,
  transition_attempt, start_transition, continue_with, wait_for_signal, act_on,
  process_youtube_broadcast_selection,
}

-- The broadcast may be switched on: it fits the target, has an id, is neither live nor on its way
-- to be, and is not left to YouTube's Auto-start.
pub record IsSwitched (env : Env) (key : String) (streams : String → Option Stream) (b : Broadcast)
    : Type 0 where
  pub suitable : fits streams (env.trimmed key) b ≡ true
  pub named : is_empty (env.trimmed b.id) ≡ false
  pub not_live : (b.life_cycle_status == "live") ≡ false
  pub not_starting :
      (b.life_cycle_status == "testStarting" || b.life_cycle_status == "liveStarting") ≡ false
  pub own_start : b.enable_auto_start ≡ false

module _ (env : Env) (Q : Manager → Type 0) (Allowed : Ticket → Request → Type 0)
    (kept : IsKept env Q Allowed) where
  open kept use {platform, cleared, session_written, status_written, told, asked, sent}

  module _ (k : Ticket) where
    completed : (m : Manager) → Q m → Q (complete k m)
    unfolding complete
    completed m v = complete-kept env Q Allowed kept k.target_id k.serial k.generation m v

    reset-kept : (m : Manager) → Q m → Q (reset_transient_retries k m)
    unfolding reset_transient_retries
    reset-kept m v =
        session_written k.target_id _
          (λ s. record { target_kept = refl; key_kept = refl; output_kept = refl }) m v

    blocked-kept : (message : String) (m : Manager) → Q m → Q (blocked env k message m)
    unfolding blocked
    blocked-kept message m v = warn-kept env Q Allowed kept k message _ (reset-kept m v)

    offer-kept : (choices : List Broadcast) (m : Manager) → Q m → Q (offer k choices m)
    unfolding offer
    offer-kept choices m v = asked k.target_id k.serial k.generation choices m v

    already_live-kept :
        (target : OutputTarget) (m : Manager) → Q m → Q (already_live env k target m)
    unfolding already_live write_waiting
    already_live-kept target m v = told _ _ (
        platform k.target_id k.serial _ _ _ _ (
          cleared k.target_id _ (
            completed _ (
              session_written k.target_id (write_waiting 0)
                (λ s. record { target_kept = refl; key_kept = refl; output_kept = refl }) _
                (reset-kept m v)))))

    wait_for_live-kept :
        (shown message : String) (m : Manager) → Q m → Q (wait_for_live env k shown message m)
    unfolding wait_for_live
    wait_for_live-kept shown message m v =
        schedule_poll-kept env Q Allowed kept k.target_id k.serial k.generation _ 3000 _
          (completed _ (told _ _ (platform k.target_id k.serial _ _ _ m v)))

    auto_starting-kept :
        (target : OutputTarget) (m : Manager) → Q m → Q (auto_starting env k target m)
    unfolding auto_starting write_waiting
    auto_starting-kept target m v = wait_for_live-kept _ _ _ (
        session_written k.target_id _
          (λ s.
            if_cases (λ t. SameHold s t) (eqb s.youtube_auto_start_waiting_since_ms 0)
              (record { target_kept = refl; key_kept = refl; output_kept = refl })
              (record { target_kept = refl; key_kept = refl; output_kept = refl }))
          _ (reset-kept m v))

    wait_for_signal-kept :
        (target : OutputTarget) (m : Manager) → Q m → Q (wait_for_signal env k target m)
    unfolding wait_for_signal
    wait_for_signal-kept target m v =
        schedule_poll-kept env Q Allowed kept k.target_id k.serial k.generation _ 5000 _
          (completed _ (told _ _ (reset-kept _ (platform k.target_id k.serial _ _ _ m v))))

    transition-kept :
        (token id status : String)
        → Allowed k (transition token id status)
        → (m : Manager) → Q m
        → Q (transition_youtube_broadcast env k token id status m)
    unfolding transition_youtube_broadcast
    transition-kept token id status allowed m v =
        while_going_on-kept env Q Allowed kept k _ m v
          (λ target found. if_cases Q (is_empty id || is_empty status) v (sent k _ m allowed v))

  -- The requests that may follow for a broadcast, with whatever attempt.
  abbrev Switches : Ticket → String → Broadcast → Type 0
  Switches k token b =
      (n : ℕ)
      → Allowed (record k { attempt = n }) (transition token (env.trimmed b.id) (next_status b))

  start_transition-kept :
      (k : Ticket) (token : String) (b : Broadcast)
      → Switches k token b
      → (m : Manager) → Q m
      → Q (start_transition env k token b (env.trimmed b.id) m)
  unfolding start_transition no_longer_waiting write_waiting
  start_transition-kept k token b allowed m v =
      transition-kept (record k { attempt = transition_attempt env k m }) token (env.trimmed b.id)
        (next_status b) (allowed (transition_attempt env k m)) _
        (platform k.target_id k.serial _ _ _ _ (
          session_written k.target_id _
            (λ s.
              if_cases (λ t. SameHold s (record t { youtube_auto_start_waiting_since_ms = 0 }))
                (ltb 0 s.youtube_auto_start_waiting_since_ms)
                (record { target_kept = refl; key_kept = refl; output_kept = refl })
                (record { target_kept = refl; key_kept = refl; output_kept = refl }))
            m v))

  continue_with-kept :
      (k : Ticket) (token key : String) (streams : String → Option Stream) (target : OutputTarget)
      (b : Broadcast)
      → fits streams (env.trimmed key) b ≡ true
      → (IsSwitched env key streams b → Switches k token b)
      → (m : Manager) → Q m
      → Q (continue_with env k token target b m)
  unfolding continue_with
  continue_with-kept k token key streams target b ok allowed m v =
      let w = status_written k.target_id _ m v in
      if_under Q (is_empty (env.trimmed b.id)) (λ e. blocked-kept k _ m v)
        (λ named.
          if_under Q (b.life_cycle_status == "live") (λ e. already_live-kept k target _ w)
            (λ not_live.
              if_under Q
                (b.life_cycle_status == "testStarting" || b.life_cycle_status == "liveStarting")
                (λ e. wait_for_live-kept k _ _ _ (reset-kept k _ w))
                (λ not_starting.
                  if_under Q b.enable_auto_start (λ e. auto_starting-kept k target _ w)
                    (λ own_start.
                      start_transition-kept k token b
                        (allowed (record {
                          suitable = ok;
                          named = named;
                          not_live = not_live;
                          not_starting = not_starting;
                          own_start = own_start;
                        }))
                        _ w))))

  -- By the state and the broadcast of the selection.
  act_on-kept :
      (k : Ticket) (token key : String) (streams : String → Option Stream) (target : OutputTarget)
      (state : YoutubeBroadcastSelectionState) (chosen : Option Broadcast)
      (candidates : List Broadcast)
      → ((b : Broadcast) → chosen ≡ some b → fits streams (env.trimmed key) b ≡ true)
      → ((b : Broadcast) → IsSwitched env key streams b → Switches k token b)
      → (m : Manager) → Q m
      → Q (
          act_on env
            (record { state = state; broadcast = chosen; candidates = candidates })
            k
            token
            target
            m)
  unfolding act_on
  act_on-kept k token key streams target multiple_active_broadcasts chosen candidates ok allowed m
        v =
      offer-kept k candidates _ (blocked-kept k _ m v)
  act_on-kept k token key streams target multiple_stream_key_matches chosen candidates ok allowed m
        v =
      offer-kept k candidates _ (blocked-kept k _ m v)
  act_on-kept k token key streams target no_stream_key_match chosen candidates ok allowed m v =
      blocked-kept k _ m v
  act_on-kept k token key streams target preferred_broadcast_unavailable chosen [] ok allowed m v =
      blocked-kept k _ m v
  act_on-kept k token key streams target preferred_broadcast_unavailable chosen (c ∷ cs) ok allowed
        m v =
      offer-kept k (c ∷ cs) _ (blocked-kept k _ m v)
  act_on-kept k token key streams target selected none candidates ok allowed m v =
      wait_for_signal-kept k target m v
  act_on-kept k token key streams target selected (some b) candidates ok allowed m v =
      continue_with-kept k token key streams target b (ok b refl) (allowed b) m v
  act_on-kept k token key streams target no_active_broadcast chosen candidates ok allowed m v =
      wait_for_signal-kept k target m v

  pub process-kept :
      (k : Ticket) (token : String) (broadcasts : List Broadcast) (streams : List (String × Stream))
      (m : Manager)
      → ((target : OutputTarget) (b : Broadcast)
          → find_target m k.target_id ≡ some target
          → IsSwitched env target.stream_key (streams_by_id streams) b
          → Switches k token b)
      → Q m
      → Q (process_youtube_broadcast_selection env k token broadcasts streams m)
  unfolding process_youtube_broadcast_selection
  process-kept k token broadcasts streams m allowed v =
      while_going_on-kept env Q Allowed kept k _ m v (λ target found.
        unless_timed_out-kept env Q Allowed kept k _ m v (λ m' v'.
          let preferred = (runtime_status_for_target m' k.target_id).broadcast_id in
          let s =
            select_youtube_broadcast env.qt broadcasts (streams_by_id streams) target.stream_key
              preferred in
          act_on-kept k token target.stream_key (streams_by_id streams) target s.state s.broadcast
            s.candidates
            (select_youtube_broadcast-fits env.qt broadcasts (streams_by_id streams)
              target.stream_key preferred)
            (λ b. allowed target b found) m' v'))
