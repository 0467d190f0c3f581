-- ===== src/Manager/Answers/Balance/Sending.antt =====
-- The sending half of a YouTube operation against the balance of operations and requests
-- (core/output-manager.cpp).
use obs_dsk_multistream.Base.{
  ℕ, String, ◌≡◌, refl, ◌∙◌, true, false, not, ◌&&◌, ◌||◌, ◌==◌, Option, none, some, List, [], ◌∷◌,
  arith, if_cases, if_under, is_empty, get_or_else,
}
use obs_dsk_multistream.Target.{OutputTarget}
use obs_dsk_multistream.YouTube.Selection.{
  Broadcast, Stream, YoutubeBroadcastSelectionState, no_active_broadcast, selected,
  multiple_active_broadcasts, no_stream_key_match, multiple_stream_key_matches,
  preferred_broadcast_unavailable, select_youtube_broadcast,
}
use obs_dsk_multistream.YouTube.Request.{Ticket}
use obs_dsk_multistream.Manager.State.{
  Env, Manager, emit, runtime_status_for_target, youtube_broadcast_selection_required,
}
use obs_dsk_multistream.Manager.Requests.{
  goes_on, list_youtube_broadcast_page, find_broadcast, list_youtube_broadcasts,
}
use obs_dsk_multistream.Manager.Answers.Selected.{
  streams_by_id, reset_transient_retries, offer, write_waiting, next_status, blocked,
  transition_youtube_broadcast, already_live, wait_for_live, auto_starting, no_longer_waiting,
  transition_attempt, start_transition, continue_with, wait_for_signal, act_on,
  process_youtube_broadcast_selection,
}
use obs_dsk_multistream.Manager.Answers.Follows.Sent.{asked_of, platform-asked_of}
use obs_dsk_multistream.Manager.Answers.Balance.{
  IsBalanced, IsOver, IsGoing, over-IsBalanced, sent-IsBalanced, same-IsOver, written-asked_of,
  complete-IsOver, platform-IsOver, cleared-IsOver, told-IsOver, warn-IsOver, schedule_poll-IsOver,
  while_going_on-IsBalanced,
}
use obs_dsk_multistream.Manager.Answers.Balance.Going.{
  platform-IsGoing, named-IsGoing, session-IsGoing, unless_timed_out-IsBalanced,
}

module _ (env : Env) where
  module _ (k : Ticket) where
    pub list_page-IsBalanced :
        (token status page : String) (number : ℕ) (bs : List Broadcast) (m : Manager)
        → IsGoing k m
        → IsBalanced k (list_youtube_broadcast_page env k token status page number bs m)
    unfolding list_youtube_broadcast_page
    list_page-IsBalanced token status page number bs m v =
        while_going_on-IsBalanced k _ m v
          (unless_timed_out-IsBalanced k env _ m v (sent-IsBalanced k _ m v))

    pub list_broadcasts-IsBalanced :
        (token : String) (m : Manager)
        → IsGoing k m
        → IsBalanced k (list_youtube_broadcasts env k token m)
    unfolding list_youtube_broadcasts find_broadcast
    list_broadcasts-IsBalanced token m v = while_going_on-IsBalanced k _ m v (
        unless_timed_out-IsBalanced k env (find_broadcast env k token) m v
          (list_page-IsBalanced token "upcoming" "" 0 [] _ (platform-IsGoing k env _ _ _ m v)))

    reset-IsGoing : (m : Manager) → IsGoing k m → IsGoing k (reset_transient_retries k m)
    unfolding reset_transient_retries
    reset-IsGoing m v = session-IsGoing k _ m (λ s. refl) (λ s. refl) (λ s. refl) (λ s. refl) v

    blocked-IsOver :
        (message : String) (m : Manager) → IsGoing k m → IsOver k (blocked env k message m)
    unfolding blocked
    blocked-IsOver message m v = warn-IsOver k env message _ (written-asked_of k _ m ∙ v.none_asked)

    offer-IsOver :
        (choices : List Broadcast) (m : Manager) → IsOver k m → IsOver k (offer k choices m)
    unfolding offer asked_of
    offer-IsOver choices m =
        same-IsOver k m
          (emit (youtube_broadcast_selection_required k.target_id k.serial k.generation choices) m)
          refl refl

    already_live-IsOver :
        (target : OutputTarget) (m : Manager) → IsGoing k m → IsOver k (already_live env k target m)
    unfolding already_live reset_transient_retries
    already_live-IsOver target m v = told-IsOver k env _ _ (
        platform-IsOver k env _ _ _ _ (
          cleared-IsOver k env _ (
            complete-IsOver k _
              (written-asked_of k _ _ ∙ (written-asked_of k _ m ∙ v.none_asked)))))

    wait_for_live-IsOver :
        (shown message : String) (m : Manager)
        → asked_of m ≡ []
        → IsOver k (wait_for_live env k shown message m)
    unfolding wait_for_live asked_of
    wait_for_live-IsOver shown message m e =
        schedule_poll-IsOver k _ 3000 _
          (complete-IsOver k _ (platform-asked_of env k.target_id k.serial _ _ _ m ∙ e))

    auto_starting-IsOver :
        (target : OutputTarget) (m : Manager)
        → IsGoing k m
        → IsOver k (auto_starting env k target m)
    unfolding auto_starting reset_transient_retries
    auto_starting-IsOver target m v =
        wait_for_live-IsOver _ _ _
          (written-asked_of k _ _ ∙ (written-asked_of k _ m ∙ v.none_asked))

    wait_for_signal-IsOver :
        (target : OutputTarget) (m : Manager)
        → IsGoing k m
        → IsOver k (wait_for_signal env k target m)
    unfolding wait_for_signal reset_transient_retries asked_of
    wait_for_signal-IsOver target m v = schedule_poll-IsOver k _ 5000 _ (
        complete-IsOver k _ (
          written-asked_of k _ _
          ∙ (platform-asked_of env k.target_id k.serial _ _ _ m ∙ v.none_asked)))

    transition-IsBalanced :
        (token id status : String) (m : Manager)
        → is_empty id ≡ false
        → is_empty status ≡ false
        → IsGoing k m
        → IsBalanced k (transition_youtube_broadcast env k token id status m)
    unfolding transition_youtube_broadcast
    transition-IsBalanced token id status m named told v = while_going_on-IsBalanced k _ m v (
        if_under (IsBalanced k) (is_empty id || is_empty status)
          (λ e. absurd (ground (arith, e, named, told))) (λ e. sent-IsBalanced k _ m v))

  next_status_given : (b : Broadcast) → is_empty (next_status b) ≡ false
  unfolding next_status
  next_status_given b =
      if_cases (λ s. is_empty s ≡ false)
        (get_or_else b.enable_monitor_stream true && not (b.life_cycle_status == "testing")) refl
        refl

  -- The attempt has no part in the operation.
  retried-IsGoing :
      (k : Ticket) (n : ℕ) (m : Manager) → IsGoing k m → IsGoing (record k { attempt = n }) m
  unfolding goes_on
  retried-IsGoing k n m v = record {
    target = v.target;
    none_asked = v.none_asked;
    found = v.found;
    goes = v.goes;
  }

  retried-IsBalanced :
      (k : Ticket) (n : ℕ) (m : Manager) → IsBalanced (record k { attempt = n }) m → IsBalanced k m
  unfolding IsBalanced
  retried-IsBalanced k n m b = b

  module _ (k : Ticket) where
    start_transition-IsBalanced :
        (token : String) (b : Broadcast) (id : String) (m : Manager)
        → is_empty id ≡ false
        → IsGoing k m
        → IsBalanced k (start_transition env k token b id m)
    unfolding start_transition no_longer_waiting write_waiting
    start_transition-IsBalanced token b id m named v =
        let n = transition_attempt env k m in
        retried-IsBalanced k n _ (
          transition-IsBalanced (record k { attempt = n }) token id (next_status b) _ named
            (next_status_given b)
            (retried-IsGoing k n _ (
              platform-IsGoing k env _ _ _ _ (
                session-IsGoing k _ m (λ s. ground arith) (λ s. ground arith) (λ s. ground arith)
                  (λ s. ground arith) v))))

    continue_with-IsBalanced :
        (token : String) (target : OutputTarget) (b : Broadcast) (m : Manager)
        → IsGoing k m
        → IsBalanced k (continue_with env k token target b m)
    unfolding continue_with
    continue_with-IsBalanced token target b m v =
        let w = named-IsGoing k (env.trimmed b.id) m v in
        if_under (IsBalanced k) (is_empty (env.trimmed b.id))
          (λ e. over-IsBalanced k _ (blocked-IsOver k _ m v))
          (λ named.
            if_cases (IsBalanced k) (b.life_cycle_status == "live")
              (over-IsBalanced k _ (already_live-IsOver k target _ w))
              (if_cases (IsBalanced k)
                (b.life_cycle_status == "testStarting" || b.life_cycle_status == "liveStarting")
                (over-IsBalanced k _
                  (wait_for_live-IsOver k _ _ _ ((reset-IsGoing k _ w).none_asked)))
                (if_cases (IsBalanced k) b.enable_auto_start
                  (over-IsBalanced k _ (auto_starting-IsOver k target _ w))
                  (start_transition-IsBalanced token b (env.trimmed b.id) _ named w))))

    act_on-IsBalanced :
        (token : String) (target : OutputTarget) (state : YoutubeBroadcastSelectionState)
        (chosen : Option Broadcast) (candidates : List Broadcast) (m : Manager)
        → IsGoing k m
        → IsBalanced k (
            act_on env
              (record { state = state; broadcast = chosen; candidates = candidates })
              k
              token
              target
              m)
    unfolding act_on
    act_on-IsBalanced token target multiple_active_broadcasts chosen candidates m v =
        over-IsBalanced k _ (offer-IsOver k candidates _ (blocked-IsOver k _ m v))
    act_on-IsBalanced token target multiple_stream_key_matches chosen candidates m v =
        over-IsBalanced k _ (offer-IsOver k candidates _ (blocked-IsOver k _ m v))
    act_on-IsBalanced token target no_stream_key_match chosen candidates m v =
        over-IsBalanced k _ (blocked-IsOver k _ m v)
    act_on-IsBalanced token target preferred_broadcast_unavailable chosen [] m v =
        over-IsBalanced k _ (blocked-IsOver k _ m v)
    act_on-IsBalanced token target preferred_broadcast_unavailable chosen (c ∷ cs) m v =
        over-IsBalanced k _ (offer-IsOver k (c ∷ cs) _ (blocked-IsOver k _ m v))
    act_on-IsBalanced token target selected none candidates m v =
        over-IsBalanced k _ (wait_for_signal-IsOver k target m v)
    act_on-IsBalanced token target selected (some b) candidates m v =
        continue_with-IsBalanced token target b m v
    act_on-IsBalanced token target no_active_broadcast chosen candidates m v =
        over-IsBalanced k _ (wait_for_signal-IsOver k target m v)

    pub process-IsBalanced :
        (token : String) (broadcasts : List Broadcast) (streams : List (String × Stream))
        (m : Manager)
        → IsGoing k m
        → IsBalanced k (process_youtube_broadcast_selection env k token broadcasts streams m)
    unfolding process_youtube_broadcast_selection
    process-IsBalanced token broadcasts streams m v =
        let s =
          select_youtube_broadcast env.qt broadcasts (streams_by_id streams) v.target.stream_key
            (runtime_status_for_target m k.target_id).broadcast_id in
        while_going_on-IsBalanced k _ m v (
          unless_timed_out-IsBalanced k env _ m v
            (act_on-IsBalanced token v.target s.state s.broadcast s.candidates m v))
