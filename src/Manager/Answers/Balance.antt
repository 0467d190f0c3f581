-- ===== src/Manager/Answers/Balance.antt =====
-- A YouTube operation in flight and the request that it waits for (core/output-manager.cpp): the
-- writes of the operation.
pub mod Going
pub mod Sending
pub mod Answered
use obs_dsk_multistream.Base.{
  sym, subst, suc, ℕ, ◌+◌, String, ◌≡◌, refl, ◌∙◌, ap, Bool, true, false, not, ◌&&◌, ◌||◌, none,
  some, List, [], ◌∷◌, arith, eqb, if◌then◌else◌, if_cases, if_under, length, Option-cases, inl,
  inr, eq_refl, is_empty,
}
use obs_dsk_multistream.Target.{OutputTarget, TargetState, is_state}
use obs_dsk_multistream.Runtime.{
  TargetRuntimeStatus, PlatformLiveState, runtime_transport_is_running,
}
use obs_dsk_multistream.YouTube.Request.{Ticket, Request}
use obs_dsk_multistream.YouTube.Selection.{Broadcast}
use obs_dsk_multistream.Manager.State.{
  Session, Effect, Env, Manager, u64, emit, find_target, lookup_session, session_for_target,
  session_matches, update_session, runtime_status_for_target, with_runtime_status,
  update_runtime_stats, set_runtime_platform, set_target_api_warning, clear_target_api_warning,
  status_message, send_youtube_request,
}
use obs_dsk_multistream.Manager.Frame.{
  set_runtime_platform-core, set_target_api_warning-core, clear_target_api_warning-core,
}
use obs_dsk_multistream.Manager.Operation.{
  can_continue_platform_start, youtube_operation_matches, complete_youtube_operation, schedule_poll,
  poll_allowed, serial_is, auto_start_pending, auto_start_waiting, auto_start_timed_out,
  stop_youtube_auto_start_if_timed_out,
}
use obs_dsk_multistream.Manager.Broadcast.Generations.{lookup-modify}
use obs_dsk_multistream.Manager.Requests.{goes_on, while_going_on, complete, warn, unless_timed_out}
use obs_dsk_multistream.Manager.Answers.Follows.Sent.{
  asked_of, platform-asked_of, warned-asked_of, cleared-asked_of,
}

abbrev pub in_flight : Ticket → Manager → Bool
in_flight k m = youtube_operation_matches m k.target_id k.serial k.generation

-- As many requests are sent as operations are in flight for the ticket: one or none.
pub IsBalanced : Ticket → Manager → Type 0
IsBalanced k m = length (asked_of m) ≡ (if in_flight k m then 1 else 0)

-- The operation is over and nothing was asked.
pub record IsOver (k : Ticket) (m : Manager) : Type 0 where
  pub none_asked : asked_of m ≡ []
  pub over : in_flight k m ≡ false

-- The operation goes on for a target, and nothing was asked yet.
pub record IsGoing (k : Ticket) (m : Manager) : Type 0 where
  pub target : OutputTarget
  pub none_asked : asked_of m ≡ []
  pub found : find_target m k.target_id ≡ some target
  pub goes : goes_on k m target ≡ true

module _ (k : Ticket) where
  pub over-IsBalanced : (m : Manager) → IsOver k m → IsBalanced k m
  unfolding IsBalanced
  over-IsBalanced m v = rw (v.none_asked, v.over) refl

  going-in_flight : (m : Manager) → IsGoing k m → in_flight k m ≡ true
  unfolding goes_on
  going-in_flight m v = ground (arith, v.goes)

  -- A request that is sent keeps the operation in flight.
  pub sent-IsBalanced :
      (r : Request) (m : Manager) → IsGoing k m → IsBalanced k (emit (send_youtube_request k r) m)
  unfolding IsBalanced asked_of youtube_operation_matches session_for_target
  sent-IsBalanced r m v =
      subst (λ b. suc (length (asked_of m)) ≡ (if b then 1 else 0)) (sym (going-in_flight m v))
        (ap (λ l. suc (length l)) v.none_asked)

  pub same-IsOver :
      (m m' : Manager) → m'.core ≡ m.core → asked_of m' ≡ asked_of m → IsOver k m → IsOver k m'
  unfolding youtube_operation_matches session_for_target
  same-IsOver m m' e e' v = record { none_asked = e' ∙ v.none_asked; over = rw e (v.over) }

  -- A write to the target's session leaves the requests alone.
  pub written-asked_of :
      (f : Session → Session) (m : Manager) → asked_of (update_session k.target_id f m) ≡ asked_of m
  unfolding asked_of update_session
  written-asked_of f m = refl

  written-session :
      (f : Session → Session) (m : Manager) (s : Session)
      → ((t : Session) → (f t).target_id ≡ t.target_id)
      → session_for_target m k.target_id ≡ some s
      → session_for_target (update_session k.target_id f m) k.target_id ≡ some (f s)
  unfolding session_for_target update_session
  written-session f m s same h = lookup-modify k.target_id f m.sessions s same h

  pub complete-IsOver : (m : Manager) → asked_of m ≡ [] → IsOver k (complete k m)
  unfolding complete complete_youtube_operation youtube_operation_matches
  complete-IsOver m e = elim (Option-cases (session_for_target m k.target_id)) [
    | inl missing ↦
        rw (missing, complete_youtube_operation)
          (record { none_asked = e; over = rw (missing, youtube_operation_matches) refl })
    | inr (s, held) ↦
        rw (held, complete_youtube_operation)
          (if_under (IsOver k)
            (not (serial_is s k.serial) || not (eqb s.youtube_operation_generation k.generation))
            (λ other. record {
              none_asked = e;
              over = rw (held, youtube_operation_matches) (ground (arith, other));
            })
            (λ own. record {
              none_asked = written-asked_of _ m ∙ e;
              over =
                  rw
                    (
                      written-session (λ t. record t { youtube_operation_in_flight = false }) m s
                          (λ t. refl) held,
                      youtube_operation_matches,
                    )
                    (ground arith);
            }))
  ]

  module _ (env : Env) where
    pub platform-IsOver :
        (state : PlatformLiveState) (message error : String) (m : Manager)
        → IsOver k m
        → IsOver k (set_runtime_platform env k.target_id k.serial state message error m)
    platform-IsOver state message error m =
        same-IsOver m (set_runtime_platform env k.target_id k.serial state message error m)
          (set_runtime_platform-core env k.target_id k.serial state message error m)
          (platform-asked_of env k.target_id k.serial state message error m)

    pub cleared-IsOver :
        (m : Manager) → IsOver k m → IsOver k (clear_target_api_warning env k.target_id m)
    cleared-IsOver m =
        same-IsOver m (clear_target_api_warning env k.target_id m)
          (clear_target_api_warning-core env k.target_id m) (cleared-asked_of env k.target_id m)

    pub told-IsOver :
        (text : String) (m : Manager) → IsOver k m → IsOver k (emit (status_message text) m)
    unfolding asked_of
    told-IsOver text m = same-IsOver m (emit (status_message text) m) refl refl

    pub warn-IsOver :
        (message : String) (m : Manager) → asked_of m ≡ [] → IsOver k (warn env k message m)
    unfolding warn
    warn-IsOver message m e =
        same-IsOver (complete k m)
          (set_target_api_warning env k.target_id message k.serial (complete k m))
          (set_target_api_warning-core env k.target_id message k.serial (complete k m))
          (warned-asked_of env k.target_id message k.serial (complete k m)) (complete-IsOver m e)

  -- The session's poll counter has no part in the operation.
  polled_over :
      (m : Manager) (s : Session) (e : Effect)
      → session_for_target m k.target_id ≡ some s
      → poll_allowed s k.serial k.generation ≡ true
      → in_flight k (
          emit e (
            update_session k.target_id
              (λ t. record t { youtube_poll_generation = u64 (s.youtube_poll_generation + 1) })
              m))
        ≡ false
  unfolding youtube_operation_matches session_for_target update_session
  polled_over m s e h free =
      rw
        (
          lookup-modify k.target_id
              (λ t. record t { youtube_poll_generation = u64 (s.youtube_poll_generation + 1) })
              m.sessions s (λ t. refl) h,
          youtube_operation_matches,
        )
        (ground (arith, free))

  pub schedule_poll-IsOver :
      (attempt delay : ℕ) (m : Manager)
      → IsOver k m
      → IsOver k (schedule_poll k.target_id k.serial k.generation attempt delay m)
  unfolding schedule_poll asked_of update_session
  schedule_poll-IsOver attempt delay m v = elim (Option-cases (session_for_target m k.target_id)) [
    | inl missing ↦ rw (missing, schedule_poll) v
    | inr (s, held) ↦
        rw (held, schedule_poll)
          (if_under (IsOver k) (poll_allowed s k.serial k.generation)
            (λ free. record { none_asked = v.none_asked; over = polled_over m s _ held free })
            (λ other. v))
  ]

  pub while_going_on-IsBalanced :
      (go : OutputTarget → Manager → Manager) (m : Manager)
      → (v : IsGoing k m) → IsBalanced k (go v.target m)
      → IsBalanced k (while_going_on k go m)
  unfolding while_going_on
  while_going_on-IsBalanced go m v b = rw (v.found, while_going_on) (rw v.goes b)
