-- ===== src/Manager/Operation/Kept.antt =====
-- The predicates that each single write of a YouTube operation keeps, and so the operation as well
-- (core/output-manager.cpp).
use obs_dsk_multistream.Base.{
  ℕ, ◌+◌, String, refl, Bool, false, not, ◌||◌, eqb, if_cases, Option-cases, inl, inr, List,
}
use obs_dsk_multistream.Target.{OutputTarget}
use obs_dsk_multistream.Runtime.{TargetRuntimeStatus, PlatformLiveState}
use obs_dsk_multistream.YouTube.Selection.{Broadcast}
use obs_dsk_multistream.YouTube.Request.{Ticket, Request}
use obs_dsk_multistream.Manager.State.{
  Session, Env, Manager, u64, emit, find_target, session_for_target, update_session,
  with_runtime_status, set_runtime_platform, set_target_api_warning, clear_target_api_warning,
  status_message, schedule_youtube_poll, send_youtube_request, youtube_broadcast_selection_required,
}
use obs_dsk_multistream.Manager.Sessions.Counting.{SameHold}
use obs_dsk_multistream.Manager.Operation.{
  complete_youtube_operation, schedule_poll, poll_allowed, serial_is, youtube_operation_matches,
  auto_start_waiting, auto_start_timed_out, auto_start_pending,
  stop_youtube_auto_start_if_timed_out,
}

-- `Q` survives the writes, and the requests that `Allowed` allows.
pub record IsKept (env : Env) (Q : Manager → Type 0) (Allowed : Ticket → Request → Type 0)
    : Type 0 where
  pub platform :
      (id : String) (serial : ℕ) (state : PlatformLiveState) (message error : String) (m : Manager)
      → Q m
      → Q (set_runtime_platform env id serial state message error m)
  pub warned :
      (id message : String) (serial : ℕ) (m : Manager)
      → Q m
      → Q (set_target_api_warning env id message serial m)
  pub cleared : (id : String) (m : Manager) → Q m → Q (clear_target_api_warning env id m)
  pub session_written :
      (id : String) (f : Session → Session)
      → ((s : Session) → SameHold s (f s))
      → (m : Manager) → Q m
      → Q (update_session id f m)
  pub status_written :
      (id : String) (f : TargetRuntimeStatus → TargetRuntimeStatus) (m : Manager)
      → Q m
      → Q (with_runtime_status id f m)
  pub told : (text : String) (m : Manager) → Q m → Q (emit (status_message text) m)
  pub asked :
      (id : String) (serial generation : ℕ) (choices : List Broadcast) (m : Manager)
      → Q m
      → Q (emit (youtube_broadcast_selection_required id serial generation choices) m)
  pub polled :
      (delay : ℕ) (id : String) (serial generation poll attempt : ℕ) (m : Manager)
      → Q m
      → Q (emit (schedule_youtube_poll delay id serial generation poll attempt) m)
  pub sent :
      (k : Ticket) (r : Request) (m : Manager)
      → Allowed k r
      → Q m
      → Q (emit (send_youtube_request k r) m)

module _ (env : Env) (Q : Manager → Type 0) (Allowed : Ticket → Request → Type 0)
    (kept : IsKept env Q Allowed) where
  open kept use {platform, session_written, told, polled}

  pub complete-kept :
      (id : String) (serial generation : ℕ) (m : Manager)
      → Q m
      → Q (complete_youtube_operation id serial generation m)
  unfolding complete_youtube_operation
  complete-kept id serial generation m v = elim (Option-cases (session_for_target m id)) [
    | inl missing ↦ rw (missing, complete_youtube_operation) v
    | inr (s, found) ↦
        rw (found, complete_youtube_operation)
          (if_cases Q
            (not (serial_is s serial) || not (eqb s.youtube_operation_generation generation)) v
            (session_written id (λ t. record t { youtube_operation_in_flight = false })
              (λ t. record { target_kept = refl; key_kept = refl; output_kept = refl }) m v))
  ]

  pub schedule_poll-kept :
      (id : String) (serial generation attempt delay : ℕ) (m : Manager)
      → Q m
      → Q (schedule_poll id serial generation attempt delay m)
  unfolding schedule_poll
  schedule_poll-kept id serial generation attempt delay m v =
      elim (Option-cases (session_for_target m id)) [
        | inl missing ↦ rw (missing, schedule_poll) v
        | inr (s, found) ↦
            rw (found, schedule_poll)
              (if_cases Q (poll_allowed s serial generation)
                (polled delay id serial generation (u64 (s.youtube_poll_generation + 1)) attempt _ (
                  session_written id
                    (λ t. record t {
                      youtube_poll_generation = u64 (s.youtube_poll_generation + 1);
                    })
                    (λ t. record { target_kept = refl; key_kept = refl; output_kept = refl }) m v))
                v)
      ]

  pub auto_start_pending-kept :
      (id : String) (target : OutputTarget) (serial : ℕ) (m : Manager)
      → Q m
      → Q (auto_start_pending env id target serial m)
  unfolding auto_start_pending
  auto_start_pending-kept id target serial m v = told _ _ (platform id serial _ _ _ m v)

  abbrev pub KeptAnswer : Manager × Bool → Type 0
  KeptAnswer p = Q p.0

  pub stop_auto_start-kept :
      (id : String) (serial generation : ℕ) (m : Manager)
      → Q m
      → KeptAnswer (stop_youtube_auto_start_if_timed_out env id serial generation m)
  unfolding stop_youtube_auto_start_if_timed_out
  stop_auto_start-kept id serial generation m v = elim (Option-cases (session_for_target m id)) [
    | inl missing ↦ rw (missing, stop_youtube_auto_start_if_timed_out) v
    | inr (s, held) ↦
        rw (held, stop_youtube_auto_start_if_timed_out)
          (elim (Option-cases (find_target m id)) [
            | inl gone ↦ rw (gone, stop_youtube_auto_start_if_timed_out) v
            | inr (target, found) ↦
                rw (found, stop_youtube_auto_start_if_timed_out)
                  (if_cases KeptAnswer
                    (not (youtube_operation_matches m id serial generation)
                      || not (auto_start_waiting env s)
                      || not (auto_start_timed_out env s))
                    v
                    (auto_start_pending-kept id target serial _
                      (complete-kept id serial generation m v)))
          ])
  ]
