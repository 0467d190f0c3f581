-- ===== src/Manager/Answers/Balance/Going.antt =====
-- The writes under which a YouTube operation goes on (core/output-manager.cpp).
use obs_dsk_multistream.Base.{
  ◌⊎◌, ◌==◌, ℕ, String, ◌≡◌, refl, sym, subst, ◌∙◌, Bool, true, false, not, ◌&&◌, ◌||◌, some, arith,
  if◌then◌else◌, if_cases, Option-cases, inl, inr, eq_refl, get_or_else,
}
use obs_dsk_multistream.Runtime.{
  TargetRuntimeStatus, default_status, TransportState, PlatformLiveState,
  runtime_transport_is_running,
}
use obs_dsk_multistream.YouTube.Request.{Ticket}
use obs_dsk_multistream.Manager.State.{
  Session, Effect, Env, Manager, emit, find_target, lookup_session, platform_written,
  session_for_target, session_matches, update_session, runtime_status_for_target,
  with_runtime_status, update_runtime_stats, set_runtime_platform,
}
use obs_dsk_multistream.Manager.Frame.{set_runtime_platform-core}
use obs_dsk_multistream.Manager.Operation.{
  can_continue_platform_start, youtube_operation_matches, auto_start_pending, auto_start_waiting,
  auto_start_timed_out, stop_youtube_auto_start_if_timed_out,
}
use obs_dsk_multistream.Manager.Requests.{goes_on, unless_timed_out, complete}
use obs_dsk_multistream.Manager.Answers.Follows.Sent.{asked_of, platform-asked_of}
use obs_dsk_multistream.Manager.Answers.Balance.{
  in_flight, IsBalanced, IsOver, IsGoing, over-IsBalanced, complete-IsOver, platform-IsOver,
  told-IsOver, written-session, going-in_flight,
}

transport_of : Manager → String → TransportState
transport_of m id = (runtime_status_for_target m id).transport

module _ (id : String) where
  stored-transport_of :
      (m : Manager)
      → transport_of m id ≡ (get_or_else (m.runtime_statuses id) default_status).transport
  unfolding transport_of runtime_status_for_target
  stored-transport_of m =
      if_cases
        (λ (r : TargetRuntimeStatus).
          r.transport ≡ (get_or_else (m.runtime_statuses id) default_status).transport)
        _ refl refl

  written-transport_of :
      (f : TargetRuntimeStatus → TargetRuntimeStatus) (m : Manager)
      → ((r : TargetRuntimeStatus) → (f r).transport ≡ r.transport)
      → transport_of (with_runtime_status id f m) id ≡ transport_of m id
  unfolding transport_of with_runtime_status
  written-transport_of f m same =
      stored-transport_of (with_runtime_status id f m)
      ∙ (put_self (runtime_status_for_target m id) ∙ same (runtime_status_for_target m id))
    where
      put_self :
          (r : TargetRuntimeStatus)
          → (get_or_else
              (if id == id then some (f r) else m.runtime_statuses id)
              default_status).transport
            ≡ (f r).transport
      put_self r = rw (eq_refl id) refl

  emitted-transport_of : (e : Effect) (m : Manager) → transport_of (emit e m) id ≡ transport_of m id
  unfolding transport_of runtime_status_for_target
  emitted-transport_of e m = refl

  stats-transport_of :
      (env : Env) (m : Manager)
      → transport_of (update_runtime_stats env id m) id ≡ transport_of m id
  unfolding update_runtime_stats
  stats-transport_of env m = written-transport_of _ m (λ r. refl)

  platform_written-transport :
      (env : Env) (serial : ℕ) (state : PlatformLiveState) (message error : String)
      (r : TargetRuntimeStatus)
      → (platform_written env serial state message error r).transport ≡ r.transport
  unfolding platform_written
  platform_written-transport env serial state message error r = ground arith

  platform-transport_of :
      (env : Env) (serial : ℕ) (state : PlatformLiveState) (message error : String) (m : Manager)
      → transport_of (set_runtime_platform env id serial state message error m) id
        ≡ transport_of m id
  unfolding set_runtime_platform
  platform-transport_of env serial state message error m =
      if_cases (λ (m' : Manager). transport_of m' id ≡ transport_of m id)
        (session_matches m id serial)
        (emitted-transport_of _ _
          ∙ (stats-transport_of env _
              ∙ written-transport_of (platform_written env serial state message error) m
                  (platform_written-transport env serial state message error)))
        refl

-- The core, the targets, the requests and the transport of the status stay as they are.
same-IsGoing :
    (k : Ticket) (m m' : Manager)
    → m'.core ≡ m.core
    → m'.targets ≡ m.targets
    → asked_of m' ≡ asked_of m
    → transport_of m' k.target_id ≡ transport_of m k.target_id
    → IsGoing k m
    → IsGoing k m'
unfolding goes_on youtube_operation_matches session_for_target can_continue_platform_start
    find_target transport_of runtime_transport_is_running runtime_status_for_target lookup_session
same-IsGoing k m m' c t a r v = record {
  target = v.target;
  none_asked = a ∙ v.none_asked;
  found = rw t (v.found);
  goes = rw (c, r) (v.goes);
}

platform-targets :
    (env : Env) (id : String) (serial : ℕ) (state : PlatformLiveState) (message error : String)
    (m : Manager)
    → (set_runtime_platform env id serial state message error m).targets ≡ m.targets
unfolding set_runtime_platform update_runtime_stats with_runtime_status
platform-targets env id serial state message error m = ground arith

module _ (k : Ticket) where
  pub platform-IsGoing :
      (env : Env) (state : PlatformLiveState) (message error : String) (m : Manager)
      → IsGoing k m
      → IsGoing k (set_runtime_platform env k.target_id k.serial state message error m)
  platform-IsGoing env state message error m =
      same-IsGoing k m (set_runtime_platform env k.target_id k.serial state message error m)
        (set_runtime_platform-core env k.target_id k.serial state message error m)
        (platform-targets env k.target_id k.serial state message error m)
        (platform-asked_of env k.target_id k.serial state message error m)
        (platform-transport_of k.target_id env k.serial state message error m)

  -- The target's status takes the broadcast's id.
  pub named-IsGoing :
      (id : String) (m : Manager)
      → IsGoing k m
      → IsGoing k (with_runtime_status k.target_id (λ r. record r { broadcast_id = id }) m)
  unfolding asked_of with_runtime_status
  named-IsGoing id m =
      same-IsGoing k m (with_runtime_status k.target_id (λ r. record r { broadcast_id = id }) m)
        refl refl refl
        (written-transport_of k.target_id (λ r. record r { broadcast_id = id }) m (λ r. refl))

  written-in_flight :
      (f : Session → Session) (m : Manager)
      → ((s : Session) → (f s).target_id ≡ s.target_id)
      → ((s : Session) → (f s).serial ≡ s.serial)
      → ((s : Session) → (f s).youtube_operation_in_flight ≡ s.youtube_operation_in_flight)
      → ((s : Session) → (f s).youtube_operation_generation ≡ s.youtube_operation_generation)
      → in_flight k m ≡ true
      → in_flight k (update_session k.target_id f m) ≡ true
  unfolding youtube_operation_matches
  written-in_flight f m a b c d h = elim (Option-cases (session_for_target m k.target_id)) [
    | inl missing ↦ absurd (ground (arith, missing, h))
    | inr (s, held) ↦
        rw (written-session k f m s a held, youtube_operation_matches)
          (ground (arith, held, h, b s, c s, d s))
  ]

  -- A write to the session that leaves its operation alone.
  pub session-IsGoing :
      (f : Session → Session) (m : Manager)
      → ((s : Session) → (f s).target_id ≡ s.target_id)
      → ((s : Session) → (f s).serial ≡ s.serial)
      → ((s : Session) → (f s).youtube_operation_in_flight ≡ s.youtube_operation_in_flight)
      → ((s : Session) → (f s).youtube_operation_generation ≡ s.youtube_operation_generation)
      → IsGoing k m
      → IsGoing k (update_session k.target_id f m)
  unfolding asked_of goes_on find_target update_session runtime_status_for_target
  session-IsGoing f m a b c d v = record {
    target = v.target;
    none_asked = v.none_asked;
    found = v.found;
    goes =
        subst
          (λ t.
            (can_continue_platform_start v.target (runtime_status_for_target m k.target_id) && t)
            ≡ true)
          (sym (written-in_flight f m a b c d (going-in_flight k m v))) (ground (arith, v.goes));
  }

  -- What the check of the time answers with: all as it was, or an operation that is over.
  abbrev StaysOrStops : Manager → Manager × Bool → Type 0
  StaysOrStops m p = (p ≡ (m, false)) ⊎ ((p.1 ≡ true) × IsOver k p.0)

  stop_auto_start-StaysOrStops :
      (env : Env) (m : Manager)
      → IsGoing k m
      → StaysOrStops m
          (stop_youtube_auto_start_if_timed_out env k.target_id k.serial k.generation m)
  unfolding stop_youtube_auto_start_if_timed_out auto_start_pending complete
  stop_auto_start-StaysOrStops env m v = elim (Option-cases (session_for_target m k.target_id)) [
    | inl missing ↦ rw (missing, stop_youtube_auto_start_if_timed_out) (inl refl)
    | inr (s, held) ↦
        rw (held, stop_youtube_auto_start_if_timed_out)
          (rw (v.found, stop_youtube_auto_start_if_timed_out)
            (if_cases (StaysOrStops m)
              (not (in_flight k m)
                || not (auto_start_waiting env s)
                || not (auto_start_timed_out env s))
              (inl refl)
              (inr (
                refl,
                told-IsOver k env _ _
                    (platform-IsOver k env _ _ _ _ (complete-IsOver k m v.none_asked)),
              ))))
  ]

  -- A wait that is over ends the operation; otherwise nothing changes.
  pub unless_timed_out-IsBalanced :
      (env : Env) (go : Manager → Manager) (m : Manager)
      → IsGoing k m
      → IsBalanced k (go m)
      → IsBalanced k (unless_timed_out env k go m)
  unfolding unless_timed_out
  unless_timed_out-IsBalanced env go m v b =
      by_answer (stop_youtube_auto_start_if_timed_out env k.target_id k.serial k.generation m)
        (stop_auto_start-StaysOrStops env m v)
    where
      by_answer :
          (p : Manager × Bool) → StaysOrStops m p → IsBalanced k (if p.1 then p.0 else go p.0)
      by_answer p (inl e) = rw e b
      by_answer p (inr (e, over)) = rw e (over-IsBalanced k p.0 over)
