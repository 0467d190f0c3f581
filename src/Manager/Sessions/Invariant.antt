-- ===== src/Manager/Sessions/Invariant.antt =====
-- The invariant of the sessions, and releaseSession against it (core/output-manager.cpp).
use obs_dsk_multistream.Base.{
  ℕ, ◌+◌, String, ◌≡◌, ◌≢◌, refl, sym, ◌∙◌, Bool, true, some, List, arith, All, leb, get_elem?,
  remove_at, set, if_cases, Option-cases, Bool-cases, inl, inr,
}
use obs_dsk_multistream.Target.{OutputTarget, TargetState}
use obs_dsk_multistream.Manager.State.{
  Session, Core, Env, Manager, emit, with_sessions, release_target_scene_canvas, update_target,
  reset_runtime_status, disconnect_output_signals, release_output_and_service, find_target,
}
use obs_dsk_multistream.Manager.Encoders.Counting.{refs_of, IsTable}
use obs_dsk_multistream.Manager.Encoders.Accounting.{Returned, release-Returned}
use obs_dsk_multistream.Manager.Frame.{reset_runtime_status-core, persistent_targets_changed-core}
use obs_dsk_multistream.Manager.Removal.{finalize_pending_removal}
use obs_dsk_multistream.Manager.Removal.Atomic.{finalize_pending_removal-core}
use obs_dsk_multistream.Manager.Sessions.Counting.{
  users, IsSingle, HasOutput, SameHold, users-remove_at, users-set, IsSingle-remove_at,
  IsSingle-set, HasOutput-remove_at, HasOutput-set, HasOutput-of, users-held,
}
use obs_dsk_multistream.Manager.Sessions.{
  force_stop_if_active, stopped_if_stopping, drop_session, free_output, release_at_shutdown,
  request_stop, poll_release, release_idle, release_output, release_session_at, release_session,
  release_index,
}

-- Every encoder set is counted by the sessions that use it, no target has two sessions, and a
-- listed session owns its output.
pub record IsSound (c : Core) : Type 0 where
  pub table : IsTable c.shared_encoders
  pub counted : (k : String) → k ≢ "" → refs_of k c.shared_encoders ≡ users k c.sessions
  pub single : IsSingle c.sessions
  pub outputs : All HasOutput c.sessions

pub same-IsSound : (c c' : Core) → c' ≡ c → IsSound c → IsSound c'
same-IsSound c c' e v = rw e v

abbrev with_session_list : List Session → Core → Core
with_session_list ss c = record c { sessions = ss }

-- A session is taken out after its reference was given back.
pub Returned-IsSound :
    (i : ℕ) (s : Session) (c c' : Core)
    → get_elem? c.sessions i ≡ some s
    → IsSound c
    → Returned s.shared_encoder_key c c'
    → IsSound (with_session_list (remove_at i c'.sessions) c')
Returned-IsSound i s c c' h v r = record {
  table = r.table;
  counted = λ k n.
      rw r.sessions_kept
        (omega (arith, r.counts k n, v.counted k n, users-remove_at k c.sessions i s h));
  single = rw r.sessions_kept (IsSingle-remove_at c.sessions i v.single);
  outputs = rw r.sessions_kept (HasOutput-remove_at c.sessions i v.outputs);
}

set-IsSound :
    (i : ℕ) (s t : Session) (c : Core)
    → get_elem? c.sessions i ≡ some s
    → SameHold s t
    → IsSound c
    → IsSound (with_session_list (set c.sessions i t) c)
set-IsSound i s t c h same v = record {
  table = v.table;
  counted = λ k n. v.counted k n ∙ sym (users-set k c.sessions i s t h same);
  single = IsSingle-set c.sessions i s t h same.target_kept v.single;
  outputs =
      HasOutput-set c.sessions i t (rw same.output_kept (HasOutput-of c.sessions i s h v.outputs))
        v.outputs;
}

module _ (env : Env) where
  pub force_stop-core : (o : ℕ) (m : Manager) → (force_stop_if_active env o m).core ≡ m.core
  unfolding force_stop_if_active
  force_stop-core o m = ground arith

  -- Giving an output back, in a state whose sessions and encoders are those of `c`.
  pub free_output-Returned :
      (i o : ℕ) (s : Session) (c : Core) (m : Manager)
      → m.core ≡ c
      → get_elem? c.sessions i ≡ some s
      → IsSound c
      → Returned s.shared_encoder_key c (free_output env o s m).core
  unfolding free_output
  free_output-Returned i o s c m e h v = rw (← e) (
      release-Returned s.shared_encoder_key (emit (release_output_and_service o s.service) m)
        (rw e v.table)
        (λ n. rw e (omega (arith, v.counted s.shared_encoder_key n, users-held c.sessions i s h))))

  stopped_if_stopping-core :
      (id : String) (target : OutputTarget) (m : Manager)
      → (stopped_if_stopping env id target m).core ≡ m.core
  unfolding stopped_if_stopping update_target
  stopped_if_stopping-core id target m = ground (
    arith,
    reset_runtime_status-core env id
        (update_target id (λ t. record t { state = TargetState.stopped; last_error = "" }) m),
    persistent_targets_changed-core id (
        reset_runtime_status env id
          (update_target id (λ t. record t { state = TargetState.stopped; last_error = "" }) m)),
  )

  pub drop_session-core :
      (i : ℕ) (s : Session) (m : Manager)
      → (drop_session env i s m).core ≡ with_session_list (remove_at i m.sessions) m.core
  unfolding drop_session
  drop_session-core i s m =
      let gone : Manager =
        emit (release_target_scene_canvas s.target_id) (with_sessions (remove_at i m.sessions) m) in
      elim (Option-cases (find_target gone s.target_id)) [
        | inl missing ↦ rw (missing, drop_session) refl
        | inr (target, found) ↦
            rw (found, drop_session)
              (elim (Bool-cases (finalize_pending_removal env s.target_id gone).1) [
                | inl done ↦ rw done (finalize_pending_removal-core env s.target_id gone)
                | inr not_done ↦ rw not_done (
                    stopped_if_stopping-core s.target_id target _
                    ∙ finalize_pending_removal-core env s.target_id gone)
              ])
      ]

  module _ (i : ℕ) (s : Session) (o : ℕ) (m : Manager) (h : get_elem? m.sessions i ≡ some s) where
    shutdown-IsSound : IsSound m.core → IsSound (release_at_shutdown env i s o m).core
    unfolding release_at_shutdown
    shutdown-IsSound v =
        let wired : Manager = emit (disconnect_output_signals o) m in
        Returned-IsSound i s m.core (free_output env o s (force_stop_if_active env o wired)).core h
          v
          (free_output-Returned i o s m.core (force_stop_if_active env o wired)
            (force_stop-core o wired) h v)

    request-IsSound : IsSound m.core → IsSound (request_stop env i s o m).core
    unfolding request_stop
    request-IsSound v = elim (Bool-cases s.pending_release) [
      | inl pending ↦ rw pending v
      | inr asked ↦ rw asked (
          set-IsSound i s (record s { pending_release = true; release_polls = 0 }) m.core h
            (record { target_kept = refl; key_kept = refl; output_kept = refl }) v)
    ]

    poll-IsSound : IsSound m.core → IsSound (poll_release env i s o m).core
    unfolding poll_release
    poll-IsSound v = elim (Bool-cases (leb 5 (s.release_polls + 1))) [
      | inl forced ↦ rw forced (
          set-IsSound i s (record s { release_polls = 0 }) m.core h
            (record { target_kept = refl; key_kept = refl; output_kept = refl }) v)
      | inr waiting ↦ rw waiting (
          set-IsSound i s (record s { release_polls = s.release_polls + 1 }) m.core h
            (record { target_kept = refl; key_kept = refl; output_kept = refl }) v)
    ]

    idle-IsSound : IsSound m.core → IsSound (release_idle env i s o m).core
    unfolding release_idle
    idle-IsSound v =
        let freed : Manager = free_output env o s (emit (disconnect_output_signals o) m) in
        rw (drop_session-core i s freed) (
          Returned-IsSound i s m.core freed.core h v
            (free_output-Returned i o s m.core (emit (disconnect_output_signals o) m) refl h v))

    output-IsSound :
        (requested : Bool) → IsSound m.core → IsSound (release_output env i s requested o m).core
    unfolding release_output
    output-IsSound requested v =
        if_cases (λ (m' : Manager). IsSound m'.core) m.shutting_down (shutdown-IsSound v)
          (if_cases (λ (m' : Manager). IsSound m'.core) requested (request-IsSound v)
            (if_cases (λ (m' : Manager). IsSound m'.core) (env.output_active o) (poll-IsSound v)
              (idle-IsSound v)))

  pub release_session_at-IsSound :
      (i : ℕ) (requested : Bool) (m : Manager)
      → IsSound m.core
      → IsSound (release_session_at env i requested m).core
  unfolding release_session_at
  release_session_at-IsSound i requested m v = elim (Option-cases (get_elem? m.sessions i)) [
    | inl gone ↦ rw (gone, release_session_at) v
    | inr (s, h) ↦ elim (Option-cases s.output) [
      | inl bare ↦ absurd (ground (arith, HasOutput-of m.sessions i s h v.outputs))
      | inr (o, held) ↦
          rw (h, release_session_at)
            (rw (held, release_session_at) (output-IsSound i s o m h requested v))
    ]
  ]

  pub release_session-IsSound :
      (id : String) (requested : Bool) (expected : ℕ) (m : Manager)
      → IsSound m.core
      → IsSound (release_session env id requested expected m).core
  unfolding release_session
  release_session-IsSound id requested expected m v =
      elim (Option-cases (release_index id expected m.sessions)) [
        | inl missing ↦ rw (missing, release_session) v
        | inr (i, found) ↦ rw (found, release_session) (release_session_at-IsSound i requested m v)
      ]
