-- ===== src/Manager/Sessions.antt =====
-- core/output-manager.cpp: the release of sessions (releaseSession, releaseAllSessionsNow).
-- The source's `Session *` is the position in the list, which `indexOf` finds for the pointer.
pub mod Counting
pub mod Invariant
pub mod Shutdown
pub mod Writes
pub mod Polling
use obs_dsk_multistream.Base.{
  ℕ, zero, suc, ◌+◌, String, Bool, true, not, ◌==◌, ◌&&◌, ◌||◌, Option, none, some, List, [], ◌∷◌,
  eqb, leb, get_elem?, remove_at, set, if◌then◌else◌, is_some, length,
}
use obs_dsk_multistream.Target.{OutputTarget, TargetState, is_state}
use obs_dsk_multistream.Manager.State.{
  Session, Env, Manager, emit, with_sessions, disconnect_output_signals, obs_output_stop,
  obs_output_force_stop, release_output_and_service, schedule_release, release_target_scene_canvas,
  session_for_target, find_target, update_target, reset_runtime_status, persistent_targets_changed,
}
use obs_dsk_multistream.Manager.Encoders.{release_shared_encoders}
use obs_dsk_multistream.Manager.Removal.{finalize_pending_removal}

-- The last position of a session of the target, with the expected serial unless that is 0.
unfoldable pub release_index : String → ℕ → List Session → Option ℕ
release_index id expected [] = none
release_index id expected (s ∷ ss) =
    let here = s.target_id == id && (eqb expected 0 || eqb s.serial expected) in
    elim (release_index id expected ss) [
      | some i ↦ some (suc i)
      | none ↦ if here then some 0 else none
    ]

module _ (env : Env) where
  open env use {output_active}

  unfoldable pub force_stop_if_active : ℕ → Manager → Manager
  force_stop_if_active o m = if output_active o then emit (obs_output_force_stop o) m else m

  -- Once the last session of a target that was asked to stop is gone.
  stopped_if_stopping : String → OutputTarget → Manager → Manager
  stopped_if_stopping id target m =
      if is_state target.state TargetState.stopping && not (is_some (session_for_target m id))
      then persistent_targets_changed id (
          reset_runtime_status env id
            (update_target id (λ t. record t { state = TargetState.stopped; last_error = "" }) m))
      else m

  -- What `releaseSession` does from `delete session` on.
  unfoldable pub drop_session : ℕ → Session → Manager → Manager
  unfolding stopped_if_stopping
  drop_session i s m =
      let gone =
        emit (release_target_scene_canvas s.target_id) (with_sessions (remove_at i m.sessions) m) in
      elim (find_target gone s.target_id) [
        | none ↦ gone
        | some target ↦
            let (finalized, done) = finalize_pending_removal env s.target_id gone in
            if done then finalized else stopped_if_stopping s.target_id target finalized
      ]

  -- The output and its encoders are given back.
  unfoldable pub free_output : ℕ → Session → Manager → Manager
  free_output o s m =
      release_shared_encoders s.shared_encoder_key (emit (release_output_and_service o s.service) m)

  unfoldable pub release_at_shutdown : ℕ → Session → ℕ → Manager → Manager
  unfolding free_output force_stop_if_active
  release_at_shutdown i s o m =
      let freed = free_output o s (force_stop_if_active o (emit (disconnect_output_signals o) m)) in
      with_sessions (remove_at i freed.sessions) freed

  unfoldable pub request_stop : ℕ → Session → ℕ → Manager → Manager
  request_stop i s o m =
      if s.pending_release
      then m
      else emit (schedule_release 1000 s.target_id s.serial) (
          emit (obs_output_stop o) (
            with_sessions
              (set m.sessions i (record s { pending_release = true; release_polls = 0 })) m))

  -- A delayed release that finds the output still active: every fifth one forces the stop.
  unfoldable pub poll_release : ℕ → Session → ℕ → Manager → Manager
  poll_release i s o m =
      let polls = s.release_polls + 1 in
      emit (schedule_release 1000 s.target_id s.serial) (
        if leb 5 polls
        then emit (obs_output_force_stop o)
            (with_sessions (set m.sessions i (record s { release_polls = 0 })) m)
        else with_sessions (set m.sessions i (record s { release_polls = polls })) m)

  release_idle : ℕ → Session → ℕ → Manager → Manager
  release_idle i s o m = drop_session i s (free_output o s (emit (disconnect_output_signals o) m))

  release_output : ℕ → Session → Bool → ℕ → Manager → Manager
  release_output i s requested o m =
      if m.shutting_down
      then release_at_shutdown i s o m
      else if requested
      then request_stop i s o m
      else if output_active o
      then poll_release i s o m
      else release_idle i s o m

  -- releaseSession(Session *, bool)
  pub release_session_at : ℕ → Bool → Manager → Manager
  release_session_at i requested m = elim (get_elem? m.sessions i) [
    | none ↦ m
    | some s ↦ elim s.output [
      | none ↦ drop_session i s m
      | some o ↦ release_output i s requested o m
    ]
  ]

  -- releaseSession(const QString &, bool, quint64)
  pub release_session : String → Bool → ℕ → Manager → Manager
  release_session id requested expected m = elim (release_index id expected m.sessions) [
    | none ↦ m
    | some i ↦ release_session_at i requested m
  ]

  unfoldable pub release_now : Session → Manager → Manager
  release_now s m = elim s.output [
    | none ↦ m
    | some o ↦ free_output o s (force_stop_if_active o (emit (disconnect_output_signals o) m))
  ]

  -- The loop of `releaseAllSessionsNow`, from the last position to the first.
  release_down : ℕ → Manager → Manager
  release_down zero m = m
  release_down (suc i) m = elim (get_elem? m.sessions i) [
    | none ↦ release_down i m
    | some s ↦
        let freed = release_now s m in
        release_down i (with_sessions (remove_at i freed.sessions) freed)
  ]

  pub release_all_sessions_now : Manager → Manager
  release_all_sessions_now m = release_down (length m.sessions) m
