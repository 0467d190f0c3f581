-- ===== src/Manager/Stop/Invariant.antt =====
-- stopTarget, stopAll and the handlers of OBS's streaming against the invariant of the sessions
-- (core/output-manager.cpp).
use obs_dsk_multistream.Base.{
  String, ◌≡◌, ◌∙◌, true, not, ◌&&◌, List, [], ◌∷◌, if_cases, Option-cases, inl, inr, is_some,
}
use obs_dsk_multistream.Target.{TargetState, is_state}
use obs_dsk_multistream.Runtime.{TransportState, is_transport}
use obs_dsk_multistream.Manager.State.{
  Env, Manager, find_target, update_target, session_for_target, runtime_status_for_target,
  reset_runtime_status,
}
use obs_dsk_multistream.Manager.Frame.{
  persistent_targets_changed-core, set_runtime_transport-core, reset_runtime_status-core,
}
use obs_dsk_multistream.Manager.Save.Frame.{save-core}
use obs_dsk_multistream.Manager.Sessions.{release_session}
use obs_dsk_multistream.Manager.Sessions.Invariant.{IsSound, same-IsSound, release_session-IsSound}
use obs_dsk_multistream.Manager.Start.Invariant.{start_target-IsSound}
use obs_dsk_multistream.Manager.Stop.{
  begin_stop, stopped_at_once, stop_found, stop_target, stop_each, stop_all, start_ids,
  clear_auto_start_suppression, clear_auto_stop_suppression, auto_start_suppressed,
  auto_stop_suppressed, handle_obs_streaming_started, handle_obs_streaming_stopped,
}

abbrev pub SoundManager : Manager → Type 0
SoundManager m = IsSound m.core

module _ (env : Env) where
  begin_stop-core : (id : String) (m : Manager) → (begin_stop env id m).core ≡ m.core
  unfolding begin_stop update_target
  begin_stop-core id m =
      persistent_targets_changed-core _ _ ∙ set_runtime_transport-core env _ _ _ _ _ _

  stopped_at_once-core : (id : String) (m : Manager) → (stopped_at_once env id m).core ≡ m.core
  unfolding stopped_at_once update_target
  stopped_at_once-core id m =
      let reset : Manager =
        reset_runtime_status env id
          (update_target id (λ t. record t { state = TargetState.stopped; last_error = "" }) m) in
      let same : reset.core ≡ m.core = reset_runtime_status-core env id _ in
      persistent_targets_changed-core _ _
      ∙ if_cases (λ (m' : Manager). m'.core ≡ m.core) (reset.runtime_target_ids id) same
          (save-core env reset ∙ same)

  -- `stopTarget` keeps the sessions and the encoder counts sound on every path.
  pub stop_target-IsSound :
      (id : String) (m : Manager) → IsSound m.core → IsSound (stop_target env id m).core
  unfolding stop_target stop_found update_target
  stop_target-IsSound id m v = elim (Option-cases (find_target m id)) [
    | inl missing ↦ rw (missing, stop_target) v
    | inr (target, found) ↦
        let begun : Manager = begin_stop env id m in
        let released : Manager = release_session env id true 0 begun in
        let sound : IsSound released.core =
          release_session-IsSound env id true 0 begun (same-IsSound _ _ (begin_stop-core id m) v) in
        rw (found, stop_target)
          (if_cases SoundManager
            (is_transport (runtime_status_for_target m id).transport TransportState.idle
              && not (is_some (session_for_target m id))
              && is_state target.state TargetState.stopped)
            v
            (if_cases SoundManager (is_some (session_for_target released id))
              (same-IsSound _ _
                (persistent_targets_changed-core id
                  (update_target id (λ t. record t { last_error = "" }) released))
                sound)
              (same-IsSound _ _ (stopped_at_once-core id released) sound)))
  ]

  stop_each-IsSound :
      (ids : List String) (m : Manager) → IsSound m.core → IsSound (stop_each env ids m).core
  unfolding stop_each
  stop_each-IsSound [] m v = v
  stop_each-IsSound (id ∷ ids) m v =
      stop_each-IsSound ids (stop_target env id m) (stop_target-IsSound id m v)

  pub stop_all-IsSound : (m : Manager) → IsSound m.core → IsSound (stop_all env m).core
  unfolding stop_all
  stop_all-IsSound m v = stop_each-IsSound _ m v

  start_ids-IsSound :
      (ids : List String) (m : Manager) → IsSound m.core → IsSound (start_ids env ids m).core
  unfolding start_ids
  start_ids-IsSound [] m v = v
  start_ids-IsSound (id ∷ ids) m v = start_ids-IsSound ids _ (start_target-IsSound env id m v)

  pub streaming_started-IsSound :
      (m : Manager) → IsSound m.core → IsSound (handle_obs_streaming_started env m).core
  unfolding handle_obs_streaming_started clear_auto_start_suppression
  streaming_started-IsSound m v =
      if_cases SoundManager (auto_start_suppressed env m) v (start_ids-IsSound _ _ v)

  pub streaming_stopped-IsSound :
      (m : Manager) → IsSound m.core → IsSound (handle_obs_streaming_stopped env m).core
  unfolding handle_obs_streaming_stopped clear_auto_stop_suppression
  streaming_stopped-IsSound m v =
      if_cases SoundManager (auto_stop_suppressed env m) v (stop_each-IsSound _ _ v)
