-- ===== src/Manager/Stop.antt =====
-- core/output-manager.cpp: stopTarget and stopAll, and the starts and stops that follow OBS's own
-- streaming, with their suppression.
pub mod Invariant
pub mod Suppression
use obs_dsk_multistream.Base.{
  ◌+◌, String, Bool, true, false, not, ◌&&◌, ◌||◌, none, some, List, [], ◌∷◌, map, pos, ltb,
  if◌then◌else◌, is_some,
}
use obs_dsk_multistream.Target.{OutputTarget, TargetState, is_state}
use obs_dsk_multistream.Runtime.{TransportState, is_transport}
use obs_dsk_multistream.Manager.State.{
  Env, Manager, find_target, update_target, session_for_target, persistent_targets_changed,
  runtime_status_for_target, reset_runtime_status, set_runtime_transport,
}
use obs_dsk_multistream.Manager.Save.{save}
use obs_dsk_multistream.Manager.Sessions.{release_session}
use obs_dsk_multistream.Manager.Start.{start_target}

module _ (env : Env) where
  open env use {now}

  begin_stop : String → Manager → Manager
  begin_stop id m =
      let marked = update_target id (λ t. record t { state = TargetState.stopping }) m in
      persistent_targets_changed id (
        set_runtime_transport env id (runtime_status_for_target marked id).session_serial
          TransportState.stopping "Stopping" (pos 0) marked)

  -- The session is gone at once: the target is stopped.
  stopped_at_once : String → Manager → Manager
  stopped_at_once id m =
      let reset =
        reset_runtime_status env id
          (update_target id (λ t. record t { state = TargetState.stopped; last_error = "" }) m) in
      let (saved, ok) = save env reset in
      persistent_targets_changed id (if reset.runtime_target_ids id then reset else saved)

  stop_found : String → OutputTarget → Manager → Manager
  stop_found id target m =
      let released = release_session env id true 0 (begin_stop id m) in
      if is_transport (runtime_status_for_target m id).transport TransportState.idle
        && not (is_some (session_for_target m id))
        && is_state target.state TargetState.stopped
      then m
      else if is_some (session_for_target released id)
      then persistent_targets_changed id
          (update_target id (λ t. record t { last_error = "" }) released)
      else stopped_at_once id released

  pub stop_target : String → Manager → Manager
  stop_target id m = elim (find_target m id) [ none ↦ m | some target ↦ stop_found id target m ]

  stop_each : List String → Manager → Manager
  stop_each [] m = m
  stop_each (id ∷ ids) m = stop_each ids (stop_target id m)

  pub stop_all : Manager → Manager
  stop_all m = stop_each (map (λ t. t.id) m.targets) m

  pub suppress_next_auto_start : Manager → Manager
  suppress_next_auto_start m = record m {
    suppress_next_obs_auto_start = true;
    suppress_obs_auto_start_until_ms = now + 60000;
  }

  pub suppress_next_auto_stop : Manager → Manager
  suppress_next_auto_stop m = record m {
    suppress_next_obs_auto_stop = true;
    suppress_obs_auto_stop_until_ms = now + 5000;
  }

  pub clear_auto_start_suppression : Manager → Manager
  clear_auto_start_suppression m = record m {
    suppress_next_obs_auto_start = false;
    suppress_obs_auto_start_until_ms = 0;
  }

  pub clear_auto_stop_suppression : Manager → Manager
  clear_auto_stop_suppression m = record m {
    suppress_next_obs_auto_stop = false;
    suppress_obs_auto_stop_until_ms = 0;
  }

  -- shouldSuppressObsAutoStart, before it clears the suppression.
  pub auto_start_suppressed : Manager → Bool
  auto_start_suppressed m =
      m.suppress_next_obs_auto_start || ltb now m.suppress_obs_auto_start_until_ms

  pub auto_stop_suppressed : Manager → Bool
  auto_stop_suppressed m =
      m.suppress_next_obs_auto_stop || ltb now m.suppress_obs_auto_stop_until_ms

  pub auto_start_ids : List OutputTarget → List String
  auto_start_ids [] = []
  auto_start_ids (t ∷ ts) =
      let rest = auto_start_ids ts in
      if t.enabled && t.auto_start_with_obs then t.id ∷ rest else rest

  pub auto_stop_ids : List OutputTarget → List String
  auto_stop_ids [] = []
  auto_stop_ids (t ∷ ts) =
      let rest = auto_stop_ids ts in if t.auto_stop_with_obs then t.id ∷ rest else rest

  start_ids : List String → Manager → Manager
  start_ids [] m = m
  start_ids (id ∷ ids) m = start_ids ids (start_target env id m).0

  pub handle_obs_streaming_started : Manager → Manager
  handle_obs_streaming_started m =
      let cleared = clear_auto_start_suppression m in
      if auto_start_suppressed m then cleared else start_ids (auto_start_ids m.targets) cleared

  pub handle_obs_streaming_stopped : Manager → Manager
  handle_obs_streaming_stopped m =
      let cleared = clear_auto_stop_suppression m in
      if auto_stop_suppressed m then cleared else stop_each (auto_stop_ids m.targets) cleared
