-- ===== src/Manager/Targets.antt =====
-- core/output-manager.cpp: removal, edits and switches of targets from the user interface
-- (removeTarget, removeRuntimeTarget, mutateTargetForUi, setTargetEnabled).
pub mod Edits
use obs_dsk_multistream.Base.{
  String, ◌<>◌, Bool, true, false, not, ◌==◌, ◌&&◌, ◌||◌, none, some, List, [], ◌∷◌, if◌then◌else◌,
  is_empty, is_some,
}
use obs_dsk_multistream.Target.{OutputTarget}
use obs_dsk_multistream.Runtime.{runtime_has_session, runtime_transport_is_busy}
use obs_dsk_multistream.Manager.State.{
  Env, Manager, emit, put, find_target, update_target, session_for_target,
  runtime_status_for_target, targets_changed, status_message,
}
use obs_dsk_multistream.Manager.Save.{save, delete_unreferenced_target_secrets}
use obs_dsk_multistream.Manager.Removal.{finalize_target_removal, join_texts}
use obs_dsk_multistream.Manager.Stop.{stop_target}

-- `a == b` of two flags.
abbrev pub same_flag : Bool → Bool → Bool
same_flag true b = b
same_flag false b = not b

module _ (env : Env) where
  open env use {trimmed, obs_scene_uuid_for_name}

  pub remove_runtime_target : String → Manager → Manager
  remove_runtime_target id m =
      if not (m.runtime_target_ids id) || m.pending_runtime_removal_ids id
      then m
      else if is_some (session_for_target m id)
      then stop_target env id
          (record m { pending_runtime_removal_ids = put id true m.pending_runtime_removal_ids })
      else (finalize_target_removal env id true m).0

  pub remove_target : String → Manager → Manager
  remove_target id m =
      if not (is_some (find_target m id)) || m.pending_persistent_removal_ids id
      then m
      else if m.runtime_target_ids id
      then remove_runtime_target id m
      else if is_some (session_for_target m id)
      then stop_target env id (
          emit (status_message "Stopping target before removal.") (record m {
            pending_persistent_removal_ids = put id true m.pending_persistent_removal_ids;
          }))
      else (finalize_target_removal env id false m).0

  -- `target->enabled = b` for a listed target; the switch is undone when it cannot be saved.
  switch_enabled : String → Bool → Bool → Manager → Manager
  switch_enabled id previous enabled m =
      let switched = update_target id (λ t. record t { enabled = enabled }) m in
      let (saved, ok) = save env switched in
      emit targets_changed (
        if m.runtime_target_ids id
        then switched
        else if ok
        then saved
        else update_target id (λ t. record t { enabled = previous }) saved)

  pub set_target_enabled : String → Bool → Manager → Manager
  set_target_enabled id enabled m = elim (find_target m id) [
    | none ↦ m
    | some target ↦
        if same_flag target.enabled enabled then m else switch_enabled id target.enabled enabled m
  ]

  -- What an edit leaves: the id, the state and the error stay, the scene's uuid follows its name.
  edited : (OutputTarget → OutputTarget) → OutputTarget → OutputTarget
  edited mutator previous =
      let raw = record (mutator previous) {
        id = previous.id;
        state = previous.state;
        last_error = previous.last_error;
      } in
      if not (trimmed raw.scene_name == trimmed previous.scene_name)
        || is_empty (trimmed raw.scene_uuid)
      then record raw { scene_uuid = obs_scene_uuid_for_name raw.scene_name }
      else raw

  clean_edit : OutputTarget → Manager → Manager × Bool
  clean_edit previous m =
      let (cleaned, failures) = delete_unreferenced_target_secrets env previous m.targets m in
      let told : Manager = elim failures [
        | [] ↦ cleaned
        | f ∷ fs ↦
            emit
              (status_message (
                "Target was saved, but obsolete credentials need cleanup: " <> join_texts (f ∷ fs)))
              cleaned
      ] in
      (emit targets_changed told, true)

  apply_edit : String → (OutputTarget → OutputTarget) → OutputTarget → Manager → Manager × Bool
  apply_edit id mutator previous m =
      let (saved, ok) = save env (update_target id (λ _. edited mutator previous) m) in
      if ok
      then clean_edit previous saved
      else (emit targets_changed (update_target id (λ _. previous) saved), false)

  -- An edit is refused while the target runs, or is being removed.
  abbrev busy_for_edit : String → Manager → Bool
  busy_for_edit id m =
      is_some (session_for_target m id)
      || runtime_has_session (runtime_status_for_target m id)
      || runtime_transport_is_busy (runtime_status_for_target m id)

  pub mutate_target_for_ui : String → (OutputTarget → OutputTarget) → Manager → Manager × Bool
  mutate_target_for_ui id mutator m = elim (find_target m id) [
    | none ↦ (m, false)
    | some previous ↦
        if m.pending_persistent_removal_ids id || m.pending_runtime_removal_ids id
        then (emit (status_message "Target removal is pending.") m, false)
        else if busy_for_edit id m
        then (
          emit targets_changed
              (emit (status_message "Stop this target before editing its settings.") m),
          false,
        )
        else apply_edit id mutator previous m
  ]
