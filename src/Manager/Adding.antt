-- ===== src/Manager/Adding.antt =====
-- core/output-manager.cpp: addTarget and addRuntimeTarget, which give a new target an id of its own.
pub mod Distinct
use obs_dsk_multistream.Base.{
  ℕ, zero, suc, String, Bool, true, false, ◌||◌, Option, none, some, List, [], ◌∷◌, ◌++◌, map,
  if◌then◌else◌, is_empty, is_some, length,
}
use obs_dsk_multistream.Target.{OutputTarget, TargetSceneRoute}
use obs_dsk_multistream.Manager.State.{
  Env, Manager, emit, put, lookup_target, targets_changed, status_message,
}
use obs_dsk_multistream.Manager.Save.{save}

-- QVector::removeLast
abbrev remove_last : List OutputTarget → List OutputTarget
remove_last [] = []
remove_last (t ∷ []) = []
remove_last (t ∷ u ∷ ts) = t ∷ remove_last (u ∷ ts)

module _ (env : Env) where
  open env use {trimmed, obs_scene_uuid_for_name, new_target_id}

  uuid_or : String → String → String
  uuid_or name fallback =
      let found = obs_scene_uuid_for_name name in if is_empty found then fallback else found

  identified_route : TargetSceneRoute → TargetSceneRoute
  identified_route r = record r {
    obs_scene_uuid = uuid_or r.obs_scene_name r.obs_scene_uuid;
    output_scene_uuid = uuid_or r.output_scene_name r.output_scene_uuid;
  }

  -- The scenes of a new target get the uuids that OBS knows.
  identified : OutputTarget → OutputTarget
  identified t = record t {
    scene_uuid =
        if is_empty (trimmed t.scene_name)
        then t.scene_uuid
        else uuid_or t.scene_name (trimmed t.scene_uuid);
    scene_routes = map identified_route t.scene_routes;
  }

  -- The identifiers from the n-th on until one is free; the turns are bounded by the targets.
  search_id : ℕ → ℕ → List OutputTarget → String
  search_id zero n targets = new_target_id n
  search_id (suc turns) n targets =
      let next = search_id turns (suc n) targets in
      if is_some (lookup_target (new_target_id n) targets) then next else new_target_id n

  id_for : String → List OutputTarget → String
  id_for id targets =
      if is_empty id || is_some (lookup_target id targets)
      then search_id (suc (length targets)) 0 targets
      else id

  with_own_id : OutputTarget → List OutputTarget → OutputTarget
  with_own_id t targets = record t { id = id_for t.id targets }

  pub add_target : OutputTarget → Manager → Manager × Bool
  add_target target m =
      let added = with_own_id (identified target) m.targets in
      let (saved, ok) = save env (record m { targets = m.targets ++ (added ∷ []) }) in
      if ok then (emit targets_changed saved, true) else (
        emit targets_changed (
            emit (status_message "Failed to add target. Settings were not changed.")
              (record saved { targets = remove_last saved.targets })),
        false,
      )

  -- A target for this run only, without scene routes; it is not saved.
  pub add_runtime_target : OutputTarget → Manager → Manager × String
  add_runtime_target target m =
      let added = with_own_id (record target { scene_routes = [] }) m.targets in
      (
        record m {
          targets = m.targets ++ (added ∷ []);
          runtime_target_ids = put added.id true m.runtime_target_ids;
        },
        added.id,
      )
