-- ===== src/Manager/Routes.antt =====
-- core/output-manager.cpp: which scene a target shows (setTargetSceneMode, upsertTargetSceneRoute),
-- and the renewal of the names and uuids of scenes (refreshSceneIdentities).
pub mod Undone
use obs_dsk_multistream.Base.{
  String, Bool, true, false, not, ◌==◌, ◌&&◌, ◌||◌, Option, none, some, List, [], ◌∷◌, ◌++◌, map,
  if◌then◌else◌, is_empty, is_some,
}
use obs_dsk_multistream.Target.{OutputTarget, TargetSceneMode, TargetSceneRoute, is_follow_obs}
use obs_dsk_multistream.Settings.{SceneLayoutLink}
use obs_dsk_multistream.Manager.State.{
  Env, Manager, emit, find_target, update_target, session_for_target, targets_changed,
  vertical_layout_changed, refresh_linked_scene_canvases, release_target_scene_canvas,
  status_message,
}
use obs_dsk_multistream.Manager.Save.{save}
use obs_dsk_multistream.Manager.Links.{resolved_obs_scene_name}

pub data RouteEdit : Type 0 where
  set_scene_mode : TargetSceneMode → String → RouteEdit
  set_route : String → String → RouteEdit

module _ (env : Env) where
  open env use {qt, trimmed, obs_scene_uuid_for_name}

  -- The end of both edits: the canvases and the interface follow.
  announced : Manager → Manager
  announced m = emit targets_changed (emit refresh_linked_scene_canvases m)

  moded : TargetSceneMode → String → OutputTarget → OutputTarget
  moded mode fallback target =
      let name = trimmed fallback in
      let found = obs_scene_uuid_for_name name in
      record target {
        scene_mode = mode;
        scene_name = name;
        scene_uuid =
            if not (is_empty found)
            then found
            else if name == target.scene_name
            then target.scene_uuid
            else "";
      }

  unmoded : OutputTarget → OutputTarget → OutputTarget
  unmoded previous t = record t {
    scene_mode = previous.scene_mode;
    scene_name = previous.scene_name;
    scene_uuid = previous.scene_uuid;
  }

  set_mode : String → TargetSceneMode → String → OutputTarget → Manager → Manager × Bool
  set_mode id mode fallback previous m =
      let (saved, ok) = save env (update_target id (moded mode fallback) m) in
      if not ok
      then (
        announced (
            emit (status_message "Failed to save output scene settings.")
              (update_target id (unmoded previous) saved)),
        false,
      )
      else if is_follow_obs mode
      then (announced (emit (release_target_scene_canvas id) saved), true)
      else (announced saved, true)

  pub set_target_scene_mode : String → TargetSceneMode → String → Manager → Manager × Bool
  set_target_scene_mode id mode fallback m = elim (find_target m id) [
    | none ↦ (m, false)
    | some target ↦
        if is_some (session_for_target m id)
        then (
          emit targets_changed
              (emit (status_message "Stop this target before changing its output scene mode.") m),
          false,
        )
        else set_mode id mode fallback target m
  ]

  named_routes : List TargetSceneRoute → List TargetSceneRoute
  named_routes [] = []
  named_routes (r ∷ rs) =
      let rest = named_routes rs in
      if is_empty (trimmed r.obs_scene_name) || is_empty (trimmed r.output_scene_name)
      then rest
      else r ∷ rest

  is_route_of : String → String → TargetSceneRoute → Bool
  is_route_of name uuid r =
      if not (is_empty uuid) && not (is_empty (trimmed r.obs_scene_uuid))
      then trimmed r.obs_scene_uuid == uuid
      else trimmed r.obs_scene_name == name

  -- The route of the scene is replaced or, without an output scene, removed; a new one is the last.
  put_route : TargetSceneRoute → List TargetSceneRoute → List TargetSceneRoute
  put_route route [] = if is_empty route.output_scene_name then [] else route ∷ []
  put_route route (r ∷ rs) =
      let rest = put_route route rs in
      if is_route_of route.obs_scene_name route.obs_scene_uuid r
      then (if is_empty route.output_scene_name then rs else route ∷ rs)
      else r ∷ rest

  save_routes : String → List TargetSceneRoute → List TargetSceneRoute → Manager → Manager × Bool
  save_routes id routes previous m =
      let (saved, ok) = save env (update_target id (λ t. record t { scene_routes = routes }) m) in
      if ok then (announced saved, true) else (
        announced (
            emit (status_message "Failed to save output scene route.")
              (update_target id (λ t. record t { scene_routes = previous }) saved)),
        false,
      )

  put_found : String → TargetSceneRoute → Manager → Manager × Bool
  put_found id route m = elim (find_target m id) [
    | none ↦ (m, false)
    | some target ↦
        if is_some (session_for_target m id)
        then (
          emit targets_changed
              (emit (status_message "Stop this target before changing its scene routes.") m),
          false,
        )
        else save_routes id (put_route route (named_routes target.scene_routes)) target.scene_routes
            m
  ]

  pub upsert_target_scene_route : String → String → String → Manager → Manager × Bool
  upsert_target_scene_route id obs_scene_name output_scene_name m =
      let route : TargetSceneRoute = record {
        obs_scene_name = trimmed obs_scene_name;
        obs_scene_uuid = obs_scene_uuid_for_name (trimmed obs_scene_name);
        output_scene_name = trimmed output_scene_name;
        output_scene_uuid = obs_scene_uuid_for_name (trimmed output_scene_name);
      } in
      if is_empty route.obs_scene_name then (m, false) else put_found id route m

  unfoldable pub edit_routes : String → RouteEdit → Manager → Manager × Bool
  edit_routes id (set_scene_mode mode fallback) m = set_target_scene_mode id mode fallback m
  edit_routes id (set_route obs_scene_name output_scene_name) m =
      upsert_target_scene_route id obs_scene_name output_scene_name m

  -- A scene as its name and its uuid, and whether they changed.
  record Identity : Type 0 where
    name : String
    uuid : String

  -- The uuid is kept and the name follows it; a missing one is looked up by the other.
  synced : Identity → Identity
  synced i =
      let name = trimmed i.name in
      let uuid = trimmed i.uuid in
      let by_name = obs_scene_uuid_for_name name in
      let by_uuid = resolved_obs_scene_name env uuid "" in
      if is_empty name
      then record {
        name = if is_empty uuid || is_empty by_uuid then name else by_uuid;
        uuid = uuid;
      }
      else if is_empty uuid
      then record { name = name; uuid = if is_empty by_name then uuid else by_name }
      else record { name = if is_empty by_uuid then name else by_uuid; uuid = uuid }

  abbrev same_identity : Identity → Identity → Bool
  same_identity i j = i.name == j.name && i.uuid == j.uuid

  abbrev obs_identity : TargetSceneRoute → Identity
  obs_identity r = record { name = r.obs_scene_name; uuid = r.obs_scene_uuid }

  abbrev output_identity : TargetSceneRoute → Identity
  output_identity r = record { name = r.output_scene_name; uuid = r.output_scene_uuid }

  abbrev target_identity : OutputTarget → Identity
  target_identity t = record { name = t.scene_name; uuid = t.scene_uuid }

  abbrev link_identity : SceneLayoutLink → Identity
  link_identity l = record { name = l.scene_name; uuid = l.scene_uuid }

  synced_route : TargetSceneRoute → TargetSceneRoute
  synced_route r =
      let obs = synced (obs_identity r) in
      let output = synced (output_identity r) in
      record {
        obs_scene_name = obs.name;
        obs_scene_uuid = obs.uuid;
        output_scene_name = output.name;
        output_scene_uuid = output.uuid;
      }

  synced_target : OutputTarget → OutputTarget
  synced_target t =
      let i = synced (target_identity t) in
      record t {
        scene_name = i.name;
        scene_uuid = i.uuid;
        scene_routes = map synced_route t.scene_routes;
      }

  synced_link : SceneLayoutLink → SceneLayoutLink
  synced_link l =
      let i = synced (link_identity l) in record l { scene_name = i.name; scene_uuid = i.uuid }

  route_changed : TargetSceneRoute → Bool
  route_changed r =
      not (same_identity (obs_identity r) (synced (obs_identity r)))
      || not (same_identity (output_identity r) (synced (output_identity r)))

  abbrev any {ℓ} : {A : Type ℓ} → (A → Bool) → List A → Bool
  any f [] = false
  any f (x ∷ xs) = f x || any f xs

  target_changed : OutputTarget → Bool
  target_changed t =
      not (same_identity (target_identity t) (synced (target_identity t)))
      || any route_changed t.scene_routes

  link_changed : SceneLayoutLink → Bool
  link_changed l = not (same_identity (link_identity l) (synced (link_identity l)))

  pub refresh_scene_identities : Manager → Manager
  refresh_scene_identities m =
      let (saved, ok) = save env (record m {
        targets = map synced_target m.targets;
        scene_links = map synced_link m.scene_links;
      }) in
      if not (any target_changed m.targets || any link_changed m.scene_links)
      then m
      else if ok
      then emit vertical_layout_changed (emit targets_changed saved)
      else emit
          (status_message
            "Failed to migrate OBS scene identities. Existing scene settings were kept.")
          (record saved { targets = m.targets; scene_links = m.scene_links })
