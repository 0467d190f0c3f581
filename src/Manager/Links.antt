-- ===== src/Manager/Links.antt =====
-- core/output-manager.cpp: the links from scenes of OBS to vertical scenes (upsertSceneLink,
-- removeSceneLink, setFollowObsScene, handleObsSceneChanged, applyLinkedScene) and the names by
-- which scenes are found (resolvedObsSceneName, effectiveOutputSceneName).
pub mod Laws
use obs_dsk_multistream.Base.{
  String, ◌<>◌, Bool, true, false, not, ◌==◌, ◌&&◌, ◌||◌, Option, none, some, List, [], ◌∷◌, ◌++◌,
  if◌then◌else◌, is_empty,
}
use obs_dsk_multistream.Target.{
  OutputTarget, TargetSceneRoute, follow_obs, fixed_scene, linked_scene,
}
use obs_dsk_multistream.Layout.{LayoutManager, select_vertical_scene}
use obs_dsk_multistream.Layout.Sync.{apply_template}
use obs_dsk_multistream.Settings.{SceneLayoutLink}
use obs_dsk_multistream.Manager.State.{
  Env, Manager, emit, vertical_layout_changed, refresh_linked_scene_canvases, status_message,
}
use obs_dsk_multistream.Manager.Save.{save}
use obs_dsk_multistream.Manager.Targets.{same_flag}
use obs_dsk_multistream.Manager.Layouts.{save_vertical_layout}

module _ (env : Env) where
  open env use {
    qt, dbl, trimmed, obs_scene_uuid_for_name, obs_scene_name_for_uuid, current_obs_scene_name,
    current_obs_scene_uuid,
  }

  unfoldable pub resolved_obs_scene_name : String → String → String
  resolved_obs_scene_name uuid fallback =
      if is_empty (trimmed uuid) then trimmed fallback else obs_scene_name_for_uuid (trimmed uuid)

  -- Whether a route or a link, by the name and the uuid it has, belongs to the current scene.
  unfoldable pub is_current : String → String → String → String → Bool
  is_current name uuid scene_name scene_uuid =
      if is_empty (trimmed uuid)
      then trimmed name == scene_name
      else not (is_empty scene_uuid) && trimmed uuid == scene_uuid

  routed : List TargetSceneRoute → Option TargetSceneRoute
  routed [] = none
  routed (r ∷ rs) =
      let rest = routed rs in
      if is_current r.obs_scene_name r.obs_scene_uuid current_obs_scene_name current_obs_scene_uuid
      then some r
      else rest

  pub effective_output_scene_name : OutputTarget → String
  effective_output_scene_name t = elim t.scene_mode [
    | fixed_scene ↦ resolved_obs_scene_name t.scene_uuid t.scene_name
    | linked_scene ↦ elim (routed t.scene_routes) [
      | none ↦ resolved_obs_scene_name t.scene_uuid t.scene_name
      | some r ↦ resolved_obs_scene_name r.output_scene_uuid r.output_scene_name
    ]
    | follow_obs ↦ ""
  ]

  pub current_link : String → List SceneLayoutLink → Option SceneLayoutLink
  current_link scene_name [] = none
  current_link scene_name (l ∷ ls) =
      let rest = current_link scene_name ls in
      if is_current l.scene_name l.scene_uuid (trimmed scene_name) current_obs_scene_uuid
      then some l
      else rest

  -- The layouts after the link, if it can be applied.
  linked_layouts : SceneLayoutLink → LayoutManager → Option LayoutManager
  linked_layouts link layouts =
      let (selected, ok) = select_vertical_scene link.vertical_scene_id layouts in
      if not (is_empty link.vertical_scene_id)
      then (if ok then some selected else none)
      else if not (is_empty link.legacy_template_id)
      then some (apply_template qt dbl link.legacy_template_id layouts)
      else none

  apply_layouts : String → Option LayoutManager → Manager → Manager × Bool
  apply_layouts scene_name none m = (m, false)
  apply_layouts scene_name (some layouts) m =
      let (saved, ok) = save_vertical_layout env (record m { layouts = layouts }) in
      if ok
      then (emit (status_message ("DSK vertical scene linked to " <> scene_name)) saved, true)
      else (saved, false)

  apply_link : String → Option SceneLayoutLink → Manager → Manager × Bool
  apply_link scene_name none m = (m, false)
  apply_link scene_name (some link) m = apply_layouts scene_name (linked_layouts link m.layouts) m

  pub apply_linked_scene : String → Manager → Manager × Bool
  apply_linked_scene scene_name m =
      if is_empty scene_name
      then (m, false)
      else apply_link scene_name (current_link scene_name m.scene_links) m

  pub handle_obs_scene_changed : Manager → Manager
  handle_obs_scene_changed m =
      let (linked, applied) =
        if m.follow_obs_scene then apply_linked_scene current_obs_scene_name m else (m, false) in
      let asked = emit refresh_linked_scene_canvases linked in
      if applied then asked else emit vertical_layout_changed asked

  pub set_follow_obs_scene : Bool → Manager → Manager
  set_follow_obs_scene follow m =
      let (saved, ok) = save env (record m { follow_obs_scene = follow }) in
      if same_flag m.follow_obs_scene follow
      then m
      else if not ok
      then emit (status_message "Failed to save OBS scene link setting.")
          (record saved { follow_obs_scene = m.follow_obs_scene })
      else if follow
      then handle_obs_scene_changed saved
      else saved

  -- The uuid of the scene with the name, or else the one given.
  unfoldable pub clean_link : SceneLayoutLink → SceneLayoutLink
  clean_link link =
      let name = trimmed link.scene_name in
      let found = obs_scene_uuid_for_name name in
      record link {
        scene_name = name;
        scene_uuid = if is_empty found then trimmed link.scene_uuid else found;
      }

  -- Two uuids are compared if both are known, else the names.
  unfoldable pub is_link_of : String → String → SceneLayoutLink → Bool
  is_link_of name uuid existing =
      if not (is_empty uuid) && not (is_empty (trimmed existing.scene_uuid))
      then trimmed existing.scene_uuid == uuid
      else trimmed existing.scene_name == name

  put_link : SceneLayoutLink → List SceneLayoutLink → List SceneLayoutLink
  put_link link [] = link ∷ []
  put_link link (l ∷ ls) =
      let rest = put_link link ls in
      if is_link_of link.scene_name link.scene_uuid l then link ∷ ls else l ∷ rest

  save_links : String → List SceneLayoutLink → Manager → Manager
  save_links error links m =
      let (saved, ok) = save env (record m { scene_links = links }) in
      if ok
      then saved
      else emit (status_message error) (record saved { scene_links = m.scene_links })

  pub upsert_scene_link : SceneLayoutLink → Manager → Manager
  upsert_scene_link link m =
      let clean = clean_link link in
      if is_empty clean.scene_name
        || is_empty clean.vertical_scene_id && is_empty clean.legacy_template_id
      then m
      else save_links "Failed to save vertical scene link." (put_link clean m.scene_links) m

  -- The links without the first one of the scene, if there is one.
  taken_link : String → String → List SceneLayoutLink → Option (List SceneLayoutLink)
  taken_link name uuid [] = none
  taken_link name uuid (l ∷ ls) =
      let rest : Option (List SceneLayoutLink) = elim (taken_link name uuid ls) [
        | none ↦ none
        | some ls' ↦ some (l ∷ ls')
      ] in
      if is_link_of name uuid l then some ls else rest

  drop_link : Option (List SceneLayoutLink) → Manager → Manager
  drop_link none m = m
  drop_link (some links) m = save_links "Failed to remove vertical scene link." links m

  pub remove_scene_link : String → String → Manager → Manager
  remove_scene_link scene_name scene_uuid m =
      let name = trimmed scene_name in
      let uuid =
        if is_empty (trimmed scene_uuid)
        then obs_scene_uuid_for_name name
        else trimmed scene_uuid in
      drop_link (taken_link name uuid m.scene_links) m
