-- ===== src/Manager/Save.antt =====
-- core/output-manager.cpp: OutputManager::save, ensureCredentialRefs, and the removal of
-- credentials that no target refers to any more; core/secret-store.cpp: the names of credentials.
pub mod Frame
pub mod Ids
use obs_dsk_multistream.Base.{
  String, ◌<>◌, Bool, true, false, not, ◌==◌, ◌&&◌, ◌||◌, none, some, List, [], ◌∷◌, ◌++◌,
  starts_with, if◌then◌else◌, is_empty,
}
use obs_dsk_multistream.Target.{OutputTarget}
use obs_dsk_multistream.Settings.{PluginSettings}
use obs_dsk_multistream.Manager.State.{
  Env, Manager, emit, status_message, delete_secret, modify_target,
}

unfoldable pub stream_key_credential_ref : String → String
stream_key_credential_ref id = "DSK Multistream/stream-key/" <> id

unfoldable pub oauth_client_secret_credential_ref : String → String
oauth_client_secret_credential_ref id = "DSK Multistream/oauth-client-secret/" <> id

unfoldable pub oauth_refresh_token_credential_ref : String → String
oauth_refresh_token_credential_ref id = "DSK Multistream/oauth-refresh-token/" <> id

-- A prefix, and more than the prefix.
abbrev has_name_under : String → String → Bool
has_name_under prefix ref = starts_with ref prefix && not (ref == prefix)

abbrev ref_or : Bool → String → String → String
ref_or missing fallback ref = if missing && is_empty ref then fallback else ref

unfoldable pub ensure_credential_refs : OutputTarget → OutputTarget
ensure_credential_refs target = record target {
  auth_credential_ref =
      ref_or (not (is_empty target.stream_key)) (stream_key_credential_ref target.id)
        target.auth_credential_ref;
  oauth_client_secret_ref =
      ref_or (not (is_empty target.oauth_client_secret))
        (oauth_client_secret_credential_ref target.id) target.oauth_client_secret_ref;
  oauth_refresh_token_ref =
      ref_or (not (is_empty target.oauth_refresh_token))
        (oauth_refresh_token_credential_ref target.id) target.oauth_refresh_token_ref;
}

-- The targets that are written: a copy of each that does not exist for this run only.
unfoldable pub persistent_targets : (String → Bool) → List OutputTarget → List OutputTarget
persistent_targets runtime [] = []
persistent_targets runtime (t ∷ ts) =
    let rest = persistent_targets runtime ts in
    if runtime t.id then rest else ensure_credential_refs t ∷ rest

-- The references of each written target go to the first target with its id.
unfoldable pub adopt_refs : List OutputTarget → List OutputTarget → List OutputTarget
adopt_refs [] targets = targets
adopt_refs (saved ∷ rest) targets = adopt_refs rest (
    modify_target saved.id
      (λ t. record t {
        auth_credential_ref = saved.auth_credential_ref;
        oauth_client_secret_ref = saved.oauth_client_secret_ref;
        oauth_refresh_token_ref = saved.oauth_refresh_token_ref;
      })
      targets)

-- The arguments of SettingsStore::save.
abbrev pub settings_of : List OutputTarget → Manager → PluginSettings
settings_of targets m = record {
  targets = targets;
  vertical_layout = m.layouts.vertical;
  vertical_scenes = m.layouts.vertical_scenes;
  active_vertical_scene_id = m.layouts.active_vertical_scene_id;
  follow_obs_scene = m.follow_obs_scene;
  scene_links = m.scene_links;
}

contains : String → List String → Bool
contains x [] = false
contains x (y ∷ ys) = y == x || contains x ys

add_new : String → List String → List String
add_new x xs = if contains x xs then xs else xs ++ (x ∷ [])

module _ (env : Env) where
  open env use {trimmed}

  unfoldable pub save : Manager → Manager × Bool
  save m =
      let persistent = persistent_targets m.runtime_target_ids m.targets in
      if env.profile_changed
      then (
        emit
            (status_message
              "OBS profile changed before DSK settings were reloaded. The save was blocked to protect both profiles.")
            m,
        false,
      )
      else elim (env.store_save (settings_of persistent m)) [
        | some error ↦ (emit (status_message ("Failed to save DSK settings: " <> error)) m, false)
        | none ↦ (
          record m { targets = adopt_refs persistent m.targets; persisted_layouts = m.layouts },
          true,
        )
      ]

  unfoldable pub is_owned_credential_ref : String → Bool
  is_owned_credential_ref credential_ref =
      let ref = trimmed credential_ref in
      has_name_under "DSK Multistream/stream-key/" ref
      || has_name_under "DSK Multistream/oauth-client-secret/" ref
      || has_name_under "DSK Multistream/oauth-refresh-token/" ref

  add_ref : String → List String → List String
  add_ref ref refs = if is_empty (trimmed ref) then refs else add_new (trimmed ref) refs

  unfoldable pub credential_refs_for_target : OutputTarget → List String
  unfolding add_ref add_new contains
  credential_refs_for_target target =
      add_ref target.oauth_refresh_token_ref
        (add_ref target.oauth_client_secret_ref (add_ref target.auth_credential_ref []))

  retained : String → List OutputTarget → Bool
  retained ref [] = false
  retained ref (t ∷ ts) = contains ref (credential_refs_for_target t) || retained ref ts

  -- The manager after the deletions, and the references that could not be deleted. The source
  -- goes through a hash set; here the order is that of the target's fields.
  delete_refs : List String → List OutputTarget → Manager → Manager × List String
  delete_refs [] remaining m = (m, [])
  delete_refs (ref ∷ refs) remaining m =
      let skipped = delete_refs refs remaining m in
      let asked = delete_refs refs remaining (emit (delete_secret ref) m) in
      if retained ref remaining
      then skipped
      else if not (is_owned_credential_ref ref)
      then skipped
      else elim (env.delete_secret_error ref) [
        | none ↦ asked
        | some error ↦ (asked.0, ((ref <> " (") <> (error <> ")")) ∷ asked.1)
      ]

  pub delete_unreferenced_target_secrets :
      OutputTarget → List OutputTarget → Manager → Manager × List String
  delete_unreferenced_target_secrets target remaining m =
      delete_refs (credential_refs_for_target target) remaining m
