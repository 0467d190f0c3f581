-- ===== src/Manager/Save/Frame.antt =====
-- What saving and deleting credentials do with the rest of the manager's record
-- (core/output-manager.cpp).
use obs_dsk_multistream.Base.{String, ◌≡◌, refl, none, List, [], ◌∷◌, arith, true, false}
use obs_dsk_multistream.Target.{OutputTarget}
use obs_dsk_multistream.Settings.{PluginSettings}
use obs_dsk_multistream.Manager.State.{Env, Manager, emit, delete_secret}
use obs_dsk_multistream.Manager.Save.{
  save, settings_of, persistent_targets, delete_refs, delete_unreferenced_target_secrets,
}

module _ (env : Env) where
  pub save-core : (m : Manager) → (save env m).0.core ≡ m.core
  unfolding save
  save-core m = ground arith

  -- A save that fails changes no target.
  pub save-kept : (m : Manager) → (save env m).1 ≡ false → (save env m).0.targets ≡ m.targets
  unfolding save
  save-kept m h = ground arith

  -- A save leaves the scenes and the links; what it persists of the scenes is what they are.
  pub save-scenes :
      (m : Manager)
      → ((save env m).0.layouts ≡ m.layouts)
        × ((save env m).0.scene_links ≡ m.scene_links)
        × ((save env m).0.follow_obs_scene ≡ m.follow_obs_scene)
  unfolding save
  save-scenes m = (ground arith, ground arith, ground arith)

  -- A store that takes everything lets every save of the same profile succeed.
  pub save-taken :
      (m : Manager)
      → env.profile_changed ≡ false
      → ((s : PluginSettings) → env.store_save s ≡ none)
      → (save env m).1 ≡ true
  unfolding save
  save-taken m same takes =
      rw (same, takes (settings_of (persistent_targets m.runtime_target_ids m.targets) m)) refl

  pub save-persisted :
      (m : Manager) → (save env m).1 ≡ true → (save env m).0.persisted_layouts ≡ m.layouts
  unfolding save
  save-persisted m h = ground arith

  pub save-unpersisted :
      (m : Manager)
      → (save env m).1 ≡ false
      → (save env m).0.persisted_layouts ≡ m.persisted_layouts
  unfolding save
  save-unpersisted m h = ground arith

  delete_refs-core :
      (refs : List String) (remaining : List OutputTarget) (m : Manager)
      → ((delete_refs env refs remaining m).0.core ≡ m.core)
        × ((delete_refs env refs remaining m).0.targets ≡ m.targets)
  unfolding delete_refs
  delete_refs-core [] remaining m = (refl, refl)
  delete_refs-core (ref ∷ refs) remaining m =
      let skipped = delete_refs-core refs remaining m in
      let asked = delete_refs-core refs remaining (emit (delete_secret ref) m) in ground (arith)

  pub delete_unreferenced-core :
      (target : OutputTarget) (remaining : List OutputTarget) (m : Manager)
      → ((delete_unreferenced_target_secrets env target remaining m).0.core ≡ m.core)
        × ((delete_unreferenced_target_secrets env target remaining m).0.targets ≡ m.targets)
  unfolding delete_unreferenced_target_secrets
  delete_unreferenced-core target remaining m = delete_refs-core _ remaining m
