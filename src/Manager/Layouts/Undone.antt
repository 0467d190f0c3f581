-- ===== src/Manager/Layouts/Undone.antt =====
-- core/output-manager.cpp: what the operations on vertical scenes leave as it was.
use obs_dsk_multistream.Base.{
  String, ◌≡◌, refl, ◌∙◌, sym, Bool, true, false, ◌⊎◌, List, arith, if_cases, if_under, inl, inr,
}
use obs_dsk_multistream.Layout.{LayoutManager, create_vertical_scene, remove_vertical_scene}
use obs_dsk_multistream.Settings.{SceneLayoutLink}
use obs_dsk_multistream.Layout.Sync.{initialize_vertical_scenes}
use obs_dsk_multistream.Manager.State.{Env, Manager}
use obs_dsk_multistream.Manager.Save.{save}
use obs_dsk_multistream.Manager.Save.Frame.{
  save-core, save-scenes, save-persisted, save-unpersisted,
}
use obs_dsk_multistream.Manager.Layouts.{
  SceneEdit, create_scene, remove_scene, rename_scene, move_scene, reorder_scenes,
  edit_scenes_saved, links_without, restore_layouts, refreshed, save_vertical_layout, saved_edit,
  create_vertical_scene_saved, removed_scene, remove_vertical_scene_saved,
  rename_vertical_scene_saved, move_vertical_scene_saved, reorder_vertical_scenes_saved,
}

-- Scenes that a start with them would leave as they are.
abbrev pub IsSettled : Env → LayoutManager → Type 0
IsSettled env l =
    (base : LayoutManager)
    → initialize_vertical_scenes env.qt env.dbl l.vertical_scenes l.active_vertical_scene_id
        l.vertical base
      ≡ l

-- Of an operation on scenes: done and saved, or undone, with these links, and nothing else of the
-- scenes has changed.
abbrev pub IsDoneOrUndone : Manager → List SceneLayoutLink → Manager × Bool → Type 0
IsDoneOrUndone m links r =
    ((r.1 ≡ true) × (r.0.persisted_layouts ≡ r.0.layouts))
    ⊎ ((r.1 ≡ false)
        × (r.0.layouts ≡ m.layouts)
        × (r.0.scene_links ≡ links)
        × (r.0.persisted_layouts ≡ m.persisted_layouts))

module _ (env : Env) where
  pub save_vertical_layout-core : (m : Manager) → (save_vertical_layout env m).0.core ≡ m.core
  unfolding save_vertical_layout
  save_vertical_layout-core m = ground (arith, save-core env m)

  refreshed-layouts :
      (m : Manager)
      → ((refreshed env m).layouts ≡ m.layouts)
        × ((refreshed env m).persisted_layouts ≡ m.persisted_layouts)
  unfolding refreshed
  refreshed-layouts m = (ground arith, ground arith)

  module _ (m : Manager) (settled : IsSettled env m.persisted_layouts)
      (same : m.persisted_layouts ≡ m.layouts) where
    -- From a manager that differs in the scenes and links only.
    save_vertical_layout-done :
        (m' : Manager)
        → m'.persisted_layouts ≡ m.persisted_layouts
        → IsDoneOrUndone m m'.scene_links (save_vertical_layout env m')
    unfolding save_vertical_layout restore_layouts
    save_vertical_layout-done m' p =
        let saved : Manager = (save env m').0 in
        if_under (IsDoneOrUndone m m'.scene_links) (save env m').1
          (λ ok. inl (
            refl,
            (refreshed-layouts saved).1
                ∙ (save-persisted env m' ok
                    ∙ (sym (save-scenes env m').0 ∙ sym (refreshed-layouts saved).0)),
          ))
          (λ failed.
            let back : saved.persisted_layouts ≡ m.persisted_layouts =
              save-unpersisted env m' failed ∙ p in
            inr (refl, rw back (settled saved.layouts ∙ same), (save-scenes env m').1, back))

    saved_edit-done :
        (edit : LayoutManager × Bool) → IsDoneOrUndone m m.scene_links (saved_edit env edit m)
    unfolding saved_edit
    saved_edit-done edit =
        if_cases (IsDoneOrUndone m m.scene_links) edit.1
          (save_vertical_layout-done (record m { layouts = edit.0 }) refl)
          (inr (refl, refl, refl, refl))

    removed_scene-done :
        (id : String) (layouts : LayoutManager)
        → IsDoneOrUndone m m.scene_links (removed_scene env id layouts m)
    unfolding removed_scene
    removed_scene-done id layouts = ground (
      arith,
      save_vertical_layout-done
          (record m { layouts = layouts; scene_links = links_without id m.scene_links }) refl,
    )

    create_scene-done :
        (name : String)
        → IsDoneOrUndone m m.scene_links (edit_scenes_saved env (create_scene name) m)
    unfolding edit_scenes_saved create_vertical_scene_saved
    create_scene-done name = ground (
      arith,
      save_vertical_layout-done
          (record m {
            layouts =
                create_vertical_scene env.qt (env.new_target_id 0) (env.new_target_id 1) name
                  m.layouts;
          })
          refl,
    )

    -- If the saved scenes are those in memory, and a start with them would leave them so: an operation
    -- on the vertical scenes is done and saved, or the scenes and the links are as before.
    pub edit_scenes_saved-undone :
        (edit : SceneEdit) → IsDoneOrUndone m m.scene_links (edit_scenes_saved env edit m)
    unfolding edit_scenes_saved remove_vertical_scene_saved rename_vertical_scene_saved
        move_vertical_scene_saved reorder_vertical_scenes_saved
    edit_scenes_saved-undone (create_scene name) = create_scene-done name
    edit_scenes_saved-undone (remove_scene id) =
        if_cases (IsDoneOrUndone m m.scene_links) (remove_vertical_scene id m.layouts).1
          (removed_scene-done id _) (inr (refl, refl, refl, refl))
    edit_scenes_saved-undone (rename_scene id name) = saved_edit-done _
    edit_scenes_saved-undone (move_scene id offset) = saved_edit-done _
    edit_scenes_saved-undone (reorder_scenes ids) = saved_edit-done _

  saved_edit-core :
      (edit : LayoutManager × Bool) (m : Manager) → (saved_edit env edit m).0.core ≡ m.core
  unfolding saved_edit
  saved_edit-core edit m = ground (arith, save_vertical_layout-core (record m { layouts = edit.0 }))

  removed_scene-core :
      (id : String) (layouts : LayoutManager) (m : Manager)
      → (removed_scene env id layouts m).0.core ≡ m.core
  unfolding removed_scene
  removed_scene-core id layouts m = ground (
    arith,
    save_vertical_layout-core
        (record m { layouts = layouts; scene_links = links_without id m.scene_links }),
  )

  pub edit_scenes_saved-core :
      (edit : SceneEdit) (m : Manager) → (edit_scenes_saved env edit m).0.core ≡ m.core
  unfolding edit_scenes_saved create_vertical_scene_saved remove_vertical_scene_saved
      rename_vertical_scene_saved move_vertical_scene_saved reorder_vertical_scenes_saved
  edit_scenes_saved-core (create_scene name) m = ground (
    arith,
    save_vertical_layout-core (record m {
      layouts =
          create_vertical_scene env.qt (env.new_target_id 0) (env.new_target_id 1) name m.layouts;
    }),
  )
  edit_scenes_saved-core (remove_scene id) m =
      if_cases (λ (r : Manager × Bool). r.0.core ≡ m.core) (remove_vertical_scene id m.layouts).1
        (removed_scene-core id _ m) refl
  edit_scenes_saved-core (rename_scene id name) m = saved_edit-core _ m
  edit_scenes_saved-core (move_scene id offset) m = saved_edit-core _ m
  edit_scenes_saved-core (reorder_scenes ids) m = saved_edit-core _ m
