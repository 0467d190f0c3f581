-- ===== src/Manager/Layouts.antt =====
-- core/output-manager.cpp: the operations on vertical scenes, which are saved at once and taken back
-- when they cannot be saved.
pub mod Undone
use obs_dsk_multistream.Base.{
  String, ◌<>◌, Bool, true, false, ◌==◌, Option, is_some, none, some, List, [], ◌∷◌, ℤ,
  if◌then◌else◌, unless, is_empty,
}
use obs_dsk_multistream.Layout.{
  LayoutManager, create_vertical_scene, remove_vertical_scene, rename_vertical_scene,
  move_vertical_scene, reorder_vertical_scenes,
}
use obs_dsk_multistream.Layout.Sync.{initialize_vertical_scenes}
use obs_dsk_multistream.Settings.{SceneLayoutLink}
use obs_dsk_multistream.Manager.State.{
  Env, Manager, emit, vertical_layout_changed, refresh_vertical_canvas_scene, status_message,
}
use obs_dsk_multistream.Manager.Save.{save}

unfoldable pub links_without : String → List SceneLayoutLink → List SceneLayoutLink
links_without id [] = []
links_without id (l ∷ ls) =
    let rest = links_without id ls in if l.vertical_scene_id == id then rest else l ∷ rest

pub data SceneEdit : Type 0 where
  create_scene remove_scene : String → SceneEdit
  rename_scene : String → String → SceneEdit
  move_scene : String → ℤ → SceneEdit
  reorder_scenes : List String → SceneEdit

module _ (env : Env) where
  open env use {qt, dbl, new_target_id, canvas_refresh_error}

  -- The scenes as they were saved last.
  restore_layouts : Manager → Manager
  restore_layouts m = record m {
    layouts =
        initialize_vertical_scenes qt dbl m.persisted_layouts.vertical_scenes
          m.persisted_layouts.active_vertical_scene_id m.persisted_layouts.vertical m.layouts;
  }

  refreshed : Manager → Manager
  refreshed m =
      let asked = emit refresh_vertical_canvas_scene m in
      elim canvas_refresh_error [
        | none ↦ asked
        | some error ↦
            emit
              (status_message ("Vertical layout saved, but live preview refresh failed: " <> error))
              asked
      ]

  unfoldable pub save_vertical_layout : Manager → Manager × Bool
  unfolding restore_layouts refreshed
  save_vertical_layout m =
      let (saved, ok) = save env m in
      if ok then (emit vertical_layout_changed (refreshed saved), true) else (
        emit vertical_layout_changed (emit refresh_vertical_canvas_scene (restore_layouts saved)),
        false,
      )

  -- An operation of the layout manager, saved if it did something.
  saved_edit : LayoutManager × Bool → Manager → Manager × Bool
  saved_edit edit m =
      if edit.1 then save_vertical_layout (record m { layouts = edit.0 }) else (m, false)

  -- The id of the new scene, if it could be saved.
  pub create_vertical_scene_saved : String → Manager → Manager × Option String
  create_vertical_scene_saved name m =
      let id = new_target_id 0 in
      let (saved, ok) =
        save_vertical_layout
          (record m { layouts = create_vertical_scene qt id (new_target_id 1) name m.layouts }) in
      if ok then (saved, some id) else (saved, none)

  removed_scene : String → LayoutManager → Manager → Manager × Bool
  removed_scene id layouts m =
      let (saved, ok) =
        save_vertical_layout
          (record m { layouts = layouts; scene_links = links_without id m.scene_links }) in
      if ok
      then (saved, true)
      else (emit vertical_layout_changed (record saved { scene_links = m.scene_links }), false)

  pub remove_vertical_scene_saved : String → Manager → Manager × Bool
  remove_vertical_scene_saved id m =
      let (layouts, found) = remove_vertical_scene id m.layouts in
      if found then removed_scene id layouts m else (m, false)

  pub rename_vertical_scene_saved : String → String → Manager → Manager × Bool
  rename_vertical_scene_saved id name m =
      saved_edit (rename_vertical_scene qt (new_target_id 0) id name m.layouts) m

  pub move_vertical_scene_saved : String → ℤ → Manager → Manager × Bool
  move_vertical_scene_saved id offset m = saved_edit (move_vertical_scene id offset m.layouts) m

  pub reorder_vertical_scenes_saved : List String → Manager → Manager × Bool
  reorder_vertical_scenes_saved ids m = saved_edit (reorder_vertical_scenes ids m.layouts) m

  -- The operations, each with whether it was done.
  unfoldable pub edit_scenes_saved : SceneEdit → Manager → Manager × Bool
  edit_scenes_saved (create_scene name) m =
      let (saved, id) = create_vertical_scene_saved name m in (saved, is_some id)
  edit_scenes_saved (remove_scene id) m = remove_vertical_scene_saved id m
  edit_scenes_saved (rename_scene id name) m = rename_vertical_scene_saved id name m
  edit_scenes_saved (move_scene id offset) m = move_vertical_scene_saved id offset m
  edit_scenes_saved (reorder_scenes ids) m = reorder_vertical_scenes_saved ids m
