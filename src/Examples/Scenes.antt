-- ===== src/Examples/Scenes.antt =====
-- The theorems about vertical scenes, scene links, routes and new targets at concrete values.
use obs_dsk_multistream.Base.{◌≡◌, ◌⊎◌, refl, true, false, some, [], ◌∷◌, is_some}
use obs_dsk_multistream.Samples.{granting, resting, two_scenes, channel, plain_qt}
use obs_dsk_multistream.Samples.Numbers.{whole_doubles}
use obs_dsk_multistream.Samples.Storage.{stroke_qt, strokes_distinct}
use obs_dsk_multistream.Layout.{default_layout, select_vertical_scene, scene_index}
use obs_dsk_multistream.Layout.Geometry.{
  normalize_vertical_layout_geometry, sized, normalized_dimension,
}
use obs_dsk_multistream.Layout.Sync.{
  sanitized_vertical_layout, foreign_items, initialize_vertical_scenes,
}
use obs_dsk_multistream.Layout.Sync.Laws.{IsSynced, initialize_vertical_scenes-IsSynced}
use obs_dsk_multistream.Settings.{SceneLayoutLink}
use obs_dsk_multistream.Manager.State.{Env, Manager, lookup_target}
use obs_dsk_multistream.Manager.Save.Ids.{HasDistinctIds}
use obs_dsk_multistream.Manager.Adding.{add_target, add_runtime_target}
use obs_dsk_multistream.Manager.Adding.Distinct.{
  add_target-HasDistinctIds, add_runtime_target-HasDistinctIds,
}
use obs_dsk_multistream.Manager.Layouts.{remove_scene, edit_scenes_saved}
use obs_dsk_multistream.Manager.Layouts.Undone.{IsSettled, IsDoneOrUndone, edit_scenes_saved-undone}
use obs_dsk_multistream.Manager.Links.{clean_link, current_link, upsert_scene_link}
use obs_dsk_multistream.Manager.Links.Laws.{at_scene, current_link-upsert_scene_link}
use obs_dsk_multistream.Manager.Routes.{set_route, edit_routes}
use obs_dsk_multistream.Manager.Routes.Undone.{IsDoneOrKept, edit_routes-kept}

-- An OBS whose settings file cannot be written, and one with new identifiers.
abbrev full_disk : Env
full_disk = record granting { store_save = λ s. some "disk full" }

abbrev counting : Env
counting = record granting { new_target_id = stroke_qt.number }

abbrev talk_link : SceneLayoutLink
talk_link = record {
  scene_name = "Talk";
  scene_uuid = "u";
  vertical_scene_id = "talk";
  legacy_template_id = "";
}

-- Another scene of OBS is linked already.
abbrev linked : Manager
linked = record resting {
  scene_links =
      record {
        scene_name = "Game";
        scene_uuid = "v";
        vertical_scene_id = "game";
        legacy_template_id = "";
      }
      ∷ [];
}

two_scenes-IsSettled : IsSettled full_disk two_scenes
unfolding initialize_vertical_scenes select_vertical_scene scene_index sanitized_vertical_layout
    foreign_items normalize_vertical_layout_geometry sized normalized_dimension
two_scenes-IsSettled base = refl

channel-HasDistinctIds : HasDistinctIds (channel ∷ [])
unfolding HasDistinctIds lookup_target
channel-HasDistinctIds = (refl, tt)

initialize_vertical_scenes-IsSynced_example :
    IsSynced (initialize_vertical_scenes plain_qt whole_doubles [] "gone" default_layout two_scenes)
initialize_vertical_scenes-IsSynced_example =
    initialize_vertical_scenes-IsSynced plain_qt whole_doubles [] "gone" default_layout two_scenes

edit_scenes_saved-undone_example :
    IsDoneOrUndone resting [] (edit_scenes_saved full_disk (remove_scene "game") resting)
edit_scenes_saved-undone_example =
    edit_scenes_saved-undone full_disk resting two_scenes-IsSettled refl (remove_scene "game")

edit_routes-kept_example :
    IsDoneOrKept granting "a"
      (set_route "Talk" "Game")
      resting
      (edit_routes granting "a" (set_route "Talk" "Game") resting)
edit_routes-kept_example = edit_routes-kept granting "a" (set_route "Talk" "Game") resting

current_link-upsert_scene_link_example :
    (current_link
        (at_scene granting (clean_link granting talk_link).scene_uuid)
        (granting.trimmed talk_link.scene_name)
        (upsert_scene_link granting talk_link linked).scene_links
      ≡ some (clean_link granting talk_link))
    × (current_link
          (at_scene granting "v")
          "Game"
          (upsert_scene_link granting talk_link linked).scene_links
        ≡ current_link (at_scene granting "v") "Game" linked.scene_links)
unfolding clean_link
current_link-upsert_scene_link_example =
    current_link-upsert_scene_link granting talk_link linked "Game" "v" refl refl (λ s. refl) refl
      refl refl refl refl

add_target-HasDistinctIds_example :
    HasDistinctIds (add_target counting channel resting).0.targets
    × (((add_target counting channel resting).1 ≡ true)
        ⊎ ((add_target counting channel resting).0.targets ≡ resting.targets))
add_target-HasDistinctIds_example =
    add_target-HasDistinctIds counting strokes_distinct channel resting channel-HasDistinctIds

add_runtime_target-HasDistinctIds_example :
    HasDistinctIds (add_runtime_target counting channel resting).0.targets
    × (is_some (lookup_target (add_runtime_target counting channel resting).1 resting.targets)
        ≡ false)
add_runtime_target-HasDistinctIds_example =
    add_runtime_target-HasDistinctIds counting strokes_distinct channel resting
      channel-HasDistinctIds
