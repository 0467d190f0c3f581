-- ===== src/Settings/Store/Saving/Reload.antt =====
-- core/settings-store.cpp, core/settings-codec.cpp: a load of the settings that a save wrote.
use obs_dsk_multistream.Base.{
  ℕ, suc, ◌+◌, String, ◌≡◌, refl, ap, false, Option, none, some, List, [], ◌∷◌, All, map, length,
  Qt,
}
use obs_dsk_multistream.Base.Doubles.{Doubles}
use obs_dsk_multistream.Target.{OutputTarget}
use obs_dsk_multistream.Layout.{VerticalLayoutScene}
use obs_dsk_multistream.Layout.Geometry.{normalize_loaded_vertical_layout}
use obs_dsk_multistream.Settings.{PluginSettings, SceneLayoutLink}
use obs_dsk_multistream.Settings.Json.{object, to_object, value, objects-array_of}
use obs_dsk_multistream.Settings.Codec.{
  layout_items, scene_link_to_json, scene_link_from_json, vertical_layout_scene_to_json,
}
use obs_dsk_multistream.Settings.Codec.Laws.{
  scene_link_from_json-to_json, vertical_layout_from_json-to_json,
  vertical_layout_scene_from_json-to_json,
}
use obs_dsk_multistream.Settings.Saved.{saved_target, saved_root, persisted_target, secret_writes}
use obs_dsk_multistream.Settings.Saved.RoundTrip.{
  HasInts, HasIntSize, IsStorable, output_target_from_json-saved_target,
}
use obs_dsk_multistream.Settings.Check.Saved.{read_root-saved_root}
use obs_dsk_multistream.Settings.Secrets.{
  CredentialStore, AppliedWrite, applied, apply_secret_writes,
}
use obs_dsk_multistream.Settings.Disk.{File, content_at}
use obs_dsk_multistream.Settings.Disk.Laws.{content_at-replace}
use obs_dsk_multistream.Settings.Store.{
  JsonText, document, FileCalls, SettingsStore, plain_store, targets_from_json, scenes_from_json,
  settings_from_json, load, load_found, load_opened, load_document, load_checked,
}
use obs_dsk_multistream.Settings.Store.Saving.{
  SaveResult, commit, write_settings, back_up, save_over, save,
}

unfoldable pub persisted_scene : Qt → Doubles → VerticalLayoutScene → VerticalLayoutScene
persisted_scene qt dbl scene = record scene {
  layout = normalize_loaded_vertical_layout dbl qt scene.layout;
}

-- What written settings read back as: the targets as `persisted_target`, layouts as a load normalizes
-- them, links without the template id of older versions, which is not written.
unfoldable pub persisted : Qt → Doubles → PluginSettings → PluginSettings
persisted qt dbl s = record s {
  targets = map (persisted_target qt) s.targets;
  vertical_layout = normalize_loaded_vertical_layout dbl qt s.vertical_layout;
  vertical_scenes = map (persisted_scene qt dbl) s.vertical_scenes;
  scene_links =
      map (λ (link : SceneLayoutLink). record link { legacy_template_id = "" }) s.scene_links;
}

links_from_json-to_json :
    (links : List SceneLayoutLink)
    → map scene_link_from_json (map scene_link_to_json links)
      ≡ map (λ (link : SceneLayoutLink). record link { legacy_template_id = "" }) links
links_from_json-to_json [] = refl
links_from_json-to_json (link ∷ links) =
    rw (scene_link_from_json-to_json link, links_from_json-to_json links)

module _ (qt : Qt) (dbl : Doubles) (uuid : ℕ → String) where
  targets_from_json-saved :
      (n : ℕ) (ts : List OutputTarget)
      → All HasInts ts
      → targets_from_json qt dbl uuid n (map (saved_target qt dbl) ts)
        ≡ map (persisted_target qt) ts
  unfolding targets_from_json
  targets_from_json-saved n [] h = refl
  targets_from_json-saved n (t ∷ ts) h = rw (
    output_target_from_json-saved_target qt dbl uuid n t h.0,
    targets_from_json-saved (suc n) ts h.1,
  )

  scenes_from_json-saved :
      (n : ℕ) (scenes : List VerticalLayoutScene)
      → All (λ (scene : VerticalLayoutScene). HasIntSize scene.layout) scenes
      → scenes_from_json qt dbl uuid n (map (vertical_layout_scene_to_json dbl) scenes)
        ≡ map (persisted_scene qt dbl) scenes
  unfolding scenes_from_json persisted_scene
  scenes_from_json-saved n [] h = refl
  scenes_from_json-saved n (scene ∷ scenes) h =
      rw (vertical_layout_scene_from_json-to_json qt dbl uuid n scene h.0.0 h.0.1) (
        ap (λ t. persisted_scene qt dbl scene ∷ t)
          (scenes_from_json-saved
            (suc n
              + length (
                  layout_items
                    (to_object (value "layout" (vertical_layout_scene_to_json dbl scene)))))
            scenes h.1))

  pub settings_from_json-saved_root :
      (s : PluginSettings)
      → IsStorable s
      → settings_from_json qt dbl uuid (saved_root qt dbl s) ≡ persisted qt dbl s
  unfolding settings_from_json saved_root persisted value
  settings_from_json-saved_root s h = simp (
    objects-array_of,
    targets_from_json-saved _ s.targets h.targets,
    vertical_layout_from_json-to_json qt dbl uuid _ s.vertical_layout h.layout.0 h.layout.1,
    scenes_from_json-saved _ s.vertical_scenes h.scenes,
    links_from_json-to_json s.scene_links,
  )

-- Every call of a save succeeds.
pub record IsWorking (calls : FileCalls) : Type 0 where
  pub opens : calls.open_error ≡ none
  pub backs_up : calls.backup_open_error ≡ none
  pub writes_backup : calls.backup_write_error ≡ none
  pub opens_save : calls.save_open_error ≡ none
  pub writes : calls.save_write_error ≡ none
  pub commits : calls.commit_error ≡ none

module _ (qt : Qt) (dbl : Doubles) (uuid : ℕ → String) (json : JsonText) (path : String) where
  open json use {Bytes, parse, print}

  module _ (s : PluginSettings) (stored : IsStorable s)
      (reads : parse (print (saved_root qt dbl s)) ≡ document (object (saved_root qt dbl s))) where
    -- The settings file holds the document, and the save reports no error.
    IsWritten : SaveResult Bytes → Type 0
    IsWritten result =
        (result.error ≡ none) × (content_at path result.files ≡ some (print (saved_root qt dbl s)))

    module _ (calls : FileCalls) (w : IsWorking calls) (k k' : CredentialStore)
        (done : List AppliedWrite)
        (takes : apply_secret_writes qt (secret_writes s.targets) k ≡ applied k' done) where
      write_settings-IsWritten :
          (fs : List (File Bytes)) → IsWritten (write_settings qt dbl json path calls s fs k)
      unfolding write_settings commit IsWritten
      write_settings-IsWritten fs =
          rw (w.opens_save, w.writes, takes, w.commits) (refl, content_at-replace path _ fs)

      save_over-IsWritten :
          (previous : Option Bytes) (fs : List (File Bytes))
          → IsWritten (save_over qt dbl json path calls s previous fs k)
      unfolding save_over back_up write_settings commit
      save_over-IsWritten none fs = write_settings-IsWritten fs
      save_over-IsWritten (some previous) fs =
          rw (w.opens, w.backs_up, w.writes_backup) (write_settings-IsWritten _)

      save-IsWritten :
          (store : SettingsStore) (fs : List (File Bytes))
          → store.save_blocked ≡ false
          → IsWritten (save qt dbl json path calls store s fs k)
      unfolding save
      save-IsWritten store fs h = rw h (save_over-IsWritten (content_at path fs) fs)

    load-written :
        (calls : FileCalls) (fs : List (File Bytes))
        → calls.open_error ≡ none
        → content_at path fs ≡ some (print (saved_root qt dbl s))
        → load qt dbl uuid json path calls fs ≡ record {
          settings = persisted qt dbl s;
          store = plain_store qt dbl uuid json path;
          files = fs;
        }
    unfolding load load_found load_opened load_document load_checked
    load-written calls fs o h =
        rw
          (
            h,
            o,
            reads,
            read_root-saved_root dbl qt s stored,
            settings_from_json-saved_root qt dbl uuid s stored,
          )
          refl

    -- After a save that is not blocked, whose calls all succeed and whose secrets the credential
    -- store takes, the save reports no error, and a load that can open the file gives the settings
    -- and leaves saving allowed, except that: a target has no secrets but the references to them, is
    -- stopped without a last error, and its routes are trimmed, those without a name on either side
    -- left out; the layouts are normalized; and a link has lost the template id of older versions.
    -- The settings hold `int` values, and the JSON library reads back the document that it prints.
    pub load-save :
        (calls after : FileCalls) (store : SettingsStore) (fs : List (File Bytes))
        (k k' : CredentialStore) (done : List AppliedWrite)
        → store.save_blocked ≡ false
        → IsWorking calls
        → after.open_error ≡ none
        → apply_secret_writes qt (secret_writes s.targets) k ≡ applied k' done
        → ((save qt dbl json path calls store s fs k).error ≡ none)
          × (load qt dbl uuid json path after (save qt dbl json path calls store s fs k).files
              ≡ record {
                settings = persisted qt dbl s;
                store = record { last_load_warning = ""; save_blocked = false };
                files = (save qt dbl json path calls store s fs k).files;
              })
    unfolding IsWritten
    load-save calls after store fs k k' done open_store w opens takes =
        let written = save-IsWritten calls w k k' done takes store fs open_store in
        (written.0, load-written after _ opens written.1)
