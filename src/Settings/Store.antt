-- ===== src/Settings/Store.antt =====
-- core/settings-store.cpp: SettingsStore, which loads the settings file, sets an invalid one aside,
-- and saves over it after a backup.
pub mod Saving
pub mod Backups
pub mod Kept
use obs_dsk_multistream.Base.{
  ℕ, zero, suc, ◌+◌, String, ◌<>◌, Bool, true, false, not, Option, none, some, List, [], ◌∷◌, ◌++◌,
  map, if◌then◌else◌, is_empty, length, Qt,
}
use obs_dsk_multistream.Base.Doubles.{Doubles}
use obs_dsk_multistream.Target.{OutputTarget}
use obs_dsk_multistream.Layout.{VerticalLayout, VerticalLayoutScene, default_layout}
use obs_dsk_multistream.Layout.Geometry.{normalize_loaded_vertical_layout}
use obs_dsk_multistream.Settings.{PluginSettings}
use obs_dsk_multistream.Settings.Json.{
  Json, number, object, Fields, value, to_bool, to_array, to_object, objects,
}
use obs_dsk_multistream.Settings.Codec.{
  text, output_target_from_json, layout_items, vertical_layout_from_json,
  vertical_layout_scene_from_json, scene_link_from_json,
}
use obs_dsk_multistream.Settings.Saved.{secret_writes, saved_root}
use obs_dsk_multistream.Settings.Secrets.{
  CredentialStore, Application, applied, rejected, apply_secret_writes, rollback_secret_writes,
}
use obs_dsk_multistream.Settings.Check.{Reading, invalid, newer, accepted, read_root}
use obs_dsk_multistream.Settings.Disk.{File, content_at, exists, remove, replace}

-- QJsonDocument::fromJson: the document, or the error in the text.
pub data Document : Type 0 where
  malformed : String → Document
  document : Json → Document

-- QJsonDocument's texts.
pub record JsonText : Type 1 where
  pub Bytes : Type 0
  pub parse : Bytes → Document
  pub print : Fields → Bytes
  -- QString::arg(double, 0, 'g', 16)
  pub format : ℕ → String

-- What the operating system answers while a load or a save runs: the errors of opening, renaming,
-- writing and committing, each of them absent when the call succeeds.
pub record FileCalls : Type 0 where
  pub open_error : Option String
  pub rename_fails : Bool
  -- QDateTime::currentDateTimeUtc, as the name of a backup shows it
  pub stamp : String
  pub backup_open_error : Option String
  pub backup_write_error : Option String
  pub save_open_error : Option String
  pub save_write_error : Option String
  pub commit_error : Option String

abbrev pub default_settings : PluginSettings
default_settings = record {
  targets = [];
  vertical_layout = default_layout;
  vertical_scenes = [];
  active_vertical_scene_id = "";
  follow_obs_scene = false;
  scene_links = [];
}

pub record SettingsStore : Type 0 where
  pub last_load_warning : String
  pub save_blocked : Bool

module _ (qt : Qt) (dbl : Doubles) (uuid : ℕ → String) where
  unfoldable pub targets_from_json : ℕ → List Fields → List OutputTarget
  targets_from_json n [] = []
  targets_from_json n (o ∷ os) =
      output_target_from_json qt dbl uuid n o ∷ targets_from_json (suc n) os

  -- A scene takes one identifier, and each of its items one.
  unfoldable pub scenes_from_json : ℕ → List Fields → List VerticalLayoutScene
  scenes_from_json n [] = []
  scenes_from_json n (o ∷ os) =
      vertical_layout_scene_from_json qt dbl uuid n o
      ∷ scenes_from_json (suc n + length (layout_items (to_object (value "layout" o)))) os

  -- The end of load, on a document that passed the checks.
  unfoldable pub settings_from_json : Fields → PluginSettings
  settings_from_json root =
      let targets = objects (to_array (value "targets" root)) in
      let layout = to_object (value "verticalLayout" root) in
      record {
        targets = targets_from_json 0 targets;
        vertical_layout =
            normalize_loaded_vertical_layout dbl qt (elim (value "verticalLayout" root) [
              | some (object o) ↦ vertical_layout_from_json qt dbl uuid (length targets) o
              | _ ↦ default_layout
            ]);
        vertical_scenes =
            scenes_from_json (length targets + length (layout_items layout))
              (objects (to_array (value "verticalScenes" root)));
        active_vertical_scene_id = text "activeVerticalSceneId" root;
        follow_obs_scene = to_bool false (value "followObsScene" root);
        scene_links = map scene_link_from_json (objects (to_array (value "sceneLinks" root)));
      }

pub record LoadResult {ℓ} (B : Type ℓ) : Type ℓ where
  pub settings : PluginSettings
  pub store : SettingsStore
  pub files : List (File B)

module _ (decimal : ℕ → String) (path stamp : String) where
  numbered_backup : ℕ → String
  numbered_backup suffix = path <> (".corrupt-" <> (stamp <> ("-" <> (decimal suffix <> ".json"))))

  -- The suffixes from the given one on; the number of turns is bounded by that of the files.
  search_backup {ℓ} : {B : Type ℓ} → ℕ → ℕ → List (File B) → String
  search_backup zero suffix fs = numbered_backup suffix
  search_backup (suc turns) suffix fs =
      let next = search_backup turns (suc suffix) fs in
      if exists (numbered_backup suffix) fs then next else numbered_backup suffix

  pub backup_path {ℓ} : {B : Type ℓ} → List (File B) → String
  backup_path fs =
      let plain = path <> (".corrupt-" <> (stamp <> ".json")) in
      if exists plain fs then search_backup (suc (length fs)) 2 fs else plain

module _ (qt : Qt) (dbl : Doubles) (uuid : ℕ → String) (json : JsonText) (path : String) where
  open json use {Bytes, parse, print}

  abbrev plain_store : SettingsStore
  plain_store = record { last_load_warning = ""; save_blocked = false }

  abbrev blocked_store : String → SettingsStore
  blocked_store warning = record { last_load_warning = warning; save_blocked = true }

  -- quarantineInvalidSettings
  quarantined : FileCalls → String → Bytes → List (File Bytes) → LoadResult Bytes
  quarantined calls detail content fs =
      let aside = backup_path qt.number path calls.stamp fs in
      if calls.rename_fails
      then record {
        settings = default_settings;
        store = blocked_store (
            "DSK settings are invalid ("
            <> (detail <> (") and could not be preserved. Saving is disabled: " <> path)));
        files = fs;
      }
      else record {
        settings = default_settings;
        store = record {
          last_load_warning =
              "Invalid DSK settings ("
              <> (detail
                  <> (") were preserved at " <> (aside <> ". DSK started with empty settings.")));
          save_blocked = false;
        };
        files = replace aside content (remove path fs);
      }

  -- QString::arg of a double
  schema_text : Option Json → String
  schema_text (some (number schema)) = json.format schema
  schema_text _ = ""

  load_checked : FileCalls → Reading → Fields → Bytes → List (File Bytes) → LoadResult Bytes
  load_checked calls (invalid detail) root content fs = quarantined calls detail content fs
  load_checked calls newer root content fs = record {
    settings = default_settings;
    store = blocked_store (
        "DSK settings use newer schema version "
        <> (schema_text (value "schemaVersion" root)
            <> ". Saving is disabled to avoid data loss."));
    files = fs;
  }
  load_checked calls accepted root content fs = record {
    settings = settings_from_json qt dbl uuid root;
    store = plain_store;
    files = fs;
  }

  load_document : FileCalls → Document → Bytes → List (File Bytes) → LoadResult Bytes
  load_document calls (malformed detail) content fs = quarantined calls detail content fs
  load_document calls (document (object root)) content fs =
      load_checked calls (read_root dbl root) root content fs
  load_document calls (document _) content fs = quarantined calls "root is not an object" content fs

  load_opened : FileCalls → Option String → Bytes → List (File Bytes) → LoadResult Bytes
  load_opened calls none content fs = load_document calls (parse content) content fs
  load_opened calls (some error) content fs = record {
    settings = default_settings;
    store = blocked_store (
        "Could not read DSK settings at "
        <> (path <> (": " <> (error <> ". Saving is disabled to protect the existing file."))));
    files = fs;
  }

  load_found : FileCalls → Option Bytes → List (File Bytes) → LoadResult Bytes
  load_found calls none fs = record { settings = default_settings; store = plain_store; files = fs }
  load_found calls (some content) fs = load_opened calls calls.open_error content fs

  pub load : FileCalls → List (File Bytes) → LoadResult Bytes
  load calls fs = load_found calls (content_at path fs) fs
