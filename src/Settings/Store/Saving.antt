-- ===== src/Settings/Store/Saving.antt =====
-- core/settings-store.cpp: SettingsStore::save. The settings file is replaced last, after its backup
-- and after the secrets, and the secrets are taken back when it cannot be replaced.
pub mod Outcome
pub mod Reload
use obs_dsk_multistream.Base.{
  String, ◌<>◌, Bool, true, false, Option, none, some, List, if◌then◌else◌, is_empty, Qt, unless,
}
use obs_dsk_multistream.Base.Doubles.{Doubles}
use obs_dsk_multistream.Settings.{PluginSettings}
use obs_dsk_multistream.Settings.Json.{Fields}
use obs_dsk_multistream.Settings.Saved.{secret_writes, saved_root}
use obs_dsk_multistream.Settings.Secrets.{
  CredentialStore, Application, applied, rejected, apply_secret_writes, rollback_secret_writes,
}
use obs_dsk_multistream.Settings.Disk.{File, content_at, exists, replace}
use obs_dsk_multistream.Settings.Store.{JsonText, FileCalls, SettingsStore}

-- What a save leaves, and its error if it failed.
pub record SaveResult {ℓ} (B : Type ℓ) : Type ℓ where
  pub files : List (File B)
  pub secrets : CredentialStore
  pub error : Option String

module _ (qt : Qt) (dbl : Doubles) (json : JsonText) (path : String) where
  open json use {Bytes, print}

  abbrev stopped_with : String → List (File Bytes) → CredentialStore → SaveResult Bytes
  stopped_with error fs k = record { files = fs; secrets = k; error = some error }

  commit : FileCalls → Fields → List (File Bytes) → Application → SaveResult Bytes
  commit calls root fs (rejected k error) =
      stopped_with ("Failed to save secret to OS credential storage: " <> error) fs k
  commit calls root fs (applied k done) =
      unless calls.commit_error (λ error. stopped_with error fs (rollback_secret_writes qt done k))
        (record { files = replace path (print root) fs; secrets = k; error = none })

  write_settings :
      FileCalls → PluginSettings → List (File Bytes) → CredentialStore → SaveResult Bytes
  write_settings calls s fs k =
      unless calls.save_open_error (λ error. stopped_with error fs k)
        (unless calls.save_write_error (λ error. stopped_with error fs k)
          (commit calls (saved_root qt dbl s) fs
            (apply_secret_writes qt (secret_writes s.targets) k)))

  no_backup : String → List (File Bytes) → CredentialStore → SaveResult Bytes
  no_backup detail fs k =
      stopped_with
        ("Could not create a safety backup for DSK settings at "
          <> ((path <> ".bak") <> (": " <> detail)))
        fs k

  back_up :
      FileCalls → PluginSettings → Bytes → List (File Bytes) → CredentialStore → SaveResult Bytes
  back_up calls s previous fs k =
      unless calls.open_error (λ error. no_backup error fs k)
        (unless calls.backup_open_error (λ error. no_backup error fs k)
          (unless calls.backup_write_error
            (λ error.
              stopped_with
                ("Could not preserve the previous DSK settings at "
                  <> ((path <> ".bak") <> (": " <> error)))
                fs k)
            (write_settings calls s (replace (path <> ".bak") previous fs) k)))

  -- The error that a blocked store answers with.
  abbrev blocked_text : SettingsStore → String
  blocked_text store =
      if is_empty store.last_load_warning
      then "Saving is disabled to protect the existing settings file."
      else store.last_load_warning

  save_over :
      FileCalls
      → PluginSettings
      → Option Bytes
      → List (File Bytes)
      → CredentialStore
      → SaveResult Bytes
  save_over calls s none fs k = write_settings calls s fs k
  save_over calls s (some previous) fs k = back_up calls s previous fs k

  pub save :
      FileCalls
      → SettingsStore
      → PluginSettings
      → List (File Bytes)
      → CredentialStore
      → SaveResult Bytes
  save calls store s fs k =
      if store.save_blocked
      then stopped_with (blocked_text store) fs k
      else save_over calls s (content_at path fs) fs k
