-- ===== src/Settings/Store/Saving/Outcome.antt =====
-- core/settings-store.cpp: what a save leaves when it fails and when it succeeds.
use obs_dsk_multistream.Base.{
  String, ◌<>◌, ◌≡◌, refl, ap, sym, ◌∙◌, ◌≢◌, ◌⊎◌, Option, none, some, List, arith, inl, inr, Qt,
  if_cases, unless_cases,
}
use Prim.Native.String.{count}
use text.Mathlib.TextLemmas.{length-append}
use obs_dsk_multistream.Base.Doubles.{Doubles}
use obs_dsk_multistream.Settings.{PluginSettings}
use obs_dsk_multistream.Settings.Secrets.{CredentialStore, Application, applied, rejected}
use obs_dsk_multistream.Settings.Secrets.Laws.{
  IsRestorable, IsReversible, IsUpdate, updated, apply_secret_writes-IsReversible,
  apply_secret_writes-IsUpdate,
}
use obs_dsk_multistream.Settings.Saved.{saved_root, secret_writes}
use obs_dsk_multistream.Settings.Disk.{File, content_at, replace}
use obs_dsk_multistream.Settings.Disk.Laws.{content_at-replace, content_at-replace_other}
use obs_dsk_multistream.Settings.Store.{JsonText, FileCalls, SettingsStore}
use obs_dsk_multistream.Settings.Store.Saving.{
  SaveResult, commit, write_settings, no_backup, back_up, save_over, save,
}

-- The backup of the settings is another file.
pub backup_differs : (path : String) → (path <> ".bak") ≢ path
backup_differs path h = absurd (omega (arith, ap count h, length-append path ".bak"))

module _ (qt : Qt) (dbl : Doubles) (json : JsonText) (path : String) where
  open json use {Bytes, print}

  module _ (s : PluginSettings) (fs : List (File Bytes)) (k : CredentialStore) where
    -- A save failed, and the settings file and the credentials are as before; or it succeeded, the
    -- file is the new document, every secret is in the credential store, and a file that was there
    -- is in the backup.
    abbrev pub Outcome : SaveResult Bytes → Type 0
    Outcome result =
        ((error : String) × (result.error ≡ some error)
          × (result.secrets ≡ k)
          × (content_at path result.files ≡ content_at path fs))
        ⊎ ((result.error ≡ none)
            × (result.secrets ≡ updated (secret_writes s.targets) k)
            × (content_at path result.files ≡ some (print (saved_root qt dbl s)))
            × ((content_at path fs ≡ none)
                ⊎ (content_at (path <> ".bak") result.files ≡ content_at path fs)))

    module _ (now : List (File Bytes)) (kept : content_at path now ≡ content_at path fs)
        (backed : (content_at path fs ≡ none)
          ⊎ (content_at (path <> ".bak") now ≡ content_at path fs)) where
      backed_after :
          (b : Bytes)
          → (content_at path fs ≡ none)
            ⊎ (content_at (path <> ".bak") (replace path b now) ≡ content_at path fs)
      backed_after b = elim backed [
        | inl e ↦ inl e
        | inr e ↦ inr (
            content_at-replace_other path (path <> ".bak") b now (λ h. backup_differs path (sym h))
            ∙ e)
      ]

      commit-Outcome :
          (calls : FileCalls) (a : Application)
          → IsReversible qt k a
          → IsUpdate (updated (secret_writes s.targets) k) a
          → Outcome (commit qt dbl json path calls (saved_root qt dbl s) now a)
      unfolding commit
      commit-Outcome calls (rejected k' error) back up = inl (_, refl, back, kept)
      commit-Outcome calls (applied k' done) back up =
          unless_cases Outcome calls.commit_error (λ error. inl (error, refl, back, kept))
            (inr (refl, up, content_at-replace path _ now, backed_after _))

      write_settings-Outcome :
          (calls : FileCalls)
          → IsRestorable k
          → Outcome (write_settings qt dbl json path calls s now k)
      unfolding write_settings
      write_settings-Outcome calls v =
          unless_cases Outcome calls.save_open_error (λ error. inl (error, refl, refl, kept))
            (unless_cases Outcome calls.save_write_error (λ error. inl (error, refl, refl, kept))
              (commit-Outcome calls _
                (apply_secret_writes-IsReversible qt (secret_writes s.targets) k v)
                (apply_secret_writes-IsUpdate qt (secret_writes s.targets) k)))

    back_up-Outcome :
        (calls : FileCalls) (previous : Bytes)
        → content_at path fs ≡ some previous
        → IsRestorable k
        → Outcome (back_up qt dbl json path calls s previous fs k)
    unfolding back_up no_backup
    back_up-Outcome calls previous h v =
        unless_cases Outcome calls.open_error (λ error. inl (_, refl, refl, refl))
          (unless_cases Outcome calls.backup_open_error (λ error. inl (_, refl, refl, refl))
            (unless_cases Outcome calls.backup_write_error (λ error. inl (_, refl, refl, refl))
              (write_settings-Outcome (replace (path <> ".bak") previous fs)
                (content_at-replace_other (path <> ".bak") path previous fs (backup_differs path))
                (inr (content_at-replace (path <> ".bak") previous fs ∙ sym h)) calls v)))

    save_over-Outcome :
        (calls : FileCalls) (previous : Option Bytes)
        → content_at path fs ≡ previous
        → IsRestorable k
        → Outcome (save_over qt dbl json path calls s previous fs k)
    unfolding save_over
    save_over-Outcome calls none h v = write_settings-Outcome fs refl (inl h) calls v
    save_over-Outcome calls (some previous) h v = back_up-Outcome calls previous h v

    -- A save, over credentials that can be restored: it failed, with the settings file and the
    -- credentials as before, or it succeeded, the settings file is the new document, the credential
    -- store is updated by the secrets of the targets, and the document before it is in the backup.
    pub save-outcome :
        (calls : FileCalls) (store : SettingsStore)
        → IsRestorable k
        → Outcome (save qt dbl json path calls store s fs k)
    unfolding save
    save-outcome calls store v =
        if_cases Outcome store.save_blocked (inl (_, refl, refl, refl))
          (save_over-Outcome calls (content_at path fs) refl v)
