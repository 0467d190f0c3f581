-- ===== src/Examples/Settings.antt =====
-- The theorems about settings and layouts at concrete values.
use obs_dsk_multistream.Base.{List, String, ◌≡◌, refl, false, none, some, [], ◌∷◌, arith}
use obs_dsk_multistream.Samples.{plain_qt}
use obs_dsk_multistream.Samples.Numbers.{whole_doubles}
use obs_dsk_multistream.Samples.Storage.{
  stroke_qt, strokes_distinct, own_text, working, no_credentials, one_secret,
}
use obs_dsk_multistream.Layout.{default_layout}
use obs_dsk_multistream.Layout.Geometry.{normalize_vertical_layout_geometry}
use obs_dsk_multistream.Layout.Geometry.Laws.{
  IsBounded, normalize_vertical_layout_geometry-IsBounded, normalize_vertical_layout_geometry_idem,
}
use obs_dsk_multistream.Settings.Saved.{SecretWrite, secret_writes}
use obs_dsk_multistream.Settings.Saved.RoundTrip.{IsStorable}
use obs_dsk_multistream.Settings.Secrets.{
  CredentialStore, AppliedWrite, applied, apply_secret_writes, read_secret_result, write_secret,
}
use obs_dsk_multistream.Manager.Save.{ensure_credential_refs, stream_key_credential_ref}
use obs_dsk_multistream.Settings.Secrets.Laws.{
  IsRestorable, IsReversible, IsUpdate, updated, apply_secret_writes-IsReversible,
  apply_secret_writes-IsUpdate,
}
use obs_dsk_multistream.Settings.Disk.{File, content_at, exists}
use obs_dsk_multistream.Settings.Store.{Document, malformed, SettingsStore, backup_path, load}
use obs_dsk_multistream.Settings.Store.Backups.{exists-backup_path}
use obs_dsk_multistream.Settings.Store.Kept
use obs_dsk_multistream.Settings.Store.Kept.{load-keeps, load-outcome}
use obs_dsk_multistream.Settings.Store.Saving.{save}
use obs_dsk_multistream.Settings.Store.Saving.Outcome
use obs_dsk_multistream.Settings.Store.Saving.Outcome.{save-outcome}
use obs_dsk_multistream.Settings.Store.Saving.Reload.{persisted, IsWorking, load-save}

abbrev open_store : SettingsStore
open_store = record { last_load_warning = ""; save_blocked = false }

-- A settings file that is no JSON, and a file where it would first be moved.
abbrev broken_files : List (File Document)
broken_files =
    record { path = "dsk"; content = malformed "unterminated string" }
    ∷ record { path = "dsk.corrupt-now.json"; content = malformed "older" }
    ∷ []

no_credentials-IsRestorable : IsRestorable no_credentials
no_credentials-IsRestorable = record { rewritable = λ ref s h. refl; deletable = λ ref. refl }

abbrev two_writes : List SecretWrite
two_writes =
    record { credential_ref = "r"; secret = "one" }
    ∷ record { credential_ref = "r"; secret = "two" }
    ∷ []

broken_found : content_at "dsk" broken_files ≡ some (malformed "unterminated string")
unfolding content_at
broken_found = refl

one_secret-IsStorable : IsStorable one_secret
one_secret-IsStorable = record {
  targets = (
    record {
      retries = (omega arith, omega arith);
      delay = (omega arith, omega arith);
      video = (omega arith, omega arith);
      audio = (omega arith, omega arith);
      keyframe = (omega arith, omega arith);
    },
    tt,
  );
  layout = ((omega arith, omega arith), (omega arith, omega arith));
  scenes = tt;
}

working-IsWorking : IsWorking working
working-IsWorking = record {
  opens = refl;
  backs_up = refl;
  writes_backup = refl;
  opens_save = refl;
  writes = refl;
  commits = refl;
}

normalize_vertical_layout_geometry-IsBounded_example :
    IsBounded whole_doubles (normalize_vertical_layout_geometry whole_doubles default_layout)
normalize_vertical_layout_geometry-IsBounded_example =
    normalize_vertical_layout_geometry-IsBounded whole_doubles default_layout

normalize_vertical_layout_geometry_idem_example :
    normalize_vertical_layout_geometry whole_doubles
      (normalize_vertical_layout_geometry whole_doubles default_layout)
    ≡ normalize_vertical_layout_geometry whole_doubles default_layout
normalize_vertical_layout_geometry_idem_example =
    normalize_vertical_layout_geometry_idem whole_doubles default_layout

apply_secret_writes-IsReversible_example :
    IsReversible plain_qt no_credentials (apply_secret_writes plain_qt two_writes no_credentials)
apply_secret_writes-IsReversible_example =
    apply_secret_writes-IsReversible plain_qt two_writes no_credentials no_credentials-IsRestorable

apply_secret_writes-IsUpdate_example :
    IsUpdate
      (updated two_writes no_credentials)
      (apply_secret_writes plain_qt two_writes no_credentials)
apply_secret_writes-IsUpdate_example =
    apply_secret_writes-IsUpdate plain_qt two_writes no_credentials

exists-backup_path_example :
    exists (backup_path stroke_qt.number "dsk" "now" broken_files) broken_files ≡ false
exists-backup_path_example =
    exists-backup_path stroke_qt.number strokes_distinct "dsk" "now" broken_files

load-keeps_example :
    (q' : String) × (content_at q'
        (load stroke_qt whole_doubles stroke_qt.number own_text "dsk" working broken_files).files
      ≡ some (malformed "unterminated string"))
load-keeps_example =
    load-keeps stroke_qt whole_doubles stroke_qt.number own_text "dsk" strokes_distinct broken_files
      (malformed "unterminated string") broken_found working "dsk" (malformed "unterminated string")
      broken_found

load-outcome_example :
    Kept.Outcome stroke_qt whole_doubles stroke_qt.number own_text "dsk" strokes_distinct
      broken_files
      (malformed "unterminated string")
      broken_found
      (load stroke_qt whole_doubles stroke_qt.number own_text "dsk" working broken_files)
load-outcome_example =
    load-outcome stroke_qt whole_doubles stroke_qt.number own_text "dsk" strokes_distinct
      broken_files (malformed "unterminated string") broken_found working

save-outcome_example :
    Outcome.Outcome plain_qt whole_doubles own_text "dsk" one_secret broken_files no_credentials (
      save plain_qt whole_doubles own_text "dsk" working open_store one_secret broken_files
        no_credentials)
save-outcome_example =
    save-outcome plain_qt whole_doubles own_text "dsk" one_secret broken_files no_credentials
      working open_store no_credentials-IsRestorable

one_secret_taken :
    (k' : CredentialStore) × (done : List AppliedWrite) × (apply_secret_writes plain_qt
        (secret_writes one_secret.targets)
        no_credentials
      ≡ applied k' done)
unfolding apply_secret_writes secret_writes ensure_credential_refs read_secret_result
    stream_key_credential_ref write_secret
one_secret_taken = (_, _, refl)

load-save_example :
    ((save plain_qt whole_doubles own_text "dsk" working open_store one_secret broken_files
        no_credentials).error
      ≡ none)
    × (load plain_qt whole_doubles stroke_qt.number own_text "dsk" working
          (save plain_qt whole_doubles own_text "dsk" working open_store one_secret broken_files
            no_credentials).files
        ≡ record {
          settings = persisted plain_qt whole_doubles one_secret;
          store = record { last_load_warning = ""; save_blocked = false };
          files =
              (save plain_qt whole_doubles own_text "dsk" working open_store one_secret broken_files
                no_credentials).files;
        })
load-save_example =
    load-save plain_qt whole_doubles stroke_qt.number own_text "dsk" one_secret
      one_secret-IsStorable refl working working open_store broken_files no_credentials
      one_secret_taken.0 one_secret_taken.1 refl working-IsWorking refl one_secret_taken.2
