-- ===== src/Settings/Store/Kept.antt =====
-- core/settings-store.cpp: what SettingsStore::load does to the files, and when saving stays allowed.
use obs_dsk_multistream.Base.{
  ℕ, String, ◌≡◌, refl, ◌∙◌, ◌⊎◌, true, Option, none, some, List, inl, inr, Qt, if_under,
}
use obs_dsk_multistream.Base.Doubles.{Doubles}
use obs_dsk_multistream.Settings.Json.{null, bool, number, string, array, object, Fields}
use obs_dsk_multistream.Settings.Check.{Reading, invalid, newer, accepted, read_root}
use obs_dsk_multistream.Settings.Disk.{File, content_at, remove}
use obs_dsk_multistream.Settings.Store.{
  Document, malformed, document, JsonText, FileCalls, LoadResult, settings_from_json,
  default_settings, quarantined, load_checked, load_document, load_opened, load_found, load,
}
use obs_dsk_multistream.Settings.Disk.Laws.{
  IsKept, move-IsKept, not_free, content_at-replace_other, content_at-remove_same,
}
use obs_dsk_multistream.Settings.Store.Backups.{exists-backup_path}

module _ (qt : Qt) (dbl : Doubles) (uuid : ℕ → String) (json : JsonText) (path : String)
    (distinct : (m n : ℕ) → qt.number m ≡ qt.number n → m ≡ n) where
  open json use {Bytes, parse}

  module _ (fs : List (File Bytes)) (content : Bytes) (h : content_at path fs ≡ some content) where
    -- What was read: saving is off and no file changed, or the file was moved away and nothing is
    -- taken from it, or the settings are those of the file, which stays.
    abbrev pub Outcome : LoadResult Bytes → Type 0
    Outcome result =
        ((result.store.save_blocked ≡ true) × (result.files ≡ fs))
        ⊎ (((content_at path result.files ≡ none) × (result.settings ≡ default_settings))
            ⊎ ((root : Fields) × (parse content ≡ document (object root))
                × (read_root dbl root ≡ accepted)
                × (result.settings ≡ settings_from_json qt dbl uuid root)
                × (result.files ≡ fs)))

    record IsSafe (result : LoadResult Bytes) : Type 0 where
      keeps : IsKept fs result.files
      outcome : Outcome result

    quarantined-IsSafe :
        (calls : FileCalls) (detail : String)
        → IsSafe (quarantined qt dbl uuid json path calls detail content fs)
    unfolding quarantined
    quarantined-IsSafe calls detail =
        if_under IsSafe calls.rename_fails
          (λ e. record { keeps = λ q b k. (q, k); outcome = inl (refl, refl) })
          λ e. record {
            keeps =
                move-IsKept path _ content fs h
                  (exists-backup_path qt.number distinct path calls.stamp fs);
            outcome = inr (
                inl (
                  content_at-replace_other _ path content (remove path fs) (
                        not_free _ path content fs
                          (exists-backup_path qt.number distinct path calls.stamp fs) h)
                      ∙ content_at-remove_same path fs,
                  refl,
                ));
          }

    load_checked-IsSafe :
        (calls : FileCalls) (root : Fields) (r : Reading)
        → parse content ≡ document (object root)
        → read_root dbl root ≡ r
        → IsSafe (load_checked qt dbl uuid json path calls r root content fs)
    unfolding load_checked
    load_checked-IsSafe calls root (invalid detail) p e = quarantined-IsSafe calls detail
    load_checked-IsSafe calls root newer p e = record {
      keeps = λ q b k. (q, k);
      outcome = inl (refl, refl);
    }
    load_checked-IsSafe calls root accepted p e = record {
      keeps = λ q b k. (q, k);
      outcome = inr (inr (root, p, e, refl, refl));
    }

    load_document-IsSafe :
        (calls : FileCalls) (d : Document)
        → parse content ≡ d
        → IsSafe (load_document qt dbl uuid json path calls d content fs)
    unfolding load_document
    load_document-IsSafe calls (malformed detail) p = quarantined-IsSafe calls detail
    load_document-IsSafe calls (document (object root)) p =
        load_checked-IsSafe calls root (read_root dbl root) p refl
    load_document-IsSafe calls (document null) p = quarantined-IsSafe calls _
    load_document-IsSafe calls (document (bool b)) p = quarantined-IsSafe calls _
    load_document-IsSafe calls (document (number d)) p = quarantined-IsSafe calls _
    load_document-IsSafe calls (document (string s)) p = quarantined-IsSafe calls _
    load_document-IsSafe calls (document (array vs)) p = quarantined-IsSafe calls _

    load_opened-IsSafe :
        (calls : FileCalls) (error : Option String)
        → IsSafe (load_opened qt dbl uuid json path calls error content fs)
    unfolding load_opened
    load_opened-IsSafe calls none = load_document-IsSafe calls (parse content) refl
    load_opened-IsSafe calls (some error) = record {
      keeps = λ q b k. (q, k);
      outcome = inl (refl, refl);
    }

    load-IsSafe : (calls : FileCalls) → IsSafe (load qt dbl uuid json path calls fs)
    unfolding load load_found
    load-IsSafe calls = rw h (load_opened-IsSafe calls calls.open_error)

    -- Every content that was in a file before a load that finds a settings file is in some file
    -- after it, if the decimal numbers of the file names are distinct.
    pub load-keeps :
        (calls : FileCalls) (q : String) (b : Bytes)
        → content_at q fs ≡ some b
        → (q' : String) × (content_at q' (load qt dbl uuid json path calls fs).files ≡ some b)
    load-keeps calls = (load-IsSafe calls).keeps

    -- After a load that finds a settings file, if the decimal numbers of the file names are distinct:
    -- saving is off and no file changed, or there is no settings file any more and the settings are
    -- the default ones, or the file is a document that passes the checks, which gives the settings,
    -- and no file changed.
    pub load-outcome : (calls : FileCalls) → Outcome (load qt dbl uuid json path calls fs)
    load-outcome calls = (load-IsSafe calls).outcome
