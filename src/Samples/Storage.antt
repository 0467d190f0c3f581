-- ===== src/Samples/Storage.antt =====
-- Sample values for the settings: decimal numbers written with one digit,
-- documents that are their own text, a store of credentials, and settings with a secret.
use Prim.Native.String.{count}
use text.Mathlib.TextLemmas.{length-append}
use obs_dsk_multistream.Base.{
  ℕ, zero, suc, String, ◌<>◌, ◌≡◌, refl, ap, sym, ◌∙◌, false, none, [], ◌∷◌, arith, Qt,
}
use obs_dsk_multistream.Samples.{plain_qt}
use obs_dsk_multistream.Target.{default_target}
use obs_dsk_multistream.Settings.{PluginSettings}
use obs_dsk_multistream.Settings.Json.{object}
use obs_dsk_multistream.Settings.Secrets.{CredentialStore}
use obs_dsk_multistream.Settings.Store.{Document, document, JsonText, FileCalls, default_settings}

pub strokes : ℕ → String
strokes zero = ""
strokes (suc n) = "1" <> strokes n

count-strokes : (n : ℕ) → count (strokes n) ≡ n
unfolding strokes
count-strokes zero = refl
count-strokes (suc n) = omega (arith, length-append "1" (strokes n), count-strokes n)

abbrev pub stroke_qt : Qt
stroke_qt = record plain_qt { number = strokes }

pub strokes_distinct : (m n : ℕ) → stroke_qt.number m ≡ stroke_qt.number n → m ≡ n
strokes_distinct m n h = sym (count-strokes m) ∙ (ap count h ∙ count-strokes n)

abbrev pub own_text : JsonText
own_text = record {
  Bytes = Document;
  parse = λ d. d;
  print = λ o. document (object o);
  format = λ d. "2";
}

abbrev pub working : FileCalls
working = record {
  open_error = none;
  rename_fails = false;
  stamp = "now";
  backup_open_error = none;
  backup_write_error = none;
  save_open_error = none;
  save_write_error = none;
  commit_error = none;
}

abbrev pub no_credentials : CredentialStore
no_credentials = record {
  entries = λ ref. none;
  read_error = λ ref. none;
  write_error = λ ref secret. none;
  delete_error = λ ref. none;
}

abbrev pub one_secret : PluginSettings
one_secret = record default_settings {
  targets = record default_target { id = "a"; name = "A"; stream_key = "key" } ∷ [];
}
