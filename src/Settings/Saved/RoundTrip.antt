-- ===== src/Settings/Saved/RoundTrip.antt =====
-- core/settings-store.cpp, core/settings-codec.cpp: reading back a saved target.
use obs_dsk_multistream.Layout.{VerticalLayout, VerticalLayoutScene}
use obs_dsk_multistream.Settings.{PluginSettings}
use obs_dsk_multistream.Base.{
  All, ℕ, String, ◌≡◌, refl, none, some, if◌then◌else◌, is_empty, Qt, Bool-cases, inl, inr, eq_iff,
  arith,
}
use obs_dsk_multistream.Base.Doubles.{Doubles, IsInt}
use obs_dsk_multistream.Target.{OutputTarget}
use obs_dsk_multistream.Target.Names.{
  encoder_group_from_string-to_string, target_auth_mode_from_string-to_string,
  target_scene_mode_from_string-to_string,
}
use obs_dsk_multistream.Manager.Save.{ensure_credential_refs}
use obs_dsk_multistream.Settings.Json.{value, string, value-insert_nonempty, to_string}
use obs_dsk_multistream.Settings.Codec.{output_target_from_json}
use obs_dsk_multistream.Settings.Codec.Laws.{routes_from_json-to_json}
use obs_dsk_multistream.Settings.Saved.{saved_target, persisted_target, without_secrets}

-- The `int` fields of a target hold what an `int` holds.
pub record HasInts (t : OutputTarget) : Type 0 where
  pub retries : IsInt t.reconnect_max_retries
  pub delay : IsInt t.reconnect_delay_seconds
  pub video : IsInt t.video_bitrate_kbps
  pub audio : IsInt t.audio_bitrate_kbps
  pub keyframe : IsInt t.keyframe_seconds

-- The size of a layout is two values of an `int`.
abbrev pub HasIntSize : VerticalLayout → Type 0
HasIntSize layout = IsInt layout.width × IsInt layout.height

-- Settings whose `int` fields hold what an `int` holds.
pub record IsStorable (s : PluginSettings) : Type 0 where
  pub targets : All HasInts s.targets
  pub layout : HasIntSize s.vertical_layout
  pub scenes : All (λ (scene : VerticalLayoutScene). HasIntSize scene.layout) s.vertical_scenes

to_string-if : (s : String) → to_string "" (if is_empty s then none else some (string s)) ≡ s
to_string-if s = elim (Bool-cases (is_empty s)) [
  | inl e ↦ ground (arith, eq_iff s "")
  | inr e ↦ rw e refl
]

module _ (qt : Qt) (dbl : Doubles) (uuid : ℕ → String) where
  open dbl use {to_int-from_int}

  pub output_target_from_json-saved_target :
      (n : ℕ) (t : OutputTarget)
      → HasInts t
      → output_target_from_json qt dbl uuid n (saved_target qt dbl t) ≡ persisted_target qt t
  unfolding output_target_from_json saved_target persisted_target value without_secrets
      ensure_credential_refs
  output_target_from_json-saved_target n t h = simp (
    value-insert_nonempty,
    to_string-if,
    to_int-from_int t.reconnect_max_retries h.retries,
    to_int-from_int t.reconnect_delay_seconds h.delay,
    to_int-from_int t.video_bitrate_kbps h.video,
    to_int-from_int t.audio_bitrate_kbps h.audio,
    to_int-from_int t.keyframe_seconds h.keyframe,
    encoder_group_from_string-to_string,
    target_auth_mode_from_string-to_string,
    target_scene_mode_from_string-to_string,
    routes_from_json-to_json,
  )
