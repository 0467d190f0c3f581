-- ===== src/Manager/Encoders.antt =====
-- core/output-manager.cpp: encoder profiles, and the encoder sets that outputs with equal settings
-- share by reference counting (sharedEncoderKey, acquireSharedEncoders, releaseSharedEncoders).
pub mod Counting
pub mod Accounting
use obs_dsk_multistream.Base.{
  ℕ, ◌+◌, ◌-◌, String, ◌<>◌, Bool, not, ◌==◌, ◌&&◌, Option, none, some, List, [], ◌∷◌, ℤ, pos,
  pos_part, ltb, ltb_ℤ, if◌then◌else◌, is_empty, get_or_else,
}
use obs_dsk_multistream.Target.{
  OutputTarget, EncoderGroup, dsk_horizontal, dsk_vertical, is_horizontal, is_vertical,
  is_follow_obs,
}
use obs_dsk_multistream.Target.Names.{encoder_group_to_string}
use obs_dsk_multistream.Manager.State.{
  Session, SharedEncoderSet, EncoderProfile, Env, Manager, Effect, emit, obs_encoder_release,
}

-- EncoderProfileManager's two profiles.
unfoldable pub profile_for : EncoderGroup → EncoderProfile
profile_for dsk_vertical = record {
  group = dsk_vertical;
  width = 1080;
  height = 1920;
  fps_numerator = 60;
  fps_denominator = 1;
  video_bitrate_kbps = 6000;
  audio_bitrate_kbps = 160;
  keyframe_seconds = 2;
  video_encoder_id = "";
  audio_encoder_id = "";
}
profile_for dsk_horizontal = record {
  group = dsk_horizontal;
  width = 1920;
  height = 1080;
  fps_numerator = 60;
  fps_denominator = 1;
  video_bitrate_kbps = 6000;
  audio_bitrate_kbps = 160;
  keyframe_seconds = 2;
  video_encoder_id = "";
  audio_encoder_id = "";
}

-- A positive setting of the target, and the profile's value otherwise.
abbrev override : ℤ → ℕ → ℕ
override value base = if ltb_ℤ (pos 0) value then pos_part value else base

unfoldable pub target_uses_scene_canvas : OutputTarget → Bool
target_uses_scene_canvas target =
    is_horizontal target.encoder_group && not (is_follow_obs target.scene_mode)

unfoldable pub scene_canvas_key_for_target : OutputTarget → String
unfolding target_uses_scene_canvas
scene_canvas_key_for_target target =
    if target_uses_scene_canvas target
    then "scene-target:" <> target.id
    else if is_vertical target.encoder_group
    then "dsk-vertical"
    else "obs-program"

-- `sharedEncoders_.value(key, nullptr)`
unfoldable pub lookup_set : String → List SharedEncoderSet → Option SharedEncoderSet
lookup_set key [] = none
lookup_set key (s ∷ ss) = if s.key == key then some s else lookup_set key ss

unfoldable pub modify_set :
    String → (SharedEncoderSet → SharedEncoderSet) → List SharedEncoderSet → List SharedEncoderSet
modify_set key f [] = []
modify_set key f (s ∷ ss) = if s.key == key then f s ∷ ss else s ∷ modify_set key f ss

unfoldable pub remove_set : String → List SharedEncoderSet → List SharedEncoderSet
remove_set key [] = []
remove_set key (s ∷ ss) = if s.key == key then ss else s ∷ remove_set key ss

abbrev pub with_sets : List SharedEncoderSet → Manager → Manager
with_sets ss m = record m { core = record (m.core) { shared_encoders = ss } }

pub data Acquired : Type 0 where
  acquired : SharedEncoderSet → Acquired
  refused : String → Acquired

abbrev text_or : String → String → String
text_or text fallback = if is_empty text then fallback else text

abbrev one_more : SharedEncoderSet → SharedEncoderSet
one_more s = record s { refs = s.refs + 1 }

abbrev one_less : SharedEncoderSet → SharedEncoderSet
one_less s = record s { refs = s.refs - 1 }

module _ (env : Env) where
  open env use {trimmed, number, create_video_encoder, create_audio_encoder}

  unfoldable pub effective_profile_for_target : OutputTarget → EncoderProfile
  unfolding profile_for
  effective_profile_for_target target =
      let base = profile_for target.encoder_group in
      record base {
        video_bitrate_kbps = override target.video_bitrate_kbps base.video_bitrate_kbps;
        audio_bitrate_kbps = override target.audio_bitrate_kbps base.audio_bitrate_kbps;
        keyframe_seconds = override target.keyframe_seconds base.keyframe_seconds;
        video_encoder_id = text_or (trimmed target.video_encoder_id) env.default_video_encoder_id;
        audio_encoder_id = text_or (trimmed target.audio_encoder_id) base.audio_encoder_id;
      }

  unfoldable pub shared_encoder_key : OutputTarget → EncoderProfile → String
  shared_encoder_key target profile =
      encoder_group_to_string profile.group
      <> ("|"
          <> (scene_canvas_key_for_target target
              <> ("|"
                  <> (number profile.width
                      <> ("x"
                          <> (number profile.height
                              <> ("|v"
                                  <> (number profile.video_bitrate_kbps
                                      <> ("|a"
                                          <> (number profile.audio_bitrate_kbps
                                              <> ("|kf"
                                                  <> (number profile.keyframe_seconds
                                                      <> ("|"
                                                          <> (text_or profile.video_encoder_id
                                                            "obs_x264"
                                                            <> ("|"
                                                            <> text_or profile.audio_encoder_id
                                                            "ffmpeg_aac")))))))))))))))

  create_set : OutputTarget → EncoderProfile → String → Manager → Manager × Acquired
  create_set target profile key m = elim (create_video_encoder target profile) [
    | none ↦ (m, refused "Failed to create shared video encoder.")
    | some v ↦ elim (create_audio_encoder target profile) [
      | none ↦ (emit (obs_encoder_release v) m, refused "Failed to create shared audio encoder.")
      | some a ↦
          let set : SharedEncoderSet = record {
            key = key;
            video_encoder = v;
            audio_encoder = a;
            refs = 1;
          } in
          (with_sets (set ∷ m.shared_encoders) m, acquired set)
    ]
  ]

  unfoldable pub acquire_shared_encoders :
      OutputTarget → EncoderProfile → Manager → Manager × Acquired
  unfolding create_set
  acquire_shared_encoders target profile m =
      let key = shared_encoder_key target profile in
      elim (lookup_set key m.shared_encoders) [
        | none ↦ create_set target profile key m
        | some set ↦
            (with_sets (modify_set key one_more m.shared_encoders) m, acquired (one_more set))
      ]

-- `--set->refs` on an `int`: both branches agree with the source also at a count of 0.
release_found : String → SharedEncoderSet → Manager → Manager
release_found key set m =
    if ltb 0 (set.refs - 1)
    then with_sets (modify_set key one_less m.shared_encoders) m
    else emit (obs_encoder_release set.audio_encoder) (
        emit (obs_encoder_release set.video_encoder)
          (with_sets (remove_set key m.shared_encoders) m))

unfoldable pub release_shared_encoders : String → Manager → Manager
unfolding release_found
release_shared_encoders key m =
    if is_empty key
    then m
    else elim (lookup_set key m.shared_encoders) [ none ↦ m | some set ↦ release_found key set m ]
