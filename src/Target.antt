-- ===== src/Target.antt =====
-- core/output-target.hpp: an output target (one streaming destination) and its enumerations.
pub mod Names
pub mod Validation
use obs_dsk_multistream.Base.{String, Bool, true, false, List, [], ℤ, pos}

pub data EncoderGroup : Type 0 where
  dsk_horizontal dsk_vertical : EncoderGroup

pub data TargetState : Type 0 where
  stopped starting live stopping error : TargetState

pub data TargetAuthMode : Type 0 where
  manual_rtmp twitch_oauth youtube_oauth kick_oauth : TargetAuthMode

pub data TargetSceneMode : Type 0 where
  follow_obs fixed_scene linked_scene : TargetSceneMode

pub record TargetSceneRoute : Type 0 where
  pub obs_scene_name : String
  pub obs_scene_uuid : String
  pub output_scene_name : String
  pub output_scene_uuid : String

-- The `int` fields are signed.
pub record OutputTarget : Type 0 where
  pub id : String
  pub name : String
  pub platform_id : String
  pub auth_mode : TargetAuthMode
  pub auth_account_name : String
  pub auth_credential_ref : String
  pub oauth_client_id : String
  pub oauth_client_secret : String
  pub oauth_client_secret_ref : String
  pub oauth_refresh_token : String
  pub oauth_refresh_token_ref : String
  pub server_url : String
  pub stream_key : String
  pub encoder_group : EncoderGroup
  pub use_shared_encoder : Bool
  pub auto_start_with_obs : Bool
  pub auto_stop_with_obs : Bool
  pub reconnect_enabled : Bool
  pub reconnect_max_retries : ℤ
  pub reconnect_delay_seconds : ℤ
  pub video_bitrate_kbps : ℤ
  pub audio_bitrate_kbps : ℤ
  pub keyframe_seconds : ℤ
  pub video_encoder_id : String
  pub audio_encoder_id : String
  pub scene_mode : TargetSceneMode
  pub scene_name : String
  pub scene_uuid : String
  pub scene_routes : List TargetSceneRoute
  pub enabled : Bool
  pub start_with_all : Bool
  pub state : TargetState
  pub last_error : String

-- The struct's default member initialisers.
abbrev pub default_target : OutputTarget
default_target = record {
  id = "";
  name = "";
  platform_id = "";
  auth_mode = manual_rtmp;
  auth_account_name = "";
  auth_credential_ref = "";
  oauth_client_id = "";
  oauth_client_secret = "";
  oauth_client_secret_ref = "";
  oauth_refresh_token = "";
  oauth_refresh_token_ref = "";
  server_url = "";
  stream_key = "";
  encoder_group = dsk_horizontal;
  use_shared_encoder = true;
  auto_start_with_obs = false;
  auto_stop_with_obs = true;
  reconnect_enabled = true;
  reconnect_max_retries = pos 20;
  reconnect_delay_seconds = pos 2;
  video_bitrate_kbps = pos 0;
  audio_bitrate_kbps = pos 0;
  keyframe_seconds = pos 2;
  video_encoder_id = "";
  audio_encoder_id = "";
  scene_mode = follow_obs;
  scene_name = "";
  scene_uuid = "";
  scene_routes = [];
  enabled = true;
  start_with_all = true;
  state = stopped;
  last_error = "";
}

-- The Boolean tests `==` of the enumerations.
abbrev pub is_state : TargetState → TargetState → Bool
is_state stopped stopped = true
is_state starting starting = true
is_state live live = true
is_state stopping stopping = true
is_state error error = true
is_state _ _ = false

abbrev pub is_vertical : EncoderGroup → Bool
is_vertical dsk_vertical = true
is_vertical dsk_horizontal = false

abbrev pub is_horizontal : EncoderGroup → Bool
is_horizontal dsk_horizontal = true
is_horizontal dsk_vertical = false

abbrev pub is_fixed_scene : TargetSceneMode → Bool
is_fixed_scene fixed_scene = true
is_fixed_scene _ = false

abbrev pub is_follow_obs : TargetSceneMode → Bool
is_follow_obs follow_obs = true
is_follow_obs _ = false

abbrev pub is_youtube_oauth : TargetAuthMode → Bool
is_youtube_oauth youtube_oauth = true
is_youtube_oauth _ = false
