-- ===== src/Manager/State/Data.antt =====
-- core/output-manager.hpp, core/output-manager.cpp: sessions, shared encoders, the manager's record,
-- what an operation asks of its environment, and what it learns from it.
use obs_dsk_multistream.Base.{
  ℕ, ◌%◌, ◌^◌, String, Bool, false, ◌==◌, Option, none, List, ◌∷◌, if◌then◌else◌, Qt,
}
use obs_dsk_multistream.Target.{OutputTarget, EncoderGroup}
use obs_dsk_multistream.Runtime.{TargetRuntimeStatus}
use obs_dsk_multistream.Base.Doubles.{Doubles}
use obs_dsk_multistream.Layout.{LayoutManager}
use obs_dsk_multistream.Settings.{PluginSettings, SceneLayoutLink}
use obs_dsk_multistream.YouTube.Selection.{Broadcast}
use obs_dsk_multistream.YouTube.Request.{Ticket, Request}

-- OutputManager::Session. Handles of OBS objects are numbers; `none` is a null pointer.
pub record Session : Type 0 where
  pub serial : ℕ
  pub target_id : String
  pub output : Option ℕ
  pub service : Option ℕ
  pub started_at_ms : ℕ
  pub shared_encoder_key : String
  pub youtube_access_token : String
  pub youtube_access_token_expires_at_ms : ℕ
  pub youtube_signal_active_at_ms : ℕ
  pub youtube_auto_start_waiting_since_ms : ℕ
  pub youtube_operation_generation : ℕ
  pub youtube_poll_generation : ℕ
  pub youtube_transient_retry_count : ℕ
  pub youtube_operation_in_flight : Bool
  pub youtube_auth_refresh_retried : Bool
  pub pending_release : Bool
  pub release_polls : ℕ

abbrev pub default_session : Session
default_session = record {
  serial = 0;
  target_id = "";
  output = none;
  service = none;
  started_at_ms = 0;
  shared_encoder_key = "";
  youtube_access_token = "";
  youtube_access_token_expires_at_ms = 0;
  youtube_signal_active_at_ms = 0;
  youtube_auto_start_waiting_since_ms = 0;
  youtube_operation_generation = 0;
  youtube_poll_generation = 0;
  youtube_transient_retry_count = 0;
  youtube_operation_in_flight = false;
  youtube_auth_refresh_retried = false;
  pending_release = false;
  release_polls = 0;
}

-- OutputManager::SharedEncoderSet. A stored set always has both encoders.
pub record SharedEncoderSet : Type 0 where
  pub key : String
  pub video_encoder : ℕ
  pub audio_encoder : ℕ
  pub refs : ℕ

-- EncoderProfile of core/encoder-profile-manager.hpp.
pub record EncoderProfile : Type 0 where
  pub group : EncoderGroup
  pub width : ℕ
  pub height : ℕ
  pub fps_numerator : ℕ
  pub fps_denominator : ℕ
  pub video_bitrate_kbps : ℕ
  pub audio_bitrate_kbps : ℕ
  pub keyframe_seconds : ℕ
  pub video_encoder_id : String
  pub audio_encoder_id : String

-- OutputStats, without the fields that no runtime status takes.
pub record OutputStats : Type 0 where
  pub total_bytes : ℕ
  pub total_frames : ℕ
  pub dropped_frames : ℕ
  pub congestion : ℕ

abbrev pub no_stats : OutputStats
no_stats = record { total_bytes = 0; total_frames = 0; dropped_frames = 0; congestion = 0 }

-- What the manager asks of OBS, of timers and of the credential store, and what it emits.
pub data Effect : Type 0 where
  connect_output_signals disconnect_output_signals : ℕ → Effect
  obs_output_stop obs_output_force_stop : ℕ → Effect
  set_encoders : ℕ → ℕ → ℕ → Effect
  release_output_and_service : ℕ → Option ℕ → Effect
  obs_service_release obs_encoder_release : ℕ → Effect
  release_target_scene_canvas : String → Effect
  -- QTimer::singleShot(ms, releaseSession(target, false, serial))
  schedule_release : ℕ → String → ℕ → Effect
  -- QTimer::singleShot(ms, …) of scheduleYouTubePoll: target, serial, operation, poll, attempt
  schedule_youtube_poll : ℕ → String → ℕ → ℕ → ℕ → ℕ → Effect
  -- HttpClient::send of a YouTube request
  send_youtube_request : Ticket → Request → Effect
  -- the signal youtubeBroadcastSelectionRequired: target, serial, operation, choices
  youtube_broadcast_selection_required : String → ℕ → ℕ → List Broadcast → Effect
  delete_secret : String → Effect
  targets_changed vertical_layout_changed : Effect
  -- refreshVerticalCanvasScene and refreshLinkedSceneCanvases, which work on OBS's canvases
  refresh_vertical_canvas_scene refresh_linked_scene_canvases : Effect
  target_runtime_changed status_message : String → Effect

pub data SecretRead : Type 0 where
  found failed : String → SecretRead

pub data VideoAnswer : Type 0 where
  video : ℕ → VideoAnswer
  unavailable : String → VideoAnswer

-- The answers that one call of the manager gets from what it does not implement.
pub record Env : Type 0 where
  pub qt : Qt
  pub open qt use *
  pub now : ℕ
  pub output_active : ℕ → Bool
  pub output_stats : ℕ → OutputStats
  pub output_start : ℕ → Bool
  pub create_service : OutputTarget → Option ℕ
  pub create_output : OutputTarget → ℕ → Option ℕ
  pub create_video_encoder : OutputTarget → EncoderProfile → Option ℕ
  pub create_audio_encoder : OutputTarget → EncoderProfile → Option ℕ
  pub video_for_target : OutputTarget → EncoderProfile → VideoAnswer
  pub default_video_encoder_id : String
  -- whether the settings path differs from the one that was loaded
  pub profile_changed : Bool
  pub store_save : PluginSettings → Option String
  -- the credentials that the build generates
  pub bundled_client_id : String
  pub bundled_client_secret : String
  pub obs_scene_uuid_for_name : String → String
  -- the name of the scene with the uuid, or the empty text
  pub obs_scene_name_for_uuid : String → String
  pub current_obs_scene_name : String
  pub current_obs_scene_uuid : String
  -- the identifiers that newTargetId gives out during the call
  pub new_target_id : ℕ → String
  pub dbl : Doubles
  pub canvas_refresh_error : Option String
  pub read_secret : String → SecretRead
  pub delete_secret_error : String → Option String

-- The sessions and the encoders that they share.
pub record Core : Type 0 where
  pub sessions : List Session
  pub shared_encoders : List SharedEncoderSet
  pub next_session_serial : ℕ

-- The sets of ids and the hash of statuses are functions.
pub record Manager : Type 0 where
  pub core : Core
  pub open core use *
  pub targets : List OutputTarget
  pub layouts : LayoutManager
  -- persistedVerticalLayout_, persistedVerticalScenes_ and persistedActiveVerticalSceneId_
  pub persisted_layouts : LayoutManager
  pub follow_obs_scene : Bool
  pub scene_links : List SceneLayoutLink
  pub runtime_statuses : String → Option TargetRuntimeStatus
  pub runtime_target_ids : String → Bool
  pub pending_persistent_removal_ids : String → Bool
  pub pending_runtime_removal_ids : String → Bool
  pub shutting_down : Bool
  pub unload_prepared : Bool
  pub suppress_next_obs_auto_start : Bool
  pub suppress_next_obs_auto_stop : Bool
  pub suppress_obs_auto_start_until_ms : ℕ
  pub suppress_obs_auto_stop_until_ms : ℕ
  pub log : List Effect

-- quint64 arithmetic wraps.
abbrev pub u64 : ℕ → ℕ
u64 n = n % 2 ^ 64

abbrev pub put {ℓ} : {V : Type ℓ} → String → V → (String → V) → String → V
put k v f j = if j == k then v else f j

abbrev pub emit : Effect → Manager → Manager
emit e m = record m { log = e ∷ m.log }

abbrev pub with_sessions : List Session → Manager → Manager
with_sessions ss m = record m { core = record (m.core) { sessions = ss } }
