-- ===== src/Samples.antt =====
-- Sample values: texts without spaces and letters in one case, an OBS that grants every request,
-- a target, a manager that lists it, and one that runs it.
pub mod Numbers
pub mod Storage
use obs_dsk_multistream.Base.{
  String, Option, true, false, ◌==◌, none, some, [], ◌∷◌, starts_with, Qt, refl,
}
use obs_dsk_multistream.Samples.Numbers.{whole_doubles}
use obs_dsk_multistream.Target.{OutputTarget, TargetState, default_target, youtube_oauth}
use obs_dsk_multistream.Runtime.{
  TargetRuntimeStatus, TransportState, PlatformLiveState, default_status,
}
use obs_dsk_multistream.YouTube.Response.{HttpResponse}
use obs_dsk_multistream.YouTube.Selection.{Broadcast, Stream}
use obs_dsk_multistream.Layout.{LayoutManager, default_layout}
use obs_dsk_multistream.Manager.State.{
  Session, Env, Core, Manager, SharedEncoderSet, SecretRead, VideoAnswer, default_session, no_stats,
}

abbrev pub plain_qt : Qt
plain_qt = record {
  trimmed = λ s. s;
  to_lower = λ s. s;
  contains_ci = λ s t. starts_with s t;
  contains_cs = λ s t. starts_with s t;
  equal_ci = λ s t. s == t;
  number = λ n. "7";
  simplified = λ s. s;
  remove_matches = λ pattern s. s;
  parse_url = λ s. record {
    valid = starts_with s "rtmp://";
    scheme = "rtmp";
    host = "ingest.example";
    path = "/live";
  };
  trimmed_idem = λ s. refl;
  trimmed_empty = refl;
}

abbrev pub granting : Env
granting = record {
  qt = plain_qt;
  now = 1000;
  output_active = λ o. false;
  output_stats = λ o. no_stats;
  output_start = λ o. true;
  create_service = λ t. some 11;
  create_output = λ t serial. some 12;
  create_video_encoder = λ t p. some 13;
  create_audio_encoder = λ t p. some 14;
  video_for_target = λ t p. VideoAnswer.video 15;
  default_video_encoder_id = "obs_x264";
  profile_changed = false;
  store_save = λ ts. none;
  bundled_client_id = "id";
  bundled_client_secret = "secret";
  obs_scene_uuid_for_name = λ name. "";
  obs_scene_name_for_uuid = λ uuid. "";
  current_obs_scene_name = "Talk";
  current_obs_scene_uuid = "";
  new_target_id = λ n. "new";
  dbl = whole_doubles;
  canvas_refresh_error = none;
  read_secret = λ ref. SecretRead.found "key";
  delete_secret_error = λ ref. none;
}

-- Every output is active.
abbrev pub sending : Env
sending = record granting { output_active = λ o. true }

abbrev pub channel : OutputTarget
channel = record default_target {
  id = "a";
  name = "Channel";
  platform_id = "youtube";
  auth_mode = youtube_oauth;
  server_url = "rtmp://ingest.example/live";
  stream_key = "key";
  oauth_refresh_token = "token";
}

abbrev pub empty_core : Core
empty_core = record { sessions = []; shared_encoders = []; next_session_serial = 1 }

abbrev pub two_scenes : LayoutManager
two_scenes = record {
  vertical = default_layout;
  vertical_scenes =
      record { id = "talk"; name = "Talk"; layout = default_layout }
      ∷ record { id = "game"; name = "Game"; layout = default_layout }
      ∷ [];
  active_vertical_scene_id = "talk";
}

abbrev pub resting : Manager
resting = record {
  core = empty_core;
  targets = channel ∷ [];
  layouts = two_scenes;
  persisted_layouts = two_scenes;
  follow_obs_scene = false;
  scene_links = [];
  runtime_statuses = λ id. none;
  runtime_target_ids = λ id. false;
  pending_persistent_removal_ids = λ id. false;
  pending_runtime_removal_ids = λ id. false;
  shutting_down = false;
  unload_prepared = false;
  suppress_next_obs_auto_start = false;
  suppress_next_obs_auto_stop = false;
  suppress_obs_auto_start_until_ms = 0;
  suppress_obs_auto_stop_until_ms = 0;
  log = [];
}

abbrev pub running_session : Session
running_session = record default_session {
  serial = 1;
  target_id = "a";
  output = some 12;
  service = some 11;
  started_at_ms = 1000;
  shared_encoder_key = "k";
  youtube_operation_generation = 4;
  youtube_poll_generation = 6;
}

-- The session while a request to YouTube is on its way.
abbrev pub asking_session : Session
asking_session = record running_session { youtube_operation_in_flight = true }

abbrev pub encoders : SharedEncoderSet
encoders = record { key = "k"; video_encoder = 13; audio_encoder = 14; refs = 1 }

abbrev pub with_session : Session → Manager
with_session s = record resting {
  core = record { sessions = s ∷ []; shared_encoders = encoders ∷ []; next_session_serial = 2 };
  targets = record channel { state = TargetState.live } ∷ [];
}

abbrev pub running : Manager
running = with_session running_session

abbrev pub asking : Manager
asking = with_session asking_session

abbrev pub unavailable_answer : HttpResponse
unavailable_answer = record {
  status_code = 503;
  transport_error = "";
  text = "try later";
  message = "";
  reasons = [];
}

-- The access token has expired.
abbrev pub unauthorized_answer : HttpResponse
unauthorized_answer = record unavailable_answer { status_code = 401 }

abbrev pub live_status : TargetRuntimeStatus
live_status = record default_status {
  target_id = "a";
  session_serial = 1;
  transport = TransportState.active;
  platform = PlatformLiveState.live;
}

abbrev pub show : Broadcast
show = record {
  id = "show";
  life_cycle_status = "ready";
  bound_stream_id = "s";
  enable_auto_start = false;
  enable_monitor_stream = none;
}

abbrev pub rehearsal : Broadcast
rehearsal = record {
  id = "rehearsal";
  life_cycle_status = "created";
  bound_stream_id = "s";
  enable_auto_start = false;
  enable_monitor_stream = none;
}

-- Every stream is active and has the channel's key.
abbrev pub streams : String → Option Stream
streams id = some (record { stream_status = "active"; stream_name = "key" })
