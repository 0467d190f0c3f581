-- ===== src/Target/Names.antt =====
-- core/output-target.cpp: the names under which the enumerations are stored and shown, and the
-- classification of platforms by login mode.
use obs_dsk_multistream.Base.{String, Bool, true, ◌≡◌, refl, ◌==◌, if◌then◌else◌, is_empty}
use obs_dsk_multistream.Target.{
  EncoderGroup, dsk_horizontal, dsk_vertical, TargetState, stopped, starting, live, stopping, error,
  TargetAuthMode, manual_rtmp, twitch_oauth, youtube_oauth, kick_oauth, TargetSceneMode, follow_obs,
  fixed_scene, linked_scene,
}

unfoldable pub encoder_group_to_string : EncoderGroup → String
encoder_group_to_string dsk_horizontal = "dsk-horizontal"
encoder_group_to_string dsk_vertical = "dsk-vertical"

unfoldable pub encoder_group_from_string : String → EncoderGroup
encoder_group_from_string value = if value == "dsk-vertical" then dsk_vertical else dsk_horizontal

unfoldable pub target_state_to_string : TargetState → String
target_state_to_string stopped = "Stopped"
target_state_to_string starting = "Starting"
target_state_to_string live = "Live"
target_state_to_string stopping = "Stopping"
target_state_to_string error = "Error"

unfoldable pub target_auth_mode_to_string : TargetAuthMode → String
target_auth_mode_to_string manual_rtmp = "manual-rtmp"
target_auth_mode_to_string twitch_oauth = "twitch-oauth"
target_auth_mode_to_string youtube_oauth = "youtube-oauth"
target_auth_mode_to_string kick_oauth = "kick-oauth"

unfoldable pub target_auth_mode_from_string : String → TargetAuthMode
target_auth_mode_from_string value =
    if value == "twitch-oauth"
    then twitch_oauth
    else if value == "youtube-oauth"
    then youtube_oauth
    else if value == "kick-oauth"
    then kick_oauth
    else manual_rtmp

unfoldable pub target_auth_mode_display_name : TargetAuthMode → String
target_auth_mode_display_name manual_rtmp = "Manual RTMP key"
target_auth_mode_display_name twitch_oauth = "Login with Twitch"
target_auth_mode_display_name youtube_oauth = "Login with YouTube"
target_auth_mode_display_name kick_oauth = "Login with Kick"

unfoldable pub target_scene_mode_to_string : TargetSceneMode → String
target_scene_mode_to_string follow_obs = "follow-obs"
target_scene_mode_to_string fixed_scene = "fixed-scene"
target_scene_mode_to_string linked_scene = "linked-scene"

unfoldable pub target_scene_mode_from_string : String → TargetSceneMode
target_scene_mode_from_string value =
    if value == "fixed-scene"
    then fixed_scene
    else if value == "linked-scene"
    then linked_scene
    else follow_obs

unfoldable pub target_scene_mode_display_name : TargetSceneMode → String
target_scene_mode_display_name follow_obs = "Follow OBS Program"
target_scene_mode_display_name fixed_scene = "Fixed OBS Scene"
target_scene_mode_display_name linked_scene = "Linked OBS Scene"

unfoldable pub platform_supports_auth_mode : String → TargetAuthMode → Bool
platform_supports_auth_mode platform manual_rtmp = true
platform_supports_auth_mode platform twitch_oauth = platform == "twitch"
platform_supports_auth_mode platform youtube_oauth = platform == "youtube"
platform_supports_auth_mode platform kick_oauth = platform == "kick"

unfoldable pub masked_key : String → String
masked_key stream_key = if is_empty stream_key then "" else "********"

-- The saved name of an encoder group reads back as the same one.
pub encoder_group_from_string-to_string :
    (g : EncoderGroup) → encoder_group_from_string (encoder_group_to_string g) ≡ g
unfolding encoder_group_from_string encoder_group_to_string
encoder_group_from_string-to_string dsk_horizontal = refl
encoder_group_from_string-to_string dsk_vertical = refl

-- The saved name of a login mode reads back as the same one.
pub target_auth_mode_from_string-to_string :
    (m : TargetAuthMode) → target_auth_mode_from_string (target_auth_mode_to_string m) ≡ m
unfolding target_auth_mode_from_string target_auth_mode_to_string
target_auth_mode_from_string-to_string manual_rtmp = refl
target_auth_mode_from_string-to_string twitch_oauth = refl
target_auth_mode_from_string-to_string youtube_oauth = refl
target_auth_mode_from_string-to_string kick_oauth = refl

-- The saved name of a scene mode reads back as the same one.
pub target_scene_mode_from_string-to_string :
    (m : TargetSceneMode) → target_scene_mode_from_string (target_scene_mode_to_string m) ≡ m
unfolding target_scene_mode_from_string target_scene_mode_to_string
target_scene_mode_from_string-to_string follow_obs = refl
target_scene_mode_from_string-to_string fixed_scene = refl
target_scene_mode_from_string-to_string linked_scene = refl
