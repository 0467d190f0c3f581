-- ===== src/Manager/Signals.antt =====
-- core/output-manager.cpp: handleOutputSignal and handleOutputStopped, what OBS reports of an
-- output (with core/output-signal-policy.hpp).
pub mod Invariant
use obs_dsk_multistream.Base.{
  ℕ, ◌+◌, String, ◌<>◌, Bool, true, false, not, ◌==◌, ◌&&◌, ◌||◌, Option, none, some, List, [], ◌∷◌,
  ℤ, pos, pos_part, eqb, ltb, ltb_ℤ, if◌then◌else◌, is_empty, suc,
}
use mathlib.Core.Option
use obs_dsk_multistream.Target.{OutputTarget, TargetState}
use obs_dsk_multistream.Runtime.{TransportState, PlatformLiveState}
use obs_dsk_multistream.YouTube.Warning.{is_youtube_target}
use obs_dsk_multistream.Manager.State.{
  Session, Env, Manager, u64, emit, find_target, update_target, update_session, session_for_target,
  runtime_status_for_target, reset_runtime_status, update_runtime_stats, set_runtime_transport,
  set_runtime_platform, platform_of, persistent_targets_changed, persistent_status_message,
}
use obs_dsk_multistream.Manager.Sessions.{release_session_at}
use obs_dsk_multistream.Manager.Broadcast.{maybe_start_youtube_broadcast}

pub should_ignore_output_signal_during_pending_release : String → Bool
should_ignore_output_signal_during_pending_release signal_name =
    not (signal_name == "stopping")
    && not (signal_name == "deactivate")
    && not (signal_name == "stop")

-- The first session with the output and the serial, and its position.
abbrev is_output : Option ℕ → ℕ → Bool
is_output none o = false
is_output (some p) o = eqb p o

pub matched_session : ℕ → ℕ → List Session → Option (ℕ × Session)
matched_session o serial [] = none
matched_session o serial (s ∷ ss) =
    let rest = Option.map (λ p. (suc p.0, p.1)) (matched_session o serial ss) in
    if is_output s.output o && eqb s.serial serial then some (0, s) else rest

is_unchecked : PlatformLiveState → Bool
is_unchecked PlatformLiveState.unknown = true
is_unchecked PlatformLiveState.rtmp_signal_only = true
is_unchecked _ = false

-- OBS_OUTPUT_SUCCESS and the error codes of obs-defs.h, and any other code.
pub data StopCode : Type 0 where
  success bad_path connect_failed invalid_stream output_error disconnected : StopCode
  unsupported no_space encode_error hdr_disabled : StopCode
  other : String → StopCode

output_stop_code_text : StopCode → String
output_stop_code_text success = "Stopped."
output_stop_code_text bad_path = "Bad output path or server URL."
output_stop_code_text connect_failed = "Connection failed."
output_stop_code_text invalid_stream =
    "Invalid stream. Check the stream key and platform ingest server."
output_stop_code_text output_error = "Output error."
output_stop_code_text disconnected = "Disconnected."
output_stop_code_text unsupported = "Unsupported output."
output_stop_code_text no_space = "No space left."
output_stop_code_text encode_error = "Encoder error."
output_stop_code_text hdr_disabled = "HDR output is disabled."
output_stop_code_text (other code) = "Output stopped with code " <> (code <> ".")

abbrev is_success : StopCode → Bool
is_success success = true
is_success _ = false

module _ (env : Env) where
  open env use {qt, now, trimmed, number}

  in_state : String → TargetState → Manager → Manager
  in_state id state m = update_target id (λ t. record t { state = state }) m

  -- `setRuntimePlatform` to "checking" for a YouTube target whose state is not yet known.
  note_connected : OutputTarget → ℕ → Manager → Manager
  note_connected target serial m =
      if is_youtube_target qt target
        && is_unchecked (runtime_status_for_target m target.id).platform
      then set_runtime_platform env target.id serial PlatformLiveState.rtmp_signal_only
          "RTMP connected - checking YouTube Live" "" m
      else m

  check_youtube : OutputTarget → ℕ → Manager → Manager
  check_youtube target serial m =
      if is_youtube_target qt target
      then maybe_start_youtube_broadcast env target.id serial 0 m
      else m

  -- `matched` is the target's session: no target has two.
  signal_active : String → Manager → Manager
  signal_active id m = update_session id (λ s. record s { youtube_signal_active_at_ms = now }) m

  drop_operation : OutputTarget → Session → Manager → Manager
  drop_operation target s m =
      if is_youtube_target qt target
      then update_session target.id
          (λ t. record t {
            youtube_operation_generation = u64 (s.youtube_operation_generation + 1);
            youtube_poll_generation = u64 (s.youtube_poll_generation + 1);
            youtube_operation_in_flight = false;
          })
          m
      else m

  reconnect_text : ℤ → String
  reconnect_text delay =
      if ltb_ℤ (pos 0) delay
      then "Reconnecting in " <> (number (pos_part delay) <> " sec")
      else "Reconnecting"

  pub apply_signal : String → ℤ → OutputTarget → Session → Manager → Manager
  apply_signal signal_name delay target s m =
      let id = target.id in
      if signal_name == "starting"
      then set_runtime_transport env id s.serial TransportState.starting "Connecting" (pos 0)
          (in_state id TargetState.starting m)
      else if signal_name == "start"
      then check_youtube target s.serial (
          note_connected target s.serial (
            set_runtime_transport env id s.serial TransportState.connected "RTMP sending" (pos 0)
              (signal_active id (in_state id TargetState.live m))))
      else if signal_name == "activate"
      then note_connected target s.serial (
          set_runtime_transport env id s.serial TransportState.active "RTMP sending" (pos 0)
            (in_state id TargetState.live m))
      else if signal_name == "reconnect"
      then set_runtime_transport env id s.serial TransportState.reconnecting (reconnect_text delay)
          delay (drop_operation target s (in_state id TargetState.live m))
      else if signal_name == "reconnect_success"
      then check_youtube target s.serial (
          set_runtime_transport env id s.serial TransportState.connected "RTMP reconnected" (pos 0)
            (signal_active id (in_state id TargetState.live m)))
      else if signal_name == "stopping"
      then set_runtime_transport env id s.serial TransportState.stopping "Stopping" (pos 0)
          (in_state id TargetState.stopping m)
      else if signal_name == "deactivate"
      then update_runtime_stats env id m
      else m

  pub handle_output_signal : ℕ → ℕ → String → ℤ → Manager → Manager
  handle_output_signal output expected signal_name delay m =
      if eqb expected 0 then m else elim (matched_session output expected m.sessions) [
        | none ↦ m
        | some (i, s) ↦ elim (find_target m s.target_id) [
          | none ↦ m
          | some target ↦
              if s.pending_release && should_ignore_output_signal_during_pending_release signal_name
              then m
              else persistent_targets_changed target.id (apply_signal signal_name delay target s m)
        ]
      ]

  pub output_stop_message : StopCode → String → String
  output_stop_message code last_error =
      let message = output_stop_code_text code in
      if is_empty (trimmed last_error) then message else message <> (" " <> trimmed last_error)

  stopped_well : OutputTarget → Manager → Manager
  stopped_well target m = persistent_status_message target.id ("Stopped " <> target.name) (
      reset_runtime_status env target.id (
        update_target target.id (λ t. record t { state = TargetState.stopped; last_error = "" }) m))

  stopped_badly : OutputTarget → ℕ → String → Manager → Manager
  stopped_badly target serial message m =
      let marked =
        update_target target.id
          (λ t. record t { state = TargetState.stopped; last_error = message }) m in
      persistent_status_message target.id ((target.name <> " failed: ") <> message) (
        set_runtime_platform env target.id serial (platform_of env target PlatformLiveState.failed)
          message message
          (set_runtime_transport env target.id serial TransportState.failed message (pos 0) marked))

  report_stop : StopCode → String → Session → Manager → Manager
  report_stop code last_error s m = elim (find_target m s.target_id) [
    | none ↦ m
    | some target ↦
        if is_success code
        then stopped_well target m
        else stopped_badly target s.serial (output_stop_message code last_error) m
  ]

  pub handle_output_stopped : ℕ → ℕ → StopCode → String → Manager → Manager
  handle_output_stopped output expected code last_error m =
      if eqb expected 0 then m else elim (matched_session output expected m.sessions) [
        | none ↦ m
        | some (i, s) ↦
            if is_empty s.target_id
            then m
            else persistent_targets_changed s.target_id
                (release_session_at env i false (report_stop code last_error s m))
      ]
