-- ===== src/Manager/Start.antt =====
-- core/output-manager.cpp: startIndependentTarget, startTarget and startAll.
pub mod Launch
pub mod Invariant
use obs_dsk_multistream.Base.{
  ℕ, ◌+◌, String, ◌<>◌, Bool, true, false, not, ◌||◌, ◌++◌, none, some, List, [], ◌∷◌, pos, ltb,
  if◌then◌else◌, is_empty, is_some,
}
use obs_dsk_multistream.Target.{OutputTarget, TargetState, is_state}
use obs_dsk_multistream.Target.Validation.{start_all_target_ids}
use obs_dsk_multistream.Runtime.{
  TargetRuntimeStatus, TransportState, PlatformLiveState, is_transport,
  runtime_transport_is_running,
}
use obs_dsk_multistream.Manager.State.{
  Session, Env, EncoderProfile, Manager, VideoAnswer, default_session, u64, emit, with_sessions,
  find_target, update_target, session_for_target, persistent_targets_changed,
  persistent_status_message, runtime_status_for_target, with_runtime_status, reset_runtime_status,
  set_runtime_transport, set_target_error, platform_of, connect_output_signals,
  disconnect_output_signals, release_output_and_service, obs_service_release, obs_encoder_release,
  set_encoders, status_message,
}
use obs_dsk_multistream.Manager.Encoders.{
  Acquired, acquired, refused, effective_profile_for_target, acquire_shared_encoders,
  release_shared_encoders,
}
use obs_dsk_multistream.Manager.Secrets.{hydrate_target_secrets, validate_target}

-- The key of the shared set, "" for encoders of its own; or the error.
pub data Encoded : Type 0 where
  encoded : String → Encoded
  no_encoder : String → Encoded

module _ (env : Env) where
  open env use {now}

  -- A failure after the output exists gives it back.
  start_failed : OutputTarget → ℕ → ℕ → String → Manager → Manager × Bool
  start_failed target service output message m = (
    set_target_error env target message (emit (release_output_and_service output (some service)) m),
    false,
  )

  encode_shared : ℕ → Manager × Acquired → Manager × Encoded
  encode_shared output (m, refused error) =
      (m, no_encoder (if is_empty error then "Failed to create shared encoders." else error))
  encode_shared output (m, acquired set) =
      (emit (set_encoders output set.video_encoder set.audio_encoder) m, encoded set.key)

  share_encoders : OutputTarget → EncoderProfile → ℕ → Manager → Manager × Encoded
  share_encoders target profile output m =
      encode_shared output (acquire_shared_encoders env target profile m)

  own_encoders : OutputTarget → EncoderProfile → ℕ → Manager → Manager × Encoded
  own_encoders target profile output m = elim (env.create_video_encoder target profile) [
    | none ↦ (m, no_encoder "Failed to create video encoder.")
    | some v ↦ elim (env.create_audio_encoder target profile) [
      | none ↦ (emit (obs_encoder_release v) m, no_encoder "Failed to create audio encoder.")
      | some a ↦ (
        emit (obs_encoder_release a)
            (emit (obs_encoder_release v) (emit (set_encoders output v a) m)),
        encoded "",
      )
    ]
  ]

  new_session : OutputTarget → ℕ → ℕ → ℕ → String → Session
  new_session target serial service output key = record default_session {
    serial = serial;
    target_id = target.id;
    output = some output;
    service = some service;
    started_at_ms = now;
    shared_encoder_key = key;
  }

  -- What follows `sessions_.push_back(session)`.
  announce_start : OutputTarget → ℕ → Manager → Manager
  announce_start target serial m =
      let marked =
        update_target target.id (λ t. record t { state = TargetState.starting; last_error = "" })
          m in
      let noted =
        with_runtime_status target.id
          (λ status. record status {
            session_serial = serial;
            started_at_ms = now;
            platform = platform_of env target PlatformLiveState.unknown;
          })
          marked in
      persistent_status_message target.id ("Starting " <> target.name) (
        set_runtime_transport env target.id serial TransportState.starting "Connecting" (pos 0)
          noted)

  launch : OutputTarget → ℕ → ℕ → ℕ → String → Manager → Manager × Bool
  launch target serial service output key m =
      let wired = emit (connect_output_signals output) m in
      if env.output_start output
      then (
        announce_start target serial (
            with_sessions (m.sessions ++ (new_session target serial service output key ∷ []))
              wired),
        true,
      )
      else (
        set_target_error env target "OBS rejected the independent output start request." (
            release_shared_encoders key (
              emit (release_output_and_service output (some service))
                (emit (disconnect_output_signals output) wired))),
        false,
      )

  launch_encoded : OutputTarget → ℕ → ℕ → ℕ → Manager × Encoded → Manager × Bool
  launch_encoded target serial service output (m, no_encoder error) =
      start_failed target service output error m
  launch_encoded target serial service output (m, encoded key) =
      launch target serial service output key m

  start_output : OutputTarget → EncoderProfile → ℕ → ℕ → ℕ → Manager → Manager × Bool
  start_output target profile serial service output m =
      launch_encoded target serial service output (
        if target.use_shared_encoder
        then share_encoders target profile output m
        else own_encoders target profile output m)

  pub start_service : OutputTarget → EncoderProfile → ℕ → Manager → Manager × Bool
  start_service target profile serial m = elim (env.create_service target) [
    | none ↦ (set_target_error env target "Failed to create RTMP service." m, false)
    | some service ↦ elim (env.create_output target serial) [
      | none ↦ (
        set_target_error env target "Failed to create output."
            (emit (obs_service_release service) m),
        false,
      )
      | some output ↦ start_output target profile serial service output m
    ]
  ]

  abbrev next_serial : Manager → Manager
  next_serial m = record m {
    core = record (m.core) { next_session_serial = u64 (m.next_session_serial + 1) };
  }

  pub start_independent_target : OutputTarget → Manager → Manager × Bool
  start_independent_target target m =
      let serial = m.next_session_serial in
      let profile = effective_profile_for_target env target in
      elim (env.video_for_target target profile) [
        | VideoAnswer.unavailable error ↦ (
          set_target_error env target
              (if is_empty error then "Video output is unavailable." else error) (next_serial m),
          false,
        )
        | VideoAnswer.video v ↦ start_service target profile serial (next_serial m)
      ]

  -- The first steps of a start, up to `Connecting`.
  begin_start : String → OutputTarget → Manager → Manager
  begin_start id target m =
      let marked =
        update_target id (λ t. record t { state = TargetState.starting; last_error = "" }) m in
      let reset = reset_runtime_status env id marked in
      let noted =
        with_runtime_status id
          (λ status. record status { platform = platform_of env target PlatformLiveState.unknown })
          reset in
      persistent_targets_changed id
        (set_runtime_transport env id 0 TransportState.starting "Connecting" (pos 0) noted)

  abbrev current : String → OutputTarget → Manager → OutputTarget
  current id target m = elim (find_target m id) [ none ↦ target | some t ↦ t ]

  finish_start : String → OutputTarget → Manager → Manager × Bool
  finish_start id target m =
      let (read, readable) = hydrate_target_secrets env (current id target m) m in
      let (checked, valid) = validate_target env (current id target read) read in
      let (started, ok) = start_independent_target (current id target checked) checked in
      if readable
      then if valid
        then (persistent_targets_changed id started, ok)
        else (persistent_targets_changed id checked, false)
      else (persistent_targets_changed id read, false)

  still_stopping : String → OutputTarget → Manager → Manager
  still_stopping id target m =
      let error : String = "Output is still stopping. Try again in a moment." in
      let marked =
        update_target id (λ t. record t { state = TargetState.stopping; last_error = error }) m in
      persistent_targets_changed id (
        set_runtime_transport env id (runtime_status_for_target marked id).session_serial
          TransportState.stopping error (pos 0) marked)

  -- Nothing to do: the output runs, or is on its way.
  abbrev already_started : OutputTarget → TargetRuntimeStatus → Bool
  already_started target runtime =
      runtime_transport_is_running runtime
      || is_state target.state TargetState.live
      || is_state target.state TargetState.starting

  start_found : String → OutputTarget → Manager → Manager × Bool
  start_found id target m =
      let runtime = runtime_status_for_target m id in
      if already_started target runtime
      then (m, true)
      else if is_transport runtime.transport TransportState.stopping
          || is_some (session_for_target m id)
      then (still_stopping id target m, false)
      else finish_start id target (begin_start id target m)

  pub start_target : String → Manager → Manager × Bool
  start_target id m = elim (find_target m id) [
    | none ↦ (m, false)
    | some target ↦ start_found id target m
  ]

  abbrev one_if : Bool → ℕ
  one_if b = if b then 1 else 0

  -- The loop of `startAll`: the manager, the number started and the number failed.
  start_each : List String → Manager → Manager × ℕ × ℕ
  start_each [] m = (m, 0, 0)
  start_each (id ∷ ids) m =
      let (m', ok) = start_target id m in
      let (m'', started, failed) = start_each ids m' in
      (m'', started + one_if ok, failed + one_if (not ok))

  pub start_all : Manager → Manager
  start_all m =
      let (m', started, failed) = start_each (start_all_target_ids m.targets) m in
      if ltb 0 failed
      then emit
          (status_message (
            (("Start All: " <> env.number started) <> " started, ")
            <> (env.number failed <> " failed.")))
          m'
      else m'
