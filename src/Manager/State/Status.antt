-- ===== src/Manager/State/Status.antt =====
-- core/output-manager.cpp: the bookkeeping of runtime statuses, errors and warnings.
use obs_dsk_multistream.Base.{
  ℕ, String, ◌<>◌, not, ◌==◌, ◌||◌, none, some, List, [], ◌∷◌, ℤ, if◌then◌else◌, is_empty,
}
use obs_dsk_multistream.Target.{OutputTarget, TargetState, is_state}
use obs_dsk_multistream.Runtime.{
  TargetRuntimeStatus, TransportState, PlatformLiveState, default_status,
  runtime_transport_is_running,
}
use obs_dsk_multistream.YouTube.Warning.{
  is_youtube_target, is_youtube_api_warning_text, platform_state_for_youtube_api_warning_text,
  user_facing_youtube_api_warning_text,
}
use obs_dsk_multistream.Manager.State.Data.{
  Session, Env, Manager, OutputStats, no_stats, emit, target_runtime_changed,
}
use obs_dsk_multistream.Manager.State.Lookups.{
  find_target, update_target, session_matches, persistent_targets_changed,
  persistent_status_message, runtime_status_for_target, with_runtime_status,
}

module _ (env : Env) where
  open env use {qt, now, trimmed, output_stats}

  unfoldable pub reset_runtime_status : String → Manager → Manager
  reset_runtime_status id m = emit (target_runtime_changed id) (
      with_runtime_status id
        (λ _. record default_status { target_id = id; last_changed_at_ms = now }) m)

  -- The first session of the target that has an output.
  stats_for : String → List Session → OutputStats
  stats_for id [] = no_stats
  stats_for id (s ∷ ss) =
      let rest = stats_for id ss in
      if s.target_id == id then elim s.output [ none ↦ rest | some o ↦ output_stats o ] else rest

  unfoldable pub update_runtime_stats : String → Manager → Manager
  unfolding stats_for
  update_runtime_stats id m =
      let stats = stats_for id m.sessions in
      with_runtime_status id
        (λ status. record status {
          total_bytes = stats.total_bytes;
          total_frames = stats.total_frames;
          dropped_frames = stats.dropped_frames;
          congestion = stats.congestion;
        })
        m

  transport_written : ℕ → TransportState → String → ℤ → TargetRuntimeStatus → TargetRuntimeStatus
  transport_written serial state message delay status =
      let next = record status {
        session_serial = serial;
        transport = state;
        reconnect_delay_seconds = delay;
        last_changed_at_ms = now;
      } in
      if is_empty (trimmed message)
      then next
      else record next { transport_message = trimmed message; last_user_message = trimmed message }

  unfoldable pub set_runtime_transport :
      String → ℕ → TransportState → String → ℤ → Manager → Manager
  unfolding transport_written
  set_runtime_transport id serial state message delay m =
      if session_matches m id serial
      then emit (target_runtime_changed id) (
          update_runtime_stats id
            (with_runtime_status id (transport_written serial state message delay) m))
      else m

  unfoldable pub platform_written :
      ℕ → PlatformLiveState → String → String → TargetRuntimeStatus → TargetRuntimeStatus
  platform_written serial state message technical_error status =
      let next = record status {
        session_serial = serial;
        platform = state;
        last_changed_at_ms = now;
      } in
      let told = if is_empty (trimmed message) then next else record next {
        platform_message = trimmed message;
        last_user_message = trimmed message;
      } in
      if is_empty (trimmed technical_error)
      then told
      else record told { last_technical_error = trimmed technical_error }

  unfoldable pub set_runtime_platform :
      String → ℕ → PlatformLiveState → String → String → Manager → Manager
  unfolding platform_written
  set_runtime_platform id serial state message technical_error m =
      if session_matches m id serial
      then emit (target_runtime_changed id) (
          update_runtime_stats id
            (with_runtime_status id (platform_written serial state message technical_error) m))
      else m

  unfoldable pub platform_of : OutputTarget → PlatformLiveState → PlatformLiveState
  platform_of target state =
      if is_youtube_target qt target then state else PlatformLiveState.not_applicable

  unfoldable pub set_target_error : OutputTarget → String → Manager → Manager
  unfolding platform_of
  set_target_error target message m = emit (target_runtime_changed target.id) (
      persistent_status_message target.id ((target.name <> ": ") <> message) (
        with_runtime_status target.id
          (λ status. record status {
            session_serial = 0;
            transport = TransportState.failed;
            platform = platform_of target PlatformLiveState.failed;
            last_changed_at_ms = now;
            last_user_message = message;
            last_technical_error = message;
          })
          (update_target target.id
            (λ t. record t { state = TargetState.error; last_error = message }) m)))

  unfoldable pub set_warning : OutputTarget → String → ℕ → Manager → Manager
  set_warning target message serial m =
      let changed = not (target.last_error == message) in
      let marked = update_target target.id (λ t. record t { last_error = message }) m in
      let runtime = runtime_status_for_target marked target.id in
      let shown =
        if runtime_transport_is_running runtime || is_state target.state TargetState.live
        then user_facing_youtube_api_warning_text qt message
        else "" in
      let written =
        set_runtime_platform target.id serial
          (platform_state_for_youtube_api_warning_text qt message) shown message marked in
      let told =
        persistent_status_message target.id
          ((target.name <> ": ") <> user_facing_youtube_api_warning_text qt message) written in
      if changed then persistent_targets_changed target.id told else told

  unfoldable pub set_target_api_warning : String → String → ℕ → Manager → Manager
  unfolding set_warning
  set_target_api_warning id message serial m = elim (find_target m id) [
    | none ↦ m
    | some target ↦ if session_matches m id serial then set_warning target message serial m else m
  ]

  unfoldable pub clear_warning : OutputTarget → Manager → Manager
  clear_warning target m =
      let cleared = update_target target.id (λ t. record t { last_error = "" }) m in
      let runtime = runtime_status_for_target cleared target.id in
      let shown =
        if runtime_transport_is_running runtime || is_state target.state TargetState.live
        then set_runtime_platform target.id runtime.session_serial
            PlatformLiveState.rtmp_signal_only "RTMP connected - checking YouTube Live" "" cleared
        else cleared in
      persistent_targets_changed target.id shown

  unfoldable pub clear_target_api_warning : String → Manager → Manager
  unfolding clear_warning
  clear_target_api_warning id m = elim (find_target m id) [
    | none ↦ m
    | some target ↦
        if is_youtube_api_warning_text target.last_error then clear_warning target m else m
  ]
