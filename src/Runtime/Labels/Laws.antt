-- ===== src/Runtime/Labels/Laws.antt =====
-- What the row of a target shows (core/output-runtime-status.hpp).
use obs_dsk_multistream.Base.{
  String, ◌≡◌, ◌≢◌, ◌↔◌, ◌⊎◌, true, false, Qt, arith, eq_iff, ◌<>◌, is_empty, ne_of_test, pos_part,
  ◌==◌, not, eq-if, refl, ◌&&◌, ◌||◌,
}
use text.Mathlib.TextLemmas.{append-ne-nil_of_right_ne-nil}
use obs_dsk_multistream.Target.{OutputTarget, TargetState}
use obs_dsk_multistream.Target.Names.{target_state_to_string}
use obs_dsk_multistream.Runtime.{
  TargetRuntimeStatus, TransportState, PlatformLiveState, transport_state_to_string,
  runtime_transport_is_running, runtime_platform_is_warning, is_live, is_transport,
}
use obs_dsk_multistream.YouTube.Warning.{
  is_youtube_target, user_facing_youtube_api_warning_text, live_youtube_api_warning_row_text,
}
use obs_dsk_multistream.Runtime.Labels.{
  platform_detail, platform_label, running_label, stopped_label, runtime_status_label, message_or,
  error_detail, transport_detail, running_detail, steady_detail, transport_case,
  runtime_status_detail,
}

state_not_live : (s : TargetState) → (target_state_to_string s == "YouTube Live") ≡ false
unfolding target_state_to_string
state_not_live TargetState.stopped = refl
state_not_live _ = refl

transport_not_live : (t : TransportState) → (transport_state_to_string t == "YouTube Live") ≡ false
unfolding transport_state_to_string
transport_not_live TransportState.idle = refl
transport_not_live _ = refl

platform_live :
    (p : PlatformLiveState) (t : TransportState)
    → (platform_label p (transport_state_to_string t) == "YouTube Live") ≡ is_live p
unfolding platform_label transport_state_to_string runtime_platform_is_warning
platform_live PlatformLiveState.not_applicable t = transport_not_live t
platform_live PlatformLiveState.unknown t = transport_not_live t
platform_live PlatformLiveState.live t = refl
platform_live _ t = refl

transport_named : (t : TransportState) → is_empty (transport_state_to_string t) ≡ false
unfolding transport_state_to_string
transport_named TransportState.idle = refl
transport_named _ = refl

state_named : (s : TargetState) → is_empty (target_state_to_string s) ≡ false
unfolding target_state_to_string
state_named TargetState.stopped = refl
state_named _ = refl

platform_label_given :
    (p : PlatformLiveState) (s : String)
    → is_empty s ≡ false
    → is_empty (platform_label p s) ≡ false
unfolding platform_label runtime_platform_is_warning
platform_label_given PlatformLiveState.not_applicable s h = h
platform_label_given PlatformLiveState.unknown s h = h
platform_label_given _ s h = refl

platform_detail_given :
    (p : PlatformLiveState) (s : String)
    → is_empty s ≡ false
    → is_empty (platform_detail p s) ≡ false
unfolding platform_detail
platform_detail_given PlatformLiveState.not_applicable s h = h
platform_detail_given _ s h = refl

warning_texts_given :
    (qt : Qt) (message : String)
    → (is_empty (live_youtube_api_warning_row_text qt message) ≡ false)
      × (is_empty (user_facing_youtube_api_warning_text qt message) ≡ false)
unfolding live_youtube_api_warning_row_text user_facing_youtube_api_warning_text
warning_texts_given qt message = (simp eq-if (ground arith), simp eq-if (ground arith))

message_or_given :
    (qt : Qt) (message s : String) → is_empty s ≡ false → is_empty (message_or qt message s) ≡ false
unfolding message_or
message_or_given qt message s h = simp eq-if (ground arith)

module _ (qt : Qt) (target : OutputTarget) (status : TargetRuntimeStatus) where
  running_live :
      (t : TransportState) (p : PlatformLiveState)
      → (running_label qt target t p == "YouTube Live") ≡ (
          is_youtube_target qt target
          && is_live p
          && not (is_transport t TransportState.starting)
          && not (is_transport t TransportState.reconnecting))
  unfolding running_label
  running_live TransportState.starting p = ground arith
  running_live TransportState.reconnecting p = ground arith
  running_live t p = simp eq-if (ground (arith, platform_live p t, transport_not_live t))

  stopped_not_live : (stopped_label qt target == "YouTube Live") ≡ false
  unfolding stopped_label
  stopped_not_live = simp eq-if (ground (arith, state_not_live target.state))

  -- The label as a test, which computes at each of the texts.
  label_live : (runtime_status_label qt target status == "YouTube Live") ≡ (
      is_youtube_target qt target
      && is_live status.platform
      && (is_transport status.transport TransportState.connected
          || is_transport status.transport TransportState.active))
  unfolding runtime_status_label runtime_transport_is_running
  label_live =
      simp eq-if (ground (arith, stopped_not_live, running_live status.transport status.platform))

  -- The label of a target reads "YouTube Live" exactly when it is a YouTube target, YouTube reported
  -- the broadcast as live, and the transport is connected or active.
  pub runtime_status_label-live_iff : (runtime_status_label qt target status ≡ "YouTube Live") ↔ (
      (is_youtube_target qt target ≡ true)
      × (status.platform ≡ PlatformLiveState.live)
      × ((status.transport ≡ TransportState.connected)
          ⊎ (status.transport ≡ TransportState.active)))
  runtime_status_label-live_iff = (
    λ h. ground (arith, label_live, eq_iff (runtime_status_label qt target status) "YouTube Live"),
    λ h. ground (arith, label_live, eq_iff (runtime_status_label qt target status) "YouTube Live"),
  )

  running_label_given :
      (t : TransportState) (p : PlatformLiveState) → is_empty (running_label qt target t p) ≡ false
  unfolding running_label
  running_label_given TransportState.starting p = refl
  running_label_given TransportState.reconnecting p = refl
  running_label_given t p = simp eq-if (
      ground (
        arith,
        platform_label_given p (transport_state_to_string t) (transport_named t),
        transport_named t,
      ))

  label_given : is_empty (runtime_status_label qt target status) ≡ false
  unfolding runtime_status_label stopped_label
  label_given = simp eq-if (
      ground
        (arith, running_label_given status.transport status.platform, state_named target.state))

  transport_detail_given : is_empty (transport_detail qt status) ≡ false
  unfolding transport_detail
  transport_detail_given = simp eq-if (ground (arith, transport_named status.transport))

  running_detail_given : is_empty (running_detail qt target status) ≡ false
  unfolding running_detail
  running_detail_given = simp eq-if (
      ground (
        arith,
        transport_detail_given,
        message_or_given qt status.platform_message
            (platform_detail status.platform (transport_detail qt status)),
        platform_detail_given status.platform (transport_detail qt status),
      ))

  error_detail_given :
      (error : String) → is_empty error ≡ false → is_empty (error_detail qt target error) ≡ false
  unfolding error_detail
  error_detail_given error h = simp eq-if (ground (arith, warning_texts_given qt error))

  steady_detail_given : is_empty (steady_detail qt target status) ≡ false
  unfolding steady_detail
  steady_detail_given = simp eq-if (
      ground (
        arith,
        running_detail_given,
        label_given,
        error_detail_given (qt.trimmed target.last_error),
      ))

  reconnecting_given :
      is_empty (transport_case qt target status TransportState.reconnecting) ≡ false
  unfolding transport_case
  reconnecting_given = simp eq-if (
      ground (
        arith,
        message_or_given qt status.transport_message "Reconnecting",
        eq_iff
            (("Reconnecting in " <> qt.number (pos_part status.reconnect_delay_seconds)) <> " sec")
            "",
        append-ne-nil_of_right_ne-nil
            ("Reconnecting in " <> qt.number (pos_part status.reconnect_delay_seconds)) {t = " sec"}
            (ne_of_test " sec" "" refl),
      ))

  transport_case_given : (t : TransportState) → is_empty (transport_case qt target status t) ≡ false
  unfolding transport_case
  transport_case_given TransportState.starting =
      message_or_given qt status.transport_message "Connecting" refl
  transport_case_given TransportState.stopping =
      message_or_given qt status.transport_message "Stopping" refl
  transport_case_given TransportState.reconnecting = reconnecting_given
  transport_case_given t = steady_detail_given

  -- The detail line of a target is never empty, whatever its status.
  pub runtime_status_detail_given : runtime_status_detail qt target status ≢ ""
  unfolding runtime_status_detail
  runtime_status_detail_given = ne_of_test _ "" (transport_case_given status.transport)
