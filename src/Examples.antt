-- ===== src/Examples.antt =====
-- The theorems at concrete values: each is applied where its conditions hold.
mod Settings
mod Scenes
mod Viewer
mod Dock
mod YouTube
use obs_dsk_multistream.Manager.Operation.{schedule_poll}
use obs_dsk_multistream.Base.{
  length, map, ◌≤◌, ◌<◌, ◌≡◌, ◌≢◌, ◌↔◌, ◌⊎◌, refl, true, false, none, [], ◌∷◌, pos, arith,
  ne_of_test,
}
use mathlib.Core.List.{Perm}
use obs_dsk_multistream.Order.{reorder_values_by_stable_ids}
use obs_dsk_multistream.Order.Laws.{reorder_values_by_stable_ids-Perm}
use obs_dsk_multistream.Layout.Scenes.{has_scene}
use obs_dsk_multistream.Layout.Active.{
  IsActive, edit_scenes, move_scene, create_scene, remove_scene, edit_scenes-IsActive,
}
use obs_dsk_multistream.Target.{TargetState, dsk_vertical, youtube_oauth, linked_scene}
use obs_dsk_multistream.Target.Names.{
  encoder_group_to_string, encoder_group_from_string, target_auth_mode_to_string,
  target_auth_mode_from_string, target_scene_mode_to_string, target_scene_mode_from_string,
  encoder_group_from_string-to_string, target_auth_mode_from_string-to_string,
  target_scene_mode_from_string-to_string,
}
use obs_dsk_multistream.Target.Validation.{validate_output_target_config}
use obs_dsk_multistream.Target.Validation.Accepted.{IsStartable, validate_output_target_config_iff}
use obs_dsk_multistream.Runtime.{TransportState, PlatformLiveState, runtime_platform_is_warning}
use obs_dsk_multistream.Runtime.Labels.{runtime_status_label, runtime_status_detail}
use obs_dsk_multistream.Runtime.Labels.Laws.{
  runtime_status_label-live_iff, runtime_status_detail_given,
}
use obs_dsk_multistream.YouTube.Warning.{
  is_youtube_target, platform_state_for_youtube_api_warning_text,
}
use obs_dsk_multistream.YouTube.Response.{platform_http_error}
use obs_dsk_multistream.YouTube.Response.Laws.{platform_http_error-success_iff}
use obs_dsk_multistream.YouTube.Selection.{Broadcast, selected, select_youtube_broadcast}
use obs_dsk_multistream.YouTube.Selection.Laws.{fitting, select_youtube_broadcast-single_iff}
use obs_dsk_multistream.Manager.State.{
  Manager, schedule_release, obs_output_force_stop, session_for_target, find_target, lookup_session,
}
use obs_dsk_multistream.Manager.Encoders.{
  lookup_set, acquire_shared_encoders, release_shared_encoders, profile_for,
}
use obs_dsk_multistream.Manager.Encoders.Counting.{refs_of, IsTable}
use obs_dsk_multistream.Manager.Encoders.Accounting.{Returned, Accounts, release-Returned}
use obs_dsk_multistream.Manager.Removal.{finalize_target_removal}
use obs_dsk_multistream.Manager.Removal.Atomic.{
  finalize_target_removal-kept, finalize_target_removal-running,
}
use obs_dsk_multistream.Manager.Sessions.{release_index, release_all_sessions_now}
use obs_dsk_multistream.Manager.Sessions.Polling.{fire, fire-force_stop}
use obs_dsk_multistream.Manager.Sessions.Counting.{users}
use obs_dsk_multistream.Manager.Sessions.Invariant.{IsSound}
use obs_dsk_multistream.Manager.Sessions.Shutdown.{release_all_sessions_now_lem}
use obs_dsk_multistream.Manager.Collection.{prepare_for_scene_collection_change}
use obs_dsk_multistream.Manager.Collection.Ended.{
  independent, prepare_for_scene_collection_change-ended,
}
use obs_dsk_multistream.Manager.Stop.{
  suppress_next_auto_start, suppress_next_auto_stop, clear_auto_start_suppression,
  clear_auto_stop_suppression, handle_obs_streaming_started, handle_obs_streaming_stopped,
}
use obs_dsk_multistream.Manager.Stop.Suppression.{suppressed_once}
use obs_dsk_multistream.Manager.Targets.{mutate_target_for_ui}
use obs_dsk_multistream.Manager.Targets.Edits.{
  mutate_target_for_ui-undone, mutate_target_for_ui-running,
}
use obs_dsk_multistream.Manager.Broadcast.{poll_due, maybe_start_youtube_broadcast}
use obs_dsk_multistream.Manager.Broadcast.Retry.{schedule_youtube_request_retry}
use obs_dsk_multistream.Manager.Broadcast.Retry.Bounds.{
  IsRetried, schedule_youtube_request_retry-IsRetried, schedule_youtube_request_retry-accepts,
}
use obs_dsk_multistream.Manager.Signals.{disconnected, handle_output_signal, handle_output_stopped}
use obs_dsk_multistream.Manager.Signals.Invariant.{given_up-ignored}
use obs_dsk_multistream.Manager.Machine.{
  Run, begun, then_performed, perform, start_target_op, stop_target_op, run-IsSound,
}
use obs_dsk_multistream.Samples.{
  plain_qt, granting, channel, resting, running_session, asking_session, running, asking,
  unavailable_answer, unauthorized_answer, live_status, show, rehearsal, sending, streams,
  two_scenes,
}

-- The channel was started and asked to stop.
abbrev stopping : Manager
stopping = perform granting (stop_target_op "a") (perform granting (start_target_op "a") resting)

abbrev start_and_stop : Run resting stopping
start_and_stop =
    then_performed (then_performed begun granting (start_target_op "a")) granting
      (stop_target_op "a")

run-IsSound_example : IsSound stopping.core
run-IsSound_example = run-IsSound resting stopping refl refl start_and_stop

encoders-IsTable : IsTable running.shared_encoders
unfolding lookup_set
encoders-IsTable = record {
  used = ((omega arith, ne_of_test "k" "" refl), tt);
  distinct = (refl, tt);
}

running-IsSound : IsSound running.core
unfolding refs_of users lookup_session
running-IsSound = record {
  table = encoders-IsTable;
  counted = λ k n. ground arith;
  single = (refl, tt);
  outputs = (refl, tt);
}

-- The running target is vertical.
abbrev vertical : Manager
vertical = record running { targets = record channel { encoder_group = dsk_vertical } ∷ [] }

prepare_for_scene_collection_change-ended_example :
    ((prepare_for_scene_collection_change granting vertical).sessions
      ≡ independent vertical vertical.sessions)
    × IsSound (prepare_for_scene_collection_change granting vertical).core
prepare_for_scene_collection_change-ended_example =
    prepare_for_scene_collection_change-ended granting vertical running-IsSound refl

release_all_sessions_now_lem_example :
    ((release_all_sessions_now granting running).sessions ≡ [])
    × ((release_all_sessions_now granting running).shared_encoders ≡ [])
release_all_sessions_now_lem_example = release_all_sessions_now_lem granting running running-IsSound

fire-force_stop_example :
    (fire sending "a" 1 5 running).log
    ≡ schedule_release 1000 "a" 1 ∷ obs_output_force_stop 12 ∷ (fire sending "a" 1 4 running).log
unfolding release_index
fire-force_stop_example =
    fire-force_stop sending "a" 1 4 0 12 running_session running
      (record { found = refl; listed = refl; held = refl; active = refl; up = refl }) refl

release-Returned_example : Returned "k" running.core (release_shared_encoders "k" running).core
unfolding refs_of
release-Returned_example = release-Returned "k" running encoders-IsTable (λ n. omega arith)

validate_output_target_config_iff_example :
    (validate_output_target_config plain_qt channel true ≡ none) ↔ IsStartable plain_qt channel true
validate_output_target_config_iff_example = validate_output_target_config_iff plain_qt channel true

mutate_target_for_ui-undone_example :
    (mutate_target_for_ui granting "a" (λ t. record t { name = "New" }) running).0.targets
    ≡ running.targets
unfolding session_for_target lookup_session
mutate_target_for_ui-undone_example =
    mutate_target_for_ui-undone granting "a" (λ t. record t { name = "New" }) running
      (mutate_target_for_ui-running granting "a" (λ t. record t { name = "New" }) running refl)

finalize_target_removal-kept_example :
    (finalize_target_removal granting "a" false running).0.targets ≡ running.targets
unfolding session_for_target lookup_session
finalize_target_removal-kept_example =
    finalize_target_removal-kept granting "a" false running
      (finalize_target_removal-running granting "a" false running refl)

schedule_youtube_request_retry-IsRetried_example :
    IsRetried "a" 1 4 0 asking_session
      (schedule_youtube_request_retry granting "a" 1 4 0 unauthorized_answer "token refresh"
        asking).0
unfolding session_for_target lookup_session find_target
schedule_youtube_request_retry-IsRetried_example =
    schedule_youtube_request_retry-IsRetried granting "a" 1 4 0 unauthorized_answer "token refresh"
      asking asking_session refl
      (schedule_youtube_request_retry-accepts granting "a" 1 4 0 unauthorized_answer "token refresh"
        asking (record channel { state = TargetState.live }) asking_session refl refl refl
        (omega arith) refl)

given_up-ignored_example :
    (handle_output_signal granting 12 2 "start" (pos 0) running ≡ running)
    × (handle_output_stopped granting 12 2 disconnected "" running ≡ running)
given_up-ignored_example =
    given_up-ignored granting 12 2 "start" "" (pos 0) disconnected running (refl, tt)

suppressed_once_example :
    (handle_obs_streaming_started granting (suppress_next_auto_start granting resting)
      ≡ clear_auto_start_suppression granting resting)
    × (handle_obs_streaming_stopped granting (suppress_next_auto_stop granting resting)
        ≡ clear_auto_stop_suppression granting resting)
suppressed_once_example = suppressed_once granting granting resting

platform_http_error-success_iff_example : (platform_http_error plain_qt unavailable_answer ≡ "") ↔ (
    (unavailable_answer.transport_error ≡ "")
    × (200 ≤ unavailable_answer.status_code)
    × (unavailable_answer.status_code < 300))
platform_http_error-success_iff_example =
    platform_http_error-success_iff plain_qt unavailable_answer

select_youtube_broadcast-single_iff_example :
    ((select_youtube_broadcast plain_qt (rehearsal ∷ show ∷ []) streams "key" "").state ≡ selected)
    ↔ (length (fitting streams "key" (rehearsal ∷ show ∷ [])) ≡ 1)
select_youtube_broadcast-single_iff_example =
    select_youtube_broadcast-single_iff plain_qt (rehearsal ∷ show ∷ []) streams "key" "" refl

reorder_values_by_stable_ids-Perm_example :
    Perm (rehearsal ∷ show ∷ []) (show ∷ rehearsal ∷ [])
    × (map (λ b. b.id) (show ∷ rehearsal ∷ []) ≡ ("show" ∷ "rehearsal" ∷ []))
unfolding reorder_values_by_stable_ids
reorder_values_by_stable_ids-Perm_example =
    reorder_values_by_stable_ids-Perm (λ (b : Broadcast). b.id) (rehearsal ∷ show ∷ [])
      ("show" ∷ "rehearsal" ∷ []) (show ∷ rehearsal ∷ []) refl

edit_scenes-IsActive_example : IsActive (
    edit_scenes plain_qt
      (move_scene "talk" (pos 1)
        ∷ create_scene "new" "Talk" "12345678"
        ∷ remove_scene "new"
        ∷ remove_scene "talk"
        ∷ [])
      two_scenes)
unfolding has_scene
edit_scenes-IsActive_example =
    edit_scenes-IsActive plain_qt
      (move_scene "talk" (pos 1)
        ∷ create_scene "new" "Talk" "12345678"
        ∷ remove_scene "new"
        ∷ remove_scene "talk"
        ∷ [])
      two_scenes refl

runtime_status_label-live_iff_example :
    (runtime_status_label plain_qt channel live_status ≡ "YouTube Live") ↔ (
      (is_youtube_target plain_qt channel ≡ true)
      × (live_status.platform ≡ PlatformLiveState.live)
      × ((live_status.transport ≡ TransportState.connected)
          ⊎ (live_status.transport ≡ TransportState.active)))
runtime_status_label-live_iff_example = runtime_status_label-live_iff plain_qt channel live_status

runtime_status_detail_given_example : runtime_status_detail plain_qt channel live_status ≢ ""
runtime_status_detail_given_example = runtime_status_detail_given plain_qt channel live_status
