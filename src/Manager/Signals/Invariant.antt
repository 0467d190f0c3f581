-- ===== src/Manager/Signals/Invariant.antt =====
-- The reports of OBS about an output against the invariant of the sessions (handleOutputSignal and
-- handleOutputStopped of core/output-manager.cpp).
use obs_dsk_multistream.Manager.Operation.Invariant.{SoundState}
use obs_dsk_multistream.Base.{
  ℕ, String, ◌≡◌, refl, ◌∙◌, false, ◌&&◌, none, List, [], ◌∷◌, ℤ, eqb, is_empty, if_cases,
  Option-cases, inl, inr, ◌==◌, All,
}
use obs_dsk_multistream.Target.{OutputTarget}
use obs_dsk_multistream.YouTube.Warning.{is_youtube_target}
use obs_dsk_multistream.Manager.State.{
  Session, Env, Manager, find_target, update_target, runtime_status_for_target,
  update_runtime_stats, with_runtime_status,
}
use obs_dsk_multistream.Manager.Frame.{
  set_runtime_platform-core, set_runtime_transport-core, persistent_targets_changed-core,
  persistent_status_message-core, reset_runtime_status-core,
}
use obs_dsk_multistream.Manager.Sessions.Invariant.{
  IsSound, same-IsSound, release_session_at-IsSound,
}
use obs_dsk_multistream.Manager.Sessions.Writes.{update_session-IsSound}
use obs_dsk_multistream.Manager.Broadcast.Invariant.{maybe_start-IsSound}
use obs_dsk_multistream.Manager.Signals.{
  should_ignore_output_signal_during_pending_release, is_output, matched_session, is_unchecked,
  in_state, note_connected, check_youtube, signal_active, drop_operation, apply_signal,
  handle_output_signal, StopCode, is_success, stopped_well, stopped_badly, report_stop,
  handle_output_stopped,
}

module _ (env : Env) where
  note_connected-core :
      (target : OutputTarget) (serial : ℕ) (m : Manager)
      → (note_connected env target serial m).core ≡ m.core
  unfolding note_connected
  note_connected-core target serial m =
      if_cases (λ (m' : Manager). m'.core ≡ m.core)
        (is_youtube_target env.qt target
          && is_unchecked (runtime_status_for_target m target.id).platform)
        (set_runtime_platform-core env target.id serial _ _ _ m) refl

  check_youtube-IsSound :
      (target : OutputTarget) (serial : ℕ) (m : Manager)
      → IsSound m.core
      → IsSound (check_youtube env target serial m).core
  unfolding check_youtube
  check_youtube-IsSound target serial m v =
      if_cases SoundState (is_youtube_target env.qt target)
        (maybe_start-IsSound env target.id serial 0 m v) v

  signal_active-IsSound :
      (id : String) (m : Manager) → IsSound m.core → IsSound (signal_active env id m).core
  unfolding signal_active
  signal_active-IsSound id m v =
      update_session-IsSound id (λ s. record s { youtube_signal_active_at_ms = env.now })
        (λ s. record { target_kept = refl; key_kept = refl; output_kept = refl }) m v

  drop_operation-IsSound :
      (target : OutputTarget) (s : Session) (m : Manager)
      → IsSound m.core
      → IsSound (drop_operation env target s m).core
  unfolding drop_operation
  drop_operation-IsSound target s m v =
      if_cases SoundState (is_youtube_target env.qt target)
        (update_session-IsSound target.id _
          (λ t. record { target_kept = refl; key_kept = refl; output_kept = refl }) m v)
        v

  apply_signal-IsSound :
      (signal_name : String) (delay : ℤ) (target : OutputTarget) (s : Session) (m : Manager)
      → IsSound m.core
      → IsSound (apply_signal env signal_name delay target s m).core
  unfolding apply_signal in_state update_target update_runtime_stats with_runtime_status
  apply_signal-IsSound signal_name delay target s m v =
      if_cases SoundState (signal_name == "starting")
        (same-IsSound _ _ (set_runtime_transport-core env _ _ _ _ _ _) v)
        (if_cases SoundState (signal_name == "start")
          (check_youtube-IsSound target s.serial _ (
            same-IsSound _ _ (note_connected-core target s.serial _) (
              same-IsSound _ _ (set_runtime_transport-core env _ _ _ _ _ _)
                (signal_active-IsSound target.id _ v))))
          (if_cases SoundState (signal_name == "activate")
            (same-IsSound _ _ (note_connected-core target s.serial _)
              (same-IsSound _ _ (set_runtime_transport-core env _ _ _ _ _ _) v))
            (if_cases SoundState (signal_name == "reconnect")
              (same-IsSound _ _ (set_runtime_transport-core env _ _ _ _ _ _)
                (drop_operation-IsSound target s _ v))
              (if_cases SoundState (signal_name == "reconnect_success")
                (check_youtube-IsSound target s.serial _ (
                  same-IsSound _ _ (set_runtime_transport-core env _ _ _ _ _ _)
                    (signal_active-IsSound target.id _ v)))
                (if_cases SoundState (signal_name == "stopping")
                  (same-IsSound _ _ (set_runtime_transport-core env _ _ _ _ _ _) v)
                  (if_cases SoundState (signal_name == "deactivate") v v))))))

  pub handle_output_signal-IsSound :
      (output expected : ℕ) (signal_name : String) (delay : ℤ) (m : Manager)
      → IsSound m.core
      → IsSound (handle_output_signal env output expected signal_name delay m).core
  unfolding handle_output_signal
  handle_output_signal-IsSound output expected signal_name delay m v =
      if_cases SoundState (eqb expected 0) v
        (elim (Option-cases (matched_session output expected m.sessions)) [
          | inl missing ↦ rw (missing, handle_output_signal) v
          | inr (p, matched) ↦
              rw (matched, handle_output_signal)
                (elim (Option-cases (find_target m p.1.target_id)) [
                  | inl gone ↦ rw (gone, handle_output_signal) v
                  | inr (target, found) ↦
                      rw (found, handle_output_signal)
                        (if_cases SoundState
                          (p.1.pending_release
                            && should_ignore_output_signal_during_pending_release signal_name)
                          v
                          (same-IsSound _ _ (persistent_targets_changed-core target.id _)
                            (apply_signal-IsSound signal_name delay target p.1 m v)))
                ])
        ])

  report_stop-core :
      (code : StopCode) (last_error : String) (s : Session) (m : Manager)
      → (report_stop env code last_error s m).core ≡ m.core
  unfolding report_stop stopped_well stopped_badly update_target
  report_stop-core code last_error s m = elim (Option-cases (find_target m s.target_id)) [
    | inl gone ↦ rw (gone, report_stop) refl
    | inr (target, found) ↦
        rw (found, report_stop)
          (if_cases (λ (m' : Manager). m'.core ≡ m.core) (is_success code)
            (persistent_status_message-core target.id _ _
              ∙ reset_runtime_status-core env target.id _)
            (persistent_status_message-core target.id _ _
              ∙ (set_runtime_platform-core env target.id _ _ _ _ _
                  ∙ set_runtime_transport-core env target.id _ _ _ _ _)))
  ]

  pub handle_output_stopped-IsSound :
      (output expected : ℕ) (code : StopCode) (last_error : String) (m : Manager)
      → IsSound m.core
      → IsSound (handle_output_stopped env output expected code last_error m).core
  unfolding handle_output_stopped
  handle_output_stopped-IsSound output expected code last_error m v =
      if_cases SoundState (eqb expected 0) v
        (elim (Option-cases (matched_session output expected m.sessions)) [
          | inl missing ↦ rw (missing, handle_output_stopped) v
          | inr (p, matched) ↦
              rw (matched, handle_output_stopped)
                (if_cases SoundState (is_empty p.1.target_id) v (
                  same-IsSound _ _ (persistent_targets_changed-core p.1.target_id _) (
                    release_session_at-IsSound env p.0 false _
                      (same-IsSound _ _ (report_stop-core code last_error p.1 m) v))))
        ])

-- No session of the list has both the output and the serial.
abbrev IsGivenUp : ℕ → ℕ → List Session → Type 0
IsGivenUp output serial = All (λ s. (is_output s.output output && eqb s.serial serial) ≡ false)

given_up-unmatched :
    (output serial : ℕ) (ss : List Session)
    → IsGivenUp output serial ss
    → matched_session output serial ss ≡ none
unfolding matched_session
given_up-unmatched output serial [] h = refl
given_up-unmatched output serial (s ∷ ss) h =
    rw h.0 (rw (given_up-unmatched output serial ss h.1) refl)

-- A signal and a stop report are ignored when they come from an output that the manager gave up:
-- no session has that output together with the session serial under which it was created.
pub given_up-ignored :
    (env : Env) (output serial : ℕ) (signal_name last_error : String) (delay : ℤ) (code : StopCode)
    (m : Manager)
    → IsGivenUp output serial m.sessions
    → (handle_output_signal env output serial signal_name delay m ≡ m)
      × (handle_output_stopped env output serial code last_error m ≡ m)
unfolding handle_output_signal handle_output_stopped
given_up-ignored env output serial signal_name last_error delay code m h =
    let unmatched : matched_session output serial m.sessions ≡ none =
      given_up-unmatched output serial m.sessions h in
    (
      rw (unmatched, handle_output_signal)
          (if_cases (λ (m' : Manager). m' ≡ m) (eqb serial 0) refl refl),
      rw (unmatched, handle_output_stopped)
          (if_cases (λ (m' : Manager). m' ≡ m) (eqb serial 0) refl refl),
    )
