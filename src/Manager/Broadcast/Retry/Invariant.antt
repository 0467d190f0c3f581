-- ===== src/Manager/Broadcast/Retry/Invariant.antt =====
-- Retries, waiting operations and the choice of a broadcast against the invariant of the sessions
-- (core/output-manager.cpp).
use obs_dsk_multistream.Manager.Operation.{can_continue_platform_start}
use obs_dsk_multistream.Manager.Operation.Invariant.{SoundState}
use obs_dsk_multistream.Base.{
  ℕ, String, refl, not, ◌||◌, eqb, is_empty, if_cases, Option-cases, inl, inr,
}
use obs_dsk_multistream.Target.{OutputTarget}
use obs_dsk_multistream.Manager.State.{
  Session, Env, Manager, find_target, session_for_target, session_matches,
  runtime_status_for_target, with_runtime_status,
}
use obs_dsk_multistream.Manager.Frame.{set_runtime_platform-core, clear_target_api_warning-core}
use obs_dsk_multistream.Manager.Sessions.Invariant.{IsSound, same-IsSound}
use obs_dsk_multistream.Manager.Sessions.Writes.{update_session-IsSound}
use obs_dsk_multistream.Manager.Broadcast.Invariant.{maybe_start-IsSound}
use obs_dsk_multistream.Manager.Broadcast.Retry.{
  choose_broadcast, apply_youtube_broadcast_selection,
}

module _ (env : Env) where
  choose_broadcast-IsSound :
      (id : String) (target : OutputTarget) (s : Session) (serial : ℕ) (broadcast_id : String)
      (m : Manager)
      → IsSound m.core
      → IsSound (choose_broadcast env id target s serial broadcast_id m).core
  unfolding choose_broadcast with_runtime_status
  choose_broadcast-IsSound id target s serial broadcast_id m v =
      maybe_start-IsSound env id serial 0 _ (
        same-IsSound _ _ (set_runtime_platform-core env id serial _ _ _ _) (
          same-IsSound _ _ (clear_target_api_warning-core env id _) (
            update_session-IsSound id _
              (λ t. record { target_kept = refl; key_kept = refl; output_kept = refl })
              (with_runtime_status id (λ r. record r { broadcast_id = broadcast_id }) m) v)))

  pub apply_selection-IsSound :
      (id : String) (serial generation : ℕ) (broadcast_id : String) (m : Manager)
      → IsSound m.core
      → IsSound (apply_youtube_broadcast_selection env id serial generation broadcast_id m).core
  unfolding apply_youtube_broadcast_selection
  apply_selection-IsSound id serial generation broadcast_id m v =
      elim (Option-cases (find_target m id)) [
        | inl gone ↦ rw (gone, apply_youtube_broadcast_selection) v
        | inr (target, found) ↦
            rw (found, apply_youtube_broadcast_selection)
              (if_cases SoundState
                (is_empty (env.trimmed broadcast_id)
                  || not (session_matches m id serial)
                  || not (can_continue_platform_start target (runtime_status_for_target m id)))
                v
                (elim (Option-cases (session_for_target m id)) [
                  | inl missing ↦ rw (missing, apply_youtube_broadcast_selection) v
                  | inr (s, held) ↦
                      rw (held, apply_youtube_broadcast_selection)
                        (if_cases SoundState
                          (not (eqb s.serial serial)
                            || s.youtube_operation_in_flight
                            || not (eqb s.youtube_operation_generation generation))
                          v
                          (choose_broadcast-IsSound id target s serial (env.trimmed broadcast_id) m
                            v))
                ]))
      ]
