-- ===== src/Manager/Frame.antt =====
-- Status updates, warnings and checks against the sessions and encoders (core/output-manager.cpp).
use obs_dsk_multistream.Base.{
  ℕ, String, ◌≡◌, refl, ◌∙◌, false, ◌==◌, ℤ, arith, not, if_cases, Option-cases, inl, inr,
}
use obs_dsk_multistream.Target.{OutputTarget}
use obs_dsk_multistream.Target.Validation.{validate_output_target_config}
use obs_dsk_multistream.YouTube.Warning.{is_youtube_api_warning_text}
use obs_dsk_multistream.Runtime.{TransportState, PlatformLiveState}
use obs_dsk_multistream.Manager.State.{
  Env, Manager, reset_runtime_status, set_runtime_transport, set_runtime_platform, set_target_error,
  update_target, with_runtime_status, update_runtime_stats, persistent_targets_changed,
  persistent_status_message, set_target_api_warning, clear_target_api_warning, set_warning,
  clear_warning, session_matches, find_target,
}
use obs_dsk_multistream.Manager.Secrets.{
  hydrate, hydrated, refused, hydrate_target_secrets, validate_target, Hydration,
}

pub persistent_targets_changed-core :
    (id : String) (m : Manager) → (persistent_targets_changed id m).core ≡ m.core
unfolding persistent_targets_changed
persistent_targets_changed-core id m = ground arith

pub persistent_status_message-core :
    (id message : String) (m : Manager) → (persistent_status_message id message m).core ≡ m.core
unfolding persistent_status_message
persistent_status_message-core id message m = ground arith

module _ (env : Env) where
  pub reset_runtime_status-core :
      (id : String) (m : Manager) → (reset_runtime_status env id m).core ≡ m.core
  unfolding reset_runtime_status with_runtime_status
  reset_runtime_status-core id m = refl

  pub set_runtime_transport-core :
      (id : String) (serial : ℕ) (state : TransportState) (message : String) (delay : ℤ)
      (m : Manager)
      → (set_runtime_transport env id serial state message delay m).core ≡ m.core
  unfolding set_runtime_transport update_runtime_stats with_runtime_status
  set_runtime_transport-core id serial state message delay m = ground arith

  pub set_runtime_platform-core :
      (id : String) (serial : ℕ) (state : PlatformLiveState) (message error : String) (m : Manager)
      → (set_runtime_platform env id serial state message error m).core ≡ m.core
  unfolding set_runtime_platform update_runtime_stats with_runtime_status
  set_runtime_platform-core id serial state message error m = ground arith

  pub set_target_error-core :
      (target : OutputTarget) (message : String) (m : Manager)
      → (set_target_error env target message m).core ≡ m.core
  unfolding set_target_error persistent_status_message with_runtime_status update_target
  set_target_error-core target message m = ground arith

  pub hydrate_target_secrets-core :
      (target : OutputTarget) (m : Manager) → (hydrate_target_secrets env target m).0.core ≡ m.core
  unfolding hydrate_target_secrets update_target
  hydrate_target_secrets-core target m = go (hydrate env target) refl
    where
      go :
          (h : Hydration)
          → hydrate env target ≡ h
          → (hydrate_target_secrets env target m).0.core ≡ m.core
      go (hydrated t) e = rw (e, hydrate_target_secrets)
      go (refused t error) e = rw (e, hydrate_target_secrets) (set_target_error-core t error _)

  pub validate_target-core :
      (target : OutputTarget) (m : Manager) → (validate_target env target m).0.core ≡ m.core
  unfolding validate_target
  validate_target-core target m =
      elim (Option-cases (validate_output_target_config env.qt target false)) [
        | inl e ↦ rw (e, validate_target)
        | inr (error, e) ↦ rw (e, validate_target) (set_target_error-core target error m)
      ]

  set_warning-core :
      (target : OutputTarget) (message : String) (serial : ℕ) (m : Manager)
      → (set_warning env target message serial m).core ≡ m.core
  unfolding set_warning update_target
  set_warning-core target message serial m =
      let told_core : (text : String) (m' : Manager)
          → m'.core ≡ m.core
          → (persistent_status_message target.id text m').core ≡ m.core =
        λ text m' e. persistent_status_message-core target.id text m' ∙ e in
      if_cases (λ (m' : Manager). m'.core ≡ m.core) (not (target.last_error == message))
        (persistent_targets_changed-core target.id _
          ∙ told_core _ _ (set_runtime_platform-core target.id serial _ _ _ _))
        (told_core _ _ (set_runtime_platform-core target.id serial _ _ _ _))

  pub set_target_api_warning-core :
      (id message : String) (serial : ℕ) (m : Manager)
      → (set_target_api_warning env id message serial m).core ≡ m.core
  unfolding set_target_api_warning
  set_target_api_warning-core id message serial m = elim (Option-cases (find_target m id)) [
    | inl missing ↦ rw (missing, set_target_api_warning) refl
    | inr (target, found) ↦
        rw (found, set_target_api_warning)
          (if_cases (λ (m' : Manager). m'.core ≡ m.core) (session_matches m id serial)
            (set_warning-core target message serial m) refl)
  ]

  clear_warning-core :
      (target : OutputTarget) (m : Manager) → (clear_warning env target m).core ≡ m.core
  unfolding clear_warning update_target
  clear_warning-core target m =
      persistent_targets_changed-core target.id _
      ∙ if_cases (λ (m' : Manager). m'.core ≡ m.core) _
          (set_runtime_platform-core target.id _ _ _ _ _) refl

  pub clear_target_api_warning-core :
      (id : String) (m : Manager) → (clear_target_api_warning env id m).core ≡ m.core
  unfolding clear_target_api_warning
  clear_target_api_warning-core id m = elim (Option-cases (find_target m id)) [
    | inl missing ↦ rw (missing, clear_target_api_warning) refl
    | inr (target, found) ↦
        rw (found, clear_target_api_warning)
          (if_cases (λ (m' : Manager). m'.core ≡ m.core)
            (is_youtube_api_warning_text target.last_error) (clear_warning-core target m) refl)
  ]
