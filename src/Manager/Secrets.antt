-- ===== src/Manager/Secrets.antt =====
-- core/output-manager.cpp: hydrateTargetSecrets, which reads a target's saved secrets before a
-- start, and validateTarget.
use obs_dsk_multistream.Base.{
  String, ◌<>◌, Bool, true, false, not, ◌&&◌, none, some, if◌then◌else◌, is_empty,
}
use obs_dsk_multistream.Target.{OutputTarget, is_youtube_oauth}
use obs_dsk_multistream.Target.Validation.{validate_output_target_config}
use obs_dsk_multistream.Manager.State.{Env, Manager, SecretRead, set_target_error, update_target}
use obs_dsk_multistream.Manager.Save.{is_owned_credential_ref}

-- The target with the secrets read so far, and the error that ended the reading.
pub data Hydration : Type 0 where
  hydrated : OutputTarget → Hydration
  refused : OutputTarget → String → Hydration

module _ (env : Env) where
  open env use {qt, trimmed, read_secret}

  read_owned : OutputTarget → String → String → String → (String → OutputTarget) → Hydration
  read_owned target ref outside unreadable store =
      if not (is_owned_credential_ref env ref)
      then refused target outside
      else elim (read_secret ref) [
        | SecretRead.found secret ↦ hydrated (store secret)
        | SecretRead.failed error ↦ refused target (unreadable <> error)
      ]

  -- A secret is read if it is not in memory and a reference to it is known.
  needs : String → String → Bool
  needs secret ref = is_empty (trimmed secret) && not (is_empty (trimmed ref))

  hydrate_stream_key : OutputTarget → Hydration
  hydrate_stream_key target =
      if needs target.stream_key target.auth_credential_ref
      then read_owned target target.auth_credential_ref
          "Saved stream key reference is outside the DSK credential namespace."
          "Failed to read saved stream key: " (λ secret. record target { stream_key = secret })
      else hydrated target

  hydrate_client_secret : OutputTarget → Hydration
  hydrate_client_secret target =
      if is_youtube_oauth target.auth_mode
        && needs target.oauth_client_secret target.oauth_client_secret_ref
      then read_owned target target.oauth_client_secret_ref
          "Saved OAuth client secret reference is outside the DSK credential namespace."
          "Failed to read saved OAuth client secret: "
          (λ secret. record target { oauth_client_secret = secret })
      else hydrated target

  hydrate_refresh_token : OutputTarget → Hydration
  hydrate_refresh_token target =
      if is_youtube_oauth target.auth_mode
        && needs target.oauth_refresh_token target.oauth_refresh_token_ref
      then read_owned target target.oauth_refresh_token_ref
          "Saved OAuth refresh token reference is outside the DSK credential namespace."
          "Failed to read saved OAuth refresh token: "
          (λ secret. record target { oauth_refresh_token = secret })
      else hydrated target

  infixl 5 ◌>>=◌
  abbrev ◌>>=◌ : Hydration → (OutputTarget → Hydration) → Hydration
  ◌>>=◌ (hydrated t) f = f t
  ◌>>=◌ (refused t e) f = refused t e

  pub hydrate : OutputTarget → Hydration
  hydrate target = do
    keyed ← hydrate_stream_key target
    secret ← hydrate_client_secret keyed
    hydrate_refresh_token secret

  -- `hydrateTargetSecrets` on the listed target: the secrets are written to it as they are read.
  unfoldable pub hydrate_target_secrets : OutputTarget → Manager → Manager × Bool
  hydrate_target_secrets target m = elim (hydrate target) [
    | hydrated t ↦ (update_target target.id (λ _. t) m, true)
    | refused t error ↦ (set_target_error env t error (update_target target.id (λ _. t) m), false)
  ]

  unfoldable pub validate_target : OutputTarget → Manager → Manager × Bool
  validate_target target m = elim (validate_output_target_config qt target false) [
    | none ↦ (m, true)
    | some error ↦ (set_target_error env target error m, false)
  ]
