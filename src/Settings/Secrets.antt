-- ===== src/Settings/Secrets.antt =====
-- core/settings-store.cpp: applySecretWrites and rollbackSecretWrites, which write the secrets of a
-- save to the credential store and take them back when the save fails; core/secret-store.cpp: the
-- operations of that store, over the Windows one.
pub mod Laws
use obs_dsk_multistream.Base.{
  ℕ, String, ◌<>◌, ◌≡◌, Bool, true, false, not, ◌&&◌, ◌==◌, Option, none, some, List, [], ◌∷◌, ◌++◌,
  if◌then◌else◌, is_empty, get_or_else, Qt,
}
use obs_dsk_multistream.Settings.Saved.{SecretWrite}

-- SecretReadResult, with what the out parameters hold.
pub data SecretReadResult : Type 0 where
  found : String → SecretReadResult
  not_found : SecretReadResult
  unreadable : String → SecretReadResult

-- The Windows credential store: CredReadW, CredWriteW and CredDeleteW, each with the text of its
-- error. As documented, a call that fails changes nothing, and one that succeeds changes one entry.
pub record CredentialStore : Type 0 where
  pub entries : String → Option String
  pub read_error : String → Option String
  pub write_error : String → String → Option String
  pub delete_error : String → Option String

abbrev pub with_entry : String → Option String → CredentialStore → CredentialStore
with_entry ref secret k = record k {
  entries = λ other. if other == ref then secret else k.entries other;
}

-- PendingSecretWrite of a write that was applied: the reference and the secret before it.
pub record AppliedWrite : Type 0 where
  pub credential_ref : String
  pub previous_secret : Option String

-- One turn of the loop: the write failed, was not needed, or was made over the previous secret.
pub data Attempt : Type 0 where
  failed : String → Attempt
  unneeded : Attempt
  written : Option String → Attempt

pub data Application : Type 0 where
  applied : CredentialStore → List AppliedWrite → Application
  rejected : CredentialStore → String → Application

module _ (qt : Qt) where
  open qt use {trimmed}

  unfoldable pub read_secret_result : String → CredentialStore → SecretReadResult
  read_secret_result ref k =
      if is_empty (trimmed ref)
      then unreadable "Credential reference is empty."
      else elim (k.read_error ref) [
        | some error ↦ unreadable error
        | none ↦ elim (k.entries ref) [ none ↦ not_found | some secret ↦ found secret ]
      ]

  -- The store afterwards, and the error if there is one.
  unfoldable pub write_secret : String → String → CredentialStore → CredentialStore × Option String
  write_secret ref secret k =
      if is_empty (trimmed ref)
      then (k, some "Credential reference is empty.")
      else elim (k.write_error ref secret) [
        | some error ↦ (k, some error)
        | none ↦ (with_entry ref (some secret) k, none)
      ]

  unfoldable pub delete_secret : String → CredentialStore → CredentialStore × Option String
  delete_secret ref k = if is_empty (trimmed ref) then (k, none) else elim (k.delete_error ref) [
    | some error ↦ (k, some error)
    | none ↦ (with_entry ref none k, none)
  ]

  undo : String → Option String → CredentialStore → CredentialStore
  undo ref (some secret) k = (write_secret ref secret k).0
  undo ref none k = (delete_secret ref k).0

  -- The applied writes, the latest first.
  unfoldable pub rollback_secret_writes : List AppliedWrite → CredentialStore → CredentialStore
  unfolding undo
  rollback_secret_writes [] k = k
  rollback_secret_writes (w ∷ ws) k =
      rollback_secret_writes ws (undo w.credential_ref w.previous_secret k)

  write_over : SecretWrite → Option String → CredentialStore → Attempt
  write_over w previous k = elim (write_secret w.credential_ref w.secret k).1 [
    | some error ↦ failed error
    | none ↦ written previous
  ]

  attempt : SecretWrite → CredentialStore → Attempt
  attempt w k = elim (read_secret_result w.credential_ref k) [
    | unreadable error ↦ failed ("Could not read the existing credential before update: " <> error)
    | not_found ↦ write_over w none k
    | found secret ↦ if secret == w.secret then unneeded else write_over w (some secret) k
  ]

  -- `done` holds what has been applied so far, the latest first.
  apply_from : List SecretWrite → List AppliedWrite → CredentialStore → Application
  apply_from [] done k = applied k done
  apply_from (w ∷ ws) done k = elim (attempt w k) [
    | failed error ↦ rejected (rollback_secret_writes done k) error
    | unneeded ↦ apply_from ws done k
    | written previous ↦
        apply_from ws
          (record { credential_ref = w.credential_ref; previous_secret = previous } ∷ done)
          (write_secret w.credential_ref w.secret k).0
  ]

  unfoldable pub apply_secret_writes : List SecretWrite → CredentialStore → Application
  unfolding apply_from attempt write_over
  apply_secret_writes ws k = apply_from ws [] k
