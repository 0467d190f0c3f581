-- ===== src/Settings/Secrets/Laws.antt =====
-- core/settings-store.cpp: what applySecretWrites and rollbackSecretWrites leave in the store.
use obs_dsk_multistream.Base.{
  String, ◌≡◌, refl, ap, subst, ◌∙◌, ◌⊎◌, false, ◌==◌, Option, none, some, List, [], ◌∷◌,
  if◌then◌else◌, is_empty, Qt, inl, inr, eq_iff, arith, fun_ext,
}
use obs_dsk_multistream.Settings.Saved.{SecretWrite}
use obs_dsk_multistream.Settings.Secrets.{
  CredentialStore, with_entry, write_secret, delete_secret, read_secret_result, AppliedWrite, undo,
  rollback_secret_writes, Attempt, failed, unneeded, written, attempt, write_over, Application,
  applied, rejected, apply_from, apply_secret_writes,
}

-- The store as a map: every secret under its reference, the later ones over the earlier.
unfoldable pub updated : List SecretWrite → CredentialStore → CredentialStore
updated [] k = k
updated (w ∷ ws) k = updated ws (with_entry w.credential_ref (some w.secret) k)

entry_restored :
    (ref : String) (s : Option String) (f : String → Option String) (other : String)
    → f ref ≡ s
    → (if other == ref then s else f other) ≡ f other
entry_restored ref s f other h = ground (arith, eq_iff other ref)

pub with_entry_same :
    (ref : String) (s : Option String) (k : CredentialStore)
    → k.entries ref ≡ s
    → with_entry ref s k ≡ k
with_entry_same ref s k h =
    ap (λ (f : String → Option String). record k { entries = f })
      (fun_ext (λ other. entry_restored ref s k.entries other h))

entry_back :
    (ref : String) (s t : Option String) (f : String → Option String) (other : String)
    → f ref ≡ s
    → (if other == ref then s else (if other == ref then t else f other)) ≡ f other
entry_back ref s t f other h = ground (arith, eq_iff other ref)

-- Writing an entry and then what it was before gives the store back.
pub with_entry_back :
    (ref : String) (s t : Option String) (k : CredentialStore)
    → k.entries ref ≡ s
    → with_entry ref s (with_entry ref t k) ≡ k
with_entry_back ref s t k h =
    ap (λ (f : String → Option String). record k { entries = f })
      (fun_ext (λ other. entry_back ref s t k.entries other h))

-- What is in the store can be written there again, and what is not can be deleted.
pub record IsRestorable (k : CredentialStore) : Type 0 where
  pub rewritable : (ref s : String) → k.entries ref ≡ some s → k.write_error ref s ≡ none
  pub deletable : (ref : String) → k.delete_error ref ≡ none

-- A write that the store takes.
record Takes (qt : Qt) (w : SecretWrite) (previous : Option String) (k : CredentialStore)
    : Type 0 where
  named : is_empty (qt.trimmed w.credential_ref) ≡ false
  before : k.entries w.credential_ref ≡ previous
  accepted : k.write_error w.credential_ref w.secret ≡ none

Attempt-cases :
    (a : Attempt)
    → ((error : String) × (a ≡ failed error))
      ⊎ ((a ≡ unneeded) ⊎ ((previous : Option String) × (a ≡ written previous)))
Attempt-cases (failed error) = inl (error, refl)
Attempt-cases unneeded = inr (inl refl)
Attempt-cases (written previous) = inr (inr (previous, refl))

-- An application from this store: what was applied can be taken back, what failed was taken back.
abbrev pub IsReversible : Qt → CredentialStore → Application → Type 0
IsReversible qt base (applied k done) = rollback_secret_writes qt done k ≡ base
IsReversible qt base (rejected k error) = k ≡ base

-- An application that succeeds ends with this store.
abbrev pub IsUpdate : CredentialStore → Application → Type 0
IsUpdate target (applied k done) = k ≡ target
IsUpdate target (rejected k error) = Unit

module _ (qt : Qt) where
  open qt use {trimmed}

  attempt-written :
      (w : SecretWrite) (k : CredentialStore) (previous : Option String)
      → attempt qt w k ≡ written previous
      → Takes qt w previous k
  unfolding attempt write_over read_secret_result write_secret
  attempt-written w k previous h = ground arith

  attempt-unneeded :
      (w : SecretWrite) (k : CredentialStore)
      → attempt qt w k ≡ unneeded
      → k.entries w.credential_ref ≡ some w.secret
  unfolding attempt write_over read_secret_result write_secret
  attempt-unneeded w k h = grind (arith, eq_iff)

  write_secret-done :
      (ref s : String) (k : CredentialStore)
      → is_empty (trimmed ref) ≡ false
      → k.write_error ref s ≡ none
      → (write_secret qt ref s k).0 ≡ with_entry ref (some s) k
  unfolding write_secret
  write_secret-done ref s k n e = rw (n, e) refl

  delete_secret-done :
      (ref : String) (k : CredentialStore)
      → is_empty (trimmed ref) ≡ false
      → k.delete_error ref ≡ none
      → (delete_secret qt ref k).0 ≡ with_entry ref none k
  unfolding delete_secret
  delete_secret-done ref k n e = rw (n, e) refl

  write_secret-taken :
      (w : SecretWrite) (k : CredentialStore) (previous : Option String)
      → Takes qt w previous k
      → (write_secret qt w.credential_ref w.secret k).0
        ≡ with_entry w.credential_ref (some w.secret) k
  write_secret-taken w k previous h = write_secret-done _ _ k h.named h.accepted

  written-IsRestorable :
      (w : SecretWrite) (k : CredentialStore) (previous : Option String)
      → Takes qt w previous k
      → IsRestorable k
      → IsRestorable (with_entry w.credential_ref (some w.secret) k)
  written-IsRestorable w k previous h v = record {
    rewritable = λ ref s e. grind (arith, eq_iff, h.accepted, v.rewritable);
    deletable = v.deletable;
  }

  -- Undoing a write that was made gives the store before it.
  undo-written :
      (w : SecretWrite) (k : CredentialStore) (previous : Option String)
      → Takes qt w previous k
      → IsRestorable k
      → undo qt w.credential_ref previous (with_entry w.credential_ref (some w.secret) k) ≡ k
  unfolding undo write_secret delete_secret
  undo-written w k none h v =
      delete_secret-done w.credential_ref _ h.named (v.deletable w.credential_ref)
      ∙ with_entry_back w.credential_ref none (some w.secret) k h.before
  undo-written w k (some s) h v =
      write_secret-done w.credential_ref s _ h.named (v.rewritable w.credential_ref s h.before)
      ∙ with_entry_back w.credential_ref (some s) (some w.secret) k h.before

  apply_from-failed :
      (w : SecretWrite) (ws : List SecretWrite) (done : List AppliedWrite) (k : CredentialStore)
      (error : String)
      → attempt qt w k ≡ failed error
      → rejected (rollback_secret_writes qt done k) error ≡ apply_from qt (w ∷ ws) done k
  unfolding apply_from
  apply_from-failed w ws done k error e = rw (e, apply_from) refl

  apply_from-unneeded :
      (w : SecretWrite) (ws : List SecretWrite) (done : List AppliedWrite) (k : CredentialStore)
      → attempt qt w k ≡ unneeded
      → apply_from qt ws done k ≡ apply_from qt (w ∷ ws) done k
  unfolding apply_from
  apply_from-unneeded w ws done k e = rw (e, apply_from) refl

  apply_from-written :
      (w : SecretWrite) (ws : List SecretWrite) (done : List AppliedWrite) (k : CredentialStore)
      (previous : Option String)
      → attempt qt w k ≡ written previous
      → apply_from qt ws
          (record { credential_ref = w.credential_ref; previous_secret = previous } ∷ done)
          (with_entry w.credential_ref (some w.secret) k)
        ≡ apply_from qt (w ∷ ws) done k
  unfolding apply_from
  apply_from-written w ws done k previous e =
      rw (e, apply_from, write_secret-taken w k previous (attempt-written w k previous e)) refl

  -- What the rollback of the writes done so far would give is the store at the start.
  apply_from-IsReversible :
      (ws : List SecretWrite) (done : List AppliedWrite) (base k : CredentialStore)
      → rollback_secret_writes qt done k ≡ base
      → IsRestorable k
      → IsReversible qt base (apply_from qt ws done k)
  unfolding apply_from rollback_secret_writes
  apply_from-IsReversible [] done base k h v = h
  apply_from-IsReversible (w ∷ ws) done base k h v = elim (Attempt-cases (attempt qt w k)) [
    | inl (error, e) ↦ subst (IsReversible qt base) (apply_from-failed w ws done k error e) h
    | inr (inl e) ↦
        subst (IsReversible qt base) (apply_from-unneeded w ws done k e)
          (apply_from-IsReversible ws done base k h v)
    | inr (inr (previous, e)) ↦
        let t = attempt-written w k previous e in
        subst (IsReversible qt base) (apply_from-written w ws done k previous e) (
          apply_from-IsReversible ws _ base _ (rw (undo-written w k previous t v) h)
            (written-IsRestorable w k previous t v))
  ]

  -- A failed application leaves the store as it was, and the rollback of a successful one gives
  -- that store back, also when one reference is written twice.
  pub apply_secret_writes-IsReversible :
      (ws : List SecretWrite) (k : CredentialStore)
      → IsRestorable k
      → IsReversible qt k (apply_secret_writes qt ws k)
  unfolding apply_secret_writes rollback_secret_writes
  apply_secret_writes-IsReversible ws k v = apply_from-IsReversible ws [] k k refl v

  apply_from-IsUpdate :
      (ws : List SecretWrite) (done : List AppliedWrite) (k : CredentialStore)
      → IsUpdate (updated ws k) (apply_from qt ws done k)
  unfolding apply_from updated
  apply_from-IsUpdate [] done k = refl
  apply_from-IsUpdate (w ∷ ws) done k = elim (Attempt-cases (attempt qt w k)) [
    | inl (error, e) ↦ subst (IsUpdate _) (apply_from-failed w ws done k error e) tt
    | inr (inl e) ↦ subst (IsUpdate _) (apply_from-unneeded w ws done k e) (
        rw (with_entry_same w.credential_ref (some w.secret) k (attempt-unneeded w k e))
          (apply_from-IsUpdate ws done k))
    | inr (inr (previous, e)) ↦
        subst (IsUpdate _) (apply_from-written w ws done k previous e) (apply_from-IsUpdate ws _ _)
  ]

  -- A successful application is the update of a map by the secrets in their order: unneeded writes
  -- are left out without a difference.
  pub apply_secret_writes-IsUpdate :
      (ws : List SecretWrite) (k : CredentialStore)
      → IsUpdate (updated ws k) (apply_secret_writes qt ws k)
  unfolding apply_secret_writes
  apply_secret_writes-IsUpdate ws k = apply_from-IsUpdate ws [] k
