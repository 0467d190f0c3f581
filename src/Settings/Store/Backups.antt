-- ===== src/Settings/Store/Backups.antt =====
-- core/settings-store.cpp: the loop of quarantineInvalidSettings that looks for a path to which an
-- invalid settings file can be moved.
use obs_dsk_multistream.Base.{
  ℕ, zero, suc, ◌+◌, ◌<◌, ◌≤◌, String, ◌<>◌, ◌≡◌, true, false, List, length, arith, Bool-cases, inl,
  inr, if_under, eqb,
}
use text.Mathlib.TextLemmas.{append_cancel_left, append_cancel_right}
use obs_dsk_multistream.Settings.Disk.{File, exists}
use obs_dsk_multistream.Settings.Disk.Laws.{free_name}
use obs_dsk_multistream.Settings.Store.{numbered_backup, search_backup, backup_path}

module _ (decimal : ℕ → String) (distinct : (m n : ℕ) → decimal m ≡ decimal n → m ≡ n) where
  -- Backups with different suffixes have different paths.
  numbered_backup_distinct :
      (path stamp : String) (m n : ℕ)
      → numbered_backup decimal path stamp m ≡ numbered_backup decimal path stamp n
      → m ≡ n
  unfolding numbered_backup
  numbered_backup_distinct path stamp m n h = distinct m n (
      append_cancel_right _ _ ".json" (
        append_cancel_left "-" _ _ (
          append_cancel_left stamp _ _
            (append_cancel_left ".corrupt-" _ _ (append_cancel_left path _ _ h)))))

  module _ {ℓ} {B : Type ℓ} (path stamp : String) where
    -- A free suffix is another than a taken one.
    suc-le-free :
        (fs : List (File B)) (i first : ℕ)
        → first ≤ i
        → exists (numbered_backup decimal path stamp first) fs ≡ true
        → exists (numbered_backup decimal path stamp i) fs ≡ false
        → suc first ≤ i
    suc-le-free fs i first low taken free = elim (Bool-cases (eqb i first)) [
      | inl e ↦ absurd (let same : i ≡ first = ground arith in cc (same, taken, free))
      | inr e ↦ ground arith
    ]

    -- The search ends at a free name when one of those it tries is free.
    search_backup-free :
        (turns first : ℕ) (fs : List (File B)) (i : ℕ)
        → first ≤ i
        → i < first + turns
        → exists (numbered_backup decimal path stamp i) fs ≡ false
        → exists (search_backup decimal path stamp turns first fs) fs ≡ false
    unfolding search_backup
    search_backup-free zero first fs i low high free = absurd (omega arith)
    search_backup-free (suc turns) first fs i low high free =
        if_under (λ p. exists p fs ≡ false) (exists (numbered_backup decimal path stamp first) fs)
          (λ taken.
            search_backup-free turns (suc first) fs i (suc-le-free fs i first low taken free)
              (omega arith) free)
          (λ e. e)

    -- An invalid settings file is moved to a path under which there is no file: the search over the
    -- suffixes ends, after no more turns than there are files and one more.
    pub exists-backup_path :
        (fs : List (File B)) → exists (backup_path decimal path stamp fs) fs ≡ false
    unfolding backup_path
    exists-backup_path fs =
        let (i, low, high, free) =
          free_name (numbered_backup decimal path stamp) (numbered_backup_distinct path stamp)
            (suc (length fs)) 2 fs (omega arith) in
        if_under (λ p. exists p fs ≡ false)
          (exists (path <> (".corrupt-" <> (stamp <> ".json"))) fs)
          (λ e. search_backup-free (suc (length fs)) 2 fs i low high free) (λ e. e)
