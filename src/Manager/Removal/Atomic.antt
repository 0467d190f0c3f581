-- ===== src/Manager/Removal/Atomic.antt =====
-- The list of targets after finalizeTargetRemoval (core/output-manager.cpp).
use obs_dsk_multistream.Base.{
  ℕ, String, ◌≡◌, refl, ◌∙◌, ap, some, arith, Option-cases, Bool-cases, inl, inr, Bool, true, false,
  get_elem?, remove_at, insert_at, insert_at-remove_at, if_cases, if_under, is_some,
}
use obs_dsk_multistream.Target.{OutputTarget}
use obs_dsk_multistream.Manager.State.{Env, Manager, session_for_target}
use obs_dsk_multistream.Manager.Save.{save}
use obs_dsk_multistream.Manager.Save.Frame.{save-core, save-kept, delete_unreferenced-core}
use obs_dsk_multistream.Manager.Removal.{
  target_index, clear_ids, forget_target, removal_failed, remove_found, finalize_target_removal,
  finalize_pending_removal,
}

module _ (env : Env) where
  forget_target-core :
      (id : String) (runtime : Bool) (removed : OutputTarget) (m : Manager)
      → (forget_target env id runtime removed m).core ≡ m.core
  unfolding forget_target clear_ids
  forget_target-core id runtime removed m =
      ground (arith, delete_unreferenced-core env removed m.targets (clear_ids id m))

  remove_found-core :
      (id : String) (runtime : Bool) (index : ℕ) (removed : OutputTarget) (m : Manager)
      → (remove_found env id runtime index removed m).0.core ≡ m.core
  unfolding remove_found removal_failed
  remove_found-core id runtime index removed m = ground (
    arith,
    save-core env (record m { targets = remove_at index m.targets }),
    forget_target-core id runtime removed (record m { targets = remove_at index m.targets }),
    forget_target-core id runtime removed
        (save env (record m { targets = remove_at index m.targets })).0,
  )

  pub finalize_target_removal-core :
      (id : String) (runtime : Bool) (m : Manager)
      → (finalize_target_removal env id runtime m).0.core ≡ m.core
  unfolding finalize_target_removal
  finalize_target_removal-core id runtime m =
      elim (Bool-cases (is_some (session_for_target m id))) [
        | inl busy ↦ rw busy refl
        | inr free ↦ rw free (elim (Option-cases (target_index id m.targets)) [
          | inl missing ↦ rw (missing, finalize_target_removal) refl
          | inr (index, found) ↦
              rw (found, finalize_target_removal)
                (elim (Option-cases (get_elem? m.targets index)) [
                  | inl e ↦ rw (e, finalize_target_removal) refl
                  | inr (removed, e) ↦
                      rw (e, finalize_target_removal) (remove_found-core id runtime index removed m)
                ])
        ])
      ]

  pub finalize_pending_removal-core :
      (id : String) (m : Manager) → (finalize_pending_removal env id m).0.core ≡ m.core
  unfolding finalize_pending_removal
  finalize_pending_removal-core id m =
      ground
        (arith, finalize_target_removal-core id true m, finalize_target_removal-core id false m)

  -- What a removal that did not happen left of the targets.
  abbrev IsKept : Manager → Manager × Bool → Type 0
  IsKept m p = p.1 ≡ false → p.0.targets ≡ m.targets

  remove_found-IsKept :
      (id : String) (runtime : Bool) (index : ℕ) (removed : OutputTarget) (m : Manager)
      → get_elem? m.targets index ≡ some removed
      → IsKept m (remove_found env id runtime index removed m)
  unfolding remove_found removal_failed
  remove_found-IsKept id runtime index removed m h =
      let without : Manager = record m { targets = remove_at index m.targets } in
      if_cases (IsKept m) runtime (λ h'. absurd (ground (arith, h')))
        (if_under (IsKept m) (save env without).1 (λ ok h'. absurd (ground (arith, h')))
          (λ failed h'.
            ap (insert_at index removed) (save-kept env without failed)
            ∙ insert_at-remove_at m.targets index removed h))

  finalize_target_removal-IsKept :
      (id : String) (runtime : Bool) (m : Manager)
      → IsKept m (finalize_target_removal env id runtime m)
  unfolding finalize_target_removal
  finalize_target_removal-IsKept id runtime m =
      if_cases (IsKept m) (is_some (session_for_target m id)) (λ h. refl)
        (elim (Option-cases (target_index id m.targets)) [
          | inl missing ↦ rw (missing, finalize_target_removal) (λ h. refl)
          | inr (index, found) ↦
              rw (found, finalize_target_removal)
                (elim (Option-cases (get_elem? m.targets index)) [
                  | inl e ↦ rw (e, finalize_target_removal) (λ h. refl)
                  | inr (removed, e) ↦
                      rw (e, finalize_target_removal)
                        (remove_found-IsKept id runtime index removed m e)
                ])
        ])

  -- A target that runs is not removed.
  pub finalize_target_removal-running :
      (id : String) (runtime : Bool) (m : Manager)
      → is_some (session_for_target m id) ≡ true
      → (finalize_target_removal env id runtime m).1 ≡ false
  unfolding finalize_target_removal
  finalize_target_removal-running id runtime m runs = rw runs refl

  -- A removal that `finalizeTargetRemoval` refuses, because the target runs or is unknown, or that
  -- it cannot save, leaves the list of targets as it was, each target at its place.
  pub finalize_target_removal-kept :
      (id : String) (runtime : Bool) (m : Manager)
      → (finalize_target_removal env id runtime m).1 ≡ false
      → (finalize_target_removal env id runtime m).0.targets ≡ m.targets
  finalize_target_removal-kept id runtime m h = finalize_target_removal-IsKept id runtime m h
