-- ===== src/Manager/Targets/Edits.antt =====
-- The list of targets after mutateTargetForUi, and the user's operations against the invariant of
-- the sessions (core/output-manager.cpp).
use obs_dsk_multistream.Base.{
  String, ◌≡◌, refl, Bool, true, false, not, ◌||◌, some, List, [], ◌∷◌, arith, Option-cases, inl,
  inr, if_cases, if_under, eq_iff, is_some,
}
use obs_dsk_multistream.Target.{OutputTarget}
use obs_dsk_multistream.Manager.State.{
  Env, Manager, find_target, update_target, lookup_target, modify_target, session_for_target,
}
use obs_dsk_multistream.Manager.Save.{save}
use obs_dsk_multistream.Manager.Save.Frame.{save-core, save-kept, delete_unreferenced-core}
use obs_dsk_multistream.Manager.Removal.Atomic.{finalize_target_removal-core}
use obs_dsk_multistream.Manager.Sessions.Invariant.{IsSound, same-IsSound}
use obs_dsk_multistream.Manager.Stop.Invariant.{stop_target-IsSound, SoundManager}
use obs_dsk_multistream.Manager.Targets.{
  remove_runtime_target, remove_target, switch_enabled, set_target_enabled, edited, clean_edit,
  apply_edit, busy_for_edit, mutate_target_for_ui, same_flag,
}

-- Writing a target and then writing the old one back.
modify-modify :
    (id : String) (f : OutputTarget → OutputTarget) (ts : List OutputTarget) (t : OutputTarget)
    → lookup_target id ts ≡ some t
    → (f t).id ≡ t.id
    → modify_target id (λ _. t) (modify_target id f ts) ≡ ts
unfolding lookup_target modify_target
modify-modify id f [] t h same = refl
modify-modify id f (x ∷ ts) t h same = ground (arith, modify-modify id f ts t, eq_iff x.id id)

module _ (env : Env) where
  edited-id :
      (mutator : OutputTarget → OutputTarget) (t : OutputTarget) → (edited env mutator t).id ≡ t.id
  unfolding edited
  edited-id mutator t = ground arith

  apply_edit-core :
      (id : String) (mutator : OutputTarget → OutputTarget) (previous : OutputTarget) (m : Manager)
      → (apply_edit env id mutator previous m).0.core ≡ m.core
  unfolding apply_edit clean_edit update_target
  apply_edit-core id mutator previous m =
      let changed : Manager = update_target id (λ _. edited env mutator previous) m in
      let saved : Manager = (save env changed).0 in
      if_cases (λ (p : Manager × Bool). p.0.core ≡ m.core) (save env changed).1
        (ground
          (arith, delete_unreferenced-core env previous saved.targets saved, save-core env changed))
        (save-core env changed)

  apply_edit-undone :
      (id : String) (mutator : OutputTarget → OutputTarget) (previous : OutputTarget) (m : Manager)
      → find_target m id ≡ some previous
      → (apply_edit env id mutator previous m).1 ≡ false
      → (apply_edit env id mutator previous m).0.targets ≡ m.targets
  unfolding apply_edit clean_edit update_target find_target
  apply_edit-undone id mutator previous m found failed = ground (
    arith,
    save-kept env (update_target id (λ _. edited env mutator previous) m),
    modify-modify id (λ _. edited env mutator previous) m.targets previous found
        (edited-id mutator previous),
  )

  -- A refused edit left the targets alone.
  abbrev IsUndone : Manager → Manager × Bool → Type 0
  IsUndone m p = p.1 ≡ false → p.0.targets ≡ m.targets

  mutate_target_for_ui-IsUndone :
      (id : String) (mutator : OutputTarget → OutputTarget) (m : Manager)
      → IsUndone m (mutate_target_for_ui env id mutator m)
  unfolding mutate_target_for_ui
  mutate_target_for_ui-IsUndone id mutator m = elim (Option-cases (find_target m id)) [
    | inl missing ↦ rw (missing, mutate_target_for_ui) (λ failed. refl)
    | inr (previous, found) ↦
        rw (found, mutate_target_for_ui)
          (if_cases (IsUndone m)
            (m.pending_persistent_removal_ids id || m.pending_runtime_removal_ids id)
            (λ failed. refl)
            (if_cases (IsUndone m) (busy_for_edit env id m) (λ failed. refl)
              (apply_edit-undone id mutator previous m found)))
  ]

  -- An edit from the user interface that `mutateTargetForUi` refuses, or that it cannot save,
  -- leaves every target as it was.
  pub mutate_target_for_ui-undone :
      (id : String) (mutator : OutputTarget → OutputTarget) (m : Manager)
      → (mutate_target_for_ui env id mutator m).1 ≡ false
      → (mutate_target_for_ui env id mutator m).0.targets ≡ m.targets
  mutate_target_for_ui-undone id mutator m failed =
      mutate_target_for_ui-IsUndone id mutator m failed

  -- A target that runs is not edited.
  pub mutate_target_for_ui-running :
      (id : String) (mutator : OutputTarget → OutputTarget) (m : Manager)
      → is_some (session_for_target m id) ≡ true
      → (mutate_target_for_ui env id mutator m).1 ≡ false
  unfolding mutate_target_for_ui
  mutate_target_for_ui-running id mutator m runs = elim (Option-cases (find_target m id)) [
    | inl missing ↦ rw (missing, mutate_target_for_ui) refl
    | inr (previous, found) ↦
        rw (found, mutate_target_for_ui)
          (if_cases (λ (p : Manager × Bool). p.1 ≡ false)
            (m.pending_persistent_removal_ids id || m.pending_runtime_removal_ids id) refl
            (if_under (λ (p : Manager × Bool). p.1 ≡ false) (busy_for_edit env id m) (λ busy. refl)
              (λ free. absurd (ground (arith, runs, free)))))
  ]

  abbrev SoundEdit : Manager × Bool → Type 0
  SoundEdit p = IsSound p.0.core

  pub mutate_target_for_ui-IsSound :
      (id : String) (mutator : OutputTarget → OutputTarget) (m : Manager)
      → IsSound m.core
      → IsSound (mutate_target_for_ui env id mutator m).0.core
  unfolding mutate_target_for_ui
  mutate_target_for_ui-IsSound id mutator m v = elim (Option-cases (find_target m id)) [
    | inl missing ↦ rw (missing, mutate_target_for_ui) v
    | inr (previous, found) ↦
        rw (found, mutate_target_for_ui)
          (if_cases SoundEdit
            (m.pending_persistent_removal_ids id || m.pending_runtime_removal_ids id) v
            (if_cases SoundEdit (busy_for_edit env id m) v
              (same-IsSound _ _ (apply_edit-core id mutator previous m) v)))
  ]

  pub set_target_enabled-IsSound :
      (id : String) (enabled : Bool) (m : Manager)
      → IsSound m.core
      → IsSound (set_target_enabled env id enabled m).core
  unfolding set_target_enabled switch_enabled update_target
  set_target_enabled-IsSound id enabled m v = elim (Option-cases (find_target m id)) [
    | inl missing ↦ rw (missing, set_target_enabled) v
    | inr (target, found) ↦
        let switched : Manager = update_target id (λ t. record t { enabled = enabled }) m in
        let saved : IsSound (save env switched).0.core =
          same-IsSound _ _ (save-core env switched) v in
        rw (found, set_target_enabled)
          (if_cases SoundManager (same_flag target.enabled enabled) v (
            if_cases SoundManager (m.runtime_target_ids id) v
              (if_cases SoundManager (save env switched).1 saved saved)))
  ]

  pub remove_runtime_target-IsSound :
      (id : String) (m : Manager) → IsSound m.core → IsSound (remove_runtime_target env id m).core
  unfolding remove_runtime_target
  remove_runtime_target-IsSound id m v =
      if_cases SoundManager (not (m.runtime_target_ids id) || m.pending_runtime_removal_ids id) v (
        if_cases SoundManager (is_some (session_for_target m id)) (stop_target-IsSound env id _ v)
          (same-IsSound _ _ (finalize_target_removal-core env id true m) v))

  pub remove_target-IsSound :
      (id : String) (m : Manager) → IsSound m.core → IsSound (remove_target env id m).core
  unfolding remove_target
  remove_target-IsSound id m v =
      if_cases SoundManager
        (not (is_some (find_target m id)) || m.pending_persistent_removal_ids id) v
        (if_cases SoundManager (m.runtime_target_ids id) (remove_runtime_target-IsSound id m v) (
          if_cases SoundManager (is_some (session_for_target m id)) (stop_target-IsSound env id _ v)
            (same-IsSound _ _ (finalize_target_removal-core env id false m) v)))
