-- ===== src/Manager/Removal.antt =====
-- core/output-manager.cpp: finalizeTargetRemoval and finalizePendingRemoval, which take a target
-- out of the list once it has no session.
pub mod Atomic
use obs_dsk_multistream.Base.{
  ℕ, suc, String, ◌<>◌, Bool, true, false, not, ◌==◌, ◌&&◌, Option, none, some, List, [], ◌∷◌,
  get_elem?, remove_at, insert_at, if◌then◌else◌, is_empty, is_some, zero,
}
use mathlib.Core.Option
use obs_dsk_multistream.Target.{OutputTarget}
use obs_dsk_multistream.Manager.State.{
  Env, Manager, emit, put, targets_changed, status_message, release_target_scene_canvas,
  session_for_target,
}
use obs_dsk_multistream.Manager.Save.{save, delete_unreferenced_target_secrets}

-- The position of the first target with the id.
target_index : String → List OutputTarget → Option ℕ
target_index id [] = none
target_index id (t ∷ ts) =
    let rest = Option.map suc (target_index id ts) in if t.id == id then some 0 else rest

abbrev not_pending : String → Manager → Manager
not_pending id m = record m {
  pending_persistent_removal_ids = put id false m.pending_persistent_removal_ids;
  pending_runtime_removal_ids = put id false m.pending_runtime_removal_ids;
}

pub join_texts : List String → String
join_texts [] = ""
join_texts (x ∷ xs) = let rest = ", " <> join_texts xs in elim xs [ [] ↦ x | y ∷ ys ↦ x <> rest ]

clear_ids : String → Manager → Manager
clear_ids id m = emit (release_target_scene_canvas id) (record (not_pending id m) {
  runtime_target_ids = put id false m.runtime_target_ids;
  runtime_statuses = put id none m.runtime_statuses;
})

module _ (env : Env) where
  -- After the target is gone, and the settings without it are saved.
  forget_target : String → Bool → OutputTarget → Manager → Manager
  forget_target id runtime removed m =
      let cleared = clear_ids id m in
      let (cleaned, failures) = delete_unreferenced_target_secrets env removed m.targets cleared in
      let told : Manager = elim failures [
        | [] ↦ cleaned
        | f ∷ fs ↦
            emit
              (status_message (
                "Target was removed, but obsolete credentials need cleanup: "
                <> join_texts (f ∷ fs)))
              cleaned
      ] in
      emit targets_changed (if runtime then cleared else told)

  removal_failed : String → ℕ → OutputTarget → Manager → Manager
  removal_failed id index removed m = emit targets_changed (
      emit (status_message "Failed to remove target. Settings were not changed.") (record m {
        targets = insert_at index removed m.targets;
        pending_persistent_removal_ids = put id false m.pending_persistent_removal_ids;
      }))

  remove_found : String → Bool → ℕ → OutputTarget → Manager → Manager × Bool
  remove_found id runtime index removed m =
      let without = record m { targets = remove_at index m.targets } in
      let (saved, ok) = save env without in
      if runtime
      then (forget_target id runtime removed without, true)
      else if ok
      then (forget_target id runtime removed saved, true)
      else (removal_failed id index removed saved, false)

  pub finalize_target_removal : String → Bool → Manager → Manager × Bool
  finalize_target_removal id runtime m =
      if is_some (session_for_target m id) then (m, false) else elim (target_index id m.targets) [
        | none ↦ (not_pending id m, false)
        | some index ↦ elim (get_elem? m.targets index) [
          | none ↦ (not_pending id m, false)
          | some removed ↦ remove_found id runtime index removed m
        ]
      ]

  pub finalize_pending_removal : String → Manager → Manager × Bool
  finalize_pending_removal id m =
      if m.pending_runtime_removal_ids id
      then finalize_target_removal id true m
      else if m.pending_persistent_removal_ids id
      then finalize_target_removal id false m
      else (m, false)
