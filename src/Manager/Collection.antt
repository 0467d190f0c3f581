-- ===== src/Manager/Collection.antt =====
-- core/output-manager.cpp: prepareForSceneCollectionChange, which ends the sessions whose output
-- shows scenes that OBS is about to drop.
pub mod Ended
use obs_dsk_multistream.Base.{
  ℕ, suc, String, ◌≡◌, refl, ◌∙◌, Bool, false, ◌==◌, ◌||◌, Option, none, some, List, [], ◌∷◌, arith,
  get_elem?, remove_at, if◌then◌else◌, if_cases, Option-cases, inl, inr,
}
use mathlib.Core.Option
use obs_dsk_multistream.Target.{OutputTarget, TargetState, is_vertical}
use obs_dsk_multistream.Manager.State.{
  Session, Env, Manager, emit, with_sessions, find_target, update_target, reset_runtime_status,
  release_target_scene_canvas, status_message, targets_changed,
}
use obs_dsk_multistream.Manager.Frame.{reset_runtime_status-core}
use obs_dsk_multistream.Manager.Encoders.{target_uses_scene_canvas}
use obs_dsk_multistream.Manager.Removal.{finalize_pending_removal}
use obs_dsk_multistream.Manager.Removal.Atomic.{finalize_pending_removal-core}
use obs_dsk_multistream.Manager.Sessions.{release_now}
use obs_dsk_multistream.Manager.Sessions.Invariant.{IsSound, Returned-IsSound, same-IsSound}
use obs_dsk_multistream.Manager.Sessions.Shutdown.{release_now-Returned}

-- Whether the output of a session shows scenes of the collection.
abbrev pub is_scene_dependent : Manager → Session → Bool
is_scene_dependent m s = elim (find_target m s.target_id) [
  | none ↦ false
  | some target ↦ is_vertical target.encoder_group || target_uses_scene_canvas target
]

-- The ids of the targets, of each session in its order.
scene_dependent_ids : Manager → List Session → List String
scene_dependent_ids m [] = []
scene_dependent_ids m (s ∷ ss) =
    let rest = scene_dependent_ids m ss in
    if is_scene_dependent m s then s.target_id ∷ rest else rest

-- The position of the session that `sessionForTarget` finds.
session_index : String → List Session → Option ℕ
session_index id [] = none
session_index id (s ∷ ss) =
    let rest = Option.map suc (session_index id ss) in if s.target_id == id then some 0 else rest

module _ (env : Env) where
  -- What follows on `delete session`.
  forget_session : String → Manager → Manager
  forget_session id m =
      let gone = emit (release_target_scene_canvas id) m in
      let stopped : Manager = elim (find_target gone id) [
        | none ↦ gone
        | some target ↦
            reset_runtime_status env id (
              update_target id (λ t. record t { state = TargetState.stopped; last_error = "" })
                gone)
      ] in
      (finalize_pending_removal env id stopped).0

  end_session : String → Manager → Manager
  end_session id m = elim (session_index id m.sessions) [
    | none ↦ m
    | some i ↦ elim (get_elem? m.sessions i) [
      | none ↦ m
      | some s ↦
          let freed = release_now env s m in
          forget_session id (with_sessions (remove_at i freed.sessions) freed)
    ]
  ]

  end_sessions : List String → Manager → Manager
  end_sessions [] m = m
  end_sessions (id ∷ ids) m = end_sessions ids (end_session id m)

  abbrev told_stopped : List String → Manager → Manager
  told_stopped [] m = m
  told_stopped (id ∷ ids) m = emit targets_changed (
      emit
        (status_message
          "Stopped DSK vertical/separate-scene outputs before changing the OBS scene collection.")
        m)

  -- The scene references are not in the manager's record.
  pub prepare_for_scene_collection_change : Manager → Manager
  prepare_for_scene_collection_change m =
      let ids = scene_dependent_ids m m.sessions in
      if m.shutting_down || m.unload_prepared then m else told_stopped ids (end_sessions ids m)

  forget_session-core : (id : String) (m : Manager) → (forget_session id m).core ≡ m.core
  unfolding forget_session update_target
  forget_session-core id m =
      let gone = emit (release_target_scene_canvas id) m in
      finalize_pending_removal-core env id _ ∙ stopped-core (find_target gone id)
    where
      stopped-core :
          (o : Option OutputTarget)
          → (elim o as (λ _. Manager) [
            | none ↦ emit (release_target_scene_canvas id) m
            | some target ↦ reset_runtime_status env id (
                update_target id
                  (λ t. record t { state = TargetState.stopped; last_error = "" })
                  (emit (release_target_scene_canvas id) m))
          ]).core
            ≡ m.core
      stopped-core none = refl
      stopped-core (some target) = reset_runtime_status-core env id _

  end_session-IsSound :
      (id : String) (m : Manager) → IsSound m.core → IsSound (end_session id m).core
  unfolding end_session
  end_session-IsSound id m v = elim (Option-cases (session_index id m.sessions)) [
    | inl missing ↦ rw (missing, end_session) v
    | inr (i, at) ↦ elim (Option-cases (get_elem? m.sessions i)) [
      | inl missing ↦ rw (at, missing, end_session) v
      | inr (s, found) ↦
          rw (at, found, end_session)
            (same-IsSound _ _ (forget_session-core id _) (
              Returned-IsSound i s m.core (release_now env s m).core found v
                (release_now-Returned env i s m found v)))
    ]
  ]

  end_sessions-IsSound :
      (ids : List String) (m : Manager) → IsSound m.core → IsSound (end_sessions ids m).core
  unfolding end_sessions
  end_sessions-IsSound [] m v = v
  end_sessions-IsSound (id ∷ ids) m v = end_sessions-IsSound ids _ (end_session-IsSound id m v)

  told_stopped-IsSound :
      (ids : List String) (m : Manager) → IsSound m.core → IsSound (told_stopped ids m).core
  told_stopped-IsSound [] m v = v
  told_stopped-IsSound (id ∷ ids) m v = v

  pub prepare_for_scene_collection_change-IsSound :
      (m : Manager) → IsSound m.core → IsSound (prepare_for_scene_collection_change m).core
  unfolding prepare_for_scene_collection_change
  prepare_for_scene_collection_change-IsSound m v =
      let ids = scene_dependent_ids m m.sessions in
      if_cases (λ (m' : Manager). IsSound m'.core) (m.shutting_down || m.unload_prepared) v
        (told_stopped-IsSound ids _ (end_sessions-IsSound ids m v))
