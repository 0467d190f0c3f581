-- ===== src/Manager/Start/Invariant.antt =====
-- startTarget and startAll against the invariant of the sessions (core/output-manager.cpp).
use obs_dsk_multistream.Base.{
  ℕ, String, ◌≡◌, refl, ◌∙◌, Bool, false, none, some, List, [], ◌∷◌, arith, ltb, if_cases, if_under,
  Option-cases, inl, inr, is_some, eq_iff, ◌||◌,
}
use obs_dsk_multistream.Target.{OutputTarget}
use obs_dsk_multistream.Target.Validation.{start_all_target_ids}
use obs_dsk_multistream.Runtime.{TransportState, is_transport}
use obs_dsk_multistream.Manager.State.{
  Core, Env, Manager, VideoAnswer, find_target, update_target, session_for_target, lookup_target,
  lookup_session, with_runtime_status, runtime_status_for_target,
}
use obs_dsk_multistream.Manager.Encoders.{effective_profile_for_target}
use obs_dsk_multistream.Manager.Frame.{
  persistent_targets_changed-core, set_runtime_transport-core, set_target_error-core,
  hydrate_target_secrets-core, validate_target-core, reset_runtime_status-core,
}
use obs_dsk_multistream.Manager.Secrets.{hydrate_target_secrets, validate_target}
use obs_dsk_multistream.Manager.Sessions.Invariant.{IsSound, same-IsSound}
use obs_dsk_multistream.Manager.Start.{
  next_serial, start_independent_target, begin_start, current, finish_start, still_stopping,
  start_found, start_target, already_started, start_each, start_all,
}
use obs_dsk_multistream.Manager.Start.Launch.{SoundPair, start_service-IsSound}

lookup_target-id :
    (id : String) (ts : List OutputTarget) (t : OutputTarget)
    → lookup_target id ts ≡ some t
    → t.id ≡ id
unfolding lookup_target
lookup_target-id id [] t h = cc
lookup_target-id id (x ∷ ts) t h = ground (arith, lookup_target-id id ts t, eq_iff x.id id)

current-id :
    (env : Env) (id : String) (target : OutputTarget) (m : Manager)
    → target.id ≡ id
    → (current env id target m).id ≡ id
unfolding find_target
current-id env id target m h =
    elim (Option-cases (find_target m id)) as (λ _. (current env id target m).id ≡ id) [
      | inl missing ↦ rw (missing, current) h
      | inr (t, found) ↦ rw (found, current) (lookup_target-id id m.targets t found)
    ]

next_serial-IsSound :
    (c : Core) (n : ℕ) → IsSound c → IsSound (record c { next_session_serial = n })
next_serial-IsSound c n v = record {
  table = v.table;
  counted = v.counted;
  single = v.single;
  outputs = v.outputs;
}

module _ (env : Env) where
  start_independent_target-IsSound :
      (target : OutputTarget) (m : Manager)
      → IsSound m.core
      → lookup_session target.id m.sessions ≡ none
      → SoundPair (start_independent_target env target m)
  unfolding start_independent_target
  start_independent_target-IsSound target m v fresh =
      let sound : IsSound (next_serial env m).core = next_serial-IsSound m.core _ v in
      go (env.video_for_target target (effective_profile_for_target env target)) refl sound
    where
      go :
          (answer : VideoAnswer)
          → env.video_for_target target (effective_profile_for_target env target) ≡ answer
          → IsSound (next_serial env m).core
          → SoundPair (start_independent_target env target m)
      go (VideoAnswer.unavailable error) e sound =
          rw (e, start_independent_target)
            (same-IsSound _ _ (set_target_error-core env target _ (next_serial env m)) sound)
      go (VideoAnswer.video video) e sound =
          rw (e, start_independent_target)
            (start_service-IsSound env target (next_serial env m).core sound fresh _ _
              (next_serial env m) refl)

  begin_start-core :
      (id : String) (target : OutputTarget) (m : Manager)
      → (begin_start env id target m).core ≡ m.core
  unfolding begin_start update_target with_runtime_status
  begin_start-core id target m =
      persistent_targets_changed-core _ _
      ∙ (set_runtime_transport-core env _ _ _ _ _ _ ∙ reset_runtime_status-core env _ _)

  still_stopping-core :
      (id : String) (target : OutputTarget) (m : Manager)
      → (still_stopping env id target m).core ≡ m.core
  unfolding still_stopping update_target
  still_stopping-core id target m =
      persistent_targets_changed-core _ _ ∙ set_runtime_transport-core env _ _ _ _ _ _

  finish_start-IsSound :
      (id : String) (target : OutputTarget) (m : Manager)
      → target.id ≡ id
      → IsSound m.core
      → lookup_session id m.sessions ≡ none
      → SoundPair (finish_start env id target m)
  unfolding finish_start
  finish_start-IsSound id target m named v fresh =
      let listed : OutputTarget = current env id target m in
      let read : Manager = (hydrate_target_secrets env listed m).0 in
      let read_core : read.core ≡ m.core = hydrate_target_secrets-core env listed m in
      let checking : OutputTarget = current env id target read in
      let checked : Manager = (validate_target env checking read).0 in
      let checked_core : checked.core ≡ m.core =
        validate_target-core env checking read ∙ read_core in
      let sound : IsSound checked.core = same-IsSound m.core checked.core checked_core v in
      if_cases SoundPair (hydrate_target_secrets env listed m).1
        (if_cases SoundPair (validate_target env checking read).1
          (same-IsSound _ _ (persistent_targets_changed-core id _) (
            start_independent_target-IsSound (current env id target checked) checked sound
              (rw (current-id env id target checked named) (rw checked_core fresh))))
          (same-IsSound _ _ (persistent_targets_changed-core id checked) sound))
        (same-IsSound _ _ (persistent_targets_changed-core id read ∙ read_core) v)

  -- `startTarget` keeps the sessions and the encoder counts sound on every path: whatever OBS and
  -- the credential store answer, a failed start gives back the encoders it took.
  pub start_target-IsSound :
      (id : String) (m : Manager) → IsSound m.core → IsSound (start_target env id m).0.core
  unfolding start_target start_found find_target session_for_target
  start_target-IsSound id m v = elim (Option-cases (find_target m id)) [
    | inl missing ↦ rw (missing, start_target) v
    | inr (target, found) ↦
        let stopping : Manager × Bool = (still_stopping env id target m, false) in
        let sound : IsSound (still_stopping env id target m).core =
          same-IsSound _ _ (still_stopping-core id target m) v in
        rw (found, start_target)
          (if_cases SoundPair (already_started env target (runtime_status_for_target m id)) v (
            if_under SoundPair
              (is_transport (runtime_status_for_target m id).transport TransportState.stopping
                || is_some (session_for_target m id))
              (λ busy. sound)
              (λ free.
                finish_start-IsSound id target (begin_start env id target m)
                  (lookup_target-id id m.targets target found)
                  (same-IsSound _ _ (begin_start-core id target m) v)
                  (rw (begin_start-core id target m) (absent m id free)))))
  ]
    where
      absent :
          (m : Manager) (id : String)
          → (is_transport (runtime_status_for_target m id).transport TransportState.stopping
              || is_some (session_for_target m id))
            ≡ false
          → lookup_session id m.sessions ≡ none
      absent m id h = ground arith

  start_each-IsSound :
      (ids : List String) (m : Manager) → IsSound m.core → IsSound (start_each env ids m).0.core
  unfolding start_each
  start_each-IsSound [] m v = v
  start_each-IsSound (id ∷ ids) m v =
      start_each-IsSound ids (start_target env id m).0 (start_target-IsSound id m v)

  pub start_all-IsSound : (m : Manager) → IsSound m.core → IsSound (start_all env m).core
  unfolding start_all
  start_all-IsSound m v =
      let each : Manager × ℕ × ℕ = start_each env (start_all_target_ids m.targets) m in
      let sound : IsSound each.0.core = start_each-IsSound (start_all_target_ids m.targets) m v in
      if_cases (λ (m' : Manager). IsSound m'.core) (ltb 0 each.2) sound sound
