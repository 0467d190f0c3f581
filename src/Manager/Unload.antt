-- ===== src/Manager/Unload.antt =====
-- core/output-manager.cpp: prepareForUnload and releaseAllSharedEncoders.
use obs_dsk_multistream.Base.{◌≡◌, refl, true, List, [], ◌∷◌, if◌then◌else◌, if_cases}
use obs_dsk_multistream.Manager.State.{Env, Manager, SharedEncoderSet, emit, obs_encoder_release}
use obs_dsk_multistream.Manager.Encoders.{with_sets}
use obs_dsk_multistream.Manager.Sessions.{release_all_sessions_now}
use obs_dsk_multistream.Manager.Sessions.Invariant.{IsSound}
use obs_dsk_multistream.Manager.Sessions.Counting.{users}
use obs_dsk_multistream.Manager.Encoders.Counting.{refs_of}
use obs_dsk_multistream.Manager.Sessions.Shutdown.{release_all_sessions_now_lem}

-- The encoders of each set in the order of the table.
release_sets : List SharedEncoderSet → Manager → Manager
release_sets [] m = m
release_sets (s ∷ ss) m =
    release_sets ss
      (emit (obs_encoder_release s.audio_encoder) (emit (obs_encoder_release s.video_encoder) m))

pub release_all_shared_encoders : Manager → Manager
release_all_shared_encoders m = with_sets [] (release_sets m.shared_encoders m)

module _ (env : Env) where
  -- The pending HTTP requests and the scene references are not in the manager's record.
  pub prepare_for_unload : Manager → Manager
  prepare_for_unload m =
      let down = release_all_shared_encoders (
        release_all_sessions_now env (record m { unload_prepared = true; shutting_down = true })) in
      if m.unload_prepared then m else down

  release_sets-sessions :
      (ss : List SharedEncoderSet) (m : Manager) → (release_sets ss m).sessions ≡ m.sessions
  unfolding release_sets
  release_sets-sessions [] m = refl
  release_sets-sessions (s ∷ ss) m = release_sets-sessions ss _

  pub prepare_for_unload-IsSound :
      (m : Manager) → IsSound m.core → IsSound (prepare_for_unload m).core
  unfolding prepare_for_unload release_all_shared_encoders refs_of users
  prepare_for_unload-IsSound m v =
      let marked : Manager = record m { unload_prepared = true; shutting_down = true } in
      let down : Manager = release_all_sessions_now env marked in
      if_cases (λ (m' : Manager). IsSound m'.core) m.unload_prepared v
        (rw (release_sets-sessions down.shared_encoders down) (
          rw (release_all_sessions_now_lem env marked v).0 (record {
            table = record { used = tt; distinct = tt };
            counted = λ k n. refl;
            single = tt;
            outputs = tt;
          })))
