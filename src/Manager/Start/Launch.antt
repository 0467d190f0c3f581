-- ===== src/Manager/Start/Launch.antt =====
-- The part of startIndependentTarget that creates the output, its encoders and the session, against
-- the invariant of the sessions (core/output-manager.cpp).
use obs_dsk_multistream.Base.{
  ℕ, ◌+◌, String, ◌≡◌, ◌≢◌, refl, ap, ◌∙◌, subst, Bool, none, some, [], ◌∷◌, ◌++◌, arith,
  All-append, eq_refl, if_cases, Option-cases, inl, inr, eq_iff, if◌then◌else◌,
}
use obs_dsk_multistream.Target.{OutputTarget}
use obs_dsk_multistream.Manager.State.{
  Session, Core, Env, EncoderProfile, Manager, emit, update_target, lookup_session,
  with_runtime_status, release_output_and_service, disconnect_output_signals,
  connect_output_signals,
}
use obs_dsk_multistream.Manager.Encoders.{
  acquired, refused, Acquired, acquire_shared_encoders, release_shared_encoders,
}
use obs_dsk_multistream.Manager.Encoders.Counting.{hit, refs_of, IsTable}
use obs_dsk_multistream.Manager.Encoders.Accounting.{
  Accounts, acquire-Accounts, Returned, release-Returned,
}
use obs_dsk_multistream.Manager.Frame.{
  persistent_status_message-core, set_runtime_transport-core, set_target_error-core,
}
use obs_dsk_multistream.Manager.Sessions.Counting.{users-push, IsSingle-push, HasOutput}
use obs_dsk_multistream.Manager.Sessions.Invariant.{IsSound, same-IsSound}
use obs_dsk_multistream.Manager.Start.{
  Encoded, encoded, no_encoder, start_failed, encode_shared, share_encoders, launch_encoded,
  own_encoders, new_session, announce_start, launch, start_output, start_service,
}

-- What a start holds before its session is listed: one reference at `key`, if that is not empty.
record Holds (key : String) (c c' : Core) : Type 0 where
  pub sessions_kept : c'.sessions ≡ c.sessions
  pub table : IsTable c'.shared_encoders
  pub counts :
      (k : String) → k ≢ "" → refs_of k c'.shared_encoders ≡ refs_of k c.shared_encoders + hit key k

-- An answer with encoders holds their reference; a refusal leaves everything sound.
abbrev EncodedHolds : Core → Manager × Encoded → Type 0
EncodedHolds c (m', encoded key) = Holds key c m'.core
EncodedHolds c (m', no_encoder e) = IsSound m'.core

nothing_held : (c : Core) → IsSound c → Holds "" c c
nothing_held c v = record {
  sessions_kept = refl;
  table = v.table;
  counts = λ k n. ground (arith, n, eq_iff "" k);
}

listed-IsSound :
    (key : String) (c c' : Core) (s : Session)
    → IsSound c
    → Holds key c c'
    → s.shared_encoder_key ≡ key
    → HasOutput s
    → lookup_session s.target_id c.sessions ≡ none
    → IsSound (record c' { sessions = c.sessions ++ (s ∷ []) })
listed-IsSound key c c' s v r keyed o fresh = record {
  table = r.table;
  counted = λ k n.
      omega
        (arith, r.counts k n, v.counted k n, users-push k c.sessions s, ap (λ x. hit x k) keyed);
  single = IsSingle-push c.sessions s v.single fresh;
  outputs = All-append HasOutput c.sessions (s ∷ []) v.outputs (o, tt);
}

-- A start that failed gives its reference back.
given_back-IsSound :
    (key : String) (c c' c'' : Core)
    → IsSound c
    → Holds key c c'
    → Returned key c' c''
    → IsSound c''
given_back-IsSound key c c' c'' v h r =
    let same : c''.sessions ≡ c.sessions = r.sessions_kept ∙ h.sessions_kept in
    record {
      table = r.table;
      counted = λ k n. rw same (omega (arith, r.counts k n, h.counts k n, v.counted k n));
      single = rw same v.single;
      outputs = rw same v.outputs;
    }

abbrev pub SoundPair : Manager × Bool → Type 0
SoundPair p = IsSound p.0.core

module _ (env : Env) where
  shared-Holds :
      (output : ℕ) (c : Core) (a : Manager × Acquired)
      → IsSound c
      → Accounts c a
      → EncodedHolds c (encode_shared env output a)
  unfolding encode_shared
  shared-Holds output c (m, acquired set) v acc = record {
    sessions_kept = acc.0.sessions_kept;
    table = acc.0.table;
    counts = λ k n. acc.0.counts k;
  }
  shared-Holds output c (m, refused error) v acc = same-IsSound c m.core acc v

  own-Holds :
      (target : OutputTarget) (profile : EncoderProfile) (output : ℕ) (m : Manager)
      → IsSound m.core
      → EncodedHolds m.core (own_encoders env target profile output m)
  unfolding own_encoders
  own-Holds target profile output m v =
      elim (Option-cases (env.create_video_encoder target profile)) [
        | inl no_video ↦ rw (no_video, own_encoders) v
        | inr (a, video) ↦ elim (Option-cases (env.create_audio_encoder target profile)) [
          | inl no_audio ↦ rw (video, own_encoders) (rw (no_audio, own_encoders) v)
          | inr (b, audio) ↦
              rw (video, own_encoders) (rw (audio, own_encoders) (nothing_held m.core v))
        ]
      ]

  announce_start-core :
      (target : OutputTarget) (serial : ℕ) (m : Manager)
      → (announce_start env target serial m).core ≡ m.core
  unfolding announce_start update_target with_runtime_status
  announce_start-core target serial m =
      persistent_status_message-core _ _ _ ∙ set_runtime_transport-core env _ _ _ _ _ _

  module _ (target : OutputTarget) (c : Core) (v : IsSound c)
      (fresh : lookup_session target.id c.sessions ≡ none) where
    launch-IsSound :
        (serial service output : ℕ) (key : String) (m : Manager)
        → Holds key c m.core
        → SoundPair (launch env target serial service output key m)
    unfolding launch new_session
    launch-IsSound serial service output key m h =
        let wired : Manager = emit (connect_output_signals output) m in
        let returned : Manager =
          emit (release_output_and_service output (some service))
            (emit (disconnect_output_signals output) wired) in
        if_cases SoundPair (env.output_start output)
          (same-IsSound _ _ (announce_start-core target serial _) (
            rw h.sessions_kept (
              listed-IsSound key c m.core (new_session env target serial service output key) v h
                refl refl fresh)))
          (same-IsSound _ _
            (set_target_error-core env target _ (release_shared_encoders key returned))
            (given_back-IsSound key c m.core (release_shared_encoders key returned).core v h (
              release-Returned key returned h.table
                (λ n. ground (arith, h.counts key n, eq_refl key)))))

    launch_encoded-IsSound :
        (serial service output : ℕ) (a : Manager × Encoded)
        → EncodedHolds c a
        → SoundPair (launch_encoded env target serial service output a)
    unfolding launch_encoded start_failed
    launch_encoded-IsSound serial service output (m, encoded key) h =
        launch-IsSound serial service output key m h
    launch_encoded-IsSound serial service output (m, no_encoder error) sound =
        same-IsSound _ _ (set_target_error-core env target _ _) sound

    pub start_service-IsSound :
        (profile : EncoderProfile) (serial : ℕ) (m : Manager)
        → m.core ≡ c
        → SoundPair (start_service env target profile serial m)
    unfolding start_service start_output share_encoders
    start_service-IsSound profile serial m e =
        let sound : IsSound m.core = same-IsSound c m.core e v in
        elim (Option-cases (env.create_service target)) [
          | inl no_service ↦
              rw (no_service, start_service)
                (same-IsSound _ _ (set_target_error-core env target _ _) sound)
          | inr (service, created) ↦ elim (Option-cases (env.create_output target serial)) [
            | inl no_output ↦
                rw (created, start_service)
                  (rw (no_output, start_service)
                    (same-IsSound _ _ (set_target_error-core env target _ _) sound))
            | inr (output, made) ↦
                rw (created, start_service)
                  (rw (made, start_service)
                    (launch_encoded-IsSound serial service output _ (
                      subst
                        (λ d. EncodedHolds d (
                          if target.use_shared_encoder
                          then share_encoders env target profile output m
                          else own_encoders env target profile output m))
                        e
                        (if_cases (EncodedHolds m.core) target.use_shared_encoder
                          (shared-Holds output m.core (acquire_shared_encoders env target profile m)
                            sound (acquire-Accounts env target profile m sound.table))
                          (own-Holds target profile output m sound)))))
          ]
        ]
