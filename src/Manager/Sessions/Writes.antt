-- ===== src/Manager/Sessions/Writes.antt =====
-- Writes to a session's own fields against the invariant of the sessions.
use obs_dsk_multistream.Base.{String, ◌≡◌, refl, sym, ◌∙◌, none, List, [], ◌∷◌, arith, All}
use obs_dsk_multistream.Manager.State.{
  Session, Manager, lookup_session, modify_session, update_session,
}
use obs_dsk_multistream.Manager.Sessions.Counting.{users, IsSingle, HasOutput, SameHold}
use obs_dsk_multistream.Manager.Sessions.Invariant.{IsSound}

module _ (id : String) (f : Session → Session) (same : (s : Session) → SameHold s (f s)) where
  users-modify : (k : String) (ss : List Session) → users k (modify_session id f ss) ≡ users k ss
  unfolding users modify_session
  users-modify k [] = refl
  users-modify k (s ∷ ss) =
      ground (arith, (same s).target_kept, (same s).key_kept, users-modify k ss)

  lookup-modify_none :
      (j : String) (ss : List Session)
      → lookup_session j ss ≡ none
      → lookup_session j (modify_session id f ss) ≡ none
  unfolding lookup_session modify_session
  lookup-modify_none j [] h = refl
  lookup-modify_none j (s ∷ ss) h = ground (arith, (same s).target_kept, lookup-modify_none j ss)

  IsSingle-modify : (ss : List Session) → IsSingle ss → IsSingle (modify_session id f ss)
  unfolding modify_session
  IsSingle-modify [] h = tt
  IsSingle-modify (s ∷ ss) h =
      ground (
        arith,
        (same s).target_kept,
        h.0,
        h.1,
        lookup-modify_none s.target_id ss,
        IsSingle-modify ss,
      )

  HasOutput-modify : (ss : List Session) → All HasOutput ss → All HasOutput (modify_session id f ss)
  unfolding modify_session
  HasOutput-modify [] h = tt
  HasOutput-modify (s ∷ ss) h = ground (arith, (same s).output_kept, h.0, h.1, HasOutput-modify ss)

  pub update_session-IsSound : (m : Manager) → IsSound m.core → IsSound (update_session id f m).core
  unfolding update_session
  update_session-IsSound m v = record {
    table = v.table;
    counted = λ k n. v.counted k n ∙ sym (users-modify k m.sessions);
    single = IsSingle-modify m.sessions v.single;
    outputs = HasOutput-modify m.sessions v.outputs;
  }
