-- ===== src/Manager/Sessions/Shutdown.antt =====
-- The state after releaseAllSessionsNow (core/output-manager.cpp).
use obs_dsk_multistream.Base.{
  ℕ, zero, suc, ◌≤◌, String, ◌≡◌, ◌≢◌, refl, ◌∙◌, none, some, List, [], ◌∷◌, arith, length,
  get_elem?, remove_at, Option-cases, inl, inr, eq_refl,
}
use obs_dsk_multistream.Manager.State.{
  Session, SharedEncoderSet, Core, Env, Manager, emit, with_sessions, disconnect_output_signals,
}
use obs_dsk_multistream.Manager.Encoders.Counting.{refs_of, IsTable}
use obs_dsk_multistream.Manager.Encoders.Accounting.{Returned}
use obs_dsk_multistream.Manager.Sessions.Counting.{users, HasOutput-of}
use obs_dsk_multistream.Manager.Sessions.{
  force_stop_if_active, release_now, release_down, release_all_sessions_now,
}
use obs_dsk_multistream.Manager.Sessions.Invariant.{
  IsSound, Returned-IsSound, free_output-Returned, force_stop-core,
}

-- Sets that are used, of which none is counted, are no sets.
no_sets :
    (ss : List SharedEncoderSet) → IsTable ss → ((k : String) → k ≢ "" → refs_of k ss ≡ 0) → ss ≡ []
unfolding refs_of
no_sets [] t h = refl
no_sets (s ∷ ss) t h = ground (arith, t.used.0, h s.key t.used.0.1, eq_refl s.key)

no_sessions : (ss : List Session) → length ss ≤ 0 → ss ≡ []
no_sessions [] h = refl
no_sessions (s ∷ ss) h = absurd (omega (arith, h))

no_users : (k : String) → users k [] ≡ 0
unfolding users
no_users k = refl

length-remove_at : (xs : List Session) (i : ℕ) → length xs ≤ suc i → length (remove_at i xs) ≤ i
length-remove_at [] i h = omega arith
length-remove_at (x ∷ xs) zero h = omega (arith, h)
length-remove_at (x ∷ xs) (suc i) h = omega (arith, length-remove_at xs i (omega (arith, h)))

length_of_none : (xs : List Session) (i : ℕ) → get_elem? xs i ≡ none → length xs ≤ i
length_of_none [] i h = omega arith
length_of_none (x ∷ xs) zero h = cc
length_of_none (x ∷ xs) (suc i) h = omega (arith, length_of_none xs i h)

-- No session is left, and the rest is sound.
record IsDown (c : Core) : Type 0 where
  pub gone : length c.sessions ≤ 0
  pub sound : IsSound c

module _ (env : Env) where
  pub release_now-Returned :
      (i : ℕ) (s : Session) (m : Manager)
      → get_elem? m.sessions i ≡ some s
      → IsSound m.core
      → Returned s.shared_encoder_key m.core (release_now env s m).core
  unfolding release_now
  release_now-Returned i s m h v = elim (Option-cases s.output) [
    | inl bare ↦ absurd (ground (arith, HasOutput-of m.sessions i s h v.outputs))
    | inr (o, held) ↦
        let wired : Manager = emit (disconnect_output_signals o) m in
        rw (held, release_now)
          (free_output-Returned env i o s m.core (force_stop_if_active env o wired)
            (force_stop-core env o wired) h v)
  ]

  release_down-IsDown :
      (n : ℕ) (m : Manager)
      → length m.sessions ≤ n
      → IsSound m.core
      → IsDown (release_down env n m).core
  unfolding release_down
  release_down-IsDown zero m h v = record { gone = h; sound = v }
  release_down-IsDown (suc i) m h v = elim (Option-cases (get_elem? m.sessions i)) [
    | inl gone ↦
        rw (gone, release_down) (release_down-IsDown i m (length_of_none m.sessions i gone) v)
    | inr (s, found) ↦
        let back = release_now-Returned i s m found v in
        rw (found, release_down)
          (release_down-IsDown i
            (with_sessions (remove_at i (release_now env s m).sessions) (release_now env s m))
            (rw back.sessions_kept (length-remove_at m.sessions i h))
            (Returned-IsSound i s m.core (release_now env s m).core found v back))
  ]

  -- From a sound state, `releaseAllSessionsNow` (on module unload) ends every session and releases
  -- every shared encoder set: none of either is left.
  pub release_all_sessions_now_lem :
      (m : Manager)
      → IsSound m.core
      → ((release_all_sessions_now env m).sessions ≡ [])
        × ((release_all_sessions_now env m).shared_encoders ≡ [])
  unfolding release_all_sessions_now
  release_all_sessions_now_lem m v =
      let down = release_down-IsDown (length m.sessions) m (omega arith) v in
      let empty : (release_down env (length m.sessions) m).sessions ≡ [] =
        no_sessions (release_down env (length m.sessions) m).sessions down.gone in
      (
        empty,
        no_sets (release_down env (length m.sessions) m).shared_encoders down.sound.table
            (λ k n. down.sound.counted k n ∙ rw empty (no_users k)),
      )
