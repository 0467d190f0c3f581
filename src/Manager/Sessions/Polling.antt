-- ===== src/Manager/Sessions/Polling.antt =====
-- The delayed releases of a session whose output stays active (releaseSession of
-- core/output-manager.cpp).
use obs_dsk_multistream.Base.{
  ℕ, zero, suc, ◌+◌, ◌≤◌, ◌<◌, String, ◌≡◌, refl, subst, ◌∙◌, true, false, Option, none, some, List,
  [], ◌∷◌, arith, leb, get_elem?, set, if_under,
}
use obs_dsk_multistream.Manager.State.{
  Session, Env, Manager, schedule_release, obs_output_force_stop, emit,
}
use obs_dsk_multistream.Manager.Sessions.{
  release_index, drop_session, poll_release, release_output, release_session_at, release_session,
}

get_elem?-set :
    (ss : List Session) (i : ℕ) (s t : Session)
    → get_elem? ss i ≡ some s
    → get_elem? (set ss i t) i ≡ some t
get_elem?-set [] i s t h = cc
get_elem?-set (x ∷ ss) zero s t h = refl
get_elem?-set (x ∷ ss) (suc i) s t h = get_elem?-set ss i s t h

release_index-set :
    (id : String) (expected : ℕ) (ss : List Session) (i : ℕ) (s t : Session)
    → get_elem? ss i ≡ some s
    → t.target_id ≡ s.target_id
    → t.serial ≡ s.serial
    → release_index id expected (set ss i t) ≡ release_index id expected ss
unfolding release_index
release_index-set id expected [] i s t h a b = refl
release_index-set id expected (x ∷ ss) zero s t h a b = ground (arith, h, a, b)
release_index-set id expected (x ∷ ss) (suc i) s t h a b =
    rw (release_index-set id expected ss i s t h a b) refl

same_number : (a b : ℕ) → some b ≡ some a → a ≡ b
same_number a b e = ground (arith, e)

module _ (env : Env) (id : String) (serial : ℕ) where
  -- The timer of a release finds the session at a position, with an output that is active.
  pub record IsPolled (i o : ℕ) (s : Session) (m : Manager) : Type 0 where
    pub found : release_index id serial m.sessions ≡ some i
    pub listed : get_elem? m.sessions i ≡ some s
    pub held : s.output ≡ some o
    pub active : env.output_active o ≡ true
    pub up : m.shutting_down ≡ false

  -- The timer fires a number of times.
  unfoldable pub fire : ℕ → Manager → Manager
  fire zero m = m
  fire (suc n) m = fire n (release_session env id false serial m)

  active_output :
      (i o : ℕ) (s : Session) (m : Manager)
      → IsPolled i o s m
      → release_output env i s false o m ≡ poll_release env i s o m
  unfolding release_output
  active_output i o s m p =
      if_under (λ (m' : Manager). m' ≡ poll_release env i s o m) m.shutting_down
        (λ down. absurd (ground (arith, down, p.up)))
        (λ up.
          if_under (λ (m' : Manager). m' ≡ poll_release env i s o m) (env.output_active o)
            (λ a. refl) (λ idle. absurd (ground (arith, idle, p.active))))

  fired :
      (i o : ℕ) (s : Session) (m : Manager)
      → IsPolled i o s m
      → release_session env id false serial m ≡ poll_release env i s o m
  unfolding release_session release_session_at
  fired i o s m p =
      rw (p.found, release_session)
        (rw (p.listed, release_session_at) (with_output s.output p.held))
    where
      with_output :
          (h : Option ℕ)
          → h ≡ some o
          → (elim h as (λ _. Manager) [
            | none ↦ drop_session env i s m
            | some o' ↦ release_output env i s false o' m
          ])
            ≡ poll_release env i s o m
      with_output none e = absurd (ground (arith, e))
      with_output (some o') e =
          subst (λ q. release_output env i s false q m ≡ poll_release env i s o m)
            (same_number o o' e) (active_output i o s m p)

  waited-IsPolled :
      (i o : ℕ) (s : Session) (m : Manager)
      → IsPolled i o s m
      → s.release_polls + 1 < 5
      → IsPolled i o (record s { release_polls = s.release_polls + 1 }) (poll_release env i s o m)
  unfolding poll_release
  waited-IsPolled i o s m p few =
      let next : Session = record s { release_polls = s.release_polls + 1 } in
      if_under
        (λ (m' : Manager). IsPolled i o next (emit (schedule_release 1000 s.target_id s.serial) m'))
        (leb 5 (s.release_polls + 1)) (λ many. absurd (ground (arith, many, few)))
        (λ wait. record {
          found = release_index-set id serial m.sessions i s next p.listed refl refl ∙ p.found;
          listed = get_elem?-set m.sessions i s next p.listed;
          held = p.held;
          active = p.active;
          up = p.up;
        })

  forced :
      (i o : ℕ) (s : Session) (m : Manager)
      → 5 ≤ s.release_polls + 1
      → (poll_release env i s o m).log
        ≡ schedule_release 1000 s.target_id s.serial ∷ obs_output_force_stop o ∷ m.log
  unfolding poll_release
  forced i o s m many =
      if_under
        (λ (m' : Manager).
          (emit (schedule_release 1000 s.target_id s.serial) m').log
          ≡ schedule_release 1000 s.target_id s.serial ∷ obs_output_force_stop o ∷ m.log)
        (leb 5 (s.release_polls + 1)) (λ enough. refl) (λ few. absurd (ground (arith, few, many)))

  -- When the timer of a release keeps finding the same session with an active output, the fifth
  -- firing since its count was 0 asks OBS to force the stop, and sets the timer again: from a count
  -- of c it is the firing number 5 - c.
  pub fire-force_stop :
      (n i o : ℕ) (s : Session) (m : Manager)
      → IsPolled i o s m
      → s.release_polls + n ≡ 4
      → (fire (suc n) m).log
        ≡ schedule_release 1000 s.target_id s.serial ∷ obs_output_force_stop o ∷ (fire n m).log
  unfolding fire
  fire-force_stop zero i o s m p e = rw (fired i o s m p) (forced i o s m (omega (arith, e)))
  fire-force_stop (suc n) i o s m p e =
      rw (fired i o s m p, fire)
        (fire-force_stop n i o (record s { release_polls = s.release_polls + 1 })
          (poll_release env i s o m) (waited-IsPolled i o s m p (omega (arith, e)))
          (omega (arith, e)))
