-- ===== src/Manager/Collection/Ended.antt =====
-- core/output-manager.cpp: the sessions that prepareForSceneCollectionChange leaves.
use obs_dsk_multistream.Base.{
  ℕ, suc, String, ◌≡◌, refl, ◌∙◌, ap, sym, Bool-cases, Bool, true, not, ◌&&◌, false, ◌==◌, ◌||◌,
  Option, none, some, List, [], ◌∷◌, arith, All, get_elem?, remove_at, if◌then◌else◌, if_cases,
  if_under, inl, inr, eq_refl, eq_iff,
}
use mathlib.Core.Option
use obs_dsk_multistream.Target.{
  OutputTarget, EncoderGroup, dsk_horizontal, dsk_vertical, is_horizontal, is_vertical,
  is_follow_obs,
}
use obs_dsk_multistream.Manager.Encoders.{target_uses_scene_canvas}
use obs_dsk_multistream.Manager.State.{Session, Core, Env, Manager, lookup_session, find_target}
use obs_dsk_multistream.Manager.Sessions.Counting.{IsSingle}
use obs_dsk_multistream.Manager.Sessions.Invariant.{IsSound}
use obs_dsk_multistream.Manager.Sessions.Shutdown.{release_now-Returned}
use obs_dsk_multistream.Manager.Collection.{
  is_scene_dependent, scene_dependent_ids, session_index, end_session, end_sessions, told_stopped,
  prepare_for_scene_collection_change, forget_session-core, end_session-IsSound,
  prepare_for_scene_collection_change-IsSound,
}

-- A session of a target that is unknown, or that is horizontal and shows OBS's own program.
unfoldable pub shows_program : Manager → Session → Bool
shows_program m s = elim (find_target m s.target_id) [
  | none ↦ true
  | some target ↦ is_horizontal target.encoder_group && is_follow_obs target.scene_mode
]

shows_program-dependent :
    (m : Manager) (s : Session) → shows_program m s ≡ not (is_scene_dependent m s)
unfolding shows_program target_uses_scene_canvas
shows_program-dependent m s = by_target (find_target m s.target_id)
  where
    by_group :
        (group : EncoderGroup) (follows : Bool)
        → (is_horizontal group && follows)
          ≡ not (is_vertical group || (is_horizontal group && not follows))
    by_group dsk_horizontal true = refl
    by_group dsk_horizontal false = refl
    by_group dsk_vertical follows = refl

    by_target :
        (o : Option OutputTarget)
        → (elim o as (λ _. Bool) [
          | none ↦ true
          | some t ↦ is_horizontal t.encoder_group && is_follow_obs t.scene_mode
        ])
          ≡ not (elim o as (λ _. Bool) [
            | none ↦ false
            | some t ↦ is_vertical t.encoder_group || target_uses_scene_canvas t
          ])
    by_target none = refl
    by_target (some t) = by_group t.encoder_group (is_follow_obs t.scene_mode)

-- The sessions that go on.
unfoldable pub independent : Manager → List Session → List Session
independent m [] = []
independent m (s ∷ ss) = let rest = independent m ss in if shows_program m s then s ∷ rest else rest

-- The sessions without the first one of a target.
without : String → List Session → List Session
without id [] = []
without id (s ∷ ss) = let rest = without id ss in if s.target_id == id then ss else s ∷ rest

without_all : List String → List Session → List Session
without_all [] ss = ss
without_all (id ∷ ids) ss = without_all ids (without id ss)

-- What `session_index` finds is the session that is taken out.
FoundIf : String → List Session → Option ℕ → Type 0
FoundIf id ss none = without id ss ≡ ss
FoundIf id ss (some i) =
    (s : Session) × (get_elem? ss i ≡ some s) × (remove_at i ss ≡ without id ss)

session_index-FoundIf : (id : String) (ss : List Session) → FoundIf id ss (session_index id ss)
unfolding session_index without FoundIf
session_index-FoundIf id [] = refl
session_index-FoundIf id (s ∷ ss) =
    if_under (λ o. FoundIf id (s ∷ ss) o) (s.target_id == id) (λ own. (s, refl, rw own refl))
      (λ other. later (session_index id ss) (session_index-FoundIf id ss) other)
  where
    later :
        (o : Option ℕ)
        → FoundIf id ss o
        → (s.target_id == id) ≡ false
        → FoundIf id (s ∷ ss) (Option.map suc o)
    later none e other = rw other (ap (λ ts. s ∷ ts) e)
    later (some i) (t, at, e) other = (t, at, rw other (ap (λ ts. s ∷ ts) e))

-- A session of another target stays.
without_all-other :
    (ids : List String) (s : Session) (ss : List Session)
    → All (λ id. (s.target_id == id) ≡ false) ids
    → without_all ids (s ∷ ss) ≡ s ∷ without_all ids ss
unfolding without_all without
without_all-other [] s ss h = refl
without_all-other (id ∷ ids) s ss h = rw h.0 (without_all-other ids s (without id ss) h.1)

others :
    (m : Manager) (s : Session) (ss : List Session)
    → lookup_session s.target_id ss ≡ none
    → All (λ id. (s.target_id == id) ≡ false) (scene_dependent_ids m ss)
unfolding scene_dependent_ids lookup_session
others m s [] h = tt
others m s (t ∷ ts) h =
    let rest = others m s ts (ground (arith, h)) in
    let other : (s.target_id == t.target_id) ≡ false =
      ground (arith, h, eq_iff s.target_id t.target_id, eq_iff t.target_id s.target_id) in
    if_cases (All (λ id. (s.target_id == id) ≡ false)) (is_scene_dependent m t) (other, rest) rest

stopped-independent :
    (m : Manager) (s : Session) (ss : List Session)
    → shows_program m s ≡ false
    → independent m (s ∷ ss) ≡ independent m ss
unfolding independent
stopped-independent m s ss e = rw e refl

going-independent :
    (m : Manager) (s : Session) (ss : List Session)
    → shows_program m s ≡ true
    → independent m (s ∷ ss) ≡ s ∷ independent m ss
unfolding independent
going-independent m s ss e = rw e refl

-- Taking out the sessions of scene-dependent targets leaves the independent ones.
without_all-independent :
    (m : Manager) (ss : List Session)
    → IsSingle ss
    → without_all (scene_dependent_ids m ss) ss ≡ independent m ss
unfolding scene_dependent_ids independent without_all without
without_all-independent m [] h = refl
without_all-independent m (s ∷ ss) h =
    let rest = without_all-independent m ss h.1 in
    let own : without s.target_id (s ∷ ss) ≡ ss = rw (eq_refl s.target_id) refl in
    elim (Bool-cases (is_scene_dependent m s)) [
      | inl dependent ↦
          let taken : without_all (scene_dependent_ids m (s ∷ ss)) (s ∷ ss) ≡ independent m ss =
            rw dependent (ap (without_all (scene_dependent_ids m ss)) own ∙ rest) in
          taken ∙ sym (stopped-independent m s ss (shows_program-dependent m s ∙ ap not dependent))
      | inr free ↦
          let kept : without_all (scene_dependent_ids m (s ∷ ss)) (s ∷ ss) ≡ s ∷ independent m ss =
            rw free (
              without_all-other (scene_dependent_ids m ss) s ss (others m s ss h.0)
              ∙ ap (λ ts. s ∷ ts) rest) in
          kept ∙ sym (going-independent m s ss (shows_program-dependent m s ∙ ap not free))
    ]

module _ (env : Env) where
  end_session-sessions :
      (id : String) (m : Manager)
      → IsSound m.core
      → (end_session env id m).sessions ≡ without id m.sessions
  unfolding end_session FoundIf
  end_session-sessions id m v =
      by_index (session_index id m.sessions) (session_index-FoundIf id m.sessions) refl
    where
      by_index :
          (o : Option ℕ)
          → FoundIf id m.sessions o
          → session_index id m.sessions ≡ o
          → (end_session env id m).sessions ≡ without id m.sessions
      by_index none e at = rw (at, end_session) (sym e)
      by_index (some i) (s, found, e) at =
          let back = release_now-Returned env i s m found v in
          rw (at, found, end_session)
            (ap (λ (c : Core). c.sessions) (forget_session-core env id _)
              ∙ (ap (remove_at i) back.sessions_kept ∙ e))

  end_sessions-sessions :
      (ids : List String) (m : Manager)
      → IsSound m.core
      → (end_sessions env ids m).sessions ≡ without_all ids m.sessions
  unfolding end_sessions without_all
  end_sessions-sessions [] m v = refl
  end_sessions-sessions (id ∷ ids) m v =
      end_sessions-sessions ids (end_session env id m) (end_session-IsSound env id m v)
      ∙ ap (without_all ids) (end_session-sessions id m v)

  told_stopped-sessions :
      (ids : List String) (m : Manager) → (told_stopped env ids m).sessions ≡ m.sessions
  told_stopped-sessions [] m = refl
  told_stopped-sessions (id ∷ ids) m = refl

  -- From a sound state that is not shutting down, prepareForSceneCollectionChange leaves exactly the
  -- sessions, in their order, whose targets are unknown, or are horizontal and show OBS's own program,
  -- and the encoders are counted by these: the state is sound.
  pub prepare_for_scene_collection_change-ended :
      (m : Manager)
      → IsSound m.core
      → (m.shutting_down || m.unload_prepared) ≡ false
      → ((prepare_for_scene_collection_change env m).sessions ≡ independent m m.sessions)
        × IsSound (prepare_for_scene_collection_change env m).core
  unfolding prepare_for_scene_collection_change
  prepare_for_scene_collection_change-ended m v up =
      let ids = scene_dependent_ids m m.sessions in
      (
        rw up (
            told_stopped-sessions ids _
            ∙ (end_sessions-sessions ids m v ∙ without_all-independent m m.sessions v.single)),
        prepare_for_scene_collection_change-IsSound env m v,
      )
