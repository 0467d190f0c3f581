-- ===== src/Manager/Routes/Undone.antt =====
-- core/output-manager.cpp: what setTargetSceneMode, upsertTargetSceneRoute and refreshSceneIdentities
-- leave as it was.
use obs_dsk_multistream.Base.{
  String, ◌≡◌, refl, ◌⊎◌, Bool, true, false, some, none, not, ◌||◌, All, Bool-cases, if_under, ap,
  subst, sym, ◌∙◌, Option, List, [], ◌∷◌, map, arith, is_empty, is_some, if_cases, Option-cases,
  inl, inr, eq_iff,
}
use mathlib.Core.Option
use obs_dsk_multistream.Manager.Save.{adopt_refs, save, persistent_targets}
use obs_dsk_multistream.Target.{OutputTarget, TargetSceneMode, TargetSceneRoute, is_follow_obs}
use obs_dsk_multistream.Manager.State.{
  Env, Manager, find_target, update_target, lookup_target, modify_target, session_for_target,
}
use obs_dsk_multistream.Manager.Save.Frame.{save-core, save-kept}
use obs_dsk_multistream.Manager.Routes.{
  RouteEdit, set_scene_mode, set_route, edit_routes, announced, moded, unmoded, set_mode,
  set_target_scene_mode, is_route_of, named_routes, put_route, save_routes, put_found,
  upsert_target_scene_route, synced_target, synced_link, refresh_scene_identities,
}

-- Writing a target and then undoing the change.
modify-undo :
    (id : String) (f g : OutputTarget → OutputTarget) (ts : List OutputTarget) (t : OutputTarget)
    → lookup_target id ts ≡ some t
    → (f t).id ≡ t.id
    → g (f t) ≡ t
    → modify_target id g (modify_target id f ts) ≡ ts
unfolding lookup_target modify_target
modify-undo id f g [] t h same back = refl
modify-undo id f g (x ∷ ts) t h same back = ground (arith, modify-undo id f g ts t, eq_iff x.id id)

-- What an edit of a target's scenes is about.
pub record ShownScenes : Type 0 where
  pub mode : TargetSceneMode
  pub name : String
  pub routes : List TargetSceneRoute

abbrev pub shown_of : OutputTarget → ShownScenes
shown_of t = record { mode = t.scene_mode; name = t.scene_name; routes = t.scene_routes }

abbrev pub shown_in : String → List OutputTarget → Option ShownScenes
shown_in id ts = Option.map shown_of (lookup_target id ts)

-- A write that leaves the scenes of a target alone.
shown_in-modify :
    (x id : String) (f : OutputTarget → OutputTarget)
    → ((t : OutputTarget) → (f t).id ≡ t.id)
    → ((t : OutputTarget) → shown_of (f t) ≡ shown_of t)
    → (ts : List OutputTarget) → shown_in x (modify_target id f ts) ≡ shown_in x ts
unfolding lookup_target modify_target
shown_in-modify x id f same kept [] = refl
shown_in-modify x id f same kept (t ∷ ts) =
    ground (arith, same t, kept t, shown_in-modify x id f same kept ts)

shown_in-adopt_refs :
    (id : String) (saved ts : List OutputTarget)
    → shown_in id (adopt_refs saved ts) ≡ shown_in id ts
unfolding adopt_refs
shown_in-adopt_refs id [] ts = refl
shown_in-adopt_refs id (s ∷ ss) ts =
    shown_in-adopt_refs id ss _ ∙ shown_in-modify id s.id _ (λ t. refl) (λ t. refl) ts

-- A write to the target with the id.
shown_in-edited :
    (id : String) (f : OutputTarget → OutputTarget)
    → ((t : OutputTarget) → (f t).id ≡ t.id)
    → (ts : List OutputTarget) (t : OutputTarget) → lookup_target id ts ≡ some t
    → shown_in id (modify_target id f ts) ≡ some (shown_of (f t))
unfolding lookup_target modify_target
shown_in-edited id f same [] t h = absurd cc
shown_in-edited id f same (x ∷ ts) t h = ground (arith, same x, shown_in-edited id f same ts t)

-- A route that is one of the routes.
abbrev pub Among : TargetSceneRoute → List TargetSceneRoute → Type 0
Among r [] = ⊥
Among r (q ∷ qs) = (q ≡ r) ⊎ Among r qs

-- A route that is new and leads to a scene, or that has a property.
abbrev pub NewOr : TargetSceneRoute → (TargetSceneRoute → Type 0) → TargetSceneRoute → Type 0
NewOr new P r = ((r ≡ new) × (is_empty new.output_scene_name ≡ false)) ⊎ P r

-- The routes after an edit: the new one is among them, if it leads to a scene, and all others were
-- there before.
abbrev pub IsRerouted : TargetSceneRoute → List TargetSceneRoute → List TargetSceneRoute → Type 0
IsRerouted new before rs =
    ((is_empty new.output_scene_name ≡ true) ⊎ Among new rs)
    × All (NewOr new (λ r. Among r before)) rs

All-weaken :
    (P Q : TargetSceneRoute → Type 0)
    → ((r : TargetSceneRoute) → P r → Q r)
    → (rs : List TargetSceneRoute) → All P rs
    → All Q rs
All-weaken P Q w [] h = tt
All-weaken P Q w (r ∷ rs) h = (w r h.0, All-weaken P Q w rs h.1)

All-Among : (rs : List TargetSceneRoute) → All (λ r. Among r rs) rs
All-Among [] = tt
All-Among (r ∷ rs) = (
  inl refl,
  All-weaken (λ q. Among q rs) (λ q. Among q (r ∷ rs)) (λ q h. inr h) rs (All-Among rs),
)

module _ (env : Env) where
  moded-id :
      (mode : TargetSceneMode) (fallback : String) (t : OutputTarget)
      → (moded env mode fallback t).id ≡ t.id
  unfolding moded
  moded-id mode fallback t = refl

  unmoded-moded :
      (mode : TargetSceneMode) (fallback : String) (t : OutputTarget)
      → unmoded env t (moded env mode fallback t) ≡ t
  unfolding moded unmoded
  unmoded-moded mode fallback t = refl

  -- What an edit needs: a route belongs to a scene.
  abbrev pub names_scene : RouteEdit → Bool
  names_scene (set_scene_mode mode fallback) = true
  names_scene (set_route obs output) = not (is_empty (env.trimmed obs))

  abbrev pub route_to : String → String → TargetSceneRoute
  route_to obs output = record {
    obs_scene_name = env.trimmed obs;
    obs_scene_uuid = env.obs_scene_uuid_for_name (env.trimmed obs);
    output_scene_name = env.trimmed output;
    output_scene_uuid = env.obs_scene_uuid_for_name (env.trimmed output);
  }

  -- What the target shows after the edit.
  abbrev pub Shows : RouteEdit → OutputTarget → Option ShownScenes → Type 0
  Shows (set_scene_mode mode fallback) t o =
      o ≡ some (record { mode = mode; name = env.trimmed fallback; routes = t.scene_routes })
  Shows (set_route obs output) t o =
      (rs : List TargetSceneRoute) × (o
        ≡ some (record { mode = t.scene_mode; name = t.scene_name; routes = rs }))
      × IsRerouted (route_to obs output) t.scene_routes rs

  -- An edit that was done: of a target that is known and has no session, and saved.
  pub record IsEdited (id : String) (edit : RouteEdit) (m : Manager) (r : Manager × Bool)
      : Type 0 where
    pub done : r.1 ≡ true
    pub before : OutputTarget
    pub known : find_target m id ≡ some before
    pub idle : is_some (session_for_target m id) ≡ false
    pub named : names_scene edit ≡ true
    pub write : OutputTarget → OutputTarget
    pub taken : (save env (update_target id write m)).1 ≡ true
    pub saved : r.0.targets ≡ (save env (update_target id write m)).0.targets
    pub shows : Shows edit before (shown_in id r.0.targets)

  -- Why an edit is refused.
  pub data Refusal (id : String) (edit : RouteEdit) (m : Manager) : Type 0 where
    unknown : find_target m id ≡ none → Refusal id edit m
    running : is_some (session_for_target m id) ≡ true → Refusal id edit m
    unnamed : names_scene edit ≡ false → Refusal id edit m
    unsaved :
        (write : OutputTarget → OutputTarget)
        → (save env (update_target id write m)).1 ≡ false
        → Refusal id edit m

  -- Of an edit of a target's scenes: it was done, or it was refused for a reason and every target is
  -- as before; the sessions stay in both cases.
  abbrev pub IsDoneOrKept : String → RouteEdit → Manager → Manager × Bool → Type 0
  IsDoneOrKept id edit m r =
      (r.0.core ≡ m.core)
      × (IsEdited id edit m r ⊎ ((r.1 ≡ false) × (r.0.targets ≡ m.targets) × Refusal id edit m))

  save-shown :
      (id : String) (m : Manager) → shown_in id (save env m).0.targets ≡ shown_in id m.targets
  unfolding save
  save-shown id m =
      ground (
        arith,
        shown_in-adopt_refs id (persistent_targets m.runtime_target_ids m.targets) m.targets,
      )

  put_route-new :
      (new : TargetSceneRoute) (rs : List TargetSceneRoute)
      → (is_empty new.output_scene_name ≡ true) ⊎ Among new (put_route env new rs)
  unfolding put_route
  put_route-new new [] = elim (Bool-cases (is_empty new.output_scene_name)) [
    | inl blank ↦ inl blank
    | inr given ↦ rw given (inr (inl refl))
  ]
  put_route-new new (r ∷ rs) = elim (Bool-cases (is_empty new.output_scene_name)) [
    | inl blank ↦ inl blank
    | inr given ↦ rw given (
        if_cases (λ qs. (false ≡ true) ⊎ Among new qs)
          (is_route_of env new.obs_scene_name new.obs_scene_uuid r) (inr (inl refl))
          (elim (put_route-new new rs) [
            | inl blank ↦ absurd (ground (arith, blank, given))
            | inr among ↦ inr (inr among)
          ]))
  ]

  put_route-All :
      (new : TargetSceneRoute) (P : TargetSceneRoute → Type 0) (rs : List TargetSceneRoute)
      → All P rs
      → All (NewOr new P) (put_route env new rs)
  unfolding put_route
  put_route-All new P [] h =
      if_under (All (NewOr new P)) (is_empty new.output_scene_name) (λ blank. tt)
        (λ given. (inl (refl, given), tt))
  put_route-All new P (r ∷ rs) h =
      let stays = All-weaken P (NewOr new P) (λ q p. inr p) rs h.1 in
      if_cases (All (NewOr new P)) (is_route_of env new.obs_scene_name new.obs_scene_uuid r)
        (if_under (All (NewOr new P)) (is_empty new.output_scene_name) (λ blank. stays)
          (λ given. (inl (refl, given), stays)))
        (inr h.0, put_route-All new P rs h.1)

  named_routes-All :
      (P : TargetSceneRoute → Type 0) (rs : List TargetSceneRoute)
      → All P rs
      → All P (named_routes env rs)
  unfolding named_routes
  named_routes-All P [] h = tt
  named_routes-All P (r ∷ rs) h =
      if_cases (All P)
        (is_empty (env.trimmed r.obs_scene_name) || is_empty (env.trimmed r.output_scene_name))
        (named_routes-All P rs h.1) (h.0, named_routes-All P rs h.1)

  put_route-IsRerouted :
      (new : TargetSceneRoute) (rs : List TargetSceneRoute)
      → IsRerouted new rs (put_route env new (named_routes env rs))
  put_route-IsRerouted new rs = (
    put_route-new new (named_routes env rs),
    put_route-All new (λ r. Among r rs) _ (named_routes-All (λ r. Among r rs) rs (All-Among rs)),
  )

  moded-shown :
      (mode : TargetSceneMode) (fallback : String) (t : OutputTarget)
      → Shows (set_scene_mode mode fallback) t (some (shown_of (moded env mode fallback t)))
  unfolding moded
  moded-shown mode fallback t = refl

  module _ (id : String) (m : Manager) (t : OutputTarget) (found : find_target m id ≡ some t)
      (idle : is_some (session_for_target m id) ≡ false) where
    -- An edit that is saved, by a state that has the targets of the save.
    saved-IsDoneOrKept :
        (edit : RouteEdit) (write : OutputTarget → OutputTarget) (m' : Manager)
        → names_scene edit ≡ true
        → (save env (update_target id write m)).1 ≡ true
        → m'.core ≡ (save env (update_target id write m)).0.core
        → m'.targets ≡ (save env (update_target id write m)).0.targets
        → ((u : OutputTarget) → (write u).id ≡ u.id)
        → Shows edit t (some (shown_of (write t)))
        → IsDoneOrKept id edit m (m', true)
    unfolding update_target find_target
    saved-IsDoneOrKept edit write m' named ok c ts same shows = (
      c ∙ save-core env (update_target id write m),
      inl (record {
        done = refl;
        before = t;
        known = found;
        idle = idle;
        named = named;
        write = write;
        taken = ok;
        saved = ts;
        shows =
            subst (Shows edit t)
              (sym (
                ap (shown_in id) ts
                ∙ (save-shown id (update_target id write m)
                    ∙ shown_in-edited id write same m.targets t found)))
              shows;
      }),
    )

    -- An edit that is not saved, and undone.
    undone-IsDoneOrKept :
        (edit : RouteEdit) (write undo : OutputTarget → OutputTarget) (m' : Manager)
        → (save env (update_target id write m)).1 ≡ false
        → m'.core ≡ (save env (update_target id write m)).0.core
        → m'.targets ≡ modify_target id undo (save env (update_target id write m)).0.targets
        → (write t).id ≡ t.id
        → undo (write t) ≡ t
        → IsDoneOrKept id edit m (m', false)
    unfolding update_target find_target
    undone-IsDoneOrKept edit write undo m' failed c ts same back = (
      c ∙ save-core env (update_target id write m),
      inr (
        refl,
        ts
            ∙ (ap (modify_target id undo) (save-kept env (update_target id write m) failed)
                ∙ modify-undo id write undo m.targets t found same back),
        unsaved write failed,
      ),
    )

    set_mode-kept :
        (mode : TargetSceneMode) (fallback : String)
        → IsDoneOrKept id (set_scene_mode mode fallback) m (set_mode env id mode fallback t m)
    unfolding set_mode announced update_target
    set_mode-kept mode fallback =
        let edit = set_scene_mode mode fallback in
        let write = moded env mode fallback in
        elim (Bool-cases (save env (update_target id write m)).1) [
          | inl ok ↦ rw ok (
              if_cases (IsDoneOrKept id edit m) (is_follow_obs mode)
                (saved-IsDoneOrKept edit write _ refl ok refl refl (moded-id mode fallback)
                  (moded-shown mode fallback t))
                (saved-IsDoneOrKept edit write _ refl ok refl refl (moded-id mode fallback)
                  (moded-shown mode fallback t)))
          | inr failed ↦ rw failed (
              undone-IsDoneOrKept edit write (unmoded env t) _ failed refl refl
                (moded-id mode fallback t) (unmoded-moded mode fallback t))
        ]

    save_routes-kept :
        (obs output : String)
        → not (is_empty (env.trimmed obs)) ≡ true
        → IsDoneOrKept id (set_route obs output) m (
            save_routes env id
              (put_route env (route_to obs output) (named_routes env t.scene_routes))
              t.scene_routes
              m)
    unfolding save_routes announced update_target
    save_routes-kept obs output named =
        let edit = set_route obs output in
        let rs = put_route env (route_to obs output) (named_routes env t.scene_routes) in
        let write : OutputTarget → OutputTarget = λ u. record u { scene_routes = rs } in
        elim (Bool-cases (save env (update_target id write m)).1) [
          | inl ok ↦ rw ok (
              saved-IsDoneOrKept edit write _ named ok refl refl (λ u. refl)
                (rs, refl, put_route-IsRerouted (route_to obs output) t.scene_routes))
          | inr failed ↦ rw failed (
              undone-IsDoneOrKept edit write (λ u. record u { scene_routes = t.scene_routes }) _
                failed refl refl refl refl)
        ]

  -- An edit that is refused at once.
  refused :
      (id : String) (edit : RouteEdit) (m m' : Manager)
      → m'.core ≡ m.core
      → m'.targets ≡ m.targets
      → Refusal id edit m
      → IsDoneOrKept id edit m (m', false)
  refused id edit m m' c ts why = (c, inr (refl, ts, why))

  set_target_scene_mode-kept :
      (id : String) (mode : TargetSceneMode) (fallback : String) (m : Manager)
      → IsDoneOrKept id
          (set_scene_mode mode fallback)
          m
          (set_target_scene_mode env id mode fallback m)
  unfolding set_target_scene_mode
  set_target_scene_mode-kept id mode fallback m =
      let edit = set_scene_mode mode fallback in
      elim (Option-cases (find_target m id)) [
        | inl e ↦ rw (e, set_target_scene_mode) (refused id edit m m refl refl (unknown e))
        | inr (t, e) ↦
            rw (e, set_target_scene_mode)
              (if_under (IsDoneOrKept id edit m) (is_some (session_for_target m id))
                (λ busy. refused id edit m _ refl refl (running busy))
                (λ idle. set_mode-kept id m t e idle mode fallback))
      ]

  put_found-kept :
      (id obs output : String) (m : Manager)
      → not (is_empty (env.trimmed obs)) ≡ true
      → IsDoneOrKept id (set_route obs output) m (put_found env id (route_to obs output) m)
  unfolding put_found
  put_found-kept id obs output m named =
      let edit = set_route obs output in
      elim (Option-cases (find_target m id)) [
        | inl e ↦ rw (e, put_found) (refused id edit m m refl refl (unknown e))
        | inr (t, e) ↦
            rw (e, put_found)
              (if_under (IsDoneOrKept id edit m) (is_some (session_for_target m id))
                (λ busy. refused id edit m _ refl refl (running busy))
                (λ idle. save_routes-kept id m t e idle obs output named))
      ]

  upsert_target_scene_route-kept :
      (id obs output : String) (m : Manager)
      → IsDoneOrKept id (set_route obs output) m (upsert_target_scene_route env id obs output m)
  unfolding upsert_target_scene_route
  upsert_target_scene_route-kept id obs output m =
      if_under (IsDoneOrKept id (set_route obs output) m) (is_empty (env.trimmed obs))
        (λ blank. refused id (set_route obs output) m m refl refl (unnamed (ap not blank)))
        (λ given. put_found-kept id obs output m (ap not given))

  -- An edit of the scenes that a target shows leaves the sessions alone. It is done: the target is
  -- known and has no session, a route's scene has a name, the edit is saved, and the target has the
  -- mode and the name, or has the new route, if it leads to a scene, and no others than before. Or it
  -- is refused, because the target is unknown, has a session, the route's scene has no name or the
  -- edit cannot be saved, and every target is as before.
  pub edit_routes-kept :
      (id : String) (edit : RouteEdit) (m : Manager)
      → IsDoneOrKept id edit m (edit_routes env id edit m)
  unfolding edit_routes
  edit_routes-kept id (set_scene_mode mode fallback) m =
      set_target_scene_mode-kept id mode fallback m
  edit_routes-kept id (set_route obs output) m = upsert_target_scene_route-kept id obs output m

  pub refresh_scene_identities-core : (m : Manager) → (refresh_scene_identities env m).core ≡ m.core
  unfolding refresh_scene_identities
  refresh_scene_identities-core m = ground (
    arith,
    save-core env (record m {
      targets = map (synced_target env) m.targets;
      scene_links = map (synced_link env) m.scene_links;
    }),
  )
