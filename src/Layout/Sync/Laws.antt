-- ===== src/Layout/Sync/Laws.antt =====
-- core/layout-manager.cpp: the visible layout and the layout of the active scene.
use obs_dsk_multistream.Base.{
  ℕ, zero, suc, String, ◌≡◌, refl, ap, sym, ◌∙◌, ◌≢◌, true, Option, none, some, List, [], ◌∷◌,
  arith, is_empty, ◌⊎◌, if◌then◌else◌, subst, get_elem?, set, Qt, if_under, Option-cases, inl, inr,
  eq_refl, eq_iff,
}
use obs_dsk_multistream.Base.Doubles.{Doubles}
use obs_dsk_multistream.Layout.{
  VerticalLayout, VerticalLayoutItem, VerticalLayoutScene, LayoutManager, scene_index,
  select_vertical_scene,
}
use obs_dsk_multistream.Layout.Scenes.{scene_index-FoundIf}
use obs_dsk_multistream.Layout.Sync.{
  starting_scenes, head_id, activate_first, sync_first, sync_scene, apply_to,
  initialize_vertical_scenes, ensure_default_scene, with_layout, sync_at, sync_active_scene_layout,
  apply_template, templated,
}

-- There is an active scene, and its layout is the visible one.
abbrev pub IsSynced : LayoutManager → Type 0
IsSynced m =
    (i : ℕ) × (s : VerticalLayoutScene) × (scene_index m.active_vertical_scene_id m.vertical_scenes
      ≡ some i)
    × (get_elem? m.vertical_scenes i ≡ some s)
    × (s.layout ≡ m.vertical)

scene_index-set :
    (id : String) (ss : List VerticalLayoutScene) (i : ℕ) (s t : VerticalLayoutScene)
    → get_elem? ss i ≡ some s
    → t.id ≡ s.id
    → scene_index id (set ss i t) ≡ scene_index id ss
unfolding scene_index
scene_index-set id [] i s t at same = refl
scene_index-set id (x ∷ ss) zero s t at same = ground (arith, at, same)
scene_index-set id (x ∷ ss) (suc i) s t at same = rw (scene_index-set id ss i s t at same) refl

get_elem?-set :
    (ss : List VerticalLayoutScene) (i : ℕ) (s t : VerticalLayoutScene)
    → get_elem? ss i ≡ some s
    → get_elem? (set ss i t) i ≡ some t
get_elem?-set [] i s t at = absurd (ground arith)
get_elem?-set (x ∷ ss) zero s t at = refl
get_elem?-set (x ∷ ss) (suc i) s t at = get_elem?-set ss i s t at

scene_index-first :
    (s : VerticalLayoutScene) (ss : List VerticalLayoutScene) → scene_index s.id (s ∷ ss) ≡ some 0
unfolding scene_index
scene_index-first s ss = rw (eq_refl s.id) refl

module _ (qt : Qt) (dbl : Doubles) where
  ensure-some :
      (scenes : List VerticalLayoutScene) (m : LayoutManager)
      → m.vertical_scenes ≡ scenes
      → (ensure_default_scene qt dbl scenes m).vertical_scenes ≢ []
  unfolding ensure_default_scene
  ensure-some [] m h = λ e. absurd cc
  ensure-some (s ∷ ss) m h = λ e. absurd (let none_left : s ∷ ss ≡ [] = sym h ∙ e in cc)

  -- The state, with a default scene that is active if there was none.
  abbrev begun : LayoutManager → LayoutManager
  begun m = ensure_default_scene qt dbl m.vertical_scenes m

  -- The visible layout is as before, and of the scenes only one has changed: the layout of the
  -- scene that was active, or of the first one if none was, is now the visible one. That scene is
  -- active.
  pub record IsWritten (m m' : LayoutManager) : Type 0 where
    pub index : ℕ
    pub scene : VerticalLayoutScene
    pub visible : m'.vertical ≡ m.vertical
    pub held : get_elem? (begun m).vertical_scenes index ≡ some scene
    pub was_active :
        (scene_index (begun m).active_vertical_scene_id (begun m).vertical_scenes ≡ some index)
        ⊎ ((scene_index (begun m).active_vertical_scene_id (begun m).vertical_scenes ≡ none)
            × (index ≡ 0))
    pub now_active : scene_index m'.active_vertical_scene_id m'.vertical_scenes ≡ some index
    pub written :
        m'.vertical_scenes
        ≡ set (begun m).vertical_scenes index (record scene { layout = m.vertical })

  ensure-visible :
      (scenes : List VerticalLayoutScene) (m : LayoutManager)
      → (ensure_default_scene qt dbl scenes m).vertical ≡ m.vertical
  unfolding ensure_default_scene
  ensure-visible [] m = refl
  ensure-visible (s ∷ ss) m = refl

  sync_first-IsWritten :
      (m : LayoutManager) (scenes : List VerticalLayoutScene)
      → (begun m).vertical_scenes ≡ scenes
      → scenes ≢ []
      → scene_index (begun m).active_vertical_scene_id (begun m).vertical_scenes ≡ none
      → IsWritten m (sync_first qt dbl scenes (begun m))
  unfolding sync_first with_layout
  sync_first-IsWritten m [] h some_scene e = absurd (some_scene refl)
  sync_first-IsWritten m (s ∷ ss) h some_scene e = record {
    index = 0;
    scene = s;
    visible = ensure-visible m.vertical_scenes m;
    held = ap (λ scenes. get_elem? scenes 0) h;
    was_active = inr (e, refl);
    now_active = scene_index-first (with_layout qt dbl (begun m).vertical s) ss;
    written = rw (h, ensure-visible m.vertical_scenes m) refl;
  }

  sync_at-IsWritten :
      (m : LayoutManager) (o : Option ℕ)
      → scene_index (begun m).active_vertical_scene_id (begun m).vertical_scenes ≡ o
      → IsWritten m (sync_at qt dbl o (begun m))
  unfolding sync_at sync_scene with_layout
  sync_at-IsWritten m none e =
      sync_first-IsWritten m (begun m).vertical_scenes refl (ensure-some m.vertical_scenes m refl) e
  sync_at-IsWritten m (some i) e =
      let started = begun m in
      let (t, at, named) =
        scene_index-FoundIf started.active_vertical_scene_id started.vertical_scenes i e in
      subst (λ o. IsWritten m (sync_scene qt dbl i o started)) (sym at)
        (record {
          index = i;
          scene = t;
          visible = ensure-visible m.vertical_scenes m;
          held = at;
          was_active = inl e;
          now_active =
              scene_index-set started.active_vertical_scene_id started.vertical_scenes i t
                (with_layout qt dbl started.vertical t) at refl
              ∙ e;
          written = rw (ensure-visible m.vertical_scenes m) refl;
        })

  pub sync_active_scene_layout-IsWritten :
      (m : LayoutManager) → IsWritten m (sync_active_scene_layout qt dbl m)
  unfolding sync_active_scene_layout
  sync_active_scene_layout-IsWritten m = sync_at-IsWritten m _ refl

  activate_first-IsSynced :
      (m : LayoutManager) (scenes : List VerticalLayoutScene)
      → m.vertical_scenes ≡ scenes
      → scenes ≢ []
      → IsSynced (activate_first qt dbl scenes m)
  unfolding activate_first
  activate_first-IsSynced m [] h some_scene = absurd (some_scene refl)
  activate_first-IsSynced m (s ∷ ss) h some_scene = (
    0,
    s,
    ap (scene_index s.id) h ∙ scene_index-first s ss,
    ap (λ scenes. get_elem? scenes 0) h,
    refl,
  )

  starting_scenes-some :
      (scenes : List VerticalLayoutScene) (fallback : VerticalLayout)
      → starting_scenes qt dbl scenes fallback ≢ []
  unfolding starting_scenes
  starting_scenes-some [] fallback = λ e. absurd cc
  starting_scenes-some (s ∷ ss) fallback = λ e. absurd cc

  select_vertical_scene-IsSynced :
      (id : String) (m : LayoutManager)
      → (select_vertical_scene id m).1 ≡ true
      → IsSynced (select_vertical_scene id m).0
  unfolding select_vertical_scene
  select_vertical_scene-IsSynced id m done =
      elim (Option-cases (scene_index id m.vertical_scenes)) [
        | inl e ↦ absurd (ground (arith, done, e))
        | inr (i, e) ↦
            let (t, at, named) = scene_index-FoundIf id m.vertical_scenes i e in
            rw (e, at, select_vertical_scene)
              (
                i,
                t,
                ap (λ a. scene_index a m.vertical_scenes) ((eq_iff t.id id).0 named) ∙ e,
                at,
                refl,
              )
      ]

  -- After a start, with any saved scenes, the active scene exists and its layout is the visible one.
  pub initialize_vertical_scenes-IsSynced :
      (scenes : List VerticalLayoutScene) (active : String) (fallback : VerticalLayout)
      (m : LayoutManager)
      → IsSynced (initialize_vertical_scenes qt dbl scenes active fallback m)
  unfolding initialize_vertical_scenes
  initialize_vertical_scenes-IsSynced scenes active fallback m =
      let started : List VerticalLayoutScene = starting_scenes qt dbl scenes fallback in
      let id : String = if is_empty active then head_id qt dbl started else active in
      let marked : LayoutManager = record m {
        vertical_scenes = started;
        active_vertical_scene_id = id;
      } in
      if_under IsSynced (select_vertical_scene id marked).1
        (select_vertical_scene-IsSynced id marked)
        (λ e. activate_first-IsSynced marked started refl (starting_scenes-some scenes fallback))

  -- A template for a layout that has items is written into the active scene as well.
  apply_to-IsWritten :
      (items : List VerticalLayoutItem) (id : String) (m : LayoutManager)
      → items ≢ []
      → IsWritten
          (record m { vertical = templated qt dbl id m.vertical })
          (apply_to qt dbl items id m)
  unfolding apply_to
  apply_to-IsWritten [] id m h = absurd (h refl)
  apply_to-IsWritten (x ∷ xs) id m h = sync_active_scene_layout-IsWritten _

  apply_template-IsWritten :
      (id : String) (m : LayoutManager)
      → m.vertical.items ≢ []
      → IsWritten
          (record m { vertical = templated qt dbl id m.vertical })
          (apply_template qt dbl id m)
  unfolding apply_template
  apply_template-IsWritten id m some_item = apply_to-IsWritten m.vertical.items id m some_item
