-- ===== src/Manager/Adding/Distinct.antt =====
-- core/output-manager.cpp: the ids of the targets after addTarget and addRuntimeTarget.
use obs_dsk_multistream.Base.{
  ℕ, zero, suc, ◌+◌, ◌≤◌, ◌<◌, String, ◌≡◌, refl, ap, sym, ◌∙◌, true, false, ◌==◌, ◌||◌, List, [],
  ◌∷◌, ◌++◌, map, is_empty, is_some, length, arith, if_under, Bool-cases, inl, inr, ◌⊎◌, eq_iff,
  eqb,
}
use obs_dsk_multistream.Settings.Disk.{File, content_at}
use obs_dsk_multistream.Settings.Disk.Laws.{free_name}
use obs_dsk_multistream.Target.{OutputTarget}
use obs_dsk_multistream.Manager.State.{Env, Manager, lookup_target}
use obs_dsk_multistream.Manager.Save.Ids.{HasDistinctIds, save-HasDistinctIds}
use obs_dsk_multistream.Manager.Save.Frame.{save-core, save-kept}
use obs_dsk_multistream.Manager.Adding.{
  remove_last, search_id, id_for, with_own_id, identified, add_target, add_runtime_target,
}

abbrev as_file : OutputTarget → File OutputTarget
as_file t = record { path = t.id; content = t }

lookup-content_at :
    (id : String) (ts : List OutputTarget) → content_at id (map as_file ts) ≡ lookup_target id ts
unfolding content_at lookup_target
lookup-content_at id [] = refl
lookup-content_at id (t ∷ ts) = rw (lookup-content_at id ts) refl

length-files : (ts : List OutputTarget) → length (map as_file ts) ≡ length ts
length-files [] = refl
length-files (t ∷ ts) = ap suc (length-files ts)

remove_last-append : (ts : List OutputTarget) (t : OutputTarget) → remove_last (ts ++ (t ∷ [])) ≡ ts
remove_last-append [] t = refl
remove_last-append (x ∷ []) t = refl
remove_last-append (x ∷ y ∷ ts) t = ap (λ us. x ∷ us) (remove_last-append (y ∷ ts) t)

lookup-append :
    (id : String) (ts : List OutputTarget) (t : OutputTarget)
    → is_some (lookup_target id (ts ++ (t ∷ []))) ≡ (is_some (lookup_target id ts) || t.id == id)
unfolding lookup_target
lookup-append id [] t = ground arith
lookup-append id (x ∷ ts) t = ground (arith, lookup-append id ts t)

HasDistinctIds-append :
    (ts : List OutputTarget) (t : OutputTarget)
    → HasDistinctIds ts
    → is_some (lookup_target t.id ts) ≡ false
    → HasDistinctIds (ts ++ (t ∷ []))
unfolding HasDistinctIds lookup_target
HasDistinctIds-append [] t d free = (refl, tt)
HasDistinctIds-append (x ∷ ts) t d free = (
  ground (arith, lookup-append x.id ts t, d.0, eq_iff t.id x.id, eq_iff x.id t.id),
  HasDistinctIds-append ts t d.1 (ground (arith, free)),
)

module _ (env : Env) where
  pub add_target-core : (t : OutputTarget) (m : Manager) → (add_target env t m).0.core ≡ m.core
  unfolding add_target
  add_target-core t m = ground (
    arith,
    save-core env
        (record m { targets = m.targets ++ (with_own_id env (identified env t) m.targets ∷ []) }),
  )

  pub add_runtime_target-core :
      (t : OutputTarget) (m : Manager) → (add_runtime_target env t m).0.core ≡ m.core
  unfolding add_runtime_target
  add_runtime_target-core t m = refl

  module _ (distinct : (i j : ℕ) → env.new_target_id i ≡ env.new_target_id j → i ≡ j) where
    suc-le-free :
        (ts : List OutputTarget) (i first : ℕ)
        → first ≤ i
        → is_some (lookup_target (env.new_target_id first) ts) ≡ true
        → is_some (lookup_target (env.new_target_id i) ts) ≡ false
        → suc first ≤ i
    suc-le-free ts i first low taken free = elim (Bool-cases (eqb i first)) [
      | inl e ↦ absurd (let same : i ≡ first = ground arith in cc (same, taken, free))
      | inr e ↦ ground arith
    ]

    search_id-free :
        (turns first : ℕ) (ts : List OutputTarget) (i : ℕ)
        → first ≤ i
        → i < first + turns
        → is_some (lookup_target (env.new_target_id i) ts) ≡ false
        → is_some (lookup_target (search_id env turns first ts) ts) ≡ false
    unfolding search_id
    search_id-free zero first ts i low high free = absurd (omega arith)
    search_id-free (suc turns) first ts i low high free =
        if_under (λ id. is_some (lookup_target id ts) ≡ false)
          (is_some (lookup_target (env.new_target_id first) ts))
          (λ taken.
            search_id-free turns (suc first) ts i (suc-le-free ts i first low taken free)
              (omega arith) free)
          (λ e. e)

    -- The id of a new target is not in the list.
    id_for-free :
        (id : String) (ts : List OutputTarget)
        → is_some (lookup_target (id_for env id ts) ts) ≡ false
    unfolding id_for
    id_for-free id ts =
        let (i, low, high, free) =
          free_name env.new_target_id distinct (suc (length ts)) 0 (map as_file ts)
            (omega (arith, length-files ts)) in
        if_under (λ id. is_some (lookup_target id ts) ≡ false)
          (is_empty id || is_some (lookup_target id ts))
          (λ e.
            search_id-free (suc (length ts)) 0 ts i low (omega arith)
              (ap is_some (sym (lookup-content_at (env.new_target_id i) ts)) ∙ free))
          (λ e. ground arith)

    -- Adding a target keeps the ids of the targets distinct, whether the target's own id is new, in
    -- use or empty, if newTargetId does not repeat itself; a target that cannot be saved is not added.
    pub add_target-HasDistinctIds :
        (t : OutputTarget) (m : Manager)
        → HasDistinctIds m.targets
        → HasDistinctIds (add_target env t m).0.targets
          × (((add_target env t m).1 ≡ true) ⊎ ((add_target env t m).0.targets ≡ m.targets))
    unfolding add_target with_own_id
    add_target-HasDistinctIds t m d =
        let added : OutputTarget = with_own_id env (identified env t) m.targets in
        let more : Manager = record m { targets = m.targets ++ (added ∷ []) } in
        ground (
          arith,
          d,
          save-HasDistinctIds env more (
              HasDistinctIds-append m.targets added d
                (id_for-free (identified env t).id m.targets)),
          save-kept env more,
          remove_last-append m.targets added,
        )

    -- The id of a target for this run is not in use before, and the ids stay distinct.
    pub add_runtime_target-HasDistinctIds :
        (t : OutputTarget) (m : Manager)
        → HasDistinctIds m.targets
        → HasDistinctIds (add_runtime_target env t m).0.targets
          × (is_some (lookup_target (add_runtime_target env t m).1 m.targets) ≡ false)
    unfolding add_runtime_target with_own_id
    add_runtime_target-HasDistinctIds t m d = (
      HasDistinctIds-append m.targets _ d (id_for-free t.id m.targets),
      id_for-free t.id m.targets,
    )
