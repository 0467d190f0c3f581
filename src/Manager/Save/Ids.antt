-- ===== src/Manager/Save/Ids.antt =====
-- core/output-manager.cpp: the ids of the targets, and that OutputManager::save keeps them.
use obs_dsk_multistream.Base.{
  String, ◌≡◌, refl, ◌∙◌, false, ◌==◌, List, [], ◌∷◌, is_some, arith, if_cases,
}
use obs_dsk_multistream.Target.{OutputTarget}
use obs_dsk_multistream.Manager.State.{Env, Manager, lookup_target, modify_target}
use obs_dsk_multistream.Manager.Save.{save, adopt_refs, persistent_targets}

-- No two targets have the same id.
unfoldable pub HasDistinctIds : List OutputTarget → Type 0
HasDistinctIds [] = Unit
HasDistinctIds (t ∷ ts) = (is_some (lookup_target t.id ts) ≡ false) × HasDistinctIds ts

lookup-modify :
    (x id : String) (f : OutputTarget → OutputTarget)
    → ((t : OutputTarget) → (f t).id ≡ t.id)
    → (ts : List OutputTarget)
    → is_some (lookup_target x (modify_target id f ts)) ≡ is_some (lookup_target x ts)
unfolding lookup_target modify_target
lookup-modify x id f same [] = refl
lookup-modify x id f same (t ∷ ts) = ground (arith, same t, lookup-modify x id f same ts)

HasDistinctIds-modify :
    (id : String) (f : OutputTarget → OutputTarget)
    → ((t : OutputTarget) → (f t).id ≡ t.id)
    → (ts : List OutputTarget) → HasDistinctIds ts
    → HasDistinctIds (modify_target id f ts)
unfolding HasDistinctIds modify_target
HasDistinctIds-modify id f same [] d = tt
HasDistinctIds-modify id f same (t ∷ ts) d =
    if_cases HasDistinctIds (t.id == id) (rw (same t) d)
      (lookup-modify t.id id f same ts ∙ d.0, HasDistinctIds-modify id f same ts d.1)

HasDistinctIds-adopt_refs :
    (saved ts : List OutputTarget) → HasDistinctIds ts → HasDistinctIds (adopt_refs saved ts)
unfolding adopt_refs
HasDistinctIds-adopt_refs [] ts d = d
HasDistinctIds-adopt_refs (s ∷ ss) ts d =
    HasDistinctIds-adopt_refs ss _ (HasDistinctIds-modify s.id _ (λ t. refl) ts d)

module _ (env : Env) where
  pub save-HasDistinctIds :
      (m : Manager) → HasDistinctIds m.targets → HasDistinctIds (save env m).0.targets
  unfolding save
  save-HasDistinctIds m d = ground (
    arith,
    HasDistinctIds-adopt_refs (persistent_targets m.runtime_target_ids m.targets) m.targets d,
  )
