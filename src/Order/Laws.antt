-- ===== src/Order/Laws.antt =====
-- Lemmas about reorderValuesByStableIds (core/stable-id-order.hpp).
use obs_dsk_multistream.Base.{
  suc, String, ◌≡◌, refl, subst, ap, ◌∙◌, Bool, true, false, not, ◌==◌, ◌&&◌, Option, some, List,
  [], ◌∷◌, map, arith, eqb, length, if_under, eq_iff, Option-cases, inl, inr,
}
use mathlib.Core.Option
use mathlib.Core.List.{Perm}
use mathlib.Core.List.Perm
use obs_dsk_multistream.Order.{take_match, take_all, reorder_values_by_stable_ids}

module _ {T : Type 0} (id_of : T → String) where
  unused : List (T × Bool) → List T
  unused [] = []
  unused ((v, true) ∷ ps) = unused ps
  unused ((v, false) ∷ ps) = v ∷ unused ps

  unused-fresh : (vs : List T) → unused (map (λ v. (v, false)) vs) ≡ vs
  unfolding unused
  unused-fresh [] = refl
  unused-fresh (v ∷ vs) = ap (λ ws. v ∷ ws) (unused-fresh vs)

  -- What a value that was taken has to do with the flags before and after.
  record Takes (id : String) (ps : List (T × Bool)) (r : T × List (T × Bool)) : Type 0 where
    pub named : id_of r.0 ≡ id
    pub kept : Perm (unused ps) (r.0 ∷ unused r.1)
    pub less : length (unused ps) ≡ suc (length (unused r.1))

  some-injective : (x y : T × List (T × Bool)) → some x ≡ some y → x ≡ y
  some-injective x y e = cc

  abbrev TakesIf : String → List (T × Bool) → Option (T × List (T × Bool)) → Type 0
  TakesIf id ps o = (r : T × List (T × Bool)) → o ≡ some r → Takes id ps r

  -- A match further on, behind a value that was taken or has another id.
  passed-Takes :
      (id : String) (v : T) (b : Bool) (ps : List (T × Bool)) (r : T × List (T × Bool))
      → Takes id ps r
      → Takes id ((v, b) ∷ ps) (r.0, (v, b) ∷ r.1)
  unfolding unused
  passed-Takes id v true ps r t = record { named = t.named; kept = t.kept; less = t.less }
  passed-Takes id v false ps r t = record {
    named = t.named;
    kept = Perm.trans (Perm.cons v t.kept) (Perm.swap r.0 v (unused r.1));
    less = omega (arith, t.less);
  }

  take_match-TakesIf : (id : String) (ps : List (T × Bool)) → TakesIf id ps (take_match id_of id ps)
  unfolding take_match unused
  take_match-TakesIf id [] = λ r h. absurd (ground (arith, h))
  take_match-TakesIf id ((v, used) ∷ ps) =
      let later : TakesIf id ((v, used) ∷ ps)
          (Option.map (λ r. (r.0, (v, used) ∷ r.1)) (take_match id_of id ps)) =
        elim (Option-cases (take_match id_of id ps)) [
          | inl missing ↦ rw missing (λ r h. absurd (ground (arith, h)))
          | inr (q, found) ↦ rw found (λ r h.
              subst (Takes id ((v, used) ∷ ps)) (some-injective (q.0, (v, used) ∷ q.1) r h)
                (passed-Takes id v used ps q (take_match-TakesIf id ps q found)))
        ] in
      if_under (TakesIf id ((v, used) ∷ ps)) (not used && id_of v == id)
        (λ here r h.
          subst (Takes id ((v, used) ∷ ps)) (some-injective (v, (v, true) ∷ ps) r h)
            (first used here))
        (λ elsewhere. later)
    where
      first :
          (b : Bool) → (not b && id_of v == id) ≡ true → Takes id ((v, b) ∷ ps) (v, (v, true) ∷ ps)
      first true h = absurd (ground (arith, h))
      first false h = record {
        named = (eq_iff (id_of v) id).0 h;
        kept = Perm.refl (v ∷ unused ps);
        less = refl;
      }

  -- What an answer of the loop has to do with the flags and the ids.
  record Orders (ids : List String) (ps : List (T × Bool)) (vs : List T) : Type 0 where
    pub in_order : map id_of vs ≡ ids
    pub all_kept : Perm (unused ps) vs

  abbrev OrdersIf : List String → List (T × Bool) → Option (List T) → Type 0
  OrdersIf ids ps o =
      length (unused ps) ≡ length ids → (vs : List T) → o ≡ some vs → Orders ids ps vs

  list-injective : (x y : List T) → some x ≡ some y → x ≡ y
  list-injective x y e = cc

  none_unused : (ps : List (T × Bool)) → length (unused ps) ≡ 0 → Perm (unused ps) []
  none_unused ps h = empty (unused ps) h
    where
      empty : (vs : List T) → length vs ≡ 0 → Perm vs []
      empty [] e = Perm.refl []
      empty (v ∷ vs) e = absurd (omega (arith, e))

  take_all-OrdersIf :
      (ids : List String) (ps : List (T × Bool)) → OrdersIf ids ps (take_all id_of ids ps)
  unfolding take_all
  take_all-OrdersIf [] ps = λ n vs h.
      subst (Orders [] ps) (list-injective [] vs h)
        (record { in_order = refl; all_kept = none_unused ps n })
  take_all-OrdersIf (id ∷ ids) ps = elim (Option-cases (take_match id_of id ps)) [
    | inl missing ↦ rw (missing, take_all) (λ n vs h. absurd (ground (arith, h)))
    | inr (r, found) ↦
        rw (found, take_all)
          (elim (Option-cases (take_all id_of ids r.1)) [
            | inl failed ↦ rw failed (λ n vs h. absurd (ground (arith, h)))
            | inr (ws, taken) ↦ rw taken (λ n vs h.
                let t : Takes id ps r = take_match-TakesIf id ps r found in
                let o : Orders ids r.1 ws =
                  take_all-OrdersIf ids r.1 (omega (arith, n, t.less)) ws taken in
                subst (Orders (id ∷ ids) ps) (list-injective (r.0 ∷ ws) vs h) (record {
                  in_order = rw t.named (ap (λ is. id ∷ is) o.in_order);
                  all_kept = Perm.trans t.kept (Perm.cons r.0 o.all_kept);
                }))
          ])
  ]

  abbrev Reorders : List T → List String → Option (List T) → Type 0
  Reorders values ids o = (vs : List T) → o ≡ some vs → Perm values vs × (map id_of vs ≡ ids)

  reorder-Reorders :
      (values : List T) (ids : List String)
      → Reorders values ids (reorder_values_by_stable_ids id_of values ids)
  unfolding reorder_values_by_stable_ids
  reorder-Reorders values ids =
      let fresh : List (T × Bool) = map (λ v. (v, false)) values in
      if_under (Reorders values ids) (eqb (length values) (length ids))
        (λ same vs h.
          let o : Orders ids fresh vs =
            take_all-OrdersIf ids fresh (ap length (unused-fresh values) ∙ ground (arith, same)) vs
              h in
          (subst (λ ws. Perm ws vs) (unused-fresh values) o.all_kept, o.in_order))
        (λ other vs h. absurd (ground (arith, h)))

  -- A reordering that `reorderValuesByStableIds` accepts is a permutation of the values, in the
  -- order of the given ids.
  pub reorder_values_by_stable_ids-Perm :
      (values : List T) (ordered_ids : List String) (reordered : List T)
      → reorder_values_by_stable_ids id_of values ordered_ids ≡ some reordered
      → Perm values reordered × (map id_of reordered ≡ ordered_ids)
  reorder_values_by_stable_ids-Perm values ordered_ids reordered =
      reorder-Reorders values ordered_ids reordered
