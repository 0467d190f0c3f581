-- ===== src/YouTube/Selection/Laws.antt =====
-- Lemmas about the choice of a broadcast (core/youtube-broadcast-selector.cpp).
use obs_dsk_multistream.Base.{
  String, ◌≡◌, ◌↔◌, refl, subst, Bool, true, false, not, ◌==◌, ◌&&◌, ◌||◌, Option, some, List, [],
  ◌∷◌, arith, if◌then◌else◌, if_cases, if_under, is_empty, length, All, Qt, eq_iff, Option-cases,
  Bool-cases, inl, inr,
}
use obs_dsk_multistream.YouTube.Selection.{
  Broadcast, Stream, YoutubeBroadcastSelection, selected, is_active, stream_of, collect, find_by_id,
  select_preferred, select_active, select_matching, select_youtube_broadcast,
}

-- The broadcasts that fit: active, and on the target's stream if its key is known.
abbrev pub fits : (String → Option Stream) → String → Broadcast → Bool
fits streams clean_key b =
    is_active streams b && (is_empty clean_key || (stream_of streams b).stream_name == clean_key)

unfoldable pub fitting : (String → Option Stream) → String → List Broadcast → List Broadcast
fitting streams clean_key [] = []
fitting streams clean_key (b ∷ bs) =
    if fits streams clean_key b
    then b ∷ fitting streams clean_key bs
    else fitting streams clean_key bs

abbrev eligible_of : String → List Broadcast × List Broadcast → List Broadcast
eligible_of clean_key p = if is_empty clean_key then p.0 else p.1

collect-fitting :
    (streams : String → Option Stream) (clean_key : String) (bs : List Broadcast)
    → eligible_of clean_key (collect streams clean_key bs) ≡ fitting streams clean_key bs
unfolding collect fitting
collect-fitting streams clean_key [] = ground arith
collect-fitting streams clean_key (b ∷ bs) = ground (arith, collect-fitting streams clean_key bs)

fitting-fits :
    (streams : String → Option Stream) (clean_key : String) (bs : List Broadcast)
    → All (λ b. fits streams clean_key b ≡ true) (fitting streams clean_key bs)
unfolding fitting
fitting-fits streams clean_key [] = tt
fitting-fits streams clean_key (b ∷ bs) =
    if_under (All (λ c. fits streams clean_key c ≡ true)) (fits streams clean_key b)
      (λ ok. (ok, fitting-fits streams clean_key bs)) (λ no. fitting-fits streams clean_key bs)

-- A selection answers only with broadcasts that have the property.
abbrev OnlyChooses : (Broadcast → Type 0) → YoutubeBroadcastSelection → Type 0
OnlyChooses P s = (b : Broadcast) → s.broadcast ≡ some b → P b

some-injective : (x y : Broadcast) → some x ≡ some y → x ≡ y
some-injective x y e = cc

module _ (P : Broadcast → Type 0) where
  find_by_id-found :
      (id : String) (bs : List Broadcast) (b : Broadcast)
      → All P bs
      → find_by_id id bs ≡ some b
      → P b × (b.id ≡ id)
  unfolding find_by_id
  find_by_id-found id [] b h = λ e. absurd (ground (arith, e))
  find_by_id-found id (c ∷ bs) b h =
      if_under (λ (o : Option Broadcast). o ≡ some b → P b × (b.id ≡ id)) (c.id == id)
        (λ same e.
          subst (λ d. P d × (d.id ≡ id)) (some-injective c b e) (h.0, (eq_iff c.id id).0 same))
        (λ other e. find_by_id-found id bs b h.1 e)

  select_preferred-OnlyChooses :
      (id : String) (bs : List Broadcast) → All P bs → OnlyChooses P (select_preferred id bs)
  unfolding select_preferred
  select_preferred-OnlyChooses id bs h = elim (Option-cases (find_by_id id bs)) [
    | inl missing ↦ rw (missing, select_preferred) (λ b e. absurd (ground (arith, e)))
    | inr (c, found) ↦
        rw (found, select_preferred)
          (λ b e. subst P (some-injective c b e) (find_by_id-found id bs c h found).0)
  ]

  select_active-OnlyChooses : (bs : List Broadcast) → All P bs → OnlyChooses P (select_active bs)
  unfolding select_active
  select_active-OnlyChooses [] h b e = absurd (ground (arith, e))
  select_active-OnlyChooses (c ∷ []) h b e = subst P (some-injective c b e) h.0
  select_active-OnlyChooses (c ∷ d ∷ bs) h b e = absurd (ground (arith, e))

  select_matching-OnlyChooses :
      (active bs : List Broadcast) → All P bs → OnlyChooses P (select_matching active bs)
  unfolding select_matching
  select_matching-OnlyChooses [] [] h b e = absurd (ground (arith, e))
  select_matching-OnlyChooses (a ∷ active) [] h b e = absurd (ground (arith, e))
  select_matching-OnlyChooses active (c ∷ []) h b e = subst P (some-injective c b e) h.0
  select_matching-OnlyChooses active (c ∷ d ∷ bs) h b e = absurd (ground (arith, e))

select_active-single_iff :
    (bs : List Broadcast) → ((select_active bs).state ≡ selected) ↔ (length bs ≡ 1)
unfolding select_active
select_active-single_iff [] = (λ h. ground (arith, h), λ h. ground (arith, h))
select_active-single_iff (b ∷ []) = (λ h. refl, λ h. refl)
select_active-single_iff (b ∷ c ∷ bs) =
    (λ h. absurd (ground (arith, h)), λ h. absurd (omega (arith, h)))

select_matching-single_iff :
    (active bs : List Broadcast) → ((select_matching active bs).state ≡ selected) ↔ (length bs ≡ 1)
unfolding select_matching
select_matching-single_iff [] [] = (λ h. ground (arith, h), λ h. ground (arith, h))
select_matching-single_iff (a ∷ active) [] = (λ h. ground (arith, h), λ h. ground (arith, h))
select_matching-single_iff [] (b ∷ []) = (λ h. refl, λ h. refl)
select_matching-single_iff (a ∷ active) (b ∷ []) = (λ h. refl, λ h. refl)
select_matching-single_iff [] (b ∷ c ∷ bs) =
    (λ h. absurd (ground (arith, h)), λ h. absurd (omega (arith, h)))
select_matching-single_iff (a ∷ active) (b ∷ c ∷ bs) =
    (λ h. absurd (ground (arith, h)), λ h. absurd (omega (arith, h)))

module _ (qt : Qt) (broadcasts : List Broadcast) (streams : String → Option Stream)
    (key preferred : String) where
  pub select_youtube_broadcast-fits :
      (b : Broadcast)
      → (select_youtube_broadcast qt broadcasts streams key preferred).broadcast ≡ some b
      → fits streams (qt.trimmed key) b ≡ true
  unfolding select_youtube_broadcast
  select_youtube_broadcast-fits =
      let clean_key : String = qt.trimmed key in
      let collected : List Broadcast × List Broadcast = collect streams clean_key broadcasts in
      let P : Broadcast → Type 0 = λ b. fits streams clean_key b ≡ true in
      let all : All P (eligible_of clean_key collected) =
        rw (collect-fitting streams clean_key broadcasts)
          (fitting-fits streams clean_key broadcasts) in
      if_cases (OnlyChooses P) (not (is_empty (qt.trimmed preferred)))
        (select_preferred-OnlyChooses P (qt.trimmed preferred) (eligible_of clean_key collected)
          all)
        (if_under (OnlyChooses P) (is_empty clean_key)
          (λ unknown.
            select_active-OnlyChooses P collected.0
              (subst (All P) (eligible_active unknown collected) all))
          (λ known.
            select_matching-OnlyChooses P collected.0 collected.1
              (subst (All P) (eligible_matching known collected) all)))
    where
      eligible_active :
          is_empty (qt.trimmed key) ≡ true
          → (p : List Broadcast × List Broadcast) → eligible_of (qt.trimmed key) p ≡ p.0
      eligible_active e p = rw e refl

      eligible_matching :
          is_empty (qt.trimmed key) ≡ false
          → (p : List Broadcast × List Broadcast) → eligible_of (qt.trimmed key) p ≡ p.1
      eligible_matching e p = rw e refl

  -- Without a preferred broadcast, `selectYouTubeBroadcast` selects one exactly when a single
  -- broadcast fits the target.
  pub select_youtube_broadcast-single_iff :
      qt.trimmed preferred ≡ ""
      → ((select_youtube_broadcast qt broadcasts streams key preferred).state ≡ selected)
        ↔ (length (fitting streams (qt.trimmed key) broadcasts) ≡ 1)
  unfolding select_youtube_broadcast
  select_youtube_broadcast-single_iff none_preferred =
      let clean_key : String = qt.trimmed key in
      let collected : List Broadcast × List Broadcast = collect streams clean_key broadcasts in
      rw (← collect-fitting streams clean_key broadcasts) (
        rw none_preferred (elim (Bool-cases (is_empty clean_key)) [
          | inl unknown ↦ rw unknown (select_active-single_iff collected.0)
          | inr known ↦ rw known (select_matching-single_iff collected.0 collected.1)
        ]))
