-- ===== src/Manager/Encoders/Counting.antt =====
-- The reference counts of the shared encoder sets, as numbers for each key.
use obs_dsk_multistream.Base.{
  ℕ, ◌+◌, ◌-◌, ◌<◌, String, ◌≡◌, ◌≢◌, refl, ◌==◌, none, some, List, [], ◌∷◌, if◌then◌else◌, arith,
  eq_iff, All,
}
use obs_dsk_multistream.Manager.State.{SharedEncoderSet}
use obs_dsk_multistream.Manager.Encoders.{lookup_set, modify_set, remove_set, one_more, one_less}

-- 1 for the key itself, 0 for any other.
abbrev pub hit : String → String → ℕ
hit key k = if key == k then 1 else 0

unfoldable pub refs_of : String → List SharedEncoderSet → ℕ
refs_of k [] = 0
refs_of k (s ∷ ss) = if s.key == k then s.refs else refs_of k ss

-- A key names one set at most.
abbrev pub IsDistinct : List SharedEncoderSet → Type 0
IsDistinct [] = Unit
IsDistinct (s ∷ ss) = (lookup_set s.key ss ≡ none) × IsDistinct ss

-- A set that is kept has a user, and a key.
abbrev pub IsUsed : SharedEncoderSet → Type 0
IsUsed s = (0 < s.refs) × (s.key ≢ "")

pub record IsTable (ss : List SharedEncoderSet) : Type 0 where
  pub used : All IsUsed ss
  pub distinct : IsDistinct ss

pub refs_of-none :
    (k : String) (ss : List SharedEncoderSet) → lookup_set k ss ≡ none → refs_of k ss ≡ 0
unfolding lookup_set refs_of
refs_of-none k [] h = refl
refs_of-none k (s ∷ ss) h = ground (arith, refs_of-none k ss)

pub refs_of-some :
    (k : String) (ss : List SharedEncoderSet) (s : SharedEncoderSet)
    → lookup_set k ss ≡ some s
    → All IsUsed ss
    → (refs_of k ss ≡ s.refs) × (s.key ≡ k) × (0 < s.refs)
unfolding lookup_set refs_of
refs_of-some k [] s h u = cc
refs_of-some k (t ∷ ss) s h u = ground (arith, refs_of-some k ss s, eq_iff t.key k)

module _ (key k : String) where
  pub refs_of-more :
      (ss : List SharedEncoderSet) (s : SharedEncoderSet)
      → lookup_set key ss ≡ some s
      → refs_of k (modify_set key one_more ss) ≡ refs_of k ss + hit key k
  unfolding lookup_set refs_of modify_set
  refs_of-more [] s h = cc
  refs_of-more (t ∷ ss) s h =
      ground (arith, refs_of-more ss s, eq_iff t.key k, eq_iff t.key key, eq_iff key k)

  pub refs_of-less :
      (ss : List SharedEncoderSet) (s : SharedEncoderSet)
      → lookup_set key ss ≡ some s
      → All IsUsed ss
      → refs_of k (modify_set key one_less ss) + hit key k ≡ refs_of k ss
  unfolding lookup_set refs_of modify_set
  refs_of-less [] s h u = cc
  refs_of-less (t ∷ ss) s h u =
      ground (arith, refs_of-less ss s, eq_iff t.key k, eq_iff t.key key, eq_iff key k)

  pub refs_of-remove :
      (ss : List SharedEncoderSet) (s : SharedEncoderSet)
      → lookup_set key ss ≡ some s
      → s.refs ≡ 1
      → IsDistinct ss
      → refs_of k (remove_set key ss) + hit key k ≡ refs_of k ss
  unfolding lookup_set refs_of remove_set
  refs_of-remove [] s h one d = cc
  refs_of-remove (t ∷ ss) s h one d = ground (
    arith,
    refs_of-remove ss s,
    eq_iff t.key k,
    eq_iff t.key key,
    eq_iff key k,
    refs_of-none k ss,
  )

lookup-modify :
    (key k : String) (f : SharedEncoderSet → SharedEncoderSet) (ss : List SharedEncoderSet)
    → ((s : SharedEncoderSet) → (f s).key ≡ s.key)
    → lookup_set k ss ≡ none
    → lookup_set k (modify_set key f ss) ≡ none
unfolding lookup_set modify_set
lookup-modify key k f [] same h = refl
lookup-modify key k f (s ∷ ss) same h = ground (arith, same s, lookup-modify key k f ss same)

pub IsDistinct-modify :
    (key : String) (f : SharedEncoderSet → SharedEncoderSet) (ss : List SharedEncoderSet)
    → ((s : SharedEncoderSet) → (f s).key ≡ s.key)
    → IsDistinct ss
    → IsDistinct (modify_set key f ss)
unfolding modify_set
IsDistinct-modify key f [] same d = tt
IsDistinct-modify key f (s ∷ ss) same d =
    ground (arith, same s, lookup-modify key s.key f ss same, IsDistinct-modify key f ss same d.1)

lookup-remove :
    (key k : String) (ss : List SharedEncoderSet)
    → lookup_set k ss ≡ none
    → lookup_set k (remove_set key ss) ≡ none
unfolding lookup_set remove_set
lookup-remove key k [] h = refl
lookup-remove key k (s ∷ ss) h = ground (arith, lookup-remove key k ss)

pub IsTable-remove :
    (key : String) (ss : List SharedEncoderSet) → IsTable ss → IsTable (remove_set key ss)
unfolding remove_set
IsTable-remove key [] t = t
IsTable-remove key (s ∷ ss) t =
    let rest : IsTable (remove_set key ss) =
      IsTable-remove key ss (record { used = t.used.1; distinct = t.distinct.1 }) in
    record { used = ground arith; distinct = ground (arith, lookup-remove key s.key ss) }

pub IsUsed-more :
    (key : String) (ss : List SharedEncoderSet)
    → All IsUsed ss
    → All IsUsed (modify_set key one_more ss)
unfolding modify_set
IsUsed-more key [] u = tt
IsUsed-more key (s ∷ ss) u = ground (arith, IsUsed-more key ss)

pub IsUsed-less :
    (key : String) (ss : List SharedEncoderSet) (s : SharedEncoderSet)
    → lookup_set key ss ≡ some s
    → 0 < s.refs - 1
    → All IsUsed ss
    → All IsUsed (modify_set key one_less ss)
unfolding modify_set lookup_set
IsUsed-less key [] s h more u = tt
IsUsed-less key (t ∷ ss) s h more u = ground (arith, IsUsed-less key ss s)
