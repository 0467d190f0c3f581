-- ===== src/Manager/Sessions/Counting.antt =====
-- The session list: how many sessions use an encoder key, and one session for each target.
use obs_dsk_multistream.Base.{
  ℕ, zero, suc, ◌+◌, ◌<◌, String, ◌≡◌, refl, true, false, none, some, List, [], ◌∷◌, ◌++◌, ◌==◌,
  arith, eq_iff, All, get_elem?, remove_at, set, is_some,
}
use obs_dsk_multistream.Manager.State.{Session, lookup_session}
use obs_dsk_multistream.Manager.Encoders.Counting.{hit}

-- The sessions that hold a reference to the key's encoders.
unfoldable pub users : String → List Session → ℕ
users k [] = 0
users k (s ∷ ss) = users k ss + hit s.shared_encoder_key k

-- No target has two sessions.
abbrev pub IsSingle : List Session → Type 0
IsSingle [] = Unit
IsSingle (s ∷ ss) = (lookup_session s.target_id ss ≡ none) × IsSingle ss

abbrev pub HasOutput : Session → Type 0
HasOutput s = is_some s.output ≡ true

-- A change that leaves the target, the key and the output of a session.
pub record SameHold (s t : Session) : Type 0 where
  pub target_kept : t.target_id ≡ s.target_id
  pub key_kept : t.shared_encoder_key ≡ s.shared_encoder_key
  pub output_kept : t.output ≡ s.output

pub users-remove_at :
    (k : String) (ss : List Session) (i : ℕ) (s : Session)
    → get_elem? ss i ≡ some s
    → users k ss ≡ users k (remove_at i ss) + hit s.shared_encoder_key k
unfolding users
users-remove_at k [] i s h = cc
users-remove_at k (t ∷ ss) zero s h = ground arith
users-remove_at k (t ∷ ss) (suc i) s h = omega (arith, users-remove_at k ss i s h)

pub users-push :
    (k : String) (ss : List Session) (s : Session)
    → users k (ss ++ (s ∷ [])) ≡ users k ss + hit s.shared_encoder_key k
unfolding users
users-push k [] s = omega arith
users-push k (t ∷ ss) s = omega (arith, users-push k ss s)

pub users-set :
    (k : String) (ss : List Session) (i : ℕ) (s t : Session)
    → get_elem? ss i ≡ some s
    → SameHold s t
    → users k (set ss i t) ≡ users k ss
unfolding users
users-set k [] i s t h same = cc
users-set k (x ∷ ss) zero s t h same = ground arith
users-set k (x ∷ ss) (suc i) s t h same = omega (arith, users-set k ss i s t h same)

lookup-remove_at :
    (id : String) (ss : List Session) (i : ℕ)
    → lookup_session id ss ≡ none
    → lookup_session id (remove_at i ss) ≡ none
unfolding lookup_session
lookup-remove_at id [] i h = refl
lookup-remove_at id (s ∷ ss) zero h = ground arith
lookup-remove_at id (s ∷ ss) (suc i) h = ground (arith, lookup-remove_at id ss i)

pub IsSingle-remove_at : (ss : List Session) (i : ℕ) → IsSingle ss → IsSingle (remove_at i ss)
IsSingle-remove_at [] i h = tt
IsSingle-remove_at (s ∷ ss) zero h = h.1
IsSingle-remove_at (s ∷ ss) (suc i) h =
    (lookup-remove_at s.target_id ss i h.0, IsSingle-remove_at ss i h.1)

lookup-push :
    (id : String) (ss : List Session) (s : Session)
    → lookup_session id ss ≡ none
    → (s.target_id == id) ≡ false
    → lookup_session id (ss ++ (s ∷ [])) ≡ none
unfolding lookup_session
lookup-push id [] s h n = ground arith
lookup-push id (t ∷ ss) s h n = ground (arith, lookup-push id ss s)

pub IsSingle-push :
    (ss : List Session) (s : Session)
    → IsSingle ss
    → lookup_session s.target_id ss ≡ none
    → IsSingle (ss ++ (s ∷ []))
unfolding lookup_session
IsSingle-push [] s h n = (refl, tt)
IsSingle-push (t ∷ ss) s h n = ground (
  arith,
  IsSingle-push ss s,
  lookup-push t.target_id ss s,
  eq_iff t.target_id s.target_id,
  eq_iff s.target_id t.target_id,
)

lookup-set :
    (id : String) (ss : List Session) (i : ℕ) (s t : Session)
    → get_elem? ss i ≡ some s
    → t.target_id ≡ s.target_id
    → lookup_session id ss ≡ none
    → lookup_session id (set ss i t) ≡ none
unfolding lookup_session
lookup-set id [] i s t h same n = refl
lookup-set id (x ∷ ss) zero s t h same n = ground arith
lookup-set id (x ∷ ss) (suc i) s t h same n = ground (arith, lookup-set id ss i s t h same)

pub IsSingle-set :
    (ss : List Session) (i : ℕ) (s t : Session)
    → get_elem? ss i ≡ some s
    → t.target_id ≡ s.target_id
    → IsSingle ss
    → IsSingle (set ss i t)
IsSingle-set [] i s t h same u = tt
IsSingle-set (x ∷ ss) zero s t h same u = ground arith
IsSingle-set (x ∷ ss) (suc i) s t h same u =
    (lookup-set x.target_id ss i s t h same u.0, IsSingle-set ss i s t h same u.1)

pub HasOutput-remove_at :
    (ss : List Session) (i : ℕ) → All HasOutput ss → All HasOutput (remove_at i ss)
HasOutput-remove_at [] i h = tt
HasOutput-remove_at (s ∷ ss) zero h = h.1
HasOutput-remove_at (s ∷ ss) (suc i) h = (h.0, HasOutput-remove_at ss i h.1)

pub HasOutput-set :
    (ss : List Session) (i : ℕ) (t : Session)
    → HasOutput t
    → All HasOutput ss
    → All HasOutput (set ss i t)
HasOutput-set [] i t o h = tt
HasOutput-set (s ∷ ss) zero t o h = (o, h.1)
HasOutput-set (s ∷ ss) (suc i) t o h = (h.0, HasOutput-set ss i t o h.1)

pub HasOutput-of :
    (ss : List Session) (i : ℕ) (s : Session)
    → get_elem? ss i ≡ some s
    → All HasOutput ss
    → HasOutput s
HasOutput-of [] i s h u = cc
HasOutput-of (x ∷ ss) zero s h u = ground arith
HasOutput-of (x ∷ ss) (suc i) s h u = HasOutput-of ss i s h u.1

pub users-held :
    (ss : List Session) (i : ℕ) (s : Session)
    → get_elem? ss i ≡ some s
    → 0 < users s.shared_encoder_key ss
users-held ss i s h = ground (
  arith,
  users-remove_at s.shared_encoder_key ss i s h,
  eq_iff s.shared_encoder_key s.shared_encoder_key,
)
