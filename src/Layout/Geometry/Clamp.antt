-- ===== src/Layout/Geometry/Clamp.antt =====
-- core/vertical-layout-geometry.hpp: the numbers that normalizeVerticalLayoutGeometry chooses, one by one.
use obs_dsk_multistream.Base.{
  ℕ, zero, suc, ◌≤◌, ◌≡◌, refl, ap, ◌∙◌, true, false, not, ◌||◌, List, [], ◌∷◌, map, All, ℤ, pos,
  negsuc, ltb_ℤ, if_under, arith, length, inl, inr,
}
use obs_dsk_multistream.Base.Doubles.{Doubles, IsInt}
use obs_dsk_multistream.Layout.{VerticalLayoutItem}
use obs_dsk_multistream.Layout.Geometry.{
  first, normalized_dimension, neg, clamp, finite_or, positive_or,
}

ltb_ℤ_irrefl : (n : ℤ) → ltb_ℤ n n ≡ false
ltb_ℤ_irrefl (pos n) = ground arith
ltb_ℤ_irrefl (negsuc n) = ground arith

-- A dimension of a canvas.
abbrev pub IsDimension : ℤ → Type 0
IsDimension size = (n : ℕ) × (size ≡ pos n) × (64 ≤ n) × (n ≤ 16384)

pub normalized_dimension-IsDimension :
    (default size : ℤ) → IsDimension default → IsDimension (normalized_dimension default size)
unfolding normalized_dimension
normalized_dimension-IsDimension default (pos n) d =
    if_under IsDimension (ltb_ℤ (pos n) (pos 64) || ltb_ℤ (pos 16384) (pos n)) (λ e. d)
      λ e. (n, refl, ground arith, ground arith)
normalized_dimension-IsDimension default (negsuc n) d =
    if_under IsDimension (ltb_ℤ (negsuc n) (pos 64) || ltb_ℤ (pos 16384) (negsuc n)) (λ e. d)
      λ e. absurd (ground arith)

pub normalized_dimension-same :
    (default size : ℤ) → IsDimension size → normalized_dimension default size ≡ size
unfolding normalized_dimension
normalized_dimension-same default size (n, e, low, high) = ground arith

pub length-first-le : (n : ℕ) (items : List VerticalLayoutItem) → length (first n items) ≤ n
length-first-le zero items = omega arith
length-first-le (suc n) [] = omega arith
length-first-le (suc n) (item ∷ items) = omega (arith, length-first-le n items)

pub first-all : (n : ℕ) (items : List VerticalLayoutItem) → length items ≤ n → first n items ≡ items
first-all zero [] h = refl
first-all zero (item ∷ items) h = absurd (omega arith)
first-all (suc n) [] h = refl
first-all (suc n) (item ∷ items) h = ap (λ t. item ∷ t) (first-all n items (omega arith))

pub length-map {ℓ κ} :
    {A : Type ℓ} {B : Type κ} (f : A → B) (xs : List A) → length (map f xs) ≡ length xs
length-map f [] = refl
length-map f (x ∷ xs) = ap suc (length-map f xs)

-- The extents that occur are values of an `int`.
pub small : (n : ℕ) → n ≤ 262144 → IsInt (pos n)
small n h = (omega arith, omega arith)

pub small_neg : (n : ℕ) → n ≤ 262144 → IsInt (neg n)
small_neg zero h = (omega arith, omega arith)
small_neg (suc n) h = (omega arith, omega arith)

pub neg_below : (n : ℕ) → ltb_ℤ (pos n) (neg n) ≡ false
neg_below zero = ground arith
neg_below (suc n) = ground arith

pub map-All :
    (P : VerticalLayoutItem → Type 0) (f : VerticalLayoutItem → VerticalLayoutItem)
    → ((item : VerticalLayoutItem) → P (f item))
    → (items : List VerticalLayoutItem) → All P (map f items)
map-All P f h [] = tt
map-All P f h (item ∷ items) = (h item, map-All P f h items)

module _ (dbl : Doubles) where
  open dbl use {from_int, is_finite, less, is_finite-from_int, less-from_int, less_connected}

  -- A finite double between two integers.
  pub record IsWithin (low high : ℤ) (x : ℕ) : Type 0 where
    pub finite : is_finite x ≡ true
    pub above : less x (from_int low) ≡ false
    pub below : less (from_int high) x ≡ false

  pub clamp-IsWithin :
      (x : ℕ) (low high : ℤ)
      → IsInt low
      → IsInt high
      → ltb_ℤ high low ≡ false
      → is_finite x ≡ true
      → IsWithin low high (clamp dbl x low high)
  unfolding clamp
  clamp-IsWithin x low high il ih o f =
      if_under (IsWithin low high) (less x (from_int low))
        (λ e. record {
          finite = is_finite-from_int low il;
          above = less-from_int low low il il ∙ ltb_ℤ_irrefl low;
          below = less-from_int high low ih il ∙ o;
        })
        λ e.
          if_under (IsWithin low high) (less (from_int high) x)
            (λ e'. record {
              finite = is_finite-from_int high ih;
              above = less-from_int high low ih il ∙ o;
              below = less-from_int high high ih ih ∙ ltb_ℤ_irrefl high;
            })
            (λ e'. record { finite = f; above = e; below = e' })

  pub clamp-same : (x : ℕ) (low high : ℤ) → IsWithin low high x → clamp dbl x low high ≡ x
  unfolding clamp
  clamp-same x low high w = rw (w.above, w.below) refl

  pub finite_or-finite :
      (default : ℤ) (x : ℕ) → IsInt default → is_finite (finite_or dbl default x) ≡ true
  unfolding finite_or
  finite_or-finite default x i =
      if_under (λ v. is_finite v ≡ true) (is_finite x) (λ e. e) (λ e. is_finite-from_int default i)

  pub positive_or-finite :
      (default : ℤ) (x : ℕ) → IsInt default → is_finite (positive_or dbl default x) ≡ true
  unfolding positive_or
  positive_or-finite default x i =
      if_under (λ v. is_finite v ≡ true) (not (is_finite x) || not (less (from_int (pos 0)) x))
        (λ e. is_finite-from_int default i) (λ e. ground arith)

  pub finite_or-same : (default : ℤ) (x : ℕ) → is_finite x ≡ true → finite_or dbl default x ≡ x
  unfolding finite_or
  finite_or-same default x f = rw f refl

  pub positive_or-same :
      (default high : ℤ) (x : ℕ) → IsWithin (pos 1) high x → positive_or dbl default x ≡ x
  unfolding positive_or
  positive_or-same default high x w =
      elim (less_connected (from_int (pos 0)) x (from_int (pos 1))
        (less-from_int (pos 0) (pos 1) (small 0 (omega arith)) (small 1 (omega arith))) w.finite) [
          | inl e ↦ rw (w.finite, e) refl
          | inr e ↦ absurd (cc (e, w.above))
        ]
