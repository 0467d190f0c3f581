-- ===== src/Layout/Geometry.antt =====
-- core/vertical-layout-geometry.hpp, fitModeToString and fitModeFromString of
-- core/layout-manager.cpp, and normalizeLoadedVerticalLayout of core/settings-codec.cpp: the bounds
-- of a canvas, of its items and of their crops.
pub mod Clamp
pub mod Laws
use obs_dsk_multistream.Base.{
  ℕ, zero, suc, ◌*◌, String, Bool, true, false, not, ◌==◌, ◌&&◌, ◌||◌, List, [], ◌∷◌, map, ℤ, pos,
  negsuc, pos_part, ltb, ltb_ℤ, if◌then◌else◌, is_empty, Qt,
}
use obs_dsk_multistream.Base.Doubles.{Doubles}
use obs_dsk_multistream.Layout.{
  FitMode, fit, fill, stretch, Rect, VerticalLayoutItem, VerticalLayout,
}

unfoldable pub fit_mode_to_string : FitMode → String
fit_mode_to_string fit = "fit"
fit_mode_to_string fill = "fill"
fit_mode_to_string stretch = "stretch"

unfoldable pub fit_mode_from_string : String → FitMode
fit_mode_from_string value =
    if value == "fit" then fit else if value == "stretch" then stretch else fill

-- QVector::resize to a smaller size
abbrev pub first : ℕ → List VerticalLayoutItem → List VerticalLayoutItem
first zero items = []
first (suc n) [] = []
first (suc n) (item ∷ items) = item ∷ first n items

abbrev is_fit : FitMode → Bool
is_fit fit = true
is_fit _ = false

-- A canvas size between 64 and 16384.
unfoldable pub normalized_dimension : ℤ → ℤ → ℤ
normalized_dimension default size =
    if ltb_ℤ size (pos 64) || ltb_ℤ (pos 16384) size then default else size

-- 16 times the larger dimension; the normalized ones are positive.
unfoldable pub maximum_extent : VerticalLayout → ℕ
maximum_extent layout =
    16
    * (if ltb (pos_part layout.width) (pos_part layout.height)
        then pos_part layout.height
        else pos_part layout.width)

abbrev pub neg : ℕ → ℤ
neg zero = pos 0
neg (suc n) = negsuc n

module _ (dbl : Doubles) where
  open dbl use {from_int, is_finite, less, same}

  -- std::clamp
  unfoldable pub clamp : ℕ → ℤ → ℤ → ℕ
  clamp x low high =
      if less x (from_int low)
      then from_int low
      else if less (from_int high) x
      then from_int high
      else x

  unfoldable pub finite_or : ℤ → ℕ → ℕ
  finite_or default x = if is_finite x then x else from_int default

  unfoldable pub positive_or : ℤ → ℕ → ℕ
  positive_or default x =
      if not (is_finite x) || not (less (from_int (pos 0)) x) then from_int default else x

  unfoldable pub normalized_item : VerticalLayout → VerticalLayoutItem → VerticalLayoutItem
  normalized_item layout item =
      let extent = maximum_extent layout in
      record item {
        rect = record {
          x = clamp (finite_or (pos 0) item.rect.x) (neg extent) (pos extent);
          y = clamp (finite_or (pos 0) item.rect.y) (neg extent) (pos extent);
          width = clamp (positive_or layout.width item.rect.width) (pos 1) (pos extent);
          height = clamp (positive_or layout.height item.rect.height) (pos 1) (pos extent);
        };
        crop = record {
          x = clamp (finite_or (pos 0) item.crop.x) (pos 0) (pos extent);
          y = clamp (finite_or (pos 0) item.crop.y) (pos 0) (pos extent);
          width = clamp (finite_or (pos 0) item.crop.width) (pos 0) (pos extent);
          height = clamp (finite_or (pos 0) item.crop.height) (pos 0) (pos extent);
        };
      }

  unfoldable pub sized : VerticalLayout → VerticalLayout
  sized layout = record layout {
    width = normalized_dimension (pos 1080) layout.width;
    height = normalized_dimension (pos 1920) layout.height;
    items = first 512 layout.items;
  }

  unfoldable pub normalize_vertical_layout_geometry : VerticalLayout → VerticalLayout
  normalize_vertical_layout_geometry layout =
      let canvas = sized layout in
      record canvas { items = map (normalized_item canvas) canvas.items }

  abbrev same_rect : Rect → ℤ → ℤ → ℤ → ℤ → Bool
  same_rect r x y w h =
      same r.x (from_int x)
      && same r.y (from_int y)
      && same r.width (from_int w)
      && same r.height (from_int h)

  -- A single item that shows nothing and fills the default canvas.
  is_placeholder : VerticalLayoutItem → Bool
  is_placeholder item =
      is_empty item.source_name
      && item.visible
      && is_fit item.fit_mode
      && same_rect item.rect (pos 0) (pos 0) (pos 1080) (pos 1920)
      && same_rect item.crop (pos 0) (pos 0) (pos 0) (pos 0)

  unfoldable pub named_items : Qt → List VerticalLayoutItem → List VerticalLayoutItem
  named_items qt [] = []
  named_items qt (item ∷ items) =
      let rest = named_items qt items in
      if is_empty (qt.trimmed item.source_name) then rest else item ∷ rest

  without_placeholder : List VerticalLayoutItem → List VerticalLayoutItem
  without_placeholder (item ∷ []) = if is_placeholder item then [] else item ∷ []
  without_placeholder items = items

  unfoldable pub normalize_loaded_vertical_layout : Qt → VerticalLayout → VerticalLayout
  unfolding without_placeholder is_placeholder
  normalize_loaded_vertical_layout qt layout =
      let bounded = normalize_vertical_layout_geometry layout in
      record bounded { items = without_placeholder (named_items qt bounded.items) }
