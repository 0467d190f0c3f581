-- ===== src/Layout/Geometry/Laws.antt =====
-- core/vertical-layout-geometry.hpp: the bounds that normalizeVerticalLayoutGeometry sets, and that
-- it changes nothing the second time.
use obs_dsk_multistream.Base.{ℕ, ◌≤◌, ◌≡◌, refl, List, [], ◌∷◌, map, All, ℤ, pos, arith, length}
use obs_dsk_multistream.Base.Doubles.{Doubles, IsInt}
use obs_dsk_multistream.Layout.{VerticalLayout, VerticalLayoutItem}
use obs_dsk_multistream.Layout.Geometry.{
  first, maximum_extent, neg, normalized_item, sized, normalize_vertical_layout_geometry,
}
use obs_dsk_multistream.Layout.Geometry.Clamp.{
  normalized_dimension-IsDimension, normalized_dimension-same, length-first-le, first-all,
  length-map, small, small_neg, neg_below, map-All, IsDimension, clamp-IsWithin, clamp-same,
  finite_or-finite, positive_or-finite, finite_or-same, positive_or-same, IsWithin,
}

module _ (dbl : Doubles) where
  open dbl use {from_int, is_finite, less}

  -- A rectangle inside the extent of a canvas, and a crop of it.
  record IsInside (extent : ℕ) (item : VerticalLayoutItem) : Type 0 where
    x : IsWithin dbl (neg extent) (pos extent) item.rect.x
    y : IsWithin dbl (neg extent) (pos extent) item.rect.y
    width : IsWithin dbl (pos 1) (pos extent) item.rect.width
    height : IsWithin dbl (pos 1) (pos extent) item.rect.height
    left : IsWithin dbl (pos 0) (pos extent) item.crop.x
    top : IsWithin dbl (pos 0) (pos extent) item.crop.y
    right : IsWithin dbl (pos 0) (pos extent) item.crop.width
    bottom : IsWithin dbl (pos 0) (pos extent) item.crop.height

  -- A canvas of 64 to 16384 by 64 to 16384 with at most 512 items, each of them inside 16 times the
  -- larger dimension.
  pub record IsBounded (layout : VerticalLayout) : Type 0 where
    width : IsDimension layout.width
    height : IsDimension layout.height
    few : length layout.items ≤ 512
    items : All (IsInside (maximum_extent layout)) layout.items

  extent_range :
      (layout : VerticalLayout)
      → IsDimension layout.width
      → IsDimension layout.height
      → (1024 ≤ maximum_extent layout) × (maximum_extent layout ≤ 262144)
  unfolding maximum_extent
  extent_range layout (w, ew, lw, hw) (h, eh, lh, hh) = rw (ew, eh) (ground arith, ground arith)

  dimension-IsInt : (size : ℤ) → IsDimension size → IsInt size
  dimension-IsInt size (n, e, low, high) = rw e (small n (omega arith))

  normalized_item-IsInside :
      (layout : VerticalLayout)
      → IsDimension layout.width
      → IsDimension layout.height
      → (item : VerticalLayoutItem)
      → IsInside (maximum_extent layout) (normalized_item dbl layout item)
  unfolding normalized_item
  normalized_item-IsInside layout w h item =
      let (least, most) = extent_range layout w h in
      let iw = dimension-IsInt layout.width w in
      let ih = dimension-IsInt layout.height h in
      let zero_int = small 0 (omega arith) in
      let one_int = small 1 (omega arith) in
      let ext = small (maximum_extent layout) most in
      let minus = small_neg (maximum_extent layout) most in
      record {
        x =
            clamp-IsWithin dbl _ _ _ minus ext (neg_below _)
              (finite_or-finite dbl (pos 0) _ zero_int);
        y =
            clamp-IsWithin dbl _ _ _ minus ext (neg_below _)
              (finite_or-finite dbl (pos 0) _ zero_int);
        width = clamp-IsWithin dbl _ _ _ one_int ext (ground arith) (positive_or-finite dbl _ _ iw);
        height =
            clamp-IsWithin dbl _ _ _ one_int ext (ground arith) (positive_or-finite dbl _ _ ih);
        left =
            clamp-IsWithin dbl _ _ _ zero_int ext (ground arith)
              (finite_or-finite dbl (pos 0) _ zero_int);
        top =
            clamp-IsWithin dbl _ _ _ zero_int ext (ground arith)
              (finite_or-finite dbl (pos 0) _ zero_int);
        right =
            clamp-IsWithin dbl _ _ _ zero_int ext (ground arith)
              (finite_or-finite dbl (pos 0) _ zero_int);
        bottom =
            clamp-IsWithin dbl _ _ _ zero_int ext (ground arith)
              (finite_or-finite dbl (pos 0) _ zero_int);
      }

  -- Every layout is bounded after the normalization.
  pub normalize_vertical_layout_geometry-IsBounded :
      (layout : VerticalLayout) → IsBounded (normalize_vertical_layout_geometry dbl layout)
  unfolding normalize_vertical_layout_geometry sized maximum_extent
  normalize_vertical_layout_geometry-IsBounded layout =
      let w =
        normalized_dimension-IsDimension (pos 1080) layout.width
          (1080, refl, omega arith, omega arith) in
      let h =
        normalized_dimension-IsDimension (pos 1920) layout.height
          (1920, refl, omega arith, omega arith) in
      record {
        width = w;
        height = h;
        few = rw (length-map) (length-first-le 512 layout.items);
        items =
            map-All (IsInside (maximum_extent (sized dbl layout)))
              (normalized_item dbl (sized dbl layout))
              (normalized_item-IsInside (sized dbl layout) w h) (first 512 layout.items);
      }

  normalized_item-same :
      (layout : VerticalLayout) (item : VerticalLayoutItem)
      → IsInside (maximum_extent layout) item
      → normalized_item dbl layout item ≡ item
  unfolding normalized_item
  normalized_item-same layout item i = rw (
    finite_or-same dbl (pos 0) _ i.x.finite,
    finite_or-same dbl (pos 0) _ i.y.finite,
    positive_or-same dbl layout.width _ _ i.width,
    positive_or-same dbl layout.height _ _ i.height,
    finite_or-same dbl (pos 0) _ i.left.finite,
    finite_or-same dbl (pos 0) _ i.top.finite,
    finite_or-same dbl (pos 0) _ i.right.finite,
    finite_or-same dbl (pos 0) _ i.bottom.finite,
    clamp-same dbl _ _ _ i.x,
    clamp-same dbl _ _ _ i.y,
    clamp-same dbl _ _ _ i.width,
    clamp-same dbl _ _ _ i.height,
    clamp-same dbl _ _ _ i.left,
    clamp-same dbl _ _ _ i.top,
    clamp-same dbl _ _ _ i.right,
    clamp-same dbl _ _ _ i.bottom,
  )

  map-same :
      (layout : VerticalLayout) (items : List VerticalLayoutItem)
      → All (IsInside (maximum_extent layout)) items
      → map (normalized_item dbl layout) items ≡ items
  map-same layout [] h = refl
  map-same layout (item ∷ items) h =
      rw (normalized_item-same layout item h.0, map-same layout items h.1)

  sized-same : (layout : VerticalLayout) → IsBounded layout → sized dbl layout ≡ layout
  unfolding sized
  sized-same layout b = rw (
    normalized_dimension-same (pos 1080) layout.width b.width,
    normalized_dimension-same (pos 1920) layout.height b.height,
    first-all 512 layout.items b.few,
  )

  normalize-same :
      (layout : VerticalLayout)
      → IsBounded layout
      → normalize_vertical_layout_geometry dbl layout ≡ layout
  unfolding normalize_vertical_layout_geometry
  normalize-same layout b = rw (sized-same layout b, map-same layout layout.items b.items)

  -- Normalizing a layout that was normalized changes nothing.
  pub normalize_vertical_layout_geometry_idem :
      (layout : VerticalLayout)
      → normalize_vertical_layout_geometry dbl (normalize_vertical_layout_geometry dbl layout)
        ≡ normalize_vertical_layout_geometry dbl layout
  normalize_vertical_layout_geometry_idem layout =
      normalize-same _ (normalize_vertical_layout_geometry-IsBounded layout)
