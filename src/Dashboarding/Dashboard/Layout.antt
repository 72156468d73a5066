-- ===== src/Dashboarding/Dashboard/Layout.antt =====
-- `setLayout` of packages/dashboarding/domain/src/dashboard.ts: the whole grid, replaced at once.
pub mod Laws
pub mod Cells
pub mod Grid
use counted.Base.{
  ℕ, Bool, true, false, not, ◌&&◌, ◌||◌, List, [], ◌∷◌, String, Option, none, some, ◌==◌,
  text_equality, nat_equality, if◌then◌else◌, length, find, any, all, map, includes, ltb, leb,
}
use counted.Base.Int.{ℤ, pos, ◌+ℤ◌, ltb_ℤ, leb_ℤ}
use counted.Kernel.Result.{ok, err}
use counted.Kernel.Instant.{Instant}
use counted.Dashboarding.Tile.{Tile, TileLayout, TilePlacement, is_valid_width, valid_tile_layout}
use counted.Dashboarding.Dashboard.{Dashboard, Outcome, invalid_layout, dashboard_layout_changed}
use counted.Dashboarding.Dashboard.Tiles.{distinct}

abbrev pub placed_ids : List TilePlacement → List String
placed_ids placements = map (λ (p : TilePlacement). p.id) placements

abbrev pub is_placeable : TilePlacement → Bool
is_placeable item = is_valid_width item.width && valid_tile_layout item.at item.width

-- The four comparisons of two placements.
abbrev pub overlap : TilePlacement → TilePlacement → Bool
overlap a b =
    ltb_ℤ a.at.x (b.at.x +ℤ pos b.width)
    && ltb_ℤ b.at.x (a.at.x +ℤ pos a.width)
    && ltb_ℤ a.at.y (b.at.y +ℤ b.at.height)
    && ltb_ℤ b.at.y (a.at.y +ℤ a.at.height)

-- The loops over each placement and those after it.
abbrev pub any_overlap : List TilePlacement → Bool
any_overlap [] = false
any_overlap (a ∷ rest) = any (λ b. overlap a b) rest || any_overlap rest

-- `a.y - b.y || a.x - b.x`, where it is negative or zero.
abbrev pub comes_first : TilePlacement → TilePlacement → Bool
comes_first a b = ltb_ℤ a.at.y b.at.y || (leb_ℤ a.at.y b.at.y && leb_ℤ a.at.x b.at.x)

-- `sort`, which is stable.
abbrev pub insert : TilePlacement → List TilePlacement → List TilePlacement
insert a [] = a ∷ []
insert a (b ∷ rest) =
    let later = insert a rest in if comes_first a b then a ∷ b ∷ rest else b ∷ later

abbrev pub sort : List TilePlacement → List TilePlacement
sort [] = []
sort (a ∷ rest) = insert a (sort rest)

abbrev same_layout : Option TileLayout → Option TileLayout → Bool
same_layout (some a) (some b) =
    leb_ℤ a.x b.x
    && leb_ℤ b.x a.x
    && (leb_ℤ a.y b.y && leb_ℤ b.y a.y)
    && (leb_ℤ a.height b.height && leb_ℤ b.height a.height)
same_layout _ _ = false

module _ {A : Type 0} where
  -- The tiles at their places; the guards have found each.
  abbrev pub place : List (Tile A) → List TilePlacement → List (Tile A)
  place tiles [] = []
  place tiles (item ∷ rest) =
      let later = place tiles rest in
      elim (find (λ t. t.id == item.id) tiles) [
        | none ↦ later
        | some t ↦ record t { width = item.width; layout = some item.at } ∷ later
      ]

  -- `tiles.every((tile, i) => ...)` against the tiles that the dashboard has.
  abbrev unchanged : List (Tile A) → List (Tile A) → Bool
  unchanged [] olds = true
  unchanged (t ∷ ts) [] = false
  unchanged (t ∷ ts) (old ∷ olds) =
      old.id == t.id && old.width == t.width && same_layout old.layout t.layout && unchanged ts olds

  abbrev lay_out : Dashboard A → List (Tile A) → Instant → Outcome A
  lay_out d tiles at =
      if unchanged tiles d.tiles
      then ok (record { dashboard = d; events = [] })
      else ok (record {
        dashboard = record d { tiles = tiles };
        events = dashboard_layout_changed d.id at ∷ [];
      })

  abbrev pub is_incomplete : Dashboard A → List TilePlacement → Bool
  is_incomplete d placements =
      not (length placements == length d.tiles)
      || not (length (distinct (placed_ids placements)) == length d.tiles)
      || any (λ t. not (includes (placed_ids placements) t.id)) d.tiles

  unfoldable pub set_layout : Dashboard A → List TilePlacement → Instant → Outcome A
  set_layout d placements at =
      if is_incomplete d placements
      then err (
          invalid_layout
            "The layout must contain every insight exactly once. Reload the dashboard and try again.")
      else if any (λ item. not (is_placeable item)) placements
      then err (invalid_layout "An insight lies outside the grid or has an invalid size.")
      else if any_overlap placements
      then err (invalid_layout "Insights cannot overlap.")
      else lay_out d (place d.tiles (sort placements)) at
