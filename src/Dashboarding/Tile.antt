-- ===== src/Dashboarding/Tile.antt =====
-- packages/dashboarding/domain/src/tile.ts: where a question sits on a dashboard. A width is a whole
-- number that is not negative; positions and heights are integers.
use counted.Base.{ℕ, Bool, ◌&&◌, String, Option, none, leb}
use counted.Base.Int.{ℤ, pos, ◌+ℤ◌, leb_ℤ}

abbrev pub row_units : ℕ
row_units = 12

pub data TileView : Type 0 where
  number line bar table funnel retention : TileView

pub record TileLayout : Type 0 where
  pub x : ℤ
  pub y : ℤ
  pub height : ℤ

pub record TilePlacement : Type 0 where
  pub id : String
  pub width : ℕ
  pub at : TileLayout

-- `A` is the analysis.
pub record Tile (A : Type 0) : Type 0 where
  pub id : String
  pub title : String
  pub project : String
  pub analysis : A
  pub view : TileView
  pub width : ℕ
  pub layout : Option TileLayout

-- `TileWidth.isValid`
unfoldable pub is_valid_width : ℕ → Bool
is_valid_width n = leb 1 n && leb n row_units

unfoldable pub valid_tile_layout : TileLayout → ℕ → Bool
valid_tile_layout layout width =
    leb_ℤ (pos 0) layout.x
    && leb_ℤ (layout.x +ℤ pos width) (pos row_units)
    && leb_ℤ (pos 0) layout.y
    && leb_ℤ layout.y (pos 1000)
    && leb_ℤ (pos 3) layout.height
    && leb_ℤ layout.height (pos 20)

module _ {A : Type 0} where
  unfoldable pub with_width : Tile A → ℕ → Tile A
  with_width t width = record t { width = width; layout = none }

  unfoldable pub without_layout : Tile A → Tile A
  without_layout t = record t { layout = none }
