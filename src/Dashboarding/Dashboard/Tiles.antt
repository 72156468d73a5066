-- ===== src/Dashboarding/Dashboard/Tiles.antt =====
-- The tile lifecycle of packages/dashboarding/domain/src/dashboard.ts. An index is an integer.
use counted.Base.{
  ℕ, suc, Bool, true, false, not, ◌&&◌, ◌||◌, List, [], ◌∷◌, ◌++◌, String, Option, none, some, ◌==◌,
  text_equality, nat_equality, is_empty, trim, if◌then◌else◌, length, filter, find, take, drop, any,
  includes, map, leb,
}
use counted.Base.Int.{ℤ, pos, negsuc}
use counted.Kernel.Result.{ok, err}
use counted.Kernel.Instant.{Instant}
use counted.Dashboarding.Tile.{Tile, is_valid_width, with_width, without_layout}
use counted.Dashboarding.Dashboard.{
  Dashboard, DashboardError, DashboardEvent, Outcome, max_tiles, too_many_tiles, tile_exists,
  tile_title_required, invalid_width, no_such_tile, width_unchanged, index_out_of_range,
  position_unchanged, not_a_permutation, order_unchanged, tile_added, tile_updated, tile_resized,
  tile_moved, tiles_reordered, tile_removed,
}

-- `new Set(xs).size`, as the length of this list.
abbrev pub distinct : List String → List String
distinct [] = []
distinct (x ∷ xs) = let rest = distinct xs in if includes xs x then rest else x ∷ rest

module _ {A : Type 0} where
  abbrev pub has_tile : List (Tile A) → String → Bool
  has_tile tiles id = any (λ t. t.id == id) tiles

  -- `wellFormed`: what is wrong with a tile.
  unfoldable pub misshapen : Tile A → Option DashboardError
  misshapen tile =
      if is_empty (trim tile.title)
      then some tile_title_required
      else if not (is_valid_width tile.width)
      then some (invalid_width tile.width)
      else none

  abbrev with_tiles : Dashboard A → List (Tile A) → DashboardEvent → Outcome A
  with_tiles d tiles event =
      ok (record { dashboard = record d { tiles = tiles }; events = event ∷ [] })

  abbrev unless_misshapen : Option DashboardError → Outcome A → Outcome A
  unless_misshapen none outcome = outcome
  unless_misshapen (some e) outcome = err e

  unfoldable pub add_tile : Dashboard A → Tile A → Instant → Outcome A
  add_tile d tile at =
      if leb max_tiles (length d.tiles)
      then err (too_many_tiles max_tiles)
      else if has_tile d.tiles tile.id
      then err (tile_exists tile.id)
      else unless_misshapen (misshapen tile)
          (with_tiles d (d.tiles ++ tile ∷ []) (tile_added d.id tile.id tile.project at))

  -- The tile in the place of every tile with its id; a new width costs the layout.
  abbrev pub replaced : Tile A → Tile A → Tile A
  replaced tile t =
      if t.id == tile.id then if t.width == tile.width then tile else without_layout tile else t

  unfoldable pub update_tile : Dashboard A → Tile A → Instant → Outcome A
  update_tile d tile at =
      if not (has_tile d.tiles tile.id)
      then err (no_such_tile tile.id)
      else unless_misshapen (misshapen tile)
          (with_tiles d (map (replaced tile) d.tiles) (tile_updated d.id tile.id at))

  abbrev pub resized : String → ℕ → Tile A → Tile A
  resized id width t = if t.id == id then with_width t width else t

  unfoldable pub resize_tile : Dashboard A → String → ℕ → Instant → Outcome A
  resize_tile d id width at = elim (find (λ t. t.id == id) d.tiles) [
    | none ↦ err (no_such_tile id)
    | some existing ↦
        if not (is_valid_width width)
        then err (invalid_width width)
        else if existing.width == width
        then err (width_unchanged id)
        else with_tiles d (map (resized id width) d.tiles) (tile_resized d.id id width at)
  ]

  -- `findIndex`
  abbrev pub position : String → List (Tile A) → Option ℕ
  position id [] = none
  position id (t ∷ ts) =
      let rest = position id ts in
      if t.id == id then some 0 else elim rest [ none ↦ none | some n ↦ some (suc n) ]

  -- The two calls of `splice`: the tile at one index is taken out and put in at another.
  abbrev pub put : ℕ → List (Tile A) → List (Tile A) → List (Tile A)
  put to moved rest = take to rest ++ moved ++ drop to rest

  abbrev pub moved : ℕ → ℕ → List (Tile A) → List (Tile A)
  moved from to tiles = put to (take 1 (drop from tiles)) (take from tiles ++ drop (suc from) tiles)

  abbrev move_from : Dashboard A → String → Option ℕ → ℤ → Instant → Outcome A
  move_from d id none to at = err (no_such_tile id)
  move_from d id (some from) (negsuc n) at = err (index_out_of_range (negsuc n) (length d.tiles))
  move_from d id (some from) (pos to) at =
      if leb (length d.tiles) to
      then err (index_out_of_range (pos to) (length d.tiles))
      else if from == to
      then err (position_unchanged id)
      else with_tiles d (map without_layout (moved from to d.tiles))
          (tile_moved d.id id (pos to) at)

  unfoldable pub move_tile : Dashboard A → String → ℤ → Instant → Outcome A
  move_tile d id to at = move_from d id (position id d.tiles) to at

  -- `new Map(tiles.map(t => [t.id, t])).get(id)`: a later tile replaces an earlier one.
  abbrev pub by_id : List (Tile A) → String → Option (Tile A)
  by_id [] id = none
  by_id (t ∷ ts) id = elim (by_id ts id) [
    | some later ↦ some later
    | none ↦ if t.id == id then some t else none
  ]

  -- The tiles in the order of the ids, each of which the guards have found.
  abbrev pub gather : List (Tile A) → List String → List (Tile A)
  gather tiles [] = []
  gather tiles (id ∷ order) =
      let rest = gather tiles order in elim (by_id tiles id) [ none ↦ rest | some t ↦ t ∷ rest ]

  -- `tiles.every((t, i) => t.id === order[i])`, where the lengths agree.
  abbrev in_order : List (Tile A) → List String → Bool
  in_order [] order = true
  in_order (t ∷ ts) [] = false
  in_order (t ∷ ts) (id ∷ order) = t.id == id && in_order ts order

  abbrev reorder_known : Dashboard A → List String → Instant → Outcome A
  reorder_known d order at =
      if not (length (distinct order) == length d.tiles) || not (length order == length d.tiles)
      then err (not_a_permutation (length d.tiles) (length (distinct order)))
      else if in_order d.tiles order
      then err order_unchanged
      else with_tiles d (map without_layout (gather d.tiles order)) (tiles_reordered d.id order at)

  unfoldable pub reorder_tiles : Dashboard A → List String → Instant → Outcome A
  reorder_tiles d order at = elim (find (λ id. not (has_tile d.tiles id)) order) [
    | some id ↦ err (no_such_tile id)
    | none ↦ reorder_known d order at
  ]

  unfoldable pub remove_tile : Dashboard A → String → Instant → Outcome A
  remove_tile d id at =
      if not (has_tile d.tiles id)
      then err (no_such_tile id)
      else with_tiles d (filter (λ t. not (t.id == id)) d.tiles) (tile_removed d.id id at)
