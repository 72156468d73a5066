-- ===== src/Dashboarding/TileTests.antt =====
-- A dashboard of three tiles: added, rearranged, packed into rows and shared.
use counted.Base.{
  ◌≤◌, ◌==◌, text_equality, eq_iff, All, Bool-cases, inl, inr, arith, true, false, List, [], ◌∷◌,
  String, none, some, ◌≡◌, ◌↔◌, refl, map, all, leb, trim,
}
use counted.Base.Int.{pos, ◌+ℤ◌, ◌<ℤ◌}
use counted.Kernel.Result.{ok}
use counted.Dashboarding.Tile.{
  TilePlacement, Tile, number, TileLayout, is_valid_width, valid_tile_layout, without_layout,
  row_units,
}
use counted.Dashboarding.Dashboard.{
  Dashboard, DashboardApplied, ShareGrant, create, dashboard_created, tile_added, tiles_reordered,
  dashboard_shared, dashboard_layout_changed, grant_share, allows_share_read,
}
use counted.Dashboarding.Dashboard.Tiles.{misshapen, add_tile, reorder_tiles}
use counted.Dashboarding.Dashboard.Rows.{rows, flat, fits, rows_lem}
use mathlib.Core.Path.{subst}
use counted.Dashboarding.Dashboard.Ids.{tally}
use counted.Dashboarding.Dashboard.Shape.{IsArranged}
use counted.Dashboarding.Dashboard.Layout.{sort, set_layout}
use counted.Dashboarding.Dashboard.Layout.Cells.{takers, IsInside}
use counted.Dashboarding.Dashboard.Layout.Grid.{grid, set_layout-grid}
use counted.Dashboarding.Dashboard.Share.{allows_share_read_iff}
use counted.Dashboarding.Dashboard.Life.{
  IsValid, here, next, adds, dashboard_Reach-IsValid, reorder_tiles-ids,
}

abbrev tile_a : Tile String
tile_a = record {
  id = "t_a";
  title = "Visits";
  project = "prj_1";
  analysis = "count";
  view = number;
  width = 6;
  layout = none;
}

abbrev tile_b : Tile String
tile_b = record tile_a { id = "t_b"; width = 8 }

abbrev tile_c : Tile String
tile_c = record tile_a { id = "t_c"; width = 4 }

abbrev blank : Dashboard String
blank = record {
  id = "dsh_1";
  workspace = "ws_1";
  name = "Main";
  tiles = [];
  preferred = false;
  share = none;
}

abbrev created : DashboardApplied String
created = record {
  dashboard = blank;
  events = dashboard_created "dsh_1" "ws_1" "Main" (pos 1) ∷ [];
}

abbrev first_tile : DashboardApplied String
first_tile = record {
  dashboard = record blank { tiles = tile_a ∷ [] };
  events = tile_added "dsh_1" "t_a" "prj_1" (pos 2) ∷ [];
}

create_runs : create "dsh_1" "ws_1" " Main" (pos 1) false ≡ ok created
unfolding create trim
create_runs = refl

add_runs : add_tile blank tile_a (pos 2) ≡ ok first_tile
unfolding add_tile misshapen is_valid_width trim
add_runs = refl

abbrev full : Dashboard String
full = record blank { tiles = tile_a ∷ tile_b ∷ tile_c ∷ [] }

rows_runs : rows full ≡ (tile_a ∷ []) ∷ (tile_b ∷ tile_c ∷ []) ∷ []
unfolding rows
rows_runs = refl

abbrev order : List String
order = "t_c" ∷ "t_a" ∷ "t_b" ∷ []

abbrev reordered : DashboardApplied String
reordered = record {
  dashboard = record blank { tiles = tile_c ∷ tile_a ∷ tile_b ∷ [] };
  events = tiles_reordered "dsh_1" order (pos 3) ∷ [];
}

reorder_runs : reorder_tiles full order (pos 3) ≡ ok reordered
unfolding reorder_tiles without_layout
reorder_runs = refl

-- Two tiles that change places on the grid.
abbrev left : TileLayout
left = record { x = pos 0; y = pos 0; height = pos 3 }

abbrev below : TileLayout
below = record { x = pos 0; y = pos 3; height = pos 4 }

abbrev pair : Dashboard String
pair = record blank { tiles = tile_a ∷ tile_b ∷ [] }

abbrev swapped : List TilePlacement
swapped =
    record { id = "t_a"; width = 12; at = below } ∷ record { id = "t_b"; width = 6; at = left } ∷ []

abbrev laid : DashboardApplied String
laid = record {
  dashboard = record pair {
    tiles =
        record tile_b { width = 6; layout = some left }
        ∷ record tile_a { width = 12; layout = some below }
        ∷ [];
  };
  events = dashboard_layout_changed "dsh_1" (pos 4) ∷ [];
}

layout_runs : set_layout pair swapped (pos 4) ≡ ok laid
unfolding set_layout is_valid_width valid_tile_layout ◌+ℤ◌
layout_runs = refl

pair_ids : (id : String) → tally id pair.tiles ≤ 1
pair_ids id = elim (Bool-cases ("t_a" == id)) [
  | inl same ↦ subst (λ other. tally other pair.tiles ≤ 1) ((eq_iff "t_a" id).0 same) (omega arith)
  | inr differs ↦ rw differs (ground arith)
]

pair-IsArranged : IsArranged pair.tiles
unfolding is_valid_width valid_tile_layout trim
pair-IsArranged = record { few = omega arith; distinct = pair_ids; all_shaped = refl }

set_layout-grid_example :
    (grid laid.dashboard.tiles ≡ sort swapped)
    × (takers (pos 2) (pos 1) (grid laid.dashboard.tiles) ≤ 1)
    × All IsInside (grid laid.dashboard.tiles)
set_layout-grid_example =
    set_layout-grid pair swapped (pos 4) laid (pos 2) (pos 1) pair-IsArranged layout_runs (λ h. cc)

abbrev link : ShareGrant
link = record { dashboard = "dsh_1"; digest = "d1"; expires_at = pos 100 }

abbrev shared : DashboardApplied String
shared = record {
  dashboard = record full { share = some link };
  events = dashboard_shared "dsh_1" (pos 100) (pos 5) ∷ [];
}

share_runs : grant_share full link (pos 5) ≡ ok shared
unfolding grant_share
share_runs = refl

read_runs : allows_share_read shared.dashboard "d1" (pos 6) ≡ true
unfolding allows_share_read
read_runs = refl

dashboard_Reach-IsValid_example : IsValid first_tile.dashboard
dashboard_Reach-IsValid_example =
    dashboard_Reach-IsValid "dsh_1" "ws_1" " Main" (pos 1) false created create_runs
      (next here (adds tile_a (pos 2) add_runs))

reorder_tiles-ids_example : map (λ (t : Tile String). t.id) reordered.dashboard.tiles ≡ order
reorder_tiles-ids_example = reorder_tiles-ids full order (pos 3) reordered reorder_runs

rows_lem_example :
    (flat (rows full) ≡ full.tiles)
    × (all (λ t. leb t.width row_units) full.tiles ≡ true → all fits (rows full) ≡ true)
rows_lem_example = rows_lem full

allows_share_read_iff_example : (allows_share_read shared.dashboard "d1" (pos 6) ≡ true) ↔ (
    (grant : ShareGrant) × (shared.dashboard.share ≡ some grant)
    × (grant.dashboard ≡ "dsh_1")
    × (grant.digest ≡ "d1")
    × (pos 6 <ℤ grant.expires_at))
allows_share_read_iff_example = allows_share_read_iff shared.dashboard "d1" (pos 6)
