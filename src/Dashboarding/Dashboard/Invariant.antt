-- ===== src/Dashboarding/Dashboard/Invariant.antt =====
-- What the operations on the tiles of a dashboard keep.
use counted.Base.{
  ℕ, ◌≤◌, true, false, not, List, [], ◌∷◌, ◌++◌, String, none, ◌≡◌, arith, ◌==◌, text_equality,
  eq_iff, length, filter, map, length-append, length-filter-le, Option-cases, inl, inr,
}
use counted.Base.Int.{ℤ, pos, negsuc}
use counted.Kernel.Result.{ok}
use counted.Kernel.Instant.{Instant}
use counted.Dashboarding.Tile.{Tile, is_valid_width, with_width, without_layout}
use counted.Dashboarding.Dashboard.{Dashboard, DashboardApplied}
use counted.Dashboarding.Dashboard.Tiles.{
  has_tile, misshapen, replaced, resized, put, moved, by_id, gather, position, add_tile,
  update_tile, resize_tile, move_tile, reorder_tiles, remove_tile,
}
use counted.Dashboarding.Dashboard.Tiles
use counted.Dashboarding.Dashboard.Ids.{
  occurrences-distinct, tally-append, tally-none, tally-filter_le, tally-gather, length-gather,
}
use counted.Dashboarding.Dashboard.Shape.{
  IsArranged, shaped-misshapen, all-append, all-filter, all-gather, map-IsArranged,
  without_layout-IsArranged, moved-IsArranged,
}

module _ {A : Type 0} where
  pub add-IsArranged :
      (d : Dashboard A) (tile : Tile A) (at : Instant) (a : DashboardApplied A)
      → add_tile d tile at ≡ ok a
      → IsArranged d.tiles
      → IsArranged a.dashboard.tiles
  unfolding add_tile
  add-IsArranged d tile at a h v =
      let is : a.dashboard.tiles ≡ d.tiles ++ tile ∷ [] = ground (arith, h) in
      let room : length d.tiles ≤ 49 = ground (arith, h) in
      let fresh : has_tile d.tiles tile.id ≡ false = ground (arith, h) in
      let good : misshapen tile ≡ none = ground (arith, h) in
      rw is (record {
        few = omega (arith, length-append d.tiles (tile ∷ []), room);
        distinct = λ id. ground (
          arith,
          tally-append id d.tiles (tile ∷ []),
          v.distinct id,
          tally-none tile.id d.tiles fresh,
          eq_iff tile.id id,
        );
        all_shaped =
            ground
              (arith, all-append d.tiles (tile ∷ []), shaped-misshapen tile good, v.all_shaped);
      })

  pub update-IsArranged :
      (d : Dashboard A) (tile : Tile A) (at : Instant) (a : DashboardApplied A)
      → update_tile d tile at ≡ ok a
      → IsArranged d.tiles
      → IsArranged a.dashboard.tiles
  unfolding update_tile without_layout
  update-IsArranged d tile at a h v =
      let is : a.dashboard.tiles ≡ map (replaced tile) d.tiles = ground (arith, h) in
      let good : misshapen tile ≡ none = ground (arith, h) in
      rw is (
        map-IsArranged (replaced tile) d.tiles (λ t. ground (arith, eq_iff t.id tile.id))
          (λ t k. ground (arith, shaped-misshapen tile good, k)) v)

  pub resize-IsArranged :
      (d : Dashboard A) (id : String) (width : ℕ) (at : Instant) (a : DashboardApplied A)
      → resize_tile d id width at ≡ ok a
      → IsArranged d.tiles
      → IsArranged a.dashboard.tiles
  unfolding resize_tile with_width
  resize-IsArranged d id width at a h v =
      let is : a.dashboard.tiles ≡ map (resized id width) d.tiles = ground (arith, h) in
      let good : is_valid_width width ≡ true = ground (arith, h) in
      rw is (
        map-IsArranged (resized id width) d.tiles (λ t. ground arith)
          (λ t k. ground (arith, good, k)) v)

  pub move-IsArranged :
      (d : Dashboard A) (id : String) (to : ℤ) (at : Instant) (a : DashboardApplied A)
      → move_tile d id to at ≡ ok a
      → IsArranged d.tiles
      → IsArranged a.dashboard.tiles
  unfolding move_tile
  move-IsArranged d id (negsuc n) at a h v = ground (arith, h, Option-cases (position id d.tiles))
  move-IsArranged d id (pos to) at a h v = elim (Option-cases (position id d.tiles)) [
    | inl e ↦ ground (arith, h)
    | inr (from, e) ↦
        let is : a.dashboard.tiles ≡ map without_layout (moved from to d.tiles) =
          ground (arith, h) in
        rw is (moved-IsArranged from to d.tiles v)
  ]

  pub reorder-IsArranged :
      (d : Dashboard A) (order : List String) (at : Instant) (a : DashboardApplied A)
      → reorder_tiles d order at ≡ ok a
      → IsArranged d.tiles
      → IsArranged a.dashboard.tiles
  unfolding reorder_tiles
  reorder-IsArranged d order at a h v =
      let is : a.dashboard.tiles ≡ map without_layout (gather d.tiles order) = ground (arith, h) in
      let same : length order ≡ length d.tiles = ground (arith, h) in
      let once : length (Tiles.distinct order) ≡ length d.tiles = ground (arith, h) in
      rw is (
        without_layout-IsArranged (gather d.tiles order) (record {
          few = omega (arith, length-gather d.tiles order, same, v.few);
          distinct = λ id. omega (
            arith,
            tally-gather id d.tiles order,
            occurrences-distinct id order (omega (arith, same, once)),
          );
          all_shaped = all-gather d.tiles order v.all_shaped;
        }))

  pub remove-IsArranged :
      (d : Dashboard A) (id : String) (at : Instant) (a : DashboardApplied A)
      → remove_tile d id at ≡ ok a
      → IsArranged d.tiles
      → IsArranged a.dashboard.tiles
  unfolding remove_tile
  remove-IsArranged d id at a h v =
      let is : a.dashboard.tiles ≡ filter (λ t. not (t.id == id)) d.tiles = ground (arith, h) in
      rw is (record {
        few = omega (arith, length-filter-le (λ (t : Tile A). not (t.id == id)) d.tiles, v.few);
        distinct = λ k.
            omega
              (arith, tally-filter_le k (λ (t : Tile A). not (t.id == id)) d.tiles, v.distinct k);
        all_shaped = all-filter (λ t. not (t.id == id)) d.tiles v.all_shaped;
      })
