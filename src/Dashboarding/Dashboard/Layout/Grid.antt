-- ===== src/Dashboarding/Dashboard/Layout/Grid.antt =====
-- Where the tiles stand once a layout is accepted.
use counted.Base.{
  ℕ, ◌+◌, ◌≤◌, true, false, not, List, [], ◌∷◌, String, Option, none, some, ◌≡◌, ◌≢◌, ◌∙◌, inl, inr,
  refl, ap₂, arith, ◌==◌, text_equality, find, any, sum, includes, length, All, Option-cases,
}
use counted.Base.Int.{ℤ}
use counted.Kernel.Result.{ok}
use counted.Kernel.Instant.{Instant}
use counted.Dashboarding.Tile.{Tile, TilePlacement, TileLayout}
use counted.Dashboarding.Dashboard.{Dashboard, DashboardApplied}
use counted.Dashboarding.Dashboard.Ids.{occurrences, tally}
use counted.Dashboarding.Dashboard.Shape.{IsArranged}
use counted.Dashboarding.Dashboard.Layout.{
  placed_ids, is_placeable, any_overlap, insert, sort, place, set_layout,
}
use counted.Dashboarding.Dashboard.Layout.Laws.{any-sort, any_overlap-sort, length-sort}
use counted.Dashboarding.Dashboard.Layout.Cells.{takers, IsInside, all-IsInside, any_overlap-takers}

sum-insert :
    (f : TilePlacement → ℕ) (a : TilePlacement) (xs : List TilePlacement)
    → sum f (insert a xs) ≡ f a + sum f xs
sum-insert f a [] = omega arith
sum-insert f a (x ∷ xs) = ground (arith, sum-insert f a xs)

sum-sort : (f : TilePlacement → ℕ) (xs : List TilePlacement) → sum f (sort xs) ≡ sum f xs
sum-sort f [] = refl
sum-sort f (x ∷ xs) = omega (arith, sum-sort f xs, sum-insert f x (sort xs))

includes-occurs :
    (id : String) (ids : List String) → includes ids id ≡ true → 1 ≤ occurrences id ids
includes-occurs id [] h = absurd (ground (arith, h))
includes-occurs id (x ∷ ids) h = ground (arith, includes-occurs id ids)

module _ {A : Type 0} where
  abbrev pub placed : Tile A → Option TileLayout → List TilePlacement → List TilePlacement
  placed t none rest = rest
  placed t (some at) rest = record { id = t.id; width = t.width; at = at } ∷ rest

  -- The placements of the tiles that have one.
  abbrev pub grid : List (Tile A) → List TilePlacement
  grid [] = []
  grid (t ∷ ts) = placed t t.layout (grid ts)

  tally-one :
      (t : Tile A) (tiles : List (Tile A)) (items : List TilePlacement)
      → sum (λ (p : TilePlacement). tally p.id (t ∷ tiles)) items
        ≡ occurrences t.id (placed_ids items) + sum (λ (p : TilePlacement). tally p.id tiles) items
  tally-one t tiles [] = omega arith
  tally-one t tiles (p ∷ items) = ground (
    arith,
    tally-one t tiles items,
    text_equality.same_iff t.id p.id,
    text_equality.same_iff p.id t.id,
  )

  -- Each tile is among the ids, so the ids meet the tiles as often as there are tiles.
  tally-all :
      (tiles : List (Tile A)) (items : List TilePlacement)
      → any (λ (t : Tile A). not (includes (placed_ids items) t.id)) tiles ≡ false
      → length tiles ≤ sum (λ (p : TilePlacement). tally p.id tiles) items
  tally-all [] items h = ground arith
  tally-all (t ∷ tiles) items h = omega (
    arith,
    tally-one t tiles items,
    includes-occurs t.id (placed_ids items) (ground (arith, h)),
    tally-all tiles items (ground (arith, h)),
  )

  find-tally :
      (id : String) (tiles : List (Tile A))
      → find (λ (t : Tile A). t.id == id) tiles ≡ none
      → tally id tiles ≡ 0
  find-tally id [] h = refl
  find-tally id (t ∷ tiles) h = ground (arith, find-tally id tiles)

  find-id :
      (id : String) (tiles : List (Tile A)) (t : Tile A)
      → find (λ (t : Tile A). t.id == id) tiles ≡ some t
      → t.id ≡ id
  find-id id [] t h = absurd (ground (arith, h))
  find-id id (x ∷ tiles) t h = ground (arith, find-id id tiles t, text_equality.same_iff x.id id)

  tally-sum_le :
      (tiles : List (Tile A)) (items : List TilePlacement)
      → ((id : String) → tally id tiles ≤ 1)
      → sum (λ (p : TilePlacement). tally p.id tiles) items ≤ length items
  tally-sum_le tiles [] d = omega arith
  tally-sum_le tiles (p ∷ items) d = omega (arith, tally-sum_le tiles items d, d p.id)

  -- Where each placement has its tile, the tiles stand exactly where they were placed.
  grid-place :
      (tiles : List (Tile A)) (items : List TilePlacement)
      → ((id : String) → tally id tiles ≤ 1)
      → length items ≤ sum (λ (p : TilePlacement). tally p.id tiles) items
      → grid (place tiles items) ≡ items
  grid-place tiles [] d h = refl
  grid-place tiles (item ∷ items) d h = elim (Option-cases (find (λ t. t.id == item.id) tiles)) [
    | inl e ↦ absurd (omega (arith, h, find-tally item.id tiles e, tally-sum_le tiles items d))
    | inr (t, e) ↦
        rw (grid, e)
          (ap₂ (λ id rest. record { id = id; width = item.width; at = item.at } ∷ rest)
            (find-id item.id tiles t e) (grid-place tiles items d (omega (arith, h, d item.id))))
  ]

  -- Once a layout is accepted and announced, the tiles stand where it says, each at its place; then no
  -- cell of the grid is taken twice, and each tile lies within the twelve columns and takes a cell at
  -- least. The dashboard's tiles have different ids, as those of every dashboard that can be reached.
  pub set_layout-grid :
      (d : Dashboard A) (placements : List TilePlacement) (at : Instant) (a : DashboardApplied A)
      (x y : ℤ)
      → IsArranged d.tiles
      → set_layout d placements at ≡ ok a
      → a.events ≢ []
      → (grid a.dashboard.tiles ≡ sort placements)
        × (takers x y (grid a.dashboard.tiles) ≤ 1)
        × All IsInside (grid a.dashboard.tiles)
  unfolding set_layout
  set_layout-grid d placements at a x y v h changed =
      let is : a.dashboard.tiles ≡ place d.tiles (sort placements) = ground (arith, h, changed) in
      let apart : any_overlap placements ≡ false = ground (arith, h) in
      let inside : any (λ item. not (is_placeable item)) placements ≡ false = ground (arith, h) in
      let many : length placements ≡ length d.tiles = ground (arith, h) in
      let each : any (λ (t : Tile A). not (includes (placed_ids placements) t.id)) d.tiles ≡ false =
        ground (arith, h) in
      let stands : grid (place d.tiles (sort placements)) ≡ sort placements =
        grid-place d.tiles (sort placements) v.distinct (
          omega (
            arith,
            length-sort placements,
            many,
            tally-all d.tiles placements each,
            sum-sort (λ (p : TilePlacement). tally p.id d.tiles) placements,
          )) in
      rw (is, stands)
        (
          refl,
          any_overlap-takers x y (sort placements) (any_overlap-sort placements ∙ apart),
          all-IsInside (sort placements)
              (any-sort (λ item. not (is_placeable item)) placements ∙ inside),
        )
