-- ===== src/Dashboarding/Dashboard/Layout/Laws.antt =====
-- What a layout that is accepted looks like.
use counted.Base.{
  ◌+◌, ◌≤◌, Bool, true, false, not, ◌||◌, List, [], ◌∷◌, String, some, ◌≡◌, ◌∙◌, ◌⊎◌, inl, inr,
  refl, arith, ◌==◌, text_equality, eq_iff, length, find, any, all, Option-cases,
}
use counted.Kernel.Result.{ok}
use counted.Kernel.Instant.{Instant}
use counted.Dashboarding.Tile.{Tile, TilePlacement}
use counted.Dashboarding.Dashboard.{Dashboard, DashboardApplied}
use counted.Dashboarding.Dashboard.Tiles
use counted.Dashboarding.Dashboard.Ids.{occurrences, occurrences-distinct, tally}
use counted.Dashboarding.Dashboard.Shape.{IsArranged, shaped}
use counted.Dashboarding.Dashboard.Layout.{
  placed_ids, is_placeable, overlap, any_overlap, insert, sort, place, is_incomplete, set_layout,
}

overlap_sym : (a b : TilePlacement) → overlap a b ≡ overlap b a
overlap_sym a b = ground arith

any-insert :
    (p : TilePlacement → Bool) (a : TilePlacement) (xs : List TilePlacement)
    → any p (insert a xs) ≡ (p a || any p xs)
any-insert p a [] = refl
any-insert p a (x ∷ xs) = ground (arith, any-insert p a xs)

pub any-sort : (p : TilePlacement → Bool) (xs : List TilePlacement) → any p (sort xs) ≡ any p xs
any-sort p [] = refl
any-sort p (x ∷ xs) = ground (arith, any-sort p xs, any-insert p x (sort xs))

any_overlap-insert :
    (a : TilePlacement) (xs : List TilePlacement)
    → any_overlap (insert a xs) ≡ (any (λ b. overlap a b) xs || any_overlap xs)
any_overlap-insert a [] = refl
any_overlap-insert a (x ∷ xs) =
    ground (arith, any_overlap-insert a xs, any-insert (λ b. overlap x b) a xs, overlap_sym a x)

-- Sorting the placements makes none overlap.
pub any_overlap-sort : (xs : List TilePlacement) → any_overlap (sort xs) ≡ any_overlap xs
any_overlap-sort [] = refl
any_overlap-sort (x ∷ xs) =
    ground
      (arith, any_overlap-sort xs, any_overlap-insert x (sort xs), any-sort (λ b. overlap x b) xs)

length-insert : (a : TilePlacement) (xs : List TilePlacement) → length (insert a xs) ≡ 1 + length xs
length-insert a [] = omega arith
length-insert a (x ∷ xs) = ground (arith, length-insert a xs)

pub length-sort : (xs : List TilePlacement) → length (sort xs) ≡ length xs
length-sort [] = refl
length-sort (x ∷ xs) = omega (arith, length-sort xs, length-insert x (sort xs))

occurrences-insert :
    (id : String) (a : TilePlacement) (xs : List TilePlacement)
    → occurrences id (placed_ids (insert a xs)) ≡ occurrences id (placed_ids (a ∷ xs))
occurrences-insert id a [] = refl
occurrences-insert id a (x ∷ xs) = ground (arith, occurrences-insert id a xs)

occurrences-sort :
    (id : String) (xs : List TilePlacement)
    → occurrences id (placed_ids (sort xs)) ≡ occurrences id (placed_ids xs)
occurrences-sort id [] = refl
occurrences-sort id (x ∷ xs) =
    ground (arith, occurrences-sort id xs, occurrences-insert id x (sort xs))

length-placed_ids : (xs : List TilePlacement) → length (placed_ids xs) ≡ length xs
length-placed_ids [] = refl
length-placed_ids (x ∷ xs) = omega (arith, length-placed_ids xs)

module _ {A : Type 0} where
  find-found :
      (tiles : List (Tile A)) (id : String) (t : Tile A)
      → all shaped tiles ≡ true
      → find (λ t. t.id == id) tiles ≡ some t
      → (t.id ≡ id) × (shaped t ≡ true)
  find-found [] id t h k = cc
  find-found (x ∷ xs) id t h k = ground (arith, find-found xs id t, eq_iff x.id id)

  tally-place :
      (id : String) (tiles : List (Tile A)) (items : List TilePlacement)
      → all shaped tiles ≡ true
      → tally id (place tiles items) ≤ occurrences id (placed_ids items)
  tally-place id tiles [] h = omega arith
  tally-place id tiles (item ∷ items) h = elim (Option-cases (find (λ t. t.id == item.id) tiles)) [
    | inl e ↦ ground (arith, tally-place id tiles items h)
    | inr (t, e) ↦ ground (arith, tally-place id tiles items h, find-found tiles item.id t h e)
  ]

  length-place :
      (tiles : List (Tile A)) (items : List TilePlacement)
      → length (place tiles items) ≤ length items
  length-place tiles [] = omega arith
  length-place tiles (item ∷ items) = ground (arith, length-place tiles items)

  all-place :
      (tiles : List (Tile A)) (items : List TilePlacement)
      → all shaped tiles ≡ true
      → any (λ item. not (is_placeable item)) items ≡ false
      → all shaped (place tiles items) ≡ true
  all-place tiles [] h k = refl
  all-place tiles (item ∷ items) h k = elim (Option-cases (find (λ t. t.id == item.id) tiles)) [
    | inl e ↦ ground (arith, all-place tiles items h)
    | inr (t, e) ↦ ground (arith, all-place tiles items h, find-found tiles item.id t h e, k)
  ]

  place-IsArranged :
      (d : Dashboard A) (placements : List TilePlacement)
      → IsArranged d.tiles
      → is_incomplete d placements ≡ false
      → any (λ item. not (is_placeable item)) placements ≡ false
      → IsArranged (place d.tiles (sort placements))
  place-IsArranged d placements v c p =
      let many : length placements ≡ length d.tiles = ground (arith, c) in
      let once : length (Tiles.distinct (placed_ids placements)) ≡ length d.tiles =
        ground (arith, c) in
      record {
        few =
            omega
              (arith, length-place d.tiles (sort placements), length-sort placements, many, v.few);
        distinct = λ id. omega (
          arith,
          tally-place id d.tiles (sort placements) v.all_shaped,
          occurrences-sort id placements,
          occurrences-distinct id (placed_ids placements)
              (omega (arith, length-placed_ids placements, many, once)),
        );
        all_shaped =
            all-place d.tiles (sort placements) v.all_shaped
              (any-sort (λ item. not (is_placeable item)) placements ∙ p);
      }

  pub set_layout-IsArranged :
      (d : Dashboard A) (placements : List TilePlacement) (at : Instant) (a : DashboardApplied A)
      → set_layout d placements at ≡ ok a
      → IsArranged d.tiles
      → IsArranged a.dashboard.tiles
  unfolding set_layout
  set_layout-IsArranged d placements at a h v = elim kept [
    | inl same ↦ rw same v
    | inr is ↦ rw is (place-IsArranged d placements v (ground (arith, h)) (ground (arith, h)))
  ]
    where
      kept : (a.dashboard.tiles ≡ d.tiles) ⊎ (a.dashboard.tiles ≡ place d.tiles (sort placements))
      kept = ground (arith, h)
