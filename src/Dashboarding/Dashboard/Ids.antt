-- ===== src/Dashboarding/Dashboard/Ids.antt =====
-- How often an id stands among the tiles, under what the operations do to them.
use counted.Base.{
  ℕ, zero, suc, ◌+◌, ◌≤◌, Bool, true, false, not, List, [], ◌∷◌, ◌++◌, String, none, some, ◌≡◌,
  refl, ◌∙◌, arith, ◌==◌, text_equality, eq_iff, if◌then◌else◌, length, filter, find, take, drop,
  map, Option-cases, inl, inr, includes,
}
use counted.Dashboarding.Tile.{Tile}
use counted.Dashboarding.Dashboard.Tiles.{has_tile, distinct, moved, by_id, gather}

abbrev pub occurrences : String → List String → ℕ
occurrences id [] = 0
occurrences id (x ∷ xs) = (if x == id then 1 else 0) + occurrences id xs

includes-occurrences :
    (id : String) (xs : List String) → includes xs id ≡ false → occurrences id xs ≡ 0
includes-occurrences id [] h = refl
includes-occurrences id (x ∷ xs) h = ground (arith, includes-occurrences id xs)

length-distinct : (xs : List String) → length (distinct xs) ≤ length xs
length-distinct [] = omega arith
length-distinct (x ∷ xs) = ground (arith, length-distinct xs)

pub occurrences-distinct :
    (id : String) (xs : List String) → length (distinct xs) ≡ length xs → occurrences id xs ≤ 1
occurrences-distinct id [] h = omega arith
occurrences-distinct id (x ∷ xs) h =
    ground (
      arith,
      occurrences-distinct id xs,
      length-distinct xs,
      includes-occurrences id xs,
      eq_iff x id,
    )

module _ {A : Type 0} where
  abbrev pub tally : String → List (Tile A) → ℕ
  tally id [] = 0
  tally id (t ∷ ts) = (if t.id == id then 1 else 0) + tally id ts

  pub tally-append :
      (id : String) (xs ys : List (Tile A)) → tally id (xs ++ ys) ≡ tally id xs + tally id ys
  tally-append id [] ys = omega arith
  tally-append id (x ∷ xs) ys = omega (arith, tally-append id xs ys)

  pub tally-none : (id : String) (xs : List (Tile A)) → has_tile xs id ≡ false → tally id xs ≡ 0
  tally-none id [] h = refl
  tally-none id (x ∷ xs) h = ground (arith, tally-none id xs)

  pub tally-map :
      (id : String) (f : Tile A → Tile A)
      → ((t : Tile A) → (f t).id ≡ t.id)
      → (xs : List (Tile A)) → tally id (map f xs) ≡ tally id xs
  tally-map id f h [] = refl
  tally-map id f h (x ∷ xs) = ground (arith, tally-map id f h xs, h x)

  pub tally-filter_le :
      (id : String) (p : Tile A → Bool) (xs : List (Tile A)) → tally id (filter p xs) ≤ tally id xs
  tally-filter_le id p [] = omega arith
  tally-filter_le id p (x ∷ xs) = ground (arith, tally-filter_le id p xs)

  tally-take-drop :
      (id : String) (n : ℕ) (xs : List (Tile A))
      → tally id (take n xs) + tally id (drop n xs) ≡ tally id xs
  tally-take-drop id zero xs = omega arith
  tally-take-drop id (suc n) [] = omega arith
  tally-take-drop id (suc n) (x ∷ xs) = omega (arith, tally-take-drop id n xs)

  tally-drop_one :
      (id : String) (n : ℕ) (xs : List (Tile A))
      → tally id (take 1 (drop n xs)) + tally id (drop (suc n) xs) ≡ tally id (drop n xs)
  tally-drop_one id zero [] = omega arith
  tally-drop_one id zero (x ∷ xs) = omega arith
  tally-drop_one id (suc n) [] = omega arith
  tally-drop_one id (suc n) (x ∷ xs) = tally-drop_one id n xs

  pub tally-moved :
      (id : String) (from to : ℕ) (xs : List (Tile A)) → tally id (moved from to xs) ≡ tally id xs
  tally-moved id from to xs =
      let rest = take from xs ++ drop (suc from) xs in
      let one = take 1 (drop from xs) in
      tally-append id (take to rest ++ one) (drop to rest)
      ∙ omega (
        arith,
        tally-append id (take to rest) one,
        tally-take-drop id to rest,
        tally-append id (take from xs) (drop (suc from) xs),
        tally-drop_one id from xs,
        tally-take-drop id from xs,
      )

  pub by_id-id : (id : String) (xs : List (Tile A)) {t : Tile A} → by_id xs id ≡ some t → t.id ≡ id
  by_id-id id [] h = cc
  by_id-id id (x ∷ xs) {t} h = ground (arith, by_id-id id xs {t = t}, eq_iff x.id id)

  pub tally-gather :
      (id : String) (tiles : List (Tile A)) (order : List String)
      → tally id (gather tiles order) ≤ occurrences id order
  tally-gather id tiles [] = omega arith
  tally-gather id tiles (k ∷ order) = elim (Option-cases (by_id tiles k)) [
    | inl e ↦ ground (arith, tally-gather id tiles order)
    | inr (t, e) ↦ ground (arith, tally-gather id tiles order, by_id-id k tiles e)
  ]

  pub length-gather :
      (tiles : List (Tile A)) (order : List String) → length (gather tiles order) ≤ length order
  length-gather tiles [] = omega arith
  length-gather tiles (k ∷ order) = ground (arith, length-gather tiles order)

  by_id-has :
      (id : String) (xs : List (Tile A))
      → has_tile xs id ≡ true
      → (t : Tile A) × (by_id xs id ≡ some t)
  by_id-has id [] h = cc
  by_id-has id (x ∷ xs) h = elim (Option-cases (by_id xs id)) [
    | inl e ↦ (x, ground (arith, by_id-has id xs))
    | inr (t, e) ↦ (t, ground arith)
  ]

  -- Where every id is found, the tiles that are gathered have the ids in their order.
  pub ids-gather :
      (tiles : List (Tile A)) (order : List String)
      → find (λ id. not (has_tile tiles id)) order ≡ none
      → map (λ (t : Tile A). t.id) (gather tiles order) ≡ order
  ids-gather tiles [] h = refl
  ids-gather tiles (k ∷ order) h =
      let (t, e) = by_id-has k tiles (ground (arith, h)) in
      let later = ids-gather tiles order (ground (arith, h)) in
      ground (arith, e, by_id-id k tiles e, later)
