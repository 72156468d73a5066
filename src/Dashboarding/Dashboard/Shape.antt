-- ===== src/Dashboarding/Dashboard/Shape.antt =====
-- What the tiles of a dashboard have in common, and how the operations on lists keep it.
use counted.Base.{
  ℕ, zero, suc, ◌+◌, ◌≤◌, Bool, true, not, ◌&&◌, List, [], ◌∷◌, ◌++◌, String, none, some, ◌≡◌, refl,
  ap, ◌∙◌, arith, text_equality, is_empty, trim, length, filter, take, drop, all, map,
  length-append, Option-cases, inl, inr,
}
use counted.Dashboarding.Tile.{Tile, is_valid_width, without_layout}
use counted.Dashboarding.Dashboard.Tiles.{misshapen, moved, by_id, gather}
use counted.Dashboarding.Dashboard.Ids.{tally, tally-map, tally-moved}

module _ {A : Type 0} where
  abbrev pub shaped : Tile A → Bool
  shaped t = not (is_empty (trim t.title)) && is_valid_width t.width

  pub record IsArranged (tiles : List (Tile A)) : Type 0 where
    pub few : length tiles ≤ 50
    pub distinct : (id : String) → tally id tiles ≤ 1
    pub all_shaped : all shaped tiles ≡ true

  pub shaped-misshapen : (t : Tile A) → misshapen t ≡ none → shaped t ≡ true
  unfolding misshapen
  shaped-misshapen t h = ground arith

  pub all-append :
      (xs ys : List (Tile A)) → all shaped (xs ++ ys) ≡ (all shaped xs && all shaped ys)
  all-append [] ys = refl
  all-append (x ∷ xs) ys = ground (arith, all-append xs ys)

  pub all-take-drop :
      (n : ℕ) (xs : List (Tile A))
      → all shaped xs ≡ (all shaped (take n xs) && all shaped (drop n xs))
  all-take-drop zero xs = refl
  all-take-drop (suc n) [] = refl
  all-take-drop (suc n) (x ∷ xs) = ground (arith, all-take-drop n xs)

  pub all-map :
      (f : Tile A → Tile A)
      → ((t : Tile A) → shaped t ≡ true → shaped (f t) ≡ true)
      → (xs : List (Tile A)) → all shaped xs ≡ true
      → all shaped (map f xs) ≡ true
  all-map f h [] k = refl
  all-map f h (x ∷ xs) k = ground (arith, all-map f h xs, h x)

  pub all-filter :
      (p : Tile A → Bool) (xs : List (Tile A))
      → all shaped xs ≡ true
      → all shaped (filter p xs) ≡ true
  all-filter p [] h = refl
  all-filter p (x ∷ xs) h = ground (arith, all-filter p xs)

  pub all-by_id :
      (xs : List (Tile A)) (id : String) (t : Tile A)
      → all shaped xs ≡ true
      → by_id xs id ≡ some t
      → shaped t ≡ true
  all-by_id [] id t h k = cc
  all-by_id (x ∷ xs) id t h k = ground (arith, all-by_id xs id t)

  pub all-gather :
      (tiles : List (Tile A)) (order : List String)
      → all shaped tiles ≡ true
      → all shaped (gather tiles order) ≡ true
  all-gather tiles [] h = refl
  all-gather tiles (k ∷ order) h = elim (Option-cases (by_id tiles k)) [
    | inl e ↦ ground (arith, all-gather tiles order h)
    | inr (t, e) ↦ ground (arith, all-gather tiles order h, all-by_id tiles k t h e)
  ]

  pub length-map : (f : Tile A → Tile A) (xs : List (Tile A)) → length (map f xs) ≡ length xs
  length-map f [] = refl
  length-map f (x ∷ xs) = omega (arith, length-map f xs)

  pub map-IsArranged :
      (f : Tile A → Tile A) (xs : List (Tile A))
      → ((t : Tile A) → (f t).id ≡ t.id)
      → ((t : Tile A) → shaped t ≡ true → shaped (f t) ≡ true)
      → IsArranged xs
      → IsArranged (map f xs)
  map-IsArranged f xs h k v = record {
    few = omega (arith, length-map f xs, v.few);
    distinct = λ id. omega (arith, tally-map id f h xs, v.distinct id);
    all_shaped = all-map f k xs v.all_shaped;
  }

  pub without_layout-IsArranged :
      (xs : List (Tile A)) → IsArranged xs → IsArranged (map without_layout xs)
  unfolding without_layout
  without_layout-IsArranged xs v = map-IsArranged without_layout xs (λ t. refl) (λ t h. h) v

  pub length-take-drop :
      (n : ℕ) (xs : List (Tile A)) → length (take n xs) + length (drop n xs) ≡ length xs
  length-take-drop zero xs = omega arith
  length-take-drop (suc n) [] = omega arith
  length-take-drop (suc n) (x ∷ xs) = omega (arith, length-take-drop n xs)

  pub split_one : (n : ℕ) (xs : List (Tile A)) → take 1 (drop n xs) ++ drop (suc n) xs ≡ drop n xs
  split_one zero [] = refl
  split_one zero (x ∷ xs) = refl
  split_one (suc n) [] = refl
  split_one (suc n) (x ∷ xs) = split_one n xs

  pub length-moved : (from to : ℕ) (xs : List (Tile A)) → length (moved from to xs) ≡ length xs
  length-moved from to xs =
      let rest = take from xs ++ drop (suc from) xs in
      let one = take 1 (drop from xs) in
      length-append (take to rest ++ one) (drop to rest)
      ∙ omega (
        arith,
        length-append (take to rest) one,
        length-take-drop to rest,
        length-append (take from xs) (drop (suc from) xs),
        length-append one (drop (suc from) xs),
        ap length (split_one from xs),
        length-take-drop from xs,
      )

  pub all-moved :
      (from to : ℕ) (xs : List (Tile A))
      → all shaped xs ≡ true
      → all shaped (moved from to xs) ≡ true
  all-moved from to xs h =
      let rest = take from xs ++ drop (suc from) xs in
      let one = take 1 (drop from xs) in
      all-append (take to rest ++ one) (drop to rest)
      ∙ ground (
        arith,
        all-append (take to rest) one,
        all-take-drop to rest,
        all-append (take from xs) (drop (suc from) xs),
        all-append one (drop (suc from) xs),
        ap (all shaped) (split_one from xs),
        all-take-drop from xs,
        h,
      )

  pub moved-IsArranged :
      (from to : ℕ) (xs : List (Tile A))
      → IsArranged xs
      → IsArranged (map without_layout (moved from to xs))
  moved-IsArranged from to xs v = without_layout-IsArranged (moved from to xs) (record {
    few = omega (arith, length-moved from to xs, v.few);
    distinct = λ id. omega (arith, tally-moved id from to xs, v.distinct id);
    all_shaped = all-moved from to xs v.all_shaped;
  })
