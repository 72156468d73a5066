-- ===== src/Dashboarding/Dashboard/Rows.antt =====
-- `rows` of packages/dashboarding/domain/src/dashboard.ts: tiles packed into rows of twelve.
use counted.Base.{
  ℕ, ◌+◌, ◌≤◌, Bool, true, false, ◌&&◌, List, [], ◌∷◌, ◌++◌, ◌≡◌, refl, sym, ap, ◌∙◌, arith, leb,
  ltb, all, if◌then◌else◌,
}
use mathlib.Core.List.{append-nil, append_assoc}
use counted.Dashboarding.Tile.{Tile, row_units}
use counted.Dashboarding.Dashboard.{Dashboard}

module _ {A : Type 0} where
  abbrev has_any : List (Tile A) → Bool
  has_any [] = false
  has_any (t ∷ ts) = true

  -- The loop, with the rows so far, the row that is filled, and the units that it uses.
  pack : List (List (Tile A)) → List (Tile A) → ℕ → List (Tile A) → List (List (Tile A))
  pack out row used [] = if has_any row then out ++ row ∷ [] else out
  pack out row used (tile ∷ tiles) =
      let full = ltb row_units (used + tile.width) && has_any row in
      pack (if full then out ++ row ∷ [] else out) (if full then tile ∷ [] else row ++ tile ∷ [])
        (if full then tile.width else used + tile.width) tiles

  unfoldable pub rows : Dashboard A → List (List (Tile A))
  unfolding pack
  rows d = pack [] [] 0 d.tiles

  abbrev pub flat : List (List (Tile A)) → List (Tile A)
  flat [] = []
  flat (row ∷ rest) = row ++ flat rest

  abbrev pub units : List (Tile A) → ℕ
  units [] = 0
  units (t ∷ ts) = t.width + units ts

  -- A row that is drawn has a tile, and its widths fit.
  abbrev pub fits : List (Tile A) → Bool
  fits row = has_any row && leb (units row) row_units

  flat-append : (xs ys : List (List (Tile A))) → flat (xs ++ ys) ≡ flat xs ++ flat ys
  flat-append [] ys = refl
  flat-append (x ∷ xs) ys =
      ap (◌++◌ x) (flat-append xs ys) ∙ sym (append_assoc x (flat xs) (flat ys))

  units-append : (xs ys : List (Tile A)) → units (xs ++ ys) ≡ units xs + units ys
  units-append [] ys = omega arith
  units-append (x ∷ xs) ys = omega (arith, units-append xs ys)

  any-append : (xs : List (Tile A)) (t : Tile A) → has_any (xs ++ t ∷ []) ≡ true
  any-append [] t = refl
  any-append (x ∷ xs) t = refl

  all-append :
      (p : List (Tile A) → Bool) (xs ys : List (List (Tile A)))
      → all p (xs ++ ys) ≡ (all p xs && all p ys)
  all-append p [] ys = refl
  all-append p (x ∷ xs) ys = ground (arith, all-append p xs ys)

  flat-step :
      (full : Bool) (out : List (List (Tile A))) (row : List (Tile A)) (used : ℕ) (tile : Tile A)
      (tiles : List (Tile A))
      → ((out' : List (List (Tile A))) (row' : List (Tile A)) (n : ℕ)
          → flat (pack out' row' n tiles) ≡ flat out' ++ (row' ++ tiles))
      → flat (
          pack
            (if full then out ++ row ∷ [] else out)
            (if full then tile ∷ [] else row ++ tile ∷ [])
            used
            tiles)
        ≡ flat out ++ (row ++ tile ∷ tiles)
  flat-step true out row used tile tiles ih =
      ih (out ++ row ∷ []) (tile ∷ []) used
      ∙ (rw (flat-append out (row ∷ []), append-nil row, append_assoc (flat out) row (tile ∷ tiles))
          refl)
  flat-step false out row used tile tiles ih =
      ih out (row ++ tile ∷ []) used ∙ ap (◌++◌ (flat out)) (append_assoc row (tile ∷ []) tiles)

  flat-pack :
      (out : List (List (Tile A))) (row : List (Tile A)) (used : ℕ) (tiles : List (Tile A))
      → flat (pack out row used tiles) ≡ flat out ++ (row ++ tiles)
  unfolding pack
  flat-pack out [] used [] = sym (append-nil (flat out))
  flat-pack out (t ∷ row) used [] = flat-append out ((t ∷ row) ∷ [])
  flat-pack out row used (tile ∷ tiles) =
      flat-step (ltb row_units (used + tile.width) && has_any row) out row _ tile tiles
        (λ out' row' n. flat-pack out' row' n tiles)

  fits-step :
      (full : Bool) (out : List (List (Tile A))) (row : List (Tile A)) (used : ℕ) (tile : Tile A)
      (tiles : List (Tile A))
      → ((out' : List (List (Tile A))) (row' : List (Tile A)) (n : ℕ)
          → all fits out' ≡ true
          → n ≡ units row'
          → n ≤ row_units
          → all fits (pack out' row' n tiles) ≡ true)
      → all fits out ≡ true
      → used ≡ units row
      → used ≤ row_units
      → tile.width ≤ row_units
      → (full ≡ true → has_any row ≡ true)
      → (full ≡ false → used + tile.width ≤ row_units)
      → all fits (
          pack
            (if full then out ++ row ∷ [] else out)
            (if full then tile ∷ [] else row ++ tile ∷ [])
            (if full then tile.width else used + tile.width)
            tiles)
        ≡ true
  fits-step true out row used tile tiles ih o e u w f g =
      ih (out ++ row ∷ []) (tile ∷ []) tile.width
        (ground (arith, all-append fits out (row ∷ []), f refl)) (omega arith) w
  fits-step false out row used tile tiles ih o e u w f g =
      ih out (row ++ tile ∷ []) (used + tile.width) o (omega (arith, units-append row (tile ∷ [])))
        (g refl)

  not_full :
      (row : List (Tile A)) (used : ℕ) (tile : Tile A)
      → used ≡ units row
      → tile.width ≤ row_units
      → (ltb row_units (used + tile.width) && has_any row) ≡ false
      → used + tile.width ≤ row_units
  not_full [] used tile e w h = omega arith
  not_full (t ∷ row) used tile e w h = ground arith

  pack-fits :
      (out : List (List (Tile A))) (row : List (Tile A)) (used : ℕ) (tiles : List (Tile A))
      → all fits out ≡ true
      → used ≡ units row
      → used ≤ row_units
      → all (λ t. leb t.width row_units) tiles ≡ true
      → all fits (pack out row used tiles) ≡ true
  unfolding pack
  pack-fits out [] used [] o e u w = o
  pack-fits out (t ∷ row) used [] o e u w = ground (arith, all-append fits out ((t ∷ row) ∷ []))
  pack-fits out row used (tile ∷ tiles) o e u w =
      fits-step (ltb row_units (used + tile.width) && has_any row) out row used tile tiles
        (λ out' row' n o' e' u'. pack-fits out' row' n tiles o' e' u' (ground (arith, w))) o e u
        (ground (arith, w)) (λ h. ground (arith, h)) (not_full row used tile e (ground (arith, w)))

  -- Packing loses, repeats and reorders no tile: the rows, one after the other, are the tiles; and
  -- where no tile is wider than a row, every row has a tile and its widths fit.
  pub rows_lem :
      (d : Dashboard A)
      → (flat (rows d) ≡ d.tiles)
        × (all (λ t. leb t.width row_units) d.tiles ≡ true → all fits (rows d) ≡ true)
  unfolding rows
  rows_lem d = (flat-pack [] [] 0 d.tiles, λ h. pack-fits [] [] 0 d.tiles refl refl (omega arith) h)
