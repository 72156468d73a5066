-- ===== src/Dashboarding/Dashboard/Layout/Cells.antt =====
-- The cells of the grid that a placement takes.
use counted.Base.{
  ℕ, ◌≤◌, Bool, true, false, not, ◌&&◌, List, [], ◌∷◌, ◌≡◌, refl, arith, any, sum, if◌then◌else◌,
  All, Bool-cases, inl, inr,
}
use counted.Base.Int.{ℤ, pos, ◌+ℤ◌, ◌≤ℤ◌, ltb_ℤ, leb_ℤ}
use counted.Dashboarding.Tile.{TilePlacement, is_valid_width, valid_tile_layout}
use counted.Dashboarding.Dashboard.Layout.{is_placeable, overlap, any_overlap}

abbrev pub covers : ℤ → ℤ → TilePlacement → Bool
covers x y item =
    leb_ℤ item.at.x x
    && ltb_ℤ x (item.at.x +ℤ pos item.width)
    && leb_ℤ item.at.y y
    && ltb_ℤ y (item.at.y +ℤ item.at.height)

-- How many placements take a cell.
abbrev pub takers : ℤ → ℤ → List TilePlacement → ℕ
takers x y items = sum (λ item. if covers x y item then 1 else 0) items

-- Twelve columns, rows from zero on, and at least one cell.
pub record IsInside (item : TilePlacement) : Type 0 where
  pub left : pos 0 ≤ℤ item.at.x
  pub right : item.at.x +ℤ pos item.width ≤ℤ pos 12
  pub top : pos 0 ≤ℤ item.at.y
  pub wide : 1 ≤ item.width
  pub high : pos 1 ≤ℤ item.at.height

is_placeable-IsInside : (item : TilePlacement) → is_placeable item ≡ true → IsInside item
unfolding is_valid_width valid_tile_layout
is_placeable-IsInside item h = ground arith

pub all-IsInside :
    (items : List TilePlacement)
    → any (λ item. not (is_placeable item)) items ≡ false
    → All IsInside items
all-IsInside [] h = tt
all-IsInside (item ∷ items) h =
    (is_placeable-IsInside item (ground (arith, h)), all-IsInside items (ground (arith, h)))

before : (a x c : ℤ) → leb_ℤ a x ≡ true → ltb_ℤ x c ≡ true → ltb_ℤ a c ≡ true
before a x c h k = ground arith

all_four :
    {p q r s : Bool} → (p && q && r && s) ≡ true → (p ≡ true) × (q ≡ true) × (r ≡ true) × (s ≡ true)
all_four {p = p} {q = q} {r = r} {s = s} h = ground arith

shared-overlap :
    (x y : ℤ) (a b : TilePlacement) → covers x y a ≡ true → covers x y b ≡ true → overlap a b ≡ true
shared-overlap x y a b h k =
    let (left_a, right_a, top_a, bottom_a) = all_four h in
    let (left_b, right_b, top_b, bottom_b) = all_four k in
    rw
      (
        before a.at.x x (b.at.x +ℤ pos b.width) left_a right_b,
        before b.at.x x (a.at.x +ℤ pos a.width) left_b right_a,
        before a.at.y y (b.at.y +ℤ b.at.height) top_a bottom_b,
        before b.at.y y (a.at.y +ℤ a.at.height) top_b bottom_a,
      )
      refl

apart-takers :
    (x y : ℤ) (a : TilePlacement) (items : List TilePlacement)
    → covers x y a ≡ true
    → any (λ b. overlap a b) items ≡ false
    → takers x y items ≡ 0
apart-takers x y a [] h k = refl
apart-takers x y a (b ∷ items) h k = elim (Bool-cases (covers x y b)) [
  | inl both ↦ absurd (ground (arith, shared-overlap x y a b h both, k))
  | inr free ↦ rw free (omega (arith, apart-takers x y a items h (ground (arith, k))))
]

-- Where no two overlap, no cell is taken twice.
pub any_overlap-takers :
    (x y : ℤ) (items : List TilePlacement) → any_overlap items ≡ false → takers x y items ≤ 1
any_overlap-takers x y [] h = omega arith
any_overlap-takers x y (a ∷ items) h = elim (Bool-cases (covers x y a)) [
  | inl taken ↦ rw taken (omega (arith, apart-takers x y a items taken (ground (arith, h))))
  | inr free ↦ rw free (omega (arith, any_overlap-takers x y items (ground (arith, h))))
]
