-- ===== src/Geo/Table/Search.antt =====
-- The search of an axis against a count of all of it.
use counted.Base.{
  ℕ, zero, suc, ◌+◌, ◌-◌, ◌/◌, ◌≤◌, ◌<◌, true, false, List, [], ◌∷◌, Option, none, some, ◌≡◌, refl,
  arith, All, length, leb, ltb, if◌then◌else◌, inl, inr, ltb-cases,
}
use counted.Geo.Reader.{Boundary}
use counted.Geo.Table.{start_at, is_at_most, floor_from, floor_index}

-- No boundary is before the one that it follows.
abbrev pub AreSorted : List Boundary → Type 0
AreSorted [] = Unit
AreSorted (b ∷ axis) = All (λ (later : Boundary). b.0 ≤ later.0) axis × AreSorted axis

succ_plus : (n : ℕ) → n + 1 ≡ suc n
succ_plus n = omega arith

module _ (key : ℕ) where
  -- How many boundaries are at most the key.
  abbrev pub count_at_most : List Boundary → ℕ
  count_at_most [] = 0
  count_at_most (b ∷ axis) = if leb b.0 key then suc (count_at_most axis) else count_at_most axis

  count-none :
      (start : ℕ) (axis : List Boundary)
      → key < start
      → All (λ (later : Boundary). start ≤ later.0) axis
      → count_at_most axis ≡ 0
  count-none start [] below h = refl
  count-none start (b ∷ axis) below h = ground (arith, below, h.0, count-none start axis below h.1)

  count-le : (axis : List Boundary) → count_at_most axis ≤ length axis
  count-le [] = omega arith
  count-le (b ∷ axis) = ground (arith, count-le axis)

  at_most-count :
      (axis : List Boundary) (i : ℕ)
      → AreSorted axis
      → i < length axis
      → is_at_most (start_at axis i) key ≡ ltb i (count_at_most axis)
  at_most-count [] i h within = absurd (omega arith)
  at_most-count (b ∷ axis) zero h within = ground (arith, count-none b.0 axis, h.0)
  at_most-count (b ∷ axis) (suc i) h within =
      ground (arith, h.0, count-none b.0 axis, at_most-count axis i h.1)

  -- The index of the last of so many.
  abbrev pub last_of : ℕ → Option ℕ
  last_of zero = none
  last_of (suc n) = some n

  -- The rounds of the loop.
  floor_from-done :
      (fuel : ℕ) (axis : List Boundary) (low after : ℕ) (found : Option ℕ)
      → after ≤ low
      → floor_from fuel axis key low after found ≡ found
  unfolding floor_from
  floor_from-done zero axis low after found h = refl
  floor_from-done (suc fuel) axis low after found h =
      let over : ltb low after ≡ false = ground (arith, h) in rw over refl

  floor_from-next :
      (fuel : ℕ) (axis : List Boundary) (low after middle : ℕ) (found : Option ℕ)
      → low < after
      → (low + (after - 1)) / 2 ≡ middle
      → floor_from (suc fuel) axis key low after found ≡ (
          if is_at_most (start_at axis middle) key
          then floor_from fuel axis key (middle + 1) after (some middle)
          else floor_from fuel axis key low middle found)
  unfolding floor_from
  floor_from-next fuel axis low after middle found h e =
      let goes : ltb low after ≡ true = ground (arith, h) in rw (goes, e) refl

  floor_from_lem :
      (fuel : ℕ) (axis : List Boundary) (low after : ℕ)
      → AreSorted axis
      → low ≤ count_at_most axis
      → count_at_most axis ≤ after
      → after ≤ length axis
      → after - low ≤ fuel
      → floor_from fuel axis key low after (last_of low) ≡ last_of (count_at_most axis)
  floor_from_lem zero axis low after h below above inside enough =
      let met : low ≡ count_at_most axis = omega (arith, below, above, enough) in
      rw (floor_from-done zero axis low after (last_of low) (omega (arith, enough)), met) refl
  floor_from_lem (suc fuel) axis low after h below above inside enough =
      elim (ltb-cases low after) [
        | inr over ↦
            let met : low ≡ count_at_most axis = omega (arith, below, above, over) in
            rw (floor_from-done (suc fuel) axis low after (last_of low) over, met) refl
        | inl room ↦
            let middle = (low + (after - 1)) / 2 in
            let small : middle < after = omega (arith, room) in
            let great : low ≤ middle = omega (arith, room) in
            let test = at_most-count axis middle h (omega (arith, small, inside)) in
            let next = floor_from-next fuel axis low after middle (last_of low) room refl in
            elim (ltb-cases middle (count_at_most axis)) [
              | inl inner ↦
                  let yes : ltb middle (count_at_most axis) ≡ true = ground (arith, inner) in
                  let rest : floor_from fuel axis key (middle + 1) after (some middle)
                      ≡ last_of (count_at_most axis) =
                    rw (succ_plus middle) (
                      floor_from_lem fuel axis (suc middle) after h (omega (arith, inner)) above
                        inside (omega (arith, enough, great))) in
                  rw (next, test, yes) rest
              | inr outer ↦
                  let no : ltb middle (count_at_most axis) ≡ false = ground (arith, outer) in
                  rw (next, test, no)
                    (floor_from_lem fuel axis low middle h below outer
                      (omega (arith, small, inside)) (omega (arith, enough, small)))
            ]
      ]

  -- The search ends, and finds the last boundary that is at most the key, or none if there is none:
  -- the one that a count of all the boundaries of a sorted axis points to.
  pub floor_index_lem :
      (axis : List Boundary) → AreSorted axis → floor_index axis key ≡ last_of (count_at_most axis)
  unfolding floor_index
  floor_index_lem axis h =
      floor_from_lem (length axis) axis 0 (length axis) h (omega arith) (count-le axis)
        (omega arith) (omega arith)
