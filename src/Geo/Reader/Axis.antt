-- ===== src/Geo/Reader/Axis.antt =====
-- What is written is read back.
use mathlib.Core.List.{append_assoc}
use native.Mathlib.Nat.{mod-eq_of_lt}
use counted.Base.{
  ℕ, zero, suc, ◌+◌, ◌-◌, ◌*◌, ◌/◌, ◌%◌, ◌≤◌, ◌<◌, List, [], ◌∷◌, ◌++◌, some, ◌≡◌, refl, ◌∙◌, arith,
  length, ltb, ltb-cases, inl, inr, true, false,
}
use counted.Geo.Reader.{Boundary, varint_from, varint, read_axis}
use counted.Geo.Writer.{varint_fueled, write_varint, write_axis}

-- A number and its scale, taken apart at 128.
scaled : (q r s : ℕ) → r * s + q * (s * 128) ≡ (q * 128 + r) * s
scaled q r s = grind arith

varint_from-last :
    (n value scale : ℕ) (more : List ℕ)
    → n < 128
    → varint_from value scale (n ∷ more) ≡ some (value + n * scale, more)
unfolding varint_from
varint_from-last n value scale more h =
    let same : n % 128 ≡ n = omega arith in
    let low : ltb n 128 ≡ true = ground (arith, h) in rw (low, same) refl

varint_from-more :
    (byte value scale : ℕ) (more : List ℕ)
    → 128 ≤ byte
    → varint_from value scale (byte ∷ more)
      ≡ varint_from (value + (byte % 128) * scale) (scale * 128) more
unfolding varint_from
varint_from-more byte value scale more h =
    let high : ltb byte 128 ≡ false = ground (arith, h) in rw high refl

fueled-last : (fuel n : ℕ) → n < 128 → varint_fueled (suc fuel) n ≡ n ∷ []
unfolding varint_fueled
fueled-last fuel n h = let low : ltb n 128 ≡ true = ground (arith, h) in rw low refl

fueled-more :
    (fuel n : ℕ)
    → 128 ≤ n
    → varint_fueled (suc fuel) n ≡ (n % 128 + 128) ∷ varint_fueled fuel (n / 128)
unfolding varint_fueled
fueled-more fuel n h = let high : ltb n 128 ≡ false = ground (arith, h) in rw high refl

varint_from-fueled :
    (fuel n value scale : ℕ) (more : List ℕ)
    → n < fuel
    → varint_from value scale (varint_fueled fuel n ++ more) ≡ some (value + n * scale, more)
varint_from-fueled zero n value scale more h = absurd (omega arith)
varint_from-fueled (suc fuel) n value scale more h = elim (ltb-cases n 128) [
  | inl low ↦ rw (fueled-last fuel n low) (varint_from-last n value scale more low)
  | inr high ↦
      let byte = n % 128 + 128 in
      let seven : byte % 128 ≡ n % 128 = omega arith in
      let whole : n / 128 * 128 + n % 128 ≡ n = omega arith in
      let total : value + (n % 128) * scale + n / 128 * (scale * 128) ≡ value + n * scale =
        grind (arith, whole, scaled (n / 128) (n % 128) scale) in
      rw
        (
          fueled-more fuel n high,
          varint_from-more byte value scale (varint_fueled fuel (n / 128) ++ more) (omega arith),
          seven,
          varint_from-fueled fuel (n / 128) (value + (n % 128) * scale) (scale * 128) more
              (omega arith),
          total,
        )
        refl
]

varint-write_varint : (n : ℕ) (more : List ℕ) → varint (write_varint n ++ more) ≡ some (n, more)
unfolding varint write_varint
varint-write_varint n more =
    let whole : 0 + n * 1 ≡ n = omega arith in
    rw (varint_from-fueled (suc n) n 0 1 more (omega arith), whole) refl

-- Boundaries that an array's cells hold, each not before the one that it follows.
abbrev pub AreAscending : ℕ → ℕ → List Boundary → Type 0
AreAscending cell previous [] = Unit
AreAscending cell previous ((start, country) ∷ boundaries) =
    (previous ≤ start) × (start < cell) × (country < 65536) × AreAscending cell start boundaries

write_axis_next :
    (previous start country : ℕ) (boundaries : List Boundary) (more : List ℕ)
    → write_axis previous ((start, country) ∷ boundaries) ++ more
      ≡ write_varint (start - previous)
        ++ (write_varint country ++ (write_axis start boundaries ++ more))
unfolding write_axis
write_axis_next previous start country boundaries more =
    let delta = write_varint (start - previous) in
    let code = write_varint country in
    append_assoc (delta ++ code) (write_axis start boundaries) more
    ∙ append_assoc delta code (write_axis start boundaries ++ more)

read_axis_none :
    (cell previous : ℕ) (more : List ℕ)
    → read_axis cell previous 0 (write_axis previous [] ++ more) ≡ some ([], more)
unfolding read_axis write_axis
read_axis_none cell previous more = refl

read_axis_next :
    (cell previous count delta country : ℕ) (bytes rest more end : List ℕ) (axis : List Boundary)
    → varint bytes ≡ some (delta, rest)
    → varint rest ≡ some (country, more)
    → read_axis cell (previous + delta) count more ≡ some (axis, end)
    → read_axis cell previous (suc count) bytes
      ≡ some (((previous + delta) % cell, country % 65536) ∷ axis, end)
unfolding read_axis
read_axis_next cell previous count delta country bytes rest more end axis d c a = rw (d, c, a) refl

-- What the script writes of an axis is what the program reads, whatever follows it: the boundaries
-- ascend, and fit into the cells of the arrays.
pub read_axis-write_axis :
    (cell previous : ℕ) (boundaries : List Boundary) (more : List ℕ)
    → AreAscending cell previous boundaries
    → read_axis cell previous (length boundaries) (write_axis previous boundaries ++ more)
      ≡ some (boundaries, more)
read_axis-write_axis cell previous [] more h = read_axis_none cell previous more
read_axis-write_axis cell previous ((start, country) ∷ boundaries) more (first, small, code, rest) =
    let tail = write_axis start boundaries ++ more in
    let there : previous + (start - previous) ≡ start = omega (arith, first) in
    let fits : start % cell ≡ start = mod-eq_of_lt small in
    let listed : country % 65536 ≡ country = omega (arith, code) in
    let read_on : read_axis cell (previous + (start - previous)) (length boundaries) tail
        ≡ some (boundaries, more) =
      rw there (read_axis-write_axis cell start boundaries more rest) in
    let next =
      read_axis_next cell previous (length boundaries) (start - previous) country
        (write_varint (start - previous) ++ (write_varint country ++ tail))
        (write_varint country ++ tail) tail more boundaries
        (varint-write_varint (start - previous) (write_varint country ++ tail))
        (varint-write_varint country tail) read_on in
    rw (write_axis_next previous start country boundaries more, next, there, fits, listed) refl
