-- ===== src/Geo/Table.antt =====
-- `decodeCountryTable`, `floorIndex` and `countryOfKey` of packages/ingestion/adapter-geoip/src/table.ts.
pub mod Search
use counted.Base.{
  ℕ, zero, suc, ◌+◌, ◌-◌, ◌*◌, ◌/◌, Bool, true, false, List, [], ◌∷◌, Option, none, some, leb, ltb,
  nat_beq, length, if◌then◌else◌,
}
use counted.Geo.Address.{AddressKey}
use counted.Geo.Reader.{Boundary, Read, u8, u16, u32, ascii, read_axis, ◌>>=◌}

-- `starts` and `country` of an axis are one list of pairs.
pub record CountryTable : Type 0 where
  pub generated_at : ℕ
  pub countries : List (List ℕ)
  pub v4 : List Boundary
  pub v6 : List Boundary

-- "CTRY"
abbrev magic : List ℕ
magic = 67 ∷ 84 ∷ 82 ∷ 89 ∷ []

abbrev is_same : List ℕ → List ℕ → Bool
is_same [] [] = true
is_same (c ∷ cs) (d ∷ ds) = if nat_beq c d then is_same cs ds else false
is_same cs ds = false

-- The loop over the codes of the countries.
unfoldable pub read_countries : ℕ → List ℕ → Read (List (List ℕ))
unfolding ascii
read_countries zero bytes = some ([], bytes)
read_countries (suc count) bytes = ascii 2 bytes >>= λ (country, rest).
    read_countries count rest >>= λ (countries, more). some (country ∷ countries, more)

-- A cell of the first axis holds 32 bits, and one of the second any number that is exact.
unfoldable pub read_axes : ℕ → List (List ℕ) → List ℕ → Read CountryTable
unfolding u32 read_axis
read_axes generated_at countries bytes = u32 bytes >>= λ (v4_count, rest).
    read_axis 4294967296 0 v4_count rest >>= λ (v4, more). u32 more >>= λ (v6_count, last).
    read_axis 9007199254740992 0 v6_count last >>= λ (v6, end).
    some (record { generated_at = generated_at; countries = countries; v4 = v4; v6 = v6 }, end)

-- The instant of the snapshot is in milliseconds.
unfoldable pub read_body : List ℕ → Read CountryTable
unfolding read_axes read_countries u16
read_body bytes = u32 bytes >>= λ (seconds, rest). u16 rest >>= λ (count, more).
    read_countries count more >>= λ (countries, axes). read_axes (seconds * 1000) countries axes

unfoldable pub decode_country_table : List ℕ → Read CountryTable
unfolding read_body
decode_country_table bytes = ascii 4 bytes >>= λ (start, rest).
    if is_same start magic
    then (u8 rest >>= λ (version, body). if nat_beq version 1 then read_body body else none)
    else none

abbrev pub start_at : List Boundary → ℕ → Option ℕ
start_at [] i = none
start_at ((start, country) ∷ axis) zero = some start
start_at ((start, country) ∷ axis) (suc i) = start_at axis i

abbrev pub country_at : List Boundary → ℕ → ℕ
country_at [] i = 0
country_at ((start, country) ∷ axis) zero = country
country_at ((start, country) ∷ axis) (suc i) = country_at axis i

-- `starts[middle] <= key`, which is false of a missing cell
abbrev pub is_at_most : Option ℕ → ℕ → Bool
is_at_most none key = false
is_at_most (some start) key = leb start key

-- The loop of `floorIndex`, on fuel; `after` is `high + 1`, so that it is never negative.
unfoldable pub floor_from : ℕ → List Boundary → ℕ → ℕ → ℕ → Option ℕ → Option ℕ
floor_from zero axis key low after found = found
floor_from (suc fuel) axis key low after found =
    let middle = (low + (after - 1)) / 2 in
    let right = floor_from fuel axis key (middle + 1) after (some middle) in
    let left = floor_from fuel axis key low middle found in
    if ltb low after then (if is_at_most (start_at axis middle) key then right else left) else found

-- The range shrinks at every round, so its length is fuel enough.
unfoldable pub floor_index : List Boundary → ℕ → Option ℕ
unfolding floor_from
floor_index axis key = floor_from (length axis) axis key 0 (length axis) none

abbrev pub country_of_index : List (List ℕ) → ℕ → Option (List ℕ)
country_of_index countries zero = none
country_of_index [] (suc index) = none
country_of_index (country ∷ countries) (suc zero) = some country
country_of_index (country ∷ countries) (suc (suc index)) = country_of_index countries (suc index)

abbrev pub axis_of : CountryTable → AddressKey → List Boundary
axis_of table (AddressKey.v4 key) = table.v4
axis_of table (AddressKey.v6 key) = table.v6

abbrev pub key_of : AddressKey → ℕ
key_of (AddressKey.v4 key) = key
key_of (AddressKey.v6 key) = key

unfoldable pub country_of_key : CountryTable → AddressKey → Option (List ℕ)
unfolding floor_index
country_of_key table address = elim (floor_index (axis_of table address) (key_of address)) [
  | none ↦ none
  | some at ↦ country_of_index table.countries (country_at (axis_of table address) at)
]
