-- ===== src/Geo/Writer.antt =====
-- `Writer` and the loop over the boundaries of scripts/build-country-table.ts, which writes the table.
use counted.Base.{ℕ, zero, suc, ◌+◌, ◌-◌, ◌/◌, ◌%◌, List, [], ◌∷◌, ◌++◌, ltb, if◌then◌else◌}
use counted.Geo.Reader.{Boundary}

-- On fuel, of which the number itself is enough: it falls at every round.
unfoldable pub varint_fueled : ℕ → ℕ → List ℕ
varint_fueled zero rest = []
varint_fueled (suc fuel) rest =
    let more = varint_fueled fuel (rest / 128) in
    if ltb rest 128 then rest ∷ [] else (rest % 128 + 128) ∷ more

unfoldable pub write_varint : ℕ → List ℕ
unfolding varint_fueled
write_varint value = varint_fueled (suc value) value

unfoldable pub write_axis : ℕ → List Boundary → List ℕ
write_axis previous [] = []
write_axis previous ((start, country) ∷ boundaries) =
    write_varint (start - previous) ++ write_varint country ++ write_axis start boundaries
