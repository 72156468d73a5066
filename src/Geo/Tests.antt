-- ===== src/Geo/Tests.antt =====
-- A table of two countries, and entries as proxies write them.
use counted.Base.{◌≡◌, ◌++◌, List, [], ◌∷◌, some, refl, arith, trim}
use counted.Base.Units.{units}
use counted.Geo.Reader.{Boundary, read_axis}
use counted.Geo.Reader.Axis.{AreAscending, read_axis-write_axis}
use counted.Geo.Writer.{write_axis}
use counted.Geo.Table.{floor_index}
use counted.Geo.Table.Search.{AreSorted, count_at_most, last_of, floor_index_lem}
use counted.Geo.Address.{v4, parsed, throws}
use counted.Geo.Address.Entry.{address_key}
use counted.Geo.Address.Bounds.{IsKey}
use counted.Geo.Address.Keys.{address_key-IsKey}

abbrev axis : List Boundary
axis = (0, 0) ∷ (1000, 2) ∷ (70000, 1) ∷ (70000, 2) ∷ []

read_axis-write_axis_example :
    read_axis 4294967296 0 4 (write_axis 0 axis ++ 255 ∷ []) ≡ some (axis, 255 ∷ [])
read_axis-write_axis_example = read_axis-write_axis 4294967296 0 axis (255 ∷ []) ascends
  where
    ascends : AreAscending 4294967296 0 axis
    ascends = omega arith

floor_index_lem_example : floor_index axis 5000 ≡ last_of 5000 (count_at_most 5000 axis)
floor_index_lem_example = floor_index_lem 5000 axis sorted
  where
    sorted : AreSorted axis
    sorted = omega arith

found : floor_index axis 5000 ≡ some 1
unfolding floor_index
found = refl

mapped : address_key " [::ffff:1.2.3.4]:443" ≡ parsed (v4 16909060)
unfolding address_key trim units
mapped = refl

-- Nine groups round a `::` are not unreadable, as is meant, but an error.
crowded : address_key "1:2:3:4:5::6:7:8:9" ≡ throws
unfolding address_key trim units
crowded = refl

address_key-IsKey_example : IsKey (v4 16909060)
address_key-IsKey_example = address_key-IsKey " [::ffff:1.2.3.4]:443" (v4 16909060) mapped
