-- ===== src/Base/Units.antt =====
-- The length of a text as ECMAScript counts it: in code units of 16 bits, two of them for a
-- character past the basic plane.
use Prim.Native.Char.{Char, code}
use counted.Base.{
  ℕ, ◌+◌, ◌-◌, ◌≤◌, ◌<◌, Bool, ◌||◌, String, arith, leb, if◌then◌else◌, is_space, Bool-cases, inl,
  inr,
}

abbrev pub unit_count : Char → ℕ
unit_count c = if leb 65536 (code c) then 2 else 1

-- `s.length`
unfoldable pub units : String → ℕ
units String.[] = 0
units (String.◌∷◌ c s) = unit_count c + units s

-- `s.slice(0, n)`: where the cut falls inside a character, what is left of it is its first unit.
unfoldable pub slice : (Char → Char) → ℕ → String → String
slice lead n String.[] = String.[]
slice lead n (String.◌∷◌ c s) =
    let rest = slice lead (n - unit_count c) s in
    if leb (unit_count c) n
    then String.◌∷◌ c rest
    else if leb 1 n
    then String.◌∷◌ (lead c) String.[]
    else String.[]

-- `/\s/.test(s)`
unfoldable pub has_space : String → Bool
has_space String.[] = Bool.false
has_space (String.◌∷◌ c s) = is_space c || has_space s

pub units-slice :
    (lead : Char → Char)
    → ((c : Char) → code (lead c) < 65536)
    → (n : ℕ) (s : String) → units (slice lead n s) ≤ n
unfolding units slice
units-slice lead small n String.[] = omega arith
units-slice lead small n (String.◌∷◌ c s) = elim (Bool-cases (leb (unit_count c) n)) [
  | inl fits ↦ rw fits (ground (arith, fits, units-slice lead small (n - unit_count c) s))
  | inr cut ↦ rw cut (elim (Bool-cases (leb 1 n)) [
    | inl one ↦ rw one (ground (arith, small c))
    | inr zero ↦ rw zero (ground arith)
  ])
]
