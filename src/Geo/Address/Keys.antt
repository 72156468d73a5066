-- ===== src/Geo/Address/Keys.antt =====
-- The key of an entry.
use mathlib.Core.Path.{subst}
use counted.Base.{
  ℕ, not, ◌||◌, List, [], ◌∷◌, String, ◌≡◌, Bool-cases, Option-cases, inl, inr, includes, is_empty,
  trim, codes, leb, nat_equality,
}
use counted.Base.Units.{units}
use counted.Geo.Address.{
  AddressKey, parsed, parse_octets, expand, groups_of, split_halves, parse_v6_halves,
}
use counted.Geo.Address.Entry.{up_to, unbracket, has_port, v4_of, key_of_text, address_key}
use counted.Geo.Address.Bounds.{
  IsKey, IsParsed, parse_octets-lt, expand-IsSmall, key_of_hextets-IsParsed, key_of_halves-IsParsed,
}

parse_v6_halves-IsParsed : (halves : List (List ℕ)) → IsParsed (parse_v6_halves halves)
unfolding parse_v6_halves
parse_v6_halves-IsParsed [] = tt
parse_v6_halves-IsParsed (text ∷ []) = elim (Option-cases (expand (groups_of text))) [
  | inl none_of ↦ rw (none_of, IsParsed) tt
  | inr (hextets, e) ↦
      rw (e, IsParsed) (key_of_hextets-IsParsed hextets (expand-IsSmall (groups_of text) hextets e))
]
parse_v6_halves-IsParsed (left ∷ right ∷ []) =
    key_of_halves-IsParsed (groups_of left) (groups_of right)
parse_v6_halves-IsParsed (a ∷ b ∷ c ∷ halves) = tt

v4_of-IsParsed : (text : List ℕ) → IsParsed (v4_of (parse_octets text))
v4_of-IsParsed text = elim (Option-cases (parse_octets text)) [
  | inl none_of ↦ rw (none_of, IsParsed, v4_of) tt
  | inr (n, e) ↦ rw (e, IsParsed, v4_of) (parse_octets-lt text n e)
]

key_of_text-IsParsed : (text : List ℕ) → IsParsed (key_of_text text)
unfolding key_of_text
key_of_text-IsParsed text = elim (Bool-cases (includes text b':')) [
  | inl colon ↦ elim (Bool-cases (has_port text)) [
    | inl port ↦ rw (colon, port, IsParsed) (v4_of-IsParsed (up_to b':' text))
    | inr bare ↦ rw (colon, bare, IsParsed) (parse_v6_halves-IsParsed (split_halves text))
  ]
  | inr dots ↦ rw (dots, IsParsed) (v4_of-IsParsed text)
]

address_key-IsParsed : (raw : String) → IsParsed (address_key raw)
unfolding address_key
address_key-IsParsed raw =
    elim (Bool-cases (is_empty (trim raw) || not (leb (units (trim raw)) 64))) [
      | inl bad ↦ rw (bad, IsParsed) tt
      | inr good ↦
          rw (good, IsParsed) (key_of_text-IsParsed (up_to b'%' (unbracket (codes (trim raw)))))
    ]

-- Whatever a proxy writes, a key that is read from it is exact in a double and stays within the keys
-- of its table: 32 bits for an address of the first kind, 48 for one of the second.
pub address_key-IsKey : (raw : String) (key : AddressKey) → address_key raw ≡ parsed key → IsKey key
address_key-IsKey raw key h = subst (λ p. IsParsed p) h (address_key-IsParsed raw)
