-- ===== src/Geo/Address/Entry.antt =====
-- `addressKey` of packages/ingestion/adapter-geoip/src/address.ts: an entry as a proxy writes it.
use counted.Base.{
  ℕ, Bool, true, false, not, ◌&&◌, List, [], ◌∷◌, Option, none, some, String, leb, nat_beq, length,
  all, includes, ◌||◌, nat_equality, trim, is_empty, codes, if◌then◌else◌,
}
use counted.Base.Units.{units}
use counted.Geo.Address.{
  v4, Parse, parsed, unreadable, is_digit, is_short_number, split, split_halves, parse_octets,
  parse_v6_halves,
}

-- A text up to a character, and from it on.
abbrev pub up_to : ℕ → List ℕ → List ℕ
up_to stop [] = []
up_to stop (c ∷ text) = if nat_beq c stop then [] else c ∷ up_to stop text

abbrev pub from : ℕ → List ℕ → List ℕ
from stop [] = []
from stop (c ∷ text) = if nat_beq c stop then c ∷ text else from stop text

-- `\d+`
abbrev is_number : List ℕ → Bool
is_number text = leb 1 (length text) && all is_digit text

-- `\](?::\d+)?$`
abbrev ends_bracket : List ℕ → Bool
ends_bracket [] = false
ends_bracket (bracket ∷ []) = true
ends_bracket (bracket ∷ c ∷ port) = nat_beq c b':' && is_number port

-- What stands in the brackets of an entry that has them, or else the entry.
unfoldable pub unbracket : List ℕ → List ℕ
unbracket [] = []
unbracket (c ∷ text) =
    if nat_beq c b'[' && leb 1 (length (up_to b']' text)) && ends_bracket (from b']' text)
    then up_to b']' text
    else c ∷ text

-- `:\d+$`
abbrev is_port : List ℕ → Bool
is_port [] = false
is_port (colon ∷ port) = is_number port

-- `^(\d{1,3}(?:\.\d{1,3}){3}):\d+$`
unfoldable pub has_port : List ℕ → Bool
unfolding split
has_port text =
    nat_beq (length (split b'.' (up_to b':' text))) 4
    && all is_short_number (split b'.' (up_to b':' text))
    && is_port (from b':' text)

abbrev pub v4_of : Option ℕ → Parse
v4_of none = unreadable
v4_of (some packed) = parsed (v4 packed)

unfoldable pub key_of_text : List ℕ → Parse
unfolding has_port parse_octets parse_v6_halves split_halves
key_of_text text =
    if includes text b':'
    then (if has_port text
        then v4_of (parse_octets (up_to b':' text))
        else parse_v6_halves (split_halves text))
    else v4_of (parse_octets text)

unfoldable pub address_key : String → Parse
unfolding unbracket key_of_text
address_key raw =
    if is_empty (trim raw) || not (leb (units (trim raw)) 64)
    then unreadable
    else key_of_text (up_to b'%' (unbracket (codes (trim raw))))
