-- ===== src/Geo/Address.antt =====
-- packages/ingestion/adapter-geoip/src/address.ts: the key of an address. A text is taken apart as the
-- list of its codes; the characters that matter are ASCII.
pub mod Entry
pub mod Bounds
pub mod Keys
use counted.Base.{
  ℕ, zero, suc, ◌+◌, ◌-◌, ◌*◌, ◌/◌, ◌%◌, Bool, true, false, not, ◌&&◌, ◌||◌, List, [], ◌∷◌, ◌++◌,
  Option, none, some, leb, nat_beq, length, all, includes, map, nat_equality, if◌then◌else◌,
}

pub data AddressKey : Type 0 where
  v4 v6 : (key : ℕ) → AddressKey

-- `null`, or an error that is thrown, where no key is returned.
pub data Parse : Type 0 where
  parsed : AddressKey → Parse
  unreadable throws : Parse

abbrev is_digit : ℕ → Bool
is_digit c = leb b'0' c && leb c b'9'

abbrev prepend : ℕ → List (List ℕ) → List (List ℕ)
prepend c [] = (c ∷ []) ∷ []
prepend c (part ∷ parts) = (c ∷ part) ∷ parts

-- `text.split(separator)`, of a single character
unfoldable pub split : ℕ → List ℕ → List (List ℕ)
split separator [] = [] ∷ []
split separator (c ∷ text) =
    let rest = split separator text in if nat_beq c separator then [] ∷ rest else prepend c rest

-- `text.split("::")`
unfoldable pub split_halves : List ℕ → List (List ℕ)
split_halves [] = [] ∷ []
split_halves (c ∷ []) = (c ∷ []) ∷ []
split_halves (c ∷ d ∷ text) =
    let apart = split_halves text in
    let on = split_halves (d ∷ text) in
    if nat_beq c b':' && nat_beq d b':' then [] ∷ apart else prepend c on

-- `Number(part)`, of digits
unfoldable pub decimal_from : ℕ → List ℕ → ℕ
decimal_from value [] = value
decimal_from value (c ∷ part) = decimal_from (value * 10 + (c - b'0')) part

-- `/^\d{1,3}$/`
abbrev is_short_number : List ℕ → Bool
is_short_number part = leb 1 (length part) && leb (length part) 3 && all is_digit part

-- The loop of `parseOctets`.
unfoldable pub octets_from : ℕ → List (List ℕ) → Option ℕ
unfolding decimal_from
octets_from value [] = some value
octets_from value (part ∷ parts) =
    let rest = octets_from (value * 256 + decimal_from 0 part) parts in
    if is_short_number part && leb (decimal_from 0 part) 255 then rest else none

unfoldable pub parse_octets : List ℕ → Option ℕ
unfolding split octets_from
parse_octets text =
    if nat_beq (length (split b'.' text)) 4 then octets_from 0 (split b'.' text) else none

-- A group of an address as it was written, or a number that `toString(16)` spells and `parseInt` reads.
pub data Hextet : Type 0 where
  spelled : List ℕ → Hextet
  number : ℕ → Hextet

abbrev hex_digit : ℕ → Option ℕ
hex_digit c =
    if is_digit c
    then some (c - b'0')
    else if leb b'a' c && leb c b'f'
    then some (c - 87)
    else if leb b'A' c && leb c b'F'
    then some (c - 55)
    else none

-- `Number.parseInt(hextet, 16)`, if every character is a digit
unfoldable pub hex_from : ℕ → List ℕ → Option ℕ
hex_from value [] = some value
hex_from value (c ∷ text) = elim (hex_digit c) [
  | none ↦ none
  | some d ↦ hex_from (value * 16 + d) text
]

unfoldable pub word_of : Hextet → Option ℕ
unfolding hex_from
word_of (number n) = some n
word_of (spelled text) =
    if leb 1 (length text) && leb (length text) 4 then hex_from 0 text else none

-- The loop over the groups.
unfoldable pub words_of : List Hextet → Option (List ℕ)
unfolding word_of
words_of [] = some []
words_of (h ∷ hextets) = elim (word_of h) [
  | none ↦ none
  | some word ↦ elim (words_of hextets) [ none ↦ none | some words ↦ some (word ∷ words) ]
]

abbrev pub groups_of : List ℕ → List (List ℕ)
groups_of [] = []
groups_of (c ∷ text) = split b':' (c ∷ text)

abbrev two_words : Option ℕ → Option (List Hextet)
two_words none = none
two_words (some packed) = some (number (packed / 65536) ∷ number (packed % 65536) ∷ [])

abbrev before : Hextet → Option (List Hextet) → Option (List Hextet)
before h none = none
before h (some hextets) = some (h ∷ hextets)

-- A trailing dotted quad is two groups.
unfoldable pub expand : List (List ℕ) → Option (List Hextet)
unfolding parse_octets
expand [] = some []
expand (last ∷ []) =
    if includes last b'.' then two_words (parse_octets last) else some (spelled last ∷ [])
expand (text ∷ next ∷ texts) = before (spelled text) (expand (next ∷ texts))

unfoldable pub zeros : ℕ → List Hextet
zeros zero = []
zeros (suc n) = number 0 ∷ zeros n

-- The key that eight words make.
unfoldable pub key_of_words : List ℕ → Parse
key_of_words (a ∷ b ∷ c ∷ d ∷ e ∷ f ∷ g ∷ h ∷ []) =
    if nat_beq a 0 && nat_beq b 0 && nat_beq c 0 && nat_beq d 0 && nat_beq e 0 && nat_beq f 0xffff
    then parsed (v4 (g * 65536 + h))
    else parsed (v6 (a * 0x100000000 + b * 0x10000 + c))
key_of_words words = unreadable

unfoldable pub key_of_hextets : List Hextet → Parse
unfolding words_of key_of_words
key_of_hextets hextets = elim (words_of hextets) [
  | none ↦ unreadable
  | some words ↦ key_of_words words
]

-- `new Array(n)` throws where `n` is negative.
unfoldable pub key_of_sides : List Hextet → List Hextet → Parse
unfolding zeros key_of_hextets
key_of_sides left right =
    if leb (length left + length right) 8
    then key_of_hextets (left ++ zeros (8 - length left - length right) ++ right)
    else throws

abbrev spelled_all : List (List ℕ) → List Hextet
spelled_all = map (λ text. spelled text)

-- The quad is sought at the right of a `::`, or at its left if nothing is there.
unfoldable pub key_of_halves : List (List ℕ) → List (List ℕ) → Parse
unfolding expand key_of_sides
key_of_halves left [] = elim (expand left) [
  | none ↦ unreadable
  | some hextets ↦ key_of_sides hextets []
]
key_of_halves left (text ∷ right) = elim (expand (text ∷ right)) [
  | none ↦ unreadable
  | some hextets ↦ key_of_sides (spelled_all left) hextets
]

unfoldable pub parse_v6_halves : List (List ℕ) → Parse
unfolding key_of_halves expand key_of_hextets
parse_v6_halves (text ∷ []) = elim (expand (groups_of text)) [
  | none ↦ unreadable
  | some hextets ↦ key_of_hextets hextets
]
parse_v6_halves (left ∷ right ∷ []) = key_of_halves (groups_of left) (groups_of right)
parse_v6_halves halves = unreadable
