-- ===== src/Geo/Address/Bounds.antt =====
-- Which numbers a key can be.
use native.Mathlib.Nat.{mul-le-mul_right}
use counted.Base.{
  ℕ, zero, suc, ◌+◌, ◌-◌, ◌*◌, ◌≤◌, ◌<◌, List, [], ◌∷◌, ◌++◌, Option, none, some, ◌≡◌, refl, ap,
  arith, length, All, All-append, Option-cases, inl, inr, Bool-cases, leb,
}
use counted.Geo.Address.{
  AddressKey, v4, v6, Parse, parsed, Hextet, spelled, number, hex_digit, hex_from, word_of,
  words_of, decimal_from, octets_from, parse_octets, split, expand, zeros, key_of_words,
  key_of_hextets, key_of_sides, key_of_halves, spelled_all, two_words, before,
}

abbrev pub IsSmall : Hextet → Type 0
IsSmall (spelled text) = Unit
IsSmall (number n) = n < 65536

hex_digit-lt : (c d : ℕ) → hex_digit c ≡ some d → d < 16
hex_digit-lt c d h = ground arith

-- 16 and 256 to a power
abbrev power : ℕ → ℕ → ℕ
power base zero = 1
power base (suc k) = base * power base k

-- One more digit is one more factor.
digit-le :
    (base value d p n : ℕ)
    → d < base
    → n < (value * base + d + 1) * p
    → n < (value + 1) * (base * p)
digit-le base value d p n small h =
    let wide : value * base + d + 1 ≤ (value + 1) * base = grind (arith, small) in
    let more : (value * base + d + 1) * p ≤ ((value + 1) * base) * p = mul-le-mul_right p wide in
    grind (arith, h, more)

hex_from-lt :
    (text : List ℕ) (value n : ℕ)
    → hex_from value text ≡ some n
    → n < (value + 1) * power 16 (length text)
unfolding hex_from
hex_from-lt [] value n h = ground arith
hex_from-lt (c ∷ text) value n h = elim (Option-cases (hex_digit c)) [
  | inl none_of ↦ absurd (no_digit none_of)
  | inr (d, digit) ↦
      digit-le 16 value d (power 16 (length text)) n (hex_digit-lt c d digit)
        (hex_from-lt text (value * 16 + d) n (on d digit))
]
  where
    no_digit : hex_digit c ≡ none → ⊥
    no_digit e = ground arith

    on : (d : ℕ) → hex_digit c ≡ some d → hex_from (value * 16 + d) text ≡ some n
    on d e = ground arith

octets_from-lt :
    (parts : List (List ℕ)) (value n : ℕ)
    → octets_from value parts ≡ some n
    → n < (value + 1) * power 256 (length parts)
unfolding octets_from
octets_from-lt [] value n h = ground arith
octets_from-lt (part ∷ parts) value n h =
    digit-le 256 value (decimal_from 0 part) (power 256 (length parts)) n small
      (octets_from-lt parts (value * 256 + decimal_from 0 part) n on)
  where
    small : decimal_from 0 part < 256
    small = ground arith

    on : octets_from (value * 256 + decimal_from 0 part) parts ≡ some n
    on = ground arith

pub parse_octets-lt : (text : List ℕ) (n : ℕ) → parse_octets text ≡ some n → n < 4294967296
unfolding parse_octets
parse_octets-lt text n h =
    let four : length (split b'.' text) ≡ 4 = ground arith in
    let all : octets_from 0 (split b'.' text) ≡ some n = ground arith in
    let bound : power 256 (length (split b'.' text)) ≡ power 256 4 = ap (power 256) four in
    omega (arith, bound, octets_from-lt (split b'.' text) 0 n all)

power-le : (k : ℕ) → k ≤ 4 → power 16 k ≤ 65536
power-le zero h = omega arith
power-le (suc zero) h = omega arith
power-le (suc (suc zero)) h = omega arith
power-le (suc (suc (suc zero))) h = omega arith
power-le (suc (suc (suc (suc zero)))) h = omega arith
power-le (suc (suc (suc (suc (suc k))))) h = absurd (omega (arith, h))

word_of-lt : (h : Hextet) (n : ℕ) → IsSmall h → word_of h ≡ some n → n < 65536
unfolding word_of
word_of-lt (number m) n small h = ground arith
word_of-lt (spelled text) n small h =
    let short : length text ≤ 4 = ground arith in
    let all : hex_from 0 text ≡ some n = ground arith in
    omega (arith, power-le (length text) short, hex_from-lt text 0 n all)

words_of-lt :
    (hextets : List Hextet) (words : List ℕ)
    → All IsSmall hextets
    → words_of hextets ≡ some words
    → All (λ n. n < 65536) words
unfolding words_of
words_of-lt [] words small h = ground arith
words_of-lt (x ∷ hextets) words small h =
    grind
      (arith, λ (n : ℕ). word_of-lt x n small.0, λ (ns : List ℕ). words_of-lt hextets ns small.1)

-- A key of the first table has 32 bits, and one of the second 48.
abbrev pub IsKey : AddressKey → Type 0
IsKey (v4 key) = key < 4294967296
IsKey (v6 key) = key < 281474976710656

abbrev pub IsParsed : Parse → Type 0
IsParsed (parsed key) = IsKey key
IsParsed p = Unit

key_of_words-IsParsed :
    (words : List ℕ) → All (λ n. n < 65536) words → IsParsed (key_of_words words)
unfolding key_of_words
key_of_words-IsParsed [] small = tt
key_of_words-IsParsed (a ∷ []) small = tt
key_of_words-IsParsed (a ∷ b ∷ []) small = tt
key_of_words-IsParsed (a ∷ b ∷ c ∷ []) small = tt
key_of_words-IsParsed (a ∷ b ∷ c ∷ d ∷ []) small = tt
key_of_words-IsParsed (a ∷ b ∷ c ∷ d ∷ e ∷ []) small = tt
key_of_words-IsParsed (a ∷ b ∷ c ∷ d ∷ e ∷ f ∷ []) small = tt
key_of_words-IsParsed (a ∷ b ∷ c ∷ d ∷ e ∷ f ∷ g ∷ []) small = tt
key_of_words-IsParsed (a ∷ b ∷ c ∷ d ∷ e ∷ f ∷ g ∷ h ∷ []) small = ground arith
key_of_words-IsParsed (a ∷ b ∷ c ∷ d ∷ e ∷ f ∷ g ∷ h ∷ i ∷ words) small = tt

pub key_of_hextets-IsParsed :
    (hextets : List Hextet) → All IsSmall hextets → IsParsed (key_of_hextets hextets)
unfolding key_of_hextets
key_of_hextets-IsParsed hextets small = elim (Option-cases (words_of hextets)) [
  | inl none_of ↦ rw (none_of, IsParsed) tt
  | inr (words, e) ↦
      rw (e, IsParsed) (key_of_words-IsParsed words (words_of-lt hextets words small e))
]

zeros-IsSmall : (n : ℕ) → All IsSmall (zeros n)
unfolding zeros
zeros-IsSmall zero = tt
zeros-IsSmall (suc n) = (omega arith, zeros-IsSmall n)

key_of_sides-IsParsed :
    (left right : List Hextet)
    → All IsSmall left
    → All IsSmall right
    → IsParsed (key_of_sides left right)
unfolding key_of_sides
key_of_sides-IsParsed left right l r = elim (Bool-cases (leb (length left + length right) 8)) [
  | inl fits ↦
      let gap = zeros (8 - length left - length right) in
      rw (fits, IsParsed)
        (key_of_hextets-IsParsed (left ++ gap ++ right) (
          All-append IsSmall (left ++ gap) right
            (All-append IsSmall left gap l (zeros-IsSmall (8 - length left - length right))) r))
  | inr many ↦ rw (many, IsParsed) tt
]

spelled_all-IsSmall : (texts : List (List ℕ)) → All IsSmall (spelled_all texts)
spelled_all-IsSmall [] = tt
spelled_all-IsSmall (text ∷ texts) = (tt, spelled_all-IsSmall texts)

two_words-IsSmall :
    (packed : Option ℕ) (hextets : List Hextet)
    → ((n : ℕ) → packed ≡ some n → n < 4294967296)
    → two_words packed ≡ some hextets
    → All IsSmall hextets
two_words-IsSmall none hextets bound h = absurd (ground arith)
two_words-IsSmall (some n) hextets bound h = ground (arith, bound n refl)

before-IsSmall :
    (x : Hextet) (o : Option (List Hextet)) (hextets : List Hextet)
    → IsSmall x
    → ((rest : List Hextet) → o ≡ some rest → All IsSmall rest)
    → before x o ≡ some hextets
    → All IsSmall hextets
before-IsSmall x none hextets small rest h = absurd (ground arith)
before-IsSmall x (some texts) hextets small rest h = ground (arith, small, rest texts refl)

pub expand-IsSmall :
    (texts : List (List ℕ)) (hextets : List Hextet)
    → expand texts ≡ some hextets
    → All IsSmall hextets
unfolding expand
expand-IsSmall [] hextets h = ground arith
expand-IsSmall (last ∷ []) hextets h =
    ground (arith, two_words-IsSmall (parse_octets last) hextets (parse_octets-lt last))
expand-IsSmall (text ∷ next ∷ texts) hextets h =
    before-IsSmall (spelled text) (expand (next ∷ texts)) hextets tt (expand-IsSmall (next ∷ texts))
      h

pub key_of_halves-IsParsed : (left right : List (List ℕ)) → IsParsed (key_of_halves left right)
unfolding key_of_halves
key_of_halves-IsParsed left [] = elim (Option-cases (expand left)) [
  | inl none_of ↦ rw (none_of, IsParsed) tt
  | inr (hextets, e) ↦
      rw (e, IsParsed) (key_of_sides-IsParsed hextets [] (expand-IsSmall left hextets e) tt)
]
key_of_halves-IsParsed left (text ∷ right) = elim (Option-cases (expand (text ∷ right))) [
  | inl none_of ↦ rw (none_of, IsParsed) tt
  | inr (hextets, e) ↦
      rw (e, IsParsed)
        (key_of_sides-IsParsed (spelled_all left) hextets (spelled_all-IsSmall left)
          (expand-IsSmall (text ∷ right) hextets e))
]
