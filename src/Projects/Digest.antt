-- ===== src/Projects/Digest.antt =====
-- `digestsMatch` of packages/projects/domain/src/project.ts: the comparison of two digests that
-- looks at every position. `charCodeAt` reads a code unit; a digest is hex, so that is a code point.
use Prim.Native.Nat.{bit_or, bit_xor}
use Prim.Native.Char.{Char, code}
use text.Mathlib.TextEquality.{codes_equal}
use counted.Base.{
  ℕ, Bool, true, false, List, [], ◌∷◌, String, ◌≡◌, ◌↔◌, refl, ap₂, arith, length, nat_beq,
  if◌then◌else◌, codes,
}
use counted.Base.Bits.{bit_or-eq_zero_iff, bit_xor-eq_zero_iff}

-- The loop, over two texts of one length.
difference_from : ℕ → List ℕ → List ℕ → ℕ
difference_from d [] ys = d
difference_from d (x ∷ xs) [] = d
difference_from d (x ∷ xs) (y ∷ ys) = difference_from (bit_or d (bit_xor x y)) xs ys

unfoldable pub digests_match : String → String → Bool
unfolding difference_from
digests_match a b =
    if nat_beq (length (codes a)) (length (codes b))
    then nat_beq (difference_from 0 (codes a) (codes b)) 0
    else false

code-injective : (c d : Char) → code c ≡ code d → c ≡ d
code-injective c d h = codes_equal c d (ground arith)

codes-injective : (s t : String) → codes s ≡ codes t → s ≡ t
codes-injective String.[] String.[] h = refl
codes-injective String.[] (String.◌∷◌ d t) h = cc
codes-injective (String.◌∷◌ c s) String.[] h = cc
codes-injective (String.◌∷◌ c s) (String.◌∷◌ d t) h =
    ap₂ String.◌∷◌ (code-injective c d (cc)) (codes-injective s t (cc))

difference_sound :
    (d : ℕ) (xs ys : List ℕ)
    → length xs ≡ length ys
    → difference_from d xs ys ≡ 0
    → (d ≡ 0) × (xs ≡ ys)
unfolding difference_from
difference_sound d [] [] l h = (h, refl)
difference_sound d [] (y ∷ ys) l h = absurd (omega arith)
difference_sound d (x ∷ xs) [] l h = absurd (omega arith)
difference_sound d (x ∷ xs) (y ∷ ys) l h = ground (
  arith,
  difference_sound (bit_or d (bit_xor x y)) xs ys,
  bit_or-eq_zero_iff d (bit_xor x y),
  bit_xor-eq_zero_iff x y,
)

difference_self : (xs : List ℕ) → difference_from 0 xs xs ≡ 0
unfolding difference_from
difference_self [] = refl
difference_self (x ∷ xs) =
    ground (arith, difference_self xs, bit_or-eq_zero_iff 0 (bit_xor x x), bit_xor-eq_zero_iff x x)

-- Two digests match exactly where they are one text.
pub digests_match_iff : (a b : String) → (digests_match a b ≡ true) ↔ (a ≡ b)
unfolding digests_match
digests_match_iff a b = (
  λ h. codes-injective a b (difference_sound 0 (codes a) (codes b) (ground arith) (ground arith)).1,
  λ h. rw h (ground (arith, difference_self (codes b))),
)
