-- ===== src/Base/Bits.antt =====
-- Which numbers `bit_or` and `bit_xor` take to zero, at every width.
use Prim.Native.Nat.{max, digits, differ, bit_or, bit_xor, bit_or-bitwise, bit_xor-bitwise}
use counted.Base.{ℕ, zero, suc, ◌/◌, ◌%◌, ◌≤◌, ◌≡◌, ◌↔◌, refl, ◌∙◌, sym, arith}

differ-eq_zero : (x y : ℕ) → differ x y ≡ 0 → x ≡ y
differ-eq_zero zero y h = sym h
differ-eq_zero (suc x) zero h = h
differ-eq_zero (suc x) (suc y) h = omega (arith, differ-eq_zero x y h)

differ_self : (x : ℕ) → differ x x ≡ 0
differ_self zero = refl
differ_self (suc x) = differ_self x

or_digits : (n a b : ℕ) → a ≤ n → digits (λ y. y) max n a b ≡ 0 → (a ≡ 0) × (b ≡ 0)
or_digits zero zero b p h = (refl, h)
or_digits zero (suc a) b p h = absurd (omega arith)
or_digits (suc n) zero b p h = (refl, h)
or_digits (suc n) (suc a) b p h =
    let rest = or_digits n (suc a / 2) (b / 2) (omega arith) in ground (arith, rest)

xor_digits : (n a b : ℕ) → a ≤ n → digits (λ y. y) differ n a b ≡ 0 → a ≡ b
xor_digits zero zero b p h = sym h
xor_digits zero (suc a) b p h = absurd (omega arith)
xor_digits (suc n) zero b p h = sym h
xor_digits (suc n) (suc a) b p h =
    ground
      (arith, xor_digits n (suc a / 2) (b / 2) (omega arith), differ-eq_zero (suc a % 2) (b % 2))

xor_digits_self : (n a : ℕ) → a ≤ n → digits (λ y. y) differ n a a ≡ 0
xor_digits_self zero zero p = refl
xor_digits_self zero (suc a) p = absurd (omega arith)
xor_digits_self (suc n) zero p = refl
xor_digits_self (suc n) (suc a) p =
    ground (arith, xor_digits_self n (suc a / 2) (omega arith), differ_self (suc a % 2))

pub bit_or-eq_zero_iff : (a b : ℕ) → (bit_or a b ≡ 0) ↔ ((a ≡ 0) × (b ≡ 0))
bit_or-eq_zero_iff a b =
    (λ h. or_digits a a b (omega arith) (sym (bit_or-bitwise a b) ∙ h), λ h. rw (h.0, h.1) refl)

pub bit_xor-eq_zero_iff : (a b : ℕ) → (bit_xor a b ≡ 0) ↔ (a ≡ b)
bit_xor-eq_zero_iff a b = (
  λ h. xor_digits a a b (omega arith) (sym (bit_xor-bitwise a b) ∙ h),
  λ h. rw h (bit_xor-bitwise b b ∙ xor_digits_self b b (omega arith)),
)
