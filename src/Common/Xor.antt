-- ===== src/Common/Xor.antt =====
-- `^` at variables: it is zero exactly at equal numbers, and halves digit by digit.
use Prim.Native.Nat.{ℕ, zero, suc, ◌+◌, ◌*◌, ◌/◌, ◌%◌, ◌^◌, ◌≤◌, ◌<◌, bit_xor, bit_and, differ}
use mathlib.Core.Path.{◌≡◌, refl, ap, ◌∙◌}
use mathlib.Core.Logic.{◌↔◌, ◌⊎◌, inl, inr}
use native.Mathlib.Nat.{le_refl, pow-suc}
use native.Mathlib.Omega.{arith}
use nes2snes.Common.Bits.{bit_xor-digit, bit_and-digit}

-- The digit of an exclusive or, for two digits.
differ_cases :
    (x y : ℕ) → x < 2 → y < 2 → ((x ≡ y) × (differ x y ≡ 0)) ⊎ ((x + y ≡ 1) × (differ x y ≡ 1))
differ_cases zero zero p q = inl (refl, refl)
differ_cases zero (suc zero) p q = inr (refl, refl)
differ_cases (suc zero) zero p q = inr (refl, refl)
differ_cases (suc zero) (suc zero) p q = inl (refl, refl)
differ_cases (suc (suc x)) y p q = absurd (omega arith)
differ_cases zero (suc (suc y)) p q = absurd (omega arith)
differ_cases (suc zero) (suc (suc y)) p q = absurd (omega arith)

digit_cases :
    (a b : ℕ)
    → ((a % 2 ≡ b % 2) × (differ (a % 2) (b % 2) ≡ 0))
      ⊎ ((a % 2 + b % 2 ≡ 1) × (differ (a % 2) (b % 2) ≡ 1))
digit_cases a b = differ_cases (a % 2) (b % 2) (omega arith) (omega arith)

pub bit_xor-half : (a b : ℕ) → bit_xor a b / 2 ≡ bit_xor (a / 2) (b / 2)
bit_xor-half a b = omega (arith, bit_xor-digit a b, digit_cases a b)

bit_xor-self_upto : (n a : ℕ) → a ≤ n → bit_xor a a ≡ 0
bit_xor-self_upto n zero h = refl
bit_xor-self_upto zero (suc a) h = absurd (omega arith)
bit_xor-self_upto (suc n) (suc a) h = omega (
  arith,
  bit_xor-digit (suc a) (suc a),
  digit_cases (suc a) (suc a),
  bit_xor-self_upto n (suc a / 2) (omega arith),
)

bit_xor-zero_upto : (n a b : ℕ) → a ≤ n → b ≤ n → bit_xor a b ≡ 0 → a ≡ b
bit_xor-zero_upto zero a b p q h = omega arith
bit_xor-zero_upto (suc n) a b p q h = omega (
  arith,
  bit_xor-digit a b,
  digit_cases a b,
  bit_xor-zero_upto n (a / 2) (b / 2) (omega arith) (omega arith)
      (omega (arith, bit_xor-digit a b)),
)

pub bit_xor-eq-zero_iff : (a b : ℕ) → (bit_xor a b ≡ 0) ↔ (a ≡ b)
bit_xor-eq-zero_iff a b = (
  (λ h. bit_xor-zero_upto (a + b) a b (omega arith) (omega arith) h),
  λ e. ap (λ (t : ℕ). bit_xor a t) (sym_eq e) ∙ bit_xor-self_upto a a (le_refl a),
)
  where
    sym_eq : a ≡ b → b ≡ a
    sym_eq e = omega arith

pub bit_xor-lt : (k a b : ℕ) → a < 2 ^ k → b < 2 ^ k → bit_xor a b < 2 ^ k
bit_xor-lt zero a b p q = omega (arith, (bit_xor-eq-zero_iff a b).1 (omega arith))
bit_xor-lt (suc k) a b p q = omega (
  arith,
  pow-suc 2 k,
  bit_xor-digit a b,
  digit_cases a b,
  bit_xor-lt k (a / 2) (b / 2) (omega (arith, pow-suc 2 k)) (omega (arith, pow-suc 2 k)),
)

bit_xor-div_16 : (a b : ℕ) → bit_xor a b / 16 ≡ bit_xor (a / 16) (b / 16)
bit_xor-div_16 a b = omega (
  arith,
  bit_xor-half a b,
  bit_xor-half (a / 2) (b / 2),
  bit_xor-half (a / 2 / 2) (b / 2 / 2),
  bit_xor-half (a / 2 / 2 / 2) (b / 2 / 2 / 2),
  ap (λ (t : ℕ). bit_xor t (b / 2 / 2 / 2 / 2)) sixteenth_a,
  ap (λ (t : ℕ). bit_xor (a / 16) t) sixteenth_b,
)
  where
    sixteenth_a : a / 2 / 2 / 2 / 2 ≡ a / 16
    sixteenth_a = omega arith

    sixteenth_b : b / 2 / 2 / 2 / 2 ≡ b / 16
    sixteenth_b = omega arith

pub bit_xor-page : (a b : ℕ) → bit_xor a b / 256 ≡ bit_xor (a / 256) (b / 256)
bit_xor-page a b = omega (
  arith,
  bit_xor-div_16 a b,
  bit_xor-div_16 (a / 16) (b / 16),
  ap (λ (t : ℕ). bit_xor t (b / 16 / 16)) page_a,
  ap (λ (t : ℕ). bit_xor (a / 256) t) page_b,
)
  where
    page_a : a / 16 / 16 ≡ a / 256
    page_a = omega arith

    page_b : b / 16 / 16 ≡ b / 256
    page_b = omega arith

pub bit_and-even : (c m : ℕ) → bit_and c (2 * m) ≡ bit_and (c / 2) m * 2
bit_and-even c m = omega (arith, bit_and-digit c (2 * m), ap (λ (t : ℕ). bit_and (c / 2) t) half)
  where
    half : 2 * m / 2 ≡ m
    half = omega arith

-- The mask 0xff00 keeps the second byte where it stands.
pub bit_and_high_byte : (c : ℕ) → bit_and c 0xff00 ≡ bit_and (c / 256) 0xff * 256
bit_and_high_byte c = omega (
  arith,
  bit_and-even c 0x7f80,
  bit_and-even (c / 2) 0x3fc0,
  bit_and-even (c / 2 / 2) 0x1fe0,
  bit_and-even (c / 2 / 2 / 2) 0xff0,
  bit_and-even (c / 2 / 2 / 2 / 2) 0x7f8,
  bit_and-even (c / 2 / 2 / 2 / 2 / 2) 0x3fc,
  bit_and-even (c / 2 / 2 / 2 / 2 / 2 / 2) 0x1fe,
  bit_and-even (c / 2 / 2 / 2 / 2 / 2 / 2 / 2) 0xff,
  ap (λ (t : ℕ). bit_and t 0xff) page,
)
  where
    page : c / 2 / 2 / 2 / 2 / 2 / 2 / 2 / 2 ≡ c / 256
    page = omega arith
