-- ===== src/Common/Bits.antt =====
-- Laws of `&`, `|` and `^` at variables: one equation for the lowest digit, and masks from it.
use Prim.Native.Nat.{ℕ, zero, suc, ◌+◌, ◌-◌, ◌*◌, ◌/◌, ◌%◌, ◌^◌, ◌≤◌, ◌<◌, min, max}
use Prim.Native.Nat.{bit_and, bit_or, bit_xor, differ, digits}
use Prim.Native.Nat.{bit_and-bitwise, bit_or-bitwise, bit_xor-bitwise}
use native.Mathlib.Nat.{le_refl, pow-suc, one-le-pow, div-add-mod, div-div-eq-div-mul, mul_comm}
use native.Mathlib.Omega.{arith}
use mathlib.Core.Path.{◌≡◌, refl, ap, ◌∙◌}
use mathlib.Core.Bool.{true}
use nes2snes.Common.Tests.{◌==◌, ==_iff, all_below, all_below→true}

-- The count of digits to go does not matter once it reaches the first number.
digits_enough :
    (g : ℕ → ℕ) (op : ℕ → ℕ → ℕ) (x y count other : ℕ)
    → x ≤ count
    → x ≤ other
    → digits g op count x y ≡ digits g op other x y
digits_enough g op (suc x) y (suc count) (suc other) h k =
    ap (λ (t : ℕ). t * 2 + op (suc x % 2) (y % 2))
      (digits_enough g op (suc x / 2) (y / 2) count other (omega arith) (omega arith))
digits_enough g op (suc x) y zero other h k = absurd (omega arith)
digits_enough g op (suc x) y (suc count) zero h k = absurd (omega arith)
digits_enough g op zero y (suc count) (suc other) h k = refl
digits_enough g op zero y (suc count) zero h k = refl
digits_enough g op zero y zero (suc other) h k = refl
digits_enough g op zero y zero zero h k = refl

-- After the lowest digit, the halves have digits enough to go.
digits_halved :
    (g : ℕ → ℕ) (op : ℕ → ℕ → ℕ) (x y : ℕ)
    → digits g op x (suc x / 2) y ≡ digits g op (suc x / 2) (suc x / 2) y
digits_halved g op x y = digits_enough g op (suc x / 2) y x (suc x / 2) (omega arith) (le_refl _)

pub bit_and-digit : (x y : ℕ) → bit_and x y ≡ bit_and (x / 2) (y / 2) * 2 + min (x % 2) (y % 2)
bit_and-digit (suc x) y = omega (
  arith,
  digits_halved (λ d. 0) min x (y / 2),
  bit_and-bitwise (suc x / 2) (y / 2),
  bit_and-bitwise (suc x) y,
)
bit_and-digit zero y = omega (arith, bit_and-bitwise 0 (y / 2), bit_and-bitwise 0 y)

pub bit_or-digit : (x y : ℕ) → bit_or x y ≡ bit_or (x / 2) (y / 2) * 2 + max (x % 2) (y % 2)
bit_or-digit (suc x) y = omega (
  arith,
  digits_halved (λ d. d) max x (y / 2),
  bit_or-bitwise (suc x / 2) (y / 2),
  bit_or-bitwise (suc x) y,
)
bit_or-digit zero y = omega (arith, bit_or-bitwise 0 (y / 2), bit_or-bitwise 0 y)

differ-zero : (b : ℕ) → differ 0 b ≡ b
differ-zero b = refl

pub bit_xor-digit : (x y : ℕ) → bit_xor x y ≡ bit_xor (x / 2) (y / 2) * 2 + differ (x % 2) (y % 2)
bit_xor-digit (suc x) y = omega (
  arith,
  digits_halved (λ d. d) differ x (y / 2),
  bit_xor-bitwise (suc x / 2) (y / 2),
  bit_xor-bitwise (suc x) y,
)
bit_xor-digit zero y =
    omega (arith, bit_xor-bitwise 0 (y / 2), bit_xor-bitwise 0 y, differ-zero (y % 2))

-- Zero on the right, for the two operations together.
zero_right : (limit x : ℕ) → x ≤ limit → (bit_and x 0 ≡ 0) × (bit_or x 0 ≡ x)
zero_right limit zero below = (refl, refl)
zero_right zero (suc x) below = absurd (omega arith)
zero_right (suc limit) (suc x) below =
    let (masked, joined) = zero_right limit (suc x / 2) (omega arith) in
    (omega (arith, masked, bit_and-digit (suc x) 0), omega (arith, joined, bit_or-digit (suc x) 0))

pub bit_and-zero : (a : ℕ) → bit_and a 0 ≡ 0
bit_and-zero a = (zero_right a a (le_refl a)).0

pub bit_or-zero : (a : ℕ) → bit_or a 0 ≡ a
bit_or-zero a = (zero_right a a (le_refl a)).1

mod-double : (a m : ℕ) → a % (m * 2) ≡ 2 * (a / 2 % m) + a % 2
mod-double a m = omega (
  arith,
  div-add-mod a (m * 2),
  div-add-mod (a / 2) m,
  ap (λ (t : ℕ). m * t) (div-div-eq-div-mul a 2 m ∙ ap (λ (t : ℕ). a / t) (mul_comm 2 m)),
)

-- A mask of `k` ones keeps the remainder by `2 ^ k`.
pub bit_and_low : (k a : ℕ) → bit_and a (2 ^ k - 1) ≡ a % 2 ^ k
bit_and_low zero a = omega (arith, bit_and-zero a)
bit_and_low (suc k) a = omega (
  arith,
  pow-suc 2 k,
  one-le-pow k 2,
  bit_and-digit a (2 ^ suc k - 1),
  bit_and_low k (a / 2),
  ap (λ (t : ℕ). bit_and (a / 2) t) halved,
  ap (λ (t : ℕ). a % t) (pow-suc 2 k),
  mod-double a (2 ^ k),
)
  where
    halved : (2 ^ suc k - 1) / 2 ≡ 2 ^ k - 1
    halved = omega (arith, pow-suc 2 k, one-le-pow k 2)

-- An `|` of fields that do not meet is a sum.
pub bit_or_add : (k q r : ℕ) → r < 2 ^ k → bit_or (q * 2 ^ k) r ≡ q * 2 ^ k + r
bit_or_add zero q r h =
    omega (arith, bit_or-zero (q * 1), ap (λ (t : ℕ). bit_or (q * 1) t) none_left)
  where
    none_left : r ≡ 0
    none_left = omega arith
bit_or_add (suc k) q r h = omega (
  arith,
  doubled,
  bit_or-digit (q * 2 ^ suc k) r,
  ap (λ (t : ℕ). bit_or t (r / 2)) halved,
  bit_or_add k q (r / 2) (omega (arith, pow-suc 2 k)),
)
  where
    doubled : q * 2 ^ suc k ≡ 2 * (q * 2 ^ k)
    doubled = omega (arith, ap (λ (t : ℕ). q * t) (pow-suc 2 k))

    halved : q * 2 ^ suc k / 2 ≡ q * 2 ^ k
    halved = omega (arith, doubled)

pub bit_and-le : (k a b : ℕ) → a < 2 ^ k → bit_and a b ≤ a
bit_and-le zero a b h = rw e (omega (arith, bit_and-bitwise 0 b))
  where
    e : a ≡ 0
    e = omega arith
bit_and-le (suc k) a b h =
    omega (arith, bit_and-digit a b, bit_and-le k (a / 2) (b / 2) (omega (arith, pow-suc 2 k)))

pub bit_and-le_right : (k a b : ℕ) → b < 2 ^ k → bit_and a b ≤ b
bit_and-le_right zero a b h = rw none_left (omega (arith, bit_and-zero a))
  where
    none_left : b ≡ 0
    none_left = omega arith
bit_and-le_right (suc k) a b h =
    omega
      (arith, bit_and-digit a b, bit_and-le_right k (a / 2) (b / 2) (omega (arith, pow-suc 2 k)))

pub bit_or-lt : (k a b : ℕ) → a < 2 ^ k → b < 2 ^ k → bit_or a b < 2 ^ k
bit_or-lt zero a b p q = rw (e, f) (omega arith)
  where
    e : a ≡ 0
    e = omega arith

    f : b ≡ 0
    f = omega arith
bit_or-lt (suc k) a b p q = omega (
  arith,
  pow-suc 2 k,
  bit_or-digit a b,
  bit_or-lt k (a / 2) (b / 2) (omega (arith, pow-suc 2 k)) (omega (arith, pow-suc 2 k)),
)

-- Two bytes agree on every value if they agree on the 256 of them.
pub byte_table :
    (f g : ℕ → ℕ) → all_below 256 (λ x. f x == g x) ≡ true → (x : ℕ) → x < 256 → f x ≡ g x
byte_table f g table x h = (==_iff (f x) (g x)).0 (all_below→true 256 (λ x. f x == g x) x table h)

or_comm : (limit x y : ℕ) → x ≤ limit → bit_or x y ≡ bit_or y x
or_comm limit zero y h = omega (arith, bit_or-zero y, bit_or-bitwise 0 y)
or_comm zero (suc x) y h = absurd (omega arith)
or_comm (suc limit) (suc x) y h = omega (
  arith,
  bit_or-digit (suc x) y,
  bit_or-digit y (suc x),
  or_comm limit (suc x / 2) (y / 2) (omega arith),
)

pub bit_or_comm : (x y : ℕ) → bit_or x y ≡ bit_or y x
bit_or_comm x y = or_comm x x y (le_refl x)
