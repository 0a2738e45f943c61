-- ===== src/Common/ByteLists.antt =====
-- `bytes` as a list of numbers, and little-endian conversion.
use Prim.Native.Nat.{ℕ, zero, suc, ◌+◌, ◌*◌, ◌/◌, ◌%◌, ◌^◌, ◌<◌}
use mathlib.Core.Path.{◌≡◌, refl, ap, ap₂, ◌∙◌}
use mathlib.Core.List.{List, [], ◌∷◌}
use native.Mathlib.Omega.{arith}
use native.Mathlib.Nat.{pow-suc}
use mathlib.Core.Bool.{Bool, true, false, ◌&&◌}
use nes2snes.Common.Tests.{◌==◌, ==_refl}
use nes2snes.Common.Lists.{length, All}

abbrev pub Bytes : Type 0
Bytes = List ℕ

abbrev pub IsByte : ℕ → Type 0
IsByte v = v < 256

abbrev pub AreBytes : Bytes → Type 0
AreBytes bs = All IsByte bs

-- `n.to_bytes(k, 'little')`, for n below 256 ** k.
abbrev pub to_bytes : ℕ → ℕ → Bytes
to_bytes zero n = []
to_bytes (suc k) n = n % 256 ∷ to_bytes k (n / 256)

-- `int.from_bytes(bs, 'little')`
abbrev pub from_bytes : Bytes → ℕ
from_bytes [] = 0
from_bytes (b ∷ bs) = b + 256 * from_bytes bs

pub length-to_bytes : (k n : ℕ) → length (to_bytes k n) ≡ k
length-to_bytes zero n = refl
length-to_bytes (suc k) n = omega (arith, length-to_bytes k (n / 256))

pub to_bytes-AreBytes : (k n : ℕ) → AreBytes (to_bytes k n)
to_bytes-AreBytes zero n = tt
to_bytes-AreBytes (suc k) n = (omega arith, to_bytes-AreBytes k (n / 256))

pub from_bytes-to_bytes : (k n : ℕ) → n < 256 ^ k → from_bytes (to_bytes k n) ≡ n
from_bytes-to_bytes zero n h = omega arith
from_bytes-to_bytes (suc k) n h =
    omega (arith, pow-suc 256 k, from_bytes-to_bytes k (n / 256) (omega (arith, pow-suc 256 k)))

pub to_bytes-from_bytes :
    (k : ℕ) (bs : Bytes) → AreBytes bs → length bs ≡ k → to_bytes k (from_bytes bs) ≡ bs
to_bytes-from_bytes zero [] h e = refl
to_bytes-from_bytes (suc k) [] h e = absurd (omega arith)
to_bytes-from_bytes zero (b ∷ bs) h e = absurd (omega arith)
to_bytes-from_bytes (suc k) (b ∷ bs) h e =
    ap₂ ◌∷◌ (omega arith)
      (ap (λ (n : ℕ). to_bytes k n) (omega arith) ∙ to_bytes-from_bytes k bs h.1 (omega arith))

-- Equality of two `bytes`.
unfoldable pub bytes_eq : Bytes → Bytes → Bool
bytes_eq [] [] = true
bytes_eq [] (y ∷ ys) = false
bytes_eq (x ∷ xs) [] = false
bytes_eq (x ∷ xs) (y ∷ ys) = x == y && bytes_eq xs ys

pub bytes_eq-same : (xs ys : Bytes) → bytes_eq xs ys ≡ true → xs ≡ ys
unfolding bytes_eq
bytes_eq-same [] [] h = refl
bytes_eq-same [] (y ∷ ys) h = cc
bytes_eq-same (x ∷ xs) [] h = cc
bytes_eq-same (x ∷ xs) (y ∷ ys) h = grind (arith, bytes_eq-same xs ys)

pub bytes_eq_refl : (xs : Bytes) → bytes_eq xs xs ≡ true
unfolding bytes_eq
bytes_eq_refl [] = refl
bytes_eq_refl (x ∷ xs) = rw (==_refl x) (bytes_eq_refl xs)
