-- ===== src/PaletteState/Sets/Sources.antt =====
-- The registers as arithmetic on the bytes that hold them, and where those bytes come from.
use native.Mathlib.Nat.{pow-suc}
use nes2snes.Common.{
  ℕ, zero, suc, ◌+◌, ◌-◌, ◌*◌, ◌/◌, ◌%◌, ◌^◌, ◌≤◌, ◌≡◌, refl, ap, ap₂, ◌<◌, sym, ◌∙◌, arith,
  Bool-cases, inl, inr, leb, ◌&&◌,
}
use nes2snes.Common.{List, [], ◌∷◌, ◌++◌, map, length, get_or, All-get_or}
use nes2snes.Common.{
  ok, ok_injective, Bytes, IsByte, AreBytes, Value, nat, int, negsuc, bool, other,
}
use nes2snes.Common.Bits.{bit_and_low}
use nes2snes.Common.Text.{TextArgument, not_text}
use nes2snes.Dma.{exact_hex, Listed, listed, not_listed}
use nes2snes.PaletteState.Sets.{
  first_four, first_eight, high_bits, bank_a, bank_b, banks_of, NativeState, last_row,
}
use nes2snes.PaletteState.Sets.Registers.{joined_bank}

-- The two bits of register `i` in a byte that packs those of four.
abbrev pub two_bits : ℕ → ℕ → ℕ
two_bits packed i = packed / 4 ^ (i % 4) % 4

-- Register `i` of set A and of set B, in the mapper's bytes.
abbrev pub saved_a : Bytes → ℕ → ℕ
saved_a reg i = get_or reg (7 + i) 0 + 256 * two_bits (get_or reg (19 + i / 4) 0) i

abbrev pub saved_b : Bytes → ℕ → ℕ
saved_b reg i = get_or reg (15 + i) 0 + 256 * two_bits (get_or reg 21 0) i

-- Register `i` of set A in the context of a native run, and of set B in its bytes for that set.
abbrev pub native_a : Bytes → ℕ → ℕ
native_a cr i = get_or cr i 0 + 256 * two_bits (get_or cr (8 + i / 4) 0) i

abbrev pub native_b : Bytes → ℕ → ℕ
native_b b i = get_or b (2 * i) 0 + 256 * get_or b (2 * i + 1) 0

-- Eight registers of set A and four of set B
abbrev pub twelve : (ℕ → ℕ) → (ℕ → ℕ) → List ℕ
twelve f g = f 0 ∷ f 1 ∷ f 2 ∷ f 3 ∷ f 4 ∷ f 5 ∷ f 6 ∷ f 7 ∷ g 0 ∷ g 1 ∷ g 2 ∷ g 3 ∷ []

four_pow : (k : ℕ) → 2 ^ (2 * k) ≡ 4 ^ k
four_pow zero = refl
four_pow (suc k) =
    let double : 2 * suc k ≡ suc (suc (2 * k)) = omega arith in
    ap (λ (n : ℕ). 2 ^ n) double
    ∙ omega (arith, pow-suc 2 (suc (2 * k)), pow-suc 2 (2 * k), pow-suc 4 k, four_pow k)

pub high_bits_lem : (packed i : ℕ) → high_bits packed i ≡ two_bits packed i
unfolding high_bits
high_bits_lem packed i =
    bit_and_low 2 (packed / 2 ^ (2 * (i % 4))) ∙ ap (λ (n : ℕ). packed / n % 4) (four_pow (i % 4))

pub map-same : (f g : ℕ → ℕ) (l : List ℕ) → ((i : ℕ) → f i ≡ g i) → map f l ≡ map g l
map-same f g [] h = refl
map-same f g (i ∷ rest) h = ap₂ ◌∷◌ (h i) (map-same f g rest h)

pub banks_of_lem : (reg : Bytes) → AreBytes reg → banks_of reg ≡ twelve (saved_a reg) (saved_b reg)
unfolding banks_of bank_a bank_b
banks_of_lem reg are =
    let byte_at : ((i : ℕ) → get_or reg i 0 < 256) =
      (λ i. All-get_or IsByte reg i 0 (omega arith) are) in
    ap₂ (λ (xs ys : List ℕ). xs ++ ys)
      (map-same (bank_a reg) (saved_a reg) first_eight (λ i.
        joined_bank (get_or reg (7 + i) 0) _ (byte_at (7 + i))
        ∙ ap (λ (n : ℕ). get_or reg (7 + i) 0 + n * 256)
            (high_bits_lem (get_or reg (19 + i / 4) 0) i)
        ∙ omega arith))
      (map-same (bank_b reg) (saved_b reg) first_four (λ i.
        joined_bank (get_or reg (15 + i) 0) _ (byte_at (15 + i))
        ∙ ap (λ (n : ℕ). get_or reg (15 + i) 0 + n * 256) (high_bits_lem (get_or reg 21 0) i)
        ∙ omega arith))

-- The row is the text of the last step that was completed.
abbrev pub IsLastRow : NativeState → Bytes → Type 0
IsLastRow state row =
    (n : ℕ) × (rows : List TextArgument) × (state.completed_steps ≡ nat n)
    × (state.chr_records ≡ listed rows)
    × (1 ≤ n)
    × (n ≤ length rows)
    × (exact_hex (get_or rows (n - 1) not_text) 48 ≡ ok row)

pub last_row-listed :
    (records : Listed TextArgument) (steps : Value) {t : TextArgument}
    → last_row records steps ≡ ok t
    → (n : ℕ) × (rows : List TextArgument) × (steps ≡ nat n)
      × (records ≡ listed rows)
      × (1 ≤ n)
      × (n ≤ length rows)
      × (t ≡ get_or rows (n - 1) not_text)
unfolding last_row
last_row-listed (listed rows) (nat n) h = elim (Bool-cases (leb 1 n && leb n (length rows))) [
  | inl within ↦ (
    n,
    rows,
    refl,
    refl,
    ground (arith, within),
    ground (arith, within),
    sym (ok_injective (rw (last_row, within) at h)),
  )
  | inr beyond ↦ let never = rw (last_row, beyond) at h in cc
]
last_row-listed (listed rows) (int (negsuc n)) h = cc
last_row-listed (listed rows) (bool b) h = cc
last_row-listed (listed rows) other h = cc
last_row-listed not_listed steps h = cc
