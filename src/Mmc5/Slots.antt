-- ===== src/Mmc5/Slots.antt =====
-- Where the mapper's slots lie.
use nes2snes.Common.{
  ℕ, ◌+◌, ◌-◌, ◌*◌, ◌/◌, ◌%◌, ◌≤◌, ◌<◌, ◌≡◌, ◌⊎◌, inl, inr, refl, subst, arith, bit_and, bit_or,
}
use nes2snes.Common.{
  Bool, true, false, not, Bool-cases, List, [], ◌∷◌, ◌++◌, ◌||◌, ◌&&◌, all_below, all_below→true,
  ltb, leb, ◌==◌, if◌then◌else◌,
}
use nes2snes.Common.{ok, err, >>=-eq-ok, ok_injective, Value, int, nat, bool, other, negsuc}
use nes2snes.Common.Bits.{bit_and-le_right, byte_table}
use nes2snes.Mmc5.{
  bad_image, Registers, sequence, not_sequence, check_banks, check_byte, check_registers, Image,
  one, pair, image_slots, slots,
}

-- A slot shows a bank of the cartridge, or RAM that is not supported.
abbrev pub IsSlot : ℕ → ℕ → Type 0
IsSlot banks s = (s ≡ 255) ⊎ (s < banks)

-- Four slots, the last of which always shows ROM.
pub data IsMapped (banks : ℕ) : List ℕ → Type 0 where
  mapped :
      {a b c d : ℕ}
      → IsSlot banks a
      → IsSlot banks b
      → IsSlot banks c
      → d < banks
      → IsMapped banks (a ∷ b ∷ c ∷ d ∷ [])

one-lt : (banks r : ℕ) → 4 ≤ banks → banks ≤ 128 → IsSlot banks (one banks r)
unfolding one
one-lt banks r low high = elim (Bool-cases (not (bit_and r 128 == 0))) [
  | inl e ↦ rw e (inr (omega (arith, bit_and-le_right 7 r (banks - 1) (omega arith))))
  | inr e ↦ rw e (inl refl)
]

-- With the ROM bit set, a slot shows ROM.
bit_or_rom : (r : ℕ) → r < 256 → bit_and (bit_or r 128) 128 ≡ 128
unfolding all_below
bit_or_rom = byte_table (λ r. bit_and (bit_or r 128) 128) (λ r. 128) refl

one_rom-lt : (banks r : ℕ) → 4 ≤ banks → banks ≤ 128 → r < 256 → one banks (bit_or r 128) < banks
unfolding one
one_rom-lt banks r low high byte =
    rw (bit_or_rom r byte)
      (omega (arith, bit_and-le_right 7 (bit_or r 128) (banks - 1) (omega arith)))

even_test : ℕ → Bool
even_test n = not (bit_and n (n - 1) == 0) || (ltb n 4 || n % 2 == 0)

banks_even : (n : ℕ) → 4 ≤ n → n ≤ 128 → bit_and n (n - 1) ≡ 0 → n % 2 ≡ 0
unfolding all_below even_test
banks_even n low high e = from_test n low e (all_below→true 129 even_test n refl (omega arith))
  where
    from_test : (n : ℕ) → 4 ≤ n → bit_and n (n - 1) ≡ 0 → even_test n ≡ true → n % 2 ≡ 0
    from_test n low e t = ground (arith, e, t)

pub check_banks-ok :
    (v : Value) {n : ℕ} → check_banks v ≡ ok n → (v ≡ nat n) × (4 ≤ n) × (n ≤ 128) × (n % 2 ≡ 0)
unfolding check_banks
check_banks-ok (nat n) h = checked n h
  where
    checked :
        (n : ℕ) {k : ℕ}
        → (if leb 4 n && (leb n 128 && bit_and n (n - 1) == 0) then ok n else err bad_image) ≡ ok k
        → (nat n ≡ nat k) × (4 ≤ k) × (k ≤ 128) × (k % 2 ≡ 0)
    checked n h = ground (arith, h, banks_even n)
check_banks-ok (int (negsuc n)) h = cc
check_banks-ok (bool b) h = cc
check_banks-ok other h = cc

check_byte-lt : (v : Value) {n : ℕ} → check_byte v ≡ ok n → n < 256
unfolding check_byte
check_byte-lt (nat n) h = ground arith
check_byte-lt (int (negsuc n)) h = cc
check_byte-lt (bool b) h = cc
check_byte-lt other h = cc

check_registers-lt : (g : Registers) {i : Image} → check_registers g ≡ ok i → i.r3 < 256
unfolding check_registers
check_registers-lt not_sequence h = cc
check_registers-lt (sequence []) h = cc
check_registers-lt (sequence (m ∷ [])) h = cc
check_registers-lt (sequence (m ∷ a ∷ [])) h = cc
check_registers-lt (sequence (m ∷ a ∷ b ∷ [])) h = cc
check_registers-lt (sequence (m ∷ a ∷ b ∷ c ∷ [])) h = cc
check_registers-lt (sequence (m ∷ a ∷ b ∷ c ∷ d ∷ e ∷ l)) h = cc
check_registers-lt (sequence (m ∷ a ∷ b ∷ c ∷ d ∷ [])) h =
    let (mode, e0, h0) = >>=-eq-ok (check_byte m) _ h in
    let (r0, e1, h1) = >>=-eq-ok (check_byte a) _ h0 in
    let (r1, e2, h2) = >>=-eq-ok (check_byte b) _ h1 in
    let (r2, e3, h3) = >>=-eq-ok (check_byte c) _ h2 in
    let (r3, e4, h4) = >>=-eq-ok (check_byte d) _ h3 in
    subst (λ (i : Image). i.r3 < 256) (ok_injective h4) (check_byte-lt d e4)

-- The two slots of a pair: RAM both, or an even bank and the one behind it.
pair-lt :
    (banks r : ℕ)
    → 4 ≤ banks
    → banks ≤ 128
    → banks % 2 ≡ 0
    → (a : ℕ) × (b : ℕ) × (pair banks r ≡ a ∷ b ∷ [])
      × IsSlot banks a
      × IsSlot banks b
      × (one banks r < banks → (b ≡ a + 1) × (b < banks))
unfolding pair
pair-lt banks r low high even = elim (Bool-cases (one banks r == 255)) [
  | inl e ↦ (255, 255, rw e refl, inl refl, inl refl, λ h. absurd (ground (arith, e, h)))
  | inr e ↦ (
    one banks r / 2 * 2,
    one banks r / 2 * 2 + 1,
    rw e refl,
    inr (below e (one-lt banks r low high)).0,
    inr (below e (one-lt banks r low high)).1,
    λ h. (refl, (below e (inr h)).1),
  )
]
  where
    below :
        (one banks r == 255) ≡ false
        → IsSlot banks (one banks r)
        → (one banks r / 2 * 2 < banks) × (one banks r / 2 * 2 + 1 < banks)
    below e (inl ram) = absurd (ground (arith, e, ram))
    below e (inr rom) = (omega arith, omega arith)

image_slots-IsMapped :
    (banks : ℕ) (g : Image) {s : List ℕ}
    → 4 ≤ banks
    → banks ≤ 128
    → banks % 2 ≡ 0
    → g.r3 < 256
    → image_slots banks g ≡ ok s
    → IsMapped banks s
unfolding image_slots
image_slots-IsMapped banks g {s} low high even byte h =
    let rom = one_rom-lt banks g.r3 low high byte in
    let (a, b, e1, ia, ib, _) = pair-lt banks g.r1 low high even in
    let (c, d, e3, ic, id, last) = pair-lt banks (bit_or g.r3 128) low high even in
    elim (Bool-cases (bit_and g.mode 3 == 0)) [
      | inl zero_mode ↦ absurd (ground (arith, h, zero_mode))
      | inr some_mode ↦ elim (Bool-cases (bit_and g.mode 3 == 1)) [
        | inl one_mode ↦
            let whole : pair banks g.r1 ++ pair banks (bit_or g.r3 128) ≡ s =
              ground (arith, h, some_mode, one_mode) in
            subst (IsMapped banks) whole (rw (e1, e3) (mapped ia ib ic (last rom).1))
        | inr not_one ↦ elim (Bool-cases (bit_and g.mode 3 == 2)) [
          | inl two_mode ↦
              let whole : pair banks g.r1 ++ (one banks g.r2 ∷ one banks (bit_or g.r3 128) ∷ [])
                  ≡ s =
                ground (arith, h, some_mode, not_one, two_mode) in
              subst (IsMapped banks) whole (rw e1 (mapped ia ib (one-lt banks g.r2 low high) rom))
          | inr not_two ↦
              let whole : one banks g.r0
                    ∷ one banks g.r1
                    ∷ one banks g.r2
                    ∷ one banks (bit_or g.r3 128)
                    ∷ []
                  ≡ s =
                ground (arith, h, some_mode, not_one, not_two) in
              subst (IsMapped banks) whole (
                mapped (one-lt banks g.r0 low high) (one-lt banks g.r1 low high)
                  (one-lt banks g.r2 low high) rom)
        ]
      ]
    ]

-- An accepted register image has four slots. Each shows a bank of the cartridge or unsupported
-- RAM, and the last always shows a bank; the cartridge has an even number of banks, 4 to 128.
pub slots-IsMapped :
    (registers : Registers) (banks_value : Value) {s : List ℕ}
    → slots registers banks_value ≡ ok s
    → (banks : ℕ) × (banks_value ≡ nat banks)
      × (4 ≤ banks)
      × (banks ≤ 128)
      × (banks % 2 ≡ 0)
      × IsMapped banks s
unfolding slots
slots-IsMapped registers banks_value h =
    let (banks, e0, h0) = >>=-eq-ok (check_banks banks_value) _ h in
    let (image, e1, h1) = >>=-eq-ok (check_registers registers) _ h0 in
    let (is_nat, low, high, even) = check_banks-ok banks_value e0 in
    (
      banks,
      is_nat,
      low,
      high,
      even,
      image_slots-IsMapped banks image low high even (check_registers-lt registers e1) h1,
    )
