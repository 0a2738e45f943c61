-- ===== src/Interrupt/Stack.antt =====
-- What an entry stores, and what RTI gets back.
use nes2snes.Common.{
  ℕ, ◌+◌, ◌-◌, ◌*◌, ◌/◌, ◌%◌, ◌<◌, ◌≡◌, ◌≢◌, refl, sym, ap, ◌∙◌, bit_and, bit_or, arith,
}
use nes2snes.Common.{length, get_or, set, length-set, get_or-set_self, get_or-set_ne}
use nes2snes.Common.{all_below, Bytes}
use nes2snes.Common.Bits.{byte_table, bit_and_low}
use nes2snes.Interrupt.{Sampled, push, push_all, pushed_p}
use nes2snes.Interrupt.Entry.{IsSampled}

-- The stack pointer after `k` pushes.
abbrev pub down : ℕ → ℕ → ℕ
down s k = (s + 256 - k) % 256

push_all_lem :
    (b : Sampled) (stack : Bytes)
    → IsSampled b
    → push_all b stack ≡ (
      set (set (set stack b.s (b.pc / 256)) (down b.s 1) (b.pc % 256)) (down b.s 2) (pushed_p b),
      down b.s 3,
    )
unfolding push_all push
push_all_lem b stack h = ground (
  arith,
  h.pc_word,
  bit_and_low 8 (b.s + 255),
  bit_and_low 8 ((b.s + 255) % 256 + 255),
  bit_and_low 8 (((b.s + 255) % 256 + 255) % 256 + 255),
  bit_and_low 8 b.pc,
)

module _ (stack : Bytes) (i j k x y z : ℕ) where
  abbrev written : Bytes
  written = set (set (set stack i x) j y) k z

  length-written : length written ≡ length stack
  length-written =
      length-set (set (set stack i x) j y) k z
      ∙ length-set (set stack i x) j y
      ∙ length-set stack i x

  module _ (ij : i ≢ j) (ik : i ≢ k) (jk : j ≢ k) where
    read_first : i < length stack → get_or written i 0 ≡ x
    read_first h =
        get_or-set_ne (set (set stack i x) j y) k i z 0 (λ e. ik (sym e))
        ∙ get_or-set_ne (set stack i x) j i y 0 (λ e. ij (sym e))
        ∙ get_or-set_self stack i x 0 h

    read_second : j < length stack → get_or written j 0 ≡ y
    read_second h =
        get_or-set_ne (set (set stack i x) j y) k j z 0 (λ e. jk (sym e))
        ∙ get_or-set_self (set stack i x) j y 0 (rw (length-set stack i x) h)

  read_third : k < length stack → get_or written k 0 ≡ z
  read_third h =
      get_or-set_self (set (set stack i x) j y) k z 0
        (rw (length-set (set stack i x) j y, length-set stack i x) h)

  read_other : (n : ℕ) → n ≢ i → n ≢ j → n ≢ k → get_or written n 0 ≡ get_or stack n 0
  read_other n ni nj nk =
      get_or-set_ne (set (set stack i x) j y) k n z 0 (λ e. nk (sym e))
      ∙ get_or-set_ne (set stack i x) j n y 0 (λ e. nj (sym e))
      ∙ get_or-set_ne stack i n x 0 (λ e. ni (sym e))

-- The three bytes stored on an entry stand at S, S - 1 and S - 2, modulo the page, and no other byte
-- of the stack page changes.
pub push_all-stack :
    (b : Sampled) (stack : Bytes)
    → IsSampled b
    → length stack ≡ 256
    → let after = (push_all b stack).0 in
      (length after ≡ 256)
      × (get_or after b.s 0 ≡ b.pc / 256)
      × (get_or after (down b.s 1) 0 ≡ b.pc % 256)
      × (get_or after (down b.s 2) 0 ≡ pushed_p b)
      × ((i : ℕ) → i ≢ b.s → i ≢ down b.s 1 → i ≢ down b.s 2 → get_or after i 0 ≡ get_or stack i 0)
push_all-stack b stack h len =
    let i = b.s in
    let j = down b.s 1 in
    let k = down b.s 2 in
    let x = b.pc / 256 in
    let y = b.pc % 256 in
    let z = pushed_p b in
    let ij : b.s ≢ down b.s 1 = omega (arith, h.s_byte) in
    let ik : b.s ≢ down b.s 2 = omega (arith, h.s_byte) in
    let jk : down b.s 1 ≢ down b.s 2 = omega arith in
    rw (push_all_lem b stack h) (
      length-written stack i j k x y z ∙ len,
      read_first stack i j k x y z ij ik jk (omega (arith, h.s_byte)),
      read_second stack i j k x y z ij ik jk (omega arith),
      read_third stack i j k x y z (omega arith),
      read_other stack i j k x y z,
    )

-- RTI of the original processor: it pulls P, then the low and the high byte of the address.
abbrev pub up : ℕ → ℕ → ℕ
up s k = (s + k) % 256

abbrev pub rti : Bytes → ℕ → ℕ × ℕ × ℕ
rti stack s =
    (get_or stack (up s 1) 0, get_or stack (up s 2) 0 + 256 * get_or stack (up s 3) 0, up s 3)

status_bits :
    (p : ℕ)
    → p < 256
    → (bit_or (bit_and p 0xef) 0x20 % 16 ≡ p % 16)
      × (bit_or (bit_and p 0xef) 0x20 / 64 ≡ p / 64)
      × (bit_or (bit_and p 0xef) 0x20 / 16 % 4 ≡ 2)
unfolding all_below
status_bits p h = (
  byte_table (λ p. bit_or (bit_and p 0xef) 0x20 % 16) (λ p. p % 16) refl p h,
  byte_table (λ p. bit_or (bit_and p 0xef) 0x20 / 64) (λ p. p / 64) refl p h,
  byte_table (λ p. bit_or (bit_and p 0xef) 0x20 / 16 % 4) (λ p. 2) refl p h,
)

-- After an entry, RTI goes back to the interrupted address with the stack pointer of before, and its
-- P agrees with the interrupted P in every flag; the B bit is clear and the unused bit set.
pub rti-push_all :
    (b : Sampled) (stack : Bytes)
    → IsSampled b
    → length stack ≡ 256
    → let (after, s) = push_all b stack in
      let (p, pc, top) = rti after s in
      (pc ≡ b.pc)
      × (top ≡ b.s)
      × (p % 16 ≡ b.after_p % 16)
      × (p / 64 ≡ b.after_p / 64)
      × (p / 16 % 4 ≡ 2)
rti-push_all b stack h len =
    let (same, first, second, third, others) = push_all-stack b stack h len in
    let (low, high, middle) = status_bits b.after_p h.after_byte in
    let s = (push_all b stack).1 in
    let after = (push_all b stack).0 in
    let down_3 : s ≡ down b.s 3 = ap (λ (r : Bytes × ℕ). r.1) (push_all_lem b stack h) in
    let at_p : up s 1 ≡ down b.s 2 = omega arith in
    let at_low : up s 2 ≡ down b.s 1 = omega arith in
    let at_high : up s 3 ≡ b.s = omega (arith, h.s_byte) in
    let p_back = ap (λ (i : ℕ). get_or after i 0) at_p ∙ third in
    let low_back = ap (λ (i : ℕ). get_or after i 0) at_low ∙ second in
    let high_back = ap (λ (i : ℕ). get_or after i 0) at_high ∙ first in
    (omega (arith, low_back, high_back), at_high, rw p_back low, rw p_back high, rw p_back middle)
