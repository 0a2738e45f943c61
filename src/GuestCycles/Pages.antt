-- ===== src/GuestCycles/Pages.antt =====
-- The bit tests of `cost` as arithmetic on pages of 256 bytes.
use nes2snes.Common.{ℕ, ◌+◌, ◌-◌, ◌/◌, ◌%◌, ◌<◌, bit_and, bit_xor, ◌≡◌, ap, arith}
use nes2snes.Common.{ltb, ◌==◌, if◌then◌else◌}
use nes2snes.Common.Bits.{bit_and_low}
use nes2snes.Common.Xor.{bit_xor-eq-zero_iff, bit_xor-lt, bit_xor-page, bit_and_high_byte}
use nes2snes.GuestCycles.{branch_target, following, crossing}

pub following_lem : (pc : ℕ) → following pc ≡ (pc + 2) % 65536
following_lem pc = bit_and_low 16 (pc + 2)

-- A taken branch goes to the next instruction plus the operand as a signed byte, modulo 65536.
pub branch_target_lem :
    (base operand : ℕ)
    → branch_target base operand
      ≡ (if ltb operand 128 then (base + operand) % 65536 else (base + operand + 65280) % 65536)
unfolding branch_target
branch_target_lem base operand =
    ground (arith, bit_and_low 16 (base + operand), bit_and_low 16 (base + operand + 65536 - 256))

-- Two addresses differ under the mask 0xff00 exactly when they lie on different pages.
pub page_test :
    (a b : ℕ) → a < 65536 → b < 65536 → (bit_and (bit_xor a b) 0xff00 == 0) ≡ (a / 256 == b / 256)
page_test a b p q = ground (
  arith,
  bit_and_high_byte (bit_xor a b),
  ap (λ (t : ℕ). bit_and t 0xff) (bit_xor-page a b),
  bit_and_low 8 (bit_xor (a / 256) (b / 256)),
  bit_xor-lt 8 (a / 256) (b / 256) (omega arith) (omega arith),
  bit_xor-eq-zero_iff (a / 256) (b / 256),
)

-- The carry out of the low byte is a step to the next page.
pub crossing_lem :
    (address index : ℕ)
    → index < 256
    → crossing address index ≡ (if (address + index) / 256 == address / 256 then 0 else 1)
crossing_lem address index h = ground (arith, bit_and_low 8 address)
