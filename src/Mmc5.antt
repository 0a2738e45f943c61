-- ===== src/Mmc5.antt =====
-- tools/mmc5_timeline.py: the mapper's slots, and in Mmc5/Plan the validation of a banked plan.
pub mod Slots
pub mod Plan
pub mod Body
pub mod Disjoint
pub mod Parts
pub mod Patches
pub mod Read
pub mod Head
pub mod Helper
pub mod Layout
mod Tests
use nes2snes.Common.{
  ℕ, ◌+◌, ◌-◌, ◌*◌, ◌/◌, ◌%◌, bit_and, bit_or, Bool, true, false, not, ◌&&◌, ◌||◌,
}
use nes2snes.Common.{List, [], ◌∷◌, ◌++◌, length, ltb, leb, ◌==◌, if◌then◌else◌}
use nes2snes.Common.{
  Result, ok, err, ◌>>=◌, ◌>>◌, raise_if, Value, nat, in_range, Option, none, some,
}

pub data SlotError : Type 0 where
  bad_image mode_zero : SlotError

-- The argument `registers`: a tuple or list, or anything else.
pub data Registers : Type 0 where
  sequence : List Value → Registers
  not_sequence : Registers

-- REGISTERS
abbrev pub register_addresses : List ℕ
register_addresses = 0x5100 ∷ 0x5114 ∷ 0x5115 ∷ 0x5116 ∷ 0x5117 ∷ []

-- INITIAL
abbrev pub initial_registers : List Value
initial_registers = nat 3 ∷ nat 0x80 ∷ nat 0x81 ∷ nat 0x82 ∷ nat 0xff ∷ []

-- `type(banks) is int and 4 <= banks <= 128 and not banks & (banks - 1)`
unfoldable pub check_banks : Value → Result SlotError ℕ
check_banks (nat n) =
    if leb 4 n && (leb n 128 && bit_and n (n - 1) == 0) then ok n else err bad_image
check_banks v = err bad_image

unfoldable pub check_byte : Value → Result SlotError ℕ
check_byte v = elim (in_range v 255) [ none ↦ err bad_image | some n ↦ ok n ]

-- A register image after its checks.
pub record Image : Type 0 where
  pub mode : ℕ
  pub r0 : ℕ
  pub r1 : ℕ
  pub r2 : ℕ
  pub r3 : ℕ

unfoldable pub check_registers : Registers → Result SlotError Image
unfolding check_byte
check_registers (sequence (m ∷ a ∷ b ∷ c ∷ d ∷ [])) = do
  mode ← check_byte m
  r0 ← check_byte a
  r1 ← check_byte b
  r2 ← check_byte c
  r3 ← check_byte d
  ok (record { mode = mode; r0 = r0; r1 = r1; r2 = r2; r3 = r3 })
check_registers _ = err bad_image

-- `one`
unfoldable pub one : ℕ → ℕ → ℕ
one banks r = if not (bit_and r 128 == 0) then bit_and r (banks - 1) else 255

-- `pair`; `b & ~1` is the even number at or below `b`.
unfoldable pub pair : ℕ → ℕ → List ℕ
unfolding one
pair banks r =
    if one banks r == 255
    then 255 ∷ 255 ∷ []
    else one banks r / 2 * 2 ∷ (one banks r / 2 * 2 + 1) ∷ []

unfoldable pub image_slots : ℕ → Image → Result SlotError (List ℕ)
unfolding pair
image_slots banks g =
    let mode = bit_and g.mode 3 in
    let last = bit_or g.r3 128 in
    if mode == 0
    then err mode_zero
    else if mode == 1
    then ok (pair banks g.r1 ++ pair banks last)
    else if mode == 2
    then ok (pair banks g.r1 ++ (one banks g.r2 ∷ one banks last ∷ []))
    else ok (one banks g.r0 ∷ one banks g.r1 ∷ one banks g.r2 ∷ one banks last ∷ [])

unfoldable pub slots : Registers → Value → Result SlotError (List ℕ)
unfolding check_banks check_registers image_slots
slots registers banks_value = do
  banks ← check_banks banks_value
  image ← check_registers registers
  image_slots banks image
