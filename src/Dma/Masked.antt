-- ===== src/Dma/Masked.antt =====
-- tools/oam_dma_timeline.py: masked_code and underlying, which hand a program with DMA stores to the
-- validator of programs without them. That validator, `validate` of tools/chr_mode_rewrite.py, is a
-- parameter.
pub mod Whole
pub mod Separate
use nes2snes.Common.{
  ℕ, zero, suc, ◌+◌, ◌-◌, Bool, true, false, not, ◌&&◌, ◌||◌, Option, none, some, List, [], ◌∷◌,
  ◌++◌, length, take, drop, ltb, ◌==◌, if◌then◌else◌,
}
use nes2snes.Common.{Result, ok, err, ◌>>=◌, ◌>>◌, raise_if, Bytes, bytes_eq}
use nes2snes.Common.Text.{from_hex}
use nes2snes.Opcodes.{Op, ops}
use nes2snes.Dma.{Listed, listed, not_listed}

-- The `ValueError`s, by what their messages name; `refused` is the validator's.
pub data MaskError : Type 0 where
  not_bytes unknown truncated bad_text other_profile no_list refused ambiguous : MaskError
  code_over_helper data_over_helper : MaskError

-- The argument of masked_code: bytes, or anything else
pub data CodeArgument : Type 0 where
  code : Bytes → CodeArgument
  not_code : CodeArgument

-- STA $4014 becomes STA $2002.
unfoldable pub mask_one : Bytes → Bytes
mask_one inst = if bytes_eq inst (0x8d ∷ 0x14 ∷ 0x40 ∷ []) then 0x8d ∷ 0x02 ∷ 0x20 ∷ [] else inst

-- The loop, over the bytes from `pos` on. A round takes one byte at least.
unfoldable pub mask : ℕ → Bytes → Result MaskError Bytes
unfolding mask_one
mask zero bytes = ok []
mask (suc fuel) [] = ok []
mask (suc fuel) (b ∷ rest) = elim (ops b) [
  | none ↦ err unknown
  | some op ↦ do
    raise_if (ltb (length (b ∷ rest)) op.size) truncated
    later ← mask fuel (drop op.size (b ∷ rest))
    ok (mask_one (take op.size (b ∷ rest)) ++ later)
]

unfoldable pub masked_code : CodeArgument → Result MaskError Bytes
unfolding mask
masked_code (code bytes) = mask (length bytes) bytes
masked_code not_code = err not_bytes

-- A part of the program, with its code as a text
pub record Part : Type 0 where
  pub bank : ℕ
  pub origin : ℕ
  pub code : List ℕ

-- An item of `bank_data`
pub record Item : Type 0 where
  pub bank : ℕ
  pub offset : ℕ
  pub bytes : List ℕ

-- A dictionary of the profile, with what the function reads; its numbers are checked by the validator
-- before they are used.
pub record RamPlan : Type 0 where
  pub prg_banks : ℕ
  pub origin : ℕ
  pub code : List ℕ
  pub bank_code : Listed Part
  pub bank_data : List Item

pub data PlanArgument : Type 0 where
  ram_plan : RamPlan → PlanArgument
  other_plan : PlanArgument

-- A part of the result; its text is kept as the bytes that it stands for.
pub record MaskedPart : Type 0 where
  pub bank : ℕ
  pub origin : ℕ
  pub code : Bytes

-- `fragments(result)`, and the data
pub record MaskedPlan : Type 0 where
  pub prg_banks : ℕ
  pub parts : List MaskedPart
  pub bank_data : List Item

unfoldable pub text_bytes : Option Bytes → Result MaskError Bytes
text_bytes none = err bad_text
text_bytes (some bytes) = ok bytes

unfoldable pub mask_part : Part → Result MaskError MaskedPart
unfolding text_bytes masked_code
mask_part part = do
  bytes ← text_bytes (from_hex part.code)
  masked ← masked_code (code bytes)
  ok (record { bank = part.bank; origin = part.origin; code = masked })

unfoldable pub mask_parts : List Part → Result MaskError (List MaskedPart)
unfolding mask_part
mask_parts [] = ok []
mask_parts (part ∷ rest) = do
  masked ← mask_part part
  others ← mask_parts rest
  ok (masked ∷ others)

-- `part['origin'] + len(code)`
abbrev pub end_of : MaskedPart → ℕ
end_of p = p.origin + length p.code

-- `any(start < b and end > a for a, b in intervals)`
unfoldable pub meets_interval : MaskedPart → List MaskedPart → Bool
meets_interval p [] = false
meets_interval p (q ∷ seen) =
    (ltb p.origin (end_of q) && ltb q.origin (end_of p)) || meets_interval p seen

unfoldable pub check_intervals : List MaskedPart → List MaskedPart → Result MaskError (Unit {0})
unfolding meets_interval
check_intervals seen [] = ok tt
check_intervals seen (p ∷ rest) = do
  raise_if (meets_interval p seen) ambiguous
  check_intervals (p ∷ seen) rest

unfoldable pub check_code : ℕ → List MaskedPart → Result MaskError (Unit {0})
check_code last [] = ok tt
check_code last (p ∷ rest) = do
  raise_if (p.bank == last && (ltb p.origin 0xf240 && ltb 0xf200 (end_of p))) code_over_helper
  check_code last rest

-- The text of an item is read only when its bank and its offset may meet the helper.
unfoldable pub check_item : ℕ → Item → Result MaskError (Unit {0})
unfolding text_bytes
check_item last item =
    if item.bank == last && ltb item.offset 0x1240
    then text_bytes (from_hex item.bytes)
      >>= (λ bytes. raise_if (ltb 0x1200 (item.offset + length bytes)) data_over_helper)
    else ok tt

unfoldable pub check_items : ℕ → List Item → Result MaskError (Unit {0})
unfolding check_item
check_items last [] = ok tt
check_items last (item ∷ rest) = do check_item last item; check_items last rest

unfoldable pub part_list : Listed Part → Result MaskError (List Part)
part_list (listed parts) = ok parts
part_list not_listed = err no_list

unfoldable pub underlying : (MaskedPlan → Bool) → PlanArgument → Result MaskError MaskedPlan
unfolding part_list mask_parts check_intervals check_code check_items
underlying valid other_plan = err other_profile
underlying valid (ram_plan p) = do
  banked ← part_list p.bank_code
  parts ← mask_parts (record { bank = p.prg_banks - 1; origin = p.origin; code = p.code } ∷ banked)
  raise_if
      (not (valid (record { prg_banks = p.prg_banks; parts = parts; bank_data = p.bank_data })))
      refused
  check_intervals [] parts
  check_code (p.prg_banks - 1) parts
  check_items (p.prg_banks - 1) p.bank_data
  ok (record { prg_banks = p.prg_banks; parts = parts; bank_data = p.bank_data })
