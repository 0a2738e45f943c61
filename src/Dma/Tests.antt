-- ===== src/Dma/Tests.antt =====
-- A NOP and a transfer of 513 cycles, captured and accounted for.
use nes2snes.Common.{
  ℕ, ◌+◌, ◌*◌, ◌≡◌, refl, List, [], ◌∷◌, ◌++◌, map, replicate, ok, err, nat, Bytes, bytes_eq, true,
}
use nes2snes.Common.Text.{TextArgument, text, not_text, from_hex, hex_text}
use nes2snes.Dma.{
  bad_request, other_abi, incomplete_capture, malformed_row, bad_origin, no_ledger, bad_hex,
  other_pc, TimingRow, configure, finish, exact_hex, typed_rows, bounded_row, Row, RowFields,
  RowArgument, row_fields, Listed, listed, not_listed, Plan, Actual,
}
use nes2snes.Dma.Timing.{Base, Timing, timing}
use nes2snes.Dma.Timing.Ledger.{Timed}
use nes2snes.Dma.Timing.Accounted.{IsAccounted, timing-IsAccounted}
use nes2snes.Opcodes.{ops}
use nes2snes.Common.{Bool, ◌==◌, false, ◌↔◌, All}
use nes2snes.Dma.Masked.{
  unknown, truncated, not_bytes, refused, ambiguous, code_over_helper, data_over_helper, code,
  not_code, masked_code, Part, RamPlan, ram_plan, MaskedPlan, underlying,
}
use nes2snes.Dma.Masked.Whole.{IsInstruction, joined, AreReplaced, masked_code_iff}
use nes2snes.Dma.Masked.Separate.{AreMasked, IsSeparate, fixed_part, underlying-IsSeparate}

abbrev plan : Plan
plan = record {
  steps = 2;
  fixed = record { origin = 0xe100; code = hex_text (0xea ∷ 0x8d ∷ 0x14 ∷ 0x40 ∷ []) };
  bank_code = [];
}

abbrev nop_row : RowFields
nop_row = record {
  start = nat 1200;
  end = nat 1224;
  pc = nat 0xe100;
  next_pc = nat 0xe101;
  clock = nat 12;
  opcode = nat 0xea;
}

abbrev dma_row : RowFields
dma_row = record {
  start = nat 1224;
  end = nat 7428;
  pc = nat 0xe101;
  next_pc = nat 0xe104;
  clock = nat 12;
  opcode = nat 0x8d;
}

abbrev rows : Listed RowArgument
rows = listed (row_fields nop_row ∷ row_fields dma_row ∷ [])

-- A native record with the clock's two bytes, the address and the opcode.
abbrev native : ℕ → ℕ → ℕ → ℕ → TextArgument
native low high next opcode =
    text (
      hex_text ((low ∷ high ∷ 0 ∷ 0 ∷ next ∷ 0xe1 ∷ replicate 11 0) ++ (opcode ∷ replicate 2062 0)))

abbrev final_state : Bytes
final_state = 1 ∷ 0 ∷ 1 ∷ 2 ∷ 1 ∷ 2 ∷ 0 ∷ 0 ∷ []

abbrev actual : Actual
actual = record {
  dma_records = text (hex_text (replicate 8 0 ++ final_state));
  dma_state = text (hex_text final_state);
  records = listed (native 2 0 1 0xea ∷ native 7 2 4 0x8d ∷ []);
}

abbrev totals : Timing
totals = record {
  boundaries = 2;
  span_cycles = 519;
  dma_transfers = 1;
  dma_stall_cycles = 513;
  delays = 513 ∷ [];
}

accounted : timing plan rows actual (nat 0) ≡ ok totals
unfolding timing bytes_eq from_hex exact_hex typed_rows bounded_row
accounted = refl

refusals :
    (timing plan rows actual (nat 1) ≡ err bad_origin)
    × (timing plan not_listed actual (nat 0) ≡ err no_ledger)
    × (timing plan rows (record actual { dma_state = not_text }) (nat 0) ≡ err bad_hex)
    × (timing plan
          (listed (row_fields nop_row ∷ row_fields (record dma_row { pc = nat 0xe102 }) ∷ []))
          actual
          (nat 0)
        ≡ err other_pc)
unfolding timing bytes_eq from_hex exact_hex typed_rows bounded_row
refusals = (refl, refl, refl, refl)

abbrev captured : TimingRow
captured = record {
  start = 1200;
  end = 1224;
  pc = 0xe100;
  next_pc = 0xe101;
  clock = 12;
  opcode = 0xea;
  reserved = replicate 7 0;
}

captures :
    (configure (nat 0xe100) (nat 1) 32 true ≡ ok 1)
    × (configure (nat 0xe100) (nat 65) 32 true ≡ err bad_request)
    × (configure (nat 0xe100) (nat 1) 31 true ≡ err other_abi)
    × (finish 1 0 0 0 [] ≡ err incomplete_capture)
    × (finish 1 1 0 0 (record captured { end = 1225 } ∷ []) ≡ err malformed_row)
unfolding configure finish
captures = (refl, refl, refl, refl, refl)

timing-IsAccounted_example :
    (x : Base) × (fs : List RowFields) × (texts : List TextArgument) × (state : Bytes)
    × (found : List Row) × (nat 0 ≡ nat x.clock_origin)
    × (rows ≡ listed (map row_fields fs))
    × (actual.records ≡ listed texts)
    × (exact_hex actual.dma_state 8 ≡ ok state)
    × Timed x x.origin fs texts found (x.origin + x.clock * 519)
    × IsAccounted plan state totals found
timing-IsAccounted_example = timing-IsAccounted plan rows actual (nat 0) accounted

abbrev stores : Bytes
stores = 0xea ∷ 0x8d ∷ 0x14 ∷ 0x40 ∷ 0xad ∷ 0x14 ∷ 0x40 ∷ []

abbrev masked_stores : Bytes
masked_stores = 0xea ∷ 0x8d ∷ 0x02 ∷ 0x20 ∷ 0xad ∷ 0x14 ∷ 0x40 ∷ []

masks :
    (masked_code (code stores) ≡ ok masked_stores)
    × (masked_code (code (0x8d ∷ 0x14 ∷ [])) ≡ err truncated)
    × (masked_code (code (0x02 ∷ [])) ≡ err unknown)
    × (masked_code not_code ≡ err not_bytes)
unfolding masked_code bytes_eq ops
masks = (refl, refl, refl, refl)

masked_code_iff_example : (masked_code (code stores) ≡ ok masked_stores) ↔ (
    (insts : List Bytes) × (news : List Bytes) × All IsInstruction insts
    × (stores ≡ joined insts)
    × AreReplaced insts news
    × (masked_stores ≡ joined news))
masked_code_iff_example = masked_code_iff stores masked_stores

abbrev banked_part : Part
banked_part = record { bank = 1; origin = 0x8000; code = hex_text (0x60 ∷ []) }

abbrev authored : RamPlan
authored = record {
  prg_banks = 4;
  origin = 0xe100;
  code = hex_text stores;
  bank_code = listed (banked_part ∷ []);
  bank_data = record { bank = 3; offset = 0x100; bytes = hex_text (0 ∷ []) } ∷ [];
}

abbrev masked_plan : MaskedPlan
masked_plan = record {
  prg_banks = 4;
  parts =
      record { bank = 3; origin = 0xe100; code = masked_stores }
      ∷ record { bank = 1; origin = 0x8000; code = 0x60 ∷ [] }
      ∷ [];
  bank_data = authored.bank_data;
}

-- The validator takes a plan of four banks.
abbrev four_banks : MaskedPlan → Bool
four_banks p = p.prg_banks == 4

masked_authored : underlying four_banks (ram_plan authored) ≡ ok masked_plan
unfolding underlying from_hex masked_code bytes_eq ops
masked_authored = refl

refused_plans :
    (underlying (λ p. false) (ram_plan authored) ≡ err refused)
    × (underlying four_banks (
          ram_plan
            (record authored { bank_code = listed (record banked_part { origin = 0xe106 } ∷ []) }))
        ≡ err ambiguous)
    × (underlying four_banks (ram_plan (record authored { origin = 0xf23f }))
        ≡ err code_over_helper)
    × (underlying four_banks (
          ram_plan (record authored {
            bank_data = record { bank = 3; offset = 0x1200; bytes = hex_text (0 ∷ []) } ∷ [];
          }))
        ≡ err data_over_helper)
unfolding underlying from_hex masked_code bytes_eq ops
refused_plans = (refl, refl, refl, refl)

underlying-IsSeparate_example :
    (p : RamPlan) × (banked : List Part) × (ram_plan authored ≡ ram_plan p)
    × (p.bank_code ≡ listed banked)
    × AreMasked (fixed_part p ∷ banked) masked_plan.parts
    × (true ≡ true)
    × IsSeparate masked_plan
underlying-IsSeparate_example = underlying-IsSeparate four_banks (ram_plan authored) masked_authored
