-- ===== src/Mmc5/Tests.antt =====
-- Register images, a small banked plan, and each theorem at them.
use nes2snes.Common.{ℕ, ◌≡◌, ◌≤◌, ◌%◌, refl, true, false, none}
use nes2snes.Common.{[], ◌∷◌, ok, err, nat, bool, pos}
use nes2snes.Common.Text.{TextArgument, text, from_hex, is_fixture_name}
use nes2snes.Opcodes.{Mnemonic, Mode, ops}
use nes2snes.Timeline.{
  is_regular, is_control, is_branch, is_simple, is_jmp, is_jsr, is_rel, is_imp, is_abs,
}
use nes2snes.Timeline.Events.{list, entry, validate_events}
use nes2snes.Timeline.Decode.{start_list, Row, decode}
use nes2snes.Mmc5.{slots, sequence, initial_registers, bad_image, mode_zero}
use nes2snes.Mmc5.Slots.{IsMapped, slots-IsMapped}
use nes2snes.Mmc5.Plan.{
  Profile, Plan, Open, mmc5_prg_rom, part, parts, patch, PatchesArgument, patches, patch_overlap,
}
use nes2snes.Mmc5.Body.{in_block, Layout, validate}
use nes2snes.Mmc5.Head.{IsProfile}
use nes2snes.Mmc5.Layout.{IsReadFrom, IsLayout, validate-IsLayout}

initial_slots : slots (sequence initial_registers) (nat 4) ≡ ok (0 ∷ 1 ∷ 2 ∷ 3 ∷ [])
unfolding slots
initial_slots = refl

other_slots :
    (slots (sequence (nat 1 ∷ nat 0 ∷ nat 3 ∷ nat 0 ∷ nat 6 ∷ [])) (nat 8)
      ≡ ok (255 ∷ 255 ∷ 6 ∷ 7 ∷ []))
    × (slots (sequence (nat 2 ∷ nat 0 ∷ nat 0x83 ∷ nat 0x84 ∷ nat 5 ∷ [])) (nat 8)
        ≡ ok (2 ∷ 3 ∷ 4 ∷ 5 ∷ []))
    × (slots (sequence (nat 4 ∷ nat 0 ∷ nat 0 ∷ nat 0 ∷ nat 0 ∷ [])) (nat 8) ≡ err mode_zero)
    × (slots (sequence initial_registers) (nat 6) ≡ err bad_image)
unfolding slots
other_slots = (refl, refl, refl, refl)

slots-IsMapped_example :
    (banks : ℕ) × (nat 4 ≡ nat banks)
    × (4 ≤ banks)
    × (banks ≤ 128)
    × (banks % 2 ≡ 0)
    × IsMapped banks (0 ∷ 1 ∷ 2 ∷ 3 ∷ [])
slots-IsMapped_example = slots-IsMapped (sequence initial_registers) (nat 4) initial_slots

abbrev closed : Profile
closed = record {
  cartridge_ram = bool false;
  cpu_io = bool false;
  ppu_blank = bool false;
  chr_blank = bool false;
}

-- Two NOPs and a JMP to the first in the last bank, and a JMP to it in bank 0.
abbrev plan_of : PatchesArgument → Plan
plan_of bank_data = record {
  name = text (b'd' ∷ []);
  origin = nat 0xe100;
  code = text (b'e' ∷ b'a' ∷ b'e' ∷ b'a' ∷ b'4' ∷ b'c' ∷ b'0' ∷ b'0' ∷ b'e' ∷ b'1' ∷ []);
  starts = start_list (nat 0xe100 ∷ nat 0xe101 ∷ nat 0xe102 ∷ []);
  irq = nat 0xe100;
  nmi = nat 0xe101;
  steps = nat 3;
  stack = nat 255;
  a = nat 0;
  x = nat 0;
  y = nat 0;
  seed = nat 0;
  counter = nat 0;
  events = list (entry (nat 10) (bool true) (bool false) ∷ []);
  memory_model = mmc5_prg_rom;
  prg_banks = nat 4;
  bank_code = parts (
      part (nat 0) (nat 0x8000) (text (b'4' ∷ b'c' ∷ b'0' ∷ b'0' ∷ b'e' ∷ b'1' ∷ []))
        (start_list (nat 0x8000 ∷ []))
      ∷ []);
  bank_data = bank_data;
  chr = none;
}

abbrev two_bytes : TextArgument
two_bytes = text (b'1' ∷ b'2' ∷ b'f' ∷ b'F' ∷ [])

abbrev small_plan : Plan
small_plan = plan_of (patches (patch (nat 0) (nat 3) two_bytes ∷ []))

abbrev jmp_row : ℕ → Row
jmp_row pc = record {
  pc = pc;
  name = Mnemonic.jmp;
  mode = Mode.abs;
  raw = 0x4c ∷ 0x00 ∷ 0xe1 ∷ [];
  operand = 0xe100;
}

abbrev nop_row : ℕ → Row
nop_row pc = record { pc = pc; name = Mnemonic.nop; mode = Mode.imp; raw = 0xea ∷ []; operand = 0 }

abbrev small_layout : Layout
small_layout = record {
  banks = 4;
  steps = 3;
  events = record { cycle = 10; irq = true; nmi = false } ∷ [];
  parts =
      record {
        block = record {
          bank = 3;
          offset = 0x100;
          content = 0xea ∷ 0xea ∷ 0x4c ∷ 0x00 ∷ 0xe1 ∷ [];
        };
        pc = 0xe100;
        starts = pos 0xe100 ∷ pos 0xe101 ∷ pos 0xe102 ∷ [];
      }
      ∷ record {
        block = record { bank = 0; offset = 0; content = 0x4c ∷ 0x00 ∷ 0xe1 ∷ [] };
        pc = 0x8000;
        starts = pos 0x8000 ∷ [];
      }
      ∷ [];
  rows = (nop_row 0xe100 ∷ nop_row 0xe101 ∷ jmp_row 0xe102 ∷ []) ∷ (jmp_row 0x8000 ∷ []) ∷ [];
  irq = 0xe100;
  nmi = 0xe101;
  patches = record { bank = 0; offset = 3; content = 0x12 ∷ 0xff ∷ [] } ∷ [];
}

accepted : validate closed small_plan ≡ ok small_layout
unfolding validate slots validate_events in_block from_hex is_fixture_name decode ops is_regular
    is_control is_branch is_simple is_jmp is_jsr is_rel is_imp is_abs
accepted = refl

refused :
    (validate closed (plan_of (patches (patch (nat 0) (nat 2) two_bytes ∷ []))) ≡ err patch_overlap)
    × (validate closed (plan_of (patches (patch (nat 3) (nat 0x1ff9) two_bytes ∷ [])))
        ≡ err patch_overlap)
unfolding validate slots validate_events in_block from_hex is_fixture_name decode ops is_regular
    is_control is_branch is_simple is_jmp is_jsr is_rel is_imp is_abs
refused = (refl, refl)

validate-IsLayout_example :
    (o : Open) × IsProfile closed o × IsReadFrom o small_plan small_layout × IsLayout o small_layout
validate-IsLayout_example = validate-IsLayout closed small_plan small_layout accepted
