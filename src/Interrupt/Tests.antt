-- ===== src/Interrupt/Tests.antt =====
-- Runs of the interrupt boundary, and each of its theorems at an input.
use nes2snes.Common.{◌/◌, ◌%◌, ◌≡◌, refl, true, false, replicate}
use nes2snes.Common.{ok, err, nat, bool, Bytes, []}
use nes2snes.Opcodes.{ops}
use nes2snes.Interrupt.{Boundary, Sampled, unsupported, bad_stack, validate, push_all, enter}
use nes2snes.Interrupt.Entry.{IsSampled, validate-IsSampled}
use nes2snes.Interrupt.Stack.{rti, rti-push_all}
use nes2snes.Interrupt.Descriptor.{Outcome, enter_lem}
use nes2snes.Common.{bytes_eq, List, ◌∷◌, ◌++◌, ℕ, int, negsuc}
use nes2snes.Common.Text.{text, from_hex}
use nes2snes.Interrupt.{record_bytes}
use nes2snes.Interrupt.Expected.{
  malformed_record, malformed_field, bad_target, model_differs, Fields, fields, other_keys,
  Observation, Plan, check_observation, boundary_of, expected,
}
use nes2snes.Interrupt.Expected.Agrees.{IsEntry, expected-IsEntry}

-- After SEI an IRQ is still taken, since the poll saw the flags of before.
abbrev after_sei : Boundary
after_sei = record {
  opcode = nat 0x78;
  before_p = nat 0x31;
  after_p = nat 0x35;
  irq = bool true;
  nmi = bool false;
  s = nat 1;
  pc = nat 0xc123;
  irq_vector = nat 0xe000;
  nmi_vector = nat 0xf000;
}

abbrev sampled : Sampled
sampled = record {
  opcode = 0x78;
  before_p = 0x31;
  after_p = 0x35;
  irq = true;
  nmi = false;
  s = 1;
  pc = 0xc123;
  irq_vector = 0xe000;
  nmi_vector = 0xf000;
}

abbrev page : Bytes
page = replicate 256 0

sei_valid : validate after_sei ≡ ok sampled
unfolding validate ops
sei_valid = refl

refused :
    (enter (record after_sei { opcode = nat 0 }) page ≡ err unsupported)
    × (enter after_sei [] ≡ err bad_stack)
unfolding enter ops
refused = (refl, refl)

sei-IsSampled : IsSampled sampled
sei-IsSampled = validate-IsSampled after_sei sei_valid

rti-push_all_example :
    let (after, s) = push_all sampled page in
    let (p, pc, top) = rti after s in
    (pc ≡ 0xc123) × (top ≡ 1) × (p % 16 ≡ 5) × (p / 64 ≡ 0) × (p / 16 % 4 ≡ 2)
rti-push_all_example = rti-push_all sampled page sei-IsSampled refl

enter_lem_example : (r : Bytes × Bytes) × (enter after_sei page ≡ ok r) × Outcome sampled page r
enter_lem_example = enter_lem after_sei page sei_valid refl

-- An NMI after NOP at C123 with S = 2 and P = 31.
abbrev nop_row : Plan
nop_row = record { opcode = nat 0xea; irq = bool true; nmi = bool true }

abbrev old_text : List ℕ
old_text = replicate 512 48

-- `2123c1` and zeros: P, the low and the high byte at 0, 1 and 2.
abbrev new_text : List ℕ
new_text = (50 ∷ 49 ∷ 50 ∷ 51 ∷ 99 ∷ 49 ∷ []) ++ replicate 506 48

abbrev seen : Fields
seen = record {
  boundary_time = nat 1000;
  next_time = nat 1007;
  pc = nat 0xc123;
  next_pc = nat 0xe300;
  before_p = nat 0x31;
  after_p = nat 0x31;
  next_p = nat 0x35;
  s = nat 2;
  next_s = nat 0xff;
  a = nat 1;
  x = nat 2;
  y = nat 3;
  next_a = nat 1;
  next_x = nat 2;
  next_y = nat 3;
  complete = nat 1;
  before_stack = text old_text;
  after_stack = text new_text;
}

abbrev seen_stack : Bytes
seen_stack = 0x21 ∷ 0x23 ∷ 0xc1 ∷ replicate 253 0

abbrev seen_bytes : Bytes
seen_bytes = 0xea ∷ 0x31 ∷ 0x35 ∷ 1 ∷ 0 ∷ 0xff ∷ 0 ∷ 0xe3 ∷ 2 ∷ 7 ∷ 0 ∷ 0 ∷ 0 ∷ 0xe2 ∷ 0 ∷ 0xe3 ∷ []

abbrev nop_bytes : Bytes
nop_bytes = 0xea ∷ 0x31 ∷ 0x31 ∷ 1 ∷ 1 ∷ 2 ∷ 0x23 ∷ 0xc1 ∷ 0 ∷ 0 ∷ 0 ∷ 0 ∷ 0 ∷ 0xe2 ∷ 0 ∷ 0xe3 ∷ []

nmi_seen : expected nop_row (fields seen) ≡ ok (nop_bytes, replicate 256 0, seen_bytes, seen_stack)
unfolding expected validate enter ops from_hex bytes_eq
nmi_seen = refl

refused_records :
    (expected nop_row other_keys ≡ err malformed_record)
    × (expected nop_row (fields (record seen { s = int (negsuc 0) })) ≡ err malformed_field)
    × (expected nop_row (fields (record seen { after_stack = text [] })) ≡ err malformed_field)
    × (expected nop_row (fields (record seen { next_pc = nat 0xe301 })) ≡ err bad_target)
    × (expected nop_row (fields (record seen { next_p = nat 0x31 })) ≡ err model_differs)
unfolding expected validate enter ops from_hex bytes_eq
refused_records = (refl, refl, refl, refl, refl)

expected-IsEntry_example :
    (o : Observation) × (b : Sampled) × (check_observation (fields seen) ≡ ok o)
    × (validate (boundary_of nop_row o) ≡ ok b)
    × (enter (boundary_of nop_row o) (replicate 256 0) ≡ ok (seen_bytes, seen_stack))
    × (nop_bytes ≡ record_bytes b)
    × IsEntry b o
expected-IsEntry_example = expected-IsEntry nop_row (fields seen) nmi_seen
