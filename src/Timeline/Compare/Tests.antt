-- ===== src/Timeline/Compare/Tests.antt =====
-- A program of two instructions, of which one is executed, and the theorem at it.
use nes2snes.Common.{ℕ, ◌+◌, ◌-◌, ◌/◌, ◌%◌, ◌≡◌, refl, true, false, ltb, if◌then◌else◌, bytes_eq}
use nes2snes.Common.{List, [], ◌∷◌, length, ok, err, nat, Bytes, replicate, set}
use nes2snes.Common.Text.{TextArgument, text, from_hex, is_fixture_name}
use nes2snes.Opcodes.{ops}
use nes2snes.Timeline.{is_regular, is_simple, is_jmp, is_jsr, is_rel}
use nes2snes.Timeline.Events.{list, validate_events}
use nes2snes.Timeline.Decode.{start_list, decode}
use nes2snes.Timeline.Allowed.{allowed}
use nes2snes.Timeline.Plan.{Program, Checked, no_model, no_data, validate_plan}
use nes2snes.Timeline.Compare.{
  Original, Native, records, Compared, different, expected_initial, compare,
}
use nes2snes.Timeline.Compare.Equal.{ReadAll, Steps, compare-Steps}

abbrev digit : ℕ → ℕ
digit n = if ltb n 10 then b'0' + n else b'a' + n - 10

abbrev hex : Bytes → List ℕ
hex [] = []
hex (b ∷ rest) = digit (b / 16) ∷ digit (b % 16) ∷ hex rest

abbrev run_name : TextArgument
run_name = text (b'r' ∷ b'u' ∷ b'n' ∷ [])

-- Two INX, of which the handlers are the two entries.
abbrev plan : Program
plan = record {
  name = run_name;
  origin = nat 0x9000;
  code = text (hex (0xe8 ∷ 0xe8 ∷ []));
  starts = start_list (nat 0x9000 ∷ nat 0x9001 ∷ []);
  irq = nat 0x9000;
  nmi = nat 0x9001;
  steps = nat 1;
  boot = nat 0xff ∷ nat 1 ∷ nat 2 ∷ nat 3 ∷ nat 4 ∷ nat 5 ∷ [];
  events = list [];
  memory_model = no_model;
  patches = no_data;
}

-- The boot row: the address, A, X, Y, P and S.
abbrev boot : Bytes
boot =
    set
      (set (set (0 ∷ 0 ∷ 0 ∷ 0 ∷ 0 ∷ 0x90 ∷ 1 ∷ 2 ∷ 3 ∷ 0x24 ∷ 0xff ∷ replicate 533 0) 0x40 4) 0x41
        5)
      0x21f 0x24

-- Two cycles later, with one retired instruction.
abbrev stepped : ℕ → Bytes
stepped x =
    2
    ∷ 0
    ∷ 0
    ∷ 0
    ∷ 1
    ∷ 0x90
    ∷ 1
    ∷ x
    ∷ 3
    ∷ 0x24
    ∷ 0xff
    ∷ 0
    ∷ 0
    ∷ 0
    ∷ 2
    ∷ 0
    ∷ 0
    ∷ 0xe8
    ∷ 1
    ∷ replicate 525 0

abbrev original : Original
original = record {
  complete = true;
  fault = false;
  name = run_name;
  rows = records (text (hex boot) ∷ text (hex (stepped 3)) ∷ []);
}

abbrev native : ℕ → Native
native x = record {
  complete = true;
  fault = false;
  marker = nat 0x5a;
  status = nat 0;
  completed_steps = nat 1;
  rows = records (text (hex (stepped x)) ∷ []);
}

abbrev equal : Compared
equal = record {
  steps = 1;
  cycles = 2;
  irq_entries = 0;
  nmi_entries = 0;
  branch_page_crossings = 0;
  executed_opcodes = (0xe8, 1) ∷ [];
  record_bytes = 544;
}

compared : compare plan original (native 3) ≡ ok equal
unfolding compare is_fixture_name from_hex validate_events decode allowed ops bytes_eq is_regular
    is_simple is_jmp is_jsr is_rel
compared = refl

compared_other : compare plan original (native 4) ≡ err different
unfolding compare is_fixture_name from_hex validate_events decode allowed ops bytes_eq is_regular
    is_simple is_jmp is_jsr is_rel
compared_other = refl

compare-Steps_example :
    (c : Checked) × (rows : List Bytes) × (texts natives : List TextArgument) × (validate_plan plan
      ≡ ok c)
    × (original.rows ≡ records texts)
    × ((native 3).rows ≡ records natives)
    × ReadAll texts (expected_initial c ∷ rows)
    × ReadAll natives rows
    × (length rows ≡ c.steps)
    × Steps c 1 0 rows 2
compare-Steps_example = compare-Steps plan original (native 3) equal compared
