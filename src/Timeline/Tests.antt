-- ===== src/Timeline/Tests.antt =====
-- A timeline program of three instructions, its requests, and each theorem at them.
use nes2snes.Common.{ℕ, ◌≡◌, ◌≤◌, ◌↔◌, ◌⊎◌, refl, true, false, none, Option}
use nes2snes.Common.{List, [], ◌∷◌, length, map, ok, err, nat, bool, replicate}
use nes2snes.Opcodes.{Mnemonic, Mode, ops}
use nes2snes.Timeline.Events.{
  Event, list, entry, foreign, unknown_fields, not_increasing, too_many, as_entry, check_event,
  events_loop, validate_events, IsSchedule, validate_events_iff,
}
use nes2snes.Timeline.{
  is_regular, is_control, is_branch, is_simple, is_jmp, is_jsr, is_rel, is_imp, is_abs,
}
use nes2snes.Timeline.Allowed.{Gates}
use nes2snes.Timeline.Decode.{
  CodeArgument, code_bytes, StartsArgument, start_list, default_targets, target_set, Row, bad_gate,
  outside_contract, unobserved_target, check_gates, decode,
}
use nes2snes.Timeline.Accept.{IsListing, decode_iff}
use nes2snes.Timeline.Chain.{as_arguments, IsChain, check_gates-IsChain}

abbrev two_events : List Event
two_events =
    record { cycle = 10; irq = true; nmi = false }
    ∷ record { cycle = 11; irq = false; nmi = true }
    ∷ []

events_checked :
    (validate_events (list (map as_entry two_events)) ≡ ok two_events)
    × (validate_events (
          list
            (entry (nat 10) (bool true) (bool true) ∷ entry (nat 10) (bool true) (bool true) ∷ []))
        ≡ err not_increasing)
    × (validate_events (list (foreign ∷ [])) ≡ err unknown_fields)
    × (validate_events (list (replicate 65 foreign)) ≡ err too_many)
unfolding validate_events events_loop check_event as_entry
events_checked = (refl, refl, refl, refl)

validate_events_iff_example : (validate_events (list (map as_entry two_events)) ≡ ok two_events) ↔ (
    (list (map as_entry two_events) ≡ list (map as_entry two_events))
    × (length two_events ≤ 64)
    × IsSchedule 0 two_events)
validate_events_iff_example = validate_events_iff (list (map as_entry two_events)) two_events

-- No gate is open.
abbrev closed : Gates
closed = record {
  ram = false;
  rom = false;
  mapper = false;
  cartridge_ram = false;
  cpu_io = false;
  ppu_blank = false;
  chr_blank = false;
}

-- INX; BNE back to it; JMP to it.
abbrev program : CodeArgument
program = code_bytes (0xe8 ∷ 0xd0 ∷ 0xfd ∷ 0x4c ∷ 0x00 ∷ 0x90 ∷ [])

abbrev starts : StartsArgument
starts = start_list (nat 0x9000 ∷ nat 0x9001 ∷ nat 0x9003 ∷ [])

abbrev inx_row : Row
inx_row = record { pc = 0x9000; name = Mnemonic.inx; mode = Mode.imp; raw = 0xe8 ∷ []; operand = 0 }

abbrev bne_row : Row
bne_row = record {
  pc = 0x9001;
  name = Mnemonic.bne;
  mode = Mode.rel;
  raw = 0xd0 ∷ 0xfd ∷ [];
  operand = 0xfd;
}

abbrev jmp_row : Row
jmp_row = record {
  pc = 0x9003;
  name = Mnemonic.jmp;
  mode = Mode.abs;
  raw = 0x4c ∷ 0x00 ∷ 0x90 ∷ [];
  operand = 0x9000;
}

decoded :
    decode program (nat 0x9000) starts (as_arguments closed) default_targets
    ≡ ok (inx_row ∷ bne_row ∷ jmp_row ∷ [])
unfolding decode ops is_regular is_control is_branch is_simple is_jmp is_jsr is_rel is_imp is_abs
decoded = refl

refused :
    (decode program (nat 0x9000) starts (as_arguments closed) (target_set []) ≡ err bad_gate)
    × (decode program
          (nat 0x8000)
          (start_list (nat 0x8000 ∷ nat 0x8001 ∷ nat 0x8003 ∷ []))
          (as_arguments closed)
          default_targets
        ≡ err unobserved_target)
    × (decode
          (code_bytes (0xb5 ∷ 0 ∷ []))
          (nat 0x8000)
          (start_list (nat 0x8000 ∷ []))
          (as_arguments closed)
          default_targets
        ≡ err outside_contract)
unfolding decode ops is_regular is_control is_branch is_simple is_jmp is_jsr is_rel is_imp is_abs
refused = (refl, refl, refl)

decode_iff_example :
    (decode program (nat 0x9000) starts (as_arguments closed) default_targets
      ≡ ok (inx_row ∷ bne_row ∷ jmp_row ∷ []))
    ↔ IsListing program
        (nat 0x9000)
        starts
        (as_arguments closed)
        default_targets
        (inx_row ∷ bne_row ∷ jmp_row ∷ [])
decode_iff_example =
    decode_iff program (nat 0x9000) starts (as_arguments closed) default_targets
      (inx_row ∷ bne_row ∷ jmp_row ∷ [])

closed_checked : check_gates (as_arguments closed) default_targets ≡ ok (closed, none)
unfolding check_gates
closed_checked = refl

check_gates-IsChain_example :
    (as_arguments closed ≡ as_arguments closed)
    × IsChain closed
    × ((false ≡ true)
        ⊎ ((default_targets ≡ default_targets) × (◌≡◌ {A = Option (List ℕ)} none none)))
check_gates-IsChain_example =
    check_gates-IsChain (as_arguments closed) default_targets closed none closed_checked
