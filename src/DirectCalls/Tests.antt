-- ===== src/DirectCalls/Tests.antt =====
-- A program of three accesses, and the theorem at it.
use nes2snes.Common.{ℕ, ◌≡◌, refl, inl, true, false, arith, none, some, if◌then◌else◌, ◌==◌}
use nes2snes.Common.{Bytes, bytes_eq, List, [], ◌∷◌, All, length, get_or, ok, err}
use nes2snes.Opcodes.{Mode}
use nes2snes.Opcodes.Encode.{same_mode}
use nes2snes.DirectCalls.{
  Access, Selected, Options, Symbols, to_read, to_write, to_bank, to_mapper, to_apu, to_backing,
  handler_kind, site_kind, no_byte, not_cop, no_symbol, plan, apply,
}
use nes2snes.DirectCalls.Planned.{IsRegisterSite}
use nes2snes.DirectCalls.Applied.{IsApart, IsLinked, plan-apply}

kinds :
    (handler_kind 0xad 0x3ffa ≡ some (to_read, 0))
    × (handler_kind 0xad 0x2000 ≡ none)
    × (handler_kind 0x8e 0x5204 ≡ some (to_write, 11))
    × (handler_kind 0x8d 0x5116 ≡ none)
    × (handler_kind 0x8c 0x512b ≡ some (to_mapper, 0x512b))
    × (handler_kind 0x8d 0x4015 ≡ some (to_backing, 0x4015))
unfolding handler_kind
kinds = (refl, refl, refl, refl, refl, refl)

abbrev plain : Options
plain = record { bank_switches = false; audio_counters = false }

live :
    (site_kind (record { bank_switches = true; audio_counters = true }) 0x8d 0x5115
      ≡ some (to_bank, 0x5115))
    × (site_kind (record { bank_switches = true; audio_counters = true }) 0x8d 0x4017
        ≡ some (to_apu, 0x17))
unfolding site_kind
live = (refl, refl)

-- LDA $2002; STA $2005; STA $5115, of which the last selects a bank.
abbrev prg : Bytes
prg = 0xad ∷ 0x02 ∷ 0x20 ∷ 0x8d ∷ 0x05 ∷ 0x20 ∷ 0x8d ∷ 0x15 ∷ 0x51 ∷ []

abbrev access : ℕ → Access
access offset = record { prg_offset = offset; mode = Mode.abs }

abbrev sites : List Access
sites = access 0 ∷ access 3 ∷ access 6 ∷ []

abbrev selected : List Selected
selected =
    record { prg_offset = 0; opcode = 0xad; address = 0x2002; kind = to_read }
    ∷ record { prg_offset = 3; opcode = 0x8d; address = 0x2005; kind = to_write }
    ∷ []

planned : plan plain prg sites ≡ ok selected
unfolding plan same_mode
planned = refl

abbrev symbols : Symbols
symbols opcode address = if opcode == 0xad then some 0x1010 else some 0x1025

-- Each access as the COP that stands for it.
abbrev code : Bytes
code = 2 ∷ 0xad ∷ 0 ∷ 2 ∷ 0x8d ∷ 0 ∷ 2 ∷ 0x8d ∷ 0 ∷ []

abbrev called : Bytes
called = 0x20 ∷ 0x10 ∷ 0x10 ∷ 0x20 ∷ 0x25 ∷ 0x10 ∷ 2 ∷ 0x8d ∷ 0 ∷ []

applied : apply symbols code selected ≡ ok called
unfolding apply bytes_eq
applied = refl

refused :
    (plan plain prg (access 9 ∷ []) ≡ err no_byte)
    × (apply symbols prg selected ≡ err not_cop)
    × (apply (λ opcode address. none) code selected ≡ err no_symbol)
unfolding plan apply same_mode bytes_eq
refused = (refl, refl, refl)

plan-apply_example :
    All (IsRegisterSite plain prg) selected
    × (length called ≡ length code)
    × ((i : ℕ) → All (IsApart i) selected → get_or called i 0 ≡ get_or code i 0)
    × All (IsLinked symbols called) selected
plan-apply_example =
    plan-apply plain prg sites selected symbols code called planned (omega arith, (omega arith, tt))
      ((inl (omega arith), tt), (tt, tt)) applied
