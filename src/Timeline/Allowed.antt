-- ===== src/Timeline/Allowed.antt =====
-- tools/timeline_program.py, decode: the gates of a profile, and the instructions that they let in.
use nes2snes.Common.{ℕ, Bool, ◌&&◌, ◌||◌, leb, ltb, ◌==◌}
use nes2snes.Common.{Value}
use nes2snes.Opcodes.{Mnemonic, Mode}
use nes2snes.Timeline.{
  is_control, is_branch, is_regular, is_jmp, is_jsr, is_sta, is_lda, is_abs, is_ind, is_rel, is_imp,
  is_simple, is_indexed,
}

-- The gates after their checks.
pub record Gates : Type 0 where
  pub ram : Bool
  pub rom : Bool
  pub mapper : Bool
  pub cartridge_ram : Bool
  pub cpu_io : Bool
  pub ppu_blank : Bool
  pub chr_blank : Bool

-- `operand in mmc5_timeline.REGISTERS`
unfoldable pub is_register : ℕ → Bool
is_register operand =
    operand == 0x5100
    || operand == 0x5114
    || operand == 0x5115
    || operand == 0x5116
    || operand == 0x5117

-- `low <= operand < high`
abbrev pub within : ℕ → ℕ → ℕ → Bool
within low high operand = leb low operand && ltb operand high

unfoldable pub base_allowed : Mnemonic → Mode → ℕ → Bool
base_allowed name mode operand =
    (is_regular name && is_simple mode)
    || (is_regular name && (is_abs mode && ltb operand 512))
    || (is_control name && is_imp mode)
    || ((is_jmp name || is_jsr name) && is_abs mode)
    || (is_branch name && is_rel mode)

unfoldable pub ram_allowed : Mnemonic → Mode → ℕ → Bool
ram_allowed name mode operand =
    (is_regular name && is_indexed mode)
    || (is_regular name && (is_abs mode && ltb operand 0x2000))
    || (is_jmp name && (is_ind mode && ltb operand 0x2000))

unfoldable pub rom_allowed : Mnemonic → Mode → ℕ → Bool
rom_allowed name mode operand =
    (is_regular name && (is_abs mode && leb 0x8000 operand))
    || (is_jmp name && (is_ind mode && leb 0x8000 operand))

unfoldable pub mapper_allowed : Mnemonic → Mode → ℕ → Bool
unfolding is_register
mapper_allowed name mode operand = is_sta name && (is_abs mode && is_register operand)

unfoldable pub cartridge_allowed : Mnemonic → Mode → ℕ → Bool
cartridge_allowed name mode operand =
    (is_regular name && (is_abs mode && within 0x6000 0x8000 operand))
    || (is_jmp name && (is_ind mode && within 0x6000 0x8000 operand))
    || (is_sta name
        && (is_abs mode && (operand == 0x5102 || operand == 0x5103 || operand == 0x5113)))

unfoldable pub cpu_io_allowed : Mnemonic → Mode → ℕ → Bool
cpu_io_allowed name mode operand =
    (is_regular name && (is_abs mode && within 0x5c00 0x6000 operand))
    || (is_jmp name && (is_ind mode && within 0x5c00 0x6000 operand))
    || (is_sta name && (is_abs mode && operand == 0x5104))
    || ((is_lda name || is_sta name) && (is_abs mode && (operand == 0x5205 || operand == 0x5206)))

unfoldable pub chr_allowed : Mnemonic → Mode → ℕ → Bool
chr_allowed name mode operand =
    is_sta name
    && (is_abs mode && (operand == 0x5101 || operand == 0x5130 || within 0x5120 0x512c operand))

unfoldable pub ppu_allowed : Mnemonic → Mode → ℕ → Bool
ppu_allowed name mode operand =
    ((is_lda name || is_sta name) && (is_abs mode && within 0x2000 0x4000 operand))
    || (is_sta name
        && (is_abs mode && (operand == 0x5105 || operand == 0x5106 || operand == 0x5107)))

-- The variable `allowed` at the end of its assignments.
unfoldable pub allowed : Gates → Mnemonic → Mode → ℕ → Bool
unfolding base_allowed ram_allowed rom_allowed mapper_allowed cartridge_allowed cpu_io_allowed
    chr_allowed ppu_allowed
allowed g name mode operand =
    base_allowed name mode operand
    || (g.ram && ram_allowed name mode operand)
    || (g.rom && rom_allowed name mode operand)
    || (g.mapper && mapper_allowed name mode operand)
    || (g.cartridge_ram && cartridge_allowed name mode operand)
    || (g.cpu_io && cpu_io_allowed name mode operand)
    || (g.chr_blank && chr_allowed name mode operand)
    || (g.ppu_blank && ppu_allowed name mode operand)

-- The keyword arguments of `decode`, before their checks.
pub record GateArguments : Type 0 where
  pub ram : Value
  pub rom : Value
  pub mapper : Value
  pub cartridge_ram : Value
  pub cpu_io : Value
  pub ppu_blank : Value
  pub chr_blank : Value
