-- ===== src/Opcodes.antt =====
-- tools/opcodes6502.py: the documented NMOS 6502 instructions. `SPEC` is a text of triples that the
-- source splits on spaces; here it is the list of those triples.
pub mod Facts
pub mod Encode
use nes2snes.Common.{ℕ, Bool, Option, none, some, List, [], ◌∷◌, ◌==◌, if◌then◌else◌}

pub data Mnemonic : Type 0 where
  brk ora asl php bpl clc jsr and bit rol plp bmi sec rti eor lsr : Mnemonic
  pha jmp bvc cli rts adc ror pla bvs sei sta sty stx dey txa bcc : Mnemonic
  tya txs ldy lda ldx tay tax bcs clv tsx cpy cmp dec iny dex bne : Mnemonic
  cld cpx sbc inc inx nop beq sed : Mnemonic

pub data Mode : Type 0 where
  imp acc imm zp zpx zpy ix iy rel abs absx absy ind : Mode

-- LENGTHS
unfoldable pub mode_length : Mode → ℕ
mode_length imp = 1
mode_length acc = 1
mode_length abs = 3
mode_length absx = 3
mode_length absy = 3
mode_length ind = 3
mode_length _ = 2

-- A value of the dictionary OPS.
pub record Op : Type 0 where
  pub name : Mnemonic
  pub mode : Mode
  pub size : ℕ

unfoldable pub spec : List (ℕ × Mnemonic × Mode)
spec =
    (0x00, brk, imp)
    ∷ (0x01, ora, ix)
    ∷ (0x05, ora, zp)
    ∷ (0x06, asl, zp)
    ∷ (0x08, php, imp)
    ∷ (0x09, ora, imm)
    ∷ (0x0a, asl, acc)
    ∷ (0x0d, ora, abs)
    ∷ (0x0e, asl, abs)
    ∷ (0x10, bpl, rel)
    ∷ (0x11, ora, iy)
    ∷ (0x15, ora, zpx)
    ∷ (0x16, asl, zpx)
    ∷ (0x18, clc, imp)
    ∷ (0x19, ora, absy)
    ∷ (0x1d, ora, absx)
    ∷ (0x1e, asl, absx)
    ∷ (0x20, jsr, abs)
    ∷ (0x21, and, ix)
    ∷ (0x24, bit, zp)
    ∷ (0x25, and, zp)
    ∷ (0x26, rol, zp)
    ∷ (0x28, plp, imp)
    ∷ (0x29, and, imm)
    ∷ (0x2a, rol, acc)
    ∷ (0x2c, bit, abs)
    ∷ (0x2d, and, abs)
    ∷ (0x2e, rol, abs)
    ∷ (0x30, bmi, rel)
    ∷ (0x31, and, iy)
    ∷ (0x35, and, zpx)
    ∷ (0x36, rol, zpx)
    ∷ (0x38, sec, imp)
    ∷ (0x39, and, absy)
    ∷ (0x3d, and, absx)
    ∷ (0x3e, rol, absx)
    ∷ (0x40, rti, imp)
    ∷ (0x41, eor, ix)
    ∷ (0x45, eor, zp)
    ∷ (0x46, lsr, zp)
    ∷ (0x48, pha, imp)
    ∷ (0x49, eor, imm)
    ∷ (0x4a, lsr, acc)
    ∷ (0x4c, jmp, abs)
    ∷ (0x4d, eor, abs)
    ∷ (0x4e, lsr, abs)
    ∷ (0x50, bvc, rel)
    ∷ (0x51, eor, iy)
    ∷ (0x55, eor, zpx)
    ∷ (0x56, lsr, zpx)
    ∷ (0x58, cli, imp)
    ∷ (0x59, eor, absy)
    ∷ (0x5d, eor, absx)
    ∷ (0x5e, lsr, absx)
    ∷ (0x60, rts, imp)
    ∷ (0x61, adc, ix)
    ∷ (0x65, adc, zp)
    ∷ (0x66, ror, zp)
    ∷ (0x68, pla, imp)
    ∷ (0x69, adc, imm)
    ∷ (0x6a, ror, acc)
    ∷ (0x6c, jmp, ind)
    ∷ (0x6d, adc, abs)
    ∷ (0x6e, ror, abs)
    ∷ (0x70, bvs, rel)
    ∷ (0x71, adc, iy)
    ∷ (0x75, adc, zpx)
    ∷ (0x76, ror, zpx)
    ∷ (0x78, sei, imp)
    ∷ (0x79, adc, absy)
    ∷ (0x7d, adc, absx)
    ∷ (0x7e, ror, absx)
    ∷ (0x81, sta, ix)
    ∷ (0x84, sty, zp)
    ∷ (0x85, sta, zp)
    ∷ (0x86, stx, zp)
    ∷ (0x88, dey, imp)
    ∷ (0x8a, txa, imp)
    ∷ (0x8c, sty, abs)
    ∷ (0x8d, sta, abs)
    ∷ (0x8e, stx, abs)
    ∷ (0x90, bcc, rel)
    ∷ (0x91, sta, iy)
    ∷ (0x94, sty, zpx)
    ∷ (0x95, sta, zpx)
    ∷ (0x96, stx, zpy)
    ∷ (0x98, tya, imp)
    ∷ (0x99, sta, absy)
    ∷ (0x9a, txs, imp)
    ∷ (0x9d, sta, absx)
    ∷ (0xa0, ldy, imm)
    ∷ (0xa1, lda, ix)
    ∷ (0xa2, ldx, imm)
    ∷ (0xa4, ldy, zp)
    ∷ (0xa5, lda, zp)
    ∷ (0xa6, ldx, zp)
    ∷ (0xa8, tay, imp)
    ∷ (0xa9, lda, imm)
    ∷ (0xaa, tax, imp)
    ∷ (0xac, ldy, abs)
    ∷ (0xad, lda, abs)
    ∷ (0xae, ldx, abs)
    ∷ (0xb0, bcs, rel)
    ∷ (0xb1, lda, iy)
    ∷ (0xb4, ldy, zpx)
    ∷ (0xb5, lda, zpx)
    ∷ (0xb6, ldx, zpy)
    ∷ (0xb8, clv, imp)
    ∷ (0xb9, lda, absy)
    ∷ (0xba, tsx, imp)
    ∷ (0xbc, ldy, absx)
    ∷ (0xbd, lda, absx)
    ∷ (0xbe, ldx, absy)
    ∷ (0xc0, cpy, imm)
    ∷ (0xc1, cmp, ix)
    ∷ (0xc4, cpy, zp)
    ∷ (0xc5, cmp, zp)
    ∷ (0xc6, dec, zp)
    ∷ (0xc8, iny, imp)
    ∷ (0xc9, cmp, imm)
    ∷ (0xca, dex, imp)
    ∷ (0xcc, cpy, abs)
    ∷ (0xcd, cmp, abs)
    ∷ (0xce, dec, abs)
    ∷ (0xd0, bne, rel)
    ∷ (0xd1, cmp, iy)
    ∷ (0xd5, cmp, zpx)
    ∷ (0xd6, dec, zpx)
    ∷ (0xd8, cld, imp)
    ∷ (0xd9, cmp, absy)
    ∷ (0xdd, cmp, absx)
    ∷ (0xde, dec, absx)
    ∷ (0xe0, cpx, imm)
    ∷ (0xe1, sbc, ix)
    ∷ (0xe4, cpx, zp)
    ∷ (0xe5, sbc, zp)
    ∷ (0xe6, inc, zp)
    ∷ (0xe8, inx, imp)
    ∷ (0xe9, sbc, imm)
    ∷ (0xea, nop, imp)
    ∷ (0xec, cpx, abs)
    ∷ (0xed, sbc, abs)
    ∷ (0xee, inc, abs)
    ∷ (0xf0, beq, rel)
    ∷ (0xf1, sbc, iy)
    ∷ (0xf5, sbc, zpx)
    ∷ (0xf6, inc, zpx)
    ∷ (0xf8, sed, imp)
    ∷ (0xf9, sbc, absy)
    ∷ (0xfd, sbc, absx)
    ∷ (0xfe, inc, absx)
    ∷ []

-- The dictionary comprehension OPS, read at one key.
unfoldable pub find : ℕ → List (ℕ × Mnemonic × Mode) → Option Op
unfolding mode_length
find k [] = none
find k ((o, n, m) ∷ rest) =
    let later = find k rest in
    if o == k then some (record { name = n; mode = m; size = mode_length m }) else later

-- OPS.get(opcode)
unfoldable pub ops : ℕ → Option Op
unfolding find spec
ops opcode = find opcode spec
