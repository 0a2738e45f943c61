-- ===== src/Timeline.antt =====
-- tools/timeline_program.py: what an authored timeline program may be. `decode` reads the program
-- and is in Timeline/Decode; here are the classes of instructions and the requests over time.
pub mod Decode
pub mod Allowed
pub mod Events
pub mod Listing
pub mod Accept
pub mod Chain
pub mod Plan
pub mod Compare
mod Tests
use nes2snes.Common.{
  ℕ, Bool, true, false, ◌&&◌, ◌||◌, not, List, [], ◌∷◌, ltb, leb, ◌==◌, if◌then◌else◌,
}
use nes2snes.Opcodes.{Mnemonic, Mode}

-- CONTROL
unfoldable pub is_control : Mnemonic → Bool
is_control Mnemonic.jmp = true
is_control Mnemonic.jsr = true
is_control Mnemonic.rts = true
is_control Mnemonic.rti = true
is_control Mnemonic.pha = true
is_control Mnemonic.php = true
is_control Mnemonic.pla = true
is_control Mnemonic.plp = true
is_control Mnemonic.tsx = true
is_control Mnemonic.txs = true
is_control Mnemonic.cli = true
is_control Mnemonic.sei = true
is_control Mnemonic.cld = true
is_control Mnemonic.sed = true
is_control _ = false

-- BRANCHES
unfoldable pub is_branch : Mnemonic → Bool
is_branch Mnemonic.bpl = true
is_branch Mnemonic.bmi = true
is_branch Mnemonic.bvc = true
is_branch Mnemonic.bvs = true
is_branch Mnemonic.bcc = true
is_branch Mnemonic.bcs = true
is_branch Mnemonic.bne = true
is_branch Mnemonic.beq = true
is_branch _ = false

-- REGULAR
unfoldable pub is_regular : Mnemonic → Bool
is_regular Mnemonic.lda = true
is_regular Mnemonic.ldx = true
is_regular Mnemonic.ldy = true
is_regular Mnemonic.sta = true
is_regular Mnemonic.stx = true
is_regular Mnemonic.sty = true
is_regular Mnemonic.adc = true
is_regular Mnemonic.sbc = true
is_regular Mnemonic.cmp = true
is_regular Mnemonic.cpx = true
is_regular Mnemonic.cpy = true
is_regular Mnemonic.and = true
is_regular Mnemonic.ora = true
is_regular Mnemonic.eor = true
is_regular Mnemonic.bit = true
is_regular Mnemonic.asl = true
is_regular Mnemonic.lsr = true
is_regular Mnemonic.rol = true
is_regular Mnemonic.ror = true
is_regular Mnemonic.inc = true
is_regular Mnemonic.dec = true
is_regular Mnemonic.clc = true
is_regular Mnemonic.sec = true
is_regular Mnemonic.clv = true
is_regular Mnemonic.tax = true
is_regular Mnemonic.tay = true
is_regular Mnemonic.txa = true
is_regular Mnemonic.tya = true
is_regular Mnemonic.inx = true
is_regular Mnemonic.iny = true
is_regular Mnemonic.dex = true
is_regular Mnemonic.dey = true
is_regular Mnemonic.nop = true
is_regular _ = false

unfoldable pub is_jmp : Mnemonic → Bool
is_jmp Mnemonic.jmp = true
is_jmp _ = false

unfoldable pub is_jsr : Mnemonic → Bool
is_jsr Mnemonic.jsr = true
is_jsr _ = false

unfoldable pub is_sta : Mnemonic → Bool
is_sta Mnemonic.sta = true
is_sta _ = false

unfoldable pub is_lda : Mnemonic → Bool
is_lda Mnemonic.lda = true
is_lda _ = false

unfoldable pub is_abs : Mode → Bool
is_abs Mode.abs = true
is_abs _ = false

unfoldable pub is_ind : Mode → Bool
is_ind Mode.ind = true
is_ind _ = false

unfoldable pub is_rel : Mode → Bool
is_rel Mode.rel = true
is_rel _ = false

unfoldable pub is_imp : Mode → Bool
is_imp Mode.imp = true
is_imp _ = false

-- `mode in ('imp', 'imm', 'acc', 'zp')`
unfoldable pub is_simple : Mode → Bool
is_simple Mode.imp = true
is_simple Mode.imm = true
is_simple Mode.acc = true
is_simple Mode.zp = true
is_simple _ = false

-- `mode in ('zpx', 'zpy', 'absx', 'absy', 'ix', 'iy')`
unfoldable pub is_indexed : Mode → Bool
is_indexed Mode.zpx = true
is_indexed Mode.zpy = true
is_indexed Mode.absx = true
is_indexed Mode.absy = true
is_indexed Mode.ix = true
is_indexed Mode.iy = true
is_indexed _ = false
