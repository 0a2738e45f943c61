-- ===== src/Route/Guard.antt =====
-- tools/route_evidence.py, guarded_update_pc: the entry behind the first guard of an NMI handler.
pub mod Straight
use nes2snes.Common.{ℕ, zero, suc, ◌+◌, ◌-◌, Bool, true, false, not, ◌&&◌, ◌||◌, Option, none, some}
use nes2snes.Common.{List, [], ◌∷◌, length, get_or, ltb, leb, ◌==◌, if◌then◌else◌, Bytes}
use nes2snes.Common.{Result, ok, err, ◌>>=◌, ◌>>◌, raise_if, Value, nat}
use nes2snes.Opcodes.{Mnemonic, Mode, Op, ops}
use nes2snes.Opcodes.Encode.{same_name, same_mode}

-- The two `ValueError`s.
pub data GuardError : Type 0 where
  no_fixed_bank no_entry : GuardError

-- `previous`: an instruction with its operand byte, if it has one.
pub record Previous : Type 0 where
  pub name : Mnemonic
  pub mode : Mode
  pub operand : Option ℕ

abbrev pub is : Mnemonic → Mnemonic → Bool
is name other = same_name name other

-- The names before which the search stops.
unfoldable pub stops : Mnemonic → Bool
stops name =
    is name Mnemonic.jmp
    || (is name Mnemonic.jsr
        || (is name Mnemonic.rti
            || (is name Mnemonic.rts || (is name Mnemonic.brk || is name Mnemonic.sed))))

-- A load of Y from the zero-page address `v`.
unfoldable pub loads_y : Option Previous → ℕ → Bool
loads_y none v = false
loads_y (some p) v =
    (is p.name Mnemonic.ldy && same_mode p.mode Mode.zp)
    && elim p.operand [ none ↦ false | some w ↦ v == w ]

-- The branch's target is at least `pc + 4` and at most 0xfff9; the operand is a signed byte.
unfoldable pub lands_forward : ℕ → ℕ → Bool
lands_forward pc operand =
    let target = (if ltb operand 128 then pc + 2 + operand else pc + 2 + operand - 256) in
    leb (pc + 4) target && leb target 0xfff9

-- What a relative branch at an offset answers: the loop ends there.
unfoldable pub guard_at : Bytes → ℕ → ℕ → Mnemonic → Option Previous → Result GuardError ℕ
unfolding loads_y lands_forward
guard_at prg off pc name previous =
    if is name Mnemonic.bne
      && (ltb (off + 3) (length prg)
          && (get_or prg (off + 2) 0 == 0xe6
              && (loads_y previous (get_or prg (off + 3) 0)
                  && lands_forward pc (get_or prg (off + 1) 0))))
    then ok (pc + 2)
    else err no_entry

-- `range(32)`, from a round
unfoldable pub guard_loop : ℕ → Bytes → ℕ → Option Previous → Result GuardError ℕ
unfolding stops guard_at
guard_loop zero prg pc previous = err no_entry
guard_loop (suc rounds) prg pc previous =
    let off = length prg - 0x2000 + pc - 0xe000 in
    if ltb 0xfff9 pc || leb (length prg) off then err no_entry else elim (ops (get_or prg off 0)) [
      | none ↦ err no_entry
      | some op ↦
          if ltb (length prg) (off + op.size)
          then err no_entry
          else elim (same_mode op.mode Mode.rel) [
            | true ↦ guard_at prg off pc op.name previous
            | false ↦ elim (stops op.name) [
              | true ↦ err no_entry
              | false ↦ guard_loop rounds prg (pc + op.size) (
                  some (record {
                    name = op.name;
                    mode = op.mode;
                    operand = (if ltb 1 op.size then some (get_or prg (off + 1) 0) else none);
                  }))
            ]
          ]
    ]

unfoldable pub guarded_update_pc : Bytes → Value → Result GuardError ℕ
unfolding guard_loop
guarded_update_pc prg (nat nmi) =
    if ltb (length prg) 0x2000 || not (leb 0xe000 nmi && leb nmi 0xfff9)
    then err no_fixed_bank
    else guard_loop 32 prg nmi none
guarded_update_pc prg v = err no_fixed_bank
