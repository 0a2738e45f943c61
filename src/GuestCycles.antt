-- ===== src/GuestCycles.antt =====
-- tools/guest_cycles.py: the cycles of one original instruction.
pub mod Window
pub mod Metadata
pub mod Bounds
pub mod Pages
pub mod Admitted
mod Tests
use nes2snes.Common.{
  ℕ, ◌+◌, ◌-◌, bit_and, bit_xor, Bool, true, false, not, ◌&&◌, Option, none, some,
}
use nes2snes.Common.{ltb, ◌==◌, if◌then◌else◌}
use nes2snes.Common.{Result, ok, err, ◌>>=◌, ◌>>◌, raise_if, Value, nat, in_range}
use nes2snes.Opcodes.{
  Mnemonic, Mode, Op, ops, brk, jsr, rti, rts, php, pha, plp, pla, jmp, bpl, bmi, bvc, bvs, bcc,
  bcs, bne, beq, asl, lsr, rol, ror, inc, dec, sta, stx, sty, imp, acc, imm, zp, zpx, zpy, abs,
  absx, absy, ix, iy, ind,
}

-- The `ValueError`s by what their messages name, and the `KeyError` of a dictionary read.
pub data CycleError : Type 0 where
  undocumented key_error wide_operand no_pointer : CycleError
  bad_pc bad_operand bad_p bad_x bad_y bad_pointer : CycleError

-- SPECIAL
unfoldable pub special : Mnemonic → Option ℕ
special brk = some 7
special jsr = some 6
special rti = some 6
special rts = some 6
special php = some 3
special pha = some 3
special plp = some 4
special pla = some 4
special _ = none

-- BRANCHES: the flag's mask, and the value of the flag on which the branch is taken.
unfoldable pub branch : Mnemonic → Option (ℕ × Bool)
branch bpl = some (0x80, false)
branch bmi = some (0x80, true)
branch bvc = some (0x40, false)
branch bvs = some (0x40, true)
branch bcc = some (0x01, false)
branch bcs = some (0x01, true)
branch bne = some (0x02, false)
branch beq = some (0x02, true)
branch _ = none

unfoldable pub is_rmw : Mnemonic → Bool
is_rmw asl = true
is_rmw lsr = true
is_rmw rol = true
is_rmw ror = true
is_rmw inc = true
is_rmw dec = true
is_rmw _ = false

unfoldable pub is_store : Mnemonic → Bool
is_store sta = true
is_store stx = true
is_store sty = true
is_store _ = false

-- READ
unfoldable pub read_cycles : Mode → Option ℕ
read_cycles imm = some 2
read_cycles zp = some 3
read_cycles zpx = some 4
read_cycles zpy = some 4
read_cycles abs = some 4
read_cycles absx = some 4
read_cycles absy = some 4
read_cycles ix = some 6
read_cycles iy = some 5
read_cycles _ = none

unfoldable pub rmw_cycles : Mode → Option ℕ
rmw_cycles zp = some 5
rmw_cycles zpx = some 6
rmw_cycles abs = some 6
rmw_cycles absx = some 7
rmw_cycles _ = none

unfoldable pub store_cycles : Mode → Option ℕ
store_cycles zp = some 3
store_cycles zpx = some 4
store_cycles zpy = some 4
store_cycles abs = some 4
store_cycles absx = some 5
store_cycles absy = some 5
store_cycles ix = some 6
store_cycles iy = some 6
store_cycles _ = none

unfoldable pub read_adjustment : Mode → ℕ
read_adjustment absx = 1
read_adjustment absy = 2
read_adjustment iy = 3
read_adjustment _ = 0

-- `{...}[mode]`
abbrev pub at_key : Option ℕ → ℕ → Result CycleError (ℕ × ℕ)
at_key (some base) adjustment = ok (base, adjustment)
at_key none adjustment = err key_error

unfoldable pub is_implied : Mode → Bool
is_implied imp = true
is_implied acc = true
is_implied _ = false

unfoldable pub is_indirect : Mode → Bool
is_indirect ind = true
is_indirect _ = false

unfoldable pub is_jump : Mnemonic → Bool
is_jump jmp = true
is_jump _ = false

-- The ladder of `metadata` below the lookups in SPECIAL and BRANCHES.
unfoldable pub plain_metadata : Mnemonic → Mode → Result CycleError (ℕ × ℕ)
unfolding is_implied is_rmw is_store rmw_cycles store_cycles read_cycles read_adjustment
plain_metadata name mode =
    if is_implied mode
    then ok (2, 0)
    else if is_rmw name
    then at_key (rmw_cycles mode) 0
    else if is_store name
    then at_key (store_cycles mode) 0
    else at_key (read_cycles mode) (read_adjustment mode)

unfoldable pub op_metadata : Op → Result CycleError (ℕ × ℕ)
unfolding special branch is_jump is_indirect plain_metadata
op_metadata op = elim (special op.name) [
  | some cycles ↦ ok (cycles, 0)
  | none ↦
      if is_jump op.name
      then ok ((if is_indirect op.mode then 5 else 3), 0)
      else elim (branch op.name) [ some _ ↦ ok (2, 4) | none ↦ plain_metadata op.name op.mode ]
]

-- `OPS[opcode]`, if `type(opcode) is int and opcode in OPS`
unfoldable pub documented : Value → Result CycleError Op
documented (nat opcode) = elim (ops opcode) [ some op ↦ ok op | none ↦ err undocumented ]
documented v = err undocumented

-- (base cycles, adjustment: fixed=0, absX=1, absY=2, indY=3, branch=4)
unfoldable pub metadata : Value → Result CycleError (ℕ × ℕ)
metadata opcode = documented opcode >>= op_metadata

-- The value of a field that passes its range check.
abbrev pub integer : Value → ℕ → CycleError → Result CycleError ℕ
integer value maximum e = elim (in_range value maximum) [ some n ↦ ok n | none ↦ err e ]

pub record Instruction : Type 0 where
  pub opcode : Value
  pub pc : Value
  pub operand : Value
  pub p : Value
  pub x : Value
  pub y : Value
  pub pointer : Option Value

-- The numbers that `cost` computes with, once the checks have passed.
pub record Checked : Type 0 where
  pub op : Op
  pub pc : ℕ
  pub operand : ℕ
  pub p : ℕ
  pub x : ℕ
  pub y : ℕ
  pub pointer : Option ℕ

unfoldable pub check_pointer : Option Value → Result CycleError (Option ℕ)
check_pointer none = ok none
check_pointer (some v) = do n ← integer v 65535 bad_pointer; ok (some n)

unfoldable pub check : Op → Instruction → Result CycleError Checked
unfolding check_pointer
check op i = do
  pc ← integer i.pc 65535 bad_pc
  operand ← integer i.operand 65535 bad_operand
  p ← integer i.p 255 bad_p
  x ← integer i.x 255 bad_x
  y ← integer i.y 255 bad_y
  pointer ← check_pointer i.pointer
  raise_if (op.size == 2 && ltb 255 operand) wide_operand
  ok (record { op = op; pc = pc; operand = operand; p = p; x = x; y = y; pointer = pointer })

-- `int(test)`
abbrev pub from_bool : Bool → ℕ
from_bool b = if b then 1 else 0

-- The address of a taken branch: `displacement` is operand - 256 from 128 on.
unfoldable pub branch_target : ℕ → ℕ → ℕ
branch_target following operand =
    if ltb operand 128
    then bit_and (following + operand) 65535
    else bit_and (following + operand + 65536 - 256) 65535

abbrev pub following : ℕ → ℕ
following pc = bit_and (pc + 2) 65535

abbrev pub bool_eq : Bool → Bool → Bool
bool_eq true b = b
bool_eq false b = not b

unfoldable pub branch_cost : ℕ → ℕ × Bool → Checked → ℕ
unfolding branch_target
branch_cost base (mask, sense) c =
    if not (bool_eq (not (bit_and c.p mask == 0)) sense)
    then base
    else base
      + 1
      + from_bool (
          not (
            bit_and (bit_xor (following c.pc) (branch_target (following c.pc) c.operand)) 0xff00
            == 0))

-- `int((address & 255) + index > 255)`
abbrev pub crossing : ℕ → ℕ → ℕ
crossing address index = from_bool (ltb 255 (bit_and address 255 + index))

unfoldable pub indexed_cost : ℕ → ℕ → Checked → Result CycleError ℕ
indexed_cost base adjustment c =
    if adjustment == 3
    then elim c.pointer [ none ↦ err no_pointer | some pointer ↦ ok (base + crossing pointer c.y) ]
    else ok (base + crossing c.operand (if adjustment == 1 then c.x else c.y))

unfoldable pub adjusted_cost : ℕ → ℕ → Checked → Result CycleError ℕ
unfolding branch branch_cost indexed_cost
adjusted_cost base adjustment c =
    if adjustment == 4
    then elim (branch c.op.name) [ some b ↦ ok (branch_cost base b c) | none ↦ err key_error ]
    else if adjustment == 0
    then ok base
    else indexed_cost base adjustment c

-- Instruction.cost
unfoldable pub cost : Instruction → Result CycleError ℕ
cost i = do
  op ← documented i.opcode
  (base, adjustment) ← op_metadata op
  c ← check op i
  adjusted_cost base adjustment c
