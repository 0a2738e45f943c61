-- ===== src/GuestCycles/Window.antt =====
-- `account_window` of tools/guest_cycles.py: the ledger of a complete instruction window.
pub mod Rows
pub mod Chain
pub mod Complete
use nes2snes.Common.{ℕ, ◌+◌, ◌-◌, ◌^◌, bit_and, Bool, true, false, not, ◌&&◌, Option, none, some}
use nes2snes.Common.{List, [], ◌∷◌, ◌++◌, length, leb, ◌==◌, if◌then◌else◌}
use nes2snes.Common.{Result, ok, err, ◌>>=◌, ◌>>◌, raise_if, Value, nat, in_range}
use nes2snes.Opcodes.{ops}
use nes2snes.GuestCycles.{CycleError, Instruction, cost}

pub data WindowError : Type 0 where
  empty_window bad_entries bad_record not_cartridge out_of_range : WindowError
  duration gap discontinuity not_closed : WindowError
  instruction : CycleError → WindowError

-- `other_kind` is a value of the mapping that is neither 'nmi' nor 'irq'.
pub data Kind : Type 0 where
  nmi irq other_kind : Kind

-- A record of the window, with the keys that the code requires.
pub record Row : Type 0 where
  pub start : Value
  pub end : Value
  pub pc : Value
  pub operand : Value
  pub pointer : Value
  pub next_pc : Value
  pub opcode : Value
  pub p : Value
  pub x : Value
  pub y : Value
  pub a : Value
  pub s : Value
  pub valid : Value
  pub reserved : Value

-- What the ledger needs of a record that has passed its checks.
pub record Retired : Type 0 where
  pub start : ℕ
  pub end : ℕ
  pub pc : ℕ
  pub next_pc : ℕ
  pub cycles : ℕ

pub record Interrupt : Type 0 where
  pub before_record : ℕ
  pub kind : Kind
  pub cycles : ℕ

abbrev pub Entries : Type 0
Entries = List (Value × Kind)

-- `type(value) is int and value == k`
unfoldable pub is_int : Value → ℕ → Bool
is_int (nat n) k = n == k
is_int v k = false

-- `type(pc) is int and 0x8000 <= pc <= 0xFFFD`
unfoldable pub cartridge_pc : Value → Bool
cartridge_pc (nat pc) = leb 0x8000 pc && leb pc 0xfffd
cartridge_pc v = false

unfoldable pub known_kind : Kind → Bool
known_kind nmi = true
known_kind irq = true
known_kind other_kind = false

unfoldable pub entries_valid : Entries → Bool
unfolding cartridge_pc known_kind
entries_valid [] = true
entries_valid ((pc, kind) ∷ rest) = (cartridge_pc pc && known_kind kind) && entries_valid rest

-- `interrupt_entries.get(pc)`
unfoldable pub entry_kind : Entries → ℕ → Option Kind
unfolding is_int
entry_kind [] pc = none
entry_kind ((v, kind) ∷ rest) pc =
    let later = entry_kind rest pc in if is_int v pc then some kind else later

abbrev pub integer : Value → ℕ → Result WindowError ℕ
integer value maximum = elim (in_range value maximum) [ some n ↦ ok n | none ↦ err out_of_range ]

unfoldable pub op_size : Value → ℕ
op_size (nat opcode) = elim (ops opcode) [ some op ↦ op.size | none ↦ 0 ]
op_size v = 0

abbrev pub own_operand : ℕ → ℕ → ℕ
own_operand size operand =
    if size == 3 then operand else if size == 2 then bit_and operand 255 else 0

abbrev pub lift_cost : Result CycleError ℕ → Result WindowError ℕ
lift_cost (ok n) = ok n
lift_cost (err e) = err (instruction e)

abbrev pub row_instruction : Row → ℕ → Instruction
row_instruction row operand = record {
  opcode = row.opcode;
  pc = row.pc;
  operand = nat (own_operand (op_size row.opcode) operand);
  p = row.p;
  x = row.x;
  y = row.y;
  pointer = some row.pointer;
}

-- The check of a record's duration. Over the integers, `end - start != cost` is
-- `end != start + cost`.
unfoldable pub time_row : ℕ → ℕ → ℕ → ℕ → Result WindowError ℕ → Result WindowError Retired
time_row start end pc next_pc instruction_cost = do
  cycles ← instruction_cost
  raise_if (not (end == start + cycles)) duration
  ok (record { start = start; end = end; pc = pc; next_pc = next_pc; cycles = cycles })

-- The checks of one record, up to that of its duration; `none` is a malformed record.
unfoldable pub read_row : Option Row → Result WindowError Retired
unfolding is_int op_size time_row
read_row none = err bad_record
read_row (some row) = do
  raise_if (not (is_int row.valid 1 && is_int row.reserved 0)) bad_record
  start ← integer row.start (2 ^ 64 - 1)
  end ← integer row.end (2 ^ 64 - 1)
  pc ← integer row.pc 65535
  operand ← integer row.operand 65535
  pointer ← integer row.pointer 65535
  next_pc ← integer row.next_pc 65535
  raise_if (not (leb 0x8000 pc && leb pc 0xfffd)) not_cartridge
  opcode ← integer row.opcode 255
  p ← integer row.p 255
  x ← integer row.x 255
  y ← integer row.y 255
  a ← integer row.a 255
  s ← integer row.s 255
  time_row start end pc next_pc (lift_cost (cost (row_instruction row operand)))

-- The time between a record and the one before it: none, or the entry of an interrupt handler.
unfoldable pub link : Entries → ℕ → Retired → Retired → Result WindowError (Option Interrupt)
link entries index before r =
    if r.start == before.end
    then if before.next_pc == r.pc then ok none else err discontinuity
    else if not (r.start == before.end + 7)
    then err gap
    else elim (entry_kind entries r.pc) [
      | none ↦ err gap
      | some kind ↦ ok (some (record { before_record = index; kind = kind; cycles = 7 }))
    ]

-- The variables of the loop.
pub record Ledger : Type 0 where
  pub index : ℕ
  pub execution : ℕ
  pub interrupt_cycles : ℕ
  pub interrupts : List Interrupt
  pub last : Retired

unfoldable pub add_interrupt : Option Interrupt → Ledger → Ledger
add_interrupt none l = l
add_interrupt (some i) l = record l {
  interrupts = l.interrupts ++ i ∷ [];
  interrupt_cycles = l.interrupt_cycles + 7;
}

unfoldable pub retire : Ledger → Retired → Option Interrupt → Ledger
unfolding add_interrupt
retire l r i =
    let l' = add_interrupt i l in
    record l' { index = l'.index + 1; execution = l'.execution + r.cycles; last = r }

-- The rounds of the loop after the first.
unfoldable pub ledger_loop : Entries → Ledger → List (Option Row) → Result WindowError Ledger
ledger_loop entries l [] = ok l
ledger_loop entries l (row ∷ rows) = do
  r ← read_row row
  interrupt ← link entries l.index l.last r
  ledger_loop entries (retire l r interrupt) rows

pub record Summary : Type 0 where
  pub instructions : ℕ
  pub instruction_cycles : ℕ
  pub interrupt_cycles : ℕ
  pub interrupts : List Interrupt
  pub span_cycles : ℕ
  pub first_timestamp : ℕ
  pub last_timestamp : ℕ

abbrev pub first_ledger : Retired → Ledger
first_ledger r = record {
  index = 1;
  execution = r.cycles;
  interrupt_cycles = 0;
  interrupts = [];
  last = r;
}

-- Over the integers, `execution + interrupt_cycles != span`.
unfoldable pub close : ℕ → Retired → Ledger → Result WindowError Summary
close count first l = do
  raise_if (not (first.start + (l.execution + l.interrupt_cycles) == l.last.end)) not_closed
  ok (record {
    instructions = count;
    instruction_cycles = l.execution;
    interrupt_cycles = l.interrupt_cycles;
    interrupts = l.interrupts;
    span_cycles = l.last.end - first.start;
    first_timestamp = first.start;
    last_timestamp = l.last.end;
  })

unfoldable pub account_window : List (Option Row) → Entries → Result WindowError Summary
unfolding ledger_loop close
account_window [] entries = err empty_window
account_window (row ∷ rows) entries = do
  raise_if (not (entries_valid entries)) bad_entries
  first ← read_row row
  l ← ledger_loop entries (first_ledger first) rows
  close (length (row ∷ rows)) first l
