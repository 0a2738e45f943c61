-- ===== src/GuestCycles/Tests.antt =====
-- Runs of the cycle accounting, and each of its theorems at an input.
use nes2snes.Common.{
  ℕ, ◌≤◌, ◌≡◌, refl, arith, true, false, Option, none, some, List, [], ◌∷◌, inl, inr,
}
use nes2snes.Common.{ok, err, nat}
use nes2snes.Opcodes.{Op, lda, bne, iy, rel, ops}
use nes2snes.GuestCycles.{
  undocumented, no_pointer, branch, op_metadata, cost, documented, check, adjusted_cost,
}
use nes2snes.GuestCycles.Bounds.{
  Fields, to_instruction, IsInRange, cost-branch, cost-indexed, next_pc,
}
use nes2snes.GuestCycles.Admitted.{cost-admitted, cost_bounds}
use nes2snes.GuestCycles.Window.{
  Row, Retired, Entries, Summary, irq, gap, bad_record, empty_window, account_window, read_row,
  link, retire, entry_kind, entries_valid,
}
use nes2snes.GuestCycles.Window.Chain.{IsLedger, IsChain, Reads, account_window-IsLedger}
use nes2snes.GuestCycles.Window.Complete.{account_window_complete}

abbrev load : Op
load = record { name = lda; mode = iy; size = 2 }

abbrev loop : Op
loop = record { name = bne; mode = rel; size = 2 }

-- LDA ($10),Y with the pointer $80f0 and Y = $20.
abbrev load_fields : Fields
load_fields = record {
  opcode = 0xb1;
  pc = 0x9000;
  operand = 0x10;
  p = 0;
  x = 0;
  y = 0x20;
  pointer = some 0x80f0;
}

-- BNE to the page before.
abbrev loop_fields : Fields
loop_fields = record {
  opcode = 0xd0;
  pc = 0x9000;
  operand = 0xf0;
  p = 0;
  x = 0;
  y = 0;
  pointer = none;
}

costs :
    (cost (to_instruction load_fields) ≡ ok 6)
    × (cost (to_instruction loop_fields) ≡ ok 4)
    × (cost (record (to_instruction loop_fields) { opcode = nat 2 }) ≡ err undocumented)
    × (cost (record (to_instruction load_fields) { pointer = none }) ≡ err no_pointer)
unfolding cost documented op_metadata check adjusted_cost ops
costs = (refl, refl, refl, refl)

load-IsInRange : IsInRange load load_fields
unfolding ops
load-IsInRange = record {
  known = refl;
  pc_word = omega arith;
  operand_word = omega arith;
  p_byte = omega arith;
  x_byte = omega arith;
  y_byte = omega arith;
  pointer_word = omega arith;
  narrow = λ two. omega arith;
}

loop-IsInRange : IsInRange loop loop_fields
unfolding ops
loop-IsInRange = record {
  known = refl;
  pc_word = omega arith;
  operand_word = omega arith;
  p_byte = omega arith;
  x_byte = omega arith;
  y_byte = omega arith;
  pointer_word = tt;
  narrow = λ two. omega arith;
}

cost-branch_example : cost (to_instruction loop_fields) ≡ ok 4
unfolding branch
cost-branch_example = cost-branch loop_fields 0x02 false loop-IsInRange refl

cost-indexed_example : cost (to_instruction load_fields) ≡ ok 6
unfolding op_metadata
cost-indexed_example =
    cost-indexed load_fields {base = 5} {adjustment = 3} load-IsInRange refl
      (omega arith, omega arith)

cost_bounds_example : (2 ≤ 6) × (6 ≤ 7)
cost_bounds_example = cost_bounds (to_instruction load_fields) costs.0

cost-admitted_example :
    (op : Op) × (f : Fields) × (to_instruction load_fields ≡ to_instruction f) × IsInRange op f
cost-admitted_example = cost-admitted (to_instruction load_fields) costs.0

-- Three instructions, the last of them the first of a handler.
abbrev row_at : ℕ → ℕ → ℕ → ℕ → ℕ → Row
row_at start end pc next_pc opcode = record {
  start = nat start;
  end = nat end;
  pc = nat pc;
  operand = nat 0x10;
  pointer = nat 0x80f0;
  next_pc = nat next_pc;
  opcode = nat opcode;
  p = nat 0;
  x = nat 0;
  y = nat 0x20;
  a = nat 0;
  s = nat 0xfd;
  valid = nat 1;
  reserved = nat 0;
}

abbrev window : List (Option Row)
window =
    some (row_at 100 106 0x9000 0x9002 0xb1)
    ∷ some (row_at 106 108 0x9002 0x9003 0xea)
    ∷ some (row_at 115 117 0xe000 0xe001 0x78)
    ∷ []

abbrev handlers : Entries
handlers = (nat 0xe000, irq) ∷ []

abbrev summary : Summary
summary = record {
  instructions = 3;
  instruction_cycles = 10;
  interrupt_cycles = 7;
  interrupts = record { before_record = 2; kind = irq; cycles = 7 } ∷ [];
  span_cycles = 17;
  first_timestamp = 100;
  last_timestamp = 117;
}

accepted : account_window window handlers ≡ ok summary
unfolding account_window read_row link retire entries_valid entry_kind cost documented op_metadata
    check adjusted_cost ops
accepted = refl

refused :
    (account_window window [] ≡ err gap)
    × (account_window (none ∷ window) handlers ≡ err bad_record)
    × (account_window [] handlers ≡ err empty_window)
unfolding account_window read_row link retire entries_valid entry_kind cost documented op_metadata
    check adjusted_cost ops
refused = (refl, refl, refl)

abbrev first : Retired
first = record { start = 100; end = 106; pc = 0x9000; next_pc = 0x9002; cycles = 6 }

abbrev rest : List Retired
rest =
    record { start = 106; end = 108; pc = 0x9002; next_pc = 0x9003; cycles = 2 }
    ∷ record { start = 115; end = 117; pc = 0xe000; next_pc = 0xe001; cycles = 2 }
    ∷ []

account_window-IsLedger_example :
    (first : Retired) × (rest : List Retired) × Reads window (first ∷ rest)
    × IsChain handlers first rest
    × IsLedger first rest summary
account_window-IsLedger_example = account_window-IsLedger window handlers accepted

window-Reads : Reads window (first ∷ rest)
unfolding read_row cost documented op_metadata check adjusted_cost ops
window-Reads = (refl, (refl, (refl, tt)))

window-IsChain : IsChain handlers first rest
unfolding entry_kind
window-IsChain = (inl (refl, refl), (inr (refl, λ e. cc), tt))

handlers_valid : entries_valid handlers ≡ true
unfolding entries_valid
handlers_valid = refl

account_window_complete_example :
    (s : Summary) × (account_window window handlers ≡ ok s) × IsLedger first rest s
account_window_complete_example =
    account_window_complete window handlers first rest handlers_valid window-Reads window-IsChain
