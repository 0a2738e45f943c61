-- ===== src/GuestCycles/Admitted.antt =====
-- `cost` answers exactly for the instructions whose fields are in range.
use nes2snes.Common.{ℕ, ◌+◌, ◌≤◌, ◌≡◌, ◌≢◌, refl, arith, Option, none, some}
use nes2snes.Common.{ok, >>=-eq-ok, Value, int, nat, negsuc, bool, other}
use native.Mathlib.Decide.{ℕ_discrete}
use nes2snes.Opcodes.{Op, ops}
use nes2snes.GuestCycles.{
  bad_pc, bad_operand, bad_p, bad_x, bad_y, bad_pointer, CycleError, Instruction, Checked,
  op_metadata, documented, check, check_pointer, integer, adjusted_cost, branch_cost, indexed_cost,
  cost,
}
use nes2snes.GuestCycles.Metadata.{op_metadata-total}
use nes2snes.GuestCycles.Bounds.{Fields, to_value, to_instruction, BelowWord, IsInRange}

integer_ok :
    (v : Value) (maximum : ℕ) (e : CycleError) {n : ℕ}
    → integer v maximum e ≡ ok n
    → (v ≡ nat n) × (n ≤ maximum)
integer_ok (nat m) maximum e h = ground arith
integer_ok (int (negsuc m)) maximum e h = cc
integer_ok (bool b) maximum e h = cc
integer_ok other maximum e h = cc

documented_ok :
    (v : Value) {op : Op} → documented v ≡ ok op → (k : ℕ) × (v ≡ nat k) × (ops k ≡ some op)
unfolding documented
documented_ok (nat m) h = (m, refl, ground arith)
documented_ok (int (negsuc m)) h = cc
documented_ok (bool b) h = cc
documented_ok other h = cc

check_pointer_ok :
    (v : Option Value) (o : Option ℕ) → check_pointer v ≡ ok o → (v ≡ to_value o) × BelowWord o
unfolding check_pointer
check_pointer_ok none none h = (refl, tt)
check_pointer_ok none (some n) h = cc
check_pointer_ok (some v) none h = let (n, a, e) = >>=-eq-ok (integer v 65535 bad_pointer) _ h in cc
check_pointer_ok (some v) (some m) h =
    let (n, a, e) = >>=-eq-ok (integer v 65535 bad_pointer) _ h in
    let (shape, low) = integer_ok v 65535 bad_pointer a in (ground arith, ground arith)

check_ok :
    (op : Op) (i : Instruction) {c : Checked} (k : ℕ)
    → i.opcode ≡ nat k
    → ops k ≡ some op
    → check op i ≡ ok c
    → (f : Fields) × (i ≡ to_instruction f) × IsInRange op f
unfolding check
check_ok op i {c} k e known h =
    let (pc, pc_read, h1) = >>=-eq-ok (integer i.pc 65535 bad_pc) _ h in
    let (operand, operand_read, h2) = >>=-eq-ok (integer i.operand 65535 bad_operand) _ h1 in
    let (p, p_read, h3) = >>=-eq-ok (integer i.p 255 bad_p) _ h2 in
    let (x, x_read, h4) = >>=-eq-ok (integer i.x 255 bad_x) _ h3 in
    let (y, y_read, h5) = >>=-eq-ok (integer i.y 255 bad_y) _ h4 in
    let (pointer, pointer_read, h6) = >>=-eq-ok (check_pointer i.pointer) _ h5 in
    let (pc_shape, pc_low) = integer_ok i.pc 65535 bad_pc pc_read in
    let (operand_shape, operand_low) = integer_ok i.operand 65535 bad_operand operand_read in
    let (p_shape, p_low) = integer_ok i.p 255 bad_p p_read in
    let (x_shape, x_low) = integer_ok i.x 255 bad_x x_read in
    let (y_shape, y_low) = integer_ok i.y 255 bad_y y_read in
    let (pointer_shape, pointer_low) = check_pointer_ok i.pointer pointer pointer_read in
    (
      record { opcode = k; pc = pc; operand = operand; p = p; x = x; y = y; pointer = pointer },
      cc,
      record {
        known = known;
        pc_word = omega arith;
        operand_word = omega arith;
        p_byte = omega arith;
        x_byte = omega arith;
        y_byte = omega arith;
        pointer_word = pointer_low;
        narrow = λ two. ground arith;
      },
    )

-- An instruction that gets a cost has an opcode of the table, and numbers in the checked ranges for
-- all its fields.
pub cost-admitted :
    (i : Instruction) {n : ℕ}
    → cost i ≡ ok n
    → (op : Op) × (f : Fields) × (i ≡ to_instruction f) × IsInRange op f
unfolding cost
cost-admitted i h =
    let (op, d, h1) = >>=-eq-ok (documented i.opcode) _ h in
    let (m, b, h2) = >>=-eq-ok (op_metadata op) _ h1 in
    let (c, k, h3) = >>=-eq-ok (check op i) _ h2 in
    let (code, e, known) = documented_ok i.opcode d in
    let (f, shape, ranges) = check_ok op i code e known k in (op, f, shape, ranges)

adjusted_bounds :
    (base adjustment : ℕ) (c : Checked) {n : ℕ}
    → adjusted_cost base adjustment c ≡ ok n
    → (base ≤ n) × (n ≤ base + 2) × (adjustment ≡ 0 → n ≡ base) × (adjustment ≢ 4 → n ≤ base + 1)
unfolding adjusted_cost branch_cost indexed_cost
adjusted_bounds base adjustment c h =
    (ground arith, ground arith, (λ z. ground arith), λ f. ground arith)

-- An admitted instruction takes two to seven cycles.
pub cost_bounds : (i : Instruction) {n : ℕ} → cost i ≡ ok n → (2 ≤ n) × (n ≤ 7)
unfolding cost
cost_bounds i h =
    let (op, d, h1) = >>=-eq-ok (documented i.opcode) _ h in
    let (m, b, h2) = >>=-eq-ok (op_metadata op) _ h1 in
    let (c, k, h3) = >>=-eq-ok (check op i) _ h2 in
    let (code, e, known) = documented_ok i.opcode d in
    let (base, adjustment, meta, low, high, class, branches, reads) =
      op_metadata-total code known in
    let (least, most, fixed, near) = adjusted_bounds m.0 m.1 c h3 in
    let same_base : base ≡ m.0 = ground arith in
    let same_class : adjustment ≡ m.1 = ground arith in
    (
      omega arith,
      elim (ℕ_discrete adjustment 4) [
        | yes four ↦ omega (arith, branches four)
        | no other_class ↦ elim (ℕ_discrete adjustment 0) [
          | yes zero_class ↦ ground (arith, fixed (omega arith))
          | no indexed ↦ ground (arith, near, reads other_class indexed)
        ]
      ],
    )
