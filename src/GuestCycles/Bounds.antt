-- ===== src/GuestCycles/Bounds.antt =====
-- What `cost` accepts, and what it returns, in plain arithmetic.
use nes2snes.Common.{
  ℕ, ◌+◌, ◌/◌, ◌%◌, ◌<◌, bit_and, ◌≡◌, ◌≢◌, refl, ap, ◌∙◌, Bool, false, not, arith,
}
use nes2snes.Common.{Option, none, some, ltb, ◌==◌, if◌then◌else◌}
use nes2snes.Common.{ok, err, ◌>>=◌, Value, nat}
use nes2snes.Opcodes.{Mnemonic, bpl, Mode, absx, absy, iy, Op, ops}
use nes2snes.GuestCycles.{
  Instruction, Checked, no_pointer, branch, special, is_jump, read_adjustment, op_metadata,
  documented, check, check_pointer, adjusted_cost, branch_cost, indexed_cost, branch_target,
  following, bool_eq, cost,
}
use nes2snes.GuestCycles.Pages.{following_lem, branch_target_lem, page_test, crossing_lem}

-- The numbers of an instruction whose fields are all in range.
pub record Fields : Type 0 where
  pub opcode : ℕ
  pub pc : ℕ
  pub operand : ℕ
  pub p : ℕ
  pub x : ℕ
  pub y : ℕ
  pub pointer : Option ℕ

abbrev pub to_value : Option ℕ → Option Value
to_value none = none
to_value (some n) = some (nat n)

abbrev pub to_instruction : Fields → Instruction
to_instruction f = record {
  opcode = nat f.opcode;
  pc = nat f.pc;
  operand = nat f.operand;
  p = nat f.p;
  x = nat f.x;
  y = nat f.y;
  pointer = to_value f.pointer;
}

abbrev pub BelowWord : Option ℕ → Type 0
BelowWord none = Unit
BelowWord (some n) = n < 65536

-- The ranges that the code checks, `op` being the table's entry.
pub record IsInRange (op : Op) (f : Fields) : Type 0 where
  pub known : ops f.opcode ≡ some op
  pub pc_word : f.pc < 65536
  pub operand_word : f.operand < 65536
  pub p_byte : f.p < 256
  pub x_byte : f.x < 256
  pub y_byte : f.y < 256
  pub pointer_word : BelowWord f.pointer
  pub narrow : op.size ≡ 2 → f.operand < 256

abbrev checked : Op → Fields → Checked
checked op f = record {
  op = op;
  pc = f.pc;
  operand = f.operand;
  p = f.p;
  x = f.x;
  y = f.y;
  pointer = f.pointer;
}

module _ {op : Op} (f : Fields) (h : IsInRange op f) where
  documented_lem : documented (nat f.opcode) ≡ ok op
  unfolding documented
  documented_lem = rw (h.known, documented)

  check_pointer_lem : check_pointer (to_value f.pointer) ≡ ok f.pointer
  unfolding check_pointer
  check_pointer_lem = go f.pointer h.pointer_word
    where
      go : (p : Option ℕ) → BelowWord p → check_pointer (to_value p) ≡ ok p
      go none b = refl
      go (some n) b = ground arith

  check_lem : check op (to_instruction f) ≡ ok (checked op f)
  unfolding check
  check_lem = ground (arith, check_pointer_lem)

  pub cost_lem :
      cost (to_instruction f) ≡ (op_metadata op >>= λ m. adjusted_cost m.0 m.1 (checked op f))
  unfolding cost
  cost_lem = rw (documented_lem, check_lem) (ground arith)

-- The page of an address, and the next instruction of a two-byte one.
abbrev pub page : ℕ → ℕ
page address = address / 256

abbrev pub next_pc : ℕ → ℕ
next_pc pc = (pc + 2) % 65536

-- The destination of a branch: the operand is a signed byte.
abbrev pub destination : ℕ → ℕ → ℕ
destination pc operand =
    if ltb operand 128
    then (next_pc pc + operand) % 65536
    else (next_pc pc + operand + 65280) % 65536

-- Whether the flag under `mask` has the value `sense`.
abbrev pub taken : ℕ → Bool → ℕ → Bool
taken mask sense p = bool_eq (not (bit_and p mask == 0)) sense

module _ (base operand : ℕ) where
  branch_target-lt : branch_target base operand < 65536
  branch_target-lt = rw (branch_target_lem base operand) (ground arith)

branch_cost_lem :
    (base mask : ℕ) (sense : Bool) (c : Checked)
    → branch_cost base (mask, sense) c ≡ (
        if taken mask sense c.p
        then (if page (next_pc c.pc) == page (destination c.pc c.operand)
            then base + 1
            else base + 2)
        else base)
unfolding branch_cost
branch_cost_lem base mask sense c =
    rw
      (
        page_test (following c.pc) (branch_target (following c.pc) c.operand)
            (rw (following_lem c.pc) (omega arith)) (branch_target-lt (following c.pc) c.operand),
        branch_target_lem (following c.pc) c.operand,
        following_lem c.pc,
      )
      (ground arith)

branch_alone :
    (name : Mnemonic) {m : ℕ × Bool}
    → branch name ≡ some m
    → (special name ≡ none) × (is_jump name ≡ false)
unfolding branch special is_jump
branch_alone bpl b = (refl, refl)
branch_alone _ b = ground arith

branch_metadata : (op : Op) {m : ℕ × Bool} → branch op.name ≡ some m → op_metadata op ≡ ok (2, 4)
unfolding op_metadata
branch_metadata op b = let (s, j) = branch_alone op.name b in rw (s, j, b, op_metadata)

-- For an admitted conditional branch: two cycles if it is not taken, three if it is taken within the
-- page of the next instruction, and four if it is taken to another page.
pub cost-branch :
    {op : Op} (f : Fields) (mask : ℕ) (sense : Bool)
    → IsInRange op f
    → branch op.name ≡ some (mask, sense)
    → cost (to_instruction f)
      ≡ ok (
          if taken mask sense f.p
          then (if page (next_pc f.pc) == page (destination f.pc f.operand) then 3 else 4)
          else 2)
unfolding adjusted_cost
cost-branch {op} f mask sense h b =
    cost_lem f h
    ∙ rw (branch_metadata op b, b) (ground (arith, branch_cost_lem 2 mask sense (checked op f)))

-- The address that an indexed read starts from, and the index that it adds.
abbrev pub indexing : Mode → Fields → Option (ℕ × ℕ)
indexing absx f = some (f.operand, f.x)
indexing absy f = some (f.operand, f.y)
indexing iy f = elim f.pointer [ none ↦ none | some n ↦ some (n, f.y) ]
indexing _ f = none

-- The classes of `metadata` that are neither fixed nor a branch belong to the indexed modes.
abbrev pub IsIndexed : ℕ → Type 0
IsIndexed adjustment = (adjustment ≢ 0) × (adjustment ≢ 4)

adjustment_mode :
    (op : Op) {base adjustment : ℕ}
    → op_metadata op ≡ ok (base, adjustment)
    → IsIndexed adjustment
    → adjustment ≡ read_adjustment op.mode
unfolding op_metadata
adjustment_mode op m h = ground arith

abbrev pub read_cost : ℕ → ℕ × ℕ → ℕ
read_cost base (address, index) = if page (address + index) == page address then base else base + 1

indexed_cost_lem :
    (mode : Mode) (base : ℕ) (op : Op) (f : Fields)
    → f.x < 256
    → f.y < 256
    → IsIndexed (read_adjustment mode)
    → indexed_cost base (read_adjustment mode) (checked op f)
      ≡ elim (indexing mode f) [ none ↦ err no_pointer | some a ↦ ok (read_cost base a) ]
unfolding indexed_cost read_adjustment
indexed_cost_lem absx base op f hx hy h = ground (arith, crossing_lem f.operand f.x hx)
indexed_cost_lem absy base op f hx hy h = ground (arith, crossing_lem f.operand f.y hy)
indexed_cost_lem iy base op f hx hy h = go f.pointer refl
  where
    go :
        (o : Option ℕ)
        → f.pointer ≡ o
        → indexed_cost base 3 (checked op f)
          ≡ elim (indexing iy f) [ none ↦ err no_pointer | some a ↦ ok (read_cost base a) ]
    go none e = rw (e, indexed_cost)
    go (some n) e = rw (e, indexed_cost) (ground (arith, crossing_lem n f.y hy))
indexed_cost_lem _ base op f hx hy h = absurd (h.0 refl)

-- An indexed read costs its base, and one cycle more exactly when the index moves the address to
-- another page; an indirect-Y read without a pointer is refused.
pub cost-indexed :
    {op : Op} (f : Fields) {base adjustment : ℕ}
    → IsInRange op f
    → op_metadata op ≡ ok (base, adjustment)
    → IsIndexed adjustment
    → cost (to_instruction f)
      ≡ elim (indexing op.mode f) [ none ↦ err no_pointer | some a ↦ ok (read_cost base a) ]
unfolding adjusted_cost
cost-indexed {op} f {base} h m i =
    cost_lem f h
    ∙ rw m (ground (arith, i.0, i.1))
    ∙ ap (λ (a : ℕ). indexed_cost base a (checked op f)) (adjustment_mode op m i)
    ∙ indexed_cost_lem op.mode base op f h.x_byte h.y_byte (rw (adjustment_mode op m i) at i)
