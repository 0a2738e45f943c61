-- ===== src/Timeline/Decode.antt =====
-- tools/timeline_program.py, decode: a program read as its rows of instructions.
use nes2snes.Common.{
  ℕ, zero, suc, ◌+◌, ◌%◌, Bool, true, false, not, ◌&&◌, ◌||◌, Option, none, some, leb, ltb, ◌==◌,
  if◌then◌else◌,
}
use nes2snes.Common.{List, [], ◌∷◌, length, take, drop, map, Bytes, from_bytes}
use nes2snes.Common.{
  Result, ok, err, ◌>>=◌, ◌>>◌, raise_if, Value, int, bool, other, pos, negsuc, nat, ℤ,
}
use nes2snes.Opcodes.{Mnemonic, Mode, Op, ops}
use nes2snes.Timeline.{is_jmp, is_jsr, is_abs, is_rel}
use nes2snes.Timeline.Allowed.{Gates, GateArguments, allowed, within}

-- The `ValueError`s, by what their messages name.
pub data DecodeError : Type 0 where
  bad_gate not_bounded bad_starts unsupported truncated outside_contract : DecodeError
  wrong_entries unobserved_target out_of_fuel : DecodeError

-- The argument `code`: bytes, or anything else.
pub data CodeArgument : Type 0 where
  code_bytes : Bytes → CodeArgument
  not_bytes : CodeArgument

-- The argument `starts`: a list, or anything else.
pub data StartsArgument : Type 0 where
  start_list : List Value → StartsArgument
  not_a_list : StartsArgument

-- The argument `static_targets`: None, a set in any order of its elements, or anything else.
pub data TargetsArgument : Type 0 where
  default_targets : TargetsArgument
  target_set : List Value → TargetsArgument
  not_a_set : TargetsArgument

-- The truth of a value; of one that is neither integer nor Boolean, the checks ask it only where
-- they then refuse.
unfoldable pub truthy : Value → Bool
truthy (int (pos n)) = not (n == 0)
truthy (int (negsuc n)) = true
truthy (bool b) = b
truthy other = true

-- `type(gate) is not bool or (gate and not below)`
unfoldable pub check_gate : Value → Value → Result DecodeError Bool
unfolding truthy
check_gate (bool b) below = if b && not (truthy below) then err bad_gate else ok b
check_gate gate below = err bad_gate

-- `type(v) is int and 0x8000 <= v <= 0xffff` for each element
unfoldable pub target_values : List Value → Result DecodeError (List ℕ)
target_values [] = ok []
target_values (nat n ∷ rest) = do
  targets ← target_values rest
  if within 0x8000 0x10000 n then ok (n ∷ targets) else err bad_gate
target_values (v ∷ rest) = err bad_gate

unfoldable pub check_targets : Bool → TargetsArgument → Result DecodeError (Option (List ℕ))
unfolding target_values
check_targets mapper default_targets = ok none
check_targets true (target_set values) = do targets ← target_values values; ok (some targets)
check_targets false (target_set values) = err bad_gate
check_targets mapper not_a_set = err bad_gate

-- The checks of the keyword arguments.
unfoldable pub check_gates :
    GateArguments → TargetsArgument → Result DecodeError (Gates × Option (List ℕ))
unfolding check_gate check_targets
check_gates g static_targets = do
  chr_blank ← check_gate g.chr_blank g.ppu_blank
  ppu_blank ← check_gate g.ppu_blank g.cpu_io
  cpu_io ← check_gate g.cpu_io g.cartridge_ram
  cartridge_ram ← check_gate g.cartridge_ram g.mapper
  mapper ← check_gate g.mapper g.rom
  targets ← check_targets mapper static_targets
  ram ← check_gate g.ram (bool true)
  rom ← check_gate g.rom g.ram
  ok (
    record {
      ram = ram;
      rom = rom;
      mapper = mapper;
      cartridge_ram = cartridge_ram;
      cpu_io = cpu_io;
      ppu_blank = ppu_blank;
      chr_blank = chr_blank;
    },
    targets,
  )

-- The check of `code` and `origin`.
unfoldable pub check_code : CodeArgument → Value → Result DecodeError (Bytes × ℕ)
check_code (code_bytes code) (nat origin) =
    if within 1 2049 (length code)
      && (within 0x8000 0xfff1 origin && leb (origin + length code) 0xfffa)
    then ok (code, origin)
    else err not_bounded
check_code code origin = err not_bounded

unfoldable pub int_values : List Value → Result DecodeError (List ℤ)
int_values [] = ok []
int_values (int z ∷ rest) = do zs ← int_values rest; ok (z ∷ zs)
int_values (v ∷ rest) = err bad_starts

unfoldable pub int_ltb : ℤ → ℤ → Bool
int_ltb (pos a) (pos b) = ltb a b
int_ltb (pos a) (negsuc b) = false
int_ltb (negsuc a) (pos b) = true
int_ltb (negsuc a) (negsuc b) = ltb b a

-- A strictly increasing list is the sorted list of its distinct elements, and no other list is.
unfoldable pub is_increasing : List ℤ → Bool
unfolding int_ltb
is_increasing [] = true
is_increasing (a ∷ []) = true
is_increasing (a ∷ b ∷ rest) = int_ltb a b && is_increasing (b ∷ rest)

unfoldable pub check_starts : StartsArgument → Result DecodeError (List ℤ)
unfolding int_values is_increasing
check_starts (start_list values) = do
  starts ← int_values values
  raise_if (not (is_increasing starts)) bad_starts
  ok starts
check_starts not_a_list = err bad_starts

-- A decoded instruction.
pub record Row : Type 0 where
  pub pc : ℕ
  pub name : Mnemonic
  pub mode : Mode
  pub raw : Bytes
  pub operand : ℕ

-- The operand of the raw bytes of an instruction.
abbrev pub raw_operand : Bytes → ℕ
raw_operand raw = from_bytes (drop 1 raw)

-- The body of the loop for an instruction of the table.
unfoldable pub read_op : Gates → ℕ → Op → Bytes → Result DecodeError Row
unfolding allowed
read_op g pc op left = do
  raise_if (not (length (take op.size left) == op.size)) truncated
  raise_if (not (allowed g op.name op.mode (raw_operand (take op.size left)))) outside_contract
  ok (record {
    pc = pc;
    name = op.name;
    mode = op.mode;
    raw = take op.size left;
    operand = raw_operand (take op.size left);
  })

-- `code[pos]` is documented, and its row.
unfoldable pub next_row : Gates → ℕ → ℕ → Bytes → Result DecodeError Row
unfolding read_op
next_row g pc opcode left = elim (ops opcode) [
  | none ↦ err unsupported
  | some op ↦ read_op g pc op left
]

-- The loop: the address and the bytes from `pos`.
unfoldable pub rows_loop : ℕ → Gates → ℕ → Bytes → Result DecodeError (List Row)
unfolding next_row
rows_loop fuel g pc [] = ok []
rows_loop zero g pc (b ∷ rest) = err out_of_fuel
rows_loop (suc fuel) g pc (b ∷ rest) = do
  row ← next_row g pc b (b ∷ rest)
  rows ← rows_loop fuel g (pc + length row.raw) (drop (length row.raw) (b ∷ rest))
  ok (row ∷ rows)

unfoldable pub same_entries : List Row → List ℤ → Bool
same_entries [] [] = true
same_entries (r ∷ rows) (pos n ∷ starts) = r.pc == n && same_entries rows starts
same_entries rows starts = false

-- The static target of an instruction; a branch offset is a signed byte.
unfoldable pub static_target : Row → Option ℕ
static_target r =
    if (is_jmp r.name || is_jsr r.name) && is_abs r.mode
    then some r.operand
    else if is_rel r.mode
    then some ((r.pc + 2 + (if ltb r.operand 128 then r.operand else r.operand + 65280)) % 65536)
    else none

unfoldable pub is_member : ℕ → List ℕ → Bool
is_member n [] = false
is_member n (m ∷ rest) = n == m || is_member n rest

unfoldable pub target_known : List ℕ → Row → Bool
unfolding static_target is_member
target_known entries r = elim (static_target r) [ none ↦ true | some t ↦ is_member t entries ]

unfoldable pub targets_known : List ℕ → List Row → Bool
unfolding target_known
targets_known entries [] = true
targets_known entries (r ∷ rows) = target_known entries r && targets_known entries rows

-- `starts if static_targets is None else static_targets`, once `starts` are the rows' addresses.
abbrev pub known_entries : Option (List ℕ) → List Row → List ℕ
known_entries none rows = map (λ r. r.pc) rows
known_entries (some targets) rows = targets

unfoldable pub decode :
    CodeArgument
    → Value
    → StartsArgument
    → GateArguments
    → TargetsArgument
    → Result DecodeError (List Row)
unfolding check_gates check_code check_starts rows_loop same_entries targets_known
decode code_argument origin_argument starts_argument gate_arguments static_targets = do
  (gates, targets) ← check_gates gate_arguments static_targets
  (code, origin) ← check_code code_argument origin_argument
  starts ← check_starts starts_argument
  rows ← rows_loop (length code) gates origin code
  raise_if (not (same_entries rows starts)) wrong_entries
  raise_if (not (targets_known (known_entries targets rows) rows)) unobserved_target
  ok rows
