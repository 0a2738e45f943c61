-- ===== src/Fixture.antt =====
-- tools/native_fixture.py: the class Program, the assembler of the test programs.
pub mod Places
pub mod Patches
pub mod Built
mod Tests
use nes2snes.Common.{
  ℕ, ◌+◌, ◌-◌, ◌*◌, ◌%◌, ◌^◌, Bool, not, ◌&&◌, Option, none, some, List, [], ◌∷◌, ◌++◌, length, set,
  ltb, leb, ◌==◌, if◌then◌else◌,
}
use nes2snes.Common.{
  Result, ok, err, ◌>>=◌, ◌>>◌, raise_if, Bytes, ℤ, pos, negsuc, bytes_eq, to_bytes,
}
use nes2snes.Common.Slices.{splice}
use nes2snes.Opcodes.{Mnemonic, sta, stx, sty, php, pla, and, Mode, imp, imm, abs, rel, mode_length}
use nes2snes.Opcodes.Encode.{encode, same_mode}

-- The errors: a label twice, an instruction or a label that a dictionary lacks, a number that does not
-- fit its bytes, more than 288 records, and a branch too long.
pub data FixtureError : Type 0 where
  duplicate_label no_instruction no_label no_fit too_many_records out_of_range : FixtureError

-- A name, as the list of its characters.
abbrev pub Name : Type 0
Name = List ℕ

-- The operand of an instruction: a number, or the name of a label.
pub data Operand : Type 0 where
  number : ℤ → Operand
  named : Name → Operand

-- An entry of `fixups`: where the operand is, its mode, and the label that it names.
pub record Fixup : Type 0 where
  pub off : ℕ
  pub mode : Mode
  pub label : Name

pub record Program : Type 0 where
  pub origin : ℕ
  pub data_bytes : Bytes
  pub starts : List ℕ
  pub labels : List (Name × ℕ)
  pub fixups : List Fixup
  pub results : List (Name × ℕ)
  pub cursor : ℕ

-- Program.__init__
unfoldable pub create : ℕ → Program
create origin = record {
  origin = origin;
  data_bytes = [];
  starts = [];
  labels = [];
  fixups = [];
  results = [];
  cursor = 0x300;
}

-- Program.pc
unfoldable pub program_counter : Program → ℕ
program_counter p = p.origin + length p.data_bytes

-- `labels.get(name)`
unfoldable pub find_label : List (Name × ℕ) → Name → Option ℕ
find_label [] name = none
find_label ((key, address) ∷ rest) name =
    let later = find_label rest name in if bytes_eq key name then some address else later

-- Program.label
unfoldable pub add_label : Program → Name → Result FixtureError Program
unfolding find_label program_counter
add_label p name = elim (find_label p.labels name) [
  | some address ↦ err duplicate_label
  | none ↦ ok (record p { labels = p.labels ++ ((name, program_counter p) ∷ []) })
]

-- `value.to_bytes(size, 'little')`, for a size of zero without a call
unfoldable pub operand_bytes : ℕ → ℤ → Result FixtureError Bytes
operand_bytes size (pos n) =
    if size == 0 then ok [] else if ltb n (256 ^ size) then ok (to_bytes size n) else err no_fit
operand_bytes size (negsuc n) = if size == 0 then ok [] else err no_fit

-- The instruction's bytes behind the opcode `code`
unfoldable pub emit : Program → ℕ → Bytes → Program
unfolding program_counter
emit p code operand = record p {
  starts = p.starts ++ (program_counter p ∷ []);
  data_bytes = p.data_bytes ++ (code ∷ operand);
}

unfoldable pub operate : Program → ℕ → Mode → Operand → Result FixtureError Program
unfolding operand_bytes emit mode_length
operate p code mode (number n) = do
  operand ← operand_bytes (mode_length mode - 1) n
  ok (emit p code operand)
operate p code mode (named name) = do
  operand ← operand_bytes (mode_length mode - 1) (pos 0)
  ok (record (emit p code operand) {
    fixups = p.fixups ++ (record { off = length p.data_bytes + 1; mode = mode; label = name } ∷ []);
  })

-- Program.op
unfoldable pub op : Program → Mnemonic → Mode → Operand → Result FixtureError Program
unfolding operate encode
op p name mode value =
    if encode name mode == 256 then err no_instruction else operate p (encode name mode) mode value

-- Calls of `op`, one after the other
unfoldable pub op_each : Program → List (Mnemonic × Mode × Operand) → Result FixtureError Program
unfolding op
op_each p [] = ok p
op_each p ((name, mode, value) ∷ rest) = do next ← op p name mode value; op_each next rest

-- The calls that write the registers and the flags at `cursor`
unfoldable pub record_calls : ℕ → List (Mnemonic × Mode × Operand)
record_calls cursor =
    (sta, abs, number (pos cursor))
    ∷ (stx, abs, number (pos (cursor + 1)))
    ∷ (sty, abs, number (pos (cursor + 2)))
    ∷ (php, imp, number (pos 0))
    ∷ (pla, imp, number (pos 0))
    ∷ (and, imm, number (pos 0xc3))
    ∷ (sta, abs, number (pos (cursor + 3)))
    ∷ []

-- Program.record; `op` keeps the cursor.
unfoldable pub add_record : Program → Name → Result FixtureError Program
unfolding op_each record_calls
add_record p label = do
  raise_if (ltb 0x780 (p.cursor + 4)) too_many_records
  written ←
      op_each (record p { results = p.results ++ ((label, p.cursor) ∷ []) }) (record_calls p.cursor)
  ok (record written { cursor = written.cursor + 4 })

-- The operand's bytes for a label at `dest`; `here` is the address of the instruction after a branch.
unfoldable pub patch_branch : ℕ → ℕ → ℕ → Bytes → Result FixtureError Bytes
patch_branch here dest off bytes =
    if leb here (dest + 128) && leb dest (here + 127)
    then ok (set bytes off ((dest + 256 - here) % 256))
    else err out_of_range

unfoldable pub patch_word : ℕ → ℕ → Bytes → Result FixtureError Bytes
patch_word dest off bytes =
    if ltb dest 65536 then ok (splice bytes off 2 (to_bytes 2 dest)) else err no_fit

-- One round of the loop of `finish`
unfoldable pub patch : ℕ → List (Name × ℕ) → Fixup → Bytes → Result FixtureError Bytes
unfolding find_label patch_branch patch_word same_mode
patch origin labels f bytes = elim (find_label labels f.label) [
  | none ↦ err no_label
  | some dest ↦
      if same_mode f.mode rel
      then patch_branch (origin + f.off + 1) dest f.off bytes
      else patch_word dest f.off bytes
]

unfoldable pub patch_all : ℕ → List (Name × ℕ) → List Fixup → Bytes → Result FixtureError Bytes
unfolding patch
patch_all origin labels [] bytes = ok bytes
patch_all origin labels (f ∷ rest) bytes = do
  patched ← patch origin labels f bytes
  patch_all origin labels rest patched

-- Program.finish, which leaves the program with the bytes that it returns
unfoldable pub finish : Program → Result FixtureError Bytes
unfolding patch_all
finish p = patch_all p.origin p.labels p.fixups p.data_bytes
