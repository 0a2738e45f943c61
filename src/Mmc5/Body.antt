-- ===== src/Mmc5/Body.antt =====
-- tools/mmc5_timeline.py, validate: the bytes of a banked plan, its parts and its patches.
use nes2snes.Common.{ℕ, ◌+◌, ◌-◌, ◌%◌, Bool, true, false, not, ◌&&◌, ◌||◌}
use nes2snes.Common.{
  none, some, List, [], ◌∷◌, ◌++◌, length, map, ltb, leb, ◌==◌, if◌then◌else◌, all_below,
}
use nes2snes.Common.{
  Result, ok, err, ◌>>=◌, ◌>>◌, raise_if, as_error, ℤ, pos, negsuc, Value, int, bool, nat, Bytes,
}
use nes2snes.Common.Text.{TextArgument, text, not_text, from_hex}
use nes2snes.Timeline.Events.{Event}
use nes2snes.Timeline.Allowed.{GateArguments}
use nes2snes.Timeline.Decode.{
  code_bytes, StartsArgument, start_list, target_set, Row, decode, check_starts,
}
use nes2snes.Mmc5.Plan.{
  PlanError, bad_program, bad_part, bad_bank, bad_encoding, bad_hex, crosses_boundary,
  overlaps_boot, bad_starts, overlapping_code, too_large, bad_vectors, same_vectors, bad_bank_data,
  bad_patch, patch_budget, patch_overlap, overlaps_helper, PartArgument, part, foreign_part,
  PatchArgument, patch, foreign_patch, Plan, Profile, Open, check_profile, check_head, patch_list,
  number,
}

-- Bytes at an offset of a physical bank.
pub record Block : Type 0 where
  pub bank : ℕ
  pub offset : ℕ
  pub content : Bytes

-- `cells & occupied` and `occupied |= cells`, for a set of cells as its membership test.
abbrev pub Cells : Type 0
Cells = ℕ → ℕ → Bool

unfoldable pub meets : Block → Cells → Bool
unfolding all_below
meets b occupied = not (all_below (length b.content) (λ i. not (occupied b.bank (b.offset + i))))

unfoldable pub in_block : Block → Cells
in_block b bank i = bank == b.bank && (leb b.offset i && ltb i (b.offset + length b.content))

abbrev pub occupy : Block → Cells → Cells
occupy b occupied bank i = in_block b bank i || occupied bank i

-- A part of the program that has passed its checks.
pub record Part : Type 0 where
  pub block : Block
  pub pc : ℕ
  pub starts : List ℤ

-- The hexadecimal text of a length, and the error for text that is no such bytes.
unfoldable pub hex_text : ℕ → PlanError → TextArgument → Result PlanError Bytes
hex_text limit e (text t) =
    if ltb 0 (length t) && leb (length t) limit
    then elim (from_hex t) [ none ↦ err bad_hex | some bytes ↦ ok bytes ]
    else err e
hex_text limit e not_text = err e

-- `starts` of a part.
unfoldable pub part_starts : StartsArgument → Result PlanError (List ℤ)
unfolding check_starts
part_starts starts = as_error bad_starts (check_starts starts)

-- The body of the loop over the parts.
unfoldable pub read_part : ℕ → Cells → PartArgument → Result PlanError Part
unfolding number hex_text part_starts meets
read_part banks occupied foreign_part = err bad_part
read_part banks occupied (part bank_value pc_value code_text starts_argument) = do
  bank ← number 0 (banks - 1) bad_bank bank_value
  pc ← number 0x8000 0xfff9 bad_bank pc_value
  code ← hex_text 2048 bad_encoding code_text
  raise_if
      (length code == 0 || (ltb 8192 (pc % 8192 + length code) || ltb 0xfffa (pc + length code)))
      crosses_boundary
  raise_if (bank == banks - 1 && ltb (pc % 8192) 256) overlaps_boot
  starts ← part_starts starts_argument
  raise_if (meets (record { bank = bank; offset = pc % 8192; content = code }) occupied)
      overlapping_code
  ok (record {
    block = record { bank = bank; offset = pc % 8192; content = code };
    pc = pc;
    starts = starts;
  })

unfoldable pub parts_loop : ℕ → Cells → List PartArgument → Result PlanError (List Part × Cells)
unfolding read_part
parts_loop banks occupied [] = ok ([], occupied)
parts_loop banks occupied (argument ∷ rest) = do
  p ← read_part banks occupied argument
  (ps, cells) ← parts_loop banks (occupy p.block occupied) rest
  ok (p ∷ ps, cells)

unfoldable pub total_bytes : List Part → ℕ
total_bytes [] = 0
total_bytes (p ∷ rest) = length p.block.content + total_bytes rest

-- `targets`: the entries of all parts.
unfoldable pub all_targets : List Part → List Value
all_targets [] = []
all_targets (p ∷ rest) = map int p.starts ++ all_targets rest

-- The keyword arguments of each call of `decode`.
unfoldable pub decode_gates : Open → GateArguments
decode_gates o = record {
  ram = bool true;
  rom = bool true;
  mapper = bool true;
  cartridge_ram = bool o.cartridge_ram;
  cpu_io = bool o.cpu_io;
  ppu_blank = bool o.ppu_blank;
  chr_blank = bool o.chr_blank;
}

unfoldable pub decode_part : Open → List Value → Part → Result PlanError (List Row)
unfolding decode_gates
decode_part o targets p = as_error bad_program (
    decode (code_bytes p.block.content) (nat p.pc) (start_list (map int p.starts)) (decode_gates o)
      (target_set targets))

unfoldable pub decode_parts : Open → List Value → List Part → Result PlanError (List (List Row))
unfolding decode_part
decode_parts o targets [] = ok []
decode_parts o targets (p ∷ rest) = do
  rows ← decode_part o targets p
  others ← decode_parts o targets rest
  ok (rows ∷ others)

unfoldable pub has_start : ℕ → List ℤ → Bool
has_start n [] = false
has_start n (pos m ∷ rest) = n == m || has_start n rest
has_start n (negsuc m ∷ rest) = has_start n rest

-- `(bank, pc) in entries`
unfoldable pub is_entry : ℕ → ℕ → List Part → Bool
unfolding has_start
is_entry bank pc [] = false
is_entry bank pc (p ∷ rest) =
    (p.block.bank == bank && has_start pc p.starts) || is_entry bank pc rest

unfoldable pub check_vector : ℕ → List Part → Value → Result PlanError ℕ
unfolding is_entry
check_vector banks ps (nat n) = if is_entry (banks - 1) n ps then ok n else err bad_vectors
check_vector banks ps v = err bad_vectors

-- The boot region and the vectors of the last bank.
unfoldable pub reserved : ℕ → Cells
reserved banks bank i = bank == banks - 1 && (ltb i 256 || (leb 0x1ffa i && ltb i 0x2000))

-- The body of the loop over the patches, with the bytes counted before.
unfoldable pub read_patch : ℕ → Cells → ℕ → PatchArgument → Result PlanError Block
unfolding number hex_text meets reserved
read_patch banks occupied count foreign_patch = err bad_bank_data
read_patch banks occupied count (patch bank_value offset_value bytes_text) = do
  bank ← number 0 (banks - 1) bad_patch bank_value
  offset ← number 0 8191 bad_patch offset_value
  content ← hex_text 8192 bad_patch bytes_text
  raise_if
      (length content == 0
        || (ltb 8192 (offset + length content) || ltb 8192 (count + length content)))
      patch_budget
  raise_if
      (meets (record { bank = bank; offset = offset; content = content })
        (λ b i. occupied b i || reserved banks b i))
      patch_overlap
  ok (record { bank = bank; offset = offset; content = content })

unfoldable pub patches_loop :
    ℕ → Cells → ℕ → List PatchArgument → Result PlanError (List Block × Cells)
unfolding read_patch
patches_loop banks occupied count [] = ok ([], occupied)
patches_loop banks occupied count (argument ∷ rest) = do
  b ← read_patch banks occupied count argument
  (bs, cells) ← patches_loop banks (occupy b occupied) (count + length b.content) rest
  ok (b ∷ bs, cells)

-- What `validate` has read of the plan that it returns.
pub record Layout : Type 0 where
  pub banks : ℕ
  pub steps : ℕ
  pub events : List Event
  pub parts : List Part
  pub rows : List (List Row)
  pub irq : ℕ
  pub nmi : ℕ
  pub patches : List Block

-- The checks of the bytes: parts, programs, vectors and patches.
unfoldable pub check_body :
    Open → Plan → ℕ → ℕ → List Event → List PartArgument → Result PlanError Layout
unfolding parts_loop total_bytes all_targets decode_parts check_vector patch_list patches_loop
check_body o plan banks steps events fragments = do
  (ps, occupied) ← parts_loop banks (λ b i. false) fragments
  raise_if (ltb 2048 (total_bytes ps)) too_large
  rows ← decode_parts o (all_targets ps) ps
  irq ← check_vector banks ps plan.irq
  nmi ← check_vector banks ps plan.nmi
  raise_if (irq == nmi) same_vectors
  arguments ← patch_list plan.bank_data
  (blocks, cells) ← patches_loop banks occupied 0 arguments
  raise_if (o.ppu_blank && not (all_below 0x200 (λ i. not (cells (banks - 1) (0x1000 + i)))))
      overlaps_helper
  ok (record {
    banks = banks;
    steps = steps;
    events = events;
    parts = ps;
    rows = rows;
    irq = irq;
    nmi = nmi;
    patches = blocks;
  })

unfoldable pub validate : Profile → Plan → Result PlanError Layout
unfolding check_profile check_head check_body
validate profile plan = do
  o ← check_profile profile
  (banks, steps, events, fragments) ← check_head o plan
  check_body o plan banks steps events fragments
