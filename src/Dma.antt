-- ===== src/Dma.antt =====
-- tools/verify_oam_dma.py: the class Observer and the records that `timing` reads; exact_hex is of
-- tools/verify_ppu_blank.py, and `fragments` of tools/mmc5_timeline.py.
-- The emulator's library is a parameter: the answers of its calls.
pub mod Hex
pub mod Timing
pub mod Masked
mod Tests
use nes2snes.Common.{
  ℕ, ◌+◌, ◌-◌, ◌*◌, ◌/◌, ◌%◌, ◌^◌, Bool, true, false, not, ◌&&◌, ◌||◌, Option, none, some, List, [],
  ◌∷◌, ◌++◌, length, get_or, take, drop, slice, ltb, leb, ◌==◌, if◌then◌else◌,
}
use nes2snes.Common.{
  Result, ok, err, ◌>>=◌, ◌>>◌, raise_if, Value, nat, int, in_range, Bytes, bytes_eq, to_bytes,
  from_bytes,
}
use nes2snes.Common.Text.{TextArgument, text, not_text, from_hex}

-- The errors, by what their messages name.
pub data DmaError : Type 0 where
  bad_request other_abi incomplete_capture malformed_row : DmaError
  bad_origin no_ledger bad_hex other_final no_records invalid_row : DmaError
  out_of_bounds other_pc bad_window mismatch other_opcode fractional : DmaError
  bad_delay too_large other_ledger : DmaError

-- The structure TimingRow
pub record TimingRow : Type 0 where
  pub start : ℕ
  pub end : ℕ
  pub pc : ℕ
  pub next_pc : ℕ
  pub clock : ℕ
  pub opcode : ℕ
  pub reserved : Bytes

-- Observer.__init__, with the library's size of a row and its answer to the configuration; the result
-- is the count.
unfoldable pub configure : Value → Value → ℕ → Bool → Result DmaError ℕ
configure (nat entry) (nat count) size configured = do
  raise_if (not (leb 0x8000 entry && leb entry 65535)) bad_request
  raise_if (not (leb 1 count && leb count 64)) bad_request
  raise_if (not (size == 32) || not configured) other_abi
  ok count
configure _ _ size configured = err bad_request

unfoldable pub any_nonzero : Bytes → Bool
any_nonzero [] = false
any_nonzero (b ∷ rest) = not (b == 0) || any_nonzero rest

-- A row that the capture may have
unfoldable pub is_whole : TimingRow → Bool
unfolding any_nonzero
is_whole r =
    not (any_nonzero r.reserved)
    && (not (r.clock == 0) && (ltb r.start r.end && (r.end - r.start) % r.clock == 0))

-- The values of one instruction, all but `reserved`
pub record Row : Type 0 where
  pub start : ℕ
  pub end : ℕ
  pub pc : ℕ
  pub next_pc : ℕ
  pub clock : ℕ
  pub opcode : ℕ

unfoldable pub captured_rows : List TimingRow → Result DmaError (List Row)
unfolding is_whole
captured_rows [] = ok []
captured_rows (r ∷ rest) = do
  raise_if (not (is_whole r)) malformed_row
  rows ← captured_rows rest
  ok (
      record {
        start = r.start;
        end = r.end;
        pc = r.pc;
        next_pc = r.next_pc;
        clock = r.clock;
        opcode = r.opcode;
      }
      ∷ rows)

-- Observer.finish, with the library's rows captured, its error, and whether it is still active
unfoldable pub finish : ℕ → ℕ → ℕ → ℕ → List TimingRow → Result DmaError (List Row)
unfolding captured_rows
finish count captured error active rows = do
  raise_if (not (captured == count && (error == 0 && active == 0))) incomplete_capture
  captured_rows (take count rows)

unfoldable pub sized_bytes : Option Bytes → ℕ → Result DmaError Bytes
sized_bytes none size = err bad_hex
sized_bytes (some raw) size = if length raw == size then ok raw else err bad_hex

unfoldable pub exact_hex : TextArgument → ℕ → Result DmaError Bytes
unfolding sized_bytes
exact_hex (text t) size =
    if length t == size * 2 then sized_bytes (from_hex t) size else err bad_hex
exact_hex not_text size = err bad_hex

-- A dictionary with the keys of a row
pub record RowFields : Type 0 where
  pub start : Value
  pub end : Value
  pub pc : Value
  pub next_pc : Value
  pub clock : Value
  pub opcode : Value

pub data RowArgument : Type 0 where
  row_fields : RowFields → RowArgument
  other_row : RowArgument

-- A list, or anything else
pub data Listed (A : Type 0) : Type 0 where
  listed : List A → Listed A
  not_listed : Listed A

-- A part of the authored program
pub record Fragment : Type 0 where
  pub origin : ℕ
  pub code : List ℕ

pub record Plan : Type 0 where
  pub steps : ℕ
  pub fixed : Fragment
  pub bank_code : List Fragment

-- What the native run recorded
pub record Actual : Type 0 where
  pub dma_records : TextArgument
  pub dma_state : TextArgument
  pub records : Listed TextArgument

unfoldable pub fragments : Plan → List Fragment
fragments plan = plan.fixed ∷ plan.bank_code

unfoldable pub is_integer : Value → Bool
is_integer (int z) = true
is_integer v = false

unfoldable pub all_integers : RowFields → Bool
unfolding is_integer
all_integers f =
    is_integer f.start
    && (is_integer f.end
        && (is_integer f.pc
            && (is_integer f.next_pc && (is_integer f.clock && is_integer f.opcode))))

unfoldable pub typed_rows : List RowArgument → Result DmaError (List RowFields)
unfolding all_integers
typed_rows [] = ok []
typed_rows (other_row ∷ rest) = err invalid_row
typed_rows (row_fields f ∷ rest) = do
  raise_if (not (all_integers f)) invalid_row
  rows ← typed_rows rest
  ok (f ∷ rows)

unfoldable pub bounded_number : Value → ℕ → Result DmaError ℕ
bounded_number v maximum = elim (in_range v maximum) [ some n ↦ ok n | none ↦ err out_of_bounds ]

-- The row's numbers, within their bounds
unfoldable pub bounded_row : RowFields → Result DmaError Row
unfolding bounded_number
bounded_row f = do
  start ← bounded_number f.start 0xffffffffffffffff
  end ← bounded_number f.end 0xffffffffffffffff
  raise_if (not (ltb start end)) out_of_bounds
  clock ← bounded_number f.clock 65535
  raise_if (clock == 0) out_of_bounds
  pc ← bounded_number f.pc 65535
  next_pc ← bounded_number f.next_pc 65535
  opcode ← bounded_number f.opcode 255
  ok (record {
    start = start;
    end = end;
    pc = pc;
    next_pc = next_pc;
    clock = clock;
    opcode = opcode;
  })
