-- ===== src/Dma/Timing.antt =====
-- tools/verify_oam_dma.py: timing, which accounts for the DMA delays of a run of original instructions
-- and holds the native ledger against them.
pub mod Ledger
pub mod Rounds
pub mod Accounted
use nes2snes.Common.{
  ℕ, ◌+◌, ◌-◌, ◌*◌, ◌/◌, ◌%◌, ◌^◌, Bool, true, false, not, ◌&&◌, ◌||◌, Option, none, some, List, [],
  ◌∷◌, ◌++◌, length, get_or, take, drop, slice, ltb, leb, ◌==◌, if◌then◌else◌,
}
use nes2snes.Common.{
  Result, ok, err, ◌>>=◌, ◌>>◌, raise_if, Value, nat, Bytes, bytes_eq, to_bytes, from_bytes,
}
use nes2snes.Common.Text.{TextArgument, from_hex}
use nes2snes.Dma.{
  DmaError, bad_origin, no_ledger, bad_hex, other_final, no_records, other_pc, bad_window, mismatch,
  other_opcode, fractional, bad_delay, too_large, other_ledger, exact_hex, Row, RowFields,
  RowArgument, Listed, listed, not_listed, Fragment, Plan, Actual, fragments, typed_rows,
  bounded_row,
}

unfoldable pub clock_start : Value → Result DmaError ℕ
clock_start (nat n) = if ltb n (2 ^ 32) && n % 2 == 0 then ok n else err bad_origin
clock_start v = err bad_origin

-- The values of the first row and the argument that each round reads
pub record Base : Type 0 where
  pub origin : ℕ
  pub clock : ℕ
  pub clock_origin : ℕ

-- The variables of the loop; `next_pc` is that of the row before.
pub record Tally : Type 0 where
  pub prior : ℕ
  pub next_pc : Option ℕ
  pub count : ℕ
  pub total : ℕ
  pub last : ℕ
  pub durations : List ℕ

unfoldable pub found_code : Option Bytes → Result DmaError Bytes
found_code none = err bad_hex
found_code (some code) = ok code

-- The three bytes at `pc`, from the first part that has it
unfoldable pub instruction_at : List Fragment → ℕ → Result DmaError Bytes
unfolding found_code
instruction_at [] pc = ok []
instruction_at (part ∷ rest) pc = do
  code ← found_code (from_hex part.code)
  let later = instruction_at rest pc in
      if leb part.origin pc && ltb (pc - part.origin) (length code)
      then ok (slice code (pc - part.origin) (pc - part.origin + 3))
      else later

-- `inst == b'\x8d\x14\x40'`
unfoldable pub starts_dma : Bytes → Bool
starts_dma inst = bytes_eq inst (0x8d ∷ 0x14 ∷ 0x40 ∷ [])

unfoldable pub count_delay : Tally → Bytes → ℕ → Result DmaError Tally
unfolding starts_dma
count_delay s inst duration =
    if starts_dma inst
    then if duration == 517 || duration == 518
      then ok (record s {
        last = duration - 4;
        total = s.total + (duration - 4);
        count = s.count + 1;
        durations = s.durations ++ ((duration - 4) ∷ []);
      })
      else err bad_delay
    else ok s

-- `count.to_bytes(2) + last.to_bytes(2) + total.to_bytes(4)`
unfoldable pub ledger : Tally → Bytes
ledger s = to_bytes 2 s.count ++ (to_bytes 2 s.last ++ to_bytes 4 s.total)

unfoldable pub continues : Option ℕ → ℕ → Bool
continues none pc = true
continues (some next) pc = pc == next

-- The native record has the clock and the next address of the row.
unfoldable pub matches_native : Base → Row → Bytes → Bool
matches_native x row native =
    (row.end - x.origin) % row.clock == 0
    && (from_bytes (take 4 native) == (row.end - x.origin) / row.clock + x.clock_origin
        && from_bytes (slice native 4 6) == row.next_pc)

-- One round, with the row's bytes of the ledger. A row starts at `prior`, never before the origin.
unfoldable pub round : Plan → Base → Tally → Row → Bytes → Bytes → Result DmaError Tally
unfolding continues matches_native instruction_at count_delay ledger fragments
round plan x s row native entry = do
  raise_if (not (row.start == s.prior && row.clock == x.clock)) bad_window
  raise_if (not (matches_native x row native)) mismatch
  inst ← instruction_at (fragments plan) row.pc
  raise_if
      (not (
        not (length inst == 0)
        && (get_or inst 0 0 == row.opcode && get_or native 17 0 == row.opcode)))
      other_opcode
  raise_if (not ((row.end - row.start) % row.clock == 0)) fractional
  counted ← count_delay s inst ((row.end - row.start) / row.clock)
  raise_if (not (ltb counted.count 65536 && ltb counted.total (2 ^ 32))) too_large
  raise_if (not (bytes_eq entry (ledger counted))) other_ledger
  ok (record counted { prior = row.end; next_pc = some row.next_pc })

unfoldable pub rounds :
    Plan → Base → Tally → List RowFields → List TextArgument → Bytes → Result DmaError Tally
unfolding round
rounds plan x s (f ∷ rows) (t ∷ texts) raw = do
  row ← bounded_row f
  raise_if (not (continues s.next_pc row.pc)) other_pc
  native ← exact_hex t 2080
  next ← round plan x s row native (take 8 raw)
  rounds plan x next rows texts (drop 8 raw)
rounds plan x s _ _ raw = ok s

-- The dictionary that `timing` returns
pub record Timing : Type 0 where
  pub boundaries : ℕ
  pub span_cycles : ℕ
  pub dma_transfers : ℕ
  pub dma_stall_cycles : ℕ
  pub delays : List ℕ

unfoldable pub sized_list : {A : Type 0} → Listed A → ℕ → DmaError → Result DmaError (List A)
sized_list (listed rows) size e = if length rows == size then ok rows else err e
sized_list not_listed size e = err e

-- The loop from the first row on; without a row the code fails at `rows[0]`.
unfoldable pub account :
    Plan → ℕ → List RowFields → List TextArgument → Bytes → Result DmaError Timing
unfolding rounds
account plan start [] texts raw = err no_ledger
account plan start (f ∷ rows) texts raw = do
  first ← bounded_row f
  done ←
      rounds plan (record { origin = first.start; clock = first.clock; clock_origin = start })
        (record {
          prior = first.start;
          next_pc = none;
          count = 0;
          total = 0;
          last = 0;
          durations = [];
        })
        (f ∷ rows) texts raw
  ok (record {
    boundaries = length (f ∷ rows);
    span_cycles = (done.prior - first.start) / first.clock;
    dma_transfers = done.count;
    dma_stall_cycles = done.total;
    delays = done.durations;
  })

unfoldable pub timing : Plan → Listed RowArgument → Actual → Value → Result DmaError Timing
unfolding clock_start sized_list account
timing plan timings actual clock_origin = do
  start ← clock_start clock_origin
  arguments ← sized_list timings plan.steps no_ledger
  raw ← exact_hex actual.dma_records (8 * plan.steps)
  state ← exact_hex actual.dma_state 8
  raise_if (not (bytes_eq state (drop (8 * plan.steps - 8) raw))) other_final
  texts ← sized_list actual.records plan.steps no_records
  rows ← typed_rows arguments
  account plan start rows texts raw
