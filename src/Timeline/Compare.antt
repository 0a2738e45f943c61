-- ===== src/Timeline/Compare.antt =====
-- tools/verify_timeline.py, compare, for the plans without a mapper, and the boot row of
-- tools/timeline_fixture.py, expected_initial. A report is a value parsed from JSON.
pub mod Equal
mod Tests
use nes2snes.Common.{
  ℕ, suc, ◌+◌, ◌-◌, ◌*◌, ◌/◌, ◌%◌, Bool, true, false, not, ◌&&◌, ◌||◌, none, some,
}
use nes2snes.Common.{
  List, [], ◌∷◌, length, map, set, get_or, slice, replicate, ltb, leb, ◌==◌, if◌then◌else◌,
}
use nes2snes.Common.{
  Bytes, bytes_eq, from_bytes, Result, ok, err, ◌>>=◌, ◌>>◌, raise_if, as_error, Value, nat, int,
  bool,
}
use nes2snes.Common.Text.{TextArgument, text, not_text, from_hex}
use nes2snes.Timeline.Events.{Event}
use nes2snes.Timeline.Plan.{Program, Checked, validate_plan}

-- The errors of compare, by what their messages name.
pub data CompareError : Type 0 where
  bad_plan malformed incomplete other_plan incomplete_stream bad_hex : CompareError
  other_boot malformed_row different unordered bad_decision : CompareError
  bad_cursor events_left : CompareError

pub data RecordsArgument : Type 0 where
  records : List TextArgument → RecordsArgument
  not_records : RecordsArgument

pub record Original : Type 0 where
  -- `complete is True`, `fault is not None`
  pub complete : Bool
  pub fault : Bool
  pub name : TextArgument
  pub rows : RecordsArgument

pub record Native : Type 0 where
  pub complete : Bool
  pub fault : Bool
  pub marker : Value
  pub status : Value
  pub completed_steps : Value
  pub rows : RecordsArgument

unfoldable pub poke : ℕ → Bytes → Bytes → Bytes
poke i [] data_bytes = data_bytes
poke i (b ∷ rest) data_bytes = poke (suc i) rest (set data_bytes i b)

-- The boot values in the order stack, a, x, y, seed, counter
unfoldable pub expected_initial : Checked → Bytes
unfolding poke
expected_initial c =
    let stack = get_or c.boot 0 0 in
    let header =
      poke 4
        (c.origin % 256
          ∷ c.origin / 256
          ∷ get_or c.boot 1 0
          ∷ get_or c.boot 2 0
          ∷ get_or c.boot 3 0
          ∷ 0x24
          ∷ stack
          ∷ [])
        (replicate (32 + c.size) 0) in
    set (set (set header 0x40 (get_or c.boot 4 0)) 0x41 (get_or c.boot 5 0)) (0x120 + stack) 0x24

unfoldable pub is_int : Value → Bool
is_int (int z) = true
is_int v = false

unfoldable pub is_number : Value → ℕ → Bool
is_number (nat n) k = n == k
is_number v k = false

unfoldable pub same_text : TextArgument → TextArgument → Bool
same_text (text s) (text t) = bytes_eq s t
same_text s t = false

unfoldable pub hex_row : TextArgument → Result CompareError Bytes
hex_row (text t) = elim (from_hex t) [ none ↦ err bad_hex | some bytes ↦ ok bytes ]
hex_row not_text = err bad_hex

-- The counters of the loop; `executed` counts each opcode.
pub record Progress : Type 0 where
  pub latest : ℕ
  pub irq : ℕ
  pub nmi : ℕ
  pub crossings : ℕ
  pub executed : List (ℕ × ℕ)

-- `ops[key] = ops.get(key, 0) + 1`
unfoldable pub count_up : ℕ → List (ℕ × ℕ) → List (ℕ × ℕ)
count_up opcode [] = (opcode, 1) ∷ []
count_up opcode ((k, n) ∷ rest) =
    let later = count_up opcode rest in if k == opcode then (k, suc n) ∷ rest else (k, n) ∷ later

unfoldable pub all_zero : Bytes → Bool
all_zero [] = true
all_zero (b ∷ rest) = b == 0 && all_zero rest

-- `sum(e['cycle'] <= now - cost for e in plan['events'])`
unfoldable pub events_until : ℕ → List Event → ℕ
events_until time [] = 0
events_until time (e ∷ rest) =
    let later = events_until time rest in if leb e.cycle time then suc later else later

unfoldable pub is_branch_opcode : ℕ → Bool
is_branch_opcode o = leb 0x10 o && (leb o 0xf0 && o % 32 == 16)

-- A row of both streams, which must be the same; step `i` of the plan
unfoldable pub compare_row : Checked → ℕ → Progress → Bytes → Bytes → Result CompareError Progress
unfolding all_zero events_until is_branch_opcode count_up
compare_row c i p one two =
    let at : ℕ → ℕ = (λ k. get_or one k 0) in
    let now = from_bytes (slice one 0 4) in
    do
      raise_if (not (length one == 32 + c.size) || not (length two == 32 + c.size)) malformed_row
      raise_if (not (bytes_eq one two)) different
      raise_if
          (not (from_bytes (slice one 18 20) == i)
            || (not (now == p.latest + at 14 + at 15) || not (all_zero (slice one 20 32))))
          unordered
      raise_if (not (leb (at 16) 2) || not (at 15 == (if at 16 == 0 then 0 else 7))) bad_decision
      raise_if (not (at 13 == events_until (now - at 15) c.events)) bad_cursor
      ok (record {
        latest = now;
        irq = (if at 16 == 1 then suc p.irq else p.irq);
        nmi = (if at 16 == 2 then suc p.nmi else p.nmi);
        crossings =
            (if is_branch_opcode (at 17) && at 14 == 4 then suc p.crossings else p.crossings);
        executed = count_up (at 17) p.executed;
      })

-- The loop from step `i` on, with `one[13]` of the row before; both streams have the same length.
unfoldable pub rows_loop :
    Checked
    → ℕ
    → Progress
    → ℕ
    → List TextArgument
    → List TextArgument
    → Result CompareError (Progress × ℕ)
unfolding hex_row compare_row
rows_loop c i p cursor [] bs = ok (p, cursor)
rows_loop c i p cursor (a ∷ left) [] = ok (p, cursor)
rows_loop c i p cursor (a ∷ left) (b ∷ bs) = do
  one ← hex_row a
  two ← hex_row b
  next ← compare_row c i p one two
  rows_loop c (suc i) next (get_or one 13 0) left bs

pub record Compared : Type 0 where
  pub steps : ℕ
  pub cycles : ℕ
  pub irq_entries : ℕ
  pub nmi_entries : ℕ
  pub branch_page_crossings : ℕ
  pub executed_opcodes : List (ℕ × ℕ)
  pub record_bytes : ℕ

abbrev pub nothing_yet : Progress
nothing_yet = record { latest = 0; irq = 0; nmi = 0; crossings = 0; executed = [] }

-- The two streams of a completed run: the boot row, and the rows behind it.
unfoldable pub compare_streams :
    Checked → RecordsArgument → RecordsArgument → Result CompareError Compared
unfolding hex_row expected_initial rows_loop
compare_streams c (records (boot ∷ left)) (records bs) = do
  raise_if (not (length left == c.steps) || not (length bs == c.steps)) incomplete_stream
  first ← hex_row boot
  raise_if (not (bytes_eq first (expected_initial c))) other_boot
  (p, cursor) ← rows_loop c 1 nothing_yet 0 left bs
  raise_if (not (cursor == length c.events)) events_left
  ok (record {
    steps = c.steps;
    cycles = p.latest;
    irq_entries = p.irq;
    nmi_entries = p.nmi;
    branch_page_crossings = p.crossings;
    executed_opcodes = p.executed;
    record_bytes = c.steps * (32 + c.size);
  })
compare_streams c expected actual = err incomplete_stream

unfoldable pub compare : Program → Original → Native → Result CompareError Compared
unfolding validate_plan is_int is_number same_text compare_streams
compare plan original native = do
  c ← as_error bad_plan (validate_plan plan)
  raise_if
      (not (is_int native.marker && (is_int native.status && is_int native.completed_steps))
        || (original.fault || native.fault))
      malformed
  raise_if
      (not original.complete
        || (not native.complete
            || (not (is_number native.marker 0x5a)
                || (not (is_number native.status 0)
                    || not (is_number native.completed_steps c.steps)))))
      incomplete
  raise_if (not (same_text original.name plan.name)) other_plan
  compare_streams c original.rows native.rows
