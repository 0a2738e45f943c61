-- ===== src/Interrupt/Expected.antt =====
-- tools/verify_interrupt_boundary.py: expected, which holds the record of an interrupt entry on the
-- original machine against `enter`.
pub mod Agrees
use nes2snes.Common.{
  ℕ, ◌+◌, ◌/◌, ◌%◌, Bool, true, false, not, ◌&&◌, ◌||◌, Option, none, some, List, [], ◌∷◌, length,
  set, leb, ◌==◌, if◌then◌else◌,
}
use nes2snes.Common.{
  Result, ok, err, ◌>>=◌, ◌>>◌, raise_if, as_error, Value, nat, in_range, Bytes, bytes_eq,
}
use nes2snes.Common.Text.{TextArgument, text, not_text, from_hex}
use nes2snes.Interrupt.{Boundary, Sampled, validate, record_bytes, enter, set_pair}

-- The `RuntimeError`s, by what their messages name; `refused` is a `ValueError` of Boundary.
pub data ExpectedError : Type 0 where
  malformed_record malformed_field incomplete refused bad_target bad_elapsed : ExpectedError
  changed_registers model_differs : ExpectedError

-- A dictionary with the fields of `Observation` as its keys.
pub record Fields : Type 0 where
  pub boundary_time : Value
  pub next_time : Value
  pub pc : Value
  pub next_pc : Value
  pub before_p : Value
  pub after_p : Value
  pub next_p : Value
  pub s : Value
  pub next_s : Value
  pub a : Value
  pub x : Value
  pub y : Value
  pub next_a : Value
  pub next_x : Value
  pub next_y : Value
  pub complete : Value
  pub before_stack : TextArgument
  pub after_stack : TextArgument

pub data ObservationArgument : Type 0 where
  fields : Fields → ObservationArgument
  other_keys : ObservationArgument

-- The fields after their checks.
pub record Observation : Type 0 where
  pub boundary_time : ℕ
  pub next_time : ℕ
  pub pc : ℕ
  pub next_pc : ℕ
  pub before_p : ℕ
  pub after_p : ℕ
  pub next_p : ℕ
  pub s : ℕ
  pub next_s : ℕ
  pub a : ℕ
  pub x : ℕ
  pub y : ℕ
  pub next_a : ℕ
  pub next_x : ℕ
  pub next_y : ℕ
  pub before_stack : Bytes
  pub after_stack : Bytes

-- The `row` of the plan, as far as it is read.
pub record Plan : Type 0 where
  pub opcode : Value
  pub irq : Value
  pub nmi : Value

-- A field of the given C type, by the largest number of that type
unfoldable pub number_field : Value → ℕ → Result ExpectedError ℕ
number_field v maximum = elim (in_range v maximum) [ some n ↦ ok n | none ↦ err malformed_field ]

unfoldable pub whole_page : Option Bytes → Result ExpectedError Bytes
whole_page none = err malformed_field
whole_page (some page) = if length page == 256 then ok page else err malformed_field

unfoldable pub stack_field : TextArgument → Result ExpectedError Bytes
unfolding whole_page
stack_field (text t) = whole_page (from_hex t)
stack_field not_text = err malformed_field

unfoldable pub check_observation : ObservationArgument → Result ExpectedError Observation
unfolding number_field stack_field
check_observation other_keys = err malformed_record
check_observation (fields f) = do
  boundary_time ← number_field f.boundary_time 0xffffffffffffffff
  next_time ← number_field f.next_time 0xffffffffffffffff
  pc ← number_field f.pc 0xffff
  next_pc ← number_field f.next_pc 0xffff
  before_p ← number_field f.before_p 0xff
  after_p ← number_field f.after_p 0xff
  next_p ← number_field f.next_p 0xff
  s ← number_field f.s 0xff
  next_s ← number_field f.next_s 0xff
  a ← number_field f.a 0xff
  x ← number_field f.x 0xff
  y ← number_field f.y 0xff
  next_a ← number_field f.next_a 0xff
  next_x ← number_field f.next_x 0xff
  next_y ← number_field f.next_y 0xff
  complete ← number_field f.complete 0xff
  before_stack ← stack_field f.before_stack
  after_stack ← stack_field f.after_stack
  raise_if (not (complete == 1)) incomplete
  ok (record {
    boundary_time = boundary_time;
    next_time = next_time;
    pc = pc;
    next_pc = next_pc;
    before_p = before_p;
    after_p = after_p;
    next_p = next_p;
    s = s;
    next_s = next_s;
    a = a;
    x = x;
    y = y;
    next_a = next_a;
    next_x = next_x;
    next_y = next_y;
    before_stack = before_stack;
    after_stack = after_stack;
  })

-- The constructor call, with the two vectors of the fixture
unfoldable pub boundary_of : Plan → Observation → Boundary
boundary_of row o = record {
  opcode = row.opcode;
  before_p = nat o.before_p;
  after_p = nat o.after_p;
  irq = row.irq;
  nmi = row.nmi;
  s = nat o.s;
  pc = nat o.pc;
  irq_vector = nat 0xe200;
  nmi_vector = nat 0xe300;
}

unfoldable pub observed_kind : Observation → Result ExpectedError ℕ
observed_kind o =
    if o.next_pc == 0xe300
    then ok 2
    else if o.next_pc == 0xe200
    then ok 1
    else if o.next_pc == o.pc
    then ok 0
    else err bad_target

-- `7 if kind else 0`
unfoldable pub entry_cycles : ℕ → ℕ
entry_cycles k = if k == 0 then 0 else 7

unfoldable pub same_registers : Observation → Bool
same_registers o = o.next_a == o.a && (o.next_x == o.x && o.next_y == o.y)

-- The descriptor that the observation gives, from the one of before the entry
unfoldable pub observed_bytes : Bytes → Observation → ℕ → ℕ → Bytes
observed_bytes initial o k elapsed =
    let registers = set (set initial 2 o.next_p) 5 o.next_s in
    let moved = set_pair registers 6 (o.next_pc % 256) (o.next_pc / 256 % 256) in
    let counted = set_pair moved 8 k elapsed in if k == 2 then set counted 4 0 else counted

-- `modeled != (bytes(result), after_stack)`, negated
unfoldable pub agrees : Bytes × Bytes → Bytes → Bytes → Bool
agrees (d, after) result after_stack = bytes_eq d result && bytes_eq after after_stack

unfoldable pub expected_of :
    Plan → Observation → Result ExpectedError (Bytes × Bytes × Bytes × Bytes)
unfolding boundary_of observed_kind entry_cycles same_registers observed_bytes agrees
expected_of row o = do
  b ← as_error refused (validate (boundary_of row o))
  k ← observed_kind o
  raise_if (not (o.next_time == o.boundary_time + entry_cycles k)) bad_elapsed
  raise_if (not (same_registers o)) changed_registers
  modeled ← as_error refused (enter (boundary_of row o) o.before_stack)
  raise_if
      (not (agrees modeled (observed_bytes (record_bytes b) o k (entry_cycles k)) o.after_stack))
      model_differs
  ok (
    record_bytes b,
    o.before_stack,
    observed_bytes (record_bytes b) o k (entry_cycles k),
    o.after_stack,
  )

unfoldable pub expected :
    Plan → ObservationArgument → Result ExpectedError (Bytes × Bytes × Bytes × Bytes)
unfolding check_observation expected_of
expected row obs = do o ← check_observation obs; expected_of row o
