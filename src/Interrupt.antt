-- ===== src/Interrupt.antt =====
-- tools/interrupt_boundary.py: interrupt entry at an instruction boundary.
pub mod Entry
pub mod Stack
pub mod Descriptor
pub mod Expected
mod Tests
use nes2snes.Common.{
  ℕ, ◌+◌, ◌/◌, ◌%◌, bit_and, bit_or, Bool, true, false, not, ◌&&◌, Option, none, some,
}
use nes2snes.Common.{List, [], ◌∷◌, ◌++◌, length, get_or, set, replicate, ltb, ◌==◌, if◌then◌else◌}
use nes2snes.Common.{
  Result, ok, err, ◌>>=◌, ◌>>◌, raise_if, Value, nat, bool, in_range, Bytes, to_bytes,
}
use nes2snes.Opcodes.{ops}

-- The `ValueError`s, by what their messages name.
pub data BoundaryError : Type 0 where
  not_byte unsupported not_boolean not_address bad_stack : BoundaryError

pub record Boundary : Type 0 where
  pub opcode : Value
  pub before_p : Value
  pub after_p : Value
  pub irq : Value
  pub nmi : Value
  pub s : Value
  pub pc : Value
  pub irq_vector : Value
  pub nmi_vector : Value

-- A boundary whose fields have passed `validate`.
pub record Sampled : Type 0 where
  pub opcode : ℕ
  pub before_p : ℕ
  pub after_p : ℕ
  pub irq : Bool
  pub nmi : Bool
  pub s : ℕ
  pub pc : ℕ
  pub irq_vector : ℕ
  pub nmi_vector : ℕ

-- `opcode in SUPPORTED`: the documented opcodes but BRK.
unfoldable pub supported : ℕ → Bool
supported opcode = elim (ops opcode) [ some op ↦ not (opcode == 0) | none ↦ false ]

-- `opcode in DELAYED_I`: PLP, CLI and SEI.
unfoldable pub delayed_i : ℕ → Bool
delayed_i opcode = if opcode == 0x28 then true else if opcode == 0x58 then true else opcode == 0x78

abbrev pub integer : Value → ℕ → BoundaryError → Result BoundaryError ℕ
integer value maximum e = elim (in_range value maximum) [ some n ↦ ok n | none ↦ err e ]

abbrev pub boolean : Value → Result BoundaryError Bool
boolean (bool b) = ok b
boolean _ = err not_boolean

-- Boundary.validate
unfoldable pub validate : Boundary → Result BoundaryError Sampled
unfolding supported
validate b = do
  opcode ← integer b.opcode 255 not_byte
  before_p ← integer b.before_p 255 not_byte
  after_p ← integer b.after_p 255 not_byte
  s ← integer b.s 255 not_byte
  raise_if (not (supported opcode)) unsupported
  irq ← boolean b.irq
  nmi ← boolean b.nmi
  pc ← integer b.pc 65535 not_address
  irq_vector ← integer b.irq_vector 65535 not_address
  nmi_vector ← integer b.nmi_vector 65535 not_address
  ok (record {
    opcode = opcode;
    before_p = before_p;
    after_p = after_p;
    irq = irq;
    nmi = nmi;
    s = s;
    pc = pc;
    irq_vector = irq_vector;
    nmi_vector = nmi_vector;
  })

abbrev pub from_bool : Bool → ℕ
from_bool b = if b then 1 else 0

-- Boundary.record, after `validate`
unfoldable pub record_bytes : Sampled → Bytes
record_bytes b =
    (b.opcode ∷ b.before_p ∷ b.after_p ∷ from_bool b.irq ∷ from_bool b.nmi ∷ b.s ∷ [])
    ++ (to_bytes 2 b.pc ++ (replicate 4 0 ++ (to_bytes 2 b.irq_vector ++ to_bytes 2 b.nmi_vector)))

abbrev pub polled_p : Sampled → ℕ
polled_p b = if delayed_i b.opcode then b.before_p else b.after_p

-- The decision: 2 for NMI, 1 for IRQ, 0 for no request.
unfoldable pub kind : Sampled → ℕ
unfolding delayed_i
kind b = if b.nmi then 2 else if b.irq && bit_and (polled_p b) 4 == 0 then 1 else 0

-- One round of the loop that pushes: `result[s] = value; s = (s - 1) & 255`.
unfoldable pub push : Bytes × ℕ → ℕ → Bytes × ℕ
push (stack, s) value = (set stack s value, bit_and (s + 255) 255)

abbrev pub pushed_p : Sampled → ℕ
pushed_p b = bit_or (bit_and b.after_p 0xef) 0x20

unfoldable pub push_all : Sampled → Bytes → Bytes × ℕ
unfolding push
push_all b stack = push (push (push (stack, b.s) (b.pc / 256)) (bit_and b.pc 255)) (pushed_p b)

abbrev pub set_pair : Bytes → ℕ → ℕ → ℕ → Bytes
set_pair bs i low high = set (set bs i low) (i + 1) high

-- The descriptor's changes on an entry of the given kind, with the new stack pointer.
unfoldable pub descriptor : Sampled → ℕ → ℕ → Bytes
unfolding record_bytes
descriptor b k s =
    let raw = record_bytes b in
    let masked = set raw 2 (bit_or (get_or raw 2 0) 4) in
    let latched = if k == 2 then set masked 4 0 else masked in
    let moved = set latched 5 s in
    let vector = if k == 2 then b.nmi_vector else b.irq_vector in
    let entered = set_pair moved 6 (vector % 256) (vector / 256 % 256) in set_pair entered 8 k 7

unfoldable pub enter_sampled : Sampled → Bytes → Bytes × Bytes
unfolding kind push_all descriptor
enter_sampled b stack =
    if kind b == 0
    then (record_bytes b, stack)
    else (descriptor b (kind b) (push_all b stack).1, (push_all b stack).0)

unfoldable pub enter : Boundary → Bytes → Result BoundaryError (Bytes × Bytes)
unfolding validate enter_sampled
enter boundary stack = do
  b ← validate boundary
  raise_if (not (length stack == 256)) bad_stack
  ok (enter_sampled b stack)
