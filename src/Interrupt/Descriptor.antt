-- ===== src/Interrupt/Descriptor.antt =====
-- The descriptor that `enter` returns.
use nes2snes.Common.{ℕ, ◌+◌, ◌-◌, ◌*◌, ◌/◌, ◌%◌, ◌<◌, ◌≡◌, ◌≢◌, refl, bit_or, arith}
use nes2snes.Common.{length, get_or, ◌==◌, if◌then◌else◌, all_below, ne→==}
use nes2snes.Common.{ok, Bytes}
use nes2snes.Common.Bits.{byte_table}
use nes2snes.Interrupt.{
  Boundary, Sampled, kind, push_all, descriptor, record_bytes, enter_sampled, enter, from_bool,
  validate,
}
use nes2snes.Interrupt.Entry.{IsSampled, validate-IsSampled}

set_i : (p : ℕ) → p < 256 → bit_or p 4 ≡ p + (1 - p / 4 % 2) * 4
unfolding all_below
set_i = byte_table (λ p. bit_or p 4) (λ p. p + (1 - p / 4 % 2) * 4) refl

-- The descriptor after an entry of kind `k` with the stack pointer at `s`: I is set in P and nothing
-- else of it changes, the NMI latch is consumed by an NMI only, the IRQ level never, the address is
-- the vector's, and the decision and its seven cycles are recorded.
pub record IsEntered (b : Sampled) (k s : ℕ) (d : Bytes) : Type 0 where
  pub size : length d ≡ 16
  pub opcode : get_or d 0 0 ≡ b.opcode
  pub before_p : get_or d 1 0 ≡ b.before_p
  pub after_p : get_or d 2 0 ≡ b.after_p + (1 - b.after_p / 4 % 2) * 4
  pub irq : get_or d 3 0 ≡ from_bool b.irq
  pub nmi : get_or d 4 0 ≡ (if k == 2 then 0 else from_bool b.nmi)
  pub stack_pointer : get_or d 5 0 ≡ s
  pub pc : get_or d 6 0 + 256 * get_or d 7 0 ≡ (if k == 2 then b.nmi_vector else b.irq_vector)
  pub decision : get_or d 8 0 ≡ k
  pub cycles : get_or d 9 0 ≡ 7
  pub irq_vector : get_or d 12 0 + 256 * get_or d 13 0 ≡ b.irq_vector
  pub nmi_vector : get_or d 14 0 + 256 * get_or d 15 0 ≡ b.nmi_vector

descriptor-IsEntered : (b : Sampled) (k s : ℕ) → IsSampled b → IsEntered b k s (descriptor b k s)
unfolding descriptor record_bytes
descriptor-IsEntered b k s h = record {
  size = ground arith;
  opcode = ground arith;
  before_p = ground arith;
  after_p = ground (arith, set_i b.after_p h.after_byte);
  irq = ground arith;
  nmi = ground arith;
  stack_pointer = ground arith;
  pc = ground (arith, h.irq_word, h.nmi_word);
  decision = ground arith;
  cycles = ground arith;
  irq_vector = ground (arith, h.irq_word);
  nmi_vector = ground (arith, h.nmi_word);
}

enter_ok :
    (boundary : Boundary) (stack : Bytes) {b : Sampled}
    → validate boundary ≡ ok b
    → length stack ≡ 256
    → enter boundary stack ≡ ok (enter_sampled b stack)
unfolding enter
enter_ok boundary stack valid len = rw (valid, len)

-- What `enter` does to the registers and the stack for a boundary `b` that has passed its checks.
abbrev pub Outcome : Sampled → Bytes → Bytes × Bytes → Type 0
Outcome b stack (d, after) =
    (kind b ≡ 0 → (d ≡ record_bytes b) × (after ≡ stack))
    × (kind b ≢ 0 → IsEntered b (kind b) (push_all b stack).1 d × (after ≡ (push_all b stack).0))

enter_sampled-Outcome :
    (b : Sampled) (stack : Bytes) → IsSampled b → Outcome b stack (enter_sampled b stack)
unfolding enter_sampled
enter_sampled-Outcome b stack h = (
  (λ z. rw z (refl, refl)),
  λ z. rw (ne→== (kind b) 0 z) (descriptor-IsEntered b (kind b) (push_all b stack).1 h, refl),
)

-- An accepted boundary with a full stack page: without a request that is taken, `enter` returns the
-- boundary's record and the stack unchanged; else the three bytes are pushed and the descriptor is
-- that of an entry with the new stack pointer.
pub enter_lem :
    (boundary : Boundary) (stack : Bytes) {b : Sampled}
    → validate boundary ≡ ok b
    → length stack ≡ 256
    → (r : Bytes × Bytes) × (enter boundary stack ≡ ok r) × Outcome b stack r
enter_lem boundary stack {b} valid len = (
  enter_sampled b stack,
  enter_ok boundary stack valid len,
  enter_sampled-Outcome b stack (validate-IsSampled boundary valid),
)
