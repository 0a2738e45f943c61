-- ===== src/Interrupt/Entry.antt =====
-- Which request is taken, and what an accepted boundary looks like.
use nes2snes.Common.{
  suc, raise_if-not-ok, ℕ, ◌*◌, ◌/◌, ◌%◌, ◌<◌, ◌≡◌, refl, bit_and, arith, ◌⊎◌, ◌↔◌,
}
use nes2snes.Common.{true, false, not, all_below}
use nes2snes.Common.{
  ok, raise_if, >>=-eq-ok, Value, int, nat, negsuc, bool, other, subst, ok_injective,
}
use nes2snes.Common.Bits.{byte_table}
use nes2snes.Interrupt.{
  BoundaryError, not_byte, unsupported, not_address, Boundary, Sampled, kind, polled_p, supported,
  validate, integer, boolean,
}

bit_two : (p : ℕ) → p < 256 → bit_and p 4 ≡ p / 4 % 2 * 4
unfolding all_below
bit_two = byte_table (λ p. bit_and p 4) (λ p. p / 4 % 2 * 4) refl

-- The registers are bytes and the addresses words.
pub record IsSampled (b : Sampled) : Type 0 where
  pub opcode_supported : supported b.opcode ≡ true
  pub before_byte : b.before_p < 256
  pub after_byte : b.after_p < 256
  pub s_byte : b.s < 256
  pub pc_word : b.pc < 65536
  pub irq_word : b.irq_vector < 65536
  pub nmi_word : b.nmi_vector < 65536

integer-lt :
    (v : Value) (maximum : ℕ) (e : BoundaryError) {n : ℕ}
    → integer v maximum e ≡ ok n
    → n < suc maximum
integer-lt (nat m) maximum e h = ground arith
integer-lt (int (negsuc m)) maximum e h = cc
integer-lt (bool b) maximum e h = cc
integer-lt other maximum e h = cc

-- What `validate` lets through has its fields in range, and an opcode that can precede an entry.
pub validate-IsSampled : (b : Boundary) {r : Sampled} → validate b ≡ ok r → IsSampled r
unfolding validate
validate-IsSampled b {r} h =
    let (opcode, e1, h1) = >>=-eq-ok (integer b.opcode 255 not_byte) _ h in
    let (before_p, e2, h2) = >>=-eq-ok (integer b.before_p 255 not_byte) _ h1 in
    let (after_p, e3, h3) = >>=-eq-ok (integer b.after_p 255 not_byte) _ h2 in
    let (s, e4, h4) = >>=-eq-ok (integer b.s 255 not_byte) _ h3 in
    let (u, e5, h5) = >>=-eq-ok (raise_if (not (supported opcode)) unsupported) _ h4 in
    let (irq, e6, h6) = >>=-eq-ok (boolean b.irq) _ h5 in
    let (nmi, e7, h7) = >>=-eq-ok (boolean b.nmi) _ h6 in
    let (pc, e8, h8) = >>=-eq-ok (integer b.pc 65535 not_address) _ h7 in
    let (irq_vector, e9, h9) = >>=-eq-ok (integer b.irq_vector 65535 not_address) _ h8 in
    let (nmi_vector, e10, h10) = >>=-eq-ok (integer b.nmi_vector 65535 not_address) _ h9 in
    subst IsSampled (ok_injective h10) (record {
      opcode_supported = raise_if-not-ok (supported opcode) unsupported e5;
      before_byte = integer-lt b.before_p 255 not_byte e2;
      after_byte = integer-lt b.after_p 255 not_byte e3;
      s_byte = integer-lt b.s 255 not_byte e4;
      pc_word = integer-lt b.pc 65535 not_address e8;
      irq_word = integer-lt b.irq_vector 65535 not_address e9;
      nmi_word = integer-lt b.nmi_vector 65535 not_address e10;
    })

-- The interrupt-disable flag that the poll saw: of the old P after PLP, CLI and SEI, else of the new.
abbrev pub masked : Sampled → ℕ
masked b = polled_p b / 4 % 2

-- NMI is taken whenever it is requested; IRQ exactly when it alone is requested and the polled
-- interrupt-disable flag is clear; otherwise nothing is.
pub kind_iff :
    (b : Sampled)
    → IsSampled b
    → ((kind b ≡ 2) ↔ (b.nmi ≡ true))
      × ((kind b ≡ 1) ↔ ((b.nmi ≡ false) × (b.irq ≡ true) × (masked b ≡ 0)))
      × ((kind b ≡ 0) ↔ ((b.nmi ≡ false) × ((b.irq ≡ false) ⊎ (masked b ≡ 1))))
unfolding kind
kind_iff b h = ground (arith, bit_two b.before_p h.before_byte, bit_two b.after_p h.after_byte)
