-- ===== src/Opcodes/Facts.antt =====
-- Facts about the whole instruction table, read off by evaluation.
use nes2snes.Common.{ℕ, ◌<◌, ◌≡◌, refl, Bool, true, ◌&&◌, none, some}
use nes2snes.Common.{List, [], ◌∷◌, arith, ltb, all_below, all_below→true}
use nes2snes.Opcodes.{Mnemonic, Mode, Op, mode_length, spec, find, ops}

below_256 : List (ℕ × Mnemonic × Mode) → Bool
below_256 [] = true
below_256 ((o, n, m) ∷ rest) = ltb o 256 && below_256 rest

find-lt :
    (k : ℕ) (l : List (ℕ × Mnemonic × Mode)) (op : Op)
    → below_256 l ≡ true
    → find k l ≡ some op
    → (k < 256) × (op.size ≡ mode_length op.mode)
unfolding below_256 find
find-lt k [] op b h = cc
find-lt k ((o, n, m) ∷ rest) op b h = ground (arith, find-lt k rest op)

-- An opcode of the table is a byte, and its size is that of its addressing mode.
pub ops-lt : (k : ℕ) {op : Op} → ops k ≡ some op → (k < 256) × (op.size ≡ mode_length op.mode)
unfolding ops below_256
ops-lt k {op} h = find-lt k spec op refl h

pub mode_length-pos : (m : Mode) → 0 < mode_length m
unfolding mode_length
mode_length-pos m = ground arith

pub op_size-pos : (k : ℕ) {op : Op} → ops k ≡ some op → 0 < op.size
op_size-pos k {op} h = omega (arith, (ops-lt k h).1, mode_length-pos op.mode)

-- What holds of every opcode of the table, checked one by one.
unfoldable pub each_op : (ℕ → Op → Bool) → ℕ → Bool
each_op p k = elim (ops k) [ none ↦ true | some op ↦ p k op ]

pub each_op→true :
    (p : ℕ → Op → Bool) (k : ℕ) {op : Op}
    → all_below 256 (each_op p) ≡ true
    → ops k ≡ some op
    → p k op ≡ true
unfolding each_op
each_op→true p k {op} table h =
    rw (h, each_op) at (all_below→true 256 (each_op p) k table (ops-lt k h).0)
