-- ===== src/NativeSafe/Cells.antt =====
-- Why a native replacement is safe: which cell an access reaches on either machine.
use nes2snes.Common.{ℕ, ◌+◌, ◌%◌, ◌<◌, ◌≡◌, some, arith}
use nes2snes.Common.{Option-cases, true, ok, nat, inl, inr}
use nes2snes.Common.Bits.{bit_and_low}
use nes2snes.Opcodes.{Mode, Op, ops}
use nes2snes.NativeSafe.{Proof, choose, fitting, replacement, is_access}

-- The address that the 6502 reaches with an operand and an index.
unfoldable pub address : Mode → ℕ → ℕ → ℕ
address Mode.zpx v i = (v + i) % 256
address Mode.zpy v i = (v + i) % 256
address Mode.absx v i = v + i
address Mode.absy v i = v + i
address _ v i = v

-- The address that the 65816 reaches with D = 0 and 8-bit indices: a sum in any indexed mode.
unfoldable pub native_address : Mode → ℕ → ℕ → ℕ
native_address Mode.zpx n i = n + i
native_address Mode.zpy n i = n + i
native_address Mode.absx n i = n + i
native_address Mode.absy n i = n + i
native_address _ n i = n

-- Internal RAM has 0x800 bytes, mirrored up to 0x2000.
unfoldable pub SameCell : Mode → ℕ → ℕ → ℕ → Type 0
unfolding address native_address
SameCell m v n i =
    (address m v i < 0x2000)
    × (native_address m n i < 0x800)
    × (native_address m n i ≡ address m v i % 0x800)

choose-SameCell :
    (m : Mode) (v n : ℕ) (proof : Proof) (i : ℕ)
    → choose m v ≡ some (n, proof)
    → i < 256
    → SameCell m v n i
unfolding choose SameCell
choose-SameCell Mode.zpx v n proof i h lt = ground arith
choose-SameCell Mode.zpy v n proof i h lt = ground arith
choose-SameCell Mode.abs v n proof i h lt = ground (arith, bit_and_low 11 v)
choose-SameCell Mode.absx v n proof i h lt = ground (arith, bit_and_low 11 v)
choose-SameCell Mode.absy v n proof i h lt = ground (arith, bit_and_low 11 v)
choose-SameCell Mode.imp v n proof i h lt = cc
choose-SameCell Mode.acc v n proof i h lt = cc
choose-SameCell Mode.imm v n proof i h lt = cc
choose-SameCell Mode.zp v n proof i h lt = cc
choose-SameCell Mode.ix v n proof i h lt = cc
choose-SameCell Mode.iy v n proof i h lt = cc
choose-SameCell Mode.rel v n proof i h lt = cc
choose-SameCell Mode.ind v n proof i h lt = cc

-- A replacement by another operand is given only for documented accesses. For every 8-bit index
-- both then reach the same cell of internal RAM: the address of the 6502 is below 0x2000, that of
-- the native instruction is its remainder by 0x800.
pub replacement-SameCell :
    (opcode v n : ℕ) (proof : Proof) (i : ℕ)
    → replacement opcode (nat v) ≡ ok (some (n, proof))
    → i < 256
    → (op : _) × (ops opcode ≡ some op) × (is_access op.name ≡ true) × SameCell op.mode v n i
unfolding replacement fitting
replacement-SameCell opcode v n proof i h lt = elim (Option-cases (ops opcode)) [
  | inl e ↦ absurd (ground (arith, h, e))
  | inr (op, e) ↦ (op, e, accessed op e, cell op e)
]
  where
    accessed : (op : Op) → ops opcode ≡ some op → is_access op.name ≡ true
    accessed op e = ground (arith, h, e)

    cell : (op : Op) → ops opcode ≡ some op → SameCell op.mode v n i
    cell op e = choose-SameCell op.mode v n proof i chosen lt
      where
        chosen : choose op.mode v ≡ some (n, proof)
        chosen = ground (arith, h, e)
