-- ===== src/ControlFlow/Tests.antt =====
-- A program of which two instructions were observed, and the theorem at it.
use nes2snes.Common.{◌≡◌, refl, some, Option}
use nes2snes.Common.{List, [], ◌∷◌, Bytes, ok, err, ℤ, pos, negsuc}
use nes2snes.Opcodes.{ops}
use nes2snes.Opcodes.Encode.{same_name, same_mode}
use nes2snes.ControlFlow.{overlapping, unsupported_opcode, Expansion, expand}
use nes2snes.ControlFlow.Ends.{expand-total}

-- BNE +1; an operand; INX; JSR $0000; RTS; the branch and the call were observed.
abbrev prg : Bytes
prg = 0xd0 ∷ 0x01 ∷ 0xe8 ∷ 0x20 ∷ 0x00 ∷ 0x00 ∷ 0x60 ∷ []

abbrev counts : List ℤ
counts = pos 3 ∷ pos 0 ∷ pos 0 ∷ pos 2 ∷ pos 0 ∷ pos 0 ∷ pos 0 ∷ []

-- INX is inferred, and RTS is not: the call was never seen to return.
abbrev found : Expansion
found = record {
  result = pos 3 ∷ pos 0 ∷ negsuc 0 ∷ pos 2 ∷ pos 0 ∷ pos 0 ∷ pos 0 ∷ [];
  pcs = 0x8000 ∷ 0 ∷ 0x8002 ∷ 0x8003 ∷ 0 ∷ 0 ∷ 0 ∷ [];
  inferred_offsets = 2 ∷ [];
  unresolved_direct_edges = 1;
  nonreturning_call_targets = 0 ∷ [];
}

expanded : expand prg counts (0x8000 ∷ 0 ∷ 0 ∷ 0x8003 ∷ 0 ∷ 0 ∷ 0 ∷ []) ≡ ok (some found)
unfolding expand ops same_name same_mode
expanded = refl

refused :
    (expand prg (pos 1 ∷ pos 1 ∷ []) [] ≡ err overlapping)
    × (expand (0x02 ∷ []) (pos 1 ∷ []) (0 ∷ []) ≡ err unsupported_opcode)
unfolding expand ops same_name same_mode
refused = (refl, refl)

expand-total_example : (x : Expansion) × (◌≡◌ {A = Option Expansion} (some found) (some x))
expand-total_example =
    expand-total prg counts (0x8000 ∷ 0 ∷ 0 ∷ 0x8003 ∷ 0 ∷ 0 ∷ 0 ∷ []) (some found) refl expanded
