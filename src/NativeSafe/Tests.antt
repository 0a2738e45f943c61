-- ===== src/NativeSafe/Tests.antt =====
-- A program with LDA $0805 and NOP, and each theorem at it.
use nes2snes.Common.{ℕ, ◌+◌, ◌≤◌, ◌≡◌, refl, none, some, ok, err, nat, bool, true, Bytes, [], ◌∷◌}
use nes2snes.Common.{arith, All, subst, ok_injective}
use nes2snes.Opcodes.{Op, ops}
use nes2snes.NativeSafe.{
  Proven, constant_internal_ram_mirror, internal_ram_mirror_no_page_crossing, operand_too_wide,
  not_a_cop, replacement, is_access, examine, rewrite, apply_loop, apply, choose, fitting,
}
use nes2snes.NativeSafe.Cells.{SameCell, replacement-SameCell}
use nes2snes.NativeSafe.Sites.{Fits, op_bytes}
use nes2snes.NativeSafe.Splice.{IsRewritten, apply-IsRewritten}

abbrev original : Bytes
original = 0xad ∷ 0x05 ∷ 0x08 ∷ 0xea ∷ []

abbrev classified : Bytes
classified = 0x02 ∷ 0xad ∷ 0x05 ∷ 0xea ∷ []

abbrev lda : Proven
lda = record {
  prg_offset = 0;
  opcode = 0xad;
  operand = 0x805;
  native_operand = 5;
  proof = constant_internal_ram_mirror;
}

abbrev offset : ℕ → ℕ
offset n = n

run :
    apply offset original classified (0 ∷ 3 ∷ [])
    ≡ ok (0xad ∷ 0x05 ∷ 0x00 ∷ 0xea ∷ [], lda ∷ [], 3 ∷ [])
unfolding apply apply_loop examine rewrite replacement choose fitting is_access ops
run = refl

unclassified : apply offset original original (0 ∷ []) ≡ err not_a_cop
unfolding apply apply_loop examine rewrite replacement choose fitting is_access ops
unclassified = refl

indexed :
    (replacement 0xbd (nat 0x1700) ≡ ok (some (0x700, internal_ram_mirror_no_page_crossing)))
    × (replacement 0xbd (nat 0x1701) ≡ ok none)
    × (replacement 0xb5 (bool true) ≡ ok none)
    × (replacement 0xb5 (nat 256) ≡ err operand_too_wide)
unfolding replacement choose fitting is_access ops
indexed = (refl, refl, refl, refl)

replacement-SameCell_example :
    (op : Op) × (ops 0xbd ≡ some op)
    × (is_access op.name ≡ true)
    × SameCell op.mode 0x1700 0x700 255
replacement-SameCell_example =
    replacement-SameCell 0xbd 0x1700 0x700 internal_ram_mirror_no_page_crossing 255 indexed.0
      (omega arith)

sites-Fits : All (λ s. Fits original (offset s)) (0 ∷ 3 ∷ [])
unfolding Fits op_bytes ops
sites-Fits = (
  λ opcode h. subst (λ k. 0 + op_bytes k ≤ 4) (ok_injective h) (omega arith),
  ((λ opcode h. subst (λ k. 3 + op_bytes k ≤ 4) (ok_injective h) (omega arith)), tt),
)

apply-IsRewritten_example :
    IsRewritten offset original classified
      (0 ∷ 3 ∷ [])
      classified
      (0xad ∷ 0x05 ∷ 0x00 ∷ 0xea ∷ [], lda ∷ [], 3 ∷ [])
apply-IsRewritten_example = apply-IsRewritten offset original classified (0 ∷ 3 ∷ []) sites-Fits run
