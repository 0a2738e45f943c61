-- ===== src/NativeSafe/Sites.antt =====
-- What is found at a site: a safe replacement of the instruction there, or none.
use nes2snes.Opcodes.Facts.{op_size-pos}
use nes2snes.Common.{ℕ, ◌+◌, ◌≤◌, ◌<◌, ◌≡◌, refl, none, some, arith, ap, ◌∙◌, sym}
use nes2snes.Common.{Option, Option-cases, true, ok, nat, inl, inr, ◌⊎◌}
use nes2snes.Common.{List, [], ◌∷◌, All, length, get_or, Bytes, >>=-eq-ok}
use nes2snes.Opcodes.{Op, ops}
use nes2snes.NativeSafe.Operand.{IsOperand, IsWrittenAt, operand_at-IsOperand, is_cop_lem}
use nes2snes.NativeSafe.{
  Proof, Proven, enter_choice, operand_at, known, replacement, index, known, examine, is_cop,
}

-- The bytes of an instruction.
unfoldable pub op_bytes : ℕ → ℕ
op_bytes opcode = elim (ops opcode) [ none ↦ 0 | some op ↦ op.size ]

-- The instruction at an offset, if it is documented, lies within the program.
unfoldable pub Fits : Bytes → ℕ → Type 0
unfolding op_bytes
Fits prg offset =
    (opcode : ℕ) → index prg offset ≡ ok opcode → offset + op_bytes opcode ≤ length prg

-- A recorded replacement is that of the instruction in the original program, with the operand that
-- stands there, where the classified code has an interrupt for its opcode.
pub record IsProven (prg code : Bytes) (p : Proven) : Type 0 where
  pub original : index prg p.prg_offset ≡ ok p.opcode
  pub stands : IsOperand prg p.prg_offset (op_bytes p.opcode) p.operand
  pub marked : (get_or code p.prg_offset 0 ≡ 2) × (get_or code (p.prg_offset + 1) 0 ≡ p.opcode)
  pub safe : replacement p.opcode (nat p.operand) ≡ ok (some (p.native_operand, p.proof))

-- The instruction in the original program has no safe replacement.
abbrev pub IsLeft : Bytes → ℕ → Type 0
IsLeft prg offset =
    (opcode : ℕ) × (v : ℕ) × (index prg offset ≡ ok opcode)
    × IsOperand prg offset (op_bytes opcode) v
    × (replacement opcode (nat v) ≡ ok none)

-- No byte belongs to the instructions of both.
abbrev pub IsApart : Proven → Proven → Type 0
IsApart p q =
    (p.prg_offset + op_bytes p.opcode ≤ q.prg_offset)
    ⊎ (q.prg_offset + op_bytes q.opcode ≤ p.prg_offset)

-- An instruction that no later one overlaps stands in the result with its new operand.
abbrev pub AreWritten : Bytes → List Proven → Type 0
AreWritten out [] = Unit
AreWritten out (p ∷ ps) =
    (All (IsApart p) ps
      → IsWrittenAt out p.prg_offset (op_bytes p.opcode) p.opcode p.native_operand)
    × AreWritten out ps

unfoldable pub Outside : ℕ → Proven → Type 0
Outside i p = (i < p.prg_offset) ⊎ (p.prg_offset + op_bytes p.opcode ≤ i)

enter_choice-some :
    (code : Bytes) (offset opcode operand size : ℕ) (choice : Option (ℕ × Proof)) (p : Proven)
    {size' : ℕ}
    → enter_choice code offset opcode operand size choice ≡ ok (some (p, size'))
    → (p.prg_offset ≡ offset)
      × (p.opcode ≡ opcode)
      × (p.operand ≡ operand)
      × (size' ≡ size)
      × (choice ≡ some (p.native_operand, p.proof))
      × (is_cop code offset opcode ≡ true)
unfolding enter_choice
enter_choice-some code offset opcode operand size none p h = cc
enter_choice-some code offset opcode operand size (some (n, proof)) p h = ground (arith, h)

enter_choice-none :
    (code : Bytes) (offset opcode operand size : ℕ) (choice : Option (ℕ × Proof))
    → enter_choice code offset opcode operand size choice ≡ ok none
    → choice ≡ none
unfolding enter_choice
enter_choice-none code offset opcode operand size none h = refl
enter_choice-none code offset opcode operand size (some (n, proof)) h = ground (arith, h)

known-ok : (opcode : ℕ) (op : Op) → known opcode ≡ ok op → ops opcode ≡ some op
known-ok opcode op h = elim (Option-cases (ops opcode)) [
  | inl none_found ↦ absurd (ground (arith, h, none_found))
  | inr (op', found) ↦ ground (arith, h, found)
]

proven-IsProven :
    (prg code : Bytes) (offset opcode size : ℕ) (op : Op) (p : Proven)
    → index prg offset ≡ ok opcode
    → ops opcode ≡ some op
    → p.prg_offset ≡ offset
    → p.opcode ≡ opcode
    → p.operand ≡ operand_at prg offset size
    → size ≡ op.size
    → is_cop code offset opcode ≡ true
    → replacement opcode (nat (operand_at prg offset size)) ≡ ok (some (p.native_operand, p.proof))
    → (p.prg_offset ≡ offset) × (op_bytes p.opcode ≡ size) × (0 < size) × IsProven prg code p
unfolding op_bytes
proven-IsProven prg code offset opcode size op p found listed e_offset e_opcode e_operand e_size cop
      safe =
    let sized : op_bytes p.opcode ≡ size = rw (e_opcode, op_bytes, listed) (sym e_size) in
    (
      e_offset,
      sized,
      rw e_size (op_size-pos opcode {op = op} listed),
      record {
        original = rw (e_offset, e_opcode) found;
        stands = rw (sized, e_offset, e_operand) (operand_at-IsOperand prg offset size);
        marked = rw (e_offset, e_opcode) (is_cop_lem code offset opcode cop);
        safe = rw (e_opcode, e_operand) safe;
      },
    )

pub examine-IsProven :
    (prg code : Bytes) (offset : ℕ) (p : Proven) (size : ℕ)
    → examine prg code offset ≡ ok (some (p, size))
    → (p.prg_offset ≡ offset) × (op_bytes p.opcode ≡ size) × (0 < size) × IsProven prg code p
unfolding examine
examine-IsProven prg code offset p size h =
    let (opcode, found, h1) = >>=-eq-ok (index prg offset) _ h in
    let (op, documented, h2) = >>=-eq-ok (known opcode) _ h1 in
    let (choice, chosen, h3) =
      >>=-eq-ok (replacement opcode (nat (operand_at prg offset op.size)))
        (enter_choice code offset opcode (operand_at prg offset op.size) op.size) h2 in
    let (at_offset, same, operand, sized, choice', cop) =
      enter_choice-some code offset opcode (operand_at prg offset op.size) op.size choice p h3 in
    proven-IsProven prg code offset opcode size op p found (known-ok opcode op documented) at_offset
      same (operand ∙ ap (operand_at prg offset) (sym sized)) sized cop
      (ap (λ (n : ℕ). replacement opcode (nat (operand_at prg offset n))) sized
        ∙ chosen
        ∙ ap ok choice')

pub examine-IsLeft :
    (prg code : Bytes) (offset : ℕ) → examine prg code offset ≡ ok none → IsLeft prg offset
unfolding examine enter_choice op_bytes
examine-IsLeft prg code offset h =
    let (opcode, found, h1) = >>=-eq-ok (index prg offset) _ h in
    let (op, documented, h2) = >>=-eq-ok (known opcode) _ h1 in
    let v = operand_at prg offset op.size in
    let (choice, chosen, h3) =
      >>=-eq-ok (replacement opcode (nat v)) (enter_choice code offset opcode v op.size) h2 in
    let sized : op_bytes opcode ≡ op.size = rw (op_bytes, known-ok opcode op documented) refl in
    (
      opcode,
      v,
      found,
      rw sized (operand_at-IsOperand prg offset op.size),
      chosen ∙ ap ok (enter_choice-none code offset opcode v op.size choice h3),
    )
