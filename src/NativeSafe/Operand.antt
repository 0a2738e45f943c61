-- ===== src/NativeSafe/Operand.antt =====
-- The bytes of an instruction in the program, by themselves.
use nes2snes.Common.{
  ℕ, suc, ◌+◌, ◌*◌, ◌-◌, ◌/◌, ◌%◌, ◌≡◌, refl, sym, ap, ◌∙◌, subst, arith, true, false, ◌&&◌,
  &&-true, ◌==◌, ==_iff,
}
use nes2snes.Common.{[], ◌∷◌, get_or, take, drop, slice, Bytes, from_bytes, to_bytes}
use nes2snes.Common.Slices.{get_or-drop, get_or-take}
use nes2snes.NativeSafe.{operand_at, is_cop}

-- The operand of an instruction of one, two or three bytes, its lowest byte first.
abbrev pub IsOperand : Bytes → ℕ → ℕ → ℕ → Type 0
IsOperand prg offset size v =
    (size ≡ 1 → v ≡ 0)
    × (size ≡ 2 → v ≡ get_or prg (offset + 1) 0)
    × (size ≡ 3 → v ≡ get_or prg (offset + 1) 0 + 256 * get_or prg (offset + 2) 0)

-- The operand of the new instruction stands after its opcode, lowest byte first.
abbrev pub IsWrittenAt : Bytes → ℕ → ℕ → ℕ → ℕ → Type 0
IsWrittenAt out offset size opcode v =
    (get_or out offset 0 ≡ opcode)
    × (size ≡ 2 → get_or out (offset + 1) 0 ≡ v % 256)
    × (size ≡ 3
        → (get_or out (offset + 1) 0 ≡ v % 256) × (get_or out (offset + 2) 0 ≡ v / 256 % 256))

first_byte : (l : Bytes) → from_bytes (take 1 l) ≡ get_or l 0 0
first_byte [] = refl
first_byte (b ∷ rest) = omega arith

first_bytes : (l : Bytes) → from_bytes (take 2 l) ≡ get_or l 0 0 + 256 * get_or l 1 0
first_bytes [] = refl
first_bytes (b ∷ []) = omega arith
first_bytes (b ∷ c ∷ rest) = omega arith

slice_take :
    (prg : Bytes) (offset size n : ℕ)
    → size ≡ suc n
    → operand_at prg offset size ≡ from_bytes (take n (drop (offset + 1) prg))
slice_take prg offset size n e =
    ap (λ (k : ℕ). from_bytes (take k (drop (offset + 1) prg))) (omega (arith, e))

pub operand_at-IsOperand :
    (prg : Bytes) (offset size : ℕ) → IsOperand prg offset size (operand_at prg offset size)
operand_at-IsOperand prg offset size = (
  λ e. slice_take prg offset size 0 e,
  λ e.
      slice_take prg offset size 1 e
      ∙ first_byte (drop (offset + 1) prg)
      ∙ get_or-drop (offset + 1) prg 0 (offset + 1) 0 (omega arith),
  λ e. slice_take prg offset size 2 e ∙ first_bytes (drop (offset + 1) prg) ∙ (λ i.
      get_or-drop (offset + 1) prg 0 (offset + 1) 0 (omega arith) i
      + 256 * get_or-drop (offset + 1) prg 1 (offset + 2) 0 (omega arith) i),
)

cop_bytes :
    (s : Bytes) (opcode : ℕ)
    → (elim s [ a ∷ b ∷ [] ↦ a == 2 && b == opcode | _ ↦ false ]) ≡ true
    → (get_or s 0 0 ≡ 2) × (get_or s 1 0 ≡ opcode)
cop_bytes [] opcode h = cc
cop_bytes (a ∷ []) opcode h = cc
cop_bytes (a ∷ b ∷ []) opcode h =
    let (first, second) = &&-true (a == 2) (b == opcode) h in
    ((==_iff a 2).0 first, (==_iff b opcode).0 second)
cop_bytes (a ∷ b ∷ c ∷ rest) opcode h = cc

-- A software interrupt whose signature is the opcode.
pub is_cop_lem :
    (code : Bytes) (offset opcode : ℕ)
    → is_cop code offset opcode ≡ true
    → (get_or code offset 0 ≡ 2) × (get_or code (offset + 1) 0 ≡ opcode)
is_cop_lem code offset opcode h =
    let l = drop offset code in
    let width : offset + 2 - offset ≡ 2 = omega arith in
    let two : slice code offset (offset + 2) ≡ take 2 l = ap (λ (k : ℕ). take k l) width in
    let (first, second) = cop_bytes (take 2 l) opcode (
      subst (λ (s : Bytes). (elim s [ a ∷ b ∷ [] ↦ a == 2 && b == opcode | _ ↦ false ]) ≡ true) two
        h) in
    (
      sym (get_or-take 2 l 0 0 (omega arith) ∙ get_or-drop offset code 0 offset 0 (omega arith))
          ∙ first,
      sym (
            get_or-take 2 l 1 0 (omega arith)
            ∙ get_or-drop offset code 1 (offset + 1) 0 (omega arith))
          ∙ second,
    )

-- The bytes that a replacement puts in the place of an instruction.
pub written-get_or :
    (v size : ℕ)
    → (size ≡ 2 → get_or (to_bytes (size - 1) v) 0 0 ≡ v % 256)
      × (size ≡ 3
          → (get_or (to_bytes (size - 1) v) 0 0 ≡ v % 256)
            × (get_or (to_bytes (size - 1) v) 1 0 ≡ v / 256 % 256))
written-get_or v size = (
  λ e. ap (λ (k : ℕ). get_or (to_bytes (k - 1) v) 0 0) e,
  λ e. (
    ap (λ (k : ℕ). get_or (to_bytes (k - 1) v) 0 0) e,
    ap (λ (k : ℕ). get_or (to_bytes (k - 1) v) 1 0) e,
  ),
)
