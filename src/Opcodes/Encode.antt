-- ===== src/Opcodes/Encode.antt =====
-- The table read the other way: an instruction and its mode have one opcode.
use nes2snes.Common.{
  ℕ, ◌≡◌, ◌↔◌, refl, Bool, true, false, ◌&&◌, if◌then◌else◌, ◌==◌, ==_iff, all_below,
}
use nes2snes.Common.{List, [], ◌∷◌, some, arith}
use nes2snes.Opcodes.{Mnemonic, Mode, Op, spec, ops}
use nes2snes.Opcodes.Facts.{each_op, each_op→true}

pub Mode-discrete : Discrete Mode
Mode-discrete = hlevel

pub Mnemonic-discrete : Discrete Mnemonic
Mnemonic-discrete = hlevel

unfoldable pub same_name : Mnemonic → Mnemonic → Bool
unfolding Mnemonic-discrete
same_name a b = elim (Mnemonic-discrete a b) [ yes e ↦ true | no e ↦ false ]

unfoldable pub same_mode : Mode → Mode → Bool
unfolding Mode-discrete
same_mode a b = elim (Mode-discrete a b) [ yes e ↦ true | no e ↦ false ]

pub same_name_iff : (a b : Mnemonic) → (same_name a b ≡ true) ↔ (a ≡ b)
unfolding same_name
same_name_iff a b = ground arith

pub same_mode_iff : (a b : Mode) → (same_mode a b ≡ true) ↔ (a ≡ b)
unfolding same_mode
same_mode_iff a b = ground arith

search_spec : Mnemonic → Mode → List (ℕ × Mnemonic × Mode) → ℕ
unfolding same_name same_mode
search_spec name mode [] = 256
search_spec name mode ((k, n, m) ∷ rest) =
    let later = search_spec name mode rest in
    if same_name n name && same_mode m mode then k else later

-- The opcode of an instruction in a mode, or 256.
unfoldable pub encode : Mnemonic → Mode → ℕ
unfolding search_spec spec
encode name mode = search_spec name mode spec

pub encode-ops : (k : ℕ) {op : Op} → ops k ≡ some op → encode op.name op.mode ≡ k
unfolding encode ops each_op all_below
encode-ops k {op} h =
    (==_iff (encode op.name op.mode) k).0
      (each_op→true (λ k op. encode op.name op.mode == k) k refl h)
