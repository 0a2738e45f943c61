-- ===== src/Recognizer/Polling.antt =====
-- tools/native_controller.py: the recognizer at the controller-polling routine.
use nes2snes.Common.{ℕ, ◌≡◌, refl, Bool, Option, List, [], ◌∷◌}
use nes2snes.Common.{Bytes, ℤ, Result}
use nes2snes.Opcodes.Encode.{encode}
use nes2snes.Recognizer.{RecognizeError, polling_pattern, matches, Site, plan, redirect_all}
use nes2snes.Recognizer.Match.{assemble}

unfoldable pub polling_matches : Bytes → List ℤ → ℕ → Result RecognizeError Bool
unfolding matches
polling_matches prg counts offset = matches polling_pattern prg counts offset

module _ {Label : Type 0} (label : ℕ → Label) where
  unfoldable pub polling_plan : Bytes → List ℤ → Result RecognizeError (List (Site label))
  unfolding plan
  polling_plan prg counts = plan label polling_pattern prg counts

  unfoldable pub polling_apply :
      (Label → Option ℕ) → Bytes → List (Site label) → Result RecognizeError Bytes
  unfolding redirect_all
  polling_apply symbols code sites = redirect_all label symbols code sites

-- LDY #1; STY $4016; DEY; STY $4016; LDY #8; then LDA $4016; STA 4; LSR; ORA 4; LSR; ROL 0,X and
-- the same for $4017, 5 and 1,X; DEY; BNE back to the first read; RTS.
abbrev pub polling_code : Bytes
polling_code =
    0xa0 ∷ 1 ∷ 0x8c ∷ 0x16 ∷ 0x40 ∷ 0x88 ∷ 0x8c ∷ 0x16 ∷ 0x40 ∷ 0xa0 ∷ 8 ∷ 0xad ∷ 0x16 ∷ 0x40 ∷ 0x85
    ∷ 4 ∷ 0x4a ∷ 5 ∷ 4 ∷ 0x4a ∷ 0x36 ∷ 0 ∷ 0xad ∷ 0x17 ∷ 0x40 ∷ 0x85 ∷ 5 ∷ 0x4a ∷ 5 ∷ 5 ∷ 0x4a
    ∷ 0x36 ∷ 1 ∷ 0x88 ∷ 0xd0 ∷ 0xe7 ∷ 0x60 ∷ []

assemble-polling_pattern : assemble polling_pattern ≡ polling_code
unfolding assemble encode
assemble-polling_pattern = refl
