-- ===== src/Recognizer.antt =====
-- tools/native_dispatch.py: calls of a recognized routine are found and sent to a wrapper.
-- tools/native_controller.py does the same with another routine, so the pattern is a parameter:
-- `dispatch_pattern` is that of the one, `polling_pattern` that of the other file. A label is a text
-- made of an address; `Label` and `label` stand for it, and `symbols` for the linker's table.
pub mod Match
pub mod Find
pub mod Redirect
pub mod Polling
mod Tests
use nes2snes.Common.{
  ℕ, zero, suc, ◌+◌, ◌-◌, ◌/◌, ◌%◌, ◌≤◌, ◌<◌, bit_and, Bool, true, false, not, ◌&&◌, ◌||◌,
}
use nes2snes.Common.{
  Option, none, some, List, [], ◌∷◌, ◌++◌, length, get_elem?, get_or, slice, ltb, leb, ◌==◌,
  if◌then◌else◌,
}
use nes2snes.Common.{Result, ok, err, ◌>>=◌, ◌>>◌, raise_if, Bytes, from_bytes, ℤ, pos, negsuc}
use nes2snes.Common.Slices.{splice}
use nes2snes.Opcodes.{Mnemonic, Mode, Op, ops}
use nes2snes.Opcodes.Encode.{same_name, same_mode}

-- The `ValueError`s by what their messages name, and the `KeyError` of a symbol.
pub data RecognizeError : Type 0 where
  sizes_differ bad_program wrapper_outside changed_call no_symbol byte_range : RecognizeError

-- An element of PATTERN.
pub record Item : Type 0 where
  pub name : Mnemonic
  pub mode : Mode
  pub operand : ℕ

abbrev item : Mnemonic → Mode → ℕ → Item
item n m v = record { name = n; mode = m; operand = v }

-- PATTERN of native_dispatch.py
abbrev pub dispatch_pattern : List Item
dispatch_pattern =
    item Mnemonic.asl Mode.acc 0
    ∷ item Mnemonic.sty Mode.zp 3
    ∷ item Mnemonic.tay Mode.imp 0
    ∷ item Mnemonic.iny Mode.imp 0
    ∷ item Mnemonic.pla Mode.imp 0
    ∷ item Mnemonic.sta Mode.zp 0
    ∷ item Mnemonic.pla Mode.imp 0
    ∷ item Mnemonic.sta Mode.zp 1
    ∷ item Mnemonic.lda Mode.iy 0
    ∷ item Mnemonic.sta Mode.zp 2
    ∷ item Mnemonic.iny Mode.imp 0
    ∷ item Mnemonic.lda Mode.iy 0
    ∷ item Mnemonic.ldy Mode.zp 3
    ∷ item Mnemonic.sta Mode.zp 3
    ∷ item Mnemonic.jmp Mode.ind 2
    ∷ []

-- PATTERN of native_controller.py
abbrev pub polling_pattern : List Item
polling_pattern =
    item Mnemonic.ldy Mode.imm 1
    ∷ item Mnemonic.sty Mode.abs 0x4016
    ∷ item Mnemonic.dey Mode.imp 0
    ∷ item Mnemonic.sty Mode.abs 0x4016
    ∷ item Mnemonic.ldy Mode.imm 8
    ∷ item Mnemonic.lda Mode.abs 0x4016
    ∷ item Mnemonic.sta Mode.zp 4
    ∷ item Mnemonic.lsr Mode.acc 0
    ∷ item Mnemonic.ora Mode.zp 4
    ∷ item Mnemonic.lsr Mode.acc 0
    ∷ item Mnemonic.rol Mode.zpx 0
    ∷ item Mnemonic.lda Mode.abs 0x4017
    ∷ item Mnemonic.sta Mode.zp 5
    ∷ item Mnemonic.lsr Mode.acc 0
    ∷ item Mnemonic.ora Mode.zp 5
    ∷ item Mnemonic.lsr Mode.acc 0
    ∷ item Mnemonic.rol Mode.zpx 1
    ∷ item Mnemonic.dey Mode.imp 0
    ∷ item Mnemonic.bne Mode.rel 0xe7
    ∷ item Mnemonic.rts Mode.imp 0
    ∷ []

-- The truth of an entry of `counts`.
abbrev pub counted : ℤ → Bool
counted (pos n) = not (n == 0)
counted (negsuc n) = true

unfoldable pub any_counted : List ℤ → Bool
any_counted [] = false
any_counted (c ∷ rest) = counted c || any_counted rest

-- The body of the loop of `matches` for an instruction of the table.
unfoldable pub op_matches : Bytes → List ℤ → Item → ℕ → Op → Bool
unfolding any_counted
op_matches prg counts it offset op =
    (same_name op.name it.name && same_mode op.mode it.mode)
    && ((leb (offset + op.size) (length prg)
          && not (any_counted (slice counts (offset + 1) (offset + op.size))))
        && from_bytes (slice prg (offset + 1) (offset + op.size)) == it.operand)

-- The loop of `matches`: the size of the instruction that matches is added to the offset.
unfoldable pub matches_loop : Bytes → List ℤ → List Item → ℕ → Bool
unfolding op_matches
matches_loop prg counts [] offset = true
matches_loop prg counts (it ∷ rest) offset =
    if ltb offset (length prg) && counted (get_or counts offset (pos 0))
    then elim (ops (get_or prg offset 256)) [
      | none ↦ false
      | some op ↦
          op_matches prg counts it offset op && matches_loop prg counts rest (offset + op.size)
    ]
    else false

unfoldable pub matches : List Item → Bytes → List ℤ → ℕ → Result RecognizeError Bool
unfolding matches_loop
matches pattern prg counts offset = do
  raise_if (not (length prg == length counts)) sizes_differ
  ok (matches_loop prg counts pattern offset)

-- The tests of the loop of `plan` at an offset, for the address that stands there.
unfoldable pub is_selected : List Item → Bytes → List ℤ → ℕ → ℕ → Bool
unfolding any_counted
is_selected pattern prg counts i address =
    (counted (get_or counts i (pos 0)) && get_or prg i 0 == 0x20)
    && ((leb (i + 3) (length prg) && not (any_counted (slice counts (i + 1) (i + 3))))
        && ((leb 0xe000 address && ltb address 0xfffa)
            && matches_loop prg counts pattern (0x3e000 + address - 0xe000)))

-- The target of a call at an offset, if it is one that `plan` selects.
unfoldable pub call_target : List Item → Bytes → List ℤ → ℕ → Option ℕ
unfolding is_selected
call_target pattern prg counts i =
    let address = from_bytes (slice prg (i + 1) (i + 3)) in
    if is_selected pattern prg counts i address then some address else none

-- `three == bytes((0x20, target & 255, target >> 8))`
unfoldable pub is_call : Bytes → ℕ → Bool
is_call (a ∷ b ∷ c ∷ []) target = a == 0x20 && (b == target % 256 && c == target / 256)
is_call _ target = false

module _ {Label : Type 0} (label : ℕ → Label) where
  pub record Site : Type 0 where
    pub prg_offset : ℕ
    pub original_target : ℕ
    pub name : Label

  -- The loop of `plan` over a number of offsets from `i`.
  unfoldable pub plan_loop : List Item → Bytes → List ℤ → ℕ → ℕ → List Site
  unfolding call_target
  plan_loop pattern prg counts zero i = []
  plan_loop pattern prg counts (suc left) i =
      let later = plan_loop pattern prg counts left (i + 1) in
      elim (call_target pattern prg counts i) [
        | none ↦ later
        | some t ↦ record { prg_offset = i; original_target = t; name = label t } ∷ later
      ]

  -- The sites that `plan` returns, without the assembler text.
  unfoldable pub plan : List Item → Bytes → List ℤ → Result RecognizeError (List Site)
  unfolding plan_loop
  plan pattern prg counts = do
    raise_if (not (length prg == 0x40000 && length counts == length prg)) bad_program
    ok (plan_loop pattern prg counts (length counts) 0)

  -- The body of the loop of `apply`.
  unfoldable pub redirect : (Label → Option ℕ) → Bytes → Site → Result RecognizeError Bytes
  unfolding is_call
  redirect symbols result site = elim (symbols site.name) [
    | none ↦ err no_symbol
    | some address ↦ do
      raise_if (not (leb 0x1000 address && ltb address 0x1800)) wrapper_outside
      raise_if (not (ltb site.original_target 0x10000)) byte_range
      raise_if
          (not (is_call (slice result site.prg_offset (site.prg_offset + 3)) site.original_target))
          changed_call
      ok (splice result site.prg_offset 3 (0x20 ∷ address % 256 ∷ address / 256 ∷ []))
  ]

  unfoldable pub redirect_all : (Label → Option ℕ) → Bytes → List Site → Result RecognizeError Bytes
  unfolding redirect
  redirect_all symbols result [] = ok result
  redirect_all symbols result (site ∷ sites) = do
    next ← redirect symbols result site
    redirect_all symbols next sites
