-- ===== src/DirectCalls.antt =====
-- tools/direct_calls.py: which guest accesses become calls of veneers (handler_kind, the sites of
-- plan), and the replacement of their bytes (apply). A label is the opcode and the address that its
-- text names; the text of the veneers is not modelled.
pub mod Planned
pub mod Applied
mod Tests
use nes2snes.Common.{
  ℕ, ◌+◌, ◌/◌, ◌%◌, bit_and, Bool, true, false, not, ◌&&◌, ◌||◌, Option, none, some,
}
use nes2snes.Common.{
  List, [], ◌∷◌, ◌++◌, length, get_or, slice, ltb, leb, ◌==◌, if◌then◌else◌, Bytes, bytes_eq,
  from_bytes,
}
use nes2snes.Common.{Result, ok, err, ◌>>=◌, ◌>>◌, raise_if}
use nes2snes.Common.Slices.{splice}
use nes2snes.Opcodes.{Mode}
use nes2snes.Opcodes.Encode.{same_mode}

-- The errors: an offset behind the program, a label without a symbol, and the two `ValueError`s.
pub data CallError : Type 0 where
  no_byte no_symbol outside_window not_cop : CallError

-- The names of the handlers.
pub data Kind : Type 0 where
  to_write to_mapper to_backing to_read to_apu to_bank : Kind

-- A classified access, of which `plan` reads the place and the mode.
pub record Access : Type 0 where
  pub prg_offset : ℕ
  pub mode : Mode

-- The members of a selected site.
pub record Selected : Type 0 where
  pub prg_offset : ℕ
  pub opcode : ℕ
  pub address : ℕ
  pub kind : Kind

-- The keyword arguments of `plan` that choose sites.
pub record Options : Type 0 where
  pub bank_switches : Bool
  pub audio_counters : Bool

abbrev pub is_store : ℕ → Bool
is_store opcode = opcode == 0x8d || (opcode == 0x8e || opcode == 0x8c)

abbrev pub is_selector : ℕ → Bool
is_selector address = address == 0x5115 || (address == 0x5116 || address == 0x5117)

-- `low <= n < high`
abbrev pub between : ℕ → ℕ → ℕ → Bool
between low high n = leb low n && ltb n high

unfoldable pub store_kind : ℕ → Option (Kind × ℕ)
store_kind address =
    if between 0x2000 0x4000 address
    then some (to_write, bit_and address 7)
    else if address == 0x4014
    then some (to_write, 8)
    else if address == 0x4016
    then some (to_write, 9)
    else if address == 0x5203
    then some (to_write, 10)
    else if address == 0x5204
    then some (to_write, 11)
    else if between 0x5100 0x512c address && not (is_selector address)
    then some (to_mapper, address)
    else if between 0x4000 0x4014 address || address == 0x4015
    then some (to_backing, address)
    else none

unfoldable pub read_kind : ℕ → Option (Kind × ℕ)
read_kind address =
    if between 0x2000 0x4000 address && bit_and address 7 == 2
    then some (to_read, 0)
    else if address == 0x4016
    then some (to_read, 1)
    else if address == 0x4017
    then some (to_read, 2)
    else if address == 0x5204
    then some (to_read, 3)
    else none

unfoldable pub handler_kind : ℕ → ℕ → Option (Kind × ℕ)
unfolding store_kind read_kind
handler_kind opcode address =
    if is_store opcode
    then store_kind address
    else if opcode == 0xad
    then read_kind address
    else none

-- The kind of a site, with the options.
unfoldable pub site_kind : Options → ℕ → ℕ → Option (Kind × ℕ)
unfolding handler_kind
site_kind o opcode address =
    if o.bank_switches && (is_store opcode && is_selector address)
    then some (to_bank, address)
    else if o.audio_counters
        && (is_store opcode
            && (between 0x4000 0x4014 address || (address == 0x4015 || address == 0x4017)))
    then some (to_apu, bit_and address 0x1f)
    else handler_kind opcode address

-- The body of the loop of `plan` for an access by an absolute address.
unfoldable pub select : Options → Bytes → ℕ → Result CallError (List Selected)
unfolding site_kind
select o prg offset =
    if ltb offset (length prg)
    then elim (site_kind o (get_or prg offset 0)
        (from_bytes (slice prg (offset + 1) (offset + 3)))) [
          | none ↦ ok []
          | some (kind, value) ↦ ok (
              record {
                prg_offset = offset;
                opcode = get_or prg offset 0;
                address = from_bytes (slice prg (offset + 1) (offset + 3));
                kind = kind;
              }
              ∷ [])
        ]
    else err no_byte

unfoldable pub plan : Options → Bytes → List Access → Result CallError (List Selected)
unfolding select
plan o prg [] = ok []
plan o prg (site ∷ rest) = do
  here ← (if same_mode site.mode Mode.abs then select o prg site.prg_offset else ok [])
  others ← plan o prg rest
  ok (here ++ others)

-- `symbols`, by the two numbers of a label.
abbrev pub Symbols : Type 0
Symbols = ℕ → ℕ → Option ℕ

unfoldable pub redirect : Symbols → Bytes → Selected → Result CallError Bytes
redirect symbols result site = elim (symbols site.opcode site.address) [
  | none ↦ err no_symbol
  | some address ↦ do
    raise_if (not (between 0x1000 0x1800 address)) outside_window
    raise_if
        (not (bytes_eq (slice result site.prg_offset (site.prg_offset + 2)) (2 ∷ site.opcode ∷ [])))
        not_cop
    ok (splice result site.prg_offset 3 (0x20 ∷ address % 256 ∷ address / 256 ∷ []))
]

unfoldable pub apply : Symbols → Bytes → List Selected → Result CallError Bytes
unfolding redirect
apply symbols result [] = ok result
apply symbols result (site ∷ rest) = do
  changed ← redirect symbols result site
  apply symbols changed rest
