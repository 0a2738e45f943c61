-- ===== src/NativeSafe.antt =====
-- tools/native_safe.py: the accesses to internal RAM that run natively at the same width.
-- `apply` takes the sites of its caller: any type with an offset into the program.
pub mod Cells
pub mod Operand
pub mod Sites
pub mod Splice
mod Tests
use nes2snes.Common.{
  ℕ, zero, suc, ◌+◌, ◌-◌, ◌*◌, ◌^◌, bit_and, Bool, true, false, not, ◌&&◌, ◌||◌, Option, none, some,
}
use nes2snes.Common.{
  List, [], ◌∷◌, ◌++◌, length, get_elem?, take, drop, slice, ltb, leb, ◌==◌, if◌then◌else◌,
}
use nes2snes.Common.{
  Result, ok, err, ◌>>=◌, ◌>>◌, raise_if, Value, int, bool, other, pos, negsuc, nat, Bytes,
  to_bytes, from_bytes,
}
use nes2snes.Common.Slices.{splice}
use nes2snes.Opcodes.{Mnemonic, Mode, Op, ops}

-- The `ValueError`s, and what Python raises on an index or a key that is not there.
pub data SafeError : Type 0 where
  operand_too_wide lengths_differ not_a_cop index_error key_error : SafeError

pub data Proof : Type 0 where
  zero_base_plus_8bit_index constant_internal_ram_mirror internal_ram_mirror_no_page_crossing :
      Proof

-- The set of names in `replacement`.
unfoldable pub is_access : Mnemonic → Bool
is_access Mnemonic.lda = true
is_access Mnemonic.ldx = true
is_access Mnemonic.ldy = true
is_access Mnemonic.sta = true
is_access Mnemonic.stx = true
is_access Mnemonic.sty = true
is_access Mnemonic.and = true
is_access Mnemonic.ora = true
is_access Mnemonic.eor = true
is_access Mnemonic.adc = true
is_access Mnemonic.sbc = true
is_access Mnemonic.cmp = true
is_access Mnemonic.cpx = true
is_access Mnemonic.cpy = true
is_access Mnemonic.bit = true
is_access Mnemonic.asl = true
is_access Mnemonic.lsr = true
is_access Mnemonic.rol = true
is_access Mnemonic.ror = true
is_access Mnemonic.inc = true
is_access Mnemonic.dec = true
is_access _ = false

-- The choice for an access whose operand fits.
unfoldable pub choose : Mode → ℕ → Option (ℕ × Proof)
choose Mode.zpx v = if v == 0 then some (0, zero_base_plus_8bit_index) else none
choose Mode.zpy v = if v == 0 then some (0, zero_base_plus_8bit_index) else none
choose Mode.abs v =
    if leb 0x800 v && ltb v 0x2000
    then some (bit_and v 0x7ff, constant_internal_ram_mirror)
    else none
choose Mode.absx v =
    if (leb 0x800 v && leb v 0x1f00) && leb (bit_and v 0x7ff) 0x700
    then some (bit_and v 0x7ff, internal_ram_mirror_no_page_crossing)
    else none
choose Mode.absy v =
    if (leb 0x800 v && leb v 0x1f00) && leb (bit_and v 0x7ff) 0x700
    then some (bit_and v 0x7ff, internal_ram_mirror_no_page_crossing)
    else none
choose _ v = none

-- `isinstance(operand, int) and 0 <= operand < limit`; a Boolean of Python is an integer too.
unfoldable pub fitting : Value → ℕ → Option ℕ
fitting (int (pos n)) limit = if ltb n limit then some n else none
fitting (int (negsuc n)) limit = none
fitting (bool b) limit = if ltb (if b then 1 else 0) limit then some (if b then 1 else 0) else none
fitting other limit = none

unfoldable pub replacement : ℕ → Value → Result SafeError (Option (ℕ × Proof))
unfolding is_access choose fitting
replacement opcode operand = elim (ops opcode) [
  | none ↦ ok none
  | some op ↦ elim (fitting operand (2 ^ (8 * (op.size - 1)))) [
    | none ↦ err operand_too_wide
    | some v ↦ if not (is_access op.name) then ok none else ok (choose op.mode v)
  ]
]

-- An entry of the list `proven`.
pub record Proven : Type 0 where
  pub prg_offset : ℕ
  pub opcode : ℕ
  pub operand : ℕ
  pub native_operand : ℕ
  pub proof : Proof

-- `prg[offset]`
abbrev pub index : Bytes → ℕ → Result SafeError ℕ
index bs i = elim (get_elem? bs i) [ none ↦ err index_error | some b ↦ ok b ]

-- `OPS[opcode]`
abbrev pub known : ℕ → Result SafeError Op
known opcode = elim (ops opcode) [ none ↦ err key_error | some op ↦ ok op ]

-- `code[offset:offset + 2] == bytes((2, opcode))`
abbrev pub is_cop : Bytes → ℕ → ℕ → Bool
is_cop code offset opcode = elim (slice code offset (offset + 2)) [
  | a ∷ b ∷ [] ↦ a == 2 && b == opcode
  | _ ↦ false
]

-- What becomes of a choice: nothing, or an entry of `proven` with the size of the instruction.
unfoldable pub enter_choice :
    Bytes → ℕ → ℕ → ℕ → ℕ → Option (ℕ × Proof) → Result SafeError (Option (Proven × ℕ))
enter_choice code offset opcode operand size none = ok none
enter_choice code offset opcode operand size (some (native_operand, proof)) = do
  raise_if (not (is_cop code offset opcode)) not_a_cop
  ok (
      some (
        record {
          prg_offset = offset;
          opcode = opcode;
          operand = operand;
          native_operand = native_operand;
          proof = proof;
        },
        size,
      ))

-- `int.from_bytes(prg[offset + 1:offset + size], 'little')`
abbrev pub operand_at : Bytes → ℕ → ℕ → ℕ
operand_at prg offset size = from_bytes (slice prg (offset + 1) (offset + size))

-- The body of the loop before it writes.
unfoldable pub examine : Bytes → Bytes → ℕ → Result SafeError (Option (Proven × ℕ))
unfolding replacement enter_choice
examine prg code offset = do
  opcode ← index prg offset
  op ← known opcode
  let operand = operand_at prg offset op.size
  choice ← replacement opcode (nat operand)
  enter_choice code offset opcode operand op.size choice

unfoldable pub rewrite : Bytes → Proven → ℕ → Bytes
rewrite out p size = splice out p.prg_offset size (p.opcode ∷ to_bytes (size - 1) p.native_operand)

module _ {Site : Type 0} (prg_offset : Site → ℕ) where
  -- The variables of the loop: the bytes, the proven and the remaining sites.
  unfoldable pub apply_loop :
      Bytes → Bytes → List Site → Bytes → Result SafeError (Bytes × List Proven × List Site)
  unfolding examine rewrite
  apply_loop prg code [] out = ok (out, [], [])
  apply_loop prg code (site ∷ sites) out = do
    found ← examine prg code (prg_offset site)
    elim found [
      | none ↦ do
        (end, proven, remaining) ← apply_loop prg code sites out
        ok (end, proven, site ∷ remaining)
      | some (p, size) ↦ do
        (end, proven, remaining) ← apply_loop prg code sites (rewrite out p size)
        ok (end, p ∷ proven, remaining)
    ]

  unfoldable pub apply :
      Bytes → Bytes → List Site → Result SafeError (Bytes × List Proven × List Site)
  unfolding apply_loop
  apply prg code sites = do
    raise_if (not (length code == length prg)) lengths_differ
    apply_loop prg code sites code
