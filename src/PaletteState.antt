-- ===== src/PaletteState.antt =====
-- tools/palette_state.py: the palette and PPU registers of a saved state (decode, decode_mmc5).
-- `unpack` is that of OamState/Snapshot; the texts of `hex()` are kept as their bytes.
pub mod Decoded
pub mod Sets
mod Tests
use nes2snes.Common.{ℕ, ◌+◌, ◌-◌, ◌/◌, bit_and, bit_or, Bool, true, false, not, ◌&&◌, ◌||◌}
use nes2snes.Common.{List, [], ◌∷◌, length, get_or, map, slice, ltb, ◌==◌, if◌then◌else◌, Bytes}
use nes2snes.Common.{Result, ok, err, ◌>>=◌, ◌>>◌, raise_if, Value, bool}
use nes2snes.OamState.{Chunk}
use nes2snes.OamState.Snapshot.{
  StateError, missing_registers, bad_gate, not_snapshot, outside_profile, bad_bits, bad_alias,
  bad_mapper, rendering_mode, Decompressor, ppu_tag, reg_tag, chunk_of, chunks_of, nst_end,
  nst_body, unpack,
}

-- The argument `data`: bytes, or anything else.
pub data StateArgument : Type 0 where
  state_bytes : Bytes → StateArgument
  not_state_bytes : StateArgument

abbrev pub cpu_tag : Bytes
cpu_tag = b'C' ∷ b'P' ∷ b'U' ∷ 0 ∷ []

abbrev pub pal_tag : Bytes
pal_tag = b'P' ∷ b'A' ∷ b'L' ∷ 0 ∷ []

abbrev pub ram_tag : Bytes
ram_tag = b'R' ∷ b'A' ∷ b'M' ∷ 0 ∷ []

abbrev pub nmt_tag : Bytes
nmt_tag = b'N' ∷ b'M' ∷ b'T' ∷ 0 ∷ []

-- The tags on the way to the chunk of the MMC5.
abbrev pub img_tag : Bytes
img_tag = b'I' ∷ b'M' ∷ b'G' ∷ 0 ∷ []

abbrev pub mpr_tag : Bytes
mpr_tag = b'M' ∷ b'P' ∷ b'R' ∷ 0 ∷ []

abbrev pub mm5_tag : Bytes
mm5_tag = b'M' ∷ b'M' ∷ b'5' ∷ 0 ∷ []

-- The dictionary that `decode` returns.
pub record State : Type 0 where
  pub cpu_ram : Bytes
  pub cpu_registers : Bytes
  pub ppu_state : Bytes
  pub palette_storage : Bytes
  pub palette : Bytes
  pub ciram : Bytes

-- `reg[i]`
abbrev pub register : Bytes → ℕ → ℕ
register reg i = get_or reg i 0

abbrev pub has_bits : ℕ → ℕ → Bool
has_bits v mask = not (bit_and v mask == 0)

unfoldable pub check_profile : Bool → Bytes → Result StateError (Unit {0})
check_profile sprite_16 reg = do
  raise_if
      (has_bits (register reg 0) (if sprite_16 then 0xc0 else 0xe0)
        || has_bits (register reg 1) 0x18)
      outside_profile
  raise_if
      (has_bits (register reg 4) 0x80
        || (has_bits (register reg 6) 0x80 || has_bits (register reg 7) 0xf0))
      bad_bits

unfoldable pub ppu_state : Bytes → Bytes
ppu_state reg =
    register reg 0
    ∷ register reg 1
    ∷ bit_and (register reg 7 / 8) 1
    ∷ bit_and (register reg 7) 7
    ∷ register reg 5
    ∷ register reg 6
    ∷ register reg 3
    ∷ register reg 4
    ∷ register reg 9
    ∷ register reg 10
    ∷ []

unfoldable pub cpu_registers : Bytes → Bytes
cpu_registers cr =
    register cr 0
    ∷ register cr 1
    ∷ register cr 3
    ∷ register cr 4
    ∷ register cr 5
    ∷ bit_or (register cr 6) 0x30
    ∷ register cr 2
    ∷ []

-- `palette[i] == palette[i + 16]` for the four mirrored entries
unfoldable pub has_aliases : Bytes → Bool
has_aliases p =
    get_or p 0 0 == get_or p 16 0
    && (get_or p 4 0 == get_or p 20 0
        && (get_or p 8 0 == get_or p 24 0 && get_or p 12 0 == get_or p 28 0))

unfoldable pub colors : Bytes → Bytes
colors [] = []
colors (v ∷ rest) = bit_and v 63 ∷ colors rest

unfoldable pub decode_chunks :
    Decompressor → Bool → List Chunk → List Chunk → Result StateError State
unfolding chunk_of check_profile ppu_state cpu_registers has_aliases colors unpack
decode_chunks decompress sprite_16 ppu cpu = do
  raise_if (not (length (chunk_of reg_tag ppu) == 11) || not (length (chunk_of reg_tag cpu) == 7))
      missing_registers
  check_profile sprite_16 (chunk_of reg_tag ppu)
  palette ← unpack decompress (chunk_of pal_tag ppu) 32
  raise_if (not (has_aliases palette)) bad_alias
  ram ← unpack decompress (chunk_of ram_tag cpu) 2048
  ciram ← unpack decompress (chunk_of nmt_tag ppu) 2048
  ok (record {
    cpu_ram = ram;
    cpu_registers = cpu_registers (chunk_of reg_tag cpu);
    ppu_state = ppu_state (chunk_of reg_tag ppu);
    palette_storage = palette;
    palette = colors palette;
    ciram = ciram;
  })

unfoldable pub decode : Decompressor → Value → StateArgument → Result StateError State
unfolding nst_body decode_chunks
decode decompress (bool sprite_16) (state_bytes bytes) = do
  body ← nst_body bytes
  root ← chunks_of body
  ppu ← chunks_of (chunk_of ppu_tag root)
  cpu ← chunks_of (chunk_of cpu_tag root)
  decode_chunks decompress sprite_16 ppu cpu
decode decompress (bool sprite_16) not_state_bytes = err not_snapshot
decode decompress gate argument = err bad_gate

-- The dictionary that `decode_mmc5` returns.
pub record Mmc5State : Type 0 where
  pub nametable_registers : Bytes
  pub exram : Bytes

-- `(reg[0] >> 4) & 3`
abbrev pub exram_mode : Bytes → ℕ
exram_mode reg = bit_and (register reg 0 / 16) 3

unfoldable pub decode_mapper : Decompressor → Bytes → Result StateError Mmc5State
unfolding chunk_of unpack
decode_mapper decompress bytes = do
  root ← chunks_of (slice bytes 8 (nst_end bytes))
  image ← chunks_of (chunk_of img_tag root)
  mapper ← chunks_of (chunk_of mpr_tag image)
  mmc5 ← chunks_of (chunk_of mm5_tag mapper)
  raise_if
      (not (length (chunk_of reg_tag mmc5) == 32)
        || has_bits (register (chunk_of reg_tag mmc5) 0) 0xc0)
      bad_mapper
  raise_if (ltb (exram_mode (chunk_of reg_tag mmc5)) 2) rendering_mode
  exram ← unpack decompress (chunk_of ram_tag mmc5) 1024
  ok (record {
    nametable_registers =
        exram_mode (chunk_of reg_tag mmc5)
        ∷ register (chunk_of reg_tag mmc5) 6
        ∷ register (chunk_of reg_tag mmc5) 23
        ∷ bit_and (register (chunk_of reg_tag mmc5) 24) 3
        ∷ [];
    exram = exram;
  })

unfoldable pub decode_mmc5 : Decompressor → Value → StateArgument → Result StateError Mmc5State
unfolding decode decode_mapper
decode_mmc5 decompress gate (state_bytes bytes) = do
  s ← decode decompress gate (state_bytes bytes)
  decode_mapper decompress bytes
decode_mmc5 decompress gate not_state_bytes = do
  s ← decode decompress gate not_state_bytes
  err not_snapshot
