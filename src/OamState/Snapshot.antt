-- ===== src/OamState/Snapshot.antt =====
-- tools/oam_state.py, nestopia_oam, and `unpack` of tools/palette_state.py: a saved state of the
-- emulator, its root and its packed memories. zlib.decompressobj is the argument `decompress`.
pub mod Written
use nes2snes.Common.{ℕ, zero, suc, ◌+◌, ◌-◌, Bool, true, false, not, ◌&&◌, ◌||◌, Option, none, some}
use nes2snes.Common.{
  List, [], ◌∷◌, length, get_or, take, slice, ltb, ◌==◌, if◌then◌else◌, Bytes, bytes_eq, from_bytes,
}
use nes2snes.Common.{Result, ok, err, ◌>>=◌, ◌>>◌, raise_if, as_error}
use nes2snes.OamState.{Chunk, chunks}

-- The `ValueError`s of the readers of a state; `bad_chunks` is one of the chunk reader.
pub data StateError : Type 0 where
  not_snapshot bad_footer bad_chunks missing_registers missing_memory bad_compression : StateError
  incomplete unknown_compression wrong_size bad_gate outside_profile bad_bits : StateError
  bad_alias bad_mapper rendering_mode : StateError

-- What a decompressor has done: its output, `eof`, `unused_data` and `unconsumed_tail`.
pub record Stream : Type 0 where
  pub output : Bytes
  pub eof : Bool
  pub unused : Bytes
  pub tail : Bytes

-- `decompress(data, max_length)` of a new decompressor; `none` where it raises zlib.error.
abbrev pub Decompressor : Type 0
Decompressor = Bytes → ℕ → Option Stream

abbrev pub nst_magic : Bytes
nst_magic = b'N' ∷ b'S' ∷ b'T' ∷ 0x1a ∷ []

-- `b'PPU\0'` and the others
abbrev pub ppu_tag : Bytes
ppu_tag = b'P' ∷ b'P' ∷ b'U' ∷ 0 ∷ []

abbrev pub reg_tag : Bytes
reg_tag = b'R' ∷ b'E' ∷ b'G' ∷ 0 ∷ []

abbrev pub oam_tag : Bytes
oam_tag = b'O' ∷ b'A' ∷ b'M' ∷ 0 ∷ []

-- `result.get(tag, b'')`
unfoldable pub chunk_of : Bytes → List Chunk → Bytes
chunk_of tag [] = []
chunk_of tag ((key, payload) ∷ rest) = if bytes_eq key tag then payload else chunk_of tag rest

abbrev pub nst_end : Bytes → ℕ
nst_end bytes = 8 + from_bytes (slice bytes 4 8)

-- The checks of the root and of the footer, and the bytes between.
unfoldable pub nst_body : Bytes → Result StateError Bytes
nst_body bytes = do
  raise_if
      (ltb (length bytes) 8
        || (ltb 8388608 (length bytes) || not (bytes_eq (take 4 bytes) nst_magic)))
      not_snapshot
  raise_if
      (ltb (length bytes) (nst_end bytes)
        || not (
            length bytes - nst_end bytes == 0
            || (length bytes - nst_end bytes == 8 || length bytes - nst_end bytes == 12)))
      bad_footer
  ok (slice bytes 8 (nst_end bytes))

abbrev pub chunks_of : Bytes → Result StateError (List Chunk)
chunks_of bytes = as_error bad_chunks (chunks bytes)

unfoldable pub inflate : Decompressor → Bytes → ℕ → Result StateError Bytes
inflate decompress packed size = elim (decompress packed (size + 1)) [
  | none ↦ err bad_compression
  | some s ↦
      if not s.eof || not (length s.unused == 0 && length s.tail == 0)
      then err incomplete
      else ok s.output
]

-- A packed memory of a size, by its first byte.
unfoldable pub unpack : Decompressor → Bytes → ℕ → Result StateError Bytes
unfolding inflate
unpack decompress [] size = err missing_memory
unpack decompress (kind ∷ packed) size = do
  memory ←
      (if kind == 0
        then ok packed
        else if kind == 1
        then inflate decompress packed size
        else err unknown_compression)
  raise_if (not (length memory == size)) wrong_size
  ok memory

unfoldable pub nestopia_oam : Decompressor → Bytes → Result StateError (Bytes × ℕ × ℕ)
unfolding nst_body chunk_of unpack
nestopia_oam decompress bytes = do
  body ← nst_body bytes
  root ← chunks_of body
  ppu ← chunks_of (chunk_of ppu_tag root)
  raise_if (not (length (chunk_of reg_tag ppu) == 11) || length (chunk_of oam_tag ppu) == 0)
      missing_registers
  oam ← unpack decompress (chunk_of oam_tag ppu) 256
  ok (oam, get_or (chunk_of reg_tag ppu) 8 0, get_or (chunk_of reg_tag ppu) 10 0)
