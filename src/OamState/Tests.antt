-- ===== src/OamState/Tests.antt =====
-- A state of two chunks, and the reader's errors.
use nes2snes.Common.{◌≡◌, refl, ok, err, arith, ap, Bytes, bytes_eq, [], ◌∷◌, ◌++◌, get_or}
use nes2snes.OamState.{
  truncated_header, truncated_payload, duplicate, Chunk, has_tag, next_chunk, chunks_loop, chunks,
}
use nes2snes.Common.{replicate}
use nes2snes.Common.{inr, none, List}
use nes2snes.OamState.Chunks.{written}
use nes2snes.OamState.Snapshot.{Decompressor, ppu_tag, reg_tag, oam_tag, chunk_of, nestopia_oam}
use nes2snes.OamState.Snapshot.Written.{plain, nst_file, nestopia_oam-written}

abbrev registers : Chunk
registers = (82 ∷ 69 ∷ 71 ∷ 0 ∷ [], 7 ∷ 8 ∷ [])

abbrev empty : Chunk
empty = (79 ∷ 65 ∷ 77 ∷ 0 ∷ [], [])

abbrev state : Bytes
state = 82 ∷ 69 ∷ 71 ∷ 0 ∷ 2 ∷ 0 ∷ 0 ∷ 0 ∷ 7 ∷ 8 ∷ 79 ∷ 65 ∷ 77 ∷ 0 ∷ 0 ∷ 0 ∷ 0 ∷ 0 ∷ []

two : chunks state ≡ ok (registers ∷ empty ∷ [])
unfolding chunks chunks_loop next_chunk has_tag bytes_eq
two = refl

refused :
    (chunks (1 ∷ 2 ∷ []) ≡ err truncated_header)
    × (chunks (82 ∷ 69 ∷ 71 ∷ 0 ∷ 2 ∷ 0 ∷ 0 ∷ 0 ∷ 7 ∷ []) ≡ err truncated_payload)
    × (chunks (state ++ state) ≡ err duplicate)
unfolding chunks chunks_loop next_chunk has_tag bytes_eq
refused = (refl, refl, refl)

-- Stored registers, and the sprites packed behind a zero.
abbrev eleven : Bytes
eleven = 0 ∷ 1 ∷ 2 ∷ 3 ∷ 4 ∷ 5 ∷ 6 ∷ 7 ∷ 0x80 ∷ 9 ∷ 0x55 ∷ []

abbrev ppu_chunks : List Chunk
ppu_chunks = (reg_tag, eleven) ∷ (oam_tag, 0 ∷ replicate 256 7) ∷ []

abbrev root_chunks : List Chunk
root_chunks = (ppu_tag, written ppu_chunks) ∷ []

-- It refuses every input.
abbrev broken : Decompressor
broken packed limit = none

nestopia_oam-written_example :
    nestopia_oam broken (nst_file (written root_chunks) (replicate 12 0))
    ≡ ok (replicate 256 7, 0x80, 0x55)
unfolding chunk_of written bytes_eq nst_file
nestopia_oam-written_example =
    nestopia_oam-written broken root_chunks ppu_chunks eleven (0 ∷ replicate 256 7)
      (replicate 256 7) (replicate 12 0) ((refl, omega arith), tt) (tt, tt)
      ((refl, omega arith), ((refl, omega arith), tt))
      (tt, (((λ e. omega (arith, ap (λ (t : Bytes). get_or t 0 0) e)), tt), tt)) refl refl refl refl
      refl plain (omega arith) (inr (inr refl))
