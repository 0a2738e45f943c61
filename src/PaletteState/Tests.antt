-- ===== src/PaletteState/Tests.antt =====
-- A small saved state with packed memories, and the theorem at it.
use nes2snes.Common.{◌-◌, ◌≡◌, refl, true, false, some}
use nes2snes.Common.{Bytes, bytes_eq, List, [], ◌∷◌, ok, err, replicate, bool}
use nes2snes.OamState.{Chunk, chunks, chunks_loop, next_chunk, has_tag}
use nes2snes.OamState.Chunks.{written}
use nes2snes.OamState.Snapshot.{Decompressor, ppu_tag, reg_tag, outside_profile, bad_footer}
use nes2snes.OamState.Snapshot.Written.{nst_file}
use nes2snes.PaletteState.{State, state_bytes, cpu_tag, pal_tag, ram_tag, nmt_tag, decode}
use nes2snes.PaletteState.Decoded.{IsState, decode-IsState}

-- A decompressor that answers with as many zeros as are allowed but one.
abbrev zeros : Decompressor
zeros packed limit =
    some (record { output = replicate (limit - 1) 0; eof = true; unused = []; tail = [] })

abbrev ppu : Bytes → List Chunk
ppu registers = (reg_tag, registers) ∷ (pal_tag, 1 ∷ []) ∷ (nmt_tag, 1 ∷ []) ∷ []

abbrev cpu : List Chunk
cpu = (reg_tag, 1 ∷ 2 ∷ 3 ∷ 4 ∷ 5 ∷ 6 ∷ 7 ∷ []) ∷ (ram_tag, 1 ∷ []) ∷ []

abbrev saved : Bytes → Bytes
saved registers =
    nst_file (written ((ppu_tag, written (ppu registers)) ∷ (cpu_tag, written cpu) ∷ [])) []

abbrev small : State
small = record {
  cpu_ram = replicate 2048 0;
  cpu_registers = 1 ∷ 2 ∷ 4 ∷ 5 ∷ 6 ∷ 0x37 ∷ 3 ∷ [];
  ppu_state = 0 ∷ 0 ∷ 1 ∷ 5 ∷ 5 ∷ 6 ∷ 3 ∷ 4 ∷ 9 ∷ 10 ∷ [];
  palette_storage = replicate 32 0;
  palette = replicate 32 0;
  ciram = replicate 2048 0;
}

decoded :
    decode zeros
      (bool false)
      (state_bytes (saved (0 ∷ 0 ∷ 2 ∷ 3 ∷ 4 ∷ 5 ∷ 6 ∷ 0x0d ∷ 8 ∷ 9 ∷ 10 ∷ [])))
    ≡ ok small
unfolding decode chunks chunks_loop next_chunk has_tag bytes_eq nst_file written
decoded = refl

refused :
    (decode zeros
        (bool false)
        (state_bytes (saved (0x20 ∷ 0 ∷ 2 ∷ 3 ∷ 4 ∷ 5 ∷ 6 ∷ 0x0d ∷ 8 ∷ 9 ∷ 10 ∷ [])))
      ≡ err outside_profile)
    × (decode zeros (bool false) (state_bytes (nst_file [] (1 ∷ []))) ≡ err bad_footer)
unfolding decode chunks chunks_loop next_chunk has_tag bytes_eq nst_file written
refused = (refl, refl)

decode-IsState_example : IsState false small
decode-IsState_example =
    decode-IsState zeros false
      (state_bytes (saved (0 ∷ 0 ∷ 2 ∷ 3 ∷ 4 ∷ 5 ∷ 6 ∷ 0x0d ∷ 8 ∷ 9 ∷ 10 ∷ []))) small decoded
