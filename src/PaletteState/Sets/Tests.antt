-- ===== src/PaletteState/Sets/Tests.antt =====
-- A saved state and a native run with the same bank registers.
use nes2snes.Common.{
  ◌/◌, ◌%◌, length, ltb, ◌≡◌, ◌↔◌, refl, true, All, List, [], ◌∷◌, ◌++◌, replicate, get_or, drop,
  ok, err, Bytes, Bool, ◌&&◌, &&-true, ltb→lt, some, ◌-◌, bytes_eq, AreBytes, nat,
}
use nes2snes.Common.Text.{text, not_text, from_hex, hex_text}
use nes2snes.Dma.{exact_hex, listed}
use nes2snes.OamState.{Chunk, chunks, chunks_loop, next_chunk, has_tag}
use nes2snes.OamState.Chunks.{written}
use nes2snes.OamState.Snapshot.{Decompressor, ppu_tag, reg_tag, oam_tag, nestopia_oam}
use nes2snes.OamState.Snapshot.Written.{nst_file}
use nes2snes.PaletteState.{
  state_bytes, not_state_bytes, cpu_tag, pal_tag, ram_tag, nmt_tag, img_tag, mpr_tag, mm5_tag,
  decode, decode_mmc5,
}
use nes2snes.PaletteState.Sets.{
  refused, no_record, out_of_range, differs, Sets, NativeState, decode_sets, native_registers,
}
use nes2snes.PaletteState.Sets.Registers.{IsTenBits}
use nes2snes.PaletteState.Sets.Sources.{saved_a, saved_b, native_a, native_b, twelve, IsLastRow}
use nes2snes.PaletteState.Sets.Saved.{IsSaved}
use nes2snes.PaletteState.Sets.Agree.{decode_sets-native_registers}

-- A decompressor that answers with as many zeros as are allowed but one.
abbrev zeros : Decompressor
zeros packed limit =
    some (record { output = replicate (limit - 1) 0; eof = true; unused = []; tail = [] })

abbrev ppu : List Chunk
ppu =
    (reg_tag, 0x20 ∷ replicate 10 0)
    ∷ (pal_tag, 1 ∷ [])
    ∷ (nmt_tag, 1 ∷ [])
    ∷ (oam_tag, 1 ∷ [])
    ∷ []

abbrev cpu : List Chunk
cpu = (reg_tag, replicate 7 0) ∷ (ram_tag, 1 ∷ []) ∷ []

-- Mode 3, register 0 of set A at 112 hexadecimal, set B last written, and the upper bits 1.
abbrev mapper : Bytes
mapper = (0x2c ∷ replicate 6 0) ++ ((0x12 ∷ replicate 11 0) ++ (1 ∷ 0 ∷ 0 ∷ 0x81 ∷ replicate 9 0))

abbrev mmc5 : List Chunk
mmc5 = (reg_tag, mapper) ∷ (ram_tag, 1 ∷ []) ∷ []

abbrev saved : Bytes
saved =
    nst_file
      (written (
        (ppu_tag, written ppu)
        ∷ (cpu_tag, written cpu)
        ∷ (img_tag, written ((mpr_tag, written ((mm5_tag, written mmc5) ∷ [])) ∷ []))
        ∷ []))
      []

abbrev image : Bytes
image = 3 ∷ 1 ∷ 1 ∷ 0x12 ∷ 1 ∷ replicate 22 0

abbrev endpoint : Sets
endpoint = record {
  state = record {
    cpu_ram = replicate 2048 0;
    cpu_registers = 0 ∷ 0 ∷ 0 ∷ 0 ∷ 0 ∷ 0x30 ∷ 0 ∷ [];
    ppu_state = 0x20 ∷ replicate 9 0;
    palette_storage = replicate 32 0;
    palette = replicate 32 0;
    ciram = replicate 2048 0;
  };
  mmc5 = record { nametable_registers = 2 ∷ 0 ∷ 0 ∷ 0 ∷ []; exram = replicate 1024 0 };
  image = image;
  oam = replicate 256 0;
  address = 0;
}

endpoint_decoded : decode_sets zeros (state_bytes saved) ≡ ok endpoint
unfolding decode_sets decode decode_mmc5 nestopia_oam chunks chunks_loop next_chunk has_tag bytes_eq
    nst_file written
endpoint_decoded = refl

abbrev context : Bytes
context = replicate 16 0 ++ ((0x12 ∷ replicate 7 0) ++ (1 ∷ 0 ∷ 1 ∷ 0 ∷ []))

abbrev set_b : Bytes
set_b = replicate 8 0 ++ (1 ∷ [])

abbrev row : Bytes
row = (3 ∷ 1 ∷ 0x12 ∷ 1 ∷ replicate 38 0) ++ (1 ∷ replicate 5 0)

abbrev native : NativeState
native = record {
  chr_set_b = text (hex_text set_b);
  ppu_chr_context = text (hex_text context);
  chr_records = listed (text (hex_text row) ∷ not_text ∷ []);
  completed_steps = nat 1;
}

native_read : native_registers native ≡ ok image
unfolding native_registers exact_hex from_hex bytes_eq
native_read = refl

refusals :
    (decode_sets zeros not_state_bytes ≡ err refused)
    × (native_registers (record native { completed_steps = nat 3 }) ≡ err no_record)
    × (native_registers (record native { completed_steps = nat 2 }) ≡ err refused)
    × (native_registers (record native { chr_set_b = text (hex_text (replicate 9 2)) })
        ≡ err out_of_range)
    × (native_registers (record native { chr_set_b = text (hex_text (replicate 9 1)) })
        ≡ err differs)
unfolding decode_sets native_registers exact_hex from_hex bytes_eq
refusals = (refl, refl, refl, refl, refl)

abbrev all_bytes : Bytes → Bool
all_bytes [] = true
all_bytes (b ∷ rest) = ltb b 256 && all_bytes rest

all_bytes-AreBytes : (bs : Bytes) → all_bytes bs ≡ true → AreBytes bs
all_bytes-AreBytes [] h = tt
all_bytes-AreBytes (b ∷ rest) h =
    let (first, later) = &&-true (ltb b 256) (all_bytes rest) h in
    (ltb→lt b 256 first, all_bytes-AreBytes rest later)

saved-AreBytes : AreBytes saved
unfolding nst_file written
saved-AreBytes = all_bytes-AreBytes saved refl

decode_sets-native_registers_example :
    (reg : Bytes) × (b : Bytes) × (found : Bytes) × (last : Bytes) × IsSaved saved reg
    × (length reg ≡ 32)
    × (exact_hex native.chr_set_b 9 ≡ ok b)
    × (exact_hex native.ppu_chr_context 28 ≡ ok found)
    × IsLastRow native last
    × All IsTenBits (twelve (saved_a reg) (saved_b reg))
    × ((image ≡ image) ↔ (
        (get_or reg 0 0 / 4 % 4 ≡ get_or last 0 0)
        × (get_or reg 22 0 % 4 ≡ get_or found 26 0)
        × (get_or reg 22 0 / 128 ≡ get_or b 8 0)
        × (twelve (saved_a reg) (saved_b reg) ≡ twelve (native_a (drop 16 found)) (native_b b))))
decode_sets-native_registers_example =
    decode_sets-native_registers zeros saved native saved-AreBytes endpoint_decoded native_read
