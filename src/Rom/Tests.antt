-- ===== src/Rom/Tests.antt =====
-- A small cartridge in the exponent notation of NES 2.0, and each theorem at it.
use nes2snes.Common.{some, ◌*◌, ◌^◌, ◌≡◌, ◌↔◌, refl, true}
use nes2snes.Common.{Bytes, bytes_eq, [], ◌∷◌, ok, err, replicate, ◌++◌}
use nes2snes.Rom.{Rom, parse, nes2_size, magic, not_nes, archaic, no_prg, truncated}
use nes2snes.Rom.Metadata.{trailing_data, tail_vectors, ram_size, metadata}
use nes2snes.Rom.Parsed.{IsCartridge, IsCut, parse_iff}

-- One byte of PRG, two of CHR, and one more; mapper 0x12a, submapper 3.
abbrev file : Bytes
file =
    b'N' ∷ b'E' ∷ b'S' ∷ 0x1a ∷ 0 ∷ 4 ∷ 0xa0 ∷ 0x28 ∷ 0x31 ∷ 0xff ∷ 0 ∷ 0 ∷ 0 ∷ 0 ∷ 0 ∷ 0 ∷ 0x60
    ∷ 0x71 ∷ 0x72 ∷ 0xee ∷ []

abbrev header : Bytes
header = b'N' ∷ b'E' ∷ b'S' ∷ 0x1a ∷ 0 ∷ 4 ∷ 0xa0 ∷ 0x28 ∷ 0x31 ∷ 0xff ∷ 0 ∷ 0 ∷ 0 ∷ 0 ∷ 0 ∷ 0 ∷ []

abbrev cartridge : Rom
cartridge = record {
  raw = file;
  header = header;
  trainer = [];
  prg = 0x60 ∷ [];
  chr = 0x71 ∷ 0x72 ∷ [];
  trailing = 0xee ∷ [];
  mapper = 0x12a;
  submapper = 3;
  nes2 = true;
}

parsed : parse file ≡ ok cartridge
unfolding parse bytes_eq
parsed = refl

refused :
    (parse [] ≡ err not_nes)
    × (parse header ≡ err truncated)
    × (parse (magic ++ replicate 12 0) ≡ err no_prg)
    × (parse (magic ++ replicate 12 4) ≡ err archaic)
unfolding parse bytes_eq
refused = (refl, refl, refl, refl)

sizes : (nes2_size 0x7b 15 16384 ≡ 2 ^ 30 * 7) × (nes2_size 2 1 16384 ≡ 258 * 16384)
unfolding nes2_size
sizes = (refl, refl)

parse_iff_example : (parse file ≡ ok cartridge) ↔ (IsCartridge file × IsCut file cartridge)
parse_iff_example = parse_iff file cartridge

described :
    ((metadata cartridge).warned ≡ trailing_data ∷ [])
    × ((metadata cartridge).chr_start ≡ 17)
    × (tail_vectors (0 ∷ 1 ∷ 0x80 ∷ 2 ∷ 0x90 ∷ 3 ∷ 0xa0 ∷ []) ≡ some (0x8001, 0x9002, 0xa003))
    × (ram_size 0x70 4 ≡ 8192)
unfolding metadata tail_vectors ram_size
described = (refl, refl, refl, refl)
