-- ===== src/Rom.antt =====
-- tools/rom.py: a cartridge file, its header and its parts (nes2_size, Rom.parse, Rom.prg_offset).
pub mod Parsed
pub mod Metadata
mod Tests
use nes2snes.Common.{ℕ, ◌+◌, ◌*◌, ◌/◌, ◌^◌, bit_and, bit_or, Bool, true, false, not, ◌&&◌, ◌||◌}
use nes2snes.Common.{List, [], ◌∷◌, length, get_or, take, drop, ltb, ◌==◌, if◌then◌else◌}
use nes2snes.Common.{Bytes, bytes_eq, Result, ok, err, ◌>>=◌, ◌>>◌, raise_if}

pub data RomError : Type 0 where
  not_nes archaic no_prg truncated : RomError

unfoldable pub nes2_size : ℕ → ℕ → ℕ → ℕ
nes2_size low high unit =
    if not (high == 15)
    then bit_or (high * 256) low * unit
    else 2 ^ (low / 4) * (bit_and low 3 * 2 + 1)

pub record Rom : Type 0 where
  pub raw : Bytes
  pub header : Bytes
  pub trainer : Bytes
  pub prg : Bytes
  pub chr : Bytes
  pub trailing : Bytes
  pub mapper : ℕ
  pub submapper : ℕ
  pub nes2 : Bool

-- `b'NES\x1a'`
abbrev pub magic : Bytes
magic = b'N' ∷ b'E' ∷ b'S' ∷ 0x1a ∷ []

-- `h[i]`
abbrev pub header_byte : Bytes → ℕ → ℕ
header_byte raw i = get_or raw i 0

abbrev pub is_nes2 : Bytes → Bool
is_nes2 raw = bit_and (header_byte raw 7) 12 == 8

unfoldable pub mapper_of : Bytes → ℕ
mapper_of raw =
    let legacy = bit_or (header_byte raw 6 / 16) (bit_and (header_byte raw 7) 240) in
    if is_nes2 raw then bit_or legacy (bit_and (header_byte raw 8) 15 * 256) else legacy

unfoldable pub submapper_of : Bytes → ℕ
submapper_of raw = if is_nes2 raw then header_byte raw 8 / 16 else 0

unfoldable pub prg_size : Bytes → ℕ
unfolding nes2_size
prg_size raw =
    if is_nes2 raw
    then nes2_size (header_byte raw 4) (bit_and (header_byte raw 9) 15) 16384
    else header_byte raw 4 * 16384

unfoldable pub chr_size : Bytes → ℕ
unfolding nes2_size
chr_size raw =
    if is_nes2 raw
    then nes2_size (header_byte raw 5) (header_byte raw 9 / 16) 8192
    else header_byte raw 5 * 8192

unfoldable pub trainer_size : Bytes → ℕ
trainer_size raw = if not (bit_and (header_byte raw 6) 4 == 0) then 512 else 0

-- `raw[start:start + size]`
abbrev pub part : Bytes → ℕ → ℕ → Bytes
part raw start size = take size (drop start raw)

unfoldable pub parse : Bytes → Result RomError Rom
unfolding mapper_of submapper_of prg_size chr_size trainer_size
parse raw = do
  raise_if (ltb (length raw) 16 || not (bytes_eq (take 4 raw) magic)) not_nes
  raise_if (not (bit_and (header_byte raw 7) 12 == 0 || is_nes2 raw)) archaic
  raise_if (prg_size raw == 0) no_prg
  raise_if (ltb (length raw) (16 + trainer_size raw + prg_size raw + chr_size raw)) truncated
  ok (record {
    raw = raw;
    header = take 16 raw;
    trainer = part raw 16 (trainer_size raw);
    prg = part raw (16 + trainer_size raw) (prg_size raw);
    chr = part raw (16 + trainer_size raw + prg_size raw) (chr_size raw);
    trailing = drop (16 + trainer_size raw + prg_size raw + chr_size raw) raw;
    mapper = mapper_of raw;
    submapper = submapper_of raw;
    nes2 = is_nes2 raw;
  })

-- The property `prg_offset`.
unfoldable pub prg_offset : Rom → ℕ
prg_offset r = 16 + length r.trainer
