-- ===== src/Rom/Metadata.antt =====
-- tools/rom.py, Rom.metadata: the report on a parsed file. Its hashes and its fixed texts are left out.
use nes2snes.Common.{
  ℕ, ◌+◌, ◌-◌, ◌*◌, ◌/◌, ◌^◌, bit_and, Bool, true, false, not, ◌&&◌, ◌||◌, Option, none, some,
}
use nes2snes.Common.{
  List, [], ◌∷◌, length, get_or, slice, from_bytes, leb, ◌==◌, if◌then◌else◌, Bytes,
}
use nes2snes.Rom.{Rom, prg_offset}

pub data Warning : Type 0 where
  trailing_data chr_ram nonzero_padding mmc5_mirroring : Warning

unfoldable pub any_nonzero : Bytes → Bool
any_nonzero [] = false
any_nonzero (b ∷ rest) = not (b == 0) || any_nonzero rest

-- `if test: warnings.append(w)`, in front of the later warnings
unfoldable pub when : Bool → Warning → List Warning → List Warning
when true w later = w ∷ later
when false w later = later

unfoldable pub warnings : Rom → List Warning
unfolding any_nonzero when
warnings r = when (not (length r.trailing == 0)) trailing_data (
    when (length r.chr == 0) chr_ram (
      when (not r.nes2 && any_nonzero (slice r.header 12 16)) nonzero_padding
        (when (r.mapper == 5) mmc5_mirroring [])))

pub data Timing : Type 0 where
  ntsc pal multi_region dendy : Timing

-- The list of names, read at `h[12] & 3`
unfoldable pub timing : ℕ → Timing
timing n = if n == 0 then ntsc else if n == 1 then pal else if n == 2 then multi_region else dendy

-- `(64 << n) if n else 0`, for the four bits of a header byte at a shift
unfoldable pub ram_size : ℕ → ℕ → ℕ
ram_size byte shift = let n = bit_and (byte / 2 ^ shift) 15 in if n == 0 then 0 else 64 * 2 ^ n

pub record RamSizes : Type 0 where
  pub prg_ram_bytes : ℕ
  pub prg_nvram_bytes : ℕ
  pub chr_ram_bytes : ℕ
  pub chr_nvram_bytes : ℕ

-- What a NES 2.0 header adds.
unfoldable pub ram_sizes : Rom → Option (Timing × RamSizes)
unfolding timing ram_size
ram_sizes r =
    if r.nes2
    then some (
      timing (bit_and (get_or r.header 12 0) 3),
      record {
        prg_ram_bytes = ram_size (get_or r.header 10 0) 0;
        prg_nvram_bytes = ram_size (get_or r.header 10 0) 4;
        chr_ram_bytes = ram_size (get_or r.header 11 0) 0;
        chr_nvram_bytes = ram_size (get_or r.header 11 0) 4;
      },
    )
    else none

-- A word of `self.prg[-6:]`
unfoldable pub tail_word : Bytes → ℕ → ℕ
tail_word prg i = from_bytes (slice prg (length prg - 6 + i) (length prg - 4 + i))

-- NMI, reset and IRQ
unfoldable pub tail_vectors : Bytes → Option (ℕ × ℕ × ℕ)
unfolding tail_word
tail_vectors prg =
    if leb 6 (length prg) then some (tail_word prg 0, tail_word prg 2, tail_word prg 4) else none

pub record Metadata : Type 0 where
  pub nes2 : Bool
  pub file_bytes : ℕ
  pub header : Bytes
  pub mapper : ℕ
  pub submapper : ℕ
  pub trainer_bytes : ℕ
  pub prg_start : ℕ
  pub prg_bytes : ℕ
  pub chr_start : ℕ
  pub chr_bytes : ℕ
  pub trailing_bytes : ℕ
  pub prg_8k_banks : ℕ
  pub chr_1k_banks : ℕ
  pub chr_tiles : ℕ
  pub battery_flag : Bool
  pub warned : List Warning
  pub nes2_sizes : Option (Timing × RamSizes)
  pub prg_tail_vector_words : Option (ℕ × ℕ × ℕ)

unfoldable pub metadata : Rom → Metadata
unfolding prg_offset warnings ram_sizes tail_vectors
metadata r = record {
  nes2 = r.nes2;
  file_bytes = length r.raw;
  header = r.header;
  mapper = r.mapper;
  submapper = r.submapper;
  trainer_bytes = length r.trainer;
  prg_start = prg_offset r;
  prg_bytes = length r.prg;
  chr_start = prg_offset r + length r.prg;
  chr_bytes = length r.chr;
  trailing_bytes = length r.trailing;
  prg_8k_banks = length r.prg / 8192;
  chr_1k_banks = length r.chr / 1024;
  chr_tiles = length r.chr / 16;
  battery_flag = not (bit_and (get_or r.header 6 0) 2 == 0);
  warned = warnings r;
  nes2_sizes = ram_sizes r;
  prg_tail_vector_words = tail_vectors r.prg;
}
