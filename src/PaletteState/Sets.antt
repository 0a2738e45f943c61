-- ===== src/PaletteState/Sets.antt =====
-- tools/chr_sets_state.py: the twelve bank registers of a saved state (decode_sets) and of a native
-- run (native_registers). A dictionary's texts of `hex()` are kept as their bytes.
pub mod Registers
pub mod Sources
pub mod Saved
pub mod Agree
mod Tests
use nes2snes.Common.{
  ℕ, ◌+◌, ◌-◌, ◌*◌, ◌/◌, ◌%◌, ◌^◌, bit_and, bit_or, Bool, true, false, not, ◌&&◌, ◌||◌, List, [],
  ◌∷◌, ◌++◌, map, length, get_or, take, drop, slice, ltb, leb, ◌==◌, if◌then◌else◌,
}
use nes2snes.Common.{
  Result, ok, err, ◌>>=◌, ◌>>◌, raise_if, as_error, Value, nat, bool, Bytes, bytes_eq, to_bytes,
}
use nes2snes.Common.Text.{TextArgument, not_text}
use nes2snes.OamState.Snapshot.{
  StateError, Decompressor, reg_tag, chunk_of, chunks_of, nst_end, nestopia_oam,
}
use nes2snes.PaletteState.{
  StateArgument, state_bytes, not_state_bytes, State, Mmc5State, img_tag, mpr_tag, mm5_tag, decode,
  decode_mmc5,
}
use nes2snes.Dma.{exact_hex, Listed, listed, not_listed}

-- The `ValueError`s; `refused` is one of the readers called.
pub data SetsError : Type 0 where
  refused not_8x16 bad_registers bad_oam no_record out_of_range differs : SetsError

-- `range(8)` and `range(4)`
abbrev pub first_four : List ℕ
first_four = 0 ∷ 1 ∷ 2 ∷ 3 ∷ []

abbrev pub first_eight : List ℕ
first_eight = 0 ∷ 1 ∷ 2 ∷ 3 ∷ 4 ∷ 5 ∷ 6 ∷ 7 ∷ []

-- The two bits for register `i` in a byte that packs four registers' high bits
unfoldable pub high_bits : ℕ → ℕ → ℕ
high_bits packed i = bit_and (packed / 2 ^ (2 * (i % 4))) 3

-- `reg[7 + i] | (high << 8)`, and the same for set B
unfoldable pub bank_a : Bytes → ℕ → ℕ
unfolding high_bits
bank_a reg i = bit_or (get_or reg (7 + i) 0) (high_bits (get_or reg (19 + i / 4) 0) i * 256)

unfoldable pub bank_b : Bytes → ℕ → ℕ
unfolding high_bits
bank_b reg i = bit_or (get_or reg (15 + i) 0) (high_bits (get_or reg 21 0) i * 256)

-- `b''.join(v.to_bytes(2, 'little') for v in banks)`
unfoldable pub words : List ℕ → Bytes
words [] = []
words (v ∷ rest) = to_bytes 2 v ++ words rest

unfoldable pub banks_of : Bytes → List ℕ
unfolding bank_a bank_b
banks_of reg = map (bank_a reg) first_eight ++ map (bank_b reg) first_four

unfoldable pub image_of : Bytes → Bytes
unfolding words banks_of
image_of reg =
    bit_and (get_or reg 0 0 / 4) 3
    ∷ bit_and (get_or reg 22 0) 3
    ∷ get_or reg 22 0 / 128
    ∷ words (banks_of reg)

-- `reg`, on the way that decode_mmc5 has found
unfoldable pub mapper_registers : Bytes → Result SetsError Bytes
unfolding chunk_of
mapper_registers bytes = do
  root ← as_error refused (chunks_of (slice bytes 8 (nst_end bytes)))
  image ← as_error refused (chunks_of (chunk_of img_tag root))
  mapper ← as_error refused (chunks_of (chunk_of mpr_tag image))
  mmc5 ← as_error refused (chunks_of (chunk_of mm5_tag mapper))
  ok (chunk_of reg_tag mmc5)

-- `any(oam[i] & 0x1C for i in range(2, 256, 4))`, with the index of the first byte of the list
unfoldable pub has_absent_bits : ℕ → Bytes → Bool
has_absent_bits i [] = false
has_absent_bits i (v ∷ rest) =
    (i % 4 == 2 && not (bit_and v 0x1c == 0)) || has_absent_bits (i + 1) rest

-- The dictionary that `decode_sets` returns
pub record Sets : Type 0 where
  pub state : State
  pub mmc5 : Mmc5State
  pub image : Bytes
  pub oam : Bytes
  pub address : ℕ

unfoldable pub decode_sets : Decompressor → StateArgument → Result SetsError Sets
unfolding decode decode_mmc5 mapper_registers image_of has_absent_bits nestopia_oam
decode_sets decompress not_state_bytes = err refused
decode_sets decompress (state_bytes bytes) = do
  s ← as_error refused (decode decompress (bool true) (state_bytes bytes))
  m ← as_error refused (decode_mmc5 decompress (bool true) (state_bytes bytes))
  raise_if (not (bit_and (get_or s.ppu_state 0 0) 0xe0 == 0x20)) not_8x16
  reg ← mapper_registers bytes
  raise_if (not (length reg == 32) || not (bit_and (get_or reg 22 0) 0x7c == 0)) bad_registers
  (oam, address, latch) ← as_error refused (nestopia_oam decompress bytes)
  raise_if (not (latch == get_or s.ppu_state 9 0) || has_absent_bits 0 oam) bad_oam
  ok (record { state = s; mmc5 = m; image = image_of reg; oam = oam; address = address })

-- What is read of a native run's dictionary
pub record NativeState : Type 0 where
  pub chr_set_b : TextArgument
  pub ppu_chr_context : TextArgument
  pub chr_records : Listed TextArgument
  pub completed_steps : Value

-- The last completed row
unfoldable pub last_row : Listed TextArgument → Value → Result SetsError TextArgument
last_row (listed rows) (nat count) =
    if leb 1 count && leb count (length rows)
    then ok (get_or rows (count - 1) not_text)
    else err no_record
last_row rows count = err no_record

-- `bytes((cr[i], (cr[8 + i // 4] >> (2 * (i % 4))) & 3))`
unfoldable pub native_pair : Bytes → ℕ → Bytes
unfolding high_bits
native_pair cr i = get_or cr i 0 ∷ high_bits (get_or cr (8 + i / 4) 0) i ∷ []

unfoldable pub pairs : Bytes → List ℕ → Bytes
unfolding native_pair
pairs cr [] = []
pairs cr (i ∷ rest) = native_pair cr i ++ pairs cr rest

unfoldable pub any_set : Bytes → Bool
any_set [] = false
any_set (v ∷ rest) = not (v == 0) || any_set rest

unfoldable pub in_ten_bits : Bytes → Bytes → Bytes → Bool
in_ten_bits b cr row =
    leb (get_or b 8 0) 1
    && ((leb (get_or b 1 0) 3
          && (leb (get_or b 3 0) 3 && (leb (get_or b 5 0) 3 && leb (get_or b 7 0) 3)))
        && (leb (get_or cr 10 0) 3 && leb (get_or row 0 0) 3))

unfoldable pub row_agrees : Bytes → Bytes → Bytes → Bool
unfolding pairs any_set
row_agrees b cr row =
    get_or row 1 0 == get_or cr 10 0
    && (bytes_eq (slice row 2 18) (pairs cr first_eight)
        && (bytes_eq (slice row 34 43) b && not (any_set (drop 43 row))))

unfoldable pub native_registers : NativeState → Result SetsError Bytes
unfolding last_row in_ten_bits row_agrees
native_registers state = do
  b ← as_error refused (exact_hex state.chr_set_b 9)
  context ← as_error refused (exact_hex state.ppu_chr_context 28)
  text ← last_row state.chr_records state.completed_steps
  row ← as_error refused (exact_hex text 48)
  raise_if (not (in_ten_bits b (drop 16 context) row)) out_of_range
  raise_if (not (row_agrees b (drop 16 context) row)) differs
  ok (
      get_or row 0 0
      ∷ get_or (drop 16 context) 10 0
      ∷ get_or b 8 0
      ∷ (pairs (drop 16 context) first_eight ++ take 8 b))
