-- ===== src/Graphics/Tilemap.antt =====
-- tools/graphics.py, nametable_to_snes: a nametable with its attributes as a map of words.
pub mod Words
use nes2snes.Common.{
  ℕ, zero, suc, ◌+◌, ◌*◌, ◌/◌, ◌^◌, bit_and, bit_or, Bool, true, false, not, ◌&&◌,
}
use nes2snes.Common.{
  List, [], ◌∷◌, ◌++◌, length, get_or, ltb, leb, ◌==◌, if◌then◌else◌, Bytes, to_bytes,
}
use nes2snes.Common.{Result, ok, err, ◌>>=◌, ◌>>◌, raise_if, ℤ, pos, negsuc}

-- The two `ValueError`s.
pub data TilemapError : Type 0 where
  bad_nametable bad_offsets : TilemapError

unfoldable pub check_offset : ℤ → ℕ → Result TilemapError ℕ
check_offset (pos n) limit = if leb n limit then ok n else err bad_offsets
check_offset (negsuc n) limit = err bad_offsets

-- `((attr >> shift) & 3)` of the tile at a column and a row
unfoldable pub attribute : Bytes → ℕ → ℕ → ℕ
attribute nametable y x =
    let attr = get_or nametable (960 + y / 4 * 8 + x / 4) 0 in
    let shift = (if bit_and y 2 == 0 then 0 else 4) + (if bit_and x 2 == 0 then 0 else 2) in
    bit_and (attr / 2 ^ shift) 3

-- The word of a tile of the thirty rows.
unfoldable pub tile_word : Bytes → ℕ → ℕ → Bool → ℕ → ℕ → ℕ
unfolding attribute
tile_word nametable tile_offset palette_offset priority y x =
    let palette = attribute nametable y x + palette_offset in
    let word = bit_or (get_or nametable (y * 32 + x) 0 + tile_offset) (palette * 1024) in
    if priority then bit_or word 0x2000 else word

-- The word at a place of the map, of which the last two rows are blank.
unfoldable pub word : Bytes → ℕ → ℕ → Bool → ℕ → ℕ → ℕ
unfolding tile_word
word nametable tile_offset palette_offset priority y x =
    if ltb y 30 then tile_word nametable tile_offset palette_offset priority y x else 0

-- The loops over the columns and the rows, for the word at each place.
unfoldable pub columns : ℕ → (ℕ → ℕ) → ℕ → Bytes
columns zero words x = []
columns (suc count) words x = to_bytes 2 (words x) ++ columns count words (x + 1)

unfoldable pub rows : ℕ → (ℕ → ℕ → ℕ) → ℕ → Bytes
unfolding columns
rows zero words y = []
rows (suc count) words y = columns 32 (words y) 0 ++ rows count words (y + 1)

unfoldable pub nametable_to_snes : Bytes → ℤ → ℤ → Bool → Result TilemapError Bytes
unfolding check_offset word rows
nametable_to_snes nametable tile_offset palette_offset priority = do
  raise_if (not (length nametable == 1024)) bad_nametable
  tile ← check_offset tile_offset 768
  palette ← check_offset palette_offset 4
  ok (rows 32 (word nametable tile palette priority) 0)
