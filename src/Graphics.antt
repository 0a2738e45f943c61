-- ===== src/Graphics.antt =====
-- tools/graphics.py: tiles of 8 rows with two planes, from one byte order to the other and back.
-- The NES stores the first plane and then the second, the SNES the two planes row by row.
pub mod Planes
pub mod RoundTrip
pub mod Tilemap
pub mod Pixels
mod Tests
use nes2snes.Common.{
  ℕ, zero, suc, ◌+◌, ◌*◌, ◌/◌, ◌%◌, Bool, true, false, not, ◌&&◌, ◌||◌, Option, List, [], ◌∷◌, ◌++◌,
}
use nes2snes.Common.{get_or, length, take, drop, replicate, ◌==◌, if◌then◌else◌, Bytes}
use nes2snes.Common.{Result, ok, err, ◌>>=◌, ◌>>◌, raise_if}

-- The `ValueError`s of the two converters.
pub data TileError : Type 0 where
  partial_tile bad_depth bad_length upper_planes : TileError

-- `bpp in (2, 4)`
abbrev pub depth_known : ℕ → Bool
depth_known bpp = bpp == 2 || bpp == 4

-- `tile[row], tile[row + 8]` for `count` rows from `row`
unfoldable pub interleave : ℕ → ℕ → Bytes → Bytes
interleave zero row tile = []
interleave (suc count) row tile =
    get_or tile row 0 ∷ get_or tile (row + 8) 0 ∷ interleave count (row + 1) tile

unfoldable pub padding : ℕ → Bytes
padding bpp = if bpp == 4 then replicate 16 0 else []

-- The loop of `nes_to_snes` over a number of tiles.
unfoldable pub nes_loop : ℕ → ℕ → Bytes → Bytes
unfolding interleave padding
nes_loop bpp zero chr_data = []
nes_loop bpp (suc tiles) chr_data =
    (interleave 8 0 (take 16 chr_data) ++ padding bpp) ++ nes_loop bpp tiles (drop 16 chr_data)

unfoldable pub nes_to_snes : Bytes → ℕ → Result TileError Bytes
unfolding nes_loop
nes_to_snes chr_data bpp = do
  raise_if (not (length chr_data % 16 == 0)) partial_tile
  raise_if (not (depth_known bpp)) bad_depth
  ok (nes_loop bpp (length chr_data / 16) chr_data)

-- `xs[::2]` and `xs[1::2]`
unfoldable pub evens : Bytes → Bytes
evens [] = []
evens (x ∷ []) = x ∷ []
evens (x ∷ y ∷ rest) = x ∷ evens rest

unfoldable pub odds : Bytes → Bytes
odds [] = []
odds (x ∷ []) = []
odds (x ∷ y ∷ rest) = y ∷ odds rest

unfoldable pub any_set : Bytes → Bool
any_set [] = false
any_set (x ∷ rest) = not (x == 0) || any_set rest

unfoldable pub snes_tile : ℕ → Bytes → Result TileError Bytes
unfolding evens odds any_set
snes_tile bpp tile = do
  raise_if (bpp == 4 && any_set (drop 16 tile)) upper_planes
  ok (evens (take 16 tile) ++ odds (take 16 tile))

-- The loop of `snes_to_nes` over a number of tiles.
unfoldable pub snes_loop : ℕ → ℕ → Bytes → Result TileError Bytes
unfolding snes_tile
snes_loop bpp zero bytes = ok []
snes_loop bpp (suc tiles) bytes = do
  tile ← snes_tile bpp (take (8 * bpp) bytes)
  rest ← snes_loop bpp tiles (drop (8 * bpp) bytes)
  ok (tile ++ rest)

unfoldable pub snes_to_nes : Bytes → ℕ → Result TileError Bytes
unfolding snes_loop
snes_to_nes bytes bpp = do
  raise_if (not (depth_known bpp) || not (length bytes % (8 * bpp) == 0)) bad_length
  snes_loop bpp (length bytes / (8 * bpp)) bytes
