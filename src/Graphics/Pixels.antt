-- ===== src/Graphics/Pixels.antt =====
-- tools/graphics.py: decode_nes_tile, encode_nes_tile and synthetic_chr, a tile and its pixels.
pub mod Bits
pub mod Inverse
use nes2snes.Common.{
  ℕ, zero, suc, ◌+◌, ◌-◌, ◌*◌, ◌/◌, ◌%◌, ◌^◌, bit_or, bit_xor, Bool, true, false, not, ◌&&◌, ◌||◌,
}
use nes2snes.Common.{
  List, [], ◌∷◌, ◌++◌, map, length, get_or, set, ltb, leb, ◌==◌, if◌then◌else◌, Bytes,
}
use nes2snes.Common.{Result, ok, err, ◌>>=◌, ◌>>◌, raise_if, Value, nat, bool}

-- The `ValueError`s, by what their messages name.
pub data PixelError : Type 0 where
  not_a_tile not_a_matrix bad_pixel bad_pages : PixelError

-- `(v >> k) & 1`
unfoldable pub bit_at : ℕ → ℕ → ℕ
bit_at v k = v / 2 ^ k % 2

-- `range(8)`
abbrev pub eight : List ℕ
eight = 0 ∷ 1 ∷ 2 ∷ 3 ∷ 4 ∷ 5 ∷ 6 ∷ 7 ∷ []

unfoldable pub pixel : Bytes → ℕ → ℕ → ℕ
unfolding bit_at
pixel tile y x =
    bit_or (bit_at (get_or tile y 0) (7 - x)) (bit_at (get_or tile (y + 8) 0) (7 - x) * 2)

unfoldable pub decode_nes_tile : Bytes → Result PixelError (List (List ℕ))
unfolding pixel
decode_nes_tile tile =
    if not (length tile == 16)
    then err not_a_tile
    else ok (map (λ y. map (pixel tile y) eight) eight)

unfoldable pub all_of_eight : {A : Type 0} → List (List A) → Bool
all_of_eight [] = true
all_of_eight (row ∷ rest) = length row == 8 && all_of_eight rest

-- The number of a pixel; a Boolean is an `int`.
unfoldable pub pixel_value : Value → Result PixelError ℕ
pixel_value (nat n) = if leb n 3 then ok n else err bad_pixel
pixel_value (bool b) = ok (if b then 1 else 0)
pixel_value v = err bad_pixel

unfoldable pub row_values : List Value → Result PixelError (List ℕ)
unfolding pixel_value
row_values [] = ok []
row_values (v ∷ rest) = do n ← pixel_value v; l ← row_values rest; ok (n ∷ l)

unfoldable pub matrix_values : List (List Value) → Result PixelError (List (List ℕ))
unfolding row_values
matrix_values [] = ok []
matrix_values (row ∷ rest) = do r ← row_values row; l ← matrix_values rest; ok (r ∷ l)

-- `sum(((row[x] >> plane) & 1) << (7 - x))`, from `x` on
unfoldable pub plane_byte : ℕ → ℕ → List ℕ → ℕ
unfolding bit_at
plane_byte plane x [] = 0
plane_byte plane x (p ∷ rest) = bit_at p plane * 2 ^ (7 - x) + plane_byte plane (x + 1) rest

unfoldable pub plane_bytes : List (List ℕ) → Bytes
unfolding plane_byte
plane_bytes rows = map (plane_byte 0 0) rows ++ map (plane_byte 1 0) rows

unfoldable pub encode_nes_tile : List (List Value) → Result PixelError Bytes
unfolding all_of_eight matrix_values plane_bytes
encode_nes_tile pixels = do
  raise_if (not (length pixels == 8) || not (all_of_eight pixels)) not_a_matrix
  rows ← matrix_values pixels
  ok (plane_bytes rows)

-- `p[y][x] = v`
abbrev poke : List (List ℕ) → ℕ → ℕ → ℕ → List (List ℕ)
poke p y x v = set p y (set (get_or p y []) x v)

-- The pixels of the synthetic tile `t`
unfoldable pub synthetic_tile : ℕ → List (List ℕ)
synthetic_tile t =
    let p = map (λ y. map (λ x. (bit_xor (bit_xor x y) (t % 256) + t / 256) % 4) eight) eight in
    poke (poke (poke (poke p 0 0 0) 0 7 1) 7 0 2) 7 7 3

-- `count` tiles from tile `t` on
unfoldable pub synthetic_tiles : ℕ → ℕ → Bytes
unfolding synthetic_tile plane_bytes
synthetic_tiles t zero = []
synthetic_tiles t (suc count) = plane_bytes (synthetic_tile t) ++ synthetic_tiles (t + 1) count

-- The pixels are a matrix of numbers below 4, so that `encode_nes_tile` does not refuse them.
unfoldable pub synthetic_chr : ℕ → Result PixelError Bytes
unfolding synthetic_tiles
synthetic_chr pages =
    if not (leb 1 pages && leb pages 256)
    then err bad_pages
    else ok (synthetic_tiles 0 (pages * 256))
