-- ===== src/Graphics/Tests.antt =====
-- One tile, there and back at both depths.
use nes2snes.Common.{◌*◌, ◌≡◌, refl, inr, ok, err, Bytes, [], ◌∷◌, ◌++◌, length, replicate}
use nes2snes.Graphics.{
  upper_planes, partial_tile, interleave, padding, nes_loop, nes_to_snes, any_set, snes_tile,
  snes_loop, snes_to_nes,
}
use nes2snes.Common.{ℕ, ◌+◌, ◌<◌, true, false, pos, negsuc, All-replicate, IsByte, arith}
use nes2snes.Graphics.Tilemap
use nes2snes.Graphics.Tilemap.{bad_nametable, bad_offsets, nametable_to_snes}
use nes2snes.Graphics.Tilemap.Words.{word_at, fields, nametable_to_snes-fields}
use nes2snes.Common.{◌↔◌, List, All-append, nat}
use nes2snes.Graphics.Pixels.{
  bad_pixel, not_a_matrix, bad_pages, decode_nes_tile, encode_nes_tile, synthetic_tiles,
  synthetic_chr,
}
use nes2snes.Graphics.Pixels.Bits.{as_values}
use nes2snes.Graphics.Pixels.Inverse.{encode-decode_nes_tile}
use nes2snes.Graphics.RoundTrip.{snes_to_nes-nes_to_snes}

abbrev tile : Bytes
tile = 1 ∷ 2 ∷ 3 ∷ 4 ∷ 5 ∷ 6 ∷ 7 ∷ 8 ∷ 11 ∷ 12 ∷ 13 ∷ 14 ∷ 15 ∷ 16 ∷ 17 ∷ 18 ∷ []

abbrev rows : Bytes
rows = 1 ∷ 11 ∷ 2 ∷ 12 ∷ 3 ∷ 13 ∷ 4 ∷ 14 ∷ 5 ∷ 15 ∷ 6 ∷ 16 ∷ 7 ∷ 17 ∷ 8 ∷ 18 ∷ []

forth :
    (nes_to_snes tile 2 ≡ ok rows)
    × (nes_to_snes tile 4 ≡ ok (rows ++ replicate 16 0))
    × (nes_to_snes (1 ∷ []) 2 ≡ err partial_tile)
unfolding nes_to_snes nes_loop interleave padding
forth = (refl, refl, refl)

lossy : snes_to_nes (rows ++ replicate 16 1) 4 ≡ err upper_planes
unfolding snes_to_nes snes_loop snes_tile any_set
lossy = refl

snes_to_nes-nes_to_snes_example :
    (s : Bytes) × (nes_to_snes tile 4 ≡ ok s) × (length s ≡ 8 * 4 * 1) × (snes_to_nes s 4 ≡ ok tile)
snes_to_nes-nes_to_snes_example = snes_to_nes-nes_to_snes tile 1 4 (inr refl) refl

-- Every tile is number 27, and every quadrant has the same four palettes.
abbrev nametable : Bytes
nametable = replicate 1024 27

words_there :
    (Tilemap.word nametable 256 4 true 3 2 ≡ 8192 + 4 * 1024 + 283)
    × (Tilemap.word nametable 0 0 false 0 0 ≡ 3 * 1024 + 27)
    × (Tilemap.word nametable 0 0 false 30 0 ≡ 0)
unfolding Tilemap.word
words_there = (refl, refl, refl)

bad_tilemaps :
    (nametable_to_snes [] (pos 0) (pos 0) true ≡ err bad_nametable)
    × (nametable_to_snes nametable (pos 769) (pos 0) true ≡ err bad_offsets)
    × (nametable_to_snes nametable (pos 0) (negsuc 0) true ≡ err bad_offsets)
unfolding nametable_to_snes
bad_tilemaps = (refl, refl, refl)

nametable_to_snes-fields_example :
    (out : Bytes) × (nametable_to_snes nametable (pos 256) (pos 4) true ≡ ok out)
    × (length out ≡ 2048)
    × ((y x : ℕ) → y < 32 → x < 32 → word_at out (y * 32 + x) ≡ fields nametable 256 4 true y x)
nametable_to_snes-fields_example =
    nametable_to_snes-fields nametable 256 4 true (All-replicate IsByte 1024 27 (omega arith)) refl
      (omega arith) (omega arith)

-- Eight equal rows, of which the first pixel is 1 and the last 2.
abbrev edges : Bytes
edges = replicate 8 0x80 ++ replicate 8 1

abbrev edge_rows : List (List ℕ)
edge_rows = replicate 8 (1 ∷ 0 ∷ 0 ∷ 0 ∷ 0 ∷ 0 ∷ 0 ∷ 2 ∷ [])

drawn :
    (decode_nes_tile edges ≡ ok edge_rows)
    × (encode_nes_tile (as_values edge_rows) ≡ ok edges)
    × (encode_nes_tile (replicate 8 (replicate 8 (nat 4))) ≡ err bad_pixel)
    × (encode_nes_tile (replicate 8 (replicate 7 (nat 1))) ≡ err not_a_matrix)
    × (synthetic_chr 0 ≡ err bad_pages)
    × (synthetic_tiles 1 1
        ≡ 43 ∷ 85 ∷ 170 ∷ 85 ∷ 170 ∷ 85 ∷ 170 ∷ 85 ∷ 50 ∷ 51 ∷ 204 ∷ 204 ∷ 51 ∷ 51 ∷ 204 ∷ 205 ∷ [])
unfolding decode_nes_tile encode_nes_tile synthetic_chr synthetic_tiles
drawn = (refl, refl, refl, refl, refl, refl)

encode-decode_nes_tile_example :
    (encode_nes_tile (as_values edge_rows) ≡ ok edges) ↔ (decode_nes_tile edges ≡ ok edge_rows)
encode-decode_nes_tile_example = encode-decode_nes_tile edges edge_rows (
    All-append IsByte (replicate 8 0x80) (replicate 8 1) (All-replicate IsByte 8 0x80 (omega arith))
      (All-replicate IsByte 8 1 (omega arith)))
