-- ===== src/OamState.antt =====
-- tools/oam_state.py: the tagged chunks of a saved emulator state, and the sprite bits compared.
-- A dictionary of the source is the list of its entries in the order of insertion.
pub mod Chunks
pub mod Meaningful
pub mod Snapshot
mod Tests
use nes2snes.Common.{
  ℕ, zero, suc, ◌+◌, ◌-◌, ◌%◌, bit_and, Bool, true, false, ◌&&◌, ◌||◌, not, List, [], ◌∷◌, ◌++◌,
}
use nes2snes.Common.{
  length, take, drop, slice, ltb, ◌==◌, if◌then◌else◌, Bytes, bytes_eq, from_bytes,
}
use nes2snes.Common.{Result, ok, err, ◌>>=◌, ◌>>◌, raise_if}

-- The `ValueError`s of the reader; `out_of_fuel` stands for a loop that has not ended.
pub data ChunkError : Type 0 where
  truncated_header truncated_payload duplicate out_of_fuel : ChunkError

-- A tag with its payload.
abbrev pub Chunk : Type 0
Chunk = Bytes × Bytes

-- `tag in result`
unfoldable pub has_tag : Bytes → List Chunk → Bool
unfolding bytes_eq
has_tag tag [] = false
has_tag tag ((key, payload) ∷ rest) = bytes_eq key tag || has_tag tag rest

-- One round of the loop on what is left of the data: the chunk and what is left after it.
unfoldable pub next_chunk : Bytes → List Chunk → Result ChunkError (Chunk × Bytes)
unfolding has_tag
next_chunk left result = do
  raise_if (ltb (length left) 8) truncated_header
  raise_if (ltb (length left - 8) (from_bytes (slice left 4 8))) truncated_payload
  raise_if (has_tag (take 4 left) result) duplicate
  ok (
    (take 4 left, take (from_bytes (slice left 4 8)) (drop 8 left)),
    drop (from_bytes (slice left 4 8)) (drop 8 left),
  )

unfoldable pub chunks_loop : ℕ → Bytes → List Chunk → Result ChunkError (List Chunk)
unfolding next_chunk
chunks_loop fuel [] result = ok result
chunks_loop zero (b ∷ rest) result = err out_of_fuel
chunks_loop (suc fuel) (b ∷ rest) result = do
  (chunk, left) ← next_chunk (b ∷ rest) result
  chunks_loop fuel left (result ++ chunk ∷ [])

-- Each round takes eight bytes at least, so a round for each byte is enough.
unfoldable pub chunks : Bytes → Result ChunkError (List Chunk)
unfolding chunks_loop
chunks bytes = chunks_loop (length bytes) bytes []

-- The `ValueError` of `meaningful_oam`.
pub data OamError : Type 0 where
  not_oam : OamError

-- The mask of the sprite byte at an offset: attributes have no bits 2, 3 and 4.
abbrev pub oam_mask : ℕ → ℕ
oam_mask i = if i % 4 == 2 then 0xe3 else 0xff

unfoldable pub masked_from : ℕ → Bytes → Bytes
masked_from i [] = []
masked_from i (v ∷ rest) = bit_and v (oam_mask i) ∷ masked_from (i + 1) rest

unfoldable pub meaningful_oam : Bytes → Result OamError Bytes
unfolding masked_from
meaningful_oam bytes = do raise_if (not (length bytes == 256)) not_oam; ok (masked_from 0 bytes)
