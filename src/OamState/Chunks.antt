-- ===== src/OamState/Chunks.antt =====
-- The chunk reader gives back what a writer of chunks wrote.
use nes2snes.Common.{
  ℕ, zero, suc, ◌+◌, ◌-◌, ◌^◌, ◌≤◌, ◌<◌, ◌≡◌, ◌≢◌, refl, ap, ◌∙◌, sym, arith, false,
}
use nes2snes.Common.{
  List, [], ◌∷◌, ◌++◌, All, length, take, drop, Bytes, bytes_eq-same, to_bytes, from_bytes, slice,
  le→ltb,
}
use nes2snes.Common.{
  length-append, length-to_bytes, from_bytes-to_bytes, drop-drop, append_assoc, append-nil, ok,
}
use nes2snes.Common.Slices.{take-append_eq, drop-append_eq}
use nes2snes.OamState.{Chunk, has_tag, next_chunk, chunks_loop, chunks}

-- The bytes of a list of chunks: tag, length in four bytes, payload.
unfoldable pub written : List Chunk → Bytes
written [] = []
written ((tag, payload) ∷ rest) = tag ++ (to_bytes 4 (length payload) ++ (payload ++ written rest))

-- A chunk that its header can describe.
abbrev pub IsChunk : Chunk → Type 0
IsChunk (tag, payload) = (length tag ≡ 4) × (length payload < 256 ^ 4)

-- No tag occurs twice, nor among those already read.
abbrev pub Distinct : List Chunk → List Chunk → Type 0
Distinct seen [] = Unit
Distinct seen (c ∷ rest) = All (λ d. d.0 ≢ c.0) seen × Distinct (seen ++ c ∷ []) rest

has_tag-new :
    (tag : Bytes) (seen : List Chunk) → All (λ d. d.0 ≢ tag) seen → has_tag tag seen ≡ false
unfolding has_tag
has_tag-new tag [] h = refl
has_tag-new tag ((key, payload) ∷ rest) h =
    grind (arith, has_tag-new tag rest h.1, bytes_eq-same key tag, h.0)

module _ (tag payload tail : Bytes) (four : length tag ≡ 4) where
  abbrev framed : Bytes
  framed = tag ++ (to_bytes 4 (length payload) ++ (payload ++ tail))

  length-framed : length framed ≡ 8 + length payload + length tail
  length-framed = omega (
    arith,
    length-append tag (to_bytes 4 (length payload) ++ (payload ++ tail)),
    length-append (to_bytes 4 (length payload)) (payload ++ tail),
    length-append payload tail,
    length-to_bytes 4 (length payload),
    four,
  )

  body_left : drop 8 framed ≡ payload ++ tail
  body_left =
      sym (drop-drop 4 4 framed)
      ∙ ap (λ (t : Bytes). drop 4 t) (drop-append_eq 4 tag _ four)
      ∙ drop-append_eq 4 (to_bytes 4 (length payload)) _ (length-to_bytes 4 (length payload))

  size_field : length payload < 256 ^ 4 → from_bytes (slice framed 4 8) ≡ length payload
  size_field small =
      ap (λ (t : Bytes). from_bytes (take 4 t))
        (drop-append_eq 4 tag (to_bytes 4 (length payload) ++ (payload ++ tail)) four)
      ∙ ap (λ (t : Bytes). from_bytes t)
          (take-append_eq 4 (to_bytes 4 (length payload)) (payload ++ tail)
            (length-to_bytes 4 (length payload)))
      ∙ from_bytes-to_bytes 4 (length payload) small

  next_chunk-framed :
      (seen : List Chunk)
      → length payload < 256 ^ 4
      → All (λ d. d.0 ≢ tag) seen
      → next_chunk framed seen ≡ ok ((tag, payload), tail)
  unfolding next_chunk
  next_chunk-framed seen small new =
      rw
        (
          size_field small,
          body_left,
          take-append_eq 4 tag (to_bytes 4 (length payload) ++ (payload ++ tail)) four,
          le→ltb (length framed) 8 (omega (arith, length-framed)),
          le→ltb (length framed - 8) (length payload) (omega (arith, length-framed)),
          has_tag-new tag seen new,
          take-append_eq (length payload) payload tail refl,
          drop-append_eq (length payload) payload tail refl,
        )
        refl

chunks_loop-next :
    (fuel : ℕ) (left tail : Bytes) (c : Chunk) (seen : List Chunk)
    → 0 < length left
    → next_chunk left seen ≡ ok (c, tail)
    → chunks_loop (suc fuel) left seen ≡ chunks_loop fuel tail (seen ++ c ∷ [])
unfolding chunks_loop
chunks_loop-next fuel [] tail c seen h e = absurd (omega arith)
chunks_loop-next fuel (b ∷ rest) tail c seen h e = rw e refl

chunks_loop-nil : (fuel : ℕ) (seen : List Chunk) → chunks_loop fuel [] seen ≡ ok seen
unfolding chunks_loop
chunks_loop-nil zero seen = refl
chunks_loop-nil (suc fuel) seen = refl

loop-written :
    (fuel : ℕ) (cs seen : List Chunk)
    → All IsChunk cs
    → Distinct seen cs
    → length (written cs) ≤ fuel
    → chunks_loop fuel (written cs) seen ≡ ok (seen ++ cs)
unfolding written
loop-written fuel [] seen valid d h = chunks_loop-nil fuel seen ∙ ap ok (sym (append-nil seen))
loop-written zero ((tag, payload) ∷ cs) seen valid d h =
    absurd (omega (arith, length-framed tag payload (written cs) valid.0.0))
loop-written (suc fuel) ((tag, payload) ∷ cs) seen valid d h =
    chunks_loop-next fuel (framed tag payload (written cs) valid.0.0) (written cs) (tag, payload)
      seen (omega (arith, size))
      (next_chunk-framed tag payload (written cs) valid.0.0 seen valid.0.1 d.0)
    ∙ loop-written fuel cs (seen ++ (tag, payload) ∷ []) valid.1 d.1 (omega (arith, size))
    ∙ ap ok (append_assoc seen ((tag, payload) ∷ []) cs)
  where
    size :
        length (framed tag payload (written cs) valid.0.0)
        ≡ 8 + length payload + length (written cs)
    size = length-framed tag payload (written cs) valid.0.0

-- Chunks with four-byte tags, no tag twice and payloads shorter than 2 ^ 32 bytes: the reader
-- answers with exactly these chunks, in their order, for the bytes that hold them one after another.
pub chunks-written :
    (cs : List Chunk) → All IsChunk cs → Distinct [] cs → chunks (written cs) ≡ ok cs
unfolding chunks
chunks-written cs valid d = loop-written (length (written cs)) cs [] valid d (omega arith)
