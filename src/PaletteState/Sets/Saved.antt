-- ===== src/PaletteState/Sets/Saved.antt =====
-- Where a saved state holds the bytes of its mapper's registers.
use nes2snes.Common.{◌<◌, ◌≡◌, ◌≢◌, refl, sym, ap, ◌∙◌, arith, subst, Bool-cases, inl, inr}
use nes2snes.Common.{List, [], ◌∷◌, ◌++◌, All, length, slice}
use nes2snes.Common.{
  ok, as_error, as_error-ok, >>=-eq-ok, ok_injective, Bytes, bytes_eq, bytes_eq-same, bytes_eq_refl,
}
use nes2snes.OamState.{Chunk, chunks, chunks_loop}
use nes2snes.OamState.Snapshot.{bad_chunks, reg_tag, nst_end, chunk_of, chunks_of}
use nes2snes.PaletteState.{img_tag, mpr_tag, mm5_tag}
use nes2snes.PaletteState.Sets.{refused, mapper_registers}

-- The payload of the first chunk with the tag.
abbrev pub IsFound : Bytes → List Chunk → Bytes → Type 0
IsFound tag cs payload =
    (before : List Chunk) × (after : List Chunk) × (cs ≡ before ++ ((tag, payload) ∷ after))
    × All (λ (c : Chunk). c.0 ≢ tag) before

-- The bytes are those of the chunk REG of MM5 of MPR of IMG, in the body of the file.
abbrev pub IsSaved : Bytes → Bytes → Type 0
IsSaved bytes reg =
    (root : List Chunk) × (image : List Chunk) × (mapper : List Chunk) × (mmc5 : List Chunk)
    × (in_image : Bytes) × (in_mapper : Bytes) × (in_mmc5 : Bytes) × (chunks
          (slice bytes 8 (nst_end bytes))
        ≡ ok root)
    × IsFound img_tag root in_image
    × (chunks in_image ≡ ok image)
    × IsFound mpr_tag image in_mapper
    × (chunks in_mapper ≡ ok mapper)
    × IsFound mm5_tag mapper in_mmc5
    × (chunks in_mmc5 ≡ ok mmc5)
    × IsFound reg_tag mmc5 reg

chunk_of-IsFound :
    (tag : Bytes) (cs : List Chunk)
    → 0 < length (chunk_of tag cs)
    → IsFound tag cs (chunk_of tag cs)
unfolding chunk_of
chunk_of-IsFound tag [] some_bytes = absurd (omega arith)
chunk_of-IsFound tag ((key, payload) ∷ rest) some_bytes = elim (Bool-cases (bytes_eq key tag)) [
  | inl same ↦
      let e : chunk_of tag ((key, payload) ∷ rest) ≡ payload = rw (chunk_of, same) refl in
      ([], rest, (λ i. (bytes_eq-same key tag same i, sym e i) ∷ rest), tt)
  | inr other ↦
      let e : chunk_of tag ((key, payload) ∷ rest) ≡ chunk_of tag rest =
        rw (chunk_of, other) refl in
      let (before, after, split, new) =
        chunk_of-IsFound tag rest (subst (λ (b : Bytes). 0 < length b) e some_bytes) in
      (
        (key, payload) ∷ before,
        after,
        ap (λ (l : List Chunk). (key, payload) ∷ l) split
            ∙ ap (λ (b : Bytes). (key, payload) ∷ (before ++ ((tag, b) ∷ after))) (sym e),
        (
          (λ same.
              let never = sym other ∙ ap (λ (k : Bytes). bytes_eq k tag) same ∙ bytes_eq_refl tag in
              cc),
          new,
        ),
      )
]

-- A chunk with bytes stands in bytes.
chunks-pos :
    (tag bytes : Bytes) {cs : List Chunk}
    → chunks bytes ≡ ok cs
    → 0 < length (chunk_of tag cs)
    → 0 < length bytes
unfolding chunks chunks_loop chunk_of
chunks-pos tag [] h some_bytes =
    let none_there : 0 < length (chunk_of tag []) =
      subst (λ (cs : List Chunk). 0 < length (chunk_of tag cs)) (sym (ok_injective h)) some_bytes in
    absurd (omega (arith, none_there))
chunks-pos tag (b ∷ rest) h some_bytes = omega arith

read_chunks :
    (bytes : Bytes) {cs : List Chunk}
    → as_error refused (chunks_of bytes) ≡ ok cs
    → chunks bytes ≡ ok cs
read_chunks bytes h =
    as_error-ok bad_chunks (chunks bytes) (as_error-ok refused (chunks_of bytes) h)

pub mapper_registers-IsSaved :
    (bytes : Bytes) {reg : Bytes}
    → mapper_registers bytes ≡ ok reg
    → 0 < length reg
    → IsSaved bytes reg
unfolding mapper_registers
mapper_registers-IsSaved bytes h some_bytes =
    let body = slice bytes 8 (nst_end bytes) in
    let (root, e1, h1) = >>=-eq-ok (as_error refused (chunks_of body)) _ h in
    let (image, e2, h2) = >>=-eq-ok (as_error refused (chunks_of (chunk_of img_tag root))) _ h1 in
    let (mapper, e3, h3) = >>=-eq-ok (as_error refused (chunks_of (chunk_of mpr_tag image))) _ h2 in
    let (mmc5, e4, h4) = >>=-eq-ok (as_error refused (chunks_of (chunk_of mm5_tag mapper))) _ h3 in
    let is_reg = ok_injective h4 in
    let r4 : 0 < length (chunk_of reg_tag mmc5) =
      subst (λ (b : Bytes). 0 < length b) (sym is_reg) some_bytes in
    let r3 =
      chunks-pos reg_tag (chunk_of mm5_tag mapper) (read_chunks (chunk_of mm5_tag mapper) e4) r4 in
    let r2 =
      chunks-pos mm5_tag (chunk_of mpr_tag image) (read_chunks (chunk_of mpr_tag image) e3) r3 in
    let r1 =
      chunks-pos mpr_tag (chunk_of img_tag root) (read_chunks (chunk_of img_tag root) e2) r2 in
    (
      root,
      image,
      mapper,
      mmc5,
      chunk_of img_tag root,
      chunk_of mpr_tag image,
      chunk_of mm5_tag mapper,
      read_chunks body e1,
      chunk_of-IsFound img_tag root r1,
      read_chunks (chunk_of img_tag root) e2,
      chunk_of-IsFound mpr_tag image r2,
      read_chunks (chunk_of mpr_tag image) e3,
      chunk_of-IsFound mm5_tag mapper r3,
      read_chunks (chunk_of mm5_tag mapper) e4,
      subst (IsFound reg_tag mmc5) is_reg (chunk_of-IsFound reg_tag mmc5 r4),
    )
