-- ===== src/OamState/Snapshot/Written.antt =====
-- The reader of a state gives back the sprites that a writer of the format put into it.
use nes2snes.Common.{
  ℕ, ◌+◌, ◌-◌, ◌^◌, ◌≤◌, ◌<◌, ◌≡◌, ◌⊎◌, inl, inr, refl, sym, ap, ◌∙◌, arith, true, false, ◌||◌,
}
use nes2snes.Common.{
  List, [], ◌∷◌, ◌++◌, All, length, take, drop, get_or, Bytes, bytes_eq_refl, to_bytes, from_bytes,
  from_bytes-to_bytes, length-to_bytes, length-append,
}
use nes2snes.Common.{ok, le→ltb, ==_refl, ◌==◌, drop-drop, some}
use nes2snes.Common.Slices.{take-append_eq, drop-append_eq}
use nes2snes.OamState.{Chunk}
use nes2snes.OamState.Chunks.{written, IsChunk, Distinct, chunks-written}
use nes2snes.OamState.Snapshot.{
  Stream, Decompressor, nst_magic, ppu_tag, reg_tag, oam_tag, chunk_of, nst_end, nst_body, inflate,
  unpack, nestopia_oam,
}

-- The file of a root: the magic bytes, the length of the body, the body and a footer.
unfoldable pub nst_file : Bytes → Bytes → Bytes
nst_file body footer = nst_magic ++ (to_bytes 4 (length body) ++ (body ++ footer))

abbrev pub IsFooter : ℕ → Type 0
IsFooter n = (n ≡ 0) ⊎ (n ≡ 8) ⊎ (n ≡ 12)

footer_true : (n : ℕ) → IsFooter n → n == 0 || (n == 8 || n == 12) ≡ true
footer_true n (inl e) = rw e refl
footer_true n (inr (inl e)) = rw e refl
footer_true n (inr (inr e)) = rw e refl

module _ (body footer : Bytes) where
  length-nst_file : length (nst_file body footer) ≡ 8 + length body + length footer
  unfolding nst_file
  length-nst_file = omega (
    arith,
    length-append (to_bytes 4 (length body)) (body ++ footer),
    length-append body footer,
    length-to_bytes 4 (length body),
  )

  after_magic : drop 4 (nst_file body footer) ≡ to_bytes 4 (length body) ++ (body ++ footer)
  unfolding nst_file
  after_magic = refl

  after_size : drop 8 (nst_file body footer) ≡ body ++ footer
  after_size =
      sym (drop-drop 4 4 (nst_file body footer))
      ∙ ap (λ (t : Bytes). drop 4 t) after_magic
      ∙ drop-append_eq 4 (to_bytes 4 (length body)) (body ++ footer)
          (length-to_bytes 4 (length body))

  nst_file-end : length body < 256 ^ 4 → nst_end (nst_file body footer) ≡ 8 + length body
  nst_file-end small =
      ap (λ (t : Bytes). 8 + from_bytes (take 4 t)) after_magic
      ∙ ap (λ (t : Bytes). 8 + from_bytes t)
          (take-append_eq 4 (to_bytes 4 (length body)) (body ++ footer)
            (length-to_bytes 4 (length body)))
      ∙ ap (λ (n : ℕ). 8 + n) (from_bytes-to_bytes 4 (length body) small)

  nst_file-magic : take 4 (nst_file body footer) ≡ nst_magic
  unfolding nst_file
  nst_file-magic = refl

  nst_file-body :
      length (nst_file body footer) ≤ 8388608
      → IsFooter (length footer)
      → nst_body (nst_file body footer) ≡ ok body
  unfolding nst_body
  nst_file-body fits foot =
      let size = length-nst_file in
      let end = nst_file-end (omega (arith, size, fits)) in
      let left : length (nst_file body footer) - (8 + length body) ≡ length footer =
        omega (arith, size) in
      let content : take (8 + length body - 8) (body ++ footer) ≡ body =
        take-append_eq (8 + length body - 8) body footer (omega arith) in
      rw
        (
          end,
          left,
          nst_file-magic,
          bytes_eq_refl nst_magic,
          footer_true (length footer) foot,
          le→ltb (length (nst_file body footer)) 8 (omega (arith, size)),
          le→ltb 8388608 (length (nst_file body footer)) fits,
          le→ltb (length (nst_file body footer)) (8 + length body) (omega (arith, size)),
          after_size,
          content,
        )
        refl

-- What a writer puts in front of a memory: itself behind a zero, or packed behind a one.
pub data IsPacked (decompress : Decompressor) (memory : Bytes) : Bytes → Type 0 where
  plain : IsPacked decompress memory (0 ∷ memory)
  deflated :
      (packed : Bytes) (s : Stream)
      → decompress packed (length memory + 1) ≡ some s
      → (s.output ≡ memory) × (s.eof ≡ true) × (s.unused ≡ []) × (s.tail ≡ [])
      → IsPacked decompress memory (1 ∷ packed)

pub unpack-packed :
    (decompress : Decompressor) (memory packed : Bytes) (size : ℕ)
    → IsPacked decompress memory packed
    → length memory ≡ size
    → unpack decompress packed size ≡ ok memory
unfolding unpack inflate
unpack-packed decompress memory _ size plain e = rw (e, ==_refl size) refl
unpack-packed decompress memory _ size (deflated packed s done (output, eof, unused, tail)) e =
    let same = sym (ap (λ (n : ℕ). decompress packed (n + 1)) e) ∙ done in
    rw (unpack, inflate, same, eof, unused, tail, output, e, ==_refl size) refl

packed_some :
    (decompress : Decompressor) (memory packed : Bytes)
    → IsPacked decompress memory packed
    → (length packed == 0) ≡ false
packed_some decompress memory _ plain = ground arith
packed_some decompress memory _ (deflated packed s done right) = ground arith

-- A file of the format with a PPU chunk that holds eleven registers and 256 sprite bytes, packed
-- either way, is read as these bytes with the address and latch registers.
pub nestopia_oam-written :
    (decompress : Decompressor) (root ppu : List Chunk) (registers packed oam footer : Bytes)
    → All IsChunk root
    → Distinct [] root
    → All IsChunk ppu
    → Distinct [] ppu
    → chunk_of ppu_tag root ≡ written ppu
    → chunk_of reg_tag ppu ≡ registers
    → chunk_of oam_tag ppu ≡ packed
    → length registers ≡ 11
    → length oam ≡ 256
    → IsPacked decompress oam packed
    → length (nst_file (written root) footer) ≤ 8388608
    → IsFooter (length footer)
    → nestopia_oam decompress (nst_file (written root) footer)
      ≡ ok (oam, get_or registers 8 0, get_or registers 10 0)
unfolding nestopia_oam
nestopia_oam-written decompress root ppu registers packed oam footer root_ok root_new ppu_ok ppu_new
      in_root in_reg in_oam eleven whole is_packed fits foot =
    rw
      (
        nst_file-body (written root) footer fits foot,
        chunks-written root root_ok root_new,
        in_root,
        chunks-written ppu ppu_ok ppu_new,
        in_reg,
        in_oam,
        eleven,
        packed_some decompress oam packed is_packed,
        unpack-packed decompress oam packed 256 is_packed whole,
      )
      refl
