-- ===== src/PaletteState/Sets/Registers.antt =====
-- The bank registers as numbers of ten bits, in a saved state and in a native run.
use nes2snes.Common.{
  ℕ, zero, suc, ◌+◌, ◌-◌, ◌*◌, ◌/◌, ◌%◌, ◌^◌, ◌<◌, ◌≡◌, refl, ◌∙◌, subst, arith, bit_or, Bool-cases,
  inl, inr, ltb, Option, some_injective, none, some,
}
use nes2snes.Common.{
  List, [], ◌∷◌, ◌++◌, map, All, All-append, All-take, All-drop, All-get_or, length, get_or, take,
  drop, slice,
}
use nes2snes.Common.{
  ok, raise_if, as_error, as_error-ok, >>=-eq-ok, ok_injective, Bytes, IsByte, AreBytes, bytes_eq,
  from_bytes,
}
use nes2snes.Common.Bits.{bit_and_low, bit_or_add, bit_or_comm}
use nes2snes.Common.Text.{is_space, hex_digit, hex_byte, from_hex}
use nes2snes.OamState.{
  Chunk, truncated_header, truncated_payload, duplicate, has_tag, next_chunk, chunks_loop, chunks,
}
use nes2snes.OamState.Snapshot.{bad_chunks, reg_tag, nst_end, chunk_of, chunks_of}
use nes2snes.PaletteState.{img_tag, mpr_tag, mm5_tag}
use nes2snes.PaletteState.Sets.{
  refused, first_four, first_eight, high_bits, bank_a, bank_b, banks_of, mapper_registers,
}

hex_digit-lt : (c : ℕ) {d : ℕ} → hex_digit c ≡ some d → d < 16
unfolding hex_digit
hex_digit-lt c h = ground arith

hex_byte-AreBytes :
    (first second : Option ℕ) (later : Option Bytes) {bs : Bytes}
    → hex_byte first second later ≡ some bs
    → ((d : ℕ) → first ≡ some d → d < 16)
    → ((d : ℕ) → second ≡ some d → d < 16)
    → ((rest : Bytes) → later ≡ some rest → AreBytes rest)
    → AreBytes bs
unfolding hex_byte
hex_byte-AreBytes none second later h p q are = cc
hex_byte-AreBytes (some high) none later h p q are = cc
hex_byte-AreBytes (some high) (some low) none h p q are = cc
hex_byte-AreBytes (some high) (some low) (some rest) h p q are =
    subst AreBytes (some_injective h) (omega (arith, p high refl, q low refl), are rest refl)

pub from_hex-AreBytes : (t : List ℕ) {bs : Bytes} → from_hex t ≡ some bs → AreBytes bs
unfolding from_hex
from_hex-AreBytes [] h = subst AreBytes (some_injective h) tt
from_hex-AreBytes (a ∷ []) h = elim (Bool-cases (is_space a)) [
  | inl space ↦ subst AreBytes (some_injective (rw (from_hex, space) at h)) tt
  | inr other ↦ let never = rw (from_hex, other) at h in cc
]
from_hex-AreBytes (a ∷ b ∷ rest) h = elim (Bool-cases (is_space a)) [
  | inl space ↦ from_hex-AreBytes (b ∷ rest) (rw (from_hex, space) at h)
  | inr other ↦
      hex_byte-AreBytes (hex_digit a) (hex_digit b) (from_hex rest) (rw (from_hex, other) at h)
        (λ d e. hex_digit-lt a e) (λ d e. hex_digit-lt b e) (λ later e. from_hex-AreBytes rest e)
]

-- The payloads are bytes.
abbrev HaveBytes : List Chunk → Type 0
HaveBytes cs = All (λ (c : Chunk). AreBytes c.1) cs

next_chunk-AreBytes :
    (left : Bytes) (seen : List Chunk) {c : Chunk} {rest : Bytes}
    → next_chunk left seen ≡ ok (c, rest)
    → AreBytes left
    → AreBytes c.1 × AreBytes rest
unfolding next_chunk
next_chunk-AreBytes left seen h are =
    let (u1, e1, h1) = >>=-eq-ok (raise_if (ltb (length left) 8) truncated_header) _ h in
    let size = from_bytes (slice left 4 8) in
    let (u2, e2, h2) = >>=-eq-ok (raise_if (ltb (length left - 8) size) truncated_payload) _ h1 in
    let (u3, e3, h3) = >>=-eq-ok (raise_if (has_tag (take 4 left) seen) duplicate) _ h2 in
    let behind = All-drop IsByte 8 left are in
    subst (λ (r : Chunk × Bytes). AreBytes r.0.1 × AreBytes r.1) (ok_injective h3)
      (All-take IsByte size (drop 8 left) behind, All-drop IsByte size (drop 8 left) behind)

chunks_loop-HaveBytes :
    (fuel : ℕ) (left : Bytes) (seen : List Chunk) {cs : List Chunk}
    → chunks_loop fuel left seen ≡ ok cs
    → AreBytes left
    → HaveBytes seen
    → HaveBytes cs
unfolding chunks_loop
chunks_loop-HaveBytes fuel [] seen h are have = subst HaveBytes (ok_injective h) have
chunks_loop-HaveBytes zero (b ∷ rest) seen h are have = cc
chunks_loop-HaveBytes (suc fuel) (b ∷ rest) seen h are have =
    let ((chunk, left), e1, h1) = >>=-eq-ok (next_chunk (b ∷ rest) seen) _ h in
    let (payload, later) = next_chunk-AreBytes (b ∷ rest) seen e1 are in
    chunks_loop-HaveBytes fuel left (seen ++ (chunk ∷ [])) h1 later
      (All-append (λ (c : Chunk). AreBytes c.1) seen (chunk ∷ []) have (payload, tt))

chunk_of-AreBytes : (tag : Bytes) (cs : List Chunk) → HaveBytes cs → AreBytes (chunk_of tag cs)
unfolding chunk_of
chunk_of-AreBytes tag [] have = tt
chunk_of-AreBytes tag ((key, payload) ∷ rest) (first, have) = elim (Bool-cases (bytes_eq key tag)) [
  | inl same ↦ rw (chunk_of, same) first
  | inr other ↦ rw (chunk_of, other) (chunk_of-AreBytes tag rest have)
]

chunks_of-HaveBytes :
    (bytes : Bytes) {cs : List Chunk}
    → as_error refused (chunks_of bytes) ≡ ok cs
    → AreBytes bytes
    → HaveBytes cs
unfolding chunks
chunks_of-HaveBytes bytes h are =
    chunks_loop-HaveBytes (length bytes) bytes []
      (as_error-ok bad_chunks (chunks bytes) (as_error-ok refused (chunks_of bytes) h)) are tt

pub mapper_registers-AreBytes :
    (bytes : Bytes) {reg : Bytes} → mapper_registers bytes ≡ ok reg → AreBytes bytes → AreBytes reg
unfolding mapper_registers
mapper_registers-AreBytes bytes h are =
    let body = slice bytes 8 (nst_end bytes) in
    let (root, e1, h1) = >>=-eq-ok (as_error refused (chunks_of body)) _ h in
    let (image, e2, h2) = >>=-eq-ok (as_error refused (chunks_of (chunk_of img_tag root))) _ h1 in
    let (mapper, e3, h3) = >>=-eq-ok (as_error refused (chunks_of (chunk_of mpr_tag image))) _ h2 in
    let (mmc5, e4, h4) = >>=-eq-ok (as_error refused (chunks_of (chunk_of mm5_tag mapper))) _ h3 in
    let in_body =
      All-take IsByte (nst_end bytes - 8) (drop 8 bytes) (All-drop IsByte 8 bytes are) in
    let in_root = chunks_of-HaveBytes body e1 in_body in
    let in_image = chunks_of-HaveBytes _ e2 (chunk_of-AreBytes img_tag root in_root) in
    let in_mapper = chunks_of-HaveBytes _ e3 (chunk_of-AreBytes mpr_tag image in_image) in
    let in_mmc5 = chunks_of-HaveBytes _ e4 (chunk_of-AreBytes mm5_tag mapper in_mapper) in
    subst AreBytes (ok_injective h4) (chunk_of-AreBytes reg_tag mmc5 in_mmc5)

-- A bank register is a number of ten bits.
abbrev pub IsTenBits : ℕ → Type 0
IsTenBits v = v < 1024

pub high_bits-lt : (packed i : ℕ) → high_bits packed i < 4
unfolding high_bits
high_bits-lt packed i = omega (arith, bit_and_low 2 (packed / 2 ^ (2 * (i % 4))))

pub joined_bank : (low high : ℕ) → low < 256 → bit_or low (high * 256) ≡ low + high * 256
joined_bank low high h = bit_or_comm low (high * 256) ∙ bit_or_add 8 high low h ∙ omega arith

joined-IsTenBits : (low high : ℕ) → low < 256 → high < 4 → IsTenBits (bit_or low (high * 256))
joined-IsTenBits low high h k = omega (arith, joined_bank low high h)

pub All-map : (P : ℕ → Type 0) (f : ℕ → ℕ) (xs : List ℕ) → ((i : ℕ) → P (f i)) → All P (map f xs)
All-map P f [] h = tt
All-map P f (x ∷ xs) h = (h x, All-map P f xs h)

pub banks_of-IsTenBits : (reg : Bytes) → AreBytes reg → All IsTenBits (banks_of reg)
unfolding banks_of bank_a bank_b
banks_of-IsTenBits reg are =
    let byte_at : ((i : ℕ) → get_or reg i 0 < 256) =
      (λ i. All-get_or IsByte reg i 0 (omega arith) are) in
    let in_a : ((i : ℕ) → IsTenBits (bank_a reg i)) =
      (λ i. joined-IsTenBits (get_or reg (7 + i) 0) _ (byte_at (7 + i)) (high_bits-lt _ i)) in
    let in_b : ((i : ℕ) → IsTenBits (bank_b reg i)) =
      (λ i. joined-IsTenBits (get_or reg (15 + i) 0) _ (byte_at (15 + i)) (high_bits-lt _ i)) in
    All-append IsTenBits (map (bank_a reg) first_eight) (map (bank_b reg) first_four)
      (All-map IsTenBits (bank_a reg) first_eight in_a)
      (All-map IsTenBits (bank_b reg) first_four in_b)
