-- ===== src/OamState/Meaningful.antt =====
-- The comparison of sprite memory drops three bits of each attribute and nothing else.
use nes2snes.Common.{
  ℕ, zero, suc, ◌+◌, ◌%◌, ◌*◌, ◌/◌, if◌then◌else◌, ◌<◌, ◌≡◌, refl, ap, ◌∙◌, arith,
}
use nes2snes.Common.{[], ◌∷◌, length, get_or, Bytes, AreBytes, bit_and, ◌==◌, all_below}
use nes2snes.Common.{ok, Bool-cases, inl, inr}
use nes2snes.Common.Bits.{bit_and_low, byte_table}
use nes2snes.OamState.{oam_mask, masked_from, meaningful_oam}

-- What the bits 0, 1, 5, 6 and 7 of a byte are.
attribute_bits : (v : ℕ) → v < 256 → bit_and v 0xe3 ≡ v / 32 * 32 + v % 4
unfolding all_below
attribute_bits = byte_table (λ v. bit_and v 0xe3) (λ v. v / 32 * 32 + v % 4) refl

-- The value compared at an offset.
unfoldable pub compared : ℕ → ℕ → ℕ
compared i v = if i % 4 == 2 then v / 32 * 32 + v % 4 else v

mask-compared : (i v : ℕ) → v < 256 → bit_and v (oam_mask i) ≡ compared i v
unfolding compared
mask-compared i v h = elim (Bool-cases (i % 4 == 2)) [
  | inl e ↦ rw e (attribute_bits v h)
  | inr e ↦ rw e (omega (arith, bit_and_low 8 v))
]

get_or-masked_from :
    (bytes : Bytes) (start i at : ℕ)
    → AreBytes bytes
    → i < length bytes
    → at ≡ start + i
    → get_or (masked_from start bytes) i 0 ≡ compared at (get_or bytes i 0)
unfolding masked_from
get_or-masked_from [] start i at b h e = absurd (omega arith)
get_or-masked_from (v ∷ rest) start zero at b h e =
    mask-compared start v b.0 ∙ ap (λ (k : ℕ). compared k v) (omega arith)
get_or-masked_from (v ∷ rest) start (suc i) at b h e =
    get_or-masked_from rest (start + 1) i at b.1 (omega arith) (omega arith)

length-masked_from : (bytes : Bytes) (start : ℕ) → length (masked_from start bytes) ≡ length bytes
unfolding masked_from
length-masked_from [] start = refl
length-masked_from (v ∷ rest) start = ap suc (length-masked_from rest (start + 1))

-- For 256 bytes of sprite memory the masking answers, with 256 bytes: at an offset of remainder 2
-- by 4 the bits 2, 3 and 4 are zero and the others kept, at every other offset the byte is kept.
pub meaningful_oam_lem :
    (bytes : Bytes)
    → AreBytes bytes
    → length bytes ≡ 256
    → (m : Bytes) × (meaningful_oam bytes ≡ ok m)
      × (length m ≡ 256)
      × ((i : ℕ) → i < 256 → get_or m i 0 ≡ compared i (get_or bytes i 0))
unfolding meaningful_oam
meaningful_oam_lem bytes b h = (
  masked_from 0 bytes,
  rw h refl,
  length-masked_from bytes 0 ∙ h,
  λ i lt. get_or-masked_from bytes 0 i i b (omega arith) (omega arith),
)
