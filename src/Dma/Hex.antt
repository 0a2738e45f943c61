-- ===== src/Dma/Hex.antt =====
-- What `exact_hex` returns.
use nes2snes.Common.{
  ℕ, ◌*◌, ◌≡◌, refl, sym, ap, ◌∙◌, Bool-cases, inl, inr, ◌==◌, ==_iff, Option, none, some, List,
  length, ok, ok_injective, Bytes,
}
use nes2snes.Common.Text.{TextArgument, text, not_text, from_hex}
use nes2snes.Dma.{sized_bytes, exact_hex}

sized_bytes_lem :
    (o : Option Bytes) (size : ℕ) {raw : Bytes}
    → sized_bytes o size ≡ ok raw
    → (o ≡ some raw) × (length raw ≡ size)
unfolding sized_bytes
sized_bytes_lem none size h = cc
sized_bytes_lem (some b) size h = elim (Bool-cases (length b == size)) [
  | inl same ↦
      let e = ok_injective (rw same at h) in
      (ap some e, ap length (sym e) ∙ (==_iff (length b) size).0 same)
  | inr other ↦ let never = rw other at h in cc
]

-- The argument is a text of as many bytes as asked for, and these are the result.
pub exact_hex_lem :
    (t : TextArgument) (size : ℕ) {raw : Bytes}
    → exact_hex t size ≡ ok raw
    → (l : List ℕ) × (t ≡ text l) × (from_hex l ≡ some raw) × (length raw ≡ size)
unfolding exact_hex
exact_hex_lem (text t) size h = elim (Bool-cases (length t == size * 2)) [
  | inl same ↦
      let (found, len) = sized_bytes_lem (from_hex t) size (rw same at h) in (t, refl, found, len)
  | inr other ↦ let never = rw other at h in cc
]
exact_hex_lem not_text size h = cc
