-- ===== src/Dma/Masked/Whole.antt =====
-- masked_code works instruction by instruction.
use nes2snes.Opcodes.Facts.{op_size-pos}
use nes2snes.Common.{
  ℕ, zero, suc, ◌≤◌, ◌≡◌, ◌↔◌, refl, sym, ap, ◌∙◌, arith, inl, inr, false, ltb, some, Option-cases,
  List, [], ◌∷◌, ◌++◌, map, All, length, length-append, length-take, length-drop, get_or, take,
  drop, take-append-drop,
}
use nes2snes.Common.{◌⊎◌, ◌≢◌, ap₂, Bool-cases, bytes_eq, bytes_eq-same, bytes_eq_refl}
use nes2snes.Common.{ok, raise_if, raise_if-ok, >>=-eq-ok, ok_injective, Bytes}
use nes2snes.Common.Slices.{take-pos, take-append_eq, drop-append_eq}
use nes2snes.Opcodes.{Op, ops}
use nes2snes.Dma.Masked.{truncated, code, mask_one, mask, masked_code}

-- An instruction of the table, with all of its bytes.
abbrev pub IsInstruction : Bytes → Type 0
IsInstruction inst = (op : Op) × (ops (get_or inst 0 0) ≡ some op) × (length inst ≡ op.size)

abbrev pub joined : List Bytes → Bytes
joined [] = []
joined (inst ∷ rest) = inst ++ joined rest

mask_back :
    (fuel : ℕ) (bytes : Bytes) {out : Bytes}
    → length bytes ≤ fuel
    → mask fuel bytes ≡ ok out
    → (insts : List Bytes) × All IsInstruction insts
      × (bytes ≡ joined insts)
      × (out ≡ joined (map mask_one insts))
unfolding mask
mask_back zero [] fits h = ([], tt, refl, sym (ok_injective h))
mask_back zero (b ∷ rest) fits h = absurd (omega arith)
mask_back (suc fuel) [] fits h = ([], tt, refl, sym (ok_injective h))
mask_back (suc fuel) (b ∷ rest) {out} fits h = elim (Option-cases (ops b)) [
  | inl unknown ↦ let never = rw (mask, unknown) at h in cc
  | inr (op, known) ↦
      let done = rw (mask, known) at h in
      let bytes = b ∷ rest in
      let (u, e1, h1) = >>=-eq-ok (raise_if (ltb (length bytes) op.size) truncated) _ done in
      let (later, e2, h2) = >>=-eq-ok (mask fuel (drop op.size bytes)) _ h1 in
      let some_bytes = op_size-pos b known in
      let enough = raise_if-ok (ltb (length bytes) op.size) truncated e1 in
      let shorter : length (drop op.size bytes) ≤ fuel = omega (arith, length-drop op.size bytes) in
      let (insts, are, same, masked) = mask_back fuel (drop op.size bytes) shorter e2 in
      (
        take op.size bytes ∷ insts,
        (
          (
            op,
            rw (take-pos op.size b rest some_bytes) known,
            ground (arith, length-take op.size bytes, enough),
          ),
          are,
        ),
        sym (take-append-drop op.size bytes) ∙ ap (λ (t : Bytes). take op.size bytes ++ t) same,
        sym (ok_injective h2) ∙ ap (λ (t : Bytes). mask_one (take op.size bytes) ++ t) masked,
      )
]

mask_forth :
    (fuel : ℕ) (insts : List Bytes)
    → All IsInstruction insts
    → length (joined insts) ≤ fuel
    → mask fuel (joined insts) ≡ ok (joined (map mask_one insts))
unfolding mask
mask_forth zero [] are fits = refl
mask_forth (suc fuel) [] are fits = refl
mask_forth fuel ([] ∷ rest) ((op, known, len), are) fits =
    absurd (omega (arith, op_size-pos 0 known))
mask_forth zero ((b ∷ inst) ∷ rest) are fits = absurd (omega arith)
mask_forth (suc fuel) ((b ∷ inst) ∷ rest) ((op, known, len), are) fits =
    let later = mask_forth fuel rest are (omega (arith, length-append inst (joined rest))) in
    let enough : ltb (length (b ∷ (inst ++ joined rest))) op.size ≡ false =
      ground (arith, length-append inst (joined rest)) in
    rw
      (
        mask,
        known,
        enough,
        drop-append_eq op.size (b ∷ inst) (joined rest) len,
        take-append_eq op.size (b ∷ inst) (joined rest) len,
        later,
      )
      refl

-- STA $4014 becomes STA $2002, and any other instruction stays as it is.
abbrev pub IsReplaced : Bytes → Bytes → Type 0
IsReplaced inst new =
    ((inst ≡ 0x8d ∷ 0x14 ∷ 0x40 ∷ []) × (new ≡ 0x8d ∷ 0x02 ∷ 0x20 ∷ []))
    ⊎ ((inst ≢ 0x8d ∷ 0x14 ∷ 0x40 ∷ []) × (new ≡ inst))

-- The instructions of the one list replaced by those of the other, one by one.
abbrev pub AreReplaced : List Bytes → List Bytes → Type 0
AreReplaced [] [] = Unit
AreReplaced (inst ∷ insts) (new ∷ news) = IsReplaced inst new × AreReplaced insts news
AreReplaced insts news = ⊥

mask_one-IsReplaced : (inst : Bytes) → IsReplaced inst (mask_one inst)
unfolding mask_one
mask_one-IsReplaced inst =
    let dma : Bytes = 0x8d ∷ 0x14 ∷ 0x40 ∷ [] in
    elim (Bool-cases (bytes_eq inst dma)) [
      | inl same ↦ inl (bytes_eq-same inst dma same, rw (mask_one, same) refl)
      | inr other ↦ inr (
        (λ e.
            let never = sym other ∙ ap (λ (i : Bytes). bytes_eq i dma) e ∙ bytes_eq_refl dma in cc),
        rw (mask_one, other) refl,
      )
    ]

IsReplaced-mask_one : (inst new : Bytes) → IsReplaced inst new → mask_one inst ≡ new
IsReplaced-mask_one inst new replaced = elim (mask_one-IsReplaced inst) [
  | inl (dma, masked) ↦ elim replaced [
    | inl (same, done) ↦ masked ∙ sym done
    | inr (differs, done) ↦ absurd (differs dma)
  ]
  | inr (differs, masked) ↦ elim replaced [
    | inl (same, done) ↦ absurd (differs same)
    | inr (other, done) ↦ masked ∙ sym done
  ]
]

mask_one-AreReplaced : (insts : List Bytes) → AreReplaced insts (map mask_one insts)
mask_one-AreReplaced [] = tt
mask_one-AreReplaced (inst ∷ insts) = (mask_one-IsReplaced inst, mask_one-AreReplaced insts)

AreReplaced-map : (insts news : List Bytes) → AreReplaced insts news → map mask_one insts ≡ news
AreReplaced-map [] [] h = refl
AreReplaced-map [] (new ∷ news) h = absurd h
AreReplaced-map (inst ∷ insts) [] h = absurd h
AreReplaced-map (inst ∷ insts) (new ∷ news) (first, rest) =
    ap₂ ◌∷◌ (IsReplaced-mask_one inst new first) (AreReplaced-map insts news rest)

-- masked_code returns exactly for a sequence of documented instructions, and what it returns is the
-- sequence in which each STA $4014 is STA $2002 and every other instruction is unchanged.
pub masked_code_iff :
    (bytes out : Bytes)
    → (masked_code (code bytes) ≡ ok out) ↔ (
        (insts : List Bytes) × (news : List Bytes) × All IsInstruction insts
        × (bytes ≡ joined insts)
        × AreReplaced insts news
        × (out ≡ joined news))
unfolding masked_code
masked_code_iff bytes out = (
  (λ h.
      let (insts, are, same, masked) = mask_back (length bytes) bytes (omega arith) h in
      (insts, map mask_one insts, are, same, mask_one-AreReplaced insts, masked)),
  (λ (insts, news, are, same, replaced, masked).
      rw (same, masked)
        (mask_forth (length (joined insts)) insts are (omega arith)
          ∙ ap (λ (l : List Bytes). ok (joined l)) (AreReplaced-map insts news replaced))),
)
