-- ===== src/Mmc5/Read.antt =====
-- What is read of the plan's dictionary: each field of the result is the plan's own.
use nes2snes.Common.{
  ℕ, ◌+◌, ◌-◌, ◌%◌, ◌≤◌, ◌≡◌, refl, ap, ◌∙◌, arith, subst, Bool-cases, inl, inr, ◌&&◌, ◌||◌, ltb,
  leb, ◌==◌,
}
use nes2snes.Common.{Option-cases, some, List, [], ◌∷◌, length, map}
use nes2snes.Common.{
  ok, raise_if, >>=-eq-ok, ok_injective, as_error-ok, Value, nat, int, bool, other, negsuc, ℤ,
  Bytes,
}
use nes2snes.Common.Text.{TextArgument, text, not_text, from_hex}
use nes2snes.Timeline.Decode.{StartsArgument, start_list, check_starts}
use nes2snes.Timeline.Accept.{check_starts-ok}
use nes2snes.Mmc5.Plan.{
  PlanError, PartArgument, part, foreign_part, PatchArgument, patch, foreign_patch, PartsArgument,
  parts, not_parts, PatchesArgument, patches, not_patches, part_list, patch_list, number, bad_bank,
  bad_encoding, crosses_boundary, overlaps_boot, bad_starts, overlapping_code, bad_patch,
  patch_budget, patch_overlap,
}
use nes2snes.Mmc5.Body.{
  Block, Cells, Part, hex_text, part_starts, meets, occupy, reserved, read_part, parts_loop,
  read_patch, patches_loop, check_vector, is_entry,
}
use nes2snes.Mmc5.Parts.{number-ok}

-- The entry of the code list has the part's bank and address, and its bytes in hexadecimal.
abbrev pub IsPartOf : PartArgument → Part → Type 0
IsPartOf a p =
    (t : List ℕ) × (a ≡ part (nat p.block.bank) (nat p.pc) (text t) (start_list (map int p.starts)))
    × (from_hex t ≡ some p.block.content)

abbrev pub ArePartsOf : List PartArgument → List Part → Type 0
ArePartsOf [] [] = Unit
ArePartsOf (a ∷ rest) (p ∷ ps) = IsPartOf a p × ArePartsOf rest ps
ArePartsOf rest ps = ⊥

abbrev pub IsPatchOf : PatchArgument → Block → Type 0
IsPatchOf a b =
    (t : List ℕ) × (a ≡ patch (nat b.bank) (nat b.offset) (text t)) × (from_hex t ≡ some b.content)

abbrev pub ArePatchesOf : List PatchArgument → List Block → Type 0
ArePatchesOf [] [] = Unit
ArePatchesOf (a ∷ rest) (b ∷ bs) = IsPatchOf a b × ArePatchesOf rest bs
ArePatchesOf rest bs = ⊥

hex_text-ok :
    (limit : ℕ) (e : PlanError) (t : TextArgument) {b : Bytes}
    → hex_text limit e t ≡ ok b
    → (l : List ℕ) × (t ≡ text l) × (from_hex l ≡ some b)
unfolding hex_text
hex_text-ok limit e not_text h = cc
hex_text-ok limit e (text l) h = elim (Bool-cases (ltb 0 (length l) && leb (length l) limit)) [
  | inr bad ↦ let never = rw (hex_text, bad) at h in cc
  | inl good ↦ elim (Option-cases (from_hex l)) [
    | inl none_found ↦ let never = rw (hex_text, good, none_found) at h in cc
    | inr (bytes, found) ↦
        (l, refl, found ∙ ap some (ok_injective (rw (hex_text, good, found) at h)))
  ]
]

part_starts-ok :
    (s : StartsArgument) {zs : List ℤ} → part_starts s ≡ ok zs → s ≡ start_list (map int zs)
unfolding part_starts
part_starts-ok s h = check_starts-ok s (as_error-ok bad_starts (check_starts s) h)

read_part-IsPartOf :
    (banks : ℕ) (occupied : Cells) (a : PartArgument) {p : Part}
    → read_part banks occupied a ≡ ok p
    → IsPartOf a p
unfolding read_part
read_part-IsPartOf banks occupied foreign_part h = cc
read_part-IsPartOf banks occupied (part bank_value pc_value code_text starts_argument) {p} h =
    let (bank, e0, h0) = >>=-eq-ok (number 0 (banks - 1) bad_bank bank_value) _ h in
    let (pc, e1, h1) = >>=-eq-ok (number 0x8000 0xfff9 bad_bank pc_value) _ h0 in
    let (code, e2, h2) = >>=-eq-ok (hex_text 2048 bad_encoding code_text) _ h1 in
    let (u3, e3, h3) =
      >>=-eq-ok
        (raise_if
          (length code == 0
            || (ltb 8192 (pc % 8192 + length code) || ltb 0xfffa (pc + length code)))
          crosses_boundary)
        _ h2 in
    let (u4, e4, h4) =
      >>=-eq-ok (raise_if (bank == banks - 1 && ltb (pc % 8192) 256) overlaps_boot) _ h3 in
    let (starts, e5, h5) = >>=-eq-ok (part_starts starts_argument) _ h4 in
    let b : Block = record { bank = bank; offset = pc % 8192; content = code } in
    let (u6, e6, h6) = >>=-eq-ok (raise_if (meets b occupied) overlapping_code) _ h5 in
    let (l, is_text, found) = hex_text-ok 2048 bad_encoding code_text e2 in
    let is_bank = (number-ok 0 (banks - 1) bad_bank bank_value e0).0 in
    let is_pc = (number-ok 0x8000 0xfff9 bad_bank pc_value e1).0 in
    let is_starts = part_starts-ok starts_argument e5 in
    subst (IsPartOf (part bank_value pc_value code_text starts_argument)) (ok_injective h6)
      (l, (λ i. part (is_bank i) (is_pc i) (is_text i) (is_starts i)), found)

pub parts_loop-ArePartsOf :
    (banks : ℕ) (occupied : Cells) (l : List PartArgument) {r : List Part × Cells}
    → parts_loop banks occupied l ≡ ok r
    → ArePartsOf l r.0
unfolding parts_loop
parts_loop-ArePartsOf banks occupied [] h =
    subst (λ (r : List Part × Cells). ArePartsOf [] r.0) (ok_injective h) tt
parts_loop-ArePartsOf banks occupied (a ∷ l) h =
    let (p, e0, h0) = >>=-eq-ok (read_part banks occupied a) _ h in
    let ((ps, cells), e1, h1) = >>=-eq-ok (parts_loop banks (occupy p.block occupied) l) _ h0 in
    subst (λ (r : List Part × Cells). ArePartsOf (a ∷ l) r.0) (ok_injective h1)
      (
        read_part-IsPartOf banks occupied a e0,
        parts_loop-ArePartsOf banks (occupy p.block occupied) l e1,
      )

read_patch-IsPatchOf :
    (banks : ℕ) (occupied : Cells) (count : ℕ) (a : PatchArgument) {b : Block}
    → read_patch banks occupied count a ≡ ok b
    → IsPatchOf a b
unfolding read_patch
read_patch-IsPatchOf banks occupied count foreign_patch h = cc
read_patch-IsPatchOf banks occupied count (patch bank_value offset_value bytes_text) h =
    let (bank, e0, h0) = >>=-eq-ok (number 0 (banks - 1) bad_patch bank_value) _ h in
    let (offset, e1, h1) = >>=-eq-ok (number 0 8191 bad_patch offset_value) _ h0 in
    let (content, e2, h2) = >>=-eq-ok (hex_text 8192 bad_patch bytes_text) _ h1 in
    let n = length content in
    let (u3, e3, h3) =
      >>=-eq-ok (raise_if (n == 0 || (ltb 8192 (offset + n) || ltb 8192 (count + n))) patch_budget)
        _ h2 in
    let b : Block = record { bank = bank; offset = offset; content = content } in
    let (u4, e4, h4) =
      >>=-eq-ok (raise_if (meets b (λ m i. occupied m i || reserved banks m i)) patch_overlap) _
        h3 in
    let (l, is_text, found) = hex_text-ok 8192 bad_patch bytes_text e2 in
    let is_bank = (number-ok 0 (banks - 1) bad_patch bank_value e0).0 in
    let is_offset = (number-ok 0 8191 bad_patch offset_value e1).0 in
    subst (IsPatchOf (patch bank_value offset_value bytes_text)) (ok_injective h4)
      (l, (λ i. patch (is_bank i) (is_offset i) (is_text i)), found)

pub patches_loop-ArePatchesOf :
    (banks : ℕ) (occupied : Cells) (count : ℕ) (l : List PatchArgument) {r : List Block × Cells}
    → patches_loop banks occupied count l ≡ ok r
    → ArePatchesOf l r.0
unfolding patches_loop
patches_loop-ArePatchesOf banks occupied count [] h =
    subst (λ (r : List Block × Cells). ArePatchesOf [] r.0) (ok_injective h) tt
patches_loop-ArePatchesOf banks occupied count (a ∷ l) h =
    let (b, e0, h0) = >>=-eq-ok (read_patch banks occupied count a) _ h in
    let ((bs, cells), e1, h1) =
      >>=-eq-ok (patches_loop banks (occupy b occupied) (count + length b.content) l) _ h0 in
    subst (λ (r : List Block × Cells). ArePatchesOf (a ∷ l) r.0) (ok_injective h1)
      (
        read_patch-IsPatchOf banks occupied count a e0,
        patches_loop-ArePatchesOf banks (occupy b occupied) (count + length b.content) l e1,
      )

pub part_list-ok :
    (argument : PartsArgument) {l : List PartArgument}
    → part_list argument ≡ ok l
    → (argument ≡ parts l) × (length l ≤ 32)
unfolding part_list
part_list-ok not_parts h = cc
part_list-ok (parts l) h = elim (Bool-cases (ltb 32 (length l))) [
  | inl long ↦ let never = rw (part_list, long) at h in cc
  | inr short ↦
      let same = ok_injective (rw (part_list, short) at h) in
      (ap parts same, subst (λ (k : List PartArgument). length k ≤ 32) same (ground (arith, short)))
]

pub patch_list-ok :
    (argument : PatchesArgument) {l : List PatchArgument}
    → patch_list argument ≡ ok l
    → (argument ≡ patches l) × (length l ≤ 128)
unfolding patch_list
patch_list-ok not_patches h = cc
patch_list-ok (patches l) h = elim (Bool-cases (ltb 128 (length l))) [
  | inl long ↦ let never = rw (patch_list, long) at h in cc
  | inr short ↦
      let same = ok_injective (rw (patch_list, short) at h) in
      (
        ap patches same,
        subst (λ (k : List PatchArgument). length k ≤ 128) same (ground (arith, short)),
      )
]

pub check_vector-nat :
    (banks : ℕ) (ps : List Part) (v : Value) {n : ℕ} → check_vector banks ps v ≡ ok n → v ≡ nat n
unfolding check_vector
check_vector-nat banks ps (nat k) h = elim (Bool-cases (is_entry (banks - 1) k ps)) [
  | inl e ↦ ap (λ (m : ℕ). nat m) (ok_injective (rw e at h))
  | inr e ↦ absurd (ground (arith, h, e))
]
check_vector-nat banks ps (int (negsuc n)) h = cc
check_vector-nat banks ps (bool b) h = cc
check_vector-nat banks ps other h = cc
