-- ===== src/Mmc5/Patches.antt =====
-- What the loop over the patches of a banked plan accepts: bytes beside the parts, the boot region
-- and the vectors.
use nes2snes.Common.{
  ||-false, ℕ, ◌+◌, ◌-◌, ◌≤◌, ◌<◌, ◌≡◌, ◌⊎◌, inl, inr, arith, Bool-cases, false, ◌||◌,
}
use nes2snes.Common.{List, [], ◌∷◌, All, length, ltb, leb, ◌==◌, leb→le, ==_refl, subst}
use nes2snes.Common.{ok, raise_if, raise_if-ok, >>=-eq-ok, ok_injective}
use nes2snes.Mmc5.Plan.{
  PlanError, PatchArgument, patch, foreign_patch, number, bad_patch, patch_budget, patch_overlap,
}
use nes2snes.Mmc5.Body.{Block, Cells, hex_text, meets, occupy, reserved, read_patch, patches_loop}
use nes2snes.Mmc5.Disjoint.{Covers, Covers-occupy_self, meets-false, meets-none}
use nes2snes.Mmc5.Parts.{
  number-ok, last_or_before, IsFilled, IsLaid, AreSeparate-All, Covers-All, occupy-IsLaid,
}

-- A patch lies within one bank, and in the last bank between the boot region and the vectors.
pub record IsPatch (banks : ℕ) (b : Block) : Type 0 where
  pub banked : b.bank < banks
  pub some_bytes : 0 < length b.content
  pub in_bank : b.offset + length b.content ≤ 8192
  pub unreserved :
      (b.bank < banks - 1) ⊎ ((256 ≤ b.offset) × (b.offset + length b.content ≤ 0x1ffa))

reserved_false :
    (banks i : ℕ) → reserved banks (banks - 1) i ≡ false → (256 ≤ i) × ((i < 0x1ffa) ⊎ (0x2000 ≤ i))
unfolding reserved
reserved_false banks i h = elim (Bool-cases (leb 0x1ffa i)) [
  | inl high ↦
      (ground (arith, h, ==_refl (banks - 1)), inr (ground (arith, h, high, ==_refl (banks - 1))))
  | inr low ↦ (ground (arith, h, ==_refl (banks - 1)), inl (ground (arith, low)))
]

meets_or :
    (b : Block) (cells more : Cells)
    → meets b (λ n i. cells n i || more n i) ≡ false
    → (meets b cells ≡ false)
      × ((i : ℕ) → i < length b.content → more b.bank (b.offset + i) ≡ false)
meets_or b cells more h = (
  meets-none b cells
      (λ i lt. (||-false _ _ (meets-false b (λ n j. cells n j || more n j) i h lt)).0),
  λ i lt. (||-false _ _ (meets-false b (λ n j. cells n j || more n j) i h lt)).1,
)

patch_tests :
    (offset n count : ℕ) (e : PlanError) {u : Unit {0}}
    → raise_if (n == 0 || (ltb 8192 (offset + n) || ltb 8192 (count + n))) e ≡ ok u
    → (0 < n) × (offset + n ≤ 8192) × (count + n ≤ 8192)
patch_tests offset n count e h = (ground (arith, h), ground (arith, h), ground (arith, h))

outside :
    (banks : ℕ) (b : Block)
    → 0 < length b.content
    → b.offset + length b.content ≤ 8192
    → ((i : ℕ) → i < length b.content → reserved banks b.bank (b.offset + i) ≡ false)
    → b.bank ≡ banks - 1
    → (256 ≤ b.offset) × (b.offset + length b.content ≤ 0x1ffa)
outside banks b positive in_bank free last = (first.0, last_place)
  where
    there :
        (i : ℕ)
        → i < length b.content
        → (256 ≤ b.offset + i) × ((b.offset + i < 0x1ffa) ⊎ (0x2000 ≤ b.offset + i))
    there i lt =
        reserved_false banks (b.offset + i)
          (subst (λ (n : ℕ). reserved banks n (b.offset + i) ≡ false) last (free i lt))

    first : (256 ≤ b.offset) × (b.offset < 0x1ffa)
    first =
        let (low, place) = there 0 positive in
        elim place [
          | inl before ↦ (omega (arith, low), omega (arith, before))
          | inr after ↦ absurd (omega (arith, after, in_bank, positive))
        ]

    last_place : b.offset + length b.content ≤ 0x1ffa
    last_place = elim (Bool-cases (leb (b.offset + length b.content) 0x1ffa)) [
      | inl within ↦ leb→le (b.offset + length b.content) 0x1ffa within
      | inr beyond ↦
          let past : 0x1ffa < b.offset + length b.content = ground (arith, beyond) in
          elim (there (0x1ffa - b.offset) (omega (arith, past, first))).1 [
            | inl before ↦ absurd (omega (arith, before))
            | inr after ↦ absurd (omega (arith, after, first))
          ]
    ]

pub read_patch-IsPatch :
    (banks : ℕ) (occupied : Cells) (count : ℕ) (a : PatchArgument) {b : Block}
    → 0 < banks
    → read_patch banks occupied count a ≡ ok b
    → IsPatch banks b × (meets b occupied ≡ false) × (count + length b.content ≤ 8192)
unfolding read_patch
read_patch-IsPatch banks occupied count foreign_patch some_banks h = cc
read_patch-IsPatch banks occupied count (patch bank_value offset_value bytes_text) some_banks h =
    let (bank, e0, h0) = >>=-eq-ok (number 0 (banks - 1) bad_patch bank_value) _ h in
    let (offset, e1, h1) = >>=-eq-ok (number 0 8191 bad_patch offset_value) _ h0 in
    let (content, e2, h2) = >>=-eq-ok (hex_text 8192 bad_patch bytes_text) _ h1 in
    let n = length content in
    let (u3, e3, h3) =
      >>=-eq-ok (raise_if (n == 0 || (ltb 8192 (offset + n) || ltb 8192 (count + n))) patch_budget)
        _ h2 in
    let b : Block = record { bank = bank; offset = offset; content = content } in
    let (u4, e4, h4) =
      >>=-eq-ok (raise_if (meets b (λ m i. occupied m i || reserved banks m i)) patch_overlap) _
        h3 in
    let (free, unreserved) =
      meets_or b occupied (reserved banks)
        (raise_if-ok (meets b (λ m i. occupied m i || reserved banks m i)) patch_overlap e4) in
    let bank_range = (number-ok 0 (banks - 1) bad_patch bank_value e0).2 in
    let banked : bank < banks = omega (arith, bank_range, some_banks) in
    let (positive, in_bank, budget) = patch_tests offset n count patch_budget e3 in
    subst
      (λ (c : Block).
        IsPatch banks c × (meets c occupied ≡ false) × (count + length c.content ≤ 8192))
      (ok_injective h4)
      (
        record {
          banked = banked;
          some_bytes = positive;
          in_bank = in_bank;
          unreserved =
              last_or_before banks bank banked (outside banks b positive in_bank unreserved);
        },
        free,
        budget,
      )

-- The number of bytes of all blocks.
abbrev pub block_bytes : List Block → ℕ
block_bytes [] = 0
block_bytes (b ∷ rest) = length b.content + block_bytes rest

abbrev IsRead : ℕ → Cells → List Block → ℕ → List Block × Cells → Type 0
IsRead banks occupied seen count r =
    All (IsPatch banks) r.0 × (count + block_bytes r.0 ≤ 8192) × IsLaid occupied seen r.0 r.1

pub patches_loop-ArePacked :
    (banks : ℕ) (occupied : Cells) (seen : List Block) (count : ℕ) (l : List PatchArgument)
    {r : List Block × Cells}
    → 0 < banks
    → count ≤ 8192
    → All (λ c. Covers occupied c × IsFilled c) seen
    → patches_loop banks occupied count l ≡ ok r
    → All (IsPatch banks) r.0 × (count + block_bytes r.0 ≤ 8192) × IsLaid occupied seen r.0 r.1
unfolding patches_loop
patches_loop-ArePacked banks occupied seen count [] some_banks budget all h =
    subst (IsRead banks occupied seen count) (ok_injective h)
      (tt, omega (arith, budget), (tt, (λ c k. k), tt))
patches_loop-ArePacked banks occupied seen count (a ∷ l) some_banks budget all h =
    let (b, e0, h0) = >>=-eq-ok (read_patch banks occupied count a) _ h in
    let ((bs, cells), e1, h1) =
      >>=-eq-ok (patches_loop banks (occupy b occupied) (count + length b.content) l) _ h0 in
    let (is_patch, apart, within) = read_patch-IsPatch banks occupied count a some_banks e0 in
    let separate = AreSeparate-All b occupied seen is_patch.some_bytes apart all in
    let (patches_ok, total, laid) =
      patches_loop-ArePacked banks (occupy b occupied) (b ∷ seen) (count + length b.content) l
        some_banks within
        ((Covers-occupy_self b occupied, is_patch.some_bytes), Covers-All b occupied seen all) e1 in
    subst (IsRead banks occupied seen count) (ok_injective h1) (
      (is_patch, patches_ok),
      omega (arith, total),
      occupy-IsLaid occupied cells seen bs b all is_patch.some_bytes separate laid,
    )
