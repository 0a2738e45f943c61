-- ===== src/Dma/Masked/Separate.antt =====
-- What a plan is when `underlying` returns.
use nes2snes.Common.{
  ℕ, ◌+◌, ◌-◌, ◌≤◌, ◌≡◌, ◌⊎◌, inl, inr, refl, ap, subst, arith, Bool, Bool-cases, true, false, not,
  ◌&&◌, ||-false, ltb, ◌==◌, ==_iff, Option, none, some, List, [], ◌∷◌, All, length,
}
use nes2snes.Common.{ok, raise_if, raise_if-ok, raise_if-not-ok, >>=-eq-ok, ok_injective, Bytes}
use nes2snes.Common.Text.{from_hex}
use nes2snes.Dma.{Listed, listed, not_listed}
use nes2snes.Dma.Masked.{
  refused, ambiguous, code_over_helper, data_over_helper, code, masked_code, Part, Item, RamPlan,
  PlanArgument, ram_plan, other_plan, MaskedPart, MaskedPlan, text_bytes, mask_part, mask_parts,
  end_of, meets_interval, check_intervals, check_code, check_item, check_items, part_list,
  underlying,
}
use nes2snes.Dma.Masked.Whole.{IsInstruction, joined, AreReplaced, masked_code_iff}

-- The masked part is the part with each STA $4014 of its instructions replaced.
abbrev pub IsMasked : Part → MaskedPart → Type 0
IsMasked p m =
    (m.bank ≡ p.bank)
    × (m.origin ≡ p.origin)
    × ((bytes : Bytes) × (insts : List Bytes) × (news : List Bytes) × (from_hex p.code ≡ some bytes)
        × All IsInstruction insts
        × (bytes ≡ joined insts)
        × AreReplaced insts news
        × (m.code ≡ joined news))

pub data AreMasked : List Part → List MaskedPart → Type 0 where
  none_left : AreMasked [] []
  one_more :
      {p : Part} {m : MaskedPart} {ps : List Part} {ms : List MaskedPart}
      → IsMasked p m
      → AreMasked ps ms
      → AreMasked (p ∷ ps) (m ∷ ms)

-- No address belongs to both parts.
abbrev pub IsApart : MaskedPart → MaskedPart → Type 0
IsApart p q = (end_of p ≤ q.origin) ⊎ (end_of q ≤ p.origin)

abbrev pub AreApart : List MaskedPart → Type 0
AreApart [] = Unit
AreApart (p ∷ rest) = All (IsApart p) rest × AreApart rest

abbrev pub LeavesHelper : ℕ → MaskedPart → Type 0
LeavesHelper last p = p.bank ≡ last → (0xf240 ≤ p.origin) ⊎ (end_of p ≤ 0xf200)

abbrev pub ItemLeavesHelper : ℕ → Item → Type 0
ItemLeavesHelper last item =
    (bytes : Bytes)
    → item.bank ≡ last
    → from_hex item.bytes ≡ some bytes
    → (0x1240 ≤ item.offset) ⊎ (item.offset + length bytes ≤ 0x1200)

-- The CPU ranges are disjoint, and neither code nor data of the last bank meets the boot helper.
pub record IsSeparate (r : MaskedPlan) : Type 0 where
  pub apart : AreApart r.parts
  pub code_clear : All (LeavesHelper (r.prg_banks - 1)) r.parts
  pub data_clear : All (ItemLeavesHelper (r.prg_banks - 1)) r.bank_data

mask_part-IsMasked : (p : Part) {m : MaskedPart} → mask_part p ≡ ok m → IsMasked p m
unfolding mask_part text_bytes
mask_part-IsMasked p {m} h =
    let (bytes, e1, h1) = >>=-eq-ok (text_bytes (from_hex p.code)) _ h in
    let (masked, e2, h2) = >>=-eq-ok (masked_code (code bytes)) _ h1 in
    let (insts, news, are, same, replaced, masked_same) = (masked_code_iff bytes masked).0 e2 in
    subst (IsMasked p) (ok_injective h2) (
      refl,
      refl,
      (bytes, insts, news, text_bytes_some (from_hex p.code) e1, are, same, replaced, masked_same),
    )
  where
    text_bytes_some : (o : Option Bytes) {b : Bytes} → text_bytes o ≡ ok b → o ≡ some b
    text_bytes_some none e = cc
    text_bytes_some (some b) e = ap some (ok_injective e)

mask_parts-AreMasked :
    (ps : List Part) {ms : List MaskedPart} → mask_parts ps ≡ ok ms → AreMasked ps ms
unfolding mask_parts
mask_parts-AreMasked [] h = subst (AreMasked []) (ok_injective h) none_left
mask_parts-AreMasked (p ∷ ps) h =
    let (m, e1, h1) = >>=-eq-ok (mask_part p) _ h in
    let (ms, e2, h2) = >>=-eq-ok (mask_parts ps) _ h1 in
    subst (AreMasked (p ∷ ps)) (ok_injective h2)
      (one_more (mask_part-IsMasked p e1) (mask_parts-AreMasked ps e2))

meets_interval-IsApart :
    (p : MaskedPart) (seen : List MaskedPart) → meets_interval p seen ≡ false → All (IsApart p) seen
unfolding meets_interval
meets_interval-IsApart p [] h = tt
meets_interval-IsApart p (q ∷ seen) h =
    let (here, later) = ||-false (ltb p.origin (end_of q) && ltb q.origin (end_of p)) _ h in
    (ground (arith, here), meets_interval-IsApart p seen later)

-- Each part is apart from what was seen before it, and the parts from each other.
behind-IsApart :
    (p : MaskedPart) (seen rest : List MaskedPart)
    → All (λ q. All (IsApart q) (p ∷ seen)) rest
    → All (IsApart p) rest × All (λ q. All (IsApart q) seen) rest
behind-IsApart p seen [] h = (tt, tt)
behind-IsApart p seen (q ∷ rest) ((first, others), more) =
    let (here, there) = behind-IsApart p seen rest more in
    ((elim first [ inl before ↦ inr before | inr after ↦ inl after ], here), (others, there))

check_intervals-AreApart :
    (seen parts : List MaskedPart) {u : Unit {0}}
    → check_intervals seen parts ≡ ok u
    → All (λ p. All (IsApart p) seen) parts × AreApart parts
unfolding check_intervals
check_intervals-AreApart seen [] h = (tt, tt)
check_intervals-AreApart seen (p ∷ rest) h =
    let (u, e1, h1) = >>=-eq-ok (raise_if (meets_interval p seen) ambiguous) _ h in
    let here = meets_interval-IsApart p seen (raise_if-ok _ ambiguous e1) in
    let (behind, apart) = check_intervals-AreApart (p ∷ seen) rest h1 in
    let (from_p, from_seen) = behind-IsApart p seen rest behind in
    ((here, from_seen), (from_p, apart))

check_code-LeavesHelper :
    (last : ℕ) (parts : List MaskedPart) {u : Unit {0}}
    → check_code last parts ≡ ok u
    → All (LeavesHelper last) parts
unfolding check_code
check_code-LeavesHelper last [] h = tt
check_code-LeavesHelper last (p ∷ rest) h =
    let (u, e1, h1) =
      >>=-eq-ok
        (raise_if (p.bank == last && (ltb p.origin 0xf240 && ltb 0xf200 (end_of p)))
          code_over_helper)
        _ h in
    let clear = raise_if-ok _ code_over_helper e1 in
    ((λ here. ground (arith, clear)), check_code-LeavesHelper last rest h1)

check_item-ItemLeavesHelper :
    (last : ℕ) (item : Item) {u : Unit {0}}
    → check_item last item ≡ ok u
    → ItemLeavesHelper last item
unfolding check_item text_bytes
check_item-ItemLeavesHelper last item h bytes here found =
    elim (Bool-cases (ltb item.offset 0x1240)) [
      | inr behind ↦ inl (ground (arith, behind))
      | inl low ↦
          let over = rw (check_item, (==_iff item.bank last).1 here, low, found) at h in
          let clear = raise_if-ok (ltb 0x1200 (item.offset + length bytes)) data_over_helper over in
          inr (ground (arith, clear))
    ]

check_items-All :
    (last : ℕ) (items : List Item) {u : Unit {0}}
    → check_items last items ≡ ok u
    → All (ItemLeavesHelper last) items
unfolding check_items
check_items-All last [] h = tt
check_items-All last (item ∷ rest) h =
    let (u, e1, h1) = >>=-eq-ok (check_item last item) _ h in
    (check_item-ItemLeavesHelper last item e1, check_items-All last rest h1)

part_list_lem : (l : Listed Part) {ps : List Part} → part_list l ≡ ok ps → l ≡ listed ps
unfolding part_list
part_list_lem (listed ps) h = ap listed (ok_injective h)
part_list_lem not_listed h = cc

-- The fixed part of a plan, in the last bank
abbrev pub fixed_part : RamPlan → Part
fixed_part p = record { bank = p.prg_banks - 1; origin = p.origin; code = p.code }

-- When `underlying` returns, the plan was of the profile, its parts are masked instruction by
-- instruction, the validator took the result, the CPU ranges of the parts are disjoint, and nothing of
-- the last bank meets the boot helper at F200 to F23F.
pub underlying-IsSeparate :
    (valid : MaskedPlan → Bool) (plan : PlanArgument) {r : MaskedPlan}
    → underlying valid plan ≡ ok r
    → (p : RamPlan) × (banked : List Part) × (plan ≡ ram_plan p)
      × (p.bank_code ≡ listed banked)
      × AreMasked (fixed_part p ∷ banked) r.parts
      × (valid r ≡ true)
      × IsSeparate r
unfolding underlying
underlying-IsSeparate valid other_plan h = cc
underlying-IsSeparate valid (ram_plan p) {r} h =
    let (banked, e1, h1) = >>=-eq-ok (part_list p.bank_code) _ h in
    let (parts, e2, h2) = >>=-eq-ok (mask_parts (fixed_part p ∷ banked)) _ h1 in
    let masked : MaskedPlan = record {
      prg_banks = p.prg_banks;
      parts = parts;
      bank_data = p.bank_data;
    } in
    let (u3, e3, h3) = >>=-eq-ok (raise_if (not (valid masked)) refused) _ h2 in
    let (u4, e4, h4) = >>=-eq-ok (check_intervals [] parts) _ h3 in
    let (u5, e5, h5) = >>=-eq-ok (check_code (p.prg_banks - 1) parts) _ h4 in
    let (u6, e6, h6) = >>=-eq-ok (check_items (p.prg_banks - 1) p.bank_data) _ h5 in
    let (from_none, apart) = check_intervals-AreApart [] parts e4 in
    subst
      (λ (r : MaskedPlan).
        (q : RamPlan) × (banked : List Part) × (ram_plan p ≡ ram_plan q)
        × (q.bank_code ≡ listed banked)
        × AreMasked (fixed_part q ∷ banked) r.parts
        × (valid r ≡ true)
        × IsSeparate r)
      (ok_injective h6)
      (
        p,
        banked,
        refl,
        part_list_lem p.bank_code e1,
        mask_parts-AreMasked (fixed_part p ∷ banked) e2,
        raise_if-not-ok (valid masked) refused e3,
        record {
          apart = apart;
          code_clear = check_code-LeavesHelper (p.prg_banks - 1) parts e5;
          data_clear = check_items-All (p.prg_banks - 1) p.bank_data e6;
        },
      )
