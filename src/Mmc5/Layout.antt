-- ===== src/Mmc5/Layout.antt =====
-- The layout that the validation of a banked plan lets through.
use nes2snes.Common.{
  ℕ, ◌+◌, ◌-◌, ◌≤◌, ◌<◌, ◌≡◌, ◌≢◌, ◌⊎◌, inl, inr, arith, Bool, Bool-cases, true, false, not, refl,
  ◌&&◌, all_below,
}
use nes2snes.Common.{List, [], ◌∷◌, All, length, map, ltb, ◌==◌, ltb→le, ==_iff, subst}
use nes2snes.Common.{
  ok, raise_if, raise_if-ok, >>=-eq-ok, ok_injective, as_error-ok, Value, nat, int, bool, other,
  pos, negsuc, ℤ,
}
use nes2snes.Timeline.Events.{Event, IsSchedule}
use nes2snes.Timeline.Decode.{code_bytes, start_list, target_set, Row, decode}
use nes2snes.Timeline.Accept.{IsListing, decode_iff}
use nes2snes.Mmc5.Plan.{
  Profile, Plan, Open, PartArgument, PatchArgument, patches, check_profile, check_head, patch_list,
  bad_program, too_large, same_vectors, overlaps_helper,
}
use nes2snes.Mmc5.Body.{
  Part, Layout, parts_loop, patches_loop, total_bytes, all_targets, decode_gates, decode_part,
  decode_parts, has_start, is_entry, check_vector, check_body, validate,
}
use nes2snes.Mmc5.Read.{
  ArePartsOf, ArePatchesOf, parts_loop-ArePartsOf, patches_loop-ArePatchesOf, patch_list-ok,
  check_vector-nat,
}
use nes2snes.Mmc5.Head.{IsProfile, check_profile-IsProfile, IsHead, check_head-IsHead}
use nes2snes.Mmc5.Parts.{IsPart, blocks, ArePacked, parts_loop-ArePacked}
use nes2snes.Mmc5.Helper.{LeavesHelper, free-All, wider-All}
use nes2snes.Mmc5.Patches.{IsPatch, block_bytes, patches_loop-ArePacked}

-- The rows of each part are the listing of its bytes; each entry of any part may be jumped to.
abbrev pub AreListed : Open → List Value → List Part → List (List Row) → Type 0
AreListed o targets [] [] = Unit
AreListed o targets (p ∷ ps) (rows ∷ others) =
    IsListing (code_bytes p.block.content) (nat p.pc) (start_list (map int p.starts))
      (decode_gates o) (target_set targets) rows
    × AreListed o targets ps others
AreListed o targets ps rows = ⊥

abbrev pub IsAmong : ℕ → List ℤ → Type 0
IsAmong n [] = ⊥
IsAmong n (z ∷ rest) = (z ≡ pos n) ⊎ IsAmong n rest

-- An entry of a part of the given bank.
abbrev pub IsEntry : ℕ → ℕ → List Part → Type 0
IsEntry bank pc [] = ⊥
IsEntry bank pc (p ∷ rest) = ((p.block.bank ≡ bank) × IsAmong pc p.starts) ⊎ IsEntry bank pc rest

-- What a validated plan is: its sizes, its requests, and where its bytes lie.
pub record IsLayout (o : Open) (l : Layout) : Type 0 where
  pub banks_range : (4 ≤ l.banks) × (l.banks ≤ 128)
  pub steps_range : (1 ≤ l.steps) × (l.steps ≤ 31)
  pub schedule : (length l.events ≤ 64) × IsSchedule 0 l.events
  pub parts : All (IsPart l.banks) l.parts
  pub patches : All (IsPatch l.banks) l.patches
  pub parts_apart : ArePacked [] (blocks l.parts)
  pub patches_apart : ArePacked (blocks l.parts) l.patches
  pub budget : (total_bytes l.parts ≤ 2048) × (block_bytes l.patches ≤ 8192)
  pub listed : AreListed o (all_targets l.parts) l.parts l.rows
  pub entered : IsEntry (l.banks - 1) l.irq l.parts × IsEntry (l.banks - 1) l.nmi l.parts
  pub distinct : l.irq ≢ l.nmi
  pub helper_free :
      o.ppu_blank ≡ true
      → All (LeavesHelper l.banks) (blocks l.parts) × All (LeavesHelper l.banks) l.patches

-- What the layout's numbers, bytes and vectors are in the plan.
pub record IsReadFrom (o : Open) (plan : Plan) (l : Layout) : Type 0 where
  pub head :
      (fragments : List PartArgument) × IsHead o plan l.banks l.steps l.events fragments
      × ArePartsOf fragments l.parts
  pub vectors : (plan.irq ≡ nat l.irq) × (plan.nmi ≡ nat l.nmi)
  pub patched :
      (arguments : List PatchArgument) × (plan.bank_data ≡ patches arguments)
      × (length arguments ≤ 128)
      × ArePatchesOf arguments l.patches

has_start-IsAmong : (n : ℕ) (zs : List ℤ) → has_start n zs ≡ true → IsAmong n zs
unfolding has_start
has_start-IsAmong n [] h = cc
has_start-IsAmong n (pos m ∷ rest) h = elim (Bool-cases (n == m)) [
  | inl e ↦ inl (ground (arith, e))
  | inr e ↦ inr (has_start-IsAmong n rest (rw e at h))
]
has_start-IsAmong n (negsuc m ∷ rest) h = inr (has_start-IsAmong n rest h)

is_entry-IsEntry : (bank pc : ℕ) (ps : List Part) → is_entry bank pc ps ≡ true → IsEntry bank pc ps
unfolding is_entry
is_entry-IsEntry bank pc [] h = cc
is_entry-IsEntry bank pc (p ∷ rest) h =
    elim (Bool-cases (p.block.bank == bank && has_start pc p.starts)) [
      | inl e ↦ inl (
        (==_iff p.block.bank bank).0 (ground (arith, e)),
        has_start-IsAmong pc p.starts (ground (arith, e)),
      )
      | inr e ↦ inr (is_entry-IsEntry bank pc rest (rw e at h))
    ]

check_vector-IsEntry :
    (banks : ℕ) (ps : List Part) (v : Value) {n : ℕ}
    → check_vector banks ps v ≡ ok n
    → IsEntry (banks - 1) n ps
unfolding check_vector
check_vector-IsEntry banks ps (nat k) h = elim (Bool-cases (is_entry (banks - 1) k ps)) [
  | inl e ↦
      subst (λ (m : ℕ). IsEntry (banks - 1) m ps) (ok_injective (rw e at h))
        (is_entry-IsEntry (banks - 1) k ps e)
  | inr e ↦ absurd (ground (arith, h, e))
]
check_vector-IsEntry banks ps (int (negsuc n)) h = cc
check_vector-IsEntry banks ps (bool b) h = cc
check_vector-IsEntry banks ps other h = cc

decode_part-IsListing :
    (o : Open) (targets : List Value) (p : Part) {rows : List Row}
    → decode_part o targets p ≡ ok rows
    → IsListing
        (code_bytes p.block.content)
        (nat p.pc)
        (start_list (map int p.starts))
        (decode_gates o)
        (target_set targets)
        rows
unfolding decode_part
decode_part-IsListing o targets p {rows} h = (decode_iff _ _ _ _ _ rows).0 (
    as_error-ok bad_program
      (decode (code_bytes p.block.content) (nat p.pc) (start_list (map int p.starts))
        (decode_gates o) (target_set targets))
      h)

decode_parts-AreListed :
    (o : Open) (targets : List Value) (ps : List Part) {rows : List (List Row)}
    → decode_parts o targets ps ≡ ok rows
    → AreListed o targets ps rows
unfolding decode_parts
decode_parts-AreListed o targets [] h = subst (AreListed o targets []) (ok_injective h) tt
decode_parts-AreListed o targets (p ∷ ps) h =
    let (rows, e0, h0) = >>=-eq-ok (decode_part o targets p) _ h in
    let (others, e1, h1) = >>=-eq-ok (decode_parts o targets ps) _ h0 in
    subst (AreListed o targets (p ∷ ps)) (ok_injective h1)
      (decode_part-IsListing o targets p e0, decode_parts-AreListed o targets ps e1)

not_same : (m n : ℕ) → (m == n) ≡ false → m ≢ n
not_same m n h same = absurd (ground (arith, same, h))

when_on : (gate clear : Bool) → (gate && not clear) ≡ false → gate ≡ true → clear ≡ true
when_on true true h on = refl
when_on true false h on = cc
when_on false clear h on = cc

from_zero : (n : ℕ) → 0 + n ≤ 8192 → n ≤ 8192
from_zero n h = omega (arith, h)

body-IsLayout :
    (o : Open) (plan : Plan) (banks steps : ℕ) (events : List Event) (fragments : List PartArgument)
    {l : Layout}
    → IsHead o plan banks steps events fragments
    → check_body o plan banks steps events fragments ≡ ok l
    → IsReadFrom o plan l × IsLayout o l
unfolding check_body
body-IsLayout o plan banks steps events fragments head h =
    let (is_banks, low, high) = head.banks_range in
    let (is_steps, some_steps, few_steps) = head.steps_range in
    let (is_events, few_events, schedule) = head.schedule in
    let some_banks : 0 < banks = omega (arith, low) in
    let ((ps, occupied), e0, h0) = >>=-eq-ok (parts_loop banks (λ b i. false) fragments) _ h in
    let (u1, e1, h1) = >>=-eq-ok (raise_if (ltb 2048 (total_bytes ps)) too_large) _ h0 in
    let (rows, e2, h2) = >>=-eq-ok (decode_parts o (all_targets ps) ps) _ h1 in
    let (irq, e3, h3) = >>=-eq-ok (check_vector banks ps plan.irq) _ h2 in
    let (nmi, e4, h4) = >>=-eq-ok (check_vector banks ps plan.nmi) _ h3 in
    let (u5, e5, h5) = >>=-eq-ok (raise_if (irq == nmi) same_vectors) _ h4 in
    let (arguments, e6, h6) = >>=-eq-ok (patch_list plan.bank_data) _ h5 in
    let ((bs, cells), e7, h7) = >>=-eq-ok (patches_loop banks occupied 0 arguments) _ h6 in
    let (u8, e8, h8) =
      >>=-eq-ok
        (raise_if (o.ppu_blank && not (all_below 0x200 (λ i. not (cells (banks - 1) (0x1000 + i)))))
          overlaps_helper)
        _ h7 in
    let (parts_ok, (parts_apart, grows, covered)) =
      parts_loop-ArePacked banks (λ b i. false) [] fragments some_banks tt e0 in
    let (patches_ok, data_budget, (patches_apart, wider, more)) =
      patches_loop-ArePacked banks occupied (blocks ps) 0 arguments some_banks (omega arith) covered
        e7 in
    let different = raise_if-ok (irq == nmi) same_vectors e5 in
    let (is_patches, few_patches) = patch_list-ok plan.bank_data e6 in
    subst (λ (l : Layout). IsReadFrom o plan l × IsLayout o l) (ok_injective h8)
      ((
        record {
          head = (fragments, head, parts_loop-ArePartsOf banks (λ b i. false) fragments e0);
          vectors = (check_vector-nat banks ps plan.irq e3, check_vector-nat banks ps plan.nmi e4);
          patched = (
            arguments,
            is_patches,
            few_patches,
            patches_loop-ArePatchesOf banks occupied 0 arguments e7,
          );
        },
        record {
          banks_range = (low, high);
          steps_range = (some_steps, few_steps);
          schedule = (few_events, schedule);
          parts = parts_ok;
          patches = patches_ok;
          parts_apart = parts_apart;
          patches_apart = patches_apart;
          budget = (
            ltb→le 2048 (total_bytes ps) (raise_if-ok (ltb 2048 (total_bytes ps)) too_large e1),
            from_zero (block_bytes bs) data_budget,
          );
          listed = decode_parts-AreListed o (all_targets ps) ps e2;
          entered = (
            check_vector-IsEntry banks ps plan.irq e3,
            check_vector-IsEntry banks ps plan.nmi e4,
          );
          distinct = not_same irq nmi different;
          helper_free = λ on.
              let free : all_below 0x200 (λ i. not (cells (banks - 1) (0x1000 + i))) ≡ true =
                when_on o.ppu_blank _ (raise_if-ok _ overlaps_helper e8) on in
              (
                free-All banks cells (blocks ps) free
                    (wider-All occupied cells (blocks ps) wider covered),
                free-All banks cells bs free more,
              );
        },
      ))

-- For a plan that is accepted, the gates are the profile's Booleans, each open one over an open one;
-- the memory model and the optional CHR keys fit them, and name and boot registers are of their range.
-- Its banks are 4 to 128, its steps 1 to 31 and its requests at most 64 at increasing cycles, all read
-- from its own fields. The parts are, one by one, the fixed code in the last bank at $E100 and then the
-- entries of the code list, each with the bank, address, bytes and starts that its dictionary has,
-- and the patches are the entries of the data list. Each part lies within one bank, below the vectors
-- and outside the boot region, and each patch within one bank, in the last bank between the boot
-- region and the vectors; no two of them share a byte, the parts have at most 2,048 bytes and the
-- patches 8,192. The rows of each part are its listing, with the entries of all parts as targets, and
-- the plan's two vectors are different entries of parts of the last bank. With the PPU gate open,
-- nothing of the last bank meets $F000 to $F1FF.
pub validate-IsLayout :
    (profile : Profile) (plan : Plan) (l : Layout)
    → validate profile plan ≡ ok l
    → (o : Open) × IsProfile profile o × IsReadFrom o plan l × IsLayout o l
unfolding validate
validate-IsLayout profile plan l h =
    let (o, e0, h0) = >>=-eq-ok (check_profile profile) _ h in
    let ((banks, steps, events, fragments), e1, h1) = >>=-eq-ok (check_head o plan) _ h0 in
    let head = check_head-IsHead o plan e1 in
    let (read, layout) = body-IsLayout o plan banks steps events fragments head h1 in
    (o, check_profile-IsProfile profile e0, read, layout)
