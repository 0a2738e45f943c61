-- ===== src/Mmc5/Parts.antt =====
-- What the loop over the parts of a banked plan accepts: parts that never share a byte.
use nes2snes.Common.{
  ℕ, ◌+◌, ◌-◌, ◌%◌, ◌≤◌, ◌<◌, ◌≡◌, ◌⊎◌, inl, inr, refl, arith, Bool-cases, false, ◌&&◌, ◌||◌,
}
use nes2snes.Common.{List, [], ◌∷◌, All, length, ltb, ◌==◌, ==_iff, subst}
use nes2snes.Common.{
  ok, raise_if, raise_if-ok, >>=-eq-ok, ok_injective, Value, nat, int, bool, other, negsuc,
}
use nes2snes.Mmc5.Plan.{
  PlanError, PartArgument, part, foreign_part, number, bad_bank, bad_encoding, crosses_boundary,
  overlaps_boot, overlapping_code,
}
use nes2snes.Mmc5.Body.{
  Block, Cells, Part, hex_text, part_starts, meets, occupy, read_part, parts_loop,
}
use nes2snes.Mmc5.Disjoint.{
  AreSeparate, Covers, Covers-occupy, Covers-occupy_self, meets-AreSeparate,
}

pub number-ok :
    (low high : ℕ) (e : PlanError) (v : Value) {n : ℕ}
    → number low high e v ≡ ok n
    → (v ≡ nat n) × (low ≤ n) × (n ≤ high)
unfolding number
number-ok low high e (nat n) h = ground arith
number-ok low high e (int (negsuc n)) h = cc
number-ok low high e (bool b) h = cc
number-ok low high e other h = cc

-- A part lies within one bank and in front of the vectors, and outside the boot region.
pub record IsPart (banks : ℕ) (p : Part) : Type 0 where
  pub banked : p.block.bank < banks
  pub some_code : 0 < length p.block.content
  pub placed : p.block.offset ≡ p.pc % 8192
  pub in_bank : p.block.offset + length p.block.content ≤ 8192
  pub in_cartridge : (0x8000 ≤ p.pc) × (p.pc + length p.block.content ≤ 0xfffa)
  pub after_boot : (p.block.bank < banks - 1) ⊎ (256 ≤ p.block.offset)

part_tests :
    (pc n bank banks : ℕ) (e e' : PlanError) {u u' : Unit {0}}
    → raise_if (n == 0 || (ltb 8192 (pc % 8192 + n) || ltb 0xfffa (pc + n))) e ≡ ok u
    → raise_if (bank == banks - 1 && ltb (pc % 8192) 256) e' ≡ ok u'
    → (0 < n) × (pc % 8192 + n ≤ 8192) × (pc + n ≤ 0xfffa) × (bank ≡ banks - 1 → 256 ≤ pc % 8192)
part_tests pc n bank banks e e' h k =
    (ground (arith, h), ground (arith, h), ground (arith, h), λ same. ground (arith, k, same))

-- What holds in the last bank, beside the banks before it.
pub last_or_before :
    {P : Type 0} (banks n : ℕ) → n < banks → (n ≡ banks - 1 → P) → (n < banks - 1) ⊎ P
last_or_before banks n banked h = elim (Bool-cases (n == banks - 1)) [
  | inl e ↦ inr (h ((==_iff n (banks - 1)).0 e))
  | inr e ↦ inl (ground (arith, e, banked))
]

read_part-IsPart :
    (banks : ℕ) (occupied : Cells) (a : PartArgument) {p : Part}
    → 0 < banks
    → read_part banks occupied a ≡ ok p
    → IsPart banks p × (meets p.block occupied ≡ false)
unfolding read_part
read_part-IsPart banks occupied foreign_part some_banks h = cc
read_part-IsPart banks occupied (part bank_value pc_value code_text starts_argument) {p} some_banks
      h =
    let (bank, e0, h0) = >>=-eq-ok (number 0 (banks - 1) bad_bank bank_value) _ h in
    let (pc, e1, h1) = >>=-eq-ok (number 0x8000 0xfff9 bad_bank pc_value) _ h0 in
    let (code, e2, h2) = >>=-eq-ok (hex_text 2048 bad_encoding code_text) _ h1 in
    let (u3, e3, h3) =
      >>=-eq-ok
        (raise_if
          (length code == 0
            || (ltb 8192 (pc % 8192 + length code) || ltb 0xfffa (pc + length code)))
          crosses_boundary)
        _ h2 in
    let (u4, e4, h4) =
      >>=-eq-ok (raise_if (bank == banks - 1 && ltb (pc % 8192) 256) overlaps_boot) _ h3 in
    let (starts, e5, h5) = >>=-eq-ok (part_starts starts_argument) _ h4 in
    let b : Block = record { bank = bank; offset = pc % 8192; content = code } in
    let (u6, e6, h6) = >>=-eq-ok (raise_if (meets b occupied) overlapping_code) _ h5 in
    let bank_range = (number-ok 0 (banks - 1) bad_bank bank_value e0).2 in
    let banked : bank < banks = omega (arith, bank_range, some_banks) in
    let (positive, in_bank, below, after) =
      part_tests pc (length code) bank banks crosses_boundary overlaps_boot e3 e4 in
    subst (λ (q : Part). IsPart banks q × (meets q.block occupied ≡ false)) (ok_injective h6)
      (
        record {
          banked = banked;
          some_code = positive;
          placed = refl;
          in_bank = in_bank;
          in_cartridge = ((number-ok 0x8000 0xfff9 bad_bank pc_value e1).1, below);
          after_boot = last_or_before banks bank banked after;
        },
        raise_if-ok (meets b occupied) overlapping_code e6,
      )

abbrev pub blocks : List Part → List Block
blocks [] = []
blocks (p ∷ ps) = p.block ∷ blocks ps

-- Blocks with some content, each apart from those seen before it.
abbrev pub ArePacked : List Block → List Block → Type 0
ArePacked seen [] = Unit
ArePacked seen (b ∷ rest) = All (AreSeparate b) seen × ArePacked (b ∷ seen) rest

abbrev pub IsFilled : Block → Type 0
IsFilled b = 0 < length b.content

pub AreSeparate-All :
    (b : Block) (cells : Cells) (seen : List Block)
    → IsFilled b
    → meets b cells ≡ false
    → All (λ c. Covers cells c × IsFilled c) seen
    → All (AreSeparate b) seen
AreSeparate-All b cells [] filled h all = tt
AreSeparate-All b cells (c ∷ seen) filled h (here, rest) =
    (meets-AreSeparate b c cells here.0 filled here.1 h, AreSeparate-All b cells seen filled h rest)

pub Covers-All :
    (b : Block) (cells : Cells) (seen : List Block)
    → All (λ c. Covers cells c × IsFilled c) seen
    → All (λ c. Covers (occupy b cells) c × IsFilled c) seen
Covers-All b cells [] all = tt
Covers-All b cells (c ∷ seen) (here, rest) =
    ((Covers-occupy b c cells here.0, here.1), Covers-All b cells seen rest)

-- What a loop over parts or patches leaves: blocks apart, all in the set of cells.
abbrev pub IsLaid : Cells → List Block → List Block → Cells → Type 0
IsLaid occupied seen bs cells =
    ArePacked seen bs
    × ((c : Block) → Covers occupied c → Covers cells c)
    × All (λ c. Covers cells c × IsFilled c) bs

pub occupy-IsLaid :
    (occupied cells : Cells) (seen bs : List Block) (b : Block)
    → All (λ c. Covers occupied c × IsFilled c) seen
    → IsFilled b
    → All (AreSeparate b) seen
    → IsLaid (occupy b occupied) (b ∷ seen) bs cells
    → IsLaid occupied seen (b ∷ bs) cells
occupy-IsLaid occupied cells seen bs b all filled separate (packed, grows, covered) = (
  (separate, packed),
  (λ c h. grows c (Covers-occupy b c occupied h)),
  ((grows b (Covers-occupy_self b occupied), filled), covered),
)

pub parts_loop-ArePacked :
    (banks : ℕ) (occupied : Cells) (seen : List Block) (l : List PartArgument)
    {r : List Part × Cells}
    → 0 < banks
    → All (λ c. Covers occupied c × IsFilled c) seen
    → parts_loop banks occupied l ≡ ok r
    → All (IsPart banks) r.0 × IsLaid occupied seen (blocks r.0) r.1
unfolding parts_loop
parts_loop-ArePacked banks occupied seen [] some_banks all h =
    subst
      (λ (r : List Part × Cells). All (IsPart banks) r.0 × IsLaid occupied seen (blocks r.0) r.1)
      (ok_injective h) (tt, (tt, (λ c k. k), tt))
parts_loop-ArePacked banks occupied seen (a ∷ l) some_banks all h =
    let (p, e0, h0) = >>=-eq-ok (read_part banks occupied a) _ h in
    let ((ps, cells), e1, h1) = >>=-eq-ok (parts_loop banks (occupy p.block occupied) l) _ h0 in
    let (is_part, apart) = read_part-IsPart banks occupied a some_banks e0 in
    let separate = AreSeparate-All p.block occupied seen is_part.some_code apart all in
    let (parts_ok, laid) =
      parts_loop-ArePacked banks (occupy p.block occupied) (p.block ∷ seen) l some_banks
        (
          (Covers-occupy_self p.block occupied, is_part.some_code),
          Covers-All p.block occupied seen all,
        )
        e1 in
    subst
      (λ (r : List Part × Cells). All (IsPart banks) r.0 × IsLaid occupied seen (blocks r.0) r.1)
      (ok_injective h1)
      (
        (is_part, parts_ok),
        occupy-IsLaid occupied cells seen (blocks ps) p.block all is_part.some_code separate laid,
      )
