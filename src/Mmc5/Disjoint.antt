-- ===== src/Mmc5/Disjoint.antt =====
-- Blocks of bytes in the cartridge: what the tests on sets of cells show.
use nes2snes.Common.{
  ℕ, ◌+◌, ◌-◌, ◌≤◌, ◌<◌, ◌≡◌, ◌≢◌, ◌⊎◌, inl, inr, refl, arith, Bool-cases, true, false, not,
}
use nes2snes.Common.{
  length, ltb, leb, ◌==◌, all_below→true, all_below-every, lt→ltb, le→leb, ==_refl, ==_iff,
  not-true, not-false, ltb→le, ltb→lt, leb→le, ap₂,
}
use nes2snes.Mmc5.Body.{Block, Cells, meets, in_block, occupy}

-- Two blocks share no cell.
abbrev pub AreSeparate : Block → Block → Type 0
AreSeparate b c =
    (b.bank ≢ c.bank)
    ⊎ (b.offset + length b.content ≤ c.offset)
    ⊎ (c.offset + length c.content ≤ b.offset)

-- Every cell of a block is in a set.
abbrev pub Covers : Cells → Block → Type 0
Covers cells b = (i : ℕ) → i < length b.content → cells b.bank (b.offset + i) ≡ true

pub Covers-occupy : (b c : Block) (cells : Cells) → Covers cells c → Covers (occupy b cells) c
Covers-occupy b c cells h i lt = elim (Bool-cases (in_block b c.bank (c.offset + i))) [
  | inl e ↦ rw e refl
  | inr e ↦ rw e (h i lt)
]

pub Covers-occupy_self : (b : Block) (cells : Cells) → Covers (occupy b cells) b
unfolding in_block
Covers-occupy_self b cells i lt =
    rw
      (
        ==_refl b.bank,
        le→leb b.offset (b.offset + i) (omega arith),
        lt→ltb (b.offset + i) (b.offset + length b.content) (omega arith),
      )
      refl

-- A block that meets no cell of a set has none of its cells in the set.
pub meets-false :
    (b : Block) (cells : Cells) (i : ℕ)
    → meets b cells ≡ false
    → i < length b.content
    → cells b.bank (b.offset + i) ≡ false
unfolding meets
meets-false b cells i h lt = not-true _ (
    all_below→true (length b.content) (λ i. not (cells b.bank (b.offset + i))) i (not-false _ h) lt)

pub meets-none :
    (b : Block) (cells : Cells)
    → ((i : ℕ) → i < length b.content → cells b.bank (b.offset + i) ≡ false)
    → meets b cells ≡ false
unfolding meets
meets-none b cells h =
    rw
      (all_below-every (length b.content) (λ i. not (cells b.bank (b.offset + i)))
        (λ i lt. rw (h i lt) refl))
      refl

pub meets-AreSeparate :
    (b c : Block) (cells : Cells)
    → Covers cells c
    → 0 < length b.content
    → 0 < length c.content
    → meets b cells ≡ false
    → AreSeparate b c
meets-AreSeparate b c cells covers pb pc h = elim (Bool-cases (b.bank == c.bank)) [
  | inr e ↦ inl (λ same. absurd (ground (arith, e, same)))
  | inl e ↦ elim (Bool-cases (ltb c.offset (b.offset + length b.content))) [
    | inr before ↦ inr (inl (ltb→le c.offset (b.offset + length b.content) before))
    | inl left ↦ elim (Bool-cases (ltb b.offset (c.offset + length c.content))) [
      | inr after ↦ inr (inr (ltb→le b.offset (c.offset + length c.content) after))
      | inl right ↦ absurd (
          common ((==_iff b.bank c.bank).0 e) (ltb→lt c.offset (b.offset + length b.content) left)
            (ltb→lt b.offset (c.offset + length c.content) right))
    ]
  ]
]
  where
    clash :
        (i j : ℕ)
        → b.bank ≡ c.bank
        → i < length b.content
        → j < length c.content
        → b.offset + i ≡ c.offset + j
        → ⊥
    clash i j same lt_b lt_c place =
        let there = covers j lt_c in
        let missing = meets-false b cells i h lt_b in cc (ap₂ cells same place, there, missing)

    common :
        b.bank ≡ c.bank
        → c.offset < b.offset + length b.content
        → b.offset < c.offset + length c.content
        → ⊥
    common same left right = elim (Bool-cases (leb b.offset c.offset)) [
      | inl le ↦
          let low = leb→le b.offset c.offset le in
          clash (c.offset - b.offset) 0 same (omega arith) (omega arith) (omega arith)
      | inr gt ↦
          let high : c.offset < b.offset = ground (arith, gt) in
          clash 0 (b.offset - c.offset) same (omega arith) (omega arith) (omega arith)
    ]
