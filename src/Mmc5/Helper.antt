-- ===== src/Mmc5/Helper.antt =====
-- The region of the last bank that a PPU profile keeps for the boot helper, $F000 to $F1FF.
use nes2snes.Common.{
  ℕ, ◌+◌, ◌-◌, ◌≤◌, ◌<◌, ◌≡◌, ◌⊎◌, inl, inr, sym, ap₂, ◌∙◌, arith, Bool-cases, true, not, all_below,
  all_below→true, leb, leb→le, List, [], ◌∷◌, All, length,
}
use nes2snes.Mmc5.Body.{Block, Cells}
use nes2snes.Mmc5.Disjoint.{Covers}
use nes2snes.Mmc5.Parts.{IsFilled}

abbrev pub LeavesHelper : ℕ → Block → Type 0
LeavesHelper banks b =
    b.bank ≡ banks - 1 → (b.offset + length b.content ≤ 0x1000) ⊎ (0x1200 ≤ b.offset)

free-LeavesHelper :
    (banks : ℕ) (cells : Cells) (b : Block)
    → all_below 0x200 (λ i. not (cells (banks - 1) (0x1000 + i))) ≡ true
    → Covers cells b
    → IsFilled b
    → LeavesHelper banks b
free-LeavesHelper banks cells b free covers filled last =
    elim (Bool-cases (leb (b.offset + length b.content) 0x1000)) [
      | inl before ↦ inl (leb→le (b.offset + length b.content) 0x1000 before)
      | inr past ↦ elim (Bool-cases (leb 0x1200 b.offset)) [
        | inl after ↦ inr (leb→le 0x1200 b.offset after)
        | inr low ↦
            let in_helper = b.offset - 0x1000 in
            let in_block = 0x1000 - b.offset in
            let within : in_helper < 0x200 = ground (arith, low) in
            let there : in_block < length b.content = ground (arith, past, filled) in
            let clear : not (cells (banks - 1) (0x1000 + in_helper)) ≡ true =
              all_below→true 0x200 (λ i. not (cells (banks - 1) (0x1000 + i))) in_helper free
                within in
            let place : b.offset + in_block ≡ 0x1000 + in_helper = omega arith in
            let taken : cells (banks - 1) (0x1000 + in_helper) ≡ true =
              sym (ap₂ cells last place) ∙ covers in_block there in
            let never = rw taken at clear in cc
      ]
    ]

pub free-All :
    (banks : ℕ) (cells : Cells) (bs : List Block)
    → all_below 0x200 (λ i. not (cells (banks - 1) (0x1000 + i))) ≡ true
    → All (λ c. Covers cells c × IsFilled c) bs
    → All (LeavesHelper banks) bs
free-All banks cells [] free h = tt
free-All banks cells (b ∷ bs) free ((covers, filled), rest) =
    (free-LeavesHelper banks cells b free covers filled, free-All banks cells bs free rest)

pub wider-All :
    (cells more : Cells) (bs : List Block)
    → ((c : Block) → Covers cells c → Covers more c)
    → All (λ c. Covers cells c × IsFilled c) bs
    → All (λ c. Covers more c × IsFilled c) bs
wider-All cells more [] wider h = tt
wider-All cells more (b ∷ bs) wider ((covers, filled), rest) =
    ((wider b covers, filled), wider-All cells more bs wider rest)
