-- ===== src/GuestCycles/Metadata.antt =====
-- `metadata` over the whole instruction table.
use nes2snes.Common.{ℕ, ◌≤◌, ◌≡◌, ◌≢◌, refl, Bool, true, false, ◌&&◌, none, some, arith}
use nes2snes.Common.{leb, ◌==◌, if◌then◌else◌, all_below, Result, ok, err}
use nes2snes.Opcodes.{Mnemonic, Op, ops}
use nes2snes.Opcodes.Facts.{each_op, each_op→true}
use nes2snes.GuestCycles.{CycleError, op_metadata, branch}

is_branch : Mnemonic → Bool
is_branch name = elim (branch name) [ some _ ↦ true | none ↦ false ]

-- The adjustment 4 is a branch's, with two cycles; an indexed read has two to five; the rest at most seven.
fits : Op → ℕ → ℕ → Bool
unfolding is_branch
fits op base adjustment =
    leb 2 base
    && leb adjustment 4
    && (if adjustment == 4
        then is_branch op.name && base == 2
        else if adjustment == 0
        then leb base 7
        else leb 4 base && leb base 5)

op_fits : ℕ → Op → Bool
op_fits k op = elim (op_metadata op) [
  | ok (base, adjustment) ↦ fits op base adjustment
  | err e ↦ false
]

metadata_table : all_below 256 (each_op op_fits) ≡ true
unfolding all_below each_op op_fits op_metadata fits ops
metadata_table = refl

op_fits→fits :
    (k : ℕ) (op : Op)
    → op_fits k op ≡ true
    → (base : ℕ) × (adjustment : ℕ) × (op_metadata op ≡ ok (base, adjustment))
      × (fits op base adjustment ≡ true)
unfolding op_fits
op_fits→fits k op h = go (op_metadata op) refl h
  where
    go :
        (m : Result CycleError (ℕ × ℕ))
        → op_metadata op ≡ m
        → (elim m [ ok (base, adjustment) ↦ fits op base adjustment | err e ↦ false ]) ≡ true
        → (base : ℕ) × (adjustment : ℕ) × (op_metadata op ≡ ok (base, adjustment))
          × (fits op base adjustment ≡ true)
    go (ok (base, adjustment)) e h = (base, adjustment, e, h)
    go (err e') e h = cc

metadata_fits :
    (k : ℕ) {op : Op}
    → ops k ≡ some op
    → (base : ℕ) × (adjustment : ℕ) × (op_metadata op ≡ ok (base, adjustment))
      × (fits op base adjustment ≡ true)
metadata_fits k {op} h = op_fits→fits k op (each_op→true op_fits k metadata_table h)

-- Every instruction of the table has a base cost of two to seven cycles and an adjustment class; a
-- branch has class 4 and two cycles, an indexed read classes 1 to 3 and four or five cycles. So
-- `metadata` reads none of its dictionaries at a missing key.
pub op_metadata-total :
    (k : ℕ) {op : Op}
    → ops k ≡ some op
    → (base : ℕ) × (adjustment : ℕ) × (op_metadata op ≡ ok (base, adjustment))
      × (2 ≤ base)
      × (base ≤ 7)
      × (adjustment ≤ 4)
      × (adjustment ≡ 4 → (base ≡ 2) × (branch op.name ≢ none))
      × (adjustment ≢ 4 → adjustment ≢ 0 → (4 ≤ base) × (base ≤ 5))
unfolding fits is_branch
op_metadata-total k {op} h =
    let (base, adjustment, e, f) = metadata_fits k h in
    (
      base,
      adjustment,
      e,
      ground arith,
      ground arith,
      ground arith,
      (λ four. ground arith),
      λ other nonzero. ground arith,
    )
