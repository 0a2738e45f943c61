-- ===== src/Timeline/Listing.antt =====
-- The rows of a program: how they lie in its bytes, and that the reading loop finds just these.
use nes2snes.Opcodes.Facts.{op_size-pos}
use nes2snes.Common.{
  ℕ, zero, suc, ◌+◌, ◌-◌, ◌≤◌, ◌≡◌, refl, sym, ap, ◌∙◌, subst, arith, Option-cases, inl, inr,
}
use nes2snes.Common.{true, not, some, ==_refl, ==_iff, take-append-drop, drop-append, length-append}
use nes2snes.Common.{List, [], ◌∷◌, ◌++◌, length, take, drop, Bytes, from_bytes}
use nes2snes.Common.{ok, >>=-eq-ok, ok_injective, raise_if, raise_if-not-ok, ◌==◌}
use nes2snes.Common.Slices.{take-append_eq, take-pos}
use nes2snes.Opcodes.{Op, ops}
use nes2snes.Timeline.Allowed.{Gates, allowed}
use nes2snes.Timeline.Decode.{
  truncated, outside_contract, Row, raw_operand, read_op, next_row, rows_loop,
}

-- A row is an instruction of the table that the gates let in, with its raw bytes.
pub record IsRow (g : Gates) (r : Row) : Type 0 where
  pub opcode : ℕ
  pub tail : Bytes
  pub op : Op
  pub raw_bytes : r.raw ≡ opcode ∷ tail
  pub documented : ops opcode ≡ some op
  pub named : (r.name ≡ op.name) × (r.mode ≡ op.mode)
  pub sized : length r.raw ≡ op.size
  pub valued : r.operand ≡ from_bytes tail
  pub admitted : allowed g r.name r.mode r.operand ≡ true

-- Rows one after another from an address.
abbrev pub Follow : Gates → ℕ → List Row → Type 0
Follow g pc [] = Unit
Follow g pc (r ∷ rows) = (r.pc ≡ pc) × IsRow g r × Follow g (pc + length r.raw) rows

unfoldable pub raw_code : List Row → Bytes
raw_code [] = []
raw_code (r ∷ rows) = r.raw ++ raw_code rows

row_of : ℕ → Op → Bytes → Row
row_of pc op raw = record {
  pc = pc;
  name = op.name;
  mode = op.mode;
  raw = raw;
  operand = raw_operand raw;
}

read_op-ok :
    (g : Gates) (pc : ℕ) (op : Op) (left : Bytes) {r : Row}
    → read_op g pc op left ≡ ok r
    → (length (take op.size left) ≡ op.size)
      × (allowed g op.name op.mode (raw_operand (take op.size left)) ≡ true)
      × (row_of pc op (take op.size left) ≡ r)
unfolding read_op row_of
read_op-ok g pc op left h =
    let raw = take op.size left in
    let (u0, e0, h0) = >>=-eq-ok (raise_if (not (length raw == op.size)) truncated) _ h in
    let (u1, e1, h1) =
      >>=-eq-ok (raise_if (not (allowed g op.name op.mode (raw_operand raw))) outside_contract) _
        h0 in
    (
      (==_iff (length raw) op.size).0 (raise_if-not-ok (length raw == op.size) truncated e0),
      raise_if-not-ok (allowed g op.name op.mode (raw_operand raw)) outside_contract e1,
      ok_injective h1,
    )

next_row-IsRow :
    (g : Gates) (pc b : ℕ) (rest : Bytes) {r : Row}
    → next_row g pc b (b ∷ rest) ≡ ok r
    → (r.pc ≡ pc) × IsRow g r × (r.raw ++ drop (length r.raw) (b ∷ rest) ≡ b ∷ rest)
unfolding next_row row_of
next_row-IsRow g pc b rest {r} h = elim (Option-cases (ops b)) [
  | inl bad ↦ absurd (ground (arith, h, bad))
  | inr (op, e) ↦ found op e (read_op-ok g pc op (b ∷ rest) (rw (e, next_row) at h))
]
  where
    found :
        (op : Op)
        → ops b ≡ some op
        → (length (take op.size (b ∷ rest)) ≡ op.size)
          × (allowed g op.name op.mode (raw_operand (take op.size (b ∷ rest))) ≡ true)
          × (row_of pc op (take op.size (b ∷ rest)) ≡ r)
        → (r.pc ≡ pc) × IsRow g r × (r.raw ++ drop (length r.raw) (b ∷ rest) ≡ b ∷ rest)
    found op e f =
        let raw = take op.size (b ∷ rest) in
        let first = take-pos op.size b rest (op_size-pos b e) in
        subst
          (λ (x : Row).
            (x.pc ≡ pc) × IsRow g x × (x.raw ++ drop (length x.raw) (b ∷ rest) ≡ b ∷ rest))
          f.2
          (
            refl,
            record {
              opcode = b;
              tail = take (op.size - 1) rest;
              op = op;
              raw_bytes = first;
              documented = e;
              named = (refl, refl);
              sized = f.0;
              valued = ap (λ (t : Bytes). raw_operand t) first;
              admitted = f.1;
            },
            ap (λ (k : ℕ). raw ++ drop k (b ∷ rest)) f.0 ∙ take-append-drop op.size (b ∷ rest),
          )

pub loop-Follow :
    (fuel : ℕ) (g : Gates) (pc : ℕ) (code : Bytes) {rows : List Row}
    → rows_loop fuel g pc code ≡ ok rows
    → (raw_code rows ≡ code) × Follow g pc rows
unfolding rows_loop raw_code
loop-Follow zero g pc [] h =
    subst (λ (l : List Row). (raw_code l ≡ []) × Follow g pc l) (ok_injective h) (refl, tt)
loop-Follow (suc fuel) g pc [] h =
    subst (λ (l : List Row). (raw_code l ≡ []) × Follow g pc l) (ok_injective h) (refl, tt)
loop-Follow zero g pc (b ∷ rest) h = cc
loop-Follow (suc fuel) g pc (b ∷ rest) h =
    let (r, e0, h0) = >>=-eq-ok (next_row g pc b (b ∷ rest)) _ h in
    let (rows, e1, h1) =
      >>=-eq-ok (rows_loop fuel g (pc + length r.raw) (drop (length r.raw) (b ∷ rest))) _ h0 in
    let (at_pc, is_row, whole) = next_row-IsRow g pc b rest e0 in
    let (later, follow) =
      loop-Follow fuel g (pc + length r.raw) (drop (length r.raw) (b ∷ rest)) e1 in
    subst (λ (l : List Row). (raw_code l ≡ b ∷ rest) × Follow g pc l) (ok_injective h1)
      (ap (λ (t : Bytes). r.raw ++ t) later ∙ whole, (at_pc, is_row, follow))

-- The row that the loop reads where the bytes of a row stand.
read_op-IsRow :
    (g : Gates) (pc : ℕ) (op : Op) (raw left : Bytes)
    → take op.size left ≡ raw
    → length raw ≡ op.size
    → allowed g op.name op.mode (raw_operand raw) ≡ true
    → read_op g pc op left ≡ ok (row_of pc op raw)
unfolding read_op row_of
read_op-IsRow g pc op raw left e sized admitted = rw (e, sized, ==_refl op.size, admitted) refl

row_of-eq :
    (r : Row) (pc : ℕ) (op : Op) (raw : Bytes)
    → r.pc ≡ pc
    → r.name ≡ op.name
    → r.mode ≡ op.mode
    → r.raw ≡ raw
    → r.operand ≡ raw_operand raw
    → row_of pc op raw ≡ r
unfolding row_of
row_of-eq r pc op raw e0 e1 e2 e3 e4 = λ i. record {
  pc = sym e0 i;
  name = sym e1 i;
  mode = sym e2 i;
  raw = sym e3 i;
  operand = sym e4 i;
}

next_row-raw :
    (g : Gates) (pc : ℕ) (r : Row) (more : Bytes) (w : IsRow g r)
    → r.pc ≡ pc
    → next_row g pc w.opcode (w.opcode ∷ (w.tail ++ more)) ≡ ok r
unfolding next_row
next_row-raw g pc r more w e =
    let raw = w.opcode ∷ w.tail in
    let sized : length raw ≡ w.op.size = sym (ap (λ (t : Bytes). length t) w.raw_bytes) ∙ w.sized in
    let valued : r.operand ≡ raw_operand raw = w.valued in
    rw (w.documented, next_row)
      (read_op-IsRow g pc w.op raw (raw ++ more) (take-append_eq w.op.size raw more sized) sized
          (rw (← w.named.0, ← w.named.1, ← valued) w.admitted)
        ∙ ap ok (row_of-eq r pc w.op raw e w.named.0 w.named.1 w.raw_bytes valued))

rows_loop-next :
    (fuel : ℕ) (g : Gates) (pc b : ℕ) (rest more : Bytes) (r : Row) (rows : List Row)
    → next_row g pc b (b ∷ rest) ≡ ok r
    → drop (length r.raw) (b ∷ rest) ≡ more
    → rows_loop fuel g (pc + length r.raw) more ≡ ok rows
    → rows_loop (suc fuel) g pc (b ∷ rest) ≡ ok (r ∷ rows)
unfolding rows_loop
rows_loop-next fuel g pc b rest more r rows e0 e1 e2 = rw (e0, e1, e2) refl

rows_loop-nil : (fuel : ℕ) (g : Gates) (pc : ℕ) → rows_loop fuel g pc [] ≡ ok []
unfolding rows_loop
rows_loop-nil zero g pc = refl
rows_loop-nil (suc fuel) g pc = refl

pub loop_complete :
    (fuel : ℕ) (g : Gates) (pc : ℕ) (rows : List Row)
    → Follow g pc rows
    → length (raw_code rows) ≤ fuel
    → rows_loop fuel g pc (raw_code rows) ≡ ok rows
unfolding raw_code
loop_complete zero g pc [] f h = rows_loop-nil zero g pc
loop_complete (suc fuel) g pc [] f h = rows_loop-nil (suc fuel) g pc
loop_complete zero g pc (r ∷ rows) f h =
    absurd (omega (arith, total, f.1.sized, op_size-pos f.1.opcode f.1.documented))
  where
    total : length (r.raw ++ raw_code rows) ≡ length r.raw + length (raw_code rows)
    total = length-append r.raw (raw_code rows)
loop_complete (suc fuel) g pc (r ∷ rows) (at_pc, w, follow) h =
    let more = raw_code rows in
    let split : r.raw ++ more ≡ w.opcode ∷ (w.tail ++ more) =
      ap (λ (t : Bytes). t ++ more) w.raw_bytes in
    let total = length-append r.raw more in
    let positive = op_size-pos w.opcode w.documented in
    let later =
      loop_complete fuel g (pc + length r.raw) rows follow
        (omega (arith, total, w.sized, positive)) in
    subst (λ (t : Bytes). rows_loop (suc fuel) g pc t ≡ ok (r ∷ rows)) (sym split)
      (rows_loop-next fuel g pc w.opcode (w.tail ++ more) more r rows
        (next_row-raw g pc r more w at_pc)
        (subst (λ (t : Bytes). drop (length r.raw) t ≡ more) split (drop-append r.raw more)) later)
