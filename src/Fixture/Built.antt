-- ===== src/Fixture/Built.antt =====
-- The programs that the methods build, and what `finish` makes of one.
use nes2snes.Common.{
  ℕ, ◌+◌, ◌-◌, ◌^◌, ◌≡◌, sym, ap, ◌∙◌, subst, arith, Bool-cases, ltb, ◌==◌, ==_iff, Option-cases,
  inl, inr, List, [], ◌∷◌, ◌++◌, All, length, length-append, length-to_bytes, get_or,
}
use nes2snes.Common.{ok, raise_if, >>=-eq-ok, ok_injective, Bytes, ℤ, pos, negsuc}
use nes2snes.Opcodes.{Mnemonic, Mode, mode_length}
use nes2snes.Opcodes.Encode.{encode}
use nes2snes.Fixture.{
  too_many_records, Name, Operand, number, named, Fixup, Program, create, find_label, add_label,
  operand_bytes, emit, operate, op, op_each, record_calls, add_record, finish,
}
use nes2snes.Fixture.Places.{IsPlaced, IsOutside, IsPlaced-higher, IsPlaced-append}
use nes2snes.Fixture.Patches.{HasRoom, IsResolved, LeadsTo, patch_all_lem}

-- A program made by the methods, each called on what the one before left.
pub data Built : Program → Type 0 where
  created : (origin : ℕ) → Built (create origin)
  labelled : {p q : Program} (name : Name) → Built p → add_label p name ≡ ok q → Built q
  operated :
      {p q : Program} (name : Mnemonic) (mode : Mode) (value : Operand)
      → Built p
      → op p name mode value ≡ ok q
      → Built q
  recorded : {p q : Program} (label : Name) → Built p → add_record p label ≡ ok q → Built q

-- The fixups stand in order within the bytes.
abbrev pub IsLaid : Program → Type 0
IsLaid p = IsPlaced 0 p.fixups (length p.data_bytes)

operand_bytes-length :
    (size : ℕ) (n : ℤ) {bs : Bytes} → operand_bytes size n ≡ ok bs → length bs ≡ size
unfolding operand_bytes
operand_bytes-length size (pos n) h = elim (Bool-cases (size == 0)) [
  | inl zero_size ↦
      let e = rw zero_size at h in
      ap length (sym (ok_injective e)) ∙ sym ((==_iff size 0).0 zero_size)
  | inr more ↦ elim (Bool-cases (ltb n (256 ^ size))) [
    | inl fits ↦
        let e = rw (more, fits) at h in ap length (sym (ok_injective e)) ∙ length-to_bytes size n
    | inr over ↦ let never = rw (more, over) at h in cc
  ]
]
operand_bytes-length size (negsuc n) h = elim (Bool-cases (size == 0)) [
  | inl zero_size ↦
      let e = rw zero_size at h in
      ap length (sym (ok_injective e)) ∙ sym ((==_iff size 0).0 zero_size)
  | inr more ↦ let never = rw more at h in cc
]

operate-IsLaid :
    (p : Program) (code : ℕ) (mode : Mode) (value : Operand) {q : Program}
    → operate p code mode value ≡ ok q
    → IsLaid p
    → IsLaid q
unfolding operate emit
operate-IsLaid p code mode (number n) {q} h laid =
    let (operand, e, h1) = >>=-eq-ok (operand_bytes (mode_length mode - 1) n) _ h in
    subst IsLaid (ok_injective h1) (
      IsPlaced-higher 0 p.fixups (length p.data_bytes) (length (p.data_bytes ++ (code ∷ operand)))
        (omega (arith, length-append p.data_bytes (code ∷ operand))) laid)
operate-IsLaid p code mode (named name) {q} h laid =
    let (operand, e, h1) = >>=-eq-ok (operand_bytes (mode_length mode - 1) (pos 0)) _ h in
    let f : Fixup = record { off = length p.data_bytes + 1; mode = mode; label = name } in
    subst IsLaid (ok_injective h1) (
      IsPlaced-append 0 p.fixups f (length (p.data_bytes ++ (code ∷ operand)))
        (IsPlaced-higher 0 p.fixups (length p.data_bytes) (length p.data_bytes + 1) (omega arith)
          laid)
        (omega (
          arith,
          length-append p.data_bytes (code ∷ operand),
          operand_bytes-length (mode_length mode - 1) (pos 0) e,
        )))

op-IsLaid :
    (p : Program) (name : Mnemonic) (mode : Mode) (value : Operand) {q : Program}
    → op p name mode value ≡ ok q
    → IsLaid p
    → IsLaid q
unfolding op
op-IsLaid p name mode value {q} h laid = elim (Bool-cases (encode name mode == 256)) [
  | inl unknown ↦ let never = rw unknown at h in cc
  | inr known ↦ let done = rw known at h in operate-IsLaid p (encode name mode) mode value done laid
]

add_label-IsLaid :
    (p : Program) (name : Name) {q : Program} → add_label p name ≡ ok q → IsLaid p → IsLaid q
unfolding add_label
add_label-IsLaid p name {q} h laid = elim (Option-cases (find_label p.labels name)) [
  | inl e ↦ let done = rw (add_label, e) at h in subst IsLaid (ok_injective done) laid
  | inr (address, e) ↦ let never = rw (add_label, e) at h in cc
]

op_each-IsLaid :
    (p : Program) (calls : List (Mnemonic × Mode × Operand)) {q : Program}
    → op_each p calls ≡ ok q
    → IsLaid p
    → IsLaid q
unfolding op_each
op_each-IsLaid p [] h laid = subst IsLaid (ok_injective h) laid
op_each-IsLaid p ((name, mode, value) ∷ rest) h laid =
    let (next, e, h1) = >>=-eq-ok (op p name mode value) _ h in
    op_each-IsLaid next rest h1 (op-IsLaid p name mode value e laid)

add_record-IsLaid :
    (p : Program) (label : Name) {q : Program} → add_record p label ≡ ok q → IsLaid p → IsLaid q
unfolding add_record
add_record-IsLaid p label {q} h laid =
    let begun : Program = record p { results = p.results ++ ((label, p.cursor) ∷ []) } in
    let (u, e, h1) = >>=-eq-ok (raise_if (ltb 0x780 (p.cursor + 4)) too_many_records) _ h in
    let (written, e1, h2) = >>=-eq-ok (op_each begun (record_calls p.cursor)) _ h1 in
    subst IsLaid (ok_injective h2) (op_each-IsLaid begun (record_calls p.cursor) e1 laid)

Built-IsLaid : {p : Program} → Built p → IsLaid p
unfolding create
Built-IsLaid (created origin) = omega arith
Built-IsLaid (labelled {p} {q} name built e) = add_label-IsLaid p name e (Built-IsLaid built)
Built-IsLaid (operated {p} {q} name mode value built e) =
    op-IsLaid p name mode value e (Built-IsLaid built)
Built-IsLaid (recorded {p} {q} label built e) = add_record-IsLaid p label e (Built-IsLaid built)

-- A program built by the methods, of whose named operands each is a branch's or has two bytes and
-- names a label that it can reach: `finish` returns as many bytes as there are data, every branch to a
-- label leads there, every other operand is its label's address, and no other byte changes.
pub finish-LeadsTo :
    (p : Program)
    → Built p
    → All HasRoom p.fixups
    → All (IsResolved p.origin p.labels) p.fixups
    → (out : Bytes) × (finish p ≡ ok out)
      × (length out ≡ length p.data_bytes)
      × All (LeadsTo p.origin p.labels out) p.fixups
      × ((i : ℕ) → All (IsOutside i) p.fixups → get_or out i 0 ≡ get_or p.data_bytes i 0)
unfolding finish
finish-LeadsTo p built room resolved =
    patch_all_lem p.origin p.labels 0 p.fixups p.data_bytes (Built-IsLaid built) room resolved
