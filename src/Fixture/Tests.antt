-- ===== src/Fixture/Tests.antt =====
-- A program with a load from a label, a branch back and a record.
use nes2snes.Common.{
  bytes_eq, ℕ, ◌≡◌, inl, inr, refl, arith, List, [], ◌∷◌, All, length, get_or, ok, err, Bytes, pos,
  negsuc,
}
use nes2snes.Opcodes.{lda, bne, abs, rel, zp, acc, mode_length}
use nes2snes.Fixture.{
  find_label, duplicate_label, no_instruction, no_label, no_fit, out_of_range, Name, number, named,
  Fixup, Program, create, add_label, op, add_record, finish,
}
use nes2snes.Fixture.Places.{IsOutside}
use nes2snes.Fixture.Patches.{IsResolved, LeadsTo}
use nes2snes.Fixture.Built.{Built, created, labelled, operated, recorded, finish-LeadsTo}

abbrev a_name : Name
a_name = 97 ∷ []

abbrev d_name : Name
d_name = 100 ∷ []

abbrev with_a : Program
with_a = record {
  origin = 0xe100;
  data_bytes = [];
  starts = [];
  labels = (a_name, 0xe100) ∷ [];
  fixups = [];
  results = [];
  cursor = 0x300;
}

abbrev loaded : Program
loaded = record with_a {
  data_bytes = 0xad ∷ 0 ∷ 0 ∷ [];
  starts = 0xe100 ∷ [];
  fixups = record { off = 1; mode = abs; label = d_name } ∷ [];
}

abbrev two_fixups : List Fixup
two_fixups =
    record { off = 1; mode = abs; label = d_name }
    ∷ record { off = 4; mode = rel; label = a_name }
    ∷ []

abbrev branched : Program
branched = record loaded {
  data_bytes = 0xad ∷ 0 ∷ 0 ∷ 0xd0 ∷ 0 ∷ [];
  starts = 0xe100 ∷ 0xe103 ∷ [];
  fixups = two_fixups;
}

abbrev with_d : Program
with_d = record branched { labels = (a_name, 0xe100) ∷ (d_name, 0xe105) ∷ [] }

abbrev stored : Bytes
stored = 0x8d ∷ 0 ∷ 3 ∷ 0x8e ∷ 1 ∷ 3 ∷ 0x8c ∷ 2 ∷ 3 ∷ 0x08 ∷ 0x68 ∷ 0x29 ∷ 0xc3 ∷ 0x8d ∷ 3 ∷ 3 ∷ []

abbrev whole : Program
whole = record with_d {
  data_bytes = 0xad ∷ 0 ∷ 0 ∷ 0xd0 ∷ 0 ∷ stored;
  starts = 0xe100 ∷ 0xe103 ∷ 0xe105 ∷ 0xe108 ∷ 0xe10b ∷ 0xe10e ∷ 0xe10f ∷ 0xe110 ∷ 0xe112 ∷ [];
  results = (a_name, 0x300) ∷ [];
  cursor = 0x304;
}

calls :
    (add_label (create 0xe100) a_name ≡ ok with_a)
    × (op with_a lda abs (named d_name) ≡ ok loaded)
    × (op loaded bne rel (named a_name) ≡ ok branched)
    × (add_label branched d_name ≡ ok with_d)
    × (add_record with_d a_name ≡ ok whole)
unfolding create add_label op add_record bytes_eq
calls = (refl, refl, refl, refl, refl)

finished : finish whole ≡ ok (0xad ∷ 5 ∷ 0xe1 ∷ 0xd0 ∷ 0xfb ∷ stored)
unfolding finish bytes_eq
finished = refl

refused :
    (add_label with_a a_name ≡ err duplicate_label)
    × (op with_a lda acc (number (pos 0)) ≡ err no_instruction)
    × (op with_a lda zp (number (pos 256)) ≡ err no_fit)
    × (op with_a lda zp (number (negsuc 0)) ≡ err no_fit)
    × (finish branched ≡ err no_label)
    × (finish (record whole { labels = (a_name, 0xe084) ∷ (d_name, 0xe105) ∷ [] })
        ≡ err out_of_range)
unfolding add_label op finish bytes_eq
refused = (refl, refl, refl, refl, refl, refl)

whole-Built : Built whole
whole-Built =
    let (c1, c2, c3, c4, c5) = calls in
    recorded a_name
      (labelled d_name
        (operated bne rel (named a_name)
          (operated lda abs (named d_name) (labelled a_name (created 0xe100) c1) c2) c3)
        c4)
      c5

whole-IsResolved : All (IsResolved 0xe100 whole.labels) two_fixups
unfolding find_label bytes_eq
whole-IsResolved = (
  (0xe105, refl, (λ relative. ground arith), λ absolute. omega arith),
  (
    (0xe100, refl, (λ relative. (omega arith, omega arith)), λ absolute. absurd (absolute refl)),
    tt,
  ),
)

finish-LeadsTo_example :
    (out : Bytes) × (finish whole ≡ ok out)
    × (length out ≡ 21)
    × All (LeadsTo 0xe100 whole.labels out) two_fixups
    × ((i : ℕ) → All (IsOutside i) two_fixups → get_or out i 0 ≡ get_or whole.data_bytes i 0)
unfolding mode_length
finish-LeadsTo_example =
    finish-LeadsTo whole whole-Built (inr refl, (inl refl, tt)) whole-IsResolved
