-- ===== src/NativeSafe/Splice.antt =====
-- What `apply` changes: same-size replacements at proven sites, and nothing else.
use nes2snes.Common.{ℕ, ◌+◌, ◌-◌, ◌≤◌, ◌<◌, ◌≡◌, refl, none, some, arith, ap, ◌∙◌, sym}
use nes2snes.Common.{Bool-cases, ok, inl, inr, ◌⊎◌, ==_iff}
use nes2snes.Common.{List, [], ◌∷◌, All, length, get_or, Bytes, Result-cases}
use nes2snes.Common.{subst, to_bytes, ok_injective, length-to_bytes, ◌==◌}
use nes2snes.Common.Slices.{length-splice, get_or-splice_outside, get_or-splice_inside}
use nes2snes.NativeSafe.Operand.{IsWrittenAt, written-get_or}
use nes2snes.NativeSafe.{Proven, examine, rewrite, apply_loop, apply}
use nes2snes.NativeSafe.Sites.{
  op_bytes, Fits, IsProven, IsLeft, IsApart, AreWritten, Outside, examine-IsProven, examine-IsLeft,
}

abbrev new_bytes : Proven → ℕ → Bytes
new_bytes p size = p.opcode ∷ to_bytes (size - 1) p.native_operand

length-rewrite :
    (prg out : Bytes) (p : Proven) (size : ℕ)
    → p.prg_offset + size ≤ length out
    → 0 < size
    → length (rewrite out p size) ≡ length out
unfolding rewrite
length-rewrite prg out p size fits positive =
    length-splice out p.prg_offset size (new_bytes p size) fits
      (omega (arith, length-to_bytes (size - 1) p.native_operand))

get_or-rewrite :
    (out : Bytes) (p : Proven) (size i : ℕ)
    → p.prg_offset + size ≤ length out
    → 0 < size
    → (i < p.prg_offset) ⊎ (p.prg_offset + size ≤ i)
    → get_or (rewrite out p size) i 0 ≡ get_or out i 0
unfolding rewrite
get_or-rewrite out p size i fits positive away =
    get_or-splice_outside out p.prg_offset size (new_bytes p size) i 0 fits
      (omega (arith, length-to_bytes (size - 1) p.native_operand)) away

-- What a rewrite puts at its site, as long as later ones keep it.
rewrite-IsWrittenAt :
    (out end : Bytes) (p : Proven) (size : ℕ)
    → p.prg_offset + size ≤ length out
    → 0 < size
    → ((i : ℕ)
        → p.prg_offset ≤ i
        → i < p.prg_offset + size
        → get_or end i 0 ≡ get_or (rewrite out p size) i 0)
    → IsWrittenAt end p.prg_offset size p.opcode p.native_operand
unfolding rewrite
rewrite-IsWrittenAt out end p size fits positive keep =
    let new = new_bytes p size in
    let sized : length new ≡ size = omega (arith, length-to_bytes (size - 1) p.native_operand) in
    let here : ((j : ℕ) → j < size → get_or end (p.prg_offset + j) 0 ≡ get_or new j 0) = (λ j lt.
      keep (p.prg_offset + j) (omega arith) (omega (arith, lt))
      ∙ get_or-splice_inside out p.prg_offset size new (p.prg_offset + j) j 0 fits sized lt refl) in
    let (two, three) = written-get_or p.native_operand size in
    (
      ap (λ (i : ℕ). get_or end i 0) (omega arith) ∙ here 0 positive,
      λ e. here 1 (omega (arith, e)) ∙ two e,
      λ e. (here 1 (omega (arith, e)) ∙ (three e).0, here 2 (omega (arith, e)) ∙ (three e).1),
    )

IsApart-Outside :
    (p : Proven) (ps : List Proven) (i : ℕ)
    → p.prg_offset ≤ i
    → i < p.prg_offset + op_bytes p.opcode
    → All (IsApart p) ps
    → All (Outside i) ps
unfolding Outside
IsApart-Outside p [] i low high h = tt
IsApart-Outside p (q ∷ ps) i low high (first, rest) = (
  elim first [
    | inl before ↦ inl (omega (arith, high, before))
    | inr after ↦ inr (omega (arith, low, after))
  ],
  IsApart-Outside p ps i low high rest,
)

module _ {Site : Type 0} (prg_offset : Site → ℕ) (prg code : Bytes) where
  -- The sites in their order, each either proven or left over.
  pub data AreSorted : List Site → List Proven → List Site → Type 0 where
    none_left : AreSorted [] [] []
    taken :
        {site : Site} {p : Proven} {sites : List Site} {ps : List Proven} {rest : List Site}
        → p.prg_offset ≡ prg_offset site
        → IsProven prg code p
        → AreSorted sites ps rest
        → AreSorted (site ∷ sites) (p ∷ ps) rest
    left :
        {site : Site} {sites : List Site} {ps : List Proven} {rest : List Site}
        → IsLeft prg (prg_offset site)
        → AreSorted sites ps rest
        → AreSorted (site ∷ sites) ps (site ∷ rest)

  -- The size is kept, other bytes are kept, every site is accounted for, every change is proven and
  -- made.
  pub record IsRewritten (sites : List Site) (out : Bytes) (r : Bytes × List Proven × List Site)
      : Type 0 where
    pub sized : length r.0 ≡ length out
    pub kept : (i : ℕ) → All (Outside i) r.1 → get_or r.0 i 0 ≡ get_or out i 0
    pub counted : length r.1 + length r.2 ≡ length sites
    pub proved : All (IsProven prg code) r.1
    pub sorted : AreSorted sites r.1 r.2
    pub written : AreWritten r.0 r.1

  skip-IsRewritten :
      (site : Site) (sites : List Site) (out end : Bytes) (proven : List Proven)
      (remaining : List Site)
      → IsLeft prg (prg_offset site)
      → IsRewritten sites out (end, proven, remaining)
      → IsRewritten (site ∷ sites) out (end, proven, site ∷ remaining)
  skip-IsRewritten site sites out end proven remaining unsafe w = record {
    sized = w.sized;
    kept = w.kept;
    counted = omega (arith, w.counted);
    proved = w.proved;
    sorted = left unsafe w.sorted;
    written = w.written;
  }

  change-IsRewritten :
      (site : Site) (sites : List Site) (out end : Bytes) (p : Proven) (size : ℕ)
      (proven : List Proven) (remaining : List Site)
      → p.prg_offset + size ≤ length out
      → 0 < size
      → p.prg_offset ≡ prg_offset site
      → op_bytes p.opcode ≡ size
      → IsProven prg code p
      → IsRewritten sites (rewrite out p size) (end, proven, remaining)
      → IsRewritten (site ∷ sites) out (end, p ∷ proven, remaining)
  unfolding Outside
  change-IsRewritten site sites out end p size proven remaining fits positive place sized is_proven
        w =
      record {
        sized = w.sized ∙ length-rewrite prg out p size fits positive;
        kept = λ i outside.
            w.kept i outside.1 ∙ get_or-rewrite out p size i fits positive (rw sized at outside.0);
        counted = omega (arith, w.counted);
        proved = (is_proven, w.proved);
        sorted = taken place is_proven w.sorted;
        written = (
          (λ apart. rw sized (
              rewrite-IsWrittenAt out end p size fits positive (λ i low high.
                w.kept i (IsApart-Outside p proven i low (omega (arith, high, sized)) apart)))),
          w.written,
        );
      }

  loop-IsRewritten :
      (sites : List Site) (out : Bytes) {r : Bytes × List Proven × List Site}
      → All (λ s. Fits prg (prg_offset s)) sites
      → length out ≡ length prg
      → apply_loop prg_offset prg code sites out ≡ ok r
      → IsRewritten sites out r
  unfolding apply_loop Fits
  loop-IsRewritten [] out fits same h = subst (IsRewritten [] out) (ok_injective h) (record {
    sized = refl;
    kept = λ i away. refl;
    counted = refl;
    proved = tt;
    sorted = none_left;
    written = tt;
  })
  loop-IsRewritten (site ∷ sites) out fits same h =
      elim (Result-cases (examine prg code (prg_offset site))) [
        | inr (e, bad) ↦ absurd (ground (arith, h, bad))
        | inl (none, found) ↦ elim (Result-cases (apply_loop prg_offset prg code sites out)) [
          | inr (e, bad) ↦ absurd (ground (arith, h, found, bad))
          | inl ((end, proven, remaining), run) ↦
              subst (IsRewritten (site ∷ sites) out) (ground (arith, h, found, run)) (
                skip-IsRewritten site sites out end proven remaining
                  (examine-IsLeft prg code (prg_offset site) found)
                  (loop-IsRewritten sites out fits.1 same run))
        ]
        | inl (some (p, size), found) ↦
            let (at_site, sized, positive, is_proven) =
              examine-IsProven prg code (prg_offset site) p size found in
            let within = room p size (prg_offset site) at_site sized is_proven fits.0 same in
            elim (Result-cases (apply_loop prg_offset prg code sites (rewrite out p size))) [
              | inr (e, bad) ↦ absurd (ground (arith, h, found, bad))
              | inl ((end, proven, remaining), run) ↦
                  subst (IsRewritten (site ∷ sites) out) (ground (arith, h, found, run)) (
                    change-IsRewritten site sites out end p size proven remaining within positive
                      at_site sized is_proven
                      (loop-IsRewritten sites (rewrite out p size) fits.1
                        (length-rewrite prg out p size within positive ∙ same) run))
            ]
      ]
    where
      room :
          (p : Proven) (size offset : ℕ)
          → p.prg_offset ≡ offset
          → op_bytes p.opcode ≡ size
          → IsProven prg code p
          → Fits prg offset
          → length out ≡ length prg
          → p.prg_offset + size ≤ length out
      room p size offset e sized is_proven here same =
          omega (arith, here p.opcode (rw (sym e) is_proven.original))

-- Where every documented instruction at a site lies within the program: a run that returns keeps
-- the program's size and every byte outside the proven sites, and sorts the sites in their order
-- into proven and remaining ones. At a proven site the record has the opcode and the operand of the
-- program's bytes, the classified code has an interrupt with that opcode, and the new operand is the
-- safe replacement; unless a later proven instruction shares a byte with it, the opcode and the new
-- operand stand there in the result. At a remaining site the instruction has no safe replacement.
pub apply-IsRewritten :
    {Site : Type 0} (prg_offset : Site → ℕ) (prg code : Bytes) (sites : List Site)
    {r : Bytes × List Proven × List Site}
    → All (λ s. Fits prg (prg_offset s)) sites
    → apply prg_offset prg code sites ≡ ok r
    → IsRewritten prg_offset prg code sites code r
unfolding apply
apply-IsRewritten prg_offset prg code sites fits h = elim (Bool-cases (length code == length prg)) [
  | inl same ↦
      loop-IsRewritten prg_offset prg code sites code fits ((==_iff _ _).0 same)
        (ground (arith, h, same))
  | inr differs ↦ absurd (ground (arith, h, differs))
]
