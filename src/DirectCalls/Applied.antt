-- ===== src/DirectCalls/Applied.antt =====
-- The replacement of planned sites: the program keeps its size and every byte outside the sites.
use nes2snes.Common.{
  ℕ, ◌+◌, ◌/◌, ◌%◌, ◌≤◌, ◌<◌, ◌≡◌, ◌⊎◌, inl, inr, refl, sym, ap, ◌∙◌, subst, arith, not,
  Option-cases, some,
}
use nes2snes.Common.{List, [], ◌∷◌, All, length, get_or, slice, Bytes, bytes_eq, bytes_eq-same}
use nes2snes.Common.{ok, raise_if, raise_if-not-ok, >>=-eq-ok, ok_injective}
use nes2snes.Common.Slices.{splice, length-splice, get_or-splice_outside, get_or-splice_inside}
use nes2snes.Recognizer.Redirect.{Holds}
use nes2snes.DirectCalls.{
  outside_window, not_cop, Access, Selected, Options, Symbols, between, plan, redirect, apply,
}
use nes2snes.DirectCalls.Planned.{IsRegisterSite, plan-IsRegisterSite}

-- The three bytes of a site are within the code.
abbrev pub IsWithin : Bytes → Selected → Type 0
IsWithin code s = s.prg_offset + 3 ≤ length code

abbrev pub IsApart : ℕ → Selected → Type 0
IsApart i s = (i < s.prg_offset) ⊎ (s.prg_offset + 3 ≤ i)

-- The call of a site goes to its veneer, which is in the reserved memory.
abbrev pub IsLinked : Symbols → Bytes → Selected → Type 0
IsLinked symbols out s =
    (address : ℕ) × (symbols s.opcode s.address ≡ some address)
    × (0x1000 ≤ address)
    × (address < 0x1800)
    × Holds out s.prg_offset 0x20 (address % 256) (address / 256)

-- No two sites share a byte.
abbrev pub AreSpaced : List Selected → Type 0
AreSpaced [] = Unit
AreSpaced (s ∷ l) =
    All (λ t. (s.prg_offset + 3 ≤ t.prg_offset) ⊎ (t.prg_offset + 3 ≤ s.prg_offset)) l × AreSpaced l

-- One replacement: a COP with the opcode behind it, and three bytes written over it.
IsRedirected : Symbols → Bytes → Selected → Bytes → Type 0
IsRedirected symbols code s out =
    (address : ℕ) × (symbols s.opcode s.address ≡ some address)
    × (0x1000 ≤ address)
    × (address < 0x1800)
    × (slice code s.prg_offset (s.prg_offset + 2) ≡ 2 ∷ s.opcode ∷ [])
    × (splice code s.prg_offset 3 (0x20 ∷ address % 256 ∷ address / 256 ∷ []) ≡ out)

redirect-IsRedirected :
    (symbols : Symbols) (code : Bytes) (s : Selected) {out : Bytes}
    → redirect symbols code s ≡ ok out
    → IsRedirected symbols code s out
unfolding redirect IsRedirected
redirect-IsRedirected symbols code s h = elim (Option-cases (symbols s.opcode s.address)) [
  | inl e ↦ absurd (ground (arith, h, e))
  | inr (address, e) ↦
      let (u0, e0, h0) =
        >>=-eq-ok (raise_if (not (between 0x1000 0x1800 address)) outside_window) _
          (rw (redirect, e) at h) in
      let (u1, e1, h1) =
        >>=-eq-ok
          (raise_if
            (not (bytes_eq (slice code s.prg_offset (s.prg_offset + 2)) (2 ∷ s.opcode ∷ [])))
            not_cop)
          _ h0 in
      let window = raise_if-not-ok (between 0x1000 0x1800 address) outside_window e0 in
      (
        address,
        e,
        ground (arith, window),
        ground (arith, window),
        bytes_eq-same _ _ (
            raise_if-not-ok
              (bytes_eq (slice code s.prg_offset (s.prg_offset + 2)) (2 ∷ s.opcode ∷ [])) not_cop
              e1),
        ok_injective h1,
      )
]

-- What is kept of the code, and where the veneers of the sites are.
abbrev IsKept : Symbols → Bytes → List Selected → Bytes → Type 0
IsKept symbols code l out =
    (length out ≡ length code)
    × ((i : ℕ) → All (IsApart i) l → get_or out i 0 ≡ get_or code i 0)
    × All (IsLinked symbols out) l

All-IsWithin :
    (code out : Bytes) (l : List Selected)
    → length out ≡ length code
    → All (IsWithin code) l
    → All (IsWithin out) l
All-IsWithin code out [] same h = tt
All-IsWithin code out (s ∷ l) same h = (omega (arith, same, h.0), All-IsWithin code out l same h.1)

spaced-IsApart :
    (s : Selected) (l : List Selected) (k : ℕ)
    → k < 3
    → All (λ t. (s.prg_offset + 3 ≤ t.prg_offset) ⊎ (t.prg_offset + 3 ≤ s.prg_offset)) l
    → All (IsApart (s.prg_offset + k)) l
spaced-IsApart s [] k small h = tt
spaced-IsApart s (t ∷ l) k small (inl before, later) =
    (inl (omega (arith, before, small)), spaced-IsApart s l k small later)
spaced-IsApart s (t ∷ l) k small (inr after, later) =
    (inr (omega (arith, after)), spaced-IsApart s l k small later)

splice-Holds :
    (code : Bytes) (at a b c : ℕ)
    → at + 3 ≤ length code
    → (k : ℕ) → k < 3
    → get_or (splice code at 3 (a ∷ b ∷ c ∷ [])) (at + k) 0 ≡ get_or (a ∷ b ∷ c ∷ []) k 0
splice-Holds code at a b c fits k small =
    get_or-splice_inside code at 3 (a ∷ b ∷ c ∷ []) (at + k) k 0 fits refl small refl

apply-IsKept :
    (symbols : Symbols) (code : Bytes) (l : List Selected) {out : Bytes}
    → All (IsWithin code) l
    → AreSpaced l
    → apply symbols code l ≡ ok out
    → IsKept symbols code l out
unfolding apply IsRedirected
apply-IsKept symbols code [] within spaced h =
    subst (IsKept symbols code []) (ok_injective h) (refl, (λ i apart. refl), tt)
apply-IsKept symbols code (s ∷ l) {out} (here, later) (away, spaced) h =
    let (changed, e0, h0) = >>=-eq-ok (redirect symbols code s) _ h in
    let (address, linked, low, high, cop, e) = redirect-IsRedirected symbols code s e0 in
    let call : Bytes = 0x20 ∷ address % 256 ∷ address / 256 ∷ [] in
    let size : length changed ≡ length code =
      sym (ap length e) ∙ length-splice code s.prg_offset 3 call here refl in
    let (same, kept, veneers) =
      apply-IsKept symbols changed l (All-IsWithin code changed l size later) spaced h0 in
    let held : (k : ℕ) → k < 3 → get_or out (s.prg_offset + k) 0 ≡ get_or call k 0 = λ k small.
      kept (s.prg_offset + k) (spaced-IsApart s l k small away)
      ∙ sym (ap (λ (t : Bytes). get_or t (s.prg_offset + k) 0) e)
      ∙ splice-Holds code s.prg_offset 0x20 (address % 256) (address / 256) here k small in
    let first : get_or out s.prg_offset 0 ≡ 0x20 =
      subst (λ (i : ℕ). get_or out i 0 ≡ 0x20) (omega arith) (held 0 (omega arith)) in
    (
      same ∙ size,
      (λ i apart.
          kept i apart.1
          ∙ sym (ap (λ (t : Bytes). get_or t i 0) e)
          ∙ get_or-splice_outside code s.prg_offset 3 call i 0 here refl apart.0),
      ((address, linked, low, high, (first, held 1 (omega arith), held 2 (omega arith))), veneers),
    )

-- The sites that `plan` selects from a program are stores, or loads of A, of a register of the
-- address space above RAM, live bank selectors only on request. Where `apply` answers for them on a
-- code that has their bytes, no two sites sharing one, the answer has the size of the code and its
-- bytes outside the sites, and each site calls its veneer, which is in the reserved memory.
pub plan-apply :
    (o : Options) (prg : Bytes) (sites : List Access) (selected : List Selected) (symbols : Symbols)
    (code out : Bytes)
    → plan o prg sites ≡ ok selected
    → All (IsWithin code) selected
    → AreSpaced selected
    → apply symbols code selected ≡ ok out
    → All (IsRegisterSite o prg) selected
      × (length out ≡ length code)
      × ((i : ℕ) → All (IsApart i) selected → get_or out i 0 ≡ get_or code i 0)
      × All (IsLinked symbols out) selected
plan-apply o prg sites selected symbols code out planned within spaced applied =
    let (size, kept, linked) = apply-IsKept symbols code selected within spaced applied in
    (plan-IsRegisterSite o prg sites planned, size, kept, linked)
