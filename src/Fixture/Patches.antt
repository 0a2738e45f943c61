-- ===== src/Fixture/Patches.antt =====
-- What the loop of `finish` writes.
use nes2snes.Common.{
  ℕ, ◌+◌, ◌-◌, ◌*◌, ◌%◌, ◌≤◌, ◌<◌, ◌≡◌, ◌≢◌, ◌⊎◌, inl, inr, refl, sym, ap, ◌∙◌, subst, arith,
  Bool-cases, false, some, &&-both, le→leb, lt→ltb,
}
use nes2snes.Common.{
  List, [], ◌∷◌, All, length, get_or, set, length-set, get_or-set_self, get_or-set_ne, ok, Bytes,
  to_bytes,
}
use nes2snes.Common.Bits.{bit_and_low}
use nes2snes.Common.Slices.{splice, length-splice, get_or-splice_outside, get_or-splice_inside}
use nes2snes.GuestCycles.{branch_target}
use nes2snes.Opcodes.{Mode, rel, mode_length}
use nes2snes.Opcodes.Encode.{same_mode, same_mode_iff, Mode-discrete}
use nes2snes.Fixture.{Name, Fixup, find_label, patch_branch, patch_word, patch, patch_all}
use nes2snes.Fixture.Places.{width, IsPlaced, IsOutside, IsPlaced-low-high, IsPlaced-IsOutside}

-- The operand has as many bytes as `finish` writes for the mode.
abbrev pub HasRoom : Fixup → Type 0
HasRoom f = (f.mode ≡ rel) ⊎ (mode_length f.mode ≡ 3)

-- The label is known, and its address can be written.
abbrev pub IsResolved : ℕ → List (Name × ℕ) → Fixup → Type 0
IsResolved origin labels f =
    (dest : ℕ) × (find_label labels f.label ≡ some dest)
    × (f.mode ≡ rel → (origin + f.off + 1 ≤ dest + 128) × (dest ≤ origin + f.off + 128))
    × (f.mode ≢ rel → dest < 65536)

-- The operand in `out` leads to the label's address.
abbrev pub LeadsTo : ℕ → List (Name × ℕ) → Bytes → Fixup → Type 0
LeadsTo origin labels out f =
    (dest : ℕ) × (find_label labels f.label ≡ some dest)
    × (f.mode ≡ rel → branch_target (origin + f.off + 1) (get_or out f.off 0) ≡ dest % 65536)
    × (f.mode ≢ rel → get_or out f.off 0 + 256 * get_or out (f.off + 1) 0 ≡ dest)

not_relative : (m : Mode) → m ≢ rel → same_mode m rel ≡ false
not_relative m h = elim (Bool-cases (same_mode m rel)) [
  | inl same ↦ absurd (h ((same_mode_iff m rel).0 same))
  | inr other ↦ other
]

branch_back :
    (here dest : ℕ)
    → here ≤ dest + 128
    → dest ≤ here + 127
    → branch_target here ((dest + 256 - here) % 256) ≡ dest % 65536
unfolding branch_target
branch_back here dest low high = ground (
  arith,
  bit_and_low 16 (here + (dest + 256 - here) % 256),
  bit_and_low 16 (here + (dest + 256 - here) % 256 + 65536 - 256),
)

width_relative : (f : Fixup) → f.mode ≡ rel → width f ≡ 1
unfolding mode_length
width_relative f relative = ap (λ m. mode_length m - 1) relative

-- What one round does when its operand stands within the bytes.
abbrev Patched : ℕ → List (Name × ℕ) → Fixup → Bytes → Type 0
Patched origin labels f bytes =
    (out : Bytes) × (patch origin labels f bytes ≡ ok out)
    × (length out ≡ length bytes)
    × LeadsTo origin labels out f
    × ((i : ℕ) → IsOutside i f → get_or out i 0 ≡ get_or bytes i 0)

module _ (origin : ℕ) (labels : List (Name × ℕ)) (f : Fixup) (bytes : Bytes) where
  patch_relative :
      f.mode ≡ rel
      → f.off + width f ≤ length bytes
      → IsResolved origin labels f
      → Patched origin labels f bytes
  unfolding patch patch_branch
  patch_relative relative fits (dest, found, near, far) =
      let (low, high) = near relative in
      let one : width f ≡ 1 = width_relative f relative in
      let inside : f.off < length bytes = omega arith in
      let value = (dest + 256 - (origin + f.off + 1)) % 256 in
      let in_reach =
        &&-both (le→leb (origin + f.off + 1) (dest + 128) low)
          (le→leb dest (origin + f.off + 1 + 127) (omega arith)) in
      (
        set bytes f.off value,
        rw (patch, found, (same_mode_iff f.mode rel).1 relative, patch_branch, in_reach) refl,
        length-set bytes f.off value,
        (
          dest,
          found,
          (λ r.
              rw (get_or-set_self bytes f.off value 0 inside)
                (branch_back (origin + f.off + 1) dest low (omega arith))),
          λ not_relative. absurd (not_relative relative),
        ),
        λ i outside.
            get_or-set_ne bytes f.off i value 0
              (λ same. elim outside [ inl before ↦ omega arith | inr after ↦ omega arith ]),
      )

  patch_absolute :
      f.mode ≢ rel
      → mode_length f.mode ≡ 3
      → f.off + width f ≤ length bytes
      → IsResolved origin labels f
      → Patched origin labels f bytes
  unfolding patch patch_word
  patch_absolute absolute three fits (dest, found, near, far) =
      let fits_two : f.off + 2 ≤ length bytes = omega (arith, three) in
      let word = far absolute in
      let pair = to_bytes 2 dest in
      (
        splice bytes f.off 2 pair,
        rw (patch, found, not_relative f.mode absolute, patch_word, lt→ltb dest 65536 word) refl,
        length-splice bytes f.off 2 pair fits_two refl,
        (
          dest,
          found,
          (λ r. absurd (absolute r)),
          λ a. omega (
            arith,
            get_or-splice_inside bytes f.off 2 pair f.off 0 0 fits_two refl (omega arith)
                (omega arith),
            get_or-splice_inside bytes f.off 2 pair (f.off + 1) 1 0 fits_two refl (omega arith)
                refl,
          ),
        ),
        λ i outside.
            get_or-splice_outside bytes f.off 2 pair i 0 fits_two refl
              (elim outside [ inl before ↦ inl before | inr after ↦ inr (omega (arith, three)) ]),
      )

  patch_lem :
      HasRoom f
      → f.off + width f ≤ length bytes
      → IsResolved origin labels f
      → Patched origin labels f bytes
  patch_lem room fits resolved = elim (Mode-discrete f.mode rel) [
    | yes relative ↦ patch_relative relative fits resolved
    | no absolute ↦ elim room [
      | inl relative ↦ absurd (absolute relative)
      | inr three ↦ patch_absolute absolute three fits resolved
    ]
  ]

-- The operand still leads to its label when its bytes are kept.
kept :
    (origin : ℕ) (labels : List (Name × ℕ)) (f : Fixup) (out later : Bytes)
    → HasRoom f
    → ((i : ℕ) → i < f.off + width f → get_or later i 0 ≡ get_or out i 0)
    → LeadsTo origin labels out f
    → LeadsTo origin labels later f
kept origin labels f out later room same (dest, found, near, far) = (
  dest,
  found,
  (λ relative. rw (same f.off (omega (arith, width_relative f relative))) (near relative)),
  λ absolute. elim room [
    | inl relative ↦ absurd (absolute relative)
    | inr three ↦
        rw (same f.off (omega (arith, three)), same (f.off + 1) (omega (arith, three)))
          (far absolute)
  ],
)

-- The loop over fixups that stand in order: it returns, with as many bytes, every operand leads to its
-- label, and no byte outside the operands changes.
pub patch_all_lem :
    (origin : ℕ) (labels : List (Name × ℕ)) (low : ℕ) (fs : List Fixup) (bytes : Bytes)
    → IsPlaced low fs (length bytes)
    → All HasRoom fs
    → All (IsResolved origin labels) fs
    → (out : Bytes) × (patch_all origin labels fs bytes ≡ ok out)
      × (length out ≡ length bytes)
      × All (LeadsTo origin labels out) fs
      × ((i : ℕ) → All (IsOutside i) fs → get_or out i 0 ≡ get_or bytes i 0)
unfolding patch_all
patch_all_lem origin labels low [] bytes placed room resolved = (bytes, refl, refl, tt, λ i h. refl)
patch_all_lem origin labels low (f ∷ rest) bytes (from_low, placed) (room, rooms) (is, are) =
    let behind = f.off + width f in
    let fits = IsPlaced-low-high behind rest (length bytes) placed in
    let (patched, e, len, leads, others) = patch_lem origin labels f bytes room fits is in
    let placed_still = subst (IsPlaced behind rest) (sym len) placed in
    let (out, returned, len_out, lead, same) =
      patch_all_lem origin labels behind rest patched placed_still rooms are in
    (
      out,
      rw e returned,
      len_out ∙ len,
      (
        kept origin labels f patched out room
            (λ i before.
              same i (IsPlaced-IsOutside behind rest (length patched) i before placed_still))
            leads,
        lead,
      ),
      λ i (outside, outsides). same i outsides ∙ others i outside,
    )
