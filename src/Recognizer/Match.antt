-- ===== src/Recognizer/Match.antt =====
-- What a match means: the pattern's machine code, classified as the pattern's instructions.
use nes2snes.Opcodes.Facts.{mode_length-pos}
use nes2snes.Common.{
  ℕ, ◌+◌, ◌-◌, ◌≤◌, ◌≡◌, refl, sym, ap, ap₂, ◌∙◌, subst, arith, Bool-cases, true, false, not, ◌&&◌,
}
use nes2snes.Common.{
  Option-cases, some, List, [], ◌∷◌, ◌++◌, length, get_or, take, drop, slice, inl, inr, ltb, leb→le,
  ◌==◌, ==_iff,
}
use nes2snes.Common.{
  Bytes, AreBytes, All-take, All-drop, IsByte, from_bytes, to_bytes, to_bytes-from_bytes,
  length-to_bytes, length-append, length-take, length-drop, drop-drop, &&-true, not-true, ℤ, pos,
}
use nes2snes.Common.{ok, raise_if, >>=-eq-ok, ok_injective}
use nes2snes.Common.Slices.{drop-get_or, take-add, take-pos}
use nes2snes.Opcodes.{Op, mode_length, ops}
use nes2snes.Opcodes.Facts.{ops-lt}
use nes2snes.Opcodes.Encode.{encode, encode-ops, same_name_iff, same_mode_iff}
use nes2snes.Recognizer.{
  Item, sizes_differ, counted, any_counted, op_matches, matches_loop, matches,
}

-- The machine code of an element of a pattern.
unfoldable pub item_code : Item → Bytes
unfolding mode_length
item_code it = encode it.name it.mode ∷ to_bytes (mode_length it.mode - 1) it.operand

unfoldable pub assemble : List Item → Bytes
unfolding item_code
assemble [] = []
assemble (it ∷ rest) = item_code it ++ assemble rest

-- The classification marks the first byte of each instruction from an offset, and no other.
abbrev pub IsMarked : List ℤ → List Item → ℕ → Type 0
IsMarked counts [] offset = Unit
IsMarked counts (it ∷ rest) offset =
    (counted (get_or counts offset (pos 0)) ≡ true)
    × (any_counted (slice counts (offset + 1) (offset + mode_length it.mode)) ≡ false)
    × IsMarked counts rest (offset + mode_length it.mode)

length-item_code : (it : Item) → length (item_code it) ≡ mode_length it.mode
unfolding item_code
length-item_code it =
    omega (arith, mode_length-pos it.mode, length-to_bytes (mode_length it.mode - 1) it.operand)

module _ (prg : Bytes) (counts : List ℤ) (bytes : AreBytes prg) where
  op_matches-item_code :
      (it : Item) (offset : ℕ) (op : Op)
      → ltb offset (length prg) ≡ true
      → ops (get_or prg offset 256) ≡ some op
      → op_matches prg counts it offset op ≡ true
      → (op.size ≡ mode_length it.mode)
        × (take (mode_length it.mode) (drop offset prg) ≡ item_code it)
        × (any_counted (slice counts (offset + 1) (offset + mode_length it.mode)) ≡ false)
  unfolding op_matches item_code
  op_matches-item_code it offset op inside listed h =
      let (named, placed) = &&-true _ _ h in
      let (same_n, same_m) = &&-true _ _ named in
      let (framed, valued) = &&-true _ _ placed in
      let (fits, plain) = &&-true _ _ framed in
      let is_name = (same_name_iff op.name it.name).0 same_n in
      let is_mode = (same_mode_iff op.mode it.mode).0 same_m in
      let size : op.size ≡ mode_length it.mode =
        (ops-lt (get_or prg offset 256) listed).1 ∙ ap mode_length is_mode in
      let code : encode it.name it.mode ≡ get_or prg offset 256 =
        ap₂ encode (sym is_name) (sym is_mode) ∙ encode-ops (get_or prg offset 256) listed in
      let value =
        (==_iff (from_bytes (slice prg (offset + 1) (offset + op.size))) it.operand).0 valued in
      (
        size,
        item_bytes it offset (leb→le (offset + op.size) (length prg) fits) size code value,
        subst (λ (n : ℕ). any_counted (slice counts (offset + 1) (offset + n)) ≡ false) size
            (not-true _ plain),
      )
    where
      item_bytes :
          (it : Item) (offset : ℕ)
          → offset + op.size ≤ length prg
          → op.size ≡ mode_length it.mode
          → encode it.name it.mode ≡ get_or prg offset 256
          → from_bytes (slice prg (offset + 1) (offset + op.size)) ≡ it.operand
          → take (mode_length it.mode) (drop offset prg) ≡ item_code it
      item_bytes it offset fits size code value =
          let n = mode_length it.mode in
          let positive = mode_length-pos it.mode in
          let rest = drop (offset + 1) prg in
          let count : offset + op.size - (offset + 1) ≡ n - 1 = omega arith in
          ap (λ (t : Bytes). take n t) (drop-get_or offset (offset + 1) prg 256 (omega arith) refl)
          ∙ take-pos n (get_or prg offset 256) rest positive
          ∙ ap₂ ◌∷◌ (sym code) (
              sym (
                to_bytes-from_bytes (n - 1) (take (n - 1) rest)
                  (All-take IsByte (n - 1) rest (All-drop IsByte (offset + 1) prg bytes))
                  (omega (arith, length-take (n - 1) rest, length-drop (offset + 1) prg)))
              ∙ ap (λ (v : ℕ). to_bytes (n - 1) v)
                  (ap (λ (k : ℕ). from_bytes (take k rest)) (sym count) ∙ value))

  pub loop-assemble :
      (pattern : List Item) (offset : ℕ)
      → matches_loop prg counts pattern offset ≡ true
      → (take (length (assemble pattern)) (drop offset prg) ≡ assemble pattern)
        × IsMarked counts pattern offset
  unfolding matches_loop assemble
  loop-assemble [] offset h = (refl, tt)
  loop-assemble (it ∷ rest) offset h =
      elim (Bool-cases (ltb offset (length prg) && counted (get_or counts offset (pos 0)))) [
        | inr e ↦ absurd (ground (arith, h, e))
        | inl e ↦ elim (Option-cases (ops (get_or prg offset 256))) [
          | inl none_found ↦ absurd (ground (arith, h, e, none_found))
          | inr (op, listed) ↦
              let both : op_matches prg counts it offset op
                    && matches_loop prg counts rest (offset + op.size)
                  ≡ true =
                ground (arith, h, e, listed) in
              joined it rest offset op (&&-true _ _ e) listed (&&-true _ _ both)
                (loop-assemble rest (offset + op.size) (&&-true _ _ both).1)
        ]
      ]
    where
      joined :
          (it : Item) (rest : List Item) (offset : ℕ) (op : Op)
          → (ltb offset (length prg) ≡ true) × (counted (get_or counts offset (pos 0)) ≡ true)
          → ops (get_or prg offset 256) ≡ some op
          → (op_matches prg counts it offset op ≡ true)
            × (matches_loop prg counts rest (offset + op.size) ≡ true)
          → (take (length (assemble rest)) (drop (offset + op.size) prg) ≡ assemble rest)
            × IsMarked counts rest (offset + op.size)
          → (take (length (item_code it ++ assemble rest)) (drop offset prg)
              ≡ item_code it ++ assemble rest)
            × IsMarked counts (it ∷ rest) offset
      joined it rest offset op (inside, head) listed (matched, _) (later, marked) =
          let (size, code, plain) = op_matches-item_code it offset op inside listed matched in
          let n = mode_length it.mode in
          let length_all : length (item_code it ++ assemble rest) ≡ n + length (assemble rest) =
            omega (arith, length-append (item_code it) (assemble rest), length-item_code it) in
          (
            take-add n (length (assemble rest)) (length (item_code it ++ assemble rest))
                  (drop offset prg) length_all
                ∙ ap₂ ◌++◌ code (
                    ap (λ (t : Bytes). take (length (assemble rest)) t)
                      (drop-drop offset n prg ∙ ap (λ (k : ℕ). drop (offset + k) prg) (sym size))
                    ∙ later),
            (head, plain, subst (λ (k : ℕ). IsMarked counts rest (offset + k)) size marked),
          )

-- Where a pattern matches a program of bytes, the program holds the pattern's machine code from
-- that offset, and the classification marks there the first byte of each instruction of the
-- pattern and no other byte.
pub matches-assemble :
    (pattern : List Item) (prg : Bytes) (counts : List ℤ) (offset : ℕ)
    → AreBytes prg
    → matches pattern prg counts offset ≡ ok true
    → (slice prg offset (offset + length (assemble pattern)) ≡ assemble pattern)
      × IsMarked counts pattern offset
unfolding matches
matches-assemble pattern prg counts offset bytes h =
    let (u, e0, h0) = >>=-eq-ok (raise_if (not (length prg == length counts)) sizes_differ) _ h in
    let (code, marked) = loop-assemble prg counts bytes pattern offset (ok_injective h0) in
    let count : offset + length (assemble pattern) - offset ≡ length (assemble pattern) =
      omega arith in
    (ap (λ (k : ℕ). take k (drop offset prg)) count ∙ code, marked)
