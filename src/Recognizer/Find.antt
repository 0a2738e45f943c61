-- ===== src/Recognizer/Find.antt =====
-- The calls that `plan` selects: what each is, and that no two of them overlap.
use nes2snes.Common.{
  ℕ, zero, suc, ◌+◌, ◌-◌, ◌≤◌, ◌<◌, ◌≡◌, refl, sym, ◌∙◌, subst, arith, Bool-cases, true, false,
}
use nes2snes.Common.{
  Option-cases, none, some, List, [], ◌∷◌, length, get_or, take, drop, slice, inl, inr, leb, ltb→lt,
  leb→le, ==_iff, All,
}
use nes2snes.Common.{Bytes, AreBytes, from_bytes, &&-true, not-true, ℤ, pos}
use nes2snes.Common.{ok}
use nes2snes.Common.Slices.{get_or-take, get_or-drop}
use nes2snes.Recognizer.{
  Item, counted, any_counted, Site, call_target, plan_loop, plan, is_selected,
}
use nes2snes.Recognizer.Match.{assemble, loop-assemble, IsMarked}

-- A classified JSR to the fixed bank, whose target holds the pattern's machine code.
pub record IsCall (pattern : List Item) (prg : Bytes) (counts : List ℤ) (i t : ℕ) : Type 0 where
  pub head : counted (get_or counts i (pos 0)) ≡ true
  pub plain : any_counted (slice counts (i + 1) (i + 3)) ≡ false
  pub jsr : get_or prg i 0 ≡ 0x20
  pub inside : i + 3 ≤ length prg
  pub target : from_bytes (slice prg (i + 1) (i + 3)) ≡ t
  pub fixed : (0xe000 ≤ t) × (t < 0xfffa)
  pub body : take (length (assemble pattern)) (drop (0x3e000 + t - 0xe000) prg) ≡ assemble pattern
  pub marked : IsMarked counts pattern (0x3e000 + t - 0xe000)

module _ (pattern : List Item) (prg : Bytes) (counts : List ℤ) where
  call_target-ok :
      (i : ℕ) {t : ℕ}
      → call_target pattern prg counts i ≡ some t
      → (from_bytes (slice prg (i + 1) (i + 3)) ≡ t) × (is_selected pattern prg counts i t ≡ true)
  unfolding call_target
  call_target-ok i {t} h =
      elim (Bool-cases
        (is_selected pattern prg counts i (from_bytes (slice prg (i + 1) (i + 3))))) [
          | inl e ↦
              let same : from_bytes (slice prg (i + 1) (i + 3)) ≡ t = ground (arith, h, e) in
              (same, subst (λ (a : ℕ). is_selected pattern prg counts i a ≡ true) same e)
          | inr e ↦ absurd (ground (arith, h, e))
        ]

  call_target-IsCall :
      (i : ℕ) {t : ℕ}
      → AreBytes prg
      → call_target pattern prg counts i ≡ some t
      → IsCall pattern prg counts i t
  unfolding is_selected
  call_target-IsCall i {t} bytes h =
      let (address, tests) = call_target-ok i h in
      let (first, second) = &&-true _ _ tests in
      let (head, jsr) = &&-true _ _ first in
      let (third, fourth) = &&-true _ _ second in
      let (inside, plain) = &&-true _ _ third in
      let (fixed, matched) = &&-true _ _ fourth in
      let (low, high) = &&-true _ _ fixed in
      let (body, marked) = loop-assemble prg counts bytes pattern (0x3e000 + t - 0xe000) matched in
      record {
        head = head;
        plain = not-true _ plain;
        jsr = (==_iff (get_or prg i 0) 0x20).0 jsr;
        inside = leb→le (i + 3) (length prg) inside;
        target = address;
        fixed = (leb→le 0xe000 t low, ltb→lt t 0xfffa high);
        body = body;
        marked = marked;
      }

any_counted-get :
    (l : List ℤ) (k : ℕ) → any_counted l ≡ false → counted (get_or l k (pos 0)) ≡ false
unfolding any_counted
any_counted-get [] k h = refl
any_counted-get (c ∷ l) zero h = ground (arith, h)
any_counted-get (c ∷ l) (suc k) h = any_counted-get l k (ground (arith, h))

-- The marks of two bytes after an offset.
any_counted-next :
    (counts : List ℤ) (i j : ℕ)
    → any_counted (slice counts (i + 1) (i + 3)) ≡ false
    → i < j
    → j < i + 3
    → counted (get_or counts j (pos 0)) ≡ false
any_counted-next counts i j h p q =
    subst (λ (c : ℤ). counted c ≡ false)
      (get_or-take (i + 3 - (i + 1)) (drop (i + 1) counts) (j - (i + 1)) (pos 0) (omega arith)
        ∙ get_or-drop (i + 1) counts (j - (i + 1)) j (pos 0) (omega arith))
      (any_counted-get (slice counts (i + 1) (i + 3)) (j - (i + 1)) h)

unmarked-none :
    (pattern : List Item) (prg : Bytes) (counts : List ℤ) (j : ℕ)
    → counted (get_or counts j (pos 0)) ≡ false
    → call_target pattern prg counts j ≡ none
unfolding call_target is_selected
unmarked-none pattern prg counts j e = rw e refl

module _ {Label : Type 0} (label : ℕ → Label) where
  -- Sites from an offset on, each three bytes or more behind the one before.
  abbrev pub Apart : ℕ → List (Site label) → Type 0
  Apart floor [] = Unit
  Apart floor (s ∷ rest) = (floor ≤ s.prg_offset) × Apart (s.prg_offset + 3) rest

  abbrev pub IsFound : List Item → Bytes → List ℤ → Site label → Type 0
  IsFound pattern prg counts s =
      IsCall pattern prg counts s.prg_offset s.original_target × (s.name ≡ label s.original_target)

  module _ (pattern : List Item) (prg : Bytes) (counts : List ℤ) (bytes : AreBytes prg) where
    -- No call starts from `i` on before `floor`.
    abbrev IsQuiet : ℕ → ℕ → Type 0
    IsQuiet i floor = (j : ℕ) → i ≤ j → j < floor → call_target pattern prg counts j ≡ none

    skipped :
        (i left : ℕ)
        → call_target pattern prg counts i ≡ none
        → plan_loop label pattern prg counts (suc left) i
          ≡ plan_loop label pattern prg counts left (i + 1)
    unfolding plan_loop
    skipped i left e = rw (e, plan_loop) refl

    selected :
        (i left t : ℕ)
        → call_target pattern prg counts i ≡ some t
        → plan_loop label pattern prg counts (suc left) i
          ≡ record { prg_offset = i; original_target = t; name = label t }
            ∷ plan_loop label pattern prg counts left (i + 1)
    unfolding plan_loop
    selected i left t e = rw (e, plan_loop) refl

    loop-Apart :
        (left i floor : ℕ)
        → IsQuiet i floor
        → Apart floor (plan_loop label pattern prg counts left i)
          × All (IsFound pattern prg counts) (plan_loop label pattern prg counts left i)
    unfolding plan_loop
    loop-Apart zero i floor quiet = (tt, tt)
    loop-Apart (suc left) i floor quiet = elim (Option-cases (call_target pattern prg counts i)) [
      | inl e ↦
          subst Good (sym (skipped i left e))
            (loop-Apart left (i + 1) floor (λ j p q. quiet j (omega arith) q))
      | inr (t, e) ↦
          let call = call_target-IsCall pattern prg counts i bytes e in
          let (apart, found) = loop-Apart left (i + 1) (i + 3) (after i call.plain) in
          subst Good (sym (selected i left t e)) ((start t e, apart), ((call, refl), found))
    ]
      where
        Good : List (Site label) → Type 0
        Good l = Apart floor l × All (IsFound pattern prg counts) l

        after :
            (i : ℕ) → any_counted (slice counts (i + 1) (i + 3)) ≡ false → IsQuiet (i + 1) (i + 3)
        after i plain j p q =
            unmarked-none pattern prg counts j (any_counted-next counts i j plain (omega arith) q)

        start : (t : ℕ) → call_target pattern prg counts i ≡ some t → floor ≤ i
        start t e = elim (Bool-cases (leb floor i)) [
          | inl le ↦ leb→le floor i le
          | inr gt ↦ absurd (ground (arith, e, quiet i (omega arith) (ground (arith, gt))))
        ]

-- For a classified program of 256 KiB `plan` answers. The sites that it finds are calls of routines
-- whose machine code is the pattern's, each site names the label of its target, and any two lie
-- three bytes or more apart.
pub plan-Apart :
    {Label : Type 0} (label : ℕ → Label) (pattern : List Item) (prg : Bytes) (counts : List ℤ)
    → AreBytes prg
    → length prg ≡ 0x40000
    → length counts ≡ 0x40000
    → (sites : List (Site label)) × (plan label pattern prg counts ≡ ok sites)
      × Apart label 0 sites
      × All (IsFound label pattern prg counts) sites
unfolding plan
plan-Apart label pattern prg counts bytes h k =
    let (apart, found) =
      loop-Apart label pattern prg counts bytes (length counts) 0 0
        (λ j p q. absurd (omega arith)) in
    (plan_loop label pattern prg counts (length counts) 0, rw (h, k) refl, apart, found)
