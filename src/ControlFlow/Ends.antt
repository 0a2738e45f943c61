-- ===== src/ControlFlow/Ends.antt =====
-- tools/native_cfg.py: the loop over `pending` ends.
use nes2snes.Common.{
  ℕ, zero, suc, ◌+◌, ◌*◌, ◌%◌, ◌≤◌, ◌<◌, ◌≡◌, ◌⊎◌, refl, sym, ap, ◌∙◌, subst, arith, Bool,
  Bool-cases, true, false, ◌&&◌, ◌||◌, Option, Option-cases, none, some, some_injective, inl, inr,
}
use nes2snes.Common.{
  List, [], ◌∷◌, ◌++◌, All, All-append, map, length, length-append, length-map, length-set,
  length-replicate, get_or, set, slice, replicate, ltb, ltb→lt, if◌then◌else◌,
}
use nes2snes.Common.{Bytes, from_bytes, ok, >>=-eq-ok, ok_injective, ℤ}
use nes2snes.Opcodes.{Mnemonic, Mode, Op, ops}
use nes2snes.Opcodes.Encode.{same_name, same_mode}
use nes2snes.ControlFlow.{
  is_counted, observed_from, own_observed, never_return, physical, Search, queue, is_owned, infer,
  branch_target, follow, visit, round, search_loop, begin, rounds, Expansion, expand,
}

abbrev IsBelow : Bytes → ℕ × ℕ → Type 0
IsBelow prg p = p.0 < length prg

-- From `s` to `t` at most `k` entries were queued, each for a byte of the program.
record Grows (prg : Bytes) (k : ℕ) (s t : Search) : Type 0 where
  pub processed : t.processed ≡ s.processed
  pub more : length t.pending ≤ length s.pending + k
  pub below : All (IsBelow prg) s.pending → All (IsBelow prg) t.pending

still : (prg : Bytes) (k : ℕ) (s : Search) → Grows prg k s s
still prg k s = record { processed = refl; more = omega arith; below = λ h. h }

chained :
    (prg : Bytes) (j k n : ℕ) (s t u : Search)
    → j + k ≤ n
    → Grows prg j s t
    → Grows prg k t u
    → Grows prg n s u
chained prg j k n s t u sum one two = record {
  processed = two.processed ∙ one.processed;
  more = omega (arith, one.more, two.more);
  below = λ h. two.below (one.below h);
}

queue-Grows : (prg : Bytes) (i pc target : ℕ) (s : Search) → Grows prg 1 s (queue prg i pc target s)
unfolding queue
queue-Grows prg i pc target s =
    elim (physical i pc target)
      as (λ o. Grows prg 1 s (elim o [
        | none ↦ record s { unresolved = s.unresolved ++ (i, target) ∷ [] }
        | some dest ↦
            if ltb dest (length prg)
            then record s { pending = s.pending ++ (dest, target) ∷ [] }
            else s
      ])) [
        | none ↦ record { processed = refl; more = omega arith; below = λ h. h }
        | some dest ↦ elim (Bool-cases (ltb dest (length prg))) [
          | inl inside ↦ rw inside (record {
            processed = refl;
            more = omega (arith, length-append s.pending ((dest, target) ∷ []));
            below = λ h. All-append (IsBelow prg) s.pending _ h (ltb→lt _ _ inside, tt);
          })
          | inr outside ↦ rw outside (still prg 1 s)
        ]
      ]

if-Grows :
    (prg : Bytes) (k : ℕ) (test : Bool) (s t u : Search)
    → Grows prg k s t
    → Grows prg k s u
    → Grows prg k s (if test then t else u)
if-Grows prg k true s t u one two = one
if-Grows prg k false s t u one two = two

follow-Grows :
    (prg : Bytes) (noreturn : List ℕ) (i pc : ℕ) (op : Op) (s : Search)
    → Grows prg 3 s (follow prg noreturn i pc op s)
unfolding follow
follow-Grows prg noreturn i pc op s =
    let target = from_bytes (slice prg (i + 1) (i + op.size)) in
    let one = queue prg i pc (branch_target pc target) s in
    let branched = (if same_mode op.mode Mode.rel then one else s) in
    let two = queue prg i pc target branched in
    let called =
      (if (same_name op.name Mnemonic.jmp || same_name op.name Mnemonic.jsr)
          && same_mode op.mode Mode.abs
        then two
        else branched) in
    let first : Grows prg 1 s branched =
      if-Grows prg 1 _ s one s (queue-Grows prg i pc (branch_target pc target) s) (still prg 1 s) in
    let second : Grows prg 1 branched called =
      if-Grows prg 1 _ branched two branched (queue-Grows prg i pc target branched)
        (still prg 1 branched) in
    let both : Grows prg 2 s called =
      chained prg 1 1 2 s branched called (omega arith) first second in
    let third = queue-Grows prg i pc ((pc + op.size) % 65536) called in
    if-Grows prg 3 _ s _ _ (still prg 3 s) (
      if-Grows prg 3 _ s _ _
        (chained prg 2 0 3 s called called (omega arith) both (still prg 0 called))
        (chained prg 2 1 3 s called _ (omega arith) both third))

infer-Grows : (prg : Bytes) (s t : Search) (i pc n : ℕ) → infer s i pc n ≡ some t → Grows prg 0 s t
unfolding infer
infer-Grows prg s t i pc n h = elim (Bool-cases (get_or s.starts i false)) [
  | inl known ↦ subst (Grows prg 0 s) (some_injective (rw known at h)) (still prg 0 s)
  | inr new ↦ elim (Bool-cases (is_owned s.owner i n)) [
    | inl owned ↦ let never = rw (new, owned) at h in cc
    | inr free ↦
        subst (Grows prg 0 s) (some_injective (rw (new, free) at h))
          (record { processed = refl; more = omega arith; below = λ h. h })
  ]
]

visit_start-Grows :
    (prg : Bytes) (noreturn : List ℕ) (i pc : ℕ) (op : Op) (s : Search) (o : Option Search)
    → infer s i pc op.size ≡ o
    → Grows prg 3 s (elim o [ none ↦ s | some known ↦ follow prg noreturn i pc op known ])
visit_start-Grows prg noreturn i pc op s none e = still prg 3 s
visit_start-Grows prg noreturn i pc op s (some t) e =
    chained prg 0 3 3 s t _ (omega arith) (infer-Grows prg s t i pc op.size e)
      (follow-Grows prg noreturn i pc op t)

visit-Grows :
    (prg : Bytes) (noreturn : List ℕ) (i pc : ℕ) (s : Search)
    → Grows prg 3 s (visit prg noreturn i pc s)
unfolding visit
visit-Grows prg noreturn i pc s = elim (Option-cases (ops (get_or prg i 0))) [
  | inl unknown ↦ rw (visit, unknown) (still prg 3 s)
  | inr (op, known) ↦
      rw (visit, known)
        (if-Grows prg 3 _ s s _ (still prg 3 s) (
          if-Grows prg 3 _ s s _ (still prg 3 s)
            (visit_start-Grows prg noreturn i pc op s (infer s i pc op.size) refl)))
]

-- How many bytes are not yet processed.
open_count : List Bool → ℕ
open_count [] = 0
open_count (true ∷ l) = open_count l
open_count (false ∷ l) = suc (open_count l)

open_count-set :
    (l : List Bool) (i : ℕ)
    → i < length l
    → get_or l i false ≡ false
    → suc (open_count (set l i true)) ≡ open_count l
unfolding open_count
open_count-set [] i lt e = absurd (omega arith)
open_count-set (true ∷ l) zero lt e = cc
open_count-set (false ∷ l) zero lt e = refl
open_count-set (true ∷ l) (suc i) lt e = open_count-set l i (omega arith) e
open_count-set (false ∷ l) (suc i) lt e = ap suc (open_count-set l i (omega arith) e)

open_count-replicate : (n : ℕ) → open_count (replicate n false) ≡ n
unfolding open_count
open_count-replicate zero = refl
open_count-replicate (suc n) = ap suc (open_count-replicate n)

-- The rounds that a state needs at most.
work : Search → ℕ
work s = length s.pending + 4 * open_count s.processed

record IsSound (prg : Bytes) (s : Search) : Type 0 where
  pub marks : length s.processed ≡ length prg
  pub below : All (IsBelow prg) s.pending

-- A round leaves less work.
round-work :
    (prg : Bytes) (noreturn : List ℕ) (i pc : ℕ) (rest : List (ℕ × ℕ)) (s : Search)
    → s.pending ≡ (i, pc) ∷ rest
    → IsSound prg s
    → IsSound prg (round prg noreturn i pc (record s { pending = rest }))
      × (suc (work (round prg noreturn i pc (record s { pending = rest }))) ≤ work s)
unfolding round work
round-work prg noreturn i pc rest s first sound =
    let all : All (IsBelow prg) ((i, pc) ∷ rest) = subst (All (IsBelow prg)) first sound.below in
    let size : length s.pending ≡ suc (length rest) = ap length first in
    elim (Bool-cases (get_or s.processed i false)) [
      | inl done ↦ rw done ((record { marks = sound.marks; below = all.1 }, omega (arith, size)))
      | inr new ↦
          let t : Search = record s { pending = rest; processed = set s.processed i true } in
          let grows = visit-Grows prg noreturn i pc t in
          let less = open_count-set s.processed i (omega (arith, sound.marks, all.0)) new in
          rw new (
            (
              record {
                marks = ap length grows.processed ∙ length-set s.processed i true ∙ sound.marks;
                below = grows.below all.1;
              },
              omega (arith, grows.more, size, less, ap open_count grows.processed),
            ))
    ]

List-cases : {A : Type 0} (l : List A) → (l ≡ []) ⊎ ((x : A) × (rest : List A) × (l ≡ x ∷ rest))
List-cases [] = inl refl
List-cases (x ∷ rest) = inr (x, rest, refl)

search_loop-ends :
    (fuel : ℕ) (prg : Bytes) (noreturn : List ℕ) (s : Search)
    → IsSound prg s
    → work s ≤ fuel
    → (t : Search) × (search_loop fuel prg noreturn s ≡ some t)
unfolding search_loop work
search_loop-ends zero prg noreturn s sound enough = elim (List-cases s.pending) [
  | inl ended ↦ (s, rw ended refl)
  | inr (p, rest, first) ↦ absurd (omega (arith, ap length first))
]
search_loop-ends (suc fuel) prg noreturn s sound enough = elim (List-cases s.pending) [
  | inl ended ↦ (s, rw ended refl)
  | inr ((i, pc), rest, first) ↦
      let (kept, less) = round-work prg noreturn i pc rest s first sound in
      let (t, found) = search_loop-ends fuel prg noreturn _ kept (omega (arith, less, enough)) in
      (t, rw first found)
]

observed_from-IsBelow :
    (prg : Bytes) (pcs : List ℕ) (i : ℕ) (counts : List ℤ)
    → i + length counts ≤ length prg
    → All (IsBelow prg) (map (λ i. (i, get_or pcs i 0)) (observed_from i counts))
unfolding observed_from
observed_from-IsBelow prg pcs i [] e = tt
observed_from-IsBelow prg pcs i (c ∷ rest) e =
    let later = observed_from-IsBelow prg pcs (suc i) rest (omega arith) in
    elim (Bool-cases (is_counted c)) [
      | inl hit ↦ rw hit ((omega arith, later))
      | inr miss ↦ rw miss later
    ]

-- With a count for each byte, an expansion that finds no error has an answer: the fuel is enough.
pub expand-total :
    (prg : Bytes) (counts : List ℤ) (pcs : List ℕ) (answer : Option Expansion)
    → length counts ≡ length prg
    → expand prg counts pcs ≡ ok answer
    → (x : Expansion) × (answer ≡ some x)
unfolding expand begin work
expand-total prg counts pcs answer sizes h =
    let observed = observed_from 0 counts in
    let (owner, e1, h1) = >>=-eq-ok (own_observed prg observed (replicate (length prg) none)) _ h in
    let start = begin prg pcs observed owner in
    let sound : IsSound prg start = record {
      marks = length-replicate (length prg) false;
      below = observed_from-IsBelow prg pcs 0 counts (omega (arith, sizes));
    } in
    let enough : work start ≤ rounds prg observed = omega (
      arith,
      open_count-replicate (length prg),
      length-map {B = ℕ × ℕ} observed (λ i. (i, get_or pcs i 0)),
    ) in
    let (t, found) =
      search_loop-ends (rounds prg observed) prg (never_return prg counts observed) start sound
        enough in
    let filled = rw found at (ok_injective h1) in (_, sym filled)
