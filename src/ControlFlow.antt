-- ===== src/ControlFlow.antt =====
-- tools/native_cfg.py, expand: the instructions that direct control flow reaches from observed ones.
-- `counts` and `pcs` have an entry for each byte of `prg`, as the callers make them; the sets of
-- offsets `starts` and `processed` are lists of Booleans over the bytes. The loop over `pending` runs
-- on fuel: four rounds for each byte, and one for each observed instruction.
pub mod Ends
mod Tests
use nes2snes.Common.{
  ℕ, zero, suc, ◌+◌, ◌-◌, ◌*◌, ◌/◌, ◌%◌, Bool, true, false, not, ◌&&◌, ◌||◌, Option, none, some,
}
use nes2snes.Common.{
  List, [], ◌∷◌, ◌++◌, map, length, get_or, set, slice, replicate, ltb, leb, ◌==◌, if◌then◌else◌,
}
use nes2snes.Common.{Bytes, from_bytes, Result, ok, err, ◌>>=◌, ◌>>◌, raise_if, ℤ, pos, negsuc}
use nes2snes.Opcodes.{Mnemonic, Mode, Op, ops}
use nes2snes.Opcodes.Encode.{same_name, same_mode}

-- The two `ValueError`s.
pub data CfgError : Type 0 where
  unsupported_opcode overlapping : CfgError

-- `if c`
unfoldable pub is_counted : ℤ → Bool
is_counted (pos zero) = false
is_counted c = true

-- `sorted(starts)`, from an offset on
unfoldable pub observed_from : ℕ → List ℤ → List ℕ
unfolding is_counted
observed_from i [] = []
observed_from i (c ∷ rest) =
    let later = observed_from (suc i) rest in if is_counted c then i ∷ later else later

-- `for j in range(j, j + n): ... owner[j] = i`
unfoldable pub own_new : List (Option ℕ) → ℕ → ℕ → ℕ → Result CfgError (List (Option ℕ))
own_new owner i j zero = ok owner
own_new owner i j (suc n) = do
  raise_if (leb (length owner) j || elim (get_or owner j none) [ none ↦ false | some k ↦ true ])
      overlapping
  own_new (set owner j (some i)) i (suc j) n

-- The first loop: each observed instruction owns its bytes.
unfoldable pub own_observed : Bytes → List ℕ → List (Option ℕ) → Result CfgError (List (Option ℕ))
unfolding own_new
own_observed prg [] owner = ok owner
own_observed prg (i ∷ rest) owner = do
  op ← elim (ops (get_or prg i 0)) [ none ↦ err unsupported_opcode | some op ↦ ok op ]
  next ← own_new owner i i op.size
  own_observed prg rest next

-- `noreturn`: the targets of the calls behind which no instruction was observed
unfoldable pub never_return : Bytes → List ℤ → List ℕ → List ℕ
unfolding is_counted
never_return prg counts [] = []
never_return prg counts (i ∷ rest) =
    let later = never_return prg counts rest in
    if get_or prg i 0 == 0x20
      && (ltb (i + 3) (length prg) && not (is_counted (get_or counts (i + 3) (pos 0))))
    then from_bytes (slice prg (i + 1) (i + 3)) ∷ later
    else later

unfoldable pub physical : ℕ → ℕ → ℕ → Option ℕ
physical i pc target =
    if leb 0xe000 target
    then some (0x3e000 + target - 0xe000)
    else if (leb 0x8000 pc && ltb pc 0xc000) && (leb 0x8000 target && ltb target 0xc000)
    then some (i / 0x4000 * 0x4000 + target - 0x8000)
    else if (leb 0xc000 pc && ltb pc 0xe000) && (leb 0xc000 target && ltb target 0xe000)
    then some (i / 0x2000 * 0x2000 + target - 0xc000)
    else none

-- The variables of the loop; `pending` holds an offset and its CPU address.
pub record Search : Type 0 where
  pub starts : List Bool
  pub owner : List (Option ℕ)
  pub pcs : List ℕ
  pub processed : List Bool
  pub pending : List (ℕ × ℕ)
  pub inferred : List ℕ
  pub unresolved : List (ℕ × ℕ)

-- `queue(i, pc, target)`
unfoldable pub queue : Bytes → ℕ → ℕ → ℕ → Search → Search
unfolding physical
queue prg i pc target s = elim (physical i pc target) [
  | none ↦ record s { unresolved = s.unresolved ++ (i, target) ∷ [] }
  | some dest ↦
      if ltb dest (length prg) then record s { pending = s.pending ++ (dest, target) ∷ [] } else s
]

unfoldable pub is_owned : List (Option ℕ) → ℕ → ℕ → Bool
is_owned owner j zero = false
is_owned owner j (suc n) =
    elim (get_or owner j none) [ none ↦ false | some k ↦ true ] || is_owned owner (suc j) n

unfoldable pub own_all : List (Option ℕ) → ℕ → ℕ → ℕ → List (Option ℕ)
own_all owner i j zero = owner
own_all owner i j (suc n) = own_all (set owner j (some i)) i (suc j) n

-- The new site, where no byte is owned; `none` is the `continue`.
unfoldable pub infer : Search → ℕ → ℕ → ℕ → Option Search
unfolding is_owned own_all
infer s i pc n =
    if get_or s.starts i false
    then some s
    else if is_owned s.owner i n
    then none
    else some (record s {
      starts = set s.starts i true;
      owner = own_all s.owner i i n;
      pcs = set s.pcs i pc;
      inferred = s.inferred ++ i ∷ [];
    })

unfoldable pub is_member : ℕ → List ℕ → Bool
is_member x [] = false
is_member x (y ∷ rest) = y == x || is_member x rest

-- `(pc+2+(target if target<128 else target-256))&65535`
unfoldable pub branch_target : ℕ → ℕ → ℕ
branch_target pc target = (pc + 2 + (if ltb target 128 then target else target + 65280)) % 65536

-- What follows an instruction that is a start.
unfoldable pub follow : Bytes → List ℕ → ℕ → ℕ → Op → Search → Search
unfolding queue is_member branch_target
follow prg noreturn i pc op s =
    let is : Mnemonic → Bool = (λ name. same_name op.name name) in
    let target = from_bytes (slice prg (i + 1) (i + op.size)) in
    let branched =
      (if same_mode op.mode Mode.rel then queue prg i pc (branch_target pc target) s else s) in
    let called =
      (if (is Mnemonic.jmp || is Mnemonic.jsr) && same_mode op.mode Mode.abs
        then queue prg i pc target branched
        else branched) in
    if is Mnemonic.rts || is Mnemonic.rti
    then s
    else if is Mnemonic.jmp || (is Mnemonic.jsr && is_member target noreturn)
    then called
    else queue prg i pc ((pc + op.size) % 65536) called

-- A round, at an offset that is not yet processed; its mark is set.
unfoldable pub visit : Bytes → List ℕ → ℕ → ℕ → Search → Search
unfolding infer follow
visit prg noreturn i pc s = elim (ops (get_or prg i 0)) [
  | none ↦ s
  | some op ↦
      if same_name op.name Mnemonic.brk || same_name op.name Mnemonic.sed
      then s
      else if ltb (length prg) (i + op.size)
      then s
      else elim (infer s i pc op.size) [ none ↦ s | some known ↦ follow prg noreturn i pc op known ]
]

unfoldable pub round : Bytes → List ℕ → ℕ → ℕ → Search → Search
unfolding visit
round prg noreturn i pc s =
    if get_or s.processed i false
    then s
    else visit prg noreturn i pc (record s { processed = set s.processed i true })

-- `while pending`
unfoldable pub search_loop : ℕ → Bytes → List ℕ → Search → Option Search
unfolding round
search_loop zero prg noreturn s = elim s.pending [ [] ↦ some s | p ∷ rest ↦ none ]
search_loop (suc fuel) prg noreturn s = elim s.pending [
  | [] ↦ some s
  | (i, pc) ∷ rest ↦
      search_loop fuel prg noreturn (round prg noreturn i pc (record s { pending = rest }))
]

unfoldable pub mark_all : List ℕ → List Bool → List Bool
mark_all [] flags = flags
mark_all (i ∷ rest) flags = mark_all rest (set flags i true)

-- The state before the loop
unfoldable pub begin : Bytes → List ℕ → List ℕ → List (Option ℕ) → Search
unfolding mark_all
begin prg pcs observed owner = record {
  starts = mark_all observed (replicate (length prg) false);
  owner = owner;
  pcs = pcs;
  processed = replicate (length prg) false;
  pending = map (λ i. (i, get_or pcs i 0)) observed;
  inferred = [];
  unresolved = [];
}

-- `for i in inferred: result[i] = -1`
unfoldable pub mark_inferred : List ℕ → List ℤ → List ℤ
mark_inferred [] result = result
mark_inferred (i ∷ rest) result = mark_inferred rest (set result i (negsuc 0))

unfoldable pub has_pair : ℕ × ℕ → List (ℕ × ℕ) → Bool
has_pair p [] = false
has_pair p (q ∷ rest) = (q.0 == p.0 && q.1 == p.1) || has_pair p rest

-- `len(set(unresolved))`
unfoldable pub count_distinct : List (ℕ × ℕ) → ℕ
unfolding has_pair
count_distinct [] = 0
count_distinct (p ∷ rest) =
    let later = count_distinct rest in if has_pair p rest then later else suc later

unfoldable pub insert : ℕ → List ℕ → List ℕ
insert x [] = x ∷ []
insert x (y ∷ rest) =
    let later = insert x rest in
    if x == y then y ∷ rest else if ltb x y then x ∷ y ∷ rest else y ∷ later

-- `sorted` of a set
unfoldable pub sorted_set : List ℕ → List ℕ
unfolding insert
sorted_set [] = []
sorted_set (x ∷ rest) = insert x (sorted_set rest)

pub record Expansion : Type 0 where
  pub result : List ℤ
  pub pcs : List ℕ
  pub inferred_offsets : List ℕ
  pub unresolved_direct_edges : ℕ
  pub nonreturning_call_targets : List ℕ

-- Rounds that are enough
abbrev pub rounds : Bytes → List ℕ → ℕ
rounds prg observed = length observed + 4 * length prg

-- The answer is `none` if the fuel runs out.
unfoldable pub expand : Bytes → List ℤ → List ℕ → Result CfgError (Option Expansion)
unfolding observed_from own_observed never_return search_loop begin mark_inferred count_distinct
    sorted_set
expand prg counts pcs =
    let observed = observed_from 0 counts in
    let noreturn = never_return prg counts observed in
    do
      owner ← own_observed prg observed (replicate (length prg) none)
      ok (elim (search_loop (rounds prg observed) prg noreturn (begin prg pcs observed owner)) [
        | none ↦ none
        | some s ↦ some (record {
          result = mark_inferred s.inferred counts;
          pcs = s.pcs;
          inferred_offsets = s.inferred;
          unresolved_direct_edges = count_distinct s.unresolved;
          nonreturning_call_targets = sorted_set noreturn;
        })
      ])
