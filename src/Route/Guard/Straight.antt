-- ===== src/Route/Guard/Straight.antt =====
-- What the found entry is: behind a load of Y and a branch over the increment of the same byte.
use nes2snes.Common.{
  ℕ, zero, suc, ◌+◌, ◌-◌, ◌≤◌, ◌<◌, ◌≡◌, ◌≢◌, refl, sym, ap, ◌∙◌, subst, arith, Bool, Bool-cases,
  true, false, not, ◌&&◌, ◌||◌, &&-true, ||-false, not-false, Option, Option-cases, none, some, inl,
  inr,
}
use nes2snes.Common.{
  [], ◌∷◌, length, get_or, ltb, leb, ◌==◌, ==_iff, ltb→lt, ltb→le, leb→le, if◌then◌else◌, Bytes,
  AreBytes,
}
use nes2snes.Common.{ok, err, ok_injective, Value, nat, int, bool, other, negsuc}
use nes2snes.Opcodes.{Mnemonic, Mode, Op, mode_length, ops}
use nes2snes.Opcodes.Encode.{same_mode, same_name_iff, same_mode_iff}
use nes2snes.Opcodes.Facts.{ops-lt}
use nes2snes.Route.Guard.{
  no_entry, Previous, is, stops, loads_y, lands_forward, guard_at, guard_loop, guarded_update_pc,
}

-- The place and the byte of an address of the fixed bank.
abbrev pub place : Bytes → ℕ → ℕ
place prg pc = length prg - 0x2000 + pc - 0xe000

abbrev pub fetch : Bytes → ℕ → ℕ
fetch prg pc = get_or prg (place prg pc) 0

-- A whole documented instruction at an address in front of the vectors.
pub record IsOp (prg : Bytes) (pc : ℕ) (op : Op) : Type 0 where
  pub documented : ops (fetch prg pc) ≡ some op
  pub inside : place prg pc + op.size ≤ length prg
  pub below : pc ≤ 0xfff9

-- Instructions one after another, of which none changes the flow of control.
pub data Straight (prg : Bytes) (nmi : ℕ) : ℕ → Type 0 where
  here : Straight prg nmi nmi
  next :
      (pc pc' : ℕ) (op : Op)
      → Straight prg nmi pc
      → IsOp prg pc op
      → same_mode op.mode Mode.rel ≡ false
      → stops op.name ≡ false
      → pc' ≡ pc + op.size
      → Straight prg nmi pc'

-- A straight run, then LDY of a zero-page byte, BNE forward over at least the next instruction, and
-- INC of the same byte, which is the entry.
pub record IsGuarded (prg : Bytes) (nmi entry : ℕ) : Type 0 where
  pub load : ℕ
  pub ldy : Op
  pub bne : Op
  pub straight : Straight prg nmi load
  pub is_load : IsOp prg load ldy
  pub loads : (ldy.name ≡ Mnemonic.ldy) × (ldy.mode ≡ Mode.zp)
  pub is_branch : IsOp prg (load + 2) bne
  pub branches : (bne.name ≡ Mnemonic.bne) × (bne.mode ≡ Mode.rel)
  pub increment : (fetch prg (load + 4) ≡ 0xe6) × (fetch prg (load + 5) ≡ fetch prg (load + 1))
  pub entered : entry ≡ load + 4
  pub inside : place prg entry + 1 < length prg
  pub skip : (2 ≤ fetch prg (load + 3)) × (fetch prg (load + 3) < 128)
  pub target : load + 4 + fetch prg (load + 3) ≤ 0xfff9

-- What the loop keeps of the instruction before.
abbrev Follows : Bytes → ℕ → ℕ → Option Previous → Type 0
Follows prg nmi pc none = pc ≡ nmi
Follows prg nmi pc (some p) =
    (before : ℕ) × (op : Op) × Straight prg nmi before
    × IsOp prg before op
    × (p.name ≡ op.name)
    × (p.mode ≡ op.mode)
    × (pc ≡ before + op.size)
    × (p.operand ≡ (if ltb 1 op.size then some (get_or prg (place prg before + 1) 0) else none))
    × Straight prg nmi pc

Follows-Straight :
    (prg : Bytes) (nmi pc : ℕ) (previous : Option Previous)
    → Follows prg nmi pc previous
    → Straight prg nmi pc
Follows-Straight prg nmi pc none h = subst (Straight prg nmi) (sym h) here
Follows-Straight prg nmi pc (some p)
      (before, op, straight, is_op, name, mode, end, operand, reached) =
    reached

lands_forward-true :
    (pc operand : ℕ)
    → operand < 256
    → lands_forward pc operand ≡ true
    → (2 ≤ operand) × (operand < 128) × (pc + 2 + operand ≤ 0xfff9)
unfolding lands_forward
lands_forward-true pc operand byte h = ground arith

operand-eq : (o : Option ℕ) (v : ℕ) → elim o [ none ↦ false | some w ↦ v == w ] ≡ true → o ≡ some v
operand-eq none v h = cc
operand-eq (some w) v h = ap some (sym ((==_iff v w).0 h))

loads_y-true :
    (p : Previous) (v : ℕ)
    → loads_y (some p) v ≡ true
    → (p.name ≡ Mnemonic.ldy) × (p.mode ≡ Mode.zp) × (p.operand ≡ some v)
unfolding loads_y
loads_y-true p v h =
    let (both, operand) = &&-true _ _ h in
    let (name, mode) = &&-true _ _ both in
    ((same_name_iff _ _).0 name, (same_mode_iff _ _).0 mode, operand-eq _ v operand)

loads_y-none : (v : ℕ) → loads_y none v ≢ true
unfolding loads_y
loads_y-none v h = cc

Straight-le : (prg : Bytes) (nmi pc : ℕ) → Straight prg nmi pc → nmi ≤ pc
Straight-le prg nmi pc here = omega arith
Straight-le prg nmi pc (next before pc' op run is_op rel stop end) =
    omega (arith, Straight-le prg nmi before run)

get_or-IsByte : (bs : Bytes) (i : ℕ) → AreBytes bs → get_or bs i 0 < 256
get_or-IsByte [] i h = omega arith
get_or-IsByte (b ∷ bs) zero h = h.0
get_or-IsByte (b ∷ bs) (suc i) h = get_or-IsByte bs i h.1

if-ok :
    {E : Type 0} {A : Type 0} (test : Bool) (e : E) {a b : A}
    → (if test then ok a else err e) ≡ ok b
    → (test ≡ true) × (a ≡ b)
if-ok true e h = (refl, ok_injective h)
if-ok false e h = cc

guard_at-ok :
    (prg : Bytes) (off pc entry : ℕ) (name : Mnemonic) (previous : Option Previous)
    → guard_at prg off pc name previous ≡ ok entry
    → (is name Mnemonic.bne ≡ true)
      × (off + 3 < length prg)
      × (get_or prg (off + 2) 0 ≡ 0xe6)
      × (loads_y previous (get_or prg (off + 3) 0) ≡ true)
      × (lands_forward pc (get_or prg (off + 1) 0) ≡ true)
      × (entry ≡ pc + 2)
unfolding guard_at
guard_at-ok prg off pc entry name previous h =
    let (found, same) = if-ok _ no_entry h in
    let (is_bne, rest) = &&-true _ _ found in
    let (two, rest') = &&-true _ _ rest in
    let (inc, rest'') = &&-true _ _ rest' in
    let (loads, lands) = &&-true _ _ rest'' in
    (is_bne, ltb→lt _ _ two, (==_iff _ _).0 inc, loads, lands, sym same)

-- A two-byte instruction that keeps its operand.
two_bytes :
    (prg : Bytes) (before v : ℕ) (ldy : Op)
    → IsOp prg before ldy
    → ldy.mode ≡ Mode.zp
    → (if ltb 1 ldy.size then some (get_or prg (place prg before + 1) 0) else none) ≡ some v
    → (ldy.size ≡ 2) × (get_or prg (place prg before + 1) 0 ≡ v)
unfolding mode_length
two_bytes prg before v ldy is_load is_zp kept =
    let size : ldy.size ≡ 2 = (ops-lt _ is_load.documented).1 ∙ ap mode_length is_zp in
    let same : (if ltb 1 2 then some (get_or prg (place prg before + 1) 0) else none) ≡ some v =
      rw (size) at kept in
    (size, cc)

place-shift :
    (prg : Bytes) (pc k : ℕ) → 0xe000 ≤ pc → get_or prg (place prg pc + k) 0 ≡ fetch prg (pc + k)
place-shift prg pc k fixed = ap (λ i. get_or prg i 0) (omega arith)

-- The loop's answer is a guard behind the instructions before it.
guard_at-IsGuarded :
    (prg : Bytes) (nmi pc entry : ℕ) (op : Op) (previous : Option Previous)
    → AreBytes prg
    → 0xe000 ≤ nmi
    → 0x2000 ≤ length prg
    → Follows prg nmi pc previous
    → IsOp prg pc op
    → same_mode op.mode Mode.rel ≡ true
    → guard_at prg (place prg pc) pc op.name previous ≡ ok entry
    → IsGuarded prg nmi entry
guard_at-IsGuarded prg nmi pc entry op none bytes fixed long follows is_op rel h =
    absurd (loads_y-none _ (guard_at-ok _ _ _ _ _ _ h).3)
guard_at-IsGuarded prg nmi pc entry op (some p) bytes fixed long follows is_op rel h =
    let (is_bne, inside, inc, loads, lands, entered) = guard_at-ok _ _ _ _ _ _ h in
    let (name, mode, operand) = loads_y-true p _ loads in
    let (before, ldy, straight, is_load, p_name, p_mode, end, kept, reached) = follows in
    let is_zp : ldy.mode ≡ Mode.zp = sym p_mode ∙ mode in
    let (size, same) = two_bytes prg before _ ldy is_load is_zp (sym kept ∙ operand) in
    let at : pc ≡ before + 2 = omega (arith, size) in
    let base : 0xe000 ≤ before = omega (arith, Straight-le prg nmi before straight) in
    let at_load : (k n : ℕ) → n ≡ before + 2 + k → fetch prg n ≡ get_or prg (place prg pc + k) 0 =
      (λ k n e. ap (λ i. get_or prg i 0) (omega (arith, at, e, base))) in
    let operand_at : fetch prg (before + 3) ≡ get_or prg (place prg pc + 1) 0 =
      at_load 1 _ (omega arith) in
    let skip = lands_forward-true _ _ (get_or-IsByte prg _ bytes) lands in
    record {
      load = before;
      ldy = ldy;
      bne = op;
      straight = straight;
      is_load = is_load;
      loads = (sym p_name ∙ name, is_zp);
      is_branch = subst (λ n. IsOp prg n op) at is_op;
      branches = ((same_name_iff _ _).0 is_bne, (same_mode_iff _ _).0 rel);
      increment = (
        at_load 2 _ (omega arith) ∙ inc,
        at_load 3 _ (omega arith) ∙ sym same ∙ place-shift prg before 1 base,
      );
      entered = omega arith;
      inside = omega arith;
      skip = (omega (arith, operand_at, skip.0), omega (arith, operand_at, skip.1));
      target = omega (arith, operand_at, at, skip.2);
    }

guard_loop-IsGuarded :
    (rounds : ℕ) (prg : Bytes) (nmi pc entry : ℕ) (previous : Option Previous)
    → AreBytes prg
    → 0xe000 ≤ nmi
    → 0x2000 ≤ length prg
    → Follows prg nmi pc previous
    → guard_loop rounds prg pc previous ≡ ok entry
    → IsGuarded prg nmi entry
unfolding guard_loop
guard_loop-IsGuarded zero prg nmi pc entry previous bytes fixed long follows h = cc
guard_loop-IsGuarded (suc rounds) prg nmi pc entry previous bytes fixed long follows h =
    elim (Bool-cases (ltb 0xfff9 pc || leb (length prg) (place prg pc))) [
      | inl out ↦ let never = rw out at h in cc
      | inr within ↦ elim (Option-cases (ops (fetch prg pc))) [
        | inl unknown ↦ let never = rw (within, unknown) at h in cc
        | inr (op, known) ↦ elim (Bool-cases (ltb (length prg) (place prg pc + op.size))) [
          | inl cut ↦ let never = rw (within, known, cut) at h in cc
          | inr whole ↦
              let is_op : IsOp prg pc op = record {
                documented = known;
                inside = ltb→le _ _ whole;
                below = ltb→le _ _ (||-false _ _ within).0;
              } in
              elim (Bool-cases (same_mode op.mode Mode.rel)) [
                | inl rel ↦
                    guard_at-IsGuarded prg nmi pc entry op previous bytes fixed long follows is_op
                      rel (rw (within, known, whole, rel) at h)
                | inr not_rel ↦ elim (Bool-cases (stops op.name)) [
                  | inl stop ↦ let never = rw (within, known, whole, not_rel, stop) at h in cc
                  | inr on ↦
                      let before = Follows-Straight prg nmi pc previous follows in
                      guard_loop-IsGuarded rounds prg nmi _ entry _ bytes fixed long
                        (
                          pc,
                          op,
                          before,
                          is_op,
                          refl,
                          refl,
                          refl,
                          refl,
                          next pc _ op before is_op not_rel on refl,
                        )
                        (rw (within, known, whole, not_rel, on) at h)
                ]
              ]
        ]
      ]
    ]

-- An address that is returned is the entry behind the first guard, over straight code from the NMI
-- handler's start: LDY of a zero-page byte, BNE forward past at least one instruction, INC of the
-- same byte. The handler's start is an address of the fixed bank.
pub guarded_update_pc-IsGuarded :
    (prg : Bytes) (v : Value) (entry : ℕ)
    → AreBytes prg
    → guarded_update_pc prg v ≡ ok entry
    → (nmi : ℕ) × (v ≡ nat nmi) × (0xe000 ≤ nmi) × (nmi ≤ 0xfff9) × IsGuarded prg nmi entry
unfolding guarded_update_pc
guarded_update_pc-IsGuarded prg (nat nmi) entry bytes h =
    elim (Bool-cases (ltb (length prg) 0x2000 || not (leb 0xe000 nmi && leb nmi 0xfff9))) [
      | inl out ↦ let never = rw out at h in cc
      | inr within ↦
          let (long, fixed) = ||-false _ _ within in
          let (low, high) = &&-true _ _ (not-false _ fixed) in
          (
            nmi,
            refl,
            leb→le _ _ low,
            leb→le _ _ high,
            guard_loop-IsGuarded 32 prg nmi nmi entry none bytes (leb→le _ _ low) (ltb→le _ _ long)
                refl (rw within at h),
          )
    ]
guarded_update_pc-IsGuarded prg (int (negsuc n)) entry bytes h = cc
guarded_update_pc-IsGuarded prg (bool b) entry bytes h = cc
guarded_update_pc-IsGuarded prg other entry bytes h = cc
