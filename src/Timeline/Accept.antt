-- ===== src/Timeline/Accept.antt =====
-- `decode` answers exactly for the programs that are listings of admitted instructions.
use nes2snes.Opcodes.Facts.{op_size-pos}
use nes2snes.Common.{
  ℕ, ◌+◌, ◌≤◌, ◌≡◌, ◌↔◌, ◌⊎◌, refl, sym, ap, ap₂, ◌∙◌, subst, arith, Option-cases, inl, inr,
}
use nes2snes.Common.{true, not, Bool-cases, Option, some, ==_refl, ==_iff, ltb}
use nes2snes.Common.{List, [], ◌∷◌, length, map, Bytes, All}
use nes2snes.Common.{ok, >>=-eq-ok, ok_injective, raise_if, raise_if-not-ok, ◌==◌}
use nes2snes.Common.{Value, nat, int, bool, other, pos, negsuc, ℤ}
use nes2snes.Timeline.Allowed.{Gates, GateArguments}
use nes2snes.Timeline.Decode.{
  CodeArgument, code_bytes, not_bytes, StartsArgument, start_list, not_a_list, TargetsArgument, Row,
  check_gates, check_code, check_starts, int_values, int_ltb, is_increasing, rows_loop,
  same_entries, static_target, is_member, target_known, targets_known, known_entries, decode,
  bad_starts, wrong_entries, unobserved_target,
}
use nes2snes.Timeline.Listing.{Follow, raw_code, loop-Follow, loop_complete}

-- A number is among the elements of a list.
abbrev pub In : ℕ → List ℕ → Type 0
In n [] = ⊥
In n (m ∷ rest) = (n ≡ m) ⊎ In n rest

is_member_iff : (n : ℕ) (l : List ℕ) → (is_member n l ≡ true) ↔ In n l
unfolding is_member
is_member_iff n [] = ((λ h. cc), (λ h. absurd h))
is_member_iff n (m ∷ rest) = elim (Bool-cases (n == m)) [
  | inl e ↦ ((λ h. inl ((==_iff n m).0 e)), (λ h. rw e refl))
  | inr e ↦ (
    (λ h. inr ((is_member_iff n rest).0 (rw e at h))),
    (λ h. rw e (elim h [
      | inl same ↦ absurd (ground (arith, same, e))
      | inr later ↦ (is_member_iff n rest).1 later
    ])),
  )
]

-- A jump or branch to a fixed address goes to one of the known entries.
abbrev pub IsAimed : List ℕ → Row → Type 0
IsAimed entries r = (t : ℕ) → static_target r ≡ some t → In t entries

target_known_iff :
    (entries : List ℕ) (r : Row) → (target_known entries r ≡ true) ↔ IsAimed entries r
unfolding target_known
target_known_iff entries r = elim (Option-cases (static_target r)) [
  | inl e ↦ ((λ h t f. absurd (ground (arith, e, f))), (λ h. rw (e, target_known) refl))
  | inr (t, e) ↦ (
    (λ h u f.
        subst (λ (k : ℕ). In k entries) (ground (arith, e, f))
          ((is_member_iff t entries).0 (rw (e, target_known) at h))),
    (λ h. rw (e, target_known) ((is_member_iff t entries).1 (h t e))),
  )
]

targets_known_iff :
    (entries : List ℕ) (rows : List Row)
    → (targets_known entries rows ≡ true) ↔ All (IsAimed entries) rows
unfolding targets_known
targets_known_iff entries [] = ((λ h. tt), (λ h. refl))
targets_known_iff entries (r ∷ rows) =
    let (known, aimed) = target_known_iff entries r in
    let (rest_known, rest_aimed) = targets_known_iff entries rows in
    (
      (λ h. (known (ground (arith, h)), rest_known (ground (arith, h)))),
      (λ h. rw (aimed h.0, rest_aimed h.1) refl),
    )

abbrev pub address_values : List Row → List Value
address_values [] = []
address_values (r ∷ rows) = nat r.pc ∷ address_values rows

abbrev addresses : List Row → List ℤ
addresses [] = []
addresses (r ∷ rows) = pos r.pc ∷ addresses rows

same_entries-ok :
    (rows : List Row) (starts : List ℤ) → same_entries rows starts ≡ true → starts ≡ addresses rows
unfolding same_entries
same_entries-ok [] [] h = refl
same_entries-ok [] (z ∷ starts) h = cc
same_entries-ok (r ∷ rows) [] h = cc
same_entries-ok (r ∷ rows) (negsuc n ∷ starts) h = cc
same_entries-ok (r ∷ rows) (pos n ∷ starts) h =
    ap₂ ◌∷◌ (ap pos (ground (arith, h))) (same_entries-ok rows starts (ground (arith, h)))

same_entries-addresses : (rows : List Row) → same_entries rows (addresses rows) ≡ true
unfolding same_entries
same_entries-addresses [] = refl
same_entries-addresses (r ∷ rows) = rw (==_refl r.pc) (same_entries-addresses rows)

int_values-ok :
    (values : List Value) {zs : List ℤ} → int_values values ≡ ok zs → values ≡ map int zs
unfolding int_values
int_values-ok [] h = subst (λ (l : List ℤ). [] ≡ map int l) (ok_injective h) refl
int_values-ok (int z ∷ rest) h =
    let (zs, e, h0) = >>=-eq-ok (int_values rest) _ h in
    subst (λ (l : List ℤ). int z ∷ rest ≡ map int l) (ok_injective h0)
      (ap (λ (l : List Value). int z ∷ l) (int_values-ok rest e))
int_values-ok (bool b ∷ rest) h = cc
int_values-ok (other ∷ rest) h = cc

int_values-addresses : (rows : List Row) → int_values (address_values rows) ≡ ok (addresses rows)
unfolding int_values
int_values-addresses [] = refl
int_values-addresses (r ∷ rows) = rw (int_values-addresses rows) refl

map-addresses : (rows : List Row) → map int (addresses rows) ≡ address_values rows
map-addresses [] = refl
map-addresses (r ∷ rows) = ap (λ (l : List Value). nat r.pc ∷ l) (map-addresses rows)

-- Rows one after another have increasing addresses.
addresses-increasing :
    (g : Gates) (pc : ℕ) (rows : List Row)
    → Follow g pc rows
    → is_increasing (addresses rows) ≡ true
unfolding is_increasing int_ltb
addresses-increasing g pc [] f = refl
addresses-increasing g pc (r ∷ []) f = refl
addresses-increasing g pc (r ∷ s ∷ rows) f =
    let positive = op_size-pos f.1.opcode f.1.documented in
    let later = addresses-increasing g (pc + length r.raw) (s ∷ rows) f.2 in
    let before : ltb r.pc s.pc ≡ true = ground (arith, f.0, f.2.0, f.1.sized, positive) in
    rw before later

-- The bounds of a program in the cartridge's address space.
abbrev pub IsBounded : Bytes → ℕ → Type 0
IsBounded code origin =
    (1 ≤ length code)
    × (length code ≤ 2048)
    × (0x8000 ≤ origin)
    × (origin ≤ 0xfff0)
    × (origin + length code ≤ 0xfffa)

check_code-ok :
    (c : CodeArgument) (o : Value) {code : Bytes} {origin : ℕ}
    → check_code c o ≡ ok (code, origin)
    → (c ≡ code_bytes code) × (o ≡ nat origin) × IsBounded code origin
unfolding check_code
check_code-ok not_bytes o h = cc
check_code-ok (code_bytes code) (int (negsuc n)) h = cc
check_code-ok (code_bytes code) (bool b) h = cc
check_code-ok (code_bytes code) other h = cc
check_code-ok (code_bytes code) (nat n) h = ground arith

check_code-bounded :
    (code : Bytes) (origin : ℕ)
    → IsBounded code origin
    → check_code (code_bytes code) (nat origin) ≡ ok (code, origin)
unfolding check_code
check_code-bounded code origin b = ground arith

pub check_starts-ok :
    (s : StartsArgument) {zs : List ℤ} → check_starts s ≡ ok zs → s ≡ start_list (map int zs)
unfolding check_starts
check_starts-ok not_a_list h = cc
check_starts-ok (start_list values) h =
    let (zs, e0, h0) = >>=-eq-ok (int_values values) _ h in
    let (u, e1, h1) = >>=-eq-ok (raise_if (not (is_increasing zs)) bad_starts) _ h0 in
    subst (λ (l : List ℤ). start_list values ≡ start_list (map int l)) (ok_injective h1)
      (ap start_list (int_values-ok values e0))

check_starts-addresses :
    (g : Gates) (pc : ℕ) (rows : List Row)
    → Follow g pc rows
    → check_starts (start_list (address_values rows)) ≡ ok (addresses rows)
unfolding check_starts
check_starts-addresses g pc rows f =
    rw (int_values-addresses rows, addresses-increasing g pc rows f) refl

-- The arguments of `decode` are those of a program whose instructions are `rows`.
pub record IsListing (c : CodeArgument) (o : Value) (s : StartsArgument) (gs : GateArguments)
    (ts : TargetsArgument) (rows : List Row) : Type 0 where
  pub gates : Gates
  pub targets : Option (List ℕ)
  pub origin : ℕ
  pub opened : check_gates gs ts ≡ ok (gates, targets)
  pub coded : c ≡ code_bytes (raw_code rows)
  pub placed : o ≡ nat origin
  pub bounded : IsBounded (raw_code rows) origin
  pub follow : Follow gates origin rows
  pub started : s ≡ start_list (address_values rows)
  pub aimed : All (IsAimed (known_entries targets rows)) rows

module _ (c : CodeArgument) (o : Value) (s : StartsArgument) (gs : GateArguments)
    (ts : TargetsArgument) (rows : List Row) where
  decode-IsListing : decode c o s gs ts ≡ ok rows → IsListing c o s gs ts rows
  unfolding decode
  decode-IsListing h =
      let ((gates, targets), e0, h0) = >>=-eq-ok (check_gates gs ts) _ h in
      let ((code, origin), e1, h1) = >>=-eq-ok (check_code c o) _ h0 in
      let (starts, e2, h2) = >>=-eq-ok (check_starts s) _ h1 in
      let (rows', e3, h3) = >>=-eq-ok (rows_loop (length code) gates origin code) _ h2 in
      let (u4, e4, h4) =
        >>=-eq-ok (raise_if (not (same_entries rows' starts)) wrong_entries) _ h3 in
      let (u5, e5, h5) =
        >>=-eq-ok
          (raise_if (not (targets_known (known_entries targets rows') rows')) unobserved_target) _
          h4 in
      listing gates targets code origin starts e0 (check_code-ok c o e1) (check_starts-ok s e2)
        (subst (λ (l : List Row). rows_loop (length code) gates origin code ≡ ok l)
          (ok_injective h5) e3)
        (subst (λ (l : List Row). same_entries l starts ≡ true) (ok_injective h5)
          (raise_if-not-ok (same_entries rows' starts) wrong_entries e4))
        (subst (λ (l : List Row). targets_known (known_entries targets l) l ≡ true)
          (ok_injective h5)
          (raise_if-not-ok (targets_known (known_entries targets rows') rows') unobserved_target
            e5))
    where
      listing :
          (gates : Gates) (targets : Option (List ℕ)) (code : Bytes) (origin : ℕ) (starts : List ℤ)
          → check_gates gs ts ≡ ok (gates, targets)
          → (c ≡ code_bytes code) × (o ≡ nat origin) × IsBounded code origin
          → s ≡ start_list (map int starts)
          → rows_loop (length code) gates origin code ≡ ok rows
          → same_entries rows starts ≡ true
          → targets_known (known_entries targets rows) rows ≡ true
          → IsListing c o s gs ts rows
      listing gates targets code origin starts opened (coded, placed, bounded) started run same
            known =
          let (whole, follow) = loop-Follow (length code) gates origin code run in
          record {
            gates = gates;
            targets = targets;
            origin = origin;
            opened = opened;
            coded = rw whole coded;
            placed = placed;
            bounded = subst (λ (t : Bytes). IsBounded t origin) (sym whole) bounded;
            follow = follow;
            started =
                started
                ∙ ap (λ (l : List ℤ). start_list (map int l)) (same_entries-ok rows starts same)
                ∙ ap start_list (map-addresses rows);
            aimed = (targets_known_iff (known_entries targets rows) rows).0 known;
          }

  decode_complete : IsListing c o s gs ts rows → decode c o s gs ts ≡ ok rows
  unfolding decode
  decode_complete l =
      rw
        (
          l.opened,
          l.coded,
          l.placed,
          check_code-bounded (raw_code rows) l.origin l.bounded,
          l.started,
          check_starts-addresses l.gates l.origin rows l.follow,
          loop_complete (length (raw_code rows)) l.gates l.origin rows l.follow (omega arith),
          same_entries-addresses rows,
          (targets_known_iff (known_entries l.targets rows) rows).1 l.aimed,
        )
        refl

-- `decode` answers with `rows` exactly when its gates are consistent, `code` is the bytes of the
-- rows one after another from `origin` within the cartridge, each row is a documented instruction
-- that the gates let in, `starts` lists the addresses of the rows, and each static target is a
-- known entry.
pub decode_iff :
    (c : CodeArgument) (o : Value) (s : StartsArgument) (gs : GateArguments) (ts : TargetsArgument)
    (rows : List Row)
    → (decode c o s gs ts ≡ ok rows) ↔ IsListing c o s gs ts rows
decode_iff c o s gs ts rows = (decode-IsListing c o s gs ts rows, decode_complete c o s gs ts rows)
