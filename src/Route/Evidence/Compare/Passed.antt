-- ===== src/Route/Evidence/Compare/Passed.antt =====
-- What a passed comparison of two routes means.
use nes2snes.Common.{
  some_injective, ℕ, suc, ◌≤◌, ◌<◌, ◌≡◌, inl, inr, refl, sym, ap, ap₂, ◌∙◌, subst, arith,
  Bool-cases, true, false, not, ◌||◌, ||-false, &&-true, not-true, some,
}
use nes2snes.Common.{
  List, [], ◌∷◌, All, length, map, get_or, ltb, leb, ◌==◌, ltb→lt, ==_iff, Bytes, bytes_eq,
  bytes_eq-same,
}
use nes2snes.Common.{ok, raise_if, raise_if-ok, raise_if-not-ok, >>=-eq-ok, ok_injective}
use nes2snes.Route.{Button, button_code, Action, validate_actions}
use nes2snes.Route.Actions.{Among, names_of, same_code}
use nes2snes.Route.Evidence.{
  Field, clock_or_legacy, game_state, area_bytes, camera_x, player_x, player_y, all_fields,
  different_input, different_clock, short_capture, Folder, Row, Route, read_ram, is_completed,
  load_route,
}
use nes2snes.Route.Evidence.Compare.{
  AddressesArgument, same_action, same_actions, differences, changed, highest, compare_ram,
  Mismatches, noted, compare_rows, Comparison, no_entry, validate_ram_addresses, same_clock, judge,
  compare_routes,
}
use nes2snes.Route.Evidence.Loaded.{field_of, ReadAs, read_ram-ok, load_route-completed}

-- Both captures hold the selected fields and the requested bytes, with the same values.
pub record AgreeAt (reference candidate : Folder) (ram : List ℕ) (name : List ℕ) : Type 0 where
  pub one : Bytes
  pub two : Bytes
  pub read_one : reference.ram name ≡ some one
  pub read_two : candidate.ram name ≡ some two
  pub long : (0x439 ≤ length one) × (0x439 ≤ length two)
  pub same_fields : (f : Field) → field_of one f ≡ field_of two f
  pub same_bytes :
      (x : ℕ)
      → Among x ram
      → (x < length one) × (x < length two) × (get_or one x 0 ≡ get_or two x 0)

differences-none :
    (x y : Field → ℕ) (l : List Field)
    → no_entry (differences x y l) ≡ true
    → All (λ f. x f ≡ y f) l
unfolding differences
differences-none x y [] h = tt
differences-none x y (f ∷ l) h = ground (arith, differences-none x y l)

changed-none :
    (one two : Bytes) (l : List ℕ) (x : ℕ)
    → no_entry (changed one two l) ≡ true
    → Among x l
    → get_or one x 0 ≡ get_or two x 0
unfolding changed
changed-none one two [] x h among = absurd among
changed-none one two (y ∷ l) x h among = elim (Bool-cases (get_or one y 0 == get_or two y 0)) [
  | inl same ↦ elim among [
    | inl e ↦ subst (λ n. get_or one n 0 ≡ get_or two n 0) e ((==_iff _ _).0 same)
    | inr later ↦ changed-none one two l x (rw same at h) later
  ]
  | inr differ ↦ let never = rw differ at h in cc
]

leb-lt : (x : ℕ) {n m : ℕ} → x ≤ m → leb n m ≡ false → x < n
leb-lt x le out = ground arith

highest-le : (l : List ℕ) (x : ℕ) → Among x l → x ≤ highest l
unfolding highest
highest-le [] x among = absurd among
highest-le (y ∷ l) x (inl e) = ground arith
highest-le (y ∷ l) x (inr later) = ground (arith, highest-le l x later)

noted-none :
    {A : Type 0} (i : ℕ) (name : List ℕ) (l : List A) (later : List (ℕ × List ℕ × List A))
    → no_entry (noted i name l later) ≡ true
    → (no_entry l ≡ true) × (no_entry later ≡ true)
unfolding noted
noted-none i name [] later h = (refl, h)
noted-none i name (d ∷ ds) later h = cc

-- No byte that was asked for differs, and each is inside both files.
compare_ram-none :
    (reference candidate : Folder) (ram : List ℕ) (name : List ℕ) {found : List (ℕ × ℕ × ℕ)}
    (one two : Bytes)
    → compare_ram reference candidate ram name ≡ ok found
    → no_entry found ≡ true
    → reference.ram name ≡ some one
    → candidate.ram name ≡ some two
    → (x : ℕ) → Among x ram
    → (x < length one) × (x < length two) × (get_or one x 0 ≡ get_or two x 0)
unfolding compare_ram
compare_ram-none reference candidate [] name one two h none_found r1 r2 x among = absurd among
compare_ram-none reference candidate (y ∷ l) name one two h none_found r1 r2 x among =
    let (m, e1, h1) = >>=-eq-ok (read_ram reference name) _ h in
    let (m', e2, h2) = >>=-eq-ok (read_ram candidate name) _ h1 in
    let (u, e3, h3) =
      >>=-eq-ok
        (raise_if (leb (length m) (highest (y ∷ l)) || leb (length m') (highest (y ∷ l)))
          short_capture)
        _ h2 in
    let same1 : m ≡ one = some_injective (sym (read_ram-ok reference name e1) ∙ r1) in
    let same2 : m' ≡ two = some_injective (sym (read_ram-ok candidate name e2) ∙ r2) in
    let (low1, low2) = ||-false _ _ (raise_if-ok _ _ e3) in
    let top = highest-le (y ∷ l) x among in
    let here : (x < length m) × (x < length m') × (get_or m x 0 ≡ get_or m' x 0) = (
      leb-lt x top low1,
      leb-lt x top low2,
      changed-none m m' (y ∷ l) x
          (subst (λ f. no_entry f ≡ true) (sym (ok_injective h3)) none_found) among,
    ) in
    subst (λ a. (x < length a) × (x < length two) × (get_or a x 0 ≡ get_or two x 0)) same1
      (subst (λ b. (x < length m) × (x < length b) × (get_or m x 0 ≡ get_or b x 0)) same2 here)

pub all_fields-any : (x y : Field → ℕ) → All (λ f. x f ≡ y f) all_fields → (f : Field) → x f ≡ y f
all_fields-any x y h game_state = h.0
all_fields-any x y h area_bytes = h.1.0
all_fields-any x y h camera_x = h.1.1.0
all_fields-any x y h player_x = h.1.1.1.0
all_fields-any x y h player_y = h.1.1.1.1.0

compare_rows-none :
    (reference candidate : Folder) (ram : List ℕ) (i : ℕ) (names : List (List ℕ)) (xs ys : List Row)
    {found : Mismatches}
    → ReadAs reference names xs
    → ReadAs candidate names ys
    → compare_rows reference candidate ram i xs ys ≡ ok found
    → no_entry found.states ≡ true
    → no_entry found.bytes ≡ true
    → All (AgreeAt reference candidate ram) names
unfolding compare_rows ReadAs
compare_rows-none reference candidate ram i [] xs ys a b h states bytes = tt
compare_rows-none reference candidate ram i (n ∷ ns) [] ys a b h states bytes = absurd a
compare_rows-none reference candidate ram i (n ∷ ns) (x ∷ xs) [] a b h states bytes = absurd b
compare_rows-none reference candidate ram i (n ∷ ns) (x ∷ xs) (y ∷ ys) a b h states bytes =
    let (one, r1, long1, row1, later1) = a in
    let (two, r2, long2, row2, later2) = b in
    let (found_bytes, e1, h1) = >>=-eq-ok (compare_ram reference candidate ram x.name) _ h in
    let (later, e2, h2) = >>=-eq-ok (compare_rows reference candidate ram (suc i) xs ys) _ h1 in
    let same = ok_injective h2 in
    let (no_state, states') =
      noted-none i x.name _ _ (subst (λ f. no_entry f.states ≡ true) (sym same) states) in
    let (no_byte, bytes') =
      noted-none i x.name _ _ (subst (λ f. no_entry f.bytes ≡ true) (sym same) bytes) in
    let fields_agree =
      all_fields-any x.state y.state (differences-none x.state y.state all_fields no_state) in
    let named : x.name ≡ n = ap (λ r. r.name) row1 in
    let agree : AgreeAt reference candidate ram n = record {
      one = one;
      two = two;
      read_one = r1;
      read_two = r2;
      long = (long1, long2);
      same_fields = λ f. sym (ap (λ r. r.state f) row1) ∙ fields_agree f ∙ ap (λ r. r.state f) row2;
      same_bytes =
          compare_ram-none reference candidate ram n one two
            (subst (λ k. compare_ram reference candidate ram k ≡ ok found_bytes) named e1) no_byte
            r1 r2;
    } in
    (
      agree,
      compare_rows-none reference candidate ram (suc i) ns xs ys later1 later2 e2 states' bytes',
    )

cons_eq :
    {A : Type 0} {x y : A} {xs ys : List A}
    → ◌≡◌ {A = List A} (x ∷ xs) (y ∷ ys)
    → (x ≡ y) × (xs ≡ ys)
cons_eq h = (cc, cc)

same_codes : (l m : List Button) → map button_code l ≡ map button_code m → l ≡ m
same_codes [] [] h = refl
same_codes [] (d ∷ m) h = cc
same_codes (c ∷ l) [] h = cc
same_codes (c ∷ l) (d ∷ m) h = ap₂ ◌∷◌ (same_code c d (cons_eq h).0) (same_codes l m (cons_eq h).1)

same_action-same : (c d : Action) → same_action c d ≡ true → c ≡ d
unfolding same_action
same_action-same c d h =
    let (name, rest) = &&-true (bytes_eq c.name d.name) _ h in
    let (updates, held) = &&-true (c.updates == d.updates) _ rest in
    let names = bytes_eq-same _ _ name in
    let counts = (==_iff _ _).0 updates in
    let all_held = same_codes c.buttons d.buttons (bytes_eq-same _ _ held) in
    λ i. record { name = names i; updates = counts i; buttons = all_held i }

same_actions-same : (cs ds : List Action) → same_actions cs ds ≡ true → cs ≡ ds
unfolding same_actions
same_actions-same [] [] h = refl
same_actions-same [] (d ∷ ds) h = cc
same_actions-same (c ∷ cs) [] h = cc
same_actions-same (c ∷ cs) (d ∷ ds) h =
    let (one, rest) = &&-true (same_action c d) _ h in
    ap₂ ◌∷◌ (same_action-same c d one) (same_actions-same cs ds rest)

-- The parts of a passed judgement.
record Judged (a b : Route) (found : Mismatches) : Type 0 where
  pub completed : (is_completed a.status ≡ true) × (is_completed b.status ≡ true)
  pub some_actions : 0 < length a.tail_actions
  pub fault_free : (a.fault ≡ false) × (b.fault ≡ false)
  pub nothing : (no_entry found.states ≡ true) × (no_entry found.bytes ≡ true)

positive : (n m : ℕ) → n == m ≡ true → ltb 0 n ≡ true → 0 < m
positive n m h k = omega (arith, (==_iff n m).0 h, ltb→lt 0 n k)

judge-passed :
    (ram : List ℕ) (a b : Route) (found : Mismatches)
    → (judge ram a b found).passed ≡ true
    → Judged a b found
unfolding judge
judge-passed ram a b found h =
    let (complete, rest) = &&-true _ _ h in
    let (no_fault, nothing) = &&-true _ _ rest in
    let (both, counts) = &&-true _ _ complete in
    let (all, any) = &&-true _ _ counts in
    let (no_a, no_b) = &&-true _ _ no_fault in
    record {
      completed = &&-true _ _ both;
      some_actions = positive _ _ all any;
      fault_free = (not-true _ no_a, not-true _ no_b);
      nothing = &&-true _ _ nothing;
    }

-- A comparison passes only if both routes were completed without a fault, have the same plan of at
-- least one action, and for every planned action both folders have a RAM file, in which all
-- selected fields and all requested bytes are equal.
pub compare_routes-passed :
    (reference candidate : Folder) (argument : AddressesArgument) (c : Comparison)
    → compare_routes reference candidate argument ≡ ok c
    → c.passed ≡ true
    → (plan : List Action) × (validate_actions reference.report.tail_actions ≡ ok plan)
      × (validate_actions candidate.report.tail_actions ≡ ok plan)
      × (0 < length plan)
      × (is_completed reference.report.status ≡ true)
      × (is_completed candidate.report.status ≡ true)
      × (reference.report.fault ≡ false)
      × (candidate.report.fault ≡ false)
      × All (AgreeAt reference candidate c.ram_addresses) (names_of plan)
unfolding compare_routes judge
compare_routes-passed reference candidate argument c h passed =
    let (ram, e1, h1) = >>=-eq-ok (validate_ram_addresses argument) _ h in
    let (a, e2, h2) = >>=-eq-ok (load_route reference) _ h1 in
    let (b, e3, h3) = >>=-eq-ok (load_route candidate) _ h2 in
    let (u4, e4, h4) =
      >>=-eq-ok (raise_if (not (same_actions a.tail_actions b.tail_actions)) different_input) _
        h3 in
    let (u5, e5, h5) = >>=-eq-ok (raise_if (not (a.steps == b.steps)) different_input) _ h4 in
    let (u6, e6, h6) =
      >>=-eq-ok (raise_if (not (same_actions a.pattern b.pattern)) different_input) _ h5 in
    let (u7, e7, h7) =
      >>=-eq-ok
        (raise_if (not (same_clock (clock_or_legacy a.clock_mode) (clock_or_legacy b.clock_mode)))
          different_clock)
        _ h6 in
    let (found, e8, h8) = >>=-eq-ok (compare_rows reference candidate ram 0 a.rows b.rows) _ h7 in
    let same = ok_injective h8 in
    let judged = judge-passed ram a b found (subst (λ r. r.passed ≡ true) (sym same) passed) in
    let (status_a, fault_a, plan_a, rows_a) = load_route-completed reference e2 in
    let (status_b, fault_b, plan_b, rows_b) = load_route-completed candidate e3 in
    let (done_a, done_b) = judged.completed in
    let plan : b.tail_actions ≡ a.tail_actions =
      sym (same_actions-same _ _ (raise_if-not-ok _ _ e4)) in
    let read_b = subst (λ l. ReadAs candidate (names_of l) b.rows) plan (rows_b done_b) in
    let agree =
      compare_rows-none reference candidate ram 0 (names_of a.tail_actions) a.rows b.rows
        (rows_a done_a) read_b e8 judged.nothing.0 judged.nothing.1 in
    (
      a.tail_actions,
      plan_a,
      plan_b ∙ ap (λ l. ok l) plan,
      judged.some_actions,
      subst (λ s. is_completed s ≡ true) status_a done_a,
      subst (λ s. is_completed s ≡ true) status_b done_b,
      sym fault_a ∙ judged.fault_free.0,
      sym fault_b ∙ judged.fault_free.1,
      subst (λ r. All (AgreeAt reference candidate r.ram_addresses) (names_of a.tail_actions)) same
          agree,
    )
