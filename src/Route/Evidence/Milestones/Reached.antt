-- ===== src/Route/Evidence/Milestones/Reached.antt =====
-- tools/route_milestones.py: what a passed check of a contract means.
use nes2snes.Common.{
  ℕ, ◌≡◌, inl, inr, sym, ap, ◌∙◌, subst, Bool-cases, true, false, not, ◌&&◌, &&-true, not-true,
  Option, Option-cases, none, some, some_injective,
}
use nes2snes.Common.{List, [], ◌∷◌, All, get_elem?, ◌==◌, ==_iff, Bytes, bytes_eq, bytes_eq-same}
use nes2snes.Common.{ok, raise_if, raise_if-not-ok, >>=-eq-ok, ok_injective, as_error, as_error-ok}
use nes2snes.Route.{Action, validate_actions}
use nes2snes.Route.Actions.{Among, names_of}
use nes2snes.Route.Evidence.{Field, all_fields, Folder, Row, read_ram, is_completed, load_route}
use nes2snes.Route.Evidence.Loaded.{field_of, ReadAs, read_ram-ok, load_route-completed}
use nes2snes.Route.Evidence.Compare.{same_clock, no_entry}
use nes2snes.Route.Evidence.Compare.Passed.{all_fields-any}
use nes2snes.Route.Evidence.Milestones.{
  bad_route, other_input, other_actions, unordered, missing_capture, ContractArgument, Milestone,
  Contract, validate_contract,
}
use nes2snes.Route.Evidence.Milestones.Verify.{
  same_pattern, indexes, is_sorted, observed, Difference, field_differences, byte_differences,
  milestone_differences, milestone_results, all_passed, Verdict, verify,
}

-- The capture at a milestone has the state and the bytes that the contract names.
pub record IsReached (folder : Folder) (m : Milestone) : Type 0 where
  pub memory : Bytes
  pub captured : folder.ram m.name ≡ some memory
  pub same_fields : (f : Field) → field_of memory f ≡ m.state f
  pub same_bytes :
      (address expected : ℕ)
      → Among (address, expected) m.ram_bytes
      → get_elem? memory address ≡ some expected

observed-field_of :
    (folder : Folder) (name : List ℕ) (names : List (List ℕ)) (rows : List Row) {s : Field → ℕ}
    → ReadAs folder names rows
    → observed name rows ≡ some s
    → (m : Bytes) × (folder.ram name ≡ some m) × (s ≡ field_of m)
unfolding ReadAs observed
observed-field_of folder name names [] a h = cc
observed-field_of folder name [] (r ∷ rows) a h = absurd a
observed-field_of folder name (n ∷ names) (r ∷ rows) (m, read, long, row, later) h =
    elim (Bool-cases (bytes_eq r.name name)) [
      | inl same ↦
          let named : n ≡ name = sym (ap (λ r. r.name) row) ∙ bytes_eq-same _ _ same in
          let state : ◌≡◌ {A = Option (Field → ℕ)} (some r.state) (some _) = rw same at h in
          (
            m,
            subst (λ k. folder.ram k ≡ some m) named read,
            sym (some_injective state) ∙ ap (λ r. r.state) row,
          )
      | inr other ↦ observed-field_of folder name names rows later (rw other at h)
    ]

field_differences-none :
    (expected actual : Field → ℕ) (l : List Field) (later : List Difference)
    → no_entry (field_differences expected actual l later) ≡ true
    → All (λ f. actual f ≡ expected f) l × (no_entry later ≡ true)
unfolding field_differences
field_differences-none expected actual [] later h = (tt, h)
field_differences-none expected actual (f ∷ l) later h =
    elim (Bool-cases (actual f == expected f)) [
      | inl same ↦
          let (rest, end) = field_differences-none expected actual l later (rw same at h) in
          (((==_iff _ _).0 same, rest), end)
      | inr differ ↦ let never = rw differ at h in cc
    ]

holds :
    (actual : Option ℕ) (expected : ℕ)
    → elim actual [ none ↦ false | some v ↦ v == expected ] ≡ true
    → actual ≡ some expected
holds none expected h = cc
holds (some v) expected h = ap some ((==_iff v expected).0 h)

byte_differences-none :
    (memory : Bytes) (l : List (ℕ × ℕ)) (address expected : ℕ)
    → no_entry (byte_differences memory l) ≡ true
    → Among (address, expected) l
    → get_elem? memory address ≡ some expected
unfolding byte_differences
byte_differences-none memory [] address expected h among = absurd among
byte_differences-none memory ((a, e) ∷ l) address expected h among =
    elim (Bool-cases (elim (get_elem? memory a) [ none ↦ false | some v ↦ v == e ])) [
      | inl same ↦ elim among [
        | inl here ↦
            subst (λ p. get_elem? memory p.0 ≡ some p.1) here (holds (get_elem? memory a) e same)
        | inr later ↦ byte_differences-none memory l address expected (rw same at h) later
      ]
      | inr differ ↦ let never = rw differ at h in cc
    ]

milestone_differences-IsReached :
    (folder : Folder) (names : List (List ℕ)) (rows : List Row) (m : Milestone)
    {found : List Difference}
    → ReadAs folder names rows
    → milestone_differences folder rows m ≡ ok found
    → no_entry found ≡ true
    → IsReached folder m
unfolding milestone_differences
milestone_differences-IsReached folder names rows m {found} a h none_found =
    elim (Option-cases (observed m.name rows)) [
      | inl unseen ↦
          let given = rw (milestone_differences, unseen) at h in
          let never = subst (λ l. no_entry l ≡ true) (sym (ok_injective given)) none_found in cc
      | inr (s, seen) ↦
          let (memory, read, state) = observed-field_of folder m.name names rows a seen in
          let given = rw (milestone_differences, seen) at h in
          let (again, e1, h1) =
            >>=-eq-ok (as_error missing_capture (read_ram folder m.name)) _ given in
          let same : again ≡ memory =
            some_injective (sym (read_ram-ok folder m.name (as_error-ok _ _ e1)) ∙ read) in
          let nothing = subst (λ l. no_entry l ≡ true) (sym (ok_injective h1)) none_found in
          let (fields_agree, no_byte) = field_differences-none m.state s all_fields _ nothing in
          record {
            memory = memory;
            captured = read;
            same_fields = λ f. sym (ap (λ g. g f) state) ∙ all_fields-any s m.state fields_agree f;
            same_bytes =
                subst
                  (λ b.
                    (address expected : ℕ)
                    → Among (address, expected) m.ram_bytes
                    → get_elem? b address ≡ some expected)
                  same
                  (λ address expected.
                    byte_differences-none again m.ram_bytes address expected no_byte);
          }
    ]

milestone_results-All :
    (folder : Folder) (names : List (List ℕ)) (rows : List Row) (l : List Milestone)
    {results : List (List ℕ × List Difference)}
    → ReadAs folder names rows
    → milestone_results folder rows l ≡ ok results
    → all_passed results ≡ true
    → All (IsReached folder) l
unfolding milestone_results all_passed
milestone_results-All folder names rows [] a h passed = tt
milestone_results-All folder names rows (m ∷ l) {results} a h passed =
    let (found, e1, h1) = >>=-eq-ok (milestone_differences folder rows m) _ h in
    let (later, e2, h2) = >>=-eq-ok (milestone_results folder rows l) _ h1 in
    let both = subst (λ l. all_passed l ≡ true) (sym (ok_injective h2)) passed in
    let (this, others) = &&-true (no_entry found) (all_passed later) both in
    (
      milestone_differences-IsReached folder names rows m a e1 this,
      milestone_results-All folder names rows l a e2 others,
    )

-- A check passes only if the contract is valid, the route was completed without a fault, its plan
-- has the contract's digest, and at every milestone the captured memory has the contract's state
-- and all of its RAM bytes.
pub verify-passed :
    (digest : List Action → List ℕ) (folder : Folder) (value : ContractArgument) (v : Verdict)
    → verify digest folder value ≡ ok v
    → v.passed ≡ true
    → (c : Contract) × (plan : List Action) × (validate_contract value ≡ ok c)
      × (validate_actions folder.report.tail_actions ≡ ok plan)
      × (digest plan ≡ c.actions_sha256)
      × (is_completed folder.report.status ≡ true)
      × (folder.report.fault ≡ false)
      × All (IsReached folder) c.milestones
unfolding verify
verify-passed digest folder value v h passed =
    let (c, e1, h1) = >>=-eq-ok (validate_contract value) _ h in
    let (a, e2, h2) = >>=-eq-ok (as_error bad_route (load_route folder)) _ h1 in
    let (u3, e3, h3) =
      >>=-eq-ok (raise_if (not (same_clock a.clock_mode c.clock_mode)) other_input) _ h2 in
    let (u4, e4, h4) = >>=-eq-ok (raise_if (not (a.steps == c.steps)) other_input) _ h3 in
    let (u5, e5, h5) =
      >>=-eq-ok (raise_if (not (same_pattern a.pattern c.pattern)) other_input) _ h4 in
    let (u6, e6, h6) =
      >>=-eq-ok (raise_if (not (bytes_eq (digest a.tail_actions) c.actions_sha256)) other_actions) _
        h5 in
    let (places, e7, h7) = >>=-eq-ok (indexes c.milestones a.tail_actions) _ h6 in
    let (u8, e8, h8) = >>=-eq-ok (raise_if (not (is_sorted places)) unordered) _ h7 in
    let (results, e9, h9) = >>=-eq-ok (milestone_results folder a.rows c.milestones) _ h8 in
    let (complete, all) =
      &&-true (is_completed a.status && not a.fault) (all_passed results)
        (subst (λ r. r.passed ≡ true) (sym (ok_injective h9)) passed) in
    let (done, no_fault) = &&-true (is_completed a.status) (not a.fault) complete in
    let (status, fault, plan, rows) = load_route-completed folder (as_error-ok _ _ e2) in
    (
      c,
      a.tail_actions,
      e1,
      plan,
      bytes_eq-same _ _ (raise_if-not-ok _ _ e6),
      subst (λ s. is_completed s ≡ true) status done,
      sym fault ∙ not-true _ no_fault,
      milestone_results-All folder (names_of a.tail_actions) a.rows c.milestones (rows done) e9 all,
    )
