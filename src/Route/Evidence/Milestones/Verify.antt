-- ===== src/Route/Evidence/Milestones/Verify.antt =====
-- tools/route_milestones.py, verify: a recorded route against a contract.
-- `digest` is the parameter for the SHA-256 of the actions' JSON text. The answer's hashes and
-- copied texts are left out.
use nes2snes.Common.{ℕ, suc, Bool, true, false, not, ◌&&◌, Option, none, some}
use nes2snes.Common.{
  List, [], ◌∷◌, map, length, get_elem?, leb, ◌==◌, if◌then◌else◌, Bytes, bytes_eq,
}
use nes2snes.Common.{Result, ok, err, ◌>>=◌, ◌>>◌, raise_if, as_error}
use nes2snes.Route.{button_code, Action}
use nes2snes.Route.Evidence.{Field, all_fields, Folder, Row, read_ram, is_completed, load_route}
use nes2snes.Route.Evidence.Compare.{same_clock, no_entry}
use nes2snes.Route.Evidence.Milestones.{
  MilestoneError, bad_route, other_input, other_actions, absent_action, unordered, missing_capture,
  ContractArgument, Milestone, validate_contract,
}

-- Two entries of a pattern: their `updates` and `buttons`
unfoldable pub same_step : Action → Action → Bool
same_step c d =
    c.updates == d.updates && bytes_eq (map button_code c.buttons) (map button_code d.buttons)

unfoldable pub same_pattern : List Action → List Action → Bool
unfolding same_step
same_pattern [] [] = true
same_pattern (c ∷ cs) (d ∷ ds) = same_step c d && same_pattern cs ds
same_pattern [] (d ∷ ds) = false
same_pattern (c ∷ cs) [] = false

-- `names.index(name)`, where it is there
unfoldable pub index_of : List ℕ → List Action → Option ℕ
index_of name [] = none
index_of name (c ∷ rest) =
    let later = index_of name rest in
    if bytes_eq c.name name then some 0 else elim later [ none ↦ none | some i ↦ some (suc i) ]

-- `indexes`, or the error for an absent name
unfoldable pub indexes : List Milestone → List Action → Result MilestoneError (List ℕ)
unfolding index_of
indexes [] plan = ok []
indexes (m ∷ rest) plan = do
  i ← elim (index_of m.name plan) [ none ↦ err absent_action | some i ↦ ok i ]
  l ← indexes rest plan
  ok (i ∷ l)

-- `indexes == sorted(indexes)`: no index is below the one before it.
unfoldable pub is_sorted : List ℕ → Bool
is_sorted [] = true
is_sorted (i ∷ []) = true
is_sorted (i ∷ j ∷ rest) = leb i j && is_sorted (j ∷ rest)

-- `observed.get(name)`; the names of the rows are distinct.
unfoldable pub observed : List ℕ → List Row → Option (Field → ℕ)
observed name [] = none
observed name (r ∷ rest) =
    let later = observed name rest in if bytes_eq r.name name then some r.state else later

-- An entry of `differences`, with the expected and the actual value.
pub data Difference : Type 0 where
  missing_checkpoint : Difference
  field : Field → ℕ → ℕ → Difference
  ram_byte : ℕ → ℕ → Option ℕ → Difference

unfoldable pub field_differences :
    (Field → ℕ) → (Field → ℕ) → List Field → List Difference → List Difference
field_differences expected actual [] later = later
field_differences expected actual (f ∷ rest) later =
    let others = field_differences expected actual rest later in
    if actual f == expected f then others else field f (expected f) (actual f) ∷ others

unfoldable pub byte_differences : Bytes → List (ℕ × ℕ) → List Difference
byte_differences memory [] = []
byte_differences memory ((address, expected) ∷ rest) =
    let others = byte_differences memory rest in
    let actual = get_elem? memory address in
    if elim actual [ none ↦ false | some v ↦ v == expected ]
    then others
    else ram_byte address expected actual ∷ others

-- The body of the loop over the milestones
unfoldable pub milestone_differences :
    Folder → List Row → Milestone → Result MilestoneError (List Difference)
unfolding observed read_ram field_differences byte_differences
milestone_differences folder rows m = elim (observed m.name rows) [
  | none ↦ ok (missing_checkpoint ∷ [])
  | some actual ↦ do
    memory ← as_error missing_capture (read_ram folder m.name)
    ok (field_differences m.state actual all_fields (byte_differences memory m.ram_bytes))
]

-- `results`: each milestone's name and differences
unfoldable pub milestone_results :
    Folder → List Row → List Milestone → Result MilestoneError (List (List ℕ × List Difference))
unfolding milestone_differences
milestone_results folder rows [] = ok []
milestone_results folder rows (m ∷ rest) = do
  found ← milestone_differences folder rows m
  later ← milestone_results folder rows rest
  ok ((m.name, found) ∷ later)

-- `all(r['passed'] for r in results)`
unfoldable pub all_passed : List (List ℕ × List Difference) → Bool
all_passed [] = true
all_passed ((name, found) ∷ rest) = no_entry found && all_passed rest

pub record Verdict : Type 0 where
  pub passed : Bool
  pub complete_route : Bool
  pub milestones_checked : ℕ
  pub results : List (List ℕ × List Difference)

unfoldable pub verify :
    (List Action → List ℕ) → Folder → ContractArgument → Result MilestoneError Verdict
unfolding validate_contract load_route same_clock same_pattern indexes is_sorted milestone_results
    is_completed all_passed
verify digest folder value = do
  c ← validate_contract value
  report ← as_error bad_route (load_route folder)
  raise_if (not (same_clock report.clock_mode c.clock_mode)) other_input
  raise_if (not (report.steps == c.steps)) other_input
  raise_if (not (same_pattern report.pattern c.pattern)) other_input
  raise_if (not (bytes_eq (digest report.tail_actions) c.actions_sha256)) other_actions
  places ← indexes c.milestones report.tail_actions
  raise_if (not (is_sorted places)) unordered
  results ← milestone_results folder report.rows c.milestones
  let complete = is_completed report.status && not report.fault in
      ok (record {
        passed = complete && all_passed results;
        complete_route = complete;
        milestones_checked = length results;
        results = results;
      })
