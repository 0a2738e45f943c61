-- ===== src/Route/Evidence/Milestones.antt =====
-- tools/route_milestones.py: the contract of a route, and its check against a recorded route.
-- `digest` is the SHA-256 of the actions' JSON text; the hashes and copied texts of the answer are
-- left out.
pub mod Verify
pub mod Reached
use nes2snes.Common.{ℕ, suc, ◌+◌, ◌^◌, Bool, true, false, not, ◌&&◌, ◌||◌, Option, none, some}
use nes2snes.Common.{
  List, [], ◌∷◌, ◌++◌, length, get_elem?, ltb, leb, ◌==◌, if◌then◌else◌, Bytes, bytes_eq,
}
use nes2snes.Common.{Result, ok, err, ◌>>=◌, ◌>>◌, raise_if, as_error, Value, nat}
use nes2snes.Common.Text.{TextArgument, text, not_text, is_fixture_name}
use nes2snes.Route.{button_code, Action, has_name}
use nes2snes.Route.Evidence.{
  Field, all_fields, fields, ClockMode, legacy, guarded, no_mode, unknown_mode, PatternArgument,
  Folder, Row, check_steps, check_pattern, read_ram, is_completed, load_route,
}
use nes2snes.Route.Evidence.Compare.{no_entry, same_clock, has_number}

-- The `ValueError`s, by what their messages name; `bad_route` is any error of load_route.
pub data MilestoneError : Type 0 where
  unknown_format bad_label bad_clock bad_pattern bad_digest no_milestones : MilestoneError
  bad_row bad_name bad_state bad_checks bad_check outside_ram : MilestoneError
  bad_route other_input other_actions absent_action unordered missing_capture : MilestoneError

pub data StateArgument : Type 0 where
  state : (Field → Value) → StateArgument
  foreign_state : StateArgument

-- A predicate's `address` and `equals`
pub data CheckArgument : Type 0 where
  check : Value → Value → CheckArgument
  foreign_check : CheckArgument

pub data ChecksArgument : Type 0 where
  checks : List CheckArgument → ChecksArgument
  not_checks : ChecksArgument

pub data MilestoneArgument : Type 0 where
  milestone : TextArgument → StateArgument → ChecksArgument → MilestoneArgument
  foreign_milestone : MilestoneArgument

pub data MilestonesArgument : Type 0 where
  milestones : List MilestoneArgument → MilestonesArgument
  not_milestones : MilestonesArgument

-- A dictionary with exactly the seven keys
pub record ContractFields : Type 0 where
  pub format : Value
  pub label : TextArgument
  pub clock_mode : ClockMode
  pub steps_requested : Value
  pub pattern : PatternArgument
  pub actions_sha256 : TextArgument
  pub milestones : MilestonesArgument

pub data ContractArgument : Type 0 where
  contract : ContractFields → ContractArgument
  foreign_contract : ContractArgument

pub record Milestone : Type 0 where
  pub name : List ℕ
  pub state : Field → ℕ
  pub ram_bytes : List (ℕ × ℕ)

pub record Contract : Type 0 where
  pub label : List ℕ
  pub clock_mode : ClockMode
  pub steps : ℕ
  pub pattern : List Action
  pub actions_sha256 : List ℕ
  pub milestones : List Milestone

unfoldable pub check_format : Value → Result MilestoneError (Unit {0})
check_format (nat n) = raise_if (not (n == 1)) unknown_format
check_format v = err unknown_format

unfoldable pub check_label : TextArgument → Result MilestoneError (List ℕ)
check_label (text l) = if leb 1 (length l) && leb (length l) 160 then ok l else err bad_label
check_label not_text = err bad_label

unfoldable pub clock_chosen : ClockMode → Bool
clock_chosen guarded = true
clock_chosen legacy = true
clock_chosen no_mode = false
clock_chosen unknown_mode = false

unfoldable pub lower_hex : List ℕ → Bool
lower_hex [] = true
lower_hex (c ∷ rest) = ((leb b'0' c && leb c b'9') || (leb b'a' c && leb c b'f')) && lower_hex rest

unfoldable pub check_digest : TextArgument → Result MilestoneError (List ℕ)
unfolding lower_hex
check_digest (text l) = if length l == 64 && lower_hex l then ok l else err bad_digest
check_digest not_text = err bad_digest

-- The name, if it is safe and new
unfoldable pub milestone_name : TextArgument → List (List ℕ) → Result MilestoneError (List ℕ)
unfolding has_name
milestone_name (text name) names =
    if is_fixture_name name && not (has_name name names) then ok name else err bad_name
milestone_name not_text names = err bad_name

unfoldable pub field_value : Field → Value → Option ℕ
unfolding fields
field_value f (nat n) = if ltb n (256 ^ (fields f).1) then some n else none
field_value f v = none

unfoldable pub all_bounded : (Field → Value) → List Field → Bool
unfolding field_value
all_bounded s [] = true
all_bounded s (f ∷ rest) = elim (field_value f (s f)) [ none ↦ false | some n ↦ all_bounded s rest ]

unfoldable pub milestone_state : StateArgument → Result MilestoneError (Field → ℕ)
unfolding all_bounded field_value
milestone_state foreign_state = err bad_state
milestone_state (state s) =
    if all_bounded s all_fields
    then ok (λ f. elim (field_value f (s f)) [ none ↦ 0 | some n ↦ n ])
    else err bad_state

-- One predicate, with the addresses before it
unfoldable pub check_predicate : List ℕ → CheckArgument → Result MilestoneError (ℕ × ℕ)
unfolding has_number
check_predicate before foreign_check = err bad_check
check_predicate before (check (nat address) (nat expected)) =
    if ltb address 2048 && (not (has_number address before) && ltb expected 256)
    then ok (address, expected)
    else err outside_ram
check_predicate before (check address expected) = err outside_ram

unfoldable pub predicates_loop : List ℕ → List CheckArgument → Result MilestoneError (List (ℕ × ℕ))
unfolding check_predicate
predicates_loop before [] = ok []
predicates_loop before (c ∷ rest) = do
  one ← check_predicate before c
  l ← predicates_loop (one.0 ∷ before) rest
  ok (one ∷ l)

unfoldable pub milestone_checks : ChecksArgument → Result MilestoneError (List (ℕ × ℕ))
unfolding predicates_loop
milestone_checks not_checks = err bad_checks
milestone_checks (checks l) = do raise_if (ltb 32 (length l)) bad_checks; predicates_loop [] l

unfoldable pub milestones_loop :
    List (List ℕ) → List MilestoneArgument → Result MilestoneError (List Milestone)
unfolding milestone_name milestone_state milestone_checks
milestones_loop names [] = ok []
milestones_loop names (foreign_milestone ∷ rest) = err bad_row
milestones_loop names (milestone name_argument state_argument checks_argument ∷ rest) = do
  name ← milestone_name name_argument names
  s ← milestone_state state_argument
  l ← milestone_checks checks_argument
  later ← milestones_loop (name ∷ names) rest
  ok (record { name = name; state = s; ram_bytes = l } ∷ later)

unfoldable pub check_milestones : MilestonesArgument → Result MilestoneError (List Milestone)
unfolding milestones_loop
check_milestones not_milestones = err no_milestones
check_milestones (milestones l) = do
  raise_if (not (leb 1 (length l) && leb (length l) 512)) no_milestones
  milestones_loop [] l

-- 'p-'
abbrev p_prefix : List ℕ
p_prefix = b'p' ∷ b'-' ∷ []

unfoldable pub validate_contract : ContractArgument → Result MilestoneError Contract
unfolding check_format check_label clock_chosen check_steps check_pattern check_digest
    check_milestones
validate_contract foreign_contract = err unknown_format
validate_contract (contract value) = do
  check_format value.format
  label ← check_label value.label
  raise_if (not (clock_chosen value.clock_mode)) bad_clock
  steps ← as_error bad_clock (check_steps value.steps_requested)
  pattern ← as_error bad_pattern (check_pattern p_prefix value.pattern)
  digest ← check_digest value.actions_sha256
  rows ← check_milestones value.milestones
  ok (record {
    label = label;
    clock_mode = value.clock_mode;
    steps = steps;
    pattern = pattern;
    actions_sha256 = digest;
    milestones = rows;
  })
