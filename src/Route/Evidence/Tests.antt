-- ===== src/Route/Evidence/Tests.antt =====
-- Two recorded routes and a contract, and the theorems at them.
use nes2snes.Common.{ℕ, ◌<◌, ◌≡◌, refl, Bool, true, false, none, some, if◌then◌else◌}
use nes2snes.Common.{Bytes, All, bytes_eq, List, [], ◌∷◌, ◌++◌, length, replicate, ok, err, nat}
use nes2snes.Common.Text.{text, is_fixture_name}
use nes2snes.Route.{right, button, buttons, actions, Action, validate_actions}
use nes2snes.Route.Actions.{as_argument, names_of}
use nes2snes.Route.Evidence.{
  nes, completed_budget, failed, Status, legacy, no_mode, step, pattern, marker, markers, Folder,
  is_completed, fields, clock_or_legacy,
}
use nes2snes.Route.Evidence.Compare.{addresses, Comparison, compare_routes}
use nes2snes.Route.Evidence.Compare.Passed.{AgreeAt, compare_routes-passed}
use nes2snes.Route.Evidence.Milestones.{
  state, check, checks, milestone, milestones, contract, ContractArgument, Contract, other_input,
  validate_contract,
}
use nes2snes.Route.Evidence.Milestones.Verify.{Verdict, verify}
use nes2snes.Route.Evidence.Milestones.Reached.{IsReached, verify-passed}

abbrev run_name : List ℕ
run_name = b'r' ∷ b'u' ∷ b'n' ∷ []

abbrev run : Action
run = record { name = run_name; updates = 60; buttons = right ∷ [] }

-- A capture with a byte at address 0x10.
abbrev capture : ℕ → Bytes
capture v = replicate 16 0 ++ (v ∷ replicate 1064 0)

abbrev recorded : Status → ℕ → Folder
recorded status v = record {
  report = record {
    platform = nes;
    status = status;
    clock_mode = no_mode;
    steps_requested = nat 100;
    pattern = pattern (step (nat 2) (buttons (button right ∷ [])) ∷ []);
    tail_actions = actions (as_argument run ∷ []);
    tail_records = markers (marker (text run_name) (nat 7) ∷ []);
    fault = false;
  };
  ram = λ name. if bytes_eq name run_name then some (capture v) else none;
}

passes : Folder → Folder → Bool
unfolding compare_routes
passes one two = elim (compare_routes one two (addresses (nat 0x10 ∷ []))) [
  | ok c ↦ c.passed
  | err e ↦ false
]

verdicts :
    (passes (recorded completed_budget 3) (recorded completed_budget 3) ≡ true)
    × (passes (recorded completed_budget 3) (recorded completed_budget 4) ≡ false)
    × (passes (recorded completed_budget 3) (recorded failed 3) ≡ false)
unfolding passes compare_routes is_fixture_name bytes_eq validate_actions fields clock_or_legacy
verdicts = (refl, refl, refl)

abbrev both : Comparison
both = record {
  passed = true;
  complete_routes = true;
  fault_free = true;
  ram_addresses = 0x10 ∷ [];
  ram_bytes_checked = 1;
  ram_mismatched_checkpoints = 0;
  ram_mismatches = [];
  clock_mode = legacy;
  planned_checkpoints = 1;
  checkpoints_compared = 1;
  state_fields_checked = 5;
  state_bytes_checked = 9;
  mismatched_checkpoints = 0;
  mismatches = [];
}

compared :
    compare_routes
      (recorded completed_budget 3)
      (recorded completed_budget 3)
      (addresses (nat 0x10 ∷ []))
    ≡ ok both
unfolding compare_routes is_fixture_name bytes_eq validate_actions fields clock_or_legacy
compared = refl

compare_routes-passed_example :
    (plan : List Action) × (validate_actions (actions (as_argument run ∷ [])) ≡ ok plan)
    × (validate_actions (actions (as_argument run ∷ [])) ≡ ok plan)
    × (0 < length plan)
    × (is_completed completed_budget ≡ true)
    × (is_completed completed_budget ≡ true)
    × (false ≡ false)
    × (false ≡ false)
    × All
        (AgreeAt (recorded completed_budget 3) (recorded completed_budget 3) (0x10 ∷ []))
        (names_of plan)
compare_routes-passed_example =
    compare_routes-passed (recorded completed_budget 3) (recorded completed_budget 3)
      (addresses (nat 0x10 ∷ [])) both compared refl

-- The state of the capture is zero, and the byte at address 0x10 is 3.
abbrev destination : ContractArgument
destination = contract (record {
  format = nat 1;
  label = text run_name;
  clock_mode = legacy;
  steps_requested = nat 100;
  pattern = pattern (step (nat 2) (buttons (button right ∷ [])) ∷ []);
  actions_sha256 = text (replicate 64 b'0');
  milestones = milestones (
      milestone (text run_name) (state (λ f. nat 0)) (checks (check (nat 0x10) (nat 3) ∷ [])) ∷ []);
})

abbrev guarded_route : ℕ → Folder
guarded_route v = record {
  report = record (recorded completed_budget v).report { clock_mode = legacy };
  ram = (recorded completed_budget v).ram;
}

abbrev digest : List Action → List ℕ
digest plan = replicate 64 b'0'

abbrev reached : Verdict
reached = record {
  passed = true;
  complete_route = true;
  milestones_checked = 1;
  results = (run_name, []) ∷ [];
}

verified : verify digest (guarded_route 3) destination ≡ ok reached
unfolding verify validate_contract is_fixture_name bytes_eq validate_actions fields clock_or_legacy
verified = refl

-- A route without the key is compared as None, not as the default of load_route.
unequal_clock : verify digest (recorded completed_budget 3) destination ≡ err other_input
unfolding verify validate_contract is_fixture_name bytes_eq validate_actions fields clock_or_legacy
unequal_clock = refl

verify-passed_example :
    (c : Contract) × (plan : List Action) × (validate_contract destination ≡ ok c)
    × (validate_actions (actions (as_argument run ∷ [])) ≡ ok plan)
    × (digest plan ≡ c.actions_sha256)
    × (is_completed completed_budget ≡ true)
    × (false ≡ false)
    × All (IsReached (guarded_route 3)) c.milestones
verify-passed_example = verify-passed digest (guarded_route 3) destination reached verified refl
