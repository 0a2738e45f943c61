-- ===== src/Route/Evidence.antt =====
-- tools/route_evidence.py: a recorded route, as load_route reads and checks it.
-- The report is a value already parsed from JSON. A folder's `.ram` files are a function from an
-- action's name to the bytes of its file, or `none` where there is no such file.
pub mod Loaded
pub mod Compare
pub mod Milestones
mod Tests
use nes2snes.Common.{ℕ, zero, suc, ◌+◌, ◌/◌, ◌%◌, Bool, true, false, not, ◌&&◌, Option, none, some}
use nes2snes.Common.{List, [], ◌∷◌, ◌++◌, length, slice, from_bytes, ltb, leb, ◌==◌, if◌then◌else◌}
use nes2snes.Common.{Bytes, bytes_eq, Result, ok, err, ◌>>=◌, ◌>>◌, raise_if, as_error, Value, nat}
use nes2snes.Common.Text.{TextArgument, text, not_text}
use nes2snes.Route.{
  ButtonsArgument, ActionArgument, action, ActionsArgument, actions, Action, validate_actions,
}

-- The `ValueError`s, by what their messages name; `missing_file` is the `FileNotFoundError`.
pub data RouteError : Type 0 where
  unknown_platform not_finalized unknown_clock bad_steps bad_pattern bad_record : RouteError
  bad_actions bad_markers bad_prefix bad_calls late_marker missing_markers : RouteError
  missing_file short_ram bad_addresses repeated_address different_input : RouteError
  different_clock short_capture : RouteError

-- The keys of FIELDS
pub data Field : Type 0 where
  game_state area_bytes camera_x player_x player_y : Field

abbrev pub all_fields : List Field
all_fields = game_state ∷ area_bytes ∷ camera_x ∷ player_x ∷ player_y ∷ []

-- FIELDS: the address and the number of bytes
unfoldable pub fields : Field → ℕ × ℕ
fields game_state = (0x18, 1)
fields area_bytes = (0x32, 4)
fields camera_x = (0x56, 2)
fields player_x = (0x438, 1)
fields player_y = (0x41c, 1)

unfoldable pub fields_end : List Field → ℕ
unfolding fields
fields_end [] = 0
fields_end (f ∷ rest) =
    let here = (fields f).0 + (fields f).1 in
    let later = fields_end rest in if leb later here then here else later

unfoldable pub selected_state : Bytes → Result RouteError (Field → ℕ)
unfolding fields fields_end
selected_state memory =
    if ltb (length memory) (fields_end all_fields)
    then err short_ram
    else ok (λ f. from_bytes (slice memory (fields f).0 ((fields f).0 + (fields f).1)))

pub data Platform : Type 0 where
  nes snes unknown_machine : Platform

pub data Status : Type 0 where
  completed_budget failed in_progress : Status

-- `clock_mode`, if the key is there
pub data ClockMode : Type 0 where
  legacy guarded no_mode unknown_mode : ClockMode

-- `report.get('clock_mode', 'legacy')`
unfoldable pub clock_or_legacy : ClockMode → ClockMode
clock_or_legacy no_mode = legacy
clock_or_legacy c = c

-- An element of `pattern`: a dictionary with `updates` and `buttons`, or anything else.
pub data StepArgument : Type 0 where
  step : Value → ButtonsArgument → StepArgument
  foreign_step : StepArgument

pub data PatternArgument : Type 0 where
  pattern : List StepArgument → PatternArgument
  not_pattern : PatternArgument

-- An element of `tail_records`: its name and `emulator_calls`, or no dictionary.
pub data MarkerArgument : Type 0 where
  marker : TextArgument → Value → MarkerArgument
  foreign_marker : MarkerArgument

pub data MarkersArgument : Type 0 where
  markers : List MarkerArgument → MarkersArgument
  not_markers : MarkersArgument

pub record Report : Type 0 where
  pub platform : Platform
  pub status : Status
  pub clock_mode : ClockMode
  pub steps_requested : Value
  pub pattern : PatternArgument
  pub tail_actions : ActionsArgument
  pub tail_records : MarkersArgument
  -- `fault` is there and is not None.
  pub fault : Bool

-- The route's folder: its report and its `.ram` files.
pub record Folder : Type 0 where
  pub report : Report
  pub ram : List ℕ → Option Bytes

pub record Row : Type 0 where
  pub name : List ℕ
  pub state : Field → ℕ

-- The checked report, and the rows.
pub record Route : Type 0 where
  pub platform : Platform
  pub status : Status
  pub clock_mode : ClockMode
  pub steps : ℕ
  pub pattern : List Action
  pub tail_actions : List Action
  pub fault : Bool
  pub rows : List Row

-- The decimal digits of `i`, for i below 100, behind a prefix
unfoldable pub numbered : List ℕ → ℕ → List ℕ
numbered prefix i =
    prefix ++ (if ltb i 10 then (b'0' + i) ∷ [] else (b'0' + i / 10) ∷ (b'0' + i % 10) ∷ [])

-- 'pattern-'
abbrev pub pattern_prefix : List ℕ
pattern_prefix = b'p' ∷ b'a' ∷ b't' ∷ b't' ∷ b'e' ∷ b'r' ∷ b'n' ∷ b'-' ∷ []

-- `[dict(name=f'{prefix}{i}', **p) for i, p in enumerate(pattern)]`, where every p has the two keys
unfoldable pub pattern_actions :
    List ℕ → ℕ → List StepArgument → Result RouteError (List ActionArgument)
unfolding numbered
pattern_actions prefix i [] = ok []
pattern_actions prefix i (foreign_step ∷ rest) = err bad_record
pattern_actions prefix i (step updates held ∷ rest) = do
  later ← pattern_actions prefix (suc i) rest
  ok (action (text (numbered prefix i)) updates held ∷ later)

unfoldable pub check_pattern : List ℕ → PatternArgument → Result RouteError (List Action)
unfolding pattern_actions validate_actions
check_pattern prefix not_pattern = err bad_pattern
check_pattern prefix (pattern l) = do
  raise_if (not (leb 1 (length l) && leb (length l) 16)) bad_pattern
  named ← pattern_actions prefix 0 l
  as_error bad_actions (validate_actions (actions named))

unfoldable pub check_steps : Value → Result RouteError ℕ
check_steps (nat n) = if leb 1 n && leb n 1000 then ok n else err bad_steps
check_steps v = err bad_steps

-- One marker, with the action at its place and the `emulator_calls` of the marker before.
unfoldable pub check_marker : MarkerArgument → Action → Option ℕ → Result RouteError ℕ
check_marker foreign_marker due previous = err bad_prefix
check_marker (marker not_text calls) due previous = err bad_prefix
check_marker (marker (text name) (nat calls)) due previous = do
  raise_if (not (bytes_eq name due.name)) bad_prefix
  raise_if (leb calls 0) bad_calls
  raise_if (elim previous [ none ↦ false | some before ↦ leb calls before ]) late_marker
  ok calls
check_marker (marker (text name) v) due previous = do
  raise_if (not (bytes_eq name due.name)) bad_prefix
  err bad_calls

-- The markers' names; there are no more markers than actions.
unfoldable pub marker_loop :
    List MarkerArgument → List Action → Option ℕ → Result RouteError (List (List ℕ))
unfolding check_marker
marker_loop [] due previous = ok []
marker_loop (m ∷ rest) [] previous = err bad_markers
marker_loop (m ∷ rest) (c ∷ due) previous = do
  calls ← check_marker m c previous
  names ← marker_loop rest due (some calls)
  ok (c.name ∷ names)

unfoldable pub check_markers : MarkersArgument → List Action → Result RouteError (List (List ℕ))
unfolding marker_loop
check_markers not_markers due = err bad_markers
check_markers (markers l) due = do
  raise_if (ltb (length due) (length l)) bad_markers
  marker_loop l due none

unfoldable pub read_ram : Folder → List ℕ → Result RouteError Bytes
read_ram folder name = elim (folder.ram name) [ none ↦ err missing_file | some m ↦ ok m ]

unfoldable pub read_rows : Folder → List (List ℕ) → Result RouteError (List Row)
unfolding read_ram selected_state
read_rows folder [] = ok []
read_rows folder (name ∷ rest) = do
  memory ← read_ram folder name
  state ← selected_state memory
  rows ← read_rows folder rest
  ok (record { name = name; state = state } ∷ rows)

unfoldable pub is_known_platform : Platform → Bool
is_known_platform nes = true
is_known_platform snes = true
is_known_platform unknown_machine = false

unfoldable pub is_final : Status → Bool
is_final completed_budget = true
is_final failed = true
is_final in_progress = false

unfoldable pub is_completed : Status → Bool
is_completed completed_budget = true
is_completed s = false

unfoldable pub is_known_clock : ClockMode → Bool
is_known_clock legacy = true
is_known_clock guarded = true
is_known_clock no_mode = false
is_known_clock unknown_mode = false

unfoldable pub load_route : Folder → Result RouteError Route
unfolding is_known_platform is_final is_completed clock_or_legacy is_known_clock check_steps
    check_pattern check_markers read_rows
load_route folder =
    let report = folder.report in
    do
      raise_if (not (is_known_platform report.platform)) unknown_platform
      raise_if (not (is_final report.status)) not_finalized
      raise_if (not (is_known_clock (clock_or_legacy report.clock_mode))) unknown_clock
      steps ← check_steps report.steps_requested
      steps_pattern ← check_pattern pattern_prefix report.pattern
      due ← as_error bad_actions (validate_actions report.tail_actions)
      names ← check_markers report.tail_records due
      raise_if (is_completed report.status && not (length names == length due)) missing_markers
      rows ← read_rows folder names
      ok (record {
        platform = report.platform;
        status = report.status;
        clock_mode = report.clock_mode;
        steps = steps;
        pattern = steps_pattern;
        tail_actions = due;
        fault = report.fault;
        rows = rows;
      })
