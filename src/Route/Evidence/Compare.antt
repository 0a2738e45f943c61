-- ===== src/Route/Evidence/Compare.antt =====
-- tools/route_evidence.py, validate_ram_addresses and compare_routes.
-- The hashes, the copied fields of the reports and the texts of the answer are left out.
pub mod Passed
use nes2snes.Common.{ℕ, suc, ◌+◌, ◌*◌, min, Bool, true, false, not, ◌&&◌, ◌||◌, none, some}
use nes2snes.Common.{
  List, [], ◌∷◌, map, length, get_or, ltb, leb, ◌==◌, if◌then◌else◌, Bytes, bytes_eq,
}
use nes2snes.Common.{Result, ok, err, ◌>>=◌, ◌>>◌, raise_if, Value, nat}
use nes2snes.Route.{button_code, Action}
use nes2snes.Route.Evidence.{
  RouteError, bad_addresses, repeated_address, different_input, different_clock, short_capture,
  Field, all_fields, fields, ClockMode, legacy, guarded, no_mode, clock_or_legacy, unknown_mode,
  Status, completed_budget, Folder, Row, Route, read_ram, is_completed, load_route,
}

-- `ram_addresses`: a list or tuple, or anything else
pub data AddressesArgument : Type 0 where
  addresses : List Value → AddressesArgument
  not_addresses : AddressesArgument

unfoldable pub ram_numbers : List Value → Result RouteError (List ℕ)
ram_numbers [] = ok []
ram_numbers (nat x ∷ rest) = do
  raise_if (not (ltb x 2048)) bad_addresses
  l ← ram_numbers rest
  ok (x ∷ l)
ram_numbers (v ∷ rest) = err bad_addresses

unfoldable pub has_number : ℕ → List ℕ → Bool
has_number x [] = false
has_number x (y ∷ rest) = y == x || has_number x rest

-- `len(set(value)) != len(value)`
unfoldable pub repeats : List ℕ → Bool
unfolding has_number
repeats [] = false
repeats (x ∷ rest) = has_number x rest || repeats rest

unfoldable pub validate_ram_addresses : AddressesArgument → Result RouteError (List ℕ)
unfolding ram_numbers repeats
validate_ram_addresses not_addresses = err bad_addresses
validate_ram_addresses (addresses values) = do
  raise_if (ltb 32 (length values)) bad_addresses
  l ← ram_numbers values
  raise_if (repeats l) repeated_address
  ok l

unfoldable pub same_action : Action → Action → Bool
same_action c d =
    bytes_eq c.name d.name
    && (c.updates == d.updates && bytes_eq (map button_code c.buttons) (map button_code d.buttons))

unfoldable pub same_actions : List Action → List Action → Bool
unfolding same_action
same_actions [] [] = true
same_actions (c ∷ cs) (d ∷ ds) = same_action c d && same_actions cs ds
same_actions [] (d ∷ ds) = false
same_actions (c ∷ cs) [] = false

unfoldable pub same_clock : ClockMode → ClockMode → Bool
same_clock legacy legacy = true
same_clock guarded guarded = true
same_clock no_mode no_mode = true
same_clock unknown_mode unknown_mode = true
same_clock c d = false

-- `differences`: the field with the reference's and the candidate's value
unfoldable pub differences : (Field → ℕ) → (Field → ℕ) → List Field → List (Field × ℕ × ℕ)
differences x y [] = []
differences x y (f ∷ rest) =
    let later = differences x y rest in if x f == y f then later else (f, x f, y f) ∷ later

-- `changed`: the address with the two bytes
unfoldable pub changed : Bytes → Bytes → List ℕ → List (ℕ × ℕ × ℕ)
changed one two [] = []
changed one two (x ∷ rest) =
    let later = changed one two rest in
    if get_or one x 0 == get_or two x 0 then later else (x, get_or one x 0, get_or two x 0) ∷ later

unfoldable pub highest : List ℕ → ℕ
highest [] = 0
highest (x ∷ rest) = let later = highest rest in if leb later x then x else later

-- The requested bytes of one row; the files are read only if bytes are requested.
unfoldable pub compare_ram :
    Folder → Folder → List ℕ → List ℕ → Result RouteError (List (ℕ × ℕ × ℕ))
unfolding read_ram highest changed
compare_ram reference candidate [] name = ok []
compare_ram reference candidate (x ∷ rest) name = do
  one ← read_ram reference name
  two ← read_ram candidate name
  raise_if (leb (length one) (highest (x ∷ rest)) || leb (length two) (highest (x ∷ rest)))
      short_capture
  ok (changed one two (x ∷ rest))

-- An entry of `mismatches` and of `ram_mismatches`: the row's index, its name, and what differs.
pub record Mismatches : Type 0 where
  pub states : List (ℕ × List ℕ × List (Field × ℕ × ℕ))
  pub bytes : List (ℕ × List ℕ × List (ℕ × ℕ × ℕ))

-- `if found: entries.append(...)`, in front of the later entries
unfoldable pub noted :
    {A : Type 0} → ℕ → List ℕ → List A → List (ℕ × List ℕ × List A) → List (ℕ × List ℕ × List A)
noted i name [] later = later
noted i name (d ∷ ds) later = (i, name, d ∷ ds) ∷ later

-- `enumerate(zip(ar, br))`
unfoldable pub compare_rows :
    Folder → Folder → List ℕ → ℕ → List Row → List Row → Result RouteError Mismatches
unfolding differences compare_ram noted
compare_rows reference candidate ram i [] ys = ok (record { states = []; bytes = [] })
compare_rows reference candidate ram i (x ∷ xs) [] = ok (record { states = []; bytes = [] })
compare_rows reference candidate ram i (x ∷ xs) (y ∷ ys) = do
  bytes ← compare_ram reference candidate ram x.name
  later ← compare_rows reference candidate ram (suc i) xs ys
  ok (record {
    states = noted i x.name (differences x.state y.state all_fields) later.states;
    bytes = noted i x.name bytes later.bytes;
  })

pub record Comparison : Type 0 where
  pub passed : Bool
  pub complete_routes : Bool
  pub fault_free : Bool
  pub ram_addresses : List ℕ
  pub ram_bytes_checked : ℕ
  pub ram_mismatched_checkpoints : ℕ
  pub ram_mismatches : List (ℕ × List ℕ × List (ℕ × ℕ × ℕ))
  pub clock_mode : ClockMode
  pub planned_checkpoints : ℕ
  pub checkpoints_compared : ℕ
  pub state_fields_checked : ℕ
  pub state_bytes_checked : ℕ
  pub mismatched_checkpoints : ℕ
  pub mismatches : List (ℕ × List ℕ × List (Field × ℕ × ℕ))

-- `not entries`
abbrev pub no_entry : {A : Type 0} → List A → Bool
no_entry [] = true
no_entry (x ∷ rest) = false

-- `sum(size for _, size in FIELDS.values())`
unfoldable pub fields_size : List Field → ℕ
unfolding fields
fields_size [] = 0
fields_size (f ∷ rest) = (fields f).1 + fields_size rest

-- The end of compare_routes.
unfoldable pub judge : List ℕ → Route → Route → Mismatches → Comparison
unfolding is_completed fields_size clock_or_legacy
judge ram a b found =
    let common = min (length a.rows) (length b.rows) in
    let complete =
      (is_completed a.status && is_completed b.status)
      && (common == length a.tail_actions && ltb 0 common) in
    let fault_free = not a.fault && not b.fault in
    record {
      passed = complete && (fault_free && (no_entry found.states && no_entry found.bytes));
      complete_routes = complete;
      fault_free = fault_free;
      ram_addresses = ram;
      ram_bytes_checked = common * length ram;
      ram_mismatched_checkpoints = length found.bytes;
      ram_mismatches = found.bytes;
      clock_mode = clock_or_legacy a.clock_mode;
      planned_checkpoints = length a.tail_actions;
      checkpoints_compared = common;
      state_fields_checked = common * length all_fields;
      state_bytes_checked = common * fields_size all_fields;
      mismatched_checkpoints = length found.states;
      mismatches = found.states;
    }

unfoldable pub compare_routes : Folder → Folder → AddressesArgument → Result RouteError Comparison
unfolding validate_ram_addresses load_route same_actions same_clock clock_or_legacy compare_rows
    judge
compare_routes reference candidate ram_argument = do
  ram ← validate_ram_addresses ram_argument
  a ← load_route reference
  b ← load_route candidate
  raise_if (not (same_actions a.tail_actions b.tail_actions)) different_input
  raise_if (not (a.steps == b.steps)) different_input
  raise_if (not (same_actions a.pattern b.pattern)) different_input
  raise_if (not (same_clock (clock_or_legacy a.clock_mode) (clock_or_legacy b.clock_mode)))
      different_clock
  found ← compare_rows reference candidate ram 0 a.rows b.rows
  ok (judge ram a b found)
