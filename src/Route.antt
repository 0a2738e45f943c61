-- ===== src/Route.antt =====
-- tools/gameplay_route.py, validate_actions: the named inputs of a route.
-- A name is the list of its code points; `set(names)` is the list of the names so far.
pub mod Actions
pub mod Script
pub mod Guard
pub mod Merge
pub mod Evidence
mod Tests
use nes2snes.Common.{ℕ, ◌+◌, Bool, true, false, not, ◌&&◌, ◌||◌}
use nes2snes.Common.{List, [], ◌∷◌, ◌++◌, length, ltb, leb, ◌==◌, if◌then◌else◌, Bytes, bytes_eq}
use nes2snes.Common.{Result, ok, err, ◌>>=◌, ◌>>◌, raise_if, Value, nat}
use nes2snes.Common.Text.{TextArgument, text, not_text, is_fixture_name}

-- The `ValueError`s of validate_actions, by what their messages name.
pub data ActionError : Type 0 where
  bad_script bad_keys bad_name bad_updates unknown_button contradictory too_long : ActionError

-- `allowed`
pub data Button : Type 0 where
  a b start select left right up down : Button

-- A member of `buttons`: the name of an allowed button, or anything else.
pub data ButtonArgument : Type 0 where
  button : Button → ButtonArgument
  unknown : ButtonArgument

pub data ButtonsArgument : Type 0 where
  buttons : List ButtonArgument → ButtonsArgument
  not_buttons : ButtonsArgument

-- An element of a script: a dictionary with the three keys, or anything else.
pub data ActionArgument : Type 0 where
  action : TextArgument → Value → ButtonsArgument → ActionArgument
  foreign_action : ActionArgument

pub data ActionsArgument : Type 0 where
  actions : List ActionArgument → ActionsArgument
  not_actions : ActionsArgument

pub record Action : Type 0 where
  pub name : List ℕ
  pub updates : ℕ
  pub buttons : List Button

abbrev pub button_code : Button → ℕ
button_code a = 0
button_code b = 1
button_code start = 2
button_code select = 3
button_code left = 4
button_code right = 5
button_code up = 6
button_code down = 7

-- `name in names`
unfoldable pub has_name : List ℕ → List (List ℕ) → Bool
has_name name [] = false
has_name name (n ∷ rest) = bytes_eq n name || has_name name rest

-- `button in buttons`
unfoldable pub has_button : Button → List Button → Bool
has_button c [] = false
has_button c (d ∷ rest) = button_code d == button_code c || has_button c rest

-- `len(buttons) == len(set(buttons))`
unfoldable pub all_different : List Button → Bool
unfolding has_button
all_different [] = true
all_different (c ∷ rest) = not (has_button c rest) && all_different rest

unfoldable pub contradicts : List Button → Bool
unfolding has_button all_different
contradicts l =
    not (all_different l)
    || ((has_button left l && has_button right l) || (has_button up l && has_button down l))

unfoldable pub check_name : TextArgument → List (List ℕ) → Result ActionError (List ℕ)
unfolding has_name
check_name (text name) names =
    if is_fixture_name name && not (has_name name names) then ok name else err bad_name
check_name not_text names = err bad_name

unfoldable pub check_updates : Value → Result ActionError ℕ
check_updates (nat n) = if leb 1 n && leb n 600 then ok n else err bad_updates
check_updates v = err bad_updates

unfoldable pub known_buttons : List ButtonArgument → Result ActionError (List Button)
known_buttons [] = ok []
known_buttons (button c ∷ rest) = do l ← known_buttons rest; ok (c ∷ l)
known_buttons (unknown ∷ rest) = err unknown_button

unfoldable pub check_buttons : ButtonsArgument → Result ActionError (List Button)
unfolding known_buttons contradicts
check_buttons (buttons l) = do
  known ← known_buttons l
  raise_if (contradicts known) contradictory
  ok known
check_buttons not_buttons = err unknown_button

-- The body of the loop, with the names and the total of the actions before.
unfoldable pub check_action : List (List ℕ) → ℕ → ActionArgument → Result ActionError Action
unfolding check_name check_updates check_buttons
check_action names total foreign_action = err bad_keys
check_action names total (action name_argument updates_argument buttons_argument) = do
  name ← check_name name_argument names
  n ← check_updates updates_argument
  l ← check_buttons buttons_argument
  raise_if (ltb 100000 (total + n)) too_long
  ok (record { name = name; updates = n; buttons = l })

unfoldable pub actions_loop :
    List (List ℕ) → ℕ → List ActionArgument → Result ActionError (List Action)
unfolding check_action
actions_loop names total [] = ok []
actions_loop names total (argument ∷ rest) = do
  one ← check_action names total argument
  others ← actions_loop (one.name ∷ names) (total + one.updates) rest
  ok (one ∷ others)

unfoldable pub validate_actions : ActionsArgument → Result ActionError (List Action)
unfolding actions_loop
validate_actions (actions l) = do
  raise_if (not (leb 1 (length l) && leb (length l) 512)) bad_script
  actions_loop [] 0 l
validate_actions not_actions = err bad_script
