-- ===== src/Common/Text.antt =====
-- Texts as lists of code points: `bytes.fromhex`, and the names that fixtures may have.
use Prim.Native.Nat.{ℕ, ◌+◌, ◌-◌, ◌*◌, ◌/◌, ◌%◌}
use mathlib.Core.Bool.{Bool, true, false, ◌&&◌, ◌||◌}
use mathlib.Core.List.{List, [], ◌∷◌}
use mathlib.Core.Option.{Option, none, some}
use nes2snes.Common.Tests.{leb, ◌==◌, if◌then◌else◌}
use nes2snes.Common.Lists.{length}
use nes2snes.Common.ByteLists.{Bytes}

-- A value that the code takes for a text: a `str`, or anything else.
pub data TextArgument : Type 0 where
  text : List ℕ → TextArgument
  not_text : TextArgument

-- The space characters that `bytes.fromhex` skips between bytes.
unfoldable pub is_space : ℕ → Bool
is_space c = c == 32 || (leb 9 c && leb c 13)

unfoldable pub hex_digit : ℕ → Option ℕ
hex_digit c =
    if leb b'0' c && leb c b'9'
    then some (c - b'0')
    else if leb b'a' c && leb c b'f'
    then some (c - b'a' + 10)
    else if leb b'A' c && leb c b'F'
    then some (c - b'A' + 10)
    else none

-- The byte of two digits before the bytes of the rest.
unfoldable pub hex_byte : Option ℕ → Option ℕ → Option Bytes → Option Bytes
hex_byte (some high) (some low) (some rest) = some ((high * 16 + low) ∷ rest)
hex_byte _ _ _ = none

-- `bytes.fromhex`: `none` where it raises a ValueError.
unfoldable pub from_hex : List ℕ → Option Bytes
unfolding is_space hex_digit hex_byte
from_hex [] = some []
from_hex (a ∷ []) = if is_space a then some [] else none
from_hex (a ∷ b ∷ rest) =
    let skipped = from_hex (b ∷ rest) in
    let paired = hex_byte (hex_digit a) (hex_digit b) (from_hex rest) in
    if is_space a then skipped else paired

abbrev hex_character : ℕ → ℕ
hex_character d = if leb d 9 then b'0' + d else b'a' + (d - 10)

-- `bytes.hex`
abbrev pub hex_text : Bytes → List ℕ
hex_text [] = []
hex_text (b ∷ rest) = hex_character (b / 16) ∷ hex_character (b % 16) ∷ hex_text rest

-- `[A-Za-z0-9]`
unfoldable pub is_alphanumeric : ℕ → Bool
is_alphanumeric c =
    (leb b'A' c && leb c b'Z') || (leb b'a' c && leb c b'z') || (leb b'0' c && leb c b'9')

unfoldable pub all_name_characters : List ℕ → Bool
unfolding is_alphanumeric
all_name_characters [] = true
all_name_characters (c ∷ rest) =
    (is_alphanumeric c || c == b'_' || c == b'-') && all_name_characters rest

-- `re.fullmatch('[A-Za-z0-9][A-Za-z0-9_-]{0,63}', name)`
unfoldable pub is_fixture_name : List ℕ → Bool
unfolding is_alphanumeric all_name_characters
is_fixture_name [] = false
is_fixture_name (c ∷ rest) = is_alphanumeric c && (all_name_characters rest && leb (length rest) 63)
