-- ===== src/Common/Values.antt =====
-- The values that a Python caller may pass where the code checks `type(value) is int`.
use Prim.Native.Nat.{ℕ}
use mathlib.Core.Bool.{Bool}
use mathlib.Core.Option.{Option, none, some}
use nes2snes.Common.Tests.{leb, if◌then◌else◌}

-- `negsuc n` is -(n + 1).
pub data ℤ : Type 0 where
  pos : ℕ → ℤ
  negsuc : ℕ → ℤ

-- `other` is a value whose type is neither `int` nor `bool`.
pub data Value : Type 0 where
  int : ℤ → Value
  bool : Bool → Value
  other : Value

pattern abbrev pub nat : ℕ → Value
nat n = int (pos n)

-- The number in `value`, if `type(value) is int and 0 <= value <= maximum`.
abbrev pub in_range : Value → ℕ → Option ℕ
in_range (nat n) maximum = if leb n maximum then some n else none
in_range v maximum = none
