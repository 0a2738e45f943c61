-- ===== src/Fixture/Places.antt =====
-- Where the operands of named labels stand in a program, one behind the other.
use nes2snes.Common.{ℕ, ◌+◌, ◌-◌, ◌≤◌, ◌<◌, ◌⊎◌, inl, arith, List, [], ◌∷◌, ◌++◌, All}
use nes2snes.Fixture.{Fixup}
use nes2snes.Opcodes.{mode_length}

-- The bytes of the operand
abbrev pub width : Fixup → ℕ
width f = mode_length f.mode - 1

-- Operands from `low` on in order, none over another, up to `high`.
abbrev pub IsPlaced : ℕ → List Fixup → ℕ → Type 0
IsPlaced low [] high = low ≤ high
IsPlaced low (f ∷ rest) high = low ≤ f.off × IsPlaced (f.off + width f) rest high

-- The byte `i` is not of the operand.
abbrev pub IsOutside : ℕ → Fixup → Type 0
IsOutside i f = (i < f.off) ⊎ (f.off + width f ≤ i)

pub IsPlaced-higher :
    (low : ℕ) (fs : List Fixup) (high more : ℕ)
    → high ≤ more
    → IsPlaced low fs high
    → IsPlaced low fs more
IsPlaced-higher low [] high more h p = omega arith
IsPlaced-higher low (f ∷ rest) high more h p =
    (p.0, IsPlaced-higher (f.off + width f) rest high more h p.1)

pub IsPlaced-append :
    (low : ℕ) (fs : List Fixup) (f : Fixup) (high : ℕ)
    → IsPlaced low fs f.off
    → f.off + width f ≤ high
    → IsPlaced low (fs ++ (f ∷ [])) high
IsPlaced-append low [] f high p fits = (p, fits)
IsPlaced-append low (g ∷ rest) f high p fits =
    (p.0, IsPlaced-append (g.off + width g) rest f high p.1 fits)

pub IsPlaced-low-high : (low : ℕ) (fs : List Fixup) (high : ℕ) → IsPlaced low fs high → low ≤ high
IsPlaced-low-high low [] high p = p
IsPlaced-low-high low (f ∷ rest) high p =
    omega (arith, p.0, IsPlaced-low-high (f.off + width f) rest high p.1)

pub IsPlaced-IsOutside :
    (low : ℕ) (fs : List Fixup) (high i : ℕ) → i < low → IsPlaced low fs high → All (IsOutside i) fs
IsPlaced-IsOutside low [] high i h p = tt
IsPlaced-IsOutside low (f ∷ rest) high i h (from_low, p) =
    (inl (omega arith), IsPlaced-IsOutside (f.off + width f) rest high i (omega arith) p)
