-- ===== src/Apu/Counters/Volume.antt =====
-- The level of a voice.
use nes2snes.Common.{ℕ, ◌*◌, ◌^◌, ◌≤◌, ◌<◌, ◌≡◌, ◌⊎◌, arith, false, ok, err, Result-cases, inl, inr}
use nes2snes.Common.{All-get_or}
use nes2snes.Common.Bits.{bit_and_low}
use nes2snes.Apu.Counters.{ApuError, Counters, at, bits, volume}
use nes2snes.Apu.Counters.Invariant.{IsNibble, IsWellFormed}

volume_total : (s : Counters) (c : ℕ) (e : ApuError) → c < 4 → volume s c ≡ err e → ⊥
unfolding volume
volume_total s c e lt h = ground arith

volume_ok :
    (s : Counters) (c v : ℕ)
    → IsWellFormed s
    → volume s c ≡ ok v
    → (v ≤ 90) × ((at s.lengths c ≡ 0) ⊎ (bits (at s.regs 21) (2 ^ c) ≡ false) → v ≡ 0)
unfolding volume
volume_ok s c v h e = (
  ground (
    arith,
    bit_and_low 4 (at s.regs (c * 4)),
    All-get_or IsNibble s.decay c 0 (omega arith) h.decay_low,
  ),
  λ silent. ground arith,
)

-- Each of the four voices of well-formed counters has a level of at most 90, which is 0 when its length counter
-- has run out or the voice is disabled.
pub volume_bounds :
    (s : Counters) (c : ℕ)
    → IsWellFormed s
    → c < 4
    → (v : ℕ) × (volume s c ≡ ok v)
      × ((v ≤ 90) × ((at s.lengths c ≡ 0) ⊎ (bits (at s.regs 21) (2 ^ c) ≡ false) → v ≡ 0))
volume_bounds s c h lt = elim (Result-cases (volume s c)) [
  | inl (v, e) ↦ (v, e, volume_ok s c v h e)
  | inr (e, raised) ↦ absurd (volume_total s c e lt raised)
]
