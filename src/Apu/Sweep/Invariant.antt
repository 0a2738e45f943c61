-- ===== src/Apu/Sweep/Invariant.antt =====
-- The subclass goes through the counters of the base class, and keeps its periods to eleven bits.
use nes2snes.Common.{ℕ, ◌+◌, ◌-◌, ◌*◌, ◌/◌, ◌^◌, ◌<◌, ◌≡◌, refl, ◌∙◌, arith, bit_and}
use nes2snes.Common.{Bool, true, false, ◌==◌, if◌then◌else◌}
use nes2snes.Common.{length, length-set, All, All-set}
use nes2snes.Common.Bits.{bit_and_low}
use nes2snes.Apu.Counters
use nes2snes.Apu.Counters.{Counters, Machine, at, bits}
use nes2snes.Apu.Counters.Dispatch.{IsLawful, view-frame}
use nes2snes.Apu.Sweep.{SweepCounters, machine, target_of, muted, sweep, half, frame}

sweep-counters : (s : SweepCounters) (c : ℕ) → (sweep s c).counters ≡ s.counters
unfolding sweep
sweep-counters s c = ground arith

counters-half : (s : SweepCounters) → (half s).counters ≡ Counters.half s.counters
unfolding half
counters-half s =
    let s' = record s { counters = Counters.half s.counters } in
    sweep-counters (sweep s' 0) 1 ∙ sweep-counters s' 0

pub machine-IsLawful : IsLawful machine
machine-IsLawful = record { view_update = λ s c. refl; view_half = counters-half }

-- A frame of the subclass does to the counters what a frame of the base class does, although the
-- base class's `frame` calls the overriding `half`.
pub counters-frame :
    (s : SweepCounters) → (frame s).counters ≡ Counters.frame Counters.machine s.counters
unfolding frame
counters-frame s = view-frame machine machine-IsLawful s

abbrev pub IsPeriod : ℕ → Type 0
IsPeriod v = v < 2048

pub record IsTuned (s : SweepCounters) : Type 0 where
  pub periods_size : length s.periods ≡ 2
  pub periods_low : All IsPeriod s.periods

target-lt : (s : SweepCounters) (c : ℕ) → muted s c ≡ false → target_of s c < 2048
unfolding muted target_of
target-lt s c h = ground (
  arith,
  bit_and_low 11 (
      at s.periods c
      - at s.periods c / 2 ^ bit_and (at s.regs (c * 4 + 1)) 7
      + 0x800
      - (if c == 0 then 1 else 0)),
)

sweep-IsTuned : (s : SweepCounters) (c : ℕ) → IsTuned s → IsTuned (sweep s c)
unfolding sweep
sweep-IsTuned s c h = record {
  periods_size = ground (arith, h.periods_size, length-set s.periods c (target_of s c));
  periods_low = swept (muted s c) refl;
}
  where
    swept : (m : Bool) → muted s c ≡ m → All IsPeriod (sweep s c).periods
    swept true e = ground (arith, h.periods_low)
    swept false e = ground (
      arith,
      h.periods_low,
      All-set IsPeriod s.periods c (target_of s c) (target-lt s c e) h.periods_low,
    )

pub half-IsTuned : (s : SweepCounters) → IsTuned s → IsTuned (half s)
unfolding half
half-IsTuned s h =
    let s' = record s { counters = Counters.half s.counters } in
    sweep-IsTuned (sweep s' 0) 1
      (sweep-IsTuned s' 0 (record { periods_size = h.periods_size; periods_low = h.periods_low }))
