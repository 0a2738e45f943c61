-- ===== src/Apu/Tests.antt =====
-- Runs of the audio counters, and each of their theorems at an input.
use nes2snes.Common.{◌+◌, ◌<◌, ◌≡◌, refl, arith, true, false}
use nes2snes.Common.{ok, err, pos, negsuc, [], ◌∷◌, set}
use nes2snes.Apu.Counters
use nes2snes.Apu.Counters.{Counters, not_register_byte, at, bits}
use nes2snes.Apu.Counters.Invariant.{IsWellFormed}
use nes2snes.Apu.Sweep
use nes2snes.Apu.Sweep.{SweepCounters}
use nes2snes.Apu.Sweep.Invariant.{IsTuned, counters-frame}
use nes2snes.Apu.Sweep.Periods.{change, active, sweep_period}
use nes2snes.Apu.Sweep.Run.{begun, wrote, ran, Reaches-IsTuned}

-- The sequencer of five phases.
abbrev five_phases : Counters
five_phases = record Counters.initial { regs = set Counters.initial.regs 23 128; phase = 4 }

-- A pulse with period 512 and a sweep down by one place.
abbrev sweeping : SweepCounters
sweeping = record Sweep.initial {
  counters = record Counters.initial { regs = set Counters.initial.regs 1 0x89 };
  periods = 512 ∷ 0 ∷ [];
}

sweeping-IsTuned : IsTuned sweeping
sweeping-IsTuned = record { periods_size = refl; periods_low = omega arith }

swept_down : (Sweep.half sweeping).periods ≡ 255 ∷ 0 ∷ []
unfolding Sweep.half Sweep.sweep Counters.half
swept_down = refl

refused :
    (Counters.write Counters.machine Counters.initial (pos 0x4014) (pos 0) ≡ err not_register_byte)
    × (Counters.write Counters.machine Counters.initial (pos 0x4000) (negsuc 0)
        ≡ err not_register_byte)
unfolding Counters.write
refused = (refl, refl)

counters-frame_example :
    (Sweep.frame sweeping).counters ≡ Counters.frame Counters.machine sweeping.counters
counters-frame_example = counters-frame sweeping

-- A new object after a write to a register of the first pulse.
abbrev retuned : SweepCounters
retuned = Sweep.extend_write (pos 0x4002) (pos 7) (Counters.store Sweep.machine Sweep.initial 2 7)

retune : Sweep.write Sweep.initial (pos 0x4002) (pos 7) ≡ ok retuned
unfolding Sweep.write Counters.write
retune = refl

Reaches-IsTuned_example :
    IsWellFormed (Sweep.frame retuned).counters × IsTuned (Sweep.frame retuned)
Reaches-IsTuned_example =
    Reaches-IsTuned (Sweep.frame retuned)
      (ran retuned (wrote Sweep.initial retuned (pos 0x4002) (pos 7) begun retune))

sweep_period_example :
    let p' = at (Sweep.sweep sweeping 0).periods 0 in
    (active sweeping 0 ≡ false → (Sweep.sweep sweeping 0).periods ≡ sweeping.periods)
    × (active sweeping 0 ≡ true → bits 0x89 8 ≡ true → p' + change sweeping 0 + 1 ≡ 512)
    × (active sweeping 0 ≡ true
        → bits 0x89 8 ≡ false
        → (p' ≡ 512 + change sweeping 0) × (p' < 2048))
sweep_period_example = sweep_period sweeping 0 sweeping-IsTuned (omega arith)
