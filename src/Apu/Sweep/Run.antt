-- ===== src/Apu/Sweep/Run.antt =====
-- The states that a run of register writes and frames reaches.
use nes2snes.Common.{ℕ, ◌-◌, ◌≡◌, refl, sym, ap, ◌∙◌, subst, arith, ltb}
use nes2snes.Common.{ok, >>=-eq-ok, ok_injective, ℤ, pos, negsuc, if_both}
use nes2snes.Apu.Counters
use nes2snes.Apu.Counters.{Counters}
use nes2snes.Apu.Counters.Dispatch.{view-store}
use nes2snes.Apu.Counters.Invariant.{IsWellFormed}
use nes2snes.Apu.Counters.Writes.{store-IsWellFormed, frame-IsWellFormed}
use nes2snes.Apu.Sweep.{SweepCounters, initial, machine, pulse_write, extend_write, write, frame}
use nes2snes.Apu.Sweep.Invariant.{IsTuned, machine-IsLawful, counters-frame}
use nes2snes.Apu.Sweep.Periods.{frame-IsTuned, write-IsTuned, write_ok}

-- A new object, an accepted write, or a frame.
pub data Reaches : SweepCounters → Type 0 where
  begun : Reaches initial
  wrote :
      (s s' : SweepCounters) (address value : ℤ)
      → Reaches s
      → write s address value ≡ ok s'
      → Reaches s'
  ran : (s : SweepCounters) → Reaches s → Reaches (frame s)

pulse_write-counters :
    (s : SweepCounters) (index value : ℕ) → (pulse_write s index value).counters ≡ s.counters
unfolding pulse_write
pulse_write-counters s index value = ground arith

extend_write-counters :
    (s : SweepCounters) (a v : ℕ) → (extend_write (pos a) (pos v) s).counters ≡ s.counters
unfolding extend_write
extend_write-counters s a v =
    if_both (λ (t : SweepCounters). t.counters ≡ s.counters) (ltb a 0x4008)
      (λ _. pulse_write-counters s (a - 0x4000) v) (λ _. refl)

-- A write leaves the counters of the base class's write.
write-IsWellFormed :
    (s : SweepCounters) (address value : ℤ) {s' : SweepCounters}
    → write s address value ≡ ok s'
    → IsWellFormed s.counters
    → IsWellFormed s'.counters
unfolding write Counters.write
write-IsWellFormed s (pos a) (pos v) e h =
    let (s1, stored, extended) = >>=-eq-ok (Counters.write machine s (pos a) (pos v)) _ e in
    let (byte, same) = write_ok s a v stored in
    let counters =
      sym (view-store machine machine-IsLawful s (a - 0x4000) v)
      ∙ ap (λ (t : SweepCounters). t.counters) (sym same)
      ∙ sym (extend_write-counters s1 a v)
      ∙ ap (λ (t : SweepCounters). t.counters) (ok_injective extended) in
    subst IsWellFormed counters (store-IsWellFormed s.counters (a - 0x4000) v byte h)
write-IsWellFormed s (pos a) (negsuc v) e h = cc
write-IsWellFormed s (negsuc a) v e h = cc

initial-IsTuned : IsTuned initial
initial-IsTuned = record { periods_size = refl; periods_low = omega arith }

pub initial-IsWellFormed : IsWellFormed Counters.initial
initial-IsWellFormed = record {
  regs_size = refl;
  regs_bytes = omega arith;
  lengths_size = refl;
  lengths_low = omega arith;
  decay_size = refl;
  decay_low = omega arith;
  divider_size = refl;
  divider_low = omega arith;
  restart_size = refl;
  linear_low = omega arith;
  phase_low = omega arith;
}

-- After any sequence of accepted register writes and frames of a new object, its counters are well
-- formed and its pulse periods are below 2048.
pub Reaches-IsTuned : (s : SweepCounters) → Reaches s → IsWellFormed s.counters × IsTuned s
Reaches-IsTuned _ begun = (initial-IsWellFormed, initial-IsTuned)
Reaches-IsTuned _ (wrote s s' address value r e) =
    let (formed, tuned) = Reaches-IsTuned s r in
    (write-IsWellFormed s address value e formed, write-IsTuned s address value e tuned)
Reaches-IsTuned _ (ran s r) =
    let (formed, tuned) = Reaches-IsTuned s r in
    (
      subst IsWellFormed (sym (counters-frame s)) (frame-IsWellFormed s.counters formed),
      frame-IsTuned s tuned,
    )
