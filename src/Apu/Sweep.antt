-- ===== src/Apu/Sweep.antt =====
-- tools/apu_sweep_model.py: the class SweepCounters over the class Counters.
pub mod Invariant
pub mod Periods
pub mod Run
use nes2snes.Common.{ℕ, ◌+◌, ◌-◌, ◌*◌, ◌/◌, ◌%◌, ◌^◌, bit_and, bit_or, Bool, not, ◌&&◌, ◌||◌}
use nes2snes.Common.{List, set, replicate, ltb, ◌==◌, if◌then◌else◌, Result, ok, err, ◌>>=◌, ℤ, pos}
use nes2snes.Apu.Counters
use nes2snes.Apu.Counters.{ApuError, invalid_voice, Counters, Machine, at, bits}

pub record SweepCounters : Type 0 where
  pub counters : Counters
  pub open counters use *
  pub periods : List ℕ
  pub sweep_dividers : List ℕ
  pub sweep_reload : List ℕ

abbrev pub initial : SweepCounters
initial = record {
  counters = Counters.initial;
  periods = replicate 2 0;
  sweep_dividers = replicate 2 0;
  sweep_reload = replicate 2 0;
}

-- `period - change - (channel == 0)` is at least -1, and `& 0x7ff` takes -1 to 0x7ff.
unfoldable pub target_of : SweepCounters → ℕ → ℕ
target_of s channel =
    let period = at s.periods channel in
    let control = at s.regs (channel * 4 + 1) in
    let change = period / 2 ^ bit_and control 7 in
    if bits control 8
    then bit_and (period - change + 0x800 - (if channel == 0 then 1 else 0)) 0x7ff
    else period + change

unfoldable pub target : SweepCounters → ℕ → Result ApuError ℕ
unfolding target_of
target s channel = if ltb channel 2 then ok (target_of s channel) else err invalid_voice

-- `muted` on a pulse channel
unfoldable pub muted : SweepCounters → ℕ → Bool
unfolding target_of
muted s channel =
    ltb (at s.periods channel) 8
    || not (bits (at s.regs (channel * 4 + 1)) 8) && ltb 0x7ff (target_of s channel)

-- One round of the loop of `half`.
unfoldable pub sweep : SweepCounters → ℕ → SweepCounters
unfolding muted target_of
sweep s c =
    let control = at s.regs (c * 4 + 1) in
    let s' =
      if (at s.sweep_dividers c == 0 && bits control 0x80) && (bits control 7 && not (muted s c))
      then record s { periods = set s.periods c (target_of s c) }
      else s in
    if at s'.sweep_dividers c == 0 || not (at s'.sweep_reload c == 0)
    then record s' {
      sweep_dividers = set s'.sweep_dividers c (bit_and (control / 16) 7);
      sweep_reload = set s'.sweep_reload c 0;
    }
    else record s' { sweep_dividers = set s'.sweep_dividers c (at s'.sweep_dividers c - 1) }

unfoldable pub half : SweepCounters → SweepCounters
half s = sweep (sweep (record s { counters = Counters.half s.counters }) 0) 1

abbrev pub machine : Machine SweepCounters
machine = record { view = λ s. s.counters; update = λ s c. record s { counters = c }; half = half }

-- The part of `write` after `super().write`, on a register of a pulse channel.
unfoldable pub pulse_write : SweepCounters → ℕ → ℕ → SweepCounters
pulse_write s index value =
    let c = index / 4 in
    let reg = index % 4 in
    if reg == 1
    then record s { sweep_reload = set s.sweep_reload c 1 }
    else if reg == 2
    then record s { periods = set s.periods c (bit_or (bit_and (at s.periods c) 0x700) value) }
    else if reg == 3
    then record s {
      periods = set s.periods c (bit_or (bit_and (at s.periods c) 0xff) (bit_and value 7 * 256));
    }
    else s

unfoldable pub extend_write : ℤ → ℤ → SweepCounters → SweepCounters
extend_write (pos address) (pos value) s =
    if ltb address 0x4008 then pulse_write s (address - 0x4000) value else s
extend_write _ _ s = s

unfoldable pub write : SweepCounters → ℤ → ℤ → Result ApuError SweepCounters
write s address value = do
  s' ← Counters.write machine s address value
  ok (extend_write address value s')

unfoldable pub frame : SweepCounters → SweepCounters
frame s = Counters.frame machine s

unfoldable pub volume : SweepCounters → ℕ → Result ApuError ℕ
unfolding muted
volume s channel = do
  value ← Counters.volume s.counters channel
  ok (if ltb channel 2 && muted s channel then 0 else value)
