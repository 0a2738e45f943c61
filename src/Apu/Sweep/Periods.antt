-- ===== src/Apu/Sweep/Periods.antt =====
-- Pulse periods stay in eleven bits, and a sweep moves them by exactly the shifted amount.
use nes2snes.Common.{
  ℕ, zero, suc, ◌+◌, ◌-◌, ◌*◌, ◌/◌, ◌^◌, ◌≤◌, ◌<◌, ◌≡◌, ◌≢◌, refl, ap, ◌∙◌, arith, bit_and, bit_or,
}
use nes2snes.Common.{Bool, true, false, not, ◌&&◌, ◌==◌, ltb, if◌then◌else◌}
use nes2snes.Common.{List, length-set, set, All-set, All-get_or, get_or-set_self}
use nes2snes.Common.{ok, >>=-eq-ok, ok_injective, subst, sym, if_both, ℤ, pos, negsuc}
use nes2snes.Common.Bits.{bit_and_low, bit_or-lt, bit_and-le}
use native.Mathlib.Nat.{div-mul-le_self, pow-suc, one-le-pow}
use nes2snes.Apu.Counters
use nes2snes.Apu.Counters.{Counters, at, bits}
use nes2snes.Apu.Counters.Keeps.{frame-keeps, store-keeps}
use nes2snes.Apu.Sweep.{
  SweepCounters, machine, target_of, muted, sweep, pulse_write, extend_write, write, frame,
}
use nes2snes.Apu.Sweep.Invariant.{IsPeriod, IsTuned, half-IsTuned}

update-IsTuned :
    (s : SweepCounters) (c : Counters) → IsTuned s → IsTuned (record s { counters = c })
update-IsTuned s c h = record { periods_size = h.periods_size; periods_low = h.periods_low }

-- A frame keeps the pulse periods below 2048.
pub frame-IsTuned : (s : SweepCounters) → IsTuned s → IsTuned (frame s)
unfolding frame
frame-IsTuned s h = frame-keeps machine IsTuned half-IsTuned update-IsTuned s h

pulse_write-IsTuned :
    (s : SweepCounters) (index value : ℕ)
    → value < 256
    → IsTuned s
    → IsTuned (pulse_write s index value)
unfolding pulse_write
pulse_write-IsTuned s index value byte h =
    let c = index / 4 in
    let low = bit_or (bit_and (at s.periods c) 0x700) value in
    let high = bit_or (bit_and (at s.periods c) 0xff) (bit_and value 7 * 256) in
    let old : at s.periods c < 2048 =
      All-get_or IsPeriod s.periods c 0 (omega arith) h.periods_low in
    let low_fits : low < 2048 =
      bit_or-lt 11 (bit_and (at s.periods c) 0x700) value
        (omega (arith, bit_and-le 11 (at s.periods c) 0x700 old)) (omega arith) in
    let high_fits : high < 2048 =
      bit_or-lt 11 (bit_and (at s.periods c) 0xff) (bit_and value 7 * 256)
        (omega (arith, bit_and-le 11 (at s.periods c) 0xff old))
        (omega (arith, bit_and_low 3 value)) in
    record {
      periods_size =
          ground (arith, h.periods_size, length-set s.periods c low, length-set s.periods c high);
      periods_low = ground (
        arith,
        h.periods_low,
        All-set IsPeriod s.periods c low low_fits h.periods_low,
        All-set IsPeriod s.periods c high high_fits h.periods_low,
      );
    }

pub write_ok :
    (s : SweepCounters) (a v : ℕ) {s' : SweepCounters}
    → Counters.write machine s (pos a) (pos v) ≡ ok s'
    → (v < 256) × (s' ≡ Counters.store machine s (a - 0x4000) v)
unfolding Counters.write
write_ok s a v e = (ground arith, ground arith)

extend_write-IsTuned :
    (s : SweepCounters) (a v : ℕ) → v < 256 → IsTuned s → IsTuned (extend_write (pos a) (pos v) s)
unfolding extend_write
extend_write-IsTuned s a v byte h =
    if_both IsTuned (ltb a 0x4008) (λ _. pulse_write-IsTuned s (a - 0x4000) v byte h) (λ _. h)

-- An accepted register write keeps the pulse periods below 2048.
pub write-IsTuned :
    (s : SweepCounters) (address value : ℤ) {s' : SweepCounters}
    → write s address value ≡ ok s'
    → IsTuned s
    → IsTuned s'
unfolding write Counters.write
write-IsTuned s (pos a) (pos v) e h =
    let (s1, stored, extended) = >>=-eq-ok (Counters.write machine s (pos a) (pos v)) _ e in
    let (byte, same) = write_ok s a v stored in
    subst IsTuned (ok_injective extended) (
      extend_write-IsTuned s1 a v byte (
        subst IsTuned (sym same)
          (store-keeps machine IsTuned half-IsTuned update-IsTuned s (a - 0x4000) v h)))
write-IsTuned s (pos a) (negsuc v) e h = cc
write-IsTuned s (negsuc a) v e h = cc

-- Half of a period or less is taken away by a shift of at least one place.
shift-le : (p k : ℕ) → k ≢ 0 → 2 * (p / 2 ^ k) ≤ p
shift-le p zero h = absurd (h refl)
shift-le p (suc k) h = grind (arith, div-mul-le_self p (2 ^ suc k), pow-suc 2 k, one-le-pow k 2)

-- Whether `half` sweeps channel `c`.
abbrev pub control : SweepCounters → ℕ → ℕ
control s c = at s.regs (c * 4 + 1)

abbrev pub change : SweepCounters → ℕ → ℕ
change s c = at s.periods c / 2 ^ bit_and (control s c) 7

target_exact :
    (s : SweepCounters) (c : ℕ)
    → at s.periods c < 2048
    → muted s c ≡ false
    → bit_and (control s c) 7 ≢ 0
    → bits (control s c) 8 ≡ true
    → target_of s c + change s c + (if c == 0 then 1 else 0) ≡ at s.periods c
unfolding target_of muted
target_exact s c low m shift negative = ground (
  arith,
  shift-le (at s.periods c) (bit_and (control s c) 7) shift,
  bit_and_low 11 (at s.periods c - change s c + 0x800 - (if c == 0 then 1 else 0)),
)

abbrev pub active : SweepCounters → ℕ → Bool
active s c =
    (at s.sweep_dividers c == 0 && bits (control s c) 0x80)
    && (bits (control s c) 7 && not (muted s c))

sweep-periods :
    (s : SweepCounters) (c : ℕ)
    → (sweep s c).periods ≡ (if active s c then set s.periods c (target_of s c) else s.periods)
unfolding sweep
sweep-periods s c = ground arith

swept :
    (s : SweepCounters) (c : ℕ)
    → IsTuned s
    → c < 2
    → active s c ≡ true
    → at (sweep s c).periods c ≡ target_of s c
swept s c h lt on =
    ap (λ (l : List ℕ). at l c) (sweep-periods s c)
    ∙ rw on (get_or-set_self s.periods c (target_of s c) 0 (rw h.periods_size lt))

active-parts :
    (s : SweepCounters) (c : ℕ)
    → active s c ≡ true
    → (muted s c ≡ false) × (bit_and (control s c) 7 ≢ 0)
active-parts s c on = ground arith

target_up :
    (s : SweepCounters) (c : ℕ)
    → muted s c ≡ false
    → bits (control s c) 8 ≡ false
    → (target_of s c ≡ at s.periods c + change s c) × (target_of s c < 2048)
unfolding muted target_of
target_up s c m positive = ground arith

-- One channel of a half clock: if its divider has run out, the sweep is enabled with a shift and the
-- channel is not muted, then its period goes down by the shifted period (and one more on channel 0),
-- or up by it without passing 2047; in every other case no period changes.
pub sweep_period :
    (s : SweepCounters) (c : ℕ)
    → IsTuned s
    → c < 2
    → let p = at s.periods c in
      let p' = at (sweep s c).periods c in
      (active s c ≡ false → (sweep s c).periods ≡ s.periods)
      × (active s c ≡ true
          → bits (control s c) 8 ≡ true
          → p' + change s c + (if c == 0 then 1 else 0) ≡ p)
      × (active s c ≡ true → bits (control s c) 8 ≡ false → (p' ≡ p + change s c) × (p' < 2048))
sweep_period s c h lt = (
  (λ off. sweep-periods s c ∙ rw off),
  (λ on negative.
      let (audible, shift) = active-parts s c on in
      let low = All-get_or IsPeriod s.periods c 0 (omega arith) h.periods_low in
      omega (arith, swept s c h lt on, target_exact s c low audible shift negative)),
  λ on positive.
      let (audible, shift) = active-parts s c on in
      let (sum, low) = target_up s c audible positive in
      let now = swept s c h lt on in (now ∙ sum, rw now low),
)
