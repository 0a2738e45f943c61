-- ===== src/Apu/Counters/Invariant.antt =====
-- Every operation keeps the registers, counters and phase in their ranges.
use nes2snes.Common.{ℕ, ◌+◌, ◌-◌, ◌*◌, ◌≤◌, ◌<◌, ◌≡◌, refl, arith, bit_and}
use nes2snes.Common.{List, length, length-set, All, All-set, All-get_or, IsByte, if◌then◌else◌}
use nes2snes.Common.Bits.{bit_and_low}
use nes2snes.Apu.Counters.{Counters, at, bits, envelope, linear_step, quarter, count_down, half}

abbrev pub IsNibble : ℕ → Type 0
IsNibble v = v ≤ 15

abbrev pub IsLength : ℕ → Type 0
IsLength v = v ≤ 254

abbrev pub phases : List ℕ → ℕ
phases regs = if bits (at regs 23) 128 then 5 else 4

pub record IsWellFormed (s : Counters) : Type 0 where
  pub regs_size : length s.regs ≡ 24
  pub regs_bytes : All IsByte s.regs
  pub lengths_size : length s.lengths ≡ 4
  pub lengths_low : All IsLength s.lengths
  pub decay_size : length s.decay ≡ 4
  pub decay_low : All IsNibble s.decay
  pub divider_size : length s.divider ≡ 4
  pub divider_low : All IsNibble s.divider
  pub restart_size : length s.restart ≡ 4
  pub linear_low : s.linear ≤ 127
  pub phase_low : s.phase < phases s.regs

period_low : (r : ℕ) → bit_and r 15 ≤ 15
period_low r = omega (arith, bit_and_low 4 r)

nibble_pred : (xs : List ℕ) (c : ℕ) → All IsNibble xs → at xs c - 1 ≤ 15
nibble_pred xs c h = omega (arith, All-get_or IsNibble xs c 0 (omega arith) h)

envelope-IsWellFormed : (s : Counters) (c : ℕ) → IsWellFormed s → IsWellFormed (envelope s c)
unfolding envelope
envelope-IsWellFormed s c h =
    let period = bit_and (at s.regs (c * 4)) 15 in
    record {
      regs_size = ground (arith, h.regs_size);
      regs_bytes = ground (arith, h.regs_bytes);
      lengths_size = ground (arith, h.lengths_size);
      lengths_low = ground (arith, h.lengths_low);
      decay_size = ground (arith, length-set s.decay c 15, length-set s.decay c (at s.decay c - 1));
      decay_low = ground (
        arith,
        All-set IsNibble s.decay c 15 (omega arith) h.decay_low,
        All-set IsNibble s.decay c (at s.decay c - 1) (nibble_pred s.decay c h.decay_low)
            h.decay_low,
      );
      divider_size =
          ground
            (arith, length-set s.divider c period, length-set s.divider c (at s.divider c - 1));
      divider_low = ground (
        arith,
        All-set IsNibble s.divider c period (period_low (at s.regs (c * 4))) h.divider_low,
        All-set IsNibble s.divider c (at s.divider c - 1) (nibble_pred s.divider c h.divider_low)
            h.divider_low,
      );
      restart_size = ground (arith, length-set s.restart c 0);
      linear_low = ground (arith, h.linear_low);
      phase_low = ground (arith, h.phase_low);
    }

linear_step-IsWellFormed : (s : Counters) → IsWellFormed s → IsWellFormed (linear_step s)
unfolding linear_step
linear_step-IsWellFormed s h = record {
  regs_size = h.regs_size;
  regs_bytes = h.regs_bytes;
  lengths_size = h.lengths_size;
  lengths_low = h.lengths_low;
  decay_size = h.decay_size;
  decay_low = h.decay_low;
  divider_size = h.divider_size;
  divider_low = h.divider_low;
  restart_size = h.restart_size;
  linear_low = ground (arith, h.linear_low, bit_and_low 7 (at s.regs 8));
  phase_low = h.phase_low;
}

count_quarter :
    (s : Counters) → IsWellFormed s → IsWellFormed (record s { quarters = s.quarters + 1 })
count_quarter s h = record {
  regs_size = h.regs_size;
  regs_bytes = h.regs_bytes;
  lengths_size = h.lengths_size;
  lengths_low = h.lengths_low;
  decay_size = h.decay_size;
  decay_low = h.decay_low;
  divider_size = h.divider_size;
  divider_low = h.divider_low;
  restart_size = h.restart_size;
  linear_low = h.linear_low;
  phase_low = h.phase_low;
}

pub quarter-IsWellFormed : (s : Counters) → IsWellFormed s → IsWellFormed (quarter s)
unfolding quarter
quarter-IsWellFormed s h = linear_step-IsWellFormed _ (
    envelope-IsWellFormed _ 3
      (envelope-IsWellFormed _ 1 (envelope-IsWellFormed _ 0 (count_quarter s h))))

abbrev pub AreLengths : List ℕ → Type 0
AreLengths xs = (length xs ≡ 4) × All IsLength xs

count_down-AreLengths :
    (regs lengths : List ℕ) (c : ℕ) → AreLengths lengths → AreLengths (count_down regs lengths c)
unfolding count_down
count_down-AreLengths regs lengths c h = (
  ground (arith, h.0, length-set lengths c (at lengths c - 1)),
  ground (
    arith,
    h.1,
    All-set IsLength lengths c (at lengths c - 1)
        (omega (arith, All-get_or IsLength lengths c 0 (omega arith) h.1)) h.1,
  ),
)

pub with_lengths :
    (s : Counters) (lengths : List ℕ) (n : ℕ)
    → AreLengths lengths
    → IsWellFormed s
    → IsWellFormed (record s { lengths = lengths; halves = n })
with_lengths s lengths n l h = record {
  regs_size = h.regs_size;
  regs_bytes = h.regs_bytes;
  lengths_size = l.0;
  lengths_low = l.1;
  decay_size = h.decay_size;
  decay_low = h.decay_low;
  divider_size = h.divider_size;
  divider_low = h.divider_low;
  restart_size = h.restart_size;
  linear_low = h.linear_low;
  phase_low = h.phase_low;
}

pub half-IsWellFormed : (s : Counters) → IsWellFormed s → IsWellFormed (half s)
unfolding half
half-IsWellFormed s h =
    with_lengths s _ (s.halves + 1)
      (count_down-AreLengths s.regs _ 3 (
        count_down-AreLengths s.regs _ 2 (
          count_down-AreLengths s.regs _ 1
            (count_down-AreLengths s.regs s.lengths 0 (h.lengths_size, h.lengths_low)))))
      h

-- `half` and `quarter` leave the registers and the phase alone.
pub half-fixed : (s : Counters) → ((half s).regs ≡ s.regs) × ((half s).phase ≡ s.phase)
unfolding half
half-fixed s = (refl, refl)

envelope-fixed :
    (s : Counters) (c : ℕ) → ((envelope s c).regs ≡ s.regs) × ((envelope s c).phase ≡ s.phase)
unfolding envelope
envelope-fixed s c = ground arith

pub quarter-fixed : (s : Counters) → ((quarter s).regs ≡ s.regs) × ((quarter s).phase ≡ s.phase)
unfolding quarter linear_step
quarter-fixed s =
    let s1 = envelope (record s { quarters = s.quarters + 1 }) 0 in
    ground (
      arith,
      envelope-fixed (record s { quarters = s.quarters + 1 }) 0,
      envelope-fixed s1 1,
      envelope-fixed (envelope s1 1) 3,
    )
