-- ===== src/Apu/Counters.antt =====
-- tools/apu_model.py: the class Counters. `write` and `frame` call `self.half`, which the subclass
-- overrides, so they stand in a section over an object with its own `half`.
pub mod Invariant
pub mod Dispatch
pub mod Writes
pub mod Frames
pub mod Volume
pub mod Keeps
use nes2snes.Common.{ℕ, ◌+◌, ◌-◌, ◌*◌, ◌/◌, ◌%◌, ◌^◌, bit_and, Bool, not, ◌&&◌, ◌||◌}
use nes2snes.Common.{List, [], ◌∷◌, get_or, set, replicate, ltb, leb, ◌==◌, if◌then◌else◌}
use nes2snes.Common.{Result, ok, err, ℤ, pos}

pub data ApuError : Type 0 where
  not_register_byte invalid_voice : ApuError

-- LENGTHS
unfoldable pub length_table : List ℕ
length_table =
    10 ∷ 254 ∷ 20 ∷ 2 ∷ 40 ∷ 4 ∷ 80 ∷ 6 ∷ 160 ∷ 8 ∷ 60 ∷ 10 ∷ 14 ∷ 12 ∷ 26 ∷ 14 ∷ 12 ∷ 16 ∷ 24 ∷ 18
    ∷ 48 ∷ 20 ∷ 96 ∷ 22 ∷ 192 ∷ 24 ∷ 72 ∷ 26 ∷ 16 ∷ 28 ∷ 32 ∷ 30 ∷ []

pub record Counters : Type 0 where
  pub regs : List ℕ
  pub lengths : List ℕ
  pub decay : List ℕ
  pub divider : List ℕ
  pub restart : List ℕ
  pub linear : ℕ
  pub reload : ℕ
  pub phase : ℕ
  pub quarters : ℕ
  pub halves : ℕ
  pub frames : ℕ
  pub writes : ℕ

abbrev pub initial : Counters
initial = record {
  regs = replicate 24 0;
  lengths = replicate 4 0;
  decay = replicate 4 0;
  divider = replicate 4 0;
  restart = replicate 4 0;
  linear = 0;
  reload = 0;
  phase = 0;
  quarters = 0;
  halves = 0;
  frames = 0;
  writes = 0;
}

-- `xs[i]`, for an index that is in range, and `bool(value & mask)`.
abbrev pub at : List ℕ → ℕ → ℕ
at xs i = get_or xs i 0

abbrev pub bits : ℕ → ℕ → Bool
bits value mask = not (bit_and value mask == 0)

-- `[length if value & (1 << c) else 0 for c, length in enumerate(lengths)]`
unfoldable pub enabled_lengths : ℕ → ℕ → List ℕ → List ℕ
enabled_lengths value c [] = []
enabled_lengths value c (n ∷ rest) =
    (if bits value (2 ^ c) then n else 0) ∷ enabled_lengths value (c + 1) rest

-- One round of the loop of `quarter`.
unfoldable pub envelope : Counters → ℕ → Counters
envelope s c =
    let period = bit_and (at s.regs (c * 4)) 15 in
    if not (at s.restart c == 0)
    then record s {
      restart = set s.restart c 0;
      decay = set s.decay c 15;
      divider = set s.divider c period;
    }
    else if not (at s.divider c == 0)
    then record s { divider = set s.divider c (at s.divider c - 1) }
    else if not (at s.decay c == 0)
    then record s { divider = set s.divider c period; decay = set s.decay c (at s.decay c - 1) }
    else if bits (at s.regs (c * 4)) 32
    then record s { divider = set s.divider c period; decay = set s.decay c 15 }
    else record s { divider = set s.divider c period }

unfoldable pub linear_step : Counters → Counters
linear_step s = record s {
  linear = if not (s.reload == 0) then bit_and (at s.regs 8) 127 else s.linear - 1;
  reload = if bits (at s.regs 8) 128 then s.reload else 0;
}

unfoldable pub quarter : Counters → Counters
unfolding envelope linear_step
quarter s =
    linear_step (envelope (envelope (envelope (record s { quarters = s.quarters + 1 }) 0) 1) 3)

-- One round of the loop of `half`.
unfoldable pub count_down : List ℕ → List ℕ → ℕ → List ℕ
count_down regs lengths c =
    if not (at lengths c == 0) && not (bits (at regs (c * 4)) (if c == 2 then 128 else 32))
    then set lengths c (at lengths c - 1)
    else lengths

unfoldable pub half : Counters → Counters
unfolding count_down
half s = record s {
  halves = s.halves + 1;
  lengths =
      count_down s.regs (count_down s.regs (count_down s.regs (count_down s.regs s.lengths 0) 1) 2)
        3;
}

-- An object of the class or of its subclass: its counters, and its own `half`.
pub record Machine (S : Type 0) : Type 0 where
  pub view : S → Counters
  pub update : S → Counters → S
  pub half : S → S

module _ {S : Type 0} (m : Machine S) where
  unfoldable pub key_write : S → ℕ → ℕ → S
  key_write s index value =
      let c = m.view s in
      let channel = index / 4 in
      let keyed =
        if channel == 2
        then record c { reload = 1 }
        else record c { restart = set c.restart channel 1 } in
      m.update s (
        if bits (at c.regs 0x15) (2 ^ channel)
        then record keyed { lengths = set c.lengths channel (get_or length_table (value / 8) 0) }
        else keyed)

  unfoldable pub quarter_of : S → S
  unfolding quarter
  quarter_of s = m.update s (quarter (m.view s))

  -- `write` on an index and a value that are in range.
  unfoldable pub store : S → ℕ → ℕ → S
  unfolding key_write quarter_of enabled_lengths
  store s0 index value =
      let c = m.view s0 in
      let s = m.update s0 (record c { regs = set c.regs index value; writes = c.writes + 1 }) in
      if index == 0x15
      then m.update s (record (m.view s) { lengths = enabled_lengths value 0 (m.view s).lengths })
      else if index == 0x17
      then (let s' = m.update s (record (m.view s) { phase = 0 }) in
          if bits value 128 then quarter_of (m.half s') else s')
      else if ltb index 16 && index % 4 == 3
      then key_write s index value
      else s

  -- `0x4000 <= address <= 0x4017 and address not in (0x4014, 0x4016)`, and `0 <= value <= 255`
  abbrev pub is_register : ℕ → Bool
  is_register address =
      (leb 0x4000 address && leb address 0x4017)
      && (not (address == 0x4014) && not (address == 0x4016))

  unfoldable pub write : S → ℤ → ℤ → Result ApuError S
  write s (pos address) (pos value) =
      if is_register address && leb value 255
      then ok (store s (address - 0x4000) value)
      else err not_register_byte
  write s _ _ = err not_register_byte

  abbrev pub five : S → Bool
  five s = bits (at (m.view s).regs 23) 128

  -- One round of the loop of `frame`.
  unfoldable pub step : S → S
  unfolding quarter_of
  step s0 =
      let mode = five s0 in
      let phase = (m.view s0).phase in
      let s1 = if phase == 1 || phase == (if mode then 4 else 3) then m.half s0 else s0 in
      let s2 = if not mode || not (phase == 3) then quarter_of s1 else s1 in
      m.update s2 (record (m.view s2) { phase = ((m.view s2).phase + 1) % (if mode then 5 else 4) })

  unfoldable pub frame : S → S
  frame s0 =
      let s = step (step (step (step s0))) in
      m.update s (record (m.view s) { frames = (m.view s).frames + 1 })

unfoldable pub volume : Counters → ℕ → Result ApuError ℕ
volume s c =
    if not (ltb c 4)
    then err invalid_voice
    else if at s.lengths c == 0 || not (bits (at s.regs 21) (2 ^ c))
    then ok 0
    else if c == 2
    then ok (if s.linear == 0 then 0 else 66)
    else (let raw =
          if bits (at s.regs (c * 4)) 16 then bit_and (at s.regs (c * 4)) 15 else at s.decay c in
        ok (raw * (if c == 3 then 4 else 6)))

abbrev pub machine : Machine Counters
machine = record { view = λ s. s; update = λ _ c. c; half = half }
