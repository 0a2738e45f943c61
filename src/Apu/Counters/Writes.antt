-- ===== src/Apu/Counters/Writes.antt =====
-- A register write, and a frame, keep the counters well formed.
use nes2snes.Common.{ℕ, ◌+◌, ◌/◌, ◌%◌, ◌^◌, ◌≤◌, ◌<◌, ◌≡◌, ◌≢◌, refl, ap, ◌∙◌, arith, suc}
use nes2snes.Common.{true, List, [], ◌∷◌, length, length-set, set, get_or, get_or-set_ne, if_both}
use nes2snes.Common.{All, All-set, All-get_or, IsByte, if◌then◌else◌, ltb, ◌==◌, ◌&&◌, ◌||◌}
use nes2snes.Apu.Counters.{
  Counters, machine, at, bits, length_table, enabled_lengths, quarter, half, key_write, store, step,
  frame,
}
use nes2snes.Apu.Counters.Invariant.{
  IsLength, AreLengths, phases, IsWellFormed, with_lengths, quarter-IsWellFormed, half-IsWellFormed,
  half-fixed, quarter-fixed,
}

with_regs :
    (s : Counters) (regs : List ℕ) (phase n : ℕ)
    → length regs ≡ 24
    → All IsByte regs
    → phase < phases regs
    → IsWellFormed s
    → IsWellFormed (record s { regs = regs; phase = phase; writes = n })
with_regs s regs phase n size bytes low h = record {
  regs_size = size;
  regs_bytes = bytes;
  lengths_size = h.lengths_size;
  lengths_low = h.lengths_low;
  decay_size = h.decay_size;
  decay_low = h.decay_low;
  divider_size = h.divider_size;
  divider_low = h.divider_low;
  restart_size = h.restart_size;
  linear_low = h.linear_low;
  phase_low = low;
}

with_keys :
    (s : Counters) (restart : List ℕ) (reload : ℕ)
    → length restart ≡ 4
    → IsWellFormed s
    → IsWellFormed (record s { restart = restart; reload = reload })
with_keys s restart reload size h = record {
  regs_size = h.regs_size;
  regs_bytes = h.regs_bytes;
  lengths_size = h.lengths_size;
  lengths_low = h.lengths_low;
  decay_size = h.decay_size;
  decay_low = h.decay_low;
  divider_size = h.divider_size;
  divider_low = h.divider_low;
  restart_size = size;
  linear_low = h.linear_low;
  phase_low = h.phase_low;
}

enabled_lengths-AreLengths :
    (value c : ℕ) (xs : List ℕ)
    → All IsLength xs
    → (length (enabled_lengths value c xs) ≡ length xs) × All IsLength (enabled_lengths value c xs)
unfolding enabled_lengths
enabled_lengths-AreLengths value c [] h = (refl, tt)
enabled_lengths-AreLengths value c (x ∷ xs) h =
    let (size, low) = enabled_lengths-AreLengths value (c + 1) xs h.1 in
    (ap suc size, (ground (arith, h.0), low))

table_low : (i : ℕ) → get_or length_table i 0 ≤ 254
unfolding length_table
table_low i = All-get_or IsLength length_table i 0 (omega arith) (omega arith)

key_write-IsWellFormed :
    (s : Counters) (index value : ℕ)
    → IsWellFormed s
    → IsWellFormed (key_write machine s index value)
unfolding key_write
key_write-IsWellFormed s index value h =
    if_both IsWellFormed (bits (at s.regs 0x15) (2 ^ (index / 4)))
      (λ _. with_lengths _ _ _ lengths_set keyed) (λ _. keyed)
  where
    keyed : IsWellFormed (
        if index / 4 == 2
        then record s { reload = 1 }
        else record s { restart = set s.restart (index / 4) 1 })
    keyed =
        if_both IsWellFormed (index / 4 == 2) (λ _. with_keys s s.restart 1 h.restart_size h)
          (λ _.
            with_keys s (set s.restart (index / 4) 1) s.reload
              (length-set s.restart (index / 4) 1 ∙ h.restart_size) h)

    lengths_set : AreLengths (set s.lengths (index / 4) (get_or length_table (value / 8) 0))
    lengths_set = (
      length-set s.lengths (index / 4) _ ∙ h.lengths_size,
      All-set IsLength s.lengths (index / 4) _ (table_low (value / 8)) h.lengths_low,
    )

-- The registers after a write of a byte.
module _ (s : Counters) (index value : ℕ) (byte : value < 256) (h : IsWellFormed s) where
  abbrev regs' : List ℕ
  regs' = set s.regs index value

  regs'_lem : (length regs' ≡ 24) × All IsByte regs'
  regs'_lem = (
    length-set s.regs index value ∙ h.regs_size,
    All-set IsByte s.regs index value byte h.regs_bytes,
  )

  stored-IsWellFormed : index ≢ 23 → IsWellFormed (record s { regs = regs'; writes = s.writes + 1 })
  stored-IsWellFormed ne =
      with_regs s regs' s.phase (s.writes + 1) regs'_lem.0 regs'_lem.1
        (rw (get_or-set_ne s.regs index 23 value 0 ne) h.phase_low) h

  reset-IsWellFormed : IsWellFormed (record s { regs = regs'; writes = s.writes + 1; phase = 0 })
  reset-IsWellFormed = with_regs s regs' 0 (s.writes + 1) regs'_lem.0 regs'_lem.1 (ground arith) h

  -- Writing a byte to any audio register keeps the counters well formed: the registers bytes, the
  -- length, envelope and linear counters in their ranges, and the phase within the current sequence.
  pub store-IsWellFormed : IsWellFormed (store machine s index value)
  unfolding store
  store-IsWellFormed =
      if_both IsWellFormed (index == 0x15)
        (λ e. with_lengths _ _ _ (enabled e) (stored-IsWellFormed (ground arith)))
        λ _.
          if_both IsWellFormed (index == 0x17)
            (λ e.
              if_both IsWellFormed (bits value 128)
                (λ _. quarter-IsWellFormed _ (half-IsWellFormed _ reset-IsWellFormed))
                (λ _. reset-IsWellFormed))
            λ ne.
              if_both IsWellFormed (ltb index 16 && index % 4 == 3)
                (λ _. key_write-IsWellFormed _ index value (stored-IsWellFormed (ground arith)))
                (λ _. stored-IsWellFormed (ground arith))
    where
      enabled : (index == 0x15) ≡ true → AreLengths (enabled_lengths value 0 s.lengths)
      enabled e =
          let (size, low) = enabled_lengths-AreLengths value 0 s.lengths h.lengths_low in
          (size ∙ h.lengths_size, low)

-- Within a round of `frame`, up to the step of the phase.
record Tracks (s t : Counters) : Type 0 where
  well : IsWellFormed t
  same_regs : t.regs ≡ s.regs
  same_phase : t.phase ≡ s.phase

half-Tracks : (s t : Counters) → Tracks s t → Tracks s (half t)
half-Tracks s t h = record {
  well = half-IsWellFormed t h.well;
  same_regs = (half-fixed t).0 ∙ h.same_regs;
  same_phase = (half-fixed t).1 ∙ h.same_phase;
}

quarter-Tracks : (s t : Counters) → Tracks s t → Tracks s (quarter t)
quarter-Tracks s t h = record {
  well = quarter-IsWellFormed t h.well;
  same_regs = (quarter-fixed t).0 ∙ h.same_regs;
  same_phase = (quarter-fixed t).1 ∙ h.same_phase;
}

next_phase :
    (s t : Counters)
    → Tracks s t
    → IsWellFormed (record t { phase = (t.phase + 1) % phases s.regs })
next_phase s t h =
    with_regs t t.regs ((t.phase + 1) % phases s.regs) t.writes h.well.regs_size h.well.regs_bytes
      (rw (← h.same_regs) (ground arith)) h.well

step-IsWellFormed : (s : Counters) → IsWellFormed s → IsWellFormed (step machine s)
unfolding step
step-IsWellFormed s h =
    next_phase s _ (if_both (Tracks s) _ (λ _. quarter-Tracks s _ halved) (λ _. halved))
  where
    halved : Tracks s (
        if s.phase == 1 || s.phase == (if bits (at s.regs 23) 128 then 4 else 3) then half s else s)
    halved =
        let here : Tracks s s = record { well = h; same_regs = refl; same_phase = refl } in
        if_both (Tracks s) _ (λ _. half-Tracks s s here) (λ _. here)

count_frame : (s : Counters) → IsWellFormed s → IsWellFormed (record s { frames = s.frames + 1 })
count_frame s h = record {
  regs_size = h.regs_size;
  regs_bytes = h.regs_bytes;
  lengths_size = h.lengths_size;
  lengths_low = h.lengths_low;
  decay_size = h.decay_size;
  decay_low = h.decay_low;
  divider_size = h.divider_size;
  divider_low = h.divider_low;
  restart_size = h.restart_size;
  linear_low = h.linear_low;
  phase_low = h.phase_low;
}

-- A frame keeps the counters well formed.
pub frame-IsWellFormed : (s : Counters) → IsWellFormed s → IsWellFormed (frame machine s)
unfolding frame
frame-IsWellFormed s h =
    count_frame _
      (step-IsWellFormed _ (step-IsWellFormed _ (step-IsWellFormed _ (step-IsWellFormed s h))))
