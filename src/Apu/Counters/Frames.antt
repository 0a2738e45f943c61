-- ===== src/Apu/Counters/Frames.antt =====
-- How often a frame clocks the envelopes and the length counters.
use nes2snes.Common.{ℕ, zero, suc, ◌+◌, ◌%◌, ◌<◌, ◌≡◌, refl, ap, ap₂, ◌∙◌, arith, Bool, true, false}
use nes2snes.Common.{if◌then◌else◌, ◌==◌, not, ◌||◌, List}
use nes2snes.Apu.Counters.{
  Counters, machine, at, bits, envelope, linear_step, quarter, half, step, frame, five,
}
use nes2snes.Apu.Counters.Invariant.{half-fixed, quarter-fixed}

envelope-counts :
    (s : Counters) (c : ℕ)
    → ((envelope s c).quarters ≡ s.quarters) × ((envelope s c).halves ≡ s.halves)
unfolding envelope
envelope-counts s c = ground arith

quarter-counts :
    (s : Counters) → ((quarter s).quarters ≡ s.quarters + 1) × ((quarter s).halves ≡ s.halves)
unfolding quarter linear_step
quarter-counts s =
    let s0 = record s { quarters = s.quarters + 1 } in
    let s1 = envelope s0 0 in
    ground (arith, envelope-counts s0 0, envelope-counts s1 1, envelope-counts (envelope s1 1) 3)

half-counts : (s : Counters) → ((half s).quarters ≡ s.quarters) × ((half s).halves ≡ s.halves + 1)
unfolding half
half-counts s = (refl, refl)

-- The phase, and the numbers of quarter and half clocks.
pub record Tally : Type 0 where
  pub phase : ℕ
  pub quarters : ℕ
  pub halves : ℕ

abbrev pub tally : Counters → Tally
tally s = record { phase = s.phase; quarters = s.quarters; halves = s.halves }

-- One round in the sequence of five phases, or in that of four.
abbrev pub beat : Bool → Tally → Tally
beat mode t = record {
  phase = (t.phase + 1) % (if mode then 5 else 4);
  quarters = t.quarters + (if not mode || not (t.phase == 3) then 1 else 0);
  halves = t.halves + (if t.phase == 1 || t.phase == (if mode then 4 else 3) then 1 else 0);
}

abbrev clocked : Tally → Bool → Bool → Tally
clocked t quarter_clock half_clock = record t {
  quarters = t.quarters + (if quarter_clock then 1 else 0);
  halves = t.halves + (if half_clock then 1 else 0);
}

-- The clocks of one round, whether or not each is made.
round_clocks :
    (s : Counters) (h q : Bool)
    → let s1 = if h then half s else s in
      let s2 = if q then quarter s1 else s1 in
      (tally s2 ≡ clocked (tally s) q h) × (s2.regs ≡ s.regs)
round_clocks s true true =
    ground (arith, half-fixed s, half-counts s, quarter-fixed (half s), quarter-counts (half s))
round_clocks s true false = ground (arith, half-fixed s, half-counts s)
round_clocks s false true = ground (arith, quarter-fixed s, quarter-counts s)
round_clocks s false false = ground arith

tally-step :
    (s : Counters)
    → (tally (step machine s) ≡ beat (five machine s) (tally s)) × ((step machine s).regs ≡ s.regs)
unfolding step
tally-step s =
    let clocks =
      round_clocks s (s.phase == 1 || s.phase == (if five machine s then 4 else 3))
        (not (five machine s) || not (s.phase == 3)) in
    (
      ap (λ (t : Tally). record t { phase = (t.phase + 1) % (if five machine s then 5 else 4) })
          clocks.0,
      clocks.1,
    )

abbrev beats : ℕ → Bool → Tally → Tally
beats zero mode t = t
beats (suc n) mode t = beats n mode (beat mode t)

abbrev steps : ℕ → Counters → Counters
steps zero s = s
steps (suc n) s = steps n (step machine s)

tally-steps :
    (n : ℕ) (s : Counters)
    → (tally (steps n s) ≡ beats n (five machine s) (tally s)) × ((steps n s).regs ≡ s.regs)
tally-steps zero s = (refl, refl)
tally-steps (suc n) s =
    let (now, regs) = tally-step s in
    let (later, kept) = tally-steps n (step machine s) in
    (later ∙ ap₂ (beats n) (ap (λ (r : List ℕ). bits (at r 23) 128) regs) now, kept ∙ regs)

-- A frame is four rounds.
tally-frame :
    (s : Counters)
    → (tally (frame machine s) ≡ beats 4 (five machine s) (tally s))
      × ((frame machine s).regs ≡ s.regs)
unfolding frame
tally-frame s = tally-steps 4 s

pub frames : ℕ → Counters → Counters
frames zero s = s
frames (suc n) s = frames n (frame machine s)

abbrev tallied : ℕ → ℕ → ℕ → Tally
tallied p q h = record { phase = p; quarters = q; halves = h }

beats_five : (p q h : ℕ) → p < 5 → beats 5 true (tallied p q h) ≡ tallied p (q + 4) (h + 2)
beats_five zero q h lt = ground arith
beats_five (suc zero) q h lt = ground arith
beats_five (suc (suc zero)) q h lt = ground arith
beats_five (suc (suc (suc zero))) q h lt = ground arith
beats_five (suc (suc (suc (suc zero)))) q h lt = ground arith
beats_five (suc (suc (suc (suc (suc p))))) q h lt = absurd (omega arith)

abbrev frame_beats : ℕ → Bool → Tally → Tally
frame_beats zero mode t = t
frame_beats (suc n) mode t = frame_beats n mode (beats 4 mode t)

tally-frames :
    (n : ℕ) (s : Counters) → tally (frames n s) ≡ frame_beats n (five machine s) (tally s)
unfolding frames
tally-frames zero s = refl
tally-frames (suc n) s =
    let (now, regs) = tally-frame s in
    tally-frames n (frame machine s)
    ∙ ap₂ (frame_beats n) (ap (λ (r : List ℕ). bits (at r 23) 128) regs) now

four_rounds_of_five :
    (p q h : ℕ) → p < 5 → frame_beats 5 true (tallied p q h) ≡ tallied p (q + 16) (h + 8)
four_rounds_of_five p q h low =
    ap (λ (t : Tally). beats 5 true (beats 5 true (beats 5 true t))) (beats_five p q h low)
    ∙ ap (λ (t : Tally). beats 5 true (beats 5 true t)) (beats_five p (q + 4) (h + 2) low)
    ∙ ap (λ (t : Tally). beats 5 true t) (beats_five p (q + 4 + 4) (h + 2 + 2) low)
    ∙ beats_five p (q + 4 + 4 + 4) (h + 2 + 2 + 2) low
    ∙ ground arith

-- In the five-phase mode five frames make sixteen quarter clocks and eight half clocks, and end at
-- the phase that they began at.
pub frames_five :
    (s : Counters)
    → five machine s ≡ true
    → s.phase < 5
    → tally (frames 5 s)
      ≡ record { phase = s.phase; quarters = s.quarters + 16; halves = s.halves + 8 }
frames_five s mode low =
    tally-frames 5 s
    ∙ ap (λ (b : Bool). frame_beats 5 b (tally s)) mode
    ∙ four_rounds_of_five s.phase s.quarters s.halves low
