-- ===== src/IdleObserver/Tests.antt =====
-- An observation of two samples, and the theorem at it.
use nes2snes.Common.{ℕ, ◌≤◌, ◌≡◌, refl, true, some, ◌==◌, if◌then◌else◌}
use nes2snes.Common.{[], ◌∷◌, length, ok, err, nat}
use nes2snes.IdleObserver.{
  Sample, Observer, watched, bad_frame, same_instruction, create, before_frame, Event, Summary,
  overflowed, finish,
}
use nes2snes.IdleObserver.Ordered.{Ordered, finish-Ordered}

abbrev observer : ℕ → Observer
observer n = record { addresses = 0x10 ∷ []; tick_pc = 0x8000; sample_pc = 0x8003; frame = n }

started :
    (create 48 true (nat 0x8000) (nat 0x8003) (watched (nat 0x10 ∷ [])) (nat 8) ≡ ok (observer 0))
    × (create 48 true (nat 0x8000) (nat 0x8000) (watched (nat 0x10 ∷ [])) (nat 8)
        ≡ err same_instruction)
    × (before_frame (observer 0) (nat 5) ≡ ok (observer 5))
    × (before_frame (observer 5) (nat 5) ≡ err bad_frame)
unfolding create before_frame
started = (refl, refl, refl, refl)

-- Two samples at frames 1 and 2, after 4 and 9 ticks.
abbrev rows : ℕ → Sample
rows i = record {
  ticks = (if i == 0 then 4 else 9);
  host_frame = (if i == 0 then 1 else 2);
  sample = (if i == 0 then 1 else 2);
  pc = 0x8003;
  bank = 0;
  values = 7 ∷ [];
}

abbrev status : ℕ → ℕ
status i = if i == 3 then 0 else if i == 2 then 9 else 2

abbrev event : ℕ → ℕ → ℕ → Event
event i ticks since = record {
  sample = i;
  pc = 0x8003;
  bank = 0;
  host_frame = i;
  ticks = ticks;
  ticks_since_previous_sample = since;
  ram = (0x10, 7) ∷ [];
}

abbrev summary : Summary
summary = record {
  tick_pc = 0x8000;
  sample_pc = 0x8003;
  addresses = 0x10 ∷ [];
  samples = 2;
  ticks = 9;
  records = event 1 4 4 ∷ event 2 9 5 ∷ [];
}

finished :
    (finish (observer 5) status (some rows) ≡ ok summary)
    × (finish (observer 5) (λ i. 1) (some rows) ≡ err overflowed)
unfolding finish
finished = (refl, refl)

finish-Ordered_example :
    (length summary.records ≡ summary.samples)
    × (1 ≤ summary.samples)
    × Ordered (observer 5) 0 0 0 summary.records 9
finish-Ordered_example = finish-Ordered (observer 5) status (some rows) summary finished.0
