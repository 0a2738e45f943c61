-- ===== src/IdleObserver/Ordered.antt =====
-- tools/idle_observer.py: the events of an accepted observation.
use nes2snes.Common.{
  ℕ, zero, suc, ◌+◌, ◌-◌, ◌≤◌, ◌≡◌, refl, ap, ◌∙◌, subst, arith, false, not, ◌&&◌, ◌||◌, ||-false,
  &&-true, not-false, Option, none, some,
}
use nes2snes.Common.{List, [], ◌∷◌, length, ltb, leb, ltb→le, leb→le, ◌==◌, ==_iff}
use nes2snes.Common.{ok, err, raise_if, raise_if-ok, >>=-eq-ok, ok_injective}
use nes2snes.IdleObserver.{
  overflowed, no_samples, no_records, bad_order, Sample, Observer, Event, events_loop, Summary,
  finish,
}

-- Events numbered from `suc i`, at the sampled instruction, with ticks and frames that never go
-- back and frames up to the observer's; the differences of the ticks add up to `total`.
pub data Ordered (o : Observer) : ℕ → ℕ → ℕ → List Event → ℕ → Type 0 where
  ended : (i ticks frame : ℕ) → Ordered o i ticks frame [] 0
  event_then :
      (i ticks frame total : ℕ) (e : Event) (rest : List Event)
      → e.sample ≡ suc i
      → e.pc ≡ o.sample_pc
      → ticks + e.ticks_since_previous_sample ≡ e.ticks
      → frame ≤ e.host_frame
      → e.host_frame ≤ o.frame
      → Ordered o (suc i) e.ticks e.host_frame rest total
      → Ordered o i ticks frame (e ∷ rest) (e.ticks_since_previous_sample + total)

-- The ticks of the last event
abbrev pub last_ticks : ℕ → List Event → ℕ
last_ticks ticks [] = ticks
last_ticks ticks (e ∷ rest) = last_ticks e.ticks rest

Ordered-total :
    (o : Observer) (i ticks frame total : ℕ) (l : List Event)
    → Ordered o i ticks frame l total
    → ticks + total ≡ last_ticks ticks l
Ordered-total o i ticks frame total l (ended i' ticks' frame') = omega arith
Ordered-total o i ticks frame total l (event_then i' t' f' total' e rest a b c d f ordered) =
    omega (arith, c, Ordered-total o (suc i) e.ticks e.host_frame total' rest ordered)

from_start :
    (o : Observer) (total : ℕ) (l : List Event)
    → Ordered o 0 0 0 l total
    → Ordered o 0 0 0 l (last_ticks 0 l)
from_start o total l ordered =
    subst (Ordered o 0 0 0 l) (omega (arith, Ordered-total o 0 0 0 total l ordered)) ordered

positive : (n : ℕ) → (n == 0) ≡ false → 1 ≤ n
positive n h = ground arith

whole : (n m : ℕ) → n ≤ m → n + (m - n) ≡ m
whole n m le = omega arith

events_loop-Ordered :
    (o : Observer) (rows : ℕ → Sample) (count i ticks frame : ℕ) (events : List Event)
    → events_loop o rows count i ticks frame ≡ ok events
    → (length events ≡ count) × (total : ℕ) × Ordered o i ticks frame events total
unfolding events_loop
events_loop-Ordered o rows zero i ticks frame events h =
    subst (λ l. (length l ≡ 0) × (total : ℕ) × Ordered o i ticks frame l total) (ok_injective h)
      (refl, 0, ended i ticks frame)
events_loop-Ordered o rows (suc count) i ticks frame events h =
    let (u, e1, h1) =
      >>=-eq-ok
        (raise_if
          (not ((rows i).sample == suc i)
            || (not ((rows i).pc == o.sample_pc)
                || (ltb (rows i).ticks ticks
                    || not (leb frame (rows i).host_frame && leb (rows i).host_frame o.frame))))
          bad_order)
        _ h in
    let (later, e2, h2) =
      >>=-eq-ok (events_loop o rows count (suc i) (rows i).ticks (rows i).host_frame) _ h1 in
    let (numbered, rest) = ||-false _ _ (raise_if-ok _ _ e1) in
    let (placed, rest') = ||-false _ _ rest in
    let (grown, framed) = ||-false _ _ rest' in
    let (low, high) = &&-true _ _ (not-false _ framed) in
    let (size, total, ordered) =
      events_loop-Ordered o rows count (suc i) (rows i).ticks (rows i).host_frame later e2 in
    let sum : ticks + ((rows i).ticks - ticks) ≡ (rows i).ticks =
      whole ticks _ (ltb→le _ _ grown) in
    subst (λ l. (length l ≡ suc count) × (total : ℕ) × Ordered o i ticks frame l total)
      (ok_injective h2)
      (
        ap suc size,
        _,
        event_then i ticks frame total _ later ((==_iff _ _).0 (not-false _ numbered))
            ((==_iff _ _).0 (not-false _ placed)) sum (leb→le _ _ low) (leb→le _ _ high) ordered,
      )

-- An accepted observation has one event for each sample that the library counted, at least one,
-- numbered in order, at the sampled instruction, with ticks that never go back and host frames that
-- never go back and do not pass the observer's frame; the differences of the ticks add up to the
-- last ticks.
pub finish-Ordered :
    (o : Observer) (status : ℕ → ℕ) (rows : Option (ℕ → Sample)) (s : Summary)
    → finish o status rows ≡ ok s
    → (length s.records ≡ s.samples)
      × (1 ≤ s.samples)
      × Ordered o 0 0 0 s.records (last_ticks 0 s.records)
unfolding finish
finish-Ordered o status pointer s h =
    let (u1, e1, h1) =
      >>=-eq-ok (raise_if (not (status 3 == 0) || not (status 0 == status 1)) overflowed) _ h in
    let (u2, e2, h2) = >>=-eq-ok (raise_if (status 0 == 0) no_samples) _ h1 in
    let (rows, e3, h3) =
      >>=-eq-ok (elim pointer [ none ↦ err no_records | some rows ↦ ok rows ]) _ h2 in
    let (events, e4, h4) = >>=-eq-ok (events_loop o rows (status 0) 0 0 0) _ h3 in
    let same : status 0 ≡ status 1 =
      (==_iff _ _).0 (not-false _ (||-false _ _ (raise_if-ok _ _ e1)).1) in
    let (size, total, ordered) = events_loop-Ordered o rows (status 0) 0 0 0 events e4 in
    let some_samples = positive (status 0) (raise_if-ok _ _ e2) in
    subst
      (λ s.
        (length s.records ≡ s.samples)
        × (1 ≤ s.samples)
        × Ordered o 0 0 0 s.records (last_ticks 0 s.records))
      (ok_injective h4)
      (size ∙ same, subst (λ n. 1 ≤ n) same some_samples, from_start o total events ordered)
