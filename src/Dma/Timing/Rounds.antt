-- ===== src/Dma/Timing/Rounds.antt =====
-- What the rounds of `timing` find, one after the other.
use nes2snes.Common.{
  ℕ, zero, suc, ◌+◌, ◌-◌, ◌*◌, ◌/◌, ◌%◌, ◌^◌, ◌<◌, ◌≤◌, ◌≡◌, inl, inr, refl, sym, ap, ◌∙◌, subst,
  arith, Bool, Bool-cases, false, not, ◌&&◌, &&-true, ltb, ◌==◌, ==_iff, if◌then◌else◌,
}
use nes2snes.Common.{
  List, [], ◌∷◌, ◌++◌, append_assoc, append-nil, length, length-drop, get_or, take, drop, drop-drop,
  slice,
}
use nes2snes.Common.{
  Result, ok, err, raise_if, raise_if-not-ok, >>=-eq-ok, ok_injective, Bytes, bytes_eq,
  bytes_eq-same, from_bytes,
}
use nes2snes.Common.Slices.{take_all}
use nes2snes.Common.Text.{TextArgument}
use nes2snes.Dma.{
  DmaError, other_pc, bad_window, mismatch, other_opcode, fractional, too_large, other_ledger,
  exact_hex, Row, RowFields, Plan, fragments, bounded_row,
}
use nes2snes.Dma.Timing.{
  Base, Tally, instruction_at, starts_dma, count_delay, ledger, continues, matches_native, round,
  rounds,
}
use nes2snes.Dma.Timing.Ledger.{
  cycles, is_dma, delays_of, Timed, ended, stepped, IsTally, count_delay-IsTally, bounded_row-order,
  elapsed_lem,
}

-- What an accepted round has found of its row and its record.
abbrev Found : Plan → Base → Tally → Row → Bytes → Bytes → Tally → Type 0
Found plan x s row native entry r =
    IsTally r
    × (r.durations ≡ s.durations ++ delays_of plan (row ∷ []))
    × (r.prior ≡ row.end)
    × (entry ≡ ledger r)
    × (row.start ≡ s.prior)
    × (row.clock ≡ x.clock)
    × (row.end ≡ x.origin + x.clock * ((row.end - x.origin) / row.clock))
    × (from_bytes (take 4 native) ≡ x.clock_origin + (row.end - x.origin) / row.clock)
    × (from_bytes (slice native 4 6) ≡ row.next_pc)
    × (get_or native 17 0 ≡ row.opcode)

delays_of_one :
    (plan : Plan) (row : Row) {inst : Bytes}
    → instruction_at (fragments plan) row.pc ≡ ok inst
    → (if starts_dma inst then (cycles row - 4) ∷ [] else []) ≡ delays_of plan (row ∷ [])
unfolding delays_of
delays_of_one plan row {inst} e =
    let same : is_dma plan row ≡ starts_dma inst =
      ap (λ (r : Result DmaError Bytes). elim r [ ok i ↦ starts_dma i | err d ↦ false ]) e in
    ap (λ (b : Bool). if b then (cycles row - 4) ∷ [] else []) (sym same)

round-Found :
    (plan : Plan) (x : Base) (s : Tally) (row : Row) (native entry : Bytes) {r : Tally}
    → round plan x s row native entry ≡ ok r
    → row.start < row.end
    → x.origin ≤ s.prior
    → IsTally s
    → Found plan x s row native entry r
unfolding round
round-Found plan x s row native entry {r} h before after tally =
    let (u1, e1, h1) =
      >>=-eq-ok (raise_if (not (row.start == s.prior && row.clock == x.clock)) bad_window) _ h in
    let (u2, e2, h2) = >>=-eq-ok (raise_if (not (matches_native x row native)) mismatch) _ h1 in
    let (inst, e3, h3) = >>=-eq-ok (instruction_at (fragments plan) row.pc) _ h2 in
    let (u4, e4, h4) =
      >>=-eq-ok
        (raise_if
          (not (
            not (length inst == 0)
            && (get_or inst 0 0 == row.opcode && get_or native 17 0 == row.opcode)))
          other_opcode)
        _ h3 in
    let (u5, e5, h5) =
      >>=-eq-ok (raise_if (not ((row.end - row.start) % row.clock == 0)) fractional) _ h4 in
    let (c, e6, h6) = >>=-eq-ok (count_delay s inst ((row.end - row.start) / row.clock)) _ h5 in
    let (u7, e7, h7) =
      >>=-eq-ok (raise_if (not (ltb c.count 65536 && ltb c.total (2 ^ 32))) too_large) _ h6 in
    let (u8, e8, h8) = >>=-eq-ok (raise_if (not (bytes_eq entry (ledger c))) other_ledger) _ h7 in
    let (starts, clocks) = &&-true (row.start == s.prior) _ (raise_if-not-ok _ bad_window e1) in
    let start = (==_iff _ _).0 starts in
    let clock = (==_iff _ _).0 clocks in
    let (time, elapsed, next) =
      elapsed_lem x row native (raise_if-not-ok _ mismatch e2) clock (omega (arith, start)) in
    let (some_code, opcodes) =
      &&-true (not (length inst == 0)) _ (raise_if-not-ok _ other_opcode e4) in
    let (first, retired) = &&-true (get_or inst 0 0 == row.opcode) _ opcodes in
    let (counted, durations) = count_delay-IsTally s inst (cycles row) e6 tally in
    subst (Found plan x s row native entry) (ok_injective h8) (
      record {
        count = counted.count;
        total = counted.total;
        last = counted.last;
        delays = counted.delays;
      },
      durations ∙ ap (λ (l : List ℕ). s.durations ++ l) (delays_of_one plan row e3),
      refl,
      bytes_eq-same entry (ledger c) (raise_if-not-ok _ other_ledger e8),
      start,
      clock,
      time,
      elapsed,
      next,
      (==_iff _ _).0 retired,
    )

-- A whole number of cycles after the origin.
abbrev pub IsWhole : Base → ℕ → Type 0
IsWhole x time = time ≡ x.origin + x.clock * ((time - x.origin) / x.clock)

later_delays :
    (plan : Plan) (row : Row) (rows : List Row) (before now done : List ℕ)
    → now ≡ before ++ delays_of plan (row ∷ [])
    → done ≡ now ++ delays_of plan rows
    → done ≡ before ++ delays_of plan (row ∷ rows)
unfolding delays_of
later_delays plan row rows before now done e h = elim (Bool-cases (is_dma plan row)) [
  | inl dma ↦
      let one = rw (delays_of, dma) at e in
      rw (delays_of, dma)
        (h
          ∙ ap (λ (l : List ℕ). l ++ delays_of plan rows) one
          ∙ append_assoc before ((cycles row - 4) ∷ []) (delays_of plan rows))
  | inr other ↦
      let one = rw (delays_of, other) at e in
      rw (delays_of, other)
        (h ∙ ap (λ (l : List ℕ). l ++ delays_of plan rows) (one ∙ append-nil before))
]

-- The last of `n` entries of eight bytes, or the one before them.
abbrev pub final_entry : Bytes → Bytes → ℕ → Bytes
final_entry previous raw zero = previous
final_entry previous raw (suc n) = final_entry (take 8 raw) (drop 8 raw) n

pub final_entry_lem :
    (previous raw : Bytes) (n : ℕ)
    → length raw ≡ 8 * n + 8
    → final_entry previous raw (suc n) ≡ drop (8 * n) raw
final_entry_lem previous raw zero len = take_all 8 raw (omega arith)
final_entry_lem previous raw (suc n) len =
    final_entry_lem (take 8 raw) (drop 8 raw) n (omega (arith, length-drop 8 raw))
    ∙ drop-drop 8 (8 * n) raw
    ∙ ap (λ k. drop k raw) (omega arith)

pub rounds-Timed :
    (plan : Plan) (x : Base) (s : Tally) (fs : List RowFields) (ts : List TextArgument)
    (raw : Bytes) {r : Tally}
    → rounds plan x s fs ts raw ≡ ok r
    → length fs ≡ length ts
    → x.origin ≤ s.prior
    → IsWhole x s.prior
    → IsTally s
    → (rows : List Row) × Timed x s.prior fs ts rows r.prior
      × IsTally r
      × (r.durations ≡ s.durations ++ delays_of plan rows)
      × IsWhole x r.prior
      × (final_entry (ledger s) raw (length fs) ≡ ledger r)
unfolding rounds delays_of
rounds-Timed plan x s [] [] raw {r} h len after whole tally =
    subst
      (λ (r : Tally).
        (rows : List Row) × Timed x s.prior [] [] rows r.prior
        × IsTally r
        × (r.durations ≡ s.durations ++ delays_of plan rows)
        × IsWhole x r.prior
        × (ledger s ≡ ledger r))
      (ok_injective h) ([], ended, tally, sym (append-nil s.durations), whole, refl)
rounds-Timed plan x s [] (t ∷ ts) raw h len after whole tally = absurd (omega arith)
rounds-Timed plan x s (f ∷ fs) [] raw h len after whole tally = absurd (omega arith)
rounds-Timed plan x s (f ∷ fs) (t ∷ ts) raw {r} h len after whole tally =
    let (row, e1, h1) = >>=-eq-ok (bounded_row f) _ h in
    let (u, e2, h2) = >>=-eq-ok (raise_if (not (continues s.next_pc row.pc)) other_pc) _ h1 in
    let (native, e3, h3) = >>=-eq-ok (exact_hex t 2080) _ h2 in
    let (next, e4, h4) = >>=-eq-ok (round plan x s row native (take 8 raw)) _ h3 in
    let (before, some_clock) = bounded_row-order f e1 in
    let (tally_next, durations, prior, entry, start, clock, time, elapsed, address, opcode) =
      round-Found plan x s row native (take 8 raw) e4 before after tally in
    let quotient = ap (λ k. (row.end - x.origin) / k) clock in
    let whole_next : IsWhole x next.prior =
      subst (IsWhole x) (sym prior) (time ∙ ap (λ q. x.origin + x.clock * q) quotient) in
    let (rows, timed, tally_end, delays, whole_end, entries) =
      rounds-Timed plan x next fs ts (drop 8 raw) h4 (omega (arith, len))
        (omega (arith, prior, start)) whole_next tally_next in
    (
      row ∷ rows,
      stepped row native ((row.end - x.origin) / row.clock) e1 e3 start clock time elapsed address
          opcode (subst (λ from. Timed x from fs ts rows r.prior) prior timed),
      tally_end,
      later_delays plan row rows s.durations next.durations r.durations durations delays,
      whole_end,
      ap (λ (b : Bytes). final_entry b (drop 8 raw) (length fs)) entry ∙ entries,
    )
