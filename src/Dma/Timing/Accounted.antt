-- ===== src/Dma/Timing/Accounted.antt =====
-- What `timing` has found when it returns.
use nes2snes.Common.{
  ℕ, ◌+◌, ◌-◌, ◌*◌, ◌/◌, ◌≡◌, ◌⊎◌, inl, inr, refl, sym, ap, ◌∙◌, subst, arith, Bool-cases, not,
  ◌==◌, ==_iff, none,
}
use nes2snes.Common.{List, [], ◌∷◌, ◌++◌, map, All, length, length-map, drop, Value, nat}
use nes2snes.Common.{
  ok, raise_if, raise_if-not-ok, >>=-eq-ok, ok_injective, Bytes, bytes_eq, bytes_eq-same, to_bytes,
}
use native.Mathlib.Nat.{zero-div}
use nes2snes.Common.Text.{TextArgument}
use nes2snes.Dma.{
  DmaError, no_ledger, no_records, other_final, invalid_row, exact_hex, Row, RowFields, RowArgument,
  row_fields, other_row, Listed, listed, not_listed, Plan, Actual, all_integers, typed_rows,
  bounded_row,
}
use nes2snes.Dma.Timing.{
  clock_start, Base, Tally, ledger, rounds, Timing, sized_list, account, timing,
}
use nes2snes.Dma.Timing.Ledger.{delays_of, sum_of, last_of, Timed}
use nes2snes.Dma.Hex.{exact_hex_lem}
use nes2snes.Dma.Timing.Rounds.{IsWhole, final_entry_lem, rounds-Timed}

typed_rows-map :
    (arguments : List RowArgument) {fs : List RowFields}
    → typed_rows arguments ≡ ok fs
    → arguments ≡ map row_fields fs
unfolding typed_rows
typed_rows-map [] h = ap (λ (fs : List RowFields). map row_fields fs) (ok_injective h)
typed_rows-map (other_row ∷ rest) h = cc
typed_rows-map (row_fields f ∷ rest) h =
    let (u, e1, h1) = >>=-eq-ok (raise_if (not (all_integers f)) invalid_row) _ h in
    let (fs, e2, h2) = >>=-eq-ok (typed_rows rest) _ h1 in
    ap (λ l. row_fields f ∷ l) (typed_rows-map rest e2)
    ∙ ap (λ (fs : List RowFields). map row_fields fs) (ok_injective h2)

sized_list_lem :
    {A : Type 0} (l : Listed A) (size : ℕ) (e : DmaError) {xs : List A}
    → sized_list l size e ≡ ok xs
    → (l ≡ listed xs) × (length xs ≡ size)
unfolding sized_list
sized_list_lem (listed rows) size e h = elim (Bool-cases (length rows == size)) [
  | inl same ↦
      let d = ok_injective (rw same at h) in
      (ap listed d, ap length (sym d) ∙ (==_iff (length rows) size).0 same)
  | inr other ↦ let never = rw other at h in cc
]
sized_list_lem not_listed size e h = cc

exact_hex-length :
    (t : TextArgument) (size : ℕ) {raw : Bytes} → exact_hex t size ≡ ok raw → length raw ≡ size
exact_hex-length t size h = let (l, is_text, found, len) = exact_hex_lem t size h in len

-- What the returned totals say of the rows and of the final native ledger.
pub record IsAccounted (plan : Plan) (state : Bytes) (r : Timing) (rows : List Row) : Type 0 where
  pub boundaries : r.boundaries ≡ plan.steps
  pub delays : r.delays ≡ delays_of plan rows
  pub transfers : r.dma_transfers ≡ length r.delays
  pub stalls : r.dma_stall_cycles ≡ sum_of r.delays
  pub each : All (λ d. (d ≡ 513) ⊎ (d ≡ 514)) r.delays
  pub final :
      state
      ≡ to_bytes 2 r.dma_transfers
        ++ (to_bytes 2 (last_of r.delays 0) ++ to_bytes 4 r.dma_stall_cycles)

origin-IsWhole : (x : Base) → IsWhole x x.origin
origin-IsWhole x =
    let none_yet : x.origin - x.origin ≡ 0 = omega arith in
    let nothing =
      ap (λ n. x.clock * (n / x.clock)) none_yet ∙ ap (λ n. x.clock * n) (zero-div x.clock) in
    omega (arith, nothing)

account-IsAccounted :
    (plan : Plan) (start : ℕ) (fs : List RowFields) (ts : List TextArgument) (raw state : Bytes)
    {r : Timing}
    → account plan start fs ts raw ≡ ok r
    → length fs ≡ plan.steps
    → length ts ≡ plan.steps
    → length raw ≡ 8 * plan.steps
    → state ≡ drop (8 * plan.steps - 8) raw
    → (x : Base) × (rows : List Row) × (x.clock_origin ≡ start)
      × Timed x x.origin fs ts rows (x.origin + x.clock * r.span_cycles)
      × IsAccounted plan state r rows
unfolding account ledger
account-IsAccounted plan start [] ts raw state h len len_ts len_raw same = cc
account-IsAccounted plan start (f ∷ fs) ts raw state {r} h len len_ts len_raw same =
    let (first, e1, h1) = >>=-eq-ok (bounded_row f) _ h in
    let x : Base = record { origin = first.start; clock = first.clock; clock_origin = start } in
    let s : Tally = record {
      prior = first.start;
      next_pc = none;
      count = 0;
      total = 0;
      last = 0;
      durations = [];
    } in
    let (done, e2, h2) = >>=-eq-ok (rounds plan x s (f ∷ fs) ts raw) _ h1 in
    let (rows, timed, tally, delays, whole, entries) =
      rounds-Timed plan x s (f ∷ fs) ts raw e2 (len ∙ sym len_ts) (omega arith) (origin-IsWhole x)
        (record { count = refl; total = refl; last = refl; delays = tt }) in
    let at_end = final_entry_lem (ledger s) raw (length fs) (omega (arith, len_raw, len)) in
    let last_entry = same ∙ ap (λ n. drop n raw) (omega (arith, len)) ∙ sym at_end ∙ entries in
    subst
      (λ (r : Timing).
        (x : Base) × (rows : List Row) × (x.clock_origin ≡ start)
        × Timed x x.origin (f ∷ fs) ts rows (x.origin + x.clock * r.span_cycles)
        × IsAccounted plan state r rows)
      (ok_injective h2)
      (
        x,
        rows,
        refl,
        subst (λ n. Timed x x.origin (f ∷ fs) ts rows n) whole timed,
        record {
          boundaries = len;
          delays = delays;
          transfers = tally.count;
          stalls = tally.total;
          each = tally.delays;
          final =
              last_entry
              ∙ ap (λ n. to_bytes 2 done.count ++ (to_bytes 2 n ++ to_bytes 4 done.total))
                  tally.last;
        },
      )

clock_start_lem : (v : Value) {n : ℕ} → clock_start v ≡ ok n → v ≡ nat n
unfolding clock_start
clock_start_lem v h = ground arith

-- When `timing` returns, the original rows and the native records run in step from the clock origin to
-- the returned span, the delays are those of the rows that store to $4014, 513 or 514 cycles each, the
-- count and the total are theirs, and the final native state holds the count, the last and the total.
pub timing-IsAccounted :
    (plan : Plan) (timings : Listed RowArgument) (actual : Actual) (clock_origin : Value)
    {r : Timing}
    → timing plan timings actual clock_origin ≡ ok r
    → (x : Base) × (fs : List RowFields) × (texts : List TextArgument) × (state : Bytes)
      × (rows : List Row) × (clock_origin ≡ nat x.clock_origin)
      × (timings ≡ listed (map row_fields fs))
      × (actual.records ≡ listed texts)
      × (exact_hex actual.dma_state 8 ≡ ok state)
      × Timed x x.origin fs texts rows (x.origin + x.clock * r.span_cycles)
      × IsAccounted plan state r rows
unfolding timing
timing-IsAccounted plan timings actual clock_origin h =
    let (start, e1, h1) = >>=-eq-ok (clock_start clock_origin) _ h in
    let (arguments, e2, h2) = >>=-eq-ok (sized_list timings plan.steps no_ledger) _ h1 in
    let (raw, e3, h3) = >>=-eq-ok (exact_hex actual.dma_records (8 * plan.steps)) _ h2 in
    let (state, e4, h4) = >>=-eq-ok (exact_hex actual.dma_state 8) _ h3 in
    let (u, e5, h5) =
      >>=-eq-ok (raise_if (not (bytes_eq state (drop (8 * plan.steps - 8) raw))) other_final) _
        h4 in
    let (texts, e6, h6) = >>=-eq-ok (sized_list actual.records plan.steps no_records) _ h5 in
    let (fs, e7, h7) = >>=-eq-ok (typed_rows arguments) _ h6 in
    let (listed_rows, len) = sized_list_lem timings plan.steps no_ledger e2 in
    let (listed_texts, len_texts) = sized_list_lem actual.records plan.steps no_records e6 in
    let typed = typed_rows-map arguments e7 in
    let len_fs = sym (length-map fs row_fields) ∙ ap length (sym typed) ∙ len in
    let (x, rows, origin, timed, accounted) =
      account-IsAccounted plan start fs texts raw state h7 len_fs len_texts
        (exact_hex-length actual.dma_records (8 * plan.steps) e3)
        (bytes_eq-same state _ (raise_if-not-ok _ other_final e5)) in
    (
      x,
      fs,
      texts,
      state,
      rows,
      clock_start_lem clock_origin e1 ∙ ap (λ n. nat n) (sym origin),
      listed_rows ∙ ap listed typed,
      listed_texts,
      e4,
      timed,
      accounted,
    )
