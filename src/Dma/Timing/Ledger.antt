-- ===== src/Dma/Timing/Ledger.antt =====
-- The relation between original rows and native records, and the tally of delays.
use nes2snes.Common.{
  ℕ, ◌+◌, ◌-◌, ◌*◌, ◌/◌, ◌%◌, ◌<◌, ◌≤◌, ◌≡◌, ◌⊎◌, inl, inr, refl, sym, ap, ◌∙◌, subst, arith, Bool,
  Bool-cases, true, false, not, ◌||◌, &&-true, ltb, ltb→lt, ◌==◌, ==_iff, if◌then◌else◌,
}
use nes2snes.Common.{
  List, [], ◌∷◌, ◌++◌, append-nil, All, All-append, length, length-append, get_or, take, slice,
}
use nes2snes.Common.{
  ok, err, raise_if, raise_if-ok, raise_if-not-ok, >>=-eq-ok, ok_injective, Bytes, from_bytes,
}
use native.Mathlib.Nat.{div-add-mod}
use nes2snes.Common.Text.{TextArgument}
use nes2snes.Dma.{
  out_of_bounds, exact_hex, Row, RowFields, Plan, fragments, bounded_number, bounded_row,
}
use nes2snes.Dma.Timing.{Base, Tally, instruction_at, starts_dma, count_delay, matches_native}

-- The cycles of a row
abbrev pub cycles : Row → ℕ
cycles row = (row.end - row.start) / row.clock

-- The instruction of the row is STA $4014.
abbrev pub is_dma : Plan → Row → Bool
is_dma plan row = elim (instruction_at (fragments plan) row.pc) [
  | ok inst ↦ starts_dma inst
  | err e ↦ false
]

-- What the transfers among the rows take beyond the four cycles of the store.
unfoldable pub delays_of : Plan → List Row → List ℕ
delays_of plan [] = []
delays_of plan (row ∷ rest) =
    let later = delays_of plan rest in if is_dma plan row then (cycles row - 4) ∷ later else later

abbrev pub sum_of : List ℕ → ℕ
sum_of [] = 0
sum_of (d ∷ rest) = d + sum_of rest

abbrev pub last_of : List ℕ → ℕ → ℕ
last_of [] before = before
last_of (d ∷ rest) before = last_of rest d

-- Original rows and native records in step: each row starts where the one before ends, and its
-- record has the cycles since the origin, the next address and the opcode.
pub data Timed (x : Base) : ℕ → List RowFields → List TextArgument → List Row → ℕ → Type 0 where
  ended : {time : ℕ} → Timed x time [] [] [] time
  stepped :
      {time last : ℕ} {f : RowFields} {t : TextArgument} {fs : List RowFields}
      {ts : List TextArgument} {rows : List Row} (row : Row) (native : Bytes) (elapsed : ℕ)
      → bounded_row f ≡ ok row
      → exact_hex t 2080 ≡ ok native
      → row.start ≡ time
      → row.clock ≡ x.clock
      → row.end ≡ x.origin + x.clock * elapsed
      → from_bytes (take 4 native) ≡ x.clock_origin + elapsed
      → from_bytes (slice native 4 6) ≡ row.next_pc
      → get_or native 17 0 ≡ row.opcode
      → Timed x row.end fs ts rows last
      → Timed x time (f ∷ fs) (t ∷ ts) (row ∷ rows) last

-- The counters agree with the delays counted so far, each of 513 or 514 cycles.
pub record IsTally (s : Tally) : Type 0 where
  pub count : s.count ≡ length s.durations
  pub total : s.total ≡ sum_of s.durations
  pub last : s.last ≡ last_of s.durations 0
  pub delays : All (λ d. (d ≡ 513) ⊎ (d ≡ 514)) s.durations

sum_of-append : (xs : List ℕ) (d : ℕ) → sum_of (xs ++ (d ∷ [])) ≡ sum_of xs + d
sum_of-append [] d = omega arith
sum_of-append (x ∷ xs) d = omega (arith, sum_of-append xs d)

last_of-append : (xs : List ℕ) (d before : ℕ) → last_of (xs ++ (d ∷ [])) before ≡ d
last_of-append [] d before = refl
last_of-append (x ∷ xs) d before = last_of-append xs d x

-- What one count does, in terms of the row.
pub count_delay-IsTally :
    (s : Tally) (inst : Bytes) (duration : ℕ) {r : Tally}
    → count_delay s inst duration ≡ ok r
    → IsTally s
    → IsTally r
      × (r.durations ≡ s.durations ++ (if starts_dma inst then (duration - 4) ∷ [] else []))
unfolding count_delay
count_delay-IsTally s inst duration {r} h tally = elim (Bool-cases (starts_dma inst)) [
  | inr other ↦
      let e = rw (count_delay, other) at h in
      rw other (
        subst IsTally (ok_injective e) tally,
        ap (λ (t : Tally). t.durations) (sym (ok_injective e)) ∙ sym (append-nil s.durations),
      )
  | inl dma ↦ elim (Bool-cases (duration == 517 || duration == 518)) [
    | inr bad ↦ let never = rw (count_delay, dma, bad) at h in cc
    | inl good ↦
        let e = rw (count_delay, dma, good) at h in
        let d = duration - 4 in
        rw dma (
          subst IsTally (ok_injective e) (record {
            count = omega (arith, tally.count, length-append s.durations (d ∷ []));
            total = omega (arith, tally.total, sum_of-append s.durations d);
            last = sym (last_of-append s.durations d 0);
            delays =
                All-append (λ d. (d ≡ 513) ⊎ (d ≡ 514)) s.durations (d ∷ []) tally.delays
                  (delay_iff duration good, tt);
          }),
          ap (λ (t : Tally). t.durations) (sym (ok_injective e)),
        )
  ]
]
  where
    delay_iff : (n : ℕ) → n == 517 || n == 518 ≡ true → (n - 4 ≡ 513) ⊎ (n - 4 ≡ 514)
    delay_iff n h = ground arith

pub bounded_row-order :
    (f : RowFields) {row : Row} → bounded_row f ≡ ok row → (row.start < row.end) × (0 < row.clock)
unfolding bounded_row
bounded_row-order f {row} h =
    let (start, e1, h1) = >>=-eq-ok (bounded_number f.start 0xffffffffffffffff) _ h in
    let (end, e2, h2) = >>=-eq-ok (bounded_number f.end 0xffffffffffffffff) _ h1 in
    let (u, e3, h3) = >>=-eq-ok (raise_if (not (ltb start end)) out_of_bounds) _ h2 in
    let (clock, e4, h4) = >>=-eq-ok (bounded_number f.clock 65535) _ h3 in
    let (v, e5, h5) = >>=-eq-ok (raise_if (clock == 0) out_of_bounds) _ h4 in
    let (pc, e6, h6) = >>=-eq-ok (bounded_number f.pc 65535) _ h5 in
    let (next_pc, e7, h7) = >>=-eq-ok (bounded_number f.next_pc 65535) _ h6 in
    let (opcode, e8, h8) = >>=-eq-ok (bounded_number f.opcode 255) _ h7 in
    let before = ltb→lt start end (raise_if-not-ok _ out_of_bounds e3) in
    let some_clock : 0 < clock = ground (arith, raise_if-ok (clock == 0) out_of_bounds e5) in
    subst (λ (r : Row). (r.start < r.end) × (0 < r.clock)) (ok_injective h8) (before, some_clock)

whole_quotient : (a k : ℕ) → a % k ≡ 0 → a ≡ k * (a / k)
whole_quotient a k h = omega (arith, div-add-mod a k)

sum_back : (end origin : ℕ) {n : ℕ} → origin ≤ end → end - origin ≡ n → end ≡ origin + n
sum_back end origin h e = omega arith

pub elapsed_lem :
    (x : Base) (row : Row) (native : Bytes)
    → matches_native x row native ≡ true
    → row.clock ≡ x.clock
    → x.origin ≤ row.end
    → (row.end ≡ x.origin + x.clock * ((row.end - x.origin) / row.clock))
      × (from_bytes (take 4 native) ≡ x.clock_origin + (row.end - x.origin) / row.clock)
      × (from_bytes (slice native 4 6) ≡ row.next_pc)
unfolding matches_native
elapsed_lem x row native h clock after =
    let (whole, rest) = &&-true ((row.end - x.origin) % row.clock == 0) _ h in
    let (time, next) =
      &&-true (from_bytes (take 4 native) == (row.end - x.origin) / row.clock + x.clock_origin) _
        rest in
    let even = whole_quotient (row.end - x.origin) row.clock ((==_iff _ _).0 whole) in
    (
      sum_back row.end x.origin after
          (even ∙ ap (λ k. k * ((row.end - x.origin) / row.clock)) clock),
      omega (arith, (==_iff _ _).0 time),
      (==_iff _ _).0 next,
    )
