-- ===== src/Timeline/Compare/Equal.antt =====
-- tools/verify_timeline.py: what an accepted pair of executions is.
use nes2snes.Common.{
  ℕ, suc, ◌+◌, ◌-◌, ◌≤◌, ◌≡◌, refl, sym, ap, ◌∙◌, subst, arith, not, ◌&&◌, ◌||◌, ||-false,
  not-false,
}
use nes2snes.Common.{List, [], ◌∷◌, length, get_or, slice, leb, leb→le, ◌==◌, ==_iff, if◌then◌else◌}
use nes2snes.Common.{
  Bytes, bytes_eq, bytes_eq-same, from_bytes, ok, raise_if, raise_if-ok, raise_if-not-ok, >>=-eq-ok,
  ok_injective, as_error, as_error-ok,
}
use nes2snes.Common.Text.{TextArgument}
use nes2snes.Timeline.Plan.{Program, Checked, validate_plan}
use nes2snes.Timeline.Compare.{
  malformed, incomplete, other_plan, incomplete_stream, other_boot, malformed_row, different,
  unordered, bad_decision, bad_cursor, events_left, bad_plan, RecordsArgument, records, not_records,
  Original, Native, expected_initial, is_int, is_number, same_text, hex_row, Progress, all_zero,
  events_until, compare_row, rows_loop, nothing_yet, Compared, compare_streams, compare,
}

-- The bytes of the texts of a stream.
pub data ReadAll : List TextArgument → List Bytes → Type 0 where
  none_left : ReadAll [] []
  one_more :
      (t : TextArgument) (ts : List TextArgument) (b : Bytes) (bs : List Bytes)
      → hex_row t ≡ ok b
      → ReadAll ts bs
      → ReadAll (t ∷ ts) (b ∷ bs)

-- A row of step `i` behind the time `latest`: its clock is that time and the costs of the
-- instruction and of the interrupt, which is none, an IRQ or an NMI, and its event cursor counts the
-- events up to the instruction's end.
pub record IsStep (c : Checked) (i latest : ℕ) (row : Bytes) : Type 0 where
  pub size : length row ≡ 32 + c.size
  pub number : from_bytes (slice row 18 20) ≡ i
  pub clock : from_bytes (slice row 0 4) ≡ latest + get_or row 14 0 + get_or row 15 0
  pub decision : get_or row 16 0 ≤ 2
  pub cost : get_or row 15 0 ≡ (if get_or row 16 0 == 0 then 0 else 7)
  pub cursor : get_or row 13 0 ≡ events_until (latest + get_or row 14 0) c.events

-- Rows from step `i` and a time on, up to an end time.
pub data Steps (c : Checked) : ℕ → ℕ → List Bytes → ℕ → Type 0 where
  stop : (i now : ℕ) → Steps c i now [] now
  row_then :
      (i latest end : ℕ) (row : Bytes) (rows : List Bytes)
      → IsStep c i latest row
      → Steps c (suc i) (from_bytes (slice row 0 4)) rows end
      → Steps c i latest (row ∷ rows) end

without_last : (n m k : ℕ) → n ≡ m + k → n - k ≡ m
without_last n m k e = omega (arith, e)

compare_row-ok :
    (c : Checked) (i : ℕ) (p next : Progress) (one two : Bytes)
    → compare_row c i p one two ≡ ok next
    → (two ≡ one) × IsStep c i p.latest one × (next.latest ≡ from_bytes (slice one 0 4))
unfolding compare_row
compare_row-ok c i p next one two h =
    let at : ℕ → ℕ = (λ k. get_or one k 0) in
    let now = from_bytes (slice one 0 4) in
    let (u1, e1, h1) =
      >>=-eq-ok
        (raise_if (not (length one == 32 + c.size) || not (length two == 32 + c.size))
          malformed_row)
        _ h in
    let (u2, e2, h2) = >>=-eq-ok (raise_if (not (bytes_eq one two)) different) _ h1 in
    let (u3, e3, h3) =
      >>=-eq-ok
        (raise_if
          (not (from_bytes (slice one 18 20) == i)
            || (not (now == p.latest + at 14 + at 15) || not (all_zero (slice one 20 32))))
          unordered)
        _ h2 in
    let (u4, e4, h4) =
      >>=-eq-ok
        (raise_if (not (leb (at 16) 2) || not (at 15 == (if at 16 == 0 then 0 else 7)))
          bad_decision)
        _ h3 in
    let (u5, e5, h5) =
      >>=-eq-ok (raise_if (not (at 13 == events_until (now - at 15) c.events)) bad_cursor) _ h4 in
    let (one_size, two_size) = ||-false _ _ (raise_if-ok _ _ e1) in
    let (number, rest) = ||-false _ _ (raise_if-ok _ _ e3) in
    let (clock, zeros) = ||-false _ _ rest in
    let (decision, cost) = ||-false _ _ (raise_if-ok _ _ e4) in
    let timed : now ≡ p.latest + at 14 + at 15 = (==_iff _ _).0 (not-false _ clock) in
    let before : now - at 15 ≡ p.latest + at 14 = without_last now _ (at 15) timed in
    (
      sym (bytes_eq-same _ _ (raise_if-not-ok _ _ e2)),
      record {
        size = (==_iff _ _).0 (not-false _ one_size);
        number = (==_iff _ _).0 (not-false _ number);
        clock = timed;
        decision = leb→le _ _ (not-false _ decision);
        cost = (==_iff _ _).0 (not-false _ cost);
        cursor = (==_iff _ _).0 (raise_if-not-ok _ _ e5) ∙ ap (λ n. events_until n c.events) before;
      },
      sym (ap (λ q. q.latest) (ok_injective h5)),
    )

rows_loop-Steps :
    (c : Checked) (i : ℕ) (p : Progress) (cursor : ℕ) (l m : List TextArgument)
    (answer : Progress × ℕ)
    → length l ≡ length m
    → rows_loop c i p cursor l m ≡ ok answer
    → (rows : List Bytes) × ReadAll l rows
      × ReadAll m rows
      × Steps c i p.latest rows answer.0.latest
unfolding rows_loop
rows_loop-Steps c i p cursor [] (b ∷ m) answer e h = absurd (omega arith)
rows_loop-Steps c i p cursor [] [] answer e h = (
  [],
  none_left,
  none_left,
  subst (λ q. Steps c i p.latest [] q.0.latest) (ok_injective h) (stop i p.latest),
)
rows_loop-Steps c i p cursor (a ∷ l) [] answer e h = absurd (omega arith)
rows_loop-Steps c i p cursor (a ∷ l) (b ∷ m) answer e h =
    let (one, e1, h1) = >>=-eq-ok (hex_row a) _ h in
    let (two, e2, h2) = >>=-eq-ok (hex_row b) _ h1 in
    let (next, e3, h3) = >>=-eq-ok (compare_row c i p one two) _ h2 in
    let (same, step, time) = compare_row-ok c i p next one two e3 in
    let (rows, left, right, steps) =
      rows_loop-Steps c (suc i) next (get_or one 13 0) l m answer (omega arith) h3 in
    (
      one ∷ rows,
      one_more a l one rows e1 left,
      one_more b m one rows (subst (λ r. hex_row b ≡ ok r) same e2) right,
      row_then i p.latest _ one rows step
          (subst (λ n. Steps c (suc i) n rows answer.0.latest) time steps),
    )

ReadAll-length : (ts : List TextArgument) (bs : List Bytes) → ReadAll ts bs → length bs ≡ length ts
ReadAll-length ts bs none_left = refl
ReadAll-length ts bs (one_more t ts' b bs' e rest) = ap suc (ReadAll-length ts' bs' rest)

compare_streams-Steps :
    (c : Checked) (x y : RecordsArgument) (t : Compared)
    → compare_streams c x y ≡ ok t
    → (rows : List Bytes) × (texts natives : List TextArgument) × (x ≡ records texts)
      × (y ≡ records natives)
      × ReadAll texts (expected_initial c ∷ rows)
      × ReadAll natives rows
      × (length rows ≡ c.steps)
      × Steps c 1 0 rows t.cycles
unfolding compare_streams
compare_streams-Steps c not_records y t h = cc
compare_streams-Steps c (records []) y t h = cc
compare_streams-Steps c (records (boot ∷ l)) not_records t h = cc
compare_streams-Steps c (records (boot ∷ l)) (records m) t h =
    let (u1, e1, h1) =
      >>=-eq-ok
        (raise_if (not (length l == c.steps) || not (length m == c.steps)) incomplete_stream) _ h in
    let (first, e2, h2) = >>=-eq-ok (hex_row boot) _ h1 in
    let (u3, e3, h3) =
      >>=-eq-ok (raise_if (not (bytes_eq first (expected_initial c))) other_boot) _ h2 in
    let (answer, e4, h4) = >>=-eq-ok (rows_loop c 1 nothing_yet 0 l m) _ h3 in
    let (u5, e5, h5) = >>=-eq-ok (raise_if (not (answer.1 == length c.events)) events_left) _ h4 in
    let (l_size, m_size) = ||-false _ _ (raise_if-ok _ _ e1) in
    let size : length l ≡ c.steps = (==_iff _ _).0 (not-false _ l_size) in
    let size' : length m ≡ c.steps = (==_iff _ _).0 (not-false _ m_size) in
    let (rows, left, right, steps) =
      rows_loop-Steps c 1 nothing_yet 0 l m answer (size ∙ sym size') e4 in
    let booted = subst (λ b. hex_row boot ≡ ok b) (bytes_eq-same _ _ (raise_if-not-ok _ _ e3)) e2 in
    (
      rows,
      boot ∷ l,
      m,
      refl,
      refl,
      one_more boot l _ rows booted left,
      right,
      ReadAll-length l rows left ∙ size,
      subst (λ r. Steps c 1 0 rows r.cycles) (ok_injective h5) steps,
    )

-- An accepted pair of executions is a completed run of an accepted plan: the original's stream is
-- the declared boot row and one row for each planned step, the native stream is those same rows,
-- every row closes the clock, the interrupt cost and the event cursor, and the reported cycles are
-- the last clock.
pub compare-Steps :
    (plan : Program) (original : Original) (native : Native) (t : Compared)
    → compare plan original native ≡ ok t
    → (c : Checked) × (rows : List Bytes) × (texts natives : List TextArgument) × (validate_plan
          plan
        ≡ ok c)
      × (original.rows ≡ records texts)
      × (native.rows ≡ records natives)
      × ReadAll texts (expected_initial c ∷ rows)
      × ReadAll natives rows
      × (length rows ≡ c.steps)
      × Steps c 1 0 rows t.cycles
unfolding compare
compare-Steps plan original native t h =
    let (c, e1, h1) = >>=-eq-ok (as_error bad_plan (validate_plan plan)) _ h in
    let (u2, e2, h2) =
      >>=-eq-ok
        (raise_if
          (not (is_int native.marker && (is_int native.status && is_int native.completed_steps))
            || (original.fault || native.fault))
          malformed)
        _ h1 in
    let (u3, e3, h3) =
      >>=-eq-ok
        (raise_if
          (not original.complete
            || (not native.complete
                || (not (is_number native.marker 0x5a)
                    || (not (is_number native.status 0)
                        || not (is_number native.completed_steps c.steps)))))
          incomplete)
        _ h2 in
    let (u4, e4, h4) =
      >>=-eq-ok (raise_if (not (same_text original.name plan.name)) other_plan) _ h3 in
    let (rows, texts, natives, one, two, booted, same, size, steps) =
      compare_streams-Steps c original.rows native.rows t h4 in
    (c, rows, texts, natives, as_error-ok _ _ e1, one, two, booted, same, size, steps)
