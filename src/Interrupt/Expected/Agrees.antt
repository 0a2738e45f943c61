-- ===== src/Interrupt/Expected/Agrees.antt =====
-- What a record of an interrupt entry is when `expected` returns.
use nes2snes.Common.{
  ℕ, ◌+◌, ◌-◌, ◌*◌, ◌/◌, ◌%◌, ◌≡◌, ◌≢◌, refl, sym, ap, ◌∙◌, subst, arith, true, not, &&-true,
  Bool-cases, inl, inr,
}
use nes2snes.Common.{length, get_or, ◌==◌, ==_iff, if◌then◌else◌}
use nes2snes.Common.{
  ok, raise_if, raise_if-not-ok, >>=-eq-ok, as_error, as_error-ok, ok_injective, Bytes, bytes_eq,
  bytes_eq-same,
}
use nes2snes.Interrupt.{Boundary, bad_stack, Sampled, kind, push_all, record_bytes, validate, enter}
use nes2snes.Interrupt.Descriptor.{Outcome, enter_lem}
use nes2snes.Interrupt.Expected.{
  refused, bad_elapsed, changed_registers, model_differs, Plan, Observation, ObservationArgument,
  check_observation, boundary_of, observed_kind, entry_cycles, same_registers, observed_bytes,
  agrees, expected_of, expected,
}

-- The entry that the model takes from the sampled boundary `b`, in the terms of the observation.
pub record IsEntry (b : Sampled) (o : Observation) : Type 0 where
  pub pc : o.next_pc ≡ (if kind b == 2 then 0xe300 else if kind b == 1 then 0xe200 else o.pc)
  pub s : o.next_s ≡ (if kind b == 0 then b.s else (push_all b o.before_stack).1)
  pub p : o.next_p ≡ (if kind b == 0 then b.after_p else b.after_p + (1 - b.after_p / 4 % 2) * 4)
  pub stack :
      o.after_stack ≡ (if kind b == 0 then o.before_stack else (push_all b o.before_stack).0)
  pub time : o.next_time ≡ o.boundary_time + (if kind b == 0 then 0 else 7)
  pub a : o.next_a ≡ o.a
  pub x : o.next_x ≡ o.x
  pub y : o.next_y ≡ o.y

observed_bytes_lem :
    (b : Sampled) (o : Observation) (k e : ℕ)
    → (get_or (observed_bytes (record_bytes b) o k e) 8 0 ≡ k)
      × (get_or (observed_bytes (record_bytes b) o k e) 5 0 ≡ o.next_s)
      × (get_or (observed_bytes (record_bytes b) o k e) 2 0 ≡ o.next_p)
unfolding observed_bytes record_bytes
observed_bytes_lem b o k e = elim (Bool-cases (k == 2)) [
  | inl same ↦ rw same (refl, refl, refl)
  | inr other ↦ rw other (refl, refl, refl)
]

record_bytes_lem :
    (b : Sampled)
    → (get_or (record_bytes b) 8 0 ≡ 0)
      × (get_or (record_bytes b) 5 0 ≡ b.s)
      × (get_or (record_bytes b) 2 0 ≡ b.after_p)
unfolding record_bytes
record_bytes_lem b = (refl, refl, refl)

-- What `enter` returned is its model's outcome.
enter-Outcome :
    (boundary : Boundary) (stack : Bytes) {b : Sampled} {r : Bytes × Bytes}
    → validate boundary ≡ ok b
    → enter boundary stack ≡ ok r
    → Outcome b stack r
unfolding enter
enter-Outcome boundary stack {b} valid returned =
    let (b2, e1, h1) = >>=-eq-ok (validate boundary) _ returned in
    let (u, e2, h2) = >>=-eq-ok (raise_if (not (length stack == 256)) bad_stack) _ h1 in
    let full = (==_iff (length stack) 256).0 (raise_if-not-ok (length stack == 256) bad_stack e2) in
    let (r, same, outcome) = enter_lem boundary stack valid full in
    subst (Outcome b stack) (ok_injective (sym same ∙ returned)) outcome

observed_kind_lem :
    (o : Observation) {k : ℕ}
    → observed_kind o ≡ ok k
    → o.next_pc ≡ (if k == 2 then 0xe300 else if k == 1 then 0xe200 else o.pc)
unfolding observed_kind
observed_kind_lem o h = ground arith

module _ (b : Sampled) (o : Observation) (k : ℕ) where
  -- The decision of the model is the one observed, and S and P are those of the model.
  descriptor_agrees :
      Outcome b o.before_stack (observed_bytes (record_bytes b) o k (entry_cycles k), o.after_stack)
      → (k ≡ kind b)
        × (o.next_s ≡ (if kind b == 0 then b.s else (push_all b o.before_stack).1))
        × (o.next_p ≡ (if kind b == 0 then b.after_p else b.after_p + (1 - b.after_p / 4 % 2) * 4))
        × (o.after_stack ≡ (if kind b == 0 then o.before_stack else (push_all b o.before_stack).0))
  descriptor_agrees (idle, entered) =
      let (at_kind, at_s, at_p) = observed_bytes_lem b o k (entry_cycles k) in
      elim (Bool-cases (kind b == 0)) [
        | inl none_taken ↦
            let zero_kind = (==_iff (kind b) 0).0 none_taken in
            let (same, same_stack) = idle zero_kind in
            let (old_kind, old_s, old_p) = record_bytes_lem b in
            rw none_taken (
              sym at_kind ∙ ap (λ d. get_or d 8 0) same ∙ old_kind ∙ sym zero_kind,
              sym at_s ∙ ap (λ d. get_or d 5 0) same ∙ old_s,
              sym at_p ∙ ap (λ d. get_or d 2 0) same ∙ old_p,
              same_stack,
            )
        | inr taken ↦
            let some_kind : kind b ≢ 0 =
              (λ z. let never = rw ((==_iff (kind b) 0).1 z) at taken in cc) in
            let (d, same_stack) = entered some_kind in
            rw taken (
              sym at_kind ∙ d.decision,
              sym at_s ∙ d.stack_pointer,
              sym at_p ∙ d.after_p,
              same_stack,
            )
      ]

agrees_lem :
    (m : Bytes × Bytes) (result after : Bytes) → agrees m result after ≡ true → m ≡ (result, after)
unfolding agrees
agrees_lem (d, s) result after h =
    let (same, same_stack) = &&-true (bytes_eq d result) (bytes_eq s after) h in
    rw (bytes_eq-same d result same, bytes_eq-same s after same_stack) refl

same_registers_lem :
    (o : Observation)
    → same_registers o ≡ true
    → (o.next_a ≡ o.a) × (o.next_x ≡ o.x) × (o.next_y ≡ o.y)
unfolding same_registers
same_registers_lem o h = ground arith

entry_cycles_lem : (k : ℕ) → entry_cycles k ≡ (if k == 0 then 0 else 7)
unfolding entry_cycles
entry_cycles_lem k = refl

expected_of-IsEntry :
    (row : Plan) (o : Observation) {initial stack result after : Bytes}
    → expected_of row o ≡ ok (initial, stack, result, after)
    → (b : Sampled) × (validate (boundary_of row o) ≡ ok b)
      × (enter (boundary_of row o) stack ≡ ok (result, after))
      × (initial ≡ record_bytes b)
      × IsEntry b o
unfolding expected_of
expected_of-IsEntry row o {initial} {stack} {result} {after} h =
    let boundary = boundary_of row o in
    let (b, e1, h1) = >>=-eq-ok (as_error refused (validate boundary)) _ h in
    let valid = as_error-ok refused (validate boundary) e1 in
    let (k, e2, h2) = >>=-eq-ok (observed_kind o) _ h1 in
    let (u, e3, h3) =
      >>=-eq-ok (raise_if (not (o.next_time == o.boundary_time + entry_cycles k)) bad_elapsed) _
        h2 in
    let (v, e4, h4) = >>=-eq-ok (raise_if (not (same_registers o)) changed_registers) _ h3 in
    let (m, e5, h5) = >>=-eq-ok (as_error refused (enter boundary o.before_stack)) _ h4 in
    let found = observed_bytes (record_bytes b) o k (entry_cycles k) in
    let (w, e6, h6) =
      >>=-eq-ok (raise_if (not (agrees m found o.after_stack)) model_differs) _ h5 in
    let same = agrees_lem m found o.after_stack (raise_if-not-ok _ model_differs e6) in
    let entered = as_error-ok refused (enter boundary o.before_stack) e5 ∙ ap ok same in
    let (kinds, s, p, stack_same) =
      descriptor_agrees b o k (enter-Outcome boundary o.before_stack valid entered) in
    let (a, x, y) = same_registers_lem o (raise_if-not-ok _ changed_registers e4) in
    let time = (==_iff _ _).0 (raise_if-not-ok _ bad_elapsed e3) in
    let returned = ok_injective h6 in
    (
      b,
      valid,
      (ap (λ (r : Bytes × Bytes × Bytes × Bytes). enter boundary r.1) (sym returned)
          ∙ entered
          ∙ ap (λ (r : Bytes × Bytes × Bytes × Bytes). ok (r.2, r.3)) returned),
      sym (ap (λ (r : Bytes × Bytes × Bytes × Bytes). r.0) returned),
      record {
        pc =
            subst (λ n. o.next_pc ≡ (if n == 2 then 0xe300 else if n == 1 then 0xe200 else o.pc))
              kinds (observed_kind_lem o e2);
        s = s;
        p = p;
        stack = stack_same;
        time =
            subst (λ n. o.next_time ≡ o.boundary_time + (if n == 0 then 0 else 7)) kinds
              (rw (sym (entry_cycles_lem k)) time);
        a = a;
        x = x;
        y = y;
      },
    )

-- When `expected` returns, the observation is the entry that `enter` makes of the sampled boundary:
-- its address, S, P, stack page and elapsed cycles are the model's, A, X and Y are unchanged, and the
-- bytes returned are the boundary's record and what `enter` makes of it.
pub expected-IsEntry :
    (row : Plan) (obs : ObservationArgument) {initial stack result after : Bytes}
    → expected row obs ≡ ok (initial, stack, result, after)
    → (o : Observation) × (b : Sampled) × (check_observation obs ≡ ok o)
      × (validate (boundary_of row o) ≡ ok b)
      × (enter (boundary_of row o) stack ≡ ok (result, after))
      × (initial ≡ record_bytes b)
      × IsEntry b o
unfolding expected
expected-IsEntry row obs h =
    let (o, checked, rest) = >>=-eq-ok (check_observation obs) _ h in
    let (b, valid, entered, start, entry) = expected_of-IsEntry row o rest in
    (o, b, checked, valid, entered, start, entry)
