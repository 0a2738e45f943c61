-- ===== src/Route/Evidence/Loaded.antt =====
-- tools/route_evidence.py: the rows and the plan that load_route gives of a completed route.
use nes2snes.Common.{
  ℕ, ◌+◌, ◌≤◌, ◌≡◌, inl, inr, sym, ap, ◌∙◌, subst, arith, Bool-cases, true, false, not, ◌&&◌,
  Option, none, some,
}
use nes2snes.Common.{List, [], ◌∷◌, length, slice, from_bytes, ltb, ◌==◌, ltb→le, Bytes}
use nes2snes.Common.{ok, err, raise_if, raise_if-ok, >>=-eq-ok, ok_injective, as_error, as_error-ok}
use nes2snes.Route.{Action, validate_actions}
use nes2snes.Route.Actions.{names_of}
use nes2snes.Route.Evidence.{
  RouteError, Field, fields, fields_end, selected_state, Status, MarkerArgument, check_marker,
  marker_loop, MarkersArgument, markers, not_markers, bad_markers, check_markers, check_steps,
  check_pattern, bad_actions, missing_markers, is_known_platform, unknown_platform, is_final,
  not_finalized, is_known_clock, clock_or_legacy, pattern_prefix, unknown_clock, Folder, Row, Route,
  read_ram, read_rows, is_completed, load_route,
}

-- A selected field of a RAM image.
abbrev pub field_of : Bytes → Field → ℕ
field_of memory f = from_bytes (slice memory (fields f).0 ((fields f).0 + (fields f).1))

-- The rows that the files of these names give.
unfoldable pub ReadAs : Folder → List (List ℕ) → List Row → Type 0
ReadAs folder [] [] = Unit
ReadAs folder (n ∷ ns) (r ∷ rs) =
    (m : Bytes) × (folder.ram n ≡ some m)
    × (0x439 ≤ length m)
    × (r ≡ record { name = n; state = field_of m })
    × ReadAs folder ns rs
ReadAs folder [] (r ∷ rs) = ⊥
ReadAs folder (n ∷ ns) [] = ⊥

found-ok :
    (o : Option Bytes) (e : RouteError) {m : Bytes}
    → elim o [ none ↦ err e | some m ↦ ok m ] ≡ ok m
    → o ≡ some m
found-ok none e h = cc
found-ok (some n) e h = ap some (ok_injective h)

pub read_ram-ok :
    (folder : Folder) (name : List ℕ) {m : Bytes}
    → read_ram folder name ≡ ok m
    → folder.ram name ≡ some m
unfolding read_ram
read_ram-ok folder name h = found-ok (folder.ram name) _ h

selected_state-ok :
    (m : Bytes) {state : Field → ℕ}
    → selected_state m ≡ ok state
    → (0x439 ≤ length m) × (state ≡ field_of m)
unfolding selected_state fields_end fields
selected_state-ok m h = elim (Bool-cases (ltb (length m) 0x439)) [
  | inl short ↦ let never = rw short at h in cc
  | inr long ↦ (ltb→le _ _ long, sym (ok_injective (rw long at h)))
]

read_rows-ReadAs :
    (folder : Folder) (names : List (List ℕ)) {rows : List Row}
    → read_rows folder names ≡ ok rows
    → ReadAs folder names rows
unfolding read_rows ReadAs
read_rows-ReadAs folder [] h = subst (ReadAs folder []) (ok_injective h) tt
read_rows-ReadAs folder (name ∷ names) h =
    let (m, e1, h1) = >>=-eq-ok _ _ h in
    let (state, e2, h2) = >>=-eq-ok _ _ h1 in
    let (rest, e3, h3) = >>=-eq-ok _ _ h2 in
    let (long, same) = selected_state-ok m e2 in
    let row : Row = record { name = name; state = state } in
    let this : ReadAs folder (name ∷ names) (row ∷ rest) = (
      m,
      read_ram-ok folder name e1,
      long,
      λ i. record { name = name; state = same i },
      read_rows-ReadAs folder names e3,
    ) in
    subst (ReadAs folder (name ∷ names)) (ok_injective h3) this

-- As many markers as actions: the markers' names are the actions'.
marker_loop-names :
    (l : List MarkerArgument) (due : List Action) (previous : Option ℕ) {names : List (List ℕ)}
    → marker_loop l due previous ≡ ok names
    → length due ≤ length names
    → names ≡ names_of due
unfolding marker_loop
marker_loop-names [] [] previous h e = sym (ok_injective h)
marker_loop-names [] (c ∷ due) previous {names} h e =
    absurd (omega (arith, ap length (ok_injective h)))
marker_loop-names (m ∷ l) [] previous h e = cc
marker_loop-names (m ∷ l) (c ∷ due) previous {names} h e =
    let (calls, e1, h1) = >>=-eq-ok (check_marker m c previous) _ h in
    let (rest, e2, h2) = >>=-eq-ok (marker_loop l due (some calls)) _ h1 in
    let same = ok_injective h2 in
    let longer : length due ≤ length rest = omega (arith, ap length same) in
    sym same ∙ ap (λ l. c.name ∷ l) (marker_loop-names l due (some calls) e2 longer)

check_markers-names :
    (argument : MarkersArgument) (due : List Action) {names : List (List ℕ)}
    → check_markers argument due ≡ ok names
    → length due ≤ length names
    → names ≡ names_of due
unfolding check_markers
check_markers-names not_markers due h e = cc
check_markers-names (markers l) due h e =
    let (u, e1, h1) = >>=-eq-ok (raise_if (ltb (length due) (length l)) bad_markers) _ h in
    marker_loop-names l due none h1 e

as_many :
    (s : Status) (n m : ℕ) → is_completed s && not (n == m) ≡ false → is_completed s ≡ true → m ≤ n
as_many s n m h completed = grind arith

-- What load_route leaves of a completed route.
pub load_route-completed :
    (folder : Folder) {route : Route}
    → load_route folder ≡ ok route
    → (route.status ≡ folder.report.status)
      × (route.fault ≡ folder.report.fault)
      × (validate_actions folder.report.tail_actions ≡ ok route.tail_actions)
      × (is_completed route.status ≡ true → ReadAs folder (names_of route.tail_actions) route.rows)
unfolding load_route
load_route-completed folder {route} h =
    let (u1, e1, h1) =
      >>=-eq-ok (raise_if (not (is_known_platform folder.report.platform)) unknown_platform) _ h in
    let (u2, e2, h2) =
      >>=-eq-ok (raise_if (not (is_final folder.report.status)) not_finalized) _ h1 in
    let (u3, e3, h3) =
      >>=-eq-ok
        (raise_if (not (is_known_clock (clock_or_legacy folder.report.clock_mode))) unknown_clock) _
        h2 in
    let (steps, e4, h4) = >>=-eq-ok (check_steps folder.report.steps_requested) _ h3 in
    let (pattern, e5, h5) = >>=-eq-ok (check_pattern pattern_prefix folder.report.pattern) _ h4 in
    let (due, e6, h6) =
      >>=-eq-ok (as_error bad_actions (validate_actions folder.report.tail_actions)) _ h5 in
    let (names, e7, h7) = >>=-eq-ok (check_markers folder.report.tail_records due) _ h6 in
    let (u8, e8, h8) =
      >>=-eq-ok
        (raise_if (is_completed folder.report.status && not (length names == length due))
          missing_markers)
        _ h7 in
    let (rows, e9, h9) = >>=-eq-ok (read_rows folder names) _ h8 in
    let built = ok_injective h9 in
    (
      sym (ap (λ r. r.status) built),
      sym (ap (λ r. r.fault) built),
      as_error-ok _ _ e6 ∙ ap (λ l. ok l) (ap (λ r. r.tail_actions) built),
      λ completed.
          let done = subst (λ r. is_completed r.status ≡ true) (sym built) completed in
          let same = check_markers-names _ due e7 (as_many _ _ _ (raise_if-ok _ _ e8) done) in
          subst (λ r. ReadAs folder (names_of r.tail_actions) r.rows) built
            (subst (λ l. ReadAs folder l rows) same (read_rows-ReadAs folder names e9)),
    )
