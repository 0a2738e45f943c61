-- ===== src/Timeline/Events.antt =====
-- tools/timeline_program.py, validate_events: requests at strictly increasing cycles.
use nes2snes.Common.{ℕ, ◌≤◌, ◌<◌, Bool, ◌&&◌, arith, ◌≡◌, refl}
use nes2snes.Common.{List, [], ◌∷◌, length, map, ltb, leb, if◌then◌else◌}
use nes2snes.Common.{
  ap, ap₂, le→ltb, subst, ◌↔◌, ok_injective, length-map, int, other, negsuc, Result, ok, err, ◌>>=◌,
  ◌>>◌, raise_if, >>=-eq-ok, Value, nat, bool,
}

pub data EventError : Type 0 where
  too_many unknown_fields not_increasing not_boolean : EventError

-- A dictionary with the three keys of an event and no other, or anything else.
pub data Entry : Type 0 where
  entry : Value → Value → Value → Entry
  foreign : Entry

-- The argument `events`: a list, or anything else.
pub data Entries : Type 0 where
  list : List Entry → Entries
  not_list : Entries

-- An event that has passed its checks.
pub record Event : Type 0 where
  pub cycle : ℕ
  pub irq : Bool
  pub nmi : Bool

-- `type(cycle) is int and previous < cycle <= 0xffffff00`
unfoldable pub event_cycle : ℕ → Value → Result EventError ℕ
event_cycle previous (nat n) =
    if ltb previous n && leb n 0xffffff00 then ok n else err not_increasing
event_cycle previous v = err not_increasing

unfoldable pub request : Value → Result EventError Bool
request (bool b) = ok b
request v = err not_boolean

unfoldable pub check_event : ℕ → Entry → Result EventError Event
unfolding event_cycle request
check_event previous (entry cycle irq nmi) = do
  n ← event_cycle previous cycle
  i ← request irq
  m ← request nmi
  ok (record { cycle = n; irq = i; nmi = m })
check_event previous foreign = err unknown_fields

unfoldable pub events_loop : ℕ → List Entry → Result EventError (List Event)
unfolding check_event
events_loop previous [] = ok []
events_loop previous (e ∷ rest) = do
  event ← check_event previous e
  events ← events_loop event.cycle rest
  ok (event ∷ events)

unfoldable pub validate_events : Entries → Result EventError (List Event)
unfolding events_loop
validate_events (list entries) = do
  raise_if (ltb 64 (length entries)) too_many
  events_loop 0 entries
validate_events not_list = err too_many

-- The dictionary that an event is the value of.
unfoldable pub as_entry : Event → Entry
as_entry e = entry (nat e.cycle) (bool e.irq) (bool e.nmi)

-- Positive cycles, one after another, each within 32 bits.
abbrev pub IsSchedule : ℕ → List Event → Type 0
IsSchedule previous [] = Unit
IsSchedule previous (e ∷ rest) =
    (previous < e.cycle) × (e.cycle ≤ 0xffffff00) × IsSchedule e.cycle rest

event_cycle-ok :
    (previous : ℕ) (v : Value) {n : ℕ}
    → event_cycle previous v ≡ ok n
    → (v ≡ nat n) × (previous < n) × (n ≤ 0xffffff00)
unfolding event_cycle
event_cycle-ok previous (nat k) h = ground arith
event_cycle-ok previous (int (negsuc k)) h = cc
event_cycle-ok previous (bool b) h = cc
event_cycle-ok previous other h = cc

request-ok : (v : Value) {b : Bool} → request v ≡ ok b → v ≡ bool b
unfolding request
request-ok (int z) h = cc
request-ok (bool b) h = ground arith
request-ok other h = cc

check_event-ok :
    (previous : ℕ) (e : Entry) {event : Event}
    → check_event previous e ≡ ok event
    → (e ≡ as_entry event) × (previous < event.cycle) × (event.cycle ≤ 0xffffff00)
unfolding check_event as_entry
check_event-ok previous foreign h = cc
check_event-ok previous (entry cycle irq nmi) {event} h =
    let (n, e0, h0) = >>=-eq-ok (event_cycle previous cycle) _ h in
    let (i, e1, h1) = >>=-eq-ok (request irq) _ h0 in
    let (m, e2, h2) = >>=-eq-ok (request nmi) _ h1 in
    let (is_n, low, high) = event_cycle-ok previous cycle e0 in
    let same : record { cycle = n; irq = i; nmi = m } ≡ event = ok_injective h2 in
    subst
      (λ (r : Event).
        (entry cycle irq nmi ≡ as_entry r) × (previous < r.cycle) × (r.cycle ≤ 0xffffff00))
      same (rw (is_n, request-ok irq e1, request-ok nmi e2) refl, low, high)

check_event-as_entry :
    (previous : ℕ) (e : Event)
    → previous < e.cycle
    → e.cycle ≤ 0xffffff00
    → check_event previous (as_entry e) ≡ ok e
unfolding check_event as_entry event_cycle request
check_event-as_entry previous e low high = ground arith

loop-IsSchedule :
    (previous : ℕ) (entries : List Entry) {events : List Event}
    → events_loop previous entries ≡ ok events
    → (entries ≡ map as_entry events) × IsSchedule previous events
unfolding events_loop
loop-IsSchedule previous [] h =
    subst (λ (l : List Event). ([] ≡ map as_entry l) × IsSchedule previous l) (ok_injective h)
      (refl, tt)
loop-IsSchedule previous (e ∷ rest) {events} h =
    let (event, e0, h0) = >>=-eq-ok (check_event previous e) _ h in
    let (others, e1, h1) = >>=-eq-ok (events_loop event.cycle rest) _ h0 in
    let (is_e, low, high) = check_event-ok previous e e0 in
    let (is_rest, later) = loop-IsSchedule event.cycle rest e1 in
    subst (λ (l : List Event). (e ∷ rest ≡ map as_entry l) × IsSchedule previous l)
      (ok_injective h1) (ap₂ ◌∷◌ is_e is_rest, (low, high, later))

loop-map :
    (previous : ℕ) (events : List Event)
    → IsSchedule previous events
    → events_loop previous (map as_entry events) ≡ ok events
unfolding events_loop
loop-map previous [] s = refl
loop-map previous (e ∷ rest) s =
    rw (check_event-as_entry previous e s.0 s.1, loop-map e.cycle rest s.2) refl

list_injective : {a b : List Entry} → list a ≡ list b → a ≡ b
list_injective h = cc

-- The answer of `validate_events` is a list of events exactly when the argument is the list of
-- their dictionaries, there are at most 64, and their cycles are positive, strictly increasing and
-- at most 0xffffff00.
pub validate_events_iff :
    (argument : Entries) (events : List Event)
    → (validate_events argument ≡ ok events)
      ↔ ((argument ≡ list (map as_entry events)) × (length events ≤ 64) × IsSchedule 0 events)
unfolding validate_events
validate_events_iff (list entries) events = (
  λ h. forth h,
  λ h.
      rw (list_injective h.0, length-map events as_entry, le→ltb 64 (length events) h.1)
        (loop-map 0 events h.2),
)
  where
    forth :
        validate_events (list entries) ≡ ok events
        → (list entries ≡ list (map as_entry events)) × (length events ≤ 64) × IsSchedule 0 events
    forth h =
        let (u, e0, h0) = >>=-eq-ok (raise_if (ltb 64 (length entries)) too_many) _ h in
        let (is_map, s) = loop-IsSchedule 0 entries h0 in
        (ap list is_map, ground (arith, e0, ap length is_map, length-map events as_entry), s)
validate_events_iff not_list events = (λ h. cc, λ h. absurd (cc h.0))
