-- ===== src/GuestCycles/Window/Chain.antt =====
-- What `account_window` certifies: a chain of timed records, with nothing between two of them but the
-- entry of a declared handler.
use nes2snes.Common.{
  ℕ, ◌+◌, ◌-◌, ◌*◌, ◌≡◌, ◌≢◌, refl, ◌⊎◌, ◌∙◌, inl, inr, arith, Option, none, some,
}
use nes2snes.Common.{List, [], ◌∷◌, length, length-append, Option-cases}
use nes2snes.Common.{ok, raise_if, >>=-eq-ok, not, ok_injective, subst, sym}
use nes2snes.GuestCycles.Window.{
  bad_entries, Row, Retired, Interrupt, Kind, Entries, entries_valid, entry_kind, read_row, link,
  Ledger, retire, add_interrupt, first_ledger, ledger_loop, Summary, close, account_window,
}
use nes2snes.GuestCycles.Window.Rows.{read_row-timed}

-- Record `r` follows `before` at once, at the address that `before` goes on to; or seven cycles
-- later, at the entry of a handler.
abbrev pub Follows : Entries → Retired → Retired → Type 0
Follows entries before r =
    (r.start ≡ before.end) × (before.next_pc ≡ r.pc)
    ⊎ (r.start ≡ before.end + 7) × (entry_kind entries r.pc ≢ none)

abbrev pub IsChain : Entries → Retired → List Retired → Type 0
IsChain entries before [] = Unit
IsChain entries before (r ∷ rs) = Follows entries before r × IsChain entries r rs

-- The records pass their checks as the given list.
abbrev pub Reads : List (Option Row) → List Retired → Type 0
Reads [] [] = Unit
Reads (row ∷ rows) (r ∷ rs) = (read_row row ≡ ok r) × Reads rows rs
Reads _ _ = ⊥

abbrev pub total_cycles : List Retired → ℕ
total_cycles [] = 0
total_cycles (r ∷ rs) = r.cycles + total_cycles rs

-- The cycles that the ledger has counted are those since the window began.
pub record IsBalanced (first : Retired) (l : Ledger) : Type 0 where
  pub closed : first.start + (l.execution + l.interrupt_cycles) ≡ l.last.end
  pub entries : l.interrupt_cycles ≡ 7 * length l.interrupts

link_ok :
    (entries : Entries) (index : ℕ) (before r : Retired) {o : Option Interrupt}
    → link entries index before r ≡ ok o
    → Follows entries before r
unfolding link
link_ok entries index before r {o} h = go (entry_kind entries r.pc) refl
  where
    go : (k : Option Kind) → entry_kind entries r.pc ≡ k → Follows entries before r
    go none e = ground arith
    go (some k) e = ground arith

pub link-Follows :
    (entries : Entries) (index : ℕ) (before r : Retired)
    → Follows entries before r
    → (o : Option Interrupt) × (link entries index before r ≡ ok o)
unfolding link
link-Follows entries index before r (inl now) = (none, ground arith)
link-Follows entries index before r (inr later) = elim (Option-cases (entry_kind entries r.pc)) [
  | inl missing ↦ absurd (later.1 missing)
  | inr (kind, e) ↦ (some (record { before_record = index; kind = kind; cycles = 7 }), ground arith)
]

pub retire-IsBalanced :
    (first : Retired) (entries : Entries) (l : Ledger) (r : Retired) (o : Option Interrupt)
    → r.end ≡ r.start + r.cycles
    → link entries l.index l.last r ≡ ok o
    → IsBalanced first l
    → IsBalanced first (retire l r o)
unfolding link retire add_interrupt
retire-IsBalanced first entries l r none timed h b = ground arith
retire-IsBalanced first entries l r (some i) timed h b =
    ground (arith, length-append l.interrupts (i ∷ []))

pub execution-retire :
    (l : Ledger) (r : Retired) (o : Option Interrupt)
    → (retire l r o).execution ≡ l.execution + r.cycles
unfolding retire add_interrupt
execution-retire l r none = refl
execution-retire l r (some i) = refl

module _ (first : Retired) (entries : Entries) where
  loop-IsChain :
      (rows : List (Option Row)) (l : Ledger) {m : Ledger}
      → IsBalanced first l
      → ledger_loop entries l rows ≡ ok m
      → (rs : List Retired) × Reads rows rs
        × IsChain entries l.last rs
        × IsBalanced first m
        × (m.execution ≡ l.execution + total_cycles rs)
        × (length rs ≡ length rows)
  unfolding ledger_loop retire
  loop-IsChain [] l b h = ([], tt, tt, ground (arith, b), ground arith, refl)
  loop-IsChain (row ∷ rows) l b h =
      let (r, e1, h1) = >>=-eq-ok (read_row row) _ h in
      let (o, e2, h2) = >>=-eq-ok (link entries l.index l.last r) _ h1 in
      let (rs, reads, chain, done, total, count) =
        loop-IsChain rows (retire l r o)
          (retire-IsBalanced first entries l r o (read_row-timed row e1).0 e2 b) h2 in
      (
        r ∷ rs,
        (e1, reads),
        (link_ok entries l.index l.last r e2, chain),
        done,
        total ∙ omega (arith, execution-retire l r o),
        omega (arith, count),
      )

pub first_ledger-IsBalanced :
    (r : Retired) → r.end ≡ r.start + r.cycles → IsBalanced r (first_ledger r)
first_ledger-IsBalanced r timed = omega arith

-- What the summary of a window says of its records.
pub record IsLedger (first : Retired) (rest : List Retired) (s : Summary) : Type 0 where
  pub instructions : s.instructions ≡ length (first ∷ rest)
  pub execution : s.instruction_cycles ≡ total_cycles (first ∷ rest)
  pub entries : s.interrupt_cycles ≡ 7 * length s.interrupts
  pub closed : s.instruction_cycles + s.interrupt_cycles ≡ s.span_cycles
  pub span : s.first_timestamp + s.span_cycles ≡ s.last_timestamp
  pub start : s.first_timestamp ≡ first.start

pub close_ok :
    (count : ℕ) (first : Retired) (rest : List Retired) (l : Ledger)
    → count ≡ length (first ∷ rest)
    → l.execution ≡ total_cycles (first ∷ rest)
    → IsBalanced first l
    → (s : Summary) × (close count first l ≡ ok s) × IsLedger first rest s
unfolding close
close_ok count first rest l c x b = (
  record {
    instructions = count;
    instruction_cycles = l.execution;
    interrupt_cycles = l.interrupt_cycles;
    interrupts = l.interrupts;
    span_cycles = l.last.end - first.start;
    first_timestamp = first.start;
    last_timestamp = l.last.end;
  },
  ground (arith, b.closed),
  record {
    instructions = c;
    execution = x;
    entries = b.entries;
    closed = omega (arith, b.closed);
    span = omega (arith, b.closed);
    start = refl;
  },
)

-- A window that is accepted consists of records that pass their checks and form a chain; its summary
-- counts them, adds up their costs, has seven cycles for each handler entry, and accounts for every
-- cycle between the first and the last time stamp.
pub account_window-IsLedger :
    (rows : List (Option Row)) (entries : Entries) {s : Summary}
    → account_window rows entries ≡ ok s
    → (first : Retired) × (rest : List Retired) × Reads rows (first ∷ rest)
      × IsChain entries first rest
      × IsLedger first rest s
unfolding account_window
account_window-IsLedger [] entries h = cc
account_window-IsLedger (row ∷ rows) entries {s} h =
    let (u, e0, h0) = >>=-eq-ok (raise_if (not (entries_valid entries)) bad_entries) _ h in
    let (first, e1, h1) = >>=-eq-ok (read_row row) _ h0 in
    let (l, e2, h2) = >>=-eq-ok (ledger_loop entries (first_ledger first) rows) _ h1 in
    let (rest, reads, chain, balanced, total, count) =
      loop-IsChain first entries rows (first_ledger first)
        (first_ledger-IsBalanced first (read_row-timed row e1).0) e2 in
    let (s', c, good) =
      close_ok (length (row ∷ rows)) first rest l (omega (arith, count)) total balanced in
    (first, rest, (e1, reads), chain, subst (IsLedger first rest) (ok_injective (sym c ∙ h2)) good)
