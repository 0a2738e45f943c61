-- ===== src/GuestCycles/Window/Complete.antt =====
-- Every chain of timed records is accepted: the closing check of `account_window` never fails.
use nes2snes.Common.{◌+◌, ◌≡◌, refl, ◌∙◌, arith, Option, List, [], ◌∷◌, length, true}
use nes2snes.Common.{ok}
use nes2snes.GuestCycles.Window.{
  Row, Retired, Entries, entries_valid, Ledger, retire, first_ledger, ledger_loop, Summary,
  account_window,
}
use nes2snes.GuestCycles.Window.Rows.{read_row-timed}
use nes2snes.GuestCycles.Window.Chain.{
  IsChain, Reads, total_cycles, IsBalanced, link-Follows, retire-IsBalanced, execution-retire,
  first_ledger-IsBalanced, IsLedger, close_ok,
}

loop_complete :
    (first : Retired) (entries : Entries) (rows : List (Option Row)) (rs : List Retired)
    (l : Ledger)
    → Reads rows rs
    → IsChain entries l.last rs
    → IsBalanced first l
    → (m : Ledger) × (ledger_loop entries l rows ≡ ok m)
      × IsBalanced first m
      × (m.execution ≡ l.execution + total_cycles rs)
      × (length rs ≡ length rows)
unfolding ledger_loop retire
loop_complete first entries [] [] l reads chain b = (l, refl, b, omega arith, refl)
loop_complete first entries [] (r ∷ rs) l reads chain b = absurd reads
loop_complete first entries (row ∷ rows) [] l reads chain b = absurd reads
loop_complete first entries (row ∷ rows) (r ∷ rs) l reads chain b =
    let (o, linked) = link-Follows entries l.index l.last r chain.0 in
    let (m, runs, done, total, count) =
      loop_complete first entries rows rs (retire l r o) reads.1 chain.1
        (retire-IsBalanced first entries l r o (read_row-timed row reads.0).0 linked b) in
    (
      m,
      rw (reads.0, linked) runs,
      done,
      total ∙ omega (arith, execution-retire l r o),
      omega (arith, count),
    )

-- Whenever the entries are valid, the records pass their checks one by one and they form a chain,
-- the window is accepted, with the ledger of those records.
pub account_window_complete :
    (rows : List (Option Row)) (entries : Entries) (first : Retired) (rest : List Retired)
    → entries_valid entries ≡ true
    → Reads rows (first ∷ rest)
    → IsChain entries first rest
    → (s : Summary) × (account_window rows entries ≡ ok s) × IsLedger first rest s
unfolding account_window
account_window_complete [] entries first rest v reads chain = absurd reads
account_window_complete (row ∷ rows) entries first rest v reads chain =
    let (l, runs, balanced, total, count) =
      loop_complete first entries rows rest (first_ledger first) reads.1 chain
        (first_ledger-IsBalanced first (read_row-timed row reads.0).0) in
    let (s, closes, ledger) =
      close_ok (length (row ∷ rows)) first rest l (omega (arith, count)) total balanced in
    (s, rw (v, reads.0, runs) closes, ledger)
