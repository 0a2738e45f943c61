-- ===== src/GuestCycles/Window/Rows.antt =====
-- One record that has passed the checks of `account_window`.
use nes2snes.Common.{ℕ, ◌+◌, ◌-◌, ◌^◌, ◌≤◌, ◌≡◌, arith, Option, none, some, ◌&&◌, not, leb}
use nes2snes.Common.{Result, ok, err, raise_if, >>=-eq-ok}
use nes2snes.GuestCycles.{CycleError, Instruction, cost}
use nes2snes.GuestCycles.Admitted.{cost_bounds}
use nes2snes.GuestCycles.Window.{
  bad_record, not_cartridge, Row, Retired, is_int, integer, lift_cost, time_row, row_instruction,
  read_row,
}

lift_cost_ok : (m : Result CycleError ℕ) {n : ℕ} → lift_cost m ≡ ok n → m ≡ ok n
lift_cost_ok (ok n) h = ground arith
lift_cost_ok (err e) h = cc

time_row_ok :
    (start end pc next_pc : ℕ) (i : Instruction) {r : Retired}
    → time_row start end pc next_pc (lift_cost (cost i)) ≡ ok r
    → (r.end ≡ r.start + r.cycles) × (2 ≤ r.cycles) × (r.cycles ≤ 7)
unfolding time_row
time_row_ok start end pc next_pc i h =
    let (cycles, e, h1) = >>=-eq-ok (lift_cost (cost i)) _ h in
    let (low, high) = cost_bounds i (lift_cost_ok (cost i) e) in
    (ground arith, ground arith, ground arith)

-- A record that passes lasts exactly the cost of its instruction, which is two to seven cycles.
pub read_row-timed :
    (row : Option Row) {r : Retired}
    → read_row row ≡ ok r
    → (r.end ≡ r.start + r.cycles) × (2 ≤ r.cycles) × (r.cycles ≤ 7)
unfolding read_row
read_row-timed none h = cc
read_row-timed (some row) {r} h =
    let (u0, e0, h0) =
      >>=-eq-ok (raise_if (not (is_int row.valid 1 && is_int row.reserved 0)) bad_record) _ h in
    let (start, e1, h1) = >>=-eq-ok (integer row.start (2 ^ 64 - 1)) _ h0 in
    let (end, e2, h2) = >>=-eq-ok (integer row.end (2 ^ 64 - 1)) _ h1 in
    let (pc, e3, h3) = >>=-eq-ok (integer row.pc 65535) _ h2 in
    let (operand, e4, h4) = >>=-eq-ok (integer row.operand 65535) _ h3 in
    let (pointer, e5, h5) = >>=-eq-ok (integer row.pointer 65535) _ h4 in
    let (next_pc, e6, h6) = >>=-eq-ok (integer row.next_pc 65535) _ h5 in
    let (u7, e7, h7) =
      >>=-eq-ok (raise_if (not (leb 0x8000 pc && leb pc 0xfffd)) not_cartridge) _ h6 in
    let (opcode, e8, h8) = >>=-eq-ok (integer row.opcode 255) _ h7 in
    let (p, e9, h9) = >>=-eq-ok (integer row.p 255) _ h8 in
    let (x, e10, h10) = >>=-eq-ok (integer row.x 255) _ h9 in
    let (y, e11, h11) = >>=-eq-ok (integer row.y 255) _ h10 in
    let (a, e12, h12) = >>=-eq-ok (integer row.a 255) _ h11 in
    let (s, e13, h13) = >>=-eq-ok (integer row.s 255) _ h12 in
    time_row_ok start end pc next_pc (row_instruction row operand) h13
