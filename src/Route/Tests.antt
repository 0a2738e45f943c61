-- ===== src/Route/Tests.antt =====
-- Small routes, guards and contracts, and the theorems at them.
use nes2snes.Common.{ℕ, ◌≤◌, ◌≡◌, ◌↔◌, refl, arith, true}
use nes2snes.Common.{
  Bytes, IsByte, AreBytes, All, All-append, All-replicate, bytes_eq, [], ◌∷◌, ◌++◌, length, map,
  replicate, ok, err, Value, nat, bool,
}
use nes2snes.Common.Text.{text, is_fixture_name}
use nes2snes.Route.{
  Button, right, left, button, unknown, buttons, action, ActionsArgument, actions, Action,
  contradictory, bad_name, bad_updates, unknown_button, validate_actions,
}
use nes2snes.Route.Actions.{as_argument, total_updates, IsAction}
use nes2snes.Route.Script.{AreNew, validate_actions_iff}
use nes2snes.Opcodes.{ops}
use nes2snes.Opcodes.Encode.{same_mode, same_name}
use nes2snes.Route.Merge.{merge_trace}
use nes2snes.Route.Guard.{no_entry, no_fixed_bank, guarded_update_pc}
use nes2snes.Route.Guard.Straight.{IsGuarded, guarded_update_pc-IsGuarded}

abbrev run : Action
run = record { name = b'r' ∷ b'u' ∷ b'n' ∷ []; updates = 60; buttons = right ∷ Button.b ∷ [] }

abbrev jump : Action
jump = record { name = b'j' ∷ b'u' ∷ b'm' ∷ b'p' ∷ []; updates = 20; buttons = Button.a ∷ [] }

abbrev script : ActionsArgument
script = actions (as_argument run ∷ as_argument jump ∷ [])

accepted : validate_actions script ≡ ok (run ∷ jump ∷ [])
unfolding validate_actions is_fixture_name bytes_eq
accepted = refl

refused :
    (validate_actions (actions (as_argument run ∷ as_argument run ∷ [])) ≡ err bad_name)
    × (validate_actions (actions (action (text run.name) (bool true) (buttons []) ∷ []))
        ≡ err bad_updates)
    × (validate_actions (actions (action (text run.name) (nat 1) (buttons (unknown ∷ [])) ∷ []))
        ≡ err unknown_button)
    × (validate_actions (
          actions (action (text run.name) (nat 1) (buttons (button left ∷ button right ∷ [])) ∷ []))
        ≡ err contradictory)
unfolding validate_actions is_fixture_name bytes_eq
refused = (refl, refl, refl, refl)

validate_actions_iff_example : (validate_actions script ≡ ok (run ∷ jump ∷ [])) ↔ (
    (script ≡ actions (map as_argument (run ∷ jump ∷ [])))
    × (1 ≤ length (run ∷ jump ∷ []))
    × (length (run ∷ jump ∷ []) ≤ 512)
    × All IsAction (run ∷ jump ∷ [])
    × AreNew [] (run ∷ jump ∷ [])
    × (total_updates (run ∷ jump ∷ []) ≤ 100000))
validate_actions_iff_example = validate_actions_iff script (run ∷ jump ∷ [])

-- LDY $10; BNE +2; INC $10 at the start of an 8 KiB bank.
abbrev handler : Bytes
handler = 0xa4 ∷ 0x10 ∷ 0xd0 ∷ 0x02 ∷ 0xe6 ∷ 0x10 ∷ []

abbrev bank : Bytes
bank = handler ++ replicate 8186 0

bank-AreBytes : AreBytes bank
bank-AreBytes =
    All-append IsByte handler (replicate 8186 0)
      (omega arith, (omega arith, (omega arith, (omega arith, (omega arith, (omega arith, tt))))))
      (All-replicate IsByte 8186 0 (omega arith))

guard : guarded_update_pc bank (nat 0xe000) ≡ ok 0xe004
unfolding guarded_update_pc ops same_mode same_name
guard = refl

no_guard :
    (guarded_update_pc bank (nat 0xe002) ≡ err no_entry)
    × (guarded_update_pc bank (nat 0x8000) ≡ err no_fixed_bank)
    × (guarded_update_pc handler (nat 0xe000) ≡ err no_fixed_bank)
unfolding guarded_update_pc ops same_mode same_name
no_guard = (refl, refl, refl)

guarded_update_pc-IsGuarded_example :
    (nmi : ℕ) × (◌≡◌ {A = Value} (nat 0xe000) (nat nmi))
    × (0xe000 ≤ nmi)
    × (nmi ≤ 0xfff9)
    × IsGuarded bank nmi 0xe004
guarded_update_pc-IsGuarded_example =
    guarded_update_pc-IsGuarded bank (nat 0xe000) 0xe004 bank-AreBytes guard

-- One byte of the program, seen three times more, and one site that is new.
merged :
    merge_trace true
      (0xe8 ∷ 0xe8 ∷ [])
      (2 ∷ 0 ∷ 0 ∷ 0 ∷ 0 ∷ 0 ∷ 0 ∷ 0 ∷ [])
      (0 ∷ 0x80 ∷ 0 ∷ 0 ∷ [])
      (3 ∷ 0 ∷ 0 ∷ 0 ∷ 1 ∷ 0 ∷ 0 ∷ 0 ∷ [])
      (0 ∷ 0x80 ∷ 1 ∷ 0x80 ∷ [])
      (replicate 192 0)
    ≡ ok (record {
      counts = 5 ∷ 1 ∷ [];
      addresses = 0x8000 ∷ 0x8001 ∷ [];
      palette = replicate 192 0;
      new_observed_sites = 1;
      observed_sites = 2;
      executions = 6;
    })
unfolding merge_trace
merged = refl
