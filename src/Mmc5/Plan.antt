-- ===== src/Mmc5/Plan.antt =====
-- tools/mmc5_timeline.py, validate: the parts of a banked plan and where they may lie.
use nes2snes.Common.{ℕ, ◌-◌, bit_and, Bool, true, false, not, ◌&&◌}
use nes2snes.Common.{Option, none, some, List, [], ◌∷◌, length, ltb, leb, ◌==◌, if◌then◌else◌}
use nes2snes.Common.{Result, ok, err, ◌>>=◌, ◌>>◌, raise_if, as_error, Value, bool, nat}
use nes2snes.Common.Text.{TextArgument, text, not_text, is_fixture_name}
use nes2snes.Mmc5.{sequence, initial_registers, slots, check_banks}
use nes2snes.Timeline.Events.{Entries, Event, validate_events}
use nes2snes.Timeline.Decode.{StartsArgument, truthy}

-- The `ValueError`s, by what their messages name; an error of a function that `validate` calls is
-- named for that function.
pub data PlanError : Type 0 where
  bad_gate bad_fields bad_name bad_slots bad_chr bad_entry bad_bank_code bad_boot bad_steps :
      PlanError
  bad_events bad_part bad_bank bad_encoding bad_hex crosses_boundary overlaps_boot bad_starts :
      PlanError
  overlapping_code too_large bad_program bad_vectors same_vectors bad_bank_data bad_patch :
      PlanError
  patch_budget patch_overlap overlaps_helper : PlanError

-- `plan['memory_model']`, as the profiles name it, or any other value.
pub data MemoryModel : Type 0 where
  mmc5_prg_rom mmc5_prg_ram32 mmc5_cpu_io mmc5_ppu_blank mmc5_chr_blank : MemoryModel
  other_model : MemoryModel

-- An element of the code list: a dictionary with the four keys, or anything else.
pub data PartArgument : Type 0 where
  part : Value → Value → TextArgument → StartsArgument → PartArgument
  foreign_part : PartArgument

-- An element of `bank_data`: a dictionary with the three keys, or anything else.
pub data PatchArgument : Type 0 where
  patch : Value → Value → TextArgument → PatchArgument
  foreign_patch : PatchArgument

pub data PartsArgument : Type 0 where
  parts : List PartArgument → PartsArgument
  not_parts : PartsArgument

pub data PatchesArgument : Type 0 where
  patches : List PatchArgument → PatchesArgument
  not_patches : PatchesArgument

-- A dictionary with the keys of a plan; `chr` holds `chr_banks` and `chr_mode` if it has these too.
pub record Plan : Type 0 where
  pub name : TextArgument
  pub origin : Value
  pub code : TextArgument
  pub starts : StartsArgument
  pub irq : Value
  pub nmi : Value
  pub steps : Value
  pub stack : Value
  pub a : Value
  pub x : Value
  pub y : Value
  pub seed : Value
  pub counter : Value
  pub events : Entries
  pub memory_model : MemoryModel
  pub prg_banks : Value
  pub bank_code : PartsArgument
  pub bank_data : PatchesArgument
  pub chr : Option (Value × Value)

-- The keyword arguments of `validate`.
pub record Profile : Type 0 where
  pub cartridge_ram : Value
  pub cpu_io : Value
  pub ppu_blank : Value
  pub chr_blank : Value

-- The gates after their checks.
pub record Open : Type 0 where
  pub cartridge_ram : Bool
  pub cpu_io : Bool
  pub ppu_blank : Bool
  pub chr_blank : Bool

-- `type(gate) is not bool or (gate and not below)`
unfoldable pub check_profile_gate : Value → Value → Result PlanError Bool
unfolding truthy
check_profile_gate (bool b) below = if b && not (truthy below) then err bad_gate else ok b
check_profile_gate gate below = err bad_gate

unfoldable pub check_profile : Profile → Result PlanError Open
unfolding check_profile_gate
check_profile p = do
  chr_blank ← check_profile_gate p.chr_blank p.ppu_blank
  ppu_blank ← check_profile_gate p.ppu_blank p.cpu_io
  cpu_io ← check_profile_gate p.cpu_io p.cartridge_ram
  cartridge_ram ← check_profile_gate p.cartridge_ram (bool true)
  ok (record {
    cartridge_ram = cartridge_ram;
    cpu_io = cpu_io;
    ppu_blank = ppu_blank;
    chr_blank = chr_blank;
  })

-- `plan['memory_model'] == ...` for the open gates, and the keys that go with them.
unfoldable pub fields_fit : Open → MemoryModel → Option (Value × Value) → Bool
fields_fit o mmc5_chr_blank (some options) = o.chr_blank
fields_fit o mmc5_ppu_blank none = not o.chr_blank && o.ppu_blank
fields_fit o mmc5_cpu_io none = not o.chr_blank && (not o.ppu_blank && o.cpu_io)
fields_fit o mmc5_prg_ram32 none =
    not o.chr_blank && (not o.ppu_blank && (not o.cpu_io && o.cartridge_ram))
fields_fit o mmc5_prg_rom none =
    not o.chr_blank && (not o.ppu_blank && (not o.cpu_io && not o.cartridge_ram))
fields_fit o model chr = false

unfoldable pub check_name : TextArgument → Result PlanError (Unit {0})
check_name (text n) = raise_if (not (is_fixture_name n)) bad_name
check_name not_text = err bad_name

-- A number of a range, by `type(v) is int and low <= v <= high`.
unfoldable pub number : ℕ → ℕ → PlanError → Value → Result PlanError ℕ
number low high e (nat n) = if leb low n && leb n high then ok n else err e
number low high e v = err e

-- mmc5_chr_blank.validate_options
unfoldable pub chr_options : Option (Value × Value) → Result PlanError (Unit {0})
unfolding number
chr_options none = ok tt
chr_options (some (banks, mode)) = do
  b ← number 8 1024 bad_chr banks
  raise_if (not (bit_and b (b - 1) == 0)) bad_chr
  m ← number 0 3 bad_chr mode
  ok tt

unfoldable pub check_bytes : List Value → Result PlanError (Unit {0})
unfolding number
check_bytes [] = ok tt
check_bytes (v ∷ rest) = do b ← number 0 255 bad_boot v; check_bytes rest

unfoldable pub check_slots : Value → Result PlanError ℕ
unfolding check_banks
check_slots v = do
  s ← as_error bad_slots (slots (sequence initial_registers) v)
  as_error bad_slots (check_banks v)

unfoldable pub check_events : Entries → Result PlanError (List Event)
check_events entries = as_error bad_events (validate_events entries)

unfoldable pub part_list : PartsArgument → Result PlanError (List PartArgument)
part_list (parts l) = if ltb 32 (length l) then err bad_bank_code else ok l
part_list not_parts = err bad_bank_code

unfoldable pub patch_list : PatchesArgument → Result PlanError (List PatchArgument)
patch_list (patches l) = if ltb 128 (length l) then err bad_bank_data else ok l
patch_list not_patches = err bad_bank_data

abbrev pub boot_bytes : Plan → List Value
boot_bytes plan = plan.stack ∷ plan.a ∷ plan.x ∷ plan.y ∷ plan.seed ∷ plan.counter ∷ []

-- The checks before the parts: the cartridge's banks, the steps, the events and the code list.
unfoldable pub check_head : Open → Plan → Result PlanError (ℕ × ℕ × List Event × List PartArgument)
unfolding fields_fit check_name check_slots chr_options part_list check_bytes number check_events
check_head o plan = do
  raise_if (not (fields_fit o plan.memory_model plan.chr)) bad_fields
  check_name plan.name
  banks ← check_slots plan.prg_banks
  chr_options plan.chr
  origin ← number 0xe100 0xe100 bad_entry plan.origin
  more ← part_list plan.bank_code
  check_bytes (boot_bytes plan)
  steps ← number 1 31 bad_steps plan.steps
  events ← check_events plan.events
  ok (banks, steps, events, part (nat (banks - 1)) plan.origin plan.code plan.starts ∷ more)
