-- ===== src/Timeline/Plan.antt =====
-- tools/timeline_program.py, validate_plan for the plans without a mapper, with validate_data of
-- tools/timeline_rom.py and expected_initial of tools/timeline_fixture.py. The plans of the MMC5
-- profiles go to validators of their own, as that of Mmc5.
use nes2snes.Common.{ℕ, ◌+◌, Bool, true, false, not, ◌&&◌, ◌||◌, none, some}
use nes2snes.Common.{List, [], ◌∷◌, length, ltb, leb, ◌==◌, if◌then◌else◌}
use nes2snes.Common.{Bytes, Result, ok, err, ◌>>=◌, ◌>>◌, raise_if, as_error, ℤ, Value, nat, bool}
use nes2snes.Common.Text.{TextArgument, text, not_text, from_hex, is_fixture_name}
use nes2snes.Timeline.Allowed.{GateArguments}
use nes2snes.Timeline.Events.{Entries, Event, validate_events}
use nes2snes.Timeline.Decode.{
  code_bytes, StartsArgument, default_targets, Row, decode, check_starts,
}
use nes2snes.Mmc5.Body.{has_start}

-- The `ValueError`s, by what their messages name.
pub data ProfileError : Type 0 where
  bad_name bad_encoding unknown_model bad_program unwanted_data : ProfileError
  bad_data_list overlaps_boot bad_patch bad_address bad_patch_encoding : ProfileError
  overlaps_program overlapping_data too_large bad_boot too_many_steps : ProfileError
  bad_vectors bad_events : ProfileError

-- `memory_model`, if the key is there
pub data Model : Type 0 where
  no_model internal_2k nrom_32k other_model : Model

-- A dictionary with `address` and `bytes`, or anything else
pub data DataArgument : Type 0 where
  data_at : Value → TextArgument → DataArgument
  foreign_data : DataArgument

-- `rom_data`, if the key is there
pub data RomDataArgument : Type 0 where
  rom_data : List DataArgument → RomDataArgument
  not_data no_data : RomDataArgument

pub record Program : Type 0 where
  pub name : TextArgument
  pub origin : Value
  pub code : TextArgument
  pub starts : StartsArgument
  pub irq : Value
  pub nmi : Value
  pub steps : Value
  -- stack, a, x, y, seed and counter
  pub boot : List Value
  pub events : Entries
  pub memory_model : Model
  pub patches : RomDataArgument

unfoldable pub memory_bytes : Model → Result ProfileError ℕ
memory_bytes no_model = ok 512
memory_bytes internal_2k = ok 2048
memory_bytes nrom_32k = ok 2048
memory_bytes other_model = err unknown_model

unfoldable pub is_nrom : Model → Bool
is_nrom nrom_32k = true
is_nrom m = false

-- The first and the end address of checked data
abbrev pub Range : Type 0
Range = ℕ × ℕ

-- Two ranges that are not empty have a common cell.
unfoldable pub overlap : Range → Range → Bool
overlap r s = ltb r.0 s.1 && ltb s.0 r.1

-- `cells & used`
unfoldable pub meets_used : Range → List Range → Bool
unfolding overlap
meets_used r [] = false
meets_used r (s ∷ rest) = overlap r s || meets_used r rest

unfoldable pub hex_between : ℕ → ℕ → ProfileError → TextArgument → Result ProfileError Bytes
hex_between low limit e (text t) =
    if leb low (length t) && leb (length t) limit
    then elim (from_hex t) [ none ↦ err e | some bytes ↦ ok bytes ]
    else err e
hex_between low limit e not_text = err e

-- One patch, for a program from `origin` to `limit`
unfoldable pub check_data :
    Range → List Range → ℕ → DataArgument → Result ProfileError (Range × Bytes)
unfolding hex_between overlap meets_used
check_data program used total foreign_data = err bad_patch
check_data program used total (data_at (nat address) encoding) = do
  raise_if (not (leb 0x8000 address && ltb address 0xfffa)) bad_address
  raw ← hex_between 1 8192 bad_patch_encoding encoding
  let range : Range = (address, address + length raw) in
      do
        raise_if
            (length raw == 0
              || (ltb 0xfffa (address + length raw)
                  || (overlap range program || overlap range (0xe000, 0xe100))))
            overlaps_program
        raise_if (meets_used range used) overlapping_data
        raise_if (ltb 4096 (total + length raw)) too_large
        ok (range, raw)
check_data program used total (data_at v encoding) = err bad_address

unfoldable pub data_loop :
    Range → List Range → ℕ → List DataArgument → Result ProfileError (List (ℕ × Bytes))
unfolding check_data
data_loop program used total [] = ok []
data_loop program used total (argument ∷ rest) = do
  (range, raw) ← check_data program used total argument
  later ← data_loop program (range ∷ used) (total + length raw) rest
  ok ((range.0, raw) ∷ later)

-- validate_data; the answer is the data at its addresses.
unfoldable pub validate_data :
    Model → RomDataArgument → Range → Result ProfileError (List (ℕ × Bytes))
unfolding is_nrom overlap data_loop
validate_data model no_data program = if is_nrom model then err bad_data_list else ok []
validate_data model not_data program =
    if is_nrom model then err bad_data_list else err unwanted_data
validate_data model (rom_data l) program = do
  raise_if (not (is_nrom model)) unwanted_data
  raise_if (ltb 64 (length l)) bad_data_list
  raise_if (overlap program (0xe000, 0xe100)) overlaps_boot
  data_loop program [] 0 l

unfoldable pub check_byte : Value → Result ProfileError ℕ
check_byte (nat n) = if leb n 255 then ok n else err bad_boot
check_byte v = err bad_boot

unfoldable pub boot_values : List Value → Result ProfileError (List ℕ)
unfolding check_byte
boot_values [] = ok []
boot_values (v ∷ rest) = do n ← check_byte v; l ← boot_values rest; ok (n ∷ l)

unfoldable pub check_steps : ℕ → Value → Result ProfileError ℕ
check_steps limit (nat n) = if leb 1 n && leb n limit then ok n else err too_many_steps
check_steps limit v = err too_many_steps

unfoldable pub vector : List ℤ → Value → Result ProfileError ℕ
unfolding has_start
vector starts (nat n) = if has_start n starts then ok n else err bad_vectors
vector starts v = err bad_vectors

-- What is read of the plan that validate_plan returns
pub record Checked : Type 0 where
  pub size : ℕ
  pub origin : ℕ
  pub code : Bytes
  pub rows : List Row
  pub patches : List (ℕ × Bytes)
  pub boot : List ℕ
  pub steps : ℕ
  pub irq : ℕ
  pub nmi : ℕ
  pub events : List Event

unfoldable pub check_plan_name : TextArgument → Result ProfileError (Unit {0})
check_plan_name (text name) = raise_if (not (is_fixture_name name)) bad_name
check_plan_name not_text = err bad_name

-- `ram=size==2048, rom=plan.get('memory_model')=='nrom-32k'`
unfoldable pub profile_gates : ℕ → Model → GateArguments
unfolding is_nrom
profile_gates size model = record {
  ram = bool (size == 2048);
  rom = bool (is_nrom model);
  mapper = bool false;
  cartridge_ram = bool false;
  cpu_io = bool false;
  ppu_blank = bool false;
  chr_blank = bool false;
}

-- The origin that `decode` has let through
abbrev origin_of : Value → ℕ
origin_of (nat n) = n
origin_of v = 0

unfoldable pub validate_plan : Program → Result ProfileError Checked
unfolding check_plan_name hex_between memory_bytes profile_gates validate_data boot_values
    check_steps vector
validate_plan plan = do
  check_plan_name plan.name
  size ← memory_bytes plan.memory_model
  code ← hex_between 0 4096 bad_encoding plan.code
  rows ← as_error bad_program (
      decode (code_bytes code) plan.origin plan.starts (profile_gates size plan.memory_model)
        default_targets)
  patches ←
      validate_data plan.memory_model plan.patches
        (origin_of plan.origin, origin_of plan.origin + length code)
  boot ← boot_values plan.boot
  steps ← check_steps (if size == 2048 then 31 else 112) plan.steps
  starts ← as_error bad_vectors (check_starts plan.starts)
  irq ← vector starts plan.irq
  nmi ← vector starts plan.nmi
  raise_if (irq == nmi) bad_vectors
  events ← as_error bad_events (validate_events plan.events)
  ok (record {
    size = size;
    origin = origin_of plan.origin;
    code = code;
    rows = rows;
    patches = patches;
    boot = boot;
    steps = steps;
    irq = irq;
    nmi = nmi;
    events = events;
  })
