-- ===== src/Budget.antt =====
-- tools/performance_budget.py: summarize and validate_profile. A quotient of Python is kept as the
-- pair of its numerator and its denominator, without rounding.
mod Tests
use nes2snes.Common.{ℕ, zero, suc, ◌+◌, ◌-◌, Bool, true, false, not, ◌&&◌, ◌||◌, Option, none, some}
use nes2snes.Common.{List, [], ◌∷◌, length, ltb, leb, ◌==◌, if◌then◌else◌, Bytes, bytes_eq}
use nes2snes.Common.{Result, ok, err, ◌>>=◌, ◌>>◌, raise_if, Value, int, nat, pos, negsuc}

pub data BudgetError : Type 0 where
  no_evidence bad_frame duplicate_frame not_contiguous bad_interval missing : BudgetError
  other_rom bad_elapsed duplicate_region bad_cost unbalanced : BudgetError
  overlapping_callers bad_span : BudgetError

-- `game_frame` and `display_frame` of a record
pub record FrameFields : Type 0 where
  pub game_frame : Value
  pub display_frame : Value

-- A tag with its display frame; a list of them, the last first, is `by_id`.
abbrev pub Frame : Type 0
Frame = ℕ × ℕ

unfoldable pub find_frame : ℕ → List Frame → Option ℕ
find_frame tag [] = none
find_frame tag ((t, host) ∷ rest) =
    let later = find_frame tag rest in if t == tag then some host else later

unfoldable pub frame_ids : Value → Value → Result BudgetError Frame
frame_ids (nat tag) (nat host) = ok (tag, host)
frame_ids tag host = err bad_frame

-- `previous` is the first of the frames before.
unfoldable pub follows : Frame → List Frame → Bool
follows (tag, host) [] = true
follows (tag, host) ((t, h) ∷ rest) = tag == suc t && ltb h host

unfoldable pub frames_loop : List Frame → List FrameFields → Result BudgetError (List Frame)
unfolding find_frame frame_ids follows
frames_loop before [] = ok before
frames_loop before (row ∷ rest) = do
  f ← frame_ids row.game_frame row.display_frame
  raise_if (elim (find_frame f.0 before) [ none ↦ false | some h ↦ true ]) duplicate_frame
  raise_if (not (follows f before)) not_contiguous
  frames_loop (f ∷ before) rest

-- The bounds of an interval; one with a bound below zero has no evidence.
unfoldable pub interval : Value → Value → Result BudgetError (ℕ × ℕ)
interval (nat start) (nat end) = if ltb start end then ok (start, end) else err bad_interval
interval (int (negsuc s)) (nat end) = err missing
interval (int (negsuc s)) (int (negsuc e)) = if leb s e then err bad_interval else err missing
interval start end = err bad_interval

-- The display frames of `count` tags from `tag` on, if each is there
unfoldable pub hosts : List Frame → ℕ → ℕ → Option (List ℕ)
unfolding find_frame
hosts by_id tag zero = some []
hosts by_id tag (suc count) =
    let later = hosts by_id (suc tag) count in
    elim (find_frame tag by_id) [
      | none ↦ none
      | some host ↦ elim later [ none ↦ none | some l ↦ some (host ∷ l) ]
    ]

unfoldable pub spacing : List ℕ → List ℕ
spacing [] = []
spacing (a ∷ []) = []
spacing (a ∷ b ∷ rest) = (b - a) ∷ spacing (b ∷ rest)

unfoldable pub sum : List ℕ → ℕ
sum [] = 0
sum (n ∷ rest) = n + sum rest

unfoldable pub highest : List ℕ → ℕ
highest [] = 0
highest (n ∷ rest) = let later = highest rest in if leb later n then n else later

unfoldable pub all_ones : List ℕ → Bool
all_ones [] = true
all_ones (n ∷ rest) = n == 1 && all_ones rest

-- `sorted(Counter(spacing).items())`, a number more
unfoldable pub count_in : ℕ → List (ℕ × ℕ) → List (ℕ × ℕ)
count_in n [] = (n, 1) ∷ []
count_in n ((k, c) ∷ rest) =
    let later = count_in n rest in
    if n == k then (k, suc c) ∷ rest else if ltb n k then (n, 1) ∷ (k, c) ∷ rest else (k, c) ∷ later

unfoldable pub histogram : List ℕ → List (ℕ × ℕ)
unfolding count_in
histogram [] = []
histogram (n ∷ rest) = count_in n (histogram rest)

pub record Cadence : Type 0 where
  pub name : List ℕ
  pub start_tag : ℕ
  pub end_tag : ℕ
  pub tagged_game_frames : ℕ
  pub display_frames : ℕ
  pub display_frames_per_tag : ℕ × ℕ
  pub one_to_one_cadence : Bool
  pub extra_display_frames : ℕ
  pub max_display_spacing : ℕ
  pub spacing_histogram : List (ℕ × ℕ)
  pub required_time_reduction_fraction : ℕ × ℕ
  pub required_throughput_increase_fraction : ℕ × ℕ

-- One sample; display frames increase, so that no difference is below zero.
unfoldable pub cadence : List Frame → List ℕ → Value → Value → Result BudgetError Cadence
unfolding interval hosts spacing sum highest all_ones histogram
cadence by_id name start_value end_value = do
  (start, end) ← interval start_value end_value
  l ← elim (hosts by_id start (suc end - start)) [ none ↦ err missing | some l ↦ ok l ]
  let count = end - start in
      let elapsed = sum (spacing l) in
      ok (record {
        name = name;
        start_tag = start;
        end_tag = end;
        tagged_game_frames = count;
        display_frames = elapsed;
        display_frames_per_tag = (elapsed, count);
        one_to_one_cadence = all_ones (spacing l);
        extra_display_frames = elapsed - count;
        max_display_spacing = highest (spacing l);
        spacing_histogram = histogram (spacing l);
        required_time_reduction_fraction = (elapsed - count, elapsed);
        required_throughput_increase_fraction = (elapsed - count, count);
      })

unfoldable pub cadences :
    List Frame → List (List ℕ × Value × Value) → Result BudgetError (List Cadence)
unfolding cadence
cadences by_id [] = ok []
cadences by_id ((name, start, end) ∷ rest) = do
  one ← cadence by_id name start end
  l ← cadences by_id rest
  ok (one ∷ l)

unfoldable pub summarize :
    List FrameFields → List (List ℕ × Value × Value) → Result BudgetError (List Cadence)
unfolding frames_loop cadences
summarize records samples = do
  raise_if (length records == 0) no_evidence
  by_id ← frames_loop [] records
  cadences by_id samples

-- The profile's fields; `cop_callers` has its two values or their defaults.
pub record Profile : Type 0 where
  pub rom_sha256 : List ℕ
  pub elapsed_master_clocks : Value
  pub regions : List (List ℕ × Value)
  pub unattributed_master_clocks : Value
  pub overlapping_starts : Bool
  pub completed_master_clocks : Value

unfoldable pub has_region : List ℕ → List (List ℕ × Value) → Bool
has_region name [] = false
has_region name ((n, cost) ∷ rest) = bytes_eq n name || has_region name rest

unfoldable pub repeats_region : List (List ℕ × Value) → Bool
unfolding has_region
repeats_region [] = false
repeats_region ((n, cost) ∷ rest) = has_region n rest || repeats_region rest

unfoldable pub clocks : BudgetError → Value → Result BudgetError ℕ
clocks e (nat n) = ok n
clocks e v = err e

unfoldable pub costs : List (List ℕ × Value) → Result BudgetError ℕ
unfolding clocks
costs [] = ok 0
costs ((n, v) ∷ rest) = do c ← clocks bad_cost v; total ← costs rest; ok (c + total)

unfoldable pub validate_profile : Profile → List ℕ → Result BudgetError (Unit {0})
unfolding repeats_region clocks costs
validate_profile profile rom_hash = do
  raise_if (not (bytes_eq profile.rom_sha256 rom_hash)) other_rom
  total ← clocks bad_elapsed profile.elapsed_master_clocks
  raise_if (total == 0) bad_elapsed
  raise_if (repeats_region profile.regions) duplicate_region
  attributed ← costs profile.regions
  residual ← clocks unbalanced profile.unattributed_master_clocks
  raise_if (not (attributed + residual == total)) unbalanced
  raise_if profile.overlapping_starts overlapping_callers
  span ← clocks bad_span profile.completed_master_clocks
  raise_if (not (leb span total)) bad_span
