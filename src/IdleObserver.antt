-- ===== src/IdleObserver.antt =====
-- tools/idle_observer.py: the observer of an emulator's idle loop.
-- The emulator's library is a parameter: the answers of its calls `status` and `data`, the latter a
-- function from an index to the record there, or none for a null pointer.
pub mod Ordered
mod Tests
use nes2snes.Common.{ℕ, zero, suc, ◌-◌, Bool, true, false, not, ◌&&◌, ◌||◌, Option, none, some}
use nes2snes.Common.{List, [], ◌∷◌, map, length, get_or, ltb, leb, ◌==◌, if◌then◌else◌, Bytes}
use nes2snes.Common.{Result, ok, err, ◌>>=◌, ◌>>◌, raise_if, Value, nat}

-- The `ValueError`s and `RuntimeError`s, by what their messages name.
pub data ObserverError : Type 0 where
  bad_instruction same_instruction bad_addresses repeated_address bad_capacity : ObserverError
  other_abi refused bad_frame overflowed no_samples no_records bad_order : ObserverError

-- A list or tuple of addresses, or anything else
pub data WatchedArgument : Type 0 where
  watched : List Value → WatchedArgument
  not_watched : WatchedArgument

-- The class Record
pub record Sample : Type 0 where
  pub ticks : ℕ
  pub host_frame : ℕ
  pub sample : ℕ
  pub pc : ℕ
  pub bank : ℕ
  pub values : Bytes

-- The attributes of Observer
pub record Observer : Type 0 where
  pub addresses : List ℕ
  pub tick_pc : ℕ
  pub sample_pc : ℕ
  pub frame : ℕ

unfoldable pub instruction : Value → Result ObserverError ℕ
instruction (nat n) = if leb 0x8000 n && leb n 0xffff then ok n else err bad_instruction
instruction v = err bad_instruction

unfoldable pub ram_addresses : List Value → Result ObserverError (List ℕ)
ram_addresses [] = ok []
ram_addresses (nat n ∷ rest) = do
  raise_if (not (ltb n 2048)) bad_addresses
  l ← ram_addresses rest
  ok (n ∷ l)
ram_addresses (v ∷ rest) = err bad_addresses

unfoldable pub has_address : ℕ → List ℕ → Bool
has_address x [] = false
has_address x (y ∷ rest) = y == x || has_address x rest

-- `len(set(addresses)) != len(addresses)`
unfoldable pub repeats_address : List ℕ → Bool
unfolding has_address
repeats_address [] = false
repeats_address (x ∷ rest) = has_address x rest || repeats_address rest

unfoldable pub watched_addresses : WatchedArgument → Result ObserverError (List ℕ)
unfolding ram_addresses repeats_address
watched_addresses not_watched = err bad_addresses
watched_addresses (watched l) = do
  raise_if (not (leb 1 (length l) && leb (length l) 16)) bad_addresses
  numbers ← ram_addresses l
  raise_if (repeats_address numbers) repeated_address
  ok numbers

unfoldable pub capacity_of : Value → Result ObserverError ℕ
capacity_of (nat n) = if leb 1 n && leb n 32768 then ok n else err bad_capacity
capacity_of v = err bad_capacity

-- The checked arguments, in front of any frame
unfoldable pub validate_config :
    Value → Value → WatchedArgument → Value → Result ObserverError Observer
unfolding instruction watched_addresses capacity_of
validate_config tick_value sample_value argument capacity_value = do
  tick ← instruction tick_value
  sample ← instruction sample_value
  raise_if (tick == sample) same_instruction
  numbers ← watched_addresses argument
  capacity ← capacity_of capacity_value
  ok (record { addresses = numbers; tick_pc = tick; sample_pc = sample; frame = 0 })

-- `__init__`, with the record size that the library reports and whether it takes the configuration
unfoldable pub create :
    ℕ → Bool → Value → Value → WatchedArgument → Value → Result ObserverError Observer
unfolding validate_config
create record_size configured tick_value sample_value argument capacity_value = do
  o ← validate_config tick_value sample_value argument capacity_value
  raise_if (not (record_size == 48)) other_abi
  raise_if (not configured) refused
  ok o

unfoldable pub before_frame : Observer → Value → Result ObserverError Observer
before_frame o (nat n) =
    if ltb o.frame n && leb n 2000000 then ok (record o { frame = n }) else err bad_frame
before_frame o v = err bad_frame

-- A row of the answer; `ram` holds each watched address with its byte.
pub record Event : Type 0 where
  pub sample : ℕ
  pub pc : ℕ
  pub bank : ℕ
  pub host_frame : ℕ
  pub ticks : ℕ
  pub ticks_since_previous_sample : ℕ
  pub ram : List (ℕ × ℕ)

-- `enumerate(self.addresses)`, from an index on
unfoldable pub ram_values : Bytes → ℕ → List ℕ → List (ℕ × ℕ)
ram_values values j [] = []
ram_values values j (x ∷ rest) = (x, get_or values j 0) ∷ ram_values values (suc j) rest

-- The loop over the records from index `i` on, with the ticks and the frame of the record before.
unfoldable pub events_loop :
    Observer → (ℕ → Sample) → ℕ → ℕ → ℕ → ℕ → Result ObserverError (List Event)
unfolding ram_values
events_loop o rows zero i ticks frame = ok []
events_loop o rows (suc count) i ticks frame = do
  raise_if
      (not ((rows i).sample == suc i)
        || (not ((rows i).pc == o.sample_pc)
            || (ltb (rows i).ticks ticks
                || not (leb frame (rows i).host_frame && leb (rows i).host_frame o.frame))))
      bad_order
  later ← events_loop o rows count (suc i) (rows i).ticks (rows i).host_frame
  ok (
      record {
        sample = (rows i).sample;
        pc = (rows i).pc;
        bank = (rows i).bank;
        host_frame = (rows i).host_frame;
        ticks = (rows i).ticks;
        ticks_since_previous_sample = (rows i).ticks - ticks;
        ram = ram_values (rows i).values 0 o.addresses;
      }
      ∷ later)

pub record Summary : Type 0 where
  pub tick_pc : ℕ
  pub sample_pc : ℕ
  pub addresses : List ℕ
  pub samples : ℕ
  pub ticks : ℕ
  pub records : List Event

-- `finish`, with the library's answers of `status` and `data`
unfoldable pub finish : Observer → (ℕ → ℕ) → Option (ℕ → Sample) → Result ObserverError Summary
unfolding events_loop
finish o status rows_pointer = do
  raise_if (not (status 3 == 0) || not (status 0 == status 1)) overflowed
  raise_if (status 0 == 0) no_samples
  rows ← elim rows_pointer [ none ↦ err no_records | some rows ↦ ok rows ]
  events ← events_loop o rows (status 0) 0 0 0
  ok (record {
    tick_pc = o.tick_pc;
    sample_pc = o.sample_pc;
    addresses = o.addresses;
    samples = status 1;
    ticks = status 2;
    records = events;
  })
