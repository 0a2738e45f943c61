-- ===== src/Lib.antt =====
-- Nes2Snes: the models that the repository's tools check the native SNES code against, and the
-- converters and planners that build it, read as functions.
--
-- The repository turns an NES cartridge into a SNES program: Python tools under tools/ parse the
-- cartridge, convert its graphics, plan same-size replacements in its 6502 code, and hold reference
-- models of the timing, interrupts and audio of the original machine. Assembly under snes/ is what
-- they generate for. Each file here models one part of tools/:
--
--   Common        shared names, lists over the native numbers, results with errors, bytes, bit laws
--   Opcodes       tools/opcodes6502.py: the instruction table (SPEC, LENGTHS, OPS)
--   GuestCycles   tools/guest_cycles.py: metadata, Instruction.cost (`cost`), and in
--                 GuestCycles/Window account_window; it reads the table of Opcodes
--   Interrupt     tools/interrupt_boundary.py: Boundary.validate, Boundary.record (`record_bytes`)
--                 and enter; Interrupt/Expected is expected of tools/verify_interrupt_boundary.py,
--                 which applies enter to what an emulator recorded
--   NativeSafe    tools/native_safe.py: replacement and apply
--   Graphics      tools/graphics.py: nes_to_snes and snes_to_nes; Graphics/Tilemap is
--                 nametable_to_snes, and Graphics/Pixels is decode_nes_tile, encode_nes_tile and
--                 synthetic_chr
--   Fixture       tools/native_fixture.py: the class Program, an assembler over the table of Opcodes
--   Dma           tools/verify_oam_dma.py: the class Observer, and in Dma/Timing its timing, with
--                 exact_hex of tools/verify_ppu_blank.py; Dma/Masked is masked_code and underlying of
--                 tools/oam_dma_timeline.py, with the validator that underlying calls a parameter
--   Rom           tools/rom.py: nes2_size, Rom.parse and Rom.prg_offset; Rom/Metadata is
--                 Rom.metadata
--   OamState      tools/oam_state.py: _chunks (`chunks`) and meaningful_oam; OamState/Snapshot is
--                 nestopia_oam, with `unpack` of tools/palette_state.py
--   PaletteState  tools/palette_state.py: decode and decode_mmc5, over the readers of OamState;
--                 PaletteState/Sets is tools/chr_sets_state.py: decode_sets, over both, and
--                 native_registers
--   Recognizer    tools/native_dispatch.py: matches, plan, apply (`redirect_all`), for any pattern;
--                 Recognizer/Polling is tools/native_controller.py, the same with its own pattern
--   DirectCalls   tools/direct_calls.py: handler_kind, the sites that plan selects, and apply; its
--                 sites are absolute accesses, replaced as those of Recognizer are
--   Timeline      tools/timeline_program.py: validate_events in Timeline/Events, decode in
--                 Timeline/Decode with its gates in Timeline/Allowed.
--                 Timeline/Plan is validate_plan for the plans without a mapper, with validate_data
--                 of tools/timeline_rom.py, and Timeline/Compare is compare of
--                 tools/verify_timeline.py, which calls both
--   ControlFlow   tools/native_cfg.py: expand, the worklist over the instructions of Opcodes
--   Budget        tools/performance_budget.py: summarize and validate_profile
--   IdleObserver  tools/idle_observer.py: validate_config and the class Observer, over the answers of
--                 the emulator's library
--   Mmc5          tools/mmc5_timeline.py: slots, and in Mmc5/Plan and Mmc5/Body fragments and validate
--                 with validate_options of tools/mmc5_chr_blank.py; it calls validate_events and
--                 decode of Timeline
--   Route         tools/gameplay_route.py: validate_actions; Route/Guard is guarded_update_pc of
--                 tools/route_evidence.py, and Route/Merge merge_trace of tools/gameplay_route.py
--   Route/Evidence  tools/route_evidence.py: selected_state and load_route, which calls
--                 validate_actions; Compare is compare_routes; Milestones is validate_contract of
--                 tools/route_milestones.py, and Milestones/Verify its verify, which calls load_route
--   Apu           Apu/Counters is the class Counters of tools/apu_model.py, Apu/Sweep its subclass
--                 SweepCounters of tools/apu_sweep_model.py; Apu/Sweep/Run is the
--                 relation of the states that writes and frames reach
--
-- A Python function that may raise returns a Result with the error that it raises; a value whose
-- type the code checks is a Value (an integer, a Boolean, or anything else). An object is a
-- record, and a method returns the new record. `write` and `frame` of Counters call a method that
-- the subclass overrides, so they are generic in a Machine, an object with its own `half`. Bytes
-- are lists of numbers below 256, a set of cells is its membership test, and a bit operation is
-- that of the native numbers. A subtraction that may fall below zero in Python is written out as
-- the sum or the remainder that it is used for. The chunk reader, `decode` and `masked_code` take
-- fuel, a round for each byte, where a round takes one byte at least; the worklist of `expand`
-- takes four rounds for each byte, of which each is processed once and queues at most three, and
-- one for each observed instruction; every other loop runs over a list or a fixed number of
-- rounds. An argument whose shape the code checks (a dictionary with given keys, a list, a set,
-- bytes) is a data type of that shape and of anything else.
--
-- Not modelled: the assembly under snes/, the files and processes that the tools read and run, the
-- texts of generated assembly (tables, native_tables, prepare_native, write_code), hashes and
-- compression, which are of libraries (a decompressor is a parameter), and the verification
-- drivers tools/verify_*.py (but for what is listed above), tools/instrument_*.py and
-- tools/benchmark_*.py, which run emulators. The planners of code replacement and the graphics
-- converters that are not listed above are not modelled.
pub mod Common
pub mod Opcodes
pub mod Fixture
pub mod Dma
pub mod GuestCycles
pub mod Interrupt
pub mod NativeSafe
pub mod Apu
pub mod Graphics
pub mod OamState
pub mod Timeline
pub mod Recognizer
pub mod Mmc5
pub mod Rom
pub mod Route
pub mod ControlFlow
pub mod Budget
pub mod DirectCalls
pub mod IdleObserver
pub mod PaletteState
