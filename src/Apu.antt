-- ===== src/Apu.antt =====
-- tools/apu_model.py and tools/apu_sweep_model.py: the quantized audio counters.
pub mod Counters
pub mod Sweep
mod Tests
