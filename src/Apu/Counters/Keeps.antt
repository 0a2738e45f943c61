-- ===== src/Apu/Counters/Keeps.antt =====
-- What `half` and any change of the counters keep, a frame and a register write keep.
use nes2snes.Common.{ℕ, Bool, true, false, if◌then◌else◌}
use nes2snes.Apu.Counters.{Counters, Machine, store, step, frame}

module _ {S : Type 0} (m : Machine S) (P : S → Type 0) (on_half : (s : S) → P s → P (m.half s))
    (on_update : (s : S) (c : Counters) → P s → P (m.update s c)) where
  on_if : (b : Bool) (s t : S) → P s → P t → P (if b then s else t)
  on_if true s t hs ht = hs
  on_if false s t hs ht = ht

  step-keeps : (s : S) → P s → P (step m s)
  unfolding step
  step-keeps s h = search (on_half, on_update, on_if)

  pub frame-keeps : (s : S) → P s → P (frame m s)
  unfolding frame
  frame-keeps s h = search (step-keeps, on_update) depth 7

  pub store-keeps : (s : S) (index value : ℕ) → P s → P (store m s index value)
  unfolding store
  store-keeps s index value h = search (on_half, on_update, on_if) depth 7
