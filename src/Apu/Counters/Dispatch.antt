-- ===== src/Apu/Counters/Dispatch.antt =====
-- An object whose `half` does to its counters what the base class does goes through the same
-- counters as the base class, whatever else it keeps.
use nes2snes.Common.{ℕ, ◌≡◌, refl, Bool, true, false}
use nes2snes.Common.{if◌then◌else◌}
use nes2snes.Apu.Counters.{
  Counters, Machine, machine, half, quarter, quarter_of, key_write, store, step, frame,
}

pub record IsLawful {S : Type 0} (m : Machine S) : Type 0 where
  pub view_update : (s : S) (c : Counters) → m.view (m.update s c) ≡ c
  pub view_half : (s : S) → m.view (m.half s) ≡ half (m.view s)

module _ {S : Type 0} (m : Machine S) (h : IsLawful m) where
  view-if : (b : Bool) (s t : S) → m.view (if b then s else t) ≡ (if b then m.view s else m.view t)
  view-if true s t = refl
  view-if false s t = refl

  view-quarter_of : (s : S) → m.view (quarter_of m s) ≡ quarter (m.view s)
  unfolding quarter_of
  view-quarter_of s = h.view_update s (quarter (m.view s))

  pub view-step : (s : S) → m.view (step m s) ≡ step machine (m.view s)
  unfolding step
  view-step s = simp (h.view_update, view-if, h.view_half)

  pub view-frame : (s : S) → m.view (frame m s) ≡ frame machine (m.view s)
  unfolding frame
  view-frame s = simp (h.view_update, view-step)

  view-key_write :
      (s : S) (index value : ℕ)
      → m.view (key_write m s index value) ≡ key_write machine (m.view s) index value
  unfolding key_write
  view-key_write s index value = simp h.view_update

  pub view-store :
      (s : S) (index value : ℕ)
      → m.view (store m s index value) ≡ store machine (m.view s) index value
  unfolding store
  view-store s index value = simp (h.view_update, view-if, h.view_half)
