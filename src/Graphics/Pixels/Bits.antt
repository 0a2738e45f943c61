-- ===== src/Graphics/Pixels/Bits.antt =====
-- tools/graphics.py: a row of pixels and its two bytes determine each other.
use nes2snes.Common.{ℕ, zero, suc, ◌+◌, ◌-◌, ◌*◌, ◌<◌, ◌≡◌, bit_or, refl, ap, ap₂, ◌∙◌, arith}
use nes2snes.Common.{List, [], ◌∷◌, map}
use nes2snes.Common.{Value, nat}
use nes2snes.Graphics.Pixels.{bit_at, eight, plane_byte}

-- The pixels as the numbers that encode_nes_tile is given.
abbrev pub as_values : List (List ℕ) → List (List Value)
as_values rows = map (λ row. map (λ n. nat n) row) rows

joined : (a b : ℕ) → a < 2 → b < 2 → bit_or a (b * 2) ≡ a + b * 2
joined zero zero h k = refl
joined zero (suc zero) h k = refl
joined (suc zero) zero h k = refl
joined (suc zero) (suc zero) h k = refl
joined zero (suc (suc b)) h k = absurd (omega arith)
joined (suc zero) (suc (suc b)) h k = absurd (omega arith)
joined (suc (suc a)) b h k = absurd (omega arith)

pub pixel_sum :
    (low high k : ℕ) → bit_or (bit_at low k) (bit_at high k * 2) ≡ bit_at low k + bit_at high k * 2
unfolding bit_at
pixel_sum low high k = joined _ _ (omega arith) (omega arith)

-- The two bits of a pixel.
low_bit : (l h k : ℕ) → bit_at (bit_or (bit_at l k) (bit_at h k * 2)) 0 ≡ bit_at l k
unfolding bit_at
low_bit l h k = rw (pixel_sum l h k, bit_at) (omega arith)

high_bit : (l h k : ℕ) → bit_at (bit_or (bit_at l k) (bit_at h k * 2)) 1 ≡ bit_at h k
unfolding bit_at
high_bit l h k = rw (pixel_sum l h k, bit_at) (omega arith)

pixel_back : (p : ℕ) → p < 4 → bit_or (bit_at p 0) (bit_at p 1 * 2) ≡ p
unfolding bit_at
pixel_back zero h = refl
pixel_back (suc zero) h = refl
pixel_back (suc (suc zero)) h = refl
pixel_back (suc (suc (suc zero))) h = refl
pixel_back (suc (suc (suc (suc p)))) h = absurd (omega arith)

-- The row of pixels of two bytes.
unfoldable pub row_of : ℕ → ℕ → List ℕ
row_of low high = map (λ x. bit_or (bit_at low (7 - x)) (bit_at high (7 - x) * 2)) eight

weigh : ℕ → ℕ → ℕ → ℕ → ℕ → ℕ → ℕ → ℕ → ℕ
weigh a b c d e f g h =
    a * 128 + (b * 64 + (c * 32 + (d * 16 + (e * 8 + (f * 4 + (g * 2 + (h * 1 + 0)))))))

digits :
    (v : ℕ)
    → v < 256
    → weigh
        (bit_at v 7)
        (bit_at v 6)
        (bit_at v 5)
        (bit_at v 4)
        (bit_at v 3)
        (bit_at v 2)
        (bit_at v 1)
        (bit_at v 0)
      ≡ v
unfolding bit_at weigh
digits v h = omega arith

pub plane_byte-row_of :
    (l h : ℕ)
    → l < 256
    → h < 256
    → (plane_byte 0 0 (row_of l h) ≡ l) × (plane_byte 1 0 (row_of l h) ≡ h)
unfolding plane_byte row_of weigh
plane_byte-row_of l h lb hb = (
  rw
      (
        low_bit l h 7,
        low_bit l h 6,
        low_bit l h 5,
        low_bit l h 4,
        low_bit l h 3,
        low_bit l h 2,
        low_bit l h 1,
        low_bit l h 0,
      )
      (digits l lb),
  rw
      (
        high_bit l h 7,
        high_bit l h 6,
        high_bit l h 5,
        high_bit l h 4,
        high_bit l h 3,
        high_bit l h 2,
        high_bit l h 1,
        high_bit l h 0,
      )
      (digits h hb),
)

-- The bits of a byte that is put together.
bit_of_weigh :
    (a b c d e f g h : ℕ)
    → (a < 2) × (b < 2) × (c < 2) × (d < 2) × (e < 2) × (f < 2) × (g < 2) × (h < 2)
    → (bit_at (weigh a b c d e f g h) 7 ≡ a)
      × (bit_at (weigh a b c d e f g h) 6 ≡ b)
      × (bit_at (weigh a b c d e f g h) 5 ≡ c)
      × (bit_at (weigh a b c d e f g h) 4 ≡ d)
      × (bit_at (weigh a b c d e f g h) 3 ≡ e)
      × (bit_at (weigh a b c d e f g h) 2 ≡ f)
      × (bit_at (weigh a b c d e f g h) 1 ≡ g)
      × (bit_at (weigh a b c d e f g h) 0 ≡ h)
unfolding bit_at weigh
bit_of_weigh a b c d e f g h bits = (
  omega (arith, bits),
  omega (arith, bits),
  omega (arith, bits),
  omega (arith, bits),
  omega (arith, bits),
  omega (arith, bits),
  omega (arith, bits),
  omega (arith, bits),
)

pub bit_at-lt : (v k : ℕ) → bit_at v k < 2
unfolding bit_at
bit_at-lt v k = omega arith

low_weigh : ℕ → (ℕ → ℕ) → ℕ
low_weigh k f =
    weigh (bit_at (f 0) k) (bit_at (f 1) k) (bit_at (f 2) k) (bit_at (f 3) k) (bit_at (f 4) k)
      (bit_at (f 5) k) (bit_at (f 6) k) (bit_at (f 7) k)

pub row_of-plane_byte :
    (f : ℕ → ℕ)
    → ((x : ℕ) → f x < 4)
    → row_of (plane_byte 0 0 (map f eight)) (plane_byte 1 0 (map f eight)) ≡ map f eight
unfolding row_of plane_byte low_weigh weigh
row_of-plane_byte f small =
    let bits : (k : ℕ) → _ = (λ (k : ℕ).
      bit_of_weigh (bit_at (f 0) k) (bit_at (f 1) k) (bit_at (f 2) k) (bit_at (f 3) k)
        (bit_at (f 4) k) (bit_at (f 5) k) (bit_at (f 6) k) (bit_at (f 7) k)
        (
          bit_at-lt _ k,
          bit_at-lt _ k,
          bit_at-lt _ k,
          bit_at-lt _ k,
          bit_at-lt _ k,
          bit_at-lt _ k,
          bit_at-lt _ k,
          bit_at-lt _ k,
        )) in
    let at : (a b p : ℕ) → p < 4 → a ≡ bit_at p 0 → b ≡ bit_at p 1 → bit_or a (b * 2) ≡ p =
      (λ a b p lt e e'. ap₂ (λ a b. bit_or a (b * 2)) e e' ∙ pixel_back p lt) in
    ap₂ ◌∷◌ (at _ _ (f 0) (small 0) (bits 0).0 (bits 1).0) (
      ap₂ ◌∷◌ (at _ _ (f 1) (small 1) (bits 0).1 (bits 1).1) (
        ap₂ ◌∷◌ (at _ _ (f 2) (small 2) (bits 0).2 (bits 1).2) (
          ap₂ ◌∷◌ (at _ _ (f 3) (small 3) (bits 0).3 (bits 1).3) (
            ap₂ ◌∷◌ (at _ _ (f 4) (small 4) (bits 0).4 (bits 1).4) (
              ap₂ ◌∷◌ (at _ _ (f 5) (small 5) (bits 0).5 (bits 1).5) (
                ap₂ ◌∷◌ (at _ _ (f 6) (small 6) (bits 0).6 (bits 1).6)
                  (ap (λ p. p ∷ []) (at _ _ (f 7) (small 7) (bits 0).7 (bits 1).7))))))))
