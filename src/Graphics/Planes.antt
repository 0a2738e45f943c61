-- ===== src/Graphics/Planes.antt =====
-- The two planes of a tile, put together and taken apart.
use nes2snes.Common.{ℕ, zero, suc, ◌+◌, ◌*◌, ◌≤◌, ◌<◌, ◌≡◌, refl, ap, ap₂, ◌∙◌, sym, arith}
use nes2snes.Common.{[], ◌∷◌, get_or, length, take, drop, Bytes}
use nes2snes.Graphics.{interleave, evens, odds}

-- Two planes row by row.
pub zip : Bytes → Bytes → Bytes
zip [] ys = []
zip (x ∷ xs) [] = []
zip (x ∷ xs) (y ∷ ys) = x ∷ y ∷ zip xs ys

pub length-interleave :
    (count row : ℕ) (tile : Bytes) → length (interleave count row tile) ≡ 2 * count
unfolding interleave
length-interleave zero row tile = refl
length-interleave (suc count) row tile = omega (arith, length-interleave count (row + 1) tile)

drop_step : (i : ℕ) (xs : Bytes) → i < length xs → drop i xs ≡ get_or xs i 0 ∷ drop (suc i) xs
drop_step i [] h = absurd (omega arith)
drop_step zero (x ∷ xs) h = refl
drop_step (suc i) (x ∷ xs) h = drop_step i xs (omega arith)

pub interleave-zip :
    (count row i j : ℕ) (tile : Bytes)
    → row + 8 + count ≤ length tile
    → i ≡ row
    → j ≡ row + 8
    → interleave count row tile ≡ zip (take count (drop i tile)) (take count (drop j tile))
unfolding interleave zip
interleave-zip zero row i j tile h e f = refl
interleave-zip (suc count) row i j tile h e f =
    ap₂ ◌∷◌ (ap (λ (k : ℕ). get_or tile k 0) (sym e)) (
      ap₂ ◌∷◌ (ap (λ (k : ℕ). get_or tile k 0) (sym f)) (
        interleave-zip count (row + 1) (suc i) (suc j) tile (omega arith) (omega arith)
          (omega arith)))
    ∙ sym (
        ap₂ (λ (u v : Bytes). zip (take (suc count) u) (take (suc count) v))
          (drop_step i tile (omega arith)) (drop_step j tile (omega arith)))

pub evens-zip : (xs ys : Bytes) → length xs ≡ length ys → evens (zip xs ys) ≡ xs
unfolding evens zip
evens-zip [] [] h = refl
evens-zip [] (y ∷ ys) h = refl
evens-zip (x ∷ xs) [] h = absurd (omega arith)
evens-zip (x ∷ xs) (y ∷ ys) h = ap (λ (t : Bytes). x ∷ t) (evens-zip xs ys (omega arith))

pub odds-zip : (xs ys : Bytes) → length xs ≡ length ys → odds (zip xs ys) ≡ ys
unfolding odds zip
odds-zip [] [] h = refl
odds-zip [] (y ∷ ys) h = absurd (omega arith)
odds-zip (x ∷ xs) [] h = refl
odds-zip (x ∷ xs) (y ∷ ys) h = ap (λ (t : Bytes). y ∷ t) (odds-zip xs ys (omega arith))
