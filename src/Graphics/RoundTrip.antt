-- ===== src/Graphics/RoundTrip.antt =====
-- Conversion to the SNES order and back loses nothing.
use nes2snes.Common.{
  ℕ, zero, suc, ◌+◌, ◌*◌, ◌/◌, ◌%◌, ◌≡◌, refl, ap, ap₂, subst, ◌∙◌, sym, arith, ◌⊎◌, inl, inr,
}
use nes2snes.Common.{
  [], ◌∷◌, ◌++◌, length, take, drop, Bytes, length-append, length-take, length-drop,
}
use nes2snes.Common.{take-append-drop, if_both, Bool, true, false, ◌&&◌, ◌==◌, ok, raise_if}
use nes2snes.Common.Slices.{take_all, take-append_eq, drop-append_eq}
use nes2snes.Graphics.{
  TileError, depth_known, upper_planes, interleave, padding, nes_loop, nes_to_snes, evens, odds,
  any_set, snes_tile, snes_loop, snes_to_nes,
}
use nes2snes.Graphics.Planes.{zip, length-interleave, interleave-zip, evens-zip, odds-zip}

-- The depths that both converters take.
abbrev pub IsDepth : ℕ → Type 0
IsDepth bpp = (bpp ≡ 2) ⊎ (bpp ≡ 4)

any_set-padding : (bpp : ℕ) → any_set (padding bpp) ≡ false
unfolding any_set padding
any_set-padding bpp = if_both (λ p. any_set p ≡ false) (bpp == 4) (λ e. refl) (λ e. refl)

length-padding : (bpp : ℕ) → IsDepth bpp → 16 + length (padding bpp) ≡ 8 * bpp
unfolding padding
length-padding bpp d = ground arith

never : (b c : Bool) (e : TileError) → c ≡ false → raise_if (b && c) e ≡ ok tt
never b c e h = ground arith

-- A tile of the SNES, without its padding, gives back the planes.
planes-interleave :
    (tile : Bytes)
    → length tile ≡ 16
    → evens (interleave 8 0 tile) ++ odds (interleave 8 0 tile) ≡ tile
planes-interleave tile h =
    ap (λ (t : Bytes). evens t ++ odds t) joined
    ∙ ap₂ ◌++◌ (evens-zip (take 8 tile) (take 8 (drop 8 tile)) same) (
        odds-zip (take 8 tile) (take 8 (drop 8 tile)) same
        ∙ take_all 8 (drop 8 tile) (omega (arith, length-drop 8 tile)))
    ∙ take-append-drop 8 tile
  where
    joined : interleave 8 0 tile ≡ zip (take 8 tile) (take 8 (drop 8 tile))
    joined = interleave-zip 8 0 0 8 tile (omega arith) refl refl

    same : length (take 8 tile) ≡ length (take 8 (drop 8 tile))
    same = omega (arith, length-take 8 tile, length-take 8 (drop 8 tile), length-drop 8 tile)

snes_tile-interleave :
    (bpp : ℕ) (tile : Bytes)
    → length tile ≡ 16
    → snes_tile bpp (interleave 8 0 tile ++ padding bpp) ≡ ok tile
unfolding snes_tile
snes_tile-interleave bpp tile h =
    rw
      (
        take-append_eq 16 (interleave 8 0 tile) (padding bpp) (length-interleave 8 0 tile),
        drop-append_eq 16 (interleave 8 0 tile) (padding bpp) (length-interleave 8 0 tile),
        never (bpp == 4) (any_set (padding bpp)) upper_planes (any_set-padding bpp),
        planes-interleave tile h,
      )
      refl

abbrev snes_part : ℕ → Bytes → Bytes
snes_part bpp tile = interleave 8 0 tile ++ padding bpp

length-snes_part : (bpp : ℕ) (tile : Bytes) → IsDepth bpp → length (snes_part bpp tile) ≡ 8 * bpp
length-snes_part bpp tile d = omega (
  arith,
  length-append (interleave 8 0 tile) (padding bpp),
  length-interleave 8 0 tile,
  length-padding bpp d,
)

snes_loop-nes_loop :
    (bpp tiles : ℕ) (chr_data : Bytes)
    → IsDepth bpp
    → length chr_data ≡ 16 * tiles
    → snes_loop bpp tiles (nes_loop bpp tiles chr_data) ≡ ok chr_data
unfolding snes_loop nes_loop
snes_loop-nes_loop bpp zero [] d h = refl
snes_loop-nes_loop bpp zero (x ∷ chr_data) d h = absurd (omega arith)
snes_loop-nes_loop bpp (suc tiles) chr_data d h =
    let tile = take 16 chr_data in
    let rest = nes_loop bpp tiles (drop 16 chr_data) in
    rw
      (
        take-append_eq (8 * bpp) (snes_part bpp tile) rest (length-snes_part bpp tile d),
        drop-append_eq (8 * bpp) (snes_part bpp tile) rest (length-snes_part bpp tile d),
        snes_tile-interleave bpp tile (omega (arith, length-take 16 chr_data)),
        snes_loop-nes_loop bpp tiles (drop 16 chr_data) d (omega (arith, length-drop 16 chr_data)),
        take-append-drop 16 chr_data,
      )
      refl

length-nes_loop :
    (bpp tiles : ℕ) (chr_data : Bytes)
    → IsDepth bpp
    → (bpp ≡ 2 → length (nes_loop bpp tiles chr_data) ≡ 16 * tiles)
      × (bpp ≡ 4 → length (nes_loop bpp tiles chr_data) ≡ 32 * tiles)
unfolding nes_loop
length-nes_loop bpp zero chr_data d = (λ e. refl, λ e. refl)
length-nes_loop bpp (suc tiles) chr_data d =
    let tile = take 16 chr_data in
    let rest = nes_loop bpp tiles (drop 16 chr_data) in
    let both = length-append (snes_part bpp tile) rest in
    let first = length-snes_part bpp tile d in
    let (two, four) = length-nes_loop bpp tiles (drop 16 chr_data) d in
    (λ e. omega (arith, both, first, two e), λ e. omega (arith, both, first, four e))

-- The length of the converted tiles, and what the division by the size of a tile finds in it.
converted :
    (bpp tiles : ℕ) (chr_data : Bytes)
    → IsDepth bpp
    → let s = nes_loop bpp tiles chr_data in
      (length s ≡ 8 * bpp * tiles) × (length s % (8 * bpp) ≡ 0) × (length s / (8 * bpp) ≡ tiles)
converted bpp tiles chr_data (inl e) =
    subst (λ (b : ℕ). (n ≡ 8 * b * tiles) × (n % (8 * b) ≡ 0) × (n / (8 * b) ≡ tiles)) (sym e)
      (omega (arith, size), omega (arith, size), omega (arith, size))
  where
    n : ℕ
    n = length (nes_loop bpp tiles chr_data)

    size : n ≡ 16 * tiles
    size = (length-nes_loop bpp tiles chr_data (inl e)).0 e
converted bpp tiles chr_data (inr e) =
    subst (λ (b : ℕ). (n ≡ 8 * b * tiles) × (n % (8 * b) ≡ 0) × (n / (8 * b) ≡ tiles)) (sym e)
      (omega (arith, size), omega (arith, size), omega (arith, size))
  where
    n : ℕ
    n = length (nes_loop bpp tiles chr_data)

    size : n ≡ 32 * tiles
    size = (length-nes_loop bpp tiles chr_data (inr e)).1 e

IsDepth-known : (bpp : ℕ) → IsDepth bpp → depth_known bpp ≡ true
IsDepth-known bpp d = ground arith

-- For whole tiles and a depth of 2 or 4: the conversion answers, with 8 bytes per plane of each
-- tile, and its answer converts back to the same bytes.
pub snes_to_nes-nes_to_snes :
    (chr_data : Bytes) (tiles bpp : ℕ)
    → IsDepth bpp
    → length chr_data ≡ 16 * tiles
    → (s : Bytes) × (nes_to_snes chr_data bpp ≡ ok s)
      × (length s ≡ 8 * bpp * tiles)
      × (snes_to_nes s bpp ≡ ok chr_data)
unfolding nes_to_snes snes_to_nes
snes_to_nes-nes_to_snes chr_data tiles bpp d h =
    let (size, whole, count) = converted bpp tiles chr_data d in
    (
      nes_loop bpp tiles chr_data,
      rw (whole_tiles, IsDepth-known bpp d, counted) refl,
      size,
      rw (IsDepth-known bpp d, whole, count) (snes_loop-nes_loop bpp tiles chr_data d h),
    )
  where
    whole_tiles : length chr_data % 16 ≡ 0
    whole_tiles = omega arith

    counted : length chr_data / 16 ≡ tiles
    counted = omega arith
