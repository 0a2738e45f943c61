-- ===== src/Graphics/Pixels/Inverse.antt =====
-- tools/graphics.py: a tile and its pixels determine each other.
use nes2snes.Common.{
  ℕ, zero, suc, ◌+◌, ◌*◌, ◌<◌, ◌≡◌, ◌↔◌, bit_or, refl, sym, ap, ap₂, ◌∙◌, subst, arith, Bool-cases,
  true, not, ◌||◌, &&-true, &&-both, ||-false, not-false, inl, inr,
}
use nes2snes.Common.{
  List, [], ◌∷◌, All, All-get_or, map, length, length-map, get_or, leb, leb→le, le→leb, ◌==◌,
  ==_iff, Bytes, AreBytes,
}
use nes2snes.Common.{ok, raise_if, raise_if-ok, >>=-eq-ok, ok_injective, nat}
use nes2snes.Graphics.Pixels.{
  not_a_matrix, bit_at, eight, pixel, decode_nes_tile, all_of_eight, pixel_value, row_values,
  matrix_values, plane_byte, plane_bytes, encode_nes_tile,
}
use nes2snes.Graphics.Pixels.Bits.{
  as_values, pixel_sum, row_of, plane_byte-row_of, bit_at-lt, row_of-plane_byte,
}

-- A list read by its indices.
up : ℕ → List ℕ
up zero = []
up (suc n) = 0 ∷ map suc (up n)

map-map :
    {A : Type 0} (g : ℕ → A) (h : ℕ → A) (l : List ℕ) (s : ℕ → ℕ)
    → ((i : ℕ) → g (s i) ≡ h i)
    → map g (map s l) ≡ map h l
map-map g h [] s e = refl
map-map g h (x ∷ l) s e = ap₂ ◌∷◌ (e x) (map-map g h l s e)

listed : {A : Type 0} (l : List A) (d : A) → map (λ i. get_or l i d) (up (length l)) ≡ l
unfolding up
listed [] d = refl
listed (x ∷ l) d =
    ap (λ r. x ∷ r)
      (map-map (λ i. get_or (x ∷ l) i d) (λ i. get_or l i d) (up (length l)) suc (λ i. refl)
        ∙ listed l d)

listed_eight : {A : Type 0} (l : List A) (d : A) → length l ≡ 8 → map (λ i. get_or l i d) eight ≡ l
unfolding up
listed_eight l d e = subst (λ n. map (λ i. get_or l i d) (up n) ≡ l) e (listed l d)

row_values-ok :
    (row : List ℕ) (l : List ℕ)
    → row_values (map (λ n. nat n) row) ≡ ok l
    → (l ≡ row) × All (λ n. n < 4) row
unfolding row_values pixel_value
row_values-ok [] l h = (sym (ok_injective h), tt)
row_values-ok (p ∷ row) l h =
    let (n, e1, h1) = >>=-eq-ok (pixel_value (nat p)) _ h in
    let (rest, e2, h2) = >>=-eq-ok (row_values (map (λ n. nat n) row)) _ h1 in
    let (same, small) = row_values-ok row rest e2 in
    elim (Bool-cases (leb p 3)) [
      | inl low ↦
          let kept : p ≡ n = ok_injective (rw low at e1) in
          (sym (ok_injective h2) ∙ ap₂ ◌∷◌ (sym kept) same, (omega (arith, leb→le p 3 low), small))
      | inr high ↦ let never = rw high at e1 in cc
    ]

row_values-values :
    (row : List ℕ) → All (λ n. n < 4) row → row_values (map (λ n. nat n) row) ≡ ok row
unfolding row_values pixel_value
row_values-values [] h = refl
row_values-values (p ∷ row) h = rw (le→leb p 3 (omega (arith, h.0)), row_values-values row h.1) refl

matrix_values-ok :
    (p q : List (List ℕ))
    → all_of_eight (as_values p) ≡ true
    → matrix_values (as_values p) ≡ ok q
    → (q ≡ p) × All (λ row. (length row ≡ 8) × All (λ n. n < 4) row) p
unfolding matrix_values all_of_eight
matrix_values-ok [] q e h = (sym (ok_injective h), tt)
matrix_values-ok (row ∷ p) q e h =
    let (size, sizes) = &&-true _ _ e in
    let (r, e1, h1) = >>=-eq-ok (row_values (map (λ n. nat n) row)) _ h in
    let (rest, e2, h2) = >>=-eq-ok (matrix_values (as_values p)) _ h1 in
    let (same, small) = row_values-ok row r e1 in
    let (others, all) = matrix_values-ok p rest sizes e2 in
    let width : length row ≡ 8 = sym (length-map row (λ n. nat n)) ∙ (==_iff _ _).0 size in
    (sym (ok_injective h2) ∙ ap₂ ◌∷◌ same others, ((width, small), all))

matrix_values-values :
    (p : List (List ℕ))
    → All (λ row. (length row ≡ 8) × All (λ n. n < 4) row) p
    → (all_of_eight (as_values p) ≡ true) × (matrix_values (as_values p) ≡ ok p)
unfolding matrix_values all_of_eight
matrix_values-values [] h = (refl, refl)
matrix_values-values (row ∷ p) ((width, small), all) =
    let (sizes, same) = matrix_values-values p all in
    (
      &&-both ((==_iff _ _).1 (length-map row (λ n. nat n) ∙ width)) sizes,
      rw (row_values-values row small, same) refl,
    )

-- The rows of a tile of 16 bytes.
decoded : Bytes → List (List ℕ)
decoded tile = map (λ y. row_of (get_or tile y 0) (get_or tile (y + 8) 0)) eight

decode_nes_tile-decoded :
    (tile : Bytes) → length tile ≡ 16 → decode_nes_tile tile ≡ ok (decoded tile)
unfolding decode_nes_tile decoded row_of pixel
decode_nes_tile-decoded tile e = rw ((==_iff _ _).1 e) refl

-- The pixels of the tile put together from eight rows.
decoded-plane_bytes :
    (f : ℕ → List ℕ)
    → ((y : ℕ) → y < 8 → (length (f y) ≡ 8) × All (λ n. n < 4) (f y))
    → decoded (plane_bytes (map f eight)) ≡ map f eight
unfolding decoded plane_bytes
decoded-plane_bytes f good =
    let back : (y : ℕ) → y < 8 → row_of (plane_byte 0 0 (f y)) (plane_byte 1 0 (f y)) ≡ f y =
      (λ y lt.
        let (width, small) = good y lt in
        let row = listed_eight (f y) 0 width in
        subst (λ r. row_of (plane_byte 0 0 r) (plane_byte 1 0 r) ≡ r) row
          (row_of-plane_byte (λ i. get_or (f y) i 0)
            (λ i. All-get_or _ (f y) i 0 (omega arith) small))) in
    ap₂ ◌∷◌ (back 0 (omega arith)) (
      ap₂ ◌∷◌ (back 1 (omega arith)) (
        ap₂ ◌∷◌ (back 2 (omega arith)) (
          ap₂ ◌∷◌ (back 3 (omega arith)) (
            ap₂ ◌∷◌ (back 4 (omega arith)) (
              ap₂ ◌∷◌ (back 5 (omega arith))
                (ap₂ ◌∷◌ (back 6 (omega arith)) (ap (λ r. r ∷ []) (back 7 (omega arith)))))))))

-- A tile of bytes and its decoded rows.
plane_bytes-decoded :
    (tile : Bytes) → AreBytes tile → length tile ≡ 16 → plane_bytes (decoded tile) ≡ tile
unfolding decoded plane_bytes up
plane_bytes-decoded tile bytes e =
    let at : ℕ → ℕ = (λ i. get_or tile i 0) in
    let low : (y : ℕ) → plane_byte 0 0 (row_of (at y) (at (y + 8))) ≡ at y = (λ y.
      (plane_byte-row_of (at y) (at (y + 8)) (All-get_or _ tile y 0 (omega arith) bytes)
        (All-get_or _ tile (y + 8) 0 (omega arith) bytes)).0) in
    let high : (y : ℕ) → plane_byte 1 0 (row_of (at y) (at (y + 8))) ≡ at (y + 8) = (λ y.
      (plane_byte-row_of (at y) (at (y + 8)) (All-get_or _ tile y 0 (omega arith) bytes)
        (All-get_or _ tile (y + 8) 0 (omega arith) bytes)).1) in
    let whole : map at (up 16) ≡ tile = subst (λ n. map at (up n) ≡ tile) e (listed tile 0) in
    rw
      (
        low 0,
        low 1,
        low 2,
        low 3,
        low 4,
        low 5,
        low 6,
        low 7,
        high 0,
        high 1,
        high 2,
        high 3,
        high 4,
        high 5,
        high 6,
        high 7,
      )
      whole

get_or-All :
    {A : Type 0} (P : List A → Type 0) (l : List (List A)) (i : ℕ)
    → i < length l
    → All P l
    → P (get_or l i [])
get_or-All P [] i h all = absurd (omega arith)
get_or-All P (x ∷ l) zero h all = all.0
get_or-All P (x ∷ l) (suc i) h all = get_or-All P l i (omega arith) all.1

decode_nes_tile-ok :
    (tile : Bytes) {p : List (List ℕ)} → decode_nes_tile tile ≡ ok p → length tile ≡ 16
unfolding decode_nes_tile
decode_nes_tile-ok tile h = elim (Bool-cases (length tile == 16)) [
  | inl same ↦ (==_iff _ _).0 same
  | inr differ ↦ let never = rw differ at h in cc
]

row_of_small : (l h : ℕ) → (length (row_of l h) ≡ 8) × All (λ n. n < 4) (row_of l h)
unfolding row_of
row_of_small l h =
    let small : (k : ℕ) → bit_or (bit_at l k) (bit_at h k * 2) < 4 =
      (λ (k : ℕ). omega (arith, pixel_sum l h k, bit_at-lt l k, bit_at-lt h k)) in
    (
      refl,
      (small 7, (small 6, (small 5, (small 4, (small 3, (small 2, (small 1, (small 0, tt)))))))),
    )

decoded-IsPixels :
    (tile : Bytes) → All (λ row. (length row ≡ 8) × All (λ n. n < 4) row) (decoded tile)
unfolding decoded
decoded-IsPixels tile =
    let row : (y : ℕ) → _ = (λ (y : ℕ). row_of_small (get_or tile y 0) (get_or tile (y + 8) 0)) in
    (row 0, (row 1, (row 2, (row 3, (row 4, (row 5, (row 6, (row 7, tt))))))))

sixteen : (f : ℕ → List ℕ) → length (plane_bytes (map f eight)) ≡ 16
unfolding plane_bytes
sixteen f = refl

eight_rows : (tile : Bytes) → length (decoded tile) ≡ 8
unfolding decoded
eight_rows tile = refl

encode_values :
    (r : List (List ℕ))
    → length r ≡ 8
    → all_of_eight (as_values r) ≡ true
    → matrix_values (as_values r) ≡ ok r
    → encode_nes_tile (as_values r) ≡ ok (plane_bytes r)
unfolding encode_nes_tile
encode_values r tall widths values =
    rw ((==_iff _ _).1 (length-map r (λ row. map (λ n. nat n) row) ∙ tall), widths, values) refl

-- Encoding pixels gives a tile exactly where decoding that tile gives those pixels.
pub encode-decode_nes_tile :
    (tile : Bytes) (p : List (List ℕ))
    → AreBytes tile
    → (encode_nes_tile (as_values p) ≡ ok tile) ↔ (decode_nes_tile tile ≡ ok p)
unfolding encode_nes_tile
encode-decode_nes_tile tile p bytes = (
  (λ h.
      let (u, e1, h1) =
        >>=-eq-ok
          (raise_if (not (length (as_values p) == 8) || not (all_of_eight (as_values p)))
            not_a_matrix)
          _ h in
      let (q, e2, h2) = >>=-eq-ok (matrix_values (as_values p)) _ h1 in
      let (height, widths) = ||-false _ _ (raise_if-ok _ _ e1) in
      let tall : length p ≡ 8 =
        sym (length-map p (λ row. map (λ n. nat n) row)) ∙ (==_iff _ _).0 (not-false _ height) in
      let (same, all) = matrix_values-ok p q (not-false _ widths) e2 in
      let rows = listed_eight p [] tall in
      let good : (y : ℕ) → y < 8 → (length (get_or p y []) ≡ 8) × All (λ n. n < 4) (get_or p y []) =
        (λ y lt. get_or-All _ p y (omega (arith, tall)) all) in
      let put : plane_bytes p ≡ tile = ap plane_bytes (sym same) ∙ ok_injective h2 in
      let back : decoded tile ≡ p =
        subst (λ t. decoded t ≡ p) put
          (subst (λ r. decoded (plane_bytes r) ≡ r) rows
            (decoded-plane_bytes (λ y. get_or p y []) good)) in
      decode_nes_tile-decoded tile (
        subst (λ t. length t ≡ 16) put
          (subst (λ r. length (plane_bytes r) ≡ 16) rows (sixteen (λ y. get_or p y []))))
      ∙ ap (λ l. ok l) back),
  (λ h.
      let size : length tile ≡ 16 = decode_nes_tile-ok tile h in
      let same : decoded tile ≡ p = ok_injective (sym (decode_nes_tile-decoded tile size) ∙ h) in
      let (widths, values) = matrix_values-values (decoded tile) (decoded-IsPixels tile) in
      subst (λ r. encode_nes_tile (as_values r) ≡ ok tile) same
        (encode_values (decoded tile) (eight_rows tile) widths values
          ∙ ap (λ t. ok t) (plane_bytes-decoded tile bytes size))),
)
