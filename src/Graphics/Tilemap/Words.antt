-- ===== src/Graphics/Tilemap/Words.antt =====
-- The words of a tilemap: their places, and fields that do not meet.
use nes2snes.Common.{
  ℕ, zero, suc, ◌+◌, ◌-◌, ◌*◌, ◌/◌, ◌%◌, ◌^◌, ◌≤◌, ◌<◌, ◌≡◌, refl, ap, ap₂, ◌∙◌, arith, Bool,
  Bool-cases, inl, inr, true, false, bit_and, bit_or, if◌then◌else◌,
}
use nes2snes.Common.{
  [], ◌∷◌, length, length-append, length-to_bytes, get_or, ltb, ◌==◌, le→leb, Bytes, AreBytes,
  to_bytes, from_bytes-to_bytes,
}
use nes2snes.Common.{ok, ==_iff, all_below, all_below→true, pos}
use nes2snes.Common.Slices.{get_or-append_left, get_or-append_right}
use nes2snes.Common.Bits.{bit_or_add, bit_or_comm, bit_and_low}
use nes2snes.Graphics.Tilemap.{
  check_offset, attribute, tile_word, word, columns, rows, nametable_to_snes,
}

length-columns : (count : ℕ) (words : ℕ → ℕ) (x : ℕ) → length (columns count words x) ≡ count * 2
unfolding columns
length-columns zero words x = omega arith
length-columns (suc count) words x = omega (
  arith,
  length-append (to_bytes 2 (words x)) (columns count words (x + 1)),
  length-columns count words (x + 1),
  length-to_bytes 2 (words x),
)

length-rows : (count : ℕ) (words : ℕ → ℕ → ℕ) (y : ℕ) → length (rows count words y) ≡ count * 64
unfolding rows
length-rows zero words y = omega arith
length-rows (suc count) words y = omega (
  arith,
  length-append (columns 32 (words y) 0) (rows count words (y + 1)),
  length-rows count words (y + 1),
  length-columns 32 (words y) 0,
)

get_or-columns :
    (count : ℕ) (words : ℕ → ℕ) (x k j i : ℕ)
    → k < count
    → j < 2
    → i ≡ k * 2 + j
    → get_or (columns count words x) i 0 ≡ get_or (to_bytes 2 (words (x + k))) j 0
unfolding columns
get_or-columns zero words x k j i h small e = absurd (omega (arith, h))
get_or-columns (suc count) words x zero j i h small e =
    get_or-append_left (to_bytes 2 (words x)) (columns count words (x + 1)) i 0
      (omega (arith, e, small, length-to_bytes 2 (words x)))
    ∙ ap₂ (λ (n m : ℕ). get_or (to_bytes 2 (words n)) m 0) (omega arith) (omega (arith, e))
get_or-columns (suc count) words x (suc k) j i h small e =
    get_or-append_right (to_bytes 2 (words x)) (columns count words (x + 1)) i (i - 2) 0
      (omega (arith, e, length-to_bytes 2 (words x)))
    ∙ get_or-columns count words (x + 1) k j (i - 2) (omega (arith, h)) small (omega (arith, e))
    ∙ ap (λ (n : ℕ). get_or (to_bytes 2 (words n)) j 0) (omega arith)

get_or-rows :
    (count : ℕ) (words : ℕ → ℕ → ℕ) (y k j i : ℕ)
    → k < count
    → j < 64
    → i ≡ k * 64 + j
    → get_or (rows count words y) i 0 ≡ get_or (columns 32 (words (y + k)) 0) j 0
unfolding rows
get_or-rows zero words y k j i h small e = absurd (omega (arith, h))
get_or-rows (suc count) words y zero j i h small e =
    get_or-append_left (columns 32 (words y) 0) (rows count words (y + 1)) i 0
      (omega (arith, e, small, length-columns 32 (words y) 0))
    ∙ ap₂ (λ (n m : ℕ). get_or (columns 32 (words n) 0) m 0) {x = y} {y = y + 0} {u = i} {v = j}
        (omega arith) (omega (arith, e))
get_or-rows (suc count) words y (suc k) j i h small e =
    get_or-append_right (columns 32 (words y) 0) (rows count words (y + 1)) i (i - 64) 0
      (omega (arith, e, length-columns 32 (words y) 0))
    ∙ get_or-rows count words (y + 1) k j (i - 64) (omega (arith, h)) small (omega (arith, e))
    ∙ ap (λ (n : ℕ). get_or (columns 32 (words n) 0) j 0) (omega arith)

-- The byte of a place in the whole map.
get_or-map :
    (words : ℕ → ℕ → ℕ) (y x j i : ℕ)
    → y < 32
    → x < 32
    → j < 2
    → i ≡ (y * 32 + x) * 2 + j
    → get_or (rows 32 words 0) i 0 ≡ get_or (to_bytes 2 (words y x)) j 0
get_or-map words y x j i hy hx small e =
    get_or-rows 32 words 0 y (x * 2 + j) i hy (omega (arith, hx, small)) (omega (arith, e))
    ∙ get_or-columns 32 (words (0 + y)) 0 x j (x * 2 + j) hx small refl
    ∙ ap₂ (λ (n m : ℕ). get_or (to_bytes 2 (words n m)) j 0) (omega arith) (omega arith)

-- The byte and the two bits that the format has for a tile.
abbrev pub palette_bits : Bytes → ℕ → ℕ → ℕ
palette_bits nametable y x =
    get_or nametable (960 + y / 4 * 8 + x / 4) 0 / 2 ^ (y / 2 % 2 * 4 + x / 2 % 2 * 2) % 4

second_bit : (v : ℕ) → v < 32 → bit_and v 2 ≡ v / 2 % 2 * 2
unfolding all_below
second_bit v h =
    (==_iff (bit_and v 2) (v / 2 % 2 * 2)).0
      (all_below→true 32 (λ i. bit_and i 2 == i / 2 % 2 * 2) v refl h)

shift_of : (step v : ℕ) → v < 32 → (if bit_and v 2 == 0 then 0 else step) ≡ v / 2 % 2 * step
shift_of step v h =
    let same = second_bit v h in
    elim (Bool-cases (bit_and v 2 == 0)) [
      | inl e ↦
          let off : 0 ≡ v / 2 % 2 = ground (arith, e, same) in
          let none_left : 0 ≡ 0 * step = omega arith in
          rw e (none_left ∙ ap (λ (n : ℕ). n * step) off)
      | inr e ↦
          let on : 1 ≡ v / 2 % 2 = ground (arith, e, same) in
          let once : step ≡ 1 * step = omega arith in rw e (once ∙ ap (λ (n : ℕ). n * step) on)
    ]

attribute-bits :
    (nametable : Bytes) (y x : ℕ)
    → y < 32
    → x < 32
    → attribute nametable y x ≡ palette_bits nametable y x
unfolding attribute
attribute-bits nametable y x hy hx =
    bit_and_low 2 _
    ∙ ap₂ (λ (m n : ℕ). get_or nametable (960 + y / 4 * 8 + x / 4) 0 / 2 ^ (m + n) % 4)
        (shift_of 4 y hy) (shift_of 2 x hx)

join : (low palette : ℕ) → low < 1024 → bit_or low (palette * 1024) ≡ palette * 1024 + low
join low palette h = bit_or_comm low (palette * 1024) ∙ bit_or_add 10 palette low h

raised : (w : ℕ) → w < 8192 → bit_or w 0x2000 ≡ 8192 + w
raised w h = bit_or_comm w 0x2000 ∙ bit_or_add 13 1 w h

word_sum :
    (low palette : ℕ) (priority : Bool)
    → low < 1024
    → palette < 8
    → (if priority
        then bit_or (bit_or low (palette * 1024)) 0x2000
        else bit_or low (palette * 1024))
      ≡ (if priority then 8192 else 0) + (palette * 1024 + low)
word_sum low palette true hl hp =
    ap (λ (w : ℕ). bit_or w 0x2000) (join low palette hl)
    ∙ raised (palette * 1024 + low) (omega (arith, hl, hp))
word_sum low palette false hl hp = join low palette hl ∙ omega arith

-- The word of a place as the sum of its fields: priority, palette and tile.
abbrev pub fields : Bytes → ℕ → ℕ → Bool → ℕ → ℕ → ℕ
fields nametable t p priority y x =
    if ltb y 30
    then (if priority then 8192 else 0)
      + ((palette_bits nametable y x + p) * 1024 + (get_or nametable (y * 32 + x) 0 + t))
    else 0

byte-get_or : (bytes : Bytes) (i : ℕ) → AreBytes bytes → get_or bytes i 0 < 256
byte-get_or [] i h = omega arith
byte-get_or (b ∷ rest) zero h = h.0
byte-get_or (b ∷ rest) (suc i) h = byte-get_or rest i h.1

module _ (nametable : Bytes) (t p : ℕ) (priority : Bool) (bytes : AreBytes nametable) (ht : t ≤ 768)
    (hp : p ≤ 4) where
  word-fields :
      (y x : ℕ)
      → y < 32
      → x < 32
      → (word nametable t p priority y x ≡ fields nametable t p priority y x)
        × (fields nametable t p priority y x < 16384)
  unfolding word tile_word
  word-fields y x hy hx =
      let byte = byte-get_or nametable (y * 32 + x) bytes in
      let two : palette_bits nametable y x < 4 = omega arith in
      let same = attribute-bits nametable y x hy hx in
      elim (Bool-cases (ltb y 30)) [
        | inr e ↦ (rw e refl, rw e (omega arith))
        | inl e ↦ (
          rw (e, tile_word, same)
              (word_sum (get_or nametable (y * 32 + x) 0 + t) (palette_bits nametable y x + p)
                priority (omega (arith, byte, ht)) (omega (arith, two, hp))),
          rw e (
              small (palette_bits nametable y x) (get_or nametable (y * 32 + x) 0) priority two
                byte),
        )
      ]
    where
      small :
          (a b : ℕ) (q : Bool)
          → a < 4
          → b < 256
          → (if q then 8192 else 0) + ((a + p) * 1024 + (b + t)) < 16384
      small a b true ha hb = omega (arith, ha, hb, ht, hp)
      small a b false ha hb = omega (arith, ha, hb, ht, hp)

-- The little-endian word at an index.
abbrev pub word_at : Bytes → ℕ → ℕ
word_at out i = get_or out (i * 2) 0 + 256 * get_or out (i * 2 + 1) 0

two_bytes : (n : ℕ) → n < 16384 → get_or (to_bytes 2 n) 0 0 + 256 * get_or (to_bytes 2 n) 1 0 ≡ n
two_bytes n h = omega (arith, from_bytes-to_bytes 2 n (omega (arith, h)))

-- For a nametable of 1,024 bytes and offsets in range the map has 32 rows of 32 words: in the first
-- thirty rows the tile's number with its offset, the two attribute bits of its quadrant with their
-- offset from bit 10, and the priority at bit 13, which do not meet; in the last two rows zero.
pub nametable_to_snes-fields :
    (nametable : Bytes) (t p : ℕ) (priority : Bool)
    → AreBytes nametable
    → length nametable ≡ 1024
    → t ≤ 768
    → p ≤ 4
    → (out : Bytes) × (nametable_to_snes nametable (pos t) (pos p) priority ≡ ok out)
      × (length out ≡ 2048)
      × ((y x : ℕ) → y < 32 → x < 32 → word_at out (y * 32 + x) ≡ fields nametable t p priority y x)
unfolding nametable_to_snes check_offset
nametable_to_snes-fields nametable t p priority bytes size ht hp =
    let words = word nametable t p priority in
    (
      rows 32 words 0,
      rw (size, le→leb t 768 ht, le→leb p 4 hp) refl,
      length-rows 32 words 0,
      λ y x hy hx.
          let (same, small) = word-fields nametable t p priority bytes ht hp y x hy hx in
          ap₂ (λ (a b : ℕ). a + 256 * b)
            (get_or-map words y x 0 ((y * 32 + x) * 2) hy hx (omega arith) (omega arith))
            (get_or-map words y x 1 ((y * 32 + x) * 2 + 1) hy hx (omega arith) refl)
          ∙ ap (λ (n : ℕ). get_or (to_bytes 2 n) 0 0 + 256 * get_or (to_bytes 2 n) 1 0) same
          ∙ two_bytes (fields nametable t p priority y x) small,
    )
