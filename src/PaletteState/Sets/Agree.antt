-- ===== src/PaletteState/Sets/Agree.antt =====
-- Equal images mean equal registers.
use nes2snes.Common.{
  ℕ, zero, suc, ◌+◌, ◌*◌, ◌/◌, ◌<◌, ◌≡◌, ◌↔◌, refl, sym, ap, ap₂, ◌∙◌, arith, bit_and, not, true,
  ◌||◌, ◌==◌, ◌-◌, ◌%◌, ==_iff, ||-false, subst, raise_if-ok,
}
use nes2snes.Common.{
  List, [], ◌∷◌, ◌++◌, map, All, All-append, All-take, All-drop, All-get_or, length, length-take,
  get_or, take, drop, bool,
}
use nes2snes.Common.{
  ok, raise_if, as_error, as_error-ok, >>=-eq-ok, ok_injective, Bytes, IsByte, AreBytes, to_bytes,
}
use nes2snes.Common.Bits.{bit_and_low}
use nes2snes.Common.Slices.{get_or-drop}
use nes2snes.Common.Text.{TextArgument, not_text}
use nes2snes.Dma.{exact_hex}
use nes2snes.Dma.Hex.{exact_hex_lem}
use nes2snes.OamState.Snapshot.{Decompressor, nestopia_oam}
use nes2snes.PaletteState.{state_bytes, decode, decode_mmc5}
use nes2snes.PaletteState.Sets.{
  refused, not_8x16, bad_registers, bad_oam, out_of_range, differs, first_eight, high_bits,
  banks_of, image_of, mapper_registers, has_absent_bits, words, Sets, decode_sets, NativeState,
  last_row, native_pair, pairs, in_ten_bits, row_agrees, native_registers,
}
use nes2snes.PaletteState.Sets.Sources.{
  saved_a, saved_b, native_a, native_b, twelve, high_bits_lem, map-same, banks_of_lem, IsLastRow,
  last_row-listed,
}
use nes2snes.PaletteState.Sets.Saved.{IsSaved, mapper_registers-IsSaved}
use nes2snes.PaletteState.Sets.Registers.{
  from_hex-AreBytes, mapper_registers-AreBytes, IsTenBits, high_bits-lt, banks_of-IsTenBits,
  All-map,
}

abbrev IsWord : ℕ → Type 0
IsWord v = v < 65536

-- A register of set A of the native run
abbrev native_bank : Bytes → ℕ → ℕ
native_bank cr i = get_or cr i 0 + 256 * high_bits (get_or cr (8 + i / 4) 0) i

-- The numbers that pairs of bytes stand for
unfoldable paired : Bytes → List ℕ
paired (low ∷ high ∷ rest) = (low + 256 * high) ∷ paired rest
paired _ = []

-- The registers of sets A and B of the native run
abbrev native_banks : Bytes → Bytes → List ℕ
native_banks b cr = map (native_bank cr) first_eight ++ paired (take 8 b)

word_pair :
    (low high : ℕ) → low < 256 → high < 256 → to_bytes 2 (low + 256 * high) ≡ low ∷ high ∷ []
word_pair low high h k = ap₂ (λ a b. a ∷ b ∷ []) (omega arith) (omega arith)

words-append : (xs ys : List ℕ) → words (xs ++ ys) ≡ words xs ++ words ys
unfolding words
words-append [] ys = refl
words-append (x ∷ xs) ys = ap (λ l. to_bytes 2 x ++ l) (words-append xs ys)

pairs-words :
    (cr : Bytes) (is : List ℕ) → AreBytes cr → pairs cr is ≡ words (map (native_bank cr) is)
unfolding words pairs native_pair
pairs-words cr [] are = refl
pairs-words cr (i ∷ rest) are =
    let low = get_or cr i 0 in
    let high = high_bits (get_or cr (8 + i / 4) 0) i in
    ap₂ (λ a b. a ++ b)
      (sym (
        word_pair low high (All-get_or IsByte cr i 0 (omega arith) are)
          (omega (arith, high_bits-lt (get_or cr (8 + i / 4) 0) i))))
      (pairs-words cr rest are)

words-paired : (n : ℕ) (bs : Bytes) → length bs ≡ 2 * n → AreBytes bs → bs ≡ words (paired bs)
unfolding words paired
words-paired n [] len are = refl
words-paired n (b ∷ []) len are = absurd (omega arith)
words-paired zero (low ∷ high ∷ rest) len are = absurd (omega arith)
words-paired (suc n) (low ∷ high ∷ rest) len (is_low, (is_high, are)) =
    ap₂ (λ a b. a ++ b) (sym (word_pair low high is_low is_high))
      (words-paired n rest (omega (arith, len)) are)

paired-All : (n : ℕ) (bs : Bytes) → length bs ≡ 2 * n → AreBytes bs → All IsWord (paired bs)
unfolding paired
paired-All n [] len are = tt
paired-All n (b ∷ []) len are = absurd (omega arith)
paired-All zero (low ∷ high ∷ rest) len are = absurd (omega arith)
paired-All (suc n) (low ∷ high ∷ rest) len (is_low, (is_high, are)) =
    (omega (arith, is_low, is_high), paired-All n rest (omega (arith, len)) are)

words_injective : (xs ys : List ℕ) → All IsWord xs → All IsWord ys → words xs ≡ words ys → xs ≡ ys
unfolding words
words_injective [] [] p q e = refl
words_injective [] (y ∷ ys) p q e = absurd (omega (arith, ap length e))
words_injective (x ∷ xs) [] p q e = absurd (omega (arith, ap length e))
words_injective (x ∷ xs) (y ∷ ys) (is_x, p) (is_y, q) e =
    let low = ap (λ l. get_or l 0 0) e in
    let high = ap (λ l. get_or l 1 0) e in
    ap₂ ◌∷◌ (omega (arith, low, high, is_x, is_y))
      (words_injective xs ys p q (ap (λ l. drop 2 l) e))

four_pairs :
    (b : Bytes)
    → length b ≡ 9
    → paired (take 8 b) ≡ native_b b 0 ∷ native_b b 1 ∷ native_b b 2 ∷ native_b b 3 ∷ []
unfolding paired
four_pairs (a ∷ b ∷ c ∷ d ∷ e ∷ f ∷ g ∷ h ∷ rest) len = refl
four_pairs bs len = absurd (omega (arith, len))

native_banks_lem :
    (b cr : Bytes) → length b ≡ 9 → native_banks b cr ≡ twelve (native_a cr) (native_b b)
native_banks_lem b cr len =
    ap₂ (λ (xs ys : List ℕ). xs ++ ys)
      (map-same (native_bank cr) (native_a cr) first_eight
        (λ i. ap (λ (n : ℕ). get_or cr i 0 + 256 * n) (high_bits_lem (get_or cr (8 + i / 4) 0) i)))
      (four_pairs b len)

exact_hex-AreBytes :
    (t : TextArgument) (size : ℕ) {raw : Bytes} → exact_hex t size ≡ ok raw → AreBytes raw
exact_hex-AreBytes t size h =
    let (l, is_text, found, len) = exact_hex_lem t size h in from_hex-AreBytes l found

-- The image of a saved state is made of its mapper's registers.
decode_sets-image :
    (decompress : Decompressor) (bytes : Bytes) {s : Sets}
    → decode_sets decompress (state_bytes bytes) ≡ ok s
    → (reg : Bytes) × (mapper_registers bytes ≡ ok reg)
      × (length reg ≡ 32)
      × (s.image ≡ image_of reg)
unfolding decode_sets
decode_sets-image decompress bytes h =
    let (state, e1, h1) =
      >>=-eq-ok (as_error refused (decode decompress (bool true) (state_bytes bytes))) _ h in
    let (mmc5, e2, h2) =
      >>=-eq-ok (as_error refused (decode_mmc5 decompress (bool true) (state_bytes bytes))) _ h1 in
    let (u3, e3, h3) =
      >>=-eq-ok (raise_if (not (bit_and (get_or state.ppu_state 0 0) 0xe0 == 0x20)) not_8x16) _
        h2 in
    let (reg, e4, h4) = >>=-eq-ok (mapper_registers bytes) _ h3 in
    let (u5, e5, h5) =
      >>=-eq-ok
        (raise_if (not (length reg == 32) || not (bit_and (get_or reg 22 0) 0x7c == 0))
          bad_registers)
        _ h4 in
    let ((oam, address, latch), e6, h6) =
      >>=-eq-ok (as_error refused (nestopia_oam decompress bytes)) _ h5 in
    let (u7, e7, h7) =
      >>=-eq-ok
        (raise_if (not (latch == get_or state.ppu_state 9 0) || has_absent_bits 0 oam) bad_oam) _
        h6 in
    let (long, spare) =
      ||-false (not (length reg == 32)) (not (bit_and (get_or reg 22 0) 0x7c == 0))
        (raise_if-ok _ bad_registers e5) in
    (
      reg,
      e4,
      (==_iff (length reg) 32).0 (ground (arith, long)),
      ap (λ (s : Sets). s.image) (sym (ok_injective h7)),
    )

-- What a native run's registers are, from the texts of set B and of the context.
abbrev NativeImage : NativeState → Bytes → Type 0
NativeImage state out =
    (b : Bytes) × (context : Bytes) × (row : Bytes) × (exact_hex state.chr_set_b 9 ≡ ok b)
    × (exact_hex state.ppu_chr_context 28 ≡ ok context)
    × IsLastRow state row
    × (out
        ≡ get_or row 0 0
          ∷ get_or (drop 16 context) 10 0
          ∷ get_or b 8 0
          ∷ words (native_banks b (drop 16 context)))

native_registers-NativeImage :
    (state : NativeState) {out : Bytes} → native_registers state ≡ ok out → NativeImage state out
unfolding native_registers
native_registers-NativeImage state h =
    let (b, e1, h1) = >>=-eq-ok (as_error refused (exact_hex state.chr_set_b 9)) _ h in
    let (context, e2, h2) =
      >>=-eq-ok (as_error refused (exact_hex state.ppu_chr_context 28)) _ h1 in
    let (t, e3, h3) = >>=-eq-ok (last_row state.chr_records state.completed_steps) _ h2 in
    let (row, e4, h4) = >>=-eq-ok (as_error refused (exact_hex t 48)) _ h3 in
    let (n, rows, counted, found_rows, some_step, few, is_row) =
      last_row-listed state.chr_records state.completed_steps e3 in
    let is_hex : exact_hex (get_or rows (n - 1) not_text) 48 ≡ ok row =
      ap (λ (x : TextArgument). exact_hex x 48) (sym is_row)
      ∙ as_error-ok refused (exact_hex t 48) e4 in
    let cr = drop 16 context in
    let (u5, e5, h5) = >>=-eq-ok (raise_if (not (in_ten_bits b cr row)) out_of_range) _ h4 in
    let (u6, e6, h6) = >>=-eq-ok (raise_if (not (row_agrees b cr row)) differs) _ h5 in
    let is_b = as_error-ok refused (exact_hex state.chr_set_b 9) e1 in
    let is_context = as_error-ok refused (exact_hex state.ppu_chr_context 28) e2 in
    let (l, is_text, found, len) = exact_hex_lem state.chr_set_b 9 is_b in
    let b_bytes = All-take IsByte 8 b (from_hex-AreBytes l found) in
    let cr_bytes =
      All-drop IsByte 16 context (exact_hex-AreBytes state.ppu_chr_context 28 is_context) in
    let eight_long : length (take 8 b) ≡ 2 * 4 = omega (arith, length-take 8 b, len) in
    let tail =
      ap₂ (λ (x y : Bytes). x ++ y) (pairs-words cr first_eight cr_bytes)
        (words-paired 4 (take 8 b) eight_long b_bytes)
      ∙ sym (words-append (map (native_bank cr) first_eight) (paired (take 8 b))) in
    (
      b,
      context,
      row,
      is_b,
      is_context,
      (n, rows, counted, found_rows, some_step, few, is_hex),
      sym (ok_injective h6)
          ∙ ap (λ (l : Bytes). get_or row 0 0 ∷ get_or cr 10 0 ∷ get_or b 8 0 ∷ l) tail,
    )

native_banks-All :
    (b cr : Bytes) → length b ≡ 9 → AreBytes b → AreBytes cr → All IsWord (native_banks b cr)
native_banks-All b cr len b_bytes cr_bytes =
    let bank_low : ((i : ℕ) → IsWord (native_bank cr i)) = (λ i. omega (
      arith,
      All-get_or IsByte cr i 0 (omega arith) cr_bytes,
      high_bits-lt (get_or cr (8 + i / 4) 0) i,
    )) in
    All-append IsWord (map (native_bank cr) first_eight) (paired (take 8 b))
      (All-map IsWord (native_bank cr) first_eight bank_low)
      (paired-All 4 (take 8 b) (omega (arith, length-take 8 b, len)) (All-take IsByte 8 b b_bytes))

words_of_ten : (xs : List ℕ) → All IsTenBits xs → All IsWord xs
words_of_ten [] h = tt
words_of_ten (x ∷ xs) (first, rest) = (omega (arith, first), words_of_ten xs rest)

-- A saved state and a native run that are both accepted: the mapper's bytes are those of the saved
-- chunk, 32 of them; the row is that of the last completed step; the twelve registers of the state have
-- ten bits each, and the two images are equal exactly when the mode of the mapper's bytes is the one of
-- the row, the two further fields are equal and all twelve registers are.
pub decode_sets-native_registers :
    (decompress : Decompressor) (bytes : Bytes) (state : NativeState) {s : Sets} {out : Bytes}
    → AreBytes bytes
    → decode_sets decompress (state_bytes bytes) ≡ ok s
    → native_registers state ≡ ok out
    → (reg : Bytes) × (b : Bytes) × (context : Bytes) × (row : Bytes) × IsSaved bytes reg
      × (length reg ≡ 32)
      × (exact_hex state.chr_set_b 9 ≡ ok b)
      × (exact_hex state.ppu_chr_context 28 ≡ ok context)
      × IsLastRow state row
      × All IsTenBits (twelve (saved_a reg) (saved_b reg))
      × ((s.image ≡ out) ↔ (
          (get_or reg 0 0 / 4 % 4 ≡ get_or row 0 0)
          × (get_or reg 22 0 % 4 ≡ get_or context 26 0)
          × (get_or reg 22 0 / 128 ≡ get_or b 8 0)
          × (twelve (saved_a reg) (saved_b reg)
              ≡ twelve (native_a (drop 16 context)) (native_b b))))
unfolding image_of
decode_sets-native_registers decompress bytes state are decoded native =
    let (reg, found, long, image) = decode_sets-image decompress bytes decoded in
    let (b, context, row, is_b, is_context, is_row, registers) =
      native_registers-NativeImage state native in
    let reg_bytes = mapper_registers-AreBytes bytes found are in
    let ten = banks_of-IsTenBits reg reg_bytes in
    let (l, is_text, text_found, len) = exact_hex_lem state.chr_set_b 9 is_b in
    let cr = drop 16 context in
    let native_low =
      native_banks-All b cr len (from_hex-AreBytes l text_found)
        (All-drop IsByte 16 context (exact_hex-AreBytes state.ppu_chr_context 28 is_context)) in
    let saved = banks_of_lem reg reg_bytes in
    let run = native_banks_lem b cr len in
    let at_26 = get_or-drop 16 context 10 26 0 refl in
    let mode_bits = bit_and_low 2 (get_or reg 0 0 / 4) in
    let field_bits = bit_and_low 2 (get_or reg 22 0) in
    (
      reg,
      b,
      context,
      row,
      mapper_registers-IsSaved bytes found (omega (arith, long)),
      long,
      is_b,
      is_context,
      is_row,
      subst (All IsTenBits) saved ten,
      (
        (λ same.
            let e = sym image ∙ same ∙ registers in
            (
              sym mode_bits ∙ ap (λ (l : Bytes). get_or l 0 0) e,
              sym field_bits ∙ ap (λ (l : Bytes). get_or l 1 0) e ∙ at_26,
              ap (λ (l : Bytes). get_or l 2 0) e,
              sym saved
                  ∙ words_injective (banks_of reg) (native_banks b cr)
                      (words_of_ten (banks_of reg) ten) native_low (ap (λ (l : Bytes). drop 3 l) e)
                  ∙ run,
            )),
        (λ (mode, further, flag, banks).
            let same_mode = mode_bits ∙ mode in
            let same_field = field_bits ∙ further ∙ sym at_26 in
            let same_banks = saved ∙ banks ∙ sym run in
            image
            ∙ (λ i. same_mode i ∷ same_field i ∷ flag i ∷ words (same_banks i))
            ∙ sym registers),
      ),
    )
