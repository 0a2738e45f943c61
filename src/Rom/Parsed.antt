-- ===== src/Rom/Parsed.antt =====
-- Parsing a cartridge cuts it into its parts, and accepts the files that hold what they declare.
use nes2snes.Common.{
  ℕ, ◌+◌, ◌≤◌, ◌<◌, ◌≡◌, ◌↔◌, ◌⊎◌, inl, inr, refl, sym, ap, ◌∙◌, subst, arith, true, not, ◌||◌, ltb,
  ◌==◌,
}
use nes2snes.Common.{
  ◌++◌, length, take, drop, take-append-drop, length-take, length-drop, drop-drop, Bytes, bytes_eq,
  bytes_eq-same, bytes_eq_refl, bit_and,
}
use nes2snes.Common.{ok, raise_if, >>=-eq-ok, ok_injective, le→ltb, ne→==, ==_iff, Bool-cases}
use nes2snes.Common.Slices.{take-append_eq, drop-append_eq}
use nes2snes.Rom.{
  Rom, not_nes, archaic, no_prg, truncated, magic, header_byte, is_nes2, mapper_of, submapper_of,
  prg_size, chr_size, trainer_size, part, parse, prg_offset,
}

-- What the header of a cartridge file declares, and that the file holds it.
pub record IsCartridge (raw : Bytes) : Type 0 where
  pub named : take 4 raw ≡ magic
  pub variant : (bit_and (header_byte raw 7) 12 ≡ 0) ⊎ (bit_and (header_byte raw 7) 12 ≡ 8)
  pub some_prg : 0 < prg_size raw
  pub whole : 16 + trainer_size raw + prg_size raw + chr_size raw ≤ length raw

-- The parts of a parsed cartridge, of the sizes that its header declares, one after another.
pub record IsCut (raw : Bytes) (r : Rom) : Type 0 where
  pub same : r.raw ≡ raw
  pub parts : raw ≡ r.header ++ (r.trainer ++ (r.prg ++ (r.chr ++ r.trailing)))
  pub header : length r.header ≡ 16
  pub trainer : length r.trainer ≡ trainer_size raw
  pub prg : length r.prg ≡ prg_size raw
  pub chr : length r.chr ≡ chr_size raw
  pub place : drop (prg_offset r) raw ≡ r.prg ++ (r.chr ++ r.trailing)
  pub numbers :
      (r.mapper ≡ mapper_of raw) × (r.submapper ≡ submapper_of raw) × (r.nes2 ≡ is_nes2 raw)

-- The rest of the file from a part's end.
cut :
    (raw : Bytes) (start size end : ℕ)
    → end ≡ start + size
    → drop start raw ≡ part raw start size ++ drop end raw
cut raw start size end e =
    sym (take-append-drop size (drop start raw))
    ∙ ap (λ (t : Bytes). part raw start size ++ t)
        (drop-drop start size raw ∙ ap (λ (k : ℕ). drop k raw) (sym e))

length-part :
    (raw : Bytes) (start size : ℕ) → start + size ≤ length raw → length (part raw start size) ≡ size
length-part raw start size fits =
    omega (arith, length-take size (drop start raw), length-drop start raw)

abbrev cartridge : Bytes → Rom
cartridge raw = record {
  raw = raw;
  header = take 16 raw;
  trainer = part raw 16 (trainer_size raw);
  prg = part raw (16 + trainer_size raw) (prg_size raw);
  chr = part raw (16 + trainer_size raw + prg_size raw) (chr_size raw);
  trailing = drop (16 + trainer_size raw + prg_size raw + chr_size raw) raw;
  mapper = mapper_of raw;
  submapper = submapper_of raw;
  nes2 = is_nes2 raw;
}

after_trainer :
    (raw : Bytes) (t p c : ℕ)
    → drop (16 + t) raw
      ≡ part raw (16 + t) p ++ (part raw (16 + t + p) c ++ drop (16 + t + p + c) raw)
after_trainer raw t p c =
    cut raw (16 + t) p (16 + t + p) refl
    ∙ ap (λ (u : Bytes). part raw (16 + t) p ++ u) (cut raw (16 + t + p) c (16 + t + p + c) refl)

cartridge-IsCut :
    (raw : Bytes)
    → 16 + trainer_size raw + prg_size raw + chr_size raw ≤ length raw
    → IsCut raw (cartridge raw)
unfolding prg_offset
cartridge-IsCut raw fits =
    let t = trainer_size raw in
    let p = prg_size raw in
    let c = chr_size raw in
    let trainer : length (part raw 16 t) ≡ t = length-part raw 16 t (omega (arith, fits)) in
    record {
      same = refl;
      parts =
          sym (take-append-drop 16 raw)
          ∙ ap (λ (u : Bytes). take 16 raw ++ u)
              (cut raw 16 t (16 + t) refl
                ∙ ap (λ (u : Bytes). part raw 16 t ++ u) (after_trainer raw t p c));
      header = omega (arith, length-take 16 raw, fits);
      trainer = trainer;
      prg = length-part raw (16 + t) p (omega (arith, fits));
      chr = length-part raw (16 + t + p) c (omega (arith, fits));
      place = ap (λ (k : ℕ). drop (16 + k) raw) trainer ∙ after_trainer raw t p c;
      numbers = (refl, refl, refl);
    }

parse-cartridge : (raw : Bytes) → IsCartridge raw → parse raw ≡ ok (cartridge raw)
unfolding parse
parse-cartridge raw k =
    rw
      (
        le→ltb (length raw) 16 (omega (arith, k.whole)),
        k.named,
        bytes_eq_refl magic,
        admitted (bit_and (header_byte raw 7) 12) k.variant,
        ne→== (prg_size raw) 0 (λ e. omega (arith, e, k.some_prg)),
        le→ltb (length raw) (16 + trainer_size raw + prg_size raw + chr_size raw) k.whole,
      )
      refl
  where
    admitted : (n : ℕ) → (n ≡ 0) ⊎ (n ≡ 8) → n == 0 || n == 8 ≡ true
    admitted n (inl e) = rw e refl
    admitted n (inr e) = rw e refl

variants :
    (n : ℕ) {u : Unit {0}} → raise_if (not (n == 0 || n == 8)) archaic ≡ ok u → (n ≡ 0) ⊎ (n ≡ 8)
variants n h = elim (Bool-cases (n == 0)) [
  | inl e ↦ inl ((==_iff n 0).0 e)
  | inr e ↦ inr (ground (arith, h, e))
]

cartridge_of : (raw : Bytes) {r : Rom} → parse raw ≡ ok r → IsCartridge raw × (cartridge raw ≡ r)
unfolding parse
cartridge_of raw h =
    let (u0, e0, h0) =
      >>=-eq-ok (raise_if (ltb (length raw) 16 || not (bytes_eq (take 4 raw) magic)) not_nes) _ h in
    let (u1, e1, h1) =
      >>=-eq-ok (raise_if (not (bit_and (header_byte raw 7) 12 == 0 || is_nes2 raw)) archaic) _
        h0 in
    let (u2, e2, h2) = >>=-eq-ok (raise_if (prg_size raw == 0) no_prg) _ h1 in
    let (u3, e3, h3) =
      >>=-eq-ok
        (raise_if (ltb (length raw) (16 + trainer_size raw + prg_size raw + chr_size raw))
          truncated)
        _ h2 in
    (
      record {
        named = bytes_eq-same (take 4 raw) magic (ground (arith, e0));
        variant = variants (bit_and (header_byte raw 7) 12) e1;
        some_prg = ground (arith, e2);
        whole = ground (arith, e3);
      },
      ok_injective h3,
    )

split :
    (xs ys raw : Bytes) (n : ℕ)
    → raw ≡ xs ++ ys
    → length xs ≡ n
    → (xs ≡ take n raw) × (ys ≡ drop n raw)
split xs ys raw n e size = (
  sym (ap (λ (t : Bytes). take n t) e ∙ take-append_eq n xs ys size),
  sym (ap (λ (t : Bytes). drop n t) e ∙ drop-append_eq n xs ys size),
)

-- A part that starts where the parts before it end.
next_part :
    (xs ys raw : Bytes) (start n : ℕ)
    → drop start raw ≡ xs ++ ys
    → length xs ≡ n
    → (xs ≡ part raw start n) × (drop (start + n) raw ≡ ys)
next_part xs ys raw start n e size =
    let (first, rest) = split xs ys (drop start raw) n e size in
    (first, sym (rest ∙ drop-drop start n raw))

IsCut-cartridge : (raw : Bytes) (r : Rom) → IsCut raw r → cartridge raw ≡ r
IsCut-cartridge raw r k =
    let (header, rest) = split r.header _ raw 16 k.parts k.header in
    let (trainer, e1) = next_part r.trainer _ raw 16 (trainer_size raw) (sym rest) k.trainer in
    let (prg, e2) = next_part r.prg _ raw (16 + trainer_size raw) (prg_size raw) e1 k.prg in
    let (chr, e3) =
      next_part r.chr r.trailing raw (16 + trainer_size raw + prg_size raw) (chr_size raw) e2
        k.chr in
    λ j. record {
      raw = sym k.same j;
      header = sym header j;
      trainer = sym trainer j;
      prg = sym prg j;
      chr = sym chr j;
      trailing = e3 j;
      mapper = sym k.numbers.0 j;
      submapper = sym k.numbers.1 j;
      nes2 = sym k.numbers.2 j;
    }

-- Parsing answers with `r` exactly when the file starts with the magic bytes, is of a known variant,
-- declares some PRG and holds all that it declares, and `r` has the parts of the declared sizes,
-- which after one another are the file, with the PRG where `prg_offset` says.
pub parse_iff : (raw : Bytes) (r : Rom) → (parse raw ≡ ok r) ↔ (IsCartridge raw × IsCut raw r)
parse_iff raw r = (
  (λ h.
      let (is_cartridge, same) = cartridge_of raw h in
      (is_cartridge, subst (IsCut raw) same (cartridge-IsCut raw is_cartridge.whole))),
  (λ k. parse-cartridge raw k.0 ∙ ap ok (IsCut-cartridge raw r k.1)),
)
