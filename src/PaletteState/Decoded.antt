-- ===== src/PaletteState/Decoded.antt =====
-- What a decoded state is: memories of their sizes, and registers of the profile.
use nes2snes.Common.{
  ||-false, ℕ, zero, suc, ◌/◌, ◌≤◌, ◌%◌, ◌≡◌, refl, ap, ◌∙◌, subst, arith, Bool, true, false, not,
  ◌||◌, bit_and, if◌then◌else◌,
}
use nes2snes.Common.{List, [], ◌∷◌, length, get_or, Bytes, slice, ==_iff, ltb→le, ◌==◌, ltb}
use nes2snes.Common.{ok, err, raise_if, raise_if-ok, raise_if-not-ok, >>=-eq-ok, ok_injective, bool}
use nes2snes.Common.Bits.{bit_and-le_right, bit_and_low}
use nes2snes.OamState.{Chunk}
use nes2snes.OamState.Snapshot.{
  StateError, wrong_size, missing_registers, outside_profile, bad_bits, bad_alias, bad_mapper,
  rendering_mode, unknown_compression, Decompressor, ppu_tag, reg_tag, chunk_of, chunks_of, nst_end,
  nst_body, inflate, unpack,
}
use nes2snes.PaletteState.{
  StateArgument, state_bytes, not_state_bytes, State, Mmc5State, register, has_bits, cpu_tag,
  pal_tag, ram_tag, nmt_tag, img_tag, mpr_tag, mm5_tag, check_profile, ppu_state, cpu_registers,
  has_aliases, colors, decode_chunks, decode, exram_mode, decode_mapper, decode_mmc5,
}

pub length-unpack :
    (decompress : Decompressor) (packed : Bytes) (size : ℕ) {memory : Bytes}
    → unpack decompress packed size ≡ ok memory
    → length memory ≡ size
unfolding unpack
length-unpack decompress [] size h = cc
length-unpack decompress (kind ∷ packed) size h =
    let (memory, e0, h0) =
      >>=-eq-ok
        (if kind == 0
          then ok packed
          else if kind == 1
          then inflate decompress packed size
          else err unknown_compression)
        _ h in
    let (u, e1, h1) = >>=-eq-ok (raise_if (not (length memory == size)) wrong_size) _ h0 in
    subst (λ (m : Bytes). length m ≡ size) (ok_injective h1)
      ((==_iff (length memory) size).0 (raise_if-not-ok (length memory == size) wrong_size e1))

length-colors : (p : Bytes) → length (colors p) ≡ length p
unfolding colors
length-colors [] = refl
length-colors (v ∷ rest) = ap suc (length-colors rest)

get_or-colors : (p : Bytes) (i : ℕ) → get_or (colors p) i 0 ≡ get_or p i 0 % 64
unfolding colors
get_or-colors [] i = omega arith
get_or-colors (v ∷ rest) zero = bit_and_low 6 v
get_or-colors (v ∷ rest) (suc i) = get_or-colors rest i

-- Rendering, interrupts and tall sprites (these without the gate) are off, and the write phase and
-- the scroll are within their bits.
pub record IsBlanked (sprite_16 : Bool) (ppu : Bytes) : Type 0 where
  pub sized : length ppu ≡ 10
  pub control : bit_and (get_or ppu 0 0) (if sprite_16 then 0xc0 else 0xe0) ≡ 0
  pub mask : bit_and (get_or ppu 1 0) 0x18 ≡ 0
  pub phase : get_or ppu 2 0 ≤ 1
  pub fine : get_or ppu 3 0 ≤ 7
  pub address : (bit_and (get_or ppu 5 0) 0x80 ≡ 0) × (bit_and (get_or ppu 7 0) 0x80 ≡ 0)

pub record IsState (sprite_16 : Bool) (s : State) : Type 0 where
  pub ram : length s.cpu_ram ≡ 2048
  pub ciram : length s.ciram ≡ 2048
  pub registers : length s.cpu_registers ≡ 7
  pub blanked : IsBlanked sprite_16 s.ppu_state
  pub storage : length s.palette_storage ≡ 32
  pub mirrored :
      (get_or s.palette_storage 0 0 ≡ get_or s.palette_storage 16 0)
      × (get_or s.palette_storage 4 0 ≡ get_or s.palette_storage 20 0)
      × (get_or s.palette_storage 8 0 ≡ get_or s.palette_storage 24 0)
      × (get_or s.palette_storage 12 0 ≡ get_or s.palette_storage 28 0)
  pub palette : length s.palette ≡ 32
  pub color : (i : ℕ) → get_or s.palette i 0 ≡ get_or s.palette_storage i 0 % 64

no_bits :
    (v mask : ℕ) (rest : Bool) (e : StateError) {u : Unit {0}}
    → raise_if (has_bits v mask || rest) e ≡ ok u
    → (bit_and v mask ≡ 0) × (rest ≡ false)
no_bits v mask true e h = absurd (ground (arith, h))
no_bits v mask false e h = (ground (arith, h), refl)

no_more_bits : (v mask : ℕ) → has_bits v mask ≡ false → bit_and v mask ≡ 0
no_more_bits v mask h = ground (arith, h)

low_bit : (v : ℕ) → bit_and v 1 ≤ 1
low_bit v = bit_and-le_right 1 v 1 (omega arith)

low_bits : (v : ℕ) → bit_and v 7 ≤ 7
low_bits v = bit_and-le_right 3 v 7 (omega arith)

ppu_state-IsBlanked :
    (sprite_16 : Bool) (reg : Bytes) {u : Unit {0}}
    → check_profile sprite_16 reg ≡ ok u
    → IsBlanked sprite_16 (ppu_state reg)
unfolding check_profile ppu_state
ppu_state-IsBlanked sprite_16 reg h =
    let mask : ℕ = if sprite_16 then 0xc0 else 0xe0 in
    let (u0, e0, h0) =
      >>=-eq-ok
        (raise_if (has_bits (register reg 0) mask || has_bits (register reg 1) 0x18)
          outside_profile)
        _ h in
    let (control, rendering) =
      no_bits (register reg 0) mask (has_bits (register reg 1) 0x18) outside_profile e0 in
    let (address, more) =
      no_bits (register reg 4) 0x80
        (has_bits (register reg 6) 0x80 || has_bits (register reg 7) 0xf0) bad_bits h0 in
    let (scroll, write_phase) =
      ||-false (has_bits (register reg 6) 0x80) (has_bits (register reg 7) 0xf0) more in
    record {
      sized = refl;
      control = control;
      mask = no_more_bits (register reg 1) 0x18 rendering;
      phase = low_bit (register reg 7 / 8);
      fine = low_bits (register reg 7);
      address = (no_more_bits (register reg 6) 0x80 scroll, address);
    }

decode_chunks-IsState :
    (decompress : Decompressor) (sprite_16 : Bool) (ppu cpu : List Chunk) {s : State}
    → decode_chunks decompress sprite_16 ppu cpu ≡ ok s
    → IsState sprite_16 s
unfolding decode_chunks has_aliases cpu_registers
decode_chunks-IsState decompress sprite_16 ppu cpu h =
    let reg = chunk_of reg_tag ppu in
    let cr = chunk_of reg_tag cpu in
    let (u0, e0, h0) =
      >>=-eq-ok (raise_if (not (length reg == 11) || not (length cr == 7)) missing_registers) _ h in
    let (u1, e1, h1) = >>=-eq-ok (check_profile sprite_16 reg) _ h0 in
    let (p, e2, h2) = >>=-eq-ok (unpack decompress (chunk_of pal_tag ppu) 32) _ h1 in
    let (u3, e3, h3) = >>=-eq-ok (raise_if (not (has_aliases p)) bad_alias) _ h2 in
    let (ram, e4, h4) = >>=-eq-ok (unpack decompress (chunk_of ram_tag cpu) 2048) _ h3 in
    let (ciram, e5, h5) = >>=-eq-ok (unpack decompress (chunk_of nmt_tag ppu) 2048) _ h4 in
    let size = length-unpack decompress (chunk_of pal_tag ppu) 32 e2 in
    subst (IsState sprite_16) (ok_injective h5) (record {
      ram = length-unpack decompress (chunk_of ram_tag cpu) 2048 e4;
      ciram = length-unpack decompress (chunk_of nmt_tag ppu) 2048 e5;
      registers = refl;
      blanked = ppu_state-IsBlanked sprite_16 reg e1;
      storage = size;
      mirrored = aliases p (raise_if-not-ok (has_aliases p) bad_alias e3);
      palette = length-colors p ∙ size;
      color = get_or-colors p;
    })
  where
    aliases :
        (p : Bytes)
        → has_aliases p ≡ true
        → (get_or p 0 0 ≡ get_or p 16 0)
          × (get_or p 4 0 ≡ get_or p 20 0)
          × (get_or p 8 0 ≡ get_or p 24 0)
          × (get_or p 12 0 ≡ get_or p 28 0)
    aliases p h = (ground (arith, h), ground (arith, h), ground (arith, h), ground (arith, h))

-- A state that is decoded has memories of their sizes, registers of the blanked profile, four
-- mirrored palette entries that agree with their mirrors, and the colors of the low six bits.
pub decode-IsState :
    (decompress : Decompressor) (sprite_16 : Bool) (argument : StateArgument) (s : State)
    → decode decompress (bool sprite_16) argument ≡ ok s
    → IsState sprite_16 s
unfolding decode
decode-IsState decompress sprite_16 not_state_bytes s h = cc
decode-IsState decompress sprite_16 (state_bytes bytes) s h =
    let (body, e0, h0) = >>=-eq-ok (nst_body bytes) _ h in
    let (root, e1, h1) = >>=-eq-ok (chunks_of body) _ h0 in
    let (ppu, e2, h2) = >>=-eq-ok (chunks_of (chunk_of ppu_tag root)) _ h1 in
    let (cpu, e3, h3) = >>=-eq-ok (chunks_of (chunk_of cpu_tag root)) _ h2 in
    decode_chunks-IsState decompress sprite_16 ppu cpu h3

-- The fields of the mapper: an extended RAM of its size in a mode that does not render.
pub record IsMmc5State (m : Mmc5State) : Type 0 where
  pub registers : length m.nametable_registers ≡ 4
  pub mode : (2 ≤ get_or m.nametable_registers 0 0) × (get_or m.nametable_registers 0 0 ≤ 3)
  pub fill : get_or m.nametable_registers 3 0 ≤ 3
  pub exram : length m.exram ≡ 1024

decode_mapper-IsMmc5State :
    (decompress : Decompressor) (bytes : Bytes) {m : Mmc5State}
    → decode_mapper decompress bytes ≡ ok m
    → IsMmc5State m
unfolding decode_mapper
decode_mapper-IsMmc5State decompress bytes h =
    let (root, e0, h0) = >>=-eq-ok (chunks_of (slice bytes 8 (nst_end bytes))) _ h in
    let (image, e1, h1) = >>=-eq-ok (chunks_of (chunk_of img_tag root)) _ h0 in
    let (mapper, e2, h2) = >>=-eq-ok (chunks_of (chunk_of mpr_tag image)) _ h1 in
    let (mmc5, e3, h3) = >>=-eq-ok (chunks_of (chunk_of mm5_tag mapper)) _ h2 in
    let reg : Bytes = chunk_of reg_tag mmc5 in
    let (u4, e4, h4) =
      >>=-eq-ok (raise_if (not (length reg == 32) || has_bits (register reg 0) 0xc0) bad_mapper) _
        h3 in
    let (u5, e5, h5) = >>=-eq-ok (raise_if (ltb (exram_mode reg) 2) rendering_mode) _ h4 in
    let (exram, e6, h6) = >>=-eq-ok (unpack decompress (chunk_of ram_tag mmc5) 1024) _ h5 in
    subst IsMmc5State (ok_injective h6) (record {
      registers = refl;
      mode = (
        ltb→le (exram_mode reg) 2 (raise_if-ok (ltb (exram_mode reg) 2) rendering_mode e5),
        two_bits (register reg 0 / 16),
      );
      fill = two_bits (register reg 24);
      exram = length-unpack decompress (chunk_of ram_tag mmc5) 1024 e6;
    })
  where
    two_bits : (v : ℕ) → bit_and v 3 ≤ 3
    two_bits v = bit_and-le_right 2 v 3 (omega arith)

-- What `decode_mmc5` answers with comes from a state that `decode` accepts.
pub decode_mmc5-IsState :
    (decompress : Decompressor) (sprite_16 : Bool) (argument : StateArgument) (m : Mmc5State)
    → decode_mmc5 decompress (bool sprite_16) argument ≡ ok m
    → (s : State) × (decode decompress (bool sprite_16) argument ≡ ok s)
      × IsState sprite_16 s
      × IsMmc5State m
unfolding decode_mmc5
decode_mmc5-IsState decompress sprite_16 not_state_bytes m h = cc
decode_mmc5-IsState decompress sprite_16 (state_bytes bytes) m h =
    let (s, e0, h0) = >>=-eq-ok (decode decompress (bool sprite_16) (state_bytes bytes)) _ h in
    (
      s,
      e0,
      decode-IsState decompress sprite_16 (state_bytes bytes) s e0,
      decode_mapper-IsMmc5State decompress bytes h0,
    )
