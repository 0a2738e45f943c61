-- ===== src/Timeline/Chain.antt =====
-- The gates of a profile: each opens only together with the one below it.
use nes2snes.Common.{inl, inr, ◌⊎◌, Bool, true, false, ◌≡◌, refl, sym, arith, Option, none, List, ℕ}
use nes2snes.Common.{ok, >>=-eq-ok, ok_injective, Value, bool, int, other, subst}
use nes2snes.Timeline.Allowed.{Gates, GateArguments}
use nes2snes.Timeline.Decode.{
  TargetsArgument, default_targets, target_set, not_a_set, truthy, check_gate, check_targets,
  check_gates,
}

check_gate-ok :
    (gate below : Value) {b : Bool}
    → check_gate gate below ≡ ok b
    → (gate ≡ bool b) × (b ≡ true → truthy below ≡ true)
unfolding check_gate
check_gate-ok (int z) below h = cc
check_gate-ok other below h = cc
check_gate-ok (bool true) below h = ground arith
check_gate-ok (bool false) below h = ground arith

check_targets-ok :
    (mapper : Bool) (ts : TargetsArgument) {t : Option (List ℕ)}
    → check_targets mapper ts ≡ ok t
    → (mapper ≡ true) ⊎ ((ts ≡ default_targets) × (t ≡ none))
unfolding check_targets
check_targets-ok true ts h = inl refl
check_targets-ok false default_targets h = inr (refl, sym (ok_injective h))
check_targets-ok false (target_set values) h = cc
check_targets-ok false not_a_set h = cc

-- The keyword arguments of the given gates.
abbrev pub as_arguments : Gates → GateArguments
as_arguments g = record {
  ram = bool g.ram;
  rom = bool g.rom;
  mapper = bool g.mapper;
  cartridge_ram = bool g.cartridge_ram;
  cpu_io = bool g.cpu_io;
  ppu_blank = bool g.ppu_blank;
  chr_blank = bool g.chr_blank;
}

-- Each profile of the timeline contains the one before it.
pub record IsChain (g : Gates) : Type 0 where
  pub chr_ppu : g.chr_blank ≡ true → g.ppu_blank ≡ true
  pub ppu_cpu : g.ppu_blank ≡ true → g.cpu_io ≡ true
  pub cpu_cartridge : g.cpu_io ≡ true → g.cartridge_ram ≡ true
  pub cartridge_mapper : g.cartridge_ram ≡ true → g.mapper ≡ true
  pub mapper_rom : g.mapper ≡ true → g.rom ≡ true
  pub rom_ram : g.rom ≡ true → g.ram ≡ true

GateOk : Value → Value → Bool → Type 0
GateOk gate below b = (gate ≡ bool b) × (b ≡ true → truthy below ≡ true)

chained :
    (gs : GateArguments) (ts : TargetsArgument)
    (chr_blank ppu_blank cpu_io cartridge_ram mapper ram rom : Bool) (t : Option (List ℕ))
    → GateOk gs.chr_blank gs.ppu_blank chr_blank
    → GateOk gs.ppu_blank gs.cpu_io ppu_blank
    → GateOk gs.cpu_io gs.cartridge_ram cpu_io
    → GateOk gs.cartridge_ram gs.mapper cartridge_ram
    → GateOk gs.mapper gs.rom mapper
    → GateOk gs.ram (bool true) ram
    → GateOk gs.rom gs.ram rom
    → (mapper ≡ true) ⊎ ((ts ≡ default_targets) × (t ≡ none))
    → let g : Gates = record {
      ram = ram;
      rom = rom;
      mapper = mapper;
      cartridge_ram = cartridge_ram;
      cpu_io = cpu_io;
      ppu_blank = ppu_blank;
      chr_blank = chr_blank;
    } in
      (gs ≡ as_arguments g)
      × IsChain g
      × ((g.mapper ≡ true) ⊎ ((ts ≡ default_targets) × (t ≡ none)))
unfolding GateOk truthy
chained gs ts chr ppu cpu cart mapper ram rom t c p i k m a o r = (
  (λ j. record {
    ram = a.0 j;
    rom = o.0 j;
    mapper = m.0 j;
    cartridge_ram = k.0 j;
    cpu_io = i.0 j;
    ppu_blank = p.0 j;
    chr_blank = c.0 j;
  }),
  record {
    chr_ppu = λ e. rw p.0 at (c.1 e);
    ppu_cpu = λ e. rw i.0 at (p.1 e);
    cpu_cartridge = λ e. rw k.0 at (i.1 e);
    cartridge_mapper = λ e. rw m.0 at (k.1 e);
    mapper_rom = λ e. rw o.0 at (m.1 e);
    rom_ram = λ e. rw a.0 at (o.1 e);
  },
  r,
)

-- The check of the gates passes only for seven Booleans of which each one but the lowest needs the
-- one below it, and only the mapper gate lets a set of targets in.
pub check_gates-IsChain :
    (gs : GateArguments) (ts : TargetsArgument) (g : Gates) (t : Option (List ℕ))
    → check_gates gs ts ≡ ok (g, t)
    → (gs ≡ as_arguments g)
      × IsChain g
      × ((g.mapper ≡ true) ⊎ ((ts ≡ default_targets) × (t ≡ none)))
unfolding check_gates GateOk
check_gates-IsChain gs ts g t h =
    let (chr_blank, e0, h0) = >>=-eq-ok (check_gate gs.chr_blank gs.ppu_blank) _ h in
    let (ppu_blank, e1, h1) = >>=-eq-ok (check_gate gs.ppu_blank gs.cpu_io) _ h0 in
    let (cpu_io, e2, h2) = >>=-eq-ok (check_gate gs.cpu_io gs.cartridge_ram) _ h1 in
    let (cartridge_ram, e3, h3) = >>=-eq-ok (check_gate gs.cartridge_ram gs.mapper) _ h2 in
    let (mapper, e4, h4) = >>=-eq-ok (check_gate gs.mapper gs.rom) _ h3 in
    let (targets, e5, h5) = >>=-eq-ok (check_targets mapper ts) _ h4 in
    let (ram, e6, h6) = >>=-eq-ok (check_gate gs.ram (bool true)) _ h5 in
    let (rom, e7, h7) = >>=-eq-ok (check_gate gs.rom gs.ram) _ h6 in
    subst
      (λ (r : Gates × Option (List ℕ)).
        (gs ≡ as_arguments r.0)
        × IsChain r.0
        × ((r.0.mapper ≡ true) ⊎ ((ts ≡ default_targets) × (r.1 ≡ none))))
      (ok_injective h7)
      (chained gs ts chr_blank ppu_blank cpu_io cartridge_ram mapper ram rom targets
        (check_gate-ok gs.chr_blank gs.ppu_blank e0) (check_gate-ok gs.ppu_blank gs.cpu_io e1)
        (check_gate-ok gs.cpu_io gs.cartridge_ram e2) (check_gate-ok gs.cartridge_ram gs.mapper e3)
        (check_gate-ok gs.mapper gs.rom e4) (check_gate-ok gs.ram (bool true) e6)
        (check_gate-ok gs.rom gs.ram e7) (check_targets-ok mapper ts e5))
