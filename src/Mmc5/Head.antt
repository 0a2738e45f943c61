-- ===== src/Mmc5/Head.antt =====
-- What the checks before the parts establish, of the profile and of the plan's fields.
use nes2snes.Common.{
  ℕ, ◌-◌, ◌≤◌, ◌≡◌, refl, sym, ap, ◌∙◌, arith, subst, Bool, Bool-cases, true, inl, inr, not, ◌&&◌,
  ◌==◌, bit_and, ==_iff,
}
use nes2snes.Common.{Option, none, some, List, [], ◌∷◌, All, length, map}
use nes2snes.Common.{
  ok, raise_if, raise_if-not-ok, >>=-eq-ok, ok_injective, as_error, as_error-ok, Value, nat, int,
  bool, other,
}
use nes2snes.Common.Text.{TextArgument, text, not_text, is_fixture_name}
use nes2snes.Timeline.Events.{
  Event, Entries, list, as_entry, IsSchedule, validate_events, validate_events_iff,
}
use nes2snes.Timeline.Decode.{truthy}
use nes2snes.Mmc5.{sequence, initial_registers, slots, check_banks}
use nes2snes.Mmc5.Slots.{check_banks-ok}
use nes2snes.Mmc5.Plan.{
  Profile, Open, Plan, PartArgument, part, parts, check_profile_gate, check_profile, check_head,
  check_slots, check_events, check_name, check_bytes, boot_bytes, chr_options, part_list,
  fields_fit, number, bad_fields, bad_entry, bad_steps, bad_events, bad_slots, bad_boot, bad_chr,
  bad_name,
}
use nes2snes.Mmc5.Parts.{number-ok}
use nes2snes.Mmc5.Read.{part_list-ok}

-- Each gate is the profile's own Boolean, and an open one needs the one below it.
pub record IsProfile (p : Profile) (o : Open) : Type 0 where
  pub cartridge : p.cartridge_ram ≡ bool o.cartridge_ram
  pub io : p.cpu_io ≡ bool o.cpu_io
  pub ppu : p.ppu_blank ≡ bool o.ppu_blank
  pub chr : p.chr_blank ≡ bool o.chr_blank
  pub io_below : o.cpu_io ≡ true → o.cartridge_ram ≡ true
  pub ppu_below : o.ppu_blank ≡ true → o.cpu_io ≡ true
  pub chr_below : o.chr_blank ≡ true → o.ppu_blank ≡ true

check_profile_gate-ok :
    (v below : Value) {b : Bool}
    → check_profile_gate v below ≡ ok b
    → (v ≡ bool b) × (b ≡ true → truthy below ≡ true)
unfolding check_profile_gate
check_profile_gate-ok (bool g) below {b} h = elim (Bool-cases (g && not (truthy below))) [
  | inl bad ↦ let never = rw (check_profile_gate, bad) at h in cc
  | inr good ↦
      let same : g ≡ b = ok_injective (rw (check_profile_gate, good) at h) in
      (ap bool same, λ on. ground (arith, good, same, on))
]
check_profile_gate-ok (int z) below h = cc
check_profile_gate-ok other below h = cc

pub check_profile-IsProfile : (p : Profile) {o : Open} → check_profile p ≡ ok o → IsProfile p o
unfolding check_profile truthy
check_profile-IsProfile p h =
    let (chr, e0, h0) = >>=-eq-ok (check_profile_gate p.chr_blank p.ppu_blank) _ h in
    let (ppu, e1, h1) = >>=-eq-ok (check_profile_gate p.ppu_blank p.cpu_io) _ h0 in
    let (io, e2, h2) = >>=-eq-ok (check_profile_gate p.cpu_io p.cartridge_ram) _ h1 in
    let (ram, e3, h3) = >>=-eq-ok (check_profile_gate p.cartridge_ram (bool true)) _ h2 in
    let (is_chr, chr_needs) = check_profile_gate-ok p.chr_blank p.ppu_blank e0 in
    let (is_ppu, ppu_needs) = check_profile_gate-ok p.ppu_blank p.cpu_io e1 in
    let (is_io, io_needs) = check_profile_gate-ok p.cpu_io p.cartridge_ram e2 in
    let (is_ram, ram_needs) = check_profile_gate-ok p.cartridge_ram (bool true) e3 in
    subst (IsProfile p) (ok_injective h3) (record {
      cartridge = is_ram;
      io = is_io;
      ppu = is_ppu;
      chr = is_chr;
      io_below = λ on. sym (ap truthy is_ram) ∙ io_needs on;
      ppu_below = λ on. sym (ap truthy is_io) ∙ ppu_needs on;
      chr_below = λ on. sym (ap truthy is_ppu) ∙ chr_needs on;
    })

abbrev pub IsByteValue : Value → Type 0
IsByteValue v = (n : ℕ) × (v ≡ nat n) × (n ≤ 255)

-- The optional keys: a power of two of CHR banks from 8 to 1,024, and a mode.
abbrev pub HasChr : Option (Value × Value) → Type 0
HasChr none = Unit
HasChr (some (banks, mode)) =
    (b : ℕ) × (m : ℕ) × (banks ≡ nat b)
    × (mode ≡ nat m)
    × (8 ≤ b)
    × (b ≤ 1024)
    × (bit_and b (b - 1) ≡ 0)
    × (m ≤ 3)

-- The plan's fields, with the numbers, events and code list that are read of them.
pub record IsHead (o : Open) (plan : Plan) (banks steps : ℕ) (events : List Event)
    (fragments : List PartArgument) : Type 0 where
  pub banks_range : (plan.prg_banks ≡ nat banks) × (4 ≤ banks) × (banks ≤ 128)
  pub steps_range : (plan.steps ≡ nat steps) × (1 ≤ steps) × (steps ≤ 31)
  pub schedule :
      (plan.events ≡ list (map as_entry events)) × (length events ≤ 64) × IsSchedule 0 events
  pub start : plan.origin ≡ nat 0xe100
  pub code_list :
      (more : List PartArgument) × (plan.bank_code ≡ parts more)
      × (length more ≤ 32)
      × (fragments ≡ part (nat (banks - 1)) plan.origin plan.code plan.starts ∷ more)
  pub named : (t : List ℕ) × (plan.name ≡ text t) × (is_fixture_name t ≡ true)
  pub boot : All IsByteValue (plan.stack ∷ plan.a ∷ plan.x ∷ plan.y ∷ plan.seed ∷ plan.counter ∷ [])
  pub fitting : fields_fit o plan.memory_model plan.chr ≡ true
  pub chr : HasChr plan.chr

events-IsSchedule :
    (entries : Entries) {events : List Event}
    → check_events entries ≡ ok events
    → (entries ≡ list (map as_entry events)) × (length events ≤ 64) × IsSchedule 0 events
unfolding check_events
events-IsSchedule entries {events} h =
    (validate_events_iff entries events).0 (as_error-ok bad_events (validate_events entries) h)

check_slots-ok : (v : Value) {n : ℕ} → check_slots v ≡ ok n → (v ≡ nat n) × (4 ≤ n) × (n ≤ 128)
unfolding check_slots
check_slots-ok v h =
    let (s, e0, h0) = >>=-eq-ok (as_error bad_slots (slots (sequence initial_registers) v)) _ h in
    let (value, low, high, even) = check_banks-ok v (as_error-ok bad_slots (check_banks v) h0) in
    (value, low, high)

check_name-ok :
    (t : TextArgument) {u : Unit {0}}
    → check_name t ≡ ok u
    → (l : List ℕ) × (t ≡ text l) × (is_fixture_name l ≡ true)
unfolding check_name
check_name-ok not_text h = cc
check_name-ok (text l) h = (l, refl, raise_if-not-ok (is_fixture_name l) bad_name h)

check_bytes-All :
    (values : List Value) {u : Unit {0}} → check_bytes values ≡ ok u → All IsByteValue values
unfolding check_bytes
check_bytes-All [] h = tt
check_bytes-All (v ∷ rest) h =
    let (b, e0, h0) = >>=-eq-ok (number 0 255 bad_boot v) _ h in
    let (is_nat, low, high) = number-ok 0 255 bad_boot v e0 in
    ((b, is_nat, high), check_bytes-All rest h0)

chr_options-HasChr :
    (chr : Option (Value × Value)) {u : Unit {0}} → chr_options chr ≡ ok u → HasChr chr
unfolding chr_options
chr_options-HasChr none h = tt
chr_options-HasChr (some (banks, mode)) h =
    let (b, e0, h0) = >>=-eq-ok (number 8 1024 bad_chr banks) _ h in
    let (u1, e1, h1) = >>=-eq-ok (raise_if (not (bit_and b (b - 1) == 0)) bad_chr) _ h0 in
    let (m, e2, h2) = >>=-eq-ok (number 0 3 bad_chr mode) _ h1 in
    let (is_b, low, high) = number-ok 8 1024 bad_chr banks e0 in
    let (is_m, none_below, few) = number-ok 0 3 bad_chr mode e2 in
    let power = (==_iff _ 0).0 (raise_if-not-ok (bit_and b (b - 1) == 0) bad_chr e1) in
    (b, m, is_b, is_m, low, high, power, few)

-- The answer of `check_head`, with its parts named.
abbrev pub HeadOf : Open → Plan → ℕ × ℕ × List Event × List PartArgument → Type 0
HeadOf o plan (banks, steps, events, fragments) = IsHead o plan banks steps events fragments

pub check_head-IsHead :
    (o : Open) (plan : Plan) {r : ℕ × ℕ × List Event × List PartArgument}
    → check_head o plan ≡ ok r
    → HeadOf o plan r
unfolding check_head
check_head-IsHead o plan h =
    let (u0, e0, h0) =
      >>=-eq-ok (raise_if (not (fields_fit o plan.memory_model plan.chr)) bad_fields) _ h in
    let (u1, e1, h1) = >>=-eq-ok (check_name plan.name) _ h0 in
    let (banks, e2, h2) = >>=-eq-ok (check_slots plan.prg_banks) _ h1 in
    let (u3, e3, h3) = >>=-eq-ok (chr_options plan.chr) _ h2 in
    let (origin, e4, h4) = >>=-eq-ok (number 0xe100 0xe100 bad_entry plan.origin) _ h3 in
    let (more, e5, h5) = >>=-eq-ok (part_list plan.bank_code) _ h4 in
    let (u6, e6, h6) = >>=-eq-ok (check_bytes (boot_bytes plan)) _ h5 in
    let (steps, e7, h7) = >>=-eq-ok (number 1 31 bad_steps plan.steps) _ h6 in
    let (events, e8, h8) = >>=-eq-ok (check_events plan.events) _ h7 in
    let (is_origin, at_least, at_most) = number-ok 0xe100 0xe100 bad_entry plan.origin e4 in
    let (is_parts, few_parts) = part_list-ok plan.bank_code e5 in
    subst (HeadOf o plan) (ok_injective h8) (record {
      banks_range = check_slots-ok plan.prg_banks e2;
      steps_range = number-ok 1 31 bad_steps plan.steps e7;
      schedule = events-IsSchedule plan.events e8;
      start = is_origin ∙ ap (λ (n : ℕ). nat n) (omega (arith, at_least, at_most));
      code_list = (more, is_parts, few_parts, refl);
      named = check_name-ok plan.name e1;
      boot = check_bytes-All (boot_bytes plan) e6;
      fitting = raise_if-not-ok (fields_fit o plan.memory_model plan.chr) bad_fields e0;
      chr = chr_options-HasChr plan.chr e3;
    })
