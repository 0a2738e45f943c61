-- ===== src/DirectCalls/Planned.antt =====
-- The sites that are planned: absolute accesses of registers, live bank selectors only on request.
use nes2snes.Common.{
  ℕ, ◌+◌, ◌≤◌, ◌<◌, ◌≡◌, ◌⊎◌, inl, inr, refl, subst, arith, Bool, Bool-cases, true, false, ◌&&◌,
  ◌||◌, Option-cases, some,
}
use nes2snes.Common.{
  List, [], ◌∷◌, All, All-append, length, get_or, slice, ltb, ◌==◌, ltb→lt, if◌then◌else◌, Bytes,
  from_bytes,
}
use nes2snes.Common.{ok, >>=-eq-ok, ok_injective}
use nes2snes.Opcodes.{Mode}
use nes2snes.Opcodes.Encode.{same_mode}
use nes2snes.DirectCalls.{
  Kind, Access, Selected, Options, is_store, is_selector, between, store_kind, read_kind,
  handler_kind, site_kind, select, plan,
}

-- A site is a store, or a load of A, of a register that the program names there.
pub record IsRegisterSite (o : Options) (prg : Bytes) (s : Selected) : Type 0 where
  pub inside : s.prg_offset < length prg
  pub opcode : s.opcode ≡ get_or prg s.prg_offset 0
  pub address : s.address ≡ from_bytes (slice prg (s.prg_offset + 1) (s.prg_offset + 3))
  pub access : (is_store s.opcode ≡ true) ⊎ (s.opcode ≡ 0xad)
  pub above_ram : (0x2000 ≤ s.address) × (s.address < 0x5205)
  pub selector : (o.bank_switches ≡ true) ⊎ (is_selector s.address ≡ false)

abbrev IsRegister : ℕ → Type 0
IsRegister address = (0x2000 ≤ address) × (address < 0x5205) × (is_selector address ≡ false)

store_kind-IsRegister :
    (address : ℕ) {k : Kind × ℕ} → store_kind address ≡ some k → IsRegister address
unfolding store_kind
store_kind-IsRegister address h = (ground (arith, h), ground (arith, h), ground (arith, h))

read_kind-IsRegister :
    (address : ℕ) {k : Kind × ℕ} → read_kind address ≡ some k → IsRegister address
unfolding read_kind
read_kind-IsRegister address h = (ground (arith, h), ground (arith, h), ground (arith, h))

abbrev IsSite : Options → ℕ → ℕ → Type 0
IsSite o opcode address =
    ((is_store opcode ≡ true) ⊎ (opcode ≡ 0xad))
    × (0x2000 ≤ address)
    × (address < 0x5205)
    × ((o.bank_switches ≡ true) ⊎ (is_selector address ≡ false))

handler_kind-IsSite :
    (o : Options) (opcode address : ℕ) {k : Kind × ℕ}
    → handler_kind opcode address ≡ some k
    → IsSite o opcode address
unfolding handler_kind
handler_kind-IsSite o opcode address h = elim (Bool-cases (is_store opcode)) [
  | inl e ↦
      let (low, high, fixed) = store_kind-IsRegister address (rw e at h) in
      (inl e, low, high, inr fixed)
  | inr e ↦ elim (Bool-cases (opcode == 0xad)) [
    | inl f ↦
        let (low, high, fixed) = read_kind-IsRegister address (rw (e, f) at h) in
        (inr (ground (arith, f)), low, high, inr fixed)
    | inr f ↦ absurd (ground (arith, h, e, f))
  ]
]

site_kind-IsSite :
    (o : Options) (opcode address : ℕ) {k : Kind × ℕ}
    → site_kind o opcode address ≡ some k
    → IsSite o opcode address
unfolding site_kind
site_kind-IsSite o opcode address h =
    elim (Bool-cases (o.bank_switches && (is_store opcode && is_selector address))) [
      | inl e ↦
          let (opened, store, selector) =
            three o.bank_switches (is_store opcode) (is_selector address) e in
          (inl store, ground (arith, selector), ground (arith, selector), inl opened)
      | inr e ↦ elim (Bool-cases (o.audio_counters && (is_store opcode && is_audio))) [
        | inl f ↦
            let (opened, store, audio) = three o.audio_counters (is_store opcode) is_audio f in
            (inl store, ground (arith, audio), ground (arith, audio), inr (ground (arith, audio)))
        | inr f ↦ handler_kind-IsSite o opcode address (rw (e, f) at h)
      ]
    ]
  where
    is_audio : Bool
    is_audio = between 0x4000 0x4014 address || (address == 0x4015 || address == 0x4017)

    three : (a b c : Bool) → a && (b && c) ≡ true → (a ≡ true) × (b ≡ true) × (c ≡ true)
    three true true true h = (refl, refl, refl)
    three true true false h = cc
    three true false c h = cc
    three false b c h = cc

select-IsRegisterSite :
    (o : Options) (prg : Bytes) (offset : ℕ) {l : List Selected}
    → select o prg offset ≡ ok l
    → All (IsRegisterSite o prg) l
unfolding select
select-IsRegisterSite o prg offset h = elim (Bool-cases (ltb offset (length prg))) [
  | inr e ↦ absurd (ground (arith, h, e))
  | inl e ↦
      elim (Option-cases
        (site_kind o (get_or prg offset 0) (from_bytes (slice prg (offset + 1) (offset + 3))))) [
          | inl f ↦ subst (All (IsRegisterSite o prg)) (ok_injective (rw (e, f) at h)) tt
          | inr ((kind, value), f) ↦
              let (access, low, high, selector) = site_kind-IsSite o _ _ f in
              subst (All (IsRegisterSite o prg)) (ok_injective (rw (e, f) at h)) (
                record {
                  inside = ltb→lt offset (length prg) e;
                  opcode = refl;
                  address = refl;
                  access = access;
                  above_ram = (low, high);
                  selector = selector;
                },
                tt,
              )
        ]
]

pub plan-IsRegisterSite :
    (o : Options) (prg : Bytes) (sites : List Access) {l : List Selected}
    → plan o prg sites ≡ ok l
    → All (IsRegisterSite o prg) l
unfolding plan
plan-IsRegisterSite o prg [] h = subst (All (IsRegisterSite o prg)) (ok_injective h) tt
plan-IsRegisterSite o prg (site ∷ rest) h =
    let (here, e0, h0) =
      >>=-eq-ok (if same_mode site.mode Mode.abs then select o prg site.prg_offset else ok []) _
        h in
    let (others, e1, h1) = >>=-eq-ok (plan o prg rest) _ h0 in
    subst (All (IsRegisterSite o prg)) (ok_injective h1) (
      All-append (IsRegisterSite o prg) here others (chosen here e0)
        (plan-IsRegisterSite o prg rest e1))
  where
    chosen :
        (here : List Selected)
        → (if same_mode site.mode Mode.abs then select o prg site.prg_offset else ok []) ≡ ok here
        → All (IsRegisterSite o prg) here
    chosen here e = elim (Bool-cases (same_mode site.mode Mode.abs)) [
      | inl f ↦ select-IsRegisterSite o prg site.prg_offset (rw f at e)
      | inr f ↦ subst (All (IsRegisterSite o prg)) (ok_injective (rw f at e)) tt
    ]
