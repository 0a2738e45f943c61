-- ===== src/Recognizer/Redirect.antt =====
-- What `apply` makes of the selected calls, and that it answers.
use nes2snes.Common.{ℕ, ◌+◌, ◌-◌, ◌/◌, ◌%◌, ◌≤◌, ◌<◌, ◌≡◌, ◌⊎◌, refl, ap, ap₂, ◌∙◌, arith, true}
use nes2snes.Common.{
  Option, some, List, [], ◌∷◌, length, get_or, take, drop, slice, inl, inr, lt→ltb, le→leb, ==_refl,
  All, Bytes,
}
use nes2snes.Common.{ok}
use nes2snes.Common.Slices.{
  splice, length-splice, get_or-splice_outside, get_or-splice_inside, drop-get_or,
}
use nes2snes.Recognizer.{Site, is_call, redirect, redirect_all}
use nes2snes.Recognizer.Find.{Apart}

-- Three bytes at an offset.
abbrev pub Holds : Bytes → ℕ → ℕ → ℕ → ℕ → Type 0
Holds bs i a b c = (get_or bs i 0 ≡ a) × (get_or bs (i + 1) 0 ≡ b) × (get_or bs (i + 2) 0 ≡ c)

slice_three :
    (bs : Bytes) (i : ℕ) {a b c : ℕ}
    → i + 3 ≤ length bs
    → Holds bs i a b c
    → slice bs i (i + 3) ≡ a ∷ b ∷ c ∷ []
slice_three bs i fits (p, q, r) =
    let three : i + 3 - i ≡ 3 = omega arith in
    ap (λ (k : ℕ). take k (drop i bs)) three
    ∙ ap (λ (t : Bytes). take 3 t)
        (drop-get_or i (i + 1) bs 0 (omega arith) refl
          ∙ ap₂ ◌∷◌ p (
              drop-get_or (i + 1) (i + 2) bs 0 (omega arith) (omega arith)
              ∙ ap₂ ◌∷◌ q (
                  drop-get_or (i + 2) (i + 3) bs 0 (omega arith) (omega arith)
                  ∙ ap (λ (x : ℕ). x ∷ drop (i + 3) bs) r)))

is_call-Holds :
    (bs : Bytes) (i t : ℕ)
    → i + 3 ≤ length bs
    → Holds bs i 0x20 (t % 256) (t / 256)
    → is_call (slice bs i (i + 3)) t ≡ true
unfolding is_call
is_call-Holds bs i t fits h =
    rw (slice_three bs i fits h, is_call) (rw (==_refl (t % 256), ==_refl (t / 256)) refl)

module _ {Label : Type 0} (label : ℕ → Label) (symbols : Label → Option ℕ) where
  -- A site whose call is unchanged in the code, and whose wrapper is linked into reserved memory.
  pub record IsReady (code : Bytes) (s : Site label) : Type 0 where
    pub address : ℕ
    pub linked : symbols s.name ≡ some address
    pub reserved : (0x1000 ≤ address) × (address < 0x1800)
    pub inside : s.prg_offset + 3 ≤ length code
    pub small : s.original_target < 0x10000
    pub unchanged : Holds code s.prg_offset 0x20 (s.original_target % 256) (s.original_target / 256)

  -- The call of a site goes to its wrapper.
  abbrev pub IsRedirected : Bytes → Site label → Type 0
  IsRedirected out s =
      (address : ℕ) × (symbols s.name ≡ some address)
      × Holds out s.prg_offset 0x20 (address % 256) (address / 256)

  abbrev pub IsAway : ℕ → Site label → Type 0
  IsAway j s = (j < s.prg_offset) ⊎ (s.prg_offset + 3 ≤ j)

  redirected : Bytes → ℕ → ℕ → Bytes
  redirected code i address = splice code i 3 (0x20 ∷ address % 256 ∷ address / 256 ∷ [])

  redirect-IsReady :
      (code : Bytes) (s : Site label) (r : IsReady code s)
      → redirect label symbols code s ≡ ok (redirected code s.prg_offset r.address)
  unfolding redirect redirected
  redirect-IsReady code s r =
      let t = s.original_target in
      rw
        (
          r.linked,
          redirect,
          le→leb 0x1000 r.address r.reserved.0,
          lt→ltb r.address 0x1800 r.reserved.1,
          lt→ltb t 0x10000 r.small,
          is_call-Holds code s.prg_offset t r.inside r.unchanged,
        )
        refl

  Apart-IsAway :
      (floor j : ℕ) (sites : List (Site label))
      → Apart label floor sites
      → j < floor
      → All (IsAway j) sites
  Apart-IsAway floor j [] a h = tt
  Apart-IsAway floor j (s ∷ sites) a h =
      (inl (omega arith), Apart-IsAway (s.prg_offset + 3) j sites a.1 (omega arith))

  get_or-redirected :
      (code : Bytes) (i address j : ℕ)
      → i + 3 ≤ length code
      → (j < i) ⊎ (i + 3 ≤ j)
      → get_or (redirected code i address) j 0 ≡ get_or code j 0
  unfolding redirected
  get_or-redirected code i address j fits away =
      get_or-splice_outside code i 3 (0x20 ∷ address % 256 ∷ address / 256 ∷ []) j 0 fits refl away

  redirected-Holds :
      (code : Bytes) (i address : ℕ)
      → i + 3 ≤ length code
      → Holds (redirected code i address) i 0x20 (address % 256) (address / 256)
  unfolding redirected
  redirected-Holds code i address fits =
      let new = 0x20 ∷ address % 256 ∷ address / 256 ∷ [] in
      (
        get_or-splice_inside code i 3 new i 0 0 fits refl (omega arith) (omega arith),
        get_or-splice_inside code i 3 new (i + 1) 1 0 fits refl (omega arith) (omega arith),
        get_or-splice_inside code i 3 new (i + 2) 2 0 fits refl (omega arith) (omega arith),
      )

  length-redirected :
      (code : Bytes) (i address : ℕ)
      → i + 3 ≤ length code
      → length (redirected code i address) ≡ length code
  unfolding redirected
  length-redirected code i address fits =
      length-splice code i 3 (0x20 ∷ address % 256 ∷ address / 256 ∷ []) fits refl

  -- Later sites are as ready as before.
  redirected-IsReady :
      (code : Bytes) (i address floor : ℕ) (sites : List (Site label))
      → i + 3 ≤ length code
      → i + 3 ≤ floor
      → Apart label floor sites
      → All (IsReady code) sites
      → All (IsReady (redirected code i address)) sites
  redirected-IsReady code i address floor [] fits above a r = tt
  redirected-IsReady code i address floor (s ∷ sites) fits above (here, later) (r, rest) = (
    record {
      address = r.address;
      linked = r.linked;
      reserved = r.reserved;
      inside = rw (length-redirected code i address fits) r.inside;
      small = r.small;
      unchanged = (
        get_or-redirected code i address s.prg_offset fits (inr (omega arith)) ∙ r.unchanged.0,
        get_or-redirected code i address (s.prg_offset + 1) fits (inr (omega arith))
            ∙ r.unchanged.1,
        get_or-redirected code i address (s.prg_offset + 2) fits (inr (omega arith))
            ∙ r.unchanged.2,
      );
    },
    redirected-IsReady code i address (s.prg_offset + 3) sites fits (omega arith) later rest,
  )

  -- For sites three bytes or more apart that are ready in the code, `apply` answers with code of
  -- the same size in which each site's call goes to its wrapper and every byte outside the sites is
  -- what it was.
  pub redirect_all_lem :
      (sites : List (Site label)) (code : Bytes) (floor : ℕ)
      → Apart label floor sites
      → All (IsReady code) sites
      → (out : Bytes) × (redirect_all label symbols code sites ≡ ok out)
        × (length out ≡ length code)
        × ((j : ℕ) → All (IsAway j) sites → get_or out j 0 ≡ get_or code j 0)
        × All (IsRedirected out) sites
  unfolding redirect_all
  redirect_all_lem [] code floor a r = (code, refl, refl, (λ j w. refl), tt)
  redirect_all_lem (s ∷ sites) code floor (here, later) (r, rest) =
      let i = s.prg_offset in
      let next = redirected code i r.address in
      let ready =
        redirected-IsReady code i r.address (i + 3) sites r.inside (omega arith) later rest in
      let (out, run, size, kept, done) = redirect_all_lem sites next (i + 3) later ready in
      let away = λ (j : ℕ) (h : j < i + 3). Apart-IsAway (i + 3) j sites later h in
      let (a, b, c) = redirected-Holds code i r.address r.inside in
      (
        out,
        rw (redirect-IsReady code s r) run,
        size ∙ length-redirected code i r.address r.inside,
        (λ j w. kept j w.1 ∙ get_or-redirected code i r.address j r.inside w.0),
        (
          (
            r.address,
            r.linked,
            (
              kept i (away i (omega arith)) ∙ a,
              kept (i + 1) (away (i + 1) (omega arith)) ∙ b,
              kept (i + 2) (away (i + 2) (omega arith)) ∙ c,
            ),
          ),
          done,
        ),
      )
