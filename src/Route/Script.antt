-- ===== src/Route/Script.antt =====
-- The scripts that validate_actions lets through.
use nes2snes.Common.{ℕ, ◌+◌, ◌≤◌, ◌≡◌, ◌↔◌, refl, ap, ap₂, ◌∙◌, subst, arith, not, ◌&&◌, &&-true}
use nes2snes.Common.{List, [], ◌∷◌, All, length, length-map, map, leb, le→leb, leb→le}
use nes2snes.Common.{ok, raise_if, raise_if-not-ok, >>=-eq-ok, ok_injective}
use nes2snes.Route.{
  bad_script, ActionArgument, ActionsArgument, actions, not_actions, Action, check_action,
  actions_loop, validate_actions,
}
use nes2snes.Route.Actions.{
  as_argument, Among, IsAction, total_updates, check_action-ok, check_action-as_argument,
}

-- Each name differs from those before it.
abbrev pub AreNew : List (List ℕ) → List Action → Type 0
AreNew names [] = Unit
AreNew names (c ∷ rest) = ¬ (Among c.name names) × AreNew (c.name ∷ names) rest

abbrev IsRead : List (List ℕ) → ℕ → List ActionArgument → List Action → Type 0
IsRead names total l cs =
    (l ≡ map as_argument cs)
    × All IsAction cs
    × AreNew names cs
    × (total + total_updates cs ≤ 100000)

actions_loop-IsRead :
    (names : List (List ℕ)) (total : ℕ) (l : List ActionArgument) {cs : List Action}
    → total ≤ 100000
    → actions_loop names total l ≡ ok cs
    → IsRead names total l cs
unfolding actions_loop
actions_loop-IsRead names total [] fits h =
    subst (IsRead names total []) (ok_injective h) (refl, tt, tt, omega (arith, fits))
actions_loop-IsRead names total (argument ∷ l) fits h =
    let (c, e0, h0) = >>=-eq-ok (check_action names total argument) _ h in
    let (cs, e1, h1) = >>=-eq-ok (actions_loop (c.name ∷ names) (total + c.updates) l) _ h0 in
    let (read, is_action, new, within) = check_action-ok names total argument e0 in
    let (rest, all, news, sum) =
      actions_loop-IsRead (c.name ∷ names) (total + c.updates) l within e1 in
    subst (IsRead names total (argument ∷ l)) (ok_injective h1)
      (ap₂ ◌∷◌ read rest, (is_action, all), (new, news), omega (arith, sum))

actions_loop-as_argument :
    (names : List (List ℕ)) (total : ℕ) (cs : List Action)
    → All IsAction cs
    → AreNew names cs
    → total + total_updates cs ≤ 100000
    → actions_loop names total (map as_argument cs) ≡ ok cs
unfolding actions_loop
actions_loop-as_argument names total [] all news sum = refl
actions_loop-as_argument names total (c ∷ cs) all news sum =
    rw
      (
        check_action-as_argument names total c all.0 news.0 (omega (arith, sum)),
        actions_loop-as_argument (c.name ∷ names) (total + c.updates) cs all.1 news.1
            (omega (arith, sum)),
      )
      refl

-- A script is accepted, and read as `cs`, exactly when it is the list of these 1 to 512 actions,
-- each with a safe name that no action before it has, 1 to 600 updates and distinct buttons of
-- which no two are opposite, with 100,000 updates at most together.
pub validate_actions_iff :
    (argument : ActionsArgument) (cs : List Action)
    → (validate_actions argument ≡ ok cs) ↔ (
        (argument ≡ actions (map as_argument cs))
        × (1 ≤ length cs)
        × (length cs ≤ 512)
        × All IsAction cs
        × AreNew [] cs
        × (total_updates cs ≤ 100000))
unfolding validate_actions
validate_actions_iff not_actions cs = ((λ h. cc), (λ h. cc (h.0)))
validate_actions_iff (actions l) cs = (
  (λ h.
      let (u0, e0, h0) =
        >>=-eq-ok (raise_if (not (leb 1 (length l) && leb (length l) 512)) bad_script) _ h in
      let (read, all, news, sum) = actions_loop-IsRead [] 0 l (omega arith) h0 in
      let size : length l ≡ length cs = ap length read ∙ length-map cs as_argument in
      let bounds = raise_if-not-ok (leb 1 (length l) && leb (length l) 512) bad_script e0 in
      let (low, high) = &&-true (leb 1 (length l)) (leb (length l) 512) bounds in
      (
        ap actions read,
        omega (arith, size, leb→le 1 (length l) low),
        omega (arith, size, leb→le (length l) 512 high),
        all,
        news,
        omega (arith, sum),
      )),
  (λ h.
      rw
        (
          actions_injective h.0,
          length-map cs as_argument,
          le→leb 1 (length cs) h.1,
          le→leb (length cs) 512 h.2,
        )
        (actions_loop-as_argument [] 0 cs h.3 h.4 (omega (arith, h.5)))),
)
  where
    actions_injective : {l m : List ActionArgument} → actions l ≡ actions m → l ≡ m
    actions_injective e = cc
