-- ===== src/Route/Actions.antt =====
-- One action that validate_actions lets through, and the tests that it passes.
use nes2snes.Common.{
  ℕ, ◌+◌, ◌≤◌, ◌≡◌, ◌↔◌, ◌⊎◌, inl, inr, refl, sym, ap, ◌∙◌, subst, arith, Bool, Bool-cases, true,
  false, not, ◌&&◌, ||-false, &&-true, not-true, not-false,
}
use nes2snes.Common.{
  List, [], ◌∷◌, map, ltb, ◌==◌, le→ltb, le→leb, ltb→le, if◌then◌else◌, ==_iff, bytes_eq,
  bytes_eq-same, bytes_eq_refl,
}
use nes2snes.Common.{
  ok, raise_if, raise_if-ok, >>=-eq-ok, ok_injective, Value, nat, int, bool, other, negsuc,
}
use nes2snes.Common.Text.{TextArgument, text, not_text, is_fixture_name}
use nes2snes.Route.{
  contradictory, too_long, Button, start, select, left, right, up, down, ButtonArgument, button,
  unknown, ButtonsArgument, buttons, not_buttons, ActionArgument, action, foreign_action, Action,
  button_code, has_name, has_button, all_different, contradicts, check_name, check_updates,
  known_buttons, check_buttons, check_action,
}

-- The values that an action is read from.
abbrev pub as_argument : Action → ActionArgument
as_argument c = action (text c.name) (nat c.updates) (buttons (map button c.buttons))

abbrev pub Among : {A : Type 0} → A → List A → Type 0
Among x [] = ⊥
Among x (y ∷ rest) = (y ≡ x) ⊎ Among x rest

abbrev pub AreDistinct : {A : Type 0} → List A → Type 0
AreDistinct [] = Unit
AreDistinct (x ∷ rest) = ¬ (Among x rest) × AreDistinct rest

-- A safe name, 1 to 600 updates, and buttons that are distinct and no pair of opposite directions.
pub record IsAction (c : Action) : Type 0 where
  pub safe : is_fixture_name c.name ≡ true
  pub some_updates : (1 ≤ c.updates) × (c.updates ≤ 600)
  pub distinct : AreDistinct c.buttons
  pub one_side : ¬ (Among left c.buttons × Among right c.buttons)
  pub one_height : ¬ (Among up c.buttons × Among down c.buttons)

abbrev pub total_updates : List Action → ℕ
total_updates [] = 0
total_updates (c ∷ rest) = c.updates + total_updates rest

abbrev pub names_of : List Action → List (List ℕ)
names_of [] = []
names_of (c ∷ rest) = c.name ∷ names_of rest

code_button : ℕ → Button
code_button n =
    if n == 0
    then Button.a
    else if n == 1
    then Button.b
    else if n == 2
    then start
    else if n == 3
    then select
    else if n == 4
    then left
    else if n == 5
    then right
    else if n == 6
    then up
    else down

code_button-button_code : (c : Button) → code_button (button_code c) ≡ c
unfolding code_button
code_button-button_code Button.a = refl
code_button-button_code Button.b = refl
code_button-button_code start = refl
code_button-button_code select = refl
code_button-button_code left = refl
code_button-button_code right = refl
code_button-button_code up = refl
code_button-button_code down = refl

pub same_code : (c d : Button) → button_code c ≡ button_code d → c ≡ d
same_code c d e = sym (code_button-button_code c) ∙ ap code_button e ∙ code_button-button_code d

has_button_iff : (c : Button) (l : List Button) → (has_button c l ≡ true) ↔ Among c l
unfolding has_button
has_button_iff c [] = ((λ h. cc), (λ h. absurd h))
has_button_iff c (d ∷ rest) = elim (Bool-cases (button_code d == button_code c)) [
  | inl e ↦
      ((λ h. inl (same_code d c ((==_iff (button_code d) (button_code c)).0 e))), (λ h. rw e refl))
  | inr e ↦ (
    (λ h. inr ((has_button_iff c rest).0 (rw e at h))),
    (λ h. rw e (elim h [
      | inl same ↦ absurd (ground (arith, ap button_code same, e))
      | inr later ↦ (has_button_iff c rest).1 later
    ])),
  )
]

has_name_iff : (name : List ℕ) (l : List (List ℕ)) → (has_name name l ≡ true) ↔ Among name l
unfolding has_name
has_name_iff name [] = ((λ h. cc), (λ h. absurd h))
has_name_iff name (n ∷ rest) = elim (Bool-cases (bytes_eq n name)) [
  | inl e ↦ ((λ h. inl (bytes_eq-same n name e)), (λ h. rw e refl))
  | inr e ↦ (
    (λ h. inr ((has_name_iff name rest).0 (rw e at h))),
    (λ h. rw e (elim h [
      | inl same ↦ cc (subst (λ (m : List ℕ). bytes_eq n m ≡ true) same (bytes_eq_refl n), e)
      | inr later ↦ (has_name_iff name rest).1 later
    ])),
  )
]

-- A test that fails, for a predicate that it decides.
false_iff : {P : Type 0} (test : Bool) → (test ≡ true) ↔ P → (test ≡ false) ↔ (¬ P)
false_iff true h = ((λ e. cc), (λ none. absurd (none (h.0 refl))))
false_iff false h = ((λ e p. cc (h.1 p)), (λ none. refl))

all_different_iff : (l : List Button) → (all_different l ≡ true) ↔ AreDistinct l
unfolding all_different
all_different_iff [] = ((λ h. tt), (λ h. refl))
all_different_iff (c ∷ rest) =
    let (apart, back) = false_iff (has_button c rest) (has_button_iff c rest) in
    let (distinct, again) = all_different_iff rest in
    (
      (λ h.
          let (new, more) = &&-true (not (has_button c rest)) (all_different rest) h in
          (apart (not-true (has_button c rest) new), distinct more)),
      (λ h. rw (back h.0, again h.1) refl),
    )

both_iff :
    (c d : Button) (l : List Button)
    → (has_button c l && has_button d l ≡ true) ↔ (Among c l × Among d l)
both_iff c d l =
    let (left_in, left_has) = has_button_iff c l in
    let (right_in, right_has) = has_button_iff d l in
    (
      (λ h. let (p, q) = &&-true (has_button c l) (has_button d l) h in (left_in p, right_in q)),
      (λ h. rw (left_has h.0, right_has h.1) refl),
    )

abbrev IsPressable : List Button → Type 0
IsPressable l = AreDistinct l × ¬ (Among left l × Among right l) × ¬ (Among up l × Among down l)

contradicts_iff : (l : List Button) → (contradicts l ≡ false) ↔ IsPressable l
unfolding contradicts
contradicts_iff l =
    let (distinct, different) = all_different_iff l in
    let (one_side, no_side) =
      false_iff (has_button left l && has_button right l) (both_iff left right l) in
    let (one_height, no_height) =
      false_iff (has_button up l && has_button down l) (both_iff up down l) in
    (
      (λ h.
          let (e, rest) = ||-false (not (all_different l)) _ h in
          let (side, height) = ||-false (has_button left l && has_button right l) _ rest in
          (distinct (not-false (all_different l) e), one_side side, one_height height)),
      (λ h. rw (different h.0, no_side h.1, no_height h.2) refl),
    )

known_buttons-ok :
    (l : List ButtonArgument) {cs : List Button} → known_buttons l ≡ ok cs → l ≡ map button cs
unfolding known_buttons
known_buttons-ok [] h = subst (λ (cs : List Button). [] ≡ map button cs) (ok_injective h) refl
known_buttons-ok (button c ∷ rest) h =
    let (cs, e0, h0) = >>=-eq-ok (known_buttons rest) _ h in
    subst (λ (ds : List Button). button c ∷ rest ≡ map button ds) (ok_injective h0)
      (ap (λ (t : List ButtonArgument). button c ∷ t) (known_buttons-ok rest e0))
known_buttons-ok (unknown ∷ rest) h = cc

known_buttons-map : (cs : List Button) → known_buttons (map button cs) ≡ ok cs
unfolding known_buttons
known_buttons-map [] = refl
known_buttons-map (c ∷ cs) = rw (known_buttons-map cs) refl

check_name-ok :
    (argument : TextArgument) (names : List (List ℕ)) {name : List ℕ}
    → check_name argument names ≡ ok name
    → (argument ≡ text name) × (is_fixture_name name ≡ true) × ¬ (Among name names)
unfolding check_name
check_name-ok not_text names h = cc
check_name-ok (text t) names {name} h =
    elim (Bool-cases (is_fixture_name t && not (has_name t names))) [
      | inr e ↦ absurd (ground (arith, h, e))
      | inl e ↦
          let (safe, fresh) = &&-true (is_fixture_name t) (not (has_name t names)) e in
          subst (λ (n : List ℕ). (text t ≡ text n) × (is_fixture_name n ≡ true) × ¬ (Among n names))
            (ok_injective (rw e at h))
            (
              refl,
              safe,
              (false_iff (has_name t names) (has_name_iff t names)).0
                  (not-true (has_name t names) fresh),
            )
    ]

check_updates-ok : (v : Value) {n : ℕ} → check_updates v ≡ ok n → (v ≡ nat n) × (1 ≤ n) × (n ≤ 600)
unfolding check_updates
check_updates-ok (nat n) h = ground arith
check_updates-ok (int (negsuc n)) h = cc
check_updates-ok (bool q) h = cc
check_updates-ok other h = cc

check_buttons-ok :
    (argument : ButtonsArgument) {cs : List Button}
    → check_buttons argument ≡ ok cs
    → (argument ≡ buttons (map button cs)) × IsPressable cs
unfolding check_buttons
check_buttons-ok not_buttons h = cc
check_buttons-ok (buttons l) h =
    let (cs, e0, h0) = >>=-eq-ok (known_buttons l) _ h in
    let (u1, e1, h1) = >>=-eq-ok (raise_if (contradicts cs) contradictory) _ h0 in
    subst (λ (ds : List Button). (buttons l ≡ buttons (map button ds)) × IsPressable ds)
      (ok_injective h1)
      (
        ap buttons (known_buttons-ok l e0),
        (contradicts_iff cs).0 (raise_if-ok (contradicts cs) contradictory e1),
      )

pub check_action-ok :
    (names : List (List ℕ)) (total : ℕ) (argument : ActionArgument) {c : Action}
    → check_action names total argument ≡ ok c
    → (argument ≡ as_argument c)
      × IsAction c
      × ¬ (Among c.name names)
      × (total + c.updates ≤ 100000)
unfolding check_action
check_action-ok names total foreign_action h = cc
check_action-ok names total (action name_argument updates_argument buttons_argument) h =
    let (name, e0, h0) = >>=-eq-ok (check_name name_argument names) _ h in
    let (n, e1, h1) = >>=-eq-ok (check_updates updates_argument) _ h0 in
    let (l, e2, h2) = >>=-eq-ok (check_buttons buttons_argument) _ h1 in
    let (u3, e3, h3) = >>=-eq-ok (raise_if (ltb 100000 (total + n)) too_long) _ h2 in
    let (named, safe, new) = check_name-ok name_argument names e0 in
    let (counted, low, high) = check_updates-ok updates_argument e1 in
    let (pressed, (distinct, one_side, one_height)) = check_buttons-ok buttons_argument e2 in
    subst
      (λ (d : Action).
        (action name_argument updates_argument buttons_argument ≡ as_argument d)
        × IsAction d
        × ¬ (Among d.name names)
        × (total + d.updates ≤ 100000))
      (ok_injective h3)
      (
        (λ i. action (named i) (counted i) (pressed i)),
        record {
          safe = safe;
          some_updates = (low, high);
          distinct = distinct;
          one_side = one_side;
          one_height = one_height;
        },
        new,
        ltb→le 100000 (total + n) (raise_if-ok (ltb 100000 (total + n)) too_long e3),
      )

pub check_action-as_argument :
    (names : List (List ℕ)) (total : ℕ) (c : Action)
    → IsAction c
    → ¬ (Among c.name names)
    → total + c.updates ≤ 100000
    → check_action names total (as_argument c) ≡ ok c
unfolding check_action check_name check_updates check_buttons
check_action-as_argument names total c k new fits =
    rw
      (
        k.safe,
        (false_iff (has_name c.name names) (has_name_iff c.name names)).1 new,
        le→leb 1 c.updates k.some_updates.0,
        le→leb c.updates 600 k.some_updates.1,
        known_buttons-map c.buttons,
        (contradicts_iff c.buttons).1 (k.distinct, k.one_side, k.one_height),
        le→ltb 100000 (total + c.updates) fits,
      )
      refl
