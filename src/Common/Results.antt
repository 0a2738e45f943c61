-- ===== src/Common/Results.antt =====
-- A Python function that may raise: a value, or the error at which it stopped.
use mathlib.Core.Path.{◌≡◌, refl, ap}
use mathlib.Core.Logic.{◌⊎◌, inl, inr}
use mathlib.Core.Bool.{Bool, true, false, not}

pub data Result {ℓ} (E : Type 0) (A : Type ℓ) : Type ℓ where
  ok : A → Result E A
  err : E → Result E A

-- `if test: raise e`
abbrev pub raise_if : {E : Type 0} → Bool → E → Result E (Unit {0})
raise_if false e = ok tt
raise_if true e = err e

pub ok_injective {ℓ} :
    {E : Type 0} {A : Type ℓ} {a b : A} → ◌≡◌ {A = Result E A} (ok a) (ok b) → a ≡ b
ok_injective same = cc

pub Result-cases {ℓ} :
    {E : Type 0} {A : Type ℓ} (r : Result E A) → ((a : A) × (r ≡ ok a)) ⊎ ((e : E) × (r ≡ err e))
Result-cases (err e) = inr (e, refl)
Result-cases (ok a) = inl (a, refl)

-- A check that lets the code go on.
pub raise_if-ok :
    {E : Type 0} (test : Bool) (e : E) {u : Unit {0}} → raise_if test e ≡ ok u → test ≡ false
raise_if-ok true e h = cc
raise_if-ok false e h = refl

-- The next statement runs on the value, or the error leaves the function.
infixl 5 ◌>>=◌
abbrev pub ◌>>=◌ {ℓ κ} :
    {E : Type 0} {Now : Type ℓ} {Later : Type κ}
    → Result E Now
    → (Now → Result E Later)
    → Result E Later
err problem >>= rest = err problem
ok value >>= rest = rest value

pub raise_if-not-ok :
    {E : Type 0} (test : Bool) (e : E) {u : Unit {0}} → raise_if (not test) e ≡ ok u → test ≡ true
raise_if-not-ok true e h = refl
raise_if-not-ok false e h = cc

-- What a run that returns went through.
pub >>=-eq-ok {ℓ κ} :
    {E : Type 0} {Now : Type ℓ} {Later : Type κ} (now : Result E Now) (rest : Now → Result E Later)
    {end : Later}
    → (now >>= rest) ≡ ok end
    → (value : Now) × (now ≡ ok value) × (rest value ≡ ok end)
>>=-eq-ok (err problem) rest returned = cc
>>=-eq-ok (ok value) rest returned = (value, refl, returned)

infixl 5 ◌>>◌
abbrev pub ◌>>◌ {ℓ} :
    {E : Type 0} {Later : Type ℓ} → Result E (Unit {0}) → Result E Later → Result E Later
first >> second = first >>= λ _. second

-- A call whose errors the caller does not tell apart.
abbrev pub as_error {ℓ} : {E F : Type 0} {A : Type ℓ} → F → Result E A → Result F A
as_error f (err e) = err f
as_error f (ok a) = ok a

pub as_error-ok {ℓ} :
    {E F : Type 0} {A : Type ℓ} (f : F) (r : Result E A) {a : A} → as_error f r ≡ ok a → r ≡ ok a
as_error-ok f (err e) h = cc
as_error-ok f (ok a) h = ap ok (ok_injective h)
