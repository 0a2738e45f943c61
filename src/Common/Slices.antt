-- ===== src/Common/Slices.antt =====
-- Elements of a list put together from parts, and slice assignment of Python.
use Prim.Native.Nat.{ℕ, zero, suc, ◌+◌, ◌-◌, ◌≤◌, ◌<◌}
use mathlib.Core.Path.{◌≡◌, refl, sym, ap, ◌∙◌, subst}
use mathlib.Core.Logic.{◌⊎◌, inl, inr}
use mathlib.Core.List.{List, [], ◌∷◌, ◌++◌}
use native.Mathlib.Omega.{arith}
use nes2snes.Common.Lists.{
  length, get_or, take, drop, length-append, length-take, length-drop, take-append, drop-append,
}

module _ {ℓ} {A : Type ℓ} where
  -- `xs[start:start + size] = new`
  abbrev pub splice : List A → ℕ → ℕ → List A → List A
  splice xs start size new = take start xs ++ (new ++ drop (start + size) xs)

  pub get_or-append_left :
      (xs ys : List A) (i : ℕ) (d : A) → i < length xs → get_or (xs ++ ys) i d ≡ get_or xs i d
  get_or-append_left [] ys i d h = absurd (omega arith)
  get_or-append_left (x ∷ xs) ys zero d h = refl
  get_or-append_left (x ∷ xs) ys (suc i) d h = get_or-append_left xs ys i d (omega arith)

  pub get_or-append_right :
      (xs ys : List A) (i j : ℕ) (d : A) → i ≡ length xs + j → get_or (xs ++ ys) i d ≡ get_or ys j d
  get_or-append_right [] ys i j d e = ap (λ (k : ℕ). get_or ys k d) (omega arith)
  get_or-append_right (x ∷ xs) ys zero j d e = absurd (omega arith)
  get_or-append_right (x ∷ xs) ys (suc i) j d e = get_or-append_right xs ys i j d (omega arith)

  pub get_or-take :
      (n : ℕ) (xs : List A) (i : ℕ) (d : A) → i < n → get_or (take n xs) i d ≡ get_or xs i d
  get_or-take zero xs i d h = absurd (omega arith)
  get_or-take (suc n) [] i d h = refl
  get_or-take (suc n) (x ∷ xs) zero d h = refl
  get_or-take (suc n) (x ∷ xs) (suc i) d h = get_or-take n xs i d (omega arith)

  pub get_or-drop :
      (n : ℕ) (xs : List A) (i j : ℕ) (d : A) → j ≡ n + i → get_or (drop n xs) i d ≡ get_or xs j d
  get_or-drop zero xs i j d e = ap (λ (k : ℕ). get_or xs k d) (omega arith)
  get_or-drop (suc n) [] i j d e = refl
  get_or-drop (suc n) (x ∷ xs) i zero d e = absurd (omega arith)
  get_or-drop (suc n) (x ∷ xs) i (suc j) d e = get_or-drop n xs i j d (omega arith)

  module _ (xs : List A) (start size : ℕ) (new : List A) where
    pub length-splice :
        start + size ≤ length xs → length new ≡ size → length (splice xs start size new) ≡ length xs
    length-splice fits e = omega (
      arith,
      length-append (take start xs) (new ++ drop (start + size) xs),
      length-append new (drop (start + size) xs),
      length-take start xs,
      length-drop (start + size) xs,
    )

    pub get_or-splice_outside :
        (i : ℕ) (d : A)
        → start + size ≤ length xs
        → length new ≡ size
        → (i < start) ⊎ (start + size ≤ i)
        → get_or (splice xs start size new) i d ≡ get_or xs i d
    get_or-splice_outside i d fits e (inl before) =
        get_or-append_left (take start xs) (new ++ drop (start + size) xs) i d
          (omega (arith, length-take start xs))
        ∙ get_or-take start xs i d before
    get_or-splice_outside i d fits e (inr after) =
        get_or-append_right (take start xs) (new ++ drop (start + size) xs) i (i - start) d
          (omega (arith, length-take start xs))
        ∙ get_or-append_right new (drop (start + size) xs) (i - start) (i - start - size) d
            (omega arith)
        ∙ get_or-drop (start + size) xs (i - start - size) i d (omega arith)

    pub get_or-splice_inside :
        (i j : ℕ) (d : A)
        → start + size ≤ length xs
        → length new ≡ size
        → j < size
        → i ≡ start + j
        → get_or (splice xs start size new) i d ≡ get_or new j d
    get_or-splice_inside i j d fits e lt place =
        get_or-append_right (take start xs) (new ++ drop (start + size) xs) i j d
          (omega (arith, length-take start xs))
        ∙ get_or-append_left new (drop (start + size) xs) j d (omega arith)

module _ {ℓ} {A : Type ℓ} where
  pub take_all : (n : ℕ) (xs : List A) → length xs ≤ n → take n xs ≡ xs
  take_all n [] h = take-nil n
    where
      take-nil : (n : ℕ) → take {A = A} n [] ≡ []
      take-nil zero = refl
      take-nil (suc n) = refl
  take_all zero (x ∷ xs) h = absurd (omega arith)
  take_all (suc n) (x ∷ xs) h = ap (λ (t : List A). x ∷ t) (take_all n xs (omega arith))

  pub take-append_eq : (n : ℕ) (xs ys : List A) → length xs ≡ n → take n (xs ++ ys) ≡ xs
  take-append_eq n xs ys e = subst (λ (k : ℕ). take k (xs ++ ys) ≡ xs) e (take-append xs ys)

  pub drop-append_eq : (n : ℕ) (xs ys : List A) → length xs ≡ n → drop n (xs ++ ys) ≡ ys
  drop-append_eq n xs ys e = subst (λ (k : ℕ). drop k (xs ++ ys) ≡ ys) e (drop-append xs ys)

  pub drop-get_or :
      (i j : ℕ) (xs : List A) (d : A)
      → i < length xs
      → j ≡ i + 1
      → drop i xs ≡ get_or xs i d ∷ drop j xs
  drop-get_or i zero xs d h e = absurd (omega arith)
  drop-get_or i (suc j) [] d h e = absurd (omega arith)
  drop-get_or zero (suc j) (x ∷ xs) d h e =
      let first : zero ≡ j = omega arith in ap (λ (k : ℕ). x ∷ drop k xs) first
  drop-get_or (suc i) (suc j) (x ∷ xs) d h e = drop-get_or i j xs d (omega arith) (omega arith)

  pub take-add : (m n k : ℕ) (xs : List A) → k ≡ m + n → take k xs ≡ take m xs ++ take n (drop m xs)
  take-add zero n k xs e = ap (λ (i : ℕ). take i xs) (omega arith)
  take-add (suc m) n zero xs e = absurd (omega arith)
  take-add (suc m) n (suc k) [] e = sym (take_all n [] (omega arith))
  take-add (suc m) n (suc k) (x ∷ xs) e =
      ap (λ (t : List A). x ∷ t) (take-add m n k xs (omega arith))

  pub take-pos : (n : ℕ) (x : A) (xs : List A) → 0 < n → take n (x ∷ xs) ≡ x ∷ take (n - 1) xs
  take-pos zero x xs h = absurd (omega arith)
  take-pos (suc n) x xs h =
      let less : n ≡ suc n - 1 = omega arith in ap (λ (k : ℕ). x ∷ take k xs) less
