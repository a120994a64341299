-- ===== src/Common/Lists.antt =====
-- Lists measured by native numbers, Boolean folds over lists, and predicates on all elements.
use Prim.Native.Nat.{ℕ, zero, suc, ◌+◌, ◌≤◌}
use mathlib.Core.Path.{◌≡◌, refl}
use mathlib.Core.Bool.{Bool, true, false, not, ◌&&◌, ◌||◌}
use mathlib.Core.Option.{Option, none, some}
use mathlib.Core.List.{List, [], ◌∷◌, ◌++◌}
use native.Mathlib.Omega.{arith}
use grokingclawid.Common.Tests.{if◌then◌else◌}

module _ {ℓ} {A : Type ℓ} where
  abbrev pub length : List A → ℕ
  length [] = 0
  length (x ∷ xs) = suc (length xs)

  pub length-append : (xs ys : List A) → length (xs ++ ys) ≡ length xs + length ys
  length-append [] ys = omega arith
  length-append (x ∷ xs) ys = omega (arith, length-append xs ys)

  -- `iter().all(p)` and `iter().any(p)`
  unfoldable pub all : (A → Bool) → List A → Bool
  all p [] = true
  all p (x ∷ xs) = p x && all p xs

  unfoldable pub any : (A → Bool) → List A → Bool
  any p [] = false
  any p (x ∷ xs) = p x || any p xs

  -- `retain(p)` and `iter().filter(p)`
  unfoldable pub retain : (A → Bool) → List A → List A
  retain p [] = []
  retain p (x ∷ xs) = let rest = retain p xs in if p x then x ∷ rest else rest

  -- `iter().find(p)`
  unfoldable pub find : (A → Bool) → List A → Option A
  find p [] = none
  find p (x ∷ xs) = if p x then some x else find p xs

  unfoldable pub take : ℕ → List A → List A
  take zero xs = []
  take (suc n) [] = []
  take (suc n) (x ∷ xs) = x ∷ take n xs

  unfoldable pub drop : ℕ → List A → List A
  drop zero xs = xs
  drop (suc n) [] = []
  drop (suc n) (x ∷ xs) = drop n xs

  pub take-append : (n : ℕ) (xs ys : List A) → n ≡ length xs → take n (xs ++ ys) ≡ xs
  unfolding take
  take-append zero [] ys e = refl
  take-append zero (x ∷ xs) ys e = absurd (omega arith)
  take-append (suc n) [] ys e = absurd (omega arith)
  take-append (suc n) (x ∷ xs) ys e = ground (arith, take-append n xs ys)

  pub drop-append : (n : ℕ) (xs ys : List A) → n ≡ length xs → drop n (xs ++ ys) ≡ ys
  unfolding drop
  drop-append zero [] ys e = refl
  drop-append zero (x ∷ xs) ys e = absurd (omega arith)
  drop-append (suc n) [] ys e = absurd (omega arith)
  drop-append (suc n) (x ∷ xs) ys e = drop-append n xs ys (omega arith)

  -- The last element.
  unfoldable pub last : List A → Option A
  last [] = none
  last (x ∷ []) = some x
  last (x ∷ y ∷ xs) = last (y ∷ xs)

  pub length-retain : (p : A → Bool) (xs : List A) → length (retain p xs) ≤ length xs
  unfolding retain
  length-retain p [] = omega arith
  length-retain p (x ∷ xs) = ground (arith, length-retain p xs)

  pub last-append : (xs : List A) (x : A) → last (xs ++ x ∷ []) ≡ some x
  unfolding last
  last-append [] x = refl
  last-append (y ∷ []) x = refl
  last-append (y ∷ z ∷ xs) x = last-append (z ∷ xs) x

  pub last-cons : (x : A) (xs : List A) → (y : A) × (last (x ∷ xs) ≡ some y)
  unfolding last
  last-cons x [] = (x, refl)
  last-cons x (y ∷ xs) = last-cons y xs

  -- Lists that agree after appending, and in the lengths of their first parts, agree in both parts.
  pub append-injective :
      (a b s t : List A) → length a ≡ length b → a ++ s ≡ b ++ t → (a ≡ b) × (s ≡ t)
  append-injective [] [] s t n e = (refl, e)
  append-injective [] (y ∷ b) s t n e = absurd (omega arith)
  append-injective (x ∷ a) [] s t n e = absurd (omega arith)
  append-injective (x ∷ a) (y ∷ b) s t n e =
      let h : x ≡ y = cc in
      let r : a ++ s ≡ b ++ t = cc in
      let (p, q) = append-injective a b s t (omega arith) r in (cc, q)

  pub all-append : (p : A → Bool) (xs ys : List A) → all p (xs ++ ys) ≡ (all p xs && all p ys)
  unfolding all
  all-append p [] ys = ground arith
  all-append p (x ∷ xs) ys = ground (arith, all-append p xs ys)

  pub any-append : (p : A → Bool) (xs ys : List A) → any p (xs ++ ys) ≡ (any p xs || any p ys)
  unfolding any
  any-append p [] ys = ground arith
  any-append p (x ∷ xs) ys = ground (arith, any-append p xs ys)

  pub any-retain-not : (p : A → Bool) (xs : List A) → any p (retain (λ x. not (p x)) xs) ≡ false
  unfolding any retain
  any-retain-not p [] = refl
  any-retain-not p (x ∷ xs) = ground (arith, any-retain-not p xs)

module _ {ℓ κ} {A : Type ℓ} (P : A → Type κ) where
  abbrev pub All : List A → Type κ
  All [] = Unit
  All (x ∷ xs) = P x × All xs

  pub All-append : (xs ys : List A) → All xs → All ys → All (xs ++ ys)
  All-append [] ys h k = k
  All-append (x ∷ xs) ys (p, h) k = (p, All-append xs ys h k)

  pub All-retain : (p : A → Bool) (xs : List A) → All xs → All (retain p xs)
  unfolding retain
  All-retain p [] h = tt
  All-retain p (x ∷ xs) (q, h) = ground (arith, All-retain p xs h)

-- Filtering by a stronger test is not changed by a weaker one before it.
pub retain-retain {ℓ} :
    {A : Type ℓ} (p q : A → Bool) (xs : List A)
    → ((x : A) → q x ≡ true → p x ≡ true)
    → retain q (retain p xs) ≡ retain q xs
unfolding retain
retain-retain p q [] h = refl
retain-retain p q (x ∷ xs) h = ground (arith, h x, retain-retain p q xs h)

pub retain-append {ℓ} :
    {A : Type ℓ} (p : A → Bool) (xs ys : List A) → retain p (xs ++ ys) ≡ retain p xs ++ retain p ys
unfolding retain
retain-append p [] ys = refl
retain-append p (x ∷ xs) ys = ground (arith, retain-append p xs ys)
