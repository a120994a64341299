-- ===== src/Common/Members.antt =====
-- The Boolean folds of Common.Lists and the tests of Common.Strings against membership.
use mathlib.Core.Path.{◌≡◌, refl, ap, sym}
use mathlib.Core.Logic.{◌↔◌, ◌⊎◌, inl, inr}
use mathlib.Core.Bool.{Bool, true}
use mathlib.Core.Option.{some}
use mathlib.Core.List.{List, [], ◌∷◌, ◌++◌, map, Memᴰ}
use native.Mathlib.Omega.{arith}
use grokingclawid.Common.Tests.{Bool-cases}
use grokingclawid.Common.Lists.{all, any, find, retain}
use grokingclawid.Common.Strings.{Text, contains, ends_with, text_eq, text_eq_iff, text_eq_refl}

module _ {ℓ} {A : Type ℓ} where
  pub any-Memᴰ : (p : A → Bool) (xs : List A) → any p xs ≡ true → (x : A) × Memᴰ x xs × (p x ≡ true)
  unfolding any
  any-Memᴰ p [] h = ground arith
  any-Memᴰ p (x ∷ xs) h = elim (Bool-cases (p x)) [
    | inl here ↦ (x, Memᴰ.head refl, here)
    | inr not_here ↦ let (y, m, q) = any-Memᴰ p xs (ground arith) in (y, Memᴰ.tail m, q)
  ]

  pub Memᴰ-any : (p : A → Bool) {x : A} {xs : List A} → Memᴰ x xs → p x ≡ true → any p xs ≡ true
  unfolding any
  Memᴰ-any p (Memᴰ.head e) h = rw (sym (ap p e), h)
  Memᴰ-any p (Memᴰ.tail m) h = ground (arith, Memᴰ-any p m h)

  pub all-Memᴰ : (p : A → Bool) {x : A} {xs : List A} → Memᴰ x xs → all p xs ≡ true → p x ≡ true
  unfolding all
  all-Memᴰ p (Memᴰ.head e) h = rw e (ground arith)
  all-Memᴰ p (Memᴰ.tail m) h = all-Memᴰ p m (ground arith)

  pub all_intro :
      (p : A → Bool) (xs : List A) → ((x : A) → Memᴰ x xs → p x ≡ true) → all p xs ≡ true
  unfolding all
  all_intro p [] h = refl
  all_intro p (x ∷ xs) h =
      ground (arith, h x (Memᴰ.head refl), all_intro p xs (λ y m. h y (Memᴰ.tail m)))

  retain-Memᴰ :
      (p : A → Bool) (x : A) (xs : List A) → Memᴰ x (retain p xs) → Memᴰ x xs × (p x ≡ true)
  unfolding retain
  retain-Memᴰ p x [] m = elim m [ ]
  retain-Memᴰ p x (y ∷ ys) m = elim (Bool-cases (p y)) [
    | inl here ↦ elim (rw here at m) [
      | Memᴰ.head e ↦ (Memᴰ.head e, rw e here)
      | Memᴰ.tail t ↦ let (k, h) = retain-Memᴰ p x ys t in (Memᴰ.tail k, h)
    ]
    | inr away ↦ let (k, h) = retain-Memᴰ p x ys (rw away at m) in (Memᴰ.tail k, h)
  ]

  Memᴰ-retain : (p : A → Bool) (x : A) (xs : List A) → Memᴰ x xs → p x ≡ true → Memᴰ x (retain p xs)
  unfolding retain
  Memᴰ-retain p x [] m h = elim m [ ]
  Memᴰ-retain p x (y ∷ ys) (Memᴰ.head e) h =
      let good : p y ≡ true = rw (sym e) h in rw good (Memᴰ.head e)
  Memᴰ-retain p x (y ∷ ys) (Memᴰ.tail m) h = elim (Bool-cases (p y)) [
    | inl here ↦ rw here (Memᴰ.tail (Memᴰ-retain p x ys m h))
    | inr away ↦ rw away (Memᴰ-retain p x ys m h)
  ]

  pub Memᴰ-retain_iff :
      (p : A → Bool) (x : A) (xs : List A) → Memᴰ x (retain p xs) ↔ (Memᴰ x xs × (p x ≡ true))
  Memᴰ-retain_iff p x xs = (retain-Memᴰ p x xs, λ (m, h). Memᴰ-retain p x xs m h)

  pub find-Memᴰ :
      (p : A → Bool) (x : A) (xs : List A) → find p xs ≡ some x → Memᴰ x xs × (p x ≡ true)
  unfolding find
  find-Memᴰ p x [] e = absurd (ground arith)
  find-Memᴰ p x (y ∷ ys) e = elim (Bool-cases (p y)) [
    | inl here ↦ let same : y ≡ x = ground arith in (Memᴰ.head (sym same), rw (sym same) here)
    | inr away ↦ let (m, h) = find-Memᴰ p x ys (ground arith) in (Memᴰ.tail m, h)
  ]

  pub Memᴰ-only : {x y : A} → Memᴰ x (y ∷ []) → x ≡ y
  Memᴰ-only (Memᴰ.head e) = e
  Memᴰ-only (Memᴰ.tail m) = elim m [ ]

  pub append-Memᴰ : (x : A) (xs ys : List A) → Memᴰ x (xs ++ ys) → Memᴰ x xs ⊎ Memᴰ x ys
  append-Memᴰ x [] ys m = inr m
  append-Memᴰ x (y ∷ xs) ys (Memᴰ.head e) = inl (Memᴰ.head e)
  append-Memᴰ x (y ∷ xs) ys (Memᴰ.tail m) = elim (append-Memᴰ x xs ys m) [
    | inl k ↦ inl (Memᴰ.tail k)
    | inr k ↦ inr k
  ]

  pub Memᴰ-append : {x : A} (xs : List A) {ys : List A} → Memᴰ x ys → Memᴰ x (xs ++ ys)
  Memᴰ-append [] m = m
  Memᴰ-append (y ∷ xs) m = Memᴰ.tail (Memᴰ-append xs m)

module _ {ℓ κ} {A : Type ℓ} {B : Type κ} (f : A → B) where
  pub Memᴰ-map : {x : A} {xs : List A} → Memᴰ x xs → Memᴰ (f x) (map f xs)
  Memᴰ-map (Memᴰ.head e) = Memᴰ.head (ap f e)
  Memᴰ-map (Memᴰ.tail m) = Memᴰ.tail (Memᴰ-map m)

  pub map-Memᴰ : (y : B) (xs : List A) → Memᴰ y (map f xs) → (x : A) × Memᴰ x xs × (f x ≡ y)
  map-Memᴰ y [] m = elim m [ ]
  map-Memᴰ y (x ∷ xs) (Memᴰ.head e) = (x, Memᴰ.head refl, sym e)
  map-Memᴰ y (x ∷ xs) (Memᴰ.tail m) = let (z, k, e) = map-Memᴰ y xs m in (z, Memᴰ.tail k, e)

pub contains_iff : (xs : List Text) (s : Text) → (contains xs s ≡ true) ↔ Memᴰ s xs
unfolding contains
contains_iff xs s = (
  λ h. let (x, m, e) = any-Memᴰ (λ x. text_eq x s) xs h in rw ((text_eq_iff x s).0 e) at m,
  λ m. Memᴰ-any (λ x. text_eq x s) m (text_eq_refl s),
)

pub ends_with_sound : (s t : Text) → ends_with s t ≡ true → (p : Text) × (s ≡ p ++ t)
unfolding ends_with
ends_with_sound [] t h = ([], (text_eq_iff [] t).0 h)
ends_with_sound (c ∷ s) t h = elim (Bool-cases (text_eq (c ∷ s) t)) [
  | inl whole ↦ ([], (text_eq_iff (c ∷ s) t).0 whole)
  | inr part ↦ let (p, e) = ends_with_sound s t (ground arith) in (c ∷ p, ap (λ r. c ∷ r) e)
]

pub ends_with-append : (p t : Text) → ends_with (p ++ t) t ≡ true
unfolding ends_with
ends_with-append [] [] = text_eq_refl []
ends_with-append [] (c ∷ t) = rw (text_eq_refl (c ∷ t))
ends_with-append (c ∷ p) t = ground (arith, ends_with-append p t)
