-- ===== src/Common/Assoc.antt =====
-- Maps keyed by texts as association lists in an arbitrary order, one entry for a key (`HashMap`).
use mathlib.Core.Path.{◌≡◌, refl, sym}
use mathlib.Core.Logic.{inl, inr}
use mathlib.Core.Bool.{false}
use mathlib.Core.Option.{Option, none, some}
use mathlib.Core.List.{List, [], ◌∷◌}
use native.Mathlib.Omega.{arith}
use grokingclawid.Common.Tests.{Bool-cases, if◌then◌else◌}
use grokingclawid.Common.Lists.{All}
use grokingclawid.Common.Strings.{Text, text_eq, text_eq_iff, text_eq_refl}

module _ {ℓ} {V : Type ℓ} where
  -- `get(key)`
  unfoldable pub lookup : Text → List (Text × V) → Option V
  lookup key [] = none
  lookup key ((k, v) ∷ m) = if text_eq k key then some v else lookup key m

  -- `insert(key, value)`
  unfoldable pub insert : Text → V → List (Text × V) → List (Text × V)
  insert key value [] = (key, value) ∷ []
  insert key value ((k, v) ∷ m) =
      let rest = insert key value m in if text_eq k key then (k, value) ∷ m else (k, v) ∷ rest

  -- `remove(key)`
  unfoldable pub remove : Text → List (Text × V) → List (Text × V)
  remove key [] = []
  remove key ((k, v) ∷ m) = let rest = remove key m in if text_eq k key then rest else (k, v) ∷ rest

  pub lookup-insert :
      (key : Text) (value : V) (m : List (Text × V)) → lookup key (insert key value m) ≡ some value
  unfolding lookup insert
  lookup-insert key value [] = rw (text_eq_refl key)
  lookup-insert key value ((k, v) ∷ m) = elim (Bool-cases (text_eq k key)) [
    | inl here ↦ rw (here, here)
    | inr away ↦ rw (away, away) (lookup-insert key value m)
  ]

  pub lookup-insert_other :
      (key other : Text) (value : V) (m : List (Text × V))
      → text_eq key other ≡ false
      → lookup other (insert key value m) ≡ lookup other m
  unfolding lookup insert
  lookup-insert_other key other value [] h = rw h
  lookup-insert_other key other value ((k, v) ∷ m) h = elim (Bool-cases (text_eq k key)) [
    | inl here ↦
        let same : k ≡ key = (text_eq_iff k key).0 here in
        let away : text_eq k other ≡ false = rw same h in rw (here, away)
    | inr away ↦ rw away (ground (arith, lookup-insert_other key other value m h))
  ]

  -- Of two values for a key, the later one stays.
  pub insert-insert :
      (key : Text) (a b : V) (m : List (Text × V)) → insert key b (insert key a m) ≡ insert key b m
  unfolding insert
  insert-insert key a b [] = rw (text_eq_refl key) refl
  insert-insert key a b ((k, v) ∷ m) = elim (Bool-cases (text_eq k key)) [
    | inl here ↦ rw (here, here) refl
    | inr away ↦ rw (away, away, insert-insert key a b m) refl
  ]

  pub lookup-remove : (key : Text) (m : List (Text × V)) → lookup key (remove key m) ≡ none
  unfolding lookup remove
  lookup-remove key [] = refl
  lookup-remove key ((k, v) ∷ m) = ground (arith, lookup-remove key m)

  module _ {κ} (Q : Text → V → Type κ) where
    -- Every entry of the map has the property.
    abbrev pub Entries : List (Text × V) → Type κ
    Entries = All (λ (k, v). Q k v)

    pub Entries-insert :
        (key : Text) (value : V) (m : List (Text × V))
        → Entries m
        → Q key value
        → Entries (insert key value m)
    unfolding insert
    Entries-insert key value [] h q = (q, tt)
    Entries-insert key value ((k, v) ∷ m) (p, h) q = elim (Bool-cases (text_eq k key)) [
      | inl here ↦ rw here (rw ((text_eq_iff k key).0 here) q, h)
      | inr away ↦ rw away (p, Entries-insert key value m h q)
    ]

    pub Entries-remove : (key : Text) (m : List (Text × V)) → Entries m → Entries (remove key m)
    unfolding remove
    Entries-remove key [] h = tt
    Entries-remove key ((k, v) ∷ m) (p, h) = elim (Bool-cases (text_eq k key)) [
      | inl here ↦ rw here (Entries-remove key m h)
      | inr away ↦ rw away (p, Entries-remove key m h)
    ]

    pub Entries-lookup :
        (key : Text) (value : V) (m : List (Text × V))
        → Entries m
        → lookup key m ≡ some value
        → Q key value
    unfolding lookup
    Entries-lookup key value [] h e = ground arith
    Entries-lookup key value ((k, v) ∷ m) (p, h) e = elim (Bool-cases (text_eq k key)) [
      | inl here ↦
          let name : k ≡ key = (text_eq_iff k key).0 here in
          let val : v ≡ value = ground arith in rw (sym name, sym val) p
      | inr away ↦ Entries-lookup key value m h (ground arith)
    ]
