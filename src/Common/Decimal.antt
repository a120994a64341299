-- ===== src/Common/Decimal.antt =====
-- `format!("{}", n)` for an integer: decimal digits, most significant first.
use grokingclawid.Common.Tests.{Bool-cases, if◌then◌else◌, ltb}
use grokingclawid.Common.Lists.{All, All-append}
use mathlib.Core.Path.{◌≡◌, refl, ap, sym}
use mathlib.Core.Logic.{◌≢◌, inl, inr}
use native.Mathlib.Omega.{arith}
use grokingclawid.Common.Int.{negsuc, pos, ℤ}
use grokingclawid.Common.Strings.{Avoids, Text}
use Prim.Native.Nat.{ℕ, zero, suc, ◌+◌, ◌/◌, ◌%◌, ◌*◌, ◌-◌, ◌≤◌, ◌<◌}
use mathlib.Core.List.{[], ◌∷◌, ◌++◌}

-- The digits of `n`; each round divides by ten, so `n + 1` rounds are enough.
digits : ℕ → ℕ → Text
digits zero n = []
digits (suc f) n =
    let more = digits f (n / 10) ++ (48 + n % 10) ∷ [] in if ltb n 10 then (48 + n) ∷ [] else more

unfoldable pub show_ℕ : ℕ → Text
unfolding digits
show_ℕ n = digits (suc n) n

unfoldable pub show_ℤ : ℤ → Text
show_ℤ (pos n) = show_ℕ n
show_ℤ (negsuc n) = b'-' ∷ show_ℕ (suc n)

-- The number that a run of digits stands for, read from the left.
value : ℕ → Text → ℕ
value acc [] = acc
value acc (c ∷ cs) = value (acc * 10 + (c - 48)) cs

value-append : (acc : ℕ) (s t : Text) → value acc (s ++ t) ≡ value (value acc s) t
unfolding value
value-append acc [] t = refl
value-append acc (c ∷ s) t = value-append (acc * 10 + (c - 48)) s t

value-digits : (f n : ℕ) → n < f → value 0 (digits f n) ≡ n
unfolding digits value
value-digits zero n h = elim h [ ]
value-digits (suc f) n h =
    ground (arith, value-append 0 (digits f (n / 10)) ((48 + n % 10) ∷ []), value-digits f (n / 10))

pub show_ℕ-injective : (a b : ℕ) → show_ℕ a ≡ show_ℕ b → a ≡ b
unfolding show_ℕ
show_ℕ-injective a b e =
    let p : value 0 (digits (suc a) a) ≡ value 0 (digits (suc b) b) = ap (value 0) e in
    omega (arith, p, value-digits (suc a) a (omega arith), value-digits (suc b) b (omega arith))

digits-IsDigit : (f n : ℕ) → All (λ c. 48 ≤ c) (digits f n)
unfolding digits
digits-IsDigit zero n = tt
digits-IsDigit (suc f) n = elim (Bool-cases (ltb n 10)) [
  | inl small ↦ rw small (omega arith)
  | inr large ↦ rw large (
      All-append (λ c. 48 ≤ c) (digits f (n / 10)) ((48 + n % 10) ∷ []) (digits-IsDigit f (n / 10))
        (omega arith))
]

sign_differs : (f n : ℕ) (s : Text) → digits f n ≢ b'-' ∷ s
sign_differs f n s e =
    let h : All (λ c. 48 ≤ c) (b'-' ∷ s) = rw e at (digits-IsDigit f n) in omega (arith, h.0)

-- So no digit is a line feed.
digits-Avoids : (f n : ℕ) → Avoids 10 (digits f n)
digits-Avoids f n = weaken (digits f n) (digits-IsDigit f n)
  where
    weaken : (s : Text) → All (λ c. 48 ≤ c) s → Avoids 10 s
    weaken [] h = tt
    weaken (c ∷ s) (p, h) = (λ e. omega (arith, e), weaken s h)

pub show_ℕ-Avoids : (n : ℕ) → Avoids 10 (show_ℕ n)
unfolding show_ℕ
show_ℕ-Avoids n = digits-Avoids (suc n) n

pub show_ℤ-Avoids : (n : ℤ) → Avoids 10 (show_ℤ n)
unfolding show_ℤ
show_ℤ-Avoids (pos n) = show_ℕ-Avoids n
show_ℤ-Avoids (negsuc n) = (λ e. omega (arith, e), show_ℕ-Avoids (suc n))

-- Two integers with one decimal text are equal.
pub show_ℤ-injective : (a b : ℤ) → show_ℤ a ≡ show_ℤ b → a ≡ b
unfolding show_ℤ digits show_ℕ
show_ℤ-injective (pos a) (pos b) e = ap pos (show_ℕ-injective a b e)
show_ℤ-injective (pos a) (negsuc b) e = absurd (sign_differs (suc a) a (show_ℕ (suc b)) e)
show_ℤ-injective (negsuc a) (pos b) e = absurd (sign_differs (suc b) b (show_ℕ (suc a)) (sym e))
show_ℤ-injective (negsuc a) (negsuc b) e =
    let p : show_ℕ (suc a) ≡ show_ℕ (suc b) = cc in
    let q : suc a ≡ suc b = show_ℕ-injective (suc a) (suc b) p in
    let r : a ≡ b = omega arith in ap negsuc r
