-- ===== src/Common/Strings.antt =====
-- Rust's `String` and `Vec<u8>`: both are lists of bytes, a text being its UTF-8 encoding.
use Prim.Native.Nat.{ℕ}
use Prim.Native.Char.{code}
use Prim.Native.String.{String}
use mathlib.Core.Path.{◌≡◌, refl}
use mathlib.Core.Logic.{◌↔◌, ◌≢◌, inl, inr}
use mathlib.Core.Bool.{Bool, true, false, not, ◌&&◌, ◌||◌}
use mathlib.Core.Option.{Option, none, some}
use mathlib.Core.List.{List, [], ◌∷◌, ◌++◌}
use native.Mathlib.Omega.{arith}
use grokingclawid.Common.Tests.{Bool-cases, if◌then◌else◌, leb, ltb, ◌==◌}
use grokingclawid.Common.Lists.{All, any}

abbrev pub Bytes : Type 0
Bytes = List ℕ

abbrev pub Text : Type 0
Text = List ℕ

-- The bytes of an ASCII literal.
abbrev pub ascii : String → Text
ascii String.[] = []
ascii (String.◌∷◌ c s) = code c ∷ ascii s

unfoldable pub text_eq : Text → Text → Bool
text_eq [] [] = true
text_eq [] (y ∷ ys) = false
text_eq (x ∷ xs) [] = false
text_eq (x ∷ xs) (y ∷ ys) = x == y && text_eq xs ys

text_eq_sound : (s t : Text) → text_eq s t ≡ true → s ≡ t
unfolding text_eq
text_eq_sound [] [] h = refl
text_eq_sound [] (y ∷ ys) h = ground arith
text_eq_sound (x ∷ xs) [] h = ground arith
text_eq_sound (x ∷ xs) (y ∷ ys) h = ground (arith, text_eq_sound xs ys)

pub text_eq_refl : (s : Text) → text_eq s s ≡ true
unfolding text_eq
text_eq_refl [] = refl
text_eq_refl (x ∷ xs) = ground (arith, text_eq_refl xs)

pub text_eq_iff : (s t : Text) → (text_eq s t ≡ true) ↔ (s ≡ t)
text_eq_iff s t = (text_eq_sound s t, λ e. ground (arith, text_eq_refl s))

pub text_eq_sym : (s t : Text) → text_eq s t ≡ text_eq t s
unfolding text_eq
text_eq_sym [] [] = refl
text_eq_sym [] (y ∷ ys) = refl
text_eq_sym (x ∷ xs) [] = refl
text_eq_sym (x ∷ xs) (y ∷ ys) = ground (arith, text_eq_sym xs ys)

pub text_apart_iff : (s t : Text) → (not (text_eq s t) ≡ true) ↔ (s ≢ t)
text_apart_iff s t = (
  λ h e. ground (arith, text_eq_iff s t),
  λ n. elim (Bool-cases (text_eq s t)) [
    | inl same ↦ absurd (n (text_eq_sound s t same))
    | inr apart ↦ rw apart refl
  ],
)

-- The order of `String`, byte by byte.
unfoldable pub text_ltb : Text → Text → Bool
text_ltb [] [] = false
text_ltb [] (y ∷ t) = true
text_ltb (x ∷ s) [] = false
text_ltb (x ∷ s) (y ∷ t) = ltb x y || x == y && text_ltb s t

-- `Vec<String>::contains`
unfoldable pub contains : List Text → Text → Bool
unfolding any
contains xs s = any (λ x. text_eq x s) xs

-- `s.ends_with(suffix)`: some tail of `s` is the suffix.
unfoldable pub ends_with : Text → Text → Bool
ends_with [] suffix = text_eq [] suffix
ends_with (c ∷ s) suffix = text_eq (c ∷ s) suffix || ends_with s suffix

-- The whitespace of ASCII.
unfoldable pub is_space : ℕ → Bool
is_space c = c == 32 || leb 9 c && leb c 13

-- `s.strip_prefix(p)`
unfoldable pub strip_prefix : Text → Text → Option Text
strip_prefix [] s = some s
strip_prefix (x ∷ p) [] = none
strip_prefix (x ∷ p) (y ∷ s) = if x == y then strip_prefix p s else none

pub strip_prefix_iff : (p s r : Text) → (strip_prefix p s ≡ some r) ↔ (s ≡ p ++ r)
unfolding strip_prefix
strip_prefix_iff [] s r = (λ e. ground arith, λ e. ground arith)
strip_prefix_iff (x ∷ p) [] r = (λ e. ground arith, λ e. ground arith)
strip_prefix_iff (x ∷ p) (y ∷ s) r =
    (λ e. ground (arith, strip_prefix_iff p s r), λ e. ground (arith, strip_prefix_iff p s r))

-- `s.split(c).next()`: what stands before the first `c`, or all of `s`.
unfoldable pub before : ℕ → Text → Text
before c [] = []
before c (x ∷ s) = let rest = x ∷ before c s in if x == c then [] else rest

-- `s.split_once(c)`
unfoldable pub split_once : ℕ → Text → Option (Text × Text)
split_once c [] = none
split_once c (x ∷ s) =
    let later : Option (Text × Text) = elim (split_once c s) [
      | none ↦ none
      | some (a, b) ↦ some (x ∷ a, b)
    ] in
    if x == c then some ([], s) else later

-- No byte of the text is `c`.
abbrev pub Avoids : ℕ → Text → Type 0
Avoids c = All (λ x. x ≢ c)

-- `a ++ c ∷ b` is read back when `a` has no `c`.
pub split_once-append : (c : ℕ) (a b : Text) → Avoids c a → split_once c (a ++ c ∷ b) ≡ some (a, b)
unfolding split_once
split_once-append c [] b h = ground arith
split_once-append c (x ∷ a) b (p, h) = ground (arith, split_once-append c a b h)

-- So a separator that the fields do not hold makes their concatenation injective.
pub sep-injective :
    (c : ℕ) (a b s t : Text) → Avoids c a → Avoids c b → a ++ c ∷ s ≡ b ++ c ∷ t → (a ≡ b) × (s ≡ t)
sep-injective c a b s t ha hb e =
    ground (arith, split_once-append c a s ha, split_once-append c b t hb)

-- A text without the separator has no place where it splits.
pub Avoids-separated : (c : ℕ) (s a b : Text) → Avoids c s → s ≢ a ++ c ∷ b
Avoids-separated c [] [] b h e = ground arith
Avoids-separated c [] (y ∷ a) b h e = ground arith
Avoids-separated c (x ∷ s) [] b (p, h) e = let same : x ≡ c = cc in p same
Avoids-separated c (x ∷ s) (y ∷ a) b (p, h) e =
    let rest : s ≡ a ++ c ∷ b = cc in Avoids-separated c s a b h rest

-- The last separator is found from what follows it, too.
pub last_sep-injective :
    (c : ℕ) (a b s t : Text) → Avoids c s → Avoids c t → a ++ c ∷ s ≡ b ++ c ∷ t → (a ≡ b) × (s ≡ t)
last_sep-injective c [] [] s t hs ht e = (refl, cc)
last_sep-injective c [] (y ∷ b) s t hs ht e =
    let rest : s ≡ b ++ c ∷ t = cc in absurd (Avoids-separated c s b t hs rest)
last_sep-injective c (x ∷ a) [] s t hs ht e =
    let rest : t ≡ a ++ c ∷ s = cc in absurd (Avoids-separated c t a s ht rest)
last_sep-injective c (x ∷ a) (y ∷ b) s t hs ht e =
    let first : x ≡ y = cc in
    let rest : a ++ c ∷ s ≡ b ++ c ∷ t = cc in
    let (p, q) = last_sep-injective c a b s t hs ht rest in (cc, q)
