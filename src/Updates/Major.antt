-- ===== src/Updates/Major.antt =====
-- The major versions that crates/grokingclaw-daemon/src/updates.rs compares.
use grokingclawid.Common.{
  Avoids, Bool-cases, Option, Text, [], ap, arith, false, inl, inr, none, refl, some, true, ℕ, ◌++◌,
  ◌<◌, ◌==◌, ◌↔◌, ◌∙◌, ◌∷◌, ◌≡◌, ◌≢◌, ◌⊎◌,
}
use grokingclawid.Updates.{first_part, is_later, is_major_update, parse_u32}

-- The part is all of the version, or what stands before its first dot.
abbrev pub IsFirstPart : Text → Text → Type 0
IsFirstPart version part =
    Avoids 46 part × ((version ≡ part) ⊎ ((rest : Text) × (version ≡ part ++ 46 ∷ rest)))

first_part-IsFirstPart : (version : Text) → IsFirstPart version (first_part version)
unfolding first_part
first_part-IsFirstPart [] = (tt, inl refl)
first_part-IsFirstPart (c ∷ s) =
    let (avoids, split) = first_part-IsFirstPart s in
    elim (Bool-cases (c == 46)) [
      | inl dot ↦
          let same : c ≡ 46 = ground arith in
          rw (first_part, dot) (tt, inr (s, ap (λ x. x ∷ s) same))
      | inr other ↦
          let apart : c ≢ 46 = λ e. ground arith in
          rw (first_part, other)
            (
              (apart, avoids),
              elim split [
                | inl whole ↦ inl (ap (λ r. c ∷ r) whole)
                | inr (rest, e) ↦ inr (rest, ap (λ r. c ∷ r) e)
              ],
            )
    ]

IsFirstPart-first_part :
    (version part : Text) → IsFirstPart version part → first_part version ≡ part
unfolding first_part
IsFirstPart-first_part [] [] h = refl
IsFirstPart-first_part [] (d ∷ part) (avoids, inl e) = absurd (ground arith)
IsFirstPart-first_part [] (d ∷ part) (avoids, inr (rest, e)) = absurd (ground arith)
IsFirstPart-first_part (c ∷ s) [] (avoids, inl e) = absurd (ground arith)
IsFirstPart-first_part (c ∷ s) [] (avoids, inr (rest, e)) = ground arith
IsFirstPart-first_part (c ∷ s) (d ∷ part) ((apart, avoids), inl e) =
    let next = IsFirstPart-first_part s part (avoids, inl (ground arith)) in
    let same : c ≡ d = ground arith in
    elim (Bool-cases (c == 46)) [
      | inl dot ↦ absurd (apart (ground arith))
      | inr other ↦ ground arith
    ]
IsFirstPart-first_part (c ∷ s) (d ∷ part) ((apart, avoids), inr (rest, e)) =
    let next = IsFirstPart-first_part s part (avoids, inr (rest, ground arith)) in
    let same : c ≡ d = ground arith in
    elim (Bool-cases (c == 46)) [
      | inl dot ↦ absurd (apart (ground arith))
      | inr other ↦ ground arith
    ]

-- The first part of the version is a number, as `str::parse::<u32>` reads it.
abbrev pub HasMajor : Text → ℕ → Type 0
HasMajor version n = (part : Text) × IsFirstPart version part × (parse_u32 part ≡ some n)

-- Both have a major version, and that of the latest is greater.
abbrev pub IsLaterMajor : Text → Text → Type 0
IsLaterMajor current latest = (c : ℕ) × (l : ℕ) × HasMajor current c × HasMajor latest l × (c < l)

is_later-some :
    (a b : Option ℕ)
    → is_later a b ≡ true
    → (c : ℕ) × (l : ℕ) × (a ≡ some c) × (b ≡ some l) × (c < l)
unfolding is_later
is_later-some none b e = absurd (ground arith)
is_later-some (some c) none e = absurd (ground arith)
is_later-some (some c) (some l) e = (c, l, refl, refl, ground arith)

parse_major :
    (version : Text) (n : ℕ) → HasMajor version n → parse_u32 (first_part version) ≡ some n
parse_major version n (part, h, e) =
    ap (λ p. parse_u32 p) (IsFirstPart-first_part version part h) ∙ e

pub is_major_update_iff :
    (current latest : Text) → (is_major_update current latest ≡ true) ↔ IsLaterMajor current latest
unfolding is_major_update is_later
is_major_update_iff current latest = (
  λ e.
      let (c, l, a, b, less) =
        is_later-some (parse_u32 (first_part current)) (parse_u32 (first_part latest)) e in
      (
        c,
        l,
        (first_part current, first_part-IsFirstPart current, a),
        (first_part latest, first_part-IsFirstPart latest, b),
        less,
      ),
  λ (c, l, a, b, less).
      rw (is_major_update, parse_major current c a, parse_major latest l b, is_later)
        (ground arith),
)

pub is_major_update-minor_iff :
    (current latest : Text)
    → (is_major_update current latest ≡ false) ↔ (¬ IsLaterMajor current latest)
is_major_update-minor_iff current latest =
    let iff = is_major_update_iff current latest in
    (
      λ e later. let yes_major = iff.1 later in absurd (ground arith),
      λ n. elim (Bool-cases (is_major_update current latest)) [
        | inl major ↦ absurd (n (iff.0 major))
        | inr minor ↦ minor
      ],
    )
