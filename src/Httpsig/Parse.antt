-- ===== src/Httpsig/Parse.antt =====
-- `parse_signature_input` and `parse_signature` of crates/grokingclawid-core/src/httpsig.rs. A slice
-- whose start is beyond its end panics. The whitespace that is trimmed is that of ASCII.
use grokingclawid.Common.{
  ==_iff, Avoids, Bool, Bool-cases, Bytes, Error, List, Option, Option-cases, Result, Text, [], ap,
  append-injective, arith, ascii, bad_base64, drop, if◌then◌else◌, inl, inr, is_space, leb, length,
  ltb, ltb→lt, lt→ltb, map, none, not, ok, ok_or, or_else, parse_failed, pos, refl, some,
  split_once, sub_ℕ, suc, sym, take, text_eq, ℕ, ℤ, ◌&&◌, ◌*◌, ◌++◌, ◌+◌, ◌-◌, ◌<◌, ◌==◌, ◌>>=◌,
  ◌^◌, ◌↔◌, ◌∙◌, ◌∷◌, ◌≡◌, ◌≢◌,
}
use grokingclawid.Crypto.{Primitives}
use grokingclawid.Httpsig.{
  Component, SignatureParams, authority, ed25519_only, header, method_of, path, query, target_uri,
  with_mldsa,
}

pub data Parsed (A : Type 0) : Type 0 where
  panics : Parsed A
  failed : Error → Parsed A
  parsed : A → Parsed A

unfoldable pub trim_start : (ℕ → Bool) → Text → Text
trim_start p [] = []
trim_start p (c ∷ s) = let rest = trim_start p s in if p c then rest else c ∷ s

unfoldable pub trim_end : (ℕ → Bool) → Text → Text
trim_end p [] = []
trim_end p (c ∷ s) = let rest = trim_end p s in if p c && text_eq rest [] then [] else c ∷ rest

-- `trim()`, and `trim_matches(c)`
unfoldable pub trim_by : (ℕ → Bool) → Text → Text
trim_by p s = trim_end p (trim_start p s)

-- `s.find(c)`
unfoldable pub position : ℕ → Text → Option ℕ
position c [] = none
position c (x ∷ s) =
    let later : Option ℕ = elim (position c s) [ none ↦ none | some n ↦ some (suc n) ] in
    if x == c then some 0 else later

-- `s.split(c)`, of which `word` is what has been read of a part.
unfoldable pub split_on : ℕ → Text → Text → List Text
split_on c word [] = word ∷ []
split_on c word (x ∷ s) =
    let next = split_on c (if x == c then [] else word ++ x ∷ []) s in
    if x == c then word ∷ next else next

unfoldable pub words_from : Text → Text → List Text
words_from word [] = if text_eq word [] then [] else word ∷ []
words_from word (x ∷ s) =
    let next = words_from (if is_space x then [] else word ++ x ∷ []) s in
    if is_space x && not (text_eq word []) then word ∷ next else next

unfoldable pub digits : ℕ → Text → Option ℕ
digits acc [] = some acc
digits acc (c ∷ s) =
    let rest = digits (acc * 10 + (c - 48)) s in if leb 48 c && leb c 57 then rest else none

-- `str::parse::<i64>()`: a sign, at least one digit, and no number beyond 64 bits.
unfoldable pub unsigned_i64 : ℕ → Text → Option ℕ
unsigned_i64 limit [] = none
unsigned_i64 limit (c ∷ s) = elim (digits 0 (c ∷ s)) [
  | none ↦ none
  | some n ↦ if leb n limit then some n else none
]

unfoldable pub positive_i64 : Text → Option ℤ
positive_i64 s = elim (unsigned_i64 (2 ^ 63 - 1) s) [ none ↦ none | some n ↦ some (pos n) ]

unfoldable pub negative_i64 : Text → Option ℤ
negative_i64 s = elim (unsigned_i64 (2 ^ 63) s) [ none ↦ none | some n ↦ some (sub_ℕ 0 n) ]

unfoldable pub parse_i64 : Text → Option ℤ
parse_i64 [] = none
parse_i64 (c ∷ s) =
    if c == 45 then negative_i64 s else if c == 43 then positive_i64 s else positive_i64 (c ∷ s)

unfoldable pub component_named : Text → Component
component_named name =
    if text_eq name (ascii "@method")
    then method_of
    else if text_eq name (ascii "@target-uri")
    then target_uri
    else if text_eq name (ascii "@authority")
    then authority
    else if text_eq name (ascii "@path")
    then path
    else if text_eq name (ascii "@query")
    then query
    else header name

unfoldable pub parse_components : Text → List Component
parse_components s = map (λ w. component_named (trim_by (λ c. c == 34) w)) (words_from [] s)

-- One `key=value` after the components; any other key is passed over.
unfoldable pub set_param : Text → Text → SignatureParams → SignatureParams
set_param key value p =
    let algorithm =
      if text_eq value (ascii "ed25519+ml-dsa-65") then with_mldsa else ed25519_only in
    if text_eq key (ascii "keyid")
    then record p { keyid = value }
    else if text_eq key (ascii "alg")
    then record p { alg = algorithm }
    else if text_eq key (ascii "created")
    then record p { created = or_else (parse_i64 value) (pos 0) }
    else if text_eq key (ascii "expires")
    then record p { expires = some (or_else (parse_i64 value) (pos 0)) }
    else if text_eq key (ascii "nonce")
    then record p { nonce = some value }
    else p

unfoldable pub parse_params : List Text → SignatureParams → SignatureParams
parse_params [] p = p
parse_params (part ∷ parts) p = elim (split_once 61 (trim_by is_space part)) [
  | none ↦ parse_params parts p
  | some (key, value) ↦ parse_params parts (set_param key (trim_by (λ c. c == 34) value) p)
]

-- `SignatureParams::default()` with the label.
unfoldable pub default_params : Text → ℤ → SignatureParams
default_params label now = record {
  keyid = [];
  alg = ed25519_only;
  created = now;
  expires = none;
  nonce = none;
  label = label;
}

-- The slices between the parentheses and after them.
unfoldable pub slice : Text → Text → ℕ → ℕ → ℤ → Parsed (List Component × SignatureParams)
slice label rest start end now =
    if ltb end (start + 1)
    then panics
    else parsed (
      parse_components (take (end - (start + 1)) (drop (start + 1) rest)),
      parse_params (split_on 59 [] (drop (end + 1) rest)) (default_params label now),
    )

unfoldable pub parse_rest :
    Text → Text → Option ℕ → Option ℕ → ℤ → Parsed (List Component × SignatureParams)
parse_rest label rest none end now = failed parse_failed
parse_rest label rest (some start) none now = failed parse_failed
parse_rest label rest (some start) (some end) now = slice label rest start end now

unfoldable pub parse_signature_input : Text → ℤ → Parsed (List Component × SignatureParams)
parse_signature_input input now = elim (split_once 61 (trim_by is_space input)) [
  | none ↦ failed parse_failed
  | some (label, rest) ↦ parse_rest label rest (position 40 rest) (position 41 rest) now
]

unfoldable pub parse_signature : Primitives → Text → Result (Text × Bytes)
parse_signature P input = do
  parts ← ok_or (split_once 61 input) parse_failed
  sig_bytes ← ok_or (P.base64_decode (trim_by (λ c. c == 58) parts.1)) bad_base64
  ok (parts.0, sig_bytes)

position_sound :
    (c : ℕ) (s : Text) (n : ℕ)
    → position c s ≡ some n
    → (a : Text) × (b : Text) × (s ≡ a ++ c ∷ b) × Avoids c a × (length a ≡ n)
unfolding position
position_sound c [] n e = absurd (ground arith)
position_sound c (x ∷ s) n e = elim (Bool-cases (x == c)) [
  | inl here ↦
      let same : x ≡ c = (==_iff x c).0 here in
      let first : 0 ≡ n = ground arith in ([], s, ap (λ y. y ∷ s) same, tt, first)
  | inr away ↦ elim (Option-cases (position c s)) [
    | inl gone ↦ absurd (ground arith)
    | inr (m, found) ↦
        let (a, b, whole, free, size) = position_sound c s m found in
        let apart : x ≢ c = λ same. ground (arith, ==_iff x c) in
        let next : suc m ≡ n = ground arith in
        (x ∷ a, b, ap (λ r. x ∷ r) whole, (apart, free), ap suc size ∙ next)
  ]
]

position-append : (c : ℕ) (a b : Text) → Avoids c a → position c (a ++ c ∷ b) ≡ some (length a)
unfolding position
position-append c [] b h = ground arith
position-append c (x ∷ a) b (p, h) = ground (arith, position-append c a b h)

-- The first `)` of a text stands before its first `(`.
abbrev pub ClosesFirst : Text → Type 0
ClosesFirst rest =
    (a : Text) × (b : Text) × (p : Text) × (q : Text) × (rest ≡ a ++ 41 ∷ b)
    × (rest ≡ p ++ 40 ∷ q)
    × Avoids 41 a
    × Avoids 40 p
    × (length a < length p)

slice-panics :
    (label rest : Text) (start end : ℕ) (now : ℤ)
    → (slice label rest start end now ≡ panics) ↔ (end < start + 1)
unfolding slice
slice-panics label rest start end now = elim (Bool-cases (ltb end (start + 1))) [
  | inl late ↦ (λ e. ltb→lt end (start + 1) late, λ h. rw (slice, late) refl)
  | inr fine ↦ (
    λ e. absurd (ground arith),
    λ h. let late = lt→ltb end (start + 1) h in absurd (ground arith),
  )
]

rest-panics_iff :
    (label rest : Text) (now : ℤ)
    → (parse_rest label rest (position 40 rest) (position 41 rest) now ≡ panics) ↔ ClosesFirst rest
unfolding parse_rest
rest-panics_iff label rest now = (
  λ e. elim (Option-cases (position 40 rest)) [
    | inl none_open ↦
        let bad : failed parse_failed ≡ panics = rw (parse_rest, none_open) at e in
        absurd (ground arith)
    | inr (start, opens) ↦ elim (Option-cases (position 41 rest)) [
      | inl none_closed ↦
          let bad : failed parse_failed ≡ panics = rw (parse_rest, opens, none_closed) at e in
          absurd (ground arith)
      | inr (end, closes) ↦
          let (p, q, left, free_p, size_p) = position_sound 40 rest start opens in
          let (a, b, right, free_a, size_a) = position_sound 41 rest end closes in
          let late =
            (slice-panics label rest start end now).0 (rw (parse_rest, opens, closes) at e) in
          let apart : length a ≢ length p = λ same.
            let (x, y) = append-injective a p (41 ∷ b) (40 ∷ q) same (sym right ∙ left) in
            ground arith in
          (a, b, p, q, right, left, free_a, free_p, ground (arith, apart))
    ]
  ],
  λ (a, b, p, q, right, left, free_a, free_p, less).
      let opens : position 40 rest ≡ some (length p) = rw left (position-append 40 p q free_p) in
      let closes : position 41 rest ≡ some (length a) = rw right (position-append 41 a b free_a) in
      rw (opens, closes, parse_rest)
        ((slice-panics label rest (length p) (length a) now).1 (omega arith)),
)

-- `parse_signature_input` panics exactly on the headers, trimmed, whose part after the first `=` has
-- its first `)` before its first `(`.
pub parse_signature_input-panics_iff :
    (input : Text) (now : ℤ)
    → (parse_signature_input input now ≡ panics) ↔ (
        (label : Text) × (rest : Text) × (split_once 61 (trim_by is_space input)
          ≡ some (label, rest))
        × ClosesFirst rest)
unfolding parse_signature_input
parse_signature_input-panics_iff input now =
    elim (Option-cases (split_once 61 (trim_by is_space input))) [
      | inl whole ↦
          (λ e. absurd (ground arith), λ (label, rest, found, closes). absurd (ground arith))
      | inr (parts, found) ↦ (
        λ e. (
          parts.0,
          parts.1,
          found,
          (rest-panics_iff parts.0 parts.1 now).0 (rw (parse_signature_input, found) at e),
        ),
        λ (label, rest, again, closes).
            rw (parse_signature_input, again) ((rest-panics_iff label rest now).1 closes),
      )
    ]
