-- ===== src/Challenge/SignBytes.antt =====
-- What the signed bytes of a challenge bind: fields without NUL cannot shift across the separators.
use grokingclawid.Common.{
  All, Avoids, Avoids-separated, Bytes, List, Text, [], ap, append-injective, arith, length,
  neg_part, negsuc, pos, pos_part, refl, sep-injective, suc, sym, timestamp, to_u64, zero, ℕ, ℤ,
  ◌%◌, ◌++◌, ◌/◌, ◌<◌, ◌^◌, ◌∙◌, ◌∷◌, ◌≡◌, ◌≢◌, ◌≤◌,
}
use grokingclawid.Challenge.{Challenge, challenge_to_sign_bytes, join_nul, le_bytes, text_or_empty}

length-le_bytes : (k n : ℕ) → length (le_bytes k n) ≡ k
unfolding le_bytes
length-le_bytes zero n = refl
length-le_bytes (suc k) n = ap suc (length-le_bytes k (n / 256))

le_bytes-injective : (k a b : ℕ) → a < 256 ^ k → b < 256 ^ k → le_bytes k a ≡ le_bytes k b → a ≡ b
unfolding le_bytes
le_bytes-injective zero a b p q e = omega arith
le_bytes-injective (suc k) a b p q e =
    let low : a % 256 ≡ b % 256 = cc in
    let high : le_bytes k (a / 256) ≡ le_bytes k (b / 256) = cc in
    let same = le_bytes-injective k (a / 256) (b / 256) (omega arith) (omega arith) high in
    omega arith

-- The range of `i64`.
abbrev pub IsI64 : ℤ → Type 0
IsI64 t = (pos_part t < 2 ^ 63) × (neg_part t ≤ 2 ^ 63)

to_u64-bound : (t : ℤ) → IsI64 t → to_u64 t < 256 ^ 8
unfolding to_u64
to_u64-bound (pos n) h = ground arith
to_u64-bound (negsuc n) h = ground arith

to_u64-injective : (s t : ℤ) → IsI64 s → IsI64 t → to_u64 s ≡ to_u64 t → s ≡ t
unfolding to_u64
to_u64-injective (pos m) (pos n) h k e = ap pos e
to_u64-injective (pos m) (negsuc n) h k e = absurd (ground arith)
to_u64-injective (negsuc m) (pos n) h k e = absurd (ground arith)
to_u64-injective (negsuc m) (negsuc n) h k e = let same : m ≡ n = ground arith in ap negsuc same

stamp-injective :
    (s t : ℤ) → IsI64 s → IsI64 t → le_bytes 8 (to_u64 s) ≡ le_bytes 8 (to_u64 t) → s ≡ t
stamp-injective s t h k e =
    to_u64-injective s t h k
      (le_bytes-injective 8 (to_u64 s) (to_u64 t) (to_u64-bound s h) (to_u64-bound t k) e)

tail_eq : {x y : ℕ} {s t : Bytes} → x ∷ s ≡ y ∷ t → s ≡ t
tail_eq e = cc

-- A stamp and the separator after it can be split off.
stamp_split :
    (s t : ℤ) (a b : Bytes)
    → IsI64 (timestamp s)
    → IsI64 (timestamp t)
    → le_bytes 8 (to_u64 (timestamp s)) ++ 0 ∷ a ≡ le_bytes 8 (to_u64 (timestamp t)) ++ 0 ∷ b
    → (timestamp s ≡ timestamp t) × (a ≡ b)
stamp_split s t a b h k e =
    let m = to_u64 (timestamp s) in
    let n = to_u64 (timestamp t) in
    let (x, y) =
      append-injective (le_bytes 8 m) (le_bytes 8 n) _ _
        (length-le_bytes 8 m ∙ sym (length-le_bytes 8 n)) e in
    (stamp-injective (timestamp s) (timestamp t) h k x, tail_eq y)

-- At least one text, and none with a NUL.
abbrev pub Joinable : List Text → Type 0
Joinable texts = (texts ≢ []) × All (Avoids 0) texts

join_nul-injective :
    (s t : Text) (a b : List Text)
    → All (Avoids 0) (s ∷ a)
    → All (Avoids 0) (t ∷ b)
    → join_nul (s ∷ a) ≡ join_nul (t ∷ b)
    → s ∷ a ≡ t ∷ b
unfolding join_nul
join_nul-injective s t [] [] h k e = ap (λ x. x ∷ []) e
join_nul-injective s t [] (u ∷ b) (p, h) k e =
    absurd (Avoids-separated 0 s t (join_nul (u ∷ b)) p e)
join_nul-injective s t (r ∷ a) [] h (q, k) e =
    absurd (Avoids-separated 0 t s (join_nul (r ∷ a)) q (sym e))
join_nul-injective s t (r ∷ a) (u ∷ b) (p, h) (q, k) e =
    let (x, y) = sep-injective 0 s t (join_nul (r ∷ a)) (join_nul (u ∷ b)) p q e in
    let z = join_nul-injective r u a b h k y in cc

joined-same : (a b : List Text) → Joinable a → Joinable b → join_nul a ≡ join_nul b → a ≡ b
joined-same [] b (p, h) k e = absurd (p refl)
joined-same (s ∷ a) [] h (q, k) e = absurd (q refl)
joined-same (s ∷ a) (t ∷ b) (p, h) (q, k) e = join_nul-injective s t a b h k e

module _ (as_bytes : Text → Bytes) where
  -- The fields of a challenge fit the layout: the id has 16 bytes, the texts have no NUL, there is
  -- at least one scope, and the instants are `i64` seconds.
  pub record Fits (c : Challenge) : Type 0 where
    pub id_16 : length (as_bytes c.id) ≡ 16
    pub nonce_clear : Avoids 0 c.nonce
    pub issuer_clear : Avoids 0 c.issuer
    pub minimum_clear : Avoids 0 (text_or_empty c.min_crypto)
    pub scopes_clear : Joinable c.required_scopes
    pub issued_i64 : IsI64 (timestamp c.issued_at)
    pub expires_i64 : IsI64 (timestamp c.expires_at)

  -- The two challenges say the same, to the second, an unset minimum being the empty one.
  pub record SameChallenge (c d : Challenge) : Type 0 where
    pub same_id : as_bytes c.id ≡ as_bytes d.id
    pub same_nonce : c.nonce ≡ d.nonce
    pub same_issuer : c.issuer ≡ d.issuer
    pub same_issued : timestamp c.issued_at ≡ timestamp d.issued_at
    pub same_expires : timestamp c.expires_at ≡ timestamp d.expires_at
    pub same_minimum : text_or_empty c.min_crypto ≡ text_or_empty d.min_crypto
    pub same_scopes : c.required_scopes ≡ d.required_scopes

  -- Challenges that fit the layout and have the same signed bytes say the same: no byte of one field
  -- can be read as part of another, so a signature for one challenge answers no other.
  pub challenge_to_sign_bytes_binding :
      (c d : Challenge)
      → Fits c
      → Fits d
      → challenge_to_sign_bytes as_bytes c ≡ challenge_to_sign_bytes as_bytes d
      → SameChallenge c d
  unfolding challenge_to_sign_bytes
  challenge_to_sign_bytes_binding c d f g e =
      let (i, e1) =
        append-injective (as_bytes c.id) (as_bytes d.id) _ _ (f.id_16 ∙ sym g.id_16) e in
      let (n, e2) = sep-injective 0 c.nonce d.nonce _ _ f.nonce_clear g.nonce_clear (tail_eq e1) in
      let (s, e3) = sep-injective 0 c.issuer d.issuer _ _ f.issuer_clear g.issuer_clear e2 in
      let (x, e4) = stamp_split c.issued_at d.issued_at _ _ f.issued_i64 g.issued_i64 e3 in
      let (y, e5) = stamp_split c.expires_at d.expires_at _ _ f.expires_i64 g.expires_i64 e4 in
      let (m, e6) =
        sep-injective 0 (text_or_empty c.min_crypto) (text_or_empty d.min_crypto) _ _
          f.minimum_clear g.minimum_clear e5 in
      record {
        same_id = i;
        same_nonce = n;
        same_issuer = s;
        same_issued = x;
        same_expires = y;
        same_minimum = m;
        same_scopes =
            joined-same c.required_scopes d.required_scopes f.scopes_clear g.scopes_clear e6;
      }
