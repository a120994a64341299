-- ===== src/Cards/Delegated.antt =====
-- What a delegation token grants.
use grokingclawid.Common.{
  All, Bool-cases, Bytes, List, Memᴰ, Option, Result-cases, Text, [], all, arith, contains,
  contains_iff, inl, inr, leb_ℤ, length, none, ok, refl, sym, text_eq, text_eq_iff, true, ℤ, ◌+ℤ◌,
  ◌∷◌, ◌≡◌, ◌≤ℤ◌,
}
use grokingclawid.Models.{AgentCard, CryptoScheme, DelegationToken, ed25519, hybrid, ml_dsa_65}
use grokingclawid.Crypto.{Primitives, encode_public_key, mldsa_sign, sign, verify}
use grokingclawid.Crypto.Signatures.{Lawful, verify-sign}
use grokingclawid.Cards.{
  Json, build_token, delegate, sign_token, token_signing_payload, unsigned_token,
}

module _ (P : Primitives) (J : Json) where
  -- What the holder of the parent's key may grant: scopes of the parent, no longer than the parent
  -- lasts, under the parent's identity and scheme, and signed by the parent's Ed25519 key.
  pub record IsNarrower (parent : AgentCard) (token : DelegationToken) : Type 0 where
    pub scopes_held : All (λ s. Memᴰ s parent.scopes) token.scopes
    pub ends_in_time : token.expires_at ≤ℤ parent.expires_at
    pub from_parent : token.parent_id ≡ parent.id
    pub same_scheme : token.crypto_scheme ≡ parent.crypto_scheme
    pub payload : Text
    pub payload_of_token : token_signing_payload J token ≡ ok payload
    pub signed_by_parent : verify P parent.public_key payload token.signature ≡ ok true

  held :
      (scopes requested : List Text)
      → all (contains scopes) requested ≡ true
      → All (λ s. Memᴰ s scopes) requested
  unfolding all
  held scopes [] h = tt
  held scopes (r ∷ requested) h =
      ((contains_iff scopes r).0 (ground arith), held scopes requested (ground arith))

  sign_token_inv :
      (scheme : CryptoScheme) (ed_key ml_key : Bytes) (payload : Text) (sigs : Text × Option Text)
      → sign_token P scheme ed_key ml_key payload ≡ ok sigs
      → sigs.0 ≡ sign P ed_key payload
  unfolding sign_token
  sign_token_inv ed25519 ed_key ml_key payload sigs e = ground arith
  sign_token_inv ml_dsa_65 ed_key ml_key payload sigs e =
      elim (Result-cases (mldsa_sign P ml_key payload)) [
        | inl (why, bad) ↦ absurd (ground arith)
        | inr (g, good) ↦ ground arith
      ]
  sign_token_inv hybrid ed_key ml_key payload sigs e =
      elim (Result-cases (mldsa_sign P ml_key payload)) [
        | inl (why, bad) ↦ absurd (ground arith)
        | inr (g, good) ↦ ground arith
      ]

  -- A delegation that succeeds narrows its parent: every scope of the token is one of the parent's,
  -- the token expires no later than the parent, names the parent, has its scheme, and its signature
  -- verifies under the parent's Ed25519 key when the signing seed has 32 bytes.
  pub delegate-IsNarrower :
      Lawful P
      → (parent : AgentCard) (id to_name : Text) (requested : List Text) (duration now : ℤ)
        (ed_key ml_key : Bytes) (token : DelegationToken)
      → length ed_key ≡ 32
      → delegate P J parent id to_name requested duration now ed_key ml_key ≡ ok token
      → IsNarrower parent token
  unfolding delegate token_signing_payload unsigned_token build_token
  delegate-IsNarrower L parent id to_name requested duration now ed_key ml_key token n e =
      elim (Bool-cases (all (contains parent.scopes) requested)) [
        | inr missing ↦ absurd (ground arith)
        | inl have ↦ elim (Bool-cases (leb_ℤ (now +ℤ duration) parent.expires_at)) [
          | inr late ↦ absurd (ground arith)
          | inl timely ↦ elim (Bool-cases (text_eq pub_key parent.public_key)) [
            | inr other ↦ absurd (ground arith)
            | inl mine ↦ elim (Result-cases (token_signing_payload J draft)) [
              | inl (why, bad) ↦ absurd (ground arith)
              | inr (payload, text) ↦
                  elim (Result-cases (sign_token P parent.crypto_scheme ed_key ml_key payload)) [
                    | inl (why, bad) ↦ absurd (ground arith)
                    | inr (sigs, signed) ↦
                        let same : token ≡ granted sigs = ground arith in
                        rw same (narrower have timely mine payload text sigs signed)
                  ]
            ]
          ]
        ]
      ]
    where
      pub_key : Text
      pub_key = encode_public_key P (P.ed_public ed_key)

      draft : DelegationToken
      draft =
          build_token id parent.id to_name requested now (now +ℤ duration) [] none
            parent.crypto_scheme

      granted : Text × Option Text → DelegationToken
      granted sigs =
          build_token id parent.id to_name requested now (now +ℤ duration) sigs.0 sigs.1
            parent.crypto_scheme

      narrower :
          all (contains parent.scopes) requested ≡ true
          → leb_ℤ (now +ℤ duration) parent.expires_at ≡ true
          → text_eq pub_key parent.public_key ≡ true
          → (payload : Text) → token_signing_payload J draft ≡ ok payload
          → (sigs : Text × Option Text)
          → sign_token P parent.crypto_scheme ed_key ml_key payload ≡ ok sigs
          → IsNarrower parent (granted sigs)
      narrower have timely mine payload text sigs signed = record {
        scopes_held = held parent.scopes requested have;
        ends_in_time = ground arith;
        from_parent = refl;
        same_scheme = refl;
        payload = payload;
        payload_of_token = text;
        signed_by_parent =
            rw
              (
                sign_token_inv parent.crypto_scheme ed_key ml_key payload sigs signed,
                sym ((text_eq_iff pub_key parent.public_key).0 mine),
              )
              (verify-sign P L ed_key payload n);
      }
