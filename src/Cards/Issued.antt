-- ===== src/Cards/Issued.antt =====
-- A card that `issue` makes is called valid by `verify`.
use mathlib.Core.Path.{subst}
use grokingclawid.Common.{
  Bytes, List, Option, Result-cases, Text, [], ap, arith, false, inl, inr, length, none, ok, some,
  sym, true, ℤ, ◌+ℤ◌, ◌<ℤ◌, ◌≡◌, ◌≤ℤ◌,
}
use grokingclawid.Models.{AgentCard, CryptoScheme, ed25519, hybrid, ml_dsa_65}
use grokingclawid.Crypto.{
  Primitives, encode_mldsa_public_key, encode_public_key, hybrid_sign, mldsa_sign, sign, verify,
}
use grokingclawid.Crypto.Signatures.{Lawful, mldsa_verify-sign, verify-sign}
use grokingclawid.Revocation.{Row}
use grokingclawid.Cards.{
  Json, Request, build_card, card_signing_payload, issue, revoked_in, unsigned, verify_card,
}
use grokingclawid.Cards.Unrevoked.{revoked_in_iff}
use grokingclawid.Cards.Valid.{PqValid, card_signing_payload-text, verify_card_iff}

module _ (P : Primitives) (J : Json) where
  -- What `issue` writes is signed as the card's scheme asks.
  issued_signed :
      Lawful P
      → (r : Request) (scheme : CryptoScheme) (ed_key ml_key : Bytes) (card : AgentCard)
      → length ed_key ≡ 32
      → issue P J r scheme ed_key ml_key ≡ ok card
      → (payload : Text) × (public_key : Text) × (pq_public_key : Option Text) × (signature : Text)
        × (pq_signature : Option Text) × (card
            ≡ build_card r scheme public_key pq_public_key signature pq_signature)
        × (card_signing_payload J card ≡ ok payload)
        × (verify P public_key payload signature ≡ ok true)
        × PqValid P scheme card payload
  unfolding issue card_signing_payload unsigned build_card hybrid_sign
  issued_signed L r ed25519 ed_key ml_key card n e =
      let pub_key = encode_public_key P (P.ed_public ed_key) in
      let draft = build_card r ed25519 pub_key none [] none in
      elim (Result-cases (card_signing_payload J draft)) [
        | inl (why, bad) ↦ absurd (ground arith)
        | inr (payload, text) ↦
            let same : card ≡ build_card r ed25519 pub_key none (sign P ed_key payload) none =
              ground arith in
            (
              payload,
              pub_key,
              none,
              sign P ed_key payload,
              none,
              same,
              rw same text,
              verify-sign P L ed_key payload n,
              tt,
            )
      ]
  issued_signed L r ml_dsa_65 ed_key ml_key card n e =
      let pub_key = encode_public_key P (P.ed_public ed_key) in
      let pq_key = encode_mldsa_public_key P (P.ml_public ml_key) in
      let draft = build_card r ml_dsa_65 pub_key (some pq_key) [] none in
      elim (Result-cases (card_signing_payload J draft)) [
        | inl (why, bad) ↦ absurd (ground arith)
        | inr (payload, text) ↦ elim (Result-cases (mldsa_sign P ml_key payload)) [
          | inl (why, bad) ↦ absurd (ground arith)
          | inr (g, signed) ↦
              let sig = sign P ed_key payload in
              let same : card ≡ build_card r ml_dsa_65 pub_key (some pq_key) sig (some g) =
                ground arith in
              (
                payload,
                pub_key,
                some pq_key,
                sig,
                some g,
                same,
                rw same text,
                verify-sign P L ed_key payload n,
                (
                  pq_key,
                  g,
                  ap (λ c. c.pq_public_key) same,
                  ap (λ c. c.pq_signature) same,
                  mldsa_verify-sign P L ml_key payload g signed,
                ),
              )
        ]
      ]
  issued_signed L r hybrid ed_key ml_key card n e =
      let pub_key = encode_public_key P (P.ed_public ed_key) in
      let pq_key = encode_mldsa_public_key P (P.ml_public ml_key) in
      let draft = build_card r hybrid pub_key (some pq_key) [] none in
      elim (Result-cases (card_signing_payload J draft)) [
        | inl (why, bad) ↦ absurd (ground arith)
        | inr (payload, text) ↦ elim (Result-cases (mldsa_sign P ml_key payload)) [
          | inl (why, bad) ↦ absurd (ground arith)
          | inr (g, signed) ↦
              let sig = sign P ed_key payload in
              let same : card ≡ build_card r hybrid pub_key (some pq_key) sig (some g) =
                ground arith in
              (
                payload,
                pub_key,
                some pq_key,
                sig,
                some g,
                same,
                rw same text,
                verify-sign P L ed_key payload n,
                (
                  pq_key,
                  g,
                  ap (λ c. c.pq_public_key) same,
                  ap (λ c. c.pq_signature) same,
                  mldsa_verify-sign P L ml_key payload g signed,
                ),
              )
        ]
      ]

  -- A card that `issue` makes with a 32-byte seed is called valid by `verify` from the instant of its
  -- issue until just before it expires, as long as its id is not in the registry.
  pub issue-verify_card :
      Lawful P
      → (r : Request) (scheme : CryptoScheme) (ed_key ml_key : Bytes) (card : AgentCard) (now : ℤ)
        (registry : Option (List Row))
      → length ed_key ≡ 32
      → issue P J r scheme ed_key ml_key ≡ ok card
      → r.now ≤ℤ now
      → now <ℤ (r.now +ℤ r.duration)
      → revoked_in registry r.id ≡ false
      → verify_card P J card now registry ≡ ok true
  unfolding build_card
  issue-verify_card L r scheme ed_key ml_key card now registry n e start stop free =
      let (payload, pub_key, pq_pub, sig, pq_sig, same, text, ed, pq) =
        issued_signed L r scheme ed_key ml_key card n e in
      (verify_card_iff P J card now registry).1 (record {
        payload = payload;
        payload_of_card = card_signing_payload-text P J card payload text;
        ed_signed = subst (λ c. verify P c.public_key payload c.signature ≡ ok true) (sym same) ed;
        pq_signed = subst (λ x. PqValid P x card payload) (sym (ap (λ c. c.crypto_scheme) same)) pq;
        not_expired = rw same stop;
        not_before = rw same start;
        not_revoked = (revoked_in_iff registry card.id).0 (rw same free);
      })
