-- ===== src/Cards/Valid.antt =====
-- When `verify` calls a card valid.
use grokingclawid.Common.{
  Bool, List, Option, Option-cases, Result-cases, Text, [], ap, arith, inl, inr, none, ok, refl,
  some, sym, true, ℤ, ◌<ℤ◌, ◌↔◌, ◌∙◌, ◌≡◌, ◌≤ℤ◌,
}
use grokingclawid.Models.{AgentCard, CryptoScheme, ed25519, hybrid, ml_dsa_65}
use grokingclawid.Crypto.{Primitives, mldsa_verify, verify}
use grokingclawid.Revocation.{Row}
use grokingclawid.Cards.Unrevoked.{Unrevoked, revoked_in_iff}
use grokingclawid.Cards.{Json, card_signing_payload, signatures_valid, unsigned, verify_card}

module _ (P : Primitives) where
  -- A card of a post-quantum scheme also carries an ML-DSA key and a signature under it.
  abbrev pub PqValid : CryptoScheme → AgentCard → Text → Type 0
  PqValid ed25519 card payload = Unit
  PqValid ml_dsa_65 card payload =
      (k : Text) × (s : Text) × (card.pq_public_key ≡ some k)
      × (card.pq_signature ≡ some s)
      × (mldsa_verify P k payload s ≡ ok true)
  PqValid hybrid card payload =
      (k : Text) × (s : Text) × (card.pq_public_key ≡ some k)
      × (card.pq_signature ≡ some s)
      × (mldsa_verify P k payload s ≡ ok true)

  signatures_sound :
      (scheme : CryptoScheme) (card : AgentCard) (payload : Text) (valid : Bool × Bool)
      → signatures_valid P scheme card payload ≡ ok valid
      → valid.0 ≡ true
      → valid.1 ≡ true
      → (verify P card.public_key payload card.signature ≡ ok true) × PqValid scheme card payload
  unfolding signatures_valid
  signatures_sound ed25519 card payload valid e a b =
      elim (Result-cases (verify P card.public_key payload card.signature)) [
        | inl (why, bad) ↦ absurd (ground arith)
        | inr (ed, good) ↦ let same : ed ≡ true = ground arith in (good ∙ ap ok same, tt)
      ]
  signatures_sound ml_dsa_65 card payload valid e a b =
      elim (Result-cases (verify P card.public_key payload card.signature)) [
        | inl (why, bad) ↦ absurd (ground arith)
        | inr (ed, ed_ok) ↦ elim (Option-cases card.pq_public_key) [
          | inl bare ↦ absurd (ground arith)
          | inr (k, keyed) ↦ elim (Option-cases card.pq_signature) [
            | inl bare ↦ absurd (ground arith)
            | inr (g, signed) ↦ elim (Result-cases (mldsa_verify P k payload g)) [
              | inl (why, bad) ↦ absurd (ground arith)
              | inr (pq, pq_ok) ↦
                  let both : valid ≡ (ed, pq) = ground arith in
                  let ed_true : ed ≡ true = sym (ap (λ v. v.0) both) ∙ a in
                  let pq_true : pq ≡ true = sym (ap (λ v. v.1) both) ∙ b in
                  (ed_ok ∙ ap ok ed_true, (k, g, keyed, signed, pq_ok ∙ ap ok pq_true))
            ]
          ]
        ]
      ]
  signatures_sound hybrid card payload valid e a b =
      elim (Result-cases (verify P card.public_key payload card.signature)) [
        | inl (why, bad) ↦ absurd (ground arith)
        | inr (ed, ed_ok) ↦ elim (Option-cases card.pq_public_key) [
          | inl bare ↦ absurd (ground arith)
          | inr (k, keyed) ↦ elim (Option-cases card.pq_signature) [
            | inl bare ↦ absurd (ground arith)
            | inr (g, signed) ↦ elim (Result-cases (mldsa_verify P k payload g)) [
              | inl (why, bad) ↦ absurd (ground arith)
              | inr (pq, pq_ok) ↦
                  let both : valid ≡ (ed, pq) = ground arith in
                  let ed_true : ed ≡ true = sym (ap (λ v. v.0) both) ∙ a in
                  let pq_true : pq ≡ true = sym (ap (λ v. v.1) both) ∙ b in
                  (ed_ok ∙ ap ok ed_true, (k, g, keyed, signed, pq_ok ∙ ap ok pq_true))
            ]
          ]
        ]
      ]

  signatures_complete :
      (scheme : CryptoScheme) (card : AgentCard) (payload : Text)
      → verify P card.public_key payload card.signature ≡ ok true
      → PqValid scheme card payload
      → signatures_valid P scheme card payload ≡ ok (true, true)
  unfolding signatures_valid
  signatures_complete ed25519 card payload h q = rw h refl
  signatures_complete ml_dsa_65 card payload h (k, s, a, b, q) =
      rw (signatures_valid, a, b, q, h) refl
  signatures_complete hybrid card payload h (k, s, a, b, q) = rw (signatures_valid, h, a, b, q) refl

module _ (P : Primitives) (J : Json) where
  -- The text of the card without its signatures is signed as its scheme asks, the present lies in its
  -- time, and it is not revoked.
  pub record IsValid (card : AgentCard) (now : ℤ) (registry : Option (List Row)) : Type 0 where
    pub payload : Text
    pub payload_of_card :
        J.card_text (record card { signature = []; pq_signature = none }) ≡ some payload
    pub ed_signed : verify P card.public_key payload card.signature ≡ ok true
    pub pq_signed : PqValid P card.crypto_scheme card payload
    pub not_expired : now <ℤ card.expires_at
    pub not_before : card.issued_at ≤ℤ now
    pub not_revoked : Unrevoked registry card.id

  -- The text that is signed is that of the card without its signatures.
  pub card_signing_payload-text :
      (card : AgentCard) (payload : Text)
      → card_signing_payload J card ≡ ok payload
      → J.card_text (record card { signature = []; pq_signature = none }) ≡ some payload
  unfolding card_signing_payload unsigned
  card_signing_payload-text card payload e = elim (Option-cases (J.card_text (unsigned card))) [
    | inl bad ↦ absurd (ground arith)
    | inr (text, good) ↦ let same : text ≡ payload = ground arith in good ∙ ap some same
  ]

  verify_card-IsValid :
      (card : AgentCard) (now : ℤ) (registry : Option (List Row))
      → verify_card P J card now registry ≡ ok true
      → IsValid card now registry
  unfolding verify_card card_signing_payload unsigned
  verify_card-IsValid card now registry e = elim (Option-cases (J.card_text (unsigned card))) [
    | inl bad ↦ absurd (ground arith)
    | inr (payload, text) ↦
        elim (Result-cases (signatures_valid P card.crypto_scheme card payload)) [
          | inl (why, bad) ↦ absurd (ground arith)
          | inr (valid, good) ↦
              let (ed, pq) =
                signatures_sound P card.crypto_scheme card payload valid good (ground arith)
                  (ground arith) in
              record {
                payload = payload;
                payload_of_card = text;
                ed_signed = ed;
                pq_signed = pq;
                not_expired = ground arith;
                not_before = ground arith;
                not_revoked = (revoked_in_iff registry card.id).0 (ground arith);
              }
        ]
  ]

  -- `verify` calls a card valid if and only if its Ed25519 signature verifies, its ML-DSA signature
  -- too when its scheme is ml-dsa-65 or hybrid, the present lies between its two instants, and the
  -- registry, if it opens, has no row for its id.
  pub verify_card_iff :
      (card : AgentCard) (now : ℤ) (registry : Option (List Row))
      → (verify_card P J card now registry ≡ ok true) ↔ IsValid card now registry
  unfolding verify_card card_signing_payload unsigned
  verify_card_iff card now registry = (
    verify_card-IsValid card now registry,
    λ v.
        let sigs =
          signatures_complete P card.crypto_scheme card v.payload v.ed_signed v.pq_signed in
        let unrevoked = (revoked_in_iff registry card.id).1 v.not_revoked in
        rw (verify_card, card_signing_payload, v.payload_of_card, sigs)
          (ground (arith, v.not_expired, v.not_before, unrevoked)),
  )
