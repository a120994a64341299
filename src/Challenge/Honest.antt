-- ===== src/Challenge/Honest.antt =====
-- The honest responder is accepted.
use grokingclawid.Common.{
  All, Bytes, Memᴰ, Option, Result, Text, arith, err, length, none, ok, refl, some, true, ℤ, ◌<ℤ◌,
  ◌≡◌, ◌≤ℤ◌,
}
use grokingclawid.Models.{AgentCard, CryptoScheme, ed25519, hybrid, ml_dsa_65}
use grokingclawid.Crypto.{Primitives, encode_mldsa_public_key, encode_public_key, mldsa_sign, sign}
use grokingclawid.Crypto.Signatures.{Lawful, mldsa_verify-sign, verify-sign}
use grokingclawid.Challenge.{
  Challenge, ChallengeResponse, challenge_to_sign_bytes, respond_to_challenge, sign_pq,
  verify_response,
}
use grokingclawid.Challenge.Accept.{Accepted, Meets, PqSigned, verified_iff}

module _ (P : Primitives) (as_bytes : Text → Bytes) where
  verified-agent_id :
      (challenge : Challenge) (response : ChallengeResponse) (now : ℤ)
      → (verify_response P as_bytes challenge response now).verified ≡ true
      → (verify_response P as_bytes challenge response now).agent_id ≡ some response.agent_card.id
  unfolding verify_response
  verified-agent_id challenge response now h = rw h

  -- The responder of a hybrid card signs with the secret half of the card's ML-DSA key.
  abbrev pub HoldsPq : CryptoScheme → Option Text → Option Bytes → Type 0
  HoldsPq ed25519 pq_pub pq_key = Unit
  HoldsPq ml_dsa_65 pq_pub pq_key = Unit
  HoldsPq hybrid pq_pub pq_key =
      (k : Bytes) × (pq_key ≡ some k) × (pq_pub ≡ some (encode_mldsa_public_key P (P.ml_public k)))

  sign_pq-PqSigned :
      Lawful P
      → (scheme : CryptoScheme) (pq_pub : Option Text) (pq_key : Option Bytes) (message : Bytes)
        (sig : Option Text)
      → HoldsPq scheme pq_pub pq_key
      → sign_pq P pq_key message ≡ ok sig
      → PqSigned P scheme sig pq_pub message
  unfolding sign_pq
  sign_pq-PqSigned L ed25519 pq_pub pq_key message sig h e = tt
  sign_pq-PqSigned L ml_dsa_65 pq_pub pq_key message sig h e = tt
  sign_pq-PqSigned L hybrid pq_pub none message sig (k, a, b) e = absurd (ground arith)
  sign_pq-PqSigned L hybrid pq_pub (some key) message sig (k, a, b) e =
      go (mldsa_sign P key message) refl
    where
      go : (r : Result Text) → mldsa_sign P key message ≡ r → PqSigned P hybrid sig pq_pub message
      go (err why) q = absurd (ground arith)
      go (ok s) q =
          let same : key ≡ k = cc in
          (
            s,
            encode_mldsa_public_key P (P.ml_public key),
            ground arith,
            rw same b,
            mldsa_verify-sign P L key message s q,
          )

  -- Whoever holds the keys of a card answers a challenge in a way that `verify_response` accepts, as
  -- long as challenge and card last, the card lists the required scopes and its scheme is strong
  -- enough; the result then names the agent. No condition is on the signature of the card itself.
  pub honest_verified :
      Lawful P
      → (challenge : Challenge) (card : AgentCard) (ed_key : Bytes) (pq_key : Option Bytes)
        (now later : ℤ) (response : ChallengeResponse)
      → length ed_key ≡ 32
      → card.public_key ≡ encode_public_key P (P.ed_public ed_key)
      → HoldsPq card.crypto_scheme card.pq_public_key pq_key
      → respond_to_challenge P as_bytes challenge card ed_key pq_key now ≡ ok response
      → later ≤ℤ challenge.expires_at
      → later <ℤ card.expires_at
      → All (λ s. Memᴰ s card.scopes) challenge.required_scopes
      → Meets challenge.min_crypto card.crypto_scheme
      → ((verify_response P as_bytes challenge response later).verified ≡ true)
        × ((verify_response P as_bytes challenge response later).agent_id ≡ some card.id)
  unfolding respond_to_challenge sign
  honest_verified L challenge card ed_key pq_key now later response n pk holds e t1 t2 scoped
        strong =
      go (sign_pq P pq_key (challenge_to_sign_bytes as_bytes challenge)) refl
    where
      message : Bytes
      message = challenge_to_sign_bytes as_bytes challenge

      go :
          (r : Result (Option Text))
          → sign_pq P pq_key (challenge_to_sign_bytes as_bytes challenge) ≡ r
          → ((verify_response P as_bytes challenge response later).verified ≡ true)
            × ((verify_response P as_bytes challenge response later).agent_id ≡ some card.id)
      go (err why) q = absurd (ground arith)
      go (ok sig) q =
          let sent : ChallengeResponse = record {
            challenge_id = challenge.id;
            agent_card = card;
            signature = P.base64_encode (P.ed_sign ed_key message);
            pq_signature = sig;
            responded_at = now;
          } in
          let same : response ≡ sent = ground arith in
          let accepted : Accepted P as_bytes challenge sent later = record {
            in_time = t1;
            answers = refl;
            card_in_time = t2;
            signed = rw pk (verify-sign P L ed_key message n);
            pq_signed =
                sign_pq-PqSigned L card.crypto_scheme card.pq_public_key pq_key message sig holds q;
            scoped = scoped;
            strong = strong;
          } in
          let v = (verified_iff P as_bytes challenge sent later).1 accepted in
          rw same (v, verified-agent_id challenge sent later v)
