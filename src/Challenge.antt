-- ===== src/Challenge.antt =====
-- crates/grokingclawid-core/src/challenge.rs: the challenge that an agent issues to a peer, the signed
-- response, and the checks on it. The 16 bytes of a `Uuid` (`as_bytes`) are a parameter, the clock,
-- the new id and the random nonce are arguments. Of a check, the display text is left out.
pub mod Accept
pub mod Honest
pub mod SignBytes
mod Tests
use grokingclawid.Common.{
  Bool, Bytes, List, Option, Result, Text, [], all, any, ascii, false, if◌then◌else◌, leb_ℤ, ltb_ℤ,
  none, ok, pos, seconds, some, suc, text_eq, timestamp, to_u64, true, unwrap_or, zero, ℕ, ℤ, ◌%◌,
  ◌++◌, ◌+ℤ◌, ◌/◌, ◌>>=◌, ◌>>◌, ◌||◌, ◌∷◌,
}
use grokingclawid.Models.{AgentCard, CryptoScheme, hybrid, ml_dsa_65, scheme_eq}
use grokingclawid.Crypto.{Primitives, mldsa_sign, mldsa_verify, verify}

pub record Challenge : Type 0 where
  pub id : Text
  pub nonce : Text
  pub issuer : Text
  pub required_scopes : List Text
  pub issued_at : ℤ
  pub expires_at : ℤ
  pub min_crypto : Option Text

pub record ChallengeResponse : Type 0 where
  pub challenge_id : Text
  pub agent_card : AgentCard
  pub signature : Text
  pub pq_signature : Option Text
  pub responded_at : ℤ

pub record Check : Type 0 where
  pub name : Text
  pub passed : Bool

pub record VerificationResult : Type 0 where
  pub verified : Bool
  pub checks : List Check
  pub agent_id : Option Text
  pub agent_name : Option Text

module _ (P : Primitives) where
  unfoldable pub create_challenge :
      Text → List Text → Option ℤ → Bool → ℤ → Text → Bytes → Challenge
  create_challenge issuer required_scopes ttl_seconds require_pq now new_id nonce_bytes =
      let ttl : ℤ = elim ttl_seconds [ none ↦ pos 30 | some t ↦ t ] in
      record {
        id = new_id;
        nonce = P.base64_encode nonce_bytes;
        issuer = issuer;
        required_scopes = required_scopes;
        issued_at = now;
        expires_at = now +ℤ seconds ttl;
        min_crypto = if require_pq then some (ascii "hybrid") else none;
      }

-- The text of an optional field, empty when it is unset.
unfoldable pub text_or_empty : Option Text → Text
text_or_empty none = []
text_or_empty (some t) = t

-- The scopes one after another, a NUL between any two.
unfoldable pub join_nul : List Text → Bytes
join_nul [] = []
join_nul (s ∷ []) = s
join_nul (s ∷ t ∷ rest) = s ++ 0 ∷ join_nul (t ∷ rest)

-- `to_le_bytes` of a number of the given count of bytes.
unfoldable pub le_bytes : ℕ → ℕ → Bytes
le_bytes zero n = []
le_bytes (suc k) n = n % 256 ∷ le_bytes k (n / 256)

module _ (as_bytes : Text → Bytes) where
  unfoldable pub challenge_to_sign_bytes : Challenge → Bytes
  challenge_to_sign_bytes challenge =
      as_bytes challenge.id
      ++ 0
        ∷ (challenge.nonce
            ++ 0
              ∷ (challenge.issuer
                  ++ 0
                    ∷ (le_bytes 8 (to_u64 (timestamp challenge.issued_at))
                        ++ 0
                          ∷ (le_bytes 8 (to_u64 (timestamp challenge.expires_at))
                              ++ 0
                                ∷ (text_or_empty challenge.min_crypto
                                    ++ 0 ∷ join_nul challenge.required_scopes)))))

-- Check 7.
unfoldable pub meets_minimum : Text → CryptoScheme → Bool
meets_minimum min scheme =
    if text_eq min (ascii "hybrid")
    then scheme_eq scheme hybrid
    else if text_eq min (ascii "ml-dsa-65")
    then scheme_eq scheme ml_dsa_65 || scheme_eq scheme hybrid
    else true

unfoldable pub crypto_checks : Option Text → CryptoScheme → List Check
crypto_checks none scheme = []
crypto_checks (some min) scheme =
    record { name = ascii "crypto_scheme"; passed = meets_minimum min scheme } ∷ []

unfoldable pub scopes_ok : List Text → List Text → Bool
scopes_ok required held = all (λ r. any (λ s. text_eq s r) held) required

module _ (P : Primitives) where
  -- The post-quantum signature of the response, when there is a secret key.
  unfoldable pub sign_pq : Option Bytes → Bytes → Result (Option Text)
  sign_pq none message = ok none
  sign_pq (some key) message = do sig ← mldsa_sign P key message; ok (some sig)

  unfoldable pub pq_ok : Option Text → Option Text → Bytes → Bool
  pq_ok none pq_pub message = false
  pq_ok (some pq_sig) none message = false
  pq_ok (some pq_sig) (some pq_pub) message = unwrap_or (mldsa_verify P pq_pub message pq_sig) false

  -- Check 5, which only a hybrid card has.
  unfoldable pub pq_checks : ChallengeResponse → Bytes → List Check
  pq_checks response message =
      if scheme_eq response.agent_card.crypto_scheme hybrid
      then record {
        name = ascii "mldsa65_signature";
        passed = pq_ok response.pq_signature response.agent_card.pq_public_key message;
      }
        ∷ []
      else []

module _ (P : Primitives) (as_bytes : Text → Bytes) where
  unfoldable pub respond_to_challenge :
      Challenge → AgentCard → Bytes → Option Bytes → ℤ → Result ChallengeResponse
  respond_to_challenge challenge card ed_signing_key mldsa_secret_key now = do
    let sign_bytes = challenge_to_sign_bytes as_bytes challenge
    pq_sig ← sign_pq P mldsa_secret_key sign_bytes
    ok (record {
      challenge_id = challenge.id;
      agent_card = card;
      signature = P.base64_encode (P.ed_sign ed_signing_key sign_bytes);
      pq_signature = pq_sig;
      responded_at = now;
    })

  unfoldable pub checks_of : Challenge → ChallengeResponse → ℤ → List Check
  checks_of challenge response now =
      let card = response.agent_card in
      let sign_bytes = challenge_to_sign_bytes as_bytes challenge in
      record { name = ascii "challenge_expiry"; passed = leb_ℤ now challenge.expires_at }
      ∷ record { name = ascii "challenge_id"; passed = text_eq response.challenge_id challenge.id }
      ∷ record { name = ascii "card_expiry"; passed = ltb_ℤ now card.expires_at }
      ∷ record {
        name = ascii "ed25519_signature";
        passed = unwrap_or (verify P card.public_key sign_bytes response.signature) false;
      }
      ∷ (pq_checks P response sign_bytes
          ++ record {
            name = ascii "scopes";
            passed = scopes_ok challenge.required_scopes card.scopes;
          }
            ∷ crypto_checks challenge.min_crypto card.crypto_scheme)

  unfoldable pub verify_response : Challenge → ChallengeResponse → ℤ → VerificationResult
  verify_response challenge response now =
      let checks : List Check = checks_of challenge response now in
      let all_passed : Bool = all (λ c. c.passed) checks in
      record {
        verified = all_passed;
        checks = checks;
        agent_id = if all_passed then some response.agent_card.id else none;
        agent_name = if all_passed then some response.agent_card.name else none;
      }
