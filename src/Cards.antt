-- ===== src/Cards.antt =====
-- crates/grokingclawid-cli/src/commands/issue.rs, verify.rs and delegate.rs: issuing an agent card,
-- checking one, and delegating from one. The JSON text that is signed (serde_json, and the canonical
-- form of issue.rs) is a parameter; new ids, generated or decoded keys, the parsed scopes and the
-- parsed time to live are arguments. Reading the files and printing are left out, and so is the
-- entry in the audit log, which Audit models.
pub mod Unrevoked
pub mod Valid
pub mod Issued
pub mod Delegated
mod Tests
use grokingclawid.Common.{
  Bool, Bytes, List, Option, Result, Text, [], all, contains, ensure, expires_after_parent, false,
  key_mismatch, leb_ℤ, ltb_ℤ, missing_key, none, not, ok, ok_or, scope_not_held,
  serialization_failed, some, text_eq, true, ℤ, ◌&&◌, ◌+ℤ◌, ◌>>=◌, ◌>>◌,
}
use grokingclawid.Models.{
  AgentCard, AgentType, CryptoScheme, DelegationToken, ed25519, hybrid, ml_dsa_65,
}
use grokingclawid.Crypto.{
  Primitives, encode_mldsa_public_key, encode_public_key, hybrid_sign, mldsa_sign, mldsa_verify,
  sign, verify,
}
use grokingclawid.Revocation.{Row, is_revoked}

pub record Json : Type 0 where
  pub card_text : AgentCard → Option Text
  pub token_text : DelegationToken → Option Text

-- What a card says besides its keys and signatures.
pub record Request : Type 0 where
  pub id : Text
  pub name : Text
  pub owner : Text
  pub scopes : List Text
  pub now : ℤ
  pub duration : ℤ
  pub kind : AgentType
  pub spiffe_id : Option Text

unfoldable pub build_card :
    Request → CryptoScheme → Text → Option Text → Text → Option Text → AgentCard
build_card r scheme public_key pq_public_key signature pq_signature = record {
  id = r.id;
  name = r.name;
  owner = r.owner;
  scopes = r.scopes;
  public_key = public_key;
  pq_public_key = pq_public_key;
  signature = signature;
  pq_signature = pq_signature;
  crypto_scheme = scheme;
  issued_at = r.now;
  expires_at = r.now +ℤ r.duration;
  kind = r.kind;
  parent_id = none;
  spiffe_id = r.spiffe_id;
}

-- The card with its signatures emptied.
unfoldable pub unsigned : AgentCard → AgentCard
unsigned c = record {
  id = c.id;
  name = c.name;
  owner = c.owner;
  scopes = c.scopes;
  public_key = c.public_key;
  pq_public_key = c.pq_public_key;
  signature = [];
  pq_signature = none;
  crypto_scheme = c.crypto_scheme;
  issued_at = c.issued_at;
  expires_at = c.expires_at;
  kind = c.kind;
  parent_id = c.parent_id;
  spiffe_id = c.spiffe_id;
}

unfoldable pub build_token :
    Text → Text → Text → List Text → ℤ → ℤ → Text → Option Text → CryptoScheme → DelegationToken
build_token id parent_id agent_name scopes issued_at expires_at signature pq_signature scheme =
    record {
      id = id;
      parent_id = parent_id;
      agent_name = agent_name;
      scopes = scopes;
      issued_at = issued_at;
      expires_at = expires_at;
      signature = signature;
      pq_signature = pq_signature;
      crypto_scheme = scheme;
    }

unfoldable pub unsigned_token : DelegationToken → DelegationToken
unsigned_token t = record {
  id = t.id;
  parent_id = t.parent_id;
  agent_name = t.agent_name;
  scopes = t.scopes;
  issued_at = t.issued_at;
  expires_at = t.expires_at;
  signature = [];
  pq_signature = none;
  crypto_scheme = t.crypto_scheme;
}

module _ (J : Json) where
  unfoldable pub card_signing_payload : AgentCard → Result Text
  card_signing_payload card = ok_or (J.card_text (unsigned card)) serialization_failed

  unfoldable pub token_signing_payload : DelegationToken → Result Text
  token_signing_payload token = ok_or (J.token_text (unsigned_token token)) serialization_failed

-- A registry that does not open revokes nothing.
unfoldable pub revoked_in : Option (List Row) → Text → Bool
revoked_in none id = false
revoked_in (some table) id = is_revoked table id

module _ (P : Primitives) where
  -- The two signature checks of `verify`; an Ed25519 card has no second one. The ML-DSA key and
  -- signature of another card must be there.
  unfoldable pub signatures_valid : CryptoScheme → AgentCard → Text → Result (Bool × Bool)
  signatures_valid ed25519 card payload = do
    ed_ok ← verify P card.public_key payload card.signature
    ok (ed_ok, true)
  signatures_valid ml_dsa_65 card payload = do
    pq_pub ← ok_or card.pq_public_key missing_key
    pq_sig ← ok_or card.pq_signature missing_key
    pq_ok ← mldsa_verify P pq_pub payload pq_sig
    ed_ok ← verify P card.public_key payload card.signature
    ok (ed_ok, pq_ok)
  signatures_valid hybrid card payload = do
    ed_ok ← verify P card.public_key payload card.signature
    pq_pub ← ok_or card.pq_public_key missing_key
    pq_sig ← ok_or card.pq_signature missing_key
    pq_ok ← mldsa_verify P pq_pub payload pq_sig
    ok (ed_ok, pq_ok)

  -- The signatures of a token.
  unfoldable pub sign_token : CryptoScheme → Bytes → Bytes → Text → Result (Text × Option Text)
  sign_token ed25519 ed_key ml_key payload = ok (sign P ed_key payload, none)
  sign_token ml_dsa_65 ed_key ml_key payload = do
    pq_sig ← mldsa_sign P ml_key payload
    ok (sign P ed_key payload, some pq_sig)
  sign_token hybrid ed_key ml_key payload = do
    pq_sig ← mldsa_sign P ml_key payload
    ok (sign P ed_key payload, some pq_sig)

module _ (P : Primitives) (J : Json) where
  -- `issue`, with the key pairs that the scheme generates: an Ed25519 seed and an ML-DSA secret key.
  unfoldable pub issue : Request → CryptoScheme → Bytes → Bytes → Result AgentCard
  issue r ed25519 ed_key ml_key = do
    let ed_pub = encode_public_key P (P.ed_public ed_key)
    payload ← card_signing_payload J (build_card r ed25519 ed_pub none [] none)
    ok (build_card r ed25519 ed_pub none (sign P ed_key payload) none)
  issue r ml_dsa_65 ed_key ml_key = do
    let ed_pub = encode_public_key P (P.ed_public ed_key)
    let pq_pub = encode_mldsa_public_key P (P.ml_public ml_key)
    payload ← card_signing_payload J (build_card r ml_dsa_65 ed_pub (some pq_pub) [] none)
    pq_sig ← mldsa_sign P ml_key payload
    ok (build_card r ml_dsa_65 ed_pub (some pq_pub) (sign P ed_key payload) (some pq_sig))
  issue r hybrid ed_key ml_key = do
    let ed_pub = encode_public_key P (P.ed_public ed_key)
    let pq_pub = encode_mldsa_public_key P (P.ml_public ml_key)
    payload ← card_signing_payload J (build_card r hybrid ed_pub (some pq_pub) [] none)
    hsig ← hybrid_sign P ed_key ml_key payload
    ok (build_card r hybrid ed_pub (some pq_pub) hsig.ed25519 (some hsig.mldsa65))

  -- The verdict of `verify`.
  unfoldable pub verify_card : AgentCard → ℤ → Option (List Row) → Result Bool
  verify_card card now registry = do
    payload ← card_signing_payload J card
    valid ← signatures_valid P card.crypto_scheme card payload
    ok (
        valid.0
        && valid.1
        && ltb_ℤ now card.expires_at
        && leb_ℤ card.issued_at now
        && not (revoked_in registry card.id))

  unfoldable pub delegate :
      AgentCard → Text → Text → List Text → ℤ → ℤ → Bytes → Bytes → Result DelegationToken
  delegate parent id to_name requested duration now ed_key ml_key = do
    ensure (all (contains parent.scopes) requested) scope_not_held
    let expires_at = now +ℤ duration
    ensure (leb_ℤ expires_at parent.expires_at) expires_after_parent
    ensure (text_eq (encode_public_key P (P.ed_public ed_key)) parent.public_key) key_mismatch
    payload ←
        token_signing_payload J
          (build_token id parent.id to_name requested now expires_at [] none parent.crypto_scheme)
    sigs ← sign_token P parent.crypto_scheme ed_key ml_key payload
    ok (
        build_token id parent.id to_name requested now expires_at sigs.0 sigs.1
          parent.crypto_scheme)
