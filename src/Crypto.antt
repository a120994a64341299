-- ===== src/Crypto.antt =====
-- crates/grokingclawid-core/src/crypto.rs: signatures and hashes over base64 and hex texts. The
-- crates that it calls (base64, hex, sha2, ed25519-dalek, fips204) are a parameter, `Primitives`; a
-- signing key is its 32-byte seed, a byte array its bytes. Key generation, which draws random bytes,
-- is not modelled.
pub mod Signatures
pub mod ChainHash
pub mod Toy
mod Tests
use grokingclawid.Common.{
  Bool, Bytes, Option, Result, Text, bad_base64, bad_key, bad_key_length, bad_signature_length,
  ensure, false, if◌then◌else◌, length, not, ok, ok_or, signing_failed, timestamp, ℕ, ℤ, ◌++◌, ◌==◌,
  ◌>>=◌, ◌>>◌, ◌∷◌,
}
use grokingclawid.Common.Decimal.{show_ℤ}

pub record Primitives : Type 0 where
  pub base64_encode : Bytes → Text
  pub base64_decode : Text → Option Bytes
  pub hex_encode : Bytes → Text
  pub sha256 : Bytes → Bytes
  -- `SigningKey::verifying_key().to_bytes()`, `SigningKey::sign`
  pub ed_public : Bytes → Bytes
  pub ed_sign : Bytes → Bytes → Bytes
  -- Whether `VerifyingKey::from_bytes` accepts; `VerifyingKey::verify(message, signature).is_ok()`
  pub ed_key_valid : Bytes → Bool
  pub ed_verify : Bytes → Bytes → Bytes → Bool
  -- The byte lengths of ML-DSA-65, and the operations of fips204 on arrays of these lengths
  pub ml_public_length : ℕ
  pub ml_secret_length : ℕ
  pub ml_signature_length : ℕ
  pub ml_key_valid : Bytes → Bool
  pub ml_secret_valid : Bytes → Bool
  -- The public key that belongs to a secret one
  pub ml_public : Bytes → Bytes
  pub ml_sign : Bytes → Bytes → Option Bytes
  pub ml_verify : Bytes → Bytes → Bytes → Bool

pub record HybridSignature : Type 0 where
  pub ed25519 : Text
  pub mldsa65 : Text

module _ (P : Primitives) where
  open P use {
    base64_encode, base64_decode, hex_encode, sha256, ed_public, ed_sign, ed_key_valid, ed_verify,
    ml_public_length, ml_secret_length, ml_signature_length, ml_key_valid, ml_secret_valid, ml_sign,
    ml_verify,
  }

  unfoldable pub sign : Bytes → Bytes → Text
  sign key message = base64_encode (ed_sign key message)

  unfoldable pub verify : Text → Bytes → Text → Result Bool
  verify public_key_b64 message signature_b64 = do
    pub_bytes ← ok_or (base64_decode public_key_b64) bad_base64
    sig_bytes ← ok_or (base64_decode signature_b64) bad_base64
    ensure (length pub_bytes == 32) bad_key_length
    ensure (length sig_bytes == 64) bad_signature_length
    ensure (ed_key_valid pub_bytes) bad_key
    ok (ed_verify pub_bytes message sig_bytes)

  unfoldable pub encode_public_key : Bytes → Text
  encode_public_key key = base64_encode key

  unfoldable pub mldsa_sign : Bytes → Bytes → Result Text
  mldsa_sign secret_key message = do
    ensure (length secret_key == ml_secret_length) bad_key_length
    ensure (ml_secret_valid secret_key) bad_key
    sig ← ok_or (ml_sign secret_key message) signing_failed
    ok (base64_encode sig)

  unfoldable pub mldsa_verify : Text → Bytes → Text → Result Bool
  mldsa_verify public_key_b64 message signature_b64 = do
    pk_bytes ← ok_or (base64_decode public_key_b64) bad_base64
    sig_bytes ← ok_or (base64_decode signature_b64) bad_base64
    ensure (length pk_bytes == ml_public_length) bad_key_length
    ensure (ml_key_valid pk_bytes) bad_key
    ensure (length sig_bytes == ml_signature_length) bad_signature_length
    ok (ml_verify pk_bytes message sig_bytes)

  unfoldable pub encode_mldsa_public_key : Bytes → Text
  encode_mldsa_public_key key_bytes = base64_encode key_bytes

  unfoldable pub hybrid_sign : Bytes → Bytes → Bytes → Result HybridSignature
  hybrid_sign ed_key mldsa_key message = do
    let ed25519_sig = sign ed_key message
    mldsa_sig ← mldsa_sign mldsa_key message
    ok (record { ed25519 = ed25519_sig; mldsa65 = mldsa_sig })

  unfoldable pub hybrid_verify : Text → Text → Bytes → HybridSignature → Result Bool
  hybrid_verify ed_public_b64 mldsa_public_b64 message sig = do
    ed_ok ← verify ed_public_b64 message sig.ed25519
    if not ed_ok then ok false else mldsa_verify mldsa_public_b64 message sig.mldsa65

  unfoldable pub sha256_hex : Bytes → Text
  sha256_hex bytes = hex_encode (sha256 bytes)

  -- The text that is hashed for an entry of the audit chain.
  unfoldable pub chain_input : Text → Text → Text → Text → ℤ → Text
  chain_input prev_hash agent_id action target timestamp =
      prev_hash ++ 0 ∷ (agent_id ++ 0 ∷ (action ++ 0 ∷ (target ++ 0 ∷ show_ℤ timestamp)))

  unfoldable pub compute_chain_hash : Text → Text → Text → Text → ℤ → Text
  compute_chain_hash prev_hash agent_id action target timestamp =
      sha256_hex (chain_input prev_hash agent_id action target timestamp)
