-- ===== src/Crypto/Signatures.antt =====
-- What the primitives are documented to do, and what crypto.rs then promises about signatures.
use grokingclawid.Common.{
  Bytes, Option-cases, Result, Text, arith, err, inl, inr, length, ok, refl, some, true, ◌≡◌,
}
use grokingclawid.Crypto.{
  HybridSignature, Primitives, encode_mldsa_public_key, encode_public_key, hybrid_sign,
  hybrid_verify, mldsa_sign, mldsa_verify, sign, verify,
}

-- The documented behaviour of the crates: encodings are read back, and what a key signs verifies
-- under the key's public half.
pub record Lawful (P : Primitives) : Type 0 where
  pub decode-encode : (b : Bytes) → P.base64_decode (P.base64_encode b) ≡ some b
  pub length-ed_public : (k : Bytes) → length k ≡ 32 → length (P.ed_public k) ≡ 32
  pub length-ed_sign : (k m : Bytes) → length k ≡ 32 → length (P.ed_sign k m) ≡ 64
  pub ed_public_valid : (k : Bytes) → length k ≡ 32 → P.ed_key_valid (P.ed_public k) ≡ true
  pub ed_verify-sign :
      (k m : Bytes) → length k ≡ 32 → P.ed_verify (P.ed_public k) m (P.ed_sign k m) ≡ true
  pub length-ml_public : (k : Bytes) → length (P.ml_public k) ≡ P.ml_public_length
  pub ml_public_valid : (k : Bytes) → P.ml_key_valid (P.ml_public k) ≡ true
  pub length-ml_sign : (k m g : Bytes) → P.ml_sign k m ≡ some g → length g ≡ P.ml_signature_length
  pub ml_verify-sign :
      (k m g : Bytes) → P.ml_sign k m ≡ some g → P.ml_verify (P.ml_public k) m g ≡ true

module _ (P : Primitives) (L : Lawful P) where
  -- What a key signs, `verify` accepts under the encoded public key.
  pub verify-sign :
      (key message : Bytes)
      → length key ≡ 32
      → verify P (encode_public_key P (P.ed_public key)) message (sign P key message) ≡ ok true
  unfolding verify encode_public_key sign
  verify-sign key message h = rw (
    L.decode-encode (P.ed_public key),
    L.decode-encode (P.ed_sign key message),
    L.length-ed_public key h,
    L.length-ed_sign key message h,
    L.ed_public_valid key h,
    L.ed_verify-sign key message h,
  )

  pub mldsa_verify-sign :
      (key message : Bytes) (sig : Text)
      → mldsa_sign P key message ≡ ok sig
      → mldsa_verify P (encode_mldsa_public_key P (P.ml_public key)) message sig ≡ ok true
  unfolding mldsa_verify encode_mldsa_public_key mldsa_sign
  mldsa_verify-sign key message sig h = elim (Option-cases (P.ml_sign key message)) [
    | inl failed ↦ ground arith
    | inr (g, e) ↦
        let s : sig ≡ P.base64_encode g = ground arith in
        rw
          (
            s,
            L.decode-encode (P.ml_public key),
            L.decode-encode g,
            L.length-ml_public key,
            L.ml_public_valid key,
            L.length-ml_sign key message g e,
            L.ml_verify-sign key message g e,
          )
          (ground arith)
  ]

  -- A hybrid signature that the two private keys of a pair produce is accepted under the two public
  -- keys of the pair, when the Ed25519 seed has 32 bytes and the signing does not fail.
  pub hybrid_verify-sign :
      (ed_key ml_key message : Bytes) (sig : HybridSignature)
      → length ed_key ≡ 32
      → hybrid_sign P ed_key ml_key message ≡ ok sig
      → hybrid_verify P
          (encode_public_key P (P.ed_public ed_key))
          (encode_mldsa_public_key P (P.ml_public ml_key))
          message
          sig
        ≡ ok true
  unfolding hybrid_verify hybrid_sign
  hybrid_verify-sign ed_key ml_key message sig n h = go (mldsa_sign P ml_key message) refl
    where
      go :
          (r : Result Text)
          → mldsa_sign P ml_key message ≡ r
          → hybrid_verify P
              (encode_public_key P (P.ed_public ed_key))
              (encode_mldsa_public_key P (P.ml_public ml_key))
              message
              sig
            ≡ ok true
      go (err why) e = ground arith
      go (ok pq) e =
          let s : sig ≡ record { ed25519 = sign P ed_key message; mldsa65 = pq } = ground arith in
          rw (s, verify-sign ed_key message n) (mldsa_verify-sign ml_key message pq e)

  -- Both signatures decide: the hybrid check passes only if each of the two checks does.
  pub hybrid_verify_both :
      (ed_pub ml_pub : Text) (message : Bytes) (sig : HybridSignature)
      → hybrid_verify P ed_pub ml_pub message sig ≡ ok true
      → (verify P ed_pub message sig.ed25519 ≡ ok true)
        × (mldsa_verify P ml_pub message sig.mldsa65 ≡ ok true)
  unfolding hybrid_verify
  hybrid_verify_both ed_pub ml_pub message sig h = ground arith
