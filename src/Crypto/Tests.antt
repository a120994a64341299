-- ===== src/Crypto/Tests.antt =====
-- The theorems on signatures at concrete keys.
use grokingclawid.Common.{
  Bytes, arith, ascii, bad_key_length, err, false, ok, pos, refl, text_eq, true, ◌++◌, ◌≡◌, ◌⊎◌,
}
use grokingclawid.Crypto.{
  HybridSignature, encode_mldsa_public_key, encode_public_key, hybrid_sign, hybrid_verify,
  mldsa_sign, sign, verify,
}
use grokingclawid.Crypto.Signatures.{hybrid_verify-sign}
use grokingclawid.Crypto.ChainHash.{Collision, SameFields, compute_chain_hash_binding}
use grokingclawid.Crypto.Toy.{sized, toy, toy-Lawful}

abbrev seed : Bytes
seed = sized 32 (ascii "seed")

abbrev ml_seed : Bytes
ml_seed = ascii "mldk"

abbrev signed_hi : HybridSignature
signed_hi = record {
  ed25519 = sized 64 (seed ++ ascii "hi");
  mldsa65 = sized 8 (ml_seed ++ ascii "hi");
}

signs : hybrid_sign toy seed ml_seed (ascii "hi") ≡ ok signed_hi
unfolding hybrid_sign sign mldsa_sign
signs = refl

hybrid_verify-sign_test :
    hybrid_verify toy
      (encode_public_key toy seed)
      (encode_mldsa_public_key toy (sized 4 ml_seed))
      (ascii "hi")
      signed_hi
    ≡ ok true
hybrid_verify-sign_test =
    hybrid_verify-sign toy toy-Lawful seed ml_seed (ascii "hi") signed_hi refl signs

-- A message that was changed, and keys of a wrong length.
rejects :
    (hybrid_verify toy seed ml_seed (ascii "ho") signed_hi ≡ ok false)
    × (verify toy (ascii "short") (ascii "hi") signed_hi.ed25519 ≡ err bad_key_length)
    × (mldsa_sign toy (ascii "short") (ascii "hi") ≡ err bad_key_length)
unfolding hybrid_verify verify mldsa_sign text_eq
rejects = (refl, refl, refl)

compute_chain_hash_binding_test :
    Collision toy
    ⊎ SameFields
        (ascii "genesis")
        (ascii "a")
        (ascii "b")
        (ascii "c")
        (pos 7)
        (ascii "genesis")
        (ascii "a")
        (ascii "b")
        (ascii "c")
        (pos 7)
compute_chain_hash_binding_test =
    compute_chain_hash_binding toy (ascii "genesis") (ascii "a") (ascii "b") (ascii "c") (pos 7)
      (ascii "genesis") (ascii "a") (ascii "b") (ascii "c") (pos 7) (omega arith) (omega arith) refl
