-- ===== src/Httpsig/Verify.antt =====
-- `verify_request`, `verify_request_hybrid` and `signed_headers` of
-- crates/grokingclawid-core/src/httpsig.rs.
use grokingclawid.Common.{
  Bool, Bytes, List, Option, Result, Text, [], ascii, bad_base64, bad_key, bad_key_length,
  bad_signature_length, ensure, err, false, length, ltb_ℤ, none, ok, ok_or, some, ℤ, ◌==◌, ◌>>=◌,
  ◌>>◌, ◌∷◌,
}
use grokingclawid.Crypto.{Primitives, mldsa_verify}
use grokingclawid.Httpsig.{
  Component, HttpRequest, SignatureParams, SignedRequest, Url, VerificationResult, as_str,
  build_signature_base,
}
use grokingclawid.Httpsig.Parse.{
  Parsed, failed, panics, parse_signature, parse_signature_input, parsed,
}

unfoldable pub of_result : {A : Type 0} → Result A → Parsed A
of_result (err why) = failed why
of_result (ok a) = parsed a

-- The signature of a base, under a key in base64.
unfoldable pub verify_bytes : Primitives → Text → Text → Bytes → Result Bool
verify_bytes P ed_public_key_b64 sig_base sig_bytes = do
  pub_bytes ← ok_or (P.base64_decode ed_public_key_b64) bad_base64
  ensure (length pub_bytes == 32) bad_key_length
  ensure (P.ed_key_valid pub_bytes) bad_key
  ensure (length sig_bytes == 64) bad_signature_length
  ok (P.ed_verify pub_bytes sig_base sig_bytes)

unfoldable pub has_expired : ℤ → Option ℤ → Bool
has_expired now none = false
has_expired now (some e) = ltb_ℤ e now

module _ (parse_url : Text → Option Url) (P : Primitives) where
  -- From the parameters on.
  unfoldable pub verify_parsed :
      HttpRequest → ℤ → Text → Text → List Component × SignatureParams → Result VerificationResult
  verify_parsed r now signature ed_public_key_b64 (components, p) = do
    named_sig ← parse_signature P signature
    sig_base ← build_signature_base parse_url r components p
    ed_valid ← verify_bytes P ed_public_key_b64 sig_base named_sig.1
    ok (record {
      ed25519_valid = ed_valid;
      mldsa65_valid = none;
      keyid = p.keyid;
      alg = as_str p.alg;
      created = p.created;
      expired = has_expired now p.expires;
    })

  unfoldable pub verify_with :
      HttpRequest
      → ℤ
      → Text
      → Text
      → Parsed (List Component × SignatureParams)
      → Parsed VerificationResult
  verify_with r now signature ed_public_key_b64 panics = panics
  verify_with r now signature ed_public_key_b64 (failed why) = failed why
  verify_with r now signature ed_public_key_b64 (parsed input) =
      of_result (verify_parsed r now signature ed_public_key_b64 input)

  unfoldable pub verify_request : HttpRequest → ℤ → Text → Text → Text → Parsed VerificationResult
  verify_request r now signature_input signature ed_public_key_b64 =
      verify_with r now signature ed_public_key_b64 (parse_signature_input signature_input now)

  unfoldable pub add_mldsa :
      HttpRequest
      → Text
      → Text
      → List Component × SignatureParams
      → VerificationResult
      → Result VerificationResult
  add_mldsa r pq_signature mldsa_public_key_b64 (components, p) result = do
    sig_base ← build_signature_base parse_url r components p
    named_sig ← parse_signature P pq_signature
    pq_valid ← mldsa_verify P mldsa_public_key_b64 sig_base (P.base64_encode named_sig.1)
    ok (record result { mldsa65_valid = some pq_valid; alg = ascii "ed25519+ml-dsa-65" })

  -- The second half of `verify_request_hybrid`, which parses the header again.
  unfoldable pub add_mldsa_with :
      HttpRequest
      → Text
      → Text
      → Parsed (List Component × SignatureParams)
      → Parsed VerificationResult
      → Parsed VerificationResult
  add_mldsa_with r pq_signature mldsa_public_key_b64 input panics = panics
  add_mldsa_with r pq_signature mldsa_public_key_b64 input (failed why) = failed why
  add_mldsa_with r pq_signature mldsa_public_key_b64 panics (parsed result) = panics
  add_mldsa_with r pq_signature mldsa_public_key_b64 (failed why) (parsed result) = failed why
  add_mldsa_with r pq_signature mldsa_public_key_b64 (parsed input) (parsed result) =
      of_result (add_mldsa r pq_signature mldsa_public_key_b64 input result)

  unfoldable pub verify_request_hybrid :
      HttpRequest → ℤ → Text → Text → Text → Text → Text → Parsed VerificationResult
  verify_request_hybrid r now signature_input signature pq_signature ed_public_key_b64
        mldsa_public_key_b64 =
      add_mldsa_with r pq_signature mldsa_public_key_b64 (parse_signature_input signature_input now)
        (verify_request r now signature_input signature ed_public_key_b64)

unfoldable pub signed_headers : SignedRequest → List (Text × Text)
signed_headers signed =
    (ascii "Signature-Input", signed.signature_input)
    ∷ (ascii "Signature", signed.signature)
    ∷ elim signed.pq_signature [ none ↦ [] | some pq_sig ↦ (ascii "Signature-PQ", pq_sig) ∷ [] ]
