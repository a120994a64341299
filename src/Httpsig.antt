-- ===== src/Httpsig.antt =====
-- crates/grokingclawid-core/src/httpsig.rs: HTTP message signatures after RFC 9421, with Ed25519 and
-- ML-DSA-65. `Url::parse` is an argument. Methods and header names are of ASCII characters, as HTTP
-- has them. The clock is in seconds.
pub mod Messages
pub mod Parse
pub mod Verify
mod Tests
use grokingclawid.Common.{
  Bool, Bytes, List, Option, Result, Text, [], ascii, if◌then◌else◌, leb, map, none, ok, ok_or,
  or_else, parse_failed, some, text_eq, ℕ, ℤ, ◌&&◌, ◌++◌, ◌-◌, ◌>>=◌, ◌>>◌, ◌∷◌,
}
use grokingclawid.Common.Decimal.{show_ℕ, show_ℤ}
use grokingclawid.Crypto.{Primitives, mldsa_sign}
use grokingclawid.License.{to_lowercase}

pub data Component : Type 0 where
  method_of target_uri authority path query : Component
  header : Text → Component

pub data SignatureAlgorithm : Type 0 where
  ed25519_only with_mldsa : SignatureAlgorithm

pub record SignatureParams : Type 0 where
  pub keyid : Text
  pub alg : SignatureAlgorithm
  pub created : ℤ
  pub expires : Option ℤ
  pub nonce : Option Text
  pub label : Text

pub record HttpRequest : Type 0 where
  pub method : Text
  pub url : Text
  pub headers : List (Text × Text)
  pub body : Option Bytes

pub record SignedRequest : Type 0 where
  pub request : HttpRequest
  pub signature_input : Text
  pub signature : Text
  pub pq_signature : Option Text

pub record VerificationResult : Type 0 where
  pub ed25519_valid : Bool
  pub mldsa65_valid : Option Bool
  pub keyid : Text
  pub alg : Text
  pub created : ℤ
  pub expired : Bool

-- What is read of a parsed `Url`.
pub record Url : Type 0 where
  pub host_str : Option Text
  pub port : Option ℕ
  pub url_path : Text
  pub url_query : Option Text

-- `"` on both sides.
unfoldable pub quoted : Text → Text
quoted s = 34 ∷ (s ++ 34 ∷ [])

unfoldable pub identifier : Component → Text
identifier method_of = quoted (ascii "@method")
identifier target_uri = quoted (ascii "@target-uri")
identifier authority = quoted (ascii "@authority")
identifier path = quoted (ascii "@path")
identifier query = quoted (ascii "@query")
identifier (header name) = quoted (to_lowercase name)

unfoldable pub as_str : SignatureAlgorithm → Text
as_str ed25519_only = ascii "ed25519"
as_str with_mldsa = ascii "ed25519+ml-dsa-65"

unfoldable pub to_uppercase : Text → Text
to_uppercase [] = []
to_uppercase (c ∷ s) =
    let rest = to_uppercase s in if leb 97 c && leb c 122 then (c - 32) ∷ rest else c ∷ rest

unfoldable pub join : Text → List Text → Text
join sep [] = []
join sep (x ∷ []) = x
join sep (x ∷ y ∷ xs) = x ++ (sep ++ join sep (y ∷ xs))

unfoldable pub authority_text : Url → Text
authority_text u = or_else u.host_str [] ++ elim u.port [ none ↦ [] | some p ↦ 58 ∷ show_ℕ p ]

-- The value of the first header of that name, whatever the case of its letters.
unfoldable pub header_value : Text → List (Text × Text) → Text
header_value lower_name [] = []
header_value lower_name ((k, v) ∷ hs) =
    let rest = header_value lower_name hs in if text_eq (to_lowercase k) lower_name then v else rest

unfoldable pub component_value : HttpRequest → Url → Component → Text
component_value r u method_of = to_uppercase r.method
component_value r u target_uri = r.url
component_value r u authority = authority_text u
component_value r u path = u.url_path
component_value r u query = elim u.url_query [ none ↦ [] | some q ↦ 63 ∷ q ]
component_value r u (header name) = header_value (to_lowercase name) r.headers

-- The components and the parameters, as they stand in the signature base and in the header.
unfoldable pub params_text : List Component → SignatureParams → Text
params_text components p =
    40
    ∷ (join (ascii " ") (map identifier components)
        ++ (ascii ");keyid="
            ++ (quoted p.keyid
                ++ (ascii ";alg="
                    ++ (quoted (as_str p.alg)
                        ++ (ascii ";created="
                            ++ (show_ℤ p.created
                                ++ (elim p.expires [
                                  | none ↦ []
                                  | some e ↦ ascii ";expires=" ++ show_ℤ e
                                ]
                                    ++ elim p.nonce [
                                      | none ↦ []
                                      | some n ↦ ascii ";nonce=" ++ quoted n
                                    ]))))))))

unfoldable pub signature_header : Text → Text → Text
signature_header label b64 = label ++ (ascii "=:" ++ (b64 ++ ascii ":"))

unfoldable pub input_header : List Component → SignatureParams → Text
input_header components p = p.label ++ 61 ∷ params_text components p

module _ (parse_url : Text → Option Url) where
  unfoldable pub build_signature_base : HttpRequest → List Component → SignatureParams → Result Text
  build_signature_base r components p = do
    u ← ok_or (parse_url r.url) parse_failed
    let lines =
        map (λ c. identifier c ++ (ascii ": " ++ component_value r u c)) components
        ++ (ascii "\"@signature-params\": " ++ params_text components p) ∷ []
    ok (join (10 ∷ []) lines)

  module _ (P : Primitives) where
    unfoldable pub sign_request :
        HttpRequest → List Component → SignatureParams → Bytes → Result SignedRequest
    sign_request r components p signing_key = do
      sig_base ← build_signature_base r components p
      ok (record {
        request = r;
        signature_input = input_header components p;
        signature = signature_header p.label (P.base64_encode (P.ed_sign signing_key sig_base));
        pq_signature = none;
      })

    unfoldable pub sign_request_hybrid :
        HttpRequest → List Component → SignatureParams → Bytes → Bytes → Result SignedRequest
    sign_request_hybrid r components p signing_key mldsa_secret_key = do
      sig_base ← build_signature_base r components p
      pq_sig_b64 ← mldsa_sign P mldsa_secret_key sig_base
      ok (record {
        request = r;
        signature_input = input_header components p;
        signature = signature_header p.label (P.base64_encode (P.ed_sign signing_key sig_base));
        pq_signature = some (signature_header (p.label ++ ascii "-pq") pq_sig_b64);
      })
