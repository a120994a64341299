-- ===== src/Httpsig/Tests.antt =====
-- Headers that are read, and one on which the reading panics.
use grokingclawid.License.{to_lowercase}
use grokingclawid.Common.{
  Bytes, List, Option, Text, [], ascii, drop, is_space, none, ok, or_else, pos, refl, some,
  split_once, take, text_eq, true, ℕ, ◌++◌, ◌↔◌, ◌∷◌, ◌≡◌,
}
use grokingclawid.Common.Decimal.{show_ℕ, show_ℤ}
use grokingclawid.Crypto.{encode_public_key, sign}
use grokingclawid.Crypto.Toy.{sized, toy, toy-Lawful}
use grokingclawid.Revocation.{sign_optional}
use grokingclawid.Httpsig.Messages.{
  SignedWsMessage, sign_data, sign_data-injective, sign_ws_message, verify_ws_message,
  verify_ws_message-sign,
}
use grokingclawid.Httpsig.{
  Component, HttpRequest, SignatureParams, Url, as_str, authority, build_signature_base,
  component_value, ed25519_only, header, header_value, identifier, input_header, join, method_of,
  params_text, quoted, to_uppercase,
}
use grokingclawid.Httpsig.Parse.{
  ClosesFirst, component_named, default_params, digits, panics, parse_components, parse_i64,
  parse_params, parse_rest, parse_signature_input, parse_signature_input-panics_iff, parsed,
  position, positive_i64, set_param, slice, split_on, trim_by, trim_end, trim_start, unsigned_i64,
  words_from,
}

abbrev params : SignatureParams
params = record {
  keyid = ascii "k";
  alg = ed25519_only;
  created = pos 12;
  expires = some (pos 300);
  nonce = some (ascii "n1");
  label = ascii "sig1";
}

abbrev components : List Component
components = method_of ∷ authority ∷ header (ascii "upgrade") ∷ []

reads_back :
    parse_signature_input (input_header components params) (pos 5) ≡ parsed (components, params)
unfolding parse_signature_input input_header params_text identifier quoted as_str join trim_by
    trim_start trim_end is_space split_once parse_rest position slice take drop parse_components
    words_from component_named parse_params split_on default_params set_param parse_i64 positive_i64
    unsigned_i64 digits or_else text_eq to_lowercase show_ℤ show_ℕ
reads_back = refl

parse_signature_input-panics_iff_example :
    (parse_signature_input (ascii "sig1=)(") (pos 5) ≡ panics) ↔ (
      (label : Text) × (rest : Text) × (split_once 61 (trim_by is_space (ascii "sig1=)("))
        ≡ some (label, rest))
      × ClosesFirst rest)
parse_signature_input-panics_iff_example =
    parse_signature_input-panics_iff (ascii "sig1=)(") (pos 5)

panics_on_it : parse_signature_input (ascii "sig1=)(") (pos 5) ≡ panics
unfolding parse_signature_input trim_by trim_start trim_end is_space split_once parse_rest position
    slice text_eq
panics_on_it = refl

abbrev request : HttpRequest
request = record {
  method = ascii "get";
  url = ascii "https://h/p";
  headers = (ascii "Upgrade", ascii "websocket") ∷ [];
  body = none;
}

abbrev parse_url : Text → Option Url
parse_url url =
    some
      (record { host_str = some (ascii "h"); port = none; url_path = ascii "/p"; url_query = none })

base_of :
    build_signature_base parse_url request (method_of ∷ header (ascii "upgrade") ∷ []) params
    ≡ ok (
        ascii "\"@method\": GET"
        ++ 10
          ∷ (ascii "\"upgrade\": websocket"
              ++ 10
                ∷ ascii
                    "\"@signature-params\": (\"@method\" \"upgrade\");keyid=\"k\";alg=\"ed25519\";created=12;expires=300;nonce=\"n1\""))
unfolding build_signature_base component_value identifier quoted to_uppercase header_value join
    params_text as_str text_eq to_lowercase show_ℤ show_ℕ
base_of = refl

abbrev seed : Bytes
seed = sized 32 (ascii "seed")

abbrev signed_text : Text
signed_text = ascii "hi\n3\n7"

abbrev message : SignedWsMessage
message = record {
  payload = ascii "hi";
  signature = sized 64 (seed ++ signed_text);
  pq_signature = none;
  keyid = ascii "k";
  timestamp = pos 7;
  seq = 3;
}

signs : sign_ws_message toy (ascii "hi") 3 (ascii "k") seed none (pos 7) ≡ ok message
unfolding sign_ws_message sign_optional sign sign_data show_ℕ show_ℤ
signs = refl

verify_ws_message-sign_example :
    verify_ws_message toy message (encode_public_key toy seed) none ≡ ok true
verify_ws_message-sign_example =
    verify_ws_message-sign toy toy-Lawful (ascii "hi") (ascii "k") 3 seed none (pos 7) message refl
      signs

abbrev three : ℕ
three = 3

sign_data-injective_example : (ascii "a" ≡ ascii "a") × (three ≡ three) × (pos 7 ≡ pos 7)
sign_data-injective_example =
    sign_data-injective (ascii "a") (ascii "a") three three (pos 7) (pos 7) refl
