-- ===== src/A2a/Signed.antt =====
-- The check of a request's signature in crates/grokingclaw-daemon/src/a2a.rs, and the control channel
-- that relies on it. The cards of the daemon's agents are what stands in their files
-- `agent.card.json`, by the agent's name: nothing, or what reading and parsing the file gives.
use grokingclawid.Common.{
  Bool, Bytes, List, Option, Result, Text, [], ascii, bad_base64, ensure, err, false, if◌then◌else◌,
  invalid_signature, lookup, none, ok, ok_or, or_else, parse_failed, some, strip_prefix, true,
  unwrap_or, ◌++◌, ◌==◌, ◌>>=◌, ◌>>◌, ◌∷◌,
}
use grokingclawid.Models.{AgentCard}
use grokingclawid.Crypto.{Primitives, mldsa_verify, verify}
use grokingclawid.Supervisor.{AgentInfo, Supervisor, get_agent}
use grokingclawid.Supervisor.Process.{stop_agent}

-- A header's value, if `to_str` takes it for a text.
pub data Header : Type 0 where
  readable : Text → Header
  opaque : Header

pub record HttpRequest : Type 0 where
  pub method : Text
  pub uri : Text
  pub authority : Option Text
  pub host : Option Header
  pub signature : Option Header
  pub signature_input : Option Header
  pub agent : Option Header
  pub pq_signature : Option Header

unfoldable pub to_str : Header → Result Text
to_str (readable t) = ok t
to_str opaque = err parse_failed

unfoldable pub header_text : Option Header → Option Text
header_text none = none
header_text (some (readable t)) = some t
header_text (some opaque) = none

-- `strip_suffix(':')`
unfoldable pub strip_colon : Text → Option Text
strip_colon [] = none
strip_colon (c ∷ []) = if c == 58 then some [] else none
strip_colon (c ∷ d ∷ s) = elim (strip_colon (d ∷ s)) [ none ↦ none | some t ↦ some (c ∷ t) ]

unfoldable pub signature_b64 : Text → Option Text
signature_b64 value = elim (strip_prefix (ascii "sig1=:") value) [
  | none ↦ none
  | some rest ↦ strip_colon rest
]

unfoldable pub authority_of : HttpRequest → Text
authority_of req = or_else req.authority (or_else (header_text req.host) [])

unfoldable pub signature_base : HttpRequest → Text → Text
signature_base req input_value =
    ascii "\"@method\": "
    ++ (req.method
        ++ (10 ∷ ascii "\"@target-uri\": "
            ++ (req.uri
                ++ (10 ∷ ascii "\"@authority\": "
                    ++ (authority_of req
                        ++ (10 ∷ ascii "\"@signature-params\": " ++ input_value))))))

-- The agent's card, as far as the agent is managed here and its file is there.
unfoldable pub card_file :
    List (Text × Result AgentCard) → Option AgentInfo → Option (Result AgentCard)
card_file cards none = none
card_file cards (some info) = lookup info.name cards

unfoldable pub callers_card :
    Supervisor → List (Text × Result AgentCard) → Option Text → Option (Result AgentCard)
callers_card s cards none = none
callers_card s cards (some name) = card_file cards (get_agent name s)

module _ (P : Primitives) where
  -- A post-quantum signature is checked when the request has one and the card has a key.
  unfoldable pub check_pq : Option Header → Option Text → Text → Result (Unit {0})
  check_pq none pq_pk base = ok tt
  check_pq (some header) none base = ok tt
  check_pq (some header) (some pq_pk) base = do
    pq_sig ← to_str header
    pq_verified ← mldsa_verify P pq_pk base pq_sig
    ensure pq_verified invalid_signature

  unfoldable pub check_signed : HttpRequest → Text → Bytes → Option (Result AgentCard) → Result Bool
  check_signed req base sig_bytes none = ok false
  check_signed req base sig_bytes (some file) = do
    card ← file
    verified ← verify P card.public_key base (P.base64_encode sig_bytes)
    ensure verified invalid_signature
    check_pq req.pq_signature card.pq_public_key base
    ok true

  unfoldable pub check_headers :
      Supervisor
      → List (Text × Result AgentCard)
      → HttpRequest
      → Option Header
      → Option Header
      → Result Bool
  check_headers s cards req none input = ok false
  check_headers s cards req (some sig) none = ok false
  check_headers s cards req (some sig) (some input) = do
    sig_value ← to_str sig
    input_value ← to_str input
    sig_b64 ← ok_or (signature_b64 sig_value) parse_failed
    sig_bytes ← ok_or (P.base64_decode sig_b64) bad_base64
    check_signed req (signature_base req input_value) sig_bytes
        (callers_card s cards (header_text req.agent))

  unfoldable pub verify_request_signature :
      Supervisor → List (Text × Result AgentCard) → HttpRequest → Result Bool
  verify_request_signature s cards req = check_headers s cards req req.signature req.signature_input

-- What the control channel answers.
pub data ControlReply : Type 0 where
  unauthorized bad_body revoked_ok stop_failed : ControlReply

unfoldable pub stop_reply : Supervisor × Result (Unit {0}) → Supervisor × ControlReply
stop_reply (s, err why) = (s, stop_failed)
stop_reply (s, ok done) = (s, revoked_ok)

unfoldable pub revoke_named : Option Text → Supervisor → Supervisor × ControlReply
revoke_named none s = (s, bad_body)
revoke_named (some agent_name) s = stop_reply (stop_agent agent_name s)

-- `handle_control_revoke`, given what the check of the signature said, and the agent that the body
-- names, if it parses.
unfoldable pub handle_control_revoke :
    Result Bool → Option Text → Supervisor → Supervisor × ControlReply
handle_control_revoke sig_verified body s =
    if unwrap_or sig_verified false then revoke_named body s else (s, unauthorized)
