-- ===== src/Guard/Tests.antt =====
-- An agent that shows its card and calls a tool.
use grokingclawid.Common.{
  Bytes, List, Option, Text, [], all, any, ascii, contains, false, if◌then◌else◌, is_space, none,
  pos, refl, retain, some, text_eq, true, ◌++◌, ◌↔◌, ◌∷◌, ◌≡◌, ◌⊎◌,
}
use grokingclawid.Models.{AgentCard, agent_type, ed25519}
use grokingclawid.Crypto.{verify}
use grokingclawid.Crypto.Toy.{sized, toy}
use grokingclawid.Revocation.{is_revoked}
use grokingclawid.Cards.{revoked_in, unsigned}
use grokingclawid.Guard.{
  GuardState, Moment, Reader, RpcRequest, authenticate_argument, authenticate_card,
  authenticate_text, calls, check_card, check_scope, conclude, counted, ed_check, forwarded, gate,
  handle_authenticate, is_blank, is_init, is_wide2, is_wide3, lacks_scope, new_state, on_line,
  on_parsed, on_request, pass_on, run, scopes_suffice, throttle, welcomed, ◌then_check◌,
}
use grokingclawid.Guard.Authenticate.{IsAccepted, handle_authenticate_iff}
use grokingclawid.Guard.Session.{IsHeld, IsSession, run-IsSession}
use grokingclawid.Guard.Forward.{MayPass, forwarded-IsHeld, on_line-forwarded_iff}

abbrev seed : Bytes
seed = sized 32 (ascii "seed")

abbrev card : AgentCard
card = record {
  id = ascii "a-1";
  name = ascii "bot";
  owner = ascii "ann";
  scopes = ascii "read" ∷ [];
  public_key = seed;
  pq_public_key = none;
  signature = sized 64 (seed ++ ascii "bot");
  pq_signature = none;
  crypto_scheme = ed25519;
  issued_at = pos 100;
  expires_at = pos 150;
  kind = agent_type;
  parent_id = none;
  spiffe_id = none;
}

abbrev call_of : Text → RpcRequest
call_of name = record {
  method = ascii "tools/call";
  name = some name;
  agent_card = some (ascii "{}");
}

-- `{` shows the card, `!` is no request, and any other line calls a tool.
abbrev request_of : Text → Option RpcRequest
request_of line =
    if text_eq line (ascii "!")
    then none
    else if text_eq line (ascii "{")
    then some (call_of (ascii "clawid_authenticate"))
    else some (call_of (ascii "ls"))

abbrev reader : Reader
reader = record {
  request_of = request_of;
  card_of = λ text. some card;
  to_string = λ c. some c.name;
}

abbrev moment : Moment
moment = record { now = pos 149; instant = pos 7; registry = some [] }

abbrev allowed : List Text
allowed = ascii "read" ∷ []

abbrev shown : List (Moment × Text)
shown = (moment, ascii "{") ∷ []

abbrev after : GuardState
after = record {
  authenticated = true;
  agent_card = some card;
  allowed_scopes = allowed;
  require_pq = false;
  request_count = 1;
  blocked_count = 0;
  auth_failures = 0;
  last_failure_time = none;
}

authenticates : run toy reader false shown (new_state allowed false) ≡ after
unfolding run on_line is_blank all is_space is_wide2 is_wide3 on_parsed on_request calls text_eq
    handle_authenticate throttle authenticate_argument authenticate_text authenticate_card conclude
    check_card ◌then_check◌ ed_check verify revoked_in is_revoked retain scopes_suffice any counted
    new_state unsigned
authenticates = refl

handle_authenticate_iff_example :
    ((handle_authenticate toy reader moment (some (ascii "{}")) after).1 ≡ welcomed)
    ↔ IsAccepted toy reader moment (some (ascii "{}")) after
handle_authenticate_iff_example =
    handle_authenticate_iff toy reader moment (some (ascii "{}")) after

run-IsSession_example :
    IsSession toy reader allowed false shown (run toy reader false shown (new_state allowed false))
run-IsSession_example = run-IsSession toy reader allowed false false shown

on_line-forwarded_iff_example :
    ((on_line toy reader false moment (ascii "ls") after).1 ≡ forwarded) ↔ (
      (request_of (ascii "ls") ≡ none)
      ⊎ ((request : RpcRequest) × (request_of (ascii "ls") ≡ some request)
          × (calls (ascii "clawid_authenticate") request ≡ false)
          × (calls (ascii "clawid_guard_status") request ≡ false)
          × MayPass (is_init request) false true))
unfolding is_blank all is_space is_wide2 is_wide3
on_line-forwarded_iff_example =
    on_line-forwarded_iff toy reader false moment (ascii "ls") after refl

forwarded-IsHeld_example :
    (is_init (call_of (ascii "ls")) ≡ true)
    ⊎ IsHeld toy reader allowed false shown
        (run toy reader false shown (new_state allowed false)).agent_card
unfolding run on_line is_blank all is_space is_wide2 is_wide3 on_parsed on_request calls text_eq
    handle_authenticate throttle authenticate_argument authenticate_text authenticate_card conclude
    check_card ◌then_check◌ ed_check verify revoked_in is_revoked retain scopes_suffice any counted
    new_state unsigned pass_on gate is_init contains lacks_scope check_scope
forwarded-IsHeld_example =
    forwarded-IsHeld toy reader allowed false shown moment (ascii "ls") (call_of (ascii "ls")) refl
      refl refl
