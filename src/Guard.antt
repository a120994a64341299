-- ===== src/Guard.antt =====
-- crates/grokingclawid-cli/src/commands/guard.rs: the guard between an agent and an MCP server. It
-- reads lines, answers the two tools of its own, and forwards or blocks the rest. What serde_json
-- makes of a line and of a card is a parameter; the clocks and what the registry of revocations holds
-- at a line are arguments. The texts of the answers are left out, all but their error codes, and so
-- are the child process and the server's answers, which the code passes on unread.
pub mod Conditions
pub mod Authenticate
pub mod Session
pub mod Forward
mod Tests
use grokingclawid.Common.{
  Bool, List, Option, Result, Text, [], all, any, ascii, contains, err, false, if◌then◌else◌,
  is_space, last, leb, leb_ℤ, ltb_ℤ, none, not, ok, pos, some, text_eq, timestamp, true, ℕ, ℤ, ◌&&◌,
  ◌+◌, ◌-ℤ◌, ◌==◌, ◌||◌, ◌∷◌,
}
use grokingclawid.Models.{AgentCard, hybrid, scheme_eq}
use grokingclawid.Crypto.{Primitives, mldsa_verify, verify}
use grokingclawid.Revocation.{Row}
use grokingclawid.Cards.{revoked_in, unsigned}

-- `JsonRpcRequest`, with what the guard reads of `params`: `name`, and the text of `agent_card` in
-- `arguments`, which is a text or an object.
pub record RpcRequest : Type 0 where
  pub method : Text
  pub name : Option Text
  pub agent_card : Option Text

-- serde_json: a line as a request, a text as a card, and the text of a card.
pub record Reader : Type 0 where
  pub request_of : Text → Option RpcRequest
  pub card_of : Text → Option AgentCard
  pub to_string : AgentCard → Option Text

pub record GuardState : Type 0 where
  pub authenticated : Bool
  pub agent_card : Option AgentCard
  pub allowed_scopes : List Text
  pub require_pq : Bool
  pub request_count : ℕ
  pub blocked_count : ℕ
  pub auth_failures : ℕ
  pub last_failure_time : Option ℤ

-- `GuardState::new`
unfoldable pub new_state : List Text → Bool → GuardState
new_state allowed_scopes require_pq = record {
  authenticated = false;
  agent_card = none;
  allowed_scopes = allowed_scopes;
  require_pq = require_pq;
  request_count = 0;
  blocked_count = 0;
  auth_failures = 0;
  last_failure_time = none;
}

-- What the guard meets at a line: the two clocks, and the registry of revocations, if it opens.
pub record Moment : Type 0 where
  pub now : ℤ
  pub instant : ℤ
  pub registry : Option (List Row)

-- An answer of the guard: an error, by the digits of its negative code, or a result.
pub data Reply : Type 0 where
  rejected : ℕ → Reply
  welcomed : Reply
  status : Reply

-- One check of a card: passed, refused, or refused and counted as a failure.
pub data Check : Type 0 where
  pass : Check
  refuse : ℕ → Check
  fail : ℕ → Check

infixr 20 ◌then_check◌
unfoldable pub ◌then_check◌ : Check → Check → Check
pass then_check next = next
refuse code then_check next = refuse code
fail code then_check next = fail code

unfoldable pub ed_check : Result Bool → Check
ed_check (err why) = refuse 32002
ed_check (ok false) = fail 32002
ed_check (ok true) = pass

unfoldable pub pq_result : Result Bool → Check
pq_result (err why) = refuse 32002
pq_result (ok false) = refuse 32002
pq_result (ok true) = pass

unfoldable pub scopes_suffice : List Text → List Text → Bool
scopes_suffice allowed scopes =
    all
      (λ required.
        any (λ s. text_eq s required || text_eq s (ascii "*") || text_eq s (ascii "admin")) scopes)
      allowed

unfoldable pub forgiven : GuardState → GuardState
forgiven state = record state { auth_failures = 0; last_failure_time = none }

-- `None` while the guard takes no attempt; after the window the failures are forgotten.
unfoldable pub throttled_since : ℤ → GuardState → Option ℤ → Option GuardState
throttled_since instant state none = some state
throttled_since instant state (some last) =
    if ltb_ℤ (timestamp (instant -ℤ last)) (pos 60) then none else some (forgiven state)

unfoldable pub throttle : ℤ → GuardState → Option GuardState
throttle instant state =
    if leb 10 state.auth_failures
    then throttled_since instant state state.last_failure_time
    else some state

unfoldable pub conclude : Check → AgentCard → ℤ → GuardState → GuardState × Reply
conclude pass card instant state = (
  record state {
    auth_failures = 0;
    last_failure_time = none;
    authenticated = true;
    agent_card = some card;
  },
  welcomed,
)
conclude (refuse code) card instant state = (state, rejected code)
conclude (fail code) card instant state = (
  record state { auth_failures = state.auth_failures + 1; last_failure_time = some instant },
  rejected code,
)

module _ (P : Primitives) where
  unfoldable pub pq_check : Option Text → Option Text → Text → Check
  pq_check none pq_sig payload = refuse 32002
  pq_check (some pq_pub) none payload = refuse 32002
  pq_check (some pq_pub) (some pq_sig) payload = pq_result (mldsa_verify P pq_pub payload pq_sig)

  -- The checks of a card whose text without signatures is `payload`, in their order.
  unfoldable pub check_card : GuardState → Moment → AgentCard → Text → Check
  check_card state moment card payload =
      ed_check (verify P card.public_key payload card.signature)
      then_check (if state.require_pq || scheme_eq card.crypto_scheme hybrid
          then pq_check card.pq_public_key card.pq_signature payload
          else pass)
      then_check (if leb_ℤ card.expires_at moment.now then fail 32002 else pass)
      then_check (if revoked_in moment.registry card.id then refuse 32002 else pass)
      then_check (if scopes_suffice state.allowed_scopes card.scopes then pass else refuse 32003)

module _ (P : Primitives) (R : Reader) where
  unfoldable pub authenticate_card :
      Moment → AgentCard → Option Text → GuardState → GuardState × Reply
  authenticate_card moment card none state = (state, rejected 32002)
  authenticate_card moment card (some payload) state =
      conclude (check_card P state moment card payload) card moment.instant state

  unfoldable pub authenticate_text : Moment → Option AgentCard → GuardState → GuardState × Reply
  authenticate_text moment none state = (state, rejected 32002)
  authenticate_text moment (some card) state =
      authenticate_card moment card (R.to_string (unsigned card)) state

  unfoldable pub authenticate_argument : Moment → Option Text → GuardState → GuardState × Reply
  authenticate_argument moment none state = (state, rejected 32002)
  authenticate_argument moment (some text) state = authenticate_text moment (R.card_of text) state

  unfoldable pub handle_authenticate : Moment → Option Text → GuardState → GuardState × Reply
  handle_authenticate moment agent_card state = elim (throttle moment.instant state) [
    | none ↦ (state, rejected 32005)
    | some after ↦ authenticate_argument moment agent_card after
  ]

-- `check_scope` looks at no tool.
unfoldable pub check_scope : GuardState → Text → Bool
check_scope state tool_name = state.authenticated

-- What becomes of a line.
pub data Outcome : Type 0 where
  skipped : Outcome
  forwarded : Outcome
  answered : Reply → Outcome

-- `request.method == "tools/call"` with the given name
unfoldable pub calls : Text → RpcRequest → Bool
calls tool request =
    text_eq request.method (ascii "tools/call")
    && elim request.name [ none ↦ false | some name ↦ text_eq name tool ]

unfoldable pub is_init : RpcRequest → Bool
is_init request =
    contains (ascii "initialize" ∷ ascii "initialized" ∷ ascii "tools/list" ∷ ascii "ping" ∷ [])
      request.method

-- A tool call by name whose scope is not held.
unfoldable pub lacks_scope : GuardState → RpcRequest → Bool
lacks_scope state request =
    text_eq request.method (ascii "tools/call")
    && elim request.name [ none ↦ false | some name ↦ not (check_scope state name) ]

unfoldable pub blocked : GuardState → GuardState
blocked state = record state { blocked_count = state.blocked_count + 1 }

unfoldable pub counted : GuardState → GuardState
counted state = record state { request_count = state.request_count + 1 }

-- The three tests of a request that is for the server: exempt, authenticated, and lacking scope.
unfoldable pub gate : Bool → Bool → Bool → GuardState → GuardState × Outcome
gate true up lacks state = (state, forwarded)
gate false false lacks state = (blocked state, answered (rejected 32001))
gate false true true state = (blocked state, answered (rejected 32003))
gate false true false state = (state, forwarded)

unfoldable pub pass_on : Bool → RpcRequest → GuardState → GuardState × Outcome
pass_on allow_unauthenticated_init request state =
    gate (is_init request || allow_unauthenticated_init && not state.authenticated)
      state.authenticated (lacks_scope state request) state

-- The characters of White_Space beyond ASCII, as their two or three bytes: U+0085 and U+00A0; U+1680,
-- U+2000 to U+200A, U+2028, U+2029, U+202F, U+205F and U+3000.
unfoldable pub is_wide2 : ℕ → ℕ → Bool
is_wide2 a b = a == 194 && (b == 133 || b == 160)

unfoldable pub is_wide3 : ℕ → ℕ → ℕ → Bool
is_wide3 a b c =
    a == 225 && b == 154 && c == 128
    || a == 226 && b == 128 && (leb 128 c && leb c 138 || c == 168 || c == 169 || c == 175)
    || a == 226 && b == 129 && c == 159
    || a == 227 && b == 128 && c == 128

-- `line.trim().is_empty()`
unfoldable pub is_blank : Text → Bool
is_blank [] = true
is_blank (a ∷ []) = is_space a
is_blank (a ∷ b ∷ []) = is_space a && is_space b || is_wide2 a b
is_blank (a ∷ b ∷ c ∷ s) =
    is_space a && is_blank (b ∷ c ∷ s)
    || is_wide2 a b && is_blank (c ∷ s)
    || is_wide3 a b c && is_blank s

module _ (P : Primitives) (R : Reader) (allow_unauthenticated_init : Bool) where
  unfoldable pub on_request : Moment → RpcRequest → GuardState → GuardState × Outcome
  on_request moment request state =
      let shown = handle_authenticate P R moment request.agent_card state in
      if calls (ascii "clawid_authenticate") request
      then (shown.0, answered shown.1)
      else if calls (ascii "clawid_guard_status") request
      then (state, answered status)
      else pass_on allow_unauthenticated_init request state

  unfoldable pub on_parsed : Moment → Option RpcRequest → GuardState → GuardState × Outcome
  on_parsed moment none state = (state, forwarded)
  on_parsed moment (some request) state = on_request moment request (counted state)

  unfoldable pub on_line : Moment → Text → GuardState → GuardState × Outcome
  on_line moment line state =
      if is_blank line then (state, skipped) else on_parsed moment (R.request_of line) state

  -- The loop of `execute` over the lines that come in.
  unfoldable pub run : List (Moment × Text) → GuardState → GuardState
  run [] state = state
  run ((moment, line) ∷ lines) state = run lines ((on_line moment line state).0)
