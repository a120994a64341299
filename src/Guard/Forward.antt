-- ===== src/Guard/Forward.antt =====
-- Which lines reach the server.
use grokingclawid.Common.{
  Bool, Bool-cases, List, Option-cases, Text, arith, ascii, before, false, inl, inr, none, not,
  refl, some, true, ◌&&◌, ◌||◌, ◌↔◌, ◌≡◌, ◌⊎◌,
}
use grokingclawid.Crypto.{Primitives}
use grokingclawid.Guard.{
  GuardState, Moment, Reader, RpcRequest, answered, calls, check_scope, counted, forwarded, gate,
  handle_authenticate, is_blank, is_init, lacks_scope, new_state, on_line, on_parsed, on_request,
  pass_on, run, status,
}
use grokingclawid.Guard.Session.{IsHeld, run-IsSession}

-- The method is exempt, or the session is authenticated, or it is not and the guard was started with
-- `--allow-init`.
abbrev pub MayPass : Bool → Bool → Bool → Type 0
MayPass exempt allow up = (exempt ≡ true) ⊎ ((up ≡ true) ⊎ ((allow ≡ true) × (up ≡ false)))

gate_iff :
    (exempt allow up lacks : Bool) (s : GuardState)
    → (up ≡ true → lacks ≡ false)
    → ((gate (exempt || allow && not up) up lacks s).1 ≡ forwarded) ↔ MayPass exempt allow up
unfolding gate
gate_iff true allow up lacks s scoped = (λ e. inl refl, λ m. refl)
gate_iff false true true lacks s scoped =
    let held : lacks ≡ false = scoped refl in (λ e. inr (inl refl), λ m. rw held refl)
gate_iff false true false lacks s scoped = (λ e. inr (inr (refl, refl)), λ m. refl)
gate_iff false false true lacks s scoped =
    let held : lacks ≡ false = scoped refl in (λ e. inr (inl refl), λ m. rw held refl)
gate_iff false false false lacks s scoped = (
  λ e. absurd (ground arith),
  λ m. elim m [
    | inl exempt ↦ absurd (ground arith)
    | inr (inl up) ↦ absurd (ground arith)
    | inr (inr (allow, down)) ↦ absurd (ground arith)
  ],
)

lacks_scope-held :
    (s : GuardState) (request : RpcRequest) → s.authenticated ≡ true → lacks_scope s request ≡ false
unfolding lacks_scope check_scope
lacks_scope-held s request up = elim (Option-cases request.name) [
  | inl anonymous ↦ rw (lacks_scope, anonymous) (ground arith)
  | inr (name, named) ↦ rw (lacks_scope, named, check_scope, up) (ground arith)
]

module _ (P : Primitives) (R : Reader) (allow : Bool) where
  on_request-forwarded_iff :
      (moment : Moment) (request : RpcRequest) (s : GuardState)
      → ((on_request P R allow moment request s).1 ≡ forwarded) ↔ (
          (calls (ascii "clawid_authenticate") request ≡ false)
          × (calls (ascii "clawid_guard_status") request ≡ false)
          × MayPass (is_init request) allow s.authenticated)
  unfolding on_request pass_on
  on_request-forwarded_iff moment request s =
      let gated =
        gate_iff (is_init request) allow s.authenticated (lacks_scope s request) s
          (lacks_scope-held s request) in
      (
        λ e. elim (Bool-cases (calls (ascii "clawid_authenticate") request)) [
          | inl shows ↦
              let bad : answered (handle_authenticate P R moment request.agent_card s).1
                  ≡ forwarded =
                rw (on_request, shows) at e in
              absurd (ground arith)
          | inr not_shown ↦ elim (Bool-cases (calls (ascii "clawid_guard_status") request)) [
            | inl asks ↦
                let bad : answered status ≡ forwarded = rw (on_request, not_shown, asks) at e in
                absurd (ground arith)
            | inr others ↦
                (not_shown, others, gated.0 (rw (on_request, not_shown, others, pass_on) at e))
          ]
        ],
        λ (not_shown, others, may). rw (on_request, not_shown, others, pass_on) (gated.1 may),
      )

  -- A line that is not blank is forwarded exactly when it is no JSON-RPC request, or when it is one
  -- that calls no tool of the guard and whose method is exempt, or in an authenticated session, or
  -- before that if the guard was started with `--allow-init`.
  pub on_line-forwarded_iff :
      (moment : Moment) (line : Text) (s : GuardState)
      → is_blank line ≡ false
      → ((on_line P R allow moment line s).1 ≡ forwarded) ↔ (
          (R.request_of line ≡ none)
          ⊎ ((request : RpcRequest) × (R.request_of line ≡ some request)
              × (calls (ascii "clawid_authenticate") request ≡ false)
              × (calls (ascii "clawid_guard_status") request ≡ false)
              × MayPass (is_init request) allow s.authenticated))
  unfolding on_line on_parsed counted
  on_line-forwarded_iff moment line s full = elim (Option-cases (R.request_of line)) [
    | inl other ↦ (λ e. inl other, λ h. rw (on_line, full, other) refl)
    | inr (request, parsed) ↦
        let iff = on_request-forwarded_iff moment request (counted s) in
        (
          λ e.
              let (shown, asked, may) = iff.0 (rw (on_line, full, parsed) at e) in
              inr (request, parsed, shown, asked, may),
          λ h. elim h [
            | inl not_there ↦ absurd (ground arith)
            | inr (r, found, shown, asked, may) ↦
                let same : r ≡ request = ground arith in
                rw (on_line, full, parsed)
                  (iff.1 (rw same at shown, rw same at asked, rw same at may))
          ],
        )
  ]

-- Without `--allow-init`, a JSON-RPC request that reaches the server after any lines either has an
-- exempt method, or comes in a session whose card one of those lines showed and that was vouched for
-- at the moment at which that line came: signed by its key, not expired and not revoked at that
-- moment, as far as the registry opened, and with the scopes that the guard requires.
pub forwarded-IsHeld :
    (P : Primitives) (R : Reader) (allowed : List Text) (pq : Bool) (before : List (Moment × Text))
    (moment : Moment) (line : Text) (request : RpcRequest)
    → is_blank line ≡ false
    → R.request_of line ≡ some request
    → (on_line P R false moment line (run P R false before (new_state allowed pq))).1 ≡ forwarded
    → (is_init request ≡ true)
      ⊎ IsHeld P R allowed pq before (run P R false before (new_state allowed pq)).agent_card
forwarded-IsHeld P R allowed pq before moment line request full parsed e =
    let s = run P R false before (new_state allowed pq) in
    let session = run-IsSession P R allowed pq false before in
    elim ((on_line-forwarded_iff P R false moment line s full).0 e) [
      | inl other ↦ absurd (ground arith)
      | inr (r, found, not_shown, others, may) ↦
          let same : r ≡ request = ground arith in
          elim may [
            | inl exempt ↦ inl (rw same at exempt)
            | inr (inl up) ↦ inr (session.holder up)
            | inr (inr (allow, down)) ↦ absurd (ground arith)
          ]
    ]
