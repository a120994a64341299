-- ===== src/Guard/Session.antt =====
-- What holds of the guard after any lines, and how often an agent may fail.
use mathlib.Core.Path.{subst}
use grokingclawid.Common.{
  Bool, Bool-cases, List, Memᴰ, Option, Option-cases, Text, [], arith, ascii, false, inl, inr, leb,
  ltb_ℤ, none, not, pos, refl, some, timestamp, true, ℤ, ◌&&◌, ◌-ℤ◌, ◌<◌, ◌||◌, ◌∷◌, ◌≡◌, ◌≤◌, ◌⊎◌,
}
use grokingclawid.Models.{AgentCard}
use grokingclawid.Crypto.{Primitives}
use grokingclawid.Cards.{unsigned}
use grokingclawid.Guard.{
  Check, GuardState, Moment, Reader, RpcRequest, authenticate_argument, authenticate_card,
  authenticate_text, blocked, calls, check_card, conclude, counted, fail, forgiven, gate,
  handle_authenticate, is_blank, is_init, lacks_scope, new_state, on_line, on_parsed, on_request,
  pass, pass_on, refuse, run, throttle, throttled_since,
}
use grokingclawid.Guard.Authenticate.{IsShown, IsVouched, check_card_iff}

-- A line asked the guard to look at the card, at the moment at which the line came.
pub record IsShownAt (P : Primitives) (R : Reader) (allowed : List Text) (pq : Bool)
    (lines : List (Moment × Text)) (card : AgentCard) : Type 0 where
  pub moment : Moment
  pub line : Text
  pub request : RpcRequest
  pub came : Memᴰ (moment, line) lines
  pub parsed : R.request_of line ≡ some request
  pub asks : calls (ascii "clawid_authenticate") request ≡ true
  pub shown : IsShown P R allowed pq moment request.agent_card card

module _ (P : Primitives) (R : Reader) (allowed : List Text) (pq : Bool)
    (lines : List (Moment × Text)) where
  -- The card that is held is one that a line showed and that was vouched for as it came, under the
  -- guard's own settings.
  abbrev pub IsHeld : Option AgentCard → Type 0
  IsHeld held = (card : AgentCard) × (held ≡ some card) × IsShownAt P R allowed pq lines card

  -- No failure is counted and no time kept, or there are failures, and the time kept is that of a line.
  abbrev pub IsTimed : GuardState → Type 0
  IsTimed s =
      ((s.auth_failures ≡ 0) × (s.last_failure_time ≡ none))
      ⊎ ((0 < s.auth_failures)
          × ((moment : Moment) × (line : Text) × Memᴰ (moment, line) lines
              × (s.last_failure_time ≡ some moment.instant)))

  pub record IsSession (s : GuardState) : Type 0 where
    pub same_scopes : s.allowed_scopes ≡ allowed
    pub same_pq : s.require_pq ≡ pq
    pub holder : s.authenticated ≡ true → IsHeld s.agent_card
    pub few : s.auth_failures ≤ 10
    pub timed : IsTimed s

  forgiven_by :
      (instant since : ℤ) (s a : GuardState)
      → throttled_since instant s (some since) ≡ some a
      → forgiven s ≡ a
  unfolding throttled_since
  forgiven_by instant since s a e =
      elim (Bool-cases (ltb_ℤ (timestamp (instant -ℤ since)) (pos 60))) [
        | inl soon ↦
            let refused : none ≡ some a = rw (throttled_since, soon) at e in absurd (ground arith)
        | inr later ↦
            let kept : some (forgiven s) ≡ some a = rw (throttled_since, later) at e in ground arith
      ]

  throttle-IsSession :
      (instant : ℤ) (s a : GuardState)
      → IsSession s
      → throttle instant s ≡ some a
      → IsSession a × (a.auth_failures < 10)
  unfolding throttle forgiven throttled_since
  throttle-IsSession instant s a h e = elim (Bool-cases (leb 10 s.auth_failures)) [
    | inl many ↦ elim (Option-cases s.last_failure_time) [
      | inl never ↦ elim h.timed [
        | inl fresh ↦ let none_counted = fresh.0 in absurd (ground arith)
        | inr (counted, (moment, line, m, kept)) ↦ absurd (ground arith)
      ]
      | inr (since, timed) ↦
          let reset : forgiven s ≡ a =
            forgiven_by instant since s a (rw (throttle, many, timed) at e) in
          let fresh : IsSession (forgiven s) = record {
            same_scopes = h.same_scopes;
            same_pq = h.same_pq;
            holder = h.holder;
            few = omega arith;
            timed = inl (refl, refl);
          } in
          let small : (forgiven s).auth_failures < 10 = omega arith in
          (rw reset at fresh, subst (λ x. x.auth_failures < 10) reset small)
    ]
    | inr few ↦
        let same : s ≡ a = ground arith in
        let small : s.auth_failures < 10 = ground arith in (rw same at h, rw same at small)
  ]

  -- A failure is counted below ten only; a success makes the card that was vouched for the holder.
  conclude-IsSession :
      (moment : Moment) (line : Text) (card : AgentCard) (s : GuardState)
      → IsSession s
      → s.auth_failures < 10
      → Memᴰ (moment, line) lines
      → (c : Check) → (c ≡ pass → IsShownAt P R allowed pq lines card)
      → IsSession (conclude c card moment.instant s).0
  unfolding conclude
  conclude-IsSession moment line card s h small m pass shown = record {
    same_scopes = h.same_scopes;
    same_pq = h.same_pq;
    holder = λ up. (card, refl, shown refl);
    few = omega arith;
    timed = inl (refl, refl);
  }
  conclude-IsSession moment line card s h small m (refuse code) shown = h
  conclude-IsSession moment line card s h small m (fail code) shown = record {
    same_scopes = h.same_scopes;
    same_pq = h.same_pq;
    holder = h.holder;
    few = omega arith;
    timed = inr (omega arith, (moment, line, m, refl));
  }

  module _ (moment : Moment) (line : Text) (request : RpcRequest) (came : Memᴰ (moment, line) lines)
      (parsed : R.request_of line ≡ some request)
      (asks : calls (ascii "clawid_authenticate") request ≡ true) where
    argument-IsSession :
        (argument : Option Text) (s : GuardState)
        → request.agent_card ≡ argument
        → IsSession s
        → s.auth_failures < 10
        → IsSession (authenticate_argument P R moment argument s).0
    unfolding authenticate_argument authenticate_text authenticate_card unsigned
    argument-IsSession none s given h small = h
    argument-IsSession (some text) s given h small = elim (Option-cases (R.card_of text)) [
      | inl bad ↦ rw (authenticate_argument, bad) h
      | inr (card, read) ↦ elim (Option-cases (R.to_string (unsigned card))) [
        | inl bad ↦ rw (authenticate_argument, read, authenticate_text, bad) h
        | inr (payload, text_of) ↦
            let c = check_card P s moment card payload in
            rw (authenticate_argument, read, authenticate_text, text_of)
              (conclude-IsSession moment line card s h small came c (λ passes. record {
                moment = moment;
                line = line;
                request = request;
                came = came;
                parsed = parsed;
                asks = asks;
                shown = record {
                  text = text;
                  payload = payload;
                  given = given;
                  parsed = read;
                  serialized = text_of;
                  vouched =
                      subst (λ q. IsVouched P allowed q moment card payload) h.same_pq
                        (subst (λ a. IsVouched P a s.require_pq moment card payload) h.same_scopes
                          ((check_card_iff P s moment card payload).0 passes));
                };
              }))
      ]
    ]

    handle-IsSession :
        (s : GuardState)
        → IsSession s
        → IsSession (handle_authenticate P R moment request.agent_card s).0
    unfolding handle_authenticate
    handle-IsSession s h = elim (Option-cases (throttle moment.instant s)) [
      | inl late ↦ rw (handle_authenticate, late) h
      | inr (a, admitted) ↦
          let (k, small) = throttle-IsSession moment.instant s a h admitted in
          rw (handle_authenticate, admitted) (argument-IsSession request.agent_card a refl k small)
    ]

  counted-IsSession : (s : GuardState) → IsSession s → IsSession (counted s)
  unfolding counted
  counted-IsSession s h = record {
    same_scopes = h.same_scopes;
    same_pq = h.same_pq;
    holder = h.holder;
    few = h.few;
    timed = h.timed;
  }

  blocked-IsSession : (s : GuardState) → IsSession s → IsSession (blocked s)
  unfolding blocked
  blocked-IsSession s h = record {
    same_scopes = h.same_scopes;
    same_pq = h.same_pq;
    holder = h.holder;
    few = h.few;
    timed = h.timed;
  }

  gate-IsSession :
      (exempt up lacks : Bool) (s : GuardState) → IsSession s → IsSession (gate exempt up lacks s).0
  unfolding gate
  gate-IsSession true up lacks s h = h
  gate-IsSession false false lacks s h = blocked-IsSession s h
  gate-IsSession false true true s h = blocked-IsSession s h
  gate-IsSession false true false s h = h

  on_line-IsSession :
      (allow : Bool) (moment : Moment) (line : Text) (s : GuardState)
      → Memᴰ (moment, line) lines
      → IsSession s
      → IsSession (on_line P R allow moment line s).0
  unfolding on_line on_parsed on_request pass_on
  on_line-IsSession allow moment line s came h = elim (Bool-cases (is_blank line)) [
    | inl blank ↦ rw (on_line, blank) h
    | inr full ↦ elim (Option-cases (R.request_of line)) [
      | inl other ↦ rw (on_line, full, other) h
      | inr (request, parsed) ↦
          let k = counted-IsSession s h in
          elim (Bool-cases (calls (ascii "clawid_authenticate") request)) [
            | inl shows ↦
                rw (on_line, full, parsed, on_request, shows)
                  (handle-IsSession moment line request came parsed shows (counted s) k)
            | inr not_shown ↦ elim (Bool-cases (calls (ascii "clawid_guard_status") request)) [
              | inl asks ↦ rw (on_line, full, parsed, on_request, not_shown, asks) k
              | inr others ↦
                  rw (on_line, full, parsed, on_request, not_shown, others, pass_on)
                    (gate-IsSession (is_init request || allow && not (counted s).authenticated)
                      (counted s).authenticated (lacks_scope (counted s) request) (counted s) k)
            ]
          ]
    ]
  ]

  run-keeps :
      (allow : Bool) (rest : List (Moment × Text)) (s : GuardState)
      → ((l : Moment × Text) → Memᴰ l rest → Memᴰ l lines)
      → IsSession s
      → IsSession (run P R allow rest s)
  unfolding run
  run-keeps allow [] s came h = h
  run-keeps allow ((moment, line) ∷ rest) s came h =
      run-keeps allow rest ((on_line P R allow moment line s).0) (λ l m. came l (Memᴰ.tail m))
        (on_line-IsSession allow moment line s (came (moment, line) (Memᴰ.head refl)) h)

-- After any lines, at whatever moments, the guard's settings are as at the start; it has no failure
-- counted and no time kept, or at most ten failures and the time of a line; and if it is
-- authenticated, its card is one that a line showed and that was vouched for at the moment at which
-- that line came.
pub run-IsSession :
    (P : Primitives) (R : Reader) (allowed : List Text) (pq allow : Bool)
    (lines : List (Moment × Text))
    → IsSession P R allowed pq lines (run P R allow lines (new_state allowed pq))
unfolding new_state
run-IsSession P R allowed pq allow lines =
    let start : IsSession P R allowed pq lines (new_state allowed pq) = record {
      same_scopes = refl;
      same_pq = refl;
      holder = λ up. absurd (ground arith);
      few = omega arith;
      timed = inl (refl, refl);
    } in
    run-keeps P R allowed pq lines allow lines (new_state allowed pq) (λ l m. m) start
