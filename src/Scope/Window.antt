-- ===== src/Scope/Window.antt =====
-- The rate limit over a whole history of requests: no window of a minute holds more admitted
-- requests than the limit.
use mathlib.Core.List.{append_assoc, append-nil}
use grokingclawid.Common.{
  All, All-append, Bool, Bool-cases, List, Option, Text, [], ap, arith, false, if◌then◌else◌, inl,
  inr, leb, length, length-append, ltb, none, refl, some, suc, true, ℕ, ◌%◌, ◌&&◌, ◌++◌, ◌+◌, ◌<◌,
  ◌^◌, ◌∙◌, ◌∷◌, ◌≡◌, ◌≤◌,
}
use grokingclawid.Scope.{
  Rate, ScopeConfig, ScopeDecision, allow, check_connect, check_rate_limit, check_url, deny_domain,
  deny_rate_limit, evict, limited, new, panicked, passed, window,
}
use grokingclawid.Scope.Evict.{IsStale, evict-Evicted}

-- A request to the proxy, plain or by CONNECT.
pub data Call : Type 0 where
  plain connect : Text → Call

-- The decision is not a refusal by the limiter.
abbrev pub is_admitted : Option ScopeDecision → Bool
is_admitted none = false
is_admitted (some allow) = true
is_admitted (some (deny_domain d a)) = true
is_admitted (some (deny_rate_limit l w)) = false

abbrev pub is_passed : Rate → Bool
is_passed passed = true
is_passed panicked = false
is_passed (limited w) = false

module _ (parse_url : Text → Option (Option Text)) where
  unfoldable pub handle : ScopeConfig → ℕ → Call → Option ScopeDecision × ScopeConfig
  handle s now (plain u) = check_url parse_url s now u
  handle s now (connect h) = check_connect s now h

  -- The instants of the requests that the limiter lets through.
  unfoldable pub admitted : ScopeConfig → List (ℕ × Call) → List ℕ
  admitted s [] = []
  admitted s ((now, c) ∷ cs) =
      let rest = admitted (handle s now c).1 cs in
      if is_admitted (handle s now c).0 then now ∷ rest else rest

-- How many of the instants lie in the window that starts at `a`.
unfoldable pub count_in : ℕ → List ℕ → ℕ
count_in a [] = 0
count_in a (t ∷ ts) = if leb a t && ltb t (a + window) then suc (count_in a ts) else count_in a ts

pub count_in-append :
    (a : ℕ) (xs ys : List ℕ) → count_in a (xs ++ ys) ≡ count_in a xs + count_in a ys
unfolding count_in
count_in-append a [] ys = omega arith
count_in-append a (x ∷ xs) ys = ground (arith, count_in-append a xs ys)

count_in-le-length : (a : ℕ) (ts : List ℕ) → count_in a ts ≤ length ts
unfolding count_in
count_in-le-length a [] = omega arith
count_in-le-length a (t ∷ ts) = ground (arith, count_in-le-length a ts)

-- A window that reaches `now` holds nothing stale.
count_in_stale :
    (a now : ℕ) (ts : List ℕ) → now < a + window → All (IsStale now) ts → count_in a ts ≡ 0
unfolding count_in
count_in_stale a now [] h s = refl
count_in_stale a now (t ∷ ts) h (p, s) = ground (arith, count_in_stale a now ts h s)

IsStale-mono :
    (now later : ℕ) (ts : List ℕ) → now ≤ later → All (IsStale now) ts → All (IsStale later) ts
IsStale-mono now later [] h s = tt
IsStale-mono now later (t ∷ ts) h (p, s) = (omega arith, IsStale-mono now later ts h s)

abbrev pub AscendsFrom : ℕ → List (ℕ × Call) → Type 0
AscendsFrom now [] = Unit
AscendsFrom now ((t, c) ∷ cs) = (now ≤ t) × AscendsFrom t cs

-- The limiter's queue is the part of the history of admitted instants that may still count.
pub record Inv (limit : ℕ) (log : List ℕ) (s : ScopeConfig) (now : ℕ) : Type 0 where
  pub same_limit : s.max_requests_per_minute ≡ limit
  pub dropped : List ℕ
  pub split : log ≡ dropped ++ s.request_timestamps
  pub stale : All (IsStale now) dropped
  pub bound : (a : ℕ) → count_in a log ≤ limit
  pub room : length s.request_timestamps ≤ limit

-- The eviction at a later instant keeps the history split into stale and queued instants.
pub record Resplit (log ts : List ℕ) (now : ℕ) : Type 0 where
  pub gone : List ℕ
  pub parts : log ≡ gone ++ evict now ts
  pub old : All (IsStale now) gone

pub resplit :
    {limit : ℕ} {log : List ℕ} {s : ScopeConfig} {now : ℕ} (later : ℕ)
    → now ≤ later
    → Inv limit log s now
    → Resplit log s.request_timestamps later
resplit {s} {now} later h v =
    let e = evict-Evicted later s.request_timestamps in
    record {
      gone = v.dropped ++ e.dropped;
      parts = simp append_assoc (v.split ∙ ap (λ l. v.dropped ++ l) e.split);
      old =
          All-append (IsStale later) v.dropped e.dropped
            (IsStale-mono now later v.dropped h v.stale) e.stale;
    }

length-evict : (now : ℕ) (ts : List ℕ) → length (evict now ts) ≤ length ts
unfolding evict
length-evict now [] = omega arith
length-evict now (t ∷ ts) = ground (arith, length-evict now ts)

count_in-singleton :
    (a t : ℕ) → count_in a (t ∷ []) ≡ (if leb a t && ltb t (a + window) then 1 else 0)
unfolding count_in
count_in-singleton a t = ground arith

-- One more admission keeps every window within the limit.
bound_push :
    (limit later : ℕ) (log ts : List ℕ)
    → Resplit log ts later
    → ((a : ℕ) → count_in a log ≤ limit)
    → length (evict later ts) < limit
    → (a : ℕ) → count_in a (log ++ later ∷ []) ≤ limit
bound_push limit later log ts r b room a =
    let parts : count_in a log ≡ count_in a (r.gone ++ evict later ts) = ap (count_in a) r.parts in
    ground (
      arith,
      count_in-append a log (later ∷ []),
      count_in-singleton a later,
      parts,
      count_in-append a r.gone (evict later ts),
      count_in_stale a later r.gone,
      r.old,
      count_in-le-length a (evict later ts),
      b a,
    )

module _ (limit : ℕ) (positive : 0 < limit) (small : limit < 2 ^ 32) where
  -- The two outcomes of the limiter in a state that meets the invariant.
  pub data Outcome (log : List ℕ) (s : ScopeConfig) (later : ℕ) : Type 0 where
    pushed :
        (check_rate_limit s later).0 ≡ passed
        → (check_rate_limit s later).1
          ≡ record s { request_timestamps = evict later s.request_timestamps ++ later ∷ [] }
        → length (evict later s.request_timestamps) < limit
        → Outcome log s later
    refused :
        is_passed (check_rate_limit s later).0 ≡ false
        → (check_rate_limit s later).1
          ≡ record s { request_timestamps = evict later s.request_timestamps }
        → limit ≤ length (evict later s.request_timestamps)
        → Outcome log s later

  pub outcome :
      {log : List ℕ} {s : ScopeConfig} {now : ℕ} (later : ℕ)
      → Inv limit log s now
      → Outcome log s later
  unfolding check_rate_limit
  outcome {s} later v =
      elim (Bool-cases
        (leb s.max_requests_per_minute (length (evict later s.request_timestamps) % 2 ^ 32))) [
          | inl full ↦
              refused (ground arith) (ground arith)
                (ground (arith, length-evict later s.request_timestamps))
          | inr free ↦
              pushed (ground arith) (ground arith)
                (ground (arith, length-evict later s.request_timestamps))
        ]

  pub push-Inv :
      {log : List ℕ} {s : ScopeConfig} {now : ℕ} (later : ℕ)
      → now ≤ later
      → Inv limit log s now
      → length (evict later s.request_timestamps) < limit
      → Inv limit
          (log ++ later ∷ [])
          (record s { request_timestamps = evict later s.request_timestamps ++ later ∷ [] })
          later
  push-Inv {log} {s} later h v room =
      let r = resplit later h v in
      record {
        same_limit = v.same_limit;
        dropped = r.gone;
        split = ap (λ l. l ++ later ∷ []) r.parts ∙ append_assoc r.gone _ _;
        stale = r.old;
        bound = bound_push limit later log s.request_timestamps r v.bound room;
        room = omega (arith, length-append (evict later s.request_timestamps) (later ∷ []));
      }

  pub refuse-Inv :
      {log : List ℕ} {s : ScopeConfig} {now : ℕ} (later : ℕ)
      → now ≤ later
      → Inv limit log s now
      → Inv limit log (record s { request_timestamps = evict later s.request_timestamps }) later
  refuse-Inv {log} {s} later h v =
      let r = resplit later h v in
      record {
        same_limit = v.same_limit;
        dropped = r.gone;
        split = r.parts;
        stale = r.old;
        bound = v.bound;
        room = omega (arith, length-evict later s.request_timestamps, v.room);
      }

  module _ (parse_url : Text → Option (Option Text)) where
    -- Both handlers leave to the limiter what becomes of the state, and whether a call is admitted.
    pub handle-rate :
        (s : ScopeConfig) (now : ℕ) (c : Call)
        → ((handle parse_url s now c).1 ≡ (check_rate_limit s now).1)
          × (is_admitted (handle parse_url s now c).0 ≡ is_passed (check_rate_limit s now).0)
    unfolding handle check_url check_connect
    handle-rate s now (plain u) = (refl, ground arith)
    handle-rate s now (connect u) = (refl, ground arith)

    history-bound :
        (cs : List (ℕ × Call)) {log : List ℕ} {s : ScopeConfig} {now : ℕ}
        → Inv limit log s now
        → AscendsFrom now cs
        → (a : ℕ) → count_in a (log ++ admitted parse_url s cs) ≤ limit
    unfolding admitted
    history-bound [] {log} v asc a = rw append-nil (v.bound a)
    history-bound ((later, c) ∷ cs) {log} {s} v (h, asc) a =
        let (same, adm) = handle-rate s later c in
        elim (outcome later v) [
          | pushed p q room ↦
              rw (same, q, adm, p)
                (rw (← append_assoc log (later ∷ []) _)
                  (history-bound cs (push-Inv later h v room) asc a))
          | refused p q _ ↦ rw (same, q, adm, p) (history-bound cs (refuse-Inv later h v) asc a)
        ]

pub new-Inv : (domains : List Text) (limit : ℕ) → Inv limit [] (new domains limit) 0
unfolding new count_in
new-Inv domains limit = record {
  same_limit = refl;
  dropped = [];
  split = refl;
  stale = tt;
  bound = λ a. omega arith;
  room = omega arith;
}

-- From a fresh scope with a positive 32-bit limit, whatever the requests and at whatever ascending
-- instants they come, no window of sixty seconds holds more admitted requests than the limit.
pub admitted_window :
    (parse_url : Text → Option (Option Text)) (domains : List Text) (limit : ℕ)
    → 0 < limit
    → limit < 2 ^ 32
    → (cs : List (ℕ × Call)) → AscendsFrom 0 cs
    → (a : ℕ) → count_in a (admitted parse_url (new domains limit) cs) ≤ limit
admitted_window parse_url domains limit positive small cs asc a =
    history-bound limit positive small parse_url cs (new-Inv domains limit) asc a
