-- ===== src/Supervisor/History.antt =====
-- The restarts of one agent over a whole history of rounds and launches.
use grokingclawid.Common.{
  -ℤ_parts, Bool, List, Option, [], ap, arith, as_i64, false, if◌then◌else◌, inl, inr, length,
  length-append, length-retain, ltb_ℤ, none, refl, retain, retain-append, retain-retain, seconds,
  some, sym, true, ℕ, ℤ, ◌++◌, ◌-ℤ◌, ◌<◌, ◌∙◌, ◌∷◌, ◌≡◌, ◌≤ℤ◌, ◌≤◌,
}
use grokingclawid.Supervisor.{AgentProcess, RestartConfig}
use grokingclawid.Supervisor.Process.{
  Host, TryWait, after_wait, check_agent, check_exit, check_expiry, ended, exited, expire, launched,
  on_crash, on_exit, recent, still_running, wait_failed, wait_for,
}
use grokingclawid.Supervisor.Budget.{Event, Outcome, health, launch, restarted, round-Outcome}
use mathlib.Core.List.{append-nil, append_assoc}

-- The instant of a restart joins those seen.
abbrev pub noted : Bool → ℤ → List ℤ → List ℤ
noted up now seen = if up then seen ++ now ∷ [] else seen

-- The instants no earlier than `t`, in order.
abbrev pub Ordered : ℤ → List Event → Type 0
Ordered t [] = Unit
Ordered t (health H now ∷ es) = (t ≤ℤ now) × Ordered now es
Ordered t (launch proxy child now ∷ es) = Ordered t es

-- The instant of the last round, or `t`.
abbrev pub latest : ℤ → List Event → ℤ
latest t [] = t
latest t (health H now ∷ es) = latest now es
latest t (launch proxy child now ∷ es) = latest t es

latest_le : (t : ℤ) (es : List Event) → Ordered t es → t ≤ℤ latest t es
latest_le t [] o = omega arith
latest_le t (health H now ∷ es) (h, o) = ground (arith, latest_le now es o)
latest_le t (launch proxy child now ∷ es) o = latest_le t es o

module _ (policy : RestartConfig) where
  still_recent :
      (now later : ℤ) (stamps : List ℤ)
      → now ≤ℤ later
      → recent policy later (recent policy now stamps) ≡ recent policy later stamps
  unfolding recent
  still_recent now later stamps h =
      let w = seconds (as_i64 policy.restart_window_seconds) in
      retain-retain (λ t. ltb_ℤ (now -ℤ t) w) (λ t. ltb_ℤ (later -ℤ t) w) stamps
        (λ t e. ground (arith, -ℤ_parts now t, -ℤ_parts later t))

  recent-append :
      (now : ℤ) (xs ys : List ℤ)
      → recent policy now (xs ++ ys) ≡ recent policy now xs ++ recent policy now ys
  unfolding recent
  recent-append now xs ys =
      retain-append (λ t. ltb_ℤ (now -ℤ t) (seconds (as_i64 policy.restart_window_seconds))) xs ys

  recent-length : (now : ℤ) (xs : List ℤ) → length (recent policy now xs) ≤ length xs
  unfolding recent
  recent-length now xs =
      length-retain (λ t. ltb_ℤ (now -ℤ t) (seconds (as_i64 policy.restart_window_seconds))) xs

  -- From `t` on the agent's own list counts at least the restarts seen.
  abbrev Covers : List ℤ → AgentProcess → ℤ → Type 0
  Covers seen a t =
      (later : ℤ)
      → t ≤ℤ later
      → length (recent policy later seen) ≤ length (recent policy later a.restart_timestamps)

  round-Covers :
      (seen : List ℤ) (a b : AgentProcess) (t now : ℤ)
      → a.config.restart ≡ policy
      → Outcome now a b
      → t ≤ℤ now
      → Covers seen a t
      → Covers (noted (restarted a b) now seen) b now
  round-Covers seen a b t now p o h c later k = elim o [
    | inl (same, not_up) ↦ rw (same, not_up) (c later (ground arith))
    | inr (inl (trimmed, not_up)) ↦
        rw (trimmed, not_up, p, still_recent now later a.restart_timestamps k)
          (c later (ground arith))
    | inr (inr (spent, _)) ↦
        rw
          (
            spent,
            p,
            recent-append later (recent policy now a.restart_timestamps) (now ∷ []),
            still_recent now later a.restart_timestamps k,
          )
          (count (restarted a b))
  ]
    where
      count :
          (up : Bool)
          → length (recent policy later (noted up now seen))
            ≤ length (recent policy later a.restart_timestamps ++ recent policy later (now ∷ []))
      count true = rw (recent-append later seen (now ∷ [])) (
          omega (
            arith,
            c later (ground arith),
            length-append (recent policy later seen) (recent policy later (now ∷ [])),
            length-append (recent policy later a.restart_timestamps)
                (recent policy later (now ∷ [])),
          ))
      count false = omega (
        arith,
        c later (ground arith),
        length-append (recent policy later a.restart_timestamps) (recent policy later (now ∷ [])),
      )

  pub round-bound :
      (a b : AgentProcess) (now : ℤ)
      → a.config.restart ≡ policy
      → Outcome now a b
      → length a.restart_timestamps ≤ policy.max_restarts
      → length b.restart_timestamps ≤ policy.max_restarts
  round-bound a b now p o h = elim o [
    | inl (same, _) ↦ rw same h
    | inr (inl (trimmed, _)) ↦
        rw (trimmed, p) (omega (arith, recent-length now a.restart_timestamps))
    | inr (inr (spent, room)) ↦
        let kept = recent policy now a.restart_timestamps in
        let fits : length kept < policy.max_restarts = rw⁻¹ p room in
        rw (spent, p) (omega (arith, length-append kept (now ∷ [])))
  ]

config-on_exit :
    (success : Bool) (now : ℤ) (a : AgentProcess) → (on_exit success now a).config ≡ a.config
unfolding on_exit on_crash ended
config-on_exit success now a = ground arith

config-wait : (w : TryWait) (now : ℤ) (a : AgentProcess) → (after_wait w now a).config ≡ a.config
unfolding after_wait
config-wait (exited success) now a = config-on_exit success now a
config-wait still_running now a = refl
config-wait wait_failed now a = refl

config-expire : (t : Option ℤ) (now : ℤ) (a : AgentProcess) → (expire t now a).config ≡ a.config
unfolding expire ended
config-expire none now a = refl
config-expire (some t) now a = ground arith

config-wait_for :
    (H : Host) (c : Option ℕ) (now : ℤ) (a : AgentProcess) → (wait_for H c now a).config ≡ a.config
unfolding wait_for
config-wait_for H none now a = refl
config-wait_for H (some child) now a = config-wait (H.try_wait child) now a

noted-append :
    (up : Bool) (now : ℤ) (seen rest : List ℤ)
    → seen ++ (if up then now ∷ rest else rest) ≡ noted up now seen ++ rest
noted-append true now seen rest = sym (append_assoc seen (now ∷ []) rest)
noted-append false now seen rest = refl

pub config-check_agent :
    (H : Host) (now : ℤ) (a : AgentProcess) → (check_agent H now a).config ≡ a.config
unfolding check_agent check_expiry check_exit
config-check_agent H now a =
    let b = wait_for H a.child now a in
    let e = config-expire b.config.expires_at now b in
    let w = config-wait_for H a.child now a in ground (arith, e, w)

abbrev pub step : Event → AgentProcess → AgentProcess
step (health H now) a = check_agent H now a
step (launch proxy child now) a = launched a proxy child now

-- The instants at which the daemon decides to restart the agent.
abbrev pub restarts : List Event → AgentProcess → List ℤ
restarts [] a = []
restarts (health H now ∷ es) a =
    let rest = restarts es (check_agent H now a) in
    if restarted a (check_agent H now a) then now ∷ rest else rest
restarts (launch proxy child now ∷ es) a = restarts es (launched a proxy child now)

spent-bound :
    (policy : RestartConfig) (es : List Event) (a : AgentProcess) (seen : List ℤ) (t later : ℤ)
    → a.config.restart ≡ policy
    → Ordered t es
    → Covers policy seen a t
    → length a.restart_timestamps ≤ policy.max_restarts
    → latest t es ≤ℤ later
    → length (recent policy later (seen ++ restarts es a)) ≤ policy.max_restarts
unfolding launched
spent-bound policy [] a seen t later p o c n l =
    rw (append-nil seen) (omega (arith, c later l, recent-length policy later a.restart_timestamps))
spent-bound policy (health H now ∷ es) a seen t later p (h, o) c n l =
    let b = check_agent H now a in
    let out = round-Outcome H now a in
    rw (noted-append (restarted a b) now seen (restarts es b)) (
      spent-bound policy es b (noted (restarted a b) now seen) now later
        (ap (λ g. g.restart) (config-check_agent H now a) ∙ p) o
        (round-Covers policy seen a b t now p out h c) (round-bound policy a b now p out n) l)
spent-bound policy (launch proxy child now ∷ es) a seen t later p o c n l =
    spent-bound policy es (launched a proxy child now) seen t later p o c n l

-- However rounds and launches alternate, and whatever the operating system answers in each round, as
-- long as the clock does not go back, an agent that starts with an empty record is restarted at most
-- `max_restarts` times within any stretch of `restart_window_seconds`: of the restarts so far, those
-- that lie less than a window before an instant at or after the last round number at most
-- `max_restarts`. The window is the number of its seconds as an `i64`.
pub restart_budget :
    (es : List Event) (a : AgentProcess) (t later : ℤ)
    → a.restart_timestamps ≡ []
    → Ordered t es
    → latest t es ≤ℤ later
    → length (
        retain
          (λ t. ltb_ℤ (later -ℤ t) (seconds (as_i64 a.config.restart.restart_window_seconds)))
          (restarts es a))
      ≤ a.config.restart.max_restarts
unfolding recent retain
restart_budget es a t later e o l =
    spent-bound a.config.restart es a [] t later refl o (λ u k. omega arith) (rw e (omega arith)) l
