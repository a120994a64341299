-- ===== src/Supervisor/Budget.antt =====
-- The restart budget: over any stretch of the configured length an agent is restarted at most as
-- often as its policy allows.
use grokingclawid.Common.{
  Bool, Bool-cases, Option, [], arith, false, if◌then◌else◌, inl, inr, length, ltb_ℤ, none, not,
  refl, some, true, ℕ, ℤ, ◌&&◌, ◌++◌, ◌<◌, ◌∷◌, ◌≡◌, ◌⊎◌,
}
use grokingclawid.Supervisor.{
  AgentProcess, AgentStatus, crashed, creating, revoked, running, starting, status_eq, stopped,
}
use grokingclawid.Supervisor.Process.{
  Host, TryWait, after_wait, check_agent, check_exit, check_expiry, ended, exited, expire, granted,
  on_crash, on_exit, recent, still_running, wait_failed, wait_for,
}

-- What happens to one agent: a round of `check_health` at an instant, with what the operating system
-- answers in that round, or the launch of its process, by `start_agent`, with a proxy or without.
pub data Event : Type 0 where
  health : Host → ℤ → Event
  launch : Option (ℕ × ℕ) → ℕ → ℤ → Event

-- `check_health` has decided to restart the agent.
abbrev pub restarted : AgentProcess → AgentProcess → Bool
restarted a b = status_eq a.status running && status_eq b.status starting

-- What a round does to the list of restarts: nothing, or it drops the old ones, or it also enters a
-- new one, which the budget allows.
abbrev pub Outcome : ℤ → AgentProcess → AgentProcess → Type 0
Outcome now a b =
    let kept = recent a.config.restart now a.restart_timestamps in
    ((b.restart_timestamps ≡ a.restart_timestamps) × (restarted a b ≡ false))
    ⊎ ((b.restart_timestamps ≡ kept) × (restarted a b ≡ false))
    ⊎ ((b.restart_timestamps ≡ kept ++ now ∷ []) × (length kept < a.config.restart.max_restarts))

pub crash-Outcome : (now : ℤ) (a : AgentProcess) → Outcome now a (on_crash now a)
unfolding on_crash granted
crash-Outcome now a = elim (Bool-cases (granted a now)) [
  | inl grant ↦ inr (inr (rw grant refl, ground arith))
  | inr spent ↦ inr (inl (rw spent refl, rw spent (ground arith)))
]

exit-Outcome : (success : Bool) (now : ℤ) (a : AgentProcess) → Outcome now a (on_exit success now a)
unfolding on_exit ended
exit-Outcome success now a =
    elim (Bool-cases (success && not a.config.restart.restart_on_success)) [
      | inl clean ↦ rw clean (inl (refl, ground arith))
      | inr not_clean ↦ rw not_clean (crash-Outcome now a)
    ]

not_both : (s : AgentStatus) → (status_eq s running && status_eq s starting) ≡ false
not_both creating = refl
not_both starting = refl
not_both running = refl
not_both stopped = refl
not_both crashed = refl
not_both revoked = refl

wait-Outcome : (w : TryWait) (now : ℤ) (a : AgentProcess) → Outcome now a (after_wait w now a)
unfolding after_wait
wait-Outcome (exited success) now a = exit-Outcome success now a
wait-Outcome still_running now a = inl (refl, not_both a.status)
wait-Outcome wait_failed now a = inl (refl, not_both a.status)

stopped-Outcome : (now : ℤ) (a b : AgentProcess) → Outcome now a b → Outcome now a (ended b stopped)
unfolding ended
stopped-Outcome now a b (inl (same, _)) = inl (same, ground arith)
stopped-Outcome now a b (inr (inl (same, _))) = inr (inl (same, ground arith))
stopped-Outcome now a b (inr (inr spent)) = inr (inr spent)

expire-Outcome :
    (t : Option ℤ) (now : ℤ) (a b : AgentProcess) → Outcome now a b → Outcome now a (expire t now b)
unfolding expire
expire-Outcome none now a b o = o
expire-Outcome (some t) now a b o = elim (Bool-cases (ltb_ℤ t now)) [
  | inl past ↦ rw past (stopped-Outcome now a b o)
  | inr future ↦ rw future o
]

module _ (H : Host) where
  child-Outcome : (c : Option ℕ) (now : ℤ) (a : AgentProcess) → Outcome now a (wait_for H c now a)
  unfolding wait_for
  child-Outcome none now a = inl (refl, not_both a.status)
  child-Outcome (some child) now a = wait-Outcome (H.try_wait child) now a

  pub round-Outcome : (now : ℤ) (a : AgentProcess) → Outcome now a (check_agent H now a)
  unfolding check_agent check_exit check_expiry
  round-Outcome now a = choose (status_eq a.status running)
    where
      b : AgentProcess
      b = check_expiry now (check_exit H now a)

      choose : (up : Bool) → Outcome now a (if up then b else a)
      choose true =
          let c = wait_for H a.child now a in
          expire-Outcome c.config.expires_at now a c (child-Outcome a.child now a)
      choose false = inl (refl, not_both a.status)
