-- ===== src/Supervisor/Lifecycle.antt =====
-- What holds of every agent after any sequence of calls to the supervisor.
use grokingclawid.Common.{
  Bool, Bool-cases, Entries, List, Option, Text, [], arith, false, if◌then◌else◌, inl, inr, length,
  ltb_ℤ, map, none, not, refl, some, true, ℕ, ℤ, ◌&&◌, ◌∷◌, ◌≡◌, ◌≤◌,
}
use grokingclawid.Supervisor.{
  AgentConfig, AgentProcess, AgentStatus, crashed, creating, idle, revoked, running, starting,
  status_eq, stopped,
}
use grokingclawid.Supervisor.Budget.{crash-Outcome}
use grokingclawid.Supervisor.History.{round-bound}
use grokingclawid.Supervisor.Process.{
  Host, TryWait, after_wait, check_agent, check_exit, check_expiry, ended, exited, expire, granted,
  halted, launched, on_crash, on_exit, still_running, wait_failed, wait_for,
}

-- An agent has a child process when it is running, and in no other status.
abbrev pub ChildOf : AgentStatus → Option ℕ → Type 0
ChildOf running child = (c : ℕ) × (child ≡ some c)
ChildOf creating child = child ≡ none
ChildOf starting child = child ≡ none
ChildOf stopped child = child ≡ none
ChildOf crashed child = child ≡ none
ChildOf revoked child = child ≡ none

-- The entry stands under the name of its configuration, its process id is the child's, a child is
-- there exactly while it runs, and its record of restarts is within its budget.
pub record IsSound (name : Text) (a : AgentProcess) : Type 0 where
  pub named : a.config.name ≡ name
  pub pid_of_child : a.pid ≡ a.child
  pub child_of_status : ChildOf a.status a.child
  pub within_budget : length a.restart_timestamps ≤ a.config.restart.max_restarts

pub idle-IsSound : (config : AgentConfig) → IsSound config.name (idle config creating)
unfolding idle
idle-IsSound config = record {
  named = refl;
  pid_of_child = refl;
  child_of_status = refl;
  within_budget = omega arith;
}

pub stopped-IsSound : (config : AgentConfig) → IsSound config.name (idle config stopped)
unfolding idle
stopped-IsSound config = record {
  named = refl;
  pid_of_child = refl;
  child_of_status = refl;
  within_budget = omega arith;
}

pub launched-IsSound :
    (name : Text) (a : AgentProcess) (proxy : Option (ℕ × ℕ)) (child : ℕ) (now : ℤ)
    → IsSound name a
    → IsSound name (launched a proxy child now)
unfolding launched
launched-IsSound name a proxy child now h = record {
  named = h.named;
  pid_of_child = refl;
  child_of_status = (child, refl);
  within_budget = h.within_budget;
}

pub halted-IsSound : (name : Text) (a : AgentProcess) → IsSound name a → IsSound name (halted a)
unfolding halted
halted-IsSound name a h = record {
  named = h.named;
  pid_of_child = refl;
  child_of_status = refl;
  within_budget = h.within_budget;
}

ended-IsSound : (name : Text) (a : AgentProcess) → IsSound name a → IsSound name (ended a stopped)
unfolding ended
ended-IsSound name a h = record {
  named = h.named;
  pid_of_child = refl;
  child_of_status = refl;
  within_budget = h.within_budget;
}

no_child : (grant : Bool) → ChildOf (if grant then starting else crashed) none
no_child true = refl
no_child false = refl

crash-IsSound :
    (now : ℤ) (name : Text) (a : AgentProcess) → IsSound name a → IsSound name (on_crash now a)
unfolding on_crash
crash-IsSound now name a h = record {
  named = h.named;
  pid_of_child = refl;
  child_of_status = no_child (granted a now);
  within_budget =
      round-bound a.config.restart a (on_crash now a) now refl (crash-Outcome now a)
        h.within_budget;
}

exit-IsSound :
    (success : Bool) (now : ℤ) (name : Text) (a : AgentProcess)
    → IsSound name a
    → IsSound name (on_exit success now a)
unfolding on_exit
exit-IsSound success now name a h =
    elim (Bool-cases (success && not a.config.restart.restart_on_success)) [
      | inl clean ↦ rw clean (ended-IsSound name a h)
      | inr not_clean ↦ rw not_clean (crash-IsSound now name a h)
    ]

wait-IsSound :
    (w : TryWait) (now : ℤ) (name : Text) (a : AgentProcess)
    → IsSound name a
    → IsSound name (after_wait w now a)
unfolding after_wait
wait-IsSound (exited success) now name a h = exit-IsSound success now name a h
wait-IsSound still_running now name a h = h
wait-IsSound wait_failed now name a h = h

expire-IsSound :
    (t : Option ℤ) (now : ℤ) (name : Text) (a : AgentProcess)
    → IsSound name a
    → IsSound name (expire t now a)
unfolding expire
expire-IsSound none now name a h = h
expire-IsSound (some t) now name a h = elim (Bool-cases (ltb_ℤ t now)) [
  | inl past ↦ rw past (ended-IsSound name a h)
  | inr future ↦ rw future h
]

module _ (H : Host) where
  wait_for-IsSound :
      (c : Option ℕ) (now : ℤ) (name : Text) (a : AgentProcess)
      → IsSound name a
      → IsSound name (wait_for H c now a)
  unfolding wait_for
  wait_for-IsSound none now name a h = h
  wait_for-IsSound (some child) now name a h = wait-IsSound (H.try_wait child) now name a h

  check_agent-IsSound :
      (now : ℤ) (name : Text) (a : AgentProcess)
      → IsSound name a
      → IsSound name (check_agent H now a)
  unfolding check_agent check_exit check_expiry
  check_agent-IsSound now name a h = elim (Bool-cases (status_eq a.status running)) [
    | inl up ↦
        let b = wait_for H a.child now a in
        rw up
          (expire-IsSound b.config.expires_at now name b (wait_for-IsSound a.child now name a h))
    | inr down ↦ rw down h
  ]

  pub check_all-IsSound :
      (now : ℤ) (agents : List (Text × AgentProcess))
      → Entries IsSound agents
      → Entries IsSound (map (λ (name, a). (name, check_agent H now a)) agents)
  check_all-IsSound now [] h = tt
  check_all-IsSound now ((name, a) ∷ agents) (p, h) =
      (check_agent-IsSound now name a p, check_all-IsSound now agents h)
