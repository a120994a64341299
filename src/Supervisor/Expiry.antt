-- ===== src/Supervisor/Expiry.antt =====
-- Expired delegations: a round of `check_health` stops them, `start_agent` does not look at them.
use grokingclawid.Common.{
  Bool-cases, Entries, List, Option, Option-cases, Result-cases, Text, [], arith, false, inl, inr,
  lookup, ltb_ℤ, map, none, ok, refl, some, true, ℕ, ℤ, ◌↔◌, ◌∷◌, ◌≡◌, ◌≢◌, ◌≤ℤ◌, ◌⊎◌,
}
use grokingclawid.Supervisor.{
  AgentConfig, AgentProcess, AgentStatus, Supervisor, crashed, creating, revoked, running, starting,
  status_eq, stopped,
}
use grokingclawid.Supervisor.Process.{
  Host, check_agent, check_exit, check_expiry, check_health, ended, expire, has_script, key_of,
  port_of, spawn_agent, start_agent, start_found,
}

abbrev pub Unexpired : Option ℤ → ℤ → Type 0
Unexpired none now = Unit
Unexpired (some t) now = now ≤ℤ t

-- The agent does not run, or its delegation lasts.
abbrev pub MayRun : ℤ → AgentProcess → Type 0
MayRun now a = (a.status ≢ running) ⊎ Unexpired a.config.expires_at now

expire-MayRun :
    (t : Option ℤ) (now : ℤ) (a : AgentProcess)
    → a.config.expires_at ≡ t
    → MayRun now (expire t now a)
unfolding expire ended
expire-MayRun none now a e = inr (rw e tt)
expire-MayRun (some t) now a e = elim (Bool-cases (ltb_ℤ t now)) [
  | inl past ↦ rw past (inl (λ q. ground arith))
  | inr future ↦ rw future (inr (rw e (ground arith)))
]

not_running : (s : AgentStatus) → status_eq s running ≡ false → s ≢ running
not_running s h e = ground arith

running_eq : (s : AgentStatus) → s ≢ running → status_eq s running ≡ false
running_eq running h = absurd (h refl)
running_eq creating h = refl
running_eq starting h = refl
running_eq stopped h = refl
running_eq crashed h = refl
running_eq revoked h = refl

module _ (H : Host) where
  check_agent-MayRun : (now : ℤ) (a : AgentProcess) → MayRun now (check_agent H now a)
  unfolding check_agent check_expiry
  check_agent-MayRun now a = elim (Bool-cases (status_eq a.status running)) [
    | inl up ↦
        let b = check_exit H now a in
        rw (check_agent, up) (expire-MayRun b.config.expires_at now b refl)
    | inr down ↦ rw (check_agent, down) (inl (not_running a.status down))
  ]

  -- After a round of `check_health` at `now`, whatever the agents' processes did, no agent whose
  -- delegation expired before `now` is running.
  pub check_health-MayRun :
      (now : ℤ) (s : Supervisor) → Entries (λ name a. MayRun now a) (check_health H now s).agents
  unfolding check_health
  check_health-MayRun now s = every s.agents
    where
      every :
          (agents : List (Text × AgentProcess))
          → Entries (λ name a. MayRun now a) (map (λ (name, a). (name, check_agent H now a)) agents)
      every [] = tt
      every ((name, a) ∷ agents) = (check_agent-MayRun now a, every agents)

  -- The host launches the agent: the proxy opens if there is a key for it, and the child spawns.
  abbrev pub Launches : Option Text → AgentConfig → Type 0
  Launches none config = (child : ℕ) × (H.spawn config none ≡ ok child)
  Launches (some pem) config =
      (port : ℕ) × (handle : ℕ) × (child : ℕ) × (H.open_proxy config pem ≡ ok (port, handle))
      × (H.spawn config (some port) ≡ ok child)

  spawn_ok :
      (name : Text) (a : AgentProcess) (proxy : Option (ℕ × ℕ)) (now : ℤ) (s : Supervisor)
      → ((spawn_agent H name a proxy now s).1 ≡ ok tt)
        ↔ ((child : ℕ) × (H.spawn a.config (port_of proxy) ≡ ok child))
  unfolding spawn_agent
  spawn_ok name a proxy now s = elim (Result-cases (H.spawn a.config (port_of proxy))) [
    | inl (why, bad) ↦
        rw (spawn_agent, bad) (λ e. absurd (ground arith), λ (c, e). absurd (ground arith))
    | inr (child, good) ↦ rw (spawn_agent, good) (λ e. (child, refl), λ _. refl)
  ]

  found_ok :
      (name : Text) (a : AgentProcess) (now : ℤ) (s : Supervisor)
      → ((start_found H name a now s).1 ≡ ok tt) ↔ Launches (key_of name s) a.config
  unfolding start_found port_of
  found_ok name a now s = elim (Option-cases (key_of name s)) [
    | inl bare ↦ rw (start_found, bare) (spawn_ok name a none now s)
    | inr (pem, keyed) ↦ elim (Result-cases (H.open_proxy a.config pem)) [
      | inl (why, bad) ↦
          rw (start_found, keyed, bad)
            (λ e. absurd (ground arith), λ (p, h, c, e, f). absurd (ground arith))
      | inr ((port, handle), good) ↦
          let (there, back) = spawn_ok name a (some (port, handle)) now s in
          rw (start_found, keyed, good)
            (
              λ e. let (c, f) = there e in (port, handle, c, refl, f),
              λ (p, h, c, e, f). let same : port ≡ p = cc in back (c, rw same f),
            )
    ]
  ]

  -- `start_agent` succeeds if and only if the agent has a `run.sh`, is registered and not running, its
  -- proxy opens when it has a key, and its process spawns. Neither an expired delegation nor the
  -- status crashed or revoked stands in its way.
  pub start_agent-ok_iff :
      (name : Text) (now : ℤ) (s : Supervisor)
      → ((start_agent H name now s).1 ≡ ok tt) ↔ (
          (has_script name s ≡ true)
          × (a : AgentProcess) × (lookup name s.agents ≡ some a)
          × (a.status ≢ running)
          × Launches (key_of name s) a.config)
  unfolding start_agent
  start_agent-ok_iff name now s = elim (Bool-cases (has_script name s)) [
    | inl there ↦ elim (Option-cases (lookup name s.agents)) [
      | inl gone ↦
          rw (start_agent, there, gone)
            (λ e. absurd (ground arith), λ (_, a, e, _, _). absurd (ground arith))
      | inr (a, found) ↦ elim (Bool-cases (status_eq a.status running)) [
        | inl up ↦
            rw (start_agent, there, found, up)
              (
                λ e. absurd (ground arith),
                λ (_, b, e, down, _).
                    let same : a ≡ b = cc in
                    let off : status_eq a.status running ≡ false =
                      rw same (running_eq b.status down) in
                    absurd (ground arith),
              )
        | inr down ↦
            let (there_ok, back) = found_ok name a now s in
            rw (start_agent, there, found, down)
              (
                λ e. (refl, a, refl, not_running a.status down, there_ok e),
                λ (_, b, e, _, l). let same : a ≡ b = cc in back (rw same l),
              )
      ]
    ]
    | inr missing ↦
        rw (start_agent, missing)
          (λ e. absurd (ground arith), λ (e, _, _, _, _). absurd (ground arith))
  ]
