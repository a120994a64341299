-- ===== src/Supervisor/Reach.antt =====
-- The states that the supervisor can reach, and what holds in all of them.
use grokingclawid.Common.{
  Bool-cases, Entries, Entries-insert, Entries-lookup, Entries-remove, List, Option, Option-cases,
  Result-cases, Text, [], arith, inl, inr, insert, lookup, map, none, ok, some, ℕ, ℤ, ◌∷◌, ◌≡◌,
}
use grokingclawid.Supervisor.{
  AgentConfig, AgentDir, AgentProcess, Supervisor, Toml, creating, idle, init, load_dirs, register,
  running, status_eq, stopped,
}
use grokingclawid.Supervisor.Process.{
  Host, check_health, delete_agent, halted, has_script, key_of, launched, port_of, spawn_agent,
  start_agent, start_found, stop_agent, stop_all, stop_each,
}
use grokingclawid.Supervisor.Lifecycle.{
  IsSound, check_all-IsSound, halted-IsSound, idle-IsSound, launched-IsSound, stopped-IsSound,
}

module _ (T : Toml) where
  -- One call of the supervisor. The host answers each call as it likes.
  pub data Step : Supervisor → Supervisor → Type 0 where
    inits : {s : Supervisor} → Step s ((init T s).0)
    registers : {s t : Supervisor} (config : AgentConfig) → register T config s ≡ ok t → Step s t
    starts :
        {s : Supervisor} (H : Host) (name : Text) (now : ℤ) → Step s ((start_agent H name now s).0)
    stops : {s : Supervisor} (name : Text) → Step s ((stop_agent name s).0)
    checks : {s : Supervisor} (H : Host) (now : ℤ) → Step s (check_health H now s)
    deletes : {s : Supervisor} (name : Text) → Step s (delete_agent name s)
    stops_all : {s : Supervisor} → Step s (stop_all s)

  -- From a supervisor that has just been made, over any directory tree.
  pub data Reachable : Supervisor → Type 0 where
    fresh :
        (dirs : List (Text × AgentDir))
        → Reachable (record { agents = []; agents_dir = dirs; proxies = [] })
    next : {s t : Supervisor} → Reachable s → Step s t → Reachable t

  load_dirs-IsSound :
      (dirs : List (Text × AgentDir)) (agents : List (Text × AgentProcess))
      → Entries IsSound agents
      → Entries IsSound (load_dirs T dirs agents).0
  unfolding load_dirs
  load_dirs-IsSound [] agents h = h
  load_dirs-IsSound ((name, dir) ∷ dirs) agents h = elim (Option-cases dir.agent_toml) [
    | inl bare ↦ rw (load_dirs, bare) (load_dirs-IsSound dirs agents h)
    | inr (content, found) ↦ elim (Option-cases (T.from_str content)) [
      | inl bad ↦ rw (load_dirs, found, bad) h
      | inr (config, good) ↦
          rw (load_dirs, found, good)
            (load_dirs-IsSound dirs (insert config.name (idle config stopped) agents) (
              Entries-insert IsSound config.name (idle config stopped) agents h
                (stopped-IsSound config)))
    ]
  ]

  init-IsSound : (s : Supervisor) → Entries IsSound s.agents → Entries IsSound ((init T s).0).agents
  unfolding init
  init-IsSound s h = load_dirs-IsSound s.agents_dir s.agents h

  register-IsSound :
      (config : AgentConfig) (s t : Supervisor)
      → Entries IsSound s.agents
      → register T config s ≡ ok t
      → Entries IsSound t.agents
  unfolding register
  register-IsSound config s t h e = elim (Option-cases (T.to_string_pretty config)) [
    | inl bad ↦ absurd (ground arith)
    | inr (text, good) ↦
        let same : t.agents ≡ insert config.name (idle config creating) s.agents = ground arith in
        rw same (
          Entries-insert IsSound config.name (idle config creating) s.agents h
            (idle-IsSound config))
  ]

spawn-IsSound :
    (H : Host) (name : Text) (a : AgentProcess) (proxy : Option (ℕ × ℕ)) (now : ℤ) (s : Supervisor)
    → IsSound name a
    → Entries IsSound s.agents
    → Entries IsSound (spawn_agent H name a proxy now s).0.agents
unfolding spawn_agent
spawn-IsSound H name a proxy now s p h = elim (Result-cases (H.spawn a.config (port_of proxy))) [
  | inl (why, bad) ↦ rw (spawn_agent, bad) h
  | inr (child, good) ↦
      rw (spawn_agent, good)
        (Entries-insert IsSound name (launched a proxy child now) s.agents h
          (launched-IsSound name a proxy child now p))
]

found-IsSound :
    (H : Host) (name : Text) (a : AgentProcess) (now : ℤ) (s : Supervisor)
    → IsSound name a
    → Entries IsSound s.agents
    → Entries IsSound (start_found H name a now s).0.agents
unfolding start_found
found-IsSound H name a now s p h = elim (Option-cases (key_of name s)) [
  | inl bare ↦ rw (start_found, bare) (spawn-IsSound H name a none now s p h)
  | inr (pem, keyed) ↦ elim (Result-cases (H.open_proxy a.config pem)) [
    | inl (why, bad) ↦ rw (start_found, keyed, bad) h
    | inr (proxy, good) ↦
        rw (start_found, keyed, good) (spawn-IsSound H name a (some proxy) now s p h)
  ]
]

start-IsSound :
    (H : Host) (name : Text) (now : ℤ) (s : Supervisor)
    → Entries IsSound s.agents
    → Entries IsSound (start_agent H name now s).0.agents
unfolding start_agent
start-IsSound H name now s h = elim (Bool-cases (has_script name s)) [
  | inl there ↦ elim (Option-cases (lookup name s.agents)) [
    | inl gone ↦ rw (start_agent, there, gone) h
    | inr (a, found) ↦ elim (Bool-cases (status_eq a.status running)) [
      | inl up ↦ rw (start_agent, there, found, up) h
      | inr down ↦
          rw (start_agent, there, found, down)
            (found-IsSound H name a now s (Entries-lookup IsSound name a s.agents h found) h)
    ]
  ]
  | inr missing ↦ rw (start_agent, missing) h
]

stop-IsSound :
    (name : Text) (s : Supervisor)
    → Entries IsSound s.agents
    → Entries IsSound (stop_agent name s).0.agents
unfolding stop_agent
stop-IsSound name s h = elim (Option-cases (lookup name s.agents)) [
  | inl gone ↦ rw (stop_agent, gone) h
  | inr (a, found) ↦
      rw (stop_agent, found)
        (Entries-insert IsSound name (halted a) s.agents h
          (halted-IsSound name a (Entries-lookup IsSound name a s.agents h found)))
]

stop_each-IsSound :
    (names : List Text) (s : Supervisor)
    → Entries IsSound s.agents
    → Entries IsSound (stop_each names s).agents
unfolding stop_each
stop_each-IsSound [] s h = h
stop_each-IsSound (name ∷ names) s h =
    stop_each-IsSound names ((stop_agent name s).0) (stop-IsSound name s h)

delete-IsSound :
    (name : Text) (s : Supervisor)
    → Entries IsSound s.agents
    → Entries IsSound (delete_agent name s).agents
unfolding delete_agent
delete-IsSound name s h =
    Entries-remove IsSound name ((stop_agent name s).0.agents) (stop-IsSound name s h)

module _ (T : Toml) where
  Step-IsSound :
      (s t : Supervisor) → Step T s t → Entries IsSound s.agents → Entries IsSound t.agents
  unfolding check_health stop_all
  Step-IsSound s _ inits h = init-IsSound T s h
  Step-IsSound s t (registers config e) h = register-IsSound T config s t h e
  Step-IsSound s _ (starts H name now) h = start-IsSound H name now s h
  Step-IsSound s _ (stops name) h = stop-IsSound name s h
  Step-IsSound s _ (checks H now) h = check_all-IsSound H now s.agents h
  Step-IsSound s _ (deletes name) h = delete-IsSound name s h
  Step-IsSound s _ stops_all h = stop_each-IsSound (map (λ (name, a). name) s.agents) s h

  -- In every state that calls can reach, each agent stands under its own name, has a child process
  -- exactly when it is running, with the child's process id, and a record of restarts that is within
  -- its budget.
  pub Reachable-IsSound : (s : Supervisor) → Reachable T s → Entries IsSound s.agents
  Reachable-IsSound _ (fresh dirs) = tt
  Reachable-IsSound t (next {s} r e) = Step-IsSound s t e (Reachable-IsSound s r)
