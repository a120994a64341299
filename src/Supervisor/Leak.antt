-- ===== src/Supervisor/Leak.antt =====
-- What becomes of the sidecar proxy of an agent whose process exits by itself.
use grokingclawid.Common.{
  Bool, Bool-cases, List, Memᴰ, Option, Option-cases, Result-cases, Text, [], arith, inl, inr,
  lookup, lookup-insert, map, none, ok, refl, some, text_eq, ℕ, ℤ, ◌∙◌, ◌∷◌, ◌≡◌, ◌≢◌,
}
use grokingclawid.Supervisor.{AgentConfig, AgentProcess, Supervisor, running, status_eq}
use grokingclawid.Supervisor.Process.{
  Host, TryWait, after_wait, check_agent, check_exit, check_expiry, check_health, ended, exited,
  expire, handle_of, has_script, key_of, launched, on_crash, on_exit, open_handle, port_of,
  spawn_agent, start_agent, start_found, still_running, wait_failed, wait_for,
}

-- A round changes nothing about the proxies.
handle-on_exit :
    (success : Bool) (now : ℤ) (a : AgentProcess)
    → (on_exit success now a).proxy_handle ≡ a.proxy_handle
unfolding on_exit on_crash ended
handle-on_exit success now a = ground arith

handle-wait :
    (w : TryWait) (now : ℤ) (a : AgentProcess) → (after_wait w now a).proxy_handle ≡ a.proxy_handle
unfolding after_wait
handle-wait (exited success) now a = handle-on_exit success now a
handle-wait still_running now a = refl
handle-wait wait_failed now a = refl

handle-expire :
    (t : Option ℤ) (now : ℤ) (a : AgentProcess) → (expire t now a).proxy_handle ≡ a.proxy_handle
unfolding expire ended
handle-expire none now a = refl
handle-expire (some t) now a = ground arith

module _ (H : Host) where
  handle-wait_for :
      (c : Option ℕ) (now : ℤ) (a : AgentProcess)
      → (wait_for H c now a).proxy_handle ≡ a.proxy_handle
  unfolding wait_for
  handle-wait_for none now a = refl
  handle-wait_for (some child) now a = handle-wait (H.try_wait child) now a

  handle-check_agent :
      (now : ℤ) (a : AgentProcess) → (check_agent H now a).proxy_handle ≡ a.proxy_handle
  unfolding check_agent check_expiry check_exit
  handle-check_agent now a =
      let b = wait_for H a.child now a in
      ground (arith, handle-expire b.config.expires_at now b, handle-wait_for a.child now a)

  lookup-check :
      (name : Text) (now : ℤ) (a : AgentProcess) (agents : List (Text × AgentProcess))
      → lookup name agents ≡ some a
      → lookup name (map (λ (n, b). (n, check_agent H now b)) agents) ≡ some (check_agent H now a)
  unfolding lookup
  lookup-check name now a [] e = ground arith
  lookup-check name now a ((n, b) ∷ agents) e = elim (Bool-cases (text_eq n name)) [
    | inl here ↦ let same : b ≡ a = ground arith in rw (here, same) refl
    | inr away ↦ rw away (lookup-check name now a agents (ground arith))
  ]

  open_keeps :
      (handle : Option ℕ) (h : ℕ) (tasks : List ℕ)
      → Memᴰ h tasks
      → Memᴰ h (open_handle handle tasks)
  unfolding open_handle
  open_keeps none h tasks m = m
  open_keeps (some k) h tasks m = Memᴰ.tail m

  spawn-leaks :
      (name : Text) (a : AgentProcess) (proxy : Option (ℕ × ℕ)) (h : ℕ) (now : ℤ) (s : Supervisor)
      → Memᴰ h s.proxies
      → handle_of proxy ≢ some h
      → (spawn_agent H name a proxy now s).1 ≡ ok tt
      → Memᴰ h (spawn_agent H name a proxy now s).0.proxies
        × (b : AgentProcess) × (lookup name (spawn_agent H name a proxy now s).0.agents ≡ some b)
        × (b.proxy_handle ≢ some h)
  unfolding spawn_agent launched
  spawn-leaks name a proxy h now s m fresh e =
      elim (Result-cases (H.spawn a.config (port_of proxy))) [
        | inl (why, bad) ↦ absurd (ground arith)
        | inr (child, good) ↦
            rw (spawn_agent, good)
              (
                open_keeps (handle_of proxy) h s.proxies m,
                launched a proxy child now,
                lookup-insert name (launched a proxy child now) s.agents,
                fresh,
              )
      ]

  start-leaks :
      (name : Text) (a : AgentProcess) (h : ℕ) (now : ℤ) (s : Supervisor)
      → lookup name s.agents ≡ some a
      → Memᴰ h s.proxies
      → ((config : AgentConfig) (pem : Text) (port : ℕ) → H.open_proxy config pem ≢ ok (port, h))
      → (start_agent H name now s).1 ≡ ok tt
      → Memᴰ h (start_agent H name now s).0.proxies
        × (b : AgentProcess) × (lookup name (start_agent H name now s).0.agents ≡ some b)
        × (b.proxy_handle ≢ some h)
  unfolding start_agent start_found handle_of
  start-leaks name a h now s found m fresh e = elim (Bool-cases (has_script name s)) [
    | inr missing ↦ absurd (ground arith)
    | inl there ↦ elim (Bool-cases (status_eq a.status running)) [
      | inl up ↦ absurd (ground arith)
      | inr down ↦ elim (Option-cases (key_of name s)) [
        | inl bare ↦
            rw (start_agent, there, found, down, start_found, bare)
              (spawn-leaks name a none h now s m (λ q. ground arith) (ground arith))
        | inr (pem, keyed) ↦ elim (Result-cases (H.open_proxy a.config pem)) [
          | inl (why, bad) ↦ absurd (ground arith)
          | inr ((port, handle), good) ↦
              rw (start_agent, there, found, down, start_found, keyed, good)
                (spawn-leaks name a (some (port, handle)) h now s m
                  (λ q. let same : handle ≡ h = cc in fresh a.config pem port (rw same at good))
                  (ground arith))
        ]
      ]
    ]
  ]

  -- A proxy outlives the process that it served. Take an agent with the sidecar proxy `h`, and any
  -- answers of the host except that it gives out the task `h` again. If the agent is started
  -- successfully after a round of `check_health`, that is after its process has ended in that round or
  -- before, then `h` still runs and the agent's entry no longer holds its handle, so that stopping
  -- the agent cannot end it.
  pub restart_leaks_proxy :
      (name : Text) (a : AgentProcess) (h : ℕ) (now later : ℤ) (s : Supervisor)
      → lookup name s.agents ≡ some a
      → a.proxy_handle ≡ some h
      → Memᴰ h s.proxies
      → ((config : AgentConfig) (pem : Text) (port : ℕ) → H.open_proxy config pem ≢ ok (port, h))
      → (start_agent H name later (check_health H now s)).1 ≡ ok tt
      → (b : AgentProcess) × (lookup name (check_health H now s).agents ≡ some b)
        × (b.proxy_handle ≡ some h)
        × Memᴰ h (start_agent H name later (check_health H now s)).0.proxies
        × (c : AgentProcess) × (lookup name
              (start_agent H name later (check_health H now s)).0.agents
            ≡ some c)
        × (c.proxy_handle ≢ some h)
  unfolding check_health
  restart_leaks_proxy name a h now later s found held m fresh e =
      let b = check_agent H now a in
      let there = lookup-check name now a s.agents found in
      let (runs, c, entry, lost) =
        start-leaks name b h later (check_health H now s) there m fresh e in
      (b, there, handle-check_agent now a ∙ held, runs, c, entry, lost)
