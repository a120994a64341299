-- ===== src/Supervisor/Process.antt =====
-- supervisor.rs, the life of a process: `start_agent`, `stop_agent`, `check_health`, `delete_agent` and
-- `stop_all`.
use grokingclawid.Common.{
  Bool, List, Option, Result, Text, [], agent_not_found, already_running, as_i64, err, false,
  if◌then◌else◌, insert, length, lookup, ltb, ltb_ℤ, map, no_run_script, none, not, ok, remove,
  retain, seconds, some, ℕ, ℤ, ◌%◌, ◌&&◌, ◌++◌, ◌+◌, ◌-ℤ◌, ◌==◌, ◌^◌, ◌∷◌,
}
use grokingclawid.Supervisor.{
  AgentConfig, AgentProcess, AgentStatus, RestartConfig, Supervisor, crashed, running, starting,
  status_eq, stopped,
}

-- What the operating system answers when a sidecar proxy is opened for a key (its port and task),
-- when `run.sh` is spawned (its pid), and when a child is asked whether it has exited.
pub data TryWait : Type 0 where
  exited : Bool → TryWait
  still_running wait_failed : TryWait

pub record Host : Type 0 where
  pub open_proxy : AgentConfig → Text → Result (ℕ × ℕ)
  pub spawn : AgentConfig → Option ℕ → Result ℕ
  pub try_wait : ℕ → TryWait

unfoldable pub has_script : Text → Supervisor → Bool
has_script name s = elim (lookup name s.agents_dir) [ none ↦ false | some dir ↦ dir.run_sh ]

unfoldable pub key_of : Text → Supervisor → Option Text
key_of name s = elim (lookup name s.agents_dir) [ none ↦ none | some dir ↦ dir.agent_pem ]

unfoldable pub port_of : Option (ℕ × ℕ) → Option ℕ
port_of none = none
port_of (some (port, handle)) = some port

unfoldable pub handle_of : Option (ℕ × ℕ) → Option ℕ
handle_of none = none
handle_of (some (port, handle)) = some handle

unfoldable pub open_handle : Option ℕ → List ℕ → List ℕ
open_handle none tasks = tasks
open_handle (some handle) tasks = handle ∷ tasks

-- `handle.abort()`
unfoldable pub abort : Option ℕ → List ℕ → List ℕ
abort none tasks = tasks
abort (some handle) tasks = retain (λ t. not (t == handle)) tasks

unfoldable pub launched : AgentProcess → Option (ℕ × ℕ) → ℕ → ℤ → AgentProcess
launched a proxy child now = record {
  config = a.config;
  status = running;
  child = some child;
  pid = some child;
  proxy_port = port_of proxy;
  proxy_handle = handle_of proxy;
  restart_count = a.restart_count;
  restart_timestamps = a.restart_timestamps;
  started_at = some now;
}

-- The agent has no process any more; its proxy is as it was.
unfoldable pub ended : AgentProcess → AgentStatus → AgentProcess
ended a status = record {
  config = a.config;
  status = status;
  child = none;
  pid = none;
  proxy_port = a.proxy_port;
  proxy_handle = a.proxy_handle;
  restart_count = a.restart_count;
  restart_timestamps = a.restart_timestamps;
  started_at = a.started_at;
}

unfoldable pub halted : AgentProcess → AgentProcess
halted a = record {
  config = a.config;
  status = stopped;
  child = none;
  pid = none;
  proxy_port = none;
  proxy_handle = none;
  restart_count = a.restart_count;
  restart_timestamps = a.restart_timestamps;
  started_at = a.started_at;
}

-- The restarts that count against the budget at `now`.
unfoldable pub recent : RestartConfig → ℤ → List ℤ → List ℤ
recent policy now stamps =
    retain (λ t. ltb_ℤ (now -ℤ t) (seconds (as_i64 policy.restart_window_seconds))) stamps

unfoldable pub granted : AgentProcess → ℤ → Bool
granted a now =
    ltb (length (recent a.config.restart now a.restart_timestamps)) a.config.restart.max_restarts

unfoldable pub on_crash : ℤ → AgentProcess → AgentProcess
on_crash now a =
    let kept = recent a.config.restart now a.restart_timestamps in
    let grant = granted a now in
    record {
      config = a.config;
      status = if grant then starting else crashed;
      child = none;
      pid = none;
      proxy_port = a.proxy_port;
      proxy_handle = a.proxy_handle;
      restart_count = if grant then (a.restart_count + 1) % 2 ^ 32 else a.restart_count;
      restart_timestamps = if grant then kept ++ now ∷ [] else kept;
      started_at = a.started_at;
    }

unfoldable pub on_exit : Bool → ℤ → AgentProcess → AgentProcess
on_exit success now a =
    if success && not a.config.restart.restart_on_success then ended a stopped else on_crash now a

unfoldable pub after_wait : TryWait → ℤ → AgentProcess → AgentProcess
after_wait (exited success) now a = on_exit success now a
after_wait still_running now a = a
after_wait wait_failed now a = a

unfoldable pub expire : Option ℤ → ℤ → AgentProcess → AgentProcess
expire none now a = a
expire (some expires_at) now a = if ltb_ℤ expires_at now then ended a stopped else a

unfoldable pub check_expiry : ℤ → AgentProcess → AgentProcess
check_expiry now a = expire a.config.expires_at now a

module _ (H : Host) where
  unfoldable pub spawn_agent :
      Text → AgentProcess → Option (ℕ × ℕ) → ℤ → Supervisor → Supervisor × Result (Unit {0})
  spawn_agent name a proxy now s =
      let tasks = open_handle (handle_of proxy) s.proxies in
      elim (H.spawn a.config (port_of proxy)) [
        | err why ↦
            (record { agents = s.agents; agents_dir = s.agents_dir; proxies = tasks }, err why)
        | ok child ↦ (
          record {
            agents = insert name (launched a proxy child now) s.agents;
            agents_dir = s.agents_dir;
            proxies = tasks;
          },
          ok tt,
        )
      ]

  -- With a private key the sidecar proxy comes first, without one there is none.
  unfoldable pub start_found : Text → AgentProcess → ℤ → Supervisor → Supervisor × Result (Unit {0})
  start_found name a now s = elim (key_of name s) [
    | none ↦ spawn_agent name a none now s
    | some pem ↦ elim (H.open_proxy a.config pem) [
      | err why ↦ (s, err why)
      | ok proxy ↦ spawn_agent name a (some proxy) now s
    ]
  ]

  unfoldable pub start_agent : Text → ℤ → Supervisor → Supervisor × Result (Unit {0})
  start_agent name now s =
      if not (has_script name s) then (s, err no_run_script) else elim (lookup name s.agents) [
        | none ↦ (s, err agent_not_found)
        | some a ↦
            if status_eq a.status running
            then (s, err already_running)
            else start_found name a now s
      ]

  -- A failing `try_wait` is only logged.
  unfoldable pub wait_for : Option ℕ → ℤ → AgentProcess → AgentProcess
  wait_for none now a = a
  wait_for (some child) now a = after_wait (H.try_wait child) now a

  unfoldable pub check_exit : ℤ → AgentProcess → AgentProcess
  check_exit now a = wait_for a.child now a

  unfoldable pub check_agent : ℤ → AgentProcess → AgentProcess
  check_agent now a = if status_eq a.status running then check_expiry now (check_exit now a) else a

  unfoldable pub check_health : ℤ → Supervisor → Supervisor
  check_health now s = record {
    agents = map (λ (name, a). (name, check_agent now a)) s.agents;
    agents_dir = s.agents_dir;
    proxies = s.proxies;
  }

unfoldable pub stop_agent : Text → Supervisor → Supervisor × Result (Unit {0})
stop_agent name s = elim (lookup name s.agents) [
  | none ↦ (s, err agent_not_found)
  | some a ↦ (
    record {
      agents = insert name (halted a) s.agents;
      agents_dir = s.agents_dir;
      proxies = abort a.proxy_handle s.proxies;
    },
    ok tt,
  )
]

unfoldable pub delete_agent : Text → Supervisor → Supervisor
delete_agent name s =
    let (halted_state, _) = stop_agent name s in
    record {
      agents = remove name halted_state.agents;
      agents_dir = remove name halted_state.agents_dir;
      proxies = halted_state.proxies;
    }

unfoldable pub stop_each : List Text → Supervisor → Supervisor
stop_each [] s = s
stop_each (name ∷ names) s = let (next, _) = stop_agent name s in stop_each names next

unfoldable pub stop_all : Supervisor → Supervisor
stop_all s = stop_each (map (λ (name, a). name) s.agents) s
