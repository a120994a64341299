-- ===== src/Supervisor.antt =====
-- crates/grokingclaw-daemon/src/supervisor.rs: the agents of the daemon and their processes. The
-- `HashMap` is an association list. The directory tree is, for an agent's name, its `agent.toml`
-- text, whether it has a `run.sh`, and its `agent.pem`; its operations are taken to succeed. What
-- the operating system and the proxy's server answer are arguments: a child process is its pid, a
-- proxy task its number. Dropping a child kills it (`kill_on_drop`); dropping the handle of a task
-- leaves the task running, so the running proxy tasks are listed. One call reads the clock once. A
-- restart window beyond the range of chrono's durations, where the code panics, is not modelled.
pub mod Process
pub mod Budget
pub mod History
pub mod Lifecycle
pub mod Reach
pub mod Expiry
pub mod Leak
mod Tests
use grokingclawid.Common.{
  Bool, List, Option, Result, Text, [], ascii, err, false, insert, lookup, map, none, ok, ok_or,
  parse_failed, retain, serialization_failed, some, true, ℕ, ℤ, ◌>>=◌, ◌>>◌, ◌∷◌,
}

pub data AgentStatus : Type 0 where
  creating starting running stopped crashed revoked : AgentStatus

pub record ModelConfig : Type 0 where
  pub provider : Text
  pub endpoint : Text
  pub model : Text

pub record ResourceConfig : Type 0 where
  pub memory_mb : ℕ
  pub cpu_percent : ℕ
  pub max_disk_gb : ℕ
  pub max_requests_per_minute : ℕ

pub record RestartConfig : Type 0 where
  pub max_restarts : ℕ
  pub restart_window_seconds : ℕ
  pub restart_on_success : Bool

abbrev pub default_model : ModelConfig
default_model = record {
  provider = ascii "ollama";
  endpoint = ascii "http://localhost:11434";
  model = ascii "qwen3.5";
}

abbrev pub default_resources : ResourceConfig
default_resources = record {
  memory_mb = 2048;
  cpu_percent = 50;
  max_disk_gb = 10;
  max_requests_per_minute = 60;
}

abbrev pub default_restart : RestartConfig
default_restart = record {
  max_restarts = 3;
  restart_window_seconds = 300;
  restart_on_success = false;
}

pub record AgentConfig : Type 0 where
  pub name : Text
  pub template : Text
  pub template_version : Text
  pub agent_id : Text
  pub did : Option Text
  pub created_at : ℤ
  pub allowed_domains : List Text
  pub allowed_scopes : List Text
  pub expires_at : Option ℤ
  pub model : ModelConfig
  pub resources : ResourceConfig
  pub restart : RestartConfig

pub record AgentProcess : Type 0 where
  pub config : AgentConfig
  pub status : AgentStatus
  pub child : Option ℕ
  pub pid : Option ℕ
  pub proxy_port : Option ℕ
  pub proxy_handle : Option ℕ
  pub restart_count : ℕ
  pub restart_timestamps : List ℤ
  pub started_at : Option ℤ

pub record AgentDir : Type 0 where
  pub agent_toml : Option Text
  pub run_sh : Bool
  pub agent_pem : Option Text

pub record Supervisor : Type 0 where
  pub agents : List (Text × AgentProcess)
  pub agents_dir : List (Text × AgentDir)
  -- The proxy tasks that run on the daemon's executor.
  pub proxies : List ℕ

pub record AgentInfo : Type 0 where
  pub name : Text
  pub agent_id : Text
  pub did : Option Text
  pub template : Text
  pub status : AgentStatus
  pub pid : Option ℕ
  pub created_at : ℤ
  pub started_at : Option ℤ
  pub restart_count : ℕ
  pub allowed_scopes : List Text

-- `==` on statuses, as derived.
abbrev pub status_eq : AgentStatus → AgentStatus → Bool
status_eq creating creating = true
status_eq starting starting = true
status_eq running running = true
status_eq stopped stopped = true
status_eq crashed crashed = true
status_eq revoked revoked = true
status_eq _ _ = false

-- The `toml` crate on the agent's configuration.
pub record Toml : Type 0 where
  pub to_string_pretty : AgentConfig → Option Text
  pub from_str : Text → Option AgentConfig

-- An agent without a process.
unfoldable pub idle : AgentConfig → AgentStatus → AgentProcess
idle config status = record {
  config = config;
  status = status;
  child = none;
  pid = none;
  proxy_port = none;
  proxy_handle = none;
  restart_count = 0;
  restart_timestamps = [];
  started_at = none;
}

module _ (T : Toml) where
  -- The loop over the directories, which enters the agents as it goes; the first file that does not
  -- parse ends it with an error.
  unfoldable pub load_dirs :
      List (Text × AgentDir)
      → List (Text × AgentProcess)
      → List (Text × AgentProcess) × Result (Unit {0})
  load_dirs [] agents = (agents, ok tt)
  load_dirs ((name, dir) ∷ dirs) agents = elim dir.agent_toml [
    | none ↦ load_dirs dirs agents
    | some content ↦ elim (T.from_str content) [
      | none ↦ (agents, err parse_failed)
      | some config ↦ load_dirs dirs (insert config.name (idle config stopped) agents)
    ]
  ]

  unfoldable pub init : Supervisor → Supervisor × Result (Unit {0})
  init s =
      let loaded = load_dirs s.agents_dir s.agents in
      (record { agents = loaded.0; agents_dir = s.agents_dir; proxies = s.proxies }, loaded.1)

  -- Writing `agent.toml` keeps the other files of a directory that is there already.
  unfoldable pub with_toml : Option AgentDir → Text → AgentDir
  with_toml none text = record { agent_toml = some text; run_sh = false; agent_pem = none }
  with_toml (some dir) text = record {
    agent_toml = some text;
    run_sh = dir.run_sh;
    agent_pem = dir.agent_pem;
  }

  unfoldable pub register : AgentConfig → Supervisor → Result Supervisor
  register config s = do
    toml_str ← ok_or (T.to_string_pretty config) serialization_failed
    ok (record {
      agents = insert config.name (idle config creating) s.agents;
      agents_dir =
          insert config.name (with_toml (lookup config.name s.agents_dir) toml_str) s.agents_dir;
      proxies = s.proxies;
    })

unfoldable pub agents_needing_start : Supervisor → List Text
agents_needing_start s =
    map (λ (name, a). name) (retain (λ (name, a). status_eq a.status starting) s.agents)

unfoldable pub info_of : AgentProcess → AgentInfo
info_of a = record {
  name = a.config.name;
  agent_id = a.config.agent_id;
  did = a.config.did;
  template = a.config.template;
  status = a.status;
  pid = a.pid;
  created_at = a.config.created_at;
  started_at = a.started_at;
  restart_count = a.restart_count;
  allowed_scopes = a.config.allowed_scopes;
}

unfoldable pub list_agents : Supervisor → List AgentInfo
list_agents s = map (λ (name, a). info_of a) s.agents

unfoldable pub get_agent : Text → Supervisor → Option AgentInfo
get_agent name s = elim (lookup name s.agents) [ none ↦ none | some a ↦ some (info_of a) ]
