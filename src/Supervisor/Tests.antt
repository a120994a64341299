-- ===== src/Supervisor/Tests.antt =====
-- One agent with a budget of one restart, which crashes twice.
use grokingclawid.Common.{
  Entries, List, Memᴰ, Text, [], arith, as_i64, ascii, false, insert, length, lookup, ltb_ℤ, none,
  ok, pos, refl, retain, seconds, some, text_eq, true, ℕ, ◌*ℤ◌, ◌-ℤ◌, ◌↔◌, ◌∷◌, ◌≡◌, ◌≢◌, ◌≤◌,
}
use grokingclawid.Supervisor.{
  AgentConfig, AgentProcess, Supervisor, Toml, creating, default_model, default_resources, idle,
  register, running, with_toml,
}
use grokingclawid.Supervisor.Process.{
  Host, after_wait, check_agent, check_exit, check_expiry, check_health, exited, expire, granted,
  has_script, key_of, launched, on_crash, on_exit, recent, spawn_agent, start_agent, start_found,
  still_running, wait_for,
}
use grokingclawid.Supervisor.Budget.{Event, health, launch}
use grokingclawid.Supervisor.History.{restart_budget, restarts}
use grokingclawid.Supervisor.Lifecycle.{IsSound}
use grokingclawid.Supervisor.Reach.{Reachable-IsSound, checks, fresh, next, registers}
use grokingclawid.Supervisor.Expiry.{Launches, MayRun, check_health-MayRun, start_agent-ok_iff}
use grokingclawid.Supervisor.Leak.{restart_leaks_proxy}

-- A `toml` that keeps one configuration.
abbrev config : AgentConfig
config = record {
  name = ascii "bot";
  template = ascii "t";
  template_version = ascii "1";
  agent_id = ascii "a-1";
  did = none;
  created_at = pos 0;
  allowed_domains = [];
  allowed_scopes = [];
  expires_at = some (pos 900_000_000_000);
  model = default_model;
  resources = default_resources;
  restart = record { max_restarts = 1; restart_window_seconds = 300; restart_on_success = false };
}

abbrev one_config : Toml
one_config = record { to_string_pretty = λ c. some (ascii "x"); from_str = λ t. some config }

-- Every process fails, proxies open as task 7.
abbrev crashing : Host
crashing = record {
  open_proxy = λ c pem. ok (8080, 7);
  spawn = λ c port. ok 42;
  try_wait = λ child. exited false;
}

-- The process still runs.
abbrev healthy : Host
healthy = record {
  open_proxy = λ c pem. ok (8080, 7);
  spawn = λ c port. ok 42;
  try_wait = λ child. still_running;
}

-- The process is seen running, then crashed, and once more.
abbrev events : List Event
events =
    launch none 42 (pos 0)
    ∷ health healthy (pos 500_000_000)
    ∷ health crashing (pos 1_000_000_000)
    ∷ launch none 42 (pos 2_000_000_000)
    ∷ health healthy (pos 2_500_000_000)
    ∷ health crashing (pos 3_000_000_000)
    ∷ []

-- The first crash is answered by a restart, the second is not.
crashes : restarts events (idle config creating) ≡ pos 1_000_000_000 ∷ []
unfolding idle launched check_agent check_exit check_expiry wait_for after_wait on_exit on_crash
    granted recent expire retain seconds ◌*ℤ◌ ◌-ℤ◌ as_i64
crashes = refl

restart_budget_example :
    length (
      retain
        (λ t. ltb_ℤ (pos 3_000_000_000 -ℤ t) (seconds (as_i64 300)))
        (restarts events (idle config creating)))
    ≤ 1
unfolding idle
restart_budget_example =
    restart_budget events (idle config creating) (pos 0) (pos 3_000_000_000) refl
      (omega arith, (omega arith, (omega arith, (omega arith, tt)))) (omega arith)

abbrev empty : Supervisor
empty = record { agents = []; agents_dir = []; proxies = [] }

abbrev with_bot : Supervisor
with_bot = record {
  agents =
      (
        ascii "bot",
        record {
          config = config;
          status = creating;
          child = none;
          pid = none;
          proxy_port = none;
          proxy_handle = none;
          restart_count = 0;
          restart_timestamps = [];
          started_at = none;
        },
      )
      ∷ [];
  agents_dir =
      (ascii "bot", record { agent_toml = some (ascii "x"); run_sh = false; agent_pem = none })
      ∷ [];
  proxies = [];
}

registered : register one_config config empty ≡ ok with_bot
unfolding register idle insert with_toml lookup
registered = refl

Reachable-IsSound_example : Entries IsSound (check_health crashing (pos 5) with_bot).agents
Reachable-IsSound_example =
    Reachable-IsSound one_config (check_health crashing (pos 5) with_bot)
      (next (next (fresh []) (registers config registered)) (checks crashing (pos 5)))

-- The bot while it runs with the proxy 6 and a key.
abbrev busy : AgentProcess
busy = record {
  config = config;
  status = running;
  child = some 42;
  pid = some 42;
  proxy_port = some 8000;
  proxy_handle = some 6;
  restart_count = 0;
  restart_timestamps = [];
  started_at = some (pos 0);
}

abbrev with_busy : Supervisor
with_busy = record {
  agents = (ascii "bot", busy) ∷ [];
  agents_dir =
      (ascii "bot", record { agent_toml = none; run_sh = true; agent_pem = some (ascii "k") }) ∷ [];
  proxies = 6 ∷ [];
}

check_health-MayRun_example :
    Entries
      (λ name a. MayRun (pos 900_000_000_001) a)
      (check_health crashing (pos 900_000_000_001) with_busy).agents
check_health-MayRun_example = check_health-MayRun crashing (pos 900_000_000_001) with_busy

starts_again :
    (start_agent crashing (ascii "bot") (pos 9) (check_health crashing (pos 5) with_busy)).1 ≡ ok tt
unfolding start_agent has_script lookup text_eq check_health check_agent check_exit wait_for
    after_wait on_exit on_crash granted recent retain check_expiry expire start_found key_of
    spawn_agent
starts_again = refl

start_agent-ok_iff_example : ((start_agent crashing (ascii "bot") (pos 9) with_busy).1 ≡ ok tt) ↔ (
    (has_script (ascii "bot") with_busy ≡ true)
    × (a : AgentProcess) × (lookup (ascii "bot") with_busy.agents ≡ some a)
    × (a.status ≢ running)
    × Launches crashing (key_of (ascii "bot") with_busy) a.config)
start_agent-ok_iff_example = start_agent-ok_iff crashing (ascii "bot") (pos 9) with_busy

here : lookup (ascii "bot") with_busy.agents ≡ some busy
unfolding lookup text_eq
here = refl

other_task : (c : AgentConfig) (pem : Text) (port : ℕ) → crashing.open_proxy c pem ≢ ok (port, 6)
other_task c pem port e = ground arith

restart_leaks_proxy_example :
    (b : AgentProcess) × (lookup (ascii "bot") (check_health crashing (pos 5) with_busy).agents
      ≡ some b)
    × (b.proxy_handle ≡ some 6)
    × Memᴰ 6
        (start_agent crashing
          (ascii "bot")
          (pos 9)
          (check_health crashing (pos 5) with_busy)).0.proxies
    × (c : AgentProcess) × (lookup
          (ascii "bot")
          (start_agent crashing
            (ascii "bot")
            (pos 9)
            (check_health crashing (pos 5) with_busy)).0.agents
        ≡ some c)
    × (c.proxy_handle ≢ some 6)
restart_leaks_proxy_example =
    restart_leaks_proxy crashing (ascii "bot") busy 6 (pos 5) (pos 9) with_busy here refl
      (Memᴰ.head refl) other_task starts_again
