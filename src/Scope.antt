-- ===== src/Scope.antt =====
-- crates/grokingclaw-proxy/src/scope.rs: the scope enforcement of one agent's proxy, a sliding
-- window rate limiter and a domain allowlist. `Instant::now()` is an argument of each operation, in
-- nanoseconds of the monotonic clock. The `HashSet` is a list with no repetition. `Url::parse` is a
-- parameter: `none` where it fails, and else the URL's host, if it has one.
pub mod Evict
pub mod Window
pub mod Refinement
pub mod Domains
mod Tests
use grokingclawid.Common.{
  Bool, List, Option, Text, [], any, before, contains, ends_with, false, if◌then◌else◌, leb, length,
  none, some, true, ℕ, ◌%◌, ◌++◌, ◌-◌, ◌/◌, ◌==◌, ◌^◌, ◌||◌, ◌∷◌,
}

pub record ScopeConfig : Type 0 where
  pub allowed_domains : List Text
  pub max_requests_per_minute : ℕ
  pub request_timestamps : List ℕ

pub data ScopeDecision : Type 0 where
  allow : ScopeDecision
  deny_domain : Text → List Text → ScopeDecision
  deny_rate_limit : ℕ → ℕ → ScopeDecision

-- The insertion of one element by `collect`.
insert_all : List Text → List Text → List Text
insert_all set [] = set
insert_all set (x ∷ xs) = insert_all (if contains set x then set else set ++ x ∷ []) xs

unfoldable pub new : List Text → ℕ → ScopeConfig
unfolding insert_all
new domains limit = record {
  allowed_domains = insert_all [] domains;
  max_requests_per_minute = limit;
  request_timestamps = [];
}

unfoldable pub permissive : ScopeConfig
permissive = record { allowed_domains = []; max_requests_per_minute = 0; request_timestamps = [] }

-- `Duration::from_secs(60)`
abbrev pub window : ℕ
window = 60_000_000_000

-- The eviction loop: the front is dropped while it is at least a window old. `duration_since` is 0
-- for a later instant, as `-` is.
unfoldable pub evict : ℕ → List ℕ → List ℕ
evict now [] = []
evict now (t ∷ ts) = let rest = evict now ts in if leb window (now - t) then rest else t ∷ ts

-- What `check_rate_limit` answers: `passed` for `None`, `limited` for `Some(wait)`, and `panicked`
-- where `front().unwrap()` meets an empty queue.
pub data Rate : Type 0 where
  passed panicked : Rate
  limited : ℕ → Rate

-- `wait.as_secs().max(1)`
wait_secs : ℕ → ℕ → ℕ
wait_secs now oldest =
    let secs = (window - (now - oldest)) / 1_000_000_000 in if leb secs 1 then 1 else secs

full_rate : ℕ → List ℕ → Rate
unfolding wait_secs
full_rate now [] = panicked
full_rate now (oldest ∷ ts) = limited (wait_secs now oldest)

-- The limiter after the eviction; `len() as u32` keeps the low 32 bits.
admit : ScopeConfig → ℕ → List ℕ → Rate × ScopeConfig
admit s now ts =
    if leb s.max_requests_per_minute (length ts % 2 ^ 32)
    then (full_rate now ts, record s { request_timestamps = ts })
    else (passed, record s { request_timestamps = ts ++ now ∷ [] })

unfoldable pub check_rate_limit : ScopeConfig → ℕ → Rate × ScopeConfig
unfolding admit full_rate
check_rate_limit s now =
    if s.max_requests_per_minute == 0
    then (passed, s)
    else admit s now (evict now s.request_timestamps)

-- The exact match, and then the loop over the allowed parents.
unfoldable pub domain_allowed : List Text → Text → Bool
domain_allowed allowed host = contains allowed host || any (λ a. ends_with host (b'.' ∷ a)) allowed

abbrev is_empty : {A : Type 0} → List A → Bool
is_empty [] = true
is_empty (x ∷ xs) = false

-- The decision after the limiter; `none` is a panic.
after_rate : ScopeConfig → Rate → ScopeDecision → Option ScopeDecision
after_rate s passed d = some d
after_rate s panicked d = none
after_rate s (limited wait) d = some (deny_rate_limit s.max_requests_per_minute wait)

module _ (parse_url : Text → Option (Option Text)) where
  unfoldable pub extract_domain : Text → Text
  extract_domain url = elim (parse_url url) [
    | none ↦ before b':' url
    | some none ↦ []
    | some (some host) ↦ host
  ]

  url_decision : List Text → Text → ScopeDecision
  url_decision allowed url =
      if is_empty allowed
      then allow
      else if is_empty (extract_domain url)
      then allow
      else if domain_allowed allowed (extract_domain url)
      then allow
      else deny_domain (extract_domain url) allowed

  unfoldable pub check_url : ScopeConfig → ℕ → Text → Option ScopeDecision × ScopeConfig
  unfolding after_rate url_decision
  check_url s now url =
      let (rate, s') = check_rate_limit s now in
      (after_rate s rate (url_decision s.allowed_domains url), s')

connect_decision : List Text → Text → ScopeDecision
connect_decision allowed host =
    if is_empty allowed
    then allow
    else if domain_allowed allowed host
    then allow
    else deny_domain host allowed

unfoldable pub check_connect : ScopeConfig → ℕ → Text → Option ScopeDecision × ScopeConfig
unfolding after_rate connect_decision
check_connect s now host_port =
    let (rate, s') = check_rate_limit s now in
    (after_rate s rate (connect_decision s.allowed_domains (before b':' host_port)), s')
