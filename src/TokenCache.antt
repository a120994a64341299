-- ===== src/TokenCache.antt =====
-- crates/grokingclaw-proxy/src/oauth.rs: the cache of OAuth tokens that the proxy injects into
-- outbound requests, and the part of crates/grokingclaw-daemon/src/oauth_store.rs that fills it. The
-- daemon's answer to a refresh over the socket is an argument. A refresh in the background is a
-- request that `get_token` returns, and `refreshed` enters its answer whenever it arrives.
pub mod Domains
pub mod Served
pub mod Filled
mod Tests
use grokingclawid.Common.{
  Bool, List, Option, Result, Text, [], ascii, ends_with, err, false, find, if◌then◌else◌, insert,
  leb_ℤ, length, lookup, ltb, map, none, not, ok, remove, retain, some, strip_prefix, take, text_eq,
  timestamp, true, ℤ, ◌&&◌, ◌++◌, ◌-ℤ◌, ◌-◌, ◌>>=◌, ◌>>◌, ◌∷◌,
}
use grokingclawid.OAuth.{OAuthRegistration, OAuthStore, StoredOAuthTokens, get_registration}

pub record CachedOAuthToken : Type 0 where
  pub access_token : Text
  pub expires_at : ℤ
  pub scopes : List Text
  pub provider : Text
  pub registration_id : Text

pub record OAuthDomainBinding : Type 0 where
  pub domain : Text
  pub registration_id : Text
  pub required_scopes : List Text

-- `OAuthTokenCache`, without the address of the daemon.
pub record TokenCache : Type 0 where
  pub tokens : List (Text × CachedOAuthToken)
  pub bindings : List OAuthDomainBinding
  pub refresh_buffer_secs : ℤ

-- `now` is the clock in seconds.
unfoldable pub is_expired : ℤ → ℤ → CachedOAuthToken → Bool
is_expired buffer_secs now token = leb_ℤ (token.expires_at -ℤ buffer_secs) now

unfoldable pub is_hard_expired : ℤ → CachedOAuthToken → Bool
is_hard_expired now token = leb_ℤ token.expires_at now

-- What follows the prefix `*.` of a pattern against a domain.
unfoldable pub is_subdomain : Text → Text → Bool
is_subdomain suffix domain =
    if ends_with domain suffix && ltb (length suffix) (length domain)
    then ends_with (take (length domain - length suffix) domain) (ascii ".")
    else false

unfoldable pub domain_matches : Text → Text → Bool
domain_matches pattern domain =
    if text_eq pattern domain then true else elim (strip_prefix (ascii "*.") pattern) [
      | none ↦ false
      | some suffix ↦ is_subdomain suffix domain
    ]

unfoldable pub find_binding : Text → TokenCache → Option OAuthDomainBinding
find_binding domain cache = find (λ b. domain_matches b.domain domain) cache.bindings

unfoldable pub update_token : Text → CachedOAuthToken → TokenCache → TokenCache
update_token registration_id token cache = record cache {
  tokens = insert registration_id token cache.tokens;
}

unfoldable pub remove_token : Text → TokenCache → TokenCache
remove_token registration_id cache = record cache { tokens = remove registration_id cache.tokens }

unfoldable pub add_binding : OAuthDomainBinding → TokenCache → TokenCache
add_binding binding cache = record cache { bindings = cache.bindings ++ binding ∷ [] }

unfoldable pub remove_bindings : Text → TokenCache → TokenCache
remove_bindings registration_id cache = record cache {
  bindings = retain (λ b. not (text_eq b.registration_id registration_id)) cache.bindings;
}

-- What a lookup gives: the token, the registration to refresh in the background, and the cache.
pub record Answer : Type 0 where
  pub token : Option CachedOAuthToken
  pub spawned : Option Text
  pub cache : TokenCache

unfoldable pub refresh_token :
    (Text → Result CachedOAuthToken) → Text → TokenCache → Result (CachedOAuthToken × TokenCache)
refresh_token daemon registration_id cache = do
  new_token ← daemon registration_id
  ok (new_token, update_token registration_id new_token cache)

-- A token that is expired is refreshed before the request goes on.
unfoldable pub refresh_now : (Text → Result CachedOAuthToken) → Text → TokenCache → Answer
refresh_now daemon registration_id cache = elim (refresh_token daemon registration_id cache) [
  | err why ↦ record { token = none; spawned = none; cache = cache }
  | ok r ↦ record { token = some r.0; spawned = none; cache = r.1 }
]

unfoldable pub serve :
    (Text → Result CachedOAuthToken) → ℤ → Text → Option CachedOAuthToken → TokenCache → Answer
serve daemon now registration_id none cache = record { token = none; spawned = none; cache = cache }
serve daemon now registration_id (some token) cache =
    if is_hard_expired now token then refresh_now daemon registration_id cache else record {
      token = some token;
      spawned =
          if is_expired cache.refresh_buffer_secs now token then some registration_id else none;
      cache = cache;
    }

unfoldable pub get_token : (Text → Result CachedOAuthToken) → ℤ → Text → TokenCache → Answer
get_token daemon now domain cache = elim (find_binding domain cache) [
  | none ↦ record { token = none; spawned = none; cache = cache }
  | some binding ↦
      serve daemon now binding.registration_id (lookup binding.registration_id cache.tokens) cache
]

-- The end of a refresh in the background.
unfoldable pub refreshed : Text → Result CachedOAuthToken → TokenCache → TokenCache
refreshed registration_id (err why) cache = cache
refreshed registration_id (ok new_token) cache = update_token registration_id new_token cache

-- `OAuthStore::get_domain_bindings`
unfoldable pub bindings_of : OAuthRegistration → List OAuthDomainBinding
bindings_of reg =
    map
      (λ domain. record { domain = domain; registration_id = reg.id; required_scopes = reg.scopes })
      reg.domain_bindings

unfoldable pub get_domain_bindings : List OAuthRegistration → List OAuthDomainBinding
get_domain_bindings [] = []
get_domain_bindings (reg ∷ regs) = bindings_of reg ++ get_domain_bindings regs

-- `OAuthStore::get_cached_tokens`: a later entry for the same id replaces an earlier one.
unfoldable pub cached_of : StoredOAuthTokens → OAuthRegistration → CachedOAuthToken
cached_of t reg = record {
  access_token = t.access_token;
  expires_at = timestamp t.expires_at;
  scopes = t.granted_scopes;
  provider = reg.provider;
  registration_id = t.registration_id;
}

unfoldable pub cached_entry :
    OAuthStore → StoredOAuthTokens → List (Text × CachedOAuthToken) → List (Text × CachedOAuthToken)
cached_entry store t cached = elim (get_registration t.registration_id store) [
  | none ↦ cached
  | some reg ↦ insert t.registration_id (cached_of t reg) cached
]

unfoldable pub collect_tokens :
    OAuthStore
    → List StoredOAuthTokens
    → List (Text × CachedOAuthToken)
    → List (Text × CachedOAuthToken)
collect_tokens store [] cached = cached
collect_tokens store (t ∷ ts) cached = collect_tokens store ts (cached_entry store t cached)

unfoldable pub get_cached_tokens : OAuthStore → List (Text × CachedOAuthToken)
get_cached_tokens store = collect_tokens store store.tokens []

-- The cache that the supervisor opens for an agent.
unfoldable pub new_cache : ℤ → OAuthStore → TokenCache
new_cache refresh_buffer_secs store = record {
  tokens = get_cached_tokens store;
  bindings = get_domain_bindings store.registrations;
  refresh_buffer_secs = refresh_buffer_secs;
}
