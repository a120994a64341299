-- ===== src/TokenCache/Tests.antt =====
-- A cache with one binding, of every host under `github.com`.
use grokingclawid.Common.{
  Result, Text, [], ascii, ends_with, find, insert, lookup, none, ok, pos, refl, some, strip_prefix,
  take, text_eq, timestamp, true, ℤ, ◌++◌, ◌↔◌, ◌∷◌, ◌≡◌, ◌⊎◌,
}
use grokingclawid.OAuth.{OAuthRegistration, OAuthStore, StoredOAuthTokens, get_registration}
use grokingclawid.TokenCache.{
  CachedOAuthToken, OAuthDomainBinding, TokenCache, bindings_of, cached_entry, cached_of,
  collect_tokens, domain_matches, find_binding, get_cached_tokens, get_domain_bindings, get_token,
  is_hard_expired, is_subdomain, new_cache, refresh_now, refresh_token, refreshed, remove_bindings,
  serve,
}
use grokingclawid.TokenCache.Domains.{domain_matches_iff}
use grokingclawid.TokenCache.Served.{IsServed, get_token-IsServed, get_token-refreshed}

abbrev token_of : Text → ℤ → CachedOAuthToken
token_of value expires_at = record {
  access_token = value;
  expires_at = expires_at;
  scopes = [];
  provider = ascii "github";
  registration_id = ascii "gh";
}

abbrev binding : OAuthDomainBinding
binding = record {
  domain = ascii "*.github.com";
  registration_id = ascii "gh";
  required_scopes = [];
}

abbrev cache : TokenCache
cache = record {
  tokens = (ascii "gh", token_of (ascii "old") (pos 100)) ∷ [];
  bindings = binding ∷ [];
  refresh_buffer_secs = pos 60;
}

abbrev daemon : Text → Result CachedOAuthToken
daemon id = ok (token_of (ascii "new") (pos 4000))

domain_matches_iff_test : (domain_matches (ascii "*.x") (ascii "a.b.x") ≡ true) ↔ (
    (ascii "*.x" ≡ ascii "a.b.x")
    ⊎ ((suffix : Text) × (p : Text) × (ascii "*.x" ≡ ascii "*." ++ suffix)
        × (ascii "a.b.x" ≡ p ++ ascii "." ++ suffix)))
domain_matches_iff_test = domain_matches_iff (ascii "*.x") (ascii "a.b.x")

get_token-IsServed_example :
    (b : OAuthDomainBinding) × (find_binding (ascii "api.github.com") cache ≡ some b)
    × IsServed daemon
        (pos 100)
        (ascii "api.github.com")
        cache
        (token_of (ascii "new") (pos 4000))
        (get_token daemon (pos 100) (ascii "api.github.com") cache).cache
        b
unfolding get_token find_binding find domain_matches is_subdomain strip_prefix ends_with take
    text_eq serve lookup is_hard_expired refresh_now refresh_token
get_token-IsServed_example =
    get_token-IsServed daemon (pos 100) (ascii "api.github.com") cache
      (token_of (ascii "new") (pos 4000)) refl

get_token-refreshed_test :
    (get_token daemon
      (pos 50)
      (ascii "api.github.com")
      (refreshed (ascii "gh") (daemon (ascii "gh")) (remove_bindings (ascii "gh") cache))).token
    ≡ (get_token daemon
        (pos 50)
        (ascii "api.github.com")
        (remove_bindings (ascii "gh") cache)).token
get_token-refreshed_test =
    get_token-refreshed daemon (pos 50) (ascii "api.github.com") (ascii "gh") cache
      (daemon (ascii "gh"))

abbrev registration : OAuthRegistration
registration = record {
  id = ascii "gh";
  provider = ascii "github";
  client_id = [];
  client_secret = none;
  authorization_url = [];
  token_url = [];
  revocation_url = none;
  device_authorization_url = none;
  scopes = [];
  domain_bindings = ascii "*.github.com" ∷ [];
  grant_type = [];
  created_at = pos 0;
  parent_registration_id = none;
  max_scopes = none;
}

abbrev stored : StoredOAuthTokens
stored = record {
  registration_id = ascii "gh";
  access_token = ascii "old";
  refresh_token = none;
  expires_at = pos 100_000_000_001;
  token_type = ascii "Bearer";
  granted_scopes = [];
  last_refreshed = pos 0;
}

abbrev store : OAuthStore
store = record {
  version = 1;
  agent_id = ascii "a";
  registrations = registration ∷ [];
  tokens = stored ∷ [];
}

new_cache_runs : new_cache (pos 60) store ≡ cache
unfolding new_cache get_cached_tokens collect_tokens cached_entry get_registration find text_eq
    cached_of timestamp get_domain_bindings bindings_of insert
new_cache_runs = refl
