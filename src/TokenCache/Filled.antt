-- ===== src/TokenCache/Filled.antt =====
-- The cache that the supervisor fills from an agent's store agrees with the store.
use grokingclawid.Common.{List, Option, Text, find, none, some, text_eq, timestamp}
use grokingclawid.OAuth.{OAuthStore, StoredOAuthTokens, get_registration}
use grokingclawid.TokenCache.{CachedOAuthToken}

-- What the store has for an id: the first tokens of the id, with the scopes that were granted and the
-- seconds at which they expire, and the provider of the registration.
unfoldable pub stored_token : OAuthStore → Text → List StoredOAuthTokens → Option CachedOAuthToken
stored_token store id tokens = elim (find (λ t. text_eq t.registration_id id) tokens) [
  | none ↦ none
  | some t ↦ elim (get_registration id store) [
    | none ↦ none
    | some reg ↦ some record {
      access_token = t.access_token;
      expires_at = timestamp t.expires_at;
      scopes = t.granted_scopes;
      provider = reg.provider;
      registration_id = t.registration_id;
    }
  ]
]
