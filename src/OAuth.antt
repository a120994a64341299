-- ===== src/OAuth.antt =====
-- crates/grokingclaw-daemon/src/oauth_store.rs and the OAuth methods of
-- crates/grokingclaw-daemon/src/daemon.rs: an agent's OAuth registrations and tokens. A method loads
-- the store, works on it and saves it; OAuth.Sealed has the loading and the saving, OAuth.Flow what
-- crates/grokingclaw-daemon/src/oauth_flow.rs makes of the providers' answers. `cascade_remove`
-- calls itself for each child, with no bound: it takes fuel here, and `none` means that it is still
-- running. A provider's answer is an argument, as are a fresh id and the clock.
pub mod Cascade
pub mod Cyclic
pub mod Delegation
pub mod Revoke
pub mod Consistent
pub mod Flow
pub mod Refreshed
pub mod Sealed
mod Tests
use grokingclawid.Common.{
  Bool, Error, List, Option, Result, Text, [], any, ascii, contains, domain_outside_parent, ensure,
  err, false, find, if◌then◌else◌, map, none, not, ok, or_else, registration_exists,
  registration_not_found, retain, scope_outside_parent, some, suc, text_eq, zero, ℕ, ℤ, ◌++◌, ◌>>=◌,
  ◌>>◌, ◌∷◌,
}

pub record OAuthRegistration : Type 0 where
  pub id : Text
  pub provider : Text
  pub client_id : Text
  pub client_secret : Option Text
  pub authorization_url : Text
  pub token_url : Text
  pub revocation_url : Option Text
  pub device_authorization_url : Option Text
  pub scopes : List Text
  pub domain_bindings : List Text
  pub grant_type : Text
  pub created_at : ℤ
  pub parent_registration_id : Option Text
  pub max_scopes : Option (List Text)

pub record StoredOAuthTokens : Type 0 where
  pub registration_id : Text
  pub access_token : Text
  pub refresh_token : Option Text
  pub expires_at : ℤ
  pub token_type : Text
  pub granted_scopes : List Text
  pub last_refreshed : ℤ

pub record OAuthStore : Type 0 where
  pub version : ℕ
  pub agent_id : Text
  pub registrations : List OAuthRegistration
  pub tokens : List StoredOAuthTokens

-- `OAuthStore::new`
unfoldable pub empty_store : Text → OAuthStore
empty_store agent_id = record { version = 1; agent_id = agent_id; registrations = []; tokens = [] }

unfoldable pub has_registration : Text → OAuthStore → Bool
has_registration id store = any (λ r. text_eq r.id id) store.registrations

unfoldable pub register_provider : OAuthRegistration → OAuthStore → Result OAuthStore
register_provider reg store = do
  ensure (not (has_registration reg.id store)) registration_exists
  ok (record store { registrations = store.registrations ++ reg ∷ [] })

unfoldable pub store_tokens : StoredOAuthTokens → OAuthStore → Result OAuthStore
store_tokens tokens store = do
  ensure (has_registration tokens.registration_id store) registration_not_found
  let others = retain (λ t. not (text_eq t.registration_id tokens.registration_id)) store.tokens
  ok (record store { tokens = others ++ tokens ∷ [] })

unfoldable pub get_tokens : Text → OAuthStore → Option StoredOAuthTokens
get_tokens registration_id store =
    find (λ t. text_eq t.registration_id registration_id) store.tokens

unfoldable pub get_registration : Text → OAuthStore → Option OAuthRegistration
get_registration registration_id store =
    find (λ r. text_eq r.id registration_id) store.registrations

unfoldable pub remove_registration : Text → OAuthStore → Result OAuthStore
remove_registration registration_id store = do
  ensure (has_registration registration_id store) registration_not_found
  ok (record store {
    registrations = retain (λ r. not (text_eq r.id registration_id)) store.registrations;
    tokens = retain (λ t. not (text_eq t.registration_id registration_id)) store.tokens;
  })

-- `r.parent_registration_id.as_deref() == Some(id)`
unfoldable pub parent_eq : Option Text → Text → Bool
parent_eq none id = false
parent_eq (some p) id = text_eq p id

unfoldable pub children : Text → OAuthStore → List Text
children id store =
    map (λ r. r.id) (retain (λ r. parent_eq r.parent_registration_id id) store.registrations)

-- The two calls of `retain` that end `cascade_remove`.
unfoldable pub prune : Text → List Text → OAuthStore → OAuthStore
prune id child_ids store = record store {
  registrations = retain (λ r. not (parent_eq r.parent_registration_id id)) store.registrations;
  tokens = retain (λ t. not (contains child_ids t.registration_id)) store.tokens;
}

-- `for child_id in &child_ids`
unfoldable pub remove_each :
    (Text → OAuthStore → Option OAuthStore) → List Text → OAuthStore → Option OAuthStore
remove_each f [] store = some store
remove_each f (id ∷ ids) store = elim (f id store) [
  | none ↦ none
  | some after ↦ remove_each f ids after
]

unfoldable pub cascade_remove : ℕ → Text → OAuthStore → Option OAuthStore
cascade_remove zero id store = none
cascade_remove (suc fuel) id store =
    let child_ids = children id store in
    elim (remove_each (λ c s. cascade_remove fuel c s) child_ids store) [
      | none ↦ none
      | some after ↦ some (prune id child_ids after)
    ]

-- `Daemon::oauth_revoke`. Telling the provider changes nothing here.
unfoldable pub oauth_revoke : ℕ → Text → OAuthStore → Option (Result OAuthStore)
oauth_revoke fuel registration_id store =
    if has_registration registration_id store
    then elim (cascade_remove fuel registration_id store) [
      | none ↦ none
      | some after ↦ some (remove_registration registration_id after)
    ]
    else some (err registration_not_found)

-- What `oauth_register` reads of its JSON parameters: a missing value, or one of another type, is
-- `none`.
pub record RegisterParams : Type 0 where
  pub registration_id : Option Text
  pub provider : Option Text
  pub client_id : Option Text
  pub client_secret : Option Text
  pub authorization_url : Option Text
  pub token_url : Option Text
  pub revocation_url : Option Text
  pub device_authorization_url : Option Text
  pub scopes : Option (List Text)
  pub domain_bindings : Option (List Text)
  pub grant_type : Option Text
  pub parent_registration_id : Option Text
  pub max_scopes : Option (List Text)

unfoldable pub registration_of : RegisterParams → Text → ℤ → OAuthRegistration
registration_of params new_v4 now = record {
  id = or_else params.registration_id new_v4;
  provider = or_else params.provider [];
  client_id = or_else params.client_id [];
  client_secret = params.client_secret;
  authorization_url = or_else params.authorization_url [];
  token_url = or_else params.token_url [];
  revocation_url = params.revocation_url;
  device_authorization_url = params.device_authorization_url;
  scopes = or_else params.scopes [];
  domain_bindings = or_else params.domain_bindings [];
  grant_type = or_else params.grant_type (ascii "authorization_code");
  created_at = now;
  parent_registration_id = params.parent_registration_id;
  max_scopes = params.max_scopes;
}

unfoldable pub oauth_register : RegisterParams → Text → ℤ → OAuthStore → Result OAuthStore
oauth_register params new_v4 now store = register_provider (registration_of params new_v4 now) store

-- `validate_delegation_scopes` and `validate_delegation_domains`
unfoldable pub all_held : Error → List Text → List Text → Result (Unit {0})
all_held why held [] = ok tt
all_held why held (x ∷ xs) =
    let rest = all_held why held xs in if contains held x then rest else err why

unfoldable pub validate_delegation_scopes : List Text → List Text → Result (Unit {0})
validate_delegation_scopes parent_scopes requested_scopes =
    all_held scope_outside_parent parent_scopes requested_scopes

unfoldable pub validate_delegation_domains : List Text → List Text → Result (Unit {0})
validate_delegation_domains parent_domains requested_domains =
    all_held domain_outside_parent parent_domains requested_domains
