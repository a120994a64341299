-- ===== src/OAuth/Flow.antt =====
-- crates/grokingclaw-daemon/src/oauth_flow.rs, what the flows make of a provider's answer, and the
-- methods of crates/grokingclaw-daemon/src/daemon.rs that store it. The answer to the HTTP request is
-- an argument, and so is what serde_json reads in its body. Scopes are of ASCII characters.
use grokingclawid.Common.{
  Bool, List, Option, Result, Text, [], access_denied, ascii, bad_grant_type, device_error,
  device_expired, ensure, err, if◌then◌else◌, is_space, no_client_secret, no_device_url,
  no_refresh_token, no_tokens, none, ok, ok_or, or_else, parse_failed, pos, registration_not_found,
  request_failed, seconds, some, text_eq, ℤ, ◌++◌, ◌+ℤ◌, ◌>>=◌, ◌>>◌, ◌||◌, ◌∷◌,
}
use grokingclawid.OAuth.{
  OAuthRegistration, OAuthStore, StoredOAuthTokens, get_registration, get_tokens, store_tokens,
}

-- `TokenResponse`
pub record TokenResponse : Type 0 where
  pub access_token : Text
  pub token_type : Option Text
  pub expires_in : Option ℤ
  pub refresh_token : Option Text
  pub scope : Option Text

pub record Response : Type 0 where
  pub is_success : Bool
  pub body : Text

-- What serde_json reads in a body: a token response, and the fields `error` and
-- `error_description` of a JSON value, each if it is a text.
pub record Reader : Type 0 where
  pub token_response : Text → Option TokenResponse
  pub error_of : Text → Option Text

-- `split_whitespace()`: `word` is what has been read of a word.
unfoldable pub split_from : Text → Text → List Text
split_from word [] = if text_eq word [] then [] else word ∷ []
split_from word (c ∷ s) =
    let next = split_from (if is_space c then [] else word ++ c ∷ []) s in
    if is_space c then if text_eq word [] then next else word ∷ next else next

unfoldable pub split_whitespace : Text → List Text
split_whitespace s = split_from [] s

unfoldable pub scopes_of : Option Text → List Text
scopes_of none = []
scopes_of (some s) = split_whitespace s

module _ (R : Reader) where
  unfoldable pub parse_token_response : Text → Text → ℤ → Result StoredOAuthTokens
  parse_token_response body registration_id now = do
    resp ← ok_or (R.token_response body) parse_failed
    ok (record {
      registration_id = registration_id;
      access_token = resp.access_token;
      refresh_token = resp.refresh_token;
      expires_at = now +ℤ seconds (or_else resp.expires_in (pos 3600));
      token_type = or_else resp.token_type (ascii "Bearer");
      granted_scopes = scopes_of resp.scope;
      last_refreshed = now;
    })

  -- `exchange_auth_code` and `clawid_token_exchange`, from the provider's answer on.
  unfoldable pub exchange : OAuthRegistration → Result Response → ℤ → Result StoredOAuthTokens
  exchange reg answer now = do
    resp ← answer
    ensure resp.is_success request_failed
    parse_token_response resp.body reg.id now

  unfoldable pub client_credentials :
      OAuthRegistration → Result Response → ℤ → Result StoredOAuthTokens
  client_credentials reg answer now = do
    secret ← ok_or reg.client_secret no_client_secret
    exchange reg answer now

  -- An answer without a refresh token leaves the old one in use.
  unfoldable pub keep_refresh : Text → StoredOAuthTokens → StoredOAuthTokens
  keep_refresh old tokens = record tokens {
    refresh_token = some (or_else tokens.refresh_token old);
  }

  unfoldable pub refresh_token :
      OAuthRegistration → Text → Result Response → ℤ → Result StoredOAuthTokens
  refresh_token reg refresh_token_value answer now = do
    tokens ← exchange reg answer now
    ok (keep_refresh refresh_token_value tokens)

  -- `poll_device_auth`: the status of the answer is not looked at.
  unfoldable pub polled :
      OAuthRegistration → Text → Option Text → ℤ → Result (Option StoredOAuthTokens)
  polled reg body none now = do tokens ← parse_token_response body reg.id now; ok (some tokens)
  polled reg body (some error) now =
      if text_eq error (ascii "authorization_pending") || text_eq error (ascii "slow_down")
      then ok none
      else if text_eq error (ascii "expired_token")
      then err device_expired
      else if text_eq error (ascii "access_denied")
      then err access_denied
      else err device_error

  unfoldable pub poll_device_auth :
      OAuthRegistration → Result Response → ℤ → Result (Option StoredOAuthTokens)
  poll_device_auth reg answer now = do
    resp ← answer
    polled reg resp.body (R.error_of resp.body) now

  -- `oauth_callback` and `oauth_exchange`
  unfoldable pub oauth_callback : Text → Result Response → ℤ → OAuthStore → Result OAuthStore
  oauth_callback registration_id answer now store = do
    reg ← ok_or (get_registration registration_id store) registration_not_found
    tokens ← exchange reg answer now
    store_tokens tokens store

  -- `oauth_refresh`, without the form in which the result is returned.
  unfoldable pub oauth_refresh :
      Text → Result Response → ℤ → OAuthStore → Result (StoredOAuthTokens × OAuthStore)
  oauth_refresh registration_id answer now store = do
    reg ← ok_or (get_registration registration_id store) registration_not_found
    existing ← ok_or (get_tokens registration_id store) no_tokens
    refresh_token_value ← ok_or existing.refresh_token no_refresh_token
    new_tokens ← refresh_token reg refresh_token_value answer now
    after ← store_tokens new_tokens store
    ok (new_tokens, after)

-- What `oauth_authorize` does: the user is asked on a device or in a browser, or the tokens are here.
pub data Authorized : Type 0 where
  on_device : Authorized
  in_browser : Authorized
  acquired : OAuthStore → Authorized

module _ (R : Reader) where
  unfoldable pub authorize_by :
      OAuthRegistration → Result Response → ℤ → OAuthStore → Result Authorized
  authorize_by reg answer now store =
      let device : Result Authorized = (do
        url ← ok_or reg.device_authorization_url no_device_url
        resp ← answer
        ensure resp.is_success request_failed
        ok on_device) in
      let credentials : Result Authorized = (do
        tokens ← client_credentials R reg answer now
        after ← store_tokens tokens store
        ok (acquired after)) in
      if text_eq reg.grant_type (ascii "device_code")
      then device
      else if text_eq reg.grant_type (ascii "client_credentials")
      then credentials
      else if text_eq reg.grant_type (ascii "authorization_code")
      then ok in_browser
      else err bad_grant_type

  unfoldable pub oauth_authorize : Text → Result Response → ℤ → OAuthStore → Result Authorized
  oauth_authorize registration_id answer now store = do
    reg ← ok_or (get_registration registration_id store) registration_not_found
    authorize_by reg answer now store
