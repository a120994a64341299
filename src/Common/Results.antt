-- ===== src/Common/Results.antt =====
-- `anyhow::Result`: a value, or the error that the code raises. One constructor of `Error` stands
-- for each place that raises; the texts of the messages are not modelled.
use mathlib.Core.Path.{◌≡◌, refl}
use mathlib.Core.Logic.{◌⊎◌, inl, inr}
use mathlib.Core.Bool.{Bool, true, false}
use mathlib.Core.Option.{Option, none, some}

pub data Error : Type 0 where
  bad_base64 bad_key_length bad_signature_length bad_key signing_failed : Error
  no_run_script agent_not_found already_running serialization_failed parse_failed : Error
  already_revoked proxy_failed spawn_failed : Error
  invalid_key_format invalid_signature invalid_tier limit_reached unknown_limit : Error
  missing_feature : Error
  registration_exists registration_not_found no_tokens no_refresh_token bad_grant_type : Error
  scope_outside_parent domain_outside_parent store_too_small decrypt_failed encrypt_failed : Error
  request_failed no_client_secret no_device_url device_expired access_denied device_error : Error
  scope_not_held expires_after_parent key_mismatch missing_key : Error
  auth_rejected no_mesh_ip : Error

pub data Result {ℓ} (T : Type ℓ) : Type ℓ where
  err : Error → Result T
  ok : T → Result T

-- The `?` operator.
infixl 5 ◌>>=◌ ◌>>◌
abbrev pub ◌>>=◌ {ℓ μ} : {T : Type ℓ} {U : Type μ} → Result T → (T → Result U) → Result U
◌>>=◌ m k = elim m [ err why ↦ err why | ok v ↦ k v ]

abbrev pub ◌>>◌ {μ} : {U : Type μ} → Result (Unit {0}) → Result U → Result U
◌>>◌ m k = m >>= λ _. k

-- `if !test { bail!(why) }`
abbrev pub ensure : Bool → Error → Result (Unit {0})
ensure test why = elim test [ true ↦ ok tt | false ↦ err why ]

-- `ok_or(why)` and `.context(why)` on an option
abbrev pub ok_or {ℓ} : {T : Type ℓ} → Option T → Error → Result T
ok_or found why = elim found [ none ↦ err why | some v ↦ ok v ]

-- `unwrap_or(d)` of an option, and of a result
unfoldable pub or_else {ℓ} : {A : Type ℓ} → Option A → A → A
or_else none d = d
or_else (some a) d = a

abbrev pub unwrap_or {ℓ} : {T : Type ℓ} → Result T → T → T
unwrap_or m d = elim m [ err why ↦ d | ok v ↦ v ]

pub Result-cases {ℓ} :
    {T : Type ℓ} (r : Result T) → ((why : Error) × (r ≡ err why)) ⊎ ((v : T) × (r ≡ ok v))
Result-cases (err why) = inl (why, refl)
Result-cases (ok v) = inr (v, refl)
