-- ===== src/Models.antt =====
-- crates/grokingclawid-core/src/models.rs: the records that the other parts exchange. A `Uuid` is its
-- hyphenated text, a `DateTime<Utc>` the nanoseconds since 1970 as an integer.
use grokingclawid.Common.{Bool, List, Option, Text, false, true, ℕ, ℤ}

pub data CryptoScheme : Type 0 where
  ed25519 ml_dsa_65 hybrid : CryptoScheme

pub data AgentType : Type 0 where
  agent_type instance_of session : AgentType

pub record AgentCard : Type 0 where
  pub id : Text
  pub name : Text
  pub owner : Text
  pub scopes : List Text
  pub public_key : Text
  pub pq_public_key : Option Text
  pub signature : Text
  pub pq_signature : Option Text
  pub crypto_scheme : CryptoScheme
  pub issued_at : ℤ
  pub expires_at : ℤ
  pub kind : AgentType
  pub parent_id : Option Text
  pub spiffe_id : Option Text

pub record DelegationToken : Type 0 where
  pub id : Text
  pub parent_id : Text
  pub agent_name : Text
  pub scopes : List Text
  pub issued_at : ℤ
  pub expires_at : ℤ
  pub signature : Text
  pub pq_signature : Option Text
  pub crypto_scheme : CryptoScheme

pub record AuditEntry : Type 0 where
  pub id : ℕ
  pub agent_id : Text
  pub action : Text
  pub target : Text
  pub timestamp : ℤ
  pub prev_hash : Text
  pub entry_hash : Text
  pub signature : Text

-- `==` on schemes, as derived.
abbrev pub scheme_eq : CryptoScheme → CryptoScheme → Bool
scheme_eq ed25519 ed25519 = true
scheme_eq ml_dsa_65 ml_dsa_65 = true
scheme_eq hybrid hybrid = true
scheme_eq _ _ = false
