-- ===== src/Revocation.antt =====
-- crates/grokingclawid-core/src/revocation.rs: the registry of revoked cards. The table is the list of
-- its rows in the order of insertion, `agent_id` being its primary key. An instant is stored as its
-- RFC 3339 text, which chrono writes and reads: a parameter, as is the parsing of a stored id. Where
-- a stored text does not parse, the code takes the nil id or the present time. SQLite itself is
-- taken not to fail.
pub mod Registry
pub mod Authority
mod Tests
use grokingclawid.Common.{
  or_else, Bool, Bytes, List, Option, Result, Text, [], already_revoked, ascii, ensure, false, find,
  if◌then◌else◌, length, ltb, map, none, not, ok, retain, some, text_eq, text_ltb, true, ℤ, ◌++◌,
  ◌>>=◌, ◌>>◌, ◌∷◌,
}
use grokingclawid.Crypto.{Primitives, mldsa_sign, mldsa_verify, sign, verify}

pub record RevocationEntry : Type 0 where
  pub agent_id : Text
  pub agent_name : Text
  pub reason : Text
  pub revoked_by : Text
  pub revoked_at : ℤ
  pub signature : Text
  pub pq_signature : Option Text

-- A row of the table.
pub record Row : Type 0 where
  pub agent_id : Text
  pub agent_name : Text
  pub reason : Text
  pub revoked_by : Text
  pub revoked_at : Text
  pub signature : Text
  pub pq_signature : Option Text

-- chrono's RFC 3339 texts, and uuid's parser, which gives the id in its canonical form.
pub record Formats : Type 0 where
  pub to_rfc3339 : ℤ → Text
  pub parse_from_rfc3339 : Text → Option ℤ
  pub parse_uuid : Text → Option Text
  -- `Uuid::default()`
  pub nil_uuid : Text

unfoldable pub is_revoked : List Row → Text → Bool
is_revoked table agent_id = ltb 0 (length (retain (λ r. text_eq r.agent_id agent_id) table))

-- `ORDER BY revoked_at DESC` on the stored texts; equal texts in the order of insertion.
unfoldable pub insert_newest : Row → List Row → List Row
insert_newest r [] = r ∷ []
insert_newest r (q ∷ rows) =
    let rest = insert_newest r rows in
    if text_ltb r.revoked_at q.revoked_at then q ∷ rest else r ∷ q ∷ rows

unfoldable pub newest_first : List Row → List Row
newest_first [] = []
newest_first (r ∷ rows) = insert_newest r (newest_first rows)

module _ (F : Formats) where
  unfoldable pub revocation_payload : Text → Text → ℤ → Text
  revocation_payload agent_id reason revoked_at =
      ascii "REVOKE:" ++ (agent_id ++ 58 ∷ (reason ++ 58 ∷ F.to_rfc3339 revoked_at))

  unfoldable pub to_row : RevocationEntry → Row
  to_row e = record {
    agent_id = e.agent_id;
    agent_name = e.agent_name;
    reason = e.reason;
    revoked_by = e.revoked_by;
    revoked_at = F.to_rfc3339 e.revoked_at;
    signature = e.signature;
    pq_signature = e.pq_signature;
  }

  unfoldable pub of_row : ℤ → Row → RevocationEntry
  of_row now r = record {
    agent_id = or_else (F.parse_uuid r.agent_id) F.nil_uuid;
    agent_name = r.agent_name;
    reason = r.reason;
    revoked_by = r.revoked_by;
    revoked_at = or_else (F.parse_from_rfc3339 r.revoked_at) now;
    signature = r.signature;
    pq_signature = r.pq_signature;
  }

  unfoldable pub get_revocation : List Row → Text → ℤ → Option RevocationEntry
  get_revocation table agent_id now = elim (find (λ r. text_eq r.agent_id agent_id) table) [
    | none ↦ none
    | some r ↦ some (of_row now r)
  ]

  unfoldable pub list_revocations : List Row → ℤ → List RevocationEntry
  list_revocations table now = map (of_row now) (newest_first table)

module _ (P : Primitives) where
  unfoldable pub sign_optional : Option Bytes → Bytes → Result (Option Text)
  sign_optional none payload = ok none
  sign_optional (some key) payload = do sig ← mldsa_sign P key payload; ok (some sig)

  unfoldable pub verify_pq : Option Text → Option Text → Bytes → Result Bool
  verify_pq none pq_pub payload = ok true
  verify_pq (some pq_sig) none payload = ok true
  verify_pq (some pq_sig) (some pq_pub) payload = mldsa_verify P pq_pub payload pq_sig

module _ (P : Primitives) (F : Formats) where
  unfoldable pub revoke_hybrid :
      List Row
      → Text
      → Text
      → Text
      → Text
      → Bytes
      → Option Bytes
      → ℤ
      → Result (List Row × RevocationEntry)
  revoke_hybrid table agent_id agent_name reason revoked_by signing_key pq_secret_key now = do
    ensure (not (is_revoked table agent_id)) already_revoked
    let payload = revocation_payload F agent_id reason now
    pq_signature ← sign_optional P pq_secret_key payload
    let entry : RevocationEntry = record {
      agent_id = agent_id;
      agent_name = agent_name;
      reason = reason;
      revoked_by = revoked_by;
      revoked_at = now;
      signature = sign P signing_key payload;
      pq_signature = pq_signature;
    }
    ok (table ++ to_row F entry ∷ [], entry)

  unfoldable pub revoke :
      List Row → Text → Text → Text → Text → Bytes → ℤ → Result (List Row × RevocationEntry)
  revoke table agent_id agent_name reason revoked_by signing_key now =
      revoke_hybrid table agent_id agent_name reason revoked_by signing_key none now

  unfoldable pub verify_revocation : RevocationEntry → Text → Result Bool
  verify_revocation entry public_key_b64 =
      verify P public_key_b64 (revocation_payload F entry.agent_id entry.reason entry.revoked_at)
        entry.signature

  unfoldable pub verify_revocation_hybrid : RevocationEntry → Text → Option Text → Result Bool
  verify_revocation_hybrid entry ed25519_public_key_b64 pq_public_key_b64 = do
    let payload = revocation_payload F entry.agent_id entry.reason entry.revoked_at
    ed_valid ← verify P ed25519_public_key_b64 payload entry.signature
    if not ed_valid then ok false else verify_pq P entry.pq_signature pq_public_key_b64 payload
