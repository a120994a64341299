-- ===== src/License.antt =====
-- crates/grokingclawid-core/src/license.rs: licence tiers, their limits, and the signed licence file.
-- The file is its text, if it is there; serde_json and the UTF-8 check of the decoded payload are a
-- parameter, and so is the public key of the licences. `count_agents`, which reads directories, and
-- the texts for display are left out.
pub mod Files
pub mod Tiers
mod Tests
use grokingclawid.Common.{
  Bool, Bytes, List, Option, Result, Text, [], any, ascii, bad_base64, ensure, err, if◌then◌else◌,
  invalid_key_format, invalid_signature, invalid_tier, leb, limit_reached, missing_feature, none,
  ok, ok_or, parse_failed, serialization_failed, some, split_once, text_eq, unknown_limit,
  unwrap_or, ℕ, ℤ, ◌&&◌, ◌+◌, ◌==◌, ◌>>=◌, ◌>>◌, ◌∷◌,
}
use grokingclawid.Crypto.{Primitives, verify}

pub data LicenseTier : Type 0 where
  free indie team enterprise : LicenseTier

pub data LicenseFeature : Type 0 where
  mesh birth_local birth_mesh birth_remote unlimited_proxy : LicenseFeature
  compliance_reporting on_chain_anchoring agent_monitoring private_registry : LicenseFeature

-- Lowercasing turns no letter beyond ASCII into one of the letters of the four names.
unfoldable pub to_lowercase : Text → Text
to_lowercase [] = []
to_lowercase (x ∷ s) =
    let rest = to_lowercase s in if leb 65 x && leb x 90 then (x + 32) ∷ rest else x ∷ rest

unfoldable pub from_str : Text → Result LicenseTier
from_str s =
    let name = to_lowercase s in
    if text_eq name (ascii "free")
    then ok free
    else if text_eq name (ascii "indie")
    then ok indie
    else if text_eq name (ascii "team")
    then ok team
    else if text_eq name (ascii "enterprise")
    then ok enterprise
    else err invalid_tier

-- `==` on features, by their position.
unfoldable pub feature_index : LicenseFeature → ℕ
feature_index mesh = 0
feature_index birth_local = 1
feature_index birth_mesh = 2
feature_index birth_remote = 3
feature_index unlimited_proxy = 4
feature_index compliance_reporting = 5
feature_index on_chain_anchoring = 6
feature_index agent_monitoring = 7
feature_index private_registry = 8

pub record LicenseLimits : Type 0 where
  pub max_agents : Option ℕ
  pub max_mesh_nodes : Option ℕ
  pub max_proxy_agents : Option ℕ
  pub features : List LicenseFeature

unfoldable pub for_tier : LicenseTier → LicenseLimits
for_tier free = record {
  max_agents = some 5;
  max_mesh_nodes = some 0;
  max_proxy_agents = some 1;
  features = [];
}
for_tier indie = record {
  max_agents = some 25;
  max_mesh_nodes = some 3;
  max_proxy_agents = none;
  features = unlimited_proxy ∷ birth_local ∷ mesh ∷ [];
}
for_tier team = record {
  max_agents = some 100;
  max_mesh_nodes = some 10;
  max_proxy_agents = none;
  features = unlimited_proxy ∷ birth_local ∷ birth_mesh ∷ mesh ∷ compliance_reporting ∷ [];
}
for_tier enterprise = record {
  max_agents = none;
  max_mesh_nodes = none;
  max_proxy_agents = none;
  features =
      unlimited_proxy ∷ birth_local ∷ birth_mesh ∷ birth_remote ∷ mesh ∷ compliance_reporting
      ∷ on_chain_anchoring ∷ agent_monitoring ∷ private_registry ∷ [];
}

unfoldable pub has_feature : LicenseLimits → LicenseFeature → Bool
has_feature limits feature = any (λ f. feature_index f == feature_index feature) limits.features

pub record LicenseFile : Type 0 where
  pub tier : LicenseTier
  pub license_key : Text
  pub issued_at : ℤ
  pub licensee_email : Text
  pub limits : LicenseLimits

pub record LicensePayload : Type 0 where
  pub tier : LicenseTier
  pub licensee_email : Text
  pub issued_at : ℤ

pub record LicenseState : Type 0 where
  pub tier : LicenseTier
  pub limits : LicenseLimits
  pub licensee_email : Option Text
  pub issued_at : Option ℤ

unfoldable pub default_license : LicenseState
default_license = record {
  tier = free;
  limits = for_tier free;
  licensee_email = none;
  issued_at = none;
}

-- serde_json on the payload and on the file, and `String::from_utf8(…).is_ok()`.
pub record LicenseJson : Type 0 where
  pub payload_text : LicensePayload → Option Text
  pub payload_of : Text → Option LicensePayload
  pub file_text : LicenseFile → Option Text
  pub file_of : Text → Option LicenseFile
  pub is_utf8 : Bytes → Bool

-- The state that a validated file gives: the limits come from its tier, not from the file.
unfoldable pub state_of : LicenseFile → LicenseState
state_of file = record {
  tier = file.tier;
  limits = for_tier file.tier;
  licensee_email = some file.licensee_email;
  issued_at = some file.issued_at;
}

unfoldable pub payload_from : LicenseFile → LicensePayload
payload_from file = record {
  tier = file.tier;
  licensee_email = file.licensee_email;
  issued_at = file.issued_at;
}

unfoldable pub file_from : LicensePayload → Text → LicenseFile
file_from payload key = record {
  tier = payload.tier;
  license_key = key;
  issued_at = payload.issued_at;
  licensee_email = payload.licensee_email;
  limits = for_tier payload.tier;
}

module _ (P : Primitives) (J : LicenseJson) (public_key : Text) where
  unfoldable pub validate_license_key : LicenseFile → Result (Unit {0})
  validate_license_key file = do
    text ← ok_or (J.payload_text (payload_from file)) serialization_failed
    valid ← verify P public_key text file.license_key
    ensure valid invalid_signature

  unfoldable pub load_license_from_path : Text → Result LicenseState
  load_license_from_path content = do
    file ← ok_or (J.file_of content) parse_failed
    validate_license_key file
    ok (state_of file)

  unfoldable pub load_license : Option Text → LicenseState
  load_license none = default_license
  load_license (some content) = unwrap_or (load_license_from_path content) default_license

  -- The new content of the licence file, and the state. `splitn(2, ':')` splits at the first colon.
  unfoldable pub activate_license : Text → Result (Text × LicenseState)
  activate_license key = do
    parts ← ok_or (split_once 58 key) invalid_key_format
    payload_json ← ok_or (P.base64_decode parts.0) bad_base64
    ensure (J.is_utf8 payload_json) parse_failed
    payload ← ok_or (J.payload_of payload_json) parse_failed
    let file = file_from payload parts.1
    validate_license_key file
    json ← ok_or (J.file_text file) serialization_failed
    ok (json, state_of file)

unfoldable pub deactivate_license : Option Text → Option Text
deactivate_license file = none

unfoldable pub under : ℕ → Option ℕ → Result (Unit {0})
under current none = ok tt
under current (some max) = if leb max current then err limit_reached else ok tt

unfoldable pub check_limit : Text → ℕ → LicenseState → Result (Unit {0})
check_limit name current license =
    if text_eq name (ascii "agents")
    then under current license.limits.max_agents
    else if text_eq name (ascii "mesh_nodes")
    then under current license.limits.max_mesh_nodes
    else if text_eq name (ascii "proxy_agents")
    then under current license.limits.max_proxy_agents
    else err unknown_limit

unfoldable pub check_feature : LicenseFeature → LicenseState → Result (Unit {0})
check_feature feature license = ensure (has_feature license.limits feature) missing_feature
