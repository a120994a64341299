-- ===== src/License/Tests.antt =====
-- A key for the indie tier that is activated and loaded.
use grokingclawid.Common.{
  Bytes, Text, [], any, arith, ascii, err, invalid_key_format, invalid_signature, invalid_tier,
  none, ok, pos, refl, some, split_once, text_eq, true, ◌++◌, ◌∷◌, ◌≡◌,
}
use grokingclawid.Crypto.{verify}
use grokingclawid.Crypto.Toy.{sized, toy}
use grokingclawid.License.{
  LicenseFile, LicenseJson, LicensePayload, activate_license, birth_local, check_feature,
  check_limit, enterprise, feature_index, file_from, for_tier, from_str, has_feature, indie, mesh,
  payload_from, state_of, team, to_lowercase, under, unlimited_proxy, validate_license_key,
}
use grokingclawid.License.Tiers.{at_tier, check_feature_mono, check_limit_mono}

abbrev vendor : Bytes
vendor = sized 32 (ascii "vendor")

abbrev seed_other : Bytes
seed_other = sized 32 (ascii "other")

abbrev payload : LicensePayload
payload = record { tier = indie; licensee_email = ascii "a@b"; issued_at = pos 7 }

abbrev key_text : Text
key_text = sized 64 (vendor ++ ascii "p")

abbrev file : LicenseFile
file = record {
  tier = indie;
  license_key = key_text;
  issued_at = pos 7;
  licensee_email = ascii "a@b";
  limits = record {
    max_agents = some 25;
    max_mesh_nodes = some 3;
    max_proxy_agents = none;
    features = unlimited_proxy ∷ birth_local ∷ mesh ∷ [];
  };
}

-- The file is read from any text, the payload written as one letter.
abbrev json : LicenseJson
json = record {
  payload_text = λ p. some (ascii "p");
  payload_of = λ t. some payload;
  file_text = λ f. some (ascii "f");
  file_of = λ t. some file;
  is_utf8 = λ b. true;
}

abbrev key : Text
key = ascii "b:" ++ key_text

activates :
    activate_license toy json vendor key
    ≡ ok (
      ascii "f",
      record {
        tier = indie;
        limits = file.limits;
        licensee_email = some (ascii "a@b");
        issued_at = some (pos 7);
      },
    )
unfolding activate_license split_once validate_license_key verify text_eq file_from payload_from
    for_tier state_of
activates = refl

-- A key that someone else signed, and one without a colon.
refuses :
    (activate_license toy json seed_other key ≡ err invalid_signature)
    × (activate_license toy json vendor (ascii "b") ≡ err invalid_key_format)
unfolding activate_license split_once validate_license_key verify text_eq file_from
refuses = (refl, refl)

parses : (from_str (ascii "Team") ≡ ok team) × (from_str (ascii "gold") ≡ err invalid_tier)
unfolding from_str to_lowercase text_eq
parses = (refl, refl)

allowed : check_limit (ascii "mesh_nodes") 2 (at_tier indie) ≡ ok tt
unfolding check_limit text_eq under for_tier
allowed = refl

check_limit_mono_test : check_limit (ascii "mesh_nodes") 2 (at_tier team) ≡ ok tt
check_limit_mono_test = check_limit_mono indie team (ascii "mesh_nodes") 2 (omega arith) allowed

has_mesh : check_feature mesh (at_tier indie) ≡ ok tt
unfolding check_feature has_feature any for_tier feature_index
has_mesh = refl

check_feature_mono_test : check_feature mesh (at_tier enterprise) ≡ ok tt
check_feature_mono_test = check_feature_mono indie enterprise mesh (omega arith) has_mesh
