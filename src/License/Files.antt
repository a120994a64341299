-- ===== src/License/Files.antt =====
-- What a licence file grants.
use grokingclawid.Common.{
  Bool-cases, Option-cases, Result-cases, Text, ap, arith, inl, inr, ok, refl, some, split_once,
  true, ◌∙◌, ◌≡◌,
}
use grokingclawid.Crypto.{Primitives, verify}
use grokingclawid.License.{
  LicenseFile, LicenseJson, LicenseState, activate_license, file_from, for_tier, load_license,
  load_license_from_path, state_of, validate_license_key,
}

module _ (P : Primitives) (J : LicenseJson) (public_key : Text) where
  -- The state has the tier, the address and the time of a file, and the vendor's key signed the text
  -- of just these three.
  pub record IsSigned (state : LicenseState) : Type 0 where
    pub file : LicenseFile
    pub text : Text
    pub payload_of_file :
        J.payload_text record {
          tier = file.tier;
          licensee_email = file.licensee_email;
          issued_at = file.issued_at;
        }
        ≡ some text
    pub signed : verify P public_key text file.license_key ≡ ok true
    pub state_of_file : state ≡ record {
      tier = file.tier;
      limits = for_tier file.tier;
      licensee_email = some file.licensee_email;
      issued_at = some file.issued_at;
    }

  activate_inv :
      (key text : Text) (state : LicenseState)
      → activate_license P J public_key key ≡ ok (text, state)
      → (file : LicenseFile) × (validate_license_key P J public_key file ≡ ok tt)
        × (J.file_text file ≡ some text)
        × (state ≡ state_of file)
  unfolding activate_license
  activate_inv key text state e = elim (Option-cases (split_once 58 key)) [
    | inl bad ↦ absurd (ground arith)
    | inr ((left, right), cut) ↦ elim (Option-cases (P.base64_decode left)) [
      | inl bad ↦ absurd (ground arith)
      | inr (bytes, decoded) ↦ elim (Bool-cases (J.is_utf8 bytes)) [
        | inr bad ↦ absurd (ground arith)
        | inl utf8 ↦ elim (Option-cases (J.payload_of bytes)) [
          | inl bad ↦ absurd (ground arith)
          | inr (payload, parsed) ↦
              let file = file_from payload right in
              elim (Result-cases (validate_license_key P J public_key file)) [
                | inl (why, bad) ↦ absurd (ground arith)
                | inr (done, valid) ↦ elim (Option-cases (J.file_text file)) [
                  | inl bad ↦ absurd (ground arith)
                  | inr (json, written) ↦
                      let same : json ≡ text = ground arith in
                      (file, valid, written ∙ ap some same, ground arith)
                ]
              ]
        ]
      ]
    ]
  ]

  -- A licence that was activated is the one that is loaded afterwards, when serde_json reads the file
  -- that it writes.
  pub load_license-activate :
      (key text : Text) (state : LicenseState)
      → ((file : LicenseFile) (t : Text) → J.file_text file ≡ some t → J.file_of t ≡ some file)
      → activate_license P J public_key key ≡ ok (text, state)
      → load_license P J public_key (some text) ≡ state
  unfolding activate_license load_license load_license_from_path
  load_license-activate key text state reads e =
      let (file, valid, written, same) = activate_inv key text state e in
      let read = reads file text written in
      rw (load_license, load_license_from_path, read, valid, same) refl
