-- ===== src/Mesh/Grant.antt =====
-- crates/grokingclaw-daemon/src/mesh.rs, what a call of `connect` needs in order to succeed.
use mathlib.Core.Path.{subst}
use grokingclawid.Common.{
  Bool-cases, Bytes, List, Memᴰ, Option-cases, Result, Result-cases, Text, [], any-Memᴰ, ap, arith,
  inl, inr, ok, refl, some, true, unwrap_or, ℤ, ◌==◌, ◌↔◌, ◌∙◌, ◌≡◌,
}
use grokingclawid.Crypto.{Primitives, sign}
use grokingclawid.License.{
  LicenseFeature, LicenseState, agent_monitoring, birth_local, birth_mesh, birth_remote,
  check_feature, compliance_reporting, feature_index, has_feature, mesh, on_chain_anchoring,
  private_registry, unlimited_proxy,
}
use grokingclawid.Mesh.{
  AuthResult, Identity, MeshPeer, MeshState, begin_connect, connect, connect_from, connected,
  do_connect, end_connect,
}

is_mesh : (f : LicenseFeature) → (feature_index f == feature_index mesh) ≡ true → f ≡ mesh
unfolding feature_index
is_mesh mesh e = refl
is_mesh birth_local e = absurd (ground arith)
is_mesh birth_mesh e = absurd (ground arith)
is_mesh birth_remote e = absurd (ground arith)
is_mesh unlimited_proxy e = absurd (ground arith)
is_mesh compliance_reporting e = absurd (ground arith)
is_mesh on_chain_anchoring e = absurd (ground arith)
is_mesh agent_monitoring e = absurd (ground arith)
is_mesh private_registry e = absurd (ground arith)

-- A licence that is found to have the feature lists it.
pub has_feature-mesh :
    (lic : LicenseState) → has_feature lic.limits mesh ≡ true → Memᴰ mesh lic.limits.features
unfolding has_feature
has_feature-mesh lic e =
    let (f, m, same) =
      any-Memᴰ (λ f. feature_index f == feature_index mesh) lic.limits.features e in
    subst (λ g. Memᴰ g lic.limits.features) (is_mesh f same) m

-- The server took the daemon's signature of its card, and gave it this address.
pub record IsGranted (P : Primitives) (files : Identity)
    (authenticate : Bytes → Text → Result AuthResult) (ip : Text) : Type 0 where
  pub card_bytes : Bytes
  pub signing_key : Bytes
  pub auth : AuthResult
  pub has_card : files.daemon_card ≡ ok card_bytes
  pub has_key : files.daemon_key ≡ ok signing_key
  pub answered : authenticate card_bytes (sign P signing_key card_bytes) ≡ ok auth
  pub accepted : auth.success ≡ true
  pub assigned : auth.mesh_ip ≡ some ip

module _ (P : Primitives) where
  pub do_connect_inv :
      (files : Identity) (authenticate : Bytes → Text → Result AuthResult)
      (listed : Result (List MeshPeer)) (now : ℤ) (t : MeshState)
      → do_connect P authenticate listed now files ≡ ok t
      → (ip : Text) × IsGranted P files authenticate ip
        × (t ≡ connected ip (unwrap_or listed []) now)
  unfolding do_connect
  do_connect_inv files authenticate listed now t e = elim (Result-cases files.daemon_card) [
    | inl (why, bad) ↦ absurd (ground arith)
    | inr (card, has_card) ↦ elim (Result-cases files.daemon_key) [
      | inl (why, bad) ↦ absurd (ground arith)
      | inr (key, has_key) ↦ elim (Result-cases (authenticate card (sign P key card))) [
        | inl (why, bad) ↦ absurd (ground arith)
        | inr (auth, answered) ↦ elim (Bool-cases auth.success) [
          | inr rejected ↦ absurd (ground arith)
          | inl accepted ↦ elim (Option-cases auth.mesh_ip) [
            | inl missing ↦ absurd (ground arith)
            | inr (ip, assigned) ↦ (
              ip,
              record {
                card_bytes = card;
                signing_key = key;
                auth = auth;
                has_card = has_card;
                has_key = has_key;
                answered = answered;
                accepted = accepted;
                assigned = assigned;
              },
              ground arith,
            )
          ]
        ]
      ]
    ]
  ]

  -- When no call interleaves, `connect` succeeds exactly when the licence includes the mesh and
  -- `do_connect` makes a connection; the client is then connected.
  pub connect-ok_iff :
      (s : MeshState) (lic : LicenseState) (files : Identity)
      (authenticate : Bytes → Text → Result AuthResult) (listed : Result (List MeshPeer)) (now : ℤ)
      → ((connect lic (do_connect P authenticate listed now files) s).1 ≡ ok tt) ↔ (
          (has_feature lic.limits mesh ≡ true)
          × ((ip : Text) × (do_connect P authenticate listed now files
                ≡ ok (connected ip (unwrap_or listed []) now))))
  unfolding connect connect_from begin_connect end_connect check_feature
  connect-ok_iff s lic files authenticate listed now = (
    λ e. elim (Bool-cases (has_feature lic.limits mesh)) [
      | inr refused ↦ absurd (ground arith)
      | inl allowed ↦ elim (Result-cases (do_connect P authenticate listed now files)) [
        | inl (why, failed) ↦ absurd (ground arith)
        | inr (state, done) ↦
            let (ip, granted, same) = do_connect_inv files authenticate listed now state done in
            (allowed, (ip, done ∙ ap ok same))
      ]
    ],
    λ h.
        let (allowed, (ip, done)) = h in
        rw (connect, begin_connect, check_feature, allowed, connect_from, done) refl,
  )
