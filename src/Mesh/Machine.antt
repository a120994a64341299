-- ===== src/Mesh/Machine.antt =====
-- crates/grokingclaw-daemon/src/mesh.rs, calls of the client that interleave: `connect` gives the
-- lock back while it waits for the server, so other calls see and change the state meanwhile.
use mathlib.Core.Path.{subst}
use grokingclawid.Common.{
  Bool-cases, Bytes, List, Memᴰ, Result, Result-cases, Text, [], ap, arith, err, inl, inr, ok, refl,
  suc, sym, unwrap_or, ℕ, ℤ, ◌<◌, ◌∙◌, ◌∷◌, ◌≡◌,
}
use grokingclawid.Crypto.{Primitives}
use grokingclawid.License.{LicenseState, check_feature, has_feature, mesh}
use grokingclawid.Mesh.Grant.{IsGranted, do_connect_inv, has_feature-mesh}
use grokingclawid.Mesh.{
  AuthResult, Identity, MeshPeer, MeshState, begin_connect, cache_peers, connect, connect_from,
  connected, connecting, disconnect, disconnected, do_connect, end_connect, is_connected,
  list_peers, peers_listed,
}

-- What happens to the client: a call of `connect` begins, with the licence that it loads; one ends,
-- with the files that it read and what the server answered it; `disconnect`; and the end of
-- `list_peers`.
pub data Event : Type 0 where
  begins : LicenseState → Event
  ends : Identity → (Bytes → Text → Result AuthResult) → Result (List MeshPeer) → ℤ → Event
  disconnects : Event
  caches : List MeshPeer → Event

module _ (P : Primitives) where
  -- The client after some events, the latest first, and how many calls of `connect` are under way.
  pub data Reachable : List Event → MeshState → ℕ → Type 0 where
    created : Reachable [] disconnected 0
    begun :
        {es : List Event} {s t : MeshState} {n : ℕ} (lic : LicenseState)
        → Reachable es s n
        → begin_connect lic ≡ ok t
        → Reachable (begins lic ∷ es) t (suc n)
    ended :
        {es : List Event} {s t : MeshState} {n : ℕ} (files : Identity)
        (authenticate : Bytes → Text → Result AuthResult) (listed : Result (List MeshPeer))
        (now : ℤ) (answer : Result (Unit {0}))
        → Reachable es s (suc n)
        → end_connect (do_connect P authenticate listed now files) ≡ (t, answer)
        → Reachable (ends files authenticate listed now ∷ es) t n
    taken_down :
        {es : List Event} {s t : MeshState} {n : ℕ} (answer : Result (Unit {0}))
        → Reachable es s n
        → disconnect s ≡ (t, answer)
        → Reachable (disconnects ∷ es) t n
    cached :
        {es : List Event} {s : MeshState} {n : ℕ} (fresh : List MeshPeer)
        → Reachable es s n
        → Reachable (caches fresh ∷ es) (cache_peers fresh s) n

  -- A call of `connect` has begun with a licence that includes the mesh.
  abbrev pub HadLicense : List Event → Type 0
  HadLicense es = (lic : LicenseState) × Memᴰ (begins lic) es × Memᴰ mesh lic.limits.features

  -- A call of `connect` has ended for which the server gave the address.
  abbrev pub HadGrant : List Event → Text → Type 0
  HadGrant es ip =
      (files : Identity) × (authenticate : Bytes → Text → Result AuthResult) × (listed : Result
        (List MeshPeer))
      × (now : ℤ) × Memᴰ (ends files authenticate listed now) es
      × IsGranted P files authenticate ip

  -- What a state says of the past: `connecting`, that a call is under way; `connected`, that the
  -- server gave the address; both, that there was a licence for the mesh.
  unfoldable pub IsBacked : List Event → MeshState → ℕ → Type 0
  IsBacked es disconnected n = Unit
  IsBacked es connecting n = (0 < n) × HadLicense es
  IsBacked es (connected ip peers at) n = HadGrant es ip × HadLicense es

  begins_inv :
      (lic : LicenseState) (t : MeshState)
      → begin_connect lic ≡ ok t
      → (t ≡ connecting) × Memᴰ mesh lic.limits.features
  unfolding begin_connect check_feature
  begins_inv lic t e = elim (Bool-cases (has_feature lic.limits mesh)) [
    | inr refused ↦ absurd (ground arith)
    | inl allowed ↦ (ground arith, has_feature-mesh lic allowed)
  ]

  HadLicense-after : (e : Event) (es : List Event) → HadLicense es → HadLicense (e ∷ es)
  HadLicense-after e es (lic, m, allowed) = (lic, Memᴰ.tail m, allowed)

  -- A call of `connect` is under way only if one has begun with a licence for the mesh.
  Reachable-HadLicense :
      (es : List Event) (s : MeshState) (n : ℕ) → Reachable es s n → 0 < n → HadLicense es
  Reachable-HadLicense _ _ _ created some_n = absurd (omega arith)
  Reachable-HadLicense _ t _ (begun lic r e) some_n =
      let (same, allowed) = begins_inv lic t e in (lic, Memᴰ.head refl, allowed)
  Reachable-HadLicense _ t n (ended {es} {s} files authenticate listed now answer r e) some_n =
      HadLicense-after (ends files authenticate listed now) es
        (Reachable-HadLicense es s (suc n) r (omega arith))
  Reachable-HadLicense _ t n (taken_down {es} {s} answer r e) some_n =
      HadLicense-after disconnects es (Reachable-HadLicense es s n r some_n)
  Reachable-HadLicense _ _ n (cached {es} {s} fresh r) some_n =
      HadLicense-after (caches fresh) es (Reachable-HadLicense es s n r some_n)

  caches-IsBacked :
      (es : List Event) (fresh : List MeshPeer) (s : MeshState) (n : ℕ)
      → IsBacked es s n
      → IsBacked (caches fresh ∷ es) (cache_peers fresh s) n
  unfolding cache_peers IsBacked
  caches-IsBacked es fresh disconnected n h = h
  caches-IsBacked es fresh connecting n (some_n, licensed) =
      (some_n, HadLicense-after (caches fresh) es licensed)
  caches-IsBacked es fresh (connected ip peers at) n (grant, licensed) =
      let (files, authenticate, listed, now, m, g) = grant in
      (
        (files, authenticate, listed, now, Memᴰ.tail m, g),
        HadLicense-after (caches fresh) es licensed,
      )

  ends-IsBacked :
      (es : List Event) (files : Identity) (authenticate : Bytes → Text → Result AuthResult)
      (listed : Result (List MeshPeer)) (now : ℤ) (result : Result MeshState) (t : MeshState)
      (answer : Result (Unit {0})) (n : ℕ)
      → do_connect P authenticate listed now files ≡ result
      → end_connect result ≡ (t, answer)
      → HadLicense es
      → IsBacked (ends files authenticate listed now ∷ es) t n
  unfolding end_connect IsBacked
  ends-IsBacked es files authenticate listed now (err why) t answer n done e licensed =
      let same : disconnected ≡ t = ap (λ p. p.0) e in
      subst (λ u. IsBacked (ends files authenticate listed now ∷ es) u n) same tt
  ends-IsBacked es files authenticate listed now (ok state) t answer n done e licensed =
      let (ip, granted, is_new) = do_connect_inv P files authenticate listed now state done in
      let same : connected ip (unwrap_or listed []) now ≡ t = sym is_new ∙ ap (λ p. p.0) e in
      let this = ends files authenticate listed now in
      subst (λ u. IsBacked (this ∷ es) u n) same
        (
          (files, authenticate, listed, now, Memᴰ.head refl, granted),
          HadLicense-after this es licensed,
        )

  -- However calls interleave, with whatever licences, files and answers of the server, the client is
  -- in `connecting` only while a call of `connect` is under way, and in `connected` only with an
  -- address that the server gave, to a call that has ended, for the daemon's signature of its card;
  -- both only after a call has begun with a licence that includes the mesh.
  pub Reachable-IsBacked :
      (es : List Event) (s : MeshState) (n : ℕ) → Reachable es s n → IsBacked es s n
  unfolding IsBacked disconnect
  Reachable-IsBacked _ _ _ created = tt
  Reachable-IsBacked _ t (suc n) (begun {es} lic r e) =
      let (same, allowed) = begins_inv lic t e in
      subst (λ u. IsBacked (begins lic ∷ es) u (suc n)) (sym same)
        (omega arith, (lic, Memᴰ.head refl, allowed))
  Reachable-IsBacked _ t n (ended {es} {s} files authenticate listed now answer r e) =
      ends-IsBacked es files authenticate listed now (do_connect P authenticate listed now files) t
        answer n refl e (Reachable-HadLicense es s (suc n) r (omega arith))
  Reachable-IsBacked _ t n (taken_down {es} answer r e) =
      subst (λ u. IsBacked (disconnects ∷ es) u n) (ap (λ p. p.0) e) tt
  Reachable-IsBacked _ _ n (cached {es} {s} fresh r) =
      caches-IsBacked es fresh s n (Reachable-IsBacked es s n r)

  -- `connect` with no other call between its steps is a run of the client.
  pub connect-Reachable :
      (es : List Event) (s : MeshState) (n : ℕ) (lic : LicenseState) (files : Identity)
      (authenticate : Bytes → Text → Result AuthResult) (listed : Result (List MeshPeer)) (now : ℤ)
      → Reachable es s n
      → (fs : List Event) × Reachable fs
          (connect lic (do_connect P authenticate listed now files) s).0
          n
  unfolding connect connect_from
  connect-Reachable es s n lic files authenticate listed now r =
      elim (Result-cases (begin_connect lic)) [
        | inl (why, refused) ↦ (es, rw (connect, refused, connect_from) r)
        | inr (state, allowed) ↦ (
          ends files authenticate listed now ∷ begins lic ∷ es,
          rw (connect, allowed, connect_from)
              (ended files authenticate listed now
                (end_connect (do_connect P authenticate listed now files)).1 (begun lic r allowed)
                refl),
        )
      ]

  -- So is `list_peers`, whatever the transport answers.
  pub list_peers-Reachable :
      (es : List Event) (s : MeshState) (n : ℕ) (answer : Result (List MeshPeer))
      → Reachable es s n
      → (fs : List Event) × Reachable fs (list_peers answer s).0 n
  unfolding list_peers peers_listed
  list_peers-Reachable es s n answer r = elim (Bool-cases (is_connected s)) [
    | inr idle ↦ (es, rw (list_peers, idle) r)
    | inl up ↦ elim (Result-cases answer) [
      | inl (why, failed) ↦ (es, rw (list_peers, up, failed, peers_listed) r)
      | inr (fresh, listed) ↦
          (caches fresh ∷ es, rw (list_peers, up, listed, peers_listed) (cached fresh r))
    ]
  ]
