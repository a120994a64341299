-- ===== src/Challenge/Accept.antt =====
-- When `verify_response` accepts, condition by condition.
use grokingclawid.Common.{
  All, Bool, Bytes, List, Memᴰ, Option, Result, Text, [], all, all-append, ap, arith, ascii,
  contains, contains_iff, err, false, if◌then◌else◌, none, ok, refl, some, text_eq_iff, true,
  unwrap_or, ℤ, ◌<ℤ◌, ◌↔◌, ◌∷◌, ◌≡◌, ◌≢◌, ◌≤ℤ◌, ◌⊎◌,
}
use grokingclawid.Models.{CryptoScheme, ed25519, hybrid, ml_dsa_65, scheme_eq}
use grokingclawid.Crypto.{Primitives, mldsa_verify, verify}
use grokingclawid.Challenge.{
  Challenge, ChallengeResponse, Check, challenge_to_sign_bytes, checks_of, crypto_checks,
  meets_minimum, pq_checks, pq_ok, scopes_ok, verify_response,
}

-- The minimum scheme that a challenge asks for is met; a text that names no scheme asks for nothing.
abbrev pub Meets : Option Text → CryptoScheme → Type 0
Meets none scheme = Unit
Meets (some min) scheme =
    ((min ≡ ascii "hybrid") × (scheme ≡ hybrid))
    ⊎ ((min ≡ ascii "ml-dsa-65") × (scheme ≢ ed25519))
    ⊎ ((min ≢ ascii "hybrid") × (min ≢ ascii "ml-dsa-65"))

unwrap_iff : (r : Result Bool) → (unwrap_or r false ≡ true) ↔ (r ≡ ok true)
unwrap_iff (err why) = (λ h. ground arith, λ h. ground arith)
unwrap_iff (ok b) = (λ h. ap ok h, λ h. cc)

scopes_iff :
    (required held : List Text) → (scopes_ok required held ≡ true) ↔ All (λ s. Memᴰ s held) required
unfolding scopes_ok all contains
scopes_iff [] held = (λ h. tt, λ h. refl)
scopes_iff (r ∷ required) held =
    let rest = scopes_iff required held in
    (
      λ h. ((contains_iff held r).0 (ground arith), rest.0 (ground arith)),
      λ (m, ms). ground (arith, (contains_iff held r).1 m, rest.1 ms),
    )

minimum_iff :
    (min : Option Text) (scheme : CryptoScheme)
    → (all (λ c. c.passed) (crypto_checks min scheme) ≡ true) ↔ Meets min scheme
unfolding crypto_checks all meets_minimum
minimum_iff none scheme = (λ h. tt, λ h. refl)
minimum_iff (some min) scheme =
    ground (arith, text_eq_iff min (ascii "hybrid"), text_eq_iff min (ascii "ml-dsa-65"))

module _ (P : Primitives) where
  -- A hybrid card's response also has a valid post-quantum signature.
  abbrev pub PqSigned : CryptoScheme → Option Text → Option Text → Bytes → Type 0
  PqSigned ed25519 pq_sig pq_pub message = Unit
  PqSigned ml_dsa_65 pq_sig pq_pub message = Unit
  PqSigned hybrid pq_sig pq_pub message =
      (s : Text) × (k : Text) × (pq_sig ≡ some s)
      × (pq_pub ≡ some k)
      × (mldsa_verify P k message s ≡ ok true)

  pq_iff :
      (sig pub_key : Option Text) (message : Bytes)
      → (pq_ok P sig pub_key message ≡ true) ↔ PqSigned hybrid sig pub_key message
  unfolding pq_ok
  pq_iff none pub_key message = (λ h. ground arith, λ (s, k, a, b, c). ground arith)
  pq_iff (some sig) none message = (λ h. ground arith, λ (s, k, a, b, c). ground arith)
  pq_iff (some sig) (some key) message =
      let r = mldsa_verify P key message sig in
      (
        λ h. (sig, key, refl, refl, (unwrap_iff r).0 h),
        λ (s, k, a, b, c).
            let x : sig ≡ s = cc in let y : key ≡ k = cc in (unwrap_iff r).1 (rw (x, y) c),
      )

  pq_scheme_iff :
      (scheme : CryptoScheme) (sig pub_key : Option Text) (message : Bytes)
      → (all {A = Check}
            (λ c. c.passed)
            (if scheme_eq scheme hybrid
              then record { name = ascii "mldsa65_signature"; passed = pq_ok P sig pub_key message }
                ∷ []
              else [])
          ≡ true)
        ↔ PqSigned scheme sig pub_key message
  unfolding all
  pq_scheme_iff ed25519 sig pub_key message = (λ h. tt, λ h. refl)
  pq_scheme_iff ml_dsa_65 sig pub_key message = (λ h. tt, λ h. refl)
  pq_scheme_iff hybrid sig pub_key message =
      let (f, g) = pq_iff sig pub_key message in (λ h. f (ground arith), λ h. ground (arith, g h))

  pq_checks_iff :
      (response : ChallengeResponse) (message : Bytes)
      → (all (λ c. c.passed) (pq_checks P response message) ≡ true)
        ↔ PqSigned response.agent_card.crypto_scheme response.pq_signature
            response.agent_card.pq_public_key message
  unfolding pq_checks
  pq_checks_iff response message =
      pq_scheme_iff response.agent_card.crypto_scheme response.pq_signature
        response.agent_card.pq_public_key message

module _ (P : Primitives) (as_bytes : Text → Bytes) where
  -- What the documentation of `verify_response` lists.
  pub record Accepted (challenge : Challenge) (response : ChallengeResponse) (now : ℤ)
      : Type 0 where
    pub in_time : now ≤ℤ challenge.expires_at
    pub answers : response.challenge_id ≡ challenge.id
    pub card_in_time : now <ℤ response.agent_card.expires_at
    pub signed :
        verify P response.agent_card.public_key
          (challenge_to_sign_bytes as_bytes challenge)
          response.signature
        ≡ ok true
    pub pq_signed :
        PqSigned P response.agent_card.crypto_scheme response.pq_signature
          response.agent_card.pq_public_key
          (challenge_to_sign_bytes as_bytes challenge)
    pub scoped : All (λ s. Memᴰ s response.agent_card.scopes) challenge.required_scopes
    pub strong : Meets challenge.min_crypto response.agent_card.crypto_scheme

  -- The checks decide exactly what they are documented to: a response is verified if and only if the
  -- challenge has not expired, the response names it, the card has not expired, the card's Ed25519 key
  -- signed the bytes of the challenge, the ML-DSA key did too when the card is hybrid, the card has
  -- every required scope, and its scheme meets the minimum.
  pub verified_iff :
      (challenge : Challenge) (response : ChallengeResponse) (now : ℤ)
      → ((verify_response P as_bytes challenge response now).verified ≡ true)
        ↔ Accepted challenge response now
  unfolding verify_response checks_of all
  verified_iff challenge response now =
      let message = challenge_to_sign_bytes as_bytes challenge in
      let card = response.agent_card in
      let ids = text_eq_iff response.challenge_id challenge.id in
      let sigs = unwrap_iff (verify P card.public_key message response.signature) in
      let scopes = scopes_iff challenge.required_scopes card.scopes in
      let mins = minimum_iff challenge.min_crypto card.crypto_scheme in
      let pqs = pq_checks_iff P response message in
      let rest : List Check =
        record { name = ascii "scopes"; passed = scopes_ok challenge.required_scopes card.scopes }
        ∷ crypto_checks challenge.min_crypto card.crypto_scheme in
      let split = all-append (λ c. c.passed) (pq_checks P response message) rest in
      (
        λ h. record {
          in_time = ground arith;
          answers = ids.0 (ground arith);
          card_in_time = ground arith;
          signed = sigs.0 (ground arith);
          pq_signed = pqs.0 (ground (arith, split));
          scoped = scopes.0 (ground (arith, split));
          strong = mins.0 (ground (arith, split));
        },
        λ a. ground (
          arith,
          split,
          a.in_time,
          ids.1 a.answers,
          a.card_in_time,
          sigs.1 a.signed,
          pqs.1 a.pq_signed,
          scopes.1 a.scoped,
          mins.1 a.strong,
        ),
      )
