-- ===== src/Revocation/Authority.antt =====
-- The signatures on a revocation.
use grokingclawid.Common.{
  Bool-cases, Bytes, List, Option, Result-cases, Text, arith, inl, inr, length, none, ok, refl,
  some, sym, true, ℤ, ◌↔◌, ◌≡◌, ◌⊎◌,
}
use grokingclawid.Crypto.{
  Primitives, encode_mldsa_public_key, encode_public_key, mldsa_sign, mldsa_verify, verify,
}
use grokingclawid.Crypto.Signatures.{Lawful, mldsa_verify-sign, verify-sign}
use grokingclawid.Revocation.{
  Formats, RevocationEntry, Row, revocation_payload, revoke_hybrid, sign_optional, verify_pq,
  verify_revocation, verify_revocation_hybrid,
}
use grokingclawid.Revocation.Registry.{revoke_inv}

module _ (P : Primitives) (F : Formats) where
  pq_half :
      Lawful P
      → (pq : Option Bytes) (payload : Bytes) (sig : Option Text) (key : Bytes)
      → sign_optional P pq payload ≡ ok sig
      → (pq ≡ none) ⊎ (pq ≡ some key)
      → verify_pq P sig (some (encode_mldsa_public_key P (P.ml_public key))) payload ≡ ok true
  unfolding sign_optional verify_pq
  pq_half L none payload sig key e k = let same : sig ≡ none = ground arith in rw same refl
  pq_half L (some given) payload sig key e k = elim (Result-cases (mldsa_sign P given payload)) [
    | inl (why, bad) ↦ absurd (ground arith)
    | inr (g, good) ↦
        let same : sig ≡ some g = ground arith in
        let holder : given ≡ key = ground arith in
        rw (same, sym holder) (mldsa_verify-sign P L given payload g good)
  ]

  -- A revocation that succeeds carries signatures that its check accepts under the public halves of
  -- the keys that signed it: the Ed25519 key always, the ML-DSA key when there was one.
  pub verify_revocation_hybrid-revoke :
      Lawful P
      → (table next : List Row) (id name reason by : Text) (key : Bytes) (pq : Option Bytes)
        (now : ℤ) (entry : RevocationEntry) (pq_key : Bytes)
      → length key ≡ 32
      → (pq ≡ none) ⊎ (pq ≡ some pq_key)
      → revoke_hybrid P F table id name reason by key pq now ≡ ok (next, entry)
      → verify_revocation_hybrid P F entry
          (encode_public_key P (P.ed_public key))
          (some (encode_mldsa_public_key P (P.ml_public pq_key)))
        ≡ ok true
  unfolding verify_revocation_hybrid
  verify_revocation_hybrid-revoke L table next id name reason by key pq now entry pq_key n k e =
      let (fresh, sig, good, made_entry, grown) =
        revoke_inv P F table next id name reason by key pq now entry e in
      let payload = revocation_payload F id reason now in
      rw (made_entry, verify_revocation_hybrid, verify-sign P L key payload n)
        (pq_half L pq payload sig pq_key good k)

  -- The post-quantum half is missing on one side, or it verifies.
  abbrev pub PqFine : Option Text → Option Text → Bytes → Type 0
  PqFine pq_sig pq_pub payload =
      (pq_sig ≡ none)
      ⊎ (pq_pub ≡ none)
      ⊎ ((sig : Text) × (pk : Text) × (pq_sig ≡ some sig)
          × (pq_pub ≡ some pk)
          × (mldsa_verify P pk payload sig ≡ ok true))

  verify_pq_iff :
      (pq_sig pq_pub : Option Text) (payload : Bytes)
      → (verify_pq P pq_sig pq_pub payload ≡ ok true) ↔ PqFine pq_sig pq_pub payload
  unfolding verify_pq
  verify_pq_iff none pq_pub payload = (λ _. inl refl, λ _. refl)
  verify_pq_iff (some sig) none payload = (λ _. inr (inl refl), λ _. refl)
  verify_pq_iff (some sig) (some pk) payload = (
    λ h. inr (inr (sig, pk, refl, refl, h)),
    λ fine. elim fine [
      | inl e ↦ absurd (ground arith)
      | inr (inl e) ↦ absurd (ground arith)
      | inr (inr (s, k, a, b, h)) ↦ let x : sig ≡ s = cc in let y : pk ≡ k = cc in rw (x, y) h
    ],
  )

  -- The hybrid check accepts exactly when the Ed25519 signature is accepted and, if both an ML-DSA
  -- signature and a key for it are there, that one is too. An entry without an ML-DSA signature passes
  -- on the classical one alone, even under a hybrid card's keys.
  pub verify_revocation_hybrid_iff :
      (entry : RevocationEntry) (ed_pub : Text) (pq_pub : Option Text)
      → (verify_revocation_hybrid P F entry ed_pub pq_pub ≡ ok true) ↔ (
          (verify_revocation P F entry ed_pub ≡ ok true)
          × PqFine entry.pq_signature pq_pub
              (revocation_payload F entry.agent_id entry.reason entry.revoked_at))
  unfolding verify_revocation_hybrid verify_revocation
  verify_revocation_hybrid_iff entry ed_pub pq_pub =
      let payload = revocation_payload F entry.agent_id entry.reason entry.revoked_at in
      let (f, g) = verify_pq_iff entry.pq_signature pq_pub payload in
      elim (Result-cases (verify P ed_pub payload entry.signature)) [
        | inl (why, bad) ↦
            rw (verify_revocation_hybrid, verify_revocation, bad)
              (λ h. absurd (ground arith), λ (h, _). absurd (ground arith))
        | inr (b, good) ↦ elim (Bool-cases b) [
          | inl yes_signed ↦
              rw (verify_revocation_hybrid, verify_revocation, good, yes_signed)
                (λ h. (refl, f h), λ (_, fine). g fine)
          | inr not_signed ↦
              rw (verify_revocation_hybrid, verify_revocation, good, not_signed)
                (λ h. absurd (ground arith), λ (h, _). absurd (ground arith))
        ]
      ]
