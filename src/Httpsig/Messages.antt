-- ===== src/Httpsig/Messages.antt =====
-- Signed WebSocket messages: `sign_ws_message` and `verify_ws_message` of
-- crates/grokingclawid-core/src/httpsig.rs.
use grokingclawid.Common.{
  Bool, Bytes, Option, Result, Result-cases, Text, arith, false, if◌then◌else◌, inl, inr,
  last_sep-injective, length, none, not, ok, refl, some, sym, true, ℕ, ℤ, ◌++◌, ◌>>=◌, ◌∷◌, ◌≡◌,
}
use grokingclawid.Common.Decimal.{
  show_ℕ, show_ℕ-Avoids, show_ℕ-injective, show_ℤ, show_ℤ-Avoids, show_ℤ-injective,
}
use grokingclawid.Crypto.{
  Primitives, encode_mldsa_public_key, encode_public_key, mldsa_sign, sign, verify,
}
use grokingclawid.Crypto.Signatures.{Lawful, mldsa_verify-sign, verify-sign}
use grokingclawid.Revocation.{sign_optional, verify_pq}

pub record SignedWsMessage : Type 0 where
  pub payload : Text
  pub signature : Text
  pub pq_signature : Option Text
  pub keyid : Text
  pub timestamp : ℤ
  pub seq : ℕ

unfoldable pub sign_data : Text → ℕ → ℤ → Text
sign_data payload seq timestamp = (payload ++ 10 ∷ show_ℕ seq) ++ 10 ∷ show_ℤ timestamp

module _ (P : Primitives) where
  -- `now` is in seconds.
  unfoldable pub sign_ws_message :
      Text → ℕ → Text → Bytes → Option Bytes → ℤ → Result SignedWsMessage
  sign_ws_message payload seq keyid ed_signing_key mldsa_secret_key now = do
    let data_signed = sign_data payload seq now
    pq_sig ← sign_optional P mldsa_secret_key data_signed
    ok (record {
      payload = payload;
      signature = sign P ed_signing_key data_signed;
      pq_signature = pq_sig;
      keyid = keyid;
      timestamp = now;
      seq = seq;
    })

  unfoldable pub verify_ws_message : SignedWsMessage → Text → Option Text → Result Bool
  verify_ws_message msg ed_public_key_b64 mldsa_public_key_b64 = do
    let data_signed = sign_data msg.payload msg.seq msg.timestamp
    ed_valid ← verify P ed_public_key_b64 data_signed msg.signature
    if not ed_valid then ok false else verify_pq P msg.pq_signature mldsa_public_key_b64 data_signed

-- The keys of a signer: the ML-DSA one, if there is one, as a pair.
abbrev pub public_of : Primitives → Option Bytes → Option Text
public_of P none = none
public_of P (some key) = some (encode_mldsa_public_key P (P.ml_public key))

module _ (P : Primitives) (L : Lawful P) where
  pq_accepted :
      (pq : Option Bytes) (signed : Bytes) (sig : Option Text)
      → sign_optional P pq signed ≡ ok sig
      → verify_pq P sig (public_of P pq) signed ≡ ok true
  unfolding sign_optional verify_pq
  pq_accepted none signed sig e = let same : none ≡ sig = ground arith in rw (sym same) refl
  pq_accepted (some key) signed sig e = elim (Result-cases (mldsa_sign P key signed)) [
    | inl (why, bad) ↦ absurd (ground arith)
    | inr (g, good) ↦
        let same : some g ≡ sig = ground arith in
        rw (sym same) (mldsa_verify-sign P L key signed g good)
  ]

  -- A message that is signed is accepted under the public keys of its signer.
  pub verify_ws_message-sign :
      (payload keyid : Text) (seq : ℕ) (key : Bytes) (pq : Option Bytes) (now : ℤ)
      (msg : SignedWsMessage)
      → length key ≡ 32
      → sign_ws_message P payload seq keyid key pq now ≡ ok msg
      → verify_ws_message P msg (encode_public_key P (P.ed_public key)) (public_of P pq) ≡ ok true
  unfolding sign_ws_message verify_ws_message
  verify_ws_message-sign payload keyid seq key pq now msg n e =
      let signed = sign_data payload seq now in
      elim (Result-cases (sign_optional P pq signed)) [
        | inl (why, bad) ↦ absurd (ground arith)
        | inr (sig, good) ↦
            let same : record {
              payload = payload;
              signature = sign P key signed;
              pq_signature = sig;
              keyid = keyid;
              timestamp = now;
              seq = seq;
            }
                ≡ msg =
              ground arith in
            rw (sym same) (
              rw (verify_ws_message, verify-sign P L key signed n) (pq_accepted pq signed sig good))
      ]

-- The text that is signed determines the payload, the sequence number and the time: a signature of
-- one message is over the text of no other, nor of the same payload at another place or time.
pub sign_data-injective :
    (p q : Text) (a b : ℕ) (t u : ℤ)
    → sign_data p a t ≡ sign_data q b u
    → (p ≡ q) × (a ≡ b) × (t ≡ u)
unfolding sign_data
sign_data-injective p q a b t u e =
    let (front, back) =
      last_sep-injective 10 (p ++ 10 ∷ show_ℕ a) (q ++ 10 ∷ show_ℕ b) (show_ℤ t) (show_ℤ u)
        (show_ℤ-Avoids t) (show_ℤ-Avoids u) e in
    let (texts, numbers) =
      last_sep-injective 10 p q (show_ℕ a) (show_ℕ b) (show_ℕ-Avoids a) (show_ℕ-Avoids b) front in
    (texts, show_ℕ-injective a b numbers, show_ℤ-injective t u back)
