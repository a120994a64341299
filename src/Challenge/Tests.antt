-- ===== src/Challenge/Tests.antt =====
-- A challenge, a hybrid card that answers it, and what is refused.
use grokingclawid.Common.{
  Bytes, Memᴰ, Text, [], all, arith, ascii, false, inl, none, ok, pos, refl, seconds, some,
  timestamp, true, ◌*ℤ◌, ◌++◌, ◌+ℤ◌, ◌↔◌, ◌∷◌, ◌≡◌,
}
use grokingclawid.Models.{AgentCard, agent_type, hybrid}
use grokingclawid.Crypto.{encode_mldsa_public_key, encode_public_key, mldsa_sign}
use grokingclawid.Crypto.Toy.{sized, toy, toy-Lawful}
use grokingclawid.Challenge.{
  Challenge, ChallengeResponse, challenge_to_sign_bytes, checks_of, create_challenge,
  respond_to_challenge, sign_pq, text_or_empty, verify_response,
}
use grokingclawid.Challenge.Accept.{Accepted, verified_iff}
use grokingclawid.Challenge.Honest.{honest_verified}
use grokingclawid.Challenge.SignBytes.{Fits, SameChallenge, challenge_to_sign_bytes_binding}

abbrev seed : Bytes
seed = sized 32 (ascii "seed")

abbrev ml_seed : Bytes
ml_seed = ascii "mldk"

-- The bytes of an id, here its text cut to 16.
abbrev raw : Text → Bytes
raw = sized 16

abbrev asked : Challenge
asked = record {
  id = ascii "c-1";
  nonce = ascii "abc";
  issuer = ascii "us";
  required_scopes = ascii "read" ∷ [];
  issued_at = pos 0;
  expires_at = pos 30_000_000_000;
  min_crypto = some (ascii "hybrid");
}

abbrev card : AgentCard
card = record {
  id = ascii "a-1";
  name = ascii "bot";
  owner = ascii "ann";
  scopes = ascii "read" ∷ ascii "write" ∷ [];
  public_key = seed;
  pq_public_key = some ml_seed;
  signature = [];
  pq_signature = none;
  crypto_scheme = hybrid;
  issued_at = pos 0;
  expires_at = pos 90_000_000_000;
  kind = agent_type;
  parent_id = none;
  spiffe_id = none;
}

abbrev answer : ChallengeResponse
answer = record {
  challenge_id = ascii "c-1";
  agent_card = card;
  signature = sized 64 (seed ++ challenge_to_sign_bytes raw asked);
  pq_signature = some (sized 8 (ml_seed ++ challenge_to_sign_bytes raw asked));
  responded_at = pos 5;
}

answers : respond_to_challenge toy raw asked card seed (some ml_seed) (pos 5) ≡ ok answer
unfolding respond_to_challenge sign_pq mldsa_sign
answers = refl

-- `create_challenge` gives thirty seconds and asks for a hybrid scheme when it is told to.
creates :
    create_challenge toy
      (ascii "us")
      (ascii "read" ∷ [])
      none
      true
      (pos 0)
      (ascii "c-1")
      (ascii "abc")
    ≡ asked
unfolding create_challenge ◌+ℤ◌ seconds ◌*ℤ◌
creates = refl

honest_verified_example :
    ((verify_response toy raw asked answer (pos 9)).verified ≡ true)
    × ((verify_response toy raw asked answer (pos 9)).agent_id ≡ some (ascii "a-1"))
unfolding encode_public_key encode_mldsa_public_key
honest_verified_example =
    honest_verified toy raw toy-Lawful asked card seed (some ml_seed) (pos 5) (pos 9) answer refl
      refl (ml_seed, refl, refl) answers (omega arith) (omega arith) (Memᴰ.head refl, tt)
      (inl (refl, refl))

-- After thirty seconds nothing is accepted.
verified_iff_example :
    ((verify_response toy raw asked answer (pos 30_000_000_001)).verified ≡ true)
    ↔ Accepted toy raw asked answer (pos 30_000_000_001)
verified_iff_example = verified_iff toy raw asked answer (pos 30_000_000_001)

late : (verify_response toy raw asked answer (pos 30_000_000_001)).verified ≡ false
unfolding verify_response checks_of all
late = refl

fits : Fits raw asked
unfolding text_or_empty timestamp
fits = record {
  id_16 = refl;
  nonce_clear = ground arith;
  issuer_clear = ground arith;
  minimum_clear = ground arith;
  scopes_clear = (λ e. ground arith, ground arith);
  issued_i64 = ground arith;
  expires_i64 = ground arith;
}

challenge_to_sign_bytes_binding_example : SameChallenge raw asked asked
challenge_to_sign_bytes_binding_example =
    challenge_to_sign_bytes_binding raw asked asked fits fits refl
