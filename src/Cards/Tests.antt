-- ===== src/Cards/Tests.antt =====
-- A hybrid card that is issued, checked and delegated from.
use grokingclawid.Common.{
  Bytes, [], all, any, arith, ascii, contains, err, expires_after_parent, none, ok, pos, refl,
  retain, scope_not_held, some, text_eq, true, ◌++◌, ◌+ℤ◌, ◌↔◌, ◌∷◌, ◌≡◌,
}
use grokingclawid.Models.{AgentCard, DelegationToken, agent_type, hybrid}
use grokingclawid.Crypto.{encode_mldsa_public_key, encode_public_key, hybrid_sign, mldsa_sign, sign}
use grokingclawid.Crypto.Toy.{sized, toy, toy-Lawful}
use grokingclawid.Revocation.{is_revoked}
use grokingclawid.Cards.{
  Json, Request, build_card, build_token, card_signing_payload, delegate, issue, revoked_in,
  sign_token, token_signing_payload, unsigned, unsigned_token, verify_card,
}
use grokingclawid.Cards.Valid.{IsValid, verify_card_iff}
use grokingclawid.Cards.Issued.{issue-verify_card}
use grokingclawid.Cards.Delegated.{IsNarrower, delegate-IsNarrower}

abbrev seed : Bytes
seed = sized 32 (ascii "seed")

-- A text that leaves most of a card out.
abbrev json : Json
json = record { card_text = λ c. some c.name; token_text = λ t. some t.agent_name }

abbrev request : Request
request = record {
  id = ascii "a-1";
  name = ascii "bot";
  owner = ascii "ann";
  scopes = ascii "read" ∷ ascii "write" ∷ [];
  now = pos 100;
  duration = pos 50;
  kind = agent_type;
  spiffe_id = none;
}

abbrev card : AgentCard
card = record {
  id = ascii "a-1";
  name = ascii "bot";
  owner = ascii "ann";
  scopes = ascii "read" ∷ ascii "write" ∷ [];
  public_key = seed;
  pq_public_key = some (sized 4 (ascii "mldk"));
  signature = sized 64 (seed ++ ascii "bot");
  pq_signature = some (sized 8 (sized 4 (ascii "mldk") ++ ascii "bot"));
  crypto_scheme = hybrid;
  issued_at = pos 100;
  expires_at = pos 150;
  kind = agent_type;
  parent_id = none;
  spiffe_id = none;
}

issues : issue toy json request hybrid seed (ascii "mldk") ≡ ok card
unfolding issue card_signing_payload unsigned build_card hybrid_sign mldsa_sign sign
    encode_public_key encode_mldsa_public_key ◌+ℤ◌
issues = refl

issue-verify_card_example : verify_card toy json card (pos 149) (some []) ≡ ok true
unfolding ◌+ℤ◌ revoked_in is_revoked retain
issue-verify_card_example =
    issue-verify_card toy json toy-Lawful request hybrid seed (ascii "mldk") card (pos 149)
      (some []) refl issues (omega arith) (omega arith) refl

verify_card_iff_example :
    (verify_card toy json card (pos 150) none ≡ ok true) ↔ IsValid toy json card (pos 150) none
verify_card_iff_example = verify_card_iff toy json card (pos 150) none

abbrev token : DelegationToken
token = record {
  id = ascii "t-1";
  parent_id = ascii "a-1";
  agent_name = ascii "sub";
  scopes = ascii "read" ∷ [];
  issued_at = pos 110;
  expires_at = pos 120;
  signature = sized 64 (seed ++ ascii "sub");
  pq_signature = some (sized 8 (sized 4 (ascii "mldk") ++ ascii "sub"));
  crypto_scheme = hybrid;
}

delegates :
    delegate toy json card
      (ascii "t-1")
      (ascii "sub")
      (ascii "read" ∷ [])
      (pos 10)
      (pos 110)
      seed
      (ascii "mldk")
    ≡ ok token
unfolding delegate all contains any text_eq ◌+ℤ◌ token_signing_payload unsigned_token build_token
    sign_token mldsa_sign sign encode_public_key
delegates = refl

-- A scope that the parent lacks, and a time that outlasts it.
refuses :
    (delegate toy json card
        (ascii "t-1")
        (ascii "sub")
        (ascii "pay" ∷ [])
        (pos 10)
        (pos 110)
        seed
        (ascii "mldk")
      ≡ err scope_not_held)
    × (delegate toy json card (ascii "t-1") (ascii "sub") [] (pos 41) (pos 110) seed (ascii "mldk")
        ≡ err expires_after_parent)
unfolding delegate all contains any text_eq ◌+ℤ◌
refuses = (refl, refl)

delegate-IsNarrower_example : IsNarrower toy json card token
delegate-IsNarrower_example =
    delegate-IsNarrower toy json toy-Lawful card (ascii "t-1") (ascii "sub") (ascii "read" ∷ [])
      (pos 10) (pos 110) seed (ascii "mldk") token refl delegates
