-- ===== src/Revocation/Tests.antt =====
-- A hybrid revocation in an empty registry.
use grokingclawid.Common.{
  Bytes, List, Option, Text, [], already_revoked, arith, ascii, err, false, inr, negsuc, none, ok,
  pos, refl, retain, some, true, ℤ, ◌++◌, ◌↔◌, ◌∷◌, ◌≡◌,
}
use grokingclawid.Crypto.{encode_mldsa_public_key, encode_public_key, mldsa_sign, sign}
use grokingclawid.Crypto.Toy.{sized, toy, toy-Lawful}
use grokingclawid.Revocation.{
  Formats, RevocationEntry, Row, get_revocation, is_revoked, revocation_payload, revoke_hybrid,
  sign_optional, to_row, verify_revocation, verify_revocation_hybrid,
}
use grokingclawid.Revocation.Registry.{ReadsBack, revoke-get_revocation, revoke-is_revoked}
use grokingclawid.Revocation.Authority.{
  PqFine, verify_revocation_hybrid-revoke, verify_revocation_hybrid_iff,
}

-- An instant after 1970 is written as one number.
abbrev instant_text : ℤ → Text
instant_text (pos n) = n ∷ []
instant_text (negsuc n) = n ∷ 0 ∷ []

abbrev read_instant : Text → Option ℤ
read_instant [] = none
read_instant (n ∷ []) = some (pos n)
read_instant (n ∷ m ∷ t) = some (negsuc n)

abbrev formats : Formats
formats = record {
  to_rfc3339 = instant_text;
  parse_from_rfc3339 = read_instant;
  parse_uuid = λ t. some t;
  nil_uuid = [];
}

reads : (t : ℤ) → read_instant (instant_text t) ≡ some t
reads (pos n) = refl
reads (negsuc n) = refl

formats-ReadsBack : ReadsBack formats
formats-ReadsBack = record { parse-to_rfc3339 = reads }

abbrev seed : Bytes
seed = sized 32 (ascii "seed")

abbrev payload : Bytes
payload = ascii "REVOKE:a-1:lost:" ++ 9 ∷ []

abbrev entry : RevocationEntry
entry = record {
  agent_id = ascii "a-1";
  agent_name = ascii "bot";
  reason = ascii "lost";
  revoked_by = ascii "self";
  revoked_at = pos 9;
  signature = sized 64 (seed ++ payload);
  pq_signature = some (sized 8 (ascii "mldk" ++ payload));
}

abbrev table : List Row
table =
    record {
      agent_id = ascii "a-1";
      agent_name = ascii "bot";
      reason = ascii "lost";
      revoked_by = ascii "self";
      revoked_at = 9 ∷ [];
      signature = sized 64 (seed ++ payload);
      pq_signature = some (sized 8 (ascii "mldk" ++ payload));
    }
    ∷ []

revokes :
    revoke_hybrid toy formats []
      (ascii "a-1")
      (ascii "bot")
      (ascii "lost")
      (ascii "self")
      seed
      (some (ascii "mldk"))
      (pos 9)
    ≡ ok (table, entry)
unfolding revoke_hybrid is_revoked retain sign_optional mldsa_sign sign revocation_payload to_row
revokes = refl

revoke-is_revoked_example :
    (is_revoked [] (ascii "a-1") ≡ false)
    × (is_revoked table (ascii "a-1") ≡ true)
    × (is_revoked table (ascii "a-2") ≡ is_revoked [] (ascii "a-2"))
    × (revoke_hybrid toy formats table (ascii "a-1") [] [] [] seed none (pos 10)
        ≡ err already_revoked)
revoke-is_revoked_example =
    revoke-is_revoked toy formats [] table (ascii "a-1") (ascii "bot") (ascii "lost") (ascii "self")
      seed (some (ascii "mldk")) (pos 9) entry (ascii "a-2") [] [] [] seed none (pos 10) revokes
      (λ e. ground arith)

revoke-get_revocation_test :
    (get_revocation formats [] (ascii "a-1") (pos 11) ≡ none)
    × (get_revocation formats table (ascii "a-1") (pos 11) ≡ some entry)
revoke-get_revocation_test =
    revoke-get_revocation toy formats [] table (ascii "a-1") (ascii "bot") (ascii "lost")
      (ascii "self") seed (some (ascii "mldk")) (pos 9) (pos 11) entry formats-ReadsBack refl
      revokes

verify_revocation_hybrid-revoke_test :
    verify_revocation_hybrid toy formats entry
      (encode_public_key toy seed)
      (some (encode_mldsa_public_key toy (sized 4 (ascii "mldk"))))
    ≡ ok true
verify_revocation_hybrid-revoke_test =
    verify_revocation_hybrid-revoke toy formats toy-Lawful [] table (ascii "a-1") (ascii "bot")
      (ascii "lost") (ascii "self") seed (some (ascii "mldk")) (pos 9) entry (ascii "mldk") refl
      (inr refl) revokes

verify_revocation_hybrid_iff_test :
    (verify_revocation_hybrid toy formats entry seed (some (ascii "else")) ≡ ok true) ↔ (
      (verify_revocation toy formats entry seed ≡ ok true)
      × PqFine toy formats entry.pq_signature
          (some (ascii "else"))
          (revocation_payload formats (ascii "a-1") (ascii "lost") (pos 9)))
verify_revocation_hybrid_iff_test =
    verify_revocation_hybrid_iff toy formats entry seed (some (ascii "else"))
