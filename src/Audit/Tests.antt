-- ===== src/Audit/Tests.antt =====
-- Runs of the audit log, and its theorems at inputs that meet their hypotheses.
use grokingclawid.Common.{
  List, String, Text, [], arith, ascii, false, last, length, none, pos, refl, retain, some, text_eq,
  timestamp, true, ℕ, ◌++◌, ◌∷◌, ◌≡◌, ◌⊎◌,
}
use grokingclawid.Common.Decimal.{show_ℕ, show_ℤ}
use grokingclawid.Models.{AuditEntry}
use grokingclawid.Crypto.{chain_input, compute_chain_hash, sha256_hex, sign}
use grokingclawid.Crypto.ChainHash.{Collision}
use grokingclawid.Crypto.Toy.{shifted, sized, toy}
use grokingclawid.Audit.{
  chain_from, empty, genesis, get_last_hash, query_entries, recent_entries, record_entry,
  verify_chain,
}
use grokingclawid.Audit.Chain.{Event, record_all, record_all-verify}
use grokingclawid.Audit.Tamper.{
  SameLog, first_entry_unchecked, verify_chain-prefix, verify_chain_binding,
}
use grokingclawid.Audit.Query.{query-verify, recent_entries_suffix}

abbrev event : String → Event
event action = record {
  agent = ascii "agent";
  action = ascii action;
  target = ascii "t";
  key = ascii "k";
  time = pos 5_000_000_000;
}

abbrev events : List Event
events = event "issue" ∷ event "sign" ∷ []

abbrev hash_1 : Text
hash_1 = shifted (
    ascii "genesis"
    ++ 0 ∷ (ascii "agent" ++ 0 ∷ (ascii "issue" ++ 0 ∷ (ascii "t" ++ 0 ∷ ascii "5"))))

abbrev hash_2 : Text
hash_2 =
    shifted
      (hash_1 ++ 0 ∷ (ascii "agent" ++ 0 ∷ (ascii "sign" ++ 0 ∷ (ascii "t" ++ 0 ∷ ascii "5"))))

abbrev entry : ℕ → String → Text → Text → AuditEntry
entry id action prev hash = record {
  id = id;
  agent_id = ascii "agent";
  action = ascii action;
  target = ascii "t";
  timestamp = pos 5;
  prev_hash = prev;
  entry_hash = hash;
  signature = sized 64 (ascii "k" ++ hash);
}

abbrev e₁ : AuditEntry
e₁ = entry 1 "issue" genesis hash_1

abbrev e₂ : AuditEntry
e₂ = entry 2 "sign" hash_1 hash_2

abbrev forged : AuditEntry
forged = entry 1 "evil" genesis hash_1

audit : Unit {0}
unfolding record_all record_entry get_last_hash compute_chain_hash sha256_hex chain_input sign
    show_ℤ show_ℕ last verify_chain chain_from text_eq timestamp query_entries retain recent_entries
audit = tt

records : (record_all toy empty events).rows ≡ e₁ ∷ e₂ ∷ []
unfolding audit
records = refl

-- A changed action in the second entry is found; in the first it is not.
checks :
    (verify_chain toy (e₁ ∷ e₂ ∷ []) ≡ true)
    × (verify_chain toy (e₁ ∷ entry 2 "evil" hash_1 hash_2 ∷ []) ≡ false)
    × (verify_chain toy (forged ∷ e₂ ∷ []) ≡ true)
    × (recent_entries 1 (e₁ ∷ e₂ ∷ []) ≡ e₂ ∷ [])
    × (query_entries
          (record { rows = e₁ ∷ e₂ ∷ []; last_id = 2 })
          (some (ascii "other"))
          none
          (pos 0)
        ≡ [])
unfolding audit
checks = (refl, refl, refl, refl, refl)

record_all-verify_example : verify_chain toy (record_all toy empty events).rows ≡ true
unfolding verify_chain
record_all-verify_example = record_all-verify toy empty events refl

verify_chain_binding_example : Collision toy ⊎ ((hash_1 ≡ hash_1) × SameLog (e₂ ∷ []) (e₂ ∷ []))
verify_chain_binding_example =
    verify_chain_binding toy e₁ e₁ (e₂ ∷ []) (e₂ ∷ []) refl checks.0 checks.0 refl (omega arith)
      (omega arith)

first_entry_unchecked_example : verify_chain toy (forged ∷ e₂ ∷ []) ≡ true
first_entry_unchecked_example = first_entry_unchecked toy e₁ forged (e₂ ∷ []) refl refl checks.0

verify_chain-prefix_test : verify_chain toy (e₁ ∷ []) ≡ true
verify_chain-prefix_test = verify_chain-prefix toy (e₁ ∷ []) (e₂ ∷ []) checks.0

query-verify_test :
    (query_entries (record_all toy empty events) (some (ascii "agent")) none (pos 0)
      ≡ (record_all toy empty events).rows)
    × (verify_chain toy
          (query_entries (record_all toy empty events) (some (ascii "agent")) none (pos 0))
        ≡ true)
query-verify_test = query-verify toy (ascii "agent") events (pos 0) (refl, (refl, tt))

recent_entries_suffix_test :
    ((fs : List AuditEntry) × (e₁ ∷ e₂ ∷ [] ≡ fs ++ recent_entries 1 (e₁ ∷ e₂ ∷ [])))
    × (length (recent_entries 1 (e₁ ∷ e₂ ∷ [])) ≡ 1)
recent_entries_suffix_test = recent_entries_suffix 1 (e₁ ∷ e₂ ∷ [])
