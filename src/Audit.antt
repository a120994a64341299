-- ===== src/Audit.antt =====
-- crates/grokingclawid-core/src/audit.rs, and `verify_chain` and `query_audit` of
-- crates/grokingclaw-daemon/src/daemon.rs: the hash-chained audit log. The SQLite table is the list of
-- its rows in the order of their ids, with the last id that AUTOINCREMENT gave out; a failing
-- database, and the creation of its files and schema, are not modelled. The clock is an argument.
pub mod Chain
pub mod Tamper
pub mod Query
mod Tests
use grokingclawid.Common.{
  Bool, Bytes, List, Option, Text, [], ascii, false, if◌then◌else◌, last, leb_ℤ, length, ltb, none,
  not, retain, some, suc, text_eq, timestamp, true, zero, ℕ, ℤ, ◌&&◌, ◌++◌, ◌+◌, ◌-ℤ◌, ◌-◌, ◌∷◌,
}
use grokingclawid.Models.{AuditEntry}
use grokingclawid.Crypto.{Primitives, compute_chain_hash, sign}

pub record AuditDb : Type 0 where
  pub rows : List AuditEntry
  pub last_id : ℕ

abbrev pub empty : AuditDb
empty = record { rows = []; last_id = 0 }

abbrev pub genesis : Text
genesis = ascii "genesis"

-- `SELECT entry_hash … ORDER BY id DESC LIMIT 1`
unfoldable pub get_last_hash : AuditDb → Text
get_last_hash db = elim (last db.rows) [ none ↦ genesis | some e ↦ e.entry_hash ]

-- `query_entries`: the conditions that are given are joined by AND.
agent_matches : Option Text → AuditEntry → Bool
agent_matches none e = true
agent_matches (some aid) e = text_eq e.agent_id aid

recent_enough : Option ℤ → ℤ → AuditEntry → Bool
recent_enough none now e = true
recent_enough (some secs) now e = leb_ℤ (timestamp now -ℤ secs) e.timestamp

unfoldable pub query_entries : AuditDb → Option Text → Option ℤ → ℤ → List AuditEntry
unfolding agent_matches recent_enough
query_entries db agent_id last_seconds now =
    retain (λ e. agent_matches agent_id e && recent_enough last_seconds now e) db.rows

-- The rows that `query_audit` shows: the last `n`.
drop : ℕ → List AuditEntry → List AuditEntry
drop zero es = es
drop (suc n) [] = []
drop (suc n) (e ∷ es) = drop n es

unfoldable pub recent_entries : ℕ → List AuditEntry → List AuditEntry
unfolding drop
recent_entries n entries = drop (if ltb n (length entries) then length entries - n else 0) entries

module _ (P : Primitives) where
  -- The row that `record_entry` inserts and returns.
  new_entry : AuditDb → Text → Text → Text → Bytes → ℤ → AuditEntry
  new_entry db agent action target key now =
      let prev = get_last_hash db in
      let hash = compute_chain_hash P prev agent action target (timestamp now) in
      record {
        id = db.last_id + 1;
        agent_id = agent;
        action = action;
        target = target;
        timestamp = timestamp now;
        prev_hash = prev;
        entry_hash = hash;
        signature = sign P key hash;
      }

  unfoldable pub record_entry : AuditDb → Text → Text → Text → Bytes → ℤ → AuditEntry × AuditDb
  unfolding new_entry
  record_entry db agent action target key now =
      let e = new_entry db agent action target key now in
      (e, record { rows = db.rows ++ e ∷ []; last_id = db.last_id + 1 })

  -- The hash that the chain expects of an entry.
  abbrev pub expected : AuditEntry → Text
  expected e = compute_chain_hash P e.prev_hash e.agent_id e.action e.target e.timestamp

  -- The loop of `verify_chain`, from the second entry on.
  unfoldable pub chain_from : AuditEntry → List AuditEntry → Bool
  chain_from prev [] = true
  chain_from prev (e ∷ es) =
      if not (text_eq e.prev_hash prev.entry_hash)
      then false
      else if not (text_eq e.entry_hash (expected e))
      then false
      else chain_from e es

  unfoldable pub verify_chain : List AuditEntry → Bool
  verify_chain [] = true
  verify_chain (e ∷ es) = if not (text_eq e.prev_hash genesis) then false else chain_from e es
