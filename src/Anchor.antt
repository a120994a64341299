-- ===== src/Anchor.antt =====
-- crates/grokingclaw-daemon/src/anchor.rs: the worker that anchors audit hashes as Merkle roots. The
-- `anchors` table is the list of its rows in the order of their ids, which AUTOINCREMENT gives out
-- from one. What the agents' audit databases hold is an argument, in the order in which `read_dir`
-- lists them; a submission to IOTA is an argument too, a function from a row to the digest or to
-- nothing. A failing database is not modelled, nor are the daemon's key and the transaction. One cycle reads the clock once.
pub mod Merkle
pub mod Binding
pub mod Newer
pub mod Cycle
pub mod Late
pub mod Submit
mod Tests
use grokingclawid.Common.{
  Bool, List, Option, Text, [], if◌then◌else◌, length, ltb_ℤ, none, not, pos, retain, some, suc,
  text_eq, text_ltb, zero, ℕ, ℤ, ◌%◌, ◌++◌, ◌+◌, ◌==◌, ◌^◌, ◌∷◌,
}
use grokingclawid.Crypto.{Primitives}
use Merkle.{compute_merkle_root}

pub data AnchorStatus : Type 0 where
  pending submitted confirmed failed : AnchorStatus

pub record BreadcrumbAnchor : Type 0 where
  pub id : ℕ
  pub merkle_root : Text
  pub entry_count : ℕ
  pub agent_ids : List Text
  pub first_entry_at : ℤ
  pub last_entry_at : ℤ
  pub computed_at : ℤ
  pub iota_tx_digest : Option Text
  pub status : AnchorStatus

-- A row of an audit log as the worker reads it: its hash, agent and time.
pub record AuditHash : Type 0 where
  pub entry_hash : Text
  pub agent_id : Text
  pub timestamp : ℤ

pub record AnchorState : Type 0 where
  pub anchors : List BreadcrumbAnchor
  pub last_anchor_at : Option ℤ
  pub pending_count : ℕ
  pub total_anchored : ℕ

abbrev pub new : AnchorState
new = record { anchors = []; last_anchor_at = none; pending_count = 0; total_anchored = 0 }

unfoldable pub max_ℤ : ℤ → ℤ → ℤ
max_ℤ a b = if ltb_ℤ a b then b else a

unfoldable pub min_ℤ : ℤ → ℤ → ℤ
min_ℤ a b = if ltb_ℤ b a then b else a

-- `iter().max().unwrap_or(0)` and `iter().min().unwrap_or(0)`
unfoldable pub max_of : List ℤ → ℤ
max_of [] = pos 0
max_of (t ∷ []) = t
max_of (t ∷ u ∷ ts) = max_ℤ t (max_of (u ∷ ts))

unfoldable pub min_of : List ℤ → ℤ
min_of [] = pos 0
min_of (t ∷ []) = t
min_of (t ∷ u ∷ ts) = min_ℤ t (min_of (u ∷ ts))

times_of : List BreadcrumbAnchor → List ℤ
times_of [] = []
times_of (a ∷ as') = a.last_entry_at ∷ times_of as'

-- `SELECT MAX(last_entry_at)`: 0 over an empty table, where the NULL is no integer.
unfoldable pub get_last_anchored_timestamp : AnchorState → ℤ
unfolding times_of
get_last_anchored_timestamp s = max_of (times_of s.anchors)

-- The rows of one audit log later than a time.
unfoldable pub read_audit_hashes : ℤ → List AuditHash → List AuditHash
read_audit_hashes since rows = retain (λ r. ltb_ℤ since r.timestamp) rows

-- The rows of all the logs, one log after the other.
unfoldable pub collect : ℤ → List (List AuditHash) → List AuditHash
collect since [] = []
collect since (rows ∷ dbs) = read_audit_hashes since rows ++ collect since dbs

take : ℕ → List AuditHash → List AuditHash
take zero rows = []
take (suc n) [] = []
take (suc n) (r ∷ rows) = r ∷ take n rows

skip : ℕ → List AuditHash → List AuditHash
skip zero rows = rows
skip (suc n) [] = []
skip (suc n) (r ∷ rows) = skip n rows

-- `chunks(size)` for a positive size; there are at most as many chunks as rows.
pub chunks_on : ℕ → ℕ → List AuditHash → List (List AuditHash)
chunks_on zero size rows = []
chunks_on (suc f) size [] = []
chunks_on (suc f) size (r ∷ rows) = take size (r ∷ rows) ∷ chunks_on f size (skip size (r ∷ rows))

unfoldable pub chunks : ℕ → List AuditHash → List (List AuditHash)
unfolding chunks_on take skip
chunks size rows = chunks_on (length rows) size rows

unfoldable pub hashes_of : List AuditHash → List Text
hashes_of [] = []
hashes_of (r ∷ rows) = r.entry_hash ∷ hashes_of rows

stamps_of : List AuditHash → List ℤ
stamps_of [] = []
stamps_of (r ∷ rows) = r.timestamp ∷ stamps_of rows

insert_unique : Text → List Text → List Text
insert_unique x [] = x ∷ []
insert_unique x (y ∷ ys) =
    if text_ltb x y then x ∷ y ∷ ys else if text_eq x y then y ∷ ys else y ∷ insert_unique x ys

-- `sort()` and then `dedup()`
unfoldable pub sort_dedup : List Text → List Text
unfolding insert_unique text_ltb
sort_dedup [] = []
sort_dedup (x ∷ xs) = insert_unique x (sort_dedup xs)

module _ (P : Primitives) where
  agents_of : List AuditHash → List Text
  agents_of [] = []
  agents_of (r ∷ rows) = r.agent_id ∷ agents_of rows

  -- One round of the loop over the chunks: the row that it saves, and the state after it.
  anchor_chunk : AnchorState → ℤ → List AuditHash → AnchorState
  unfolding hashes_of stamps_of agents_of
  anchor_chunk s now chunk =
      let row : BreadcrumbAnchor = record {
        id = length s.anchors + 1;
        merkle_root = compute_merkle_root P (hashes_of chunk);
        entry_count = length chunk % 2 ^ 32;
        agent_ids = sort_dedup (agents_of chunk);
        first_entry_at = min_of (stamps_of chunk);
        last_entry_at = max_of (stamps_of chunk);
        computed_at = now;
        iota_tx_digest = none;
        status = pending;
      } in
      record {
        anchors = s.anchors ++ row ∷ [];
        last_anchor_at = some now;
        pending_count = (s.pending_count + 1) % 2 ^ 32;
        total_anchored = (s.total_anchored + length chunk) % 2 ^ 64;
      }

  anchor_chunks : AnchorState → ℤ → List (List AuditHash) → AnchorState
  anchor_chunks s now [] = s
  anchor_chunks s now (c ∷ cs) = anchor_chunks (anchor_chunk s now c) now cs

  anchor_all : ℕ → AnchorState → ℤ → List AuditHash → Option AnchorState
  anchor_all batch_size s now [] = some s
  anchor_all batch_size s now (r ∷ rows) =
      if batch_size == 0 then none else some (anchor_chunks s now (chunks batch_size (r ∷ rows)))

  -- `anchor_cycle` up to the submission; `none` is the panic of `chunks(0)`.
  unfoldable pub anchor_new :
      Bool → ℕ → AnchorState → ℤ → List (List AuditHash) → Option AnchorState
  unfolding anchor_chunk anchor_chunks anchor_all
  anchor_new enabled batch_size s now dbs =
      if not enabled
      then some s
      else anchor_all batch_size s now (collect (get_last_anchored_timestamp s) dbs)
