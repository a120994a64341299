-- ===== src/Audit/Chain.antt =====
-- Every history of recordings yields a log that the chain check accepts.
use grokingclawid.Common.{
  Bytes, List, Text, [], arith, last, last-cons, refl, some, text_eq, text_eq_iff, true, ℤ, ◌++◌,
  ◌∷◌, ◌≡◌,
}
use grokingclawid.Models.{AuditEntry}
use grokingclawid.Crypto.{Primitives}
use grokingclawid.Audit.{
  AuditDb, chain_from, expected, genesis, get_last_hash, new_entry, record_entry, verify_chain,
}

-- What a caller hands to `record_entry`.
pub record Event : Type 0 where
  pub agent : Text
  pub action : Text
  pub target : Text
  pub key : Bytes
  pub time : ℤ

module _ (P : Primitives) where
  unfoldable pub record_all : AuditDb → List Event → AuditDb
  record_all db [] = db
  record_all db (v ∷ vs) =
      record_all (record_entry P db v.agent v.action v.target v.key v.time).1 vs

  chain_from-append :
      (p : AuditEntry) (es : List AuditEntry) (e f : AuditEntry)
      → last (p ∷ es) ≡ some f
      → chain_from P p es ≡ true
      → text_eq e.prev_hash f.entry_hash ≡ true
      → text_eq e.entry_hash (expected P e) ≡ true
      → chain_from P p (es ++ e ∷ []) ≡ true
  unfolding chain_from last
  chain_from-append p [] e f l c h k = ground arith
  chain_from-append p (q ∷ es) e f l c h k = ground (arith, chain_from-append q es e f l)

  verify_chain-append :
      (rows : List AuditEntry) (e : AuditEntry)
      → verify_chain P rows ≡ true
      → e.prev_hash ≡ get_last_hash (record { rows = rows; last_id = 0 })
      → e.entry_hash ≡ expected P e
      → verify_chain P (rows ++ e ∷ []) ≡ true
  unfolding verify_chain get_last_hash last chain_from
  verify_chain-append [] e v h k = ground (arith, text_eq_iff e.prev_hash genesis)
  verify_chain-append (p ∷ es) e v h k =
      let (f, l) = last-cons p es in
      let prev : e.prev_hash ≡ f.entry_hash = rw (l, get_last_hash) at h in
      ground (
        arith,
        chain_from-append p es e f l,
        text_eq_iff e.prev_hash f.entry_hash,
        text_eq_iff e.entry_hash (expected P e),
      )

  record_entry-verify :
      (db : AuditDb) (v : Event)
      → verify_chain P db.rows ≡ true
      → verify_chain P (record_entry P db v.agent v.action v.target v.key v.time).1.rows ≡ true
  unfolding record_entry get_last_hash
  record_entry-verify db v h =
      verify_chain-append db.rows (new_entry P db v.agent v.action v.target v.key v.time) h refl
        refl

  -- Whatever is recorded, by whichever agents and keys, onto a log that the chain check accepts, the
  -- check accepts the log that results.
  pub record_all-verify :
      (db : AuditDb) (vs : List Event)
      → verify_chain P db.rows ≡ true
      → verify_chain P (record_all db vs).rows ≡ true
  unfolding record_all
  record_all-verify db [] h = h
  record_all-verify db (v ∷ vs) h =
      record_all-verify (record_entry P db v.agent v.action v.target v.key v.time).1 vs
        (record_entry-verify db v h)
