-- ===== src/Audit/Query.antt =====
-- The daemon's audit query: what it shows, and that its verdict on an agent's own log is positive.
use grokingclawid.Common.{
  All, All-append, List, Text, [], ap, arith, if◌then◌else◌, length, ltb, none, refl, retain, some,
  suc, text_eq_iff, true, zero, ℕ, ℤ, ◌&&◌, ◌++◌, ◌-◌, ◌∷◌, ◌≡◌,
}
use grokingclawid.Models.{AuditEntry}
use grokingclawid.Crypto.{Primitives}
use grokingclawid.Audit.{
  AuditDb, agent_matches, drop, empty, new_entry, query_entries, recent_enough, recent_entries,
  record_entry, verify_chain,
}
use grokingclawid.Audit.Chain.{Event, record_all, record_all-verify}

abbrev ByAgent : Text → List AuditEntry → Type 0
ByAgent aid = All (λ e. e.agent_id ≡ aid)

retain_own :
    (aid : Text) (now : ℤ) (es : List AuditEntry)
    → ByAgent aid es
    → retain (λ e. agent_matches (some aid) e && recent_enough none now e) es ≡ es
unfolding retain agent_matches recent_enough
retain_own aid now [] h = refl
retain_own aid now (e ∷ es) (p, h) =
    ground (arith, retain_own aid now es h, text_eq_iff e.agent_id aid)

module _ (P : Primitives) where
  record_all-ByAgent :
      (aid : Text) (db : AuditDb) (vs : List Event)
      → ByAgent aid db.rows
      → All (λ v. v.agent ≡ aid) vs
      → ByAgent aid (record_all P db vs).rows
  unfolding record_all record_entry
  record_all-ByAgent aid db [] h k = h
  record_all-ByAgent aid db (v ∷ vs) h (e, k) =
      record_all-ByAgent aid (record_entry P db v.agent v.action v.target v.key v.time).1 vs
        (All-append (λ e. e.agent_id ≡ aid) db.rows
          (new_entry P db v.agent v.action v.target v.key v.time ∷ []) h (e, tt))
        k

  -- On a log that one agent alone wrote, the daemon's query for that agent finds every entry, and
  -- the chain check that it runs on the found entries succeeds.
  pub query-verify :
      (aid : Text) (vs : List Event) (now : ℤ)
      → All (λ v. v.agent ≡ aid) vs
      → (query_entries (record_all P empty vs) (some aid) none now ≡ (record_all P empty vs).rows)
        × (verify_chain P (query_entries (record_all P empty vs) (some aid) none now) ≡ true)
  unfolding query_entries
  query-verify aid vs now h =
      let own = record_all-ByAgent aid empty vs tt h in
      let same = retain_own aid now (record_all P empty vs).rows own in
      (same, rw same (record_all-verify P empty vs (unfold verify_chain in refl)))

length-drop : (n : ℕ) (es : List AuditEntry) → length (drop n es) ≡ length es - n
unfolding drop
length-drop zero es = omega arith
length-drop (suc n) [] = omega arith
length-drop (suc n) (e ∷ es) = omega (arith, length-drop n es)

drop-suffix : (n : ℕ) (es : List AuditEntry) → (fs : List AuditEntry) × (es ≡ fs ++ drop n es)
unfolding drop
drop-suffix zero es = ([], refl)
drop-suffix (suc n) [] = ([], refl)
drop-suffix (suc n) (e ∷ es) = let (fs, p) = drop-suffix n es in (e ∷ fs, ap (λ l. e ∷ l) p)

-- The query shows the end of the log: `n` entries, or all of them if there are fewer.
pub recent_entries_suffix :
    (n : ℕ) (es : List AuditEntry)
    → ((fs : List AuditEntry) × (es ≡ fs ++ recent_entries n es))
      × (length (recent_entries n es) ≡ (if ltb n (length es) then n else length es))
unfolding recent_entries
recent_entries_suffix n es =
    let k = if ltb n (length es) then length es - n else 0 in
    (drop-suffix k es, ground (arith, length-drop k es))
