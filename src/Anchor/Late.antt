-- ===== src/Anchor/Late.antt =====
-- Entries that no later cycle reads: those logged after a cycle in a second that the cycle had reached.
use mathlib.Core.Path.{subst}
use grokingclawid.Common.{
  Bool, Bool-cases, List, Memᴰ, Memᴰ-retain_iff, Option, Text, [], ap, append-Memᴰ, arith, false,
  inl, inr, length, ltb_ℤ, map, none, refl, some, sym, true, ℕ, ℤ, ◌++◌, ◌<ℤ◌, ◌<◌, ◌==◌, ◌∙◌, ◌∷◌,
  ◌≡◌, ◌≤ℤ◌,
}
use grokingclawid.Crypto.{Primitives}
use grokingclawid.Anchor.{
  AnchorState, AuditHash, BreadcrumbAnchor, anchor_all, anchor_chunk, anchor_chunks, anchor_new,
  chunks, chunks_on, collect, get_last_anchored_timestamp, max_of, max_ℤ, stamps_of, times_of,
}
use grokingclawid.Anchor.Newer.{collect-retain, flatten}
use grokingclawid.Anchor.Submit.{content, submit_pending, submit_pending-content}
use grokingclawid.Anchor.Cycle.{chunks_on-flatten}

max_ℤ-upper : (a b : ℤ) → (a ≤ℤ max_ℤ a b) × (b ≤ℤ max_ℤ a b)
unfolding max_ℤ
max_ℤ-upper a b = ground arith

≤ℤ_trans : (a b c : ℤ) → a ≤ℤ b → b ≤ℤ c → a ≤ℤ c
≤ℤ_trans a b c h k = omega arith

max_of-upper : {t : ℤ} (ts : List ℤ) → Memᴰ t ts → t ≤ℤ max_of ts
unfolding max_of
max_of-upper [] m = elim m [ ]
max_of-upper {t} (u ∷ []) (Memᴰ.head e) = rw e (omega arith)
max_of-upper (u ∷ []) (Memᴰ.tail m) = elim m [ ]
max_of-upper {t} (u ∷ v ∷ ts) (Memᴰ.head e) = rw e ((max_ℤ-upper u (max_of (v ∷ ts))).0)
max_of-upper {t} (u ∷ v ∷ ts) (Memᴰ.tail m) =
    ≤ℤ_trans t (max_of (v ∷ ts)) (max_ℤ u (max_of (v ∷ ts))) (max_of-upper (v ∷ ts) m)
      (max_ℤ-upper u (max_of (v ∷ ts))).1

times_of-left :
    {t : ℤ} (as₁ as₂ : List BreadcrumbAnchor)
    → Memᴰ t (times_of as₁)
    → Memᴰ t (times_of (as₁ ++ as₂))
unfolding times_of
times_of-left [] as₂ m = elim m [ ]
times_of-left (a ∷ as₁) as₂ (Memᴰ.head e) = Memᴰ.head e
times_of-left (a ∷ as₁) as₂ (Memᴰ.tail m) = Memᴰ.tail (times_of-left as₁ as₂ m)

times_of-concat :
    (as₁ : List BreadcrumbAnchor) (a : BreadcrumbAnchor)
    → Memᴰ a.last_entry_at (times_of (as₁ ++ a ∷ []))
unfolding times_of
times_of-concat [] a = Memᴰ.head refl
times_of-concat (b ∷ as₁) a = Memᴰ.tail (times_of-concat as₁ a)

stamps_of-Memᴰ :
    {r : AuditHash} {rows : List AuditHash} → Memᴰ r rows → Memᴰ r.timestamp (stamps_of rows)
unfolding stamps_of
stamps_of-Memᴰ (Memᴰ.head e) = Memᴰ.head (ap (λ (r : AuditHash). r.timestamp) e)
stamps_of-Memᴰ (Memᴰ.tail m) = Memᴰ.tail (stamps_of-Memᴰ m)

times_of-content : (as₁ : List BreadcrumbAnchor) → times_of (map content as₁) ≡ times_of as₁
unfolding times_of
times_of-content [] = refl
times_of-content (a ∷ as₁) = ap (λ l. a.last_entry_at ∷ l) (times_of-content as₁)

module _ (P : Primitives) where
  anchor_chunks-keeps :
      {t : ℤ} (s : AnchorState) (now : ℤ) (cs : List (List AuditHash))
      → Memᴰ t (times_of s.anchors)
      → Memᴰ t (times_of (anchor_chunks P s now cs).anchors)
  unfolding anchor_chunks anchor_chunk
  anchor_chunks-keeps s now [] m = m
  anchor_chunks-keeps s now (c ∷ cs) m =
      anchor_chunks-keeps (anchor_chunk P s now c) now cs (times_of-left s.anchors _ m)

  -- The table has a time that is no earlier.
  abbrev Reaches : ℤ → AnchorState → Type 0
  Reaches t s = (u : ℤ) × Memᴰ u (times_of s.anchors) × (t ≤ℤ u)

  anchor_chunks-Reaches :
      {r : AuditHash} (s : AnchorState) (now : ℤ) (cs : List (List AuditHash))
      → Memᴰ r (flatten cs)
      → Reaches r.timestamp (anchor_chunks P s now cs)
  unfolding anchor_chunks
  anchor_chunks-Reaches s now [] m = elim m [ ]
  anchor_chunks-Reaches {r} s now (c ∷ cs) m = elim (append-Memᴰ r c (flatten cs) m) [
    | inl here ↦ (
      max_of (stamps_of c),
      anchor_chunks-keeps (anchor_chunk P s now c) now cs
          (unfold anchor_chunk in times_of-concat s.anchors _),
      max_of-upper (stamps_of c) (stamps_of-Memᴰ here),
    )
    | inr later ↦ anchor_chunks-Reaches (anchor_chunk P s now c) now cs later
  ]

  anchor_all-Reaches :
      (batch_size : ℕ) (s s' : AnchorState) (now : ℤ) (rows : List AuditHash) (r : AuditHash)
      → 0 < batch_size
      → anchor_all P batch_size s now rows ≡ some s'
      → Memᴰ r rows
      → Reaches r.timestamp s'
  unfolding anchor_all chunks
  anchor_all-Reaches batch_size s s' now [] r p e m = elim m [ ]
  anchor_all-Reaches batch_size s s' now (q ∷ rows) r p e m =
      let n = length (q ∷ rows) in
      let cs = chunks_on n batch_size (q ∷ rows) in
      let (flat, fit) = chunks_on-flatten n batch_size (q ∷ rows) p (omega arith) in
      let same : anchor_chunks P s now cs ≡ s' = ground arith in
      let m' : Memᴰ r (flatten cs) = rw flat m in rw same at (anchor_chunks-Reaches s now cs m')

  -- The second state comes after the first by cycles, enabled or not, and rounds of submissions.
  pub data Later (s : AnchorState) : AnchorState → Type 0 where
    same_state : Later s s
    cycled :
        {t u : AnchorState} (enabled : Bool) (batch_size : ℕ) (now : ℤ)
        (dbs : List (List AuditHash))
        → Later s t
        → anchor_new P enabled batch_size t now dbs ≡ some u
        → Later s u
    submitted_again :
        {t : AnchorState} (submit_to_iota : BreadcrumbAnchor → Option Text)
        → Later s t
        → Later s (submit_pending submit_to_iota t)

  cycle-keeps :
      {v : ℤ} (enabled : Bool) (batch_size : ℕ) (t u : AnchorState) (now : ℤ)
      (dbs : List (List AuditHash)) (rows : List AuditHash)
      → collect (get_last_anchored_timestamp t) dbs ≡ rows
      → anchor_new P enabled batch_size t now dbs ≡ some u
      → Memᴰ v (times_of t.anchors)
      → Memᴰ v (times_of u.anchors)
  unfolding anchor_new anchor_all chunks
  cycle-keeps false batch_size t u now dbs rows read e m =
      let same : t ≡ u = ground arith in rw same at m
  cycle-keeps true batch_size t u now dbs [] read e m =
      let kept : some t ≡ some u = rw (anchor_new, read) at e in
      let same : t ≡ u = ground arith in rw same at m
  cycle-keeps true batch_size t u now dbs (q ∷ rows) read e m =
      elim (Bool-cases (batch_size == 0)) [
        | inl zero_size ↦
            let panics : none ≡ some u = rw (anchor_new, read, zero_size) at e in
            absurd (ground arith)
        | inr sized ↦
            let cs = chunks_on (length (q ∷ rows)) batch_size (q ∷ rows) in
            let grown : some (anchor_chunks P t now cs) ≡ some u =
              rw (anchor_new, read, sized) at e in
            let same : anchor_chunks P t now cs ≡ u = ground arith in
            rw same at (anchor_chunks-keeps t now cs m)
      ]

  Later-keeps :
      {v : ℤ} (s t : AnchorState)
      → Later s t
      → Memᴰ v (times_of s.anchors)
      → Memᴰ v (times_of t.anchors)
  Later-keeps s _ same_state m = m
  Later-keeps s u (cycled {t} enabled batch_size now dbs l e) m =
      cycle-keeps enabled batch_size t u now dbs (collect (get_last_anchored_timestamp t) dbs) refl
        e (Later-keeps s t l m)
  Later-keeps {v} s _ (submitted_again {t} submit l) m =
      let kept : times_of (submit_pending submit t).anchors ≡ times_of t.anchors =
        sym (times_of-content (submit_pending submit t).anchors)
        ∙ (ap (λ l. times_of l) (submit_pending-content submit t) ∙ times_of-content t.anchors) in
      subst (λ l. Memᴰ v l) (sym kept) (Later-keeps s t l m)

  -- Let a cycle find an entry in a log that is later than what the table reaches. After any further
  -- cycles and submissions, a cycle reads from no log an entry with the time of that one or an earlier
  -- one. So one that was logged too late for the first cycle, in the same second, say, is passed over.
  -- Times are in seconds.
  pub late_entry_skipped :
      (batch_size : ℕ) (s s' s'' : AnchorState) (now : ℤ) (dbs logs : List (List AuditHash))
      (r late : AuditHash)
      → 0 < batch_size
      → anchor_new P true batch_size s now dbs ≡ some s'
      → Memᴰ r (flatten dbs)
      → get_last_anchored_timestamp s <ℤ r.timestamp
      → late.timestamp ≤ℤ r.timestamp
      → Later s' s''
      → ¬ Memᴰ late (collect (get_last_anchored_timestamp s'') logs)
  unfolding anchor_new get_last_anchored_timestamp
  late_entry_skipped batch_size s s' s'' now dbs logs r late p e m fresh h l read =
      let since = get_last_anchored_timestamp s in
      let found : Memᴰ r (collect since dbs) =
        rw (collect-retain since dbs)
          ((Memᴰ-retain_iff (λ q. ltb_ℤ since q.timestamp) r (flatten dbs)).1 (m, ground arith)) in
      let (u, kept, reached) =
        anchor_all-Reaches batch_size s s' now (collect since dbs) r p e found in
      let latest = get_last_anchored_timestamp s'' in
      let upper : u ≤ℤ latest = max_of-upper (times_of s''.anchors) (Later-keeps s' s'' l kept) in
      let (there, newer) =
        (Memᴰ-retain_iff (λ q. ltb_ℤ latest q.timestamp) late (flatten logs)).0
          (rw (collect-retain latest logs) at read) in
      absurd (ground arith)
