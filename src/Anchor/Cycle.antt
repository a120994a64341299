-- ===== src/Anchor/Cycle.antt =====
-- What one cycle of the anchor worker covers, and what later cycles leave out.
use mathlib.Core.List.{append_assoc, append-nil}
use grokingclawid.Common.{
  All, List, Text, [], ap, arith, length, length-append, ltb_ℤ, refl, retain, some, suc, sym, true,
  zero, ℕ, ℤ, ◌++◌, ◌+◌, ◌-◌, ◌<◌, ◌∙◌, ◌∷◌, ◌≡◌, ◌≤◌,
}
use grokingclawid.Crypto.{Primitives}
use grokingclawid.Anchor.Newer.{
  IsLatest, collect-retain, flatten, get_last_anchored_timestamp-IsLatest,
}
use grokingclawid.Anchor.Merkle.{compute_merkle_root}
use grokingclawid.Anchor.{
  AnchorState, AuditHash, BreadcrumbAnchor, anchor_all, anchor_chunk, anchor_chunks, anchor_new,
  chunks, chunks_on, collect, get_last_anchored_timestamp, hashes_of, skip, take,
}

take-append-skip : (n : ℕ) (rows : List AuditHash) → take n rows ++ skip n rows ≡ rows
unfolding take skip
take-append-skip zero rows = refl
take-append-skip (suc n) [] = refl
take-append-skip (suc n) (r ∷ rows) = ap (λ l. r ∷ l) (take-append-skip n rows)

length-skip : (n : ℕ) (rows : List AuditHash) → length (skip n rows) ≡ length rows - n
unfolding skip
length-skip zero rows = omega arith
length-skip (suc n) [] = omega arith
length-skip (suc n) (r ∷ rows) = omega (arith, length-skip n rows)

length-take :
    (n : ℕ) (rows : List AuditHash) → length (take n rows) + length (skip n rows) ≡ length rows
length-take n rows =
    sym (length-append (take n rows) (skip n rows)) ∙ ap length (take-append-skip n rows)

length-take-le : (n : ℕ) (rows : List AuditHash) → length (take n rows) ≤ n
unfolding take
length-take-le zero rows = omega arith
length-take-le (suc n) [] = omega arith
length-take-le (suc n) (r ∷ rows) = omega (arith, length-take-le n rows)

-- A chunk is not empty and no longer than the batch size.
abbrev pub InBatch : ℕ → List AuditHash → Type 0
InBatch size c = (0 < length c) × (length c ≤ size)

pub chunks_on-flatten :
    (f size : ℕ) (rows : List AuditHash)
    → 0 < size
    → length rows ≤ f
    → (flatten (chunks_on f size rows) ≡ rows) × All (InBatch size) (chunks_on f size rows)
unfolding chunks_on
chunks_on-flatten zero size [] p h = (refl, tt)
chunks_on-flatten zero size (r ∷ rows) p h = absurd (omega arith)
chunks_on-flatten (suc f) size [] p h = (refl, tt)
chunks_on-flatten (suc f) size (r ∷ rows) p h =
    let (flat, fit) =
      chunks_on-flatten f size (skip size (r ∷ rows)) p
        (omega (arith, length-skip size (r ∷ rows))) in
    (
      ap (λ l. take size (r ∷ rows) ++ l) flat ∙ take-append-skip size (r ∷ rows),
      (
        (
          omega (arith, length-take size (r ∷ rows), length-skip size (r ∷ rows)),
          omega (
            arith,
            length-take size (r ∷ rows),
            length-skip size (r ∷ rows),
            length-take-le size (r ∷ rows),
          ),
        ),
        fit,
      ),
    )

module _ (P : Primitives) where
  -- The roots that the worker computes for the chunks, and those that the table holds.
  abbrev pub roots : List (List AuditHash) → List Text
  roots [] = []
  roots (c ∷ cs) = compute_merkle_root P (hashes_of c) ∷ roots cs

  abbrev pub stored_roots : List BreadcrumbAnchor → List Text
  stored_roots [] = []
  stored_roots (a ∷ rows) = a.merkle_root ∷ stored_roots rows

  stored_roots-append :
      (as₁ as₂ : List BreadcrumbAnchor)
      → stored_roots (as₁ ++ as₂) ≡ stored_roots as₁ ++ stored_roots as₂
  stored_roots-append [] as₂ = refl
  stored_roots-append (a ∷ as₁) as₂ = ap (λ l. a.merkle_root ∷ l) (stored_roots-append as₁ as₂)

  anchor_chunks-roots :
      (s : AnchorState) (now : ℤ) (cs : List (List AuditHash))
      → stored_roots (anchor_chunks P s now cs).anchors ≡ stored_roots s.anchors ++ roots cs
  unfolding anchor_chunks anchor_chunk
  anchor_chunks-roots s now [] = sym (append-nil _)
  anchor_chunks-roots s now (c ∷ cs) =
      anchor_chunks-roots (anchor_chunk P s now c) now cs
      ∙ (ap (λ l. l ++ roots cs) (stored_roots-append s.anchors _)
          ∙ append_assoc (stored_roots s.anchors) _ _)

  -- What a cycle anchored: of all logs, taken one after the other, the entries that are later than the
  -- last that was anchored, cut into batches.
  pub record Anchored (s s' : AnchorState) (batch_size : ℕ) (dbs : List (List AuditHash))
      : Type 0 where
    pub batches : List (List AuditHash)
    pub since : ℤ
    pub latest : IsLatest since s.anchors
    pub complete : flatten batches ≡ retain (λ r. ltb_ℤ since r.timestamp) (flatten dbs)
    pub sizes : All (InBatch batch_size) batches
    pub saved : stored_roots s'.anchors ≡ stored_roots s.anchors ++ roots batches

  anchor_all-Anchored :
      (batch_size : ℕ) (s : AnchorState) (now : ℤ) (dbs : List (List AuditHash))
      (rows : List AuditHash)
      → 0 < batch_size
      → collect (get_last_anchored_timestamp s) dbs ≡ rows
      → (s' : AnchorState) × (anchor_all P batch_size s now rows ≡ some s')
        × Anchored s s' batch_size dbs
  unfolding anchor_all chunks
  anchor_all-Anchored batch_size s now dbs [] p e =
      let since = get_last_anchored_timestamp s in
      (
        s,
        refl,
        record {
          batches = [];
          since = since;
          latest = get_last_anchored_timestamp-IsLatest s;
          complete = sym e ∙ collect-retain since dbs;
          sizes = tt;
          saved = sym (append-nil _);
        },
      )
  anchor_all-Anchored batch_size s now dbs (r ∷ rows) p e =
      let n = length (r ∷ rows) in
      let (flat, fit) = chunks_on-flatten n batch_size (r ∷ rows) p (omega arith) in
      (
        anchor_chunks P s now (chunks_on n batch_size (r ∷ rows)),
        ground arith,
        record {
          batches = chunks_on n batch_size (r ∷ rows);
          since = get_last_anchored_timestamp s;
          latest = get_last_anchored_timestamp-IsLatest s;
          complete = flat ∙ (sym e ∙ collect-retain (get_last_anchored_timestamp s) dbs);
          sizes = fit;
          saved = anchor_chunks-roots s now (chunks_on n batch_size (r ∷ rows));
        },
      )

  -- An enabled cycle with a positive batch size does not panic, and the roots that it adds to the
  -- table are those of batches, none empty and none above the batch size, that together are every
  -- entry, of every log and in order, that is later than the greatest time of a last entry in the
  -- table, or than 0 if the table is empty.
  pub anchor_new-Anchored :
      (batch_size : ℕ) (s : AnchorState) (now : ℤ) (dbs : List (List AuditHash))
      → 0 < batch_size
      → (s' : AnchorState) × (anchor_new P true batch_size s now dbs ≡ some s')
        × Anchored s s' batch_size dbs
  unfolding anchor_new
  anchor_new-Anchored batch_size s now dbs p =
      anchor_all-Anchored batch_size s now dbs (collect (get_last_anchored_timestamp s) dbs) p refl
