-- ===== src/Anchor/Newer.antt =====
-- Which entries of the logs are new to the worker.
use mathlib.Core.Path.{subst}
use grokingclawid.Common.{
  All, Bool, Bool-cases, List, Memᴰ, [], ap, arith, inl, inr, ltb_ℤ, pos, refl, retain,
  retain-append, sym, ℤ, ◌++◌, ◌∙◌, ◌∷◌, ◌≡◌, ◌≤ℤ◌, ◌⊎◌,
}
use grokingclawid.Anchor.{
  AnchorState, AuditHash, BreadcrumbAnchor, collect, get_last_anchored_timestamp, max_of, max_ℤ,
  read_audit_hashes, times_of,
}

abbrev pub flatten : List (List AuditHash) → List AuditHash
flatten [] = []
flatten (c ∷ cs) = c ++ flatten cs

-- The greatest time of a last entry, or 0 while nothing is anchored.
abbrev pub IsLatest : ℤ → List BreadcrumbAnchor → Type 0
IsLatest since anchors =
    ((anchors ≡ []) × (since ≡ pos 0))
    ⊎ (((a : BreadcrumbAnchor) × Memᴰ a anchors × (a.last_entry_at ≡ since))
        × All (λ (a : BreadcrumbAnchor). a.last_entry_at ≤ℤ since) anchors)

All-le :
    (t u : ℤ) (anchors : List BreadcrumbAnchor)
    → t ≤ℤ u
    → All (λ (a : BreadcrumbAnchor). a.last_entry_at ≤ℤ t) anchors
    → All (λ (a : BreadcrumbAnchor). a.last_entry_at ≤ℤ u) anchors
All-le t u [] le h = tt
All-le t u (a ∷ anchors) le (h, k) = (omega arith, All-le t u anchors le k)

latest_lem : (anchors : List BreadcrumbAnchor) → IsLatest (max_of (times_of anchors)) anchors
unfolding max_of times_of max_ℤ
latest_lem [] = inl (refl, refl)
latest_lem (a ∷ []) = inr ((a, Memᴰ.head refl, refl), (omega arith, tt))
latest_lem (a ∷ b ∷ anchors) =
    let top = max_of (times_of (b ∷ anchors)) in
    elim (latest_lem (b ∷ anchors)) [
      | inl (empty, zero_time) ↦ absurd (ground arith)
      | inr ((c, m, e), above) ↦ elim (Bool-cases (ltb_ℤ a.last_entry_at top)) [
        | inl less ↦
            let same : top ≡ max_of (times_of (a ∷ b ∷ anchors)) = ground arith in
            subst (λ u. IsLatest u (a ∷ b ∷ anchors)) same
              (inr ((c, Memᴰ.tail m, e), (ground arith, above)))
        | inr greater ↦
            let same : a.last_entry_at ≡ max_of (times_of (a ∷ b ∷ anchors)) = ground arith in
            subst (λ u. IsLatest u (a ∷ b ∷ anchors)) same
              (inr (
                (a, Memᴰ.head refl, refl),
                (omega arith, All-le top a.last_entry_at (b ∷ anchors) (ground arith) above),
              ))
      ]
    ]

pub get_last_anchored_timestamp-IsLatest :
    (s : AnchorState) → IsLatest (get_last_anchored_timestamp s) s.anchors
unfolding get_last_anchored_timestamp
get_last_anchored_timestamp-IsLatest s = latest_lem s.anchors

-- What the worker reads of the logs is what is later in them, taken one after the other.
pub collect-retain :
    (since : ℤ) (dbs : List (List AuditHash))
    → collect since dbs ≡ retain (λ r. ltb_ℤ since r.timestamp) (flatten dbs)
unfolding collect read_audit_hashes retain
collect-retain since [] = refl
collect-retain since (rows ∷ dbs) =
    let p : AuditHash → Bool = λ r. ltb_ℤ since r.timestamp in
    ap (λ l. retain p rows ++ l) (collect-retain since dbs)
    ∙ sym (retain-append p rows (flatten dbs))
