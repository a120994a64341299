-- ===== src/Anchor/Submit.antt =====
-- anchor.rs, `submit_pending`: what is pending or failed is offered to IOTA, at most ten rows in a
-- round. The submission is an argument, a function from a row to the digest or to nothing.
use grokingclawid.Common.{
  Bool, Bool-cases, List, Option, Option-cases, Text, [], ap, false, if◌then◌else◌, inl, inr, map,
  none, refl, retain, some, suc, true, zero, ℕ, ◌-◌, ◌==◌, ◌∙◌, ◌∷◌, ◌≡◌,
}
use grokingclawid.Anchor.{
  AnchorState, AnchorStatus, BreadcrumbAnchor, confirmed, failed, pending, submitted,
}

unfoldable pub retryable : AnchorStatus → Bool
retryable pending = true
retryable submitted = false
retryable confirmed = false
retryable failed = true

-- `LIMIT`
unfoldable pub first_rows : ℕ → List BreadcrumbAnchor → List BreadcrumbAnchor
first_rows zero rows = []
first_rows (suc n) [] = []
first_rows (suc n) (a ∷ rows) = a ∷ first_rows n rows

unfoldable pub get_pending_anchors : List BreadcrumbAnchor → List BreadcrumbAnchor
get_pending_anchors anchors = first_rows 10 (retain (λ a. retryable a.status) anchors)

unfoldable pub with_status : BreadcrumbAnchor → AnchorStatus → Option Text → BreadcrumbAnchor
with_status a status digest = record {
  id = a.id;
  merkle_root = a.merkle_root;
  entry_count = a.entry_count;
  agent_ids = a.agent_ids;
  first_entry_at = a.first_entry_at;
  last_entry_at = a.last_entry_at;
  computed_at = a.computed_at;
  iota_tx_digest = digest;
  status = status;
}

unfoldable pub update_anchor_status :
    List BreadcrumbAnchor → ℕ → AnchorStatus → Option Text → List BreadcrumbAnchor
update_anchor_status [] id status digest = []
update_anchor_status (a ∷ anchors) id status digest =
    let rest = update_anchor_status anchors id status digest in
    if a.id == id then with_status a status digest ∷ rest else a ∷ rest

module _ (submit_to_iota : BreadcrumbAnchor → Option Text) where
  unfoldable pub submit_one : BreadcrumbAnchor → AnchorState → AnchorState
  submit_one a s = elim (submit_to_iota a) [
    | none ↦ record {
      anchors = update_anchor_status s.anchors a.id failed none;
      last_anchor_at = s.last_anchor_at;
      pending_count = s.pending_count;
      total_anchored = s.total_anchored;
    }
    | some tx_digest ↦ record {
      anchors = update_anchor_status s.anchors a.id submitted (some tx_digest);
      last_anchor_at = s.last_anchor_at;
      pending_count = s.pending_count - 1;
      total_anchored = s.total_anchored;
    }
  ]

  unfoldable pub submit_each : List BreadcrumbAnchor → AnchorState → AnchorState
  submit_each [] s = s
  submit_each (a ∷ rows) s = submit_each rows (submit_one a s)

  unfoldable pub submit_pending : AnchorState → AnchorState
  submit_pending s = submit_each (get_pending_anchors s.anchors) s

-- A row without its status and digest.
abbrev pub content : BreadcrumbAnchor → BreadcrumbAnchor
content a = record {
  id = a.id;
  merkle_root = a.merkle_root;
  entry_count = a.entry_count;
  agent_ids = a.agent_ids;
  first_entry_at = a.first_entry_at;
  last_entry_at = a.last_entry_at;
  computed_at = a.computed_at;
  iota_tx_digest = none;
  status = pending;
}

update-content :
    (anchors : List BreadcrumbAnchor) (id : ℕ) (status : AnchorStatus) (digest : Option Text)
    → map content (update_anchor_status anchors id status digest) ≡ map content anchors
unfolding update_anchor_status with_status
update-content [] id status digest = refl
update-content (a ∷ anchors) id status digest = elim (Bool-cases (a.id == id)) [
  | inl here ↦ rw here (ap (λ r. content a ∷ r) (update-content anchors id status digest))
  | inr away ↦ rw away (ap (λ r. content a ∷ r) (update-content anchors id status digest))
]

module _ (submit_to_iota : BreadcrumbAnchor → Option Text) where
  one-content :
      (a : BreadcrumbAnchor) (s : AnchorState)
      → map content (submit_one submit_to_iota a s).anchors ≡ map content s.anchors
  unfolding submit_one
  one-content a s = elim (Option-cases (submit_to_iota a)) [
    | inl lost ↦ rw (submit_one, lost) (update-content s.anchors a.id failed none)
    | inr (digest, sent) ↦
        rw (submit_one, sent) (update-content s.anchors a.id submitted (some digest))
  ]

  each-content :
      (rows : List BreadcrumbAnchor) (s : AnchorState)
      → map content (submit_each submit_to_iota rows s).anchors ≡ map content s.anchors
  unfolding submit_each
  each-content [] s = refl
  each-content (a ∷ rows) s = each-content rows (submit_one submit_to_iota a s) ∙ one-content a s

  -- However the submissions go, a round of `submit_pending` keeps every anchor in its place with its
  -- root, its entries and its times: only statuses and digests change.
  pub submit_pending-content :
      (s : AnchorState)
      → map content (submit_pending submit_to_iota s).anchors ≡ map content s.anchors
  unfolding submit_pending
  submit_pending-content s = each-content (get_pending_anchors s.anchors) s
