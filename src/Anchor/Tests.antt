-- ===== src/Anchor/Tests.antt =====
-- Runs of the anchor worker, and its theorems at inputs that meet their hypotheses.
use grokingclawid.Common.{
  Bytes, List, Memᴰ, Option, String, Text, [], arith, ascii, if◌then◌else◌, last, length, map, none,
  pos, refl, retain, some, text_eq, true, ℕ, ◌==◌, ◌∷◌, ◌≡◌, ◌⊎◌,
}
use grokingclawid.Crypto.{Primitives, sha256_hex}
use grokingclawid.Crypto.ChainHash.{Collision}
use grokingclawid.Crypto.Toy.{length-sized, sized, toy}
use grokingclawid.Anchor.{
  AnchorState, AnchorStatus, AuditHash, BreadcrumbAnchor, anchor_new, chunks, collect, failed,
  get_last_anchored_timestamp, hashes_of, max_of, max_ℤ, min_of, min_ℤ, new, pending,
  read_audit_hashes, sort_dedup, submitted,
}
use grokingclawid.Anchor.Merkle.{combine, compute_merkle_root, even_up, levels, top}
use grokingclawid.Anchor.Binding.{compute_merkle_root_binding, compute_merkle_root_repeat}
use grokingclawid.Anchor.Cycle.{Anchored, anchor_new-Anchored}
use grokingclawid.Anchor.Late.{cycled, late_entry_skipped, same_state}
use grokingclawid.Anchor.Submit.{
  content, first_rows, get_pending_anchors, retryable, submit_each, submit_one, submit_pending,
  submit_pending-content, update_anchor_status, with_status,
}

-- Hashes of 64 characters.
abbrev toy_64 : Primitives
toy_64 = record toy { hex_encode = sized 64 }

abbrev h : String → Text
h s = sized 64 (ascii s)

hex_64 : (b : Bytes) → length (sha256_hex toy_64 b) ≡ 64
unfolding sha256_hex
hex_64 b = length-sized 64 b

abbrev row : String → ℕ → AuditHash
row s t = record { entry_hash = ascii s; agent_id = ascii "a"; timestamp = pos t }

abbrev dbs : List (List AuditHash)
dbs = (row "x" 5 ∷ row "y" 6 ∷ []) ∷ (row "z" 4 ∷ []) ∷ []

merkle : Unit {0}
unfolding compute_merkle_root levels combine even_up top last sha256_hex
merkle = tt

roots_run :
    (compute_merkle_root toy (ascii "a" ∷ ascii "b" ∷ ascii "c" ∷ [])
      ≡ compute_merkle_root toy (ascii "a" ∷ ascii "b" ∷ ascii "c" ∷ ascii "c" ∷ []))
    × (compute_merkle_root toy (ascii "a" ∷ []) ≡ ascii "a")
    × (compute_merkle_root toy (ascii "a" ∷ ascii "a" ∷ []) ≡ ascii "bb")
unfolding merkle
roots_run = (refl, refl, refl)

abbrev after : AnchorState
after = record {
  anchors =
      record {
        id = 1;
        merkle_root = ascii "yz";
        entry_count = 2;
        agent_ids = ascii "a" ∷ [];
        first_entry_at = pos 5;
        last_entry_at = pos 6;
        computed_at = pos 9;
        iota_tx_digest = none;
        status = pending;
      }
      ∷ record {
        id = 2;
        merkle_root = ascii "z";
        entry_count = 1;
        agent_ids = ascii "a" ∷ [];
        first_entry_at = pos 4;
        last_entry_at = pos 4;
        computed_at = pos 9;
        iota_tx_digest = none;
        status = pending;
      }
      ∷ [];
  last_anchor_at = some (pos 9);
  pending_count = 2;
  total_anchored = 3;
}

cycles : anchor_new toy true 2 new (pos 9) dbs ≡ some after
unfolding merkle anchor_new get_last_anchored_timestamp collect read_audit_hashes retain chunks
    max_of min_of max_ℤ min_ℤ sort_dedup hashes_of text_eq
cycles = refl

compute_merkle_root_binding_example :
    Collision toy_64 ⊎ (h "a" ∷ h "b" ∷ h "c" ∷ [] ≡ h "a" ∷ h "b" ∷ h "c" ∷ [])
compute_merkle_root_binding_example =
    compute_merkle_root_binding toy_64 hex_64 (h "a" ∷ h "b" ∷ h "c" ∷ [])
      (h "a" ∷ h "b" ∷ h "c" ∷ []) (omega arith) refl (refl, (refl, (refl, tt)))
      (refl, (refl, (refl, tt))) refl

compute_merkle_root_repeat_test :
    compute_merkle_root toy_64 (h "a" ∷ h "b" ∷ h "c" ∷ h "c" ∷ [])
    ≡ compute_merkle_root toy_64 (h "a" ∷ h "b" ∷ h "c" ∷ [])
unfolding last
compute_merkle_root_repeat_test =
    compute_merkle_root_repeat toy_64 hex_64 (h "a" ∷ h "b" ∷ h "c" ∷ []) (h "c") refl (omega arith)
      refl

anchor_new-Anchored_example :
    (s' : AnchorState) × (anchor_new toy true 2 new (pos 9) dbs ≡ some s')
    × Anchored toy new s' 2 dbs
anchor_new-Anchored_example = anchor_new-Anchored toy 2 new (pos 9) dbs (omega arith)

-- The logs with an entry of the second that the cycle had reached.
abbrev grown : List (List AuditHash)
grown = (row "x" 5 ∷ row "y" 6 ∷ row "new" 6 ∷ []) ∷ (row "z" 4 ∷ []) ∷ []

nothing_new : anchor_new toy true 2 after (pos 10) grown ≡ some after
unfolding anchor_new get_last_anchored_timestamp collect read_audit_hashes retain max_of max_ℤ
nothing_new = refl

late_entry_skipped_example :
    ¬ Memᴰ (row "new" 6) (collect (get_last_anchored_timestamp after) grown)
unfolding get_last_anchored_timestamp max_of
late_entry_skipped_example =
    late_entry_skipped toy 2 new after after (pos 9) dbs grown (row "y" 6) (row "new" 6)
      (omega arith) cycles (Memᴰ.tail (Memᴰ.head refl)) (omega arith) (omega arith)
      (cycled true 2 (pos 10) grown same_state nothing_new)

abbrev waiting : ℕ → AnchorStatus → BreadcrumbAnchor
waiting n status = record {
  id = n;
  merkle_root = ascii "r";
  entry_count = 1;
  agent_ids = [];
  first_entry_at = pos 1;
  last_entry_at = pos 2;
  computed_at = pos 3;
  iota_tx_digest = none;
  status = status;
}

abbrev two_waiting : AnchorState
two_waiting = record {
  anchors = waiting 1 failed ∷ waiting 2 pending ∷ [];
  last_anchor_at = some (pos 3);
  pending_count = 1;
  total_anchored = 2;
}

-- Only the second row gets through.
abbrev second_only : BreadcrumbAnchor → Option Text
second_only a = if a.id == 2 then some (ascii "d") else none

submits :
    map (λ a. a.status) (submit_pending second_only two_waiting).anchors ≡ failed ∷ submitted ∷ []
unfolding submit_pending submit_each submit_one get_pending_anchors first_rows retain retryable
    update_anchor_status with_status
submits = refl

submit_pending-content_test :
    map content (submit_pending second_only two_waiting).anchors ≡ map content two_waiting.anchors
submit_pending-content_test = submit_pending-content second_only two_waiting
