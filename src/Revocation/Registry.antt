-- ===== src/Revocation/Registry.antt =====
-- The registry as a map: what `revoke` enters is found again, once, and nothing else changes.
use grokingclawid.Common.{
  Bool, Bool-cases, Bytes, List, Option, Result-cases, Text, [], already_revoked, arith, err, false,
  find, inl, inr, length, ltb, none, ok, or_else, refl, retain, retain-append, some, text_eq,
  text_eq_iff, text_eq_refl, true, ℤ, ◌++◌, ◌||◌, ◌∷◌, ◌≡◌, ◌≢◌,
}
use grokingclawid.Crypto.{Primitives, sign}
use grokingclawid.Revocation.{
  Formats, RevocationEntry, Row, get_revocation, is_revoked, of_row, revocation_payload,
  revoke_hybrid, sign_optional, to_row,
}

-- What the libraries write they read back: an instant's text, and a canonical id.
pub record ReadsBack (F : Formats) : Type 0 where
  pub parse-to_rfc3339 : (t : ℤ) → F.parse_from_rfc3339 (F.to_rfc3339 t) ≡ some t

length-find :
    (table : List Row) (id : Text)
    → is_revoked table id ≡ false
    → find (λ r. text_eq r.agent_id id) table ≡ none
unfolding is_revoked find retain
length-find [] id h = refl
length-find (r ∷ table) id h = ground (arith, length-find table id)

find-append :
    (table : List Row) (id : Text) (row : Row)
    → find (λ r. text_eq r.agent_id id) table ≡ none
    → row.agent_id ≡ id
    → find (λ r. text_eq r.agent_id id) (table ++ row ∷ []) ≡ some row
unfolding find
find-append [] id row h e = rw (e, text_eq_refl id)
find-append (r ∷ table) id row h e = elim (Bool-cases (text_eq r.agent_id id)) [
  | inl here ↦ absurd (ground arith)
  | inr away ↦ rw away (find-append table id row (ground arith) e)
]

is_revoked-append :
    (table : List Row) (row : Row) (id : Text)
    → is_revoked (table ++ row ∷ []) id ≡ (is_revoked table id || text_eq row.agent_id id)
unfolding is_revoked retain
is_revoked-append table row id =
    let p : Row → Bool = λ r. text_eq r.agent_id id in
    rw (retain-append p table (row ∷ [])) (last_row (retain p table))
  where
    last_row :
        (kept : List Row)
        → ltb 0 (length (kept ++ retain (λ r. text_eq r.agent_id id) (row ∷ [])))
          ≡ (ltb 0 (length kept) || text_eq row.agent_id id)
    last_row [] = ground arith
    last_row (k ∷ kept) = ground arith

module _ (P : Primitives) (F : Formats) where
  -- The entry that a revocation makes, given its post-quantum signature.
  abbrev pub made : Text → Text → Text → Text → Bytes → ℤ → Option Text → RevocationEntry
  made id name reason by key now sig = record {
    agent_id = id;
    agent_name = name;
    reason = reason;
    revoked_by = by;
    revoked_at = now;
    signature = sign P key (revocation_payload F id reason now);
    pq_signature = sig;
  }

  -- A revocation that succeeds appends one row, for an id that had none.
  pub revoke_inv :
      (table next : List Row) (id name reason by : Text) (key : Bytes) (pq : Option Bytes) (now : ℤ)
      (entry : RevocationEntry)
      → revoke_hybrid P F table id name reason by key pq now ≡ ok (next, entry)
      → (is_revoked table id ≡ false)
        × (sig : Option Text) × (sign_optional P pq (revocation_payload F id reason now) ≡ ok sig)
        × (entry ≡ made id name reason by key now sig)
        × (next ≡ table ++ to_row F (made id name reason by key now sig) ∷ [])
  unfolding revoke_hybrid
  revoke_inv table next id name reason by key pq now entry e =
      elim (Bool-cases (is_revoked table id)) [
        | inl already ↦ absurd (ground arith)
        | inr fresh ↦
            elim (Result-cases (sign_optional P pq (revocation_payload F id reason now))) [
              | inl (why, bad) ↦ absurd (ground arith)
              | inr (sig, good) ↦ (fresh, sig, good, ground arith, ground arith)
            ]
      ]

  -- When a revocation succeeds, its id was not revoked before and is afterwards, every other id is as
  -- it was, and a second revocation of the id, with whatever key and reason, is refused.
  pub revoke-is_revoked :
      (table next : List Row) (id name reason by : Text) (key : Bytes) (pq : Option Bytes) (now : ℤ)
      (entry : RevocationEntry) (other name2 reason2 by2 : Text) (key2 : Bytes) (pq2 : Option Bytes)
      (later : ℤ)
      → revoke_hybrid P F table id name reason by key pq now ≡ ok (next, entry)
      → id ≢ other
      → (is_revoked table id ≡ false)
        × (is_revoked next id ≡ true)
        × (is_revoked next other ≡ is_revoked table other)
        × (revoke_hybrid P F next id name2 reason2 by2 key2 pq2 later ≡ err already_revoked)
  unfolding revoke_hybrid to_row
  revoke-is_revoked table next id name reason by key pq now entry other n r b k q l e apart =
      let (fresh, sig, good, made_entry, grown) =
        revoke_inv table next id name reason by key pq now entry e in
      let row = to_row F (made id name reason by key now sig) in
      let after : is_revoked next id ≡ true =
        rw (grown, is_revoked-append table row id) (ground (arith, text_eq_refl id)) in
      (
        fresh,
        after,
        rw (grown, is_revoked-append table row other) (ground (arith, text_eq_iff id other)),
        rw after refl,
      )

  -- What a revocation returns is what the registry gives back for the id from then on, given that
  -- chrono reads the texts that it writes and that the id is in canonical form.
  pub revoke-get_revocation :
      (table next : List Row) (id name reason by : Text) (key : Bytes) (pq : Option Bytes)
      (now later : ℤ) (entry : RevocationEntry)
      → ReadsBack F
      → F.parse_uuid id ≡ some id
      → revoke_hybrid P F table id name reason by key pq now ≡ ok (next, entry)
      → (get_revocation F table id later ≡ none) × (get_revocation F next id later ≡ some entry)
  unfolding get_revocation of_row or_else to_row
  revoke-get_revocation table next id name reason by key pq now later entry R u e =
      let (fresh, sig, good, made_entry, grown) =
        revoke_inv table next id name reason by key pq now entry e in
      let row = to_row F (made id name reason by key now sig) in
      let none_there = length-find table id fresh in
      (
        rw (get_revocation, none_there) refl,
        simp (grown, get_revocation, find-append table id row none_there refl, made_entry)
            (rw (u, R.parse-to_rfc3339 now) refl),
      )
