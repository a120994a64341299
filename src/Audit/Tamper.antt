-- ===== src/Audit/Tamper.antt =====
-- What the chain check binds, and what it leaves open.
use grokingclawid.Common.{
  All, Avoids, List, Text, [], arith, inl, inr, length, refl, sym, text_eq_iff, true, ◌++◌, ◌∙◌,
  ◌∷◌, ◌≡◌, ◌⊎◌,
}
use grokingclawid.Models.{AuditEntry}
use grokingclawid.Crypto.{Primitives}
use grokingclawid.Crypto.ChainHash.{Collision, SameFields, compute_chain_hash_binding}
use grokingclawid.Audit.{chain_from, expected, verify_chain}

-- The hashed fields of an entry hold no NUL byte.
abbrev pub NulFree : AuditEntry → Type 0
NulFree e = All (Avoids 0) (e.prev_hash ∷ e.agent_id ∷ e.action ∷ e.target ∷ [])

-- Two entries with the same hashed content and the same hash.
pub record SameContent (e f : AuditEntry) : Type 0 where
  pub fields :
      SameFields e.prev_hash e.agent_id e.action e.target e.timestamp f.prev_hash f.agent_id
        f.action f.target f.timestamp
  pub hash : e.entry_hash ≡ f.entry_hash

-- Entry by entry, over two lists of one length.
abbrev pub SameLog : List AuditEntry → List AuditEntry → Type 0
SameLog [] [] = Unit
SameLog [] (f ∷ fs) = ⊥
SameLog (e ∷ es) [] = ⊥
SameLog (e ∷ es) (f ∷ fs) = SameContent e f × SameLog es fs

-- The hash of the last entry of a non-empty log.
abbrev pub final_hash : AuditEntry → List AuditEntry → Text
final_hash p [] = p.entry_hash
final_hash p (e ∷ es) = final_hash e es

module _ (P : Primitives) where
  chain_from-cons :
      (p e : AuditEntry) (es : List AuditEntry)
      → chain_from P p (e ∷ es) ≡ true
      → (e.prev_hash ≡ p.entry_hash) × (e.entry_hash ≡ expected P e) × (chain_from P e es ≡ true)
  unfolding chain_from
  chain_from-cons p e es h =
      ground (arith, text_eq_iff e.prev_hash p.entry_hash, text_eq_iff e.entry_hash (expected P e))

  chain_binding :
      (p q : AuditEntry) (es fs : List AuditEntry)
      → length es ≡ length fs
      → chain_from P p es ≡ true
      → chain_from P q fs ≡ true
      → final_hash p es ≡ final_hash q fs
      → All NulFree es
      → All NulFree fs
      → Collision P ⊎ ((p.entry_hash ≡ q.entry_hash) × SameLog es fs)
  chain_binding p q [] [] n v w h a b = inr (h, tt)
  chain_binding p q [] (f ∷ fs) n v w h a b = absurd (omega arith)
  chain_binding p q (e ∷ es) [] n v w h a b = absurd (omega arith)
  chain_binding p q (e ∷ es) (f ∷ fs) n v w h (a, as') (b, bs) =
      let (e₁, e₂, e₃) = chain_from-cons p e es v in
      let (f₁, f₂, f₃) = chain_from-cons q f fs w in
      elim (chain_binding e f es fs (omega arith) e₃ f₃ h as' bs) [
        | inl c ↦ inl c
        | inr (same, rest) ↦
            elim (compute_chain_hash_binding P e.prev_hash e.agent_id e.action e.target e.timestamp
              f.prev_hash f.agent_id f.action f.target f.timestamp a b (sym e₂ ∙ same ∙ f₂)) [
                | inl c ↦ inl c
                | inr s ↦
                    inr (sym e₁ ∙ s.prev_hash ∙ f₁, (record { fields = s; hash = same }, rest))
              ]
      ]

  -- Two accepted logs of one length that end in the same hash have, from the second entry on, the
  -- same previous hash, agent, action, target, time and hash in each entry, unless two different
  -- inputs of SHA-256 that collide are at hand; the fields of these entries hold no NUL byte.
  pub verify_chain_binding :
      (p q : AuditEntry) (es fs : List AuditEntry)
      → length es ≡ length fs
      → verify_chain P (p ∷ es) ≡ true
      → verify_chain P (q ∷ fs) ≡ true
      → final_hash p es ≡ final_hash q fs
      → All NulFree es
      → All NulFree fs
      → Collision P ⊎ ((p.entry_hash ≡ q.entry_hash) × SameLog es fs)
  unfolding verify_chain
  verify_chain_binding p q es fs n v w h a b =
      chain_binding p q es fs n (ground arith) (ground arith) h a b

  -- The first entry's content is not checked: of an accepted log the first entry may be exchanged
  -- for any entry with the same two hashes, whatever agent, action, target and time that one claims.
  pub first_entry_unchecked :
      (p q : AuditEntry) (es : List AuditEntry)
      → q.prev_hash ≡ p.prev_hash
      → q.entry_hash ≡ p.entry_hash
      → verify_chain P (p ∷ es) ≡ true
      → verify_chain P (q ∷ es) ≡ true
  unfolding verify_chain chain_from
  first_entry_unchecked p q [] h k v = rw h v
  first_entry_unchecked p q (e ∷ es) h k v = rw (h, k) v

  chain_from-prefix :
      (p : AuditEntry) (es fs : List AuditEntry)
      → chain_from P p (es ++ fs) ≡ true
      → chain_from P p es ≡ true
  unfolding chain_from
  chain_from-prefix p [] fs h = refl
  chain_from-prefix p (e ∷ es) fs h = ground (arith, chain_from-prefix e es fs)

  -- A log that is cut off after any entry is still accepted.
  pub verify_chain-prefix :
      (es fs : List AuditEntry) → verify_chain P (es ++ fs) ≡ true → verify_chain P es ≡ true
  unfolding verify_chain
  verify_chain-prefix [] fs h = refl
  verify_chain-prefix (e ∷ es) fs h = ground (arith, chain_from-prefix e es fs)
