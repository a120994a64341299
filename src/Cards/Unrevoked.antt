-- ===== src/Cards/Unrevoked.antt =====
-- What it means that a registry does not revoke an id.
use grokingclawid.Common.{
  All, Bool-cases, List, Option, Text, [], arith, false, inl, inr, none, refl, retain, some,
  text_eq, text_eq_iff, ◌↔◌, ◌∷◌, ◌≡◌, ◌≢◌,
}
use grokingclawid.Revocation.{Row, is_revoked}
use grokingclawid.Cards.{revoked_in}

-- No row of the registry is about the id, if the registry opens at all.
abbrev pub Unrevoked : Option (List Row) → Text → Type 0
Unrevoked none id = Unit
Unrevoked (some table) id = All (λ (r : Row). r.agent_id ≢ id) table

is_revoked-Unrevoked :
    (table : List Row) (id : Text)
    → is_revoked table id ≡ false
    → All (λ (r : Row). r.agent_id ≢ id) table
unfolding is_revoked retain
is_revoked-Unrevoked [] id h = tt
is_revoked-Unrevoked (r ∷ table) id h = elim (Bool-cases (text_eq r.agent_id id)) [
  | inl here ↦ absurd (ground arith)
  | inr away ↦
      (λ e. ground (arith, text_eq_iff r.agent_id id), is_revoked-Unrevoked table id (ground arith))
]

Unrevoked-is_revoked :
    (table : List Row) (id : Text)
    → All (λ (r : Row). r.agent_id ≢ id) table
    → is_revoked table id ≡ false
unfolding is_revoked retain
Unrevoked-is_revoked [] id h = refl
Unrevoked-is_revoked (r ∷ table) id (apart, h) = elim (Bool-cases (text_eq r.agent_id id)) [
  | inl here ↦ absurd (apart ((text_eq_iff r.agent_id id).0 here))
  | inr away ↦ ground (arith, Unrevoked-is_revoked table id h)
]

pub revoked_in_iff :
    (registry : Option (List Row)) (id : Text)
    → (revoked_in registry id ≡ false) ↔ Unrevoked registry id
unfolding revoked_in
revoked_in_iff none id = (λ e. tt, λ h. refl)
revoked_in_iff (some table) id = (is_revoked-Unrevoked table id, Unrevoked-is_revoked table id)
