-- ===== src/OAuth/Delegation.antt =====
-- The checks of a delegation, `validate_delegation_scopes` and `validate_delegation_domains`.
use grokingclawid.Common.{
  Bool-cases, Error, List, Memᴰ, Text, [], arith, contains, contains_iff, domain_outside_parent,
  inl, inr, ok, refl, scope_outside_parent, true, ◌↔◌, ◌∷◌, ◌≡◌,
}
use grokingclawid.OAuth.{all_held, validate_delegation_domains, validate_delegation_scopes}

all_held_iff :
    (why : Error) (held xs : List Text)
    → (all_held why held xs ≡ ok tt) ↔ ((x : Text) → Memᴰ x xs → Memᴰ x held)
unfolding all_held
all_held_iff why held [] = (λ e x m. elim m [ ], λ h. refl)
all_held_iff why held (x ∷ xs) = elim (Bool-cases (contains held x)) [
  | inl here ↦ (
    λ e y m. elim m [
      | Memᴰ.head same ↦ rw same ((contains_iff held x).0 here)
      | Memᴰ.tail k ↦ (all_held_iff why held xs).0 (rw (all_held, here) at e) y k
    ],
    λ h. rw (all_held, here) ((all_held_iff why held xs).1 (λ y m. h y (Memᴰ.tail m))),
  )
  | inr away ↦ (
    λ e. absurd (ground arith),
    λ h.
        let there : contains held x ≡ true = (contains_iff held x).1 (h x (Memᴰ.head refl)) in
        absurd (ground arith),
  )
]

-- A delegation is valid exactly when each scope, and each domain, that it asks for is one of the
-- parent's.
pub validate_delegation_iff :
    (parent_scopes scopes parent_domains domains : List Text)
    → ((validate_delegation_scopes parent_scopes scopes ≡ ok tt)
        ↔ ((x : Text) → Memᴰ x scopes → Memᴰ x parent_scopes))
      × ((validate_delegation_domains parent_domains domains ≡ ok tt)
          ↔ ((x : Text) → Memᴰ x domains → Memᴰ x parent_domains))
unfolding validate_delegation_scopes validate_delegation_domains
validate_delegation_iff parent_scopes scopes parent_domains domains = (
  all_held_iff scope_outside_parent parent_scopes scopes,
  all_held_iff domain_outside_parent parent_domains domains,
)
