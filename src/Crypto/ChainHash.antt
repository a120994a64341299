-- ===== src/Crypto/ChainHash.antt =====
-- The text that is hashed for an audit entry determines the entry's fields, where these hold no NUL.
use grokingclawid.Common.{
  All, Avoids, Bool-cases, Bytes, Text, [], inl, inr, sep-injective, text_eq, text_eq_iff, ℤ, ◌∷◌,
  ◌≡◌, ◌≢◌, ◌⊎◌,
}
use grokingclawid.Common.Decimal.{show_ℤ-injective}
use grokingclawid.Crypto.{Primitives, chain_input, compute_chain_hash, sha256_hex}

-- Two different byte strings with one SHA-256 text.
pub data Collision (P : Primitives) : Type 0 where
  collision : (x y : Bytes) → x ≢ y → sha256_hex P x ≡ sha256_hex P y → Collision P

pub record SameFields (p a c t : Text) (n : ℤ) (p' a' c' t' : Text) (n' : ℤ) : Type 0 where
  pub prev_hash : p ≡ p'
  pub agent_id : a ≡ a'
  pub action : c ≡ c'
  pub target : t ≡ t'
  pub timestamp : n ≡ n'

module _ (P : Primitives) where
  chain_input-injective :
      (p a c t : Text) (n : ℤ) (p' a' c' t' : Text) (n' : ℤ)
      → All (Avoids 0) (p ∷ a ∷ c ∷ t ∷ [])
      → All (Avoids 0) (p' ∷ a' ∷ c' ∷ t' ∷ [])
      → chain_input P p a c t n ≡ chain_input P p' a' c' t' n'
      → SameFields p a c t n p' a' c' t' n'
  unfolding chain_input
  chain_input-injective p a c t n p' a' c' t' n' (hp, (ha, (hc, (ht, _)))) (kp, (ka, (kc, (kt, _))))
        e =
      let (e₁, r₁) = sep-injective 0 p p' _ _ hp kp e in
      let (e₂, r₂) = sep-injective 0 a a' _ _ ha ka r₁ in
      let (e₃, r₃) = sep-injective 0 c c' _ _ hc kc r₂ in
      let (e₄, r₄) = sep-injective 0 t t' _ _ ht kt r₃ in
      record {
        prev_hash = e₁;
        agent_id = e₂;
        action = e₃;
        target = e₄;
        timestamp = show_ℤ-injective n n' r₄;
      }

  -- Entries with one chain hash, whose fields hold no NUL, have the same fields, or two inputs of
  -- SHA-256 are at hand that collide.
  pub compute_chain_hash_binding :
      (p a c t : Text) (n : ℤ) (p' a' c' t' : Text) (n' : ℤ)
      → All (Avoids 0) (p ∷ a ∷ c ∷ t ∷ [])
      → All (Avoids 0) (p' ∷ a' ∷ c' ∷ t' ∷ [])
      → compute_chain_hash P p a c t n ≡ compute_chain_hash P p' a' c' t' n'
      → Collision P ⊎ SameFields p a c t n p' a' c' t' n'
  unfolding compute_chain_hash
  compute_chain_hash_binding p a c t n p' a' c' t' n' h k e =
      let x = chain_input P p a c t n in
      let y = chain_input P p' a' c' t' n' in
      elim (Bool-cases (text_eq x y)) [
        | inl same ↦
            inr (chain_input-injective p a c t n p' a' c' t' n' h k ((text_eq_iff x y).0 same))
        | inr other ↦ inl (collision x y (λ q. cc ((text_eq_iff x y).1 q)) e)
      ]
