-- ===== src/OAuth/Consistent.antt =====
-- What holds of a store after any sequence of registrations, token arrivals and revocations.
use grokingclawid.Common.{
  Bool, Bool-cases, List, Memᴰ, Memᴰ-any, Memᴰ-only, Memᴰ-retain_iff, Option, Option-cases, Text,
  [], any, any-Memᴰ, any-append, any-retain-not, append-Memᴰ, arith, contains, false, inl, inr, not,
  ok, refl, retain, some, suc, sym, text_eq, text_eq_iff, text_eq_sym, true, zero, ℕ, ℤ, ◌++◌, ◌∷◌,
  ◌≡◌,
}
use grokingclawid.OAuth.{
  OAuthRegistration, OAuthStore, RegisterParams, StoredOAuthTokens, cascade_remove, children,
  empty_store, has_registration, oauth_register, oauth_revoke, parent_eq, prune, register_provider,
  registration_of, remove_each, remove_registration, store_tokens,
}
use grokingclawid.OAuth.Revoke.{oauth_revoke-IsCut}

module _ {ℓ} {A : Type ℓ} (key : A → Text) where
  -- No key occurs twice.
  abbrev pub AreDistinct : List A → Type 0
  AreDistinct [] = Unit
  AreDistinct (x ∷ xs) = (any (λ y. text_eq (key y) (key x)) xs ≡ false) × AreDistinct xs

  any-retain : (p q : A → Bool) (xs : List A) → any p xs ≡ false → any p (retain q xs) ≡ false
  unfolding any retain
  any-retain p q [] h = refl
  any-retain p q (x ∷ xs) h = ground (arith, any-retain p q xs)

  pub AreDistinct-retain : (q : A → Bool) (xs : List A) → AreDistinct xs → AreDistinct (retain q xs)
  unfolding retain
  AreDistinct-retain q [] h = tt
  AreDistinct-retain q (x ∷ xs) (apart, h) = elim (Bool-cases (q x)) [
    | inl keep ↦
        rw keep (any-retain (λ y. text_eq (key y) (key x)) q xs apart, AreDistinct-retain q xs h)
    | inr drop ↦ rw drop (AreDistinct-retain q xs h)
  ]

  pub AreDistinct-append :
      (xs : List A) (x : A)
      → AreDistinct xs
      → any (λ y. text_eq (key y) (key x)) xs ≡ false
      → AreDistinct (xs ++ x ∷ [])
  unfolding any
  AreDistinct-append [] x h fresh = (refl, tt)
  AreDistinct-append (y ∷ xs) x (apart, h) fresh = (
    ground
        (arith, any-append (λ z. text_eq (key z) (key y)) xs (x ∷ []), text_eq_sym (key x) (key y)),
    AreDistinct-append xs x h (ground arith),
  )

-- Every token belongs to a registration, no id is registered twice, and no registration has two
-- entries of tokens.
pub record IsConsistent (s : OAuthStore) : Type 0 where
  pub known :
      (k : StoredOAuthTokens) → Memᴰ k s.tokens → has_registration k.registration_id s ≡ true
  pub ids : AreDistinct (λ r. r.id) s.registrations
  pub token_ids : AreDistinct (λ k. k.registration_id) s.tokens

-- One call of a method that changes the store: the flows end in `store_tokens` with what the
-- provider has answered.
pub data Step : OAuthStore → OAuthStore → Type 0 where
  registers :
      {s t : OAuthStore} (params : RegisterParams) (new_v4 : Text) (now : ℤ)
      → oauth_register params new_v4 now s ≡ ok t
      → Step s t
  stores : {s t : OAuthStore} (tokens : StoredOAuthTokens) → store_tokens tokens s ≡ ok t → Step s t
  revokes :
      {s t : OAuthStore} (fuel : ℕ) (id : Text) → oauth_revoke fuel id s ≡ some (ok t) → Step s t

pub data Reachable : OAuthStore → Type 0 where
  created : (agent_id : Text) → Reachable (empty_store agent_id)
  next : {s t : OAuthStore} → Reachable s → Step s t → Reachable t

module _ (P : OAuthStore → Type 0)
    (prunes : (id : Text) (ids : List Text) (s : OAuthStore) → P s → P (prune id ids s)) where
  remove_each-keeps :
      (f : Text → OAuthStore → Option OAuthStore)
      → ((c : Text) (s t : OAuthStore) → f c s ≡ some t → P s → P t)
      → (ids : List Text) (s t : OAuthStore) → remove_each f ids s ≡ some t
      → P s
      → P t
  unfolding remove_each
  remove_each-keeps f keeps [] s t e p = let same : s ≡ t = ground arith in rw (sym same) p
  remove_each-keeps f keeps (c ∷ ids) s t e p = elim (Option-cases (f c s)) [
    | inl stuck ↦ absurd (ground arith)
    | inr (u, done) ↦
        remove_each-keeps f keeps ids u t (rw (remove_each, done) at e) (keeps c s u done p)
  ]

  -- What each pruning keeps, `cascade_remove` keeps.
  cascade_remove-keeps :
      (fuel : ℕ) (id : Text) (s t : OAuthStore) → cascade_remove fuel id s ≡ some t → P s → P t
  unfolding cascade_remove
  cascade_remove-keeps zero id s t e p = absurd (ground arith)
  cascade_remove-keeps (suc fuel) id s t e p =
      let f : Text → OAuthStore → Option OAuthStore = λ c s. cascade_remove fuel c s in
      elim (Option-cases (remove_each f (children id s) s)) [
        | inl stuck ↦ absurd (ground arith)
        | inr (u, done) ↦
            let same : prune id (children id s) u ≡ t = ground arith in
            rw (sym same) (
              prunes id (children id s) u
                (remove_each-keeps f (cascade_remove-keeps fuel) (children id s) s u done p))
      ]

  oauth_revoke-keeps :
      ((id : Text) (s t : OAuthStore) → remove_registration id s ≡ ok t → P s → P t)
      → (fuel : ℕ) (id : Text) (s t : OAuthStore) → oauth_revoke fuel id s ≡ some (ok t)
      → P s
      → P t
  unfolding oauth_revoke
  oauth_revoke-keeps removes fuel id s t e p = elim (Bool-cases (has_registration id s)) [
    | inl there ↦ elim (Option-cases (cascade_remove fuel id s)) [
      | inl stuck ↦ absurd (ground arith)
      | inr (u, done) ↦ removes id u t (ground arith) (cascade_remove-keeps fuel id s u done p)
    ]
    | inr missing ↦ absurd (ground arith)
  ]

-- The keys of both lists, which every operation keeps distinct.
abbrev KeysAreDistinct : OAuthStore → Type 0
KeysAreDistinct s =
    AreDistinct (λ r. r.id) s.registrations × AreDistinct (λ k. k.registration_id) s.tokens

prune-Keys :
    (id : Text) (ids : List Text) (s : OAuthStore)
    → KeysAreDistinct s
    → KeysAreDistinct (prune id ids s)
unfolding prune
prune-Keys id ids s (a, b) = (
  AreDistinct-retain (λ r. r.id) (λ r. not (parent_eq r.parent_registration_id id)) s.registrations
      a,
  AreDistinct-retain (λ k. k.registration_id) (λ t. not (contains ids t.registration_id)) s.tokens
      b,
)

remove_registration-Keys :
    (id : Text) (s t : OAuthStore)
    → remove_registration id s ≡ ok t
    → KeysAreDistinct s
    → KeysAreDistinct t
unfolding remove_registration
remove_registration-Keys id s t e (a, b) = elim (Bool-cases (has_registration id s)) [
  | inl there ↦
      let regs : retain (λ r. not (text_eq r.id id)) s.registrations ≡ t.registrations =
        ground arith in
      let toks : retain (λ k. not (text_eq k.registration_id id)) s.tokens ≡ t.tokens =
        ground arith in
      (
        rw regs at (AreDistinct-retain (λ r. r.id) (λ r. not (text_eq r.id id)) s.registrations a),
        rw toks at (
            AreDistinct-retain (λ k. k.registration_id) (λ k. not (text_eq k.registration_id id))
              s.tokens b),
      )
  | inr missing ↦ absurd (ground arith)
]

-- A token that a revocation keeps has its registration kept.
revokes-IsConsistent :
    (fuel : ℕ) (id : Text) (s t : OAuthStore)
    → oauth_revoke fuel id s ≡ some (ok t)
    → IsConsistent s
    → IsConsistent t
unfolding has_registration
revokes-IsConsistent fuel id s t e h =
    let cut = oauth_revoke-IsCut fuel id s t e in
    let keys =
      oauth_revoke-keeps KeysAreDistinct prune-Keys remove_registration-Keys fuel id s t e
        (h.ids, h.token_ids) in
    record {
      known = λ k m.
          let (there, free) = (cut.tokens_iff k).0 m in
          let (r, in_s, named) =
            any-Memᴰ (λ r. text_eq r.id k.registration_id) s.registrations (h.known k there) in
          let same = (text_eq_iff r.id k.registration_id).0 named in
          Memᴰ-any (λ r. text_eq r.id k.registration_id)
            ((cut.registrations_iff r).1 (in_s, λ gone. free (r, gone, same))) named;
      ids = keys.0;
      token_ids = keys.1;
    }

registers-IsConsistent :
    (params : RegisterParams) (new_v4 : Text) (now : ℤ) (s t : OAuthStore)
    → oauth_register params new_v4 now s ≡ ok t
    → IsConsistent s
    → IsConsistent t
unfolding oauth_register register_provider has_registration
registers-IsConsistent params new_v4 now s t e h =
    let reg : OAuthRegistration = registration_of params new_v4 now in
    elim (Bool-cases (has_registration reg.id s)) [
      | inl taken ↦ absurd (ground arith)
      | inr fresh ↦
          let regs : s.registrations ++ reg ∷ [] ≡ t.registrations = ground arith in
          let toks : s.tokens ≡ t.tokens = ground arith in
          record {
            known = λ k m.
                let old = h.known k (rw (sym toks) at m) in
                rw (sym regs) (
                  ground (
                    arith,
                    any-append (λ r. text_eq r.id k.registration_id) s.registrations (reg ∷ []),
                    old,
                  ));
            ids = rw regs at (AreDistinct-append (λ r. r.id) s.registrations reg h.ids fresh);
            token_ids = rw toks at h.token_ids;
          }
    ]

stores-IsConsistent :
    (tokens : StoredOAuthTokens) (s t : OAuthStore)
    → store_tokens tokens s ≡ ok t
    → IsConsistent s
    → IsConsistent t
unfolding store_tokens has_registration
stores-IsConsistent tokens s t e h = elim (Bool-cases (has_registration tokens.registration_id s)) [
  | inl there ↦
      let other : StoredOAuthTokens → Bool =
        λ k. not (text_eq k.registration_id tokens.registration_id) in
      let regs : s.registrations ≡ t.registrations = ground arith in
      let toks : retain other s.tokens ++ tokens ∷ [] ≡ t.tokens = ground arith in
      record {
        known = λ k m.
            elim (append-Memᴰ k (retain other s.tokens) (tokens ∷ []) (rw (sym toks) at m)) [
              | inl old ↦ rw regs at (h.known k ((Memᴰ-retain_iff other k s.tokens).0 old).0)
              | inr new ↦ let same : k ≡ tokens = Memᴰ-only new in rw (same, sym regs) there
            ];
        ids = rw regs at h.ids;
        token_ids = rw toks at (
            AreDistinct-append (λ k. k.registration_id) (retain other s.tokens) tokens
              (AreDistinct-retain (λ k. k.registration_id) other s.tokens h.token_ids)
              (any-retain-not (λ k. text_eq k.registration_id tokens.registration_id) s.tokens));
      }
  | inr missing ↦ absurd (ground arith)
]

-- In every store that the methods reach, from an empty one and with whatever the providers answer,
-- each token belongs to a registration that is there, no two registrations have the same id, and no
-- registration has two entries of tokens.
pub Reachable-IsConsistent : (s : OAuthStore) → Reachable s → IsConsistent s
unfolding empty_store
Reachable-IsConsistent _ (created id) = record {
  known = λ k m. elim m [ ];
  ids = tt;
  token_ids = tt;
}
Reachable-IsConsistent t (next {s} r (registers params new_v4 now e)) =
    registers-IsConsistent params new_v4 now s t e (Reachable-IsConsistent s r)
Reachable-IsConsistent t (next {s} r (stores tokens e)) =
    stores-IsConsistent tokens s t e (Reachable-IsConsistent s r)
Reachable-IsConsistent t (next {s} r (revokes fuel id e)) =
    revokes-IsConsistent fuel id s t e (Reachable-IsConsistent s r)
