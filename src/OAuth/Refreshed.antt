-- ===== src/OAuth/Refreshed.antt =====
-- What a refresh leaves in the store.
use grokingclawid.Common.{
  Bool, Bool-cases, List, Option-cases, Result, Result-cases, Text, [], ap, arith, err, false, find,
  find-Memᴰ, inl, inr, not, ok, or_else, refl, retain, some, sym, text_eq, text_eq_iff,
  text_eq_refl, text_eq_sym, true, ℤ, ◌++◌, ◌>>=◌, ◌∙◌, ◌∷◌, ◌≡◌,
}
use grokingclawid.OAuth.{
  OAuthRegistration, OAuthStore, StoredOAuthTokens, get_registration, get_tokens, has_registration,
  store_tokens,
}
use grokingclawid.OAuth.Flow.{
  Reader, Response, exchange, keep_refresh, oauth_refresh, parse_token_response, refresh_token,
}

module _ {ℓ} {A : Type ℓ} where
  -- An element that takes the place of those that `p` holds of is found by `p`.
  find-replaced :
      (p : A → Bool) (x : A) (xs : List A)
      → p x ≡ true
      → find p (retain (λ y. not (p y)) xs ++ x ∷ []) ≡ some x
  unfolding find retain
  find-replaced p x [] h = rw h refl
  find-replaced p x (y ∷ xs) h = ground (arith, find-replaced p x xs h)

  find-others :
      (p q : A → Bool) (x : A) (xs : List A)
      → ((y : A) → q y ≡ true → p y ≡ false)
      → q x ≡ false
      → find q (retain (λ y. not (p y)) xs ++ x ∷ []) ≡ find q xs
  unfolding find retain
  find-others p q x [] h k = rw k refl
  find-others p q x (y ∷ xs) h k = ground (arith, h y, find-others p q x xs h k)

-- What `store_tokens` stores is found, and the tokens of other registrations are as before.
pub store_tokens-get_tokens :
    (tokens : StoredOAuthTokens) (other : Text) (s t : OAuthStore)
    → store_tokens tokens s ≡ ok t
    → text_eq tokens.registration_id other ≡ false
    → (get_tokens tokens.registration_id t ≡ some tokens)
      × (get_tokens other t ≡ get_tokens other s)
unfolding store_tokens get_tokens
store_tokens-get_tokens tokens other s t e apart =
    let p : StoredOAuthTokens → Bool = λ k. text_eq k.registration_id tokens.registration_id in
    let q : StoredOAuthTokens → Bool = λ k. text_eq k.registration_id other in
    elim (Bool-cases (has_registration tokens.registration_id s)) [
      | inl there ↦
          let toks : retain (λ k. not (p k)) s.tokens ++ tokens ∷ [] ≡ t.tokens = ground arith in
          (
            rw (sym toks) (find-replaced p tokens s.tokens (text_eq_refl tokens.registration_id)),
            rw (sym toks) (
                find-others p q tokens s.tokens
                  (λ k h.
                    rw ((text_eq_iff k.registration_id other).0 h)
                      (text_eq_sym other tokens.registration_id ∙ apart))
                  apart),
          )
      | inr missing ↦ absurd (ground arith)
    ]

get_registration_id :
    (id : Text) (s : OAuthStore) (reg : OAuthRegistration)
    → get_registration id s ≡ some reg
    → reg.id ≡ id
unfolding get_registration
get_registration_id id s reg e =
    (text_eq_iff reg.id id).0 (find-Memᴰ (λ r. text_eq r.id id) reg s.registrations e).1

-- The end of `oauth_refresh`.
abbrev store_new : StoredOAuthTokens → OAuthStore → Result (StoredOAuthTokens × OAuthStore)
store_new new s = do after ← store_tokens new s; ok (new, after)

stored_by :
    (new k : StoredOAuthTokens) (s t : OAuthStore)
    → store_new new s ≡ ok (k, t)
    → (new ≡ k) × (store_tokens new s ≡ ok t)
stored_by new k s t e = elim (Result-cases (store_tokens new s)) [
  | inl (why, failed) ↦ absurd (ground arith)
  | inr (u, done) ↦ (ground arith, ground arith)
]

module _ (R : Reader) where
  refresh_token_inv :
      (reg : OAuthRegistration) (old : Text) (answer : Result Response) (now : ℤ)
      (k : StoredOAuthTokens)
      → refresh_token R reg old answer now ≡ ok k
      → (k.registration_id ≡ reg.id) × (value : Text) × (k.refresh_token ≡ some value)
  unfolding refresh_token exchange parse_token_response keep_refresh
  refresh_token_inv reg old (err why) now k e = absurd (ground arith)
  refresh_token_inv reg old (ok resp) now k e = elim (Bool-cases resp.is_success) [
    | inl good ↦ elim (Option-cases (R.token_response resp.body)) [
      | inl bad ↦ absurd (ground arith)
      | inr (tokens, parsed) ↦ (ground arith, or_else tokens.refresh_token old, ground arith)
    ]
    | inr bad ↦ absurd (ground arith)
  ]

  -- After a refresh that succeeds, the store has the new tokens for the registration, and a refresh
  -- token among them, so that a next refresh is possible; the tokens of every other registration are
  -- as before. In particular there were tokens with a refresh token.
  pub oauth_refresh-get_tokens :
      (id other : Text) (answer : Result Response) (now : ℤ) (s t : OAuthStore)
      (k : StoredOAuthTokens)
      → oauth_refresh R id answer now s ≡ ok (k, t)
      → text_eq id other ≡ false
      → (get_tokens id t ≡ some k)
        × (get_tokens other t ≡ get_tokens other s)
        × ((value : Text) × (k.refresh_token ≡ some value))
        × (old : StoredOAuthTokens) × (value : Text) × (get_tokens id s ≡ some old)
        × (old.refresh_token ≡ some value)
  unfolding oauth_refresh get_registration
  oauth_refresh-get_tokens id other answer now s t k e apart =
      elim (Option-cases (get_registration id s)) [
        | inl gone ↦ absurd (ground arith)
        | inr (reg, found) ↦ elim (Option-cases (get_tokens id s)) [
          | inl empty ↦ absurd (ground arith)
          | inr (old, held) ↦ elim (Option-cases old.refresh_token) [
            | inl final ↦ absurd (ground arith)
            | inr (value, usable) ↦ elim (Result-cases (refresh_token R reg value answer now)) [
              | inl (why, failed) ↦ absurd (ground arith)
              | inr (new, good) ↦
                  let (named, later, fresh) = refresh_token_inv reg value answer now new good in
                  let (same, stored) =
                    stored_by new k s t (rw (oauth_refresh, found, held, usable, good) at e) in
                  let place : new.registration_id ≡ id =
                    named ∙ get_registration_id id s reg found in
                  let (mine, theirs) =
                    store_tokens-get_tokens new other s t stored (rw place apart) in
                  (
                    ap (λ x. get_tokens x t) (sym place) ∙ mine ∙ ap (λ x. some x) same,
                    theirs,
                    (later, rw same at fresh),
                    old,
                    value,
                    held,
                    usable,
                  )
            ]
          ]
        ]
      ]
