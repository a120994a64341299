-- ===== src/TokenCache/Served.antt =====
-- Which tokens `get_token` gives to a request.
use grokingclawid.Common.{
  Bool, Bool-cases, Memᴰ, Memᴰ-retain_iff, Option, Option-cases, Result, Result-cases, Text, ap,
  arith, err, false, find-Memᴰ, inl, inr, lookup, lookup-insert, lookup-insert_other, none, not, ok,
  refl, retain, some, text_eq, text_eq_sym, true, ℤ, ◌<ℤ◌, ◌∙◌, ◌≡◌, ◌≤ℤ◌, ◌⊎◌,
}
use grokingclawid.TokenCache.{
  CachedOAuthToken, OAuthDomainBinding, TokenCache, domain_matches, find_binding, get_token,
  is_hard_expired, refresh_now, refresh_token, refreshed, remove_bindings, serve, update_token,
}

-- A token that is given was cached for the first binding whose pattern matches the domain. It is not
-- expired and the cache stays as it is; or the cached one is expired, the token is the one that the
-- daemon has just given for the registration, and it is in the cache now.
pub record IsServed (daemon : Text → Result CachedOAuthToken) (now : ℤ) (domain : Text)
    (cache : TokenCache) (t : CachedOAuthToken) (after : TokenCache) (b : OAuthDomainBinding)
    : Type 0 where
  pub bound : Memᴰ b cache.bindings
  pub matches : domain_matches b.domain domain ≡ true
  pub old : CachedOAuthToken
  pub cached : lookup b.registration_id cache.tokens ≡ some old
  pub fresh :
      ((t ≡ old) × (now <ℤ old.expires_at) × (after ≡ cache))
      ⊎ ((old.expires_at ≤ℤ now)
          × (daemon b.registration_id ≡ ok t)
          × (lookup b.registration_id after.tokens ≡ some t))

served_from :
    (daemon : Text → Result CachedOAuthToken) (now : ℤ) (id : Text) (old t : CachedOAuthToken)
    (cache : TokenCache)
    → (serve daemon now id (some old) cache).token ≡ some t
    → ((t ≡ old) × (now <ℤ old.expires_at) × ((serve daemon now id (some old) cache).cache ≡ cache))
      ⊎ ((old.expires_at ≤ℤ now)
          × (daemon id ≡ ok t)
          × (lookup id (serve daemon now id (some old) cache).cache.tokens ≡ some t))
unfolding serve refresh_now refresh_token update_token is_hard_expired
served_from daemon now id old t cache e = elim (Bool-cases (is_hard_expired now old)) [
  | inl dead ↦ elim (Result-cases (daemon id)) [
    | inl (why, failed) ↦ absurd (ground arith)
    | inr (new, answered) ↦
        let same : new ≡ t = ground arith in
        inr (
          ground arith,
          ground arith,
          rw (serve, dead, refresh_now, refresh_token, answered, update_token)
              (lookup-insert id new cache.tokens ∙ ap (λ x. some x) same),
        )
  ]
  | inr alive ↦ inl (ground arith, ground arith, rw (serve, alive) refl)
]

-- A request is given a token only as `IsServed` has it: from the first binding that matches its
-- domain, and never one that was expired in the cache: for an expired one it is given what the daemon
-- answers to a refresh, if it answers.
pub get_token-IsServed :
    (daemon : Text → Result CachedOAuthToken) (now : ℤ) (domain : Text) (cache : TokenCache)
    (t : CachedOAuthToken)
    → (get_token daemon now domain cache).token ≡ some t
    → (b : OAuthDomainBinding) × (find_binding domain cache ≡ some b)
      × IsServed daemon now domain cache t (get_token daemon now domain cache).cache b
unfolding get_token find_binding serve
get_token-IsServed daemon now domain cache t e = elim (Option-cases (find_binding domain cache)) [
  | inl unbound ↦ absurd (ground arith)
  | inr (b, found) ↦
      let p : OAuthDomainBinding → Bool = λ b. domain_matches b.domain domain in
      let (m, good) = find-Memᴰ p b cache.bindings found in
      elim (Option-cases (lookup b.registration_id cache.tokens)) [
        | inl empty ↦
            let nothing : none ≡ some t = rw (get_token, found, empty) at e in absurd (ground arith)
        | inr (old, cached) ↦ (
          b,
          found,
          record {
            bound = m;
            matches = good;
            old = old;
            cached = cached;
            fresh =
                rw (get_token, found, cached)
                  (served_from daemon now b.registration_id old t cache
                    (rw (get_token, found, cached) at e));
          },
        )
      ]
]

find_binding-remove_bindings :
    (domain id : Text) (cache : TokenCache) (b : OAuthDomainBinding)
    → find_binding domain (remove_bindings id cache) ≡ some b
    → text_eq id b.registration_id ≡ false
unfolding find_binding remove_bindings
find_binding-remove_bindings domain id cache b e =
    let p : OAuthDomainBinding → Bool = λ b. domain_matches b.domain domain in
    let q : OAuthDomainBinding → Bool = λ b. not (text_eq b.registration_id id) in
    let (m, good) = find-Memᴰ p b (retain q cache.bindings) e in
    let (k, other) = (Memᴰ-retain_iff q b cache.bindings).0 m in
    ground (arith, text_eq_sym id b.registration_id)

-- The token of a request depends on what is cached for the registration of its binding only.
served_same :
    (daemon : Text → Result CachedOAuthToken) (now : ℤ) (id : Text)
    (found : Option CachedOAuthToken) (c d : TokenCache)
    → (serve daemon now id found c).token ≡ (serve daemon now id found d).token
unfolding serve refresh_now refresh_token
served_same daemon now id none c d = refl
served_same daemon now id (some old) c d = elim (Result-cases (daemon id)) [
  | inl (why, failed) ↦ elim (Bool-cases (is_hard_expired now old)) [
    | inl dead ↦ rw (serve, dead, refresh_now, refresh_token, failed) refl
    | inr alive ↦ rw (serve, alive) refl
  ]
  | inr (new, answered) ↦ elim (Bool-cases (is_hard_expired now old)) [
    | inl dead ↦ rw (serve, dead, refresh_now, refresh_token, answered) refl
    | inr alive ↦ rw (serve, alive) refl
  ]
]

get_token_same :
    (daemon : Text → Result CachedOAuthToken) (now : ℤ) (domain id : Text) (new : CachedOAuthToken)
    (cache : TokenCache) (o : Option OAuthDomainBinding)
    → find_binding domain cache ≡ o
    → ((b : OAuthDomainBinding) → o ≡ some b → text_eq id b.registration_id ≡ false)
    → (get_token daemon now domain (update_token id new cache)).token
      ≡ (get_token daemon now domain cache).token
unfolding get_token find_binding update_token
get_token_same daemon now domain id new cache none found apart = rw (get_token, found) refl
get_token_same daemon now domain id new cache (some b) found apart =
    rw (get_token, found, lookup-insert_other id b.registration_id new cache.tokens (apart b refl))
      (served_same daemon now b.registration_id (lookup b.registration_id cache.tokens)
        (update_token id new cache) cache)

-- Once the bindings of a registration are removed, a refresh of it that was still under way changes
-- no request's token, whatever the daemon answers.
pub get_token-refreshed :
    (daemon : Text → Result CachedOAuthToken) (now : ℤ) (domain id : Text) (cache : TokenCache)
    (answer : Result CachedOAuthToken)
    → (get_token daemon now domain (refreshed id answer (remove_bindings id cache))).token
      ≡ (get_token daemon now domain (remove_bindings id cache)).token
unfolding refreshed
get_token-refreshed daemon now domain id cache (err why) = refl
get_token-refreshed daemon now domain id cache (ok new) =
    let removed = remove_bindings id cache in
    get_token_same daemon now domain id new removed (find_binding domain removed) refl
      (find_binding-remove_bindings domain id cache)
