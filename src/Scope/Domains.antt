-- ===== src/Scope/Domains.antt =====
-- The allowlist of scope.rs: which hosts pass.
use grokingclawid.Common.{
  Bool-cases, List, Memᴰ, Memᴰ-any, Option, Text, [], any-Memᴰ, arith, before, contains,
  contains_iff, ends_with, ends_with-append, ends_with_sound, inl, inr, none, refl, some, true, ℕ,
  ◌++◌, ◌↔◌, ◌∷◌, ◌≡◌, ◌≢◌, ◌⊎◌,
}
use grokingclawid.Scope.{
  Rate, ScopeConfig, ScopeDecision, admit, after_rate, allow, check_connect, check_rate_limit,
  check_url, connect_decision, domain_allowed, evict, extract_domain, full_rate, panicked,
  url_decision,
}
use grokingclawid.Scope.Window.{Call, connect, handle, is_passed, plain}

-- The host is on the list, or it is a subdomain of one on the list.
pub data Covered (allowed : List Text) (host : Text) : Type 0 where
  exact : Memᴰ host allowed → Covered allowed host
  subdomain :
      (label parent : Text)
      → Memᴰ parent allowed
      → host ≡ label ++ b'.' ∷ parent
      → Covered allowed host

domain_allowed_sound :
    (allowed : List Text) (host : Text) → domain_allowed allowed host ≡ true → Covered allowed host
unfolding domain_allowed
domain_allowed_sound allowed host h = elim (Bool-cases (contains allowed host)) [
  | inl listed ↦ exact ((contains_iff allowed host).0 listed)
  | inr other ↦
      let (a, m, e) = any-Memᴰ (λ a. ends_with host (b'.' ∷ a)) allowed (ground arith) in
      let (p, q) = ends_with_sound host (b'.' ∷ a) e in subdomain p a m q
]

domain_allowed_complete :
    (allowed : List Text) (host : Text) → Covered allowed host → domain_allowed allowed host ≡ true
unfolding domain_allowed
domain_allowed_complete allowed host (exact m) = rw ((contains_iff allowed host).1 m)
domain_allowed_complete allowed host (subdomain p a m e) =
    ground
      (arith, Memᴰ-any (λ a. ends_with host (b'.' ∷ a)) m (rw e (ends_with-append p (b'.' ∷ a))))

connect_decision-allow_iff :
    (allowed : List Text) (host : Text)
    → (connect_decision allowed host ≡ allow) ↔ ((allowed ≡ []) ⊎ Covered allowed host)
unfolding connect_decision
connect_decision-allow_iff [] host = (λ e. inl refl, λ h. refl)
connect_decision-allow_iff (a ∷ more) host = (
  λ e. inr (domain_allowed_sound (a ∷ more) host (ground arith)),
  elim [ inl e ↦ ground arith | inr c ↦ rw (domain_allowed_complete (a ∷ more) host c) ],
)

url_decision-allow_iff :
    (parse_url : Text → Option (Option Text)) (allowed : List Text) (url : Text)
    → (url_decision parse_url allowed url ≡ allow) ↔ (
        (allowed ≡ [])
        ⊎ ((extract_domain parse_url url ≡ []) ⊎ Covered allowed (extract_domain parse_url url)))
unfolding url_decision
url_decision-allow_iff parse_url [] url = (λ e. inl refl, λ h. refl)
url_decision-allow_iff parse_url (a ∷ more) url = go (extract_domain parse_url url) refl
  where
    go :
        (d : Text)
        → extract_domain parse_url url ≡ d
        → (url_decision parse_url (a ∷ more) url ≡ allow) ↔ (
            (a ∷ more ≡ [])
            ⊎ ((extract_domain parse_url url ≡ [])
                ⊎ Covered (a ∷ more) (extract_domain parse_url url)))
    go [] e = (λ _. inr (inl e), λ _. ground arith)
    go (c ∷ d) e = (
      λ h.
          inr (inr (domain_allowed_sound (a ∷ more) (extract_domain parse_url url) (ground arith))),
      elim [
        | inl no_list ↦ ground arith
        | inr (inl no_host) ↦ ground arith
        | inr (inr cov) ↦
            ground (arith, domain_allowed_complete (a ∷ more) (extract_domain parse_url url) cov)
      ],
    )

after_rate-allow_iff :
    (s : ScopeConfig) (r : Rate) (d : ScopeDecision)
    → is_passed r ≡ true
    → (after_rate s r d ≡ some allow) ↔ (d ≡ allow)
unfolding after_rate
after_rate-allow_iff s r d h = ground arith

-- A CONNECT that the limiter lets through is allowed exactly when the allowlist is empty, or the
-- target's host, which is what stands before the first colon, is listed or is a subdomain of a
-- listed domain.
pub connect-allow_iff :
    (s : ScopeConfig) (now : ℕ) (target : Text)
    → is_passed (check_rate_limit s now).0 ≡ true
    → ((check_connect s now target).0 ≡ some allow)
      ↔ ((s.allowed_domains ≡ []) ⊎ Covered s.allowed_domains (before b':' target))
unfolding check_connect
connect-allow_iff s now target h =
    let host = before b':' target in
    let (to, from) =
      after_rate-allow_iff s (check_rate_limit s now).0 (connect_decision s.allowed_domains host)
        h in
    let (sound, complete) = connect_decision-allow_iff s.allowed_domains host in
    (λ e. sound (to e), λ c. from (complete c))

-- A plain request that the limiter lets through is allowed exactly when the allowlist is empty, or
-- the URL yields no host, or its host is listed or is a subdomain of a listed domain.
pub url-allow_iff :
    (parse_url : Text → Option (Option Text)) (s : ScopeConfig) (now : ℕ) (url : Text)
    → is_passed (check_rate_limit s now).0 ≡ true
    → ((check_url parse_url s now url).0 ≡ some allow) ↔ (
        (s.allowed_domains ≡ [])
        ⊎ ((extract_domain parse_url url ≡ [])
            ⊎ Covered s.allowed_domains (extract_domain parse_url url)))
unfolding check_url
url-allow_iff parse_url s now url h =
    let (to, from) =
      after_rate-allow_iff s (check_rate_limit s now).0
        (url_decision parse_url s.allowed_domains url) h in
    let (sound, complete) = url_decision-allow_iff parse_url s.allowed_domains url in
    (λ e. sound (to e), λ c. from (complete c))

admit-ne-panicked :
    (s : ScopeConfig) (now : ℕ) (ts : List ℕ)
    → s.max_requests_per_minute ≢ 0
    → (admit s now ts).0 ≢ panicked
unfolding admit full_rate
admit-ne-panicked s now [] h = ground arith
admit-ne-panicked s now (t ∷ ts) h = ground arith

check_rate_limit-ne-panicked : (s : ScopeConfig) (now : ℕ) → (check_rate_limit s now).0 ≢ panicked
unfolding check_rate_limit
check_rate_limit-ne-panicked s now =
    ground (arith, admit-ne-panicked s now (evict now s.request_timestamps))

after_rate-ne-none :
    (s : ScopeConfig) (r : Rate) (d : ScopeDecision) → r ≢ panicked → after_rate s r d ≢ none
unfolding after_rate
after_rate-ne-none s r d h = ground arith

-- The limiter never panics: a full queue has a front.
pub handle-ne-panic :
    (parse_url : Text → Option (Option Text)) (s : ScopeConfig) (now : ℕ) (c : Call)
    → (handle parse_url s now c).0 ≢ none
unfolding handle check_url check_connect
handle-ne-panic parse_url s now (plain u) =
    after_rate-ne-none s (check_rate_limit s now).0 _ (check_rate_limit-ne-panicked s now)
handle-ne-panic parse_url s now (connect h) =
    after_rate-ne-none s (check_rate_limit s now).0 _ (check_rate_limit-ne-panicked s now)
