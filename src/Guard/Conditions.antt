-- ===== src/Guard/Conditions.antt =====
-- The tests of `handle_authenticate` in terms of what they ask of the state and of the card.
use grokingclawid.Common.{
  All, Bool, Bool-cases, List, Memᴰ, Memᴰ-any, Option, Text, [], all, any, any-Memᴰ, ap, arith,
  ascii, false, inl, inr, last, leb, ltb_ℤ, negsuc, none, pos, refl, some, sym, text_eq,
  text_eq_iff, timestamp, true, ℤ, ◌-ℤ◌, ◌<◌, ◌||◌, ◌↔◌, ◌∷◌, ◌≡◌, ◌≤ℤ◌, ◌⊎◌,
}
use grokingclawid.Models.{CryptoScheme, ed25519, hybrid, ml_dsa_65, scheme_eq}
use grokingclawid.Guard.{GuardState, forgiven, scopes_suffice, throttle, throttled_since}

pub scheme_eq-hybrid_iff : (c : CryptoScheme) → (scheme_eq c hybrid ≡ true) ↔ (c ≡ hybrid)
scheme_eq-hybrid_iff ed25519 = (λ e. absurd (ground arith), λ e. absurd (ground arith))
scheme_eq-hybrid_iff ml_dsa_65 = (λ e. absurd (ground arith), λ e. absurd (ground arith))
scheme_eq-hybrid_iff hybrid = (λ e. refl, λ e. refl)

-- One of the scopes is the one that is required, or one of the two that stand for all.
abbrev pub Grants : List Text → Text → Type 0
Grants scopes required =
    (s : Text) × Memᴰ s scopes × ((s ≡ required) ⊎ ((s ≡ ascii "*") ⊎ (s ≡ ascii "admin")))

Grants-iff :
    (scopes : List Text) (required : Text)
    → (any (λ s. text_eq s required || text_eq s (ascii "*") || text_eq s (ascii "admin")) scopes
        ≡ true)
      ↔ Grants scopes required
Grants-iff scopes required =
    let p : Text → Bool =
      λ s. text_eq s required || text_eq s (ascii "*") || text_eq s (ascii "admin") in
    (
      λ h.
          let (s, m, e) = any-Memᴰ p scopes h in
          (
            s,
            m,
            elim (Bool-cases (text_eq s required)) [
              | inl same ↦ inl ((text_eq_iff s required).0 same)
              | inr other ↦ elim (Bool-cases (text_eq s (ascii "*"))) [
                | inl star ↦ inr (inl ((text_eq_iff s (ascii "*")).0 star))
                | inr no_star ↦ inr (inr ((text_eq_iff s (ascii "admin")).0 (ground arith)))
              ]
            ],
          ),
      λ (s, m, h). Memᴰ-any p m (elim h [
        | inl same ↦ let e = (text_eq_iff s required).1 same in ground arith
        | inr (inl star) ↦ let e = (text_eq_iff s (ascii "*")).1 star in ground arith
        | inr (inr admin) ↦ let e = (text_eq_iff s (ascii "admin")).1 admin in ground arith
      ]),
    )

pub scopes_suffice_iff :
    (allowed scopes : List Text)
    → (scopes_suffice allowed scopes ≡ true) ↔ All (Grants scopes) allowed
unfolding scopes_suffice all
scopes_suffice_iff [] scopes = (λ e. tt, λ h. refl)
scopes_suffice_iff (required ∷ allowed) scopes =
    let this = Grants-iff scopes required in
    let rest = scopes_suffice_iff allowed scopes in
    (
      λ e. (this.0 (ground arith), rest.0 (ground arith)),
      λ (g, h). let a = this.1 g in let b = rest.1 h in ground arith,
    )

-- Fewer than ten failures are counted, or no time of a failure is known, or the last one is at least
-- a minute ago.
abbrev pub MayTry : ℤ → GuardState → Type 0
MayTry instant state =
    (state.auth_failures < 10)
    ⊎ ((state.last_failure_time ≡ none)
        ⊎ ((since : ℤ) × (state.last_failure_time ≡ some since)
            × (pos 60_000_000_000 ≤ℤ (instant -ℤ since))))

minute_iff : (d : ℤ) → (ltb_ℤ (timestamp d) (pos 60) ≡ false) ↔ (pos 60_000_000_000 ≤ℤ d)
unfolding timestamp
minute_iff (pos n) = (λ e. ground arith, λ h. ground arith)
minute_iff (negsuc n) = (λ e. ground arith, λ h. ground arith)

-- What the throttle leaves of a state when it lets an attempt pass.
pub record IsAdmitted (instant : ℤ) (state after : GuardState) : Type 0 where
  pub may_try : MayTry instant state
  pub same_pq : after.require_pq ≡ state.require_pq
  pub same_scopes : after.allowed_scopes ≡ state.allowed_scopes

throttled_since-IsAdmitted :
    (instant : ℤ) (state after : GuardState) (last : Option ℤ)
    → state.last_failure_time ≡ last
    → throttled_since instant state last ≡ some after
    → IsAdmitted instant state after
unfolding throttled_since forgiven
throttled_since-IsAdmitted instant state after none never e =
    let same : state ≡ after = ground arith in
    record {
      may_try = inr (inl never);
      same_pq = ap (λ s. s.require_pq) (sym same);
      same_scopes = ap (λ s. s.allowed_scopes) (sym same);
    }
throttled_since-IsAdmitted instant state after (some since) timed e =
    elim (Bool-cases (ltb_ℤ (timestamp (instant -ℤ since)) (pos 60))) [
      | inl soon ↦
          let refused : none ≡ some after = rw (throttled_since, soon) at e in absurd (ground arith)
      | inr later ↦
          let kept : some (forgiven state) ≡ some after = rw (throttled_since, later) at e in
          let same : forgiven state ≡ after = ground arith in
          record {
            may_try = inr (inr (since, timed, (minute_iff (instant -ℤ since)).0 later));
            same_pq = ap (λ s. s.require_pq) (sym same);
            same_scopes = ap (λ s. s.allowed_scopes) (sym same);
          }
    ]

pub throttle-IsAdmitted :
    (instant : ℤ) (state after : GuardState)
    → throttle instant state ≡ some after
    → IsAdmitted instant state after
unfolding throttle
throttle-IsAdmitted instant state after e = elim (Bool-cases (leb 10 state.auth_failures)) [
  | inl many ↦
      throttled_since-IsAdmitted instant state after state.last_failure_time refl
        (rw (throttle, many) at e)
  | inr few ↦
      let kept : some state ≡ some after = rw (throttle, few) at e in
      let same : state ≡ after = ground arith in
      record {
        may_try = inl (ground arith);
        same_pq = ap (λ s. s.require_pq) (sym same);
        same_scopes = ap (λ s. s.allowed_scopes) (sym same);
      }
]

throttled_since-some :
    (instant : ℤ) (state : GuardState) (last : Option ℤ)
    → state.last_failure_time ≡ last
    → MayTry instant state
    → leb 10 state.auth_failures ≡ true
    → (after : GuardState) × (throttled_since instant state last ≡ some after)
unfolding throttled_since
throttled_since-some instant state none never may many = (state, refl)
throttled_since-some instant state (some since) timed may many = elim may [
  | inl few ↦ absurd (ground arith)
  | inr (inl never) ↦ absurd (ground arith)
  | inr (inr (last, found, late)) ↦
      let same : last ≡ since = ground arith in
      let past = (minute_iff (instant -ℤ since)).1 (rw same at late) in
      (forgiven state, rw (throttled_since, past) refl)
]

-- So the throttle lets every attempt pass that it may.
pub throttle-some :
    (instant : ℤ) (state : GuardState)
    → MayTry instant state
    → (after : GuardState) × (throttle instant state ≡ some after)
unfolding throttle
throttle-some instant state may = elim (Bool-cases (leb 10 state.auth_failures)) [
  | inl many ↦
      let (after, e) = throttled_since-some instant state state.last_failure_time refl may many in
      (after, rw (throttle, many) e)
  | inr few ↦ (state, rw (throttle, few) refl)
]
