-- ===== src/OAuth/Revoke.antt =====
-- `oauth_register` and `oauth_revoke` of crates/grokingclaw-daemon/src/daemon.rs: which registrations
-- leave a store whose revocations return, and what a revocation removes.
use grokingclawid.Common.{
  Bool, Bool-cases, Memᴰ, Memᴰ-any, Memᴰ-append, Memᴰ-only, Memᴰ-retain_iff, Option, Option-cases,
  Text, [], any-Memᴰ, append-Memᴰ, arith, false, if◌then◌else◌, inl, inr, none, not, ok, or_else,
  refl, retain, some, suc, sym, text_apart_iff, text_eq, text_eq_iff, text_eq_refl, true, ℕ, ℤ,
  ◌++◌, ◌<◌, ◌∙◌, ◌∷◌, ◌≡◌, ◌⊎◌,
}
use grokingclawid.OAuth.{
  OAuthRegistration, OAuthStore, RegisterParams, StoredOAuthTokens, cascade_remove,
  has_registration, oauth_register, oauth_revoke, parent_eq, register_provider, registration_of,
  remove_registration,
}
use grokingclawid.OAuth.Cascade.{Descends, IsCut, cascade_remove-IsCut}
use grokingclawid.OAuth.Cyclic.{Descends-Ranks, Ranks, cascade_remove-none, cascade_remove_total}

parent_apart :
    (o : Option Text) (p q : Text)
    → parent_eq o p ≡ true
    → parent_eq o q ≡ false
    → text_eq p q ≡ false
parent_apart o p q h k = elim (Bool-cases (text_eq p q)) [
  | inl e ↦ let same : p ≡ q = (text_eq_iff p q).0 e in absurd (ground arith)
  | inr away ↦ away
]

-- A registration that names a parent other than itself, and that no registration names as its
-- parent yet, keeps the parents ranked.
pub register_provider-Ranks :
    (rank : Text → ℕ) (reg : OAuthRegistration) (s t : OAuthStore)
    → Ranks rank s.registrations
    → parent_eq reg.parent_registration_id reg.id ≡ false
    → ((r : OAuthRegistration)
        → Memᴰ r s.registrations
        → parent_eq r.parent_registration_id reg.id ≡ false)
    → register_provider reg s ≡ ok t
    → (wider : Text → ℕ) × Ranks wider t.registrations
unfolding register_provider
register_provider-Ranks rank reg s t ranks apart unnamed e =
    let grown : s.registrations ++ reg ∷ [] ≡ t.registrations = ground arith in
    (
      λ x. if text_eq x reg.id then 0 else suc (rank x),
      λ r p m under. elim (append-Memᴰ r s.registrations (reg ∷ []) (rw (sym grown) at m)) [
        | inl old ↦
            let away = parent_apart r.parent_registration_id p reg.id under (unnamed r old) in
            rw away (ground (arith, ranks r p old under))
        | inr new ↦
            let same : r ≡ reg = Memᴰ-only new in
            let own : parent_eq r.parent_registration_id reg.id ≡ false = rw same apart in
            let away = parent_apart r.parent_registration_id p reg.id under own in
            let here : text_eq r.id reg.id ≡ true = rw same (text_eq_refl reg.id) in
            rw (away, here) (omega arith)
      ],
    )

-- Cutting twice.
IsCut-trans :
    {P Q : OAuthRegistration → Type 0} {s u t : OAuthStore}
    → IsCut P s u
    → IsCut Q u t
    → IsCut (λ r. Q r ⊎ P r) s t
IsCut-trans one more = record {
  registrations_iff = λ r. (
    λ m.
        let (k, other) = (more.registrations_iff r).0 m in
        let (there, free) = (one.registrations_iff r).0 k in
        (there, λ either. elim either [ inl q ↦ other q | inr p ↦ free p ]),
    λ (m, free).
        (more.registrations_iff r).1
          ((one.registrations_iff r).1 (m, λ p. free (inr p)), λ q. free (inl q)),
  );
  tokens_iff = λ k. (
    λ m.
        let (l, other) = (more.tokens_iff k).0 m in
        let (there, free) = (one.tokens_iff k).0 l in
        (there, λ (r, either, e). elim either [ inl q ↦ other (r, q, e) | inr p ↦ free (r, p, e) ]),
    λ (m, free). (more.tokens_iff k).1 (
      (one.tokens_iff k).1 (m, λ (r, p, e). free (r, inr p, e)),
      λ (r, q, e). free (r, inl q, e),
    ),
  );
}

pub remove_registration-IsCut :
    (id : Text) (s t : OAuthStore) → remove_registration id s ≡ ok t → IsCut (λ r. r.id ≡ id) s t
unfolding remove_registration has_registration
remove_registration-IsCut id s t e = elim (Bool-cases (has_registration id s)) [
  | inl there ↦
      let (q, m, named) = any-Memᴰ (λ r. text_eq r.id id) s.registrations there in
      let keep_r : OAuthRegistration → Bool = λ r. not (text_eq r.id id) in
      let keep_k : StoredOAuthTokens → Bool = λ k. not (text_eq k.registration_id id) in
      let regs : retain keep_r s.registrations ≡ t.registrations = ground arith in
      let toks : retain keep_k s.tokens ≡ t.tokens = ground arith in
      record {
        registrations_iff = λ r. rw (sym regs) (
          λ k.
              let (there, away) = (Memᴰ-retain_iff keep_r r s.registrations).0 k in
              (there, (text_apart_iff r.id id).0 away),
          λ (k, free).
              (Memᴰ-retain_iff keep_r r s.registrations).1 (k, (text_apart_iff r.id id).1 free),
        );
        tokens_iff = λ k. rw (sym toks) (
          λ l.
              let (there, away) = (Memᴰ-retain_iff keep_k k s.tokens).0 l in
              (there, λ (r, same, e). (text_apart_iff k.registration_id id).0 away (sym e ∙ same)),
          λ (l, free). (Memᴰ-retain_iff keep_k k s.tokens).1 (
            l,
            (text_apart_iff k.registration_id id).1
                (λ e. let same = (text_eq_iff q.id id).0 named in free (q, same, same ∙ sym e)),
          ),
        );
      }
  | inr missing ↦ absurd (ground arith)
]

-- When `oauth_revoke` succeeds, the registration is gone with all that descend from it, and so are
-- their tokens; everything else is kept.
pub oauth_revoke-IsCut :
    (fuel : ℕ) (id : Text) (s t : OAuthStore)
    → oauth_revoke fuel id s ≡ some (ok t)
    → IsCut (λ r. (r.id ≡ id) ⊎ Descends s.registrations id r) s t
unfolding oauth_revoke
oauth_revoke-IsCut fuel id s t e = elim (Bool-cases (has_registration id s)) [
  | inl there ↦ elim (Option-cases (cascade_remove fuel id s)) [
    | inl stuck ↦ absurd (ground arith)
    | inr (u, done) ↦
        IsCut-trans (cascade_remove-IsCut fuel id s u done)
          (remove_registration-IsCut id u t (ground arith))
  ]
  | inr missing ↦ absurd (ground arith)
]

-- A registration outlives the removal of its descendants, when it is not one of them.
still :
    (rank : Text → ℕ) (fuel : ℕ) (id : Text) (s u : OAuthStore)
    → Ranks rank s.registrations
    → cascade_remove fuel id s ≡ some u
    → has_registration id s ≡ true
    → has_registration id u ≡ true
unfolding has_registration
still rank fuel id s u ranks done there =
    let (r, m, named) = any-Memᴰ (λ r. text_eq r.id id) s.registrations there in
    let same : r.id ≡ id = (text_eq_iff r.id id).0 named in
    let cut = cascade_remove-IsCut fuel id s u done in
    let apart : ¬ Descends s.registrations id r = λ d.
      let lower : rank r.id < rank id = Descends-Ranks rank ranks d in
      let less : rank id < rank id = rw same at lower in omega arith in
    Memᴰ-any (λ r. text_eq r.id id) ((cut.registrations_iff r).1 (m, apart)) named

-- Over ranked parents, `oauth_revoke` of a registration that the store has returns, and succeeds.
pub oauth_revoke_total :
    (rank : Text → ℕ) (fuel : ℕ) (id : Text) (s : OAuthStore)
    → Ranks rank s.registrations
    → rank id < fuel
    → has_registration id s ≡ true
    → (t : OAuthStore) × (oauth_revoke fuel id s ≡ some (ok t))
unfolding oauth_revoke remove_registration
oauth_revoke_total rank fuel id s ranks h there =
    let (u, done) = cascade_remove_total rank fuel id s ranks h in
    let left : has_registration id u ≡ true = still rank fuel id s u ranks done there in
    (
      record u {
        registrations = retain (λ r. not (text_eq r.id id)) u.registrations;
        tokens = retain (λ k. not (text_eq k.registration_id id)) u.tokens;
      },
      rw (there, done, remove_registration, left) refl,
    )

is_there :
    (r : OAuthRegistration) (s : OAuthStore) {id : Text}
    → Memᴰ r s.registrations
    → r.id ≡ id
    → has_registration id s ≡ true
unfolding has_registration
is_there r s {id} m e = Memᴰ-any (λ r. text_eq r.id id) m ((text_eq_iff r.id id).1 e)

register_fresh :
    (reg : OAuthRegistration) (s : OAuthStore)
    → has_registration reg.id s ≡ false
    → register_provider reg s ≡ ok (record s { registrations = s.registrations ++ reg ∷ [] })
unfolding register_provider
register_fresh reg s fresh = rw (register_provider, fresh) refl

-- A registration under a fresh id that names itself as its parent is accepted, and from then on
-- `oauth_revoke` of it does not return, with whatever fuel.
pub oauth_revoke-none :
    (params : RegisterParams) (new_v4 : Text) (now : ℤ) (id : Text) (s : OAuthStore)
    → params.registration_id ≡ some id
    → params.parent_registration_id ≡ some id
    → has_registration id s ≡ false
    → (t : OAuthStore) × (oauth_register params new_v4 now s ≡ ok t)
      × ((fuel : ℕ) → oauth_revoke fuel id t ≡ none)
unfolding oauth_revoke oauth_register register_provider registration_of or_else parent_eq
oauth_revoke-none params new_v4 now id s named own fresh =
    let reg : OAuthRegistration = registration_of params new_v4 now in
    let t : OAuthStore = record s { registrations = s.registrations ++ reg ∷ [] } in
    let same : reg.id ≡ id = rw (or_else, named) refl in
    let under : parent_eq reg.parent_registration_id id ≡ true =
      rw (parent_eq, own) (text_eq_refl id) in
    let m : Memᴰ reg t.registrations = Memᴰ-append s.registrations (Memᴰ.head refl) in
    let here : has_registration id t ≡ true = is_there reg t m same in
    let own_id : parent_eq reg.parent_registration_id reg.id ≡ true =
      rw (parent_eq, own, same) (text_eq_refl id) in
    (
      t,
      register_fresh reg s (rw same fresh),
      λ fuel.
          rw
            (
              here,
              cascade_remove-none fuel id t reg (Descends.child m under) (Descends.child m own_id),
            )
            refl,
    )
