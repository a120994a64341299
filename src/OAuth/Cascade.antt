-- ===== src/OAuth/Cascade.antt =====
-- What `cascade_remove` removes: the registrations that descend from the given one, and their tokens.
use grokingclawid.Common.{
  Bool, Bool-cases, List, Memᴰ, Memᴰ-map, Memᴰ-retain_iff, Option, Option-cases, Text, [], any,
  arith, contains, contains_iff, inl, inr, map-Memᴰ, not, refl, retain, some, suc, sym, true, zero,
  ℕ, ◌↔◌, ◌∷◌, ◌≡◌, ◌⊎◌,
}
use grokingclawid.OAuth.{
  OAuthRegistration, OAuthStore, StoredOAuthTokens, cascade_remove, children, parent_eq, prune,
  remove_each,
}

-- `r` has `p` as its parent, or as an ancestor through registrations of the list.
pub data Descends : List OAuthRegistration → Text → OAuthRegistration → Type 0 where
  child :
      {rs : List OAuthRegistration} {p : Text} {r : OAuthRegistration}
      → Memᴰ r rs
      → parent_eq r.parent_registration_id p ≡ true
      → Descends rs p r
  below :
      {rs : List OAuthRegistration} {p : Text} {q r : OAuthRegistration}
      → Descends rs p q
      → Memᴰ r rs
      → parent_eq r.parent_registration_id q.id ≡ true
      → Descends rs p r

-- The second store is the first without the registrations that `Q` holds of, and their tokens.
pub record IsCut (Q : OAuthRegistration → Type 0) (s t : OAuthStore) : Type 0 where
  pub registrations_iff :
      (r : OAuthRegistration) → Memᴰ r t.registrations ↔ (Memᴰ r s.registrations × ¬ Q r)
  pub tokens_iff :
      (k : StoredOAuthTokens)
      → Memᴰ k t.tokens
        ↔ (Memᴰ k s.tokens × ¬ ((r : OAuthRegistration) × Q r × (r.id ≡ k.registration_id)))

-- `r` descends from one of the ids.
abbrev pub DescendsAny : List OAuthRegistration → List Text → OAuthRegistration → Type 0
DescendsAny rs ids r = (c : Text) × Memᴰ c ids × Descends rs c r

pub Descends-Memᴰ :
    {rs : List OAuthRegistration} {p : Text} {r : OAuthRegistration} → Descends rs p r → Memᴰ r rs
Descends-Memᴰ (Descends.child m e) = m
Descends-Memᴰ (Descends.below d m e) = m

pub Descends-mono :
    {rs qs : List OAuthRegistration} {p : Text} {r : OAuthRegistration}
    → ((x : OAuthRegistration) → Memᴰ x rs → Memᴰ x qs)
    → Descends rs p r
    → Descends qs p r
Descends-mono {r} f (Descends.child m e) = Descends.child (f r m) e
Descends-mono {r} f (Descends.below d m e) = Descends.below (Descends-mono f d) (f r m) e

-- A descendant that does not descend from `c` too is still one when those of `c` are cut.
pub Descends-IsCut :
    {s t : OAuthStore} {c p : Text} {r : OAuthRegistration}
    → IsCut (Descends s.registrations c) s t
    → Descends s.registrations p r
    → ¬ Descends s.registrations c r
    → Descends t.registrations p r
Descends-IsCut {r} cut (Descends.child m e) apart =
    Descends.child ((cut.registrations_iff r).1 (m, apart)) e
Descends-IsCut {r} cut (Descends.below d m e) apart =
    Descends.below (Descends-IsCut cut d (λ x. apart (Descends.below x m e)))
      ((cut.registrations_iff r).1 (m, apart)) e

pub children_iff :
    (id c : Text) (s : OAuthStore)
    → Memᴰ c (children id s) ↔ (
        (r : OAuthRegistration) × Memᴰ r s.registrations
        × (parent_eq r.parent_registration_id id ≡ true)
        × (r.id ≡ c))
unfolding children
children_iff id c s =
    let p : OAuthRegistration → Bool = λ r. parent_eq r.parent_registration_id id in
    (
      λ m.
          let (r, k, e) = map-Memᴰ (λ r. r.id) c (retain p s.registrations) m in
          let (there, under) = (Memᴰ-retain_iff p r s.registrations).0 k in (r, there, under, e),
      λ (r, there, under, e).
          rw e at (Memᴰ-map (λ r. r.id) ((Memᴰ-retain_iff p r s.registrations).1 (there, under))),
    )

-- A descendant is a child, or descends from a child.
pub Descends-children :
    (s : OAuthStore) {p : Text} {r : OAuthRegistration}
    → Descends s.registrations p r
    → (parent_eq r.parent_registration_id p ≡ true) ⊎ DescendsAny s.registrations (children p s) r
Descends-children s (Descends.child m e) = inl e
Descends-children s {p} (Descends.below {q} d m e) = elim (Descends-children s d) [
  | inl first ↦
      inr (q.id, (children_iff p q.id s).1 (q, Descends-Memᴰ d, first, refl), Descends.child m e)
  | inr (c, k, later) ↦ inr (c, k, Descends.below later m e)
]

pub Descends-trans :
    {rs : List OAuthRegistration} {p : Text} {q r : OAuthRegistration}
    → Descends rs p q
    → Descends rs q.id r
    → Descends rs p r
Descends-trans d (Descends.child m e) = Descends.below d m e
Descends-trans d (Descends.below k m e) = Descends.below (Descends-trans d k) m e

children-Descends :
    (s : OAuthStore) (p : Text) (r : OAuthRegistration)
    → DescendsAny s.registrations (children p s) r
    → Descends s.registrations p r
children-Descends s p r (c, k, d) =
    let (q, m, e, same) = (children_iff p c s).0 k in
    Descends-trans (Descends.child m e) (rw same d)

IsCut-refl :
    (Q : OAuthRegistration → Type 0) (s : OAuthStore)
    → ((r : OAuthRegistration) → ¬ Q r)
    → IsCut Q s s
IsCut-refl Q s empty = record {
  registrations_iff = λ r. (λ m. (m, empty r), λ (m, h). m);
  tokens_iff = λ k. (λ m. (m, λ (r, q, e). empty r q), λ (m, h). m);
}

-- What `remove_each` makes of the first id and of the others is put together.
IsCut-DescendsAny :
    (c : Text) (ids : List Text) (s t u : OAuthStore)
    → IsCut (Descends s.registrations c) s u
    → IsCut (DescendsAny u.registrations ids) u t
    → IsCut (DescendsAny s.registrations (c ∷ ids)) s t
IsCut-DescendsAny c ids s t u one more = record {
  registrations_iff = λ r. (
    λ m.
        let (k, free) = (more.registrations_iff r).0 m in
        let (there, apart) = (one.registrations_iff r).0 k in (there, split r apart free),
    λ (m, free). (more.registrations_iff r).1 (
      (one.registrations_iff r).1 (m, λ d. free (c, Memᴰ.head refl, d)),
      λ (b, k, d). free (b, Memᴰ.tail k, grow d),
    ),
  );
  tokens_iff = λ k. (
    λ m.
        let (l, free) = (more.tokens_iff k).0 m in
        let (there, apart) = (one.tokens_iff k).0 l in
        (there, λ (r, q, e). split r (λ d. apart (r, d, e)) (λ d. free (r, d, e)) q),
    λ (m, free). (more.tokens_iff k).1 (
      (one.tokens_iff k).1 (m, λ (r, d, e). free (r, (c, Memᴰ.head refl, d), e)),
      λ (r, (b, l, d), e). free (r, (b, Memᴰ.tail l, grow d), e),
    ),
  );
}
  where
    grow :
        {b : Text} {r : OAuthRegistration}
        → Descends u.registrations b r
        → Descends s.registrations b r
    grow d = Descends-mono (λ x m. ((one.registrations_iff x).0 m).0) d

    split :
        (r : OAuthRegistration)
        → ¬ Descends s.registrations c r
        → ¬ DescendsAny u.registrations ids r
        → ¬ DescendsAny s.registrations (c ∷ ids) r
    split r apart free (b, Memᴰ.head e, d) = apart (rw e at d)
    split r apart free (b, Memᴰ.tail m, d) = free (b, m, Descends-IsCut one d apart)

remove_each-IsCut :
    (f : Text → OAuthStore → Option OAuthStore)
    → ((c : Text) (s t : OAuthStore) → f c s ≡ some t → IsCut (Descends s.registrations c) s t)
    → (ids : List Text) (s t : OAuthStore) → remove_each f ids s ≡ some t
    → IsCut (DescendsAny s.registrations ids) s t
unfolding remove_each
remove_each-IsCut f cuts [] s t e =
    let same : s ≡ t = ground arith in
    rw (sym same) (IsCut-refl (DescendsAny s.registrations []) s (λ r (c, m, d). elim m [ ]))
remove_each-IsCut f cuts (c ∷ ids) s t e = elim (Option-cases (f c s)) [
  | inl stuck ↦ absurd (ground arith)
  | inr (u, done) ↦
      IsCut-DescendsAny c ids s t u (cuts c s u done)
        (remove_each-IsCut f cuts ids u t (rw (remove_each, done) at e))
]

-- The last two calls of `retain`, after the children's descendants are gone.
prune-IsCut :
    (id : Text) (s u : OAuthStore)
    → IsCut (DescendsAny s.registrations (children id s)) s u
    → IsCut (Descends s.registrations id) s (prune id (children id s) u)
unfolding prune
prune-IsCut id s u cut = record {
  registrations_iff = λ r.
      let p : OAuthRegistration → Bool = λ r. not (parent_eq r.parent_registration_id id) in
      (
        λ m.
            let (k, other) = (Memᴰ-retain_iff p r u.registrations).0 m in
            let (there, free) = (cut.registrations_iff r).0 k in
            (
              there,
              λ d. elim (Descends-children s d) [ inl e ↦ ground arith | inr any ↦ free any ],
            ),
        λ (m, free). (Memᴰ-retain_iff p r u.registrations).1 (
          (cut.registrations_iff r).1 (m, λ any. free (children-Descends s id r any)),
          elim (Bool-cases (parent_eq r.parent_registration_id id)) [
            | inl under ↦ absurd (free (Descends.child m under))
            | inr other ↦ ground arith
          ],
        ),
      );
  tokens_iff = λ k.
      let ids = children id s in
      let p : StoredOAuthTokens → Bool = λ t. not (contains ids t.registration_id) in
      (
        λ m.
            let (l, other) = (Memᴰ-retain_iff p k u.tokens).0 m in
            let (there, free) = (cut.tokens_iff k).0 l in
            (
              there,
              λ (r, d, e). elim (Descends-children s d) [
                | inl under ↦
                    let listed : contains ids k.registration_id ≡ true =
                      (contains_iff ids k.registration_id).1
                        ((children_iff id k.registration_id s).1 (r, Descends-Memᴰ d, under, e)) in
                    ground arith
                | inr any ↦ free (r, any, e)
              ],
            ),
        λ (m, free). (Memᴰ-retain_iff p k u.tokens).1 (
          (cut.tokens_iff k).1 (m, λ (r, any, e). free (r, children-Descends s id r any, e)),
          elim (Bool-cases (contains ids k.registration_id)) [
            | inl listed ↦
                let (r, there, under, e) =
                  (children_iff id k.registration_id s).0
                    ((contains_iff ids k.registration_id).0 listed) in
                absurd (free (r, Descends.child there under, e))
            | inr other ↦ ground arith
          ],
        ),
      );
}

-- When `cascade_remove` returns, it has removed the registrations that descend from the given one,
-- at any depth, and the tokens of these registrations, and nothing else.
pub cascade_remove-IsCut :
    (fuel : ℕ) (id : Text) (s t : OAuthStore)
    → cascade_remove fuel id s ≡ some t
    → IsCut (Descends s.registrations id) s t
unfolding cascade_remove
cascade_remove-IsCut zero id s t e = absurd (ground arith)
cascade_remove-IsCut (suc fuel) id s t e =
    let f : Text → OAuthStore → Option OAuthStore = λ c s. cascade_remove fuel c s in
    elim (Option-cases (remove_each f (children id s) s)) [
      | inl stuck ↦ absurd (ground arith)
      | inr (u, done) ↦
          let same : prune id (children id s) u ≡ t = ground arith in
          rw (sym same) (
            prune-IsCut id s u
              (remove_each-IsCut f (cascade_remove-IsCut fuel) (children id s) s u done))
    ]
