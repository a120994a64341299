-- ===== src/OAuth/Cyclic.antt =====
-- When `cascade_remove` returns: always over parents without a cycle, and never from a registration
-- with a cycle below it.
use grokingclawid.Common.{
  List, Memᴰ, Option, Option-cases, Text, [], arith, inl, inr, none, refl, some, suc, true, zero, ℕ,
  ◌<◌, ◌∷◌, ◌≡◌, ◌≤◌,
}
use grokingclawid.OAuth.{
  OAuthRegistration, OAuthStore, cascade_remove, children, parent_eq, prune, remove_each,
}
use grokingclawid.OAuth.Cascade.{
  Descends, Descends-IsCut, Descends-Memᴰ, Descends-children, IsCut, cascade_remove-IsCut,
  children_iff,
}

-- Parents rank above their children, so no registration is below itself.
abbrev pub Ranks : (Text → ℕ) → List OAuthRegistration → Type 0
Ranks rank rs =
    (r : OAuthRegistration) (p : Text)
    → Memᴰ r rs
    → parent_eq r.parent_registration_id p ≡ true
    → rank r.id < rank p

pub Descends-Ranks :
    (rank : Text → ℕ) {rs : List OAuthRegistration} {p : Text} {r : OAuthRegistration}
    → Ranks rank rs
    → Descends rs p r
    → rank r.id < rank p
Descends-Ranks rank {p} {r} ranks (Descends.child m e) = ranks r p m e
Descends-Ranks rank {p} {r} ranks (Descends.below {q} d m e) =
    let a = ranks r q.id m e in let b = Descends-Ranks rank ranks d in omega arith

remove_each_total :
    (f : Text → OAuthStore → Option OAuthStore) (Fit : OAuthStore → Type 0) (ids : List Text)
    (s : OAuthStore)
    → ((c : Text) (s : OAuthStore)
        → Memᴰ c ids
        → Fit s
        → (t : OAuthStore) × (f c s ≡ some t) × Fit t)
    → Fit s
    → (t : OAuthStore) × (remove_each f ids s ≡ some t)
unfolding remove_each
remove_each_total f Fit [] s h fit = (s, refl)
remove_each_total f Fit (c ∷ ids) s h fit =
    let (u, done, fits) = h c s (Memᴰ.head refl) fit in
    rw (remove_each, done) (remove_each_total f Fit ids u (λ b v m. h b v (Memᴰ.tail m)) fits)

-- A child's call returns, if calls for smaller ranks do, and leaves the ranks as they are.
child_total :
    (rank : Text → ℕ) (fuel : ℕ) (id : Text) (s : OAuthStore)
    → Ranks rank s.registrations
    → rank id ≤ fuel
    → ((c : Text) (v : OAuthStore)
        → Ranks rank v.registrations
        → rank c < fuel
        → (t : OAuthStore) × (cascade_remove fuel c v ≡ some t))
    → (c : Text) (v : OAuthStore) → Memᴰ c (children id s)
    → Ranks rank v.registrations
    → (t : OAuthStore) × (cascade_remove fuel c v ≡ some t) × Ranks rank t.registrations
child_total rank fuel id s ranks h total c v m fit =
    let (r, there, under, same) = (children_iff id c s).0 m in
    let smaller : rank r.id < rank id = ranks r id there under in
    let lower : rank c < rank id = rw same at smaller in
    let (t, done) = total c v fit (omega arith) in
    let cut = cascade_remove-IsCut fuel c v t done in
    (t, done, λ x p k e. fit x p ((cut.registrations_iff x).0 k).0 e)

-- If every registration ranks below its parent, by any measure, `cascade_remove` returns: the calls
-- are nested at most to the rank of the id that it starts from.
pub cascade_remove_total :
    (rank : Text → ℕ) (fuel : ℕ) (id : Text) (s : OAuthStore)
    → Ranks rank s.registrations
    → rank id < fuel
    → (t : OAuthStore) × (cascade_remove fuel id s ≡ some t)
unfolding cascade_remove
cascade_remove_total rank zero id s ranks h = absurd (omega arith)
cascade_remove_total rank (suc fuel) id s ranks h =
    let (u, done) =
      remove_each_total (λ c s. cascade_remove fuel c s) (λ v. Ranks rank v.registrations)
        (children id s) s
        (child_total rank fuel id s ranks (omega arith)
          (λ c v fit less. cascade_remove_total rank fuel c v fit less))
        ranks in
    (prune id (children id s) u, rw (cascade_remove, done) refl)

remove_each-none :
    (f : Text → OAuthStore → Option OAuthStore) (x : OAuthRegistration) (c : Text) (ids : List Text)
    (s : OAuthStore)
    → ((b : Text) (s t : OAuthStore) → f b s ≡ some t → IsCut (Descends s.registrations b) s t)
    → ((b : Text) (s : OAuthStore)
        → Descends s.registrations b x
        → Descends s.registrations x.id x
        → f b s ≡ none)
    → Memᴰ c ids
    → Descends s.registrations c x
    → Descends s.registrations x.id x
    → remove_each f ids s ≡ none
unfolding remove_each
remove_each-none f x c [] s cuts stuck m d cycle = elim m [ ]
remove_each-none f x c (b ∷ ids) s cuts stuck (Memᴰ.head e) d cycle =
    let here : f b s ≡ none = stuck b s (rw e at d) cycle in rw (remove_each, here) refl
remove_each-none f x c (b ∷ ids) s cuts stuck (Memᴰ.tail m) d cycle = elim (Option-cases (f b s)) [
  | inl here ↦ rw (remove_each, here) refl
  | inr (u, done) ↦
      let apart : ¬ Descends s.registrations b x =
        λ k. let here : f b s ≡ none = stuck b s k cycle in absurd (ground arith) in
      let cut = cuts b s u done in
      rw (remove_each, done)
        (remove_each-none f x c ids u cuts stuck m (Descends-IsCut cut d apart)
          (Descends-IsCut cut cycle apart))
]

-- Where a registration is its own ancestor, `cascade_remove` does not return, with whatever fuel,
-- from that registration or from any above it.
pub cascade_remove-none :
    (fuel : ℕ) (id : Text) (s : OAuthStore) (x : OAuthRegistration)
    → Descends s.registrations id x
    → Descends s.registrations x.id x
    → cascade_remove fuel id s ≡ none
unfolding cascade_remove
cascade_remove-none zero id s x d cycle = refl
cascade_remove-none (suc fuel) id s x d cycle =
    let f : Text → OAuthStore → Option OAuthStore = λ c s. cascade_remove fuel c s in
    let child_stuck : (c : Text)
        → Memᴰ c (children id s)
        → Descends s.registrations c x
        → remove_each f (children id s) s ≡ none =
      λ c m k.
        remove_each-none f x c (children id s) s (cascade_remove-IsCut fuel)
          (λ b v e y. cascade_remove-none fuel b v x e y) m k cycle in
    let stuck : remove_each f (children id s) s ≡ none = elim (Descends-children s d) [
      | inl under ↦
          child_stuck x.id ((children_iff id x.id s).1 (x, Descends-Memᴰ d, under, refl)) cycle
      | inr (c, m, k) ↦ child_stuck c m k
    ] in
    rw (cascade_remove, stuck) refl
