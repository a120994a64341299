-- ===== src/Scope/Evict.antt =====
-- The eviction loop of scope.rs: what it drops and what it keeps.
use grokingclawid.Common.{
  All, Bool, Bool-cases, List, [], ap, arith, inl, inr, leb, leb→le, ltb, refl, retain, ℕ, ◌++◌,
  ◌+◌, ◌-◌, ◌<◌, ◌∷◌, ◌≡◌, ◌≤◌,
}
use grokingclawid.Scope.{evict, new, window}

-- `t` left the window that ends at `now`.
abbrev pub IsStale : ℕ → ℕ → Type 0
IsStale now t = t + window ≤ now

-- `t` is in the window that ends at `now`.
abbrev pub is_fresh : ℕ → ℕ → Bool
is_fresh now t = ltb now (t + window)

pub record Evicted (now : ℕ) (ts : List ℕ) : Type 0 where
  pub dropped : List ℕ
  pub split : ts ≡ dropped ++ evict now ts
  pub stale : All (IsStale now) dropped

-- The loop drops a prefix, all of it stale.
pub evict-Evicted : (now : ℕ) (ts : List ℕ) → Evicted now ts
unfolding evict
evict-Evicted now [] = record { dropped = []; split = refl; stale = tt }
evict-Evicted now (t ∷ ts) = elim (Bool-cases (leb window (now - t))) [
  | inl old ↦
      let e = evict-Evicted now ts in
      record {
        dropped = t ∷ e.dropped;
        split = rw old (ap (λ l. t ∷ l) e.split);
        stale = (omega (arith, leb→le window (now - t) old), e.stale);
      }
  | inr new ↦ record { dropped = []; split = rw new refl; stale = tt }
]

-- Each instant is at most the next one.
abbrev pub Ascending : List ℕ → Type 0
Ascending [] = Unit
Ascending (t ∷ ts) = All (λ u. t ≤ u) ts × Ascending ts

retain_unchanged :
    (now t : ℕ) (ts : List ℕ)
    → now < t + window
    → All (λ u. t ≤ u) ts
    → retain (is_fresh now) ts ≡ ts
unfolding retain
retain_unchanged now t [] h a = refl
retain_unchanged now t (u ∷ ts) h (p, a) = ground (arith, retain_unchanged now t ts h a)

-- On ascending instants it keeps exactly the fresh ones.
pub evict-eq-retain :
    (now : ℕ) (ts : List ℕ) → Ascending ts → evict now ts ≡ retain (is_fresh now) ts
unfolding evict retain
evict-eq-retain now [] a = refl
evict-eq-retain now (t ∷ ts) (p, a) =
    ground (arith, evict-eq-retain now ts a, retain_unchanged now t ts)
