-- ===== src/Scope/Refinement.antt =====
-- The limiter's queue against its specification: a limiter that keeps the whole history of admitted
-- requests and counts those of the last sixty seconds.
use grokingclawid.Common.{
  All, All-append, All-retain, Bool, Bool-cases, List, Option, Text, [], ap, arith, if◌then◌else◌,
  inl, inr, length, le→not-ltb, ltb, lt→ltb, refl, retain, sym, ℕ, ◌++◌, ◌<◌, ◌^◌, ◌∷◌, ◌≡◌, ◌≤◌,
}
use grokingclawid.Scope.{ScopeConfig, evict, new}
use grokingclawid.Scope.Evict.{Ascending, IsStale, evict-eq-retain, is_fresh}
use grokingclawid.Scope.Window.{
  AscendsFrom, Call, Inv, Resplit, admitted, handle-rate, new-Inv, outcome, push-Inv, pushed,
  refuse-Inv, refused, resplit,
}

-- The specification: a request passes while fewer than `limit` of the admitted ones are fresh.
abbrev pub sliding_window : ℕ → List ℕ → List (ℕ × Call) → List ℕ
sliding_window limit log [] = []
sliding_window limit log ((now, c) ∷ cs) =
    let more = now ∷ sliding_window limit (log ++ now ∷ []) cs in
    let same = sliding_window limit log cs in
    if ltb (length (retain (is_fresh now) log)) limit then more else same

record InOrder (ts : List ℕ) (now : ℕ) : Type 0 where
  ascending : Ascending ts
  past : All (λ t. t ≤ now) ts

retain-append : (p : ℕ → Bool) (xs ys : List ℕ) → retain p (xs ++ ys) ≡ retain p xs ++ retain p ys
unfolding retain
retain-append p [] ys = refl
retain-append p (x ∷ xs) ys = ground (arith, retain-append p xs ys)

retain_idem : (p : ℕ → Bool) (xs : List ℕ) → retain p (retain p xs) ≡ retain p xs
unfolding retain
retain_idem p [] = refl
retain_idem p (x ∷ xs) = ground (arith, retain_idem p xs)

retain_stale : (now : ℕ) (ts : List ℕ) → All (IsStale now) ts → retain (is_fresh now) ts ≡ []
unfolding retain
retain_stale now [] h = refl
retain_stale now (t ∷ ts) (p, h) = ground (arith, retain_stale now ts h)

All-le_mono : (a b : ℕ) (ts : List ℕ) → a ≤ b → All (λ t. t ≤ a) ts → All (λ t. t ≤ b) ts
All-le_mono a b [] h k = tt
All-le_mono a b (t ∷ ts) h (p, k) = (omega arith, All-le_mono a b ts h k)

Ascending-concat :
    (ts : List ℕ) (now : ℕ) → Ascending ts → All (λ t. t ≤ now) ts → Ascending (ts ++ now ∷ [])
Ascending-concat [] now a k = (tt, tt)
Ascending-concat (t ∷ ts) now (p, a) (q, k) =
    (All-append (λ u. t ≤ u) ts (now ∷ []) p (q, tt), Ascending-concat ts now a k)

Ascending-retain : (p : ℕ → Bool) (ts : List ℕ) → Ascending ts → Ascending (retain p ts)
unfolding retain
Ascending-retain p [] a = tt
Ascending-retain p (t ∷ ts) (q, a) = elim (Bool-cases (p t)) [
  | inl kept ↦ rw kept (All-retain (λ u. t ≤ u) p ts q, Ascending-retain p ts a)
  | inr gone ↦ rw gone (Ascending-retain p ts a)
]

-- After the eviction the queue is the fresh part of the history.
evict-eq-fresh :
    {log ts : List ℕ} {now : ℕ} (later : ℕ)
    → InOrder ts now
    → Resplit log ts later
    → evict later ts ≡ retain (is_fresh later) log
evict-eq-fresh {ts} later o r =
    rw (r.parts, retain-append, retain_stale later r.gone r.old)
      (rw (evict-eq-retain later ts o.ascending) (sym (retain_idem (is_fresh later) ts)))

evict-InOrder :
    {ts : List ℕ} {now : ℕ} (later : ℕ)
    → now ≤ later
    → InOrder ts now
    → InOrder (evict later ts) later
evict-InOrder {ts} {now} later h o = rw (evict-eq-retain later ts o.ascending) (record {
  ascending = Ascending-retain (is_fresh later) ts o.ascending;
  past = All-le_mono now later _ h (All-retain (λ t. t ≤ now) (is_fresh later) ts o.past);
})

push-InOrder : {ts : List ℕ} (later : ℕ) → InOrder ts later → InOrder (ts ++ later ∷ []) later
push-InOrder {ts} later o = record {
  ascending = Ascending-concat ts later o.ascending o.past;
  past = All-append (λ t. t ≤ later) ts (later ∷ []) o.past (omega arith);
}

module _ (limit : ℕ) (positive : 0 < limit) (small : limit < 2 ^ 32) where
  module _ (parse_url : Text → Option (Option Text)) where
    refines :
        (cs : List (ℕ × Call)) {log : List ℕ} {s : ScopeConfig} {now : ℕ}
        → Inv limit log s now
        → InOrder s.request_timestamps now
        → AscendsFrom now cs
        → admitted parse_url s cs ≡ sliding_window limit log cs
    unfolding admitted
    refines [] v o asc = refl
    refines ((later, c) ∷ cs) {log} {s} v o (h, asc) =
        let (same, adm) = handle-rate limit positive small parse_url s later c in
        let kept = evict-InOrder later h o in
        let fresh : length (evict later s.request_timestamps)
            ≡ length (retain (is_fresh later) log) =
          ap length (evict-eq-fresh later o (resplit later h v)) in
        elim (outcome limit positive small later v) [
          | pushed p q room ↦
              rw
                (same, q, adm, p, lt→ltb (length (retain (is_fresh later) log)) limit (omega arith))
                (ap (λ l. later ∷ l)
                  (refines cs (push-Inv limit positive small later h v room)
                    (push-InOrder later kept) asc))
          | refused p q full ↦
              rw
                (
                  same,
                  q,
                  adm,
                  p,
                  le→not-ltb (length (retain (is_fresh later) log)) limit (omega arith),
                )
                (refines cs (refuse-Inv limit positive small later h v) kept asc)
        ]

-- From a fresh scope with a positive 32-bit limit, on requests at ascending instants, the limiter
-- admits exactly the requests at which fewer than `limit` admitted ones are younger than sixty
-- seconds.
pub admitted-eq-sliding_window :
    (parse_url : Text → Option (Option Text)) (domains : List Text) (limit : ℕ)
    → 0 < limit
    → limit < 2 ^ 32
    → (cs : List (ℕ × Call)) → AscendsFrom 0 cs
    → admitted parse_url (new domains limit) cs ≡ sliding_window limit [] cs
unfolding new
admitted-eq-sliding_window parse_url domains limit positive small cs asc =
    refines limit positive small parse_url cs (new-Inv domains limit)
      (record { ascending = tt; past = tt }) asc
