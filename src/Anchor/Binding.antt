-- ===== src/Anchor/Binding.antt =====
-- What a Merkle root binds: the hashes under it, once their number is fixed.
use grokingclawid.Anchor.Merkle.{combine, compute_merkle_root, even_up, levels, top}
use grokingclawid.Common.{
  All, All-append, Bool-cases, Bytes, List, Text, [], ap, append-injective, arith, inl, inr, last,
  last-cons, length, length-append, ltb, lt→ltb, refl, some, suc, sym, text_eq, text_eq_iff, zero,
  ℕ, ◌%◌, ◌++◌, ◌+◌, ◌/◌, ◌<◌, ◌∙◌, ◌∷◌, ◌≡◌, ◌≤◌, ◌⊎◌,
}
use grokingclawid.Crypto.{Primitives, sha256_hex}
use grokingclawid.Crypto.ChainHash.{Collision, collision}

-- Each hash is a text of 64 characters.
abbrev pub Hex64 : List Text → Type 0
Hex64 = All (λ h. length h ≡ 64)

push-last :
    (level : List Text)
    → length level % 2 ≡ 1
    → (h : Text) × (even_up level ≡ level ++ h ∷ []) × (last level ≡ some h)
unfolding even_up
push-last [] m = absurd (omega arith)
push-last (x ∷ level) m = let (h, e) = last-cons x level in (h, ground arith, e)

even_up_even : (level : List Text) → length level % 2 ≡ 0 → even_up level ≡ level
unfolding even_up
even_up_even level m = ground arith

parity : (n : ℕ) → (n % 2 ≡ 0) ⊎ (n % 2 ≡ 1)
parity n = omega arith

length-even_up : (level : List Text) → length (even_up level) ≡ length level + length level % 2
length-even_up level = elim (parity (length level)) [
  | inl even ↦ rw (even_up_even level even) (omega arith)
  | inr odd ↦
      let (h, e, l) = push-last level odd in rw e (omega (arith, length-append level (h ∷ [])))
]

even_up-injective : (xs ys : List Text) → length xs ≡ length ys → even_up xs ≡ even_up ys → xs ≡ ys
even_up-injective xs ys n e = elim (parity (length xs)) [
  | inl even ↦ sym (even_up_even xs even) ∙ e ∙ even_up_even ys (omega arith)
  | inr odd ↦
      let (h, p, _) = push-last xs odd in
      let (g, q, _) = push-last ys (omega arith) in
      (append-injective xs ys (h ∷ []) (g ∷ []) n (sym p ∙ e ∙ q)).0
]

All-last {ℓ} :
    {A : Type ℓ} (Q : A → Type 0) (xs : List A) (x : A) → last xs ≡ some x → All Q xs → Q x
unfolding last
All-last Q [] x e h = cc
All-last Q (y ∷ []) x e (p, h) = let q : y ≡ x = cc in rw q at p
All-last Q (y ∷ z ∷ xs) x e (p, h) = All-last Q (z ∷ xs) x e h

even_up-Hex64 : (level : List Text) → Hex64 level → Hex64 (even_up level)
even_up-Hex64 level a = elim (parity (length level)) [
  | inl even ↦ rw (even_up_even level even) a
  | inr odd ↦
      let (h, e, l) = push-last level odd in
      rw e (
        All-append (λ h. length h ≡ 64) level (h ∷ []) a
          (All-last (λ h. length h ≡ 64) level h l a, tt))
]

module _ (P : Primitives) (hex : (b : Bytes) → length (sha256_hex P b) ≡ 64) where
  hash_binding : (x y : Bytes) → sha256_hex P x ≡ sha256_hex P y → Collision P ⊎ (x ≡ y)
  hash_binding x y e = elim (Bool-cases (text_eq x y)) [
    | inl same ↦ inr ((text_eq_iff x y).0 same)
    | inr other ↦ inl (collision x y (λ q. cc ((text_eq_iff x y).1 q)) e)
  ]

  combine-Hex64 : (level : List Text) → Hex64 (combine P level)
  unfolding combine
  combine-Hex64 [] = tt
  combine-Hex64 (x ∷ []) = tt
  combine-Hex64 (x ∷ y ∷ level) = (hex (x ++ y), combine-Hex64 level)

  -- Half as many hashes, or one fewer for an odd count.
  length-combine : (level : List Text) → length (combine P level) ≡ length level / 2
  unfolding combine
  length-combine [] = omega arith
  length-combine (x ∷ []) = omega arith
  length-combine (x ∷ y ∷ level) = omega (arith, length-combine level)

  combine_binding :
      (xs ys : List Text)
      → length xs ≡ length ys
      → length xs % 2 ≡ 0
      → Hex64 xs
      → Hex64 ys
      → combine P xs ≡ combine P ys
      → Collision P ⊎ (xs ≡ ys)
  unfolding combine
  combine_binding [] [] n m a b e = inr refl
  combine_binding [] (y ∷ ys) n m a b e = absurd (omega arith)
  combine_binding (x ∷ []) ys n m a b e = absurd (omega arith)
  combine_binding (x ∷ x' ∷ xs) [] n m a b e = absurd (omega arith)
  combine_binding (x ∷ x' ∷ xs) (y ∷ []) n m a b e = absurd (omega arith)
  combine_binding (x ∷ x' ∷ xs) (y ∷ y' ∷ ys) n m (ax, (ax', a)) (by, (by', b)) e =
      let h : sha256_hex P (x ++ x') ≡ sha256_hex P (y ++ y') = cc in
      let r : combine P xs ≡ combine P ys = cc in
      elim (hash_binding (x ++ x') (y ++ y') h) [
        | inl c ↦ inl c
        | inr s ↦ elim (combine_binding xs ys (omega arith) (omega arith) a b r) [
          | inl c ↦ inl c
          | inr t ↦ let (p, q) = append-injective x y x' y' (ax ∙ sym by) s in inr cc
        ]
      ]

  levels_binding :
      (f : ℕ) (xs ys : List Text)
      → length xs ≡ length ys
      → Hex64 xs
      → Hex64 ys
      → levels P f xs ≡ levels P f ys
      → Collision P ⊎ (xs ≡ ys)
  unfolding levels
  levels_binding zero xs ys n a b e = inr e
  levels_binding (suc f) xs ys n a b e = elim (Bool-cases (ltb 1 (length xs))) [
    | inl more ↦
        let up : levels P f (combine P (even_up xs)) ≡ levels P f (combine P (even_up ys)) =
          ground arith in
        let m : length (even_up xs) ≡ length (even_up ys) =
          omega (arith, length-even_up xs, length-even_up ys) in
        let k : length (combine P (even_up xs)) ≡ length (combine P (even_up ys)) =
          length-combine (even_up xs) ∙ ap (λ n. n / 2) m ∙ sym (length-combine (even_up ys)) in
        elim (levels_binding f (combine P (even_up xs)) (combine P (even_up ys)) k
          (combine-Hex64 (even_up xs)) (combine-Hex64 (even_up ys)) up) [
            | inl c ↦ inl c
            | inr s ↦
                elim (combine_binding (even_up xs) (even_up ys) m (omega (arith, length-even_up xs))
                  (even_up-Hex64 xs a) (even_up-Hex64 ys b) s) [
                    | inl c ↦ inl c
                    | inr t ↦ inr (even_up-injective xs ys n t)
                  ]
          ]
    | inr done ↦ inr (ground arith)
  ]

  -- Enough rounds leave one hash.
  levels-length :
      (f : ℕ) (xs : List Text) → 0 < length xs → length xs ≤ f → length (levels P f xs) ≡ 1
  unfolding levels
  levels-length zero xs p h = absurd (omega arith)
  levels-length (suc f) xs p h = ground (
    arith,
    levels-length f (combine P (even_up xs)),
    length-combine (even_up xs),
    length-even_up xs,
  )

  top_injective :
      (xs ys : List Text) → length xs ≡ 1 → length ys ≡ 1 → top P xs ≡ top P ys → xs ≡ ys
  unfolding top
  top_injective [] ys m n e = absurd (omega arith)
  top_injective (x ∷ xs) [] m n e = absurd (omega arith)
  top_injective (x ∷ []) (y ∷ []) m n e = ap (λ h. h ∷ []) e
  top_injective (x ∷ []) (y ∷ y' ∷ ys) m n e = absurd (omega arith)
  top_injective (x ∷ x' ∷ xs) (y ∷ ys) m n e = absurd (omega arith)

  -- Two lists of as many hashes, at least one, of 64 characters each, that have the same Merkle root
  -- are the same list, unless two different inputs of SHA-256 that collide are at hand; every SHA-256
  -- text is taken to have 64 characters.
  pub compute_merkle_root_binding :
      (xs ys : List Text)
      → 0 < length xs
      → length xs ≡ length ys
      → Hex64 xs
      → Hex64 ys
      → compute_merkle_root P xs ≡ compute_merkle_root P ys
      → Collision P ⊎ (xs ≡ ys)
  unfolding compute_merkle_root
  compute_merkle_root_binding [] ys p n a b e = absurd (omega arith)
  compute_merkle_root_binding (x ∷ xs) [] p n a b e = absurd (omega arith)
  compute_merkle_root_binding (x ∷ []) (y ∷ []) p n a b e = inr (ap (λ h. h ∷ []) e)
  compute_merkle_root_binding (x ∷ []) (y ∷ y' ∷ ys) p n a b e = absurd (omega arith)
  compute_merkle_root_binding (x ∷ x' ∷ xs) (y ∷ []) p n a b e = absurd (omega arith)
  compute_merkle_root_binding (x ∷ x' ∷ xs) (y ∷ y' ∷ ys) p n a b e =
      let f = length (x ∷ x' ∷ xs) in
      let g = length (y ∷ y' ∷ ys) in
      let same : levels P g (y ∷ y' ∷ ys) ≡ levels P f (y ∷ y' ∷ ys) =
        ap (λ k. levels P k (y ∷ y' ∷ ys)) (sym n) in
      levels_binding f (x ∷ x' ∷ xs) (y ∷ y' ∷ ys) n a b (
        top_injective _ _ (levels-length f (x ∷ x' ∷ xs) (omega arith) (omega arith))
          (levels-length g (y ∷ y' ∷ ys) (omega arith) (omega arith)) e
        ∙ same)

  levels-fuel :
      (f g : ℕ) (xs : List Text) → length xs ≤ f → length xs ≤ g → levels P f xs ≡ levels P g xs
  unfolding levels
  levels-fuel zero zero xs h k = refl
  levels-fuel zero (suc g) xs h k = ground arith
  levels-fuel (suc f) zero xs h k = ground arith
  levels-fuel (suc f) (suc g) xs h k = ground (
    arith,
    levels-fuel f g (combine P (even_up xs)),
    length-combine (even_up xs),
    length-even_up xs,
  )

  repeat_levels :
      (f g : ℕ) (xs : List Text) (h : Text)
      → length xs % 2 ≡ 1
      → 1 < length xs
      → last xs ≡ some h
      → length (xs ++ h ∷ []) ≤ f
      → length xs ≤ g
      → levels P f (xs ++ h ∷ []) ≡ levels P g xs
  unfolding levels
  repeat_levels zero g xs h m n l a b = absurd (omega (arith, length-append xs (h ∷ [])))
  repeat_levels (suc f) zero xs h m n l a b = absurd (omega arith)
  repeat_levels (suc f) (suc g) xs h m n l a b =
      let (h', e, l') = push-last xs m in
      let same : h' ≡ h = cc in
      let up : even_up xs ≡ xs ++ h ∷ [] = cc in
      let up' : even_up (xs ++ h ∷ []) ≡ xs ++ h ∷ [] =
        even_up_even (xs ++ h ∷ []) (omega (arith, length-append xs (h ∷ []))) in
      rw
        (
          up,
          up',
          lt→ltb 1 (length xs) n,
          lt→ltb 1 (length (xs ++ h ∷ [])) (omega (arith, length-append xs (h ∷ []))),
        )
        (levels-fuel f g (combine P (xs ++ h ∷ []))
          (omega (arith, length-append xs (h ∷ []), length-combine (xs ++ h ∷ [])))
          (omega (arith, length-append xs (h ∷ []), length-combine (xs ++ h ∷ []))))

  -- The number of hashes is not bound: an odd number of hashes, three or more, has the root of the
  -- same hashes with the last one repeated.
  pub compute_merkle_root_repeat :
      (xs : List Text) (h : Text)
      → length xs % 2 ≡ 1
      → 1 < length xs
      → last xs ≡ some h
      → compute_merkle_root P (xs ++ h ∷ []) ≡ compute_merkle_root P xs
  unfolding compute_merkle_root
  compute_merkle_root_repeat [] h m n l = absurd (omega arith)
  compute_merkle_root_repeat (x ∷ []) h m n l = absurd (omega arith)
  compute_merkle_root_repeat (x ∷ x' ∷ xs) h m n l = ap (top P) (
      repeat_levels (length (x ∷ x' ∷ xs ++ h ∷ [])) (length (x ∷ x' ∷ xs)) (x ∷ x' ∷ xs) h m n l
        (omega arith) (omega arith))
