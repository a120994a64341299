-- ===== src/Anchor/Merkle.antt =====
-- `compute_merkle_root` of crates/grokingclaw-daemon/src/anchor.rs. Its private `sha256_hex` is that
-- of the core crate once more. The loop runs on fuel: the length of the first level is enough.
use grokingclawid.Common.{
  List, Option, Text, [], ascii, if◌then◌else◌, last, length, ltb, none, not, some, suc, zero, ℕ,
  ◌%◌, ◌++◌, ◌==◌, ◌∷◌,
}
use grokingclawid.Crypto.{Primitives, sha256_hex}

push_last : List Text → Option Text → List Text
push_last level none = level
push_last level (some h) = level ++ h ∷ []

-- An odd level has its last hash repeated.
unfoldable pub even_up : List Text → List Text
unfolding push_last
even_up level = if not (length level % 2 == 0) then push_last level (last level) else level

module _ (P : Primitives) where
  -- The pass over `chunks(2)` of an even level.
  unfoldable pub combine : List Text → List Text
  combine [] = []
  combine (x ∷ []) = []
  combine (x ∷ y ∷ level) = sha256_hex P (x ++ y) ∷ combine level

  unfoldable pub levels : ℕ → List Text → List Text
  levels zero level = level
  levels (suc f) level =
      let up = levels f (combine (even_up level)) in if ltb 1 (length level) then up else level

  -- `into_iter().next().unwrap_or_default()`
  unfoldable pub top : List Text → Text
  top [] = []
  top (h ∷ level) = h

  unfoldable pub compute_merkle_root : List Text → Text
  unfolding levels combine even_up top
  compute_merkle_root [] = sha256_hex P (ascii "empty")
  compute_merkle_root (h ∷ []) = h
  compute_merkle_root (h ∷ g ∷ hashes) = top (levels (length (h ∷ g ∷ hashes)) (h ∷ g ∷ hashes))
