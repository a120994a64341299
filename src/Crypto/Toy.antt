-- ===== src/Crypto/Toy.antt =====
-- Concrete primitives that meet the documented behaviour, for tests: base64 is the identity, hex adds one to each byte, a
-- key is its own public half, and a signature is the key and the message cut to the length.
use mathlib.Core.Bool.{true}
use grokingclawid.Common.{
  Bytes, Text, [], ap, length, refl, some, suc, text_eq, text_eq_refl, zero, ℕ, ◌++◌, ◌∷◌, ◌≡◌,
}
use grokingclawid.Crypto.{Primitives}
use grokingclawid.Crypto.Signatures.{Lawful}

-- `n` bytes of a text, padded with zeros.
abbrev pub sized : ℕ → Bytes → Bytes
sized zero b = []
sized (suc n) [] = 0 ∷ sized n []
sized (suc n) (x ∷ b) = x ∷ sized n b

-- Each byte plus one, which leaves no NUL.
abbrev pub shifted : Bytes → Text
shifted [] = []
shifted (x ∷ b) = suc x ∷ shifted b

abbrev pub toy : Primitives
toy = record {
  base64_encode = λ b. b;
  base64_decode = λ b. some b;
  hex_encode = shifted;
  sha256 = λ b. b;
  ed_public = λ k. k;
  ed_sign = λ k m. sized 64 (k ++ m);
  ed_key_valid = λ k. true;
  ed_verify = λ k m g. text_eq g (sized 64 (k ++ m));
  ml_public_length = 4;
  ml_secret_length = 4;
  ml_signature_length = 8;
  ml_key_valid = λ k. true;
  ml_secret_valid = λ k. true;
  ml_public = sized 4;
  ml_sign = λ k m. some (sized 8 (sized 4 k ++ m));
  ml_verify = λ k m g. text_eq g (sized 8 (k ++ m));
}

pub length-sized : (n : ℕ) (b : Bytes) → length (sized n b) ≡ n
length-sized zero b = refl
length-sized (suc n) [] = ap suc (length-sized n [])
length-sized (suc n) (x ∷ b) = ap suc (length-sized n b)

signed : (k m g : Bytes) → toy.ml_sign k m ≡ some g → g ≡ sized 8 (sized 4 k ++ m)
signed k m g e = cc

pub toy-Lawful : Lawful toy
toy-Lawful = record {
  decode-encode = λ b. refl;
  length-ed_public = λ k h. h;
  length-ed_sign = λ k m h. length-sized 64 (k ++ m);
  ed_public_valid = λ k h. refl;
  ed_verify-sign = λ k m h. text_eq_refl (sized 64 (k ++ m));
  length-ml_public = length-sized 4;
  ml_public_valid = λ k. refl;
  length-ml_sign = λ k m g e. rw (signed k m g e) (length-sized 8 _);
  ml_verify-sign = λ k m g e. rw (signed k m g e) (text_eq_refl _);
}
