-- ===== src/OAuth/Sealed.antt =====
-- The file of an OAuth store: `OAuthStore::load` and `save` of
-- crates/grokingclaw-daemon/src/oauth_store.rs. ChaCha20-Poly1305, HKDF and serde_json are
-- parameters. The writing of the file, through a temporary one, is taken not to fail.
use grokingclawid.Common.{
  Bytes, Option, Option-cases, Result, Text, arith, ascii, decrypt_failed, drop, drop-append,
  encrypt_failed, ensure, inl, inr, length, length-append, ltb, none, not, ok, ok_or, parse_failed,
  refl, some, store_too_small, sym, take, take-append, true, ◌++◌, ◌+◌, ◌>>=◌, ◌>>◌, ◌≡◌, ◌≤◌,
}
use grokingclawid.OAuth.{OAuthStore, empty_store}

pub record Sealing : Type 0 where
  -- `Hkdf::new(None, key)` and `expand` to 32 bytes, of a key and a context
  pub hkdf : Bytes → Bytes → Bytes
  -- `encrypt` and `decrypt` of a key, a nonce and a text
  pub encrypt : Bytes → Bytes → Bytes → Option Bytes
  pub decrypt : Bytes → Bytes → Bytes → Option Bytes
  pub to_vec : OAuthStore → Bytes
  pub from_slice : Bytes → Option OAuthStore

-- What is encrypted is decrypted again under the same key and nonce, and is longer than nothing, for
-- it ends in a tag.
pub record IsFaithful (C : Sealing) : Type 0 where
  pub decrypt-encrypt :
      (key nonce plain sealed : Bytes)
      → C.encrypt key nonce plain ≡ some sealed
      → C.decrypt key nonce sealed ≡ some plain
  pub encrypt-length :
      (key nonce plain sealed : Bytes) → C.encrypt key nonce plain ≡ some sealed → 1 ≤ length sealed

module _ (C : Sealing) where
  unfoldable pub derive_encryption_key : Bytes → Bytes
  derive_encryption_key signing_key = C.hkdf signing_key (ascii "grokingclaw-oauth-store-v1")

  -- The file, if there is one; `fresh_id` is the random id of a new store.
  unfoldable pub load : Option Bytes → Bytes → Text → Result OAuthStore
  load none signing_key fresh_id = ok (empty_store fresh_id)
  load (some file) signing_key fresh_id = do
    ensure (not (ltb (length file) (12 + 1))) store_too_small
    let key = derive_encryption_key signing_key
    plaintext ← ok_or (C.decrypt key (take 12 file) (drop 12 file)) decrypt_failed
    ok_or (C.from_slice plaintext) parse_failed

  -- The bytes of the file. The nonce is 12 random bytes.
  unfoldable pub save : OAuthStore → Bytes → Bytes → Result Bytes
  save store signing_key nonce_bytes = do
    let key = derive_encryption_key signing_key
    ciphertext ← ok_or (C.encrypt key nonce_bytes (C.to_vec store)) encrypt_failed
    ok (nonce_bytes ++ ciphertext)

  -- A store that serde_json reads back from its text is, when it is saved under any nonce of 12 bytes,
  -- loaded again with the same signing key.
  pub load-save :
      (store : OAuthStore) (signing_key nonce file : Bytes) (fresh_id : Text)
      → IsFaithful C
      → C.from_slice (C.to_vec store) ≡ some store
      → length nonce ≡ 12
      → save store signing_key nonce ≡ ok file
      → load (some file) signing_key fresh_id ≡ ok store
  unfolding load save
  load-save store signing_key nonce file fresh_id F reads n e =
      let key = derive_encryption_key signing_key in
      elim (Option-cases (C.encrypt key nonce (C.to_vec store))) [
        | inl failed ↦ absurd (ground arith)
        | inr (sealed, done) ↦
            let same : nonce ++ sealed ≡ file = ground arith in
            let big : not (ltb (length (nonce ++ sealed)) (12 + 1)) ≡ true = ground (
              arith,
              length-append nonce sealed,
              F.encrypt-length key nonce (C.to_vec store) sealed done,
            ) in
            rw (sym same) (
              rw
                (
                  load,
                  big,
                  take-append 12 nonce sealed (sym n),
                  drop-append 12 nonce sealed (sym n),
                  F.decrypt-encrypt key nonce (C.to_vec store) sealed done,
                  reads,
                )
                refl)
      ]
