-- ===== src/Shadow/Cipher.antt =====
-- leaf/src/common/crypto.rs: `AeadEncryptor` and `AeadDecryptor` with the nonce sequence of
-- Shadowsocks, and the derivation of a session key from the salt.
use i_leaf.Prelude.{
  ℕ, ◌+◌, ◌≤◌, ◌≡◌, List, ◌++◌, length, drop, Option, none, some, Outcome, ok, err,
}
use i_leaf.Prelude.Stream.{IoError, crypto_error}
use i_leaf.Crypto.{shadowsocks_nonce, advance}

-- What the crates give for one cipher: the lengths, sealing and opening under a key and a nonce,
-- and `hkdf_sha1` of the pre-shared key and a salt.
pub record Algorithm : Type 0 where
  pub key_len : ℕ
  pub nonce_len : ℕ
  pub seal : List ℕ → List ℕ → List ℕ → Option (List ℕ)
  pub open_sealed : List ℕ → List ℕ → List ℕ → Option (List ℕ)
  pub hkdf_sha1 : List ℕ → List ℕ → Option (List ℕ)

abbrev pub tag_len : ℕ
tag_len = 16

-- The documented behaviour of the crates: with a key and a nonce of their lengths a message of a
-- chunk's size at most is sealed, the sealed message is longer by the tag, and opens to the message.
pub record IsAlgorithm (a : Algorithm) : Type 0 where
  pub seals :
      (key nonce message : List ℕ)
      → length key ≡ a.key_len
      → length nonce ≡ a.nonce_len
      → length message ≤ 0x3fff
      → (sealed : List ℕ) × (a.seal key nonce message ≡ some sealed)
        × (length sealed ≡ length message + tag_len)
        × (a.open_sealed key nonce sealed ≡ some message)
  pub derives :
      (psk salt : List ℕ)
      → (key : List ℕ) × (a.hkdf_sha1 psk salt ≡ some key) × (length key ≡ a.key_len)

-- `AeadEncryptor` and `AeadDecryptor`.
pub record Aead : Type 0 where
  pub key : List ℕ
  pub nonce : List ℕ

abbrev pub sealed_by : Option (List ℕ) → Outcome IoError (List ℕ)
sealed_by none = err crypto_error
sealed_by (some c) = ok c

-- The plaintext replaces the front of the buffer; the tag's place behind it is not read again.
abbrev pub opened_in : List ℕ → Option (List ℕ) → Outcome IoError (List ℕ)
opened_in buf none = err crypto_error
opened_in buf (some p) = ok (p ++ drop (length p) buf)

abbrev keyed : List ℕ → Option (List ℕ) → Outcome IoError Aead
keyed nonce none = err crypto_error
keyed nonce (some key) = ok (record { key = key; nonce = nonce })

module _ (a : Algorithm) where
  -- `hkdf_sha1`, then `encryptor` or `decryptor` with a new nonce sequence.
  unfoldable pub session_cipher : List ℕ → List ℕ → Outcome IoError Aead
  session_cipher psk salt = keyed (shadowsocks_nonce a.nonce_len) (a.hkdf_sha1 psk salt)

  -- The nonce goes on, whether the call succeeds or not.
  unfoldable pub encrypt : Aead → List ℕ → Outcome IoError (List ℕ) × Aead
  encrypt c in_out =
      let nonce = advance c.nonce in
      (sealed_by (a.seal c.key nonce in_out), record { key = c.key; nonce = nonce })

  unfoldable pub decrypt : Aead → List ℕ → Outcome IoError (List ℕ) × Aead
  decrypt c in_out =
      let nonce = advance c.nonce in
      (opened_in in_out (a.open_sealed c.key nonce in_out), record { key = c.key; nonce = nonce })
