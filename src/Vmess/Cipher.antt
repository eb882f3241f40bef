-- ===== src/Vmess/Cipher.antt =====
-- leaf/src/common/crypto.rs: `AeadEncryptor` and `AeadDecryptor` with the nonce sequence of VMess.
use i_leaf.Prelude.{ℕ, List, Outcome, ok, err, panic}
use i_leaf.Prelude.Stream.{IoError}
use i_leaf.Crypto.{VmessSequence, vmess_advance}
use i_leaf.Shadow.{Algorithm, sealed_by, opened_in}

pub record VmessAead : Type 0 where
  pub key : List ℕ
  pub sequence : VmessSequence

abbrev pub Advanced : Type 0
Advanced = Outcome (Unit {0}) (List ℕ × VmessSequence)

module _ (a : Algorithm) (c : VmessAead) (in_out : List ℕ) where
  abbrev pub encrypt_with : Advanced → Outcome IoError (List ℕ) × VmessAead
  encrypt_with (ok (nonce, next)) =
      (sealed_by (a.seal c.key nonce in_out), record c { sequence = next })
  encrypt_with (err e) = (panic, c)
  encrypt_with panic = (panic, c)

  -- The nonce goes on, whether the call succeeds or not.
  unfoldable pub vmess_encrypt : Outcome IoError (List ℕ) × VmessAead
  vmess_encrypt = encrypt_with (vmess_advance c.sequence)

  abbrev pub decrypt_with : Advanced → Outcome IoError (List ℕ) × VmessAead
  decrypt_with (ok (nonce, next)) =
      (opened_in in_out (a.open_sealed c.key nonce in_out), record c { sequence = next })
  decrypt_with (err e) = (panic, c)
  decrypt_with panic = (panic, c)

  unfoldable pub vmess_decrypt : Outcome IoError (List ℕ) × VmessAead
  vmess_decrypt = decrypt_with (vmess_advance c.sequence)
