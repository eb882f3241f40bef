-- ===== src/Crypto.antt =====
-- leaf/src/proxy/shadowsocks/crypto.rs and leaf/src/proxy/vmess/crypto.rs: the nonces of the
-- two ciphers and the masked chunk sizes. The byte stream of SHAKE-128 is a parameter.
pub mod Nonces
pub mod Sizes
mod Tests
use i_leaf.Prelude.{
  ℕ, zero, suc, ◌+◌, ◌-◌, ◌%◌, ◌^◌, List, [], ◌∷◌, ◌++◌, length, take, drop, replicate, Bool, true,
  false, ltb, leb, ◌==◌, if◌then◌else◌, Outcome, ok, err, panic, ◌>>=◌,
}
use i_leaf.Prelude.Bytes.{to_be, of_be}
use Prim.Native.Nat.{bit_xor}

-- `ShadowsocksNonceSequence`: a little-endian counter of the nonce length, from all ones.
unfoldable pub shadowsocks_nonce : ℕ → List ℕ
shadowsocks_nonce size = replicate size 0xff

-- The loop returns at the first byte that does not wrap to 0.
unfoldable pub inc : List ℕ → List ℕ
inc [] = []
inc (x ∷ xs) =
    let more = inc xs in if (x + 1) % 256 == 0 then ((x + 1) % 256) ∷ more else ((x + 1) % 256) ∷ xs

-- The new state is the nonce that is handed out.
unfoldable pub advance : List ℕ → List ℕ
advance nonce = inc nonce

-- `VMessAEADSequence`.
pub record VmessSequence : Type 0 where
  pub nonce : List ℕ
  pub size : ℕ
  pub count : ℕ

-- `new` asserts that the iv is long enough.
unfoldable pub vmess_sequence : List ℕ → ℕ → Outcome (Unit {0}) VmessSequence
vmess_sequence nonce size =
    if leb size (length nonce)
    then ok (record { nonce = nonce; size = size; count = 0xffff })
    else panic

-- `BigEndian::write_u16` panics on a slice of fewer than two bytes, and so does `[..size]`.
unfoldable pub vmess_advance : VmessSequence → Outcome (Unit {0}) (List ℕ × VmessSequence)
vmess_advance s =
    let count = (s.count + 1) % 2 ^ 16 in
    if ltb (length s.nonce) 2
    then panic
    else (let nonce = to_be 2 count ++ drop 2 s.nonce in
        if leb s.size (length nonce)
        then ok (take s.size nonce, record s { nonce = nonce; count = count })
        else panic)

-- `ShakeSizeParser`: the position in the byte stream that the iv determines.
module _ (shake : ℕ → ℕ) where
  unfoldable pub next_mask : ℕ → ℕ × ℕ
  next_mask pos = (of_be (shake pos ∷ shake (pos + 1) ∷ []), pos + 2)

  -- `assert b.len() >= 2`.
  unfoldable pub decode_size : ℕ → List ℕ → Outcome (Unit {0}) (ℕ × ℕ)
  unfolding next_mask
  decode_size pos b =
      let (mask, pos') = next_mask pos in
      if leb 2 (length b) then ok (bit_xor mask (of_be (take 2 b)), pos') else panic

  unfoldable pub encode_size : ℕ → ℕ → List ℕ × ℕ
  unfolding next_mask
  encode_size pos size = let (mask, pos') = next_mask pos in (to_be 2 (bit_xor mask size), pos')

  unfoldable pub next_padding_len : ℕ → ℕ × ℕ
  unfolding next_mask
  next_padding_len pos = let (mask, pos') = next_mask pos in (mask % 64, pos')
