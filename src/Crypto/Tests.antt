-- ===== src/Crypto/Tests.antt =====
-- leaf/src/proxy/shadowsocks/crypto.rs and leaf/src/proxy/vmess/crypto.rs: the statements at
-- concrete inputs.
use i_leaf.Prelude.{ℕ, ◌+◌, ◌*◌, ◌%◌, ◌^◌, ◌<◌, ◌≡◌, ◌↔◌, arith}
use i_leaf.Crypto.Nonces.{nonce_at, nonce_at_eq}

abbrev stream : ℕ → ℕ
stream pos = (7 * pos + 200) % 256

stream-IsByte : (pos : ℕ) → stream pos < 256
stream-IsByte pos = omega arith

nonce_at_eq_example : (nonce_at 1 3 ≡ nonce_at 1 259) ↔ (3 % 256 ^ 1 ≡ 259 % 256 ^ 1)
nonce_at_eq_example = nonce_at_eq 1 3 259
