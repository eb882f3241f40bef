-- ===== src/Shadow/Chunks.antt =====
-- leaf/src/proxy/shadowsocks/shadow.rs: what the chunks of an encrypted stream carry, as the two
-- ends agree on it.
use i_leaf.Prelude.{ℕ, ◌+◌, ◌^◌, ◌<◌, ◌≡◌, List, [], ◌∷◌, ◌++◌, length, some}
use i_leaf.Prelude.Bytes.{to_be}
use i_leaf.Crypto.{advance}
use i_leaf.Shadow.Cipher.{Algorithm, Aead, tag_len}

abbrev pub concat : List (List ℕ) → List ℕ
concat [] = []
concat (p ∷ ps) = p ++ concat ps

-- The cipher after one more message.
abbrev pub advanced : Aead → Aead
advanced c = record { key = c.key; nonce = advance c.nonce }

-- The bytes hold the chunks, in order, under the cipher's key and the nonces that come next: the
-- sealed length and the sealed payload of each.
abbrev pub Carries : Algorithm → Aead → List ℕ → List (List ℕ) → Type 0
Carries a c bytes [] = bytes ≡ []
Carries a c bytes (p ∷ ps) =
    (x : List ℕ) × (y : List ℕ) × (more : List ℕ) × (bytes ≡ x ++ (y ++ more))
    × (length x ≡ 2 + tag_len)
    × (length y ≡ length p + tag_len)
    × (a.open_sealed c.key (advance c.nonce) x ≡ some (to_be 2 (length p)))
    × (a.open_sealed c.key (advance (advance c.nonce)) y ≡ some p)
    × (0 < length p)
    × (length p < 2 ^ 16)
    × Carries a (advanced (advanced c)) more ps
