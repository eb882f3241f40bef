-- ===== src/Shadow/Packets.antt =====
-- leaf/src/proxy/shadowsocks/shadow.rs: one end's datagrams against the other end's.
use i_leaf.Prelude.{
  ℕ, ◌+◌, ◌-◌, ◌<◌, ◌≤◌, ◌≡◌, refl, sym, ap, ◌∙◌, List, [], ◌∷◌, ◌++◌, length, take, drop, min, ltb,
  take-append_left, drop-append_left, take-all, length-append, length-replicate, false, some,
  Outcome, ok, arith,
}
use i_leaf.Prelude.Stream.{IoError}
use i_leaf.Prelude.Polls.{take-ge}
use i_leaf.Crypto.{shadowsocks_nonce, advance}
use i_leaf.Crypto.Nonces.{length-inc}
use i_leaf.Shadow.Cipher.{Algorithm, IsAlgorithm, Aead, tag_len, session_cipher, encrypt, decrypt}
use i_leaf.Shadow.Datagram.{send_to, recv_from, received, opened}

no_less : (m n : ℕ) → n ≤ m → ltb m n ≡ false
no_less m n h = ground arith

module _ (a : Algorithm) (law : IsAlgorithm a) (psk salt : List ℕ) where
  send_to-sends :
      (half : List ℕ → Outcome IoError ℕ) (buf : List ℕ) (k : ℕ)
      → length salt ≡ a.key_len
      → 0 < length buf
      → length buf ≤ 0x3fff
      → ((packet : List ℕ) → half packet ≡ ok k)
      → (key : List ℕ) × (y : List ℕ) × (a.hkdf_sha1 psk salt ≡ some key)
        × (a.open_sealed key (advance (shadowsocks_nonce a.nonce_len)) y ≡ some buf)
        × (length y ≡ length buf + tag_len)
        × (send_to a psk half salt buf ≡ (ok (length buf), some (salt ++ y)))
  unfolding send_to session_cipher encrypt advance shadowsocks_nonce
  send_to-sends half [] k whole pos small accepts = absurd (omega arith)
  send_to-sends half (b ∷ buf) k whole pos small accepts =
      let (key, h, l) = law.derives psk salt in
      let nonce = shadowsocks_nonce a.nonce_len in
      let (y, sy, ly, oy) =
        law.seals key (advance nonce) (b ∷ buf) l
          (length-inc nonce ∙ length-replicate a.nonce_len 0xff) small in
      (key, y, h, oy, ly, rw (h, sy, accepts (salt ++ y)) refl)

  opened-ok :
      (n room : ℕ) (c : Aead) (y p : List ℕ)
      → length y ≡ length p + tag_len
      → n ≡ a.key_len + length y
      → a.open_sealed c.key (advance c.nonce) y ≡ some p
      → length p ≤ room
      → opened a psk n room c y ≡ ok p
  unfolding opened decrypt
  opened-ok n room c y p ly is_n oy fits =
      let long : ltb (length y) tag_len ≡ false = ground arith in
      let count : n - a.key_len - tag_len ≡ length p = omega arith in
      let all : min room (length p) ≡ length p = omega arith in
      rw (long, oy, count, take-append_left p (drop (length p) y), all, take-all p) refl

  -- What one end sends in a packet, the other end receives: where the transport takes packets,
  -- `send_to` of a buffer that is not empty and fits one sealed message counts the whole buffer and
  -- gives the transport one packet, longer by the salt and the tag, and `recv_from` with the same
  -- key gets exactly the buffer out of it, with the sender's address, where the caller's buffer has
  -- the room, though the transport cuts a packet to the buffer that it is given.
  pub recv_from-send_to :
      (half : List ℕ → Outcome IoError ℕ) (buf : List ℕ) (k room addr : ℕ)
      → length salt ≡ a.key_len
      → 0 < length buf
      → length buf ≤ 0x3fff
      → ((packet : List ℕ) → half packet ≡ ok k)
      → length buf ≤ room
      → (packet : List ℕ) × (send_to a psk half salt buf ≡ (ok (length buf), some packet))
        × (length packet ≡ a.key_len + length buf + tag_len)
        × (recv_from a psk (λ size. ok (take size packet, addr)) room ≡ ok (buf, addr))
  unfolding recv_from received session_cipher
  recv_from-send_to half buf k room addr whole pos small accepts fits =
      let (key, y, h, oy, ly, e) = send_to-sends half buf k whole pos small accepts in
      let len : length (salt ++ y) ≡ a.key_len + length y = omega (arith, length-append salt y) in
      let uncut : take (a.key_len + room + tag_len) (salt ++ y) ≡ salt ++ y =
        take-ge (a.key_len + room + tag_len) (salt ++ y) (omega arith) in
      let long : ltb (length (salt ++ y)) a.key_len ≡ false =
        no_less (length (salt ++ y)) a.key_len (omega arith) in
      let front : take a.key_len (salt ++ y) ≡ salt =
        ap (λ (i : ℕ). take i (salt ++ y)) (sym whole) ∙ take-append_left salt y in
      let back : drop a.key_len (salt ++ y) ≡ y =
        ap (λ (i : ℕ). drop i (salt ++ y)) (sym whole) ∙ drop-append_left salt y in
      let c : Aead = record { key = key; nonce = shadowsocks_nonce a.nonce_len } in
      let text = opened-ok (length (salt ++ y)) room c y buf ly len oy fits in
      (salt ++ y, e, omega arith, rw (uncut, long, front, back, h, text) refl)
