-- ===== src/Shadow/Datagram.antt =====
-- leaf/src/proxy/shadowsocks/shadow.rs: `ShadowedDatagramSendHalf` and `ShadowedDatagramRecvHalf`,
-- which seal and open one packet with a fresh salt. The transport is a parameter: what its `send_to`
-- answers to a packet, and what its `recv_from` puts in a buffer of a given size.
use i_leaf.Prelude.{
  ℕ, ◌+◌, ◌-◌, List, [], ◌∷◌, ◌>>=◌, ◌++◌, length, take, drop, min, ltb, if◌then◌else◌, Option,
  none, some, Outcome, ok, err, panic,
}
use i_leaf.Prelude.Stream.{IoError, short_packet}
use i_leaf.Shadow.Cipher.{Algorithm, Aead, tag_len, session_cipher, encrypt, decrypt}

-- The answer to the caller, and the packet that the transport was given.
abbrev Sent : Type 0
Sent = Outcome IoError ℕ × Option (List ℕ)

abbrev answer : ℕ → Outcome IoError ℕ → Outcome IoError ℕ
answer n (ok k) = ok n
answer n (err e) = err e
answer n panic = panic

abbrev sent : (List ℕ → Outcome IoError ℕ) → List ℕ → List ℕ → Outcome IoError (List ℕ) → Sent
sent half salt buf (ok piece) = (answer (length buf) (half (salt ++ piece)), some (salt ++ piece))
sent half salt buf (err e) = (err e, none)
sent half salt buf panic = (panic, none)

abbrev sealed_with :
    (List ℕ → Outcome IoError ℕ) → Algorithm → List ℕ → List ℕ → Outcome IoError Aead → Sent
sealed_with half a salt buf (ok enc) = sent half salt buf (encrypt a enc buf).0
sealed_with half a salt buf (err e) = (err e, none)
sealed_with half a salt buf panic = (panic, none)

module _ (a : Algorithm) (psk : List ℕ) where
  -- The salt is what the random generator gives.
  unfoldable pub send_to : (List ℕ → Outcome IoError ℕ) → List ℕ → List ℕ → Sent
  send_to half salt [] = (ok 0, none)
  send_to half salt (b ∷ buf) = sealed_with half a salt (b ∷ buf) (session_cipher a psk salt)

  -- Behind the salt: the text is opened in the buffer, which then loses the tag's place.
  unfoldable pub opened : ℕ → ℕ → Aead → List ℕ → Outcome IoError (List ℕ)
  opened n room dec buffer = if ltb (length buffer) tag_len then err short_packet else do
    text ← (decrypt a dec buffer).0
    let plain = take (n - a.key_len - tag_len) text
    ok (take (min room (length plain)) plain)

  -- What arrived: the salt and what is sealed.
  unfoldable pub received : ℕ → List ℕ → Outcome IoError (List ℕ)
  received room packet = if ltb (length packet) a.key_len then err short_packet else do
    dec ← session_cipher a psk (take a.key_len packet)
    opened (length packet) room dec (drop a.key_len packet)

  -- The room is the length of the caller's buffer.
  unfoldable pub recv_from :
      {A : Type 0} → (ℕ → Outcome IoError (List ℕ × A)) → ℕ → Outcome IoError (List ℕ × A)
  recv_from half room = do
    (packet, addr) ← half (a.key_len + room + tag_len)
    payload ← received room packet
    ok (payload, addr)
