-- ===== src/Dispatcher/Relay.antt =====
-- leaf/src/app/dispatcher.rs: the two directions of a connection. The uplink copies the client's
-- stream behind the sniffer; the downlink copies an outbound's stream. A copy reads 2048 bytes at
-- most at a time.
use i_leaf.Prelude.{
  ℕ, ◌+◌, ◌*◌, ◌%◌, ◌^◌, ◌<◌, ◌≡◌, List, [], ◌∷◌, ◌++◌, length, ok, err, some, arith,
}
use i_leaf.Prelude.Stream.{unexpected_eof}
use i_leaf.Prelude.Polls.{Event, content, IsClean, remaining}
use i_leaf.Prelude.Writes.{WriteEvent, IsOpen, Sink}
use i_leaf.Dispatcher.{sniffing_stream, sniff, poll_read}
use i_leaf.Dispatcher.Replay.{sniff-Streams}
use i_leaf.Dispatcher.Transfer.{transfer, copy}
use i_leaf.Dispatcher.Copy.{copy-Streams}
use i_leaf.Shadow
use i_leaf.Shadow.{Algorithm, Aead, new_reader}
use i_leaf.Shadow.Chunks.{Carries, concat}
use i_leaf.Shadow.Reading.{new_reader-Streams}
use i_leaf.Crypto.{shadowsocks_nonce}
use i_leaf.Vless
use i_leaf.Vless.{vless_auth_stream}
use i_leaf.Vless.Transparent.{vless_auth_stream-Streams}

-- The uplink gives the outbound exactly what the client sends, whatever the sniffer read of it and
-- however both transports cut the bytes, and ends with the count of the bytes in 64 bits, where
-- no read fails and no write fails or takes no byte, in the rounds that are given.
pub copy-sniff :
    (lossy : List ℕ → List ℕ) (reads fuel : ℕ) (t : List Event) (answers : List WriteEvent)
    → IsClean t
    → IsOpen answers
    → 2 * (remaining t + length (content t)) + length answers < fuel
    → (k : Sink) × (copy
          (poll_read 2048)
          fuel
          (transfer (sniff lossy reads sniffing_stream t).1)
          (sniff lossy reads sniffing_stream t).2
          (record { out = []; answers = answers })
        ≡ some (ok (length (content t) % 2 ^ 64), k))
      × (k.out ≡ content t)
copy-sniff lossy reads fuel t answers clean open_sink enough =
    copy-Streams (poll_read 2048) (ok tt) fuel _ _ _ (content t) answers
      (sniff-Streams lossy reads 2048 t (omega arith) clean) open_sink enough

-- The downlink of a Shadowsocks outbound gives the client exactly the payloads of the server's
-- chunks, none of which is empty, joined in order, but ends with the error of an early end and not
-- with a count, where no read fails and no write fails or takes no byte, in the rounds that are
-- given.
pub copy-new_reader :
    (a : Algorithm) (psk salt bytes key : List ℕ) (ps : List (List ℕ)) (fuel : ℕ) (t : List Event)
    (answers : List WriteEvent)
    → 0 < a.key_len
    → IsClean t
    → content t ≡ salt ++ bytes
    → length salt ≡ a.key_len
    → a.hkdf_sha1 psk salt ≡ some key
    → Carries a (record { key = key; nonce = shadowsocks_nonce a.nonce_len }) bytes ps
    → IsOpen answers
    → 2 * (remaining t + length (concat ps)) + length answers < fuel
    → (k : Sink) × (copy
          (Shadow.poll_read a psk 2048)
          fuel
          (transfer new_reader)
          t
          (record { out = []; answers = answers })
        ≡ some (err unexpected_eof, k))
      × (k.out ≡ concat ps)
copy-new_reader a psk salt bytes key ps fuel t answers keyed clean e ls hk carries open_sink
      enough =
    copy-Streams (Shadow.poll_read a psk 2048) (err unexpected_eof) fuel _ new_reader t (concat ps)
      answers
      (new_reader-Streams a psk 2048 (omega arith) salt bytes key ps t keyed clean e ls hk carries)
      open_sink enough

-- The downlink of a VLESS outbound gives the client exactly what follows the two zero bytes of the
-- response header, and ends with the count of these bytes in 64 bits, where no read fails and no
-- write fails or takes no byte, in the rounds that are given.
pub copy-vless_auth_stream :
    (fuel : ℕ) (t : List Event) (payload : List ℕ) (answers : List WriteEvent)
    → IsClean t
    → content t ≡ 0 ∷ 0 ∷ payload
    → IsOpen answers
    → 2 * remaining t + length answers < fuel
    → (k : Sink) × (copy
          (Vless.poll_read 2048)
          fuel
          (transfer vless_auth_stream)
          t
          (record { out = []; answers = answers })
        ≡ some (ok (length payload % 2 ^ 64), k))
      × (k.out ≡ payload)
copy-vless_auth_stream fuel t payload answers clean e open_sink enough =
    copy-Streams (Vless.poll_read 2048) (ok tt) fuel (remaining t) vless_auth_stream t payload
      answers (vless_auth_stream-Streams 2048 t payload (omega arith) clean e) open_sink enough
