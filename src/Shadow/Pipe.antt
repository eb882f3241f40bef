-- ===== src/Shadow/Pipe.antt =====
-- leaf/src/proxy/shadowsocks/shadow.rs: one end's `poll_write` against the other end's `poll_read`.
use i_leaf.Prelude.{
  ℕ, ◌+◌, ◌<◌, ◌≡◌, sym, ap, ◌∙◌, List, [], length, take, take-all, ok, err, some, arith,
}
use i_leaf.Prelude.Stream.{unexpected_eof}
use i_leaf.Prelude.Polls.{Event, content, IsClean, remaining}
use i_leaf.Prelude.Drain.{drain}
use i_leaf.Prelude.Writes.{Sink, WriteEvent, IsOpen}
use i_leaf.Crypto.{shadowsocks_nonce}
use i_leaf.Shadow.{
  Algorithm, IsAlgorithm, Aead, session_cipher, new_reader, poll_read, new_writer, poll_write,
}
use i_leaf.Shadow.Reading.{drain-new_reader}
use i_leaf.Prelude.WriteAll.{write_all}
use i_leaf.Shadow.Writing.{write_all-new_writer}

module _ (a : Algorithm) (law : IsAlgorithm a) (psk salt : List ℕ) where
  session_cipher-eq :
      (c : Aead)
      → length salt ≡ a.key_len
      → session_cipher a psk (take a.key_len salt) ≡ ok c
      → (key : List ℕ) × (a.hkdf_sha1 psk salt ≡ some key)
        × (c ≡ record { key = key; nonce = shadowsocks_nonce a.nonce_len })
  unfolding session_cipher
  session_cipher-eq c whole h =
      let salt_eq : take a.key_len salt ≡ salt =
        ap (λ (i : ℕ). take i salt) (sym whole) ∙ take-all salt in
      let (key, k, l) = law.derives psk salt in
      let step : ok (record { key = key; nonce = shadowsocks_nonce a.nonce_len }) ≡ ok c =
        rw (salt_eq, k) at h in
      (key, k, cc)

  -- What one end writes, the other end reads: over a sink that does not fail the writer's loop ends
  -- with success for the caller's whole buffer, which is not empty, and whatever bytes went out, a
  -- reader with the same key and a buffer that is not empty gets from them exactly the caller's data,
  -- and then the error of an early end, however the two transports cut the bytes. The writer's fuel
  -- is more than the sink's answers and the data together, the reader's more than its transport's
  -- events and bytes and the data together.
  pub drain-write_all :
      (payload : List ℕ) (answers : List WriteEvent) (size fuel_out extra : ℕ)
      (transport : List ℕ → List Event)
      → length salt ≡ a.key_len
      → 0 < a.key_len
      → 0 < length payload
      → IsOpen answers
      → length answers + length payload < fuel_out
      → 0 < size
      → ((out : List ℕ) → IsClean (transport out) × (content (transport out) ≡ out))
      → (s : Sink) × (write_all
            (poll_write a psk salt)
            fuel_out
            payload
            new_writer
            (record { out = []; answers = answers })
          ≡ some (ok s))
        × (drain
              (poll_read a psk size)
              (remaining (transport s.out) + length payload + (extra + 1))
              new_reader
              (transport s.out)
            ≡ some (payload, err unexpected_eof))
  drain-write_all payload answers size fuel_out extra transport whole keyed pos open_sink enough
        room delivers =
      let (s, e, c, h, (bytes, ps, q, carries, all)) =
        write_all-new_writer a law psk salt whole keyed payload answers fuel_out pos open_sink
          enough in
      let (key, k, is_c) = session_cipher-eq c whole h in
      let (clean, same) = delivers s.out in
      let fuel = remaining (transport s.out) + length payload + (extra + 1) in
      let enough_in : remaining (transport s.out) + length payload < fuel = omega arith in
      let read =
        drain-new_reader a psk size room salt bytes key ps (transport s.out) fuel keyed clean
          (same ∙ q) whole k (rw is_c at carries) (rw all enough_in) in
      (s, e, rw all at read)
