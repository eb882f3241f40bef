-- ===== src/Shadow/Reading.antt =====
-- leaf/src/proxy/shadowsocks/shadow.rs: what `poll_read` gets out of the chunks of a stream, however
-- the transport cuts it.
pub mod Payloads
pub mod Lengths
use i_leaf.Prelude.{
  ℕ, ◌+◌, ◌-◌, ◌^◌, ◌<◌, ◌≤◌, ◌≡◌, refl, sym, ap, ◌∙◌, List, [], ◌∷◌, ◌++◌, length, take, drop, min,
  take-append_take, append-parts, take-all, take-append_left, length-take, length-drop,
  length-append, ltb, leb, Bool-cases, inl, inr, ok, err, Option, some, true, arith,
}
use i_leaf.Prelude.Bytes.{to_be, of_be, of_be-to_be}
use i_leaf.Prelude.Stream.{unexpected_eof}
use i_leaf.Prelude.Polls.{
  Event, Poll, ReadBuf, got, fill, content, IsClean, remaining, Fill, waits, fills, ends, fill-Fill,
}
use i_leaf.Prelude.Drain.{Polled, drain, Progress, drain-Streams, Streams, ready_then, or_fail}
use i_leaf.Prelude.Drain
use i_leaf.Crypto.{shadowsocks_nonce, advance}
use i_leaf.Shadow.Cipher.{Algorithm, Aead, tag_len, session_cipher, decrypt}
use i_leaf.Shadow.Reader.{
  ReadState, waiting_salt, waiting_length, waiting_data, pending_data, Reader, new_reader,
  poll_read_exact, read_u16, read_pending, decrypt_buf, got_data, read_data, got_length,
  read_length, got_salt, read_salt, read_in, poll_read,
}
use mathlib.Core.List.{append_assoc}
use i_leaf.Shadow.Chunks.{Carries, concat, advanced}
use i_leaf.Shadow.Reading.Payloads.{Inv, Reads, read_pending-Reads, read_data-Reads}
use i_leaf.Shadow.Reading.Lengths.{read_length-Reads}

module _ (a : Algorithm) (psk : List ℕ) where
  module _ (size : ℕ) (some_room : 0 < size) where
    session_cipher_lem :
        (salt key : List ℕ)
        → a.hkdf_sha1 psk salt ≡ some key
        → session_cipher a psk salt
          ≡ ok (record { key = key; nonce = shadowsocks_nonce a.nonce_len })
    unfolding session_cipher
    session_cipher_lem salt key h = rw h refl

    got_salt-Reads :
        (dec : Option Aead) (salt bytes key : List ℕ) (ps : List (List ℕ)) (k m : ℕ)
        (out : Poll (Unit {0}) × ReadBuf × List Event)
        → length salt ≡ a.key_len
        → a.hkdf_sha1 psk salt ≡ some key
        → Carries a (record { key = key; nonce = shadowsocks_nonce a.nonce_len }) bytes ps
        → k + length (concat ps) ≤ m
        → Fill (salt ++ bytes) a.key_len k out
        → Reads a psk size some_room (concat ps) m (
            ready_then
              (out.0, record { dec = dec; read_buf = out.1; read_state = waiting_salt }, out.2)
              (got_salt a psk size))
    unfolding got_salt
    got_salt-Reads dec salt bytes key ps k m _ ls hk carries bound (waits b t h l e clean r) =
        Drain.waits _ _ (remaining t + length (concat ps)) (omega arith)
          (clean, omega arith, (salt, bytes, key, ps, h, l, e, ls, hk, carries, refl))
    got_salt-Reads dec salt bytes key ps k m _ ls hk carries bound (ends b l) =
        absurd (omega (arith, length-append salt bytes))
    got_salt-Reads dec salt bytes key ps k m _ ls hk carries bound (fills b t h l e clean r) =
        let (front, rest) = append-parts b.buf salt (content t) bytes (l ∙ sym ls) e in
        let whole : take a.key_len salt ≡ salt =
          ap (λ (i : ℕ). take i salt) (sym ls) ∙ take-all salt in
        let c : Aead = record { key = key; nonce = shadowsocks_nonce a.nonce_len } in
        let none_yet : take {A = ℕ} b.pos [] ≡ [] = ap (λ (i : ℕ). take i []) h in
        let step =
          read_length-Reads a psk size some_room c ps (record { buf = []; pos = b.pos }) t m clean
            (omega arith) (omega arith) (rw (none_yet, rest) carries) (omega arith) in
        rw (front, whole, session_cipher_lem salt key hk) step

    read_in-Reads :
        (state : ReadState) (dec : Option Aead) (b : ReadBuf) (t : List Event) (rest : List ℕ)
        (n : ℕ)
        → Inv a psk (record { dec = dec; read_buf = b; read_state = state }) t rest n
        → Reads a psk size some_room rest n
            (read_in a psk state size (record { dec = dec; read_buf = b; read_state = state }) t)
    unfolding read_in read_salt poll_read_exact
    read_in-Reads waiting_salt dec b t rest n
          (clean, bound, (salt, bytes, key, ps, h, l, e, ls, hk, carries, q)) =
        let filled : Fill (salt ++ bytes) a.key_len (remaining t) (fill a.key_len b t) =
          rw e at (fill-Fill a.key_len b t h l clean) in
        rw q (
          got_salt-Reads dec salt bytes key ps (remaining t) n (fill a.key_len b t) ls hk carries
            (rw q at bound) filled)
    read_in-Reads waiting_length dec b t rest n (clean, bound, (c, ps, d, h, l, carries, q)) =
        rw (d, q)
          (read_length-Reads a psk size some_room c ps b t n clean h l carries (rw q at bound))
    read_in-Reads (waiting_data k) dec b t rest n
          (clean, bound, (c, y, p, more, ps, d, h, l, e, ly, op, lp, pos, carries, q)) =
        rw (d, q)
          (read_data-Reads a psk size some_room k c y p more ps b t n clean h l e ly op lp pos
            carries (rw q at bound))
    read_in-Reads (pending_data k) dec b t rest n
          (clean, bound, (c, ps, d, at0, fits, pos, carries, q)) =
        rw (d, q)
          (read_pending-Reads a psk size some_room k c b t ps n (pending_data k) clean at0 fits pos
            carries
            (omega (
              arith,
              ap (λ (l : List ℕ). length l) q,
              length-append (take k b.buf) (concat ps),
              length-take k b.buf,
            )))

    poll_read-Reads :
        (s : Reader) (t : List Event) (rest : List ℕ) (n : ℕ)
        → Inv a psk s t rest n
        → Reads a psk size some_room rest n (poll_read a psk size s t)
    unfolding poll_read
    poll_read-Reads s t rest n i = read_in-Reads s.read_state s.dec s.read_buf t rest n i

    pub new_reader-Streams :
        (salt bytes key : List ℕ) (ps : List (List ℕ)) (t : List Event)
        → 0 < a.key_len
        → IsClean t
        → content t ≡ salt ++ bytes
        → length salt ≡ a.key_len
        → a.hkdf_sha1 psk salt ≡ some key
        → Carries a (record { key = key; nonce = shadowsocks_nonce a.nonce_len }) bytes ps
        → Streams
            (poll_read a psk size)
            (err unexpected_eof)
            new_reader
            t
            (concat ps)
            (remaining t + length (concat ps))
    unfolding new_reader
    new_reader-Streams salt bytes key ps t keyed clean e ls hk carries = record {
      Inv = Inv a psk;
      step = poll_read-Reads;
      start = (
        clean,
        omega arith,
        (salt, bytes, key, ps, keyed, omega arith, e, ls, hk, carries, refl),
      );
    }

    -- A reader with a buffer that is not empty gets exactly the payloads of the chunks behind the
    -- salt, joined in order, and then the error of an early end, however the transport cuts the
    -- bytes and whenever it is not ready, unless a read of it fails; as many polls as the
    -- transport has bytes and answers and the payloads have bytes are enough.
    pub drain-new_reader :
        (salt bytes key : List ℕ) (ps : List (List ℕ)) (t : List Event) (fuel : ℕ)
        → 0 < a.key_len
        → IsClean t
        → content t ≡ salt ++ bytes
        → length salt ≡ a.key_len
        → a.hkdf_sha1 psk salt ≡ some key
        → Carries a (record { key = key; nonce = shadowsocks_nonce a.nonce_len }) bytes ps
        → remaining t + length (concat ps) < fuel
        → drain (poll_read a psk size) fuel new_reader t ≡ some (concat ps, err unexpected_eof)
    drain-new_reader salt bytes key ps t fuel keyed clean e ls hk carries enough =
        drain-Streams (poll_read a psk size) (err unexpected_eof) fuel _ new_reader t (concat ps)
          enough (new_reader-Streams salt bytes key ps t keyed clean e ls hk carries)
