-- ===== src/Vmess/Reading.antt =====
-- leaf/src/proxy/vmess/stream.rs: what `poll_read` gets out of the chunks of a stream, however the
-- transport cuts it.
pub mod Payloads
pub mod Lengths
use i_leaf.Prelude.{
  ℕ, ◌+◌, ◌-◌, ◌<◌, ◌≤◌, ◌≡◌, refl, sym, ap, ◌∙◌, List, [], ◌∷◌, ◌++◌, length, take, drop, min, ltb,
  leb, ◌==◌, length-take, length-drop, length-append, take-append_left, take-all, take-append_take,
  append-parts, Bool-cases, true, false, ◌⊎◌, inl, inr, Option, none, some, Outcome, ok, err, arith,
}
use i_leaf.Prelude.Stream.{unexpected_eof}
use i_leaf.Prelude.Polls.{
  Event, Poll, ReadBuf, got, fill, content, IsClean, remaining, Fill, waits, fills, ends, fill-Fill,
}
use i_leaf.Prelude.Drain.{
  Polled, Progress, closing, ready_then, or_fail, Streams, drain, drain-Streams,
}
use i_leaf.Prelude.Drain
use i_leaf.Crypto.{VmessSequence, vmess_advance, next_padding_len, decode_size}
use i_leaf.Shadow.{Algorithm, tag_len}
use i_leaf.Shadow.Chunks.{concat}
use i_leaf.Vmess.Cipher.{VmessAead, vmess_decrypt}
use i_leaf.Vmess.Reader.{
  ReadState, waiting_response_header, waiting_length, waiting_data, pending_data, ResponseSession,
  Reader, new_reader, poll_read_exact, with_buf, read_pending, got_data, read_data, got_length,
  read_length, got_header, read_header, read_in, poll_read, got_text, got_size, checked,
}
use i_leaf.Vmess.Chunks.{Chunk, Ending, cut, closed, final_of, EndsAs, Carries}
use mathlib.Core.List.{append_assoc}
use i_leaf.Vmess.Reading.Payloads.{After, Due, Inv, Reads, read_pending-Reads, read_data-Reads}
use i_leaf.Vmess.Reading.Lengths.{read_length-Reads}

module _ (a : Algorithm) (shake : ℕ → ℕ) (cfb_decrypt : List ℕ → List ℕ → List ℕ → Option (List ℕ))
    (e : Ending) where
  module _ (size : ℕ) (some_room : 0 < size) where
    got_header-Reads :
        (s : Reader) (k m : ℕ) (header bytes more : List ℕ) (ps : List (List ℕ))
        (out : Poll (Unit {0}) × ReadBuf × List Event)
        → s.read_state ≡ waiting_response_header
        → length header ≡ 4
        → cfb_decrypt s.sess.response_body_key s.sess.response_body_iv header
          ≡ some (s.sess.response_header ∷ more)
        → Carries a shake e s.dec s.dec_size_parser bytes ps
        → k + length (concat ps) ≤ m
        → Fill (header ++ bytes) 4 k out
        → Reads a shake cfb_decrypt e size some_room (concat ps) m (
            ready_then
              (out.0, record s { read_buf = out.1 }, out.2)
              (got_header a shake cfb_decrypt size))
    unfolding got_header
    got_header-Reads s k m header bytes more ps _ state lh opens carries bound
          (waits b t h l q clean r) =
        Drain.waits _ t (remaining t + length (concat ps)) (omega arith) (
          clean,
          omega arith,
          rw state (header, bytes, more, ps, h, l, q, lh, opens, carries, refl),
        )
    got_header-Reads s k m header bytes more ps _ state lh opens carries bound (ends b l) =
        absurd (omega (arith, length-append header bytes))
    got_header-Reads s k m header bytes more ps _ state lh opens carries bound
          (fills b t h l q clean r) =
        let (front, rest) = append-parts b.buf header (content t) bytes (l ∙ sym lh) q in
        let decrypted : cfb_decrypt s.sess.response_body_key s.sess.response_body_iv b.buf
            ≡ some (s.sess.response_header ∷ more) =
          rw front opens in
        let same : (s.sess.response_header == s.sess.response_header) ≡ true = ground arith in
        let s' : Reader = record s {
          read_buf = record { buf = s.sess.response_header ∷ more; pos = b.pos };
          read_state = waiting_length;
        } in
        let none_yet : take b.pos (s.sess.response_header ∷ more) ≡ [] =
          ap (λ (i : ℕ). take i (s.sess.response_header ∷ more)) h in
        let here : take b.pos (s.sess.response_header ∷ more) ++ content t ≡ bytes =
          rw none_yet rest in
        rw (decrypted, same)
          (read_length-Reads a shake cfb_decrypt e size some_room s' t ps m refl clean (omega arith)
            (omega arith) (rw here carries) (omega arith))

    read_in-Reads :
        (state : ReadState) (s : Reader) (t : List Event) (rest : List ℕ) (m : ℕ)
        → s.read_state ≡ state
        → IsClean t
        → remaining t + length rest ≤ m
        → Due a shake cfb_decrypt e state s.sess s.dec s.dec_size_parser s.read_buf t rest
        → Reads a shake cfb_decrypt e size some_room rest m
            (read_in a shake cfb_decrypt state size s t)
    unfolding read_in read_header poll_read_exact
    read_in-Reads waiting_response_header s t rest m state clean bound
          (header, bytes, more, ps, h, l, q, lh, opens, carries, r) =
        let filled : Fill (header ++ bytes) 4 (remaining t) (fill 4 s.read_buf t) =
          rw q at (fill-Fill 4 s.read_buf t h l clean) in
        rw r (
          got_header-Reads s (remaining t) m header bytes more ps (fill 4 s.read_buf t) state lh
            opens carries (rw r at bound) filled)
    read_in-Reads waiting_length s t rest m state clean bound (ps, h, l, carries, r) = rw r (
        read_length-Reads a shake cfb_decrypt e size some_room s t ps m state clean h l carries
          (rw r at bound))
    read_in-Reads (waiting_data n padding) s t rest m state clean bound
          (y, z, more, p, nonce, next, ps, h, l, q, is_n, is_padding, adv, op, ly, later, r) =
        rw r (
          read_data-Reads a shake cfb_decrypt e size some_room s t n padding m y z more p nonce next
            ps state clean h l q is_n is_padding adv op ly later (rw r at bound))
    read_in-Reads (pending_data n) s t rest m state clean bound (ps, at0, fits, pos, carries, r) =
        rw r (
          read_pending-Reads a shake cfb_decrypt e size some_room n s t ps m clean at0 fits pos
            carries
            (omega (
              arith,
              ap (λ (l : List ℕ). length l) r,
              length-append (take n s.read_buf.buf) (concat ps),
              length-take n s.read_buf.buf,
            )))

    poll_read-Reads :
        (s : Reader) (t : List Event) (rest : List ℕ) (m : ℕ)
        → Inv a shake cfb_decrypt e s t rest m
        → Reads a shake cfb_decrypt e size some_room rest m (poll_read a shake cfb_decrypt size s t)
    unfolding poll_read
    poll_read-Reads s t rest m (clean, bound, due) =
        read_in-Reads s.read_state s t rest m refl clean bound due

    pub new_reader-Streams :
        (sess : ResponseSession) (dec : VmessAead) (header bytes more : List ℕ) (ps : List (List ℕ))
        (t : List Event)
        → IsClean t
        → content t ≡ header ++ bytes
        → length header ≡ 4
        → cfb_decrypt sess.response_body_key sess.response_body_iv header
          ≡ some (sess.response_header ∷ more)
        → Carries a shake e dec 0 bytes ps
        → Streams
            (poll_read a shake cfb_decrypt size)
            (final_of e)
            (new_reader sess dec)
            t
            (concat ps)
            (remaining t + length (concat ps))
    unfolding new_reader
    new_reader-Streams sess dec header bytes more ps t clean q lh opens carries = record {
      Inv = Inv a shake cfb_decrypt e;
      step = poll_read-Reads;
      start = (
        clean,
        omega arith,
        (header, bytes, more, ps, omega arith, omega arith, q, lh, opens, carries, refl),
      );
    }

    -- Behind a response header that opens to the byte of the session, a reader with a buffer that is
    -- not empty gets exactly the payloads of the chunks, joined in order, and then the end of the
    -- stream where a chunk carries nothing, or the error of an early end where the transport ends
    -- between two chunks, however the transport cuts the bytes, unless a read of it fails; the
    -- random padding of a chunk is left out. As many polls as the transport has bytes and answers
    -- and the payloads have bytes are enough.
    pub drain-vmess_reader :
        (sess : ResponseSession) (dec : VmessAead) (header bytes more : List ℕ) (ps : List (List ℕ))
        (t : List Event) (fuel : ℕ)
        → IsClean t
        → content t ≡ header ++ bytes
        → length header ≡ 4
        → cfb_decrypt sess.response_body_key sess.response_body_iv header
          ≡ some (sess.response_header ∷ more)
        → Carries a shake e dec 0 bytes ps
        → remaining t + length (concat ps) < fuel
        → drain (poll_read a shake cfb_decrypt size) fuel (new_reader sess dec) t
          ≡ some (concat ps, final_of e)
    drain-vmess_reader sess dec header bytes more ps t fuel clean q lh opens carries enough =
        drain-Streams (poll_read a shake cfb_decrypt size) (final_of e) fuel _ (new_reader sess dec)
          t (concat ps) enough
          (new_reader-Streams sess dec header bytes more ps t clean q lh opens carries)
