-- ===== src/Vmess/Reading/Lengths.antt =====
-- leaf/src/proxy/vmess/stream.rs: the state of `poll_read` that reads the size of a chunk.
use i_leaf.Prelude.{
  ℕ, ◌+◌, ◌<◌, ◌≤◌, ◌≡◌, refl, sym, ap, ◌∙◌, List, [], ◌∷◌, ◌++◌, length, take, length-append,
  take-all, append-parts, inl, inr, Option, ok, err, arith,
}
use i_leaf.Prelude.Stream.{unexpected_eof}
use i_leaf.Prelude.Polls.{
  Event, Poll, ReadBuf, got, fill, content, IsClean, remaining, Fill, waits, fills, ends, fill-Fill,
}
use i_leaf.Prelude.Drain.{
  Polled, Progress, closing, ready_then, or_fail, Streams, drain, drain-Streams,
}
use i_leaf.Prelude.Drain
use i_leaf.Crypto.{VmessSequence, next_padding_len, decode_size}
use i_leaf.Shadow.{Algorithm}
use i_leaf.Shadow.Chunks.{concat}
use i_leaf.Vmess.Reader.{
  waiting_length, waiting_data, Reader, poll_read_exact, got_length, read_length,
}
use i_leaf.Vmess.Chunks.{Chunk, Ending, cut, closed, final_of, EndsAs, Carries}
use i_leaf.Vmess.Reading.Payloads.{After, Reads, read_data-Reads}

module _ (a : Algorithm) (shake : ℕ → ℕ) (cfb_decrypt : List ℕ → List ℕ → List ℕ → Option (List ℕ))
    (e : Ending) where
  module _ (size : ℕ) (some_room : 0 < size) where
    -- In front of a chunk, of which the first two bytes may have come.
    Chunk-Reads :
        (s : Reader) (k m pos' : ℕ) (p bytes more : List ℕ) (next : VmessSequence)
        (ps all : List (List ℕ)) (out : Poll (Unit {0}) × ReadBuf × List Event)
        → s.read_state ≡ waiting_length
        → Chunk a shake s.dec s.dec_size_parser p bytes more next pos'
        → After a shake cfb_decrypt e (record s.dec { sequence = next }) pos' p more ps
        → Carries a shake e s.dec s.dec_size_parser bytes all
        → p ++ concat ps ≡ concat all
        → k + length (p ++ concat ps) ≤ m
        → Fill bytes 2 k out
        → Reads a shake cfb_decrypt e size some_room
            (p ++ concat ps)
            m
            (ready_then (out.0, record s { read_buf = out.1 }, out.2) (got_length a shake size))
    unfolding got_length
    Chunk-Reads s k m pos' p bytes more next ps all _ state ch later carries same bound
          (waits b t h l q clean r) =
        Drain.waits _ t (remaining t + length (p ++ concat ps)) (omega arith)
          (clean, omega arith, rw state (all, h, l, rw (sym q) at carries, same))
    Chunk-Reads s k m pos' p bytes more next ps all _ state ch later carries same bound
          (fills b t h l q clean r) =
        let (front, rest) =
          append-parts b.buf ch.size_bytes (content t) (ch.sealed ++ (ch.padding ++ more))
            (l ∙ sym ch.two_bytes) (q ∙ ch.parts) in
        let two : take 2 ch.size_bytes ≡ ch.size_bytes =
          ap (λ (i : ℕ). take i ch.size_bytes) (sym ch.two_bytes) ∙ take-all ch.size_bytes in
        let n = length ch.sealed + length ch.padding in
        let padding = (next_padding_len shake s.dec_size_parser).0 in
        let s' : Reader = record s {
          dec_size_parser = pos';
          read_buf = b;
          read_state = waiting_data n padding;
        } in
        let none_yet : got b ≡ [] = ap (λ (i : ℕ). take i b.buf) h in
        let here : got b ++ content t ≡ ch.sealed ++ (ch.padding ++ more) = rw none_yet rest in
        let decoded : decode_size shake (next_padding_len shake s.dec_size_parser).1 (take 2 b.buf)
            ≡ ok (n, pos') =
          rw (front, two) ch.size in
        rw decoded (
          read_data-Reads a shake cfb_decrypt e size some_room s' t n padding m ch.sealed ch.padding
            more p ch.nonce next ps refl clean (omega (arith, ch.tagged)) (omega arith) here refl
            (sym ch.padded) ch.advances ch.opens ch.tagged later (omega arith))
    Chunk-Reads s k m pos' p bytes more next ps all _ state ch later carries same bound (ends b l) =
        absurd (
          omega (
            arith,
            ch.two_bytes,
            ap (λ (l : List ℕ). length l) ch.parts,
            length-append ch.size_bytes (ch.sealed ++ (ch.padding ++ more)),
          ))

    -- The stream ends, by a chunk that carries nothing or by the end of the transport.
    end-Reads :
        (s : Reader) (k m : ℕ) (bytes : List ℕ) (v : Ending)
        (out : Poll (Unit {0}) × ReadBuf × List Event)
        → e ≡ v
        → s.read_state ≡ waiting_length
        → EndsAs a shake v s.dec s.dec_size_parser bytes
        → Carries a shake e s.dec s.dec_size_parser bytes []
        → k ≤ m
        → Fill bytes 2 k out
        → Reads a shake cfb_decrypt e size some_room [] m
            (ready_then (out.0, record s { read_buf = out.1 }, out.2) (got_length a shake size))
    end-Reads s k m bytes closed out is_closed state (more, next, pos', ch) carries bound f =
        Chunk-Reads s k m pos' [] bytes more next [] [] out state ch (inr (refl, is_closed, refl))
          carries refl (omega arith) f
    end-Reads s k m bytes cut _ is_cut state none_left carries bound (waits b t h l q clean r) =
        Drain.waits _ t (remaining t) (omega arith)
          (clean, omega arith, rw state ([], h, l, rw (sym q) at carries, refl))
    end-Reads s k m bytes cut _ is_cut state none_left carries bound (ends b l) =
        let early : err unexpected_eof ≡ closing (final_of e) =
          ap (λ (v : Ending). closing (final_of v)) (sym is_cut) in
        rw early (Drain.ends _ [] refl)
    end-Reads s k m bytes cut _ is_cut state none_left carries bound (fills b t h l q clean r) =
        absurd (
          omega (
            arith,
            length-append b.buf (content t),
            ap (λ (l : List ℕ). length l) q,
            ap (λ (l : List ℕ). length l) none_left,
          ))

    length-Reads :
        (s : Reader) (k m : ℕ) (bytes : List ℕ) (ps : List (List ℕ))
        (out : Poll (Unit {0}) × ReadBuf × List Event)
        → s.read_state ≡ waiting_length
        → Carries a shake e s.dec s.dec_size_parser bytes ps
        → k + length (concat ps) ≤ m
        → Fill bytes 2 k out
        → Reads a shake cfb_decrypt e size some_room
            (concat ps)
            m
            (ready_then (out.0, record s { read_buf = out.1 }, out.2) (got_length a shake size))
    length-Reads s k m bytes [] out state carries bound f =
        end-Reads s k m bytes e out refl state carries carries (omega arith) f
    length-Reads s k m bytes (p ∷ ps) out state (more, next, pos', pos, ch, later) bound f =
        Chunk-Reads s k m pos' p bytes more next ps (p ∷ ps) out state ch (inl (pos, later))
          (more, next, pos', pos, ch, later) refl bound f

    pub read_length-Reads :
        (s : Reader) (t : List Event) (ps : List (List ℕ)) (m : ℕ)
        → s.read_state ≡ waiting_length
        → IsClean t
        → s.read_buf.pos < 2
        → s.read_buf.pos ≤ length s.read_buf.buf
        → Carries a shake e s.dec s.dec_size_parser (got s.read_buf ++ content t) ps
        → remaining t + length (concat ps) ≤ m
        → Reads a shake cfb_decrypt e size some_room (concat ps) m (read_length a shake size s t)
    unfolding read_length poll_read_exact
    read_length-Reads s t ps m state clean h l carries bound =
        length-Reads s (remaining t) m (got s.read_buf ++ content t) ps (fill 2 s.read_buf t) state
          carries bound (fill-Fill 2 s.read_buf t h l clean)
