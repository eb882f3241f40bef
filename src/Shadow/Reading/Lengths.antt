-- ===== src/Shadow/Reading/Lengths.antt =====
-- leaf/src/proxy/shadowsocks/shadow.rs: the state of `poll_read` that reads the length of a chunk.
use i_leaf.Prelude.{
  ℕ, ◌+◌, ◌^◌, ◌<◌, ◌≤◌, ◌≡◌, refl, sym, ap, ◌∙◌, List, [], ◌∷◌, ◌++◌, length, take, drop,
  append-parts, length-append, some, arith,
}
use i_leaf.Prelude.Bytes.{to_be, of_be, of_be-to_be}
use i_leaf.Prelude.Polls.{
  Event, Poll, ReadBuf, got, fill, content, IsClean, remaining, Fill, waits, fills, ends, fill-Fill,
}
use i_leaf.Prelude.Drain.{Polled, drain, Progress, drain_lem, ready_then, or_fail}
use i_leaf.Prelude.Drain
use i_leaf.Crypto.{advance}
use i_leaf.Shadow.Cipher.{Algorithm, Aead, tag_len, decrypt}
use i_leaf.Shadow.Reader.{
  waiting_length, Reader, poll_read_exact, read_u16, decrypt_buf, got_length, read_length,
}
use i_leaf.Shadow.Chunks.{Carries, concat, advanced}
use i_leaf.Shadow.Reading.Payloads.{Reads, read_data-Reads}

module _ (a : Algorithm) (psk : List ℕ) where
  module _ (size : ℕ) (some_room : 0 < size) where
    -- The reader in front of a chunk's length, behind a call of `poll_read_exact`.
    abbrev at_length : Aead → Poll (Unit {0}) × ReadBuf × List Event → Polled Reader
    at_length c out =
        ready_then
          (out.0, record { dec = some c; read_buf = out.1; read_state = waiting_length }, out.2)
          (got_length a psk size)

    -- The connection ends between two chunks, which the reader takes for an early end.
    no_chunk-Reads :
        (c : Aead) (k m : ℕ) (out : Poll (Unit {0}) × ReadBuf × List Event)
        → k ≤ m
        → Fill [] (2 + tag_len) k out
        → Reads a psk size some_room [] m (at_length c out)
    no_chunk-Reads c k m _ bound (waits b t h l e clean r) =
        Drain.waits _ _ (remaining t) (omega arith)
          (clean, omega arith, (c, [], refl, h, l, e, refl))
    no_chunk-Reads c k m _ bound (ends b l) = Drain.ends _ _ refl
    no_chunk-Reads c k m _ bound (fills b t h l e clean r) =
        absurd (omega (arith, length-append b.buf (content t), ap (λ (l : List ℕ). length l) e))

    Chunk-Reads :
        (c : Aead) (x y p more : List ℕ) (ps : List (List ℕ)) (k m : ℕ)
        (out : Poll (Unit {0}) × ReadBuf × List Event)
        → length x ≡ 2 + tag_len
        → length y ≡ length p + tag_len
        → a.open_sealed c.key (advance c.nonce) x ≡ some (to_be 2 (length p))
        → a.open_sealed c.key (advance (advance c.nonce)) y ≡ some p
        → 0 < length p
        → length p < 2 ^ 16
        → Carries a (advanced (advanced c)) more ps
        → k + length (p ++ concat ps) ≤ m
        → Fill (x ++ (y ++ more)) (2 + tag_len) k out
        → Reads a psk size some_room (p ++ concat ps) m (at_length c out)
    unfolding got_length decrypt_buf decrypt read_u16
    Chunk-Reads c x y p more ps k m _ lx ly ox oy pos small carries bound
          (waits b t h l e clean r) =
        Drain.waits _ _ (remaining t + length (p ++ concat ps)) (omega arith) (
          clean,
          omega arith,
          (c, p ∷ ps, refl, h, l, (x, y, more, e, lx, ly, ox, oy, pos, small, carries), refl),
        )
    Chunk-Reads c x y p more ps k m _ lx ly ox oy pos small carries bound (ends b l) =
        absurd (omega (arith, length-append x (y ++ more)))
    Chunk-Reads c x y p more ps k m _ lx ly ox oy pos small carries bound
          (fills b t h l e clean r) =
        let (front, rest) = append-parts b.buf x (content t) (y ++ more) (l ∙ sym lx) e in
        let n : of_be (to_be 2 (length p)) ≡ length p = of_be-to_be 2 (length p) small in
        let b' : ReadBuf = record { buf = to_be 2 (length p) ++ drop 2 x; pos = b.pos } in
        let none_yet : got b' ≡ [] = ap (λ (i : ℕ). take i b'.buf) h in
        let here : got b' ++ content t ≡ y ++ more = rw none_yet rest in
        let step =
          read_data-Reads a psk size some_room (length p) (advanced c) y p more ps b' t m clean
            (omega arith) (omega arith) here ly oy refl pos carries (omega arith) in
        rw (front, ox, n) step

    length-Reads :
        (c : Aead) (bytes : List ℕ) (ps : List (List ℕ)) (k m : ℕ)
        (out : Poll (Unit {0}) × ReadBuf × List Event)
        → Carries a c bytes ps
        → k + length (concat ps) ≤ m
        → Fill bytes (2 + tag_len) k out
        → Reads a psk size some_room (concat ps) m (at_length c out)
    length-Reads c bytes [] k m out e bound f = no_chunk-Reads c k m out (omega arith) (rw e at f)
    length-Reads c bytes (p ∷ ps) k m out (x, y, more, e, lx, ly, ox, oy, pos, small, carries) bound
          f =
        Chunk-Reads c x y p more ps k m out lx ly ox oy pos small carries bound (rw e at f)

    pub read_length-Reads :
        (c : Aead) (ps : List (List ℕ)) (b : ReadBuf) (t : List Event) (m : ℕ)
        → IsClean t
        → b.pos < 2 + tag_len
        → b.pos ≤ length b.buf
        → Carries a c (got b ++ content t) ps
        → remaining t + length (concat ps) ≤ m
        → Reads a psk size some_room (concat ps) m (
            read_length a psk size
              (record { dec = some c; read_buf = b; read_state = waiting_length })
              t)
    unfolding read_length poll_read_exact
    read_length-Reads c ps b t m clean h l carries bound =
        length-Reads c (got b ++ content t) ps (remaining t) m (fill (2 + tag_len) b t) carries
          bound (fill-Fill (2 + tag_len) b t h l clean)
