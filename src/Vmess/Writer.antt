-- ===== src/Vmess/Writer.antt =====
-- leaf/src/proxy/vmess/stream.rs: `poll_write` of `VMessAuthStream`. Of the stream's fields the half that
-- writes has `enc`, `enc_size_parser` as the position in its mask stream, `write_buf` and
-- `write_state`. The bytes that `rng` draws are a parameter, with the number of those drawn. Each
-- state is left at most once in a call, so the loop is the chain of the states.
use i_leaf.Prelude.{
  ℕ, zero, suc, ◌+◌, ◌-◌, ◌%◌, ◌^◌, List, [], ◌∷◌, ◌++◌, length, take, drop, min, ltb, leb,
  if◌then◌else◌, Outcome, ok, err, panic,
}
use i_leaf.Prelude.Stream.{IoError, unexpected_eof}
use i_leaf.Prelude.Polls.{Poll, pending, ready}
use i_leaf.Prelude.Writes.{WriteEvent, Sending, Sink, sink_of, push}
use i_leaf.Prelude.WriteAll.{PolledWrite}
use i_leaf.Crypto.{next_padding_len, encode_size}
use i_leaf.Shadow.{Algorithm, tag_len}
use i_leaf.Vmess.Cipher.{VmessAead, vmess_encrypt}

-- `PendingChunk(consumed, (total, written))`.
pub data WriteState : Type 0 where
  waiting_chunk : WriteState
  pending_chunk : (consumed total written : ℕ) → WriteState

pub record Writer : Type 0 where
  pub enc : VmessAead
  pub enc_size_parser : ℕ
  pub drawn : ℕ
  pub write_buf : List ℕ
  pub write_state : WriteState

unfoldable pub new_writer : VmessAead → Writer
new_writer enc = record {
  enc = enc;
  enc_size_parser = 0;
  drawn = 0;
  write_buf = [];
  write_state = waiting_chunk;
}

abbrev pub Wrote : Type 0
Wrote = PolledWrite Writer

-- The writer behind writes of its buffer.
abbrev pub left_with : Writer → Sending → WriteState → Writer
left_with w s state = record w { write_buf = s.left; write_state = state }

-- Behind the write in the state `PendingChunk`.
unfoldable pub pushed_chunk :
    (consumed total : ℕ) → Writer → Poll (Unit {0}) × Sending × List WriteEvent → Wrote
pushed_chunk consumed total w (pending, s, t) =
    (pending, left_with w s (pending_chunk consumed total s.written), sink_of s t)
pushed_chunk consumed total w (ready (ok u), s, t) =
    (ready (ok consumed), left_with w s waiting_chunk, sink_of s t)
pushed_chunk consumed total w (ready (err e), s, t) =
    (ready (err e), left_with w s (pending_chunk consumed total s.written), sink_of s t)
pushed_chunk consumed total w (ready panic, s, t) =
    (ready panic, left_with w s (pending_chunk consumed total s.written), sink_of s t)

unfoldable pub write_pending : (consumed total written : ℕ) → Writer → Sink → Wrote
unfolding pushed_chunk
write_pending consumed total written w s = pushed_chunk consumed total w (
    push unexpected_eof total (record { written = written; left = w.write_buf; out = s.out })
      s.answers)

-- `…?` of the cipher.
abbrev pub or_fail : Outcome IoError (List ℕ) → Writer → Sink → (List ℕ → Wrote) → Wrote
or_fail (ok c) w s k = k c
or_fail (err e) w s k = (ready (err e), w, s)
or_fail panic w s k = (ready panic, w, s)

module _ (a : Algorithm) (shake rng : ℕ → ℕ) where
  -- The bytes that are drawn, from the position on.
  abbrev pub draw : ℕ → ℕ → List ℕ
  draw from zero = []
  draw from (suc n) = rng from ∷ draw (from + 1) n

  -- The sealed payload stands behind the size; the padding behind it is random.
  unfoldable pub padded_chunk : (consumed padding : ℕ) → List ℕ → Writer → Sink → Wrote
  unfolding write_pending
  padded_chunk consumed padding sealed w s =
      let piece2 = take (consumed + tag_len) sealed in
      let piece3 =
        if ltb 0 padding then draw w.drawn padding else drop (consumed + tag_len) sealed in
      let merged = w.write_buf ++ (piece2 ++ piece3) in
      let total = length merged in
      let w' : Writer = record w {
        drawn = w.drawn + padding;
        write_buf = merged;
        write_state = pending_chunk consumed total 0;
      } in
      if leb (consumed + tag_len) (length sealed)
      then write_pending consumed total 0 w' s
      else (ready panic, w, s)

  -- The state `WaitingChunk`.
  unfoldable pub write_chunk : List ℕ → Writer → Sink → Wrote
  unfolding padded_chunk vmess_encrypt
  write_chunk buf w s =
      let (padding, pos) = next_padding_len shake w.enc_size_parser in
      let max_payload_size = 0x4000 - tag_len - padding in
      let consume_len = min (length buf) max_payload_size in
      let payload_len = consume_len + tag_len + padding in
      let (size_bytes, pos') = encode_size shake pos (payload_len % 2 ^ 16) in
      let (sealed, enc') = vmess_encrypt a w.enc (take consume_len buf) in
      let w' : Writer = record w { enc = enc'; enc_size_parser = pos'; write_buf = size_bytes } in
      or_fail sealed w' s (λ piece2. padded_chunk consume_len padding piece2 w' s)

  unfoldable pub write_in : WriteState → List ℕ → Writer → Sink → Wrote
  unfolding write_chunk write_pending
  write_in waiting_chunk buf w s = write_chunk buf w s
  write_in (pending_chunk consumed total written) buf w s = write_pending consumed total written w s

  -- `poll_write` of `buf`.
  unfoldable pub poll_write : List ℕ → Writer → Sink → Wrote
  poll_write buf w s = write_in w.write_state buf w s
