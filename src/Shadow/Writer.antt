-- ===== src/Shadow/Writer.antt =====
-- leaf/src/proxy/shadowsocks/shadow.rs: `poll_write` of `ShadowedStream`. Of the stream's fields the
-- half that writes has `enc`, `write_buf` and `write_state`. The bytes that `rng` draws for the
-- salt are an argument. Each state is left at most once in a call, so the loop is the chain of
-- the states.
use i_leaf.Prelude.{
  ℕ, ◌+◌, ◌%◌, ◌^◌, List, [], ◌++◌, length, take, drop, min, Option, none, some, Outcome, ok, err,
  panic,
}
use i_leaf.Prelude.Bytes.{to_be}
use i_leaf.Prelude.Stream.{IoError, unexpected_eof}
use i_leaf.Prelude.Polls.{Poll, pending, ready}
use i_leaf.Prelude.Writes.{WriteEvent, Sending, Sink, sink_of, push}
use i_leaf.Shadow.Cipher.{Algorithm, Aead, tag_len, session_cipher, encrypt}

-- `PendingSalt(total, written)` and `PendingChunk(consumed, (total, written))`.
pub data WriteState : Type 0 where
  waiting_salt waiting_chunk : WriteState
  pending_salt : (total written : ℕ) → WriteState
  pending_chunk : (consumed total written : ℕ) → WriteState

pub record Writer : Type 0 where
  pub enc : Option Aead
  pub write_buf : List ℕ
  pub write_state : WriteState

unfoldable pub new_writer : Writer
new_writer = record { enc = none; write_buf = []; write_state = waiting_salt }

abbrev pub Wrote : Type 0
Wrote = Poll ℕ × Writer × Sink

-- `poll_write_buf` in a loop, from a state of the writer and the sink.
abbrev pub push_buf :
    (total written : ℕ) → Writer → Sink → Poll (Unit {0}) × Sending × List WriteEvent
push_buf total written w s =
    push unexpected_eof total (record { written = written; left = w.write_buf; out = s.out })
      s.answers

-- Behind the write in the state `PendingChunk`.
unfoldable pub pushed_chunk :
    (consumed total : ℕ) → Option Aead → Poll (Unit {0}) × Sending × List WriteEvent → Wrote
pushed_chunk consumed total enc (pending, s, t) = (
  pending,
  record { enc = enc; write_buf = s.left; write_state = pending_chunk consumed total s.written },
  sink_of s t,
)
pushed_chunk consumed total enc (ready (ok u), s, t) = (
  ready (ok consumed),
  record { enc = enc; write_buf = s.left; write_state = waiting_chunk },
  sink_of s t,
)
pushed_chunk consumed total enc (ready (err e), s, t) = (
  ready (err e),
  record { enc = enc; write_buf = s.left; write_state = pending_chunk consumed total s.written },
  sink_of s t,
)
pushed_chunk consumed total enc (ready panic, s, t) = (
  ready panic,
  record { enc = enc; write_buf = s.left; write_state = pending_chunk consumed total s.written },
  sink_of s t,
)

unfoldable pub write_pending : (consumed total written : ℕ) → Writer → Sink → Wrote
unfolding pushed_chunk
write_pending consumed total written w s =
    pushed_chunk consumed total w.enc (push_buf total written w s)

-- `…?` of a cipher: the state that a failure leaves.
abbrev pub or_fail : Outcome IoError (List ℕ) → Writer → Sink → (List ℕ → Wrote) → Wrote
or_fail (ok c) w s k = k c
or_fail (err e) w s k = (ready (err e), w, s)
or_fail panic w s k = (ready panic, w, s)

module _ (a : Algorithm) (psk : List ℕ) where
  -- The two pieces of a chunk, sealed one after the other, in the state `WaitingChunk`.
  unfoldable pub seal_chunk : Aead → List ℕ → Writer → Sink → Wrote
  unfolding encrypt write_pending
  seal_chunk enc buf w s =
      let consume_len = min (length buf) 0x3fff in
      let (sealed_len, enc1) = encrypt a enc (to_be 2 (consume_len % 2 ^ 16)) in
      or_fail sealed_len (record w { enc = some enc1 }) s
        (λ piece1.
          let (sealed, enc2) = encrypt a enc1 (drop (2 + tag_len) piece1 ++ take consume_len buf) in
          or_fail sealed
            (record {
              enc = some enc2;
              write_buf = take (2 + tag_len) piece1;
              write_state = waiting_chunk;
            })
            s
            (λ piece2.
              let merged = take (2 + tag_len) piece1 ++ piece2 in
              let total = length merged in
              write_pending consume_len total 0
                (record {
                  enc = some enc2;
                  write_buf = merged;
                  write_state = pending_chunk consume_len total 0;
                })
                s))

  unfoldable pub write_chunk : List ℕ → Writer → Sink → Wrote
  unfolding seal_chunk
  write_chunk buf w s = elim w.enc [
    | none ↦ (ready panic, w, s)
    | some enc ↦ seal_chunk enc buf w s
  ]

  -- Behind the write in the state `PendingSalt`.
  unfoldable pub pushed_salt :
      (total : ℕ) → List ℕ → Option Aead → Poll (Unit {0}) × Sending × List WriteEvent → Wrote
  unfolding write_chunk
  pushed_salt total buf enc (ready (ok u), s, t) =
      write_chunk buf (record { enc = enc; write_buf = s.left; write_state = waiting_chunk })
        (sink_of s t)
  pushed_salt total buf enc (pending, s, t) = (
    pending,
    record { enc = enc; write_buf = s.left; write_state = pending_salt total s.written },
    sink_of s t,
  )
  pushed_salt total buf enc (ready (err e), s, t) = (
    ready (err e),
    record { enc = enc; write_buf = s.left; write_state = pending_salt total s.written },
    sink_of s t,
  )
  pushed_salt total buf enc (ready panic, s, t) = (
    ready panic,
    record { enc = enc; write_buf = s.left; write_state = pending_salt total s.written },
    sink_of s t,
  )

  unfoldable pub write_salt : (total written : ℕ) → List ℕ → Writer → Sink → Wrote
  unfolding pushed_salt
  write_salt total written buf w s = pushed_salt total buf w.enc (push_buf total written w s)

  -- The state `WaitingSalt`, with the drawn salt.
  unfoldable pub start : List ℕ → List ℕ → Writer → Sink → Outcome IoError Aead → Wrote
  unfolding write_salt
  start salt buf w s (ok enc) =
      write_salt a.key_len 0 buf
        (record { enc = some enc; write_buf = salt; write_state = pending_salt a.key_len 0 }) s
  start salt buf w s (err e) = (ready (err e), record w { write_buf = salt }, s)
  start salt buf w s panic = (ready panic, record w { write_buf = salt }, s)

  unfoldable pub write_in : WriteState → List ℕ → List ℕ → Writer → Sink → Wrote
  unfolding start write_salt write_chunk write_pending session_cipher
  write_in waiting_salt salt buf w s =
      start salt buf w s (session_cipher a psk (take a.key_len salt))
  write_in (pending_salt total written) salt buf w s = write_salt total written buf w s
  write_in waiting_chunk salt buf w s = write_chunk buf w s
  write_in (pending_chunk consumed total written) salt buf w s =
      write_pending consumed total written w s

  -- `poll_write` of `buf`.
  unfoldable pub poll_write : List ℕ → List ℕ → Writer → Sink → Wrote
  poll_write salt buf w s = write_in w.write_state salt buf w s
