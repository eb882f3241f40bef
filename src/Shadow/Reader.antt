-- ===== src/Shadow/Reader.antt =====
-- leaf/src/proxy/shadowsocks/shadow.rs: `poll_read` of `ShadowedStream`. Of the stream's fields
-- the half that reads has `dec`, `read_buf` with `read_pos`, and `read_state`. Each state is left
-- at most once in a call, so the loop is the chain of the states.
use i_leaf.Prelude.{
  ℕ, ◌+◌, ◌-◌, List, [], ◌∷◌, length, take, drop, min, ltb, leb, Option, none, some, Outcome, ok,
  panic, if◌then◌else◌,
}
use i_leaf.Prelude.Bytes.{of_be}
use i_leaf.Prelude.Stream.{IoError}
use i_leaf.Prelude.Polls.{Event, Poll, ready, ReadBuf, fill}
use i_leaf.Prelude.Drain.{Polled, ready_then, or_fail}
use i_leaf.Shadow.Cipher.{Algorithm, Aead, tag_len, session_cipher, decrypt}

pub data ReadState : Type 0 where
  waiting_salt waiting_length : ReadState
  waiting_data pending_data : ℕ → ReadState

pub record Reader : Type 0 where
  pub dec : Option Aead
  pub read_buf : ReadBuf
  pub read_state : ReadState

unfoldable pub new_reader : Reader
new_reader = record {
  dec = none;
  read_buf = record { buf = []; pos = 0 };
  read_state = waiting_salt;
}

unfoldable pub poll_read_exact : Reader → ℕ → List Event → Poll (Unit {0}) × Reader × List Event
poll_read_exact s size t =
    let (p, b, t') = fill size s.read_buf t in (p, record s { read_buf = b }, t')

-- `BigEndian::read_u16`.
unfoldable pub read_u16 : List ℕ → Outcome IoError ℕ
read_u16 [] = panic
read_u16 (x ∷ []) = panic
read_u16 (x ∷ y ∷ more) = ok (of_be (x ∷ y ∷ []))

-- The buffer is at most as long as `read_buf`: `split_to` panics elsewhere.
unfoldable pub read_pending : ℕ → ℕ → Reader → List Event → Polled Reader
read_pending size n s t =
    let to_read = min size n in
    let state = if ltb to_read n then pending_data (n - to_read) else waiting_length in
    let left : ReadBuf = record { buf = drop to_read s.read_buf.buf; pos = s.read_buf.pos } in
    if leb to_read (length s.read_buf.buf)
    then (
      ready (ok (take to_read s.read_buf.buf)),
      record s { read_buf = left; read_state = state },
      t,
    )
    else (ready panic, s, t)

module _ (a : Algorithm) (psk : List ℕ) where
  -- `dec.as_mut().expect(…)` and `decrypt` of the read buffer.
  unfoldable pub decrypt_buf : Reader → Outcome IoError (List ℕ) × Reader
  unfolding decrypt
  decrypt_buf s = elim s.dec [
    | none ↦ (panic, s)
    | some dec ↦
        let (result, dec') = decrypt a dec s.read_buf.buf in (result, record s { dec = some dec' })
  ]

  abbrev with_buf : Reader → List ℕ → ReadState → Reader
  with_buf s bytes state = record s {
    read_buf = record { buf = bytes; pos = s.read_buf.pos };
    read_state = state;
  }

  -- Behind `ready!` in the state `WaitingData`.
  unfoldable pub got_data : ℕ → ℕ → Reader → List Event → Polled Reader
  unfolding decrypt_buf read_pending
  got_data size n s t =
      let (result, s1) = decrypt_buf s in
      or_fail result s1 t (λ bytes. read_pending size n (with_buf s1 bytes (pending_data n)) t)

  unfoldable pub read_data : ℕ → ℕ → Reader → List Event → Polled Reader
  unfolding got_data poll_read_exact
  read_data size n s t = ready_then (poll_read_exact s (n + tag_len) t) (got_data size n)

  -- Behind `ready!` in the state `WaitingLength`.
  unfoldable pub got_length : ℕ → Reader → List Event → Polled Reader
  unfolding decrypt_buf read_data read_u16
  got_length size s t =
      let (result, s1) = decrypt_buf s in
      or_fail result s1 t (λ bytes. or_fail (read_u16 bytes) s1 t (λ payload_len.
        read_data size payload_len (with_buf s1 bytes (waiting_data payload_len)) t))

  unfoldable pub read_length : ℕ → Reader → List Event → Polled Reader
  unfolding got_length poll_read_exact
  read_length size s t = ready_then (poll_read_exact s (2 + tag_len) t) (got_length size)

  -- Behind `ready!` in the state `WaitingSalt`.
  unfoldable pub got_salt : ℕ → Reader → List Event → Polled Reader
  unfolding session_cipher read_length
  got_salt size s t = or_fail (session_cipher a psk (take a.key_len s.read_buf.buf)) s t (λ dec.
      read_length size
        (record {
          dec = some dec;
          read_buf = record { buf = []; pos = s.read_buf.pos };
          read_state = waiting_length;
        })
        t)

  unfoldable pub read_salt : ℕ → Reader → List Event → Polled Reader
  unfolding got_salt poll_read_exact
  read_salt size s t = ready_then (poll_read_exact s a.key_len t) (got_salt size)

  unfoldable pub read_in : ReadState → ℕ → Reader → List Event → Polled Reader
  unfolding read_salt read_length read_data read_pending
  read_in waiting_salt size s t = read_salt size s t
  read_in waiting_length size s t = read_length size s t
  read_in (waiting_data n) size s t = read_data size n s t
  read_in (pending_data n) size s t = read_pending size n s t

  -- `poll_read` with a buffer of `size` bytes.
  unfoldable pub poll_read : ℕ → Reader → List Event → Polled Reader
  poll_read size s t = read_in s.read_state size s t
