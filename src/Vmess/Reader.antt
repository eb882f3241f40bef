-- ===== src/Vmess/Reader.antt =====
-- leaf/src/proxy/vmess/stream.rs: `poll_read` of `VMessAuthStream`. Of the stream's fields the half that
-- reads has the session, `dec`, `dec_size_parser` as the position in its mask stream, `read_buf`
-- with `read_pos`, and `read_state`. Each state is left at most once in a call, so the loop is the
-- chain of the states. A subtraction below 0 is a panic: where it is not checked, the slice that
-- takes its result is.
use i_leaf.Prelude.{
  ℕ, ◌-◌, List, [], ◌∷◌, length, take, drop, min, ltb, leb, ◌==◌, Option, none, some, Outcome, ok,
  err, panic, if◌then◌else◌,
}
use i_leaf.Prelude.Stream.{crypto_error}
use i_leaf.Prelude.Polls.{Event, Poll, ready, ReadBuf, fill}
use i_leaf.Prelude.Drain.{Polled, ready_then, or_fail}
use i_leaf.Crypto.{next_padding_len, decode_size}
use i_leaf.Shadow.{Algorithm, tag_len}
use i_leaf.Vmess.Cipher.{VmessAead, vmess_decrypt}

pub data ReadState : Type 0 where
  waiting_response_header waiting_length : ReadState
  waiting_data : (size padding : ℕ) → ReadState
  pending_data : ℕ → ReadState

-- The part of `ClientSession` that the reader uses.
pub record ResponseSession : Type 0 where
  pub response_body_key : List ℕ
  pub response_body_iv : List ℕ
  pub response_header : ℕ

pub record Reader : Type 0 where
  pub sess : ResponseSession
  pub dec : VmessAead
  pub dec_size_parser : ℕ
  pub read_buf : ReadBuf
  pub read_state : ReadState

unfoldable pub new_reader : ResponseSession → VmessAead → Reader
new_reader sess dec = record {
  sess = sess;
  dec = dec;
  dec_size_parser = 0;
  read_buf = record { buf = []; pos = 0 };
  read_state = waiting_response_header;
}

unfoldable pub poll_read_exact : Reader → ℕ → List Event → Poll (Unit {0}) × Reader × List Event
poll_read_exact s size t =
    let (p, b, t') = fill size s.read_buf t in (p, record s { read_buf = b }, t')

abbrev pub with_buf : Reader → List ℕ → ReadState → Reader
with_buf s bytes state = record s {
  read_buf = record { buf = bytes; pos = s.read_buf.pos };
  read_state = state;
}

-- `split_to` panics past the buffer.
unfoldable pub read_pending : ℕ → ℕ → Reader → List Event → Polled Reader
read_pending size n s t =
    let to_read = min size n in
    let state = if ltb to_read n then pending_data (n - to_read) else waiting_length in
    if leb to_read (length s.read_buf.buf)
    then (
      ready (ok (take to_read s.read_buf.buf)),
      with_buf s (drop to_read s.read_buf.buf) state,
      t,
    )
    else (ready panic, s, t)

module _ (a : Algorithm) (shake : ℕ → ℕ) where
  -- Behind the decryption: the tag is not part of the data.
  abbrev pub got_text : ℕ → ℕ → Reader → List Event → List ℕ → Polled Reader
  got_text size encrypted s t bytes =
      if ltb encrypted tag_len
      then (ready panic, s, t)
      else read_pending size (encrypted - tag_len)
          (with_buf s bytes (pending_data (encrypted - tag_len))) t

  -- Behind `ready!` in the state `WaitingData`.
  unfoldable pub got_data : ℕ → ℕ → ℕ → Reader → List Event → Polled Reader
  unfolding read_pending vmess_decrypt
  got_data size n padding s t =
      let encrypted = n - padding in
      let (result, dec) = vmess_decrypt a s.dec (take encrypted s.read_buf.buf) in
      let trimmed =
        with_buf (record s { dec = dec }) (take encrypted s.read_buf.buf) s.read_state in
      if ltb n padding
      then (ready panic, s, t)
      else or_fail result trimmed t (got_text size encrypted trimmed t)

  unfoldable pub read_data : ℕ → ℕ → ℕ → Reader → List Event → Polled Reader
  unfolding got_data poll_read_exact
  read_data size n padding s t = ready_then (poll_read_exact s n t) (got_data size n padding)

  -- The size behind its mask; the padding has the mask in front of it.
  abbrev pub got_size : ℕ → ℕ → Reader → List Event → Outcome (Unit {0}) (ℕ × ℕ) → Polled Reader
  got_size size padding s t (ok (n, pos)) =
      read_data size n padding
        (record s { dec_size_parser = pos; read_state = waiting_data n padding }) t
  got_size size padding s t (err e) = (ready panic, s, t)
  got_size size padding s t panic = (ready panic, s, t)

  -- Behind `ready!` in the state `WaitingLength`.
  unfoldable pub got_length : ℕ → Reader → List Event → Polled Reader
  unfolding read_data
  got_length size s t =
      let (padding, pos) = next_padding_len shake s.dec_size_parser in
      got_size size padding s t (decode_size shake pos (take 2 s.read_buf.buf))

  unfoldable pub read_length : ℕ → Reader → List Event → Polled Reader
  unfolding got_length poll_read_exact
  read_length size s t = ready_then (poll_read_exact s 2 t) (got_length size)

  module _ (cfb_decrypt : List ℕ → List ℕ → List ℕ → Option (List ℕ)) where
    -- The first byte of the opened header is the session's.
    abbrev pub checked : ℕ → Reader → List Event → Option (List ℕ) → Polled Reader
    checked size s t none = (ready (err crypto_error), s, t)
    checked size s t (some []) = (ready panic, s, t)
    checked size s t (some (x ∷ header)) =
        if x == s.sess.response_header
        then read_length size (with_buf s (x ∷ header) waiting_length) t
        else (ready (err crypto_error), with_buf s (x ∷ header) s.read_state, t)

    -- Behind `ready!` in the state `WaitingResponseHeader`.
    unfoldable pub got_header : ℕ → Reader → List Event → Polled Reader
    unfolding read_length
    got_header size s t =
        checked size s t
          (cfb_decrypt s.sess.response_body_key s.sess.response_body_iv s.read_buf.buf)

    unfoldable pub read_header : ℕ → Reader → List Event → Polled Reader
    unfolding got_header poll_read_exact
    read_header size s t = ready_then (poll_read_exact s 4 t) (got_header size)

    unfoldable pub read_in : ReadState → ℕ → Reader → List Event → Polled Reader
    unfolding read_header read_length read_data read_pending
    read_in waiting_response_header size s t = read_header size s t
    read_in waiting_length size s t = read_length size s t
    read_in (waiting_data n padding) size s t = read_data size n padding s t
    read_in (pending_data n) size s t = read_pending size n s t

    -- `poll_read` with a buffer of `size` bytes.
    unfoldable pub poll_read : ℕ → Reader → List Event → Polled Reader
    poll_read size s t = read_in s.read_state size s t
