-- ===== src/Vless/Stream.antt =====
-- leaf/src/proxy/vless/stream.rs: `VLessAuthStream`, which reads the response header before it
-- passes on what the server sends.
use i_leaf.Prelude.{ℕ, List, [], ◌∷◌, Outcome, ok, err, panic, ◌>>◌, ensure, ◌==◌}
use i_leaf.Prelude.Stream.{IoError, invalid_version, invalid_addons}
use i_leaf.Prelude.Polls.{Event, Poll, pending, ready, ReadBuf, fill, poll_inner}

pub data ReadState : Type 0 where
  waiting_response_header streaming : ReadState

-- `read_buf` and `read_pos` are one record.
pub record VlessAuthStream : Type 0 where
  pub read_buf : ReadBuf
  pub read_state : ReadState

unfoldable pub vless_auth_stream : VlessAuthStream
vless_auth_stream = record {
  read_buf = record { buf = []; pos = 0 };
  read_state = waiting_response_header;
}

unfoldable pub poll_read_exact :
    VlessAuthStream → ℕ → List Event → Poll (Unit {0}) × VlessAuthStream × List Event
poll_read_exact s size t =
    let (p, b, t') = fill size s.read_buf t in (p, record s { read_buf = b }, t')

-- The two tests on `read_buf[0]` and `read_buf[1]`.
unfoldable pub check_header : List ℕ → Outcome IoError (Unit {0})
check_header [] = panic
check_header (version ∷ []) = ensure (version == 0x0) invalid_version >> panic
check_header (version ∷ addons ∷ more) = do
  ensure (version == 0x0) invalid_version
  ensure (addons == 0x0) invalid_addons

unfoldable pub read_streaming :
    VlessAuthStream → ℕ → List Event → Poll (List ℕ) × VlessAuthStream × List Event
read_streaming s size t = let (p, t') = poll_inner size t in (p, s, t')

-- The loop goes on in the state `Streaming` where the header is right.
unfoldable pub checked :
    Outcome IoError (Unit {0})
    → VlessAuthStream
    → ℕ
    → List Event
    → Poll (List ℕ) × VlessAuthStream × List Event
checked (ok u) s size t = read_streaming (record s { read_state = streaming }) size t
checked (err e) s size t = (ready (err e), s, t)
checked panic s size t = (ready panic, s, t)

unfoldable pub header_polled :
    Poll (Unit {0})
    → VlessAuthStream
    → ℕ
    → List Event
    → Poll (List ℕ) × VlessAuthStream × List Event
header_polled pending s size t = (pending, s, t)
header_polled (ready (ok u)) s size t = checked (check_header s.read_buf.buf) s size t
header_polled (ready (err e)) s size t = (ready (err e), s, t)
header_polled (ready panic) s size t = (ready panic, s, t)

unfoldable pub read_in :
    ReadState → VlessAuthStream → ℕ → List Event → Poll (List ℕ) × VlessAuthStream × List Event
unfolding poll_read_exact
read_in waiting_response_header s size t =
    let (p, s', t') = poll_read_exact s 2 t in header_polled p s' size t'
read_in streaming s size t = read_streaming s size t

-- `poll_read` with a buffer of `size` bytes.
unfoldable pub poll_read :
    ℕ → VlessAuthStream → List Event → Poll (List ℕ) × VlessAuthStream × List Event
poll_read size s t = read_in s.read_state s size t
