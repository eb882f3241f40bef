-- ===== src/Vless/Transparent.antt =====
-- leaf/src/proxy/vless/stream.rs: behind the response header, the stream is what the server
-- sends, however the transport cuts it.
use i_leaf.Prelude.{ℕ, ◌<◌, ◌≤◌, ◌≡◌, refl, sym, ◌∙◌, List, [], ◌∷◌, ◌++◌, length, ok, some, arith}
use i_leaf.Prelude.Polls.{
  Event, Poll, ReadBuf, got, fill, poll_inner, content, IsClean, remaining, Fill, waits, fills,
  ends, fill-Fill, OneRead, read_waits, read_gives, read_ends, poll_inner-OneRead,
}
use i_leaf.Prelude.Drain.{Polled, drain, Progress, drain-Streams, Streams}
use i_leaf.Prelude.Drain
use i_leaf.Vless.Stream.{
  ReadState, waiting_response_header, streaming, VlessAuthStream, vless_auth_stream,
  poll_read_exact, check_header, read_streaming, checked, header_polled, read_in, poll_read,
}

-- What is still to be read, in each state.
abbrev Due : ReadState → ReadBuf → List Event → List ℕ → Type 0
Due waiting_response_header b t rest =
    (b.pos < 2) × (b.pos ≤ length b.buf) × (got b ++ content t ≡ 0 ∷ 0 ∷ rest)
Due streaming b t rest = content t ≡ rest

abbrev Inv : VlessAuthStream → List Event → List ℕ → ℕ → Type 0
Inv s t rest n = IsClean t × (remaining t ≡ n) × Due s.read_state s.read_buf t rest

streaming-Progress :
    (size : ℕ) (b : ReadBuf) (before rest : List ℕ) (m n : ℕ) (out : Poll (List ℕ) × List Event)
    → before ≡ rest
    → m ≤ n
    → OneRead before m out
    → Progress
        (poll_read size)
        (ok tt)
        Inv
        rest
        n
        (out.0, record { read_buf = b; read_state = streaming }, out.1)
streaming-Progress size b before rest m n _ e h (read_waits t q c r) =
    Drain.waits _ _ (remaining t) (omega arith) (c, refl, q ∙ e)
streaming-Progress size b before rest m n _ e h (read_gives x bs t q c r) =
    Drain.gives _ _ (remaining t) (x ∷ bs) (content t) (omega arith) (omega arith) (q ∙ e)
      (c, refl, refl)
streaming-Progress size b before rest m n _ e h (read_ends q) = Drain.ends _ _ (sym e ∙ q)

header_lem :
    (b : List ℕ) (more rest : List ℕ)
    → length b ≡ 2
    → b ++ more ≡ 0 ∷ 0 ∷ rest
    → (check_header b ≡ ok tt) × (more ≡ rest)
unfolding check_header
header_lem [] more rest l e = absurd (omega arith)
header_lem (x ∷ []) more rest l e = absurd (omega arith)
header_lem (x ∷ y ∷ []) more rest l e = ground arith
header_lem (x ∷ y ∷ z ∷ b) more rest l e = absurd (omega arith)

waiting-Progress :
    (size : ℕ) (rest : List ℕ) (n : ℕ) (out : Poll (Unit {0}) × ReadBuf × List Event)
    → 0 < size
    → Fill (0 ∷ 0 ∷ rest) 2 n out
    → Progress (poll_read size) (ok tt) Inv rest n (
        header_polled out.0
          (record { read_buf = out.1; read_state = waiting_response_header })
          size
          out.2)
unfolding header_polled checked read_streaming
waiting-Progress size rest n _ h (waits b t p l q c r) =
    Drain.waits _ _ (remaining t) r (c, refl, (p, l, q))
waiting-Progress size rest n _ h (fills b t p l q c r) =
    let (good, e) = header_lem b.buf (content t) rest l q in
    rw good (
      streaming-Progress size b (content t) rest (remaining t) n (poll_inner size t) e (omega arith)
        (poll_inner-OneRead size t h c))
waiting-Progress size rest n _ h (ends b l) = absurd (omega arith)

read_in-Progress :
    (size : ℕ) (state : ReadState) (b : ReadBuf) (t : List Event) (rest : List ℕ) (n : ℕ)
    → 0 < size
    → Inv (record { read_buf = b; read_state = state }) t rest n
    → Progress
        (poll_read size)
        (ok tt)
        Inv
        rest
        n
        (read_in state (record { read_buf = b; read_state = state }) size t)
unfolding read_in read_streaming poll_read_exact
read_in-Progress size waiting_response_header b t rest n h (c, r, (p, l, q)) =
    let step : Fill (0 ∷ 0 ∷ rest) 2 n (fill 2 b t) = rw (q, r) at (fill-Fill 2 b t p l c) in
    waiting-Progress size rest n (fill 2 b t) h step
read_in-Progress size streaming b t rest n h (c, r, q) =
    streaming-Progress size b (content t) rest (remaining t) n (poll_inner size t) q (omega arith)
      (poll_inner-OneRead size t h c)

poll_read-Progress :
    (size : ℕ)
    → 0 < size
    → (s : VlessAuthStream) (t : List Event) (rest : List ℕ) (n : ℕ) → Inv s t rest n
    → Progress (poll_read size) (ok tt) Inv rest n (poll_read size s t)
unfolding poll_read
poll_read-Progress size h s t rest n i = read_in-Progress size s.read_state s.read_buf t rest n h i

pub vless_auth_stream-Streams :
    (size : ℕ) (t : List Event) (payload : List ℕ)
    → 0 < size
    → IsClean t
    → content t ≡ 0 ∷ 0 ∷ payload
    → Streams (poll_read size) (ok tt) vless_auth_stream t payload (remaining t)
unfolding vless_auth_stream
vless_auth_stream-Streams size t payload h c e = record {
  Inv = Inv;
  step = poll_read-Progress size h;
  start = (c, refl, (omega arith, omega arith, e));
}

-- A reader with a buffer that is not empty, which polls the stream up to its end, gets exactly
-- what follows the two zero bytes of the header and then the end of the stream, however the transport cuts its bytes and
-- whenever it is not ready, unless a read of it fails; as many polls as the transport has bytes
-- and answers are enough.
pub drain-vless_auth_stream :
    (size fuel : ℕ) (t : List Event) (payload : List ℕ)
    → 0 < size
    → IsClean t
    → content t ≡ 0 ∷ 0 ∷ payload
    → remaining t < fuel
    → drain (poll_read size) fuel vless_auth_stream t ≡ some (payload, ok tt)
drain-vless_auth_stream size fuel t payload h c e l =
    drain-Streams (poll_read size) (ok tt) fuel (remaining t) vless_auth_stream t payload l
      (vless_auth_stream-Streams size t payload h c e)
