-- ===== src/Dispatcher.antt =====
-- leaf/src/app/dispatcher.rs: `SniffingStream`, which looks for the server name in what a client sends
-- first and then hands on all of it. A read that is not ready is the timeout of 100 milliseconds.
-- `lossy` is `String::from_utf8_lossy`. A slice or an index out of range is a panic, and so is the
-- end of the fuel of the loop over the extensions.
pub mod Bounds
pub mod Replay
pub mod Transfer
pub mod Copy
pub mod Relay
pub mod Dispatch
pub mod Outbound
pub mod Counters
mod Tests
mod RoutingTests
use i_leaf.Prelude.{
  ℕ, zero, suc, ◌+◌, ◌-◌, List, [], ◌∷◌, ◌++◌, length, take, drop, min, Bool, true, false, ◌&&◌,
  leb, ◌==◌, if◌then◌else◌, Option, none, some, Outcome, ok, err, panic, ◌>>=◌, ◌>>◌, ensure,
}
use i_leaf.Prelude.Bytes.{of_be}
use i_leaf.Prelude.Stream.{IoError}
use i_leaf.Prelude.Polls.{Event, Poll, pending, ready, poll_inner}
use i_leaf.Prelude.Drain.{Polled}

-- Why the bytes give no name: `continue 'outer`, or `return Ok(None)`.
pub data Stop : Type 0 where
  read_again give_up : Stop

abbrev pub Look : Type 0 → Type 0
Look A = Outcome Stop A

-- `s[i]`, `&s[n..]` and `&s[..n]`.
abbrev pub at : ℕ → List ℕ → Look ℕ
at i [] = panic
at zero (b ∷ s) = ok b
at (suc i) (b ∷ s) = at i s

abbrev pub from : ℕ → List ℕ → Look (List ℕ)
from n s = if leb n (length s) then ok (drop n s) else panic

abbrev pub upto : ℕ → List ℕ → Look (List ℕ)
upto n s = if leb n (length s) then ok (take n s) else panic

-- `BigEndian::read_u16` of the first two bytes.
abbrev pub read_u16 : List ℕ → Look ℕ
read_u16 [] = panic
read_u16 (x ∷ []) = panic
read_u16 (x ∷ y ∷ s) = ok (of_be (x ∷ y ∷ []))

-- `if s.len() < n { continue 'outer; }`.
abbrev pub needs : ℕ → List ℕ → Look (Unit {0})
needs n s = ensure (leb n (length s)) read_again

-- A length of two bytes in front of that many bytes or more: what stands behind the length.
unfoldable pub long_prefix : List ℕ → Look (ℕ × List ℕ)
long_prefix s = do needs 2 s; n ← read_u16 s; rest ← from 2 s; needs n rest; ok (n, rest)

-- The extension "server name".
unfoldable pub server_name : List ℕ → Look (List ℕ)
unfolding long_prefix
server_name ebuf = do
  entry ← long_prefix ebuf
  needs 1 entry.1
  entry_type ← at 0 entry.1
  ensure (entry_type == 0x0) give_up
  name ← from 1 entry.1
  hostname ← long_prefix name
  upto hostname.0 hostname.1

-- The loop over the extensions.
unfoldable pub extensions : ℕ → List ℕ → Look (List ℕ)
unfolding server_name
extensions fuel [] = err read_again
extensions zero (b ∷ s) = panic
extensions (suc fuel) (b ∷ s) = do
  needs 4 (b ∷ s)
  extension ← read_u16 (b ∷ s)
  tail ← from 2 (b ∷ s)
  extension_len ← read_u16 tail
  rest ← from 2 tail
  needs extension_len rest
  ebuf ← upto extension_len rest
  later ← from extension_len rest
  let next = extensions fuel later
  if extension == 0x0 then server_name ebuf else next

-- The handshake message behind its record header.
unfoldable pub client_hello : List ℕ → Look (List ℕ)
unfolding long_prefix extensions
client_hello body = do
  needs 42 body
  session_id_len ← at 38 body
  ensure (leb session_id_len 32 && leb (39 + session_id_len) (length body)) read_again
  suites ← from (39 + session_id_len) body
  cipher_suites ← long_prefix suites
  compression ← from cipher_suites.0 cipher_suites.1
  needs 1 compression
  methods ← at 0 compression
  needs (1 + methods) compression
  tail ← from (1 + methods) compression
  all ← long_prefix tail
  list ← upto all.0 all.1
  extensions (length list) list

-- One look at the bytes that have come.
unfoldable pub look : List ℕ → Look (List ℕ)
unfolding long_prefix client_hello
look sbuf = do
  needs 5 sbuf
  record_type ← at 0 sbuf
  ensure (record_type == 0x16) give_up
  version ← at 1 sbuf
  ensure (version == 0x3) give_up
  lengths ← from 3 sbuf
  hello ← long_prefix lengths
  body ← upto hello.0 hello.1
  client_hello body

-- `SniffingStream`, without the inner stream.
pub record SniffingStream : Type 0 where
  pub buf : List ℕ

unfoldable pub sniffing_stream : SniffingStream
sniffing_stream = record { buf = [] }

module _ (lossy : List ℕ → List ℕ) where
  abbrev pub Sniffed : Type 0
  Sniffed = Outcome IoError (Option (List ℕ)) × SniffingStream × List Event

  -- What follows one look.
  unfoldable pub looked : Look (List ℕ) → SniffingStream → List Event → Sniffed → Sniffed
  looked (ok name) s t again = (ok (some (lossy name)), s, t)
  looked (err read_again) s t again = again
  looked (err give_up) s t again = (ok none, s, t)
  looked panic s t again = (panic, s, t)

  abbrev extended : SniffingStream → List ℕ → SniffingStream
  extended s bytes = record { buf = s.buf ++ bytes }

  -- What follows one read.
  unfoldable pub after_read :
      (SniffingStream → Sniffed) → Poll (List ℕ) → SniffingStream → List Event → Sniffed
  unfolding looked look
  after_read again pending s t = (ok none, s, t)
  after_read again (ready (ok bytes)) s t =
      looked (look (s.buf ++ bytes)) (extended s bytes) t (again (extended s bytes))
  after_read again (ready (err e)) s t = (err e, s, t)
  after_read again (ready panic) s t = (panic, s, t)

  -- `sniff`, with the reads that are left; each takes at most 2048 bytes.
  unfoldable pub sniff : ℕ → SniffingStream → List Event → Sniffed
  unfolding after_read
  sniff zero s t = (ok none, s, t)
  sniff (suc n) s t = let (p, t') = poll_inner 2048 t in after_read (λ s'. sniff n s' t') p s t'

-- The arms of `poll_read`: the inner stream, and the bytes that were sniffed.
abbrev pub read_inner : ℕ → SniffingStream → List Event → Polled SniffingStream
read_inner size s t = let (p, t') = poll_inner size t in (p, s, t')

abbrev pub read_buf : ℕ → SniffingStream → List Event → Polled SniffingStream
read_buf size s t =
    let to_read = min size (length s.buf) in
    (ready (ok (take to_read s.buf)), record { buf = drop to_read s.buf }, t)

-- `poll_read` of a buffer of `size` bytes.
unfoldable pub poll_read : ℕ → SniffingStream → List Event → Polled SniffingStream
poll_read size s t = if length s.buf == 0 then read_inner size s t else read_buf size s t
