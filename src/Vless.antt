-- ===== src/Vless.antt =====
-- leaf/src/proxy/vless/tcp.rs, leaf/src/proxy/vless/udp.rs and leaf/src/proxy/vless/stream.rs: the
-- request that opens a session, the datagrams over the stream, and the stream that takes off the
-- response header.
-- The transport is a parameter: `write_all` of the writer, `dial_tcp_stream`, and for the reader
-- the bytes still to come or the answers to the polls. `Uuid::parse_str` is a parameter.
mod Stream
pub mod Frames
pub mod Transparent
mod Tests
unfoldable pub use Stream.*
use i_leaf.Prelude.{
  ℕ, ◌%◌, ◌^◌, List, [], ◌∷◌, ◌++◌, length, take, min, Bool, true, false, Option, none, some,
  Outcome, ok, err, ◌>>=◌, ◌>>◌, ensure, ◌==◌,
}
use i_leaf.Prelude.Bytes.{to_be}
use i_leaf.Prelude.Stream.{
  IoError, invalid_version, invalid_uuid, unexpected_domain, read_exact, read_be, given_or_dial,
}
use i_leaf.Session.{SocketAddr, SocksAddr, ip_addr, domain_addr, port_first, write_buf}

-- The `buf` of `handle` and of `connect`.
unfoldable pub request : List ℕ → ℕ → SocksAddr → List ℕ
request uuid command destination =
    write_buf destination ((0x0 ∷ uuid) ++ (0x0 ∷ command ∷ [])) port_first

unfoldable pub uuid_bytes : Option (List ℕ) → Outcome IoError (List ℕ)
uuid_bytes (some uuid) = ok uuid
uuid_bytes none = err invalid_uuid

module _ {W : Type 0} (write_all : W → List ℕ → Outcome IoError W) (dial : Outcome IoError W)
    (parse_str : List ℕ → Option (List ℕ)) where
  unfoldable pub handle : List ℕ → SocksAddr → Option W → Outcome IoError W
  handle id destination stream = do
    uuid ← uuid_bytes (parse_str id)
    w ← given_or_dial stream dial
    write_all w (request uuid 0x01 destination)

  -- The datagram remembers the destination.
  unfoldable pub connect : List ℕ → SocksAddr → Option W → Outcome IoError (W × SocksAddr)
  connect id destination stream = do
    uuid ← uuid_bytes (parse_str id)
    w ← given_or_dial stream dial
    w' ← write_all w (request uuid 0x02 destination)
    ok (w', destination)

unfoldable pub frame : List ℕ → List ℕ
frame buf = to_be 2 (length buf % 2 ^ 16) ++ buf

unfoldable pub send_to {ℓ} :
    {W : Type ℓ}
    → (W → List ℕ → Outcome IoError W)
    → W
    → List ℕ
    → SocketAddr
    → Outcome IoError (ℕ × W)
send_to write_all w buf target = do w' ← write_all w (frame buf); ok (length buf, w')

-- `DatagramRecvHalf`: the bytes still to come, the target, and whether the response header was
-- read. An error ends the session, so the state behind it is left out.
pub record RecvHalf : Type 0 where
  pub stream : List ℕ
  pub target : SocksAddr
  pub header_read : Bool

unfoldable pub read_header : Bool → List ℕ → Outcome IoError (List ℕ)
read_header true r = ok r
read_header false r = do
  (version, r1) ← read_be 1 r
  ensure (version == 0x0) invalid_version
  (addons, r2) ← read_be 1 r1
  ensure (addons == 0x0) invalid_version
  ok r2

unfoldable pub sender : SocksAddr → Outcome IoError SocketAddr
sender (ip_addr a) = ok a
sender (domain_addr d port) = err unexpected_domain

unfoldable pub copied : ℕ → List ℕ → List ℕ
copied size payload = take (min (length payload) size) payload

-- The bytes copied to a buffer of `size` bytes, whose number is returned, and the sender.
unfoldable pub recv_from : ℕ → RecvHalf → Outcome IoError ((List ℕ × SocketAddr) × RecvHalf)
recv_from size s = do
  r ← read_header s.header_read s.stream
  (payload_len, r1) ← read_be 2 r
  (payload, rest) ← read_exact payload_len r1
  addr ← sender s.target
  ok ((copied size payload, addr), record { stream = rest; target = s.target; header_read = true })
