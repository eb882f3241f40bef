-- ===== src/Trojan.antt =====
-- leaf/src/proxy/trojan/tcp.rs and leaf/src/proxy/trojan/udp.rs: the request that opens a session
-- and the frames that carry datagrams over the stream.
-- The transport is a parameter: `write_all` of the writer and `dial_tcp_stream`; what is read is
-- the list of the bytes still to come. `digest` is the hex text of SHA-224. An error ends the
-- session, so the reader's position behind it is left out.
pub mod Frames
mod Tests
use i_leaf.Prelude.{
  ℕ, ◌%◌, ◌^◌, List, [], ◌∷◌, ◌++◌, length, take, min, Option, Outcome, ok, err, ◌>>=◌, ◌>>◌,
  ensure,
}
use i_leaf.Prelude.Bytes.{to_be}
use i_leaf.Prelude.Stream.{
  IoError, expected_crlf, unexpected_domain, read_exact, read_be, given_or_dial,
}
use i_leaf.Prelude.Text.{text_eq}
use i_leaf.Session.{SocketAddr, SocksAddr, ip_addr, domain_addr, port_last, write_buf, read_from}

abbrev pub crlf : List ℕ
crlf = 13 ∷ 10 ∷ []

-- The `buf` of `handle` and of `connect`, up to the command byte.
unfoldable pub request : (List ℕ → List ℕ) → ℕ → List ℕ → SocksAddr → List ℕ
request digest command password destination =
    write_buf destination (digest password ++ (crlf ++ (command ∷ []))) port_last ++ crlf

module _ {W : Type 0} (write_all : W → List ℕ → Outcome IoError W) (dial : Outcome IoError W)
    (digest : List ℕ → List ℕ) where
  unfoldable pub handle : List ℕ → SocksAddr → Option W → Outcome IoError W
  handle password destination stream = do
    w ← given_or_dial stream dial
    write_all w (request digest 0x01 password destination)

  unfoldable pub connect : List ℕ → SocksAddr → Option W → Outcome IoError W
  connect password destination stream = do
    w ← given_or_dial stream dial
    write_all w (request digest 0x03 password destination)

-- The `data` of `send_to`; `buf.len() as u16` keeps the low 16 bits.
unfoldable pub frame : List ℕ → SocketAddr → List ℕ
frame buf target =
    write_buf (ip_addr target) [] port_last ++ (to_be 2 (length buf % 2 ^ 16) ++ (crlf ++ buf))

unfoldable pub send_to {ℓ} :
    {W : Type ℓ}
    → (W → List ℕ → Outcome IoError W)
    → W
    → List ℕ
    → SocketAddr
    → Outcome IoError (ℕ × W)
send_to write_all w buf target = do w' ← write_all w (frame buf target); ok (length buf, w')

-- What `recv_from` copies to a buffer of `size` bytes.
unfoldable pub copied : ℕ → List ℕ → List ℕ
copied size payload = take (min (length payload) size) payload

-- The match at the end of `recv_from`.
unfoldable pub received :
    SocksAddr → List ℕ → List ℕ → Outcome IoError ((List ℕ × SocketAddr) × List ℕ)
received (ip_addr a) bytes rest = ok ((bytes, a), rest)
received (domain_addr d port) bytes rest = err unexpected_domain

-- `recv_from` behind the address.
unfoldable pub recv_body : ℕ → SocksAddr → List ℕ → Outcome IoError ((List ℕ × SocketAddr) × List ℕ)
recv_body size addr r = do
  (payload_len, r1) ← read_be 2 r
  (mark, r2) ← read_exact 2 r1
  ensure (text_eq mark crlf) expected_crlf
  (payload, rest) ← read_exact payload_len r2
  received addr (copied size payload) rest

-- The bytes copied, whose number is returned, and the sender.
unfoldable pub recv_from : ℕ → List ℕ → Outcome IoError ((List ℕ × SocketAddr) × List ℕ)
recv_from size r = do (addr, rest) ← read_from port_last r; recv_body size addr rest
