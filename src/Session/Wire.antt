-- ===== src/Session/Wire.antt =====
-- leaf/src/session.rs: `write_buf`, `write_to` and `read_from`.
use i_leaf.Prelude.{
  ℕ, ◌%◌, List, [], ◌∷◌, ◌++◌, length, Outcome, ok, err, ◌>>=◌, ◌==◌, if◌then◌else◌,
}
use i_leaf.Prelude.Bytes.{to_be}
use i_leaf.Prelude.Stream.{IoError, invalid_domain, invalid_addr_type, read_exact, read_be}
use i_leaf.Prelude.Text.{is_utf8}
use i_leaf.Session.Defs.{
  IpAddr, SocksAddr, ip_addr, domain_addr, sock4, sock6, v4, v6, of_ip, WireType, port_first,
  port_last, last_v4, last_v6, last_domain, first_v4, first_v6, first_domain,
}

-- `write_u8`, `write_u16` and `write_all` of a stream, as one call with the bytes.
module _ {W : Type 0} (write_all : W → List ℕ → Outcome IoError W) where
  unfoldable pub write_to : SocksAddr → WireType → W → Outcome IoError W
  write_to (ip_addr (sock4 ip port)) port_last w = do
    w1 ← write_all w (last_v4 ∷ [])
    w2 ← write_all w1 (to_be 4 ip)
    write_all w2 (to_be 2 port)
  write_to (ip_addr (sock4 ip port)) port_first w = do
    w1 ← write_all w (to_be 2 port)
    w2 ← write_all w1 (first_v4 ∷ [])
    write_all w2 (to_be 4 ip)
  write_to (ip_addr (sock6 ip port flow scope)) port_last w = do
    w1 ← write_all w (last_v6 ∷ [])
    w2 ← write_all w1 (to_be 16 ip)
    write_all w2 (to_be 2 port)
  write_to (ip_addr (sock6 ip port flow scope)) port_first w = do
    w1 ← write_all w (to_be 2 port)
    w2 ← write_all w1 (first_v6 ∷ [])
    write_all w2 (to_be 16 ip)
  write_to (domain_addr domain port) port_last w = do
    w1 ← write_all w (last_domain ∷ [])
    w2 ← write_all w1 (length domain % 256 ∷ [])
    w3 ← write_all w2 domain
    write_all w3 (to_be 2 port)
  write_to (domain_addr domain port) port_first w = do
    w1 ← write_all w (to_be 2 port)
    w2 ← write_all w1 (first_domain ∷ [])
    w3 ← write_all w2 (length domain % 256 ∷ [])
    write_all w3 domain

-- The bytes that `write_buf` puts behind the buffer.
unfoldable pub wire : SocksAddr → WireType → List ℕ
wire (ip_addr (sock4 ip port)) port_last = last_v4 ∷ (to_be 4 ip ++ to_be 2 port)
wire (ip_addr (sock4 ip port)) port_first = to_be 2 port ++ (first_v4 ∷ to_be 4 ip)
wire (ip_addr (sock6 ip port flow scope)) port_last = last_v6 ∷ (to_be 16 ip ++ to_be 2 port)
wire (ip_addr (sock6 ip port flow scope)) port_first = to_be 2 port ++ (first_v6 ∷ to_be 16 ip)
wire (domain_addr domain port) port_last =
    last_domain ∷ (length domain % 256) ∷ (domain ++ to_be 2 port)
wire (domain_addr domain port) port_first =
    to_be 2 port ++ (first_domain ∷ (length domain % 256) ∷ domain)

unfoldable pub write_buf : SocksAddr → List ℕ → WireType → List ℕ
write_buf a buf t = buf ++ wire a t

-- A length byte, that many bytes, and the test for UTF-8.
unfoldable pub read_domain : List ℕ → Outcome IoError (List ℕ × List ℕ)
read_domain r = do
  (n, r1) ← read_be 1 r
  (buf, r2) ← read_exact n r1
  if is_utf8 buf then ok (buf, r2) else err invalid_domain

abbrev pub Read : Type 0
Read = Outcome IoError (SocksAddr × List ℕ)

-- The arms of `PortLast`, behind the type byte.
unfoldable pub read_last_ip : (ℕ → IpAddr) → ℕ → List ℕ → Read
read_last_ip make width r = do
  (ip, r1) ← read_be width r
  (port, rest) ← read_be 2 r1
  ok (of_ip (make ip) port, rest)

unfoldable pub read_last_domain : List ℕ → Read
read_last_domain r = do
  (domain, r1) ← read_domain r
  (port, rest) ← read_be 2 r1
  ok (domain_addr domain port, rest)

unfoldable pub read_last : ℕ → List ℕ → Read
read_last t r =
    if t == last_v4
    then read_last_ip v4 4 r
    else if t == last_v6
    then read_last_ip v6 16 r
    else if t == last_domain
    then read_last_domain r
    else err invalid_addr_type

-- The arms of `PortFirst`, behind the type byte: there the port is read next.
unfoldable pub read_first_ip : (ℕ → IpAddr) → ℕ → List ℕ → Read
read_first_ip make width r = do
  (port, r1) ← read_be 2 r
  (ip, rest) ← read_be width r1
  ok (of_ip (make ip) port, rest)

unfoldable pub read_first_domain : List ℕ → Read
read_first_domain r = do
  (port, r1) ← read_be 2 r
  (domain, rest) ← read_domain r1
  ok (domain_addr domain port, rest)

unfoldable pub read_first : ℕ → List ℕ → Read
read_first t r =
    if t == first_v4
    then read_first_ip v4 4 r
    else if t == first_v6
    then read_first_ip v6 16 r
    else if t == first_domain
    then read_first_domain r
    else err invalid_addr_type

-- `read_from`, on what is still to come.
unfoldable pub read_from : WireType → List ℕ → Read
unfolding read_last read_first
read_from port_last r = do (t, r1) ← read_be 1 r; read_last t r1
read_from port_first r = do (t, r1) ← read_be 1 r; read_first t r1
