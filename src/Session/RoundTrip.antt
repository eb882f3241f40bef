-- ===== src/Session/RoundTrip.antt =====
-- leaf/src/session.rs: what the readers make of what the writers write.
use i_leaf.Prelude.{
  ℕ, ◌+◌, ◌%◌, ◌^◌, ◌<◌, ◌/◌, ◌⊎◌, ◌≡◌, refl, ap, true, List, [], ◌∷◌, ◌++◌, length, length-append,
  Outcome, ok, err, ◌>>=◌, arith,
}
use i_leaf.Prelude.Bytes.{to_be}
use i_leaf.Prelude.Stream.{
  IoError, invalid_addr_type, read_exact, read_be, read_exact-append, read_be-to_be,
}
use i_leaf.Prelude.Text.{is_utf8}
use i_leaf.Session.Defs.{
  IpAddr, SocksAddr, ip_addr, domain_addr, sock4, sock6, v4, v6, of_ip, WireType, port_first,
  port_last, size, port_of, first_v4, first_v6, first_domain, last_v4, last_v6, last_domain,
  canonical, IsAddr, FitsWire,
}
use i_leaf.Session.Wire.{
  wire, write_buf, write_to, read_domain, read_last_ip, read_last_domain, read_first_ip,
  read_first_domain, read_from,
}
use mathlib.Core.List.{append_assoc}

-- `size` is the number of bytes that `write_buf` adds, in both formats.
pub length-write_buf :
    (a : SocksAddr) (buf : List ℕ) (t : WireType) → length (write_buf a buf t) ≡ length buf + size a
unfolding write_buf wire size
length-write_buf (ip_addr (sock4 ip port)) buf port_last = length-append buf _
length-write_buf (ip_addr (sock4 ip port)) buf port_first = length-append buf _
length-write_buf (ip_addr (sock6 ip port flow scope)) buf port_last = length-append buf _
length-write_buf (ip_addr (sock6 ip port flow scope)) buf port_first = length-append buf _
length-write_buf (domain_addr d port) buf port_last =
    rw length-append (omega (arith, length-append d (to_be 2 port)))
length-write_buf (domain_addr d port) buf port_first = rw length-append (omega arith)

read_byte : (b : ℕ) (rest : List ℕ) → read_be 1 (b ∷ rest) ≡ ok (b, rest)
unfolding read_be read_exact
read_byte b rest = ap (λ (v : ℕ). ok (v, rest)) (omega arith)

read_domain_lem :
    (d rest : List ℕ)
    → length d < 256
    → is_utf8 d ≡ true
    → read_domain ((length d % 256) ∷ (d ++ rest)) ≡ ok (d, rest)
unfolding read_domain
read_domain_lem d rest h u =
    let n : length d % 256 ≡ length d = omega arith in
    rw (n, read_byte (length d) (d ++ rest), read_exact-append (length d) d rest refl, u) refl

read_last_ip_lem :
    (make : ℕ → IpAddr) (w ip port : ℕ) (rest : List ℕ)
    → ip < 256 ^ w
    → port < 256 ^ 2
    → read_last_ip make w (to_be w ip ++ (to_be 2 port ++ rest)) ≡ ok (of_ip (make ip) port, rest)
unfolding read_last_ip
read_last_ip_lem make w ip port rest h k =
    rw (read_be-to_be w ip (to_be 2 port ++ rest) h) (rw (read_be-to_be 2 port rest k) refl)

read_last_domain_lem :
    (d rest : List ℕ) (port : ℕ)
    → length d < 256
    → is_utf8 d ≡ true
    → port < 256 ^ 2
    → read_last_domain ((length d % 256) ∷ (d ++ (to_be 2 port ++ rest)))
      ≡ ok (domain_addr d port, rest)
unfolding read_last_domain
read_last_domain_lem d rest port h u k =
    rw (read_domain_lem d (to_be 2 port ++ rest) h u) (rw (read_be-to_be 2 port rest k) refl)

-- `read_from` in the port-last format returns the address that `write_buf` wrote, without flow
-- label and scope, and leaves the bytes behind it; the address holds numbers of its types and
-- its domain name has at most 255 bytes.
pub read_from-write_buf :
    (a : SocksAddr) (rest : List ℕ)
    → IsAddr a
    → FitsWire a
    → read_from port_last (write_buf a [] port_last ++ rest) ≡ ok (canonical a, rest)
unfolding write_buf wire read_from
read_from-write_buf (ip_addr (sock4 ip port)) rest (h, k) f =
    rw (read_byte 1) (read_last_ip_lem v4 4 ip port rest h k)
read_from-write_buf (ip_addr (sock6 ip port flow scope)) rest (h, k) f =
    rw (read_byte 4) (read_last_ip_lem v6 16 ip port rest h k)
read_from-write_buf (domain_addr d port) rest (b, u, k) f =
    rw (append_assoc d (to_be 2 port) rest, read_byte 3) (read_last_domain_lem d rest port f u k)

read_first_ip_lem :
    (make : ℕ → IpAddr) (w ip port : ℕ) (rest : List ℕ)
    → ip < 256 ^ w
    → port < 256 ^ 2
    → read_first_ip make w (to_be 2 port ++ (to_be w ip ++ rest)) ≡ ok (of_ip (make ip) port, rest)
unfolding read_first_ip
read_first_ip_lem make w ip port rest h k =
    rw (read_be-to_be 2 port (to_be w ip ++ rest) k) (rw (read_be-to_be w ip rest h) refl)

read_first_domain_lem :
    (d rest : List ℕ) (port : ℕ)
    → length d < 256
    → is_utf8 d ≡ true
    → port < 256 ^ 2
    → read_first_domain (to_be 2 port ++ (length d ∷ (d ++ rest))) ≡ ok (domain_addr d port, rest)
unfolding read_first_domain
read_first_domain_lem d rest port h u k =
    let n : length d % 256 ≡ length d = omega arith in
    rw (read_be-to_be 2 port (length d ∷ (d ++ rest)) k)
      (rw (rw n at (read_domain_lem d rest h u)) refl)

-- The format that `read_from` reads for `PortFirst`: the type byte stands before the port.
abbrev pub type_first : SocksAddr → List ℕ
type_first (ip_addr (sock4 ip port)) = first_v4 ∷ (to_be 2 port ++ to_be 4 ip)
type_first (ip_addr (sock6 ip port flow scope)) = first_v6 ∷ (to_be 2 port ++ to_be 16 ip)
type_first (domain_addr d port) = first_domain ∷ (to_be 2 port ++ (length d ∷ d))

-- `read_from` with `PortFirst` reads a format with the type byte in front of the port, and
-- leaves what follows; the address holds numbers of its types and its name at most 255 bytes.
read_from-type_first :
    (a : SocksAddr) (rest : List ℕ)
    → IsAddr a
    → FitsWire a
    → read_from port_first (type_first a ++ rest) ≡ ok (canonical a, rest)
unfolding read_from
read_from-type_first (ip_addr (sock4 ip port)) rest (h, k) f =
    rw (read_byte 1) (read_first_ip_lem v4 4 ip port rest h k)
read_from-type_first (ip_addr (sock6 ip port flow scope)) rest (h, k) f =
    rw (read_byte 3) (read_first_ip_lem v6 16 ip port rest h k)
read_from-type_first (domain_addr d port) rest (b, u, k) f =
    rw (read_byte 2) (read_first_domain_lem d rest port f u k)

-- `PortFirst` is no round trip: `write_buf` puts the port in front of the type byte, where
-- `read_from` expects the type. It refuses every address whose port is below 256 or above 1023, 80
-- and 8080 among them; nothing is said of the ports between, whose high byte is taken for a type.
pub read_from-write_buf_first :
    (a : SocksAddr) (rest : List ℕ)
    → (port_of a / 256 < 1) ⊎ (3 < port_of a / 256)
    → port_of a < 256 ^ 2
    → read_from port_first (write_buf a [] port_first ++ rest) ≡ err invalid_addr_type
unfolding write_buf wire read_from port_of
read_from-write_buf_first (ip_addr (sock4 ip port)) rest h k =
    rw (read_byte (port / 256 % 256)) (ground arith)
read_from-write_buf_first (ip_addr (sock6 ip port flow scope)) rest h k =
    rw (read_byte (port / 256 % 256)) (ground arith)
read_from-write_buf_first (domain_addr d port) rest h k =
    rw (read_byte (port / 256 % 256)) (ground arith)

module _ {W : Type 0} (write_all : W → List ℕ → Outcome IoError W)
    (joins : (w : W) (xs ys : List ℕ)
      → (write_all w xs >>= λ v. write_all v ys) ≡ write_all w (xs ++ ys)) where
  join_three :
      (xs ys zs : List ℕ) (w : W)
      → (write_all w xs >>= λ w1. write_all w1 ys >>= λ w2. write_all w2 zs)
        ≡ write_all w (xs ++ (ys ++ zs))
  join_three xs ys zs w = simp joins

  join_four :
      (xs ys zs us : List ℕ) (w : W)
      → (write_all w xs >>= λ w1.
          write_all w1 ys >>= λ w2. write_all w2 zs >>= λ w3. write_all w3 us)
        ≡ write_all w (xs ++ (ys ++ (zs ++ us)))
  join_four xs ys zs us w = simp joins

  -- Where a writer takes two slices as it takes their concatenation, `write_to` is one `write_all`
  -- of the bytes that `write_buf` adds.
  write_to-write_buf :
      (a : SocksAddr) (t : WireType) (w : W)
      → write_to write_all a t w ≡ write_all w (write_buf a [] t)
  unfolding write_to write_buf wire
  write_to-write_buf (ip_addr (sock4 ip port)) port_last w =
      join_three (last_v4 ∷ []) (to_be 4 ip) (to_be 2 port) w
  write_to-write_buf (ip_addr (sock4 ip port)) port_first w =
      join_three (to_be 2 port) (first_v4 ∷ []) (to_be 4 ip) w
  write_to-write_buf (ip_addr (sock6 ip port flow scope)) port_last w =
      join_three (last_v6 ∷ []) (to_be 16 ip) (to_be 2 port) w
  write_to-write_buf (ip_addr (sock6 ip port flow scope)) port_first w =
      join_three (to_be 2 port) (first_v6 ∷ []) (to_be 16 ip) w
  write_to-write_buf (domain_addr d port) port_last w =
      join_four (last_domain ∷ []) (length d % 256 ∷ []) d (to_be 2 port) w
  write_to-write_buf (domain_addr d port) port_first w =
      join_four (to_be 2 port) (first_domain ∷ []) (length d % 256 ∷ []) d w
