-- ===== src/Session/Defs.antt =====
-- leaf/src/session.rs: `SocksAddr`, its queries and conversions.
use i_leaf.Prelude.{
  ℕ, ◌+◌, ◌^◌, ◌<◌, ◌≡◌, Bool, true, false, List, Option, none, some, length, All, Outcome, ok,
  panic,
}
use i_leaf.Prelude.Bytes.{IsByte}
use i_leaf.Prelude.Text.{is_utf8}

pub data IpAddr : Type 0 where
  v4 v6 : ℕ → IpAddr

-- `SocketAddrV6` also has a flow label and a scope.
pub data SocketAddr : Type 0 where
  sock4 : (ip port : ℕ) → SocketAddr
  sock6 : (ip port flowinfo scope_id : ℕ) → SocketAddr

pub data SocksAddr : Type 0 where
  ip_addr : SocketAddr → SocksAddr
  domain_addr : List ℕ → ℕ → SocksAddr

pub record Session : Type 0 where
  pub source : SocketAddr
  pub destination : SocksAddr

pub data WireType : Type 0 where
  port_first port_last : WireType

-- `SocksAddrPortLastType` and `SocksAddrPortFirstType`.
abbrev pub last_v4 : ℕ
last_v4 = 0x1

abbrev pub last_v6 : ℕ
last_v6 = 0x4

abbrev pub last_domain : ℕ
last_domain = 0x3

abbrev pub first_v4 : ℕ
first_v4 = 0x1

abbrev pub first_v6 : ℕ
first_v6 = 0x3

abbrev pub first_domain : ℕ
first_domain = 0x2

-- `(ip, port).into()` fills the other fields of an IPv6 address with 0.
abbrev pub socket_of : IpAddr → ℕ → SocketAddr
socket_of (v4 ip) port = sock4 ip port
socket_of (v6 ip) port = sock6 ip port 0 0

abbrev pub of_ip : IpAddr → ℕ → SocksAddr
of_ip ip port = ip_addr (socket_of ip port)

unfoldable pub empty_ipv4 : SocksAddr
empty_ipv4 = of_ip (v4 0) 0

unfoldable pub must_ip : SocksAddr → Outcome (Unit {0}) SocketAddr
must_ip (ip_addr a) = ok a
must_ip (domain_addr d port) = panic

unfoldable pub size : SocksAddr → ℕ
size (ip_addr (sock4 ip port)) = 1 + 4 + 2
size (ip_addr (sock6 ip port flow scope)) = 1 + 16 + 2
size (domain_addr domain port) = 1 + 1 + length domain + 2

abbrev pub socket_port : SocketAddr → ℕ
socket_port (sock4 ip port) = port
socket_port (sock6 ip port flow scope) = port

abbrev pub socket_ip : SocketAddr → IpAddr
socket_ip (sock4 ip port) = v4 ip
socket_ip (sock6 ip port flow scope) = v6 ip

unfoldable pub port_of : SocksAddr → ℕ
port_of (ip_addr a) = socket_port a
port_of (domain_addr d port) = port

unfoldable pub is_domain : SocksAddr → Bool
is_domain (ip_addr a) = false
is_domain (domain_addr d port) = true

unfoldable pub domain_of : SocksAddr → Option (List ℕ)
domain_of (ip_addr a) = none
domain_of (domain_addr d port) = some d

unfoldable pub ip_of : SocksAddr → Option IpAddr
ip_of (ip_addr a) = some (socket_ip a)
ip_of (domain_addr d port) = none

-- What the types of the source say of the numbers: `u16`, `u32`, `u128`, `String`.
abbrev pub IsSocket : SocketAddr → Type 0
IsSocket (sock4 ip port) = (ip < 256 ^ 4) × (port < 256 ^ 2)
IsSocket (sock6 ip port flow scope) = (ip < 256 ^ 16) × (port < 256 ^ 2)

abbrev pub IsAddr : SocksAddr → Type 0
IsAddr (ip_addr a) = IsSocket a
IsAddr (domain_addr d port) = All IsByte d × (is_utf8 d ≡ true) × (port < 256 ^ 2)

-- The name fits the length byte of the wire formats.
abbrev pub FitsWire : SocksAddr → Type 0
FitsWire (ip_addr a) = Unit {0}
FitsWire (domain_addr d port) = length d < 256

-- What the wire carries of an address: no flow label and no scope.
abbrev pub canonical : SocksAddr → SocksAddr
canonical (ip_addr a) = of_ip (socket_ip a) (socket_port a)
canonical (domain_addr d port) = domain_addr d port
