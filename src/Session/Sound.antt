-- ===== src/Session/Sound.antt =====
-- leaf/src/session.rs: what a successful `read_from` says of the bytes that it read.
use i_leaf.Prelude.{
  ℕ, ◌%◌, ◌^◌, ◌<◌, ◌≡◌, ap, ap₂, ◌∙◌, true, List, ◌∷◌, ◌++◌, length, All, ok, err, >>=-eq-ok,
  arith, if◌then◌else◌, All-append_left, All-append_right,
}
use i_leaf.Prelude.Bytes.{to_be, IsByte}
use i_leaf.Prelude.Stream.{invalid_domain, read_exact, read_be, read_exact-eq-ok, read_be-eq-ok}
use i_leaf.Prelude.Text.{is_utf8}
use i_leaf.Session.Defs.{
  IpAddr, SocksAddr, domain_addr, v4, v6, of_ip, WireType, port_first, port_last, last_v4, last_v6,
  last_domain, first_v4, first_v6, first_domain, IsAddr, FitsWire,
}
use i_leaf.Session.Wire.{
  wire, read_domain, read_last_ip, read_last_domain, read_last, read_first_ip, read_first_domain,
  read_first, read_from,
}
use i_leaf.Session.RoundTrip.{type_first}
use mathlib.Core.List.{append_assoc}

-- The format that `read_from` reads.
abbrev pub layout : WireType → SocksAddr → List ℕ
layout port_last a = wire a port_last
layout port_first a = type_first a

last_ip_sound :
    (make : ℕ → IpAddr) (w : ℕ) (r : List ℕ) (a : SocksAddr) (rest : List ℕ)
    → All IsByte r
    → read_last_ip make w r ≡ ok (a, rest)
    → (ip : ℕ) × (port : ℕ) × (a ≡ of_ip (make ip) port)
      × (r ≡ to_be w ip ++ (to_be 2 port ++ rest))
      × (ip < 256 ^ w)
      × (port < 256 ^ 2)
unfolding read_last_ip
last_ip_sound make w r a rest b h =
    let (p, e, q) = >>=-eq-ok (read_be w r) _ h in
    let (s, f, g) = >>=-eq-ok (read_be 2 p.1) (λ s. ok (of_ip (make p.0) s.0, s.1)) q in
    let (parts, hi, bytes) = read_be-eq-ok w r p.0 p.1 b e in
    let (parts2, lo, more) = read_be-eq-ok 2 p.1 s.0 s.1 bytes f in
    let tail : s.1 ≡ rest = ground arith in
    (p.0, s.0, ground arith, parts ∙ ap (◌++◌ (to_be w p.0)) (rw tail at parts2), hi, lo)

domain_sound :
    (r d rest : List ℕ)
    → All IsByte r
    → read_domain r ≡ ok (d, rest)
    → (r ≡ length d ∷ (d ++ rest))
      × (length d < 256)
      × (is_utf8 d ≡ true)
      × All IsByte d
      × All IsByte rest
unfolding read_domain
domain_sound r d rest b h =
    let (p, e, q) = >>=-eq-ok (read_be 1 r) _ h in
    let (s, f, g) =
      >>=-eq-ok (read_exact p.0 p.1) (λ s. if is_utf8 s.0 then ok s else err invalid_domain) q in
    let (parts, hi, bytes) = read_be-eq-ok 1 r p.0 p.1 b e in
    let (len, parts2) = read_exact-eq-ok p.0 p.1 s.0 s.1 f in
    let name : s.0 ≡ d = ground arith in
    let tail : s.1 ≡ rest = ground arith in
    let both : p.1 ≡ d ++ rest = rw (← name, ← tail) parts2 in
    let all : All IsByte (d ++ rest) = rw both at bytes in
    let count : length d ≡ p.0 = rw name at len in
    let small : p.0 % 256 ≡ length d = omega arith in
    (
      parts ∙ ap₂ (λ (x : ℕ) (y : List ℕ). x ∷ y) small both,
      omega arith,
      ground arith,
      All-append_left IsByte d rest all,
      All-append_right IsByte d rest all,
    )

last_domain_sound :
    (r : List ℕ) (a : SocksAddr) (rest : List ℕ)
    → All IsByte r
    → read_last_domain r ≡ ok (a, rest)
    → (d : List ℕ) × (port : ℕ) × (a ≡ domain_addr d port)
      × (r ≡ length d ∷ (d ++ (to_be 2 port ++ rest)))
      × (length d < 256)
      × (is_utf8 d ≡ true)
      × All IsByte d
      × (port < 256 ^ 2)
unfolding read_last_domain
last_domain_sound r a rest b h =
    let (p, e, q) = >>=-eq-ok (read_domain r) _ h in
    let (s, f, g) = >>=-eq-ok (read_be 2 p.1) (λ s. ok (domain_addr p.0 s.0, s.1)) q in
    let (parts, hi, utf8, name, bytes) = domain_sound r p.0 p.1 b e in
    let (parts2, lo, more) = read_be-eq-ok 2 p.1 s.0 s.1 bytes f in
    let tail : s.1 ≡ rest = ground arith in
    (
      p.0,
      s.0,
      ground arith,
      parts ∙ ap (λ (x : List ℕ). length p.0 ∷ (p.0 ++ x)) (rw tail at parts2),
      hi,
      utf8,
      name,
      lo,
    )

first_ip_sound :
    (make : ℕ → IpAddr) (w : ℕ) (r : List ℕ) (a : SocksAddr) (rest : List ℕ)
    → All IsByte r
    → read_first_ip make w r ≡ ok (a, rest)
    → (ip : ℕ) × (port : ℕ) × (a ≡ of_ip (make ip) port)
      × (r ≡ to_be 2 port ++ (to_be w ip ++ rest))
      × (ip < 256 ^ w)
      × (port < 256 ^ 2)
unfolding read_first_ip
first_ip_sound make w r a rest b h =
    let (p, e, q) = >>=-eq-ok (read_be 2 r) _ h in
    let (s, f, g) = >>=-eq-ok (read_be w p.1) (λ s. ok (of_ip (make s.0) p.0, s.1)) q in
    let (parts, lo, bytes) = read_be-eq-ok 2 r p.0 p.1 b e in
    let (parts2, hi, more) = read_be-eq-ok w p.1 s.0 s.1 bytes f in
    let tail : s.1 ≡ rest = ground arith in
    (s.0, p.0, ground arith, parts ∙ ap (◌++◌ (to_be 2 p.0)) (rw tail at parts2), hi, lo)

first_domain_sound :
    (r : List ℕ) (a : SocksAddr) (rest : List ℕ)
    → All IsByte r
    → read_first_domain r ≡ ok (a, rest)
    → (d : List ℕ) × (port : ℕ) × (a ≡ domain_addr d port)
      × (r ≡ to_be 2 port ++ (length d ∷ (d ++ rest)))
      × (length d < 256)
      × (is_utf8 d ≡ true)
      × All IsByte d
      × (port < 256 ^ 2)
unfolding read_first_domain
first_domain_sound r a rest b h =
    let (p, e, q) = >>=-eq-ok (read_be 2 r) _ h in
    let (s, f, g) = >>=-eq-ok (read_domain p.1) (λ s. ok (domain_addr s.0 p.0, s.1)) q in
    let (parts, lo, bytes) = read_be-eq-ok 2 r p.0 p.1 b e in
    let (parts2, hi, utf8, name, more) = domain_sound p.1 s.0 s.1 bytes f in
    let tail : s.1 ≡ rest = ground arith in
    (
      s.0,
      p.0,
      ground arith,
      parts ∙ ap (◌++◌ (to_be 2 p.0)) (rw tail at parts2),
      hi,
      utf8,
      name,
      lo,
    )

Sound : WireType → List ℕ → SocksAddr → List ℕ → Type 0
Sound t r a rest = (r ≡ layout t a ++ rest) × IsAddr a × FitsWire a

last_ip4 :
    (r1 : List ℕ) (a : SocksAddr) (rest : List ℕ)
    → All IsByte r1
    → read_last_ip v4 4 r1 ≡ ok (a, rest)
    → Sound port_last (last_v4 ∷ r1) a rest
unfolding Sound wire
last_ip4 r1 a rest b h =
    let (ip, port, e, parts, hi, lo) = last_ip_sound v4 4 r1 a rest b h in
    rw e (ap (◌∷◌ last_v4) parts, (hi, lo), tt)

last_ip6 :
    (r1 : List ℕ) (a : SocksAddr) (rest : List ℕ)
    → All IsByte r1
    → read_last_ip v6 16 r1 ≡ ok (a, rest)
    → Sound port_last (last_v6 ∷ r1) a rest
unfolding Sound wire
last_ip6 r1 a rest b h =
    let (ip, port, e, parts, hi, lo) = last_ip_sound v6 16 r1 a rest b h in
    rw e (ap (◌∷◌ last_v6) parts, (hi, lo), tt)

last_name :
    (r1 : List ℕ) (a : SocksAddr) (rest : List ℕ)
    → All IsByte r1
    → read_last_domain r1 ≡ ok (a, rest)
    → Sound port_last (last_domain ∷ r1) a rest
unfolding Sound wire
last_name r1 a rest b h =
    let (d, port, e, parts, hi, utf8, name, lo) = last_domain_sound r1 a rest b h in
    let len : length d % 256 ≡ length d = omega arith in
    rw (e, len, append_assoc d (to_be 2 port) rest)
      (ap (◌∷◌ last_domain) parts, (name, utf8, lo), hi)

first_ip4 :
    (r1 : List ℕ) (a : SocksAddr) (rest : List ℕ)
    → All IsByte r1
    → read_first_ip v4 4 r1 ≡ ok (a, rest)
    → Sound port_first (first_v4 ∷ r1) a rest
unfolding Sound
first_ip4 r1 a rest b h =
    let (ip, port, e, parts, hi, lo) = first_ip_sound v4 4 r1 a rest b h in
    rw e (ap (◌∷◌ first_v4) parts, (hi, lo), tt)

first_ip6 :
    (r1 : List ℕ) (a : SocksAddr) (rest : List ℕ)
    → All IsByte r1
    → read_first_ip v6 16 r1 ≡ ok (a, rest)
    → Sound port_first (first_v6 ∷ r1) a rest
unfolding Sound
first_ip6 r1 a rest b h =
    let (ip, port, e, parts, hi, lo) = first_ip_sound v6 16 r1 a rest b h in
    rw e (ap (◌∷◌ first_v6) parts, (hi, lo), tt)

first_name :
    (r1 : List ℕ) (a : SocksAddr) (rest : List ℕ)
    → All IsByte r1
    → read_first_domain r1 ≡ ok (a, rest)
    → Sound port_first (first_domain ∷ r1) a rest
unfolding Sound
first_name r1 a rest b h =
    let (d, port, e, parts, hi, utf8, name, lo) = first_domain_sound r1 a rest b h in
    rw e (ap (◌∷◌ first_domain) parts, (name, utf8, lo), hi)

last-Sound :
    (t : ℕ) (r1 : List ℕ) (a : SocksAddr) (rest : List ℕ)
    → All IsByte r1
    → read_last t r1 ≡ ok (a, rest)
    → Sound port_last (t ∷ r1) a rest
unfolding read_last
last-Sound t r1 a rest b h =
    ground (arith, last_ip4 r1 a rest b, last_ip6 r1 a rest b, last_name r1 a rest b)

first-Sound :
    (t : ℕ) (r1 : List ℕ) (a : SocksAddr) (rest : List ℕ)
    → All IsByte r1
    → read_first t r1 ≡ ok (a, rest)
    → Sound port_first (t ∷ r1) a rest
unfolding read_first
first-Sound t r1 a rest b h =
    ground (arith, first_ip4 r1 a rest b, first_ip6 r1 a rest b, first_name r1 a rest b)

from_first_byte :
    (t : WireType) (r : List ℕ) (x : ℕ) (r1 : List ℕ) (a : SocksAddr) (rest : List ℕ)
    → r ≡ to_be 1 x ++ r1
    → x < 256
    → Sound t (x ∷ r1) a rest
    → Sound t r a rest
from_first_byte t r x r1 a rest parts hi s =
    let small : x % 256 ≡ x = omega arith in rw (parts ∙ ap (λ (y : ℕ). y ∷ r1) small) s

-- `read_from` accepts nothing but its format: if it returns an address, the stream began with the
-- bytes of that address in the format, the numbers are in the ranges of their types and the
-- domain name is UTF-8 of at most 255 bytes; what is left is what followed.
pub read_from_sound :
    (t : WireType) (r : List ℕ) (a : SocksAddr) (rest : List ℕ)
    → All IsByte r
    → read_from t r ≡ ok (a, rest)
    → (r ≡ layout t a ++ rest) × IsAddr a × FitsWire a
unfolding read_from Sound
read_from_sound port_last r a rest b h =
    let (p, e, q) = >>=-eq-ok (read_be 1 r) _ h in
    let (parts, hi, bytes) = read_be-eq-ok 1 r p.0 p.1 b e in
    from_first_byte port_last r p.0 p.1 a rest parts hi (last-Sound p.0 p.1 a rest bytes q)
read_from_sound port_first r a rest b h =
    let (p, e, q) = >>=-eq-ok (read_be 1 r) _ h in
    let (parts, hi, bytes) = read_be-eq-ok 1 r p.0 p.1 b e in
    from_first_byte port_first r p.0 p.1 a rest parts hi (first-Sound p.0 p.1 a rest bytes q)
