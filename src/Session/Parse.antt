-- ===== src/Session/Parse.antt =====
-- leaf/src/session.rs: the slice parser against the stream reader, and where it panics.
use i_leaf.Prelude.{
  ℕ, ◌+◌, ◌≡◌, ◌≢◌, ◌↔◌, refl, ap, true, List, [], ◌∷◌, length, take, drop, length-drop, Option, ok,
  panic, value, arith,
}
use i_leaf.Prelude.Stream.{read_exact, read_be, read_exact-take, read_be-take}
use i_leaf.Prelude.Text.{is_utf8}
use i_leaf.Session.Defs.{IpAddr, SocksAddr, v4, v6, WireType, port_first, port_last}
use i_leaf.Session.Wire.{
  Read, read_domain, read_last_ip, read_last_domain, read_first_ip, read_first_domain, read_from,
}
use i_leaf.Session.Slice.{
  parse_last_ip, parse_last_domain, parse_first_ip, parse_first_domain, try_from,
}
use mathlib.Core.Option

abbrev pub address : Read → Option SocksAddr
address r = Option.map (λ p. p.0) (value r)

last_ip_agrees :
    (make : ℕ → IpAddr) (w t : ℕ) (r : List ℕ)
    → value (parse_last_ip make w (t ∷ r)) ≡ address (read_last_ip make w r)
unfolding parse_last_ip read_last_ip
last_ip_agrees make w t r =
    ground (arith, read_be-take w r, read_be-take 2 (drop w r), length-drop w r)

first_ip_agrees :
    (make : ℕ → IpAddr) (w t : ℕ) (r : List ℕ)
    → value (parse_first_ip make w (t ∷ r)) ≡ address (read_first_ip make w r)
unfolding parse_first_ip read_first_ip
first_ip_agrees make w t r =
    ground (arith, read_be-take 2 r, read_be-take w (drop 2 r), length-drop 2 r)

read_byte : (r : List ℕ) (b : ℕ) → read_be 1 (b ∷ r) ≡ ok (b, r)
unfolding read_be read_exact
read_byte r b = ap (λ (v : ℕ). ok (v, r)) (omega arith)

last_domain_agrees :
    (t : ℕ) (r : List ℕ) → value (parse_last_domain (t ∷ r)) ≡ address (read_last_domain r)
unfolding parse_last_domain read_last_domain read_domain
last_domain_agrees t [] = unfold read_be read_exact in refl
last_domain_agrees t (n ∷ r) =
    rw (read_byte r n)
      (ground (arith, read_exact-take n r, read_be-take 2 (drop n r), length-drop n r))

first_domain_agrees :
    (t : ℕ) (r : List ℕ) → value (parse_first_domain (t ∷ r)) ≡ address (read_first_domain r)
unfolding parse_first_domain read_first_domain read_domain
first_domain_agrees t [] = unfold read_be read_exact in refl
first_domain_agrees t (p ∷ []) = unfold read_be read_exact in refl
first_domain_agrees t (p ∷ q ∷ []) = unfold read_be read_exact in refl
first_domain_agrees t (p ∷ q ∷ n ∷ r) =
    ground (arith, read_be-take 2 (p ∷ q ∷ n ∷ r), read_byte r n, read_exact-take n r)

-- The slice parser and the stream reader accept the same inputs and return the same address, in
-- both formats and on every input; the parser gives none where it fails or panics.
pub value-try_from :
    (buf : List ℕ) (t : WireType) → value (try_from buf t) ≡ address (read_from t buf)
unfolding try_from read_from
value-try_from [] port_last = unfold read_be read_exact in refl
value-try_from [] port_first = unfold read_be read_exact in refl
value-try_from (b ∷ r) port_last =
    rw (read_byte r b)
      (ground (arith, last_ip_agrees v4 4 b r, last_ip_agrees v6 16 b r, last_domain_agrees b r))
value-try_from (b ∷ r) port_first =
    rw (read_byte r b)
      (ground (arith, first_ip_agrees v4 4 b r, first_ip_agrees v6 16 b r, first_domain_agrees b r))

-- With `PortFirst` the parser never panics.
try_from_first-ne-panic : (buf : List ℕ) → try_from buf port_first ≢ panic
unfolding try_from parse_first_ip parse_first_domain
try_from_first-ne-panic [] e = cc
try_from_first-ne-panic (b ∷ r) e = ground (arith, length-drop 2 r)

-- A lone type byte of a domain, and a well-formed name with one byte behind it, where the port
-- should be.
abbrev pub CutShort : List ℕ → Type 0
CutShort [] = ⊥
CutShort (t ∷ []) = t ≡ 3
CutShort (t ∷ n ∷ r) = (t ≡ 3) × (length r ≡ n + 1) × (is_utf8 (take n r) ≡ true)

parse_last_ip-ne-panic :
    (make : ℕ → IpAddr) (w : ℕ) (buf : List ℕ) → parse_last_ip make w buf ≢ panic
unfolding parse_last_ip
parse_last_ip-ne-panic make w buf e = ground arith

-- With `PortLast` the parser panics on exactly the inputs that are `CutShort`.
pub try_from_last_panics : (buf : List ℕ) → (try_from buf port_last ≡ panic) ↔ CutShort buf
unfolding try_from parse_last_domain
try_from_last_panics [] = ((λ e. cc), λ h. absurd h)
try_from_last_panics (b ∷ []) = (
  (λ e.
      ground (arith, parse_last_ip-ne-panic v4 4 (b ∷ []), parse_last_ip-ne-panic v6 16 (b ∷ []))),
  λ h. ground arith,
)
try_from_last_panics (b ∷ n ∷ r) = (
  (λ e.
      ground
        (arith, parse_last_ip-ne-panic v4 4 (b ∷ n ∷ r), parse_last_ip-ne-panic v6 16 (b ∷ n ∷ r))),
  λ h. ground arith,
)
