-- ===== src/Session/Tests.antt =====
-- leaf/src/session.rs: tests, and the theorems at concrete inputs.
use i_leaf.Prelude.{
  ℕ, ◌≡◌, ◌↔◌, inl, refl, true, List, [], ◌∷◌, ◌++◌, Outcome, ok, err, panic, ◌>>=◌, value, arith,
}
use i_leaf.Prelude.Stream.{IoError, invalid_addr_type, read_exact, read_be}
use i_leaf.Prelude.Text.{codes, is_utf8}
use i_leaf.Session.Defs.{
  SocksAddr, ip_addr, domain_addr, sock4, port_first, port_last, IsAddr, FitsWire, port_of,
}
use i_leaf.Session.Wire.{wire, write_buf, read_last_ip, read_from}
use i_leaf.Session.Slice.{parse_last_domain, try_from, insufficient_bytes}
use i_leaf.Session.RoundTrip.{read_from-write_buf, read_from-write_buf_first}
use i_leaf.Session.Parse.{value-try_from, try_from_last_panics, address, CutShort}
use i_leaf.Session.Sound.{read_from_sound, layout}
use mathlib.Core.List.{append_assoc}

abbrev localhost : SocksAddr
localhost = ip_addr (sock4 0x7f000001 443)

abbrev named : SocksAddr
named = domain_addr (codes "a.io") 80

named_bytes : write_buf named [] port_last ≡ 3 ∷ 4 ∷ 97 ∷ 46 ∷ 105 ∷ 111 ∷ 0 ∷ 80 ∷ []
unfolding write_buf wire
named_bytes = refl

localhost_bytes : write_buf localhost [] port_first ≡ 1 ∷ 187 ∷ 1 ∷ 127 ∷ 0 ∷ 0 ∷ 1 ∷ []
unfolding write_buf wire
localhost_bytes = refl

-- The parser on a domain whose port is cut after one byte.
cut_panics : try_from (3 ∷ 1 ∷ 97 ∷ 0 ∷ []) port_last ≡ panic
unfolding try_from parse_last_domain is_utf8
cut_panics = refl

cut_early : try_from (3 ∷ 1 ∷ 97 ∷ []) port_last ≡ err insufficient_bytes
unfolding try_from parse_last_domain
cut_early = refl

utf8_good : is_utf8 (0x61 ∷ 0xc3 ∷ 0xa9 ∷ 0xe2 ∷ 0x82 ∷ 0xac ∷ []) ≡ true
unfolding is_utf8
utf8_good = refl

named_utf8 : is_utf8 (codes "a.io") ≡ true
unfolding is_utf8
named_utf8 = refl

read_from-write_buf_example :
    read_from port_last (write_buf named [] port_last ++ (7 ∷ [])) ≡ ok (named, 7 ∷ [])
read_from-write_buf_example =
    read_from-write_buf named (7 ∷ []) (omega arith, named_utf8, omega arith) (omega arith)

read_from-write_buf_first_example :
    read_from port_first (write_buf named [] port_first ++ []) ≡ err invalid_addr_type
unfolding port_of
read_from-write_buf_first_example =
    read_from-write_buf_first named [] (inl (omega arith)) (omega arith)

abbrev append_all : List ℕ → List ℕ → Outcome IoError (List ℕ)
append_all w bs = ok (w ++ bs)

append_all_joins :
    (w xs ys : List ℕ) → (append_all w xs >>= λ v. append_all v ys) ≡ append_all w (xs ++ ys)
append_all_joins w xs ys = rw (append_assoc w xs ys) refl

value-try_from_example :
    value (try_from (1 ∷ 127 ∷ 0 ∷ 0 ∷ 1 ∷ 1 ∷ 187 ∷ 9 ∷ []) port_last)
    ≡ address (read_from port_last (1 ∷ 127 ∷ 0 ∷ 0 ∷ 1 ∷ 1 ∷ 187 ∷ 9 ∷ []))
value-try_from_example = value-try_from (1 ∷ 127 ∷ 0 ∷ 0 ∷ 1 ∷ 1 ∷ 187 ∷ 9 ∷ []) port_last

try_from_last_panics_example :
    (try_from (3 ∷ 1 ∷ 97 ∷ 0 ∷ []) port_last ≡ panic) ↔ CutShort (3 ∷ 1 ∷ 97 ∷ 0 ∷ [])
try_from_last_panics_example = try_from_last_panics (3 ∷ 1 ∷ 97 ∷ 0 ∷ [])

read_localhost :
    read_from port_last (1 ∷ 127 ∷ 0 ∷ 0 ∷ 1 ∷ 1 ∷ 187 ∷ 9 ∷ []) ≡ ok (localhost, 9 ∷ [])
unfolding read_from read_last_ip read_be read_exact
read_localhost = refl

read_from_sound_example :
    (1 ∷ 127 ∷ 0 ∷ 0 ∷ 1 ∷ 1 ∷ 187 ∷ 9 ∷ [] ≡ layout port_last localhost ++ (9 ∷ []))
    × IsAddr localhost
    × FitsWire localhost
read_from_sound_example =
    read_from_sound port_last (1 ∷ 127 ∷ 0 ∷ 0 ∷ 1 ∷ 1 ∷ 187 ∷ 9 ∷ []) localhost (9 ∷ [])
      (omega arith) read_localhost
