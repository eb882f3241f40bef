-- ===== src/Socks/Tests.antt =====
-- leaf/src/proxy/socks/inbound/tcp.rs: the statements at concrete inputs.
use i_leaf.Prelude.{ℕ, ◌%◌, ◌≡◌, refl, List, [], ◌∷◌, ◌++◌, length, arith}
use i_leaf.Prelude.Text.{codes, is_utf8}
use i_leaf.Session.{v4, SocksAddr, domain_addr, empty_ipv4, port_last, write_buf, IsAddr, canonical}
use i_leaf.Socks.{dispatched, handshake, response}
use i_leaf.Socks.Handshake.{keep, handshake_lem}

abbrev named : SocksAddr
named = domain_addr (codes "a.io") 443

named-IsAddr : IsAddr named
unfolding is_utf8
named-IsAddr = ((omega arith, (omega arith, (omega arith, (omega arith, tt)))), refl, omega arith)

abbrev password_only : List ℕ
password_only = 2 ∷ []

-- A client that offers password authentication before none is told 1, which is GSSAPI.
handshake_lem_example :
    handshake keep (v4 0) 1080 [] (
      5
      ∷ length (password_only ++ (0 ∷ []))
      ∷ ((password_only ++ (0 ∷ [])) ++ (5 ∷ 1 ∷ 0 ∷ (write_buf named [] port_last ++ (9 ∷ [])))))
    ≡ dispatched
        ((5 ∷ (length password_only % 256) ∷ []) ++ response keep (v4 0) 1080 empty_ipv4)
        (9 ∷ [])
        (canonical named)
handshake_lem_example =
    handshake_lem (v4 0) 1080 password_only [] named (9 ∷ []) ((λ e. cc), tt) named-IsAddr
      (omega arith)
