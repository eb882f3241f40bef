-- ===== src/Trojan/Tests.antt =====
-- leaf/src/proxy/trojan/tcp.rs and leaf/src/proxy/trojan/udp.rs: the statements at concrete inputs.
use i_leaf.Prelude.{
  ℕ, ◌≡◌, refl, List, [], ◌∷◌, ◌++◌, length, replicate, map, ok, ◌>>=◌, All, arith,
}
use i_leaf.Prelude.Text.{codes, is_utf8}
use i_leaf.Session.{SocketAddr, SocksAddr, sock4, domain_addr, IsAddr}
use i_leaf.Trojan.Frames.{recv_all-send_all, send_all, recv_all, delivered, Sendable}

abbrev dns : SocketAddr
dns = sock4 0x08080808 53

abbrev named : SocksAddr
named = domain_addr (codes "a.io") 443

named-IsAddr : IsAddr named
unfolding is_utf8
named-IsAddr = ((omega arith, (omega arith, (omega arith, (omega arith, tt)))), refl, omega arith)

abbrev packets : List (List ℕ × SocketAddr)
packets = (1 ∷ 2 ∷ 3 ∷ [], dns) ∷ (7 ∷ [], sock4 1 2) ∷ []

packets-Sendable : All Sendable packets
packets-Sendable =
    ((omega arith, (omega arith, omega arith)), ((omega arith, (omega arith, omega arith)), tt))

abbrev digest : List ℕ → List ℕ
digest p = replicate 56 48

trojan_recv_all_example :
    (send_all [] packets >>= λ w. recv_all 1500 (length packets) (w ++ (5 ∷ [])))
    ≡ ok (map (delivered 1500) packets, 5 ∷ [])
trojan_recv_all_example = recv_all-send_all 1500 packets (5 ∷ []) packets-Sendable
