-- ===== src/Chain/Tests.antt =====
-- leaf/src/proxy/chain/tcp.rs: the statements at concrete inputs. A stream is the list of the
-- destinations that were asked for over it.
use i_leaf.Prelude.{ℕ, ◌≡◌, inl, inr, refl, List, [], ◌∷◌, ◌++◌, Option, none, some, Outcome, ok}
use i_leaf.Prelude.Stream.{IoError}
use i_leaf.Prelude.Text.{codes}
use i_leaf.Session.{IpAddr, SocksAddr, domain_addr}
use i_leaf.Chain.{Actor, hop, next_hop, last_hop, handle}
use i_leaf.Chain.Hops.{last_hop-next_hop, handle-given, backwards}

abbrev no_ip : List ℕ → Option IpAddr
no_ip text = none

abbrev connected : List ℕ → ℕ → Outcome IoError (List SocksAddr)
connected addr port = ok []

abbrev asked : SocksAddr → Option (List SocksAddr) → Outcome IoError (List SocksAddr)
asked destination none = ok (destination ∷ [])
asked destination (some stream) = ok (stream ++ (destination ∷ []))

abbrev server : List ℕ → Actor (List SocksAddr)
server name = record { connect_addr = some (name, 443); handle = asked }

abbrev transport : Actor (List SocksAddr)
transport = record { connect_addr = none; handle = asked }

abbrev target : SocksAddr
target = domain_addr (codes "t") 80

last_hop-next_hop_example :
    last_hop no_ip connected target (server (codes "b") ∷ server (codes "c") ∷ [])
    ≡ next_hop no_ip connected target (backwards (server (codes "b") ∷ server (codes "c") ∷ []))
last_hop-next_hop_example =
    last_hop-next_hop no_ip connected target (server (codes "b") ∷ server (codes "c") ∷ [])

transport-hop : hop no_ip connected transport ≡ none
unfolding hop
transport-hop = refl

handle-given_example :
    handle no_ip connected
      (server (codes "a") ∷ transport ∷ server (codes "b") ∷ [])
      target
      (some [])
    ≡ handle no_ip connected (server (codes "a") ∷ transport ∷ server (codes "b") ∷ []) target none
handle-given_example =
    handle-given no_ip connected target (server (codes "a")) (transport ∷ server (codes "b") ∷ [])
      [] (codes "a", 443) refl refl (inl (transport-hop, inr tt))
