-- ===== src/Chain.antt =====
-- leaf/src/proxy/chain/tcp.rs: outbounds that run over one another. An actor is what its handler
-- does with a destination and a stream, and the server that it connects to. `dial_tcp_stream`
-- and the parser of IP addresses are parameters.
pub mod Hops
mod Tests
use i_leaf.Prelude.{
  ℕ, ltb, List, [], ◌∷◌, length, Bool, true, false, ◌||◌, ◌==◌, if◌then◌else◌, Option, none, some,
  Outcome, ok, err, ◌>>=◌,
}
use i_leaf.Prelude.Stream.{IoError, invalid_chain}
use i_leaf.Session.{IpAddr, SocksAddr, of_ip, domain_addr}

pub record Actor (S : Type 0) : Type 0 where
  pub connect_addr : Option (List ℕ × ℕ)
  pub handle : SocksAddr → Option S → Outcome IoError S

unfoldable pub has_colon : List ℕ → Bool
has_colon [] = false
has_colon (c ∷ cs) = c == 58 || has_colon cs

-- An address replaces the destination if there is one.
abbrev pub replaced : Option SocksAddr → SocksAddr → SocksAddr
replaced (some addr) destination = addr
replaced none destination = destination

module _ {S : Type 0} (parse_ip : List ℕ → Option IpAddr)
    (dial : List ℕ → ℕ → Outcome IoError S) where
  -- `SocksAddr::try_from(format!("{}:{}", connect_addr, port)).ok()`: a text with a colon in the
  -- address has more than two parts.
  unfoldable pub to_addr : List ℕ → ℕ → Option SocksAddr
  to_addr addr port = if has_colon addr then none else elim (parse_ip addr) [
    | some ip ↦ some (of_ip ip port)
    | none ↦ if ltb 255 (length addr) then none else some (domain_addr addr port)
  ]

  -- The address of an actor, if it connects somewhere and the address parses.
  unfoldable pub hop : Actor S → Option SocksAddr
  hop a = elim a.connect_addr [ none ↦ none | some server ↦ to_addr server.0 server.1 ]

  -- The loop over the later actors with `break`: the first address counts.
  unfoldable pub next_hop : SocksAddr → List (Actor S) → SocksAddr
  next_hop destination [] = destination
  next_hop destination (a ∷ later) = let rest = next_hop destination later in replaced (hop a) rest

  -- The loop without `break`, where a stream is given: every later address replaces the last.
  unfoldable pub last_hop : SocksAddr → List (Actor S) → SocksAddr
  last_hop destination [] = destination
  last_hop destination (a ∷ later) = last_hop (replaced (hop a) destination) later

  -- The loop over the actors, with either inner loop.
  unfoldable pub run :
      (SocksAddr → List (Actor S) → SocksAddr) → SocksAddr → List (Actor S) → S → Outcome IoError S
  run inner destination [] stream = ok stream
  run inner destination (a ∷ later) stream = do
    next ← a.handle (inner destination later) (some stream)
    run inner destination later next

  -- The server that a new stream is dialled to: the first actor that connects somewhere.
  unfoldable pub tcp_connect_addr : List (Actor S) → Option (List ℕ × ℕ)
  tcp_connect_addr [] = none
  tcp_connect_addr (a ∷ later) =
      let rest = tcp_connect_addr later in
      elim a.connect_addr [ some server ↦ some server | none ↦ rest ]

  unfoldable pub handle : List (Actor S) → SocksAddr → Option S → Outcome IoError S
  unfolding run tcp_connect_addr next_hop last_hop
  handle actors destination (some stream) = run last_hop destination actors stream
  handle actors destination none = elim (tcp_connect_addr actors) [
    | none ↦ err invalid_chain
    | some server ↦ do stream ← dial server.0 server.1; run next_hop destination actors stream
  ]
