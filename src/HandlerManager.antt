-- ===== src/HandlerManager.antt =====
-- leaf/src/app/handler_manager.rs: the outbound handlers by their tags, with all outbound features. The
-- packages that parse addresses and the generated code that parses settings are parameters. A
-- handler is what it was built from: its tag and type, its settings, and for a group the handlers
-- of its actors.
pub mod Groups
pub mod Every
pub mod Shape
pub mod Whole
mod Tests
use i_leaf.Prelude.{
  ℕ, zero, suc, ◌%◌, ◌^◌, List, [], ◌∷◌, ◌++◌, Option, none, some, Bool, Outcome, ok, panic, ◌>>=◌,
}
use i_leaf.Prelude.Assoc.{lookup, insert}
use i_leaf.Prelude.Text.{codes, text_beq}
use i_leaf.Session.{IpAddr, SocketAddr, socket_of}

pub data Protocol : Type 0 where
  direct drop redirect socks shadowsocks trojan vmess vless tls ws h2 : Protocol

pub data GroupProtocol : Type 0 where
  tryall random failover chain : GroupProtocol

-- The arms of `match outbound.protocol.as_str()`.
pub data Kind : Type 0 where
  endpoint_kind : Protocol → Kind
  group_kind : GroupProtocol → Kind
  unknown : Kind

abbrev protocols : List (List ℕ × Kind)
protocols =
    (codes "direct", endpoint_kind direct)
    ∷ (codes "drop", endpoint_kind drop)
    ∷ (codes "redirect", endpoint_kind redirect)
    ∷ (codes "socks", endpoint_kind socks)
    ∷ (codes "shadowsocks", endpoint_kind shadowsocks)
    ∷ (codes "trojan", endpoint_kind trojan)
    ∷ (codes "vmess", endpoint_kind vmess)
    ∷ (codes "vless", endpoint_kind vless)
    ∷ (codes "tls", endpoint_kind tls)
    ∷ (codes "ws", endpoint_kind ws)
    ∷ (codes "h2", endpoint_kind h2)
    ∷ (codes "tryall", group_kind tryall)
    ∷ (codes "random", group_kind random)
    ∷ (codes "failover", group_kind failover)
    ∷ (codes "chain", group_kind chain)
    ∷ []

unfoldable pub kind_of : List ℕ → Kind
unfolding lookup
kind_of protocol = elim (lookup protocol protocols) [ none ↦ unknown | some k ↦ k ]

-- The settings of an endpoint: an address and a port, if its protocol has them, and other texts.
pub record Settings : Type 0 where
  pub address : List ℕ
  pub port : ℕ
  pub texts : List (List ℕ)

pub record GroupSettings : Type 0 where
  pub actors : List (List ℕ)
  pub delay_base : ℕ
  pub fail_timeout : ℕ
  pub health_check : Bool
  pub check_interval : ℕ
  pub use_failover : Bool

-- `Outbound` of the configuration: the settings are bytes.
pub record Outbound : Type 0 where
  pub tag : List ℕ
  pub protocol : List ℕ
  pub bind : List ℕ
  pub settings : List ℕ

pub record Dns : Type 0 where
  pub servers : List (List ℕ)
  pub bind : List ℕ

pub data HandlerType : Type 0 where
  direct_type endpoint_type ensemble_type : HandlerType

mutual
  pub data Handler : Type 0 where
    endpoint : List ℕ → HandlerType → Protocol → Option Settings → SocketAddr → Handler
    group : List ℕ → GroupProtocol → Handlers → GroupSettings → Handler

  pub data Handlers : Type 0 where
    no_handlers : Handlers
    handler_and : Handler → Handlers → Handlers

abbrev pub Map : Type 0
Map = List (List ℕ × Handler)

-- The handlers share one DNS client.
pub record DnsClient : Type 0 where
  pub dns_servers : List SocketAddr
  pub bind_addr : SocketAddr

pub record HandlerManager : Type 0 where
  pub handlers : Map
  pub default_handler : Option (List ℕ)

unfoldable pub handler_type : Handler → HandlerType
handler_type (endpoint tag type protocol settings bind) = type
handler_type (group tag protocol actors settings) = ensemble_type

unfoldable pub tag_of : Handler → List ℕ
tag_of (endpoint tag type protocol settings bind) = tag
tag_of (group tag protocol actors settings) = tag

-- The parsers: `SocketAddrV4::from_str`, that of `IpAddr`, and `parse_from_bytes` of each protocol's
-- settings.
pub record External : Type 0 where
  pub parse_v4 : List ℕ → Option SocketAddr
  pub parse_ip : List ℕ → Option IpAddr
  pub parse_settings : Protocol → List ℕ → Option Settings
  pub parse_group : GroupProtocol → List ℕ → Option GroupSettings

abbrev Built : Type 0 → Type 0
Built A = Outcome (Unit {0}) A

abbrev or_panic : {A : Type 0} → Option A → Built A
or_panic none = panic
or_panic (some a) = ok a

-- `settings.port as u16`.
abbrev narrowed : Settings → Settings
narrowed s = record s { port = s.port % 2 ^ 16 }

abbrev or_no_servers : List SocketAddr → Built (List SocketAddr)
or_no_servers [] = panic
or_no_servers (s ∷ servers) = ok (s ∷ servers)

-- The handler of an endpoint with settings; `continue` where they do not parse.
abbrev pub with_settings : Outbound → Protocol → SocketAddr → Option Settings → Option Handler
with_settings o p bind none = none
with_settings o p bind (some s) = some (endpoint o.tag endpoint_type p (some (narrowed s)) bind)

abbrev pub put : List ℕ → Option Handler → Map → Map
put tag none m = m
put tag (some h) m = insert tag h m

-- The first outbound's tag is the default, whether it has a handler or not.
unfoldable pub or_default : Option (List ℕ) → List ℕ → Option (List ℕ)
or_default none tag = some tag
or_default (some t) tag = some t

abbrev and_handler : Option Handler → Handlers → Handlers
and_handler none hs = hs
and_handler (some h) hs = handler_and h hs

-- The handlers of a group's actors, as far as there are such.
unfoldable pub actors_of : List (List ℕ) → Map → Handlers
actors_of [] m = no_handlers
actors_of (a ∷ names) m = and_handler (lookup a m) (actors_of names m)

unfoldable pub with_actors : Outbound → GroupProtocol → GroupSettings → Handlers → Option Handler
with_actors o g s no_handlers = none
with_actors o g s (handler_and h hs) = some (group o.tag g (handler_and h hs) s)

unfoldable pub with_group : Outbound → GroupProtocol → Map → Option GroupSettings → Option Handler
unfolding with_actors actors_of
with_group o g m none = none
with_group o g m (some s) = with_actors o g s (actors_of s.actors m)

module _ (x : External) where
  unfoldable pub dns_servers_of : List (List ℕ) → List SocketAddr
  dns_servers_of [] = []
  dns_servers_of (s ∷ servers) = elim (x.parse_ip s) [
    | none ↦ dns_servers_of servers
    | some ip ↦ socket_of ip 53 ∷ dns_servers_of servers
  ]

  -- `format!("{}:0", bind)`, parsed.
  unfoldable pub bind_of : List ℕ → Built SocketAddr
  bind_of bind = or_panic (x.parse_v4 (bind ++ codes ":0"))

  unfoldable pub new_dns_client : Dns → Built DnsClient
  unfolding bind_of dns_servers_of
  new_dns_client dns = do
    servers ← or_no_servers (dns_servers_of dns.servers)
    bind ← bind_of dns.bind
    ok (record { dns_servers = servers; bind_addr = bind })

  unfoldable pub endpoint_of : Outbound → SocketAddr → Protocol → Option Handler
  endpoint_of o bind direct = some (endpoint o.tag direct_type direct none bind)
  endpoint_of o bind drop = some (endpoint o.tag endpoint_type drop none bind)
  endpoint_of o bind p = with_settings o p bind (x.parse_settings p o.settings)

  -- The match of the first loop.
  unfoldable pub handler_of : Outbound → SocketAddr → Kind → Option Handler
  unfolding endpoint_of
  handler_of o bind (endpoint_kind p) = endpoint_of o bind p
  handler_of o bind (group_kind g) = none
  handler_of o bind unknown = none

  -- The first loop.
  unfoldable pub endpoints : List Outbound → HandlerManager → Built HandlerManager
  unfolding handler_of bind_of or_default
  endpoints [] m = ok m
  endpoints (o ∷ os) m = do
    bind ← bind_of o.bind
    endpoints os (record {
      handlers = put o.tag (handler_of o bind (kind_of o.protocol)) m.handlers;
      default_handler = or_default m.default_handler o.tag;
    })

  -- The match of the second loop.
  unfoldable pub group_of : Outbound → Map → Kind → Option Handler
  unfolding with_group
  group_of o m (endpoint_kind p) = none
  group_of o m unknown = none
  group_of o m (group_kind g) = with_group o g m (x.parse_group g o.settings)

  unfoldable pub pass : List Outbound → Map → Map
  unfolding group_of
  pass [] m = m
  pass (o ∷ os) m = pass os (put o.tag (group_of o m (kind_of o.protocol)) m)

  -- `for _i in 0..n`.
  unfoldable pub passes : ℕ → List Outbound → Map → Map
  passes zero os m = m
  passes (suc n) os m = pass os (passes n os m)

  unfoldable pub new : List Outbound → Dns → Built HandlerManager
  unfolding new_dns_client endpoints passes
  new os dns = do
    client ← new_dns_client dns
    m ← endpoints os (record { handlers = []; default_handler = none })
    ok (record m { handlers = passes 4 os m.handlers })

unfoldable pub add : List ℕ → Handler → HandlerManager → HandlerManager
add tag h m = record m { handlers = insert tag h m.handlers }

unfoldable pub get : List ℕ → HandlerManager → Option Handler
get tag m = lookup tag m.handlers
