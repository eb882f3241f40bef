-- ===== src/Conf/Outbounds.antt =====
-- leaf/src/config/conf/config.rs: `to_internal`, the outbounds of the proxies and of the groups.
use i_leaf.Prelude.{
  ℕ, List, [], ◌∷◌, ◌++◌, Bool, true, false, ◌||◌, if◌then◌else◌, Option, none, some, Outcome, ok,
  err, panic, ◌>>=◌,
}
use i_leaf.Prelude.Text.{codes, text_eq}
use i_leaf.HandlerManager.{Outbound}
use i_leaf.Conf.Texts.{Chars, ℤ, as_u32}
use i_leaf.Conf.Records.{Proxy, ProxyGroup}
use i_leaf.Conf.Settings.{
  Message, socks_outbound, shadowsocks_outbound, trojan_outbound, vmess_outbound, vless_outbound,
  tls_outbound, web_socket_outbound, chain_outbound, try_all_outbound, random_outbound,
  failover_outbound, or_empty, or_zero, or_else,
}

pub data ConfError : Type 0 where
  invalid_vmess invalid_vless : ConfError

abbrev pub Converted : Type 0 → Type 0
Converted A = Outcome ConfError A

-- `ext_proxy.tls.unwrap()`.
abbrev pub unwrap : Option Bool → Converted Bool
unwrap none = panic
unwrap (some b) = ok b

abbrev pub only_if {ℓ} : {A : Type ℓ} → Bool → List A → List A
only_if true xs = xs
only_if false xs = []

abbrev pub tags_of : List Outbound → List Chars
tags_of [] = []
tags_of (o ∷ os) = o.tag ∷ tags_of os

-- Address, port and user, all of them or an error.
abbrev pub all_or :
    {A : Type 0}
    → ConfError
    → Option Chars
    → Option ℕ
    → Option Chars
    → (Chars → ℕ → Chars → Converted A)
    → Converted A
all_or e (some address) (some port) (some username) k = k address port username
all_or e address port username k = err e

abbrev pub protocol_of : Proxy → Chars
protocol_of p = if text_eq p.protocol (codes "ss") then codes "shadowsocks" else p.protocol

module _ (write_to_bytes : Message → List ℕ) where
  abbrev pub outbound : Chars → Chars → Proxy → Message → Outbound
  outbound tag protocol p settings = record {
    tag = tag;
    protocol = protocol;
    bind = p.interface;
    settings = write_to_bytes settings;
  }

  unfoldable pub tls_of : Proxy → Outbound
  tls_of p = outbound (p.tag ++ codes "_tls_xxx") (codes "tls") p (tls_outbound (or_empty p.sni))

  unfoldable pub ws_of : Proxy → Outbound
  ws_of p =
      outbound (p.tag ++ codes "_ws_xxx") (codes "ws") p
        (web_socket_outbound (or_else (codes "/") p.ws_path))

  -- The chain that bears the proxy's own tag.
  unfoldable pub chain_of : Proxy → List Chars → Outbound
  chain_of p actors = outbound p.tag (codes "chain") p (chain_outbound actors)

  unfoldable pub trojan_of : Proxy → List Outbound
  unfolding tls_of chain_of
  trojan_of p =
      let tls = tls_of p in
      let trojan =
        outbound (p.tag ++ codes "_trojan_xxx") (codes "trojan") p
          (trojan_outbound (or_empty p.address) (or_zero p.port) (or_empty p.password)) in
      chain_of p (tls.tag ∷ trojan.tag ∷ []) ∷ tls ∷ trojan ∷ []

  -- The inner protocol behind TLS and WebSocket, as far as they are on.
  unfoldable pub layered : Proxy → Outbound → Converted (List Outbound)
  unfolding tls_of ws_of chain_of
  layered p inner = do
    tls ← unwrap p.tls
    ws ← unwrap p.ws
    let layers = only_if tls (tls_of p ∷ []) ++ (only_if ws (ws_of p ∷ []) ++ (inner ∷ []))
    ok (chain_of p (tags_of layers) ∷ layers)

  unfoldable pub vmess_of : Proxy → Converted (List Outbound)
  unfolding layered
  vmess_of p = all_or invalid_vmess p.address p.port p.username (λ address port username.
      layered p (
        outbound (p.tag ++ codes "_vmess_xxx") (codes "vmess") p (
          vmess_outbound address port username
            (or_else (codes "chacha20-ietf-poly1305") p.encrypt_method))))

  unfoldable pub vless_of : Proxy → Converted (List Outbound)
  unfolding layered
  vless_of p = all_or invalid_vless p.address p.port p.username (λ address port username.
      layered p (
        outbound (p.tag ++ codes "_vless_xxx") (codes "vless") p
          (vless_outbound address port username)))

  -- The arms of the protocols behind a chain, and of those that are not known.
  abbrev pub by_layers : Chars → Proxy → Converted (List Outbound)
  by_layers protocol p =
      if text_eq protocol (codes "trojan")
      then ok (trojan_of p)
      else if text_eq protocol (codes "vmess")
      then vmess_of p
      else if text_eq protocol (codes "vless")
      then vless_of p
      else ok []

  abbrev pub by_protocol : Chars → Proxy → Converted (List Outbound)
  by_protocol protocol p =
      if text_eq protocol (codes "direct") || text_eq protocol (codes "drop")
      then ok (record { tag = p.tag; protocol = protocol; bind = p.interface; settings = [] } ∷ [])
      else if text_eq protocol (codes "socks")
      then ok
          (outbound p.tag protocol p (socks_outbound (or_empty p.address) (or_zero p.port)) ∷ [])
      else if text_eq protocol (codes "shadowsocks")
      then ok (
          outbound p.tag protocol p (
            shadowsocks_outbound (or_empty p.address) (or_zero p.port)
              (or_else (codes "chacha20-ietf-poly1305") p.encrypt_method) (or_empty p.password))
          ∷ [])
      else by_layers protocol p

  -- The outbounds of one proxy; none for a protocol that is not known.
  unfoldable pub proxy_outbounds : Proxy → Converted (List Outbound)
  unfolding trojan_of vmess_of vless_of text_eq
  proxy_outbounds p = by_protocol (protocol_of p) p

  unfoldable pub proxies_outbounds : List Proxy → Converted (List Outbound)
  unfolding proxy_outbounds
  proxies_outbounds [] = ok []
  proxies_outbounds (p ∷ ps) = do
    os ← proxy_outbounds p
    rest ← proxies_outbounds ps
    ok (os ++ rest)

  abbrev group_outbound : ProxyGroup → Message → List Outbound
  group_outbound g settings =
      record {
        tag = g.tag;
        protocol = g.protocol;
        bind = codes "0.0.0.0";
        settings = write_to_bytes settings;
      }
      ∷ []

  abbrev number_or : ℕ → Option ℤ → ℕ
  number_or d none = d
  number_or d (some n) = as_u32 n

  -- The outbound of one group; none for a protocol that is not known.
  unfoldable pub group_outbounds : ProxyGroup → List Outbound
  unfolding text_eq as_u32
  group_outbounds g =
      let actors = or_else [] g.actors in
      if text_eq g.protocol (codes "tryall")
      then group_outbound g (try_all_outbound actors (number_or 0 g.delay_base))
      else if text_eq g.protocol (codes "random")
      then group_outbound g (random_outbound actors)
      else if text_eq g.protocol (codes "failover")
      then group_outbound g (
          failover_outbound (record {
            actors = actors;
            fail_timeout = number_or 4 g.fail_timeout;
            health_check = or_else true g.health_check;
            check_interval = number_or 300 g.check_interval;
            failover = or_else true g.failover;
          }))
      else []

  unfoldable pub groups_outbounds : List ProxyGroup → List Outbound
  unfolding group_outbounds
  groups_outbounds [] = []
  groups_outbounds (g ∷ gs) = group_outbounds g ++ groups_outbounds gs
