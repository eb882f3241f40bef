-- ===== src/Conf/Reach.antt =====
-- leaf/src/config/conf/config.rs and leaf/src/app/handler_manager.rs: the outbounds that get a
-- handler of their own.
use i_leaf.Prelude.{ℕ, ◌≡◌, refl, ap, ◌∙◌, List, Option, none, some, ok}
use i_leaf.Session.{SocketAddr}
use i_leaf.HandlerManager
use i_leaf.HandlerManager.{
  Outbound, Handler, Protocol, socks, shadowsocks, trojan, vmess, vless, tls, ws, direct, drop,
  chain, Settings, GroupSettings, HandlerManager, bind_of, new, get, kind_of, handler_of,
  endpoint_of, with_settings, endpoint_kind, group_kind,
}
use i_leaf.HandlerManager.Groups.{In, Leads, leads_endpoint}
use i_leaf.Conf.Texts.{Chars}
use i_leaf.Conf.Records.{Proxy}
use i_leaf.Conf.Settings.{
  Message, socks_outbound, shadowsocks_outbound, trojan_outbound, vmess_outbound, vless_outbound,
  tls_outbound, web_socket_outbound, chain_outbound,
}
use i_leaf.Conf.Outbounds.{outbound}

-- The settings of a protocol.
pub data Suits : Protocol → Message → Type 0 where
  suits_socks : (address : Chars) (port : ℕ) → Suits socks (socks_outbound address port)
  suits_shadowsocks :
      (address : Chars) (port : ℕ) (method password : Chars)
      → Suits shadowsocks (shadowsocks_outbound address port method password)
  suits_trojan :
      (address : Chars) (port : ℕ) (password : Chars)
      → Suits trojan (trojan_outbound address port password)
  suits_vmess :
      (address : Chars) (port : ℕ) (uuid security : Chars)
      → Suits vmess (vmess_outbound address port uuid security)
  suits_tls : (sni : Chars) → Suits tls (tls_outbound sni)
  suits_ws : (path : Chars) → Suits ws (web_socket_outbound path)
  suits_vless :
      (address : Chars) (port : ℕ) (uuid : Chars) → Suits vless (vless_outbound address port uuid)

-- What the generated code relies on: settings that were written are read back.
pub record Reads (write : Message → List ℕ) (y : HandlerManager.External) : Type 0 where
  pub settings :
      (p : Protocol) (m : Message)
      → Suits p m
      → (s : Settings) × (y.parse_settings p (write m) ≡ some s)
  pub actors :
      (names : List Chars)
      → (s : GroupSettings) × (y.parse_group chain (write (chain_outbound names)) ≡ some s)
        × (s.actors ≡ names)

with_settings-eq-some :
    (o : Outbound) (p : Protocol) (bind : SocketAddr) (parsed : Option Settings) (s : Settings)
    → parsed ≡ some s
    → (h : Handler) × (with_settings o p bind parsed ≡ some h)
with_settings-eq-some o p bind none s e = absurd (cc)
with_settings-eq-some o p bind (some s') s e = (_, refl)

module _ (write : Message → List ℕ) (y : HandlerManager.External) (reads : Reads write y) where
  endpoint_of-Suits :
      (o : Outbound) (bind : SocketAddr) {k : Protocol} {m : Message}
      → Suits k m
      → o.settings ≡ write m
      → (h : Handler) × (endpoint_of y o bind k ≡ some h)
  unfolding endpoint_of
  endpoint_of-Suits o bind (suits_socks address port) e =
      let (s, r) = reads.settings socks _ (suits_socks address port) in
      with_settings-eq-some o socks bind _ s (ap (y.parse_settings socks) e ∙ r)
  endpoint_of-Suits o bind (suits_shadowsocks address port method password) e =
      let (s, r) = reads.settings shadowsocks _ (suits_shadowsocks address port method password) in
      with_settings-eq-some o shadowsocks bind _ s (ap (y.parse_settings shadowsocks) e ∙ r)
  endpoint_of-Suits o bind (suits_trojan address port password) e =
      let (s, r) = reads.settings trojan _ (suits_trojan address port password) in
      with_settings-eq-some o trojan bind _ s (ap (y.parse_settings trojan) e ∙ r)
  endpoint_of-Suits o bind (suits_tls sni) e =
      let (s, r) = reads.settings tls _ (suits_tls sni) in
      with_settings-eq-some o tls bind _ s (ap (y.parse_settings tls) e ∙ r)
  endpoint_of-Suits o bind (suits_ws path) e =
      let (s, r) = reads.settings ws _ (suits_ws path) in
      with_settings-eq-some o ws bind _ s (ap (y.parse_settings ws) e ∙ r)
  endpoint_of-Suits o bind (suits_vmess address port uuid security) e =
      let (s, r) = reads.settings vmess _ (suits_vmess address port uuid security) in
      with_settings-eq-some o vmess bind _ s (ap (y.parse_settings vmess) e ∙ r)
  endpoint_of-Suits o bind (suits_vless address port uuid) e =
      let (s, r) = reads.settings vless _ (suits_vless address port uuid) in
      with_settings-eq-some o vless bind _ s (ap (y.parse_settings vless) e ∙ r)

  module _ (all : List Outbound) (p : Proxy) (bind : SocketAddr)
      (bound : bind_of y p.interface ≡ ok bind) where
    -- An outbound with settings leads to itself.
    pub endpoint-Leads :
        (tag protocol : Chars) (k : Protocol) (m : Message)
        → kind_of protocol ≡ endpoint_kind k
        → Suits k m
        → In (outbound write tag protocol p m) all
        → Leads y all 0 tag
    unfolding handler_of
    endpoint-Leads tag protocol k m kind suits i =
        let o : Outbound = outbound write tag protocol p m in
        let (h, e) = endpoint_of-Suits o bind suits refl in
        leads_endpoint o bind h i bound (rw kind e)
