-- ===== src/Conf/ToInternal.antt =====
-- leaf/src/config/conf/config.rs: the log level, the inbounds, the DNS settings, and the whole of `to_internal`.
use i_leaf.Prelude.{ℕ, List, [], ◌∷◌, ◌++◌, if◌then◌else◌, Option, none, some, ok, ◌>>=◌}
use i_leaf.Prelude.Text.{codes, text_eq}
use i_leaf.HandlerManager.{Dns}
use i_leaf.Conf.Texts.{Chars, ℤ, pos, negsuc}
use i_leaf.Conf.Records.{Tun, General, Config}
use i_leaf.Conf.Settings.{
  TunSettings, Message, socks_inbound, tun_inbound, LogLevel, trace, debug, info, warn, error,
  Inbound, InternalConfig, or_empty, or_else,
}
use i_leaf.Conf.Outbounds.{Converted, proxies_outbounds, groups_outbounds}
use i_leaf.Conf.Rules
use i_leaf.Conf.Rules.{convert_rules}

unfoldable pub level_of : Chars → LogLevel
unfolding text_eq
level_of s =
    if text_eq s (codes "trace")
    then trace
    else if text_eq s (codes "debug")
    then debug
    else if text_eq s (codes "info")
    then info
    else if text_eq s (codes "warn")
    then warn
    else if text_eq s (codes "error")
    then error
    else warn

abbrev text_level : Option Chars → LogLevel
text_level none = info
text_level (some s) = level_of s

unfoldable pub log_level : Option General → LogLevel
unfolding level_of
log_level none = info
log_level (some g) = text_level g.loglevel

abbrev or_public : List Chars → List Chars
or_public [] = codes "114.114.114.114" ∷ codes "8.8.8.8" ∷ []
or_public (s ∷ servers) = s ∷ servers

abbrev servers_of : Option (List Chars) → List Chars
servers_of none = []
servers_of (some servers) = or_public servers

unfoldable pub dns_of : Option General → Dns
dns_of none = record { servers = []; bind = [] }
dns_of (some g) = record {
  servers = servers_of g.dns_server;
  bind = or_else (codes "0.0.0.0") g.dns_interface;
}

module _ (write_to_bytes : Message → List ℕ) where
  abbrev pub http_inbound : Option Chars → Option ℕ → List Inbound
  http_inbound (some listen) (some port) =
      record { protocol = codes "http"; listen = listen; port = port; settings = [] } ∷ []
  http_inbound listen port = []

  abbrev pub socks_inbounds : Option Chars → Option ℕ → List Inbound
  socks_inbounds (some listen) (some port) =
      record {
        protocol = codes "socks";
        listen = listen;
        port = port;
        settings = write_to_bytes (socks_inbound listen);
      }
      ∷ []
  socks_inbounds listen port = []

  abbrev tun_with : TunSettings → Inbound
  tun_with s = record {
    protocol = codes "tun";
    listen = [];
    port = 0;
    settings = write_to_bytes (tun_inbound s);
  }

  abbrev empty_tun : ℤ → General → TunSettings
  empty_tun fd g = record {
    fd = fd;
    name = [];
    address = [];
    gateway = [];
    netmask = [];
    mtu = pos 0;
    fake_dns_exclude = or_else [] g.always_real_ip;
  }

  -- A descriptor goes in front of a device; without it, the descriptor is -1.
  abbrev pub tun_inbounds : General → Option ℤ → Option Tun → List Inbound
  tun_inbounds g (some fd) tun = tun_with (empty_tun fd g) ∷ []
  tun_inbounds g none (some tun) =
      tun_with (record (empty_tun (negsuc 0) g) {
        name = or_empty tun.name;
        address = or_empty tun.address;
        gateway = or_empty tun.gateway;
        netmask = or_empty tun.netmask;
        mtu = or_else (pos 1500) tun.mtu;
      })
      ∷ []
  tun_inbounds g none none = []

  unfoldable pub inbounds_of : Option General → List Inbound
  inbounds_of none = []
  inbounds_of (some g) =
      http_inbound g.interface g.port
      ++ (socks_inbounds g.socks_interface g.socks_port ++ tun_inbounds g g.tun_fd g.tun)

  unfoldable pub to_internal : Rules.External → Config → Converted InternalConfig
  unfolding proxies_outbounds groups_outbounds convert_rules log_level inbounds_of dns_of
  to_internal x conf = do
    proxies ← proxies_outbounds write_to_bytes (or_else [] conf.proxy)
    converted ← convert_rules x (or_else [] conf.rule) (record {
      outbounds = proxies ++ groups_outbounds write_to_bytes (or_else [] conf.proxy_group);
      site_group_lists = [];
    })
    ok (record {
      log_level = log_level conf.general;
      inbounds = inbounds_of conf.general;
      outbounds = converted.1.outbounds;
      routing_rules = converted.0;
      dns = dns_of conf.general;
    })
