-- ===== src/Conf/Settings.antt =====
-- leaf/src/config/conf/config.rs: the internal configuration that `to_internal` builds, with the settings before
-- they are written to bytes. The writer is a parameter, for it is generated code.
use i_leaf.Prelude.{ℕ, List, [], Bool, Option, none, some}
use i_leaf.Router.{RoutingRule}
use i_leaf.HandlerManager.{Outbound, Dns}
use i_leaf.Conf.Texts.{Chars, ℤ}

pub record TunSettings : Type 0 where
  pub fd : ℤ
  pub name : Chars
  pub address : Chars
  pub gateway : Chars
  pub netmask : Chars
  pub mtu : ℤ
  pub fake_dns_exclude : List Chars

pub record FailoverSettings : Type 0 where
  pub actors : List Chars
  pub fail_timeout : ℕ
  pub health_check : Bool
  pub check_interval : ℕ
  pub failover : Bool

-- The messages of settings.
pub data Message : Type 0 where
  socks_inbound : (bind : Chars) → Message
  tun_inbound : TunSettings → Message
  socks_outbound : (address : Chars) (port : ℕ) → Message
  shadowsocks_outbound : (address : Chars) (port : ℕ) (method password : Chars) → Message
  trojan_outbound : (address : Chars) (port : ℕ) (password : Chars) → Message
  vmess_outbound : (address : Chars) (port : ℕ) (uuid security : Chars) → Message
  vless_outbound : (address : Chars) (port : ℕ) (uuid : Chars) → Message
  tls_outbound : (server_name : Chars) → Message
  web_socket_outbound : (path : Chars) → Message
  chain_outbound : (actors : List Chars) → Message
  try_all_outbound : (actors : List Chars) (delay_base : ℕ) → Message
  random_outbound : (actors : List Chars) → Message
  failover_outbound : FailoverSettings → Message

pub data LogLevel : Type 0 where
  trace debug info warn error : LogLevel

pub record Inbound : Type 0 where
  pub protocol : Chars
  pub listen : Chars
  pub port : ℕ
  pub settings : List ℕ

pub record InternalConfig : Type 0 where
  pub log_level : LogLevel
  pub inbounds : List Inbound
  pub outbounds : List Outbound
  pub routing_rules : List RoutingRule
  pub dns : Dns

-- `if let Some(x) = … { s = x }` for a text that is empty before.
abbrev pub or_empty : Option Chars → Chars
or_empty none = []
or_empty (some s) = s

abbrev pub or_zero : Option ℕ → ℕ
or_zero none = 0
or_zero (some n) = n

abbrev pub or_else {ℓ} : {A : Type ℓ} → A → Option A → A
or_else d none = d
or_else d (some x) = x
