-- ===== src/Conf/Records.antt =====
-- leaf/src/config/conf/config.rs: the records of the text form, with their defaults.
use i_leaf.Prelude.{ℕ, List, [], Bool, true, false, Option, none, some}
use i_leaf.Prelude.Text.{codes}
use i_leaf.Conf.Texts.{Chars, ℤ, pos}

pub record Tun : Type 0 where
  pub name : Option Chars
  pub address : Option Chars
  pub netmask : Option Chars
  pub gateway : Option Chars
  pub mtu : Option ℤ

pub record General : Type 0 where
  pub tun : Option Tun
  pub tun_fd : Option ℤ
  pub loglevel : Option Chars
  pub dns_server : Option (List Chars)
  pub dns_interface : Option Chars
  pub always_real_ip : Option (List Chars)
  pub interface : Option Chars
  pub port : Option ℕ
  pub socks_interface : Option Chars
  pub socks_port : Option ℕ

pub record Proxy : Type 0 where
  pub tag : Chars
  pub protocol : Chars
  pub interface : Chars
  pub address : Option Chars
  pub port : Option ℕ
  pub encrypt_method : Option Chars
  pub password : Option Chars
  pub username : Option Chars
  pub ws : Option Bool
  pub tls : Option Bool
  pub ws_path : Option Chars
  pub sni : Option Chars

pub record ProxyGroup : Type 0 where
  pub tag : Chars
  pub protocol : Chars
  pub actors : Option (List Chars)
  pub health_check : Option Bool
  pub check_interval : Option ℤ
  pub fail_timeout : Option ℤ
  pub failover : Option Bool
  pub delay_base : Option ℤ

pub record Rule : Type 0 where
  pub type_field : Chars
  pub filter : Option Chars
  pub target : Chars

pub record Config : Type 0 where
  pub general : Option General
  pub proxy : Option (List Proxy)
  pub proxy_group : Option (List ProxyGroup)
  pub rule : Option (List Rule)

unfoldable pub default_general : General
default_general = record {
  tun = none;
  tun_fd = none;
  loglevel = none;
  dns_server = none;
  dns_interface = none;
  always_real_ip = none;
  interface = none;
  port = none;
  socks_interface = none;
  socks_port = none;
}

unfoldable pub default_proxy : Proxy
default_proxy = record {
  tag = [];
  protocol = [];
  interface = codes "0.0.0.0";
  address = none;
  port = none;
  encrypt_method = some (codes "chacha20-ietf-poly1305");
  password = none;
  username = none;
  ws = some false;
  tls = some false;
  ws_path = none;
  sni = none;
}

unfoldable pub default_group : ProxyGroup
default_group = record {
  tag = [];
  protocol = [];
  actors = none;
  health_check = some true;
  check_interval = some (pos 300);
  fail_timeout = some (pos 4);
  failover = some true;
  delay_base = some (pos 0);
}
