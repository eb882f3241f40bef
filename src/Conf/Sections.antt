-- ===== src/Conf/Sections.antt =====
-- leaf/src/config/conf/config.rs: `from_lines`, which reads the four sections line by line; `continue` passes a
-- line over.
use i_leaf.Prelude.{ℕ, List, [], ◌∷◌, Bool, if◌then◌else◌, Option, none, some}
use i_leaf.Prelude.Text.{codes, text_eq}
use i_leaf.Conf.Texts.{Chars, trim, split, split_once, parse_u16}
use i_leaf.Conf.Lines.{get_char_sep_slice, get_string, get_i32, get_u16}
use i_leaf.Conf.Records.{General, Proxy, default_proxy}

-- `split('=')`, where it gives two parts.
abbrev pub two_parts : List Chars → Option (Chars × Chars)
two_parts (k ∷ v ∷ []) = some (k, v)
two_parts parts = none

-- A key and a value that are not empty, trimmed.
abbrev if_named : Chars → Chars → Option (Chars × Chars)
if_named [] v = none
if_named (c ∷ k) [] = none
if_named (c ∷ k) (d ∷ v) = some (c ∷ k, d ∷ v)

abbrev trimmed_pair : Option (Chars × Chars) → Option (Chars × Chars)
trimmed_pair none = none
trimmed_pair (some (k, v)) = if_named (trim k) (trim v)

unfoldable pub key_value : Chars → Option (Chars × Chars)
unfolding split trim
key_value param = trimmed_pair (two_parts (split b'=' param))

abbrev tun_of : List Chars → General → General
tun_of (name ∷ address ∷ netmask ∷ gateway ∷ mtu ∷ []) g = record g {
  tun = some (record {
    name = some name;
    address = some address;
    netmask = some netmask;
    gateway = some gateway;
    mtu = get_i32 mtu;
  });
}
tun_of items g = g

abbrev pub with_tun : Option (List Chars) → General → General
with_tun none g = g
with_tun (some items) g = tun_of items g

-- The match on the key of a line of the section "General".
unfoldable pub set_general : Chars → Chars → General → General
unfolding get_char_sep_slice get_string get_i32 get_u16 trim text_eq
set_general k v g =
    if text_eq k (codes "tun-fd")
    then record g { tun_fd = get_i32 v }
    else if text_eq k (codes "tun")
    then with_tun (get_char_sep_slice v b',') g
    else if text_eq k (codes "loglevel")
    then record g { loglevel = some (trim v) }
    else if text_eq k (codes "dns-server")
    then record g { dns_server = get_char_sep_slice v b',' }
    else if text_eq k (codes "dns-interface")
    then record g { dns_interface = get_string v }
    else if text_eq k (codes "always-real-ip")
    then record g { always_real_ip = get_char_sep_slice v b',' }
    else if text_eq k (codes "interface")
    then record g { interface = get_string v }
    else if text_eq k (codes "port")
    then record g { port = get_u16 v }
    else if text_eq k (codes "socks-interface")
    then record g { socks_interface = get_string v }
    else if text_eq k (codes "socks-port")
    then record g { socks_port = get_u16 v }
    else g

abbrev pub set_parts : Option (Chars × Chars) → General → General
set_parts none g = g
set_parts (some (k, v)) g = set_general (trim k) v g

unfoldable pub general_from : List Chars → General → General
unfolding set_general split
general_from [] g = g
general_from (line ∷ lines) g = general_from lines (set_parts (two_parts (split b'=' line)) g)

abbrev pub is_true : Chars → Option Bool
is_true v = some (text_eq v (codes "true"))

-- The match on the key of a parameter of a proxy.
unfoldable pub set_param : Chars × Chars → Proxy → Proxy
unfolding text_eq
set_param (k, v) p =
    if text_eq k (codes "encrypt-method")
    then record p { encrypt_method = some v }
    else if text_eq k (codes "password")
    then record p { password = some v }
    else if text_eq k (codes "username")
    then record p { username = some v }
    else if text_eq k (codes "ws")
    then record p { ws = is_true v }
    else if text_eq k (codes "tls")
    then record p { tls = is_true v }
    else if text_eq k (codes "ws-path")
    then record p { ws_path = some v }
    else if text_eq k (codes "sni")
    then record p { sni = some v }
    else if text_eq k (codes "interface")
    then record p { interface = v }
    else p

abbrev set_if : Option (Chars × Chars) → Proxy → Proxy
set_if none p = p
set_if (some kv) p = set_param kv p

unfoldable pub set_params : List Chars → Proxy → Proxy
unfolding set_param key_value
set_params [] p = p
set_params (param ∷ params) p = set_params params (set_if (key_value param) p)

-- Address and port, for a protocol that has them; `ss` is another name.
abbrev pub with_port : Chars → Proxy → Option ℕ → Option Proxy
with_port address p none = none
with_port address p (some port) = some (record p {
  address = some address;
  port = some port;
  protocol = if text_eq p.protocol (codes "ss") then codes "shadowsocks" else p.protocol;
})

abbrev pub with_address : List Chars → Proxy → Option Proxy
with_address (address ∷ port ∷ params) p = with_port address p (parse_u16 port)
with_address params p = none

unfoldable pub with_protocol : Proxy → List Chars → Option Proxy
unfolding parse_u16 text_eq
with_protocol p params =
    if text_eq p.protocol (codes "direct")
    then some p
    else if text_eq p.protocol (codes "drop")
    then some p
    else if text_eq p.protocol (codes "reject")
    then some (record p { protocol = codes "drop" })
    else with_address params p

abbrev pub proxy_from : Chars → Option (List Chars) → Option Proxy
proxy_from tag none = none
proxy_from tag (some []) = none
proxy_from tag (some (protocol ∷ params)) =
    with_protocol
      (set_params (protocol ∷ params) (record default_proxy { tag = tag; protocol = protocol }))
      params

abbrev pub proxy_tagged : Chars → Chars → Option Proxy
proxy_tagged [] params = none
proxy_tagged (c ∷ tag) params = proxy_from (c ∷ tag) (get_char_sep_slice params b',')

abbrev pub proxy_parts : Option (Chars × Chars) → Option Proxy
proxy_parts none = none
proxy_parts (some (tag, params)) = proxy_tagged (trim tag) params

-- A line of the section "Proxy".
unfoldable pub proxy_of : Chars → Option Proxy
unfolding set_params with_protocol get_char_sep_slice trim split_once default_proxy
proxy_of line = proxy_parts (split_once b'=' line)
