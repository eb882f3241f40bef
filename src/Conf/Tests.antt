-- ===== src/Conf/Tests.antt =====
-- leaf/src/config/conf/config.rs: a small configuration from its text to its handlers, and the statements at
-- concrete inputs. Settings are written as a number in front of each name.
use i_leaf.Prelude.{
  ℕ, zero, suc, ◌≤◌, ◌≡◌, refl, sym, ◌∙◌, ap₂, List, [], ◌∷◌, ◌++◌, length, take, drop,
  take-append_left, drop-append_left, length-append, true, false, Option, none, some, Outcome, ok,
  inl, inr, arith,
}
use i_leaf.Prelude.Assoc.{lookup, insert}
use i_leaf.Prelude.Text.{codes, text_eq, text_eq_iff}
use i_leaf.Session.{sock4, v4}
use i_leaf.HandlerManager
use i_leaf.HandlerManager.{
  Outbound, Handlers, GroupSettings, group, chain, HandlerManager, new, get, kind_of, bind_of, pass,
}
use i_leaf.Conf.Texts.{Chars, is_whitespace}
use i_leaf.Conf.Records.{Proxy, Rule, default_proxy}
use i_leaf.Conf.FromLines.{from_lines}
use i_leaf.Conf.Settings.{Message, trojan_outbound, chain_outbound, InternalConfig, info, or_else}
use i_leaf.Conf.Outbounds.{
  Converted, outbound, tls_of, chain_of, proxy_outbounds, proxies_outbounds, groups_outbounds,
}
use i_leaf.Conf.Rules
use i_leaf.Conf.Rules.{is_final}
use i_leaf.Conf.ToInternal.{to_internal}
use i_leaf.Conf.Reach.{Reads}
use i_leaf.Conf.Layers.{trojan_layers}
use i_leaf.Conf.Handlers.{get-Layers}
use i_leaf.Conf.Final.{In-append_left, In-append_right}
use i_leaf.Conf.Managed.{default_handler-final}
use i_leaf.HandlerManager.Shape.{tags, AreBuilt}
use i_leaf.HandlerManager.Groups.{In}

abbrev text : List (Option Chars)
text =
    some (codes "# a small one")
    ∷ some (codes "[General]")
    ∷ some (codes "dns-server = 1.1.1.1, 8.8.8.8 # two")
    ∷ some (codes "socks-port= 1080")
    ∷ some (codes "[Proxy]")
    ∷ none
    ∷ some (codes "P = trojan, a.io, 443, password=pw, sni=b.io")
    ∷ some (codes "D = direct")
    ∷ some (codes "[Rule]")
    ∷ some (codes "DOMAIN, c.io, P")
    ∷ some (codes "FINAL, D")
    ∷ []

abbrev proxy_p : Proxy
proxy_p = record default_proxy {
  tag = codes "P";
  protocol = codes "trojan";
  address = some (codes "a.io");
  port = some 443;
  password = some (codes "pw");
  sni = some (codes "b.io");
}

abbrev proxy_d : Proxy
proxy_d = record default_proxy { tag = codes "D"; protocol = codes "direct" }

abbrev rule_c : Rule
rule_c = record { type_field = codes "DOMAIN"; filter = some (codes "c.io"); target = codes "P" }

abbrev final_d : Rule
final_d = record { type_field = codes "FINAL"; filter = none; target = codes "D" }

reads_proxies : (from_lines text).proxy ≡ some (proxy_p ∷ proxy_d ∷ [])
unfolding from_lines is_whitespace
reads_proxies = refl

reads_rules : (from_lines text).rule ≡ some (rule_c ∷ final_d ∷ [])
unfolding from_lines is_whitespace
reads_rules = refl

abbrev encode : List Chars → List ℕ
encode [] = []
encode (n ∷ ns) = length n ∷ (n ++ encode ns)

abbrev decode : ℕ → List ℕ → List Chars
decode zero bytes = []
decode (suc fuel) [] = []
decode (suc fuel) (l ∷ bytes) = take l bytes ∷ decode fuel (drop l bytes)

decode-encode :
    (fuel : ℕ) (names : List Chars)
    → length (encode names) ≤ fuel
    → decode fuel (encode names) ≡ names
decode-encode zero [] h = refl
decode-encode zero (n ∷ ns) h = absurd (omega arith)
decode-encode (suc fuel) [] h = refl
decode-encode (suc fuel) (n ∷ ns) h =
    let rest = decode-encode fuel ns (omega (arith, length-append n (encode ns))) in
    rw (drop-append_left n (encode ns)) (ap₂ ◌∷◌ (take-append_left n (encode ns)) rest)

abbrev pub write : Message → List ℕ
write (chain_outbound actors) = encode actors
write m = []

abbrev pub outside : Rules.External
outside = record {
  is_absolute = λ path. false;
  beside_exe = λ file. none;
  load = λ file. none;
  to_uppercase = λ s. s;
}

abbrev pub parsers : HandlerManager.External
parsers = record {
  parse_v4 = λ bind. some (sock4 0 0);
  parse_ip = λ server. some (v4 0x01010101);
  parse_settings = λ p bytes. some (record { address = []; port = 443; texts = [] });
  parse_group = λ g bytes. some (record {
    actors = decode (length bytes) bytes;
    delay_base = 0;
    fail_timeout = 0;
    health_check = false;
    check_interval = 0;
    use_failover = false;
  });
}

abbrev reads : Reads write parsers
reads = record {
  settings = λ p m suits. (record { address = []; port = 443; texts = [] }, refl);
  actors = λ names. (_, refl, decode-encode (length (encode names)) names (omega arith));
}

abbrev pub converted_to : Converted InternalConfig → InternalConfig
converted_to (ok ic) = ic
converted_to e = record {
  log_level = info;
  inbounds = [];
  outbounds = [];
  routing_rules = [];
  dns = record { servers = []; bind = [] };
}

abbrev managed : Outcome (Unit {0}) HandlerManager → HandlerManager
managed (ok m) = m
managed e = record { handlers = []; default_handler = none }

abbrev internal : InternalConfig
internal = converted_to (to_internal write outside (from_lines text))

abbrev manager : HandlerManager
manager = managed (new parsers internal.outbounds internal.dns)

converts : to_internal write outside (from_lines text) ≡ ok internal
unfolding to_internal from_lines is_whitespace
converts = refl

builds : new parsers internal.outbounds internal.dns ≡ ok manager
unfolding to_internal from_lines is_whitespace new kind_of pass text_eq insert lookup
builds = refl

abbrev listed : Converted (List Outbound) → List Outbound
listed (ok os) = os
listed e = []

abbrev own_p : List Outbound
own_p = listed (proxy_outbounds write proxy_p)

expands : proxy_outbounds write proxy_p ≡ ok own_p
unfolding proxy_outbounds
expands = refl

binds : bind_of parsers proxy_p.interface ≡ ok (sock4 0 0)
unfolding bind_of
binds = refl

abbrev layers_p : List Chars
layers_p = (codes "P" ++ codes "_tls_xxx") ∷ (codes "P" ++ codes "_trojan_xxx") ∷ []

abbrev chain_p : Outbound
chain_p = chain_of write proxy_p layers_p

abbrev direct_d : Outbound
direct_d = record {
  tag = codes "D";
  protocol = codes "direct";
  bind = default_proxy.interface;
  settings = [];
}

abbrev trojan_p : Outbound
trojan_p =
    outbound write (codes "P" ++ codes "_trojan_xxx") (codes "trojan") proxy_p
      (trojan_outbound (codes "a.io") 443 (codes "pw"))

-- The outbounds are that of D, and then the chain of P, its TLS and its Trojan.
four_outbounds : internal.outbounds ≡ direct_d ∷ chain_p ∷ tls_of write proxy_p ∷ trojan_p ∷ []
unfolding to_internal from_lines is_whitespace chain_of tls_of default_proxy
four_outbounds = refl

second_of :
    (a b c d q : Outbound) (tag : Chars)
    → In q (a ∷ b ∷ c ∷ d ∷ [])
    → text_eq a.tag tag ≡ false
    → text_eq c.tag tag ≡ false
    → text_eq d.tag tag ≡ false
    → text_eq q.tag tag ≡ true
    → q ≡ b
second_of a b c d q tag (inl same) h k l t =
    let bad : text_eq a.tag tag ≡ true = rw same at t in absurd (cc)
second_of a b c d q tag (inr (inl same)) h k l t = same
second_of a b c d q tag (inr (inr (inl same))) h k l t =
    let bad : text_eq c.tag tag ≡ true = rw same at t in absurd (cc)
second_of a b c d q tag (inr (inr (inr (inl same)))) h k l t =
    let bad : text_eq d.tag tag ≡ true = rw same at t in absurd (cc)
second_of a b c d q tag (inr (inr (inr (inr later)))) h k l t = absurd later

tagged_p : (q : Outbound) → In q internal.outbounds → q.tag ≡ codes "P" → q ≡ chain_p
unfolding tls_of text_eq
tagged_p q i t =
    second_of direct_d chain_p (tls_of write proxy_p) trojan_p q (codes "P")
      (rw four_outbounds at i) refl refl refl ((text_eq_iff q.tag (codes "P")).1 t)

only_p :
    (q r : Outbound)
    → In q internal.outbounds
    → In r internal.outbounds
    → q.tag ≡ codes "P"
    → r.tag ≡ codes "P"
    → q ≡ r
only_p q r i j s t = tagged_p q i s ∙ sym (tagged_p r j t)

get-Layers_example :
    (hs : Handlers) × (s : GroupSettings) × (get (codes "P") manager
      ≡ some (group (codes "P") chain hs s))
    × (tags hs ≡ layers_p)
    × AreBuilt parsers internal.outbounds hs
get-Layers_example =
    get-Layers write outside parsers reads (from_lines text) internal manager
      (proxy_p ∷ proxy_d ∷ []) proxy_p (sock4 0 0) layers_p converts builds reads_proxies (inl refl)
      (trojan_layers refl) only_p binds

abbrev both : List Outbound
both = own_p ++ (direct_d ∷ [])

expands_both : proxies_outbounds write (or_else [] (from_lines text).proxy) ≡ ok both
unfolding proxies_outbounds from_lines is_whitespace
expands_both = refl

rule_d_final : is_final final_d ≡ true
unfolding is_final
rule_d_final = refl

tagged_d : text_eq direct_d.tag final_d.target ≡ true
unfolding text_eq
tagged_d = refl

has_d : In direct_d (both ++ groups_outbounds write (or_else [] (from_lines text).proxy_group))
has_d = In-append_left direct_d both _ (In-append_right direct_d own_p _ (inl refl))

default_handler-final_example : manager.default_handler ≡ some (codes "D")
default_handler-final_example =
    default_handler-final write outside parsers (from_lines text) internal manager (rule_c ∷ []) []
      final_d both direct_d converts builds reads_rules rule_d_final tt expands_both has_d tagged_d
