-- ===== src/Conf/Managed.antt =====
-- leaf/src/config/conf/config.rs and leaf/src/app/handler_manager.rs: the handler manager that is built from a
-- configuration in its text form: its default handler, and its DNS servers.
use i_leaf.Prelude.{
  ℕ, ◌≡◌, refl, ap, ◌∙◌, List, [], ◌∷◌, ◌++◌, true, false, Option, none, some, All, ◌⊎◌, inl, inr,
  arith, ok, panic, >>=-eq-ok,
}
use i_leaf.Prelude.Text.{codes, text_eq}
use i_leaf.HandlerManager
use i_leaf.HandlerManager.{
  Outbound, Dns, HandlerManager, bind_of, endpoints, new, new_dns_client, dns_servers_of,
  or_default,
}
use i_leaf.HandlerManager.Groups.{In, new-eq-ok}
use i_leaf.Conf.Texts.{Chars, trim, split}
use i_leaf.Conf.Lines.{get_lines_by_section, get_char_sep_slice, items_of}
use i_leaf.Conf.Sections.{set_general, set_parts, two_parts, with_tun, general_from}
use i_leaf.Conf.FromLines.{from_lines}
use i_leaf.Conf.Records.{General, Rule, Config, default_general}
use i_leaf.Conf.Settings.{Message, InternalConfig, or_else}
use i_leaf.Conf.Outbounds.{proxies_outbounds, groups_outbounds}
use i_leaf.Router.{RoutingRule}
use i_leaf.Conf.Rules
use i_leaf.Conf.Rules.{Converting, is_final, convert_rules}
use i_leaf.Conf.ToInternal.{dns_of, to_internal}
use i_leaf.Conf.Final.{convert_rules-final}

-- The outbounds in front of the rules.
abbrev pub before_rules : (Message → List ℕ) → Config → List Outbound → Converting
before_rules write conf proxies = record {
  outbounds = proxies ++ groups_outbounds write (or_else [] conf.proxy_group);
  site_group_lists = [];
}

module _ (write : Message → List ℕ) (x : Rules.External) where
  pub to_internal-eq-ok :
      (conf : Config) (ic : InternalConfig)
      → to_internal write x conf ≡ ok ic
      → (proxies : List Outbound) × (proxies_outbounds write (or_else [] conf.proxy) ≡ ok proxies)
        × (p : List RoutingRule × Converting) × (convert_rules x
              (or_else [] conf.rule)
              (before_rules write conf proxies)
            ≡ ok p)
        × (ic.outbounds ≡ p.1.outbounds)
        × (ic.dns ≡ dns_of conf.general)
  unfolding to_internal
  to_internal-eq-ok conf ic e =
      let (proxies, p, rest) = >>=-eq-ok (proxies_outbounds write (or_else [] conf.proxy)) _ e in
      let (c, r, last) =
        >>=-eq-ok (convert_rules x (or_else [] conf.rule) (before_rules write conf proxies)) _
          rest in
      (proxies, p, c, r, cc, cc)

module _ (y : HandlerManager.External) where
  endpoints-default :
      (os : List Outbound) (m m' : HandlerManager) (tag : Chars)
      → endpoints y os m ≡ ok m'
      → m.default_handler ≡ some tag
      → m'.default_handler ≡ some tag
  unfolding endpoints or_default
  endpoints-default [] m m' tag e h = let same : m ≡ m' = cc in rw (← same) h
  endpoints-default (o ∷ os) m m' tag e h =
      let (bind, b, later) = >>=-eq-ok (bind_of y o.bind) _ e in
      endpoints-default os _ m' tag later (rw h refl)

  -- The first outbound's tag is the default.
  new-default :
      (o : Outbound) (os : List Outbound) (dns : Dns) (hm : HandlerManager)
      → new y (o ∷ os) dns ≡ ok hm
      → hm.default_handler ≡ some o.tag
  unfolding endpoints or_default
  new-default o os dns hm e =
      let (m, built, same) = new-eq-ok y (o ∷ os) dns hm e in
      let (bind, b, later) = >>=-eq-ok (bind_of y o.bind) _ built in
      rw same (endpoints-default os _ m o.tag later refl)

module _ (write : Message → List ℕ) (x : Rules.External) (y : HandlerManager.External) where
  -- The target of the last `FINAL` rule, if an outbound of the configuration bears its tag, is the
  -- tag of the default handler: the one that sessions go to that no other rule matches.
  pub default_handler-final :
      (conf : Config) (ic : InternalConfig) (hm : HandlerManager) (rs later : List Rule) (r : Rule)
      (proxies : List Outbound) (q : Outbound)
      → to_internal write x conf ≡ ok ic
      → new y ic.outbounds ic.dns ≡ ok hm
      → conf.rule ≡ some (rs ++ (r ∷ later))
      → is_final r ≡ true
      → All (λ r. is_final r ≡ false) later
      → proxies_outbounds write (or_else [] conf.proxy) ≡ ok proxies
      → In q (proxies ++ groups_outbounds write (or_else [] conf.proxy_group))
      → text_eq q.tag r.target ≡ true
      → hm.default_handler ≡ some r.target
  default_handler-final conf ic hm rs later r proxies q e n rules f h p i t =
      let (proxies', p', c, run, outbounds, dns) = to_internal-eq-ok write x conf ic e in
      let same : proxies' ≡ proxies = cc in
      let (o, os, first, tagged) =
        convert_rules-final x rs later r (before_rules write conf proxies) c q
          (rw (rules, same) at run) f h i t in
      let put_first : ic.outbounds ≡ o ∷ os = outbounds ∙ first in
      new-default y o os ic.dns hm (rw put_first at n) ∙ ap some tagged

-- The line does not name a DNS server: it has another key, or its list is empty.
abbrev pub NoServer : Option (Chars × Chars) → Type 0
NoServer none = Unit {0}
NoServer (some (key, value)) =
    (text_eq (trim key) (codes "dns-server") ≡ false) ⊎ (items_of (split b',' (trim value)) ≡ [])

with_tun-dns_server :
    (parts : Option (List Chars)) (g : General) → (with_tun parts g).dns_server ≡ g.dns_server
with_tun-dns_server none g = refl
with_tun-dns_server (some []) g = refl
with_tun-dns_server (some (a ∷ [])) g = refl
with_tun-dns_server (some (a ∷ b ∷ [])) g = refl
with_tun-dns_server (some (a ∷ b ∷ c ∷ [])) g = refl
with_tun-dns_server (some (a ∷ b ∷ c ∷ d ∷ [])) g = refl
with_tun-dns_server (some (a ∷ b ∷ c ∷ d ∷ e ∷ [])) g = refl
with_tun-dns_server (some (a ∷ b ∷ c ∷ d ∷ e ∷ f ∷ items)) g = refl

set_general-NoServer :
    (key value : Chars) (g : General)
    → NoServer (some (key, value))
    → g.dns_server ≡ none
    → (set_general (trim key) value g).dns_server ≡ none
unfolding set_general
set_general-NoServer key value g (inl other) h =
    ground (arith, other, h, with_tun-dns_server (get_char_sep_slice value b',') g)
set_general-NoServer key value g (inr empty) h =
    let gone : get_char_sep_slice value b',' ≡ none = unfold get_char_sep_slice in rw empty refl in
    ground (arith, gone, h, with_tun-dns_server (get_char_sep_slice value b',') g)

set_parts-NoServer :
    (parts : Option (Chars × Chars)) (g : General)
    → NoServer parts
    → g.dns_server ≡ none
    → (set_parts parts g).dns_server ≡ none
set_parts-NoServer none g n h = h
set_parts-NoServer (some (key, value)) g n h = set_general-NoServer key value g n h

general_from-NoServer :
    (lines : List Chars) (g : General)
    → All (λ (line : Chars). NoServer (two_parts (split b'=' line))) lines
    → g.dns_server ≡ none
    → (general_from lines g).dns_server ≡ none
unfolding general_from
general_from-NoServer [] g a h = h
general_from-NoServer (line ∷ lines) g (n, a) h =
    general_from-NoServer lines _ a (set_parts-NoServer (two_parts (split b'=' line)) g n h)

-- A text in which no line of the section General names a DNS server, be it that no line has the key
-- or that the list behind it is empty, comes, where it is converted, to a configuration with which
-- the handler manager panics: the two public servers stand in for neither.
pub new-no_servers :
    (write : Message → List ℕ) (x : Rules.External) (y : HandlerManager.External)
    (lines : List (Option Chars)) (ic : InternalConfig)
    → All
        (λ (line : Chars). NoServer (two_parts (split b'=' line)))
        (get_lines_by_section (codes "General") lines)
    → to_internal write x (from_lines lines) ≡ ok ic
    → new y ic.outbounds ic.dns ≡ panic
unfolding new new_dns_client dns_servers_of dns_of from_lines default_general
new-no_servers write x y lines ic silent e =
    let (proxies, p, c, run, outbounds, dns) = to_internal-eq-ok write x (from_lines lines) ic e in
    let none_given =
      general_from-NoServer (get_lines_by_section (codes "General") lines) default_general silent
        refl in
    rw (dns, none_given) refl
