-- ===== src/Conf/Handlers.antt =====
-- leaf/src/config/conf/config.rs and leaf/src/app/handler_manager.rs: the handlers that the proxies get.
use i_leaf.Prelude.{
  ℕ, ◌≡◌, refl, ap, ◌∙◌, List, [], ◌∷◌, ◌++◌, some, inl, inr, ok, >>=-eq-ok, arith,
}
use i_leaf.Session.{SocketAddr}
use i_leaf.HandlerManager
use i_leaf.HandlerManager.{
  Outbound, Handler, Handlers, HandlerManager, GroupSettings, Protocol, GroupProtocol, tag_of,
  chain, trojan, vmess, vless, tls, ws, kind_of, group_kind, endpoint_kind, endpoint, group,
  bind_of, new, get,
}
use i_leaf.HandlerManager.Groups.{In, get-Leads}
use i_leaf.HandlerManager.Shape.{tags, AreBuilt, get-IsBuilt}
use i_leaf.HandlerManager.Whole.{get-Whole}
use i_leaf.Conf.Texts.{Chars}
use i_leaf.Conf.Records.{Proxy, Config}
use i_leaf.Conf.Settings.{Message, InternalConfig, or_else}
use i_leaf.Conf.Outbounds.{chain_of, protocol_of, proxy_outbounds, proxies_outbounds}
use i_leaf.Conf.Rules
use i_leaf.Conf.ToInternal.{to_internal}
use i_leaf.Conf.Final.{In-append_left, In-append_right, convert_rules-In}
use i_leaf.Conf.Managed.{before_rules, to_internal-eq-ok}
use i_leaf.Conf.Reach.{Reads}
use i_leaf.Conf.Layers.{Layers, Layers-some, Layers-IsLaid, chain-Leads, chain-Built}

module _ (write : Message → List ℕ) (x : Rules.External) (y : HandlerManager.External)
    (reads : Reads write y) where
  proxies_outbounds-In :
      (ps : List Proxy) (os : List Outbound) (p : Proxy)
      → proxies_outbounds write ps ≡ ok os
      → In p ps
      → (own : List Outbound) × (proxy_outbounds write p ≡ ok own)
        × ((q : Outbound) → In q own → In q os)
  unfolding proxies_outbounds
  proxies_outbounds-In [] os p e i = absurd i
  proxies_outbounds-In (r ∷ ps) os p e i =
      let (first, f, rest) = >>=-eq-ok (proxy_outbounds write r) _ e in
      let (more, m, last) = >>=-eq-ok (proxies_outbounds write ps) _ rest in
      let whole : first ++ more ≡ os = cc in
      elim i [
        | inl same ↦ (
          first,
          ap (proxy_outbounds write) same ∙ f,
          λ q j. rw (← whole) (In-append_left q first more j),
        )
        | inr later ↦
            let (own, o, held) = proxies_outbounds-In ps more p m later in
            (own, o, λ q j. rw (← whole) (In-append_right q first more (held q j)))
      ]

  -- A proxy over Trojan, VMess or VLESS has a handler under its own tag in the manager that is built
  -- from the configuration, where no two outbounds bear this tag: it is the chain that holds a
  -- handler for each layer of the proxy, from the outside in, TLS and Trojan, or TLS if it is on,
  -- WebSocket if it is on, and the protocol, and each of them comes from an outbound of the
  -- configuration with the tag of its layer. The binding address of the proxy parses, and settings
  -- that were written are read back.
  pub get-Layers :
      (conf : Config) (ic : InternalConfig) (hm : HandlerManager) (ps : List Proxy) (p : Proxy)
      (bind : SocketAddr) (names : List Chars)
      → to_internal write x conf ≡ ok ic
      → new y ic.outbounds ic.dns ≡ ok hm
      → conf.proxy ≡ some ps
      → In p ps
      → Layers p names
      → ((q r : Outbound)
          → In q ic.outbounds
          → In r ic.outbounds
          → q.tag ≡ p.tag
          → r.tag ≡ p.tag
          → q ≡ r)
      → bind_of y p.interface ≡ ok bind
      → (hs : Handlers) × (s : GroupSettings) × (get p.tag hm ≡ some (group p.tag chain hs s))
        × (tags hs ≡ names)
        × AreBuilt y ic.outbounds hs
  unfolding proxy_outbounds chain_of
  get-Layers conf ic hm ps p bind names e n proxies i layers unique bound =
      let (os, made, c, run, outbounds, dns) = to_internal-eq-ok write x conf ic e in
      let (own, o, held) = proxies_outbounds-In ps os p (rw proxies at made) i in
      let reach : (q : Outbound) → In q own → In q ic.outbounds = λ q j. rw outbounds (
        convert_rules-In x (or_else [] conf.rule) (before_rules write conf os) c q run
          (In-append_left q os _ (held q j))) in
      let (listed, leads) =
        Layers-IsLaid write y reads ic.outbounds p bind bound (protocol_of p) names own refl o reach
          layers in
      let (actor, among) = Layers-some p names layers in
      let (h, found) =
        get-Leads y ic.outbounds ic.dns hm 1 p.tag n
          (chain-Leads write y reads ic.outbounds p bind bound names actor listed among leads)
          (omega arith) in
      let (tagged, built) = get-IsBuilt y ic.outbounds ic.dns hm p.tag h n found in
      let whole = (get-Whole y ic.outbounds ic.dns hm p.tag h n found).1 in
      let (hs, s, shape, named, all_built) =
        chain-Built write y reads ic.outbounds p bind bound names h tagged built whole
          (λ q j t. unique q (chain_of write p names) j listed t refl) leads in
      (hs, s, found ∙ ap some shape, named, all_built)
