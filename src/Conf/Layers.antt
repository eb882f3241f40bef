-- ===== src/Conf/Layers.antt =====
-- leaf/src/config/conf/config.rs and leaf/src/app/handler_manager.rs: the chain of a proxy over its layers.
use i_leaf.Prelude.{
  ℕ, zero, ◌≡◌, refl, sym, ap, ◌∙◌, List, [], ◌∷◌, ◌++◌, All, Bool, true, false, Option, none, some,
  inl, inr, ok, >>=-eq-ok,
}
use i_leaf.Prelude.Text.{codes, text_eq}
use i_leaf.Prelude.Assoc.{lookup}
use i_leaf.Session.{SocketAddr}
use i_leaf.HandlerManager
use i_leaf.HandlerManager.{
  Outbound, Handler, Handlers, HandlerManager, GroupSettings, Protocol, GroupProtocol, tag_of,
  chain, trojan, vmess, vless, tls, ws, kind_of, group_kind, endpoint_kind, endpoint, group,
  bind_of, new, get,
}
use i_leaf.HandlerManager.Groups.{In, Leads, leads_group}
use i_leaf.HandlerManager.Shape.{tags, AreBuilt, IsBuilt}
use i_leaf.HandlerManager.Whole.{IsWhole}
use i_leaf.Conf.Texts.{Chars}
use i_leaf.Conf.Records.{Proxy}
use i_leaf.Conf.Settings.{Message, chain_outbound}
use i_leaf.Conf.Outbounds.{
  ConfError, Converted, invalid_vmess, invalid_vless, all_or, unwrap, only_if, tags_of, outbound,
  tls_of, ws_of, chain_of, trojan_of, layered, vmess_of, vless_of, protocol_of, by_protocol,
}
use i_leaf.Conf.Reach.{
  Suits, suits_trojan, suits_vmess, suits_vless, suits_tls, suits_ws, Reads, endpoint-Leads,
}

-- A tag in front of others, if its layer is on.
abbrev pub above : Bool → Chars → List Chars → List Chars
above true tag names = tag ∷ names
above false tag names = names

-- The layers of a proxy from the outside in, by the tags of their outbounds.
pub data Layers (p : Proxy) : List Chars → Type 0 where
  trojan_layers :
      p.protocol ≡ codes "trojan"
      → Layers p ((p.tag ++ codes "_tls_xxx") ∷ (p.tag ++ codes "_trojan_xxx") ∷ [])
  vmess_layers :
      (tls_on ws_on : Bool)
      → p.protocol ≡ codes "vmess"
      → p.tls ≡ some tls_on
      → p.ws ≡ some ws_on
      → Layers p (
          above tls_on
            (p.tag ++ codes "_tls_xxx")
            (above ws_on (p.tag ++ codes "_ws_xxx") ((p.tag ++ codes "_vmess_xxx") ∷ [])))
  vless_layers :
      (tls_on ws_on : Bool)
      → p.protocol ≡ codes "vless"
      → p.tls ≡ some tls_on
      → p.ws ≡ some ws_on
      → Layers p (
          above tls_on
            (p.tag ++ codes "_tls_xxx")
            (above ws_on (p.tag ++ codes "_ws_xxx") ((p.tag ++ codes "_vless_xxx") ∷ [])))

-- An address, a port and a user, where the conversion succeeds.
all_or-eq-ok :
    {A : Type 0} (e : ConfError) (address : Option Chars) (port : Option ℕ)
    (username : Option Chars) (k : Chars → ℕ → Chars → Converted A) (a : A)
    → all_or e address port username k ≡ ok a
    → (d : Chars) × (n : ℕ) × (u : Chars) × (k d n u ≡ ok a)
all_or-eq-ok e (some d) (some n) (some u) k a h = (d, n, u, h)
all_or-eq-ok e none port username k a h = absurd (cc)
all_or-eq-ok e (some d) none username k a h = absurd (cc)
all_or-eq-ok e (some d) (some n) none k a h = absurd (cc)

above-In : (b : Bool) (t a : Chars) (names : List Chars) → In a names → In a (above b t names)
above-In true t a names i = inr i
above-In false t a names i = i

pub Layers-some : (p : Proxy) (names : List Chars) → Layers p names → (a : Chars) × In a names
Layers-some p names (trojan_layers e) = (_, inl refl)
Layers-some p names (vmess_layers tls_on ws_on e t w) =
    (_, above-In tls_on _ _ _ (above-In ws_on _ _ _ (inl refl)))
Layers-some p names (vless_layers tls_on ws_on e t w) =
    (_, above-In tls_on _ _ _ (above-In ws_on _ _ _ (inl refl)))

All-In : (P : Chars → Type 0) (names : List Chars) (a : Chars) → In a names → All P names → P a
All-In P [] a i h = absurd i
All-In P (n ∷ names) a (inl same) (h, hs) = rw same h
All-In P (n ∷ names) a (inr later) (h, hs) = All-In P names a later hs

protocol_of-eq :
    (p : Proxy) (name : Chars)
    → text_eq name (codes "ss") ≡ false
    → p.protocol ≡ name
    → protocol_of p ≡ name
protocol_of-eq p name other e = rw (e, other) refl

module _ (write : Message → List ℕ) (y : HandlerManager.External) (reads : Reads write y) where
  module _ (all : List Outbound) (p : Proxy) (bind : SocketAddr)
      (bound : bind_of y p.interface ≡ ok bind) where
    -- The chain over these names is among the outbounds, and each name is that of an endpoint.
    abbrev pub IsLaid : List Chars → Type 0
    IsLaid names = In (chain_of write p names) all × All (λ (a : Chars). Leads y all zero a) names

    layer :
        {tag : Chars} (protocol : Chars) (k : Protocol) {m : Message}
        → Suits k m
        → kind_of protocol ≡ endpoint_kind k
        → In (outbound write tag protocol p m) all
        → Leads y all zero tag
    layer protocol k suits kind i =
        endpoint-Leads write y reads all p bind bound _ protocol k _ kind suits i

    layers-IsLaid :
        (tls_on ws_on : Bool) (inner : Outbound)
        → ((q : Outbound)
            → In q (
                chain_of write p (
                  tags_of (
                    only_if tls_on (tls_of write p ∷ [])
                    ++ (only_if ws_on (ws_of write p ∷ []) ++ (inner ∷ []))))
                ∷ (only_if tls_on (tls_of write p ∷ [])
                    ++ (only_if ws_on (ws_of write p ∷ []) ++ (inner ∷ []))))
            → In q all)
        → (In inner all → Leads y all zero inner.tag)
        → IsLaid (
            above tls_on
              (p.tag ++ codes "_tls_xxx")
              (above ws_on (p.tag ++ codes "_ws_xxx") (inner.tag ∷ [])))
    unfolding tls_of ws_of kind_of text_eq lookup
    layers-IsLaid true true inner held d =
        let tls_leads = layer (codes "tls") tls (suits_tls _) refl (held _ (inr (inl refl))) in
        let ws_leads = layer (codes "ws") ws (suits_ws _) refl (held _ (inr (inr (inl refl)))) in
        (held _ (inl refl), (tls_leads, (ws_leads, (d (held _ (inr (inr (inr (inl refl))))), tt))))
    layers-IsLaid true false inner held d =
        let tls_leads = layer (codes "tls") tls (suits_tls _) refl (held _ (inr (inl refl))) in
        (held _ (inl refl), (tls_leads, (d (held _ (inr (inr (inl refl)))), tt)))
    layers-IsLaid false true inner held d =
        let ws_leads = layer (codes "ws") ws (suits_ws _) refl (held _ (inr (inl refl))) in
        (held _ (inl refl), (ws_leads, (d (held _ (inr (inr (inl refl)))), tt)))
    layers-IsLaid false false inner held d = (held _ (inl refl), (d (held _ (inr (inl refl))), tt))

    unwrap-eq :
        (switch : Option Bool) (is_on found : Bool)
        → unwrap switch ≡ ok found
        → switch ≡ some is_on
        → found ≡ is_on
    unwrap-eq none is_on found e h = absurd (cc)
    unwrap-eq (some b) is_on found e h = cc

    layered-IsLaid :
        (tls_on ws_on : Bool) (inner : Outbound) (own : List Outbound)
        → p.tls ≡ some tls_on
        → p.ws ≡ some ws_on
        → layered write p inner ≡ ok own
        → ((q : Outbound) → In q own → In q all)
        → (In inner all → Leads y all zero inner.tag)
        → IsLaid (
            above tls_on
              (p.tag ++ codes "_tls_xxx")
              (above ws_on (p.tag ++ codes "_ws_xxx") (inner.tag ∷ [])))
    unfolding layered
    layered-IsLaid tls_on ws_on inner own t w e held d =
        let (tls', t', rest) = >>=-eq-ok (unwrap p.tls) _ e in
        let (ws', w', last) = >>=-eq-ok (unwrap p.ws) _ rest in
        let tls_same = unwrap-eq p.tls tls_on tls' t' t in
        let ws_same = unwrap-eq p.ws ws_on ws' w' w in
        let layers : List Outbound =
          only_if tls' (tls_of write p ∷ [])
          ++ (only_if ws' (ws_of write p ∷ []) ++ (inner ∷ [])) in
        let whole : chain_of write p (tags_of layers) ∷ layers ≡ own = cc in
        rw (← tls_same, ← ws_same) (layers-IsLaid tls' ws' inner (λ q i. held q (rw (← whole) i)) d)

    pub Layers-IsLaid :
        (protocol : Chars) (names : List Chars) (own : List Outbound)
        → protocol ≡ protocol_of p
        → by_protocol write protocol p ≡ ok own
        → ((q : Outbound) → In q own → In q all)
        → Layers p names
        → IsLaid names
    unfolding vmess_of vless_of trojan_of tls_of kind_of text_eq lookup
    Layers-IsLaid protocol names own q e held (trojan_layers name) =
        let is_trojan : protocol ≡ codes "trojan" = q ∙ protocol_of-eq p _ refl name in
        let whole : ◌≡◌ {A = Converted (List Outbound)} (ok (trojan_of write p)) (ok own) =
          rw is_trojan at e in
        let same : trojan_of write p ≡ own = cc in
        let h : (q : Outbound) → In q (trojan_of write p) → In q all =
          λ q i. held q (rw (← same) i) in
        let tls_leads = layer (codes "tls") tls (suits_tls _) refl (h _ (inr (inl refl))) in
        let inner_leads =
          layer (codes "trojan") trojan (suits_trojan _ _ _) refl (h _ (inr (inr (inl refl)))) in
        (h _ (inl refl), (tls_leads, (inner_leads, tt)))
    Layers-IsLaid protocol names own q e held (vmess_layers tls_on ws_on name t w) =
        let is_vmess : protocol ≡ codes "vmess" = q ∙ protocol_of-eq p _ refl name in
        let (address, port, username, made) =
          all_or-eq-ok invalid_vmess p.address p.port p.username _ own (rw is_vmess at e) in
        layered-IsLaid tls_on ws_on _ own t w made held
          (layer (codes "vmess") vmess (suits_vmess _ _ _ _) refl)
    Layers-IsLaid protocol names own q e held (vless_layers tls_on ws_on name t w) =
        let is_vless : protocol ≡ codes "vless" = q ∙ protocol_of-eq p _ refl name in
        let (address, port, username, made) =
          all_or-eq-ok invalid_vless p.address p.port p.username _ own (rw is_vless at e) in
        layered-IsLaid tls_on ws_on _ own t w made held
          (layer (codes "vless") vless (suits_vless _ _ _) refl)

    pub chain-Leads :
        (names : List Chars) (actor : Chars)
        → In (chain_of write p names) all
        → In actor names
        → All (λ (a : Chars). Leads y all zero a) names
        → Leads y all 1 p.tag
    unfolding chain_of kind_of text_eq lookup
    chain-Leads names actor i a leads =
        let (s, r, same) = reads.actors names in
        leads_group (chain_of write p names) chain s actor 0 i refl r (rw same a)
          (All-In (Leads y all zero) names actor a leads)

    -- What is built from the chain, where nothing else bears the proxy's tag.
    pub chain-Built :
        (names : List Chars) (h : Handler)
        → tag_of h ≡ p.tag
        → IsBuilt y all h
        → IsWhole y all h
        → ((o : Outbound) → In o all → o.tag ≡ p.tag → o ≡ chain_of write p names)
        → All (λ (a : Chars). Leads y all zero a) names
        → (hs : Handlers) × (s : GroupSettings) × (h ≡ group p.tag chain hs s)
          × (tags hs ≡ names)
          × AreBuilt y all hs
    unfolding tag_of chain_of kind_of text_eq lookup
    chain-Built names (endpoint tag type protocol settings b) t (o, (i, e, k), u, v, r) w only
          leads =
        let same = only o i (e ∙ t) in
        let kind : group_kind chain ≡ endpoint_kind protocol =
          sym (ap (λ (o : Outbound). kind_of o.protocol) same) ∙ k in
        absurd (cc)
    chain-Built names (group tag protocol hs settings) t ((o, (i, e, k), parsed), some_hs, w, built)
          whole only leads =
        let same = only o i (e ∙ t) in
        let kind : group_kind chain ≡ group_kind protocol =
          sym (ap (λ (o : Outbound). kind_of o.protocol) same) ∙ k in
        let is_chain : protocol ≡ chain = cc in
        let bytes : o.settings ≡ write (chain_outbound names) =
          ap (λ (o : Outbound). o.settings) same in
        let (s, r, actors) = reads.actors names in
        let read : y.parse_group chain (write (chain_outbound names)) ≡ some settings =
          rw (is_chain, bytes) at parsed in
        let settings_eq : s ≡ settings = cc in
        let named : settings.actors ≡ names =
          ap (λ (s : GroupSettings). s.actors) (sym settings_eq) ∙ actors in
        (hs, settings, rw (t, is_chain) refl, whole (rw (← named) at leads) ∙ named, built)
