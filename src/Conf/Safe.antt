-- ===== src/Conf/Safe.antt =====
-- leaf/src/config/conf/config.rs: no proxy of a text makes its conversion panic.
use i_leaf.Prelude.{
  ℕ, ◌≡◌, ◌≢◌, refl, List, [], ◌∷◌, Bool, Option, none, some, All, Option-cases, Bool-cases, inl,
  inr, ok, err, panic, ◌>>=◌, arith,
}
use i_leaf.Prelude.Text.{codes, text_eq}
use i_leaf.HandlerManager.{Outbound}
use i_leaf.Conf.Texts.{Chars, split_once, trim, parse_u16}
use i_leaf.Conf.Lines.{get_char_sep_slice}
use i_leaf.Conf.Records.{Proxy, default_proxy}
use i_leaf.Conf.Sections.{
  key_value, set_param, set_params, with_port, with_address, with_protocol, proxy_from,
  proxy_tagged, proxy_parts, proxy_of,
}
use i_leaf.Conf.FromLines.{each_line}
use i_leaf.Conf.Settings.{Message}
use i_leaf.Conf.Outbounds.{
  ConfError, invalid_vmess, invalid_vless, Converted, unwrap, all_or, layered, vmess_of, vless_of,
  protocol_of, by_protocol, proxy_outbounds, proxies_outbounds,
}

-- The switches that the conversion unwraps are there.
pub record HasLayers (p : Proxy) : Type 0 where
  pub has_tls : p.tls ≢ none
  pub has_ws : p.ws ≢ none

set_param-HasLayers : (kv : Chars × Chars) (p : Proxy) → HasLayers p → HasLayers (set_param kv p)
unfolding set_param
set_param-HasLayers (k, v) p h = record {
  has_tls = ground (arith, h.has_tls);
  has_ws = ground (arith, h.has_ws);
}

set_params-HasLayers :
    (params : List Chars) (p : Proxy) → HasLayers p → HasLayers (set_params params p)
unfolding set_params
set_params-HasLayers [] p h = h
set_params-HasLayers (param ∷ params) p h = elim (Option-cases (key_value param)) [
  | inl skipped ↦ rw (set_params, skipped) (set_params-HasLayers params p h)
  | inr (kv, found) ↦
      rw (set_params, found)
        (set_params-HasLayers params (set_param kv p) (set_param-HasLayers kv p h))
]

with_port-HasLayers :
    (address : Chars) (p q : Proxy) (port : Option ℕ)
    → with_port address p port ≡ some q
    → HasLayers p
    → HasLayers q
with_port-HasLayers address p q none e h = absurd (cc)
with_port-HasLayers address p q (some n) e h = record {
  has_tls = λ gone. h.has_tls (cc);
  has_ws = λ gone. h.has_ws (cc);
}

with_address-HasLayers :
    (params : List Chars) (p q : Proxy) → with_address params p ≡ some q → HasLayers p → HasLayers q
with_address-HasLayers [] p q e h = absurd (cc)
with_address-HasLayers (address ∷ []) p q e h = absurd (cc)
with_address-HasLayers (address ∷ port ∷ params) p q e h =
    with_port-HasLayers address p q (parse_u16 port) e h

some-HasLayers : (p q : Proxy) → some p ≡ some q → HasLayers p → HasLayers q
some-HasLayers p q e h = let same : p ≡ q = cc in rw (← same) h

with_protocol-HasLayers :
    (params : List Chars) (p q : Proxy)
    → with_protocol p params ≡ some q
    → HasLayers p
    → HasLayers q
unfolding with_protocol
with_protocol-HasLayers params p q e h = elim (Bool-cases (text_eq p.protocol (codes "direct"))) [
  | inl is_direct ↦ some-HasLayers p q (rw (with_protocol, is_direct) at e) h
  | inr not_direct ↦ elim (Bool-cases (text_eq p.protocol (codes "drop"))) [
    | inl is_drop ↦ some-HasLayers p q (rw (with_protocol, not_direct, is_drop) at e) h
    | inr not_drop ↦ elim (Bool-cases (text_eq p.protocol (codes "reject"))) [
      | inl is_reject ↦
          some-HasLayers (record p { protocol = codes "drop" }) q
            (rw (with_protocol, not_direct, not_drop, is_reject) at e)
            (record { has_tls = h.has_tls; has_ws = h.has_ws })
      | inr not_reject ↦
          with_address-HasLayers params p q
            (rw (with_protocol, not_direct, not_drop, not_reject) at e) h
    ]
  ]
]

start-HasLayers :
    (tag protocol : Chars) → HasLayers (record default_proxy { tag = tag; protocol = protocol })
unfolding default_proxy
start-HasLayers tag protocol = record { has_tls = λ e. cc; has_ws = λ e. cc }

proxy_from-HasLayers :
    (tag : Chars) (params : Option (List Chars)) (q : Proxy)
    → proxy_from tag params ≡ some q
    → HasLayers q
proxy_from-HasLayers tag none q e = absurd (cc)
proxy_from-HasLayers tag (some []) q e = absurd (cc)
proxy_from-HasLayers tag (some (protocol ∷ params)) q e =
    let start : Proxy = record default_proxy { tag = tag; protocol = protocol } in
    with_protocol-HasLayers params (set_params (protocol ∷ params) start) q e
      (set_params-HasLayers (protocol ∷ params) start (start-HasLayers tag protocol))

proxy_tagged-HasLayers :
    (tag params : Chars) (q : Proxy) → proxy_tagged tag params ≡ some q → HasLayers q
proxy_tagged-HasLayers [] params q e = absurd (cc)
proxy_tagged-HasLayers (c ∷ tag) params q e =
    proxy_from-HasLayers (c ∷ tag) (get_char_sep_slice params b',') q e

proxy_parts-HasLayers :
    (parts : Option (Chars × Chars)) (q : Proxy) → proxy_parts parts ≡ some q → HasLayers q
proxy_parts-HasLayers none q e = absurd (cc)
proxy_parts-HasLayers (some (tag, params)) q e = proxy_tagged-HasLayers (trim tag) params q e

pub proxies-HasLayers : (lines : List Chars) → All HasLayers (each_line proxy_of lines)
unfolding proxy_of
proxies-HasLayers [] = tt
proxies-HasLayers (line ∷ lines) = elim (Option-cases (proxy_of line)) [
  | inl skipped ↦ rw skipped (proxies-HasLayers lines)
  | inr (q, read) ↦
      rw read (proxy_parts-HasLayers (split_once b'=' line) q read, proxies-HasLayers lines)
]

bind-ne-panic :
    {A B : Type 0} (m : Converted A) (f : A → Converted B)
    → m ≢ panic
    → ((a : A) → f a ≢ panic)
    → (m >>= f) ≢ panic
bind-ne-panic (ok a) f h k = k a
bind-ne-panic (err e) f h k = λ e. cc
bind-ne-panic panic f h k = λ e. h refl

unwrap-ne-panic : (o : Option Bool) → o ≢ none → unwrap o ≢ panic
unwrap-ne-panic none h = λ e. h refl
unwrap-ne-panic (some b) h = λ e. cc

all_or-ne-panic :
    {A : Type 0} (e : ConfError) (address : Option Chars) (port : Option ℕ)
    (username : Option Chars) (k : Chars → ℕ → Chars → Converted A)
    → ((d : Chars) (n : ℕ) (u : Chars) → k d n u ≢ panic)
    → all_or e address port username k ≢ panic
all_or-ne-panic e (some d) (some n) (some u) k h = h d n u
all_or-ne-panic e none port username k h = λ p. cc
all_or-ne-panic e (some d) none username k h = λ p. cc
all_or-ne-panic e (some d) (some n) none k h = λ p. cc

module _ (write : Message → List ℕ) where
  layered-ne-panic : (p : Proxy) (inner : Outbound) → HasLayers p → layered write p inner ≢ panic
  unfolding layered
  layered-ne-panic p inner h =
      bind-ne-panic (unwrap p.tls) _ (unwrap-ne-panic p.tls h.has_tls)
        (λ tls. bind-ne-panic (unwrap p.ws) _ (unwrap-ne-panic p.ws h.has_ws) (λ ws e. cc))

  vmess_of-ne-panic : (p : Proxy) → HasLayers p → vmess_of write p ≢ panic
  unfolding vmess_of
  vmess_of-ne-panic p h =
      all_or-ne-panic invalid_vmess p.address p.port p.username _ (λ d n u. layered-ne-panic p _ h)

  vless_of-ne-panic : (p : Proxy) → HasLayers p → vless_of write p ≢ panic
  unfolding vless_of
  vless_of-ne-panic p h =
      all_or-ne-panic invalid_vless p.address p.port p.username _ (λ d n u. layered-ne-panic p _ h)

  by_protocol-ne-panic :
      (protocol : Chars) (p : Proxy) → HasLayers p → by_protocol write protocol p ≢ panic
  by_protocol-ne-panic protocol p h = ground (arith, vmess_of-ne-panic p h, vless_of-ne-panic p h)

  pub proxies_outbounds-ne-panic :
      (ps : List Proxy) → All HasLayers ps → proxies_outbounds write ps ≢ panic
  unfolding proxies_outbounds proxy_outbounds
  proxies_outbounds-ne-panic [] h = λ e. cc
  proxies_outbounds-ne-panic (p ∷ ps) (h, hs) =
      bind-ne-panic (proxy_outbounds write p) _ (by_protocol-ne-panic (protocol_of p) p h) (λ os.
        bind-ne-panic (proxies_outbounds write ps) _ (proxies_outbounds-ne-panic ps hs)
          (λ rest e. cc))
