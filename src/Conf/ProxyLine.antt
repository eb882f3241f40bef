-- ===== src/Conf/ProxyLine.antt =====
-- leaf/src/config/conf/config.rs: a line of the section "Proxy", written and read back.
use i_leaf.Prelude.{
  ℕ, ◌≡◌, refl, ap, List, [], ◌∷◌, ◌++◌, Bool, false, ◌||◌, some, All, ◌∙◌, arith, map,
  if◌then◌else◌, none,
}
use i_leaf.Prelude.Text.{codes, text_eq}
use i_leaf.Conf.Texts.{Chars, trim_end, has_char, parse_u16}
use i_leaf.Conf.Records.{Proxy, default_proxy}
use i_leaf.Conf.Sections.{key_value, set_param, set_params, with_protocol, proxy_of}
use i_leaf.Conf.Items.{
  IsItem, join, trim_item, trim_end-append, split-none, split-append, get_char_sep_slice-join,
}
use i_leaf.Conf.Headers.{split_once-append}

abbrev pub param_text : Chars × Chars → Chars
param_text (k, v) = k ++ (b'=' ∷ v)

-- A key and a value that are items, without a `=` and without a comma.
abbrev pub IsParam : Chars × Chars → Type 0
IsParam (k, v) =
    IsItem b'=' k × (has_char b',' k ≡ false) × IsItem b'=' v × (has_char b',' v ≡ false)

abbrev pub set_all : List (Chars × Chars) → Proxy → Proxy
set_all [] p = p
set_all (kv ∷ kvs) p = set_all kvs (set_param kv p)

-- An item of the list that is no parameter.
abbrev pub IsPlain : Chars → Type 0
IsPlain s = IsItem b',' s × (has_char b'=' s ≡ false)

has_char-append :
    (x : ℕ) (s t : Chars)
    → has_char x s ≡ false
    → has_char x t ≡ false
    → has_char x (s ++ t) ≡ false
unfolding has_char
has_char-append x [] t h k = k
has_char-append x (c ∷ s) t h k = ground (arith, has_char-append x s t)

param-IsItem : (kv : Chars × Chars) → IsParam kv → IsItem b',' (param_text kv)
unfolding has_char trim_end
param-IsItem ([], v) (i, h, j, l) = absurd i
param-IsItem (c ∷ k, []) (i, h, j, l) = absurd j
param-IsItem (c ∷ k, d ∷ v) ((starts, ends, h), no_comma, (starts', ends', h'), l) = (
  starts,
  trim_end-append (c ∷ k) b'=' (d ∷ v) (rw ends' refl),
  has_char-append b',' (c ∷ k) (b'=' ∷ d ∷ v) no_comma l,
)

key_value-param : (kv : Chars × Chars) → IsParam kv → key_value (param_text kv) ≡ some kv
unfolding key_value
key_value-param ([], v) (i, h, j, l) = absurd i
key_value-param (c ∷ k, []) (i, h, j, l) = absurd j
key_value-param (c ∷ k, d ∷ v) (i, no_comma, j, l) =
    rw
      (
        split-append b'=' (c ∷ k) (d ∷ v) i.2,
        split-none b'=' (d ∷ v) j.2,
        trim_item b'=' (c ∷ k) i,
        trim_item b'=' (d ∷ v) j,
      )
      refl

key_value-plain : (s : Chars) → has_char b'=' s ≡ false → key_value s ≡ none
unfolding key_value
key_value-plain s h = rw (split-none b'=' s h) refl

set_params-param :
    (kvs : List (Chars × Chars)) (p : Proxy)
    → All IsParam kvs
    → set_params (map param_text kvs) p ≡ set_all kvs p
unfolding set_params
set_params-param [] p h = refl
set_params-param (kv ∷ kvs) p (h, hs) =
    rw (set_params, key_value-param kv h) (set_params-param kvs (set_param kv p) hs)

params-IsItem :
    (kvs : List (Chars × Chars)) → All IsParam kvs → All (IsItem b',') (map param_text kvs)
params-IsItem [] h = tt
params-IsItem (kv ∷ kvs) (h, hs) = (param-IsItem kv h, params-IsItem kvs hs)

set_param-protocol : (kv : Chars × Chars) (p : Proxy) → (set_param kv p).protocol ≡ p.protocol
unfolding set_param
set_param-protocol (k, v) p = ground arith

set_all-protocol : (kvs : List (Chars × Chars)) (p : Proxy) → (set_all kvs p).protocol ≡ p.protocol
set_all-protocol [] p = refl
set_all-protocol (kv ∷ kvs) p = set_all-protocol kvs (set_param kv p) ∙ set_param-protocol kv p

-- `tag=protocol,address,port,key=value,…`
abbrev pub proxy_line : Chars → Chars → Chars → Chars → List (Chars × Chars) → Chars
proxy_line tag protocol address port kvs =
    tag ++ (b'=' ∷ join b',' (protocol ∷ address ∷ port ∷ map param_text kvs))

-- The protocols that need no address.
abbrev pub is_built_in : Chars → Bool
is_built_in protocol =
    text_eq protocol (codes "direct")
    || text_eq protocol (codes "drop")
    || text_eq protocol (codes "reject")

abbrev pub protocol_named : Chars → Chars
protocol_named protocol = if text_eq protocol (codes "ss") then codes "shadowsocks" else protocol

with_protocol_lem :
    (p : Proxy) (address port : Chars) (n : ℕ) (params : List Chars)
    → is_built_in p.protocol ≡ false
    → parse_u16 port ≡ some n
    → with_protocol p (address ∷ port ∷ params)
      ≡ some
          (record p { address = some address; port = some n; protocol = protocol_named p.protocol })
unfolding with_protocol
with_protocol_lem p address port n params h e =
    let not_direct : text_eq p.protocol (codes "direct") ≡ false = ground arith in
    let not_drop : text_eq p.protocol (codes "drop") ≡ false = ground arith in
    let not_reject : text_eq p.protocol (codes "reject") ≡ false = ground arith in
    rw (with_protocol, not_direct, not_drop, not_reject, e) refl

-- A line that names a tag, a protocol with an address, a port and parameters, each without white
-- space at its ends and without the signs that separate them, is read back: its keys set the
-- fields of a proxy that is at its defaults otherwise, the address and the port are kept, and `ss`
-- stands for `shadowsocks`.
pub proxy_of_lem :
    (tag protocol address port : Chars) (n : ℕ) (kvs : List (Chars × Chars))
    → IsItem b'=' tag
    → IsPlain protocol
    → IsPlain address
    → IsPlain port
    → All IsParam kvs
    → is_built_in protocol ≡ false
    → parse_u16 port ≡ some n
    → proxy_of (proxy_line tag protocol address port kvs)
      ≡ some (record (set_all kvs (record default_proxy { tag = tag; protocol = protocol })) {
        address = some address;
        port = some n;
        protocol = protocol_named protocol;
      })
unfolding proxy_of
proxy_of_lem [] protocol address port n kvs t i j k h b e = absurd t
proxy_of_lem (c ∷ tag) protocol address port n kvs t i j k h b e =
    let start : Proxy = record default_proxy { tag = c ∷ tag; protocol = protocol } in
    let same : (set_all kvs start).protocol ≡ protocol = set_all-protocol kvs start in
    let read : set_params (protocol ∷ address ∷ port ∷ map param_text kvs) start
        ≡ set_all kvs start =
      rw
        (
          set_params,
          key_value-plain protocol i.1,
          key_value-plain address j.1,
          key_value-plain port k.1,
        )
        (set_params-param kvs start h) in
    rw
      (
        split_once-append b'=' (c ∷ tag)
            (join b',' (protocol ∷ address ∷ port ∷ map param_text kvs)) t.2,
        trim_item b'=' (c ∷ tag) t,
        get_char_sep_slice-join b',' protocol (address ∷ port ∷ map param_text kvs)
            (i.0, (j.0, (k.0, params-IsItem kvs h))),
        read,
        with_protocol_lem (set_all kvs start) address port n (map param_text kvs)
            (ap is_built_in same ∙ b) e,
        same,
      )
      refl
