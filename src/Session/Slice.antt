-- ===== src/Session/Slice.antt =====
-- leaf/src/session.rs: `TryFrom<(&[u8], SocksAddrWireType)>`, the parser of a byte slice.
use i_leaf.Prelude.{
  ℕ, ◌+◌, ◌-◌, List, [], ◌∷◌, length, take, drop, get_elem?, none, some, Outcome, ok, err, panic,
  ◌>>=◌, ◌&&◌, leb, ltb, ◌==◌, if◌then◌else◌,
}
use i_leaf.Prelude.Bytes.{of_be}
use i_leaf.Prelude.Text.{is_utf8}
use i_leaf.Session.Defs.{
  IpAddr, SocksAddr, domain_addr, v4, v6, of_ip, WireType, port_first, port_last, last_v4, last_v6,
  last_domain, first_v4, first_v6, first_domain,
}

-- The messages of `Err`.
pub data ParseError : Type 0 where
  insufficient_bytes invalid_domain invalid_address_type : ParseError

abbrev pub Parse : Type 0 → Type 0
Parse A = Outcome ParseError A

-- `buf[i]`.
abbrev pub index : ℕ → List ℕ → Parse ℕ
index i buf = elim (get_elem? buf i) [ none ↦ panic | some b ↦ ok b ]

-- `buf[from..to]`, and `buf[from..]` below.
abbrev pub slice : ℕ → ℕ → List ℕ → Parse (List ℕ)
slice from to buf =
    if leb to (length buf) && leb from to then ok (take (to - from) (drop from buf)) else panic

abbrev pub slice_from : ℕ → List ℕ → Parse (List ℕ)
slice_from from buf = if leb from (length buf) then ok (drop from buf) else panic

abbrev pub from_utf8 : List ℕ → Parse (List ℕ)
from_utf8 bs = if is_utf8 bs then ok bs else err invalid_domain

-- The arms of `PortLast`, on the whole slice.
unfoldable pub parse_last_ip : (ℕ → IpAddr) → ℕ → List ℕ → Parse SocksAddr
parse_last_ip make width buf =
    let parsed = (do
      ip_bytes ← slice 1 (1 + width) buf
      port_bytes ← slice (1 + width) (1 + width + 2) buf
      ok (of_ip (make (of_be ip_bytes)) (of_be port_bytes))) in
    if ltb (length buf) (1 + width + 2) then err insufficient_bytes else parsed

unfoldable pub parse_last_domain : List ℕ → Parse SocksAddr
parse_last_domain buf = if length buf == 0 then err insufficient_bytes else (do
  domain_len ← index 1 buf
  if ltb (length buf) (1 + domain_len + 2) then err insufficient_bytes else (do
    name ← slice 2 (domain_len + 2) buf
    domain ← from_utf8 name
    port_bytes ← slice (domain_len + 2) (domain_len + 4) buf
    ok (domain_addr domain (of_be port_bytes))))

-- The arms of `PortFirst`, which cut the slice down step by step.
unfoldable pub parse_first_ip : (ℕ → IpAddr) → ℕ → List ℕ → Parse SocksAddr
parse_first_ip make width whole = do
  buf ← slice_from 1 whole
  if ltb (length buf) (width + 2) then err insufficient_bytes else (do
    port_bytes ← slice 0 2 buf
    rest ← slice_from 2 buf
    ip_bytes ← slice 0 width rest
    ok (of_ip (make (of_be ip_bytes)) (of_be port_bytes)))

unfoldable pub parse_first_domain : List ℕ → Parse SocksAddr
parse_first_domain whole = do
  buf ← slice_from 1 whole
  if ltb (length buf) 3 then err insufficient_bytes else (do
    port_bytes ← slice 0 2 buf
    buf2 ← slice_from 2 buf
    domain_len ← index 0 buf2
    buf3 ← slice_from 1 buf2
    if ltb (length buf3) domain_len then err insufficient_bytes else (do
      name ← slice 0 domain_len buf3
      domain ← from_utf8 name
      ok (domain_addr domain (of_be port_bytes))))

unfoldable pub try_from : List ℕ → WireType → Parse SocksAddr
try_from [] t = err insufficient_bytes
try_from (t ∷ bs) port_last =
    if t == last_v4
    then parse_last_ip v4 4 (t ∷ bs)
    else if t == last_v6
    then parse_last_ip v6 16 (t ∷ bs)
    else if t == last_domain
    then parse_last_domain (t ∷ bs)
    else err invalid_address_type
try_from (t ∷ bs) port_first =
    if t == first_v4
    then parse_first_ip v4 4 (t ∷ bs)
    else if t == first_v6
    then parse_first_ip v6 16 (t ∷ bs)
    else if t == first_domain
    then parse_first_domain (t ∷ bs)
    else err invalid_address_type
