-- ===== src/FakeDns.antt =====
-- leaf/src/common/fake_dns.rs: addresses that stand for domain names.
-- DNS messages are parsed and printed by another package: `Message::from_vec` and `to_vec` are
-- parameters, and `Message` holds what the getters and setters of that package give and take.
pub mod Pool
pub mod Reply
mod Tests
use i_leaf.Prelude.{
  ℕ, suc, ◌+◌, ◌-◌, ◌%◌, ◌^◌, List, [], ◌∷◌, length, take, ◌++◌, Option, none, some, Bool, true,
  false, ◌&&◌, ◌||◌, not, leb, ltb, ◌==◌, if◌then◌else◌, Outcome, ok, err, panic, ◌>>=◌,
}
use i_leaf.Prelude.Bytes.{to_be, of_be}
use i_leaf.Prelude.Assoc.{lookup, insert, nat_eq}
use i_leaf.Prelude.Text.{contains, text_eq, codes}
use i_leaf.Session.{IpAddr, v4, v6}

pub record FakeDns : Type 0 where
  pub names : List (ℕ × List ℕ)
  pub cursor : ℕ
  pub min_cursor : ℕ
  pub max_cursor : ℕ
  pub ttl : ℕ
  pub exclude_domains : List (List ℕ)

-- An IPv4 address is its number, so `Ipv4Addr::from` is the identity here.
unfoldable pub u32_to_ip : ℕ → ℕ
u32_to_ip n = n

unfoldable pub ip_to_u32 : ℕ → ℕ
ip_to_u32 ip = of_be (to_be 4 ip)

-- `Ipv4Addr::new(a, b, c, d)`.
abbrev pub ipv4 : ℕ → ℕ → ℕ → ℕ → ℕ
ipv4 a b c d = of_be (a ∷ b ∷ c ∷ d ∷ [])

unfoldable pub init : FakeDns
unfolding ip_to_u32
init =
    let low = ip_to_u32 (ipv4 173 255 0 0) in
    let high = ip_to_u32 (ipv4 173 255 4 255) in
    record {
      names = [];
      cursor = low;
      min_cursor = low;
      max_cursor = high;
      ttl = 1;
      exclude_domains = [];
    }

unfoldable pub exclude : FakeDns → List ℕ → FakeDns
exclude f domain = record f { exclude_domains = f.exclude_domains ++ (domain ∷ []) }

-- `cursor += 1` on a u32.
unfoldable pub allocate_ip : FakeDns → List ℕ → FakeDns × ℕ
unfolding u32_to_ip
allocate_ip f domain =
    let next = (f.cursor + 1) % 2 ^ 32 in
    (
      record f {
        names = insert f.cursor domain f.names;
        cursor = if ltb f.max_cursor next then f.min_cursor else next;
      },
      u32_to_ip f.cursor,
    )

unfoldable pub query_domain : FakeDns → IpAddr → Option (List ℕ)
unfolding ip_to_u32
query_domain f (v4 ip) = lookup (ip_to_u32 ip) f.names
query_domain f (v6 ip) = none

unfoldable pub is_fake_ip : FakeDns → IpAddr → Bool
unfolding ip_to_u32
is_fake_ip f (v4 ip) = leb f.min_cursor (ip_to_u32 ip) && leb (ip_to_u32 ip) f.max_cursor
is_fake_ip f (v6 ip) = false

pub record Name : Type 0 where
  pub is_fqdn : Bool
  pub ascii : List ℕ

-- Classes, types and codes by their numbers in the protocol.
pub record Query : Type 0 where
  pub name : Name
  pub class : ℕ
  pub type : ℕ

pub record Answer : Type 0 where
  pub name : Name
  pub type : ℕ
  pub ttl : ℕ
  pub class : ℕ
  pub rdata : ℕ

pub record Message : Type 0 where
  pub id : ℕ
  pub is_response : Bool
  pub op_code : ℕ
  pub recursion_desired : Bool
  pub checking_disabled : Bool
  pub response_code : ℕ
  pub queries : List Query
  pub answers : List Answer

-- `DNSClass::IN`, `RecordType::A`, `AAAA` and `Unknown(65)`, `OpCode::Query`.
abbrev pub class_in : ℕ
class_in = 1

abbrev pub type_a : ℕ
type_a = 1

abbrev pub type_aaaa : ℕ
type_aaaa = 28

abbrev pub type_https : ℕ
type_https = 65

abbrev pub op_query : ℕ
op_query = 0

pub data FakeError : Type 0 where
  parse_failed no_queries unsupported_class unsupported_type excluded print_failed : FakeError

-- A name with a final dot loses it: `fqdn[..fqdn.len() - 1]`.
unfoldable pub domain_of_name : Name → Outcome FakeError (List ℕ)
domain_of_name n =
    if n.is_fqdn
    then (if length n.ascii == 0 then panic else ok (take (length n.ascii - 1) n.ascii))
    else ok n.ascii

unfoldable pub is_excluded : List (List ℕ) → List ℕ → Bool
is_excluded [] domain = false
is_excluded (ex ∷ rest) domain =
    (contains domain ex || text_eq ex (codes "*")) || is_excluded rest domain

-- The message that `Message::new()` and the setters make.
unfoldable pub response_to : FakeDns → Message → Query → ℕ → Message
response_to f req query ip = record {
  id = req.id;
  is_response = true;
  op_code = req.op_code;
  recursion_desired = req.op_code == op_query && req.recursion_desired;
  checking_disabled = req.op_code == op_query && req.checking_disabled;
  response_code = 0;
  queries = query ∷ [];
  answers =
      if query.type == type_a
      then record { name = query.name; type = type_a; ttl = f.ttl; class = class_in; rdata = ip }
        ∷ []
      else [];
}

-- The checks of the first query, up to the name that is to be resolved.
unfoldable pub check_query : FakeDns → Query → Outcome FakeError (Query × List ℕ)
check_query f query =
    if not (query.class == class_in)
    then err unsupported_class
    else if not ((query.type == type_a || query.type == type_aaaa) || query.type == type_https)
    then err unsupported_type
    else (do
      domain ← domain_of_name query.name
      if is_excluded f.exclude_domains domain then err excluded else ok (query, domain))

unfoldable pub requested : FakeDns → List Query → Outcome FakeError (Query × List ℕ)
requested f [] = err no_queries
requested f (query ∷ more) = check_query f query

module _ (from_vec : List ℕ → Option Message) (to_vec : Message → Option (List ℕ)) where
  print : Message → Outcome FakeError (List ℕ)
  print m = elim (to_vec m) [ none ↦ err print_failed | some bytes ↦ ok bytes ]

  answer :
      FakeDns → Message → Outcome FakeError (Query × List ℕ) → FakeDns × Outcome FakeError (List ℕ)
  unfolding print
  answer f req (err e) = (f, err e)
  answer f req panic = (f, panic)
  answer f req (ok (query, domain)) =
      let (f', ip) = allocate_ip f domain in (f', print (response_to f' req query ip))

  unfoldable pub generate_fake_response : FakeDns → List ℕ → FakeDns × Outcome FakeError (List ℕ)
  unfolding answer
  generate_fake_response f request = elim (from_vec request) [
    | none ↦ (f, err parse_failed)
    | some req ↦ answer f req (requested f req.queries)
  ]
