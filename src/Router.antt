-- ===== src/Router.antt =====
-- leaf/src/app/router.rs: conditions on a session, rules, and the choice of a route.
-- CIDR blocks (`cidr`), country databases (`maxminddb`) and the Unicode tables behind
-- `to_lowercase` are parameters; the trait objects of the source are one data type.
pub mod Suffix
pub mod Route
mod Tests
use i_leaf.Prelude.{
  ℕ, List, [], ◌∷◌, ◌++◌, length, Option, none, some, Bool, true, false, ◌&&◌, ◌||◌, not, ltb, ◌==◌,
  if◌then◌else◌,
}
use i_leaf.Prelude.Assoc.{lookup, insert}
use i_leaf.Prelude.Text.{contains, text_eq, text_beq}
use i_leaf.Session.{IpAddr, SocksAddr, Session, is_domain, domain_of, ip_of}
use mathlib.Core.List.{reverse}

-- `text.split('.')`: at least one part, the parts between the dots.
abbrev pub dot : ℕ
dot = b'.'

abbrev pub extend_first : ℕ → List (List ℕ) → List (List ℕ)
extend_first c [] = (c ∷ []) ∷ []
extend_first c (p ∷ ps) = (c ∷ p) ∷ ps

unfoldable pub split : List ℕ → List (List ℕ)
split [] = [] ∷ []
split (c ∷ s) = if c == dot then [] ∷ split s else extend_first c (split s)

-- The loop over the parts of `d2`; behind the length test the index is in range.
unfoldable pub parts_match : List (List ℕ) → List (List ℕ) → Bool
parts_match ps [] = true
parts_match [] (v ∷ vs) = false
parts_match (p ∷ ps) (v ∷ vs) = if not (text_eq p v) then false else parts_match ps vs

unfoldable pub is_sub_domain : List ℕ → List ℕ → Bool
is_sub_domain d1 d2 =
    let d1_parts = reverse (split d1) in
    let d2_parts = reverse (split d2) in
    if ltb (length d1_parts) (length d2_parts) then false else parts_match d1_parts d2_parts

pub data DomainType : Type 0 where
  plain domain full : DomainType

-- `RoutingRule` of the configuration.
pub record DomainRule : Type 0 where
  pub field_type : DomainType
  pub value : List ℕ

pub record Mmdb : Type 0 where
  pub file : List ℕ
  pub country_code : List ℕ

pub record RoutingRule : Type 0 where
  pub target_tag : List ℕ
  pub domains : List DomainRule
  pub ip_cidrs : List (List ℕ)
  pub mmdbs : List Mmdb

-- The packages that the conditions call. `country` is the ISO code of an address, where the
-- lookup succeeds and has one.
pub record External : Type 1 where
  pub Cidr : Type 0
  pub Reader : Type 0
  pub parse_cidr : List ℕ → Option Cidr
  pub cidr_contains : Cidr → IpAddr → Bool
  pub open_mmap : List ℕ → Option Reader
  pub country : Reader → IpAddr → Option (List ℕ)
  pub to_lowercase : List ℕ → List ℕ

mutual
  pub data Condition (Cidr Reader : Type 0) : Type 0 where
    mmdb_matcher : Reader → List ℕ → Condition Cidr Reader
    ip_cidr_matcher : List Cidr → Condition Cidr Reader
    keyword_matcher : List ℕ → Condition Cidr Reader
    suffix_matcher : List ℕ → Condition Cidr Reader
    full_matcher : List ℕ → Condition Cidr Reader
    condition_and : Conditions Cidr Reader → Condition Cidr Reader
    condition_or : Conditions Cidr Reader → Condition Cidr Reader

  pub data Conditions (Cidr Reader : Type 0) : Type 0 where
    nil : Conditions Cidr Reader
    cons : Condition Cidr Reader → Conditions Cidr Reader → Conditions Cidr Reader

module _ (x : External) where
  open x use {Cidr, Reader, parse_cidr, cidr_contains, open_mmap, country, to_lowercase}

  abbrev pub Cond : Type 0
  Cond = Condition Cidr Reader

  abbrev pub Conds : Type 0
  Conds = Conditions Cidr Reader

  -- The leaves: each looks at the domain or at the address of the destination.
  unfoldable pub apply_mmdb : Reader → List ℕ → SocksAddr → Bool
  apply_mmdb reader code dest = not (is_domain dest) && elim (ip_of dest) [
    | none ↦ false
    | some ip ↦ elim (country reader ip) [
      | none ↦ false
      | some iso_code ↦ text_eq (to_lowercase iso_code) (to_lowercase code)
    ]
  ]

  any_contains : List Cidr → IpAddr → Bool
  any_contains [] ip = false
  any_contains (c ∷ cs) ip = cidr_contains c ip || any_contains cs ip

  unfoldable pub apply_cidrs : List Cidr → SocksAddr → Bool
  unfolding any_contains
  apply_cidrs cidrs dest =
      not (is_domain dest) && elim (ip_of dest) [ none ↦ false | some ip ↦ any_contains cidrs ip ]

abbrev on_domain : (List ℕ → Bool) → SocksAddr → Bool
on_domain test dest =
    is_domain dest && elim (domain_of dest) [ none ↦ false | some name ↦ test name ]

unfoldable pub apply_keyword : List ℕ → SocksAddr → Bool
apply_keyword value = on_domain (λ name. contains name value)

unfoldable pub apply_suffix : List ℕ → SocksAddr → Bool
apply_suffix value = on_domain (λ name. is_sub_domain name value)

unfoldable pub apply_full : List ℕ → SocksAddr → Bool
apply_full value = on_domain (λ name. text_eq name value)

module _ (x : External) where
  unfoldable mutual
    pub apply : Condition x.Cidr x.Reader → SocksAddr → Bool
    apply (mmdb_matcher reader code) dest = apply_mmdb x reader code dest
    apply (ip_cidr_matcher values) dest = apply_cidrs x values dest
    apply (keyword_matcher value) dest = apply_keyword value dest
    apply (suffix_matcher value) dest = apply_suffix value dest
    apply (full_matcher value) dest = apply_full value dest
    apply (condition_and cs) dest = apply_and cs dest
    apply (condition_or cs) dest = apply_or cs dest

    pub apply_and : Conditions x.Cidr x.Reader → SocksAddr → Bool
    apply_and nil dest = true
    apply_and (cons c cs) dest = if not (apply c dest) then false else apply_and cs dest

    pub apply_or : Conditions x.Cidr x.Reader → SocksAddr → Bool
    apply_or nil dest = false
    apply_or (cons c cs) dest = if apply c dest then true else apply_or cs dest

pub record Rule (x : External) : Type 0 where
  pub target : List ℕ
  pub condition : Condition x.Cidr x.Reader

pub record Router (x : External) : Type 0 where
  pub rules : List (Rule x)

module _ (x : External) where
  open x use {Cidr, Reader, parse_cidr, open_mmap}

  -- `IpCidrMatcher::new` keeps the texts that parse.
  unfoldable pub parse_cidrs : List (List ℕ) → List Cidr
  parse_cidrs [] = []
  parse_cidrs (ip ∷ ips) = elim (parse_cidr ip) [
    | none ↦ parse_cidrs ips
    | some cidr ↦ cidr ∷ parse_cidrs ips
  ]

  unfoldable pub domain_condition : DomainRule → Condition Cidr Reader
  domain_condition d = elim d.field_type [
    | plain ↦ keyword_matcher d.value
    | domain ↦ suffix_matcher d.value
    | full ↦ full_matcher d.value
  ]

  unfoldable pub domain_conditions : List DomainRule → Conditions Cidr Reader
  domain_conditions [] = nil
  domain_conditions (d ∷ ds) = cons (domain_condition d) (domain_conditions ds)

  abbrev pub Cache : Type 0
  Cache = List (List ℕ × Reader)

  -- The reader of a file, from the map or opened and put into it.
  unfoldable pub reader_of : List ℕ → Cache → Option Reader × Cache
  reader_of file cache = elim (lookup file cache) [
    | some r ↦ (some r, cache)
    | none ↦ elim (open_mmap file) [ some r ↦ (some r, insert file r cache) | none ↦ (none, cache) ]
  ]

  unfoldable pub add_mmdb : Mmdb → Option Reader → Conditions Cidr Reader → Conditions Cidr Reader
  add_mmdb m none cs = cs
  add_mmdb m (some r) cs = cons (mmdb_matcher r m.country_code) cs

  -- The conditions of the databases in order, and the map; a file that cannot be opened is
  -- passed over.
  unfoldable pub mmdb_conditions : List Mmdb → Cache → Conditions Cidr Reader × Cache
  mmdb_conditions [] cache = (nil, cache)
  mmdb_conditions (m ∷ ms) cache =
      let found = reader_of m.file cache in
      let rest = mmdb_conditions ms found.1 in (add_mmdb m found.0 rest.0, rest.1)

  unfoldable pub add_domains : List DomainRule → Conditions Cidr Reader → Conditions Cidr Reader
  add_domains [] cs = cs
  add_domains (d ∷ ds) cs = cons (condition_or (domain_conditions (d ∷ ds))) cs

  unfoldable pub add_cidrs : List (List ℕ) → Conditions Cidr Reader → Conditions Cidr Reader
  add_cidrs [] cs = cs
  add_cidrs (ip ∷ ips) cs = cons (ip_cidr_matcher (parse_cidrs (ip ∷ ips))) cs

  unfoldable pub conditions_of : RoutingRule → Cache → Conditions Cidr Reader × Cache
  conditions_of rr cache =
      let (dbs, cache') = mmdb_conditions rr.mmdbs cache in
      (add_domains rr.domains (add_cidrs rr.ip_cidrs dbs), cache')

  -- A rule without conditions is dropped.
  unfoldable pub push_rule : List ℕ → Conditions Cidr Reader → List (Rule x) → List (Rule x)
  push_rule tag nil rules = rules
  push_rule tag (cons c cs) rules =
      record { target = tag; condition = condition_and (cons c cs) } ∷ rules

  unfoldable pub new_rules : List RoutingRule → Cache → List (Rule x)
  new_rules [] cache = []
  new_rules (rr ∷ rrs) cache =
      let built = conditions_of rr cache in push_rule rr.target_tag built.0 (new_rules rrs built.1)

  unfoldable pub new : List RoutingRule → Router x
  new routing_rules = record { rules = new_rules routing_rules [] }

  unfoldable pub first_match : List (Rule x) → SocksAddr → Option (List ℕ)
  first_match [] dest = none
  first_match (rule ∷ rules) dest =
      if apply x rule.condition dest then some rule.target else first_match rules dest

  unfoldable pub pick_route : Router x → Session → Option (List ℕ)
  pick_route r sess = first_match r.rules sess.destination
