-- ===== src/Router/Route.antt =====
-- leaf/src/app/router.rs: `Router::new` and `pick_route` against the configuration.
use i_leaf.Prelude.{
  ℕ, ◌≡◌, ◌≢◌, refl, sym, ap, ◌∙◌, List, [], ◌∷◌, Option, none, some, Bool, true, false, ◌&&◌, ◌||◌,
  not, if◌then◌else◌, arith, Bool-cases, Option-cases, inl, inr,
}
use i_leaf.Prelude.Assoc.{lookup, insert, lookup-insert}
use i_leaf.Prelude.Text.{text_eq, text_eq_iff, text_beq}
use i_leaf.Session.{SocketAddr, SocksAddr, ip_addr, domain_addr, Session, is_domain}
use i_leaf.Router.{
  External, Conditions, nil, cons, DomainRule, plain, domain, full, Mmdb, RoutingRule, Rule, apply,
  apply_and, apply_or, apply_mmdb, apply_cidrs, apply_keyword, apply_suffix, apply_full,
  parse_cidrs, domain_condition, domain_conditions, Cache, reader_of, add_mmdb, mmdb_conditions,
  add_domains, add_cidrs, conditions_of, push_rule, new_rules, new, first_match, pick_route,
}

-- The meaning of a rule, without conditions as objects and without the map of readers.
abbrev pub domain_hits : DomainRule → SocksAddr → Bool
domain_hits d dest = elim d.field_type [
  | plain ↦ apply_keyword d.value dest
  | domain ↦ apply_suffix d.value dest
  | full ↦ apply_full d.value dest
]

abbrev pub any_domain : List DomainRule → SocksAddr → Bool
any_domain [] dest = false
any_domain (d ∷ ds) dest = domain_hits d dest || any_domain ds dest

-- An empty list of domains does not restrict.
abbrev pub domains_allow : List DomainRule → SocksAddr → Bool
domains_allow [] dest = true
domains_allow (d ∷ ds) dest = any_domain (d ∷ ds) dest

abbrev is_nil : {C R : Type 0} → Conditions C R → Bool
is_nil nil = true
is_nil (cons c cs) = false

module _ (x : External) where
  abbrev pub cidrs_allow : List (List ℕ) → SocksAddr → Bool
  cidrs_allow [] dest = true
  cidrs_allow (ip ∷ ips) dest = apply_cidrs x (parse_cidrs x (ip ∷ ips)) dest

  -- A database that cannot be opened does not restrict.
  abbrev pub mmdb_allows : Option x.Reader → Mmdb → SocksAddr → Bool
  mmdb_allows none m dest = true
  mmdb_allows (some r) m dest = apply_mmdb x r m.country_code dest

  abbrev pub mmdbs_allow : List Mmdb → SocksAddr → Bool
  mmdbs_allow [] dest = true
  mmdbs_allow (m ∷ ms) dest = mmdb_allows (x.open_mmap m.file) m dest && mmdbs_allow ms dest

  abbrev pub opens : Option x.Reader → Bool
  opens none = false
  opens (some r) = true

  abbrev pub some_open : List Mmdb → Bool
  some_open [] = false
  some_open (m ∷ ms) = opens (x.open_mmap m.file) || some_open ms

  -- Whether anything restricts the rule.
  abbrev pub restricts : List DomainRule → List (List ℕ) → List Mmdb → Bool
  restricts (d ∷ ds) ips ms = true
  restricts [] (ip ∷ ips) ms = true
  restricts [] [] ms = some_open ms

  abbrev pub rule_matches : RoutingRule → SocksAddr → Bool
  rule_matches rr dest =
      restricts rr.domains rr.ip_cidrs rr.mmdbs
      && (domains_allow rr.domains dest
          && (cidrs_allow rr.ip_cidrs dest && mmdbs_allow rr.mmdbs dest))

  abbrev pub spec_route : List RoutingRule → SocksAddr → Option (List ℕ)
  spec_route [] dest = none
  spec_route (rr ∷ rrs) dest =
      if rule_matches rr dest then some rr.target_tag else spec_route rrs dest

  -- Every reader in the map is that of its file.
  Faithful : Cache x → Type 0
  Faithful cache =
      (file : List ℕ) (r : x.Reader) → lookup file cache ≡ some r → x.open_mmap file ≡ some r

  insert-Faithful :
      (file : List ℕ) (r : x.Reader) (cache : Cache x)
      → Faithful cache
      → x.open_mmap file ≡ some r
      → Faithful (insert file r cache)
  unfolding Faithful
  insert-Faithful file r cache f o other q h = elim (Bool-cases (text_eq file other)) [
    | inl s ↦
        let same : file ≡ other = (text_eq_iff file other).0 s in
        let found : some r ≡ some q = rw (lookup-insert file other r cache, s) at h in
        rw (← same) (o ∙ found)
    | inr d ↦ f other q (rw (lookup-insert file other r cache, d) at h)
  ]

  reader_of_opens :
      (file : List ℕ) (cache : Cache x)
      → Faithful cache
      → ((reader_of x file cache).0 ≡ x.open_mmap file) × Faithful (reader_of x file cache).1
  unfolding reader_of Faithful
  reader_of_opens file cache f = elim (Option-cases (lookup file cache)) [
    | inr (r, e) ↦ rw (e, reader_of) (sym (f file r e), f)
    | inl e ↦ elim (Option-cases (x.open_mmap file)) [
      | inl o ↦ rw (e, o, reader_of) (refl, f)
      | inr (r, o) ↦ rw (e, o, reader_of) (refl, insert-Faithful file r cache f o)
    ]
  ]

  add_mmdb_lem :
      (m : Mmdb) (found : Option x.Reader) (cs : Conditions x.Cidr x.Reader) (dest : SocksAddr)
      (b n : Bool)
      → apply_and x cs dest ≡ b
      → is_nil cs ≡ not n
      → (apply_and x (add_mmdb x m found cs) dest ≡ (mmdb_allows found m dest && b))
        × (is_nil (add_mmdb x m found cs) ≡ not (opens found || n))
  unfolding add_mmdb apply
  add_mmdb_lem m none cs dest b n h k = (h, k)
  add_mmdb_lem m (some r) cs dest b n h k = (ground arith, refl)

  -- The conditions of the databases hold where the databases allow the destination, and there
  -- are some where one opens.
  mmdb_conditions_lem :
      (ms : List Mmdb) (cache : Cache x) (dest : SocksAddr)
      → Faithful cache
      → (apply_and x (mmdb_conditions x ms cache).0 dest ≡ mmdbs_allow ms dest)
        × (is_nil (mmdb_conditions x ms cache).0 ≡ not (some_open ms))
        × Faithful (mmdb_conditions x ms cache).1
  unfolding mmdb_conditions add_mmdb apply
  mmdb_conditions_lem [] cache dest f = (refl, refl, f)
  mmdb_conditions_lem (m ∷ ms) cache dest f =
      let (o, g) = reader_of_opens m.file cache f in
      let (h, k, l) = mmdb_conditions_lem ms (reader_of x m.file cache).1 dest g in
      let here =
        add_mmdb_lem m (reader_of x m.file cache).0
          (mmdb_conditions x ms (reader_of x m.file cache).1).0 dest (mmdbs_allow ms dest)
          (some_open ms) h k in
      (
        here.0 ∙ ap (λ (r : Option x.Reader). mmdb_allows r m dest && mmdbs_allow ms dest) o,
        here.1 ∙ ap (λ (r : Option x.Reader). not (opens r || some_open ms)) o,
        l,
      )

  domain_conditions_lem :
      (ds : List DomainRule) (dest : SocksAddr)
      → apply_or x (domain_conditions x ds) dest ≡ any_domain ds dest
  unfolding domain_conditions domain_condition apply
  domain_conditions_lem [] dest = refl
  domain_conditions_lem (d ∷ ds) dest = ground (arith, domain_conditions_lem ds dest)

  push_rule_lem :
      (tag : List ℕ) (cs : Conditions x.Cidr x.Reader) (rules : List (Rule x)) (dest : SocksAddr)
      → first_match x (push_rule x tag cs rules) dest
        ≡ (if not (is_nil cs) && apply_and x cs dest then some tag else first_match x rules dest)
  unfolding push_rule first_match apply
  push_rule_lem tag nil rules dest = refl
  push_rule_lem tag (cons c cs) rules dest = refl

  add_all_lem :
      (ds : List DomainRule) (ips : List (List ℕ)) (ms : List Mmdb)
      (cs : Conditions x.Cidr x.Reader) (dest : SocksAddr)
      → apply_and x cs dest ≡ mmdbs_allow ms dest
      → is_nil cs ≡ not (some_open ms)
      → (not (is_nil (add_domains x ds (add_cidrs x ips cs)))
          && apply_and x (add_domains x ds (add_cidrs x ips cs)) dest)
        ≡ (restricts ds ips ms
            && (domains_allow ds dest && (cidrs_allow ips dest && mmdbs_allow ms dest)))
  unfolding add_domains add_cidrs apply
  add_all_lem [] [] ms cs dest h k = ground arith
  add_all_lem [] (ip ∷ ips) ms cs dest h k = ground arith
  add_all_lem (d ∷ ds) [] ms cs dest h k = ground (arith, domain_conditions_lem (d ∷ ds) dest)
  add_all_lem (d ∷ ds) (ip ∷ ips) ms cs dest h k =
      ground (arith, domain_conditions_lem (d ∷ ds) dest)

  new_rules_lem :
      (rrs : List RoutingRule) (cache : Cache x) (dest : SocksAddr)
      → Faithful cache
      → first_match x (new_rules x rrs cache) dest ≡ spec_route rrs dest
  unfolding new_rules conditions_of
  new_rules_lem [] cache dest f = unfold first_match in refl
  new_rules_lem (rr ∷ rrs) cache dest f =
      let (h, k, l) = mmdb_conditions_lem rr.mmdbs cache dest f in
      let built = mmdb_conditions x rr.mmdbs cache in
      rw
        (
          push_rule_lem rr.target_tag (add_domains x rr.domains (add_cidrs x rr.ip_cidrs built.0))
              (new_rules x rrs built.1) dest,
          add_all_lem rr.domains rr.ip_cidrs rr.mmdbs built.0 dest h k,
          new_rules_lem rrs built.1 dest l,
        )
        refl

  -- The route of a session is the target of the first rule of the configuration that matches it. A
  -- rule matches if it restricts at all, one of its domains, if it has any, matches the destination,
  -- one of its address blocks, if it has any, holds it, and all of its countries, as far as their
  -- databases open, hold it at once.
  pub pick_route-new :
      (rrs : List RoutingRule) (s : Session)
      → pick_route x (new x rrs) s ≡ spec_route rrs s.destination
  unfolding pick_route new Faithful
  pick_route-new rrs s = new_rules_lem rrs [] s.destination (λ file r h. unfold lookup in cc)

  no_domain : (ds : List DomainRule) (a : SocketAddr) → any_domain ds (ip_addr a) ≡ false
  unfolding apply_keyword apply_suffix apply_full is_domain
  no_domain [] a = refl
  no_domain (d ∷ ds) a = ground (arith, no_domain ds a)

  never_both :
      (ds : List DomainRule) (ips : List (List ℕ)) (dest : SocksAddr) (m : Bool)
      → ds ≢ []
      → ips ≢ []
      → (domains_allow ds dest && (cidrs_allow ips dest && m)) ≡ false
  unfolding apply_cidrs is_domain
  never_both [] ips dest m h k = absurd (h refl)
  never_both (d ∷ ds) [] dest m h k = absurd (k refl)
  never_both (d ∷ ds) (ip ∷ ips) (ip_addr a) m h k = rw (no_domain (d ∷ ds) a) refl
  never_both (d ∷ ds) (ip ∷ ips) (domain_addr name port) m h k = ground arith

  -- A rule with both domains and CIDR blocks never matches: a destination is a name or an
  -- address, and it is the router without the rule.
  pick_route_both :
      (rr : RoutingRule) (rrs : List RoutingRule) (s : Session)
      → rr.domains ≢ []
      → rr.ip_cidrs ≢ []
      → pick_route x (new x (rr ∷ rrs)) s ≡ pick_route x (new x rrs) s
  pick_route_both rr rrs s h k =
      let never =
        never_both rr.domains rr.ip_cidrs s.destination (mmdbs_allow rr.mmdbs s.destination) h k in
      pick_route-new (rr ∷ rrs) s ∙ ground arith ∙ sym (pick_route-new rrs s)
