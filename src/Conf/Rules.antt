-- ===== src/Conf/Rules.antt =====
-- leaf/src/config/conf/config.rs and leaf/src/config/external_rule.rs: `to_internal`, the rules. The files
-- that hold lists of sites, the place of the program, and the tables of capital letters are
-- parameters.
use i_leaf.Prelude.{
  ℕ, suc, ◌+◌, List, [], ◌∷◌, ◌++◌, take, drop, get_elem?, Bool, if◌then◌else◌, Option, none, some,
  Outcome, ok, err, panic, ◌>>=◌,
}
use i_leaf.Prelude.Assoc.{lookup, insert}
use i_leaf.Prelude.Text.{codes, text_eq, text_beq, starts_with}
use i_leaf.Router.{DomainType, plain, domain, full, DomainRule, RoutingRule}
use i_leaf.HandlerManager.{Outbound}
use i_leaf.Conf.Texts.{Chars, split}
use i_leaf.Conf.Records.{Rule}
use i_leaf.Conf.Outbounds.{Converted}

pub data SiteType : Type 0 where
  site_plain site_regex site_domain site_full : SiteType

pub record Site : Type 0 where
  pub field_type : SiteType
  pub value : Chars

pub record SiteGroup : Type 0 where
  pub tag : Chars
  pub sites : List Site

abbrev pub SiteGroupLists : Type 0
SiteGroupLists = List (Chars × List SiteGroup)

-- `beside_exe` is the path of a file in the program's directory; it is `none` where `current_exe` or
-- `to_str` fails, which the code unwraps. `load` opens, reads and parses.
pub record External : Type 0 where
  pub is_absolute : Chars → Bool
  pub beside_exe : Chars → Option Chars
  pub load : Chars → Option (List SiteGroup)
  pub to_uppercase : Chars → Chars

abbrev type_of : SiteType → Option DomainType
type_of site_plain = some plain
type_of site_domain = some domain
type_of site_full = some full
type_of site_regex = none

abbrev onto : Option DomainType → Chars → List DomainRule → List DomainRule
onto none value ds = ds
onto (some t) value ds = record { field_type = t; value = value } ∷ ds

unfoldable pub site_rules : List Site → List DomainRule
site_rules [] = []
site_rules (s ∷ sites) = onto (type_of s.field_type) s.value (site_rules sites)

-- Of the groups with the code, the first.
unfoldable pub group_rules : Chars → List SiteGroup → List DomainRule
unfolding site_rules text_eq
group_rules code [] = []
group_rules code (g ∷ groups) =
    let rest = group_rules code groups in if text_eq g.tag code then site_rules g.sites else rest

-- The outbound that bears the tag, the last one if several do.
unfoldable pub last_index : Chars → ℕ → Option ℕ → List Outbound → Option ℕ
unfolding text_eq
last_index tag i idx [] = idx
last_index tag i idx (o ∷ os) =
    last_index tag (i + 1) (if text_eq o.tag tag then some i else idx) os

abbrev removed_to_front : ℕ → List Outbound → Option Outbound → List Outbound
removed_to_front i os none = os
removed_to_front i os (some o) = o ∷ (take i os ++ drop (suc i) os)

abbrev moved : Option ℕ → List Outbound → List Outbound
moved none os = os
moved (some i) os = removed_to_front i os (get_elem? os i)

-- `outbounds.remove(idx)` and `outbounds.insert(0, final_ob)`; the index is in range.
unfoldable pub make_final : Chars → List Outbound → List Outbound
unfolding last_index
make_final tag os = moved (last_index tag 0 none os) os

-- What the loop over the rules changes.
pub record Converting : Type 0 where
  pub outbounds : List Outbound
  pub site_group_lists : SiteGroupLists

-- The path and the code of a filter; an error is only printed.
abbrev pub Placed : Type 0 → Type 0
Placed A = Outcome (Unit {0}) A

unfoldable pub is_final : Rule → Bool
unfolding text_eq
is_final r = text_eq r.type_field (codes "FINAL")

module _ (x : External) where
  abbrev pub unwrapped : Option Chars → Placed Chars
  unwrapped none = panic
  unwrapped (some path) = ok path

  -- The path of a file that a filter names.
  abbrev pub placed : Chars → Placed Chars
  placed file = if x.is_absolute file then ok file else unwrapped (x.beside_exe file)

  abbrev pub file_and_code : Chars → List Chars → Placed (Chars × Chars)
  file_and_code default (kind ∷ file ∷ code ∷ []) = placed file >>= λ path. ok (path, code)
  file_and_code default (kind ∷ code ∷ []) =
      unwrapped (x.beside_exe default) >>= λ path. ok (path, code)
  file_and_code default parts = err tt

  unfoldable pub load_file_or_default : Chars → Chars → Placed (Chars × Chars)
  unfolding split
  load_file_or_default filter default = file_and_code default (split b':' filter)

  abbrev pub with_mmdb :
      Placed (Chars × Chars)
      → RoutingRule
      → SiteGroupLists
      → Converted (RoutingRule × SiteGroupLists)
  with_mmdb panic rule lists = panic
  with_mmdb (err e) rule lists = ok (rule, lists)
  with_mmdb (ok (file, code)) rule lists = ok (
    record rule { mmdbs = rule.mmdbs ++ (record { file = file; country_code = code } ∷ []) },
    lists,
  )

  abbrev with_groups : Chars → RoutingRule → List SiteGroup → RoutingRule
  with_groups code rule groups = record rule {
    domains = rule.domains ++ group_rules (x.to_uppercase code) groups;
  }

  abbrev loaded :
      Chars → Option (List SiteGroup) → SiteGroupLists → Option (List SiteGroup) × SiteGroupLists
  loaded file none lists = (none, lists)
  loaded file (some groups) lists = (some groups, insert file groups lists)

  -- The lists of a file, from the map or loaded and put into it.
  unfoldable pub site_groups : Chars → SiteGroupLists → Option (List SiteGroup) × SiteGroupLists
  unfolding lookup insert text_eq
  site_groups file lists = elim (lookup file lists) [
    | some groups ↦ (some groups, lists)
    | none ↦ loaded file (x.load file) lists
  ]

  abbrev with_found :
      Chars → RoutingRule → Option (List SiteGroup) × SiteGroupLists → RoutingRule × SiteGroupLists
  with_found code rule (none, lists) = (rule, lists)
  with_found code rule (some groups, lists) = (with_groups code rule groups, lists)

  abbrev pub with_sites :
      Placed (Chars × Chars)
      → RoutingRule
      → SiteGroupLists
      → Converted (RoutingRule × SiteGroupLists)
  with_sites panic rule lists = panic
  with_sites (err e) rule lists = ok (rule, lists)
  with_sites (ok (file, code)) rule lists = ok (with_found code rule (site_groups file lists))

  -- An error leaves the rule as it is, and is only printed.
  unfoldable pub add_external_rule :
      RoutingRule → Chars → SiteGroupLists → Converted (RoutingRule × SiteGroupLists)
  unfolding load_file_or_default site_groups group_rules starts_with
  add_external_rule rule filter lists =
      if starts_with (codes "mmdb") filter
      then with_mmdb (load_file_or_default filter (codes "geo.mmdb")) rule lists
      else if starts_with (codes "site") filter
      then with_sites (load_file_or_default filter (codes "site.dat")) rule lists
      else ok (rule, lists)

  abbrev empty_rule : Chars → RoutingRule
  empty_rule target = record { target_tag = target; domains = []; ip_cidrs = []; mmdbs = [] }

  abbrev domain_rule : Chars → DomainType → Chars → RoutingRule
  domain_rule target t value = record (empty_rule target) {
    domains = record { field_type = t; value = value } ∷ [];
  }

  abbrev pub country_rule :
      Chars → Chars → SiteGroupLists → Placed Chars → Converted (RoutingRule × SiteGroupLists)
  country_rule target filter lists (ok file) = ok (
    record (empty_rule target) { mmdbs = record { file = file; country_code = filter } ∷ [] },
    lists,
  )
  country_rule target filter lists e = panic

  -- The match on the type of a rule with a filter.
  unfoldable pub rule_with :
      Rule → Chars → SiteGroupLists → Converted (RoutingRule × SiteGroupLists)
  unfolding add_external_rule text_eq
  rule_with r filter lists =
      if text_eq r.type_field (codes "IP-CIDR")
      then ok (record (empty_rule r.target) { ip_cidrs = filter ∷ [] }, lists)
      else if text_eq r.type_field (codes "DOMAIN")
      then ok (domain_rule r.target full filter, lists)
      else if text_eq r.type_field (codes "DOMAIN-KEYWORD")
      then ok (domain_rule r.target plain filter, lists)
      else if text_eq r.type_field (codes "DOMAIN-SUFFIX")
      then ok (domain_rule r.target domain filter, lists)
      else if text_eq r.type_field (codes "GEOIP")
      then country_rule r.target filter lists (unwrapped (x.beside_exe (codes "geo.mmdb")))
      else if text_eq r.type_field (codes "EXTERNAL")
      then add_external_rule (empty_rule r.target) filter lists
      else ok (empty_rule r.target, lists)

  abbrev pub filtered :
      Rule → Option Chars → SiteGroupLists → Converted (List RoutingRule × SiteGroupLists)
  filtered r none lists = ok ([], lists)
  filtered r (some filter) lists = rule_with r filter lists >>= λ p. ok (p.0 ∷ [], p.1)

  -- One round of the loop over the rules.
  unfoldable pub convert_rule : Rule → Converting → Converted (List RoutingRule × Converting)
  unfolding make_final is_final rule_with
  convert_rule r c =
      if is_final r then ok ([], record c { outbounds = make_final r.target c.outbounds }) else (do
        p ← filtered r r.filter c.site_group_lists
        ok (p.0, record c { site_group_lists = p.1 }))

  unfoldable pub convert_rules : List Rule → Converting → Converted (List RoutingRule × Converting)
  unfolding convert_rule
  convert_rules [] c = ok ([], c)
  convert_rules (r ∷ rs) c = do
    first ← convert_rule r c
    rest ← convert_rules rs first.1
    ok (first.0 ++ rest.0, rest.1)
