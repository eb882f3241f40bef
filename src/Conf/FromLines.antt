-- ===== src/Conf/FromLines.antt =====
-- leaf/src/config/conf/config.rs: the groups, the rules, and the whole of `from_lines`.
use i_leaf.Prelude.{List, [], ◌∷◌, Bool, false, ◌||◌, if◌then◌else◌, Option, none, some}
use i_leaf.Prelude.Text.{codes, text_eq}
use i_leaf.Conf.Texts.{Chars, trim, split_once, has_char, parse_i32}
use i_leaf.Conf.Lines.{get_lines_by_section, get_char_sep_slice, push_line}
use i_leaf.Conf.Records.{ProxyGroup, Rule, Config, default_general, default_group}
use i_leaf.Conf.Sections.{is_true, key_value, general_from, proxy_of}

-- The parameters without a `=`, trimmed; those that are not empty.
unfoldable pub actors_in : List Chars → List Chars
unfolding has_char trim
actors_in [] = []
actors_in (param ∷ params) =
    let rest = actors_in params in if has_char b'=' param then rest else push_line (trim param) rest

-- The match on the key of a parameter of a group.
unfoldable pub set_group_param : Chars × Chars → ProxyGroup → ProxyGroup
unfolding text_eq parse_i32
set_group_param (k, v) g =
    if text_eq k (codes "health-check")
    then record g { health_check = is_true v }
    else if text_eq k (codes "check-interval")
    then record g { check_interval = parse_i32 v }
    else if text_eq k (codes "fail-timeout")
    then record g { fail_timeout = parse_i32 v }
    else if text_eq k (codes "failover")
    then record g { failover = is_true v }
    else if text_eq k (codes "delay-base")
    then record g { delay_base = parse_i32 v }
    else g

abbrev set_group_if : Option (Chars × Chars) → ProxyGroup → ProxyGroup
set_group_if none g = g
set_group_if (some kv) g = set_group_param kv g

unfoldable pub set_group_params : List Chars → ProxyGroup → ProxyGroup
unfolding set_group_param key_value
set_group_params [] g = g
set_group_params (param ∷ params) g = set_group_params params (set_group_if (key_value param) g)

-- The two other names of a failover group.
unfoldable pub renamed_group : ProxyGroup → ProxyGroup
unfolding text_eq
renamed_group g =
    if text_eq g.protocol (codes "url-test")
    then record g { protocol = codes "failover"; failover = some false }
    else if text_eq g.protocol (codes "fallback")
    then record g { protocol = codes "failover" }
    else g

abbrev group_with : Chars → Chars → List Chars → List Chars → Option ProxyGroup
group_with tag protocol params [] = none
group_with tag protocol params (a ∷ actors) = some (
    renamed_group (
      set_group_params params
        (record default_group { tag = tag; protocol = protocol; actors = some (a ∷ actors) })))

abbrev group_from : Chars → Option (List Chars) → Option ProxyGroup
group_from tag none = none
group_from tag (some []) = none
group_from tag (some (protocol ∷ params)) = group_with tag protocol params (actors_in params)

abbrev group_tagged : Chars → Chars → Option ProxyGroup
group_tagged [] params = none
group_tagged (c ∷ tag) params = group_from (c ∷ tag) (get_char_sep_slice params b',')

abbrev group_parts : Option (Chars × Chars) → Option ProxyGroup
group_parts none = none
group_parts (some (tag, params)) = group_tagged (trim tag) params

-- A line of the section "Proxy Group".
unfoldable pub group_of : Chars → Option ProxyGroup
unfolding renamed_group set_group_params actors_in get_char_sep_slice trim split_once default_group
group_of line = group_parts (split_once b'=' line)

-- The types whose filter is kept.
unfoldable pub has_filter : Chars → Bool
unfolding text_eq
has_filter t =
    text_eq t (codes "IP-CIDR")
    || text_eq t (codes "DOMAIN")
    || text_eq t (codes "DOMAIN-SUFFIX")
    || text_eq t (codes "DOMAIN-KEYWORD")
    || text_eq t (codes "GEOIP")
    || text_eq t (codes "EXTERNAL")

abbrev full_rule : Chars → Chars → List Chars → Option Rule
full_rule type_field filter [] = none
full_rule type_field filter (target ∷ params) = some (record {
  type_field = type_field;
  filter = if has_filter type_field then some filter else none;
  target = target;
})

abbrev rule_from : Option (List Chars) → Option Rule
rule_from (some (type_field ∷ second ∷ params)) =
    if text_eq type_field (codes "FINAL")
    then some (record { type_field = type_field; filter = none; target = second })
    else full_rule type_field second params
rule_from params = none

-- A line of the section "Rule".
unfoldable pub rule_of : Chars → Option Rule
unfolding has_filter get_char_sep_slice text_eq
rule_of line = rule_from (get_char_sep_slice line b',')

abbrev pub push_some : {A : Type 0} → Option A → List A → List A
push_some none xs = xs
push_some (some x) xs = x ∷ xs

abbrev pub each_line : {A : Type 0} → (Chars → Option A) → List Chars → List A
each_line of_line [] = []
each_line of_line (line ∷ lines) = push_some (of_line line) (each_line of_line lines)

unfoldable pub from_lines : List (Option Chars) → Config
unfolding general_from proxy_of group_of rule_of get_lines_by_section default_general
from_lines lines = record {
  general = some (general_from (get_lines_by_section (codes "General") lines) default_general);
  proxy = some (each_line proxy_of (get_lines_by_section (codes "Proxy") lines));
  proxy_group = some (each_line group_of (get_lines_by_section (codes "Proxy Group") lines));
  rule = some (each_line rule_of (get_lines_by_section (codes "Rule") lines));
}
